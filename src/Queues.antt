-- ===== src/Queues.antt =====
-- src/server/queues/queue.service.ts: what the managers of a branch do with a queue.
pub mod Status
pub mod StatusLaws
