-- ===== src/Tickets/Transfer.antt =====
-- src/server/tickets/ticket.service.ts: `transferTicket`.
use filazero_local.Base.{ℕ, ◌+◌, not, none, ◌==◌, if◌then◌else◌}
use filazero_local.Errors.{Result, ok, ErrorCode, require, or_throw, ◌>>=◌, ◌>>◌}
use filazero_local.Access.Rbac.{Permission}
use filazero_local.Access.Context.{AuthContext}
use filazero_local.Tickets.State.{TicketStatus, is_active_ticket_status}
use filazero_local.Database.{Db, Ticket, NotificationType, AuditAction, QueueEventType}
use filazero_local.Tickets.Positions.{recompute_positions}
use filazero_local.Tickets.Writes.{
  is_open, replace_ticket, clear_pointer, require_ticket_for_staff, announce,
}
use filazero_local.Tickets.Join.{draw_number}

-- The row that `transferTicket` writes.
abbrev pub as_transferred : ℕ → ℕ → ℕ → Ticket → Ticket
as_transferred target number now t = record t {
  queue_id = target;
  ticket_number = number;
  status = TicketStatus.waiting;
  position = none;
  called_at = none;
  serving_at = none;
  served_by_id = none;
  updated_at = now;
}

-- `tx.queue.updateMany({ where: { id, currentTicketId } })`
unfoldable pub clear_pointer_of : ℕ → ℕ → Db → Db
clear_pointer_of queue_id id db = record db {
  queues = λ k. if k == queue_id then clear_pointer id (db.queues k) else db.queues k;
}

unfoldable pub transfer_ticket : AuthContext → ℕ → ℕ → ℕ → Db → Result (Ticket × Db)
unfolding draw_number
transfer_ticket ctx id target_id now db = do
  (ticket, queue) ← require_ticket_for_staff ctx id Permission.ticket_call db
  require (not (ticket.queue_id == target_id)) ErrorCode.bad_request
  require (is_active_ticket_status ticket.status) ErrorCode.invalid_state
  target ← or_throw (db.queues target_id) ErrorCode.not_found
  require (target.organization_id == queue.organization_id) ErrorCode.bad_request
  require (is_open target.status) ErrorCode.queue_closed
  let moved = as_transferred target_id (target.ticket_sequence + 1) now ticket
  written ← replace_ticket moved (draw_number target_id target db)
  let cleared = clear_pointer_of ticket.queue_id id written
  let settled = recompute_positions now target_id (recompute_positions now ticket.queue_id cleared)
  ok (
    moved,
    announce ctx ticket.user_id NotificationType.queue_joined AuditAction.transfer
        QueueEventType.ticket_joined queue.organization_id moved settled,
  )
