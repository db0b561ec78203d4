-- ===== src/Tickets/Writes.antt =====
-- The writes of src/server/tickets/ticket.service.ts, with the constraints of the tables
-- (src/prisma/migrations/0001_init/migration.sql). A refused write is Prisma's P2002, which
-- src/lib/http.ts reports as CONFLICT.
use filazero_local.Base.{
  ℕ, Bool, true, false, not, ◌&&◌, ◌||◌, Option, none, some, [], ◌∷◌, ◌++◌, ◌==◌, if◌then◌else◌,
  is_some_of, count_if, modify_where, find,
}
use filazero_local.Errors.{Result, ok, ErrorCode, require, or_throw, ◌>>=◌, ◌>>◌}
use filazero_local.Access.Rbac.{Permission}
use filazero_local.Access.Context.{
  AuthContext, require_permission, assert_organization_access, assert_branch_access,
}
use filazero_local.Tickets.State.{is_active}
use filazero_local.Database.{
  Db, Ticket, Queue, QueueStatus, NotificationType, AuditAction, QueueEvent, QueueEventType,
  publish_queue_event, record_audit,
}
use filazero_local.Notifications.Create.{notify_owner}
use filazero_local.Tickets.Rows.{has_id, has_number, active_of}
use filazero_local.Tickets.Positions.{recompute_positions}

abbrev pub is_open : QueueStatus → Bool
is_open QueueStatus.opened = true
is_open _ = false

-- Whether `u` is an active ticket of the same user in the same queue as the active ticket `t`.
abbrev pub same_holder : Option ℕ → Ticket → Ticket → Bool
same_holder none t u = false
same_holder (some user) t u = is_active t.status && active_of user t.queue_id u

-- Whether a unique index keeps `t` out beside `u`.
abbrev pub collides : Ticket → Ticket → Bool
collides t u = has_number t.queue_id t.ticket_number u || same_holder t.user_id t u

unfoldable pub insert_ticket : Ticket → Db → Result Db
insert_ticket t db = do
  require (count_if (λ u. has_id t.id u || collides t u) db.tickets == 0) ErrorCode.conflict
  ok (record db { tickets = db.tickets ++ t ∷ [] })

-- An update by primary key that leaves the indexed columns alone, or takes the row out of the
-- partial index: no constraint can refuse it.
unfoldable pub write_ticket : ℕ → (Ticket → Ticket) → Db → Db
write_ticket id f db = record db { tickets = modify_where (has_id id) f db.tickets }

-- The same for a row that gets new indexed columns: the other rows are checked.
unfoldable pub replace_ticket : Ticket → Db → Result Db
replace_ticket t db = do
  require (count_if (λ u. not (has_id t.id u) && collides t u) db.tickets == 0) ErrorCode.conflict
  ok (record db { tickets = modify_where (has_id t.id) (λ _. t) db.tickets })

abbrev pub clear_pointer : ℕ → Option Queue → Option Queue
clear_pointer id none = none
clear_pointer id (some q) =
    some (if is_some_of id q.current_ticket_id then record q { current_ticket_id = none } else q)

-- `clearCurrentTicket`
unfoldable pub clear_current_ticket : ℕ → Db → Db
clear_current_ticket id db = record db { queues = λ k. clear_pointer id (db.queues k) }

-- A ticket and its queue.
unfoldable pub load_ticket : ℕ → Db → Result (Ticket × Queue)
load_ticket id db = do
  ticket ← or_throw (find (has_id id) db.tickets) ErrorCode.not_found
  queue ← or_throw (db.queues ticket.queue_id) ErrorCode.internal
  ok (ticket, queue)

-- The part of `requireTicketForStaff` that follows the query.
unfoldable pub check_staff : AuthContext → Permission → Queue → Result (Unit {0})
check_staff ctx permission queue = do
  require_permission ctx permission
  assert_organization_access ctx queue.organization_id
  assert_branch_access ctx queue.organization_id queue.branch_id

unfoldable pub require_ticket_for_staff :
    AuthContext → ℕ → Permission → Db → Result (Ticket × Queue)
unfolding load_ticket check_staff
require_ticket_for_staff ctx id permission db = do
  (ticket, queue) ← load_ticket id db
  check_staff ctx permission queue
  ok (ticket, queue)

abbrev pub ticket_event : QueueEventType → ℕ → Ticket → QueueEvent
ticket_event kind organization t = record {
  kind = kind;
  queue_id = t.queue_id;
  organization_id = organization;
  ticket_id = some t.id;
  ticket_number = some t.ticket_number;
  ticket_status = some t.status;
  queue_status = none;
}

-- How every operation ends once its rows are written: the owner is told, the audit trail gets a row,
-- and after the commit the event is published.
unfoldable pub announce :
    AuthContext → Option ℕ → NotificationType → AuditAction → QueueEventType → ℕ → Ticket → Db → Db
announce ctx owner note action kind organization t db =
    publish_queue_event (ticket_event kind organization t)
      (record_audit (some ctx.user_id) action t.id (notify_owner owner note t.id db))

-- The end of a ticket: the row is written, no queue shows it as current any more, and the
-- positions of its queue are recomputed.
unfoldable pub retire : ℕ → Ticket → (Ticket → Ticket) → Db → Db
unfolding write_ticket clear_current_ticket
retire now ticket f db =
    recompute_positions now ticket.queue_id
      (clear_current_ticket ticket.id (write_ticket ticket.id f db))
