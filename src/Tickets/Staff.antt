-- ===== src/Tickets/Staff.antt =====
-- src/server/tickets/ticket.service.ts: the operations on tickets that are in the queue. A result
-- is the ticket as written; it is `ok` if the transaction commits.
use filazero_local.Base.{
  ℕ, Bool, not, Option, none, some, List, ◌==◌, if◌then◌else◌, is_some_of, count_if, find,
}
use filazero_local.Errors.{Result, ok, ErrorCode, require, or_throw, ◌>>=◌, ◌>>◌}
use filazero_local.Access.Rbac.{Permission}
use filazero_local.Access.Context.{AuthContext, require_permission}
use filazero_local.Tickets.State.{
  TicketStatus, assert_ticket_transition, is_waiting, is_in_progress,
}
use filazero_local.Database.{
  Db, Ticket, Queue, NotificationType, AuditAction, QueueEventType, write_queue,
}
use filazero_local.Tickets.Rows.{in_progress_in, waiting_line}
use filazero_local.Tickets.Positions.{recompute_positions}
use filazero_local.Tickets.Writes.{
  write_ticket, load_ticket, check_staff, require_ticket_for_staff, announce, retire,
}

-- `tx.queue.update({ currentTicketId })`
unfoldable pub set_current : ℕ → Queue → ℕ → Db → Db
unfolding write_queue
set_current queue_id queue id db =
    write_queue queue_id (record queue { current_ticket_id = some id }) db

abbrev pub as_called : AuthContext → ℕ → Ticket → Ticket
as_called ctx now t = record t {
  status = TicketStatus.called;
  called_at = some now;
  position = none;
  served_by_id = some ctx.user_id;
  updated_at = now;
}

-- `FOR UPDATE SKIP LOCKED LIMIT 1`: the first row of the line that no other transaction has locked.
unfoldable pub next_unlocked : (ℕ → Bool) → List Ticket → Option Ticket
next_unlocked locked line = find (λ t. not (locked t.id)) line

-- `locked` tells which ticket rows other transactions hold.
unfoldable pub call_next : (ℕ → Bool) → AuthContext → ℕ → ℕ → Db → Result (Ticket × Db)
unfolding next_unlocked
call_next locked ctx queue_id now db = do
  queue ← or_throw (db.queues queue_id) ErrorCode.not_found
  check_staff ctx Permission.ticket_call queue
  require (count_if (in_progress_in queue_id) db.tickets == 0) ErrorCode.invalid_state
  next ← or_throw (next_unlocked locked (waiting_line queue_id db.tickets)) ErrorCode.invalid_state
  let called = as_called ctx now next
  let pointed = set_current queue_id queue next.id (write_ticket next.id (as_called ctx now) db)
  let moved = recompute_positions now queue_id pointed
  ok (
    called,
    announce ctx called.user_id NotificationType.customer_called AuditAction.call
        QueueEventType.ticket_called queue.organization_id called moved,
  )

abbrev pub as_recalled : ℕ → Ticket → Ticket
as_recalled now t = record t { called_at = some now; updated_at = now }

unfoldable pub recall_ticket : AuthContext → ℕ → ℕ → Db → Result (Ticket × Db)
recall_ticket ctx id now db = do
  (ticket, queue) ← require_ticket_for_staff ctx id Permission.ticket_call db
  require (is_in_progress ticket.status) ErrorCode.invalid_state
  let recalled = as_recalled now ticket
  ok (
    recalled,
    announce ctx ticket.user_id NotificationType.customer_called AuditAction.recall
        QueueEventType.ticket_called queue.organization_id recalled
        (write_ticket id (as_recalled now) db),
  )

abbrev pub as_serving : AuthContext → ℕ → Ticket → Ticket
as_serving ctx now t = record t {
  status = TicketStatus.serving;
  serving_at = some now;
  served_by_id = some ctx.user_id;
  updated_at = now;
}

unfoldable pub start_serving : AuthContext → ℕ → ℕ → Db → Result (Ticket × Db)
start_serving ctx id now db = do
  (ticket, queue) ← require_ticket_for_staff ctx id Permission.ticket_serve db
  assert_ticket_transition ticket.status TicketStatus.serving
  let serving = as_serving ctx now ticket
  let pointed = set_current ticket.queue_id queue id (write_ticket id (as_serving ctx now) db)
  ok (
    serving,
    announce ctx ticket.user_id NotificationType.serving_started AuditAction.serve
        QueueEventType.ticket_serving queue.organization_id serving pointed,
  )

abbrev pub as_completed : ℕ → Ticket → Ticket
as_completed now t = record t {
  status = TicketStatus.completed;
  completed_at = some now;
  updated_at = now;
}

unfoldable pub complete_service : AuthContext → ℕ → ℕ → Db → Result (Ticket × Db)
complete_service ctx id now db = do
  (ticket, queue) ← require_ticket_for_staff ctx id Permission.ticket_complete db
  assert_ticket_transition ticket.status TicketStatus.completed
  let completed = as_completed now ticket
  ok (
    completed,
    announce ctx ticket.user_id NotificationType.service_completed AuditAction.complete
        QueueEventType.ticket_completed queue.organization_id completed
        (retire now ticket (as_completed now) db),
  )

abbrev pub as_no_show : ℕ → Ticket → Ticket
as_no_show now t = record t {
  status = TicketStatus.no_show;
  cancelled_at = some now;
  position = none;
  updated_at = now;
}

unfoldable pub mark_no_show : AuthContext → ℕ → ℕ → Db → Result (Ticket × Db)
mark_no_show ctx id now db = do
  (ticket, queue) ← require_ticket_for_staff ctx id Permission.ticket_cancel db
  assert_ticket_transition ticket.status TicketStatus.no_show
  let absent = as_no_show now ticket
  ok (
    absent,
    announce ctx ticket.user_id NotificationType.ticket_cancelled AuditAction.mark_no_show
        QueueEventType.ticket_no_show queue.organization_id absent
        (retire now ticket (as_no_show now) db),
  )

abbrev pub as_cancelled : ℕ → Ticket → Ticket
as_cancelled now t = record t {
  status = TicketStatus.cancelled;
  cancelled_at = some now;
  position = none;
  updated_at = now;
}

-- Whether the caller owns the ticket. A ticket with no account is nobody's.
abbrev pub owns : AuthContext → Ticket → Bool
owns ctx t = is_some_of ctx.user_id t.user_id

-- Who may cancel: the owner while the ticket waits, and the staff of its branch.
unfoldable pub check_cancel : AuthContext → Ticket → Queue → Result (Unit {0})
check_cancel ctx ticket queue =
    if owns ctx ticket
    then (do
      require_permission ctx Permission.ticket_leave_self
      require (is_waiting ticket.status) ErrorCode.forbidden)
    else check_staff ctx Permission.ticket_cancel queue

unfoldable pub cancel_ticket : AuthContext → ℕ → ℕ → Db → Result (Ticket × Db)
cancel_ticket ctx id now db = do
  (ticket, queue) ← load_ticket id db
  check_cancel ctx ticket queue
  assert_ticket_transition ticket.status TicketStatus.cancelled
  let cancelled = as_cancelled now ticket
  ok (
    cancelled,
    announce ctx ticket.user_id NotificationType.ticket_cancelled AuditAction.cancel
        QueueEventType.ticket_cancelled queue.organization_id cancelled
        (retire now ticket (as_cancelled now) db),
  )

-- Who may leave: the owner, and the staff of the branch.
unfoldable pub check_leave : AuthContext → Ticket → Queue → Result (Unit {0})
check_leave ctx ticket queue =
    if owns ctx ticket
    then require_permission ctx Permission.ticket_leave_self
    else check_staff ctx Permission.ticket_cancel queue

unfoldable pub leave_queue : AuthContext → ℕ → ℕ → Db → Result (Ticket × Db)
leave_queue ctx id now db = do
  (ticket, queue) ← load_ticket id db
  check_leave ctx ticket queue
  assert_ticket_transition ticket.status TicketStatus.cancelled
  let cancelled = as_cancelled now ticket
  ok (
    cancelled,
    announce ctx ticket.user_id NotificationType.ticket_cancelled AuditAction.leave
        QueueEventType.ticket_left queue.organization_id cancelled
        (retire now ticket (as_cancelled now) db),
  )
