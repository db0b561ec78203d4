-- ===== src/Tickets/Results.antt =====
-- What a successful call of each operation has read, passed and written.
use filazero_local.Base.{ℕ, ◌≡◌, Bool, true, some, inl, inr, arith, count_if, find, Option-cases}
use filazero_local.Errors.{ok, >>=-eq-ok}
use filazero_local.Access.Rbac.{Permission}
use filazero_local.Access.Context.{AuthContext}
use filazero_local.Database.{Db, Ticket, Queue, NotificationType, AuditAction, QueueEventType}
use filazero_local.Tickets.State.{
  TicketStatus, can_transition_ticket, assert_ticket_transition, is_in_progress,
}
use filazero_local.Tickets.Rows.{has_id, in_progress_in, waiting_line}
use filazero_local.Tickets.Writes.{
  load_ticket, check_staff, require_ticket_for_staff, write_ticket, announce, retire,
}
use filazero_local.Tickets.Positions.{recompute_positions}
use filazero_local.Tickets.Staff.{
  as_called, as_recalled, as_serving, as_completed, as_no_show, as_cancelled, set_current,
  next_unlocked, check_cancel, check_leave, call_next, recall_ticket, start_serving,
  complete_service, mark_no_show, cancel_ticket, leave_queue,
}

-- The ticket and the queue that an operation on a ticket starts from.
abbrev pub Loaded : ℕ → Db → Ticket → Queue → Type 0
Loaded id db ticket queue =
    (find (has_id id) db.tickets ≡ some ticket) × (db.queues ticket.queue_id ≡ some queue)

pub load_ticket-Loaded :
    (id : ℕ) (db : Db) (r : Ticket × Queue) → load_ticket id db ≡ ok r → Loaded id db r.0 r.1
unfolding load_ticket
load_ticket-Loaded id db r h = ground arith

pub staff-Loaded :
    (ctx : AuthContext) (id : ℕ) (p : Permission) (db : Db) (r : Ticket × Queue)
    → require_ticket_for_staff ctx id p db ≡ ok r
    → Loaded id db r.0 r.1 × (check_staff ctx p r.1 ≡ ok tt)
unfolding require_ticket_for_staff
staff-Loaded ctx id p db r h = ground arith

pub complete_service-result :
    (ctx : AuthContext) (id now : ℕ) (db : Db) (r : Ticket × Db)
    → complete_service ctx id now db ≡ ok r
    → (ticket : Ticket) × (queue : Queue) × Loaded id db ticket queue
      × (check_staff ctx Permission.ticket_complete queue ≡ ok tt)
      × (can_transition_ticket ticket.status TicketStatus.completed ≡ true)
      × (r ≡ (
        as_completed now ticket,
        announce ctx ticket.user_id NotificationType.service_completed AuditAction.complete
            QueueEventType.ticket_completed queue.organization_id
            (as_completed now ticket)
            (retire now ticket (as_completed now) db),
      ))
unfolding complete_service assert_ticket_transition
complete_service-result ctx id now db r h =
    let (tq, e, k) =
      >>=-eq-ok (require_ticket_for_staff ctx id Permission.ticket_complete db) _ h in
    let s = staff-Loaded ctx id Permission.ticket_complete db tq e in
    (tq.0, tq.1, s.0, s.1, ground arith, ground arith)

pub mark_no_show-result :
    (ctx : AuthContext) (id now : ℕ) (db : Db) (r : Ticket × Db)
    → mark_no_show ctx id now db ≡ ok r
    → (ticket : Ticket) × (queue : Queue) × Loaded id db ticket queue
      × (check_staff ctx Permission.ticket_cancel queue ≡ ok tt)
      × (can_transition_ticket ticket.status TicketStatus.no_show ≡ true)
      × (r ≡ (
        as_no_show now ticket,
        announce ctx ticket.user_id NotificationType.ticket_cancelled AuditAction.mark_no_show
            QueueEventType.ticket_no_show queue.organization_id
            (as_no_show now ticket)
            (retire now ticket (as_no_show now) db),
      ))
unfolding mark_no_show assert_ticket_transition
mark_no_show-result ctx id now db r h =
    let (tq, e, k) = >>=-eq-ok (require_ticket_for_staff ctx id Permission.ticket_cancel db) _ h in
    let s = staff-Loaded ctx id Permission.ticket_cancel db tq e in
    (tq.0, tq.1, s.0, s.1, ground arith, ground arith)

pub start_serving-result :
    (ctx : AuthContext) (id now : ℕ) (db : Db) (r : Ticket × Db)
    → start_serving ctx id now db ≡ ok r
    → (ticket : Ticket) × (queue : Queue) × Loaded id db ticket queue
      × (check_staff ctx Permission.ticket_serve queue ≡ ok tt)
      × (can_transition_ticket ticket.status TicketStatus.serving ≡ true)
      × (r ≡ (
        as_serving ctx now ticket,
        announce ctx ticket.user_id NotificationType.serving_started AuditAction.serve
            QueueEventType.ticket_serving queue.organization_id
            (as_serving ctx now ticket)
            (set_current ticket.queue_id queue id (write_ticket id (as_serving ctx now) db)),
      ))
unfolding start_serving assert_ticket_transition
start_serving-result ctx id now db r h =
    let (tq, e, k) = >>=-eq-ok (require_ticket_for_staff ctx id Permission.ticket_serve db) _ h in
    let s = staff-Loaded ctx id Permission.ticket_serve db tq e in
    (tq.0, tq.1, s.0, s.1, ground arith, ground arith)

pub cancel_ticket-result :
    (ctx : AuthContext) (id now : ℕ) (db : Db) (r : Ticket × Db)
    → cancel_ticket ctx id now db ≡ ok r
    → (ticket : Ticket) × (queue : Queue) × Loaded id db ticket queue
      × (check_cancel ctx ticket queue ≡ ok tt)
      × (can_transition_ticket ticket.status TicketStatus.cancelled ≡ true)
      × (r ≡ (
        as_cancelled now ticket,
        announce ctx ticket.user_id NotificationType.ticket_cancelled AuditAction.cancel
            QueueEventType.ticket_cancelled queue.organization_id
            (as_cancelled now ticket)
            (retire now ticket (as_cancelled now) db),
      ))
unfolding cancel_ticket assert_ticket_transition
cancel_ticket-result ctx id now db r h =
    let (tq, e, k) = >>=-eq-ok (load_ticket id db) _ h in
    (tq.0, tq.1, load_ticket-Loaded id db tq e, ground arith, ground arith, ground arith)

pub leave_queue-result :
    (ctx : AuthContext) (id now : ℕ) (db : Db) (r : Ticket × Db)
    → leave_queue ctx id now db ≡ ok r
    → (ticket : Ticket) × (queue : Queue) × Loaded id db ticket queue
      × (check_leave ctx ticket queue ≡ ok tt)
      × (can_transition_ticket ticket.status TicketStatus.cancelled ≡ true)
      × (r ≡ (
        as_cancelled now ticket,
        announce ctx ticket.user_id NotificationType.ticket_cancelled AuditAction.leave
            QueueEventType.ticket_left queue.organization_id
            (as_cancelled now ticket)
            (retire now ticket (as_cancelled now) db),
      ))
unfolding leave_queue assert_ticket_transition
leave_queue-result ctx id now db r h =
    let (tq, e, k) = >>=-eq-ok (load_ticket id db) _ h in
    (tq.0, tq.1, load_ticket-Loaded id db tq e, ground arith, ground arith, ground arith)

pub recall_ticket-result :
    (ctx : AuthContext) (id now : ℕ) (db : Db) (r : Ticket × Db)
    → recall_ticket ctx id now db ≡ ok r
    → (ticket : Ticket) × (queue : Queue) × Loaded id db ticket queue
      × (check_staff ctx Permission.ticket_call queue ≡ ok tt)
      × (is_in_progress ticket.status ≡ true)
      × (r ≡ (
        as_recalled now ticket,
        announce ctx ticket.user_id NotificationType.customer_called AuditAction.recall
            QueueEventType.ticket_called queue.organization_id
            (as_recalled now ticket)
            (write_ticket id (as_recalled now) db),
      ))
unfolding recall_ticket
recall_ticket-result ctx id now db r h =
    let (tq, e, k) = >>=-eq-ok (require_ticket_for_staff ctx id Permission.ticket_call db) _ h in
    let s = staff-Loaded ctx id Permission.ticket_call db tq e in
    (tq.0, tq.1, s.0, s.1, ground arith, ground arith)

pub call_next-result :
    (locked : ℕ → Bool) (ctx : AuthContext) (queue_id now : ℕ) (db : Db) (r : Ticket × Db)
    → call_next locked ctx queue_id now db ≡ ok r
    → (next : Ticket) × (queue : Queue) × (db.queues queue_id ≡ some queue)
      × (check_staff ctx Permission.ticket_call queue ≡ ok tt)
      × (count_if (in_progress_in queue_id) db.tickets ≡ 0)
      × (next_unlocked locked (waiting_line queue_id db.tickets) ≡ some next)
      × (r ≡ (
        as_called ctx now next,
        announce ctx next.user_id NotificationType.customer_called AuditAction.call
            QueueEventType.ticket_called queue.organization_id
            (as_called ctx now next)
            (recompute_positions now queue_id
              (set_current queue_id queue next.id (write_ticket next.id (as_called ctx now) db))),
      ))
unfolding call_next
call_next-result locked ctx queue_id now db r h = elim (Option-cases (db.queues queue_id)) [
  | inl e ↦ absurd (ground arith)
  | inr (queue, e) ↦ elim (Option-cases (next_unlocked locked (waiting_line queue_id db.tickets))) [
    | inl e' ↦ absurd (ground arith)
    | inr (next, e') ↦ (next, queue, e, ground arith, ground arith, e', ground arith)
  ]
]
