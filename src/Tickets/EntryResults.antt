-- ===== src/Tickets/EntryResults.antt =====
-- What a successful call that puts a ticket into a queue has read, passed and written.
use filazero_local.Base.{
  ℕ, ◌+◌, ◌≡◌, true, false, Option, none, some, inl, inr, arith, ◌==◌, Text, count_if, Option-cases,
}
use filazero_local.Errors.{ok, >>=-eq-ok, Result-cases}
use filazero_local.Access.Rbac.{Permission}
use filazero_local.Access.Context.{AuthContext, require_permission}
use filazero_local.Database.{
  Db, Ticket, Queue, NotificationType, AuditAction, QueueEventType, publish_queue_event,
  record_audit,
}
use filazero_local.Tickets.State.{is_active_ticket_status}
use filazero_local.Tickets.Rows.{active_of}
use filazero_local.Tickets.Writes.{check_staff, require_ticket_for_staff, announce}
use filazero_local.Tickets.Writes.{is_open, replace_ticket}
use filazero_local.Tickets.Positions.{recompute_positions}
use filazero_local.Tickets.Join.{
  draw_number, new_ticket, guest_phone_of, guest_name_of, is_available, assert_operational,
  join_queue, join_queue_as_guest,
}
use filazero_local.Tickets.Writes.{insert_ticket, ticket_event}
use filazero_local.Tickets.Transfer.{as_transferred, clear_pointer_of, transfer_ticket}
use filazero_local.Tickets.Results.{Loaded, staff-Loaded}

pub transfer_ticket-result :
    (ctx : AuthContext) (id target_id now : ℕ) (db : Db) (r : Ticket × Db)
    → transfer_ticket ctx id target_id now db ≡ ok r
    → (ticket : Ticket) × (queue : Queue) × (target : Queue) × (written : Db) × Loaded id db ticket
        queue
      × (check_staff ctx Permission.ticket_call queue ≡ ok tt)
      × ((ticket.queue_id == target_id) ≡ false)
      × (is_active_ticket_status ticket.status ≡ true)
      × (db.queues target_id ≡ some target)
      × (target.organization_id ≡ queue.organization_id)
      × (is_open target.status ≡ true)
      × (replace_ticket
            (as_transferred target_id (target.ticket_sequence + 1) now ticket)
            (draw_number target_id target db)
          ≡ ok written)
      × (r ≡ (
        as_transferred target_id (target.ticket_sequence + 1) now ticket,
        announce ctx ticket.user_id NotificationType.queue_joined AuditAction.transfer
            QueueEventType.ticket_joined queue.organization_id
            (as_transferred target_id (target.ticket_sequence + 1) now ticket)
            (recompute_positions now target_id (
              recompute_positions now ticket.queue_id
                (clear_pointer_of ticket.queue_id id written))),
      ))
unfolding transfer_ticket
transfer_ticket-result ctx id target_id now db r h =
    let (tq, e, k) = >>=-eq-ok (require_ticket_for_staff ctx id Permission.ticket_call db) _ h in
    let s = staff-Loaded ctx id Permission.ticket_call db tq e in
    elim (Option-cases (db.queues target_id)) [
      | inl e' ↦ absurd (ground arith)
      | inr (target, e') ↦
          elim (Result-cases (
            replace_ticket (as_transferred target_id (target.ticket_sequence + 1) now tq.0)
              (draw_number target_id target db))) [
                | inl (f, e'') ↦ absurd (ground arith)
                | inr (written, e'') ↦ (
                  tq.0,
                  tq.1,
                  target,
                  written,
                  s.0,
                  s.1,
                  ground arith,
                  ground arith,
                  e',
                  ground arith,
                  ground arith,
                  e'',
                  ground arith,
                )
              ]
    ]

pub join_queue-result :
    (ctx : AuthContext) (queue_id id now : ℕ) (db : Db) (r : Ticket × Db)
    → join_queue ctx queue_id id now db ≡ ok r
    → (queue : Queue) × (created : Db) × (db.queues queue_id ≡ some queue)
      × (require_permission ctx Permission.ticket_join ≡ ok tt)
      × (assert_operational ctx now db ≡ ok tt)
      × (is_open queue.status ≡ true)
      × (is_available db queue.branch_id ≡ true)
      × (count_if (active_of ctx.user_id queue_id) db.tickets ≡ 0)
      × (insert_ticket
            (new_ticket id queue_id queue (some ctx.user_id) none none now db)
            (draw_number queue_id queue db)
          ≡ ok created)
      × (r ≡ (
        new_ticket id queue_id queue (some ctx.user_id) none none now db,
        announce ctx
            (some ctx.user_id)
            NotificationType.queue_joined
            AuditAction.join
            QueueEventType.ticket_joined
            queue.organization_id
            (new_ticket id queue_id queue (some ctx.user_id) none none now db)
            created,
      ))
unfolding join_queue
join_queue-result ctx queue_id id now db r h = elim (Option-cases (db.queues queue_id)) [
  | inl e ↦ absurd (ground arith)
  | inr (queue, e) ↦
      elim (Result-cases (
        insert_ticket (new_ticket id queue_id queue (some ctx.user_id) none none now db)
          (draw_number queue_id queue db))) [
            | inl (f, e') ↦ absurd (ground arith)
            | inr (created, e') ↦ (
              queue,
              created,
              e,
              ground arith,
              ground arith,
              ground arith,
              ground arith,
              ground arith,
              e',
              ground arith,
            )
          ]
]

pub join_queue_as_guest-result :
    (queue_id : ℕ) (name phone : Option Text) (id now : ℕ) (db : Db) (r : Ticket × Db)
    → join_queue_as_guest queue_id name phone id now db ≡ ok r
    → (queue : Queue) × (created : Db) × (number : Option Text) × (guest_phone_of phone ≡ ok number)
      × (db.queues queue_id ≡ some queue)
      × (queue.kiosk_enabled ≡ true)
      × (is_open queue.status ≡ true)
      × (is_available db queue.branch_id ≡ true)
      × (insert_ticket
            (new_ticket id queue_id queue none (guest_name_of name) number now db)
            (draw_number queue_id queue db)
          ≡ ok created)
      × (r ≡ (
        new_ticket id queue_id queue none (guest_name_of name) number now db,
        publish_queue_event
            (ticket_event QueueEventType.ticket_joined queue.organization_id
              (new_ticket id queue_id queue none (guest_name_of name) number now db))
            (record_audit none AuditAction.join_guest id created),
      ))
unfolding join_queue_as_guest
join_queue_as_guest-result queue_id name phone id now db r h =
    let (number, p, k) = >>=-eq-ok (guest_phone_of phone) _ h in
    elim (Option-cases (db.queues queue_id)) [
      | inl e ↦ absurd (ground arith)
      | inr (queue, e) ↦
          elim (Result-cases (
            insert_ticket (new_ticket id queue_id queue none (guest_name_of name) number now db)
              (draw_number queue_id queue db))) [
                | inl (f, e') ↦ absurd (ground arith)
                | inr (created, e') ↦ (
                  queue,
                  created,
                  number,
                  p,
                  e,
                  ground arith,
                  ground arith,
                  ground arith,
                  e',
                  ground arith,
                )
              ]
    ]
