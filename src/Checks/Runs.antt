-- ===== src/Checks/Runs.antt =====
-- A run of the queue engine: the customer 5 joins the queue 1, and the member of staff 9 calls.
use filazero_local.Base.{
  ℕ, ◌≤◌, ◌≡◌, refl, subst, Bool, true, false, some, inl, inr, arith, count_if, In,
}
use filazero_local.Errors.{Result, ok}
use filazero_local.Access.Rbac.{can}
use filazero_local.Access.Context.{
  require_permission, assert_organization_access, assert_branch_access, active_memberships,
}
use filazero_local.Database.{Db, Queue, Ticket, write_queue, publish_queue_event, record_audit}
use filazero_local.Notifications.Create.{
  notify_owner, create_notification, enqueue_notification_deliveries,
}
use filazero_local.Notifications.Phone.{is_out_of_app_type}
use filazero_local.Tickets.State.{is_in_progress, assert_ticket_transition, can_transition_ticket}
use filazero_local.Tickets.Rows.{has_id, waits_in, waiting_line, in_order, insert}
use filazero_local.Tickets.Positions.{
  row_number, renumber, recompute_positions, notify_promoted, is_promoted,
}
use filazero_local.Tickets.Writes.{
  insert_ticket, write_ticket, announce, load_ticket, check_staff, retire, clear_current_ticket,
}
use filazero_local.Tickets.Join.{
  join_queue, assert_operational, is_available, is_customer_operational, draw_number, new_ticket,
}
use filazero_local.Tickets.Staff.{
  call_next, check_leave, set_current, next_unlocked, leave_queue, owns,
}
use filazero_local.Tickets.Invariant.{Consistent}
use filazero_local.Tickets.Results.{Loaded}
use filazero_local.Tickets.LiveArrivals.{JoinedBy}
use filazero_local.Engine.Laws.{IsInitial-Consistent}
use filazero_local.Tickets.Admit.{join_queue-Consistent}
use filazero_local.Checks.Sample.{start, customer_ctx, staff_ctx, open_queue, left_by, ticket_of}
use filazero_local.Engine.{IsInitial}

-- Nobody holds a row.
abbrev pub unheld : ℕ → Bool
unheld id = false

abbrev pub joined : Result (Ticket × Db)
joined = join_queue customer_ctx 1 11 100 start

abbrev pub after_join : Db
after_join = left_by start joined

pub start-IsInitial : IsInitial start
start-IsInitial = record { no_tickets = refl; unused = λ q row h. ground arith }

pub joins : joined ≡ ok (ticket_of joined, after_join)
unfolding join_queue require_permission can assert_operational is_customer_operational is_available
    draw_number write_queue new_ticket insert_ticket
joins = refl

pub after_join-Consistent : Consistent after_join
after_join-Consistent =
    join_queue-Consistent customer_ctx 1 11 100 start (ticket_of joined, after_join) joins
      (IsInitial-Consistent start start-IsInitial)

abbrev pub called : Result (Ticket × Db)
called = call_next unheld staff_ctx 1 120 after_join

abbrev pub after_call : Db
after_call = left_by after_join called

pub calls : called ≡ ok (ticket_of called, after_call)
unfolding join_queue require_permission can assert_operational is_customer_operational is_available
    draw_number write_queue new_ticket insert_ticket call_next check_staff
    assert_organization_access assert_branch_access active_memberships next_unlocked waiting_line
    in_order insert notify_owner create_notification enqueue_notification_deliveries announce
    publish_queue_event record_audit is_out_of_app_type
calls = refl

-- The id of the second ticket is not taken.
pub second_is_new : count_if (has_id 12) after_join.tickets ≡ 0
unfolding join_queue require_permission can assert_operational is_customer_operational is_available
    draw_number write_queue new_ticket insert_ticket announce publish_queue_event record_audit
    notify_owner create_notification is_out_of_app_type
second_is_new = refl

abbrev pub second_join : Result (Ticket × Db)
second_join = join_queue customer_ctx 2 12 130 after_join

pub joins_again : second_join ≡ ok (ticket_of second_join, left_by after_join second_join)
unfolding join_queue require_permission can assert_operational is_customer_operational is_available
    draw_number write_queue new_ticket insert_ticket announce publish_queue_event record_audit
    notify_owner create_notification is_out_of_app_type
joins_again = refl

-- The queue 1 after the call.
abbrev pub called_queue : Queue
called_queue = record open_queue { ticket_sequence = 1; current_ticket_id = some 11 }

pub called-Loaded : Loaded 11 after_call (ticket_of called) called_queue
unfolding join_queue require_permission can assert_operational is_customer_operational is_available
    draw_number write_queue new_ticket insert_ticket announce publish_queue_event record_audit
    notify_owner create_notification is_out_of_app_type enqueue_notification_deliveries call_next
    check_staff assert_organization_access assert_branch_access active_memberships next_unlocked
    waiting_line in_order insert write_ticket set_current recompute_positions renumber row_number
    notify_promoted is_promoted load_ticket leave_queue check_leave retire clear_current_ticket
    assert_ticket_transition can_transition_ticket
called-Loaded = (refl, refl)

pub called-owned : owns customer_ctx (ticket_of called) ≡ true
unfolding join_queue require_permission can assert_operational is_customer_operational is_available
    draw_number write_queue new_ticket insert_ticket announce publish_queue_event record_audit
    notify_owner create_notification is_out_of_app_type enqueue_notification_deliveries call_next
    check_staff assert_organization_access assert_branch_access active_memberships next_unlocked
    waiting_line in_order insert write_ticket set_current recompute_positions renumber row_number
    notify_promoted is_promoted load_ticket leave_queue check_leave retire clear_current_ticket
    assert_ticket_transition can_transition_ticket
called-owned = refl

pub called-in_progress : is_in_progress (ticket_of called).status ≡ true
unfolding join_queue require_permission can assert_operational is_customer_operational is_available
    draw_number write_queue new_ticket insert_ticket announce publish_queue_event record_audit
    notify_owner create_notification is_out_of_app_type enqueue_notification_deliveries call_next
    check_staff assert_organization_access assert_branch_access active_memberships next_unlocked
    waiting_line in_order insert write_ticket set_current recompute_positions renumber row_number
    notify_promoted is_promoted load_ticket leave_queue check_leave retire clear_current_ticket
    assert_ticket_transition can_transition_ticket
called-in_progress = refl

-- The owner leaves although the ticket is called.
abbrev pub left : Result (Ticket × Db)
left = leave_queue customer_ctx 11 130 after_call

pub leaves : left ≡ ok (ticket_of left, left_by after_call left)
unfolding join_queue require_permission can assert_operational is_customer_operational is_available
    draw_number write_queue new_ticket insert_ticket announce publish_queue_event record_audit
    notify_owner create_notification is_out_of_app_type enqueue_notification_deliveries call_next
    check_staff assert_organization_access assert_branch_access active_memberships next_unlocked
    waiting_line in_order insert write_ticket set_current recompute_positions renumber row_number
    notify_promoted is_promoted load_ticket leave_queue check_leave retire clear_current_ticket
    assert_ticket_transition can_transition_ticket
leaves = refl

-- The ticket that the customer got.
abbrev pub first_ticket : Ticket
first_ticket = ticket_of joined

pub first_is_In : In first_ticket after_join.tickets
unfolding join_queue require_permission can assert_operational is_customer_operational is_available
    draw_number write_queue new_ticket insert_ticket announce publish_queue_event record_audit
    notify_owner create_notification is_out_of_app_type
first_is_In = inl refl

pub first_waits : waits_in first_ticket.queue_id first_ticket ≡ true
unfolding join_queue require_permission can assert_operational is_customer_operational is_available
    draw_number write_queue new_ticket insert_ticket announce publish_queue_event record_audit
    notify_owner create_notification is_out_of_app_type
first_waits = refl

-- The clock of the second call is not behind.
pub JoinedBy-then : JoinedBy 130 after_join
unfolding join_queue require_permission can assert_operational is_customer_operational is_available
    draw_number write_queue new_ticket insert_ticket announce publish_queue_event record_audit
    notify_owner create_notification is_out_of_app_type
JoinedBy-then u (inl e) = subst (λ t. t.joined_at ≤ 130) e (omega arith)
JoinedBy-then u (inr i) = absurd i
