-- ===== src/Checks/Calls.antt =====
-- Tests of the operations of src/server/tickets/ticket.service.ts.
use filazero_local.Base.{
  ◌+◌, ◌<◌, ◌≡◌, refl, ◌↔◌, ◌⊎◌, true, false, not, ◌&&◌, some, inr, count_if, In,
}
use filazero_local.Errors.{ok, err, ErrorCode}
use filazero_local.Access.Rbac.{Permission, can}
use filazero_local.Access.Context.{require_permission}
use filazero_local.Database.{Db, Queue, Ticket}
use filazero_local.Tickets.State.{TicketStatus}
use filazero_local.Tickets.Rows.{
  waits_in, in_progress_in, active_of, before, waiting_line, compute_live_position,
}
use filazero_local.Tickets.Positions.{row_number}
use filazero_local.Tickets.Writes.{is_open, check_staff}
use filazero_local.Tickets.Join.{join_queue, assert_operational, is_available}
use filazero_local.Tickets.Staff.{as_called, as_cancelled, call_next, leave_queue, cancel_ticket}
use filazero_local.Tickets.Invariant.{pointer_of}
use filazero_local.Tickets.Fifo.{call_next-fifo, call_next_iff}
use filazero_local.Tickets.Joining.{join_queue_iff, join_queue-ticket}
use filazero_local.Tickets.Line.{row_number-eq-live_position}
use filazero_local.Tickets.Tenancy.{
  IsStaffOf, IsAbout, MayEnd, calls_next, right_for, staff_calls_stay_in_tenant,
  ended_by_owner_or_staff, leave_queue-in_progress,
}
use filazero_local.Checks.Sample.{customer_ctx, staff_ctx, left_by, ticket_of}
use filazero_local.Checks.Runs.{
  unheld, after_join, after_join-Consistent, called, after_call, calls, second_is_new, second_join,
  joins_again, called_queue, called-Loaded, called-owned, called-in_progress, left, leaves,
  first_ticket, first_is_In, first_waits,
}

call_next-fifo_example :
    (first : Ticket) × In first after_join.tickets
    × (waits_in 1 first ≡ true)
    × (ticket_of called ≡ as_called staff_ctx 120 first)
    × ((u : Ticket)
        → In u after_join.tickets
        → waits_in 1 u ≡ true
        → unheld u.id ≡ false
        → (u ≡ first) ⊎ (before first u ≡ true))
    × (pointer_of (after_call.queues 1) ≡ some (ticket_of called).id)
    × (count_if (in_progress_in 1) after_call.tickets ≡ 1)
call_next-fifo_example =
    call_next-fifo unheld staff_ctx 1 120 after_join after_call (ticket_of called)
      after_join-Consistent calls

call_next_iff_example :
    ((r : Ticket × Db) × (call_next unheld staff_ctx 1 120 after_join ≡ ok r)) ↔ (
      (row : Queue) × (after_join.queues 1 ≡ some row)
      × (check_staff staff_ctx Permission.ticket_call row ≡ ok tt)
      × (count_if (in_progress_in 1) after_join.tickets ≡ 0)
      × (0 < count_if (λ u. waits_in 1 u && not (unheld u.id)) after_join.tickets))
call_next_iff_example = call_next_iff unheld staff_ctx 1 120 after_join

join_queue_iff_example :
    ((r : Ticket × Db) × (join_queue customer_ctx 2 12 130 after_join ≡ ok r)) ↔ (
      (row : Queue) × (after_join.queues 2 ≡ some row)
      × (require_permission customer_ctx Permission.ticket_join ≡ ok tt)
      × (assert_operational customer_ctx 130 after_join ≡ ok tt)
      × (is_open row.status ≡ true)
      × (is_available after_join row.branch_id ≡ true)
      × (count_if (active_of customer_ctx.user_id 2) after_join.tickets ≡ 0))
join_queue_iff_example =
    join_queue_iff customer_ctx 2 12 130 after_join after_join-Consistent second_is_new

join_queue-ticket_example :
    ((ticket_of second_join).status ≡ TicketStatus.waiting)
    × ((ticket_of second_join).user_id ≡ some 5)
    × ((ticket_of second_join).position ≡ some (count_if (waits_in 2) after_join.tickets + 1))
    × ((u : Ticket)
        → In u after_join.tickets
        → u.queue_id ≡ 2
        → u.ticket_number < (ticket_of second_join).ticket_number)
join_queue-ticket_example =
    join_queue-ticket customer_ctx 2 12 130 after_join (left_by after_join second_join)
      (ticket_of second_join) after_join-Consistent joins_again

staff_calls_stay_in_tenant_example :
    (row : Queue) × IsAbout (calls_next unheld 1) after_join row
    × IsStaffOf staff_ctx (right_for (calls_next unheld 1)) row
staff_calls_stay_in_tenant_example =
    staff_calls_stay_in_tenant (calls_next unheld 1) staff_ctx 120 after_join
      (ticket_of called, after_call) calls

ended_by_owner_or_staff_example : MayEnd customer_ctx 11 after_call
ended_by_owner_or_staff_example =
    ended_by_owner_or_staff customer_ctx 11 130 after_call (ticket_of left, left_by after_call left)
      (inr leaves)

may_leave : can customer_ctx.role Permission.ticket_leave_self ≡ true
unfolding can
may_leave = refl

leave_queue-in_progress_example :
    ((db' : Db) × (leave_queue customer_ctx 11 130 after_call
        ≡ ok (as_cancelled 130 (ticket_of called), db')))
    × (cancel_ticket customer_ctx 11 130 after_call ≡ err ErrorCode.forbidden)
leave_queue-in_progress_example =
    leave_queue-in_progress customer_ctx 11 130 after_call (ticket_of called) called_queue
      called-Loaded called-owned may_leave called-in_progress

row_number-eq-live_position_example :
    row_number first_ticket.id 1 (waiting_line first_ticket.queue_id after_join.tickets)
    ≡ some (compute_live_position after_join.tickets first_ticket)
row_number-eq-live_position_example =
    row_number-eq-live_position after_join.tickets first_ticket after_join-Consistent.ids
      (after_join-Consistent.numbers first_ticket.queue_id) first_is_In first_waits
