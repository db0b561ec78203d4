-- ===== src/Checks/Transfers.antt =====
-- A test of `transferTicket`: staff move the ticket 11 from the queue 1 to the queue 2.
use filazero_local.Base.{◌<◌, ◌≡◌, refl, true, false, some, ◌==◌, In}
use filazero_local.Errors.{Result, ok}
use filazero_local.Access.Rbac.{can}
use filazero_local.Access.Context.{
  require_permission, assert_organization_access, assert_branch_access, active_memberships,
}
use filazero_local.Database.{Db, Ticket, Queue, write_queue, publish_queue_event, record_audit}
use filazero_local.Notifications.Create.{notify_owner, create_notification}
use filazero_local.Notifications.Phone.{is_out_of_app_type}
use filazero_local.Tickets.State.{TicketStatus, is_active_ticket_status}
use filazero_local.Tickets.Writes.{
  insert_ticket, announce, load_ticket, check_staff, require_ticket_for_staff, replace_ticket,
}
use filazero_local.Tickets.Join.{
  join_queue, assert_operational, is_available, is_customer_operational, draw_number, new_ticket,
}
use filazero_local.Tickets.Transfer.{transfer_ticket}
use filazero_local.Tickets.TransferLaws.{transfer_ticket-ticket}
use filazero_local.Tickets.Results.{Loaded}
use filazero_local.Checks.Sample.{staff_ctx, left_by, ticket_of}
use filazero_local.Checks.Runs.{after_join, after_join-Consistent}

abbrev moved : Result (Ticket × Db)
moved = transfer_ticket staff_ctx 11 2 140 after_join

moves : moved ≡ ok (ticket_of moved, left_by after_join moved)
unfolding join_queue require_permission can assert_operational is_customer_operational is_available
    draw_number write_queue new_ticket insert_ticket announce publish_queue_event record_audit
    notify_owner create_notification is_out_of_app_type transfer_ticket require_ticket_for_staff
    load_ticket check_staff assert_organization_access assert_branch_access active_memberships
    is_active_ticket_status replace_ticket
moves = refl

transfer_ticket-ticket_example :
    (was : Ticket) × (source : Queue) × (aim : Queue) × Loaded 11 after_join was source
    × (after_join.queues 2 ≡ some aim)
    × (aim.organization_id ≡ source.organization_id)
    × ((was.queue_id == 2) ≡ false)
    × (is_active_ticket_status was.status ≡ true)
    × ((ticket_of moved).id ≡ 11)
    × ((ticket_of moved).user_id ≡ was.user_id)
    × ((ticket_of moved).queue_id ≡ 2)
    × ((ticket_of moved).status ≡ TicketStatus.waiting)
    × ((u : Ticket)
        → In u after_join.tickets
        → u.queue_id ≡ 2
        → u.ticket_number < (ticket_of moved).ticket_number)
transfer_ticket-ticket_example =
    transfer_ticket-ticket staff_ctx 11 2 140 after_join (left_by after_join moved)
      (ticket_of moved) after_join-Consistent moves
