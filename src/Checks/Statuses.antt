-- ===== src/Checks/Statuses.antt =====
-- A test of `setQueueStatus`: a manager pauses the queue 1 while the customer 5 waits.
use filazero_local.Base.{◌++◌, ◌≡◌, refl, some}
use filazero_local.Errors.{Result, ok}
use filazero_local.Access.Rbac.{can, UserRole-discrete}
use filazero_local.Access.Context.{
  require_permission, assert_organization_access, assert_branch_access, active_memberships,
  assert_manager_of_organization, assert_organization_role, has_organization_role,
}
use filazero_local.Database.{
  Db, Queue, QueueStatus, update, write_queue, publish_queue_event, record_audit,
}
use filazero_local.Notifications.Create.{notify_owner, create_notification}
use filazero_local.Notifications.Phone.{is_out_of_app_type}
use filazero_local.Tickets.Writes.{insert_ticket, announce}
use filazero_local.Tickets.Join.{
  join_queue, assert_operational, is_available, is_customer_operational, draw_number, new_ticket,
}
use filazero_local.Queues.Status.{assert_queue_management_access, notify_waiting, set_queue_status}
use filazero_local.Queues.StatusLaws.{told_of, set_queue_status-effect}
use filazero_local.Checks.Sample.{manager_ctx, open_queue, left_by}
use filazero_local.Checks.Runs.{after_join}

abbrev paused : Result (Queue × Db)
paused = set_queue_status manager_ctx 1 QueueStatus.paused after_join

abbrev paused_queue : Queue
paused_queue = record open_queue { ticket_sequence = 1; status = QueueStatus.paused }

pauses : paused ≡ ok (paused_queue, left_by after_join paused)
unfolding join_queue require_permission can assert_operational is_customer_operational is_available
    draw_number write_queue new_ticket insert_ticket announce publish_queue_event record_audit
    notify_owner create_notification is_out_of_app_type set_queue_status
    assert_queue_management_access assert_organization_access assert_branch_access
    active_memberships assert_manager_of_organization assert_organization_role has_organization_role
    UserRole-discrete notify_waiting
pauses = refl

set_queue_status-effect_example :
    (row : Queue) × (after_join.queues 1 ≡ some row)
    × (assert_queue_management_access manager_ctx row ≡ ok tt)
    × (paused_queue ≡ record row { status = QueueStatus.paused })
    × ((left_by after_join paused).queues
        ≡ update after_join.queues 1 (record row { status = QueueStatus.paused }))
    × ((left_by after_join paused).tickets ≡ after_join.tickets)
    × ((left_by after_join paused).notifications
        ≡ after_join.notifications ++ told_of 1 QueueStatus.paused row after_join.tickets)
set_queue_status-effect_example =
    set_queue_status-effect manager_ctx 1 QueueStatus.paused after_join (left_by after_join paused)
      paused_queue pauses
