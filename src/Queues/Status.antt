-- ===== src/Queues/Status.antt =====
-- src/server/queues/queue.service.ts `setQueueStatus`.
use filazero_local.Base.{ℕ, not, ◌&&◌, none, some, List, [], ◌∷◌, if◌then◌else◌, select}
use filazero_local.Errors.{Result, ok, ErrorCode, or_throw, ◌>>=◌, ◌>>◌}
use filazero_local.Access.Context.{
  AuthContext, assert_organization_access, assert_branch_access, assert_manager_of_organization,
}
use filazero_local.Database.{
  Db, Ticket, Queue, QueueStatus, NotificationType, AuditAction, QueueEvent, QueueEventType,
  write_queue, publish_queue_event, record_audit,
}
use filazero_local.Notifications.Create.{notify_owner}
use filazero_local.Tickets.Rows.{waits_in}
use filazero_local.Tickets.Writes.{is_open}

-- `assertQueueManagementAccess`
unfoldable pub assert_queue_management_access : AuthContext → Queue → Result (Unit {0})
assert_queue_management_access ctx queue = do
  assert_organization_access ctx queue.organization_id
  assert_branch_access ctx queue.organization_id queue.branch_id
  assert_manager_of_organization ctx queue.organization_id

-- One notification for each ticket of the list that has an owner.
unfoldable pub notify_waiting : List Ticket → Db → Db
notify_waiting [] db = db
notify_waiting (t ∷ ts) db =
    notify_waiting ts (notify_owner t.user_id NotificationType.queue_status_changed t.id db)

abbrev pub status_event : ℕ → Queue → QueueEvent
status_event queue_id q = record {
  kind = QueueEventType.queue_status_changed;
  queue_id = queue_id;
  organization_id = q.organization_id;
  ticket_id = none;
  ticket_number = none;
  ticket_status = none;
  queue_status = some q.status;
}

-- The waiting customers hear of it when an open queue stops running.
unfoldable pub set_queue_status : AuthContext → ℕ → QueueStatus → Db → Result (Queue × Db)
unfolding write_queue notify_waiting
set_queue_status ctx queue_id status db = do
  queue ← or_throw (db.queues queue_id) ErrorCode.not_found
  assert_queue_management_access ctx queue
  let updated = record queue { status = status }
  let written = write_queue queue_id updated db
  let told =
      if not (is_open status) && is_open queue.status
      then notify_waiting (select (waits_in queue_id) db.tickets) written
      else written
  ok (
    updated,
    record_audit (some ctx.user_id) AuditAction.queue_status_changed queue_id
        (publish_queue_event (status_event queue_id updated) told),
  )
