-- ===== src/Tickets/Join.antt =====
-- src/server/tickets/ticket.service.ts `joinQueueAsGuest` and `joinQueue`, with the subscription
-- gate of src/server/customer/customer-subscription.service.ts. The database draws the id of the
-- new row: it is the argument `id`.
use filazero_local.Base.{
  ℕ, ◌+◌, Bool, true, false, ◌&&◌, Option, none, some, ltb, ◌==◌, if◌then◌else◌, count_if, take,
  length, Text, trim,
}
use filazero_local.Errors.{Result, ok, err, ErrorCode, require, or_throw, ◌>>=◌, ◌>>◌}
use filazero_local.Access.Rbac.{Permission, UserRole}
use filazero_local.Access.Context.{AuthContext, require_permission}
use filazero_local.Tickets.State.{TicketStatus}
use filazero_local.Database.{
  Db, Ticket, Queue, CustomerSubscription, SubscriptionStatus, NotificationType, AuditAction,
  QueueEventType, write_queue, publish_queue_event, record_audit,
}
use filazero_local.Notifications.Phone.{normalize_phone}
use filazero_local.Tickets.Rows.{waits_in, active_of}
use filazero_local.Tickets.Writes.{is_open, insert_ticket, ticket_event, announce}

abbrev pub is_paid_up : SubscriptionStatus → Bool
is_paid_up SubscriptionStatus.trialing = true
is_paid_up SubscriptionStatus.active = true
is_paid_up _ = false

-- `isCustomerOperational`
unfoldable pub is_customer_operational : Option CustomerSubscription → ℕ → Bool
is_customer_operational none now = false
is_customer_operational (some s) now = is_paid_up s.status && ltb now s.current_period_end

-- `assertCustomerOperational`, for the caller of `joinQueue`: only customers need a subscription.
unfoldable pub assert_operational : AuthContext → ℕ → Db → Result (Unit {0})
assert_operational ctx now db = elim ctx.role [
  | UserRole.customer ↦
      require (is_customer_operational (db.customer_subscriptions ctx.user_id) now)
        ErrorCode.payment_required
  | _ ↦ ok tt
]

-- The branch is active and so is its organization.
unfoldable pub is_available : Db → ℕ → Bool
is_available db branch_id = elim (db.branches branch_id) [
  | none ↦ false
  | some b ↦ b.is_active && db.active_organizations b.organization_id
]

-- `UPDATE queues SET ticket_sequence = ...`, under the lock of the queue's row.
unfoldable pub draw_number : ℕ → Queue → Db → Db
unfolding write_queue
draw_number queue_id queue db =
    write_queue queue_id (record queue { ticket_sequence = queue.ticket_sequence + 1 }) db

-- The row of a new ticket: it waits, last in the line.
unfoldable pub new_ticket : ℕ → ℕ → Queue → Option ℕ → Option Text → Option Text → ℕ → Db → Ticket
new_ticket id queue_id queue user_id guest_name guest_phone now db = record {
  id = id;
  queue_id = queue_id;
  user_id = user_id;
  guest_name = guest_name;
  guest_phone = guest_phone;
  served_by_id = none;
  ticket_number = queue.ticket_sequence + 1;
  status = TicketStatus.waiting;
  position = some (count_if (waits_in queue_id) db.tickets + 1);
  joined_at = now;
  called_at = none;
  serving_at = none;
  completed_at = none;
  cancelled_at = none;
  updated_at = now;
}

-- `input.phone ? normalizePhone(input.phone) : null`, refused if there is a number and it is not
-- plausible. The empty text counts as no number.
unfoldable pub guest_phone_of : Option Text → Result (Option Text)
guest_phone_of none = ok none
guest_phone_of (some raw) = if length raw == 0 then ok none else elim (normalize_phone raw) [
  | none ↦ err ErrorCode.validation_error
  | some phone ↦ ok (some phone)
]

-- `input.name?.trim() ? input.name.trim().slice(0, 120) : null`
unfoldable pub guest_name_of : Option Text → Option Text
guest_name_of none = none
guest_name_of (some raw) = if length (trim raw) == 0 then none else some (take 120 (trim raw))

unfoldable pub join_queue_as_guest :
    ℕ → Option Text → Option Text → ℕ → ℕ → Db → Result (Ticket × Db)
unfolding draw_number
join_queue_as_guest queue_id name phone id now db = do
  guest_phone ← guest_phone_of phone
  queue ← or_throw (db.queues queue_id) ErrorCode.not_found
  require queue.kiosk_enabled ErrorCode.forbidden
  require (is_open queue.status) ErrorCode.queue_closed
  require (is_available db queue.branch_id) ErrorCode.queue_closed
  let ticket = new_ticket id queue_id queue none (guest_name_of name) guest_phone now db
  created ← insert_ticket ticket (draw_number queue_id queue db)
  ok (
    ticket,
    publish_queue_event (ticket_event QueueEventType.ticket_joined queue.organization_id ticket)
        (record_audit none AuditAction.join_guest id created),
  )

unfoldable pub join_queue : AuthContext → ℕ → ℕ → ℕ → Db → Result (Ticket × Db)
unfolding draw_number
join_queue ctx queue_id id now db = do
  require_permission ctx Permission.ticket_join
  assert_operational ctx now db
  queue ← or_throw (db.queues queue_id) ErrorCode.not_found
  require (is_open queue.status) ErrorCode.queue_closed
  require (is_available db queue.branch_id) ErrorCode.queue_closed
  require (count_if (active_of ctx.user_id queue_id) db.tickets == 0) ErrorCode.conflict
  let ticket = new_ticket id queue_id queue (some ctx.user_id) none none now db
  created ← insert_ticket ticket (draw_number queue_id queue db)
  ok (
    ticket,
    announce ctx (some ctx.user_id) NotificationType.queue_joined AuditAction.join
        QueueEventType.ticket_joined queue.organization_id ticket created,
  )
