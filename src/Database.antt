-- ===== src/Database.antt =====
-- The tables of prisma/schema.prisma that the queue engine reads and writes, and the events of
-- src/server/realtime/bus.ts. Ids are numbers, which the code only compares; times are
-- milliseconds. A table that is read by its primary key alone is a function from the key; the
-- tickets, which are counted and sorted, are a list of rows in insertion order.
use filazero_local.Base.{ℕ, Bool, Option, some, List, ◌∷◌, Text, ◌==◌, if◌then◌else◌}
use filazero_local.Tickets.State.{TicketStatus}

pub data QueueStatus : Type 0 where
  opened paused closed : QueueStatus

pub record Queue : Type 0 where
  pub organization_id : ℕ
  pub branch_id : ℕ
  pub status : QueueStatus
  pub ticket_sequence : ℕ
  pub current_ticket_id : Option ℕ
  pub kiosk_enabled : Bool

pub record Ticket : Type 0 where
  pub id : ℕ
  pub queue_id : ℕ
  pub user_id : Option ℕ
  pub guest_name : Option Text
  pub guest_phone : Option Text
  pub served_by_id : Option ℕ
  pub ticket_number : ℕ
  pub status : TicketStatus
  pub position : Option ℕ
  pub joined_at : ℕ
  pub called_at : Option ℕ
  pub serving_at : Option ℕ
  pub completed_at : Option ℕ
  pub cancelled_at : Option ℕ
  pub updated_at : ℕ

-- `status = 'ACTIVE'` of a branch, and of the organization that it belongs to.
pub record Branch : Type 0 where
  pub organization_id : ℕ
  pub is_active : Bool

-- What a notification needs to know of a user.
pub record User : Type 0 where
  pub phone : Option Text
  pub sms_opt_in : Bool
  pub whatsapp_opt_in : Bool

pub data SubscriptionStatus : Type 0 where
  trialing active past_due cancelled expired : SubscriptionStatus

pub record CustomerSubscription : Type 0 where
  pub status : SubscriptionStatus
  pub current_period_start : ℕ
  pub current_period_end : ℕ
  pub cancel_at_period_end : Bool

pub data TransactionStatus : Type 0 where
  pending under_review succeeded failed refunded : TransactionStatus

-- A payment of a customer. A subscription is known by its user, and references and events of the
-- provider are numbers; the amount and the way of paying are left out.
pub record CustomerPayment : Type 0 where
  pub id : ℕ
  pub user_id : ℕ
  pub subscription_id : Option ℕ
  pub status : TransactionStatus
  pub reference : ℕ
  pub provider_reference : Option ℕ
  pub provider_event_id : Option ℕ
  pub paid_at : Option ℕ
  pub reported_failed : Bool

pub data NotificationType : Type 0 where
  queue_joined position_changed customer_called serving_started : NotificationType
  service_completed ticket_cancelled queue_status_changed : NotificationType

-- The title and the message are texts for people and are left out.
pub record Notification : Type 0 where
  pub user_id : ℕ
  pub kind : NotificationType
  pub ticket_id : ℕ

pub data NotificationChannel : Type 0 where
  whatsapp sms : NotificationChannel

pub data DeliveryStatus : Type 0 where
  pending processing sent failed skipped : DeliveryStatus

-- An outbox row. A notification is known by its place in the table, and so is a row of the outbox;
-- the answer of the provider is left out.
pub record Delivery : Type 0 where
  pub notification_id : ℕ
  pub user_id : ℕ
  pub channel : NotificationChannel
  pub recipient : Text
  pub status : DeliveryStatus
  pub attempts : ℕ

pub data AuditAction : Type 0 where
  join join_guest recall transfer leave call serve complete mark_no_show cancel : AuditAction
  queue_status_changed customer_payment_confirmed : AuditAction

-- The metadata, address and user agent of an audit row are left out.
pub record AuditLog : Type 0 where
  pub actor_user_id : Option ℕ
  pub action : AuditAction
  pub entity_id : ℕ

pub data QueueEventType : Type 0 where
  ticket_joined ticket_left ticket_called ticket_serving ticket_completed : QueueEventType
  ticket_cancelled ticket_no_show queue_status_changed : QueueEventType

pub record QueueEvent : Type 0 where
  pub kind : QueueEventType
  pub queue_id : ℕ
  pub organization_id : ℕ
  pub ticket_id : Option ℕ
  pub ticket_number : Option ℕ
  pub ticket_status : Option TicketStatus
  pub queue_status : Option QueueStatus

-- The database, and the events published so far (the newest first).
pub record Db : Type 0 where
  pub queues : ℕ → Option Queue
  pub tickets : List Ticket
  pub branches : ℕ → Option Branch
  pub active_organizations : ℕ → Bool
  pub users : ℕ → Option User
  pub customer_subscriptions : ℕ → Option CustomerSubscription
  pub customer_payments : List CustomerPayment
  pub notifications : List Notification
  pub deliveries : List Delivery
  pub audit_logs : List AuditLog
  pub published : List QueueEvent

-- A table keyed by number after one row has been written.
abbrev pub update {ℓ} : {A : Type ℓ} → (ℕ → Option A) → ℕ → A → ℕ → Option A
update table key row k = if k == key then some row else table k

-- `db.queue.update`
unfoldable pub write_queue : ℕ → Queue → Db → Db
write_queue id row db = record db { queues = update db.queues id row }

unfoldable pub publish_queue_event : QueueEvent → Db → Db
publish_queue_event event db = record db { published = event ∷ db.published }

-- src/server/audit/audit.service.ts: `recordAudit`
unfoldable pub record_audit : Option ℕ → AuditAction → ℕ → Db → Db
record_audit actor action entity db = record db { audit_logs = row ∷ db.audit_logs }
  where
    row : AuditLog
    row = record { actor_user_id = actor; action = action; entity_id = entity }
