-- ===== src/Checks/Sample.antt =====
-- The data of the tests: an organization 7 with the branch 3 and the open queue 1 in it, the
-- customer 5 with a trial, the member of staff 9 and the manager 10.
use filazero_local.Base.{ℕ, true, false, Option, none, some, [], ◌∷◌, ◌==◌, ◌||◌, if◌then◌else◌}
use filazero_local.Access.Rbac.{UserRole}
use filazero_local.Access.Context.{AuthContext, MembershipContext, MemberStatus}
use filazero_local.Errors.{Result, ok, err}
use filazero_local.Tickets.State.{TicketStatus}
use filazero_local.Database.{
  Db, Queue, QueueStatus, Ticket, Branch, User, CustomerSubscription, SubscriptionStatus,
}

abbrev pub customer_ctx : AuthContext
customer_ctx = record { user_id = 5; role = UserRole.customer; memberships = [] }

abbrev pub whole_organization : MembershipContext
whole_organization = record {
  organization_id = 7;
  branch_id = none;
  role = UserRole.staff;
  status = MemberStatus.active;
}

abbrev pub staff_ctx : AuthContext
staff_ctx = record { user_id = 9; role = UserRole.staff; memberships = whole_organization ∷ [] }

abbrev pub manager_ctx : AuthContext
manager_ctx = record {
  user_id = 10;
  role = UserRole.manager;
  memberships = record whole_organization { role = UserRole.manager } ∷ [];
}

abbrev pub open_queue : Queue
open_queue = record {
  organization_id = 7;
  branch_id = 3;
  status = QueueStatus.opened;
  ticket_sequence = 0;
  current_ticket_id = none;
  kiosk_enabled = true;
}

-- The queues 1 and 2 exist.
abbrev pub sample_queues : ℕ → Option Queue
sample_queues q = if q == 1 || q == 2 then some open_queue else none

abbrev pub sample_branches : ℕ → Option Branch
sample_branches k = if k == 3 then some (record { organization_id = 7; is_active = true }) else none

abbrev pub sample_users : ℕ → Option User
sample_users k =
    if k == 5
    then some (record { phone = none; sms_opt_in = false; whatsapp_opt_in = false })
    else none

abbrev pub trial : CustomerSubscription
trial = record {
  status = SubscriptionStatus.trialing;
  current_period_start = 0;
  current_period_end = 1000;
  cancel_at_period_end = false;
}

abbrev pub sample_subscriptions : ℕ → Option CustomerSubscription
sample_subscriptions k = if k == 5 then some trial else none

-- The database before the first ticket.
abbrev pub start : Db
start = record {
  queues = sample_queues;
  tickets = [];
  branches = sample_branches;
  active_organizations = λ o. o == 7;
  users = sample_users;
  customer_subscriptions = sample_subscriptions;
  customer_payments = [];
  notifications = [];
  deliveries = [];
  audit_logs = [];
  published = [];
}

-- What a call has left behind, or the database as it was if it threw.
abbrev pub left_by {ℓ} : {A : Type ℓ} → Db → Result (A × Db) → Db
left_by db (ok r) = r.1
left_by db (err e) = db

abbrev pub blank_ticket : Ticket
blank_ticket = record {
  id = 0;
  queue_id = 0;
  user_id = none;
  guest_name = none;
  guest_phone = none;
  served_by_id = none;
  ticket_number = 0;
  status = TicketStatus.cancelled;
  position = none;
  joined_at = 0;
  called_at = none;
  serving_at = none;
  completed_at = none;
  cancelled_at = none;
  updated_at = 0;
}

-- The ticket that a call returned.
abbrev pub ticket_of : Result (Ticket × Db) → Ticket
ticket_of (ok r) = r.0
ticket_of (err e) = blank_ticket
