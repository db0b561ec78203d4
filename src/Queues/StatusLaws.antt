-- ===== src/Queues/StatusLaws.antt =====
-- What `setQueueStatus` of src/server/queues/queue.service.ts changes, and whom it tells.
use mathlib.Core.List.{append_assoc, append-nil}
use filazero_local.Base.{
  ℕ, ◌≡◌, refl, ap, ◌∙◌, not, ◌&&◌, Option, none, some, List, [], ◌∷◌, ◌++◌, arith, if◌then◌else◌,
  length, select, Option-cases, sym, inl, inr,
}
use filazero_local.Errors.{ok}
use filazero_local.Access.Context.{AuthContext}
use filazero_local.Database.{
  Db, Ticket, Queue, QueueStatus, Notification, NotificationType, User, update, write_queue,
  publish_queue_event, record_audit,
}
use filazero_local.Notifications.Create.{
  notify_owner, create_notification, enqueue_notification_deliveries, enqueue_for,
}
use filazero_local.Tickets.Rows.{waits_in}
use filazero_local.Tickets.Writes.{is_open}
use filazero_local.Tickets.Frame.{SameRows, notify_owner-SameRows}
use filazero_local.Queues.Status.{assert_queue_management_access, notify_waiting, set_queue_status}

enqueue_for-notifications :
    (id user : ℕ) (u : Option User) (db : Db)
    → (enqueue_for id user u db).notifications ≡ db.notifications
unfolding enqueue_for enqueue_notification_deliveries
enqueue_for-notifications id user none db = refl
enqueue_for-notifications id user (some u) db = refl

create_notification-notifications :
    (user : ℕ) (kind : NotificationType) (ticket : ℕ) (db : Db)
    → (create_notification user kind ticket db).notifications
      ≡ db.notifications ++ record { user_id = user; kind = kind; ticket_id = ticket } ∷ []
unfolding create_notification
create_notification-notifications user kind ticket db =
    let row : Notification = record { user_id = user; kind = kind; ticket_id = ticket } in
    let written = record db { notifications = db.notifications ++ row ∷ [] } in
    ground (arith, enqueue_for-notifications (length db.notifications) user (db.users user) written)

-- What the owner of a ticket hears when the queue changes its status, in front of `rest`.
abbrev pub note_for : Option ℕ → ℕ → List Notification → List Notification
note_for none ticket rest = rest
note_for (some user) ticket rest =
    record { user_id = user; kind = NotificationType.queue_status_changed; ticket_id = ticket }
    ∷ rest

-- One notification for each ticket with an account, to this account, in the order of the tickets.
abbrev pub notes_for : List Ticket → List Notification
notes_for [] = []
notes_for (t ∷ ts) = note_for t.user_id t.id (notes_for ts)

notify_owner-notifications :
    (owner : Option ℕ) (ticket : ℕ) (db : Db) (rest : List Notification)
    → (notify_owner owner NotificationType.queue_status_changed ticket db).notifications ++ rest
      ≡ db.notifications ++ note_for owner ticket rest
unfolding notify_owner
notify_owner-notifications none ticket db rest = refl
notify_owner-notifications (some user) ticket db rest =
    ap (λ ns. ns ++ rest)
      (create_notification-notifications user NotificationType.queue_status_changed ticket db)
    ∙ append_assoc db.notifications _ rest

notify_waiting-notifications :
    (ts : List Ticket) (db : Db)
    → (notify_waiting ts db).notifications ≡ db.notifications ++ notes_for ts
unfolding notify_waiting
notify_waiting-notifications [] db = sym (append-nil db.notifications)
notify_waiting-notifications (t ∷ ts) db =
    notify_waiting-notifications ts
      (notify_owner t.user_id NotificationType.queue_status_changed t.id db)
    ∙ notify_owner-notifications t.user_id t.id db (notes_for ts)

pub notify_waiting-SameRows : (ts : List Ticket) (db : Db) → SameRows (notify_waiting ts db) db
unfolding notify_waiting
notify_waiting-SameRows [] db = (refl, refl)
notify_waiting-SameRows (t ∷ ts) db =
    let told = notify_owner t.user_id NotificationType.queue_status_changed t.id db in
    let later = notify_waiting-SameRows ts told in
    let first = notify_owner-SameRows t.user_id NotificationType.queue_status_changed t.id db in
    (later.0 ∙ first.0, later.1 ∙ first.1)

-- What is told of a change: to each customer with an account who waits in a queue that was open and
-- now stops, one notification with the ticket.
abbrev pub told_of : ℕ → QueueStatus → Queue → List Ticket → List Notification
told_of q status row ts =
    if not (is_open status) && is_open row.status then notes_for (select (waits_in q) ts) else []

-- A change of status that succeeds was made by a caller whom the guard of the queue lets through. It
-- changes nothing of the queues but this status and nothing of the tickets. If the queue was open
-- and stops, exactly one notification is added for each ticket that waits in it and has an account,
-- to this account and about this ticket; else none.
pub set_queue_status-effect :
    (ctx : AuthContext) (q : ℕ) (status : QueueStatus) (db db' : Db) (updated : Queue)
    → set_queue_status ctx q status db ≡ ok (updated, db')
    → (row : Queue) × (db.queues q ≡ some row)
      × (assert_queue_management_access ctx row ≡ ok tt)
      × (updated ≡ record row { status = status })
      × (db'.queues ≡ update db.queues q (record row { status = status }))
      × (db'.tickets ≡ db.tickets)
      × (db'.notifications ≡ db.notifications ++ told_of q status row db.tickets)
unfolding set_queue_status write_queue publish_queue_event record_audit
set_queue_status-effect ctx q status db db' updated h = elim (Option-cases (db.queues q)) [
  | inl e ↦ absurd (ground arith)
  | inr (row, e) ↦
      let changed = record db { queues = update db.queues q (record row { status = status }) } in
      let waiting = select (waits_in q) db.tickets in
      let told = notify_waiting-SameRows waiting changed in
      let notes = notify_waiting-notifications waiting changed in
      let quiet = append-nil db.notifications in
      (row, e, ground arith, ground arith, ground arith, ground arith, ground arith)
]
