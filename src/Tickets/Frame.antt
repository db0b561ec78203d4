-- ===== src/Tickets/Frame.antt =====
-- What the writes to the other tables leave alone: notifications, audit rows and events touch
-- neither the tickets nor the queues.
use filazero_local.Base.{
  ℕ, ◌≡◌, refl, ◌∙◌, Bool, Option, none, some, List, [], ◌∷◌, map, arith, select, count_if,
  count_if-map, Option-cases, inl, inr,
}
use filazero_local.Database.{
  Db, Ticket, NotificationType, AuditAction, QueueEventType, publish_queue_event, record_audit,
}
use filazero_local.Access.Context.{AuthContext}
use filazero_local.Notifications.Create.{create_notification, notify_owner}
use filazero_local.Tickets.Rows.{waits_in, waiting_line}
use filazero_local.Tickets.Positions.{
  notify_promoted, row_number, renumber, is_promoted, recompute_positions,
}
use filazero_local.Tickets.Writes.{announce}

-- The tickets and the queues of two databases are the same.
abbrev pub SameRows : Db → Db → Type 0
SameRows a b = (a.tickets ≡ b.tickets) × (a.queues ≡ b.queues)

create_notification-SameRows :
    (u : ℕ) (k : NotificationType) (t : ℕ) (db : Db) → SameRows (create_notification u k t db) db
unfolding create_notification
create_notification-SameRows u k t db = ground arith

pub notify_owner-SameRows :
    (o : Option ℕ) (k : NotificationType) (t : ℕ) (db : Db) → SameRows (notify_owner o k t db) db
unfolding notify_owner
notify_owner-SameRows none k t db = (refl, refl)
notify_owner-SameRows (some u) k t db = create_notification-SameRows u k t db

notify_promoted-SameRows : (ts : List Ticket) (db : Db) → SameRows (notify_promoted ts db) db
unfolding notify_promoted
notify_promoted-SameRows [] db = (refl, refl)
notify_promoted-SameRows (t ∷ ts) db =
    let next = notify_owner t.user_id NotificationType.position_changed t.id db in
    let later = notify_promoted-SameRows ts next in
    let told = notify_owner-SameRows t.user_id NotificationType.position_changed t.id db in
    (later.0 ∙ told.0, later.1 ∙ told.1)

pub announce-SameRows :
    (ctx : AuthContext) (o : Option ℕ) (n : NotificationType) (a : AuditAction) (k : QueueEventType)
    (org : ℕ) (t : Ticket) (db : Db)
    → SameRows (announce ctx o n a k org t db) db
unfolding announce publish_queue_event record_audit
announce-SameRows ctx o n a k org t db = notify_owner-SameRows o n t.id db

-- The tickets of a queue after its positions have been recomputed.
abbrev pub renumbered : ℕ → ℕ → List Ticket → List Ticket
renumbered now q ts = map (renumber now (waiting_line q ts)) ts

pub recompute_positions-rows :
    (now q : ℕ) (db : Db)
    → ((recompute_positions now q db).tickets ≡ renumbered now q db.tickets)
      × ((recompute_positions now q db).queues ≡ db.queues)
unfolding recompute_positions
recompute_positions-rows now q db =
    notify_promoted-SameRows
      (select (is_promoted (select (waits_in q) db.tickets))
        (select (waits_in q) (renumbered now q db.tickets)))
      (record db { tickets = renumbered now q db.tickets })

-- A row but for its cached position and the time of its last change.
abbrev pub Agrees : (Ticket → Bool) → Type 0
Agrees p =
    (t : Ticket) (position : Option ℕ) (at : ℕ)
    → p (record t { position = position; updated_at = at }) ≡ p t

pub renumber-Agrees :
    (p : Ticket → Bool)
    → Agrees p
    → (now : ℕ) (line : List Ticket) (t : Ticket) → p (renumber now line t) ≡ p t
unfolding renumber
renumber-Agrees p h now line t = elim (Option-cases (row_number t.id 1 line)) [
  | inl e ↦ rw (e, renumber)
  | inr (n, e) ↦ rw (e, renumber) (h t (some n) now)
]

pub count_if-renumbered :
    (p : Ticket → Bool)
    → Agrees p
    → (now q : ℕ) (ts : List Ticket) → count_if p (renumbered now q ts) ≡ count_if p ts
count_if-renumbered p h now q ts =
    count_if-map p (renumber now (waiting_line q ts)) (renumber-Agrees p h now (waiting_line q ts))
      ts
