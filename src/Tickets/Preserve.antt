-- ===== src/Tickets/Preserve.antt =====
-- Every operation of src/server/tickets/ticket.service.ts keeps the invariant.
use filazero_local.Base.{
  ℕ, ◌≡◌, refl, sym, subst, true, false, Option, none, some, List, inl, inr, arith, ◌==◌, find,
  find-holds, Bool-cases, ==_iff,
}
use filazero_local.Errors.{ok}
use filazero_local.Access.Context.{AuthContext}
use filazero_local.Database.{
  Db, Ticket, Queue, NotificationType, AuditAction, QueueEventType, update, write_queue,
}
use filazero_local.Tickets.State.{can_transition_ticket, is_active, is_in_progress}
use filazero_local.Tickets.Rows.{has_id}
use filazero_local.Tickets.Positions.{recompute_positions}
use filazero_local.Tickets.Writes.{
  clear_pointer, write_ticket, clear_current_ticket, announce, retire,
}
use filazero_local.Tickets.Staff.{
  as_recalled, as_serving, as_completed, as_no_show, as_cancelled, set_current, recall_ticket,
  start_serving, complete_service, mark_no_show, cancel_ticket, leave_queue,
}
use filazero_local.Tickets.Frame.{announce-SameRows, recompute_positions-rows}
use filazero_local.Tickets.Invariant.{
  Consistent, sequence_of, pointer_of, renumbered-IsConsistent, SameRows-Consistent,
}
use filazero_local.Tickets.Rewrite.{Keeps, status_write, shown_same, shown_retired, current_of}
use filazero_local.Tickets.Results.{
  Loaded, recall_ticket-result, start_serving-result, complete_service-result, mark_no_show-result,
  cancel_ticket-result, leave_queue-result,
}

-- What an operation leaves behind, once the owner has been told and the event published.
pub announced :
    (ctx : AuthContext) (o : Option ℕ) (n : NotificationType) (a : AuditAction) (k : QueueEventType)
    (org : ℕ) (t : Ticket) (db : Db)
    → Consistent db
    → Consistent (announce ctx o n a k org t db)
announced ctx o n a k org t db c =
    SameRows-Consistent (announce ctx o n a k org t db) db (announce-SameRows ctx o n a k org t db)
      c

pub recomputed : (now q : ℕ) (db : Db) → Consistent db → Consistent (recompute_positions now q db)
recomputed now q db c =
    let (rows, kept) = recompute_positions-rows now q db in
    rw (rows, kept) (renumbered-IsConsistent db.queues db.tickets now q c)

pub own_id : (id : ℕ) (ts : List Ticket) (t : Ticket) → find (has_id id) ts ≡ some t → t.id ≡ id
own_id id ts t e = ground (arith, find-holds (has_id id) ts t e)

pub sequence_of-clear_pointer :
    (id : ℕ) (o : Option Queue) → sequence_of (clear_pointer id o) ≡ sequence_of o
sequence_of-clear_pointer id none = refl
sequence_of-clear_pointer id (some q) = ground arith

-- The end of a ticket keeps the invariant.
retire-Consistent :
    (id now : ℕ) (t : Ticket) (q : Queue) (f : Ticket → Ticket) (db : Db)
    → Consistent db
    → Loaded id db t q
    → Keeps t (f t)
    → is_active (f t).status ≡ false
    → Consistent (retire now t f db)
unfolding retire
retire-Consistent id now t q f db c (found, _) k gone =
    let found' =
      subst (λ x. find (has_id x) db.tickets ≡ some t) (sym (own_id id db.tickets t found)) found in
    recomputed now t.queue_id (clear_current_ticket t.id (write_ticket t.id f db)) (
      status_write db.queues db.tickets t.id f t c found' (λ x. clear_pointer t.id (db.queues x)) k
        (λ e. ground arith) (λ x. sequence_of-clear_pointer t.id (db.queues x))
        (λ x. shown_retired db.queues db.tickets t.id f t c found' x (ground arith)))

-- Completing a service keeps the invariant.
pub complete_service-Consistent :
    (ctx : AuthContext) (id now : ℕ) (db : Db) (r : Ticket × Db)
    → complete_service ctx id now db ≡ ok r
    → Consistent db
    → Consistent r.1
complete_service-Consistent ctx id now db r h c =
    let (t, q, l, _, _, e) = complete_service-result ctx id now db r h in
    rw e (
      announced ctx t.user_id _ _ _ _ _ _
        (retire-Consistent id now t q (as_completed now) db c l (refl, refl, refl, refl) refl))

-- Marking a ticket as a no-show keeps the invariant.
pub mark_no_show-Consistent :
    (ctx : AuthContext) (id now : ℕ) (db : Db) (r : Ticket × Db)
    → mark_no_show ctx id now db ≡ ok r
    → Consistent db
    → Consistent r.1
mark_no_show-Consistent ctx id now db r h c =
    let (t, q, l, _, _, e) = mark_no_show-result ctx id now db r h in
    rw e (
      announced ctx t.user_id _ _ _ _ _ _
        (retire-Consistent id now t q (as_no_show now) db c l (refl, refl, refl, refl) refl))

-- Cancelling a ticket keeps the invariant.
pub cancel_ticket-Consistent :
    (ctx : AuthContext) (id now : ℕ) (db : Db) (r : Ticket × Db)
    → cancel_ticket ctx id now db ≡ ok r
    → Consistent db
    → Consistent r.1
cancel_ticket-Consistent ctx id now db r h c =
    let (t, q, l, _, _, e) = cancel_ticket-result ctx id now db r h in
    rw e (
      announced ctx t.user_id _ _ _ _ _ _
        (retire-Consistent id now t q (as_cancelled now) db c l (refl, refl, refl, refl) refl))

-- Leaving a queue keeps the invariant.
pub leave_queue-Consistent :
    (ctx : AuthContext) (id now : ℕ) (db : Db) (r : Ticket × Db)
    → leave_queue ctx id now db ≡ ok r
    → Consistent db
    → Consistent r.1
leave_queue-Consistent ctx id now db r h c =
    let (t, q, l, _, _, e) = leave_queue-result ctx id now db r h in
    rw e (
      announced ctx t.user_id _ _ _ _ _ _
        (retire-Consistent id now t q (as_cancelled now) db c l (refl, refl, refl, refl) refl))

-- Repeating a call keeps the invariant.
pub recall_ticket-Consistent :
    (ctx : AuthContext) (id now : ℕ) (db : Db) (r : Ticket × Db)
    → recall_ticket ctx id now db ≡ ok r
    → Consistent db
    → Consistent r.1
unfolding write_ticket
recall_ticket-Consistent ctx id now db r h c =
    let (t, q, l, _, _, e) = recall_ticket-result ctx id now db r h in
    let kept =
      status_write db.queues db.tickets id (as_recalled now) t c l.0 db.queues
        (refl, refl, refl, refl) (λ a. a) (λ x. refl)
        (λ x.
          shown_same db.queues db.tickets id (as_recalled now) t c l.0 x (refl, refl, refl, refl)
            refl) in
    rw e (announced ctx t.user_id _ _ _ _ _ (write_ticket id (as_recalled now) db) kept)

-- A queue's row keeps its counter when its pointer is set.
pub sequence_of-update :
    (queues : ℕ → Option Queue) (q : ℕ) (row : Queue) (c : ℕ)
    → queues q ≡ some row
    → (x : ℕ)
    → sequence_of (update queues q (record row { current_ticket_id = some c }) x)
      ≡ sequence_of (queues x)
sequence_of-update queues q row c e x = elim (Bool-cases (x == q)) [
  | inl h ↦ rw (h, (==_iff x q).0 h, e)
  | inr h ↦ rw h
]

pointer_of-update :
    (queues : ℕ → Option Queue) (q : ℕ) (row : Queue) (c : ℕ)
    → pointer_of (queues q) ≡ some c
    → (x : ℕ)
    → pointer_of (update queues q (record row { current_ticket_id = some c }) x)
      ≡ pointer_of (queues x)
pointer_of-update queues q row c e x = elim (Bool-cases (x == q)) [
  | inl h ↦ rw (h, (==_iff x q).0 h, e)
  | inr h ↦ rw h
]

-- A ticket that is started was called, so its queue showed it already.
start-Consistent :
    (ctx : AuthContext) (id now : ℕ) (t : Ticket) (q : Queue) (db : Db)
    → Consistent db
    → Loaded id db t q
    → is_in_progress t.status ≡ true
    → is_active t.status ≡ true
    → Consistent (set_current t.queue_id q id (write_ticket id (as_serving ctx now) db))
unfolding set_current write_queue write_ticket
start-Consistent ctx id now t q db c (found, row) p a =
    status_write db.queues db.tickets id (as_serving ctx now) t c found
      (update db.queues t.queue_id (record q { current_ticket_id = some id }))
      (refl, refl, refl, refl) (λ _. a) (sequence_of-update db.queues t.queue_id q id row)
      (λ x.
        rw
          (pointer_of-update db.queues t.queue_id q id
            (current_of db.queues db.tickets id (as_serving ctx now) t c found p) x)
          (shown_same db.queues db.tickets id (as_serving ctx now) t c found x
            (refl, refl, refl, refl) (sym p)))

-- Starting to serve keeps the invariant.
pub start_serving-Consistent :
    (ctx : AuthContext) (id now : ℕ) (db : Db) (r : Ticket × Db)
    → start_serving ctx id now db ≡ ok r
    → Consistent db
    → Consistent r.1
unfolding can_transition_ticket
start_serving-Consistent ctx id now db r h c =
    let (t, q, l, _, allowed, e) = start_serving-result ctx id now db r h in
    let progress : is_in_progress t.status ≡ true = ground arith in
    let active : is_active t.status ≡ true = ground arith in
    rw e
      (announced ctx t.user_id _ _ _ _ _ _ (start-Consistent ctx id now t q db c l progress active))
