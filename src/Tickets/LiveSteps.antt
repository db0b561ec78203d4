-- ===== src/Tickets/LiveSteps.antt =====
-- Every operation of src/server/tickets/ticket.service.ts leaves the right positions in the cache.
use filazero_local.Base.{
  ℕ, ◌≤◌, ◌≡◌, refl, sym, subst, Bool, false, Option, some, List, inl, inr, arith, ◌==◌, ==_iff,
  count_if, find, modify_where, count_if-modify_where, Bool-cases,
}
use filazero_local.Errors.{ok}
use filazero_local.Access.Context.{AuthContext}
use filazero_local.Database.{
  Db, Ticket, Queue, NotificationType, AuditAction, QueueEventType, write_queue,
}
use filazero_local.Tickets.State.{can_transition_ticket, is_waiting}
use filazero_local.Tickets.Rows.{has_id, has_number}
use filazero_local.Tickets.Positions.{recompute_positions}
use filazero_local.Tickets.Writes.{retire, write_ticket, announce}
use filazero_local.Tickets.Staff.{
  as_called, as_recalled, as_serving, as_completed, as_no_show, as_cancelled, call_next,
  recall_ticket, start_serving, complete_service, mark_no_show, cancel_ticket, leave_queue,
  set_current,
}
use filazero_local.Tickets.Frame.{renumbered}
use filazero_local.Tickets.Invariant.{Consistent}
use filazero_local.Tickets.Rewrite.{Keeps}
use filazero_local.Tickets.Results.{
  Loaded, call_next-result, recall_ticket-result, start_serving-result, complete_service-result,
  mark_no_show-result, cancel_ticket-result, leave_queue-result,
}
use filazero_local.Tickets.Effects.{HasRows, announce-HasRows, retire-HasRows, call-HasRows}
use filazero_local.Tickets.Admit.{next-stands}
use filazero_local.Tickets.Preserve.{own_id}
use filazero_local.Tickets.Live.{
  CacheIsLive, Keyed, renumbered-CacheIsLive, renumbered-CacheIsLive_other, written-CacheIsLive,
}

-- The cache of every queue is live.
abbrev pub AllLive : Db → Type 0
AllLive db = (q : ℕ) → CacheIsLive q db.tickets

written-Keyed :
    (ts : List Ticket) (id : ℕ) (f : Ticket → Ticket) (t : Ticket)
    → Keyed ts
    → find (has_id id) ts ≡ some t
    → Keeps t (f t)
    → Keyed (modify_where (has_id id) f ts)
written-Keyed ts id f t c found k = (ids, numbers)
  where
    ids : (i : ℕ) → count_if (has_id i) (modify_where (has_id id) f ts) ≤ 1
    ids i =
        ground (arith, c.0 i, count_if-modify_where (has_id id) f (has_id i) ts t found (c.0 id))

    numbers : (q n : ℕ) → count_if (has_number q n) (modify_where (has_id id) f ts) ≤ 1
    numbers q n =
        ground
          (arith, c.1 q n, count_if-modify_where (has_id id) f (has_number q n) ts t found (c.0 id))

-- A ticket rewritten so that it does not wait, and its queue renumbered.
pub settled-live :
    (now q : ℕ) (ts : List Ticket) (f : Ticket → Ticket) (t : Ticket)
    → Keyed ts
    → find (has_id t.id) ts ≡ some t
    → Keeps t (f t)
    → t.queue_id ≡ q
    → is_waiting (f t).status ≡ false
    → ((k : ℕ) → CacheIsLive k ts)
    → (k : ℕ) → CacheIsLive k (renumbered now q (modify_where (has_id t.id) f ts))
settled-live now q ts f t c found keeps home gone live k =
    let written = modify_where (has_id t.id) f ts in
    let keyed = written-Keyed ts t.id f t c found keeps in
    elim (Bool-cases (k == q)) [
      | inl h ↦
          subst (λ x. CacheIsLive x (renumbered now q written)) (sym ((==_iff k q).0 h))
            (renumbered-CacheIsLive written now q keyed)
      | inr h ↦
          renumbered-CacheIsLive_other written now q k keyed h
            (written-CacheIsLive ts t.id f t k c found (ground arith) (ground arith) (live k))
    ]

pub live_of_rows :
    (db : Db) (queues : ℕ → Option Queue) (ts : List Ticket)
    → HasRows db queues ts
    → ((k : ℕ) → CacheIsLive k ts)
    → AllLive db
live_of_rows db queues ts h live = rw h.0 live

retired-live :
    (id now : ℕ) (t : Ticket) (row : Queue) (f : Ticket → Ticket) (db : Db)
    → Consistent db
    → Loaded id db t row
    → Keeps t (f t)
    → is_waiting (f t).status ≡ false
    → AllLive db
    → AllLive (retire now t f db)
retired-live id now t row f db c l keeps gone live =
    let found =
      subst (λ x. find (has_id x) db.tickets ≡ some t) (sym (own_id id db.tickets t l.0)) l.0 in
    live_of_rows (retire now t f db) _ _ (retire-HasRows now t f db)
      (settled-live now t.queue_id db.tickets f t (c.ids, c.numbers) found keeps refl gone live)

pub announced-live :
    (ctx : AuthContext) (o : Option ℕ) (n : NotificationType) (a : AuditAction) (k : QueueEventType)
    (org : ℕ) (t : Ticket) (db : Db)
    → AllLive db
    → AllLive (announce ctx o n a k org t db)
announced-live ctx o n a k org t db live =
    live_of_rows (announce ctx o n a k org t db) db.queues db.tickets
      (announce-HasRows ctx o n a k org t db db.queues db.tickets (refl, refl)) live

pub complete_service-live :
    (ctx : AuthContext) (id now : ℕ) (db : Db) (r : Ticket × Db)
    → complete_service ctx id now db ≡ ok r
    → Consistent db
    → AllLive db
    → AllLive r.1
complete_service-live ctx id now db r h c live =
    let (t, row, l, _, _, e) = complete_service-result ctx id now db r h in
    rw e (
      announced-live ctx t.user_id _ _ _ _ _ _
        (retired-live id now t row (as_completed now) db c l (refl, refl, refl, refl) refl live))

pub mark_no_show-live :
    (ctx : AuthContext) (id now : ℕ) (db : Db) (r : Ticket × Db)
    → mark_no_show ctx id now db ≡ ok r
    → Consistent db
    → AllLive db
    → AllLive r.1
mark_no_show-live ctx id now db r h c live =
    let (t, row, l, _, _, e) = mark_no_show-result ctx id now db r h in
    rw e (
      announced-live ctx t.user_id _ _ _ _ _ _
        (retired-live id now t row (as_no_show now) db c l (refl, refl, refl, refl) refl live))

pub cancel_ticket-live :
    (ctx : AuthContext) (id now : ℕ) (db : Db) (r : Ticket × Db)
    → cancel_ticket ctx id now db ≡ ok r
    → Consistent db
    → AllLive db
    → AllLive r.1
cancel_ticket-live ctx id now db r h c live =
    let (t, row, l, _, _, e) = cancel_ticket-result ctx id now db r h in
    rw e (
      announced-live ctx t.user_id _ _ _ _ _ _
        (retired-live id now t row (as_cancelled now) db c l (refl, refl, refl, refl) refl live))

pub leave_queue-live :
    (ctx : AuthContext) (id now : ℕ) (db : Db) (r : Ticket × Db)
    → leave_queue ctx id now db ≡ ok r
    → Consistent db
    → AllLive db
    → AllLive r.1
leave_queue-live ctx id now db r h c live =
    let (t, row, l, _, _, e) = leave_queue-result ctx id now db r h in
    rw e (
      announced-live ctx t.user_id _ _ _ _ _ _
        (retired-live id now t row (as_cancelled now) db c l (refl, refl, refl, refl) refl live))

pub call_next-live :
    (locked : ℕ → Bool) (ctx : AuthContext) (q now : ℕ) (db : Db) (r : Ticket × Db)
    → call_next locked ctx q now db ≡ ok r
    → Consistent db
    → AllLive db
    → AllLive r.1
call_next-live locked ctx q now db r h c live =
    let (t, row, e, _, z, first, k) = call_next-result locked ctx q now db r h in
    let (found, w) = next-stands locked q db.tickets t c.ids first in
    let same : t.queue_id ≡ q = ground arith in
    rw k (
      announced-live ctx t.user_id _ _ _ _ _ _ (
        live_of_rows
          (recompute_positions now q
            (set_current q row t.id (write_ticket t.id (as_called ctx now) db)))
          _ _ (call-HasRows ctx now q row t db)
          (settled-live now q db.tickets (as_called ctx now) t (c.ids, c.numbers) found
            (refl, refl, refl, refl) same refl live)))

-- A ticket in progress, rewritten so that it stays in progress.
held-live :
    (id : ℕ) (ts : List Ticket) (f : Ticket → Ticket) (t : Ticket)
    → Keyed ts
    → find (has_id id) ts ≡ some t
    → is_waiting t.status ≡ false
    → is_waiting (f t).status ≡ false
    → ((k : ℕ) → CacheIsLive k ts)
    → (k : ℕ) → CacheIsLive k (modify_where (has_id id) f ts)
held-live id ts f t c found w w' live k =
    written-CacheIsLive ts id f t k c found (ground arith) (ground arith) (live k)

pub recall_ticket-live :
    (ctx : AuthContext) (id now : ℕ) (db : Db) (r : Ticket × Db)
    → recall_ticket ctx id now db ≡ ok r
    → Consistent db
    → AllLive db
    → AllLive r.1
unfolding write_ticket
recall_ticket-live ctx id now db r h c live =
    let (t, row, l, _, p, e) = recall_ticket-result ctx id now db r h in
    let still : is_waiting t.status ≡ false = ground arith in
    rw e (
      announced-live ctx t.user_id _ _ _ _ _ (write_ticket id (as_recalled now) db)
        (held-live id db.tickets (as_recalled now) t (c.ids, c.numbers) l.0 still still live))

pub start_serving-live :
    (ctx : AuthContext) (id now : ℕ) (db : Db) (r : Ticket × Db)
    → start_serving ctx id now db ≡ ok r
    → Consistent db
    → AllLive db
    → AllLive r.1
unfolding write_ticket set_current write_queue can_transition_ticket
start_serving-live ctx id now db r h c live =
    let (t, row, l, _, p, e) = start_serving-result ctx id now db r h in
    let still : is_waiting t.status ≡ false = ground arith in
    rw e (
      announced-live ctx t.user_id _ _ _ _ _
        (set_current t.queue_id row id (write_ticket id (as_serving ctx now) db))
        (held-live id db.tickets (as_serving ctx now) t (c.ids, c.numbers) l.0 still refl live))
