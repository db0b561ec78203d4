-- ===== src/Tickets/Admit.antt =====
-- The operations of src/server/tickets/ticket.service.ts that take a ticket into a queue, on to
-- the desk, or to another queue keep the invariant.
use filazero_local.Base.{
  ℕ, ◌+◌, ◌≤◌, ◌≡◌, refl, subst, Bool, true, false, not, ◌||◌, Option, none, some, List, [], ◌∷◌,
  ◌++◌, inl, inr, arith, ◌==◌, Text, count_if, find, find-In, find-only, Bool-cases, ==_refl,
  ==_iff,
}
use filazero_local.Errors.{ok}
use filazero_local.Access.Context.{AuthContext}
use filazero_local.Database.{
  Db, Ticket, Queue, update, write_queue, record_audit, publish_queue_event,
}
use filazero_local.Tickets.State.{is_in_progress}
use filazero_local.Tickets.Rows.{has_id, waits_in, in_progress_in, waiting_line}
use filazero_local.Tickets.Writes.{write_ticket, insert_ticket, collides}
use filazero_local.Tickets.Join.{
  draw_number, new_ticket, guest_name_of, join_queue, join_queue_as_guest,
}
use filazero_local.Tickets.Staff.{as_called, set_current, next_unlocked, call_next}
use filazero_local.Tickets.Line.{waiting_line-In}
use filazero_local.Tickets.Invariant.{Consistent, sequence_of, pointer_of}
use filazero_local.Tickets.Rewrite.{status_write, shown_called}
use filazero_local.Tickets.Arrivals.{Advances, append-IsConsistent}
use filazero_local.Tickets.Results.{call_next-result}
use filazero_local.Tickets.EntryResults.{join_queue-result, join_queue_as_guest-result}
use filazero_local.Tickets.Preserve.{announced, recomputed, sequence_of-update}

-- The next ticket stands in the table, under its own id, and waits in the queue.
pub next-stands :
    (locked : ℕ → Bool) (q : ℕ) (ts : List Ticket) (t : Ticket)
    → ((i : ℕ) → count_if (has_id i) ts ≤ 1)
    → next_unlocked locked (waiting_line q ts) ≡ some t
    → (find (has_id t.id) ts ≡ some t) × (waits_in q t ≡ true)
unfolding next_unlocked
next-stands locked q ts t ids h =
    let stands =
      waiting_line-In q ts t (find-In (λ u. not (locked u.id)) (waiting_line q ts) t h) in
    (find-only (has_id t.id) ts t stands.0 (==_refl t.id) (ids t.id), stands.1)

-- Calling a waiting ticket of a queue with nothing in progress.
call-Consistent :
    (ctx : AuthContext) (now q : ℕ) (t : Ticket) (row : Queue) (db : Db)
    → Consistent db
    → q ≡ t.queue_id
    → find (has_id t.id) db.tickets ≡ some t
    → db.queues q ≡ some row
    → waits_in q t ≡ true
    → count_if (in_progress_in q) db.tickets ≡ 0
    → Consistent (set_current q row t.id (write_ticket t.id (as_called ctx now) db))
unfolding set_current write_queue write_ticket
call-Consistent ctx now q t row db c same found e w z = rw same (
    status_write db.queues db.tickets t.id (as_called ctx now) t c found
      (update db.queues t.queue_id (record row { current_ticket_id = some t.id }))
      (refl, refl, refl, refl) (λ _. ground arith)
      (sequence_of-update db.queues t.queue_id row t.id
        (subst (λ x. db.queues x ≡ some row) same e))
      (shown_called db.queues db.tickets t.id (as_called ctx now) t c found row
        (refl, refl, refl, refl) refl
        (subst (λ x. count_if (in_progress_in x) db.tickets ≡ 0) same z)))

-- Calling the next customer keeps the invariant.
pub call_next-Consistent :
    (locked : ℕ → Bool) (ctx : AuthContext) (q now : ℕ) (db : Db) (r : Ticket × Db)
    → call_next locked ctx q now db ≡ ok r
    → Consistent db
    → Consistent r.1
call_next-Consistent locked ctx q now db r h c =
    let (t, row, e, _, z, first, k) = call_next-result locked ctx q now db r h in
    let (found, w) = next-stands locked q db.tickets t c.ids first in
    let same : q ≡ t.queue_id = ground arith in
    rw k (
      announced ctx t.user_id _ _ _ _ _ _
        (recomputed now q _ (call-Consistent ctx now q t row db c same found e w z)))

-- The counter of a queue has moved past the number that it gave out.
pub draw-Advances :
    (queues : ℕ → Option Queue) (row : Queue) (t : Ticket)
    → queues t.queue_id ≡ some row
    → t.ticket_number ≡ row.ticket_sequence + 1
    → Advances queues
        (update queues t.queue_id (record row { ticket_sequence = row.ticket_sequence + 1 }))
        t
draw-Advances queues row t e k q n h = elim (Bool-cases (q == t.queue_id)) [
  | inl hit ↦
      let here : sequence_of (queues q) ≡ row.ticket_sequence =
        rw ((==_iff q t.queue_id).0 hit, e) in
      ground (arith, rw hit at h)
  | inr miss ↦ ground (arith, rw miss at h)
]

pub pointer_of-draw :
    (queues : ℕ → Option Queue) (q n : ℕ) (row : Queue)
    → queues q ≡ some row
    → (x : ℕ)
    → pointer_of (update queues q (record row { ticket_sequence = n }) x) ≡ pointer_of (queues x)
pointer_of-draw queues q n row e x = elim (Bool-cases (x == q)) [
  | inl h ↦ rw (h, (==_iff x q).0 h, e)
  | inr h ↦ rw h
]

-- A new waiting ticket with the next number of its queue, once the constraints have let it in.
insert-Consistent :
    (db created : Db) (row : Queue) (t : Ticket)
    → Consistent db
    → db.queues t.queue_id ≡ some row
    → t.ticket_number ≡ row.ticket_sequence + 1
    → is_in_progress t.status ≡ false
    → insert_ticket t (draw_number t.queue_id row db) ≡ ok created
    → Consistent created
unfolding insert_ticket draw_number
insert-Consistent db created row t c e k w h =
    let queues' =
      update db.queues t.queue_id (record row { ticket_sequence = row.ticket_sequence + 1 }) in
    let free : count_if (λ u. has_id t.id u || collides t u) db.tickets ≡ 0 = ground arith in
    let grown =
      append-IsConsistent db.queues queues' db.tickets t c free w
        (draw-Advances db.queues row t e k)
        (pointer_of-draw db.queues t.queue_id (row.ticket_sequence + 1) row e) in
    let whole : created ≡ record db { queues = queues'; tickets = db.tickets ++ t ∷ [] } =
      ground arith in
    rw whole grown

-- Joining a queue keeps the invariant.
pub join_queue-Consistent :
    (ctx : AuthContext) (q id now : ℕ) (db : Db) (r : Ticket × Db)
    → join_queue ctx q id now db ≡ ok r
    → Consistent db
    → Consistent r.1
unfolding new_ticket
join_queue-Consistent ctx q id now db r h c =
    let (row, created, e, _, _, _, _, _, i, k) = join_queue-result ctx q id now db r h in
    rw k (
      announced ctx (some ctx.user_id) _ _ _ _ _ created (
        insert-Consistent db created row (new_ticket id q row (some ctx.user_id) none none now db) c
          e refl refl i))

-- Taking a ticket at the kiosk keeps the invariant.
pub join_queue_as_guest-Consistent :
    (q : ℕ) (name phone : Option Text) (id now : ℕ) (db : Db) (r : Ticket × Db)
    → join_queue_as_guest q name phone id now db ≡ ok r
    → Consistent db
    → Consistent r.1
unfolding new_ticket record_audit publish_queue_event
join_queue_as_guest-Consistent q name phone id now db r h c =
    let (row, created, number, _, e, _, _, _, i, k) =
      join_queue_as_guest-result q name phone id now db r h in
    rw k (
      insert-Consistent db created row (new_ticket id q row none (guest_name_of name) number now db)
        c e refl refl i)
