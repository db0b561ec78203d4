-- ===== src/Tickets/Moves.antt =====
-- `transferTicket` of src/server/tickets/ticket.service.ts keeps the invariant.
use filazero_local.Base.{
  ℕ, ◌+◌, ◌<◌, ◌≡◌, refl, sym, subst, false, not, ◌&&◌, Option, some, List, inl, inr, arith, ◌==◌,
  count_if, find, modify_where, if◌then◌else◌, Bool-cases,
}
use filazero_local.Errors.{ok}
use filazero_local.Access.Context.{AuthContext}
use filazero_local.Database.{Db, Ticket, Queue, update}
use filazero_local.Tickets.State.{is_in_progress}
use filazero_local.Tickets.Rows.{has_id}
use filazero_local.Tickets.Writes.{clear_pointer, replace_ticket, collides}
use filazero_local.Tickets.Join.{draw_number}
use filazero_local.Tickets.Transfer.{as_transferred, clear_pointer_of, transfer_ticket}
use filazero_local.Tickets.Invariant.{IsConsistent, Consistent, Shows, sequence_of, pointer_of}
use filazero_local.Tickets.Rewrite.{shown_retired, pointer_elsewhere}
use filazero_local.Tickets.Arrivals.{Advances}
use filazero_local.Tickets.Departures.{moved-IsConsistent}
use filazero_local.Tickets.EntryResults.{transfer_ticket-result}
use filazero_local.Tickets.Preserve.{announced, recomputed, own_id, sequence_of-clear_pointer}
use filazero_local.Tickets.Admit.{draw-Advances, pointer_of-draw}

-- The pointers after a transfer: that of the old queue is cleared if it showed the ticket.
transfer_pointers :
    (queues : ℕ → Option Queue) (old target id n : ℕ) (row : Queue)
    → queues target ≡ some row
    → (old == target) ≡ false
    → (x : ℕ)
    → pointer_of (
        if x == old
        then clear_pointer id (update queues target (record row { ticket_sequence = n }) x)
        else update queues target (record row { ticket_sequence = n }) x)
      ≡ pointer_of (if x == old then clear_pointer id (queues x) else queues x)
transfer_pointers queues old target id n row e far x = elim (Bool-cases (x == old)) [
  | inl h ↦ let apart : (x == target) ≡ false = ground arith in rw (h, apart)
  | inr h ↦ rw h (pointer_of-draw queues target n row e x)
]

transfer_sequences :
    (queues : ℕ → Option Queue) (old id x : ℕ)
    → sequence_of (if x == old then clear_pointer id (queues x) else queues x)
      ≡ sequence_of (queues x)
transfer_sequences queues old id x = elim (Bool-cases (x == old)) [
  | inl h ↦ rw h (sequence_of-clear_pointer id (queues x))
  | inr h ↦ rw h
]

transfer_shown :
    (queues : ℕ → Option Queue) (ts : List Ticket) (new t : Ticket)
    → (c : IsConsistent queues ts) → (found : find (has_id t.id) ts ≡ some t)
    → is_in_progress new.status ≡ false
    → (q : ℕ)
    → Shows q
        (pointer_of (if q == t.queue_id then clear_pointer t.id (queues q) else queues q))
        (modify_where (has_id t.id) (λ _. new) ts)
transfer_shown queues ts new t c found w q =
    let cleared = shown_retired queues ts t.id (λ _. new) t c found q w in
    elim (Bool-cases (q == t.queue_id)) [
      | inl h ↦ rw h cleared
      | inr h ↦
          let apart : (t.queue_id == q) ≡ false = ground arith in
          rw (h, ← pointer_elsewhere queues ts t.id (λ _. new) t c found q apart) cleared
    ]

-- The row that a transfer writes, and the pointer that it clears.
pub transfer-Consistent :
    (db written : Db) (target now : ℕ) (t : Ticket) (row : Queue)
    → Consistent db
    → find (has_id t.id) db.tickets ≡ some t
    → db.queues target ≡ some row
    → (t.queue_id == target) ≡ false
    → replace_ticket
        (as_transferred target (row.ticket_sequence + 1) now t)
        (draw_number target row db)
      ≡ ok written
    → Consistent (clear_pointer_of t.queue_id t.id written)
unfolding replace_ticket draw_number clear_pointer_of
transfer-Consistent db written target now t row c found e far h =
    let n = row.ticket_sequence + 1 in
    let new = as_transferred target n now t in
    let drawn = update db.queues target (record row { ticket_sequence = n }) in
    let free : count_if (λ u. not (has_id t.id u) && collides new u) db.tickets ≡ 0 =
      ground arith in
    let advances : Advances db.queues
        (λ x. if x == t.queue_id then clear_pointer t.id (drawn x) else drawn x) new =
      λ q k less.
        draw-Advances db.queues row new e refl q k
          (subst (λ s. s < k) (transfer_sequences drawn t.queue_id t.id q) less) in
    let whole : written
        ≡ record db { queues = drawn; tickets = modify_where (has_id t.id) (λ _. new) db.tickets } =
      ground arith in
    rw whole (
      moved-IsConsistent db.queues
        (λ x. if x == t.queue_id then clear_pointer t.id (drawn x) else drawn x) db.tickets t new c
        found far free advances
        (λ q.
          rw (transfer_pointers db.queues t.queue_id target t.id n row e far q)
            (transfer_shown db.queues db.tickets new t c found refl q)))

-- A transfer keeps the invariant.
pub transfer_ticket-Consistent :
    (ctx : AuthContext) (id target now : ℕ) (db : Db) (r : Ticket × Db)
    → transfer_ticket ctx id target now db ≡ ok r
    → Consistent db
    → Consistent r.1
transfer_ticket-Consistent ctx id target now db r h c =
    let (t, q, row, written, l, _, far, _, e, _, _, i, k) =
      transfer_ticket-result ctx id target now db r h in
    let same = own_id id db.tickets t l.0 in
    rw k (
      announced ctx t.user_id _ _ _ _ _ _ (
        recomputed now target _ (
          recomputed now t.queue_id _ (
            subst (λ x. Consistent (clear_pointer_of t.queue_id x written)) same
              (transfer-Consistent db written target now t row c
                (subst (λ x. find (has_id x) db.tickets ≡ some t) (sym same) l.0) e far i)))))
