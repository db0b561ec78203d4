-- ===== src/Tickets/Arrivals.antt =====
-- A ticket that enters a queue, new or from another queue, under the invariant.
use filazero_local.Base.{
  ℕ, ◌+◌, ◌<◌, ◌≤◌, ◌≡◌, inl, inr, Bool, false, ◌||◌, Option, none, some, List, [], ◌∷◌, ◌++◌,
  arith, bit, count_if, count_if-append, count_if-le, Bool-cases,
}
use filazero_local.Database.{Ticket, Queue}
use filazero_local.Tickets.State.{is_in_progress}
use filazero_local.Tickets.Rows.{has_id, has_number, in_progress_in, active_of}
use filazero_local.Tickets.Writes.{collides}
use filazero_local.Tickets.Invariant.{
  IsConsistent, Shows, sequence_of, pointer_of, is_current, is_stray,
}

-- The counter of the ticket's queue has moved past its number, and no other counter has moved back.
abbrev pub Advances : (ℕ → Option Queue) → (ℕ → Option Queue) → Ticket → Type 0
Advances queues queues' t =
    (q n : ℕ)
    → sequence_of (queues' q) < n
    → (sequence_of (queues q) < n) × (has_number q n t ≡ false)

Shows-append :
    (q : ℕ) (p : Option ℕ) (ts : List Ticket) (t : Ticket)
    → is_in_progress t.status ≡ false
    → Shows q p ts
    → Shows q p (ts ++ t ∷ [])
Shows-append q none ts t h s = ground (arith, count_if-append (in_progress_in q) ts (t ∷ []))
Shows-append q (some d) ts t h s =
    let us = ts ++ t ∷ [] in
    let a : count_if (in_progress_in q) us ≡ 1 =
      ground (arith, count_if-append (in_progress_in q) ts (t ∷ [])) in
    let b : count_if (is_current q d) us ≡ 1 =
      ground (arith, count_if-append (is_current q d) ts (t ∷ [])) in
    let e : count_if (is_stray q d) us ≡ 0 =
      ground (arith, count_if-append (is_stray q d) ts (t ∷ [])) in
    (a, b, e)

-- A new waiting ticket that no constraint refuses keeps the invariant.
pub append-IsConsistent :
    (queues queues' : ℕ → Option Queue) (ts : List Ticket) (t : Ticket)
    → IsConsistent queues ts
    → count_if (λ u. has_id t.id u || collides t u) ts ≡ 0
    → is_in_progress t.status ≡ false
    → Advances queues queues' t
    → ((q : ℕ) → pointer_of (queues' q) ≡ pointer_of (queues q))
    → IsConsistent queues' (ts ++ t ∷ [])
append-IsConsistent queues queues' ts t c free w advances same = record {
  ids = ids';
  numbers = numbers';
  issued = issued';
  holders = holders';
  pointers = λ q. rw (same q) (Shows-append q (pointer_of (queues q)) ts t w (c.pointers q));
}
  where
    grown : (p : Ticket → Bool) → count_if p (ts ++ t ∷ []) ≡ count_if p ts + bit (p t)
    grown p = omega (arith, count_if-append p ts (t ∷ []))

    ids' : (i : ℕ) → count_if (has_id i) (ts ++ t ∷ []) ≤ 1
    ids' i = elim (Bool-cases (has_id i t)) [
      | inl e ↦
          let clash =
            count_if-le (has_id i) (λ u. has_id t.id u || collides t u) (λ u h. ground arith) ts in
          ground (arith, grown (has_id i))
      | inr e ↦ ground (arith, grown (has_id i), c.ids i)
    ]

    numbers' : (q n : ℕ) → count_if (has_number q n) (ts ++ t ∷ []) ≤ 1
    numbers' q n = elim (Bool-cases (has_number q n t)) [
      | inl e ↦
          let clash =
            count_if-le (has_number q n) (λ u. has_id t.id u || collides t u) (λ u h. ground arith)
              ts in
          ground (arith, grown (has_number q n))
      | inr e ↦ ground (arith, grown (has_number q n), c.numbers q n)
    ]

    issued' : (q n : ℕ) → sequence_of (queues' q) < n → count_if (has_number q n) (ts ++ t ∷ []) ≡ 0
    issued' q n h =
        ground (arith, advances q n h, c.issued q n (advances q n h).0, grown (has_number q n))

    holders' : (u q : ℕ) → count_if (active_of u q) (ts ++ t ∷ []) ≤ 1
    holders' u q = elim (Bool-cases (active_of u q t)) [
      | inl e ↦
          let clash =
            count_if-le (active_of u q) (λ v. has_id t.id v || collides t v) (λ v h. ground arith)
              ts in
          ground (arith, grown (active_of u q))
      | inr e ↦ ground (arith, grown (active_of u q), c.holders u q)
    ]
