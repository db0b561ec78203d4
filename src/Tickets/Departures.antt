-- ===== src/Tickets/Departures.antt =====
-- A ticket that moves to another queue, under the invariant.
use filazero_local.Base.{
  ℕ, ◌+◌, ◌≤◌, ◌≡◌, Bool, true, false, not, ◌&&◌, Option, some, List, inl, inr, arith, ◌==◌, bit,
  count_if, count_if-le, count_if-split, count_if-excluded, find, find-In, find-holds, find-count,
  modify_where, count_if-modify_where, Bool-cases,
}
use filazero_local.Database.{Ticket, Queue}
use filazero_local.Tickets.Rows.{has_id, has_number, active_of}
use filazero_local.Tickets.Writes.{collides}
use filazero_local.Tickets.Invariant.{IsConsistent, Shows, pointer_of}
use filazero_local.Tickets.Arrivals.{Advances}

module _ (queues queues' : ℕ → Option Queue) (ts : List Ticket) (old new : Ticket)
    (c : IsConsistent queues ts) (found : find (has_id new.id) ts ≡ some old)
    (elsewhere : (old.queue_id == new.queue_id) ≡ false)
    (free : count_if (λ u. not (has_id new.id u) && collides new u) ts ≡ 0)
    (advances : Advances queues queues' new) where
  abbrev moved : List Ticket
  moved = modify_where (has_id new.id) (λ _. new) ts

  moved_count : (p : Ticket → Bool) → count_if p moved + bit (p old) ≡ count_if p ts + bit (p new)
  moved_count p = count_if-modify_where (has_id new.id) (λ _. new) p ts old found (c.ids new.id)

  old_counts : (p : Ticket → Bool) → bit (p old) ≤ count_if p ts
  old_counts p = ground (arith, find-count (has_id new.id) p ts old found)

  old_id : has_id new.id old ≡ true
  old_id = find-holds (has_id new.id) ts old found

  -- What only rows of the new queue satisfy, and no other row may share, nobody satisfies yet.
  unclaimed :
      (p : Ticket → Bool)
      → p old ≡ false
      → ((u : Ticket) → p u ≡ true → collides new u ≡ true)
      → count_if p ts ≡ 0
  unclaimed p out clash = ground (
    arith,
    count_if-split (has_id new.id) p ts,
    count_if-excluded (has_id new.id) p ts old (find-In (has_id new.id) ts old found) old_id out
        (c.ids new.id),
    count_if-le (λ u. not (has_id new.id u) && p u) (λ u. not (has_id new.id u) && collides new u)
        (λ u h. ground (arith, clash u)) ts,
  )

  -- A transfer that no constraint refuses keeps the invariant, if the pointers are right.
  pub moved-IsConsistent :
      ((q : ℕ) → Shows q (pointer_of (queues' q)) moved) → IsConsistent queues' moved
  moved-IsConsistent shown = record {
    ids = λ i. ground (arith, old_id, c.ids i, moved_count (has_id i), old_counts (has_id i));
    numbers = numbers';
    issued = λ q n h.
        ground
          (arith, advances q n h, c.issued q n (advances q n h).0, moved_count (has_number q n));
    holders = holders';
    pointers = shown;
  }
    where
      numbers' : (q n : ℕ) → count_if (has_number q n) moved ≤ 1
      numbers' q n = elim (Bool-cases (has_number q n new)) [
        | inl e ↦
            let nobody = unclaimed (has_number q n) (ground arith) (λ u h. ground arith) in
            ground (arith, moved_count (has_number q n))
        | inr e ↦ ground (arith, moved_count (has_number q n), c.numbers q n)
      ]

      holders' : (u q : ℕ) → count_if (active_of u q) moved ≤ 1
      holders' u q = elim (Bool-cases (active_of u q new)) [
        | inl e ↦
            let nobody = unclaimed (active_of u q) (ground arith) (λ v h. ground arith) in
            ground (arith, moved_count (active_of u q))
        | inr e ↦ ground (arith, moved_count (active_of u q), c.holders u q)
      ]
