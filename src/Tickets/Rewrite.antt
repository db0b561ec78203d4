-- ===== src/Tickets/Rewrite.antt =====
-- One ticket rewritten under the invariant: what each kind of write does to the counts.
use filazero_local.Base.{
  ℕ, ◌+◌, ◌<◌, ◌≤◌, ◌≡◌, refl, sym, subst, ==_iff, inl, inr, Bool, true, false, Option, none, some,
  List, arith, ◌==◌, bit, count_if, count_if-le, find, find-count, find-holds_only, find-holds,
  modify_where, count_if-modify_where, is_some_of, if◌then◌else◌, Option-cases, Bool-cases,
}
use filazero_local.Database.{Ticket, Queue, update}
use filazero_local.Tickets.State.{is_active, is_in_progress}
use filazero_local.Tickets.Rows.{has_id, has_number, in_progress_in, active_of}
use filazero_local.Tickets.Writes.{clear_pointer}
use filazero_local.Tickets.Invariant.{
  IsConsistent, Shows, sequence_of, pointer_of, is_current, is_stray,
}

-- The columns that a change of status leaves alone.
abbrev pub Keeps : Ticket → Ticket → Type 0
Keeps t u =
    (u.id ≡ t.id)
    × (u.queue_id ≡ t.queue_id)
    × (u.ticket_number ≡ t.ticket_number)
    × (u.user_id ≡ t.user_id)

-- A ticket found by its id, and the table with `f` applied to it.
module _ (queues : ℕ → Option Queue) (ts : List Ticket) (id : ℕ) (f : Ticket → Ticket) (t : Ticket)
    (c : IsConsistent queues ts) (found : find (has_id id) ts ≡ some t) where
  abbrev written : List Ticket
  written = modify_where (has_id id) f ts

  -- The balance of every count.
  balance :
      (p : Ticket → Bool)
      → (count_if p written + bit (p t) ≡ count_if p ts + bit (p (f t)))
        × (bit (p t) ≤ count_if p ts)
  balance p = ground (
    arith,
    count_if-modify_where (has_id id) f p ts t found (c.ids id),
    find-count (has_id id) p ts t found,
  )

  -- A status that keeps the key columns, and is active only if the old one was, keeps all but the
  -- pointers.
  pub status_write :
      (queues' : ℕ → Option Queue)
      → Keeps t (f t)
      → (is_active (f t).status ≡ true → is_active t.status ≡ true)
      → ((q : ℕ) → sequence_of (queues' q) ≡ sequence_of (queues q))
      → ((q : ℕ) → Shows q (pointer_of (queues' q)) written)
      → IsConsistent queues' written
  status_write queues' k a s p = record {
    ids = λ i. ground (arith, c.ids i, balance (has_id i));
    numbers = λ q n. ground (arith, c.numbers q n, balance (has_number q n));
    issued = λ q n h. ground (arith, c.issued q n, s q, balance (has_number q n));
    holders = λ u q. ground (arith, c.holders u q, balance (active_of u q));
    pointers = p;
  }

  -- A ticket in progress is the one that its queue shows.
  pub current_of : is_in_progress t.status ≡ true → pointer_of (queues t.queue_id) ≡ some id
  current_of h = elim (Option-cases (pointer_of (queues t.queue_id))) [
    | inl e ↦ absurd (lost (rw e at (c.pointers t.queue_id)))
    | inr (k, e) ↦ rw e (kept k (rw e at (c.pointers t.queue_id)))
  ]
    where
      key : t.id ≡ id
      key = ground (arith, find-holds (has_id id) ts t found)

      lost : Shows t.queue_id none ts → ⊥
      lost s = ground (arith, find-count (has_id id) (in_progress_in t.queue_id) ts t found)

      kept : (k : ℕ) → Shows t.queue_id (some k) ts → some k ≡ some id
      kept k s = ground (arith, key, find-count (has_id id) (is_stray t.queue_id k) ts t found)

  key-id : t.id ≡ id
  key-id = ground (arith, find-holds (has_id id) ts t found)

  same_shown :
      (q : ℕ) (p : Option ℕ)
      → Keeps t (f t)
      → is_in_progress (f t).status ≡ is_in_progress t.status
      → Shows q p ts
      → Shows q p written
  same_shown q none k h s = ground (arith, balance (in_progress_in q))
  same_shown q (some d) k h s =
      let a : count_if (in_progress_in q) written ≡ 1 =
        ground (arith, balance (in_progress_in q)) in
      let b : count_if (is_current q d) written ≡ 1 = ground (arith, balance (is_current q d)) in
      let e : count_if (is_stray q d) written ≡ 0 = ground (arith, balance (is_stray q d)) in
      (a, b, e)

  -- The queues show the same after a write that leaves the ticket in progress, or out of it.
  pub shown_same :
      (q : ℕ)
      → Keeps t (f t)
      → is_in_progress (f t).status ≡ is_in_progress t.status
      → Shows q (pointer_of (queues q)) written
  shown_same q k h = same_shown q (pointer_of (queues q)) k h (c.pointers q)

  -- If a queue shows the ticket, the ticket is in progress there.
  shown_in : (q d : ℕ) → (id == d) ≡ true → Shows q (some d) ts → in_progress_in q t ≡ true
  shown_in q d e s =
      let same : d ≡ id = sym ((==_iff id d).0 e) in
      let one_is : 0 < count_if (is_current q id) ts =
        subst (λ x. 0 < count_if (is_current q x) ts) same (omega arith) in
      find-holds_only (has_id id) (in_progress_in q) ts t found (c.ids id) one_is

  retired_shown :
      (q : ℕ) (p : Option ℕ)
      → is_in_progress (f t).status ≡ false
      → Shows q p ts
      → Shows q (if is_some_of id p then none else p) written
  retired_shown q none h s = ground (arith, balance (in_progress_in q))
  retired_shown q (some d) h (one, current, stray) = elim (Bool-cases (id == d)) [
    | inl e ↦ rw e (gone e)
    | inr e ↦ rw e (stays e)
  ]
    where
      gone : (id == d) ≡ true → count_if (in_progress_in q) written ≡ 0
      gone e =
          let was = shown_in q d e (one, current, stray) in
          ground (arith, balance (in_progress_in q))

      stays : (id == d) ≡ false → Shows q (some d) written
      stays e =
          let was : in_progress_in q t ≡ false = ground (arith, key-id, balance (is_stray q d)) in
          let a : count_if (in_progress_in q) written ≡ 1 =
            ground (arith, balance (in_progress_in q)) in
          let b : count_if (is_current q d) written ≡ 1 =
            ground (arith, balance (is_current q d)) in
          let z : count_if (is_stray q d) written ≡ 0 = ground (arith, balance (is_stray q d)) in
          (a, b, z)

  pointer_of-clear_pointer :
      (o : Option Queue)
      → pointer_of (clear_pointer id o)
        ≡ (if is_some_of id (pointer_of o) then none else pointer_of o)
  pointer_of-clear_pointer none = refl
  pointer_of-clear_pointer (some r) = ground arith

  -- Once a ticket has left the queue, a pointer that showed it is cleared and the others hold.
  pub shown_retired :
      (q : ℕ)
      → is_in_progress (f t).status ≡ false
      → Shows q (pointer_of (clear_pointer id (queues q))) written
  shown_retired q h =
      rw (pointer_of-clear_pointer (queues q))
        (retired_shown q (pointer_of (queues q)) h (c.pointers q))

  called_elsewhere :
      (q : ℕ) (p : Option ℕ)
      → Keeps t (f t)
      → (t.queue_id == q) ≡ false
      → Shows q p ts
      → Shows q p written
  called_elsewhere q none k h s = ground (arith, balance (in_progress_in q))
  called_elsewhere q (some d) k h s =
      let a : count_if (in_progress_in q) written ≡ 1 =
        ground (arith, balance (in_progress_in q)) in
      let b : count_if (is_current q d) written ≡ 1 = ground (arith, balance (is_current q d)) in
      let e : count_if (is_stray q d) written ≡ 0 = ground (arith, balance (is_stray q d)) in
      (a, b, e)

  called_here :
      Keeps t (f t)
      → is_in_progress (f t).status ≡ true
      → count_if (in_progress_in t.queue_id) ts ≡ 0
      → Shows t.queue_id (some id) written
  called_here k h z =
      let q = t.queue_id in
      let fewer = count_if-le (is_current q id) (in_progress_in q) (λ u e. ground arith) ts in
      let strays = count_if-le (is_stray q id) (in_progress_in q) (λ u e. ground arith) ts in
      let a : count_if (in_progress_in q) written ≡ 1 =
        ground (arith, balance (in_progress_in q)) in
      let b : count_if (is_current q id) written ≡ 1 =
        ground (arith, key-id, balance (is_current q id)) in
      let e : count_if (is_stray q id) written ≡ 0 =
        ground (arith, key-id, balance (is_stray q id)) in
      (a, b, e)

  -- A queue with nothing in progress shows the ticket that is called; the others are as before.
  pub shown_called :
      (r : Queue)
      → Keeps t (f t)
      → is_in_progress (f t).status ≡ true
      → count_if (in_progress_in t.queue_id) ts ≡ 0
      → (q : ℕ)
      → Shows q
          (pointer_of (update queues t.queue_id (record r { current_ticket_id = some id }) q))
          written
  shown_called r k h z q = elim (Bool-cases (q == t.queue_id)) [
    | inl e ↦ rw e (
        subst (λ x. Shows x (some id) written) (sym ((==_iff q t.queue_id).0 e))
          (called_here k h z))
    | inr e ↦ rw e (called_elsewhere q (pointer_of (queues q)) k (ground arith) (c.pointers q))
  ]

  -- A queue that the ticket does not stand in does not show it.
  pub pointer_elsewhere :
      (q : ℕ)
      → (t.queue_id == q) ≡ false
      → pointer_of (clear_pointer id (queues q)) ≡ pointer_of (queues q)
  pointer_elsewhere q h =
      rw (pointer_of-clear_pointer (queues q)) (go (pointer_of (queues q)) (c.pointers q))
    where
      go : (p : Option ℕ) → Shows q p ts → (if is_some_of id p then none else p) ≡ p
      go none s = refl
      go (some d) s = elim (Bool-cases (id == d)) [
        | inl e ↦ absurd (ground (arith, shown_in q d e s))
        | inr e ↦ rw e
      ]
