-- ===== src/Tickets/Live.antt =====
-- The cached positions of src/server/tickets/ticket.service.ts against the live ones: after
-- `recomputePositions` the cache of the queue is right, and the cache of the others is left alone.
use filazero_local.Base.{
  ℕ, ◌+◌, ◌≤◌, ◌≡◌, refl, sym, ap, subst, ◌∙◌, Bool, true, false, some, List, [], ◌∷◌, map, inl,
  inr, ◌⊎◌, arith, ◌==◌, count_if, find, In, find-only, modify_where, count_if-modify_where,
  Option-cases, Bool-cases,
}
use filazero_local.Database.{Ticket}
use filazero_local.Tickets.Rows.{
  has_id, has_number, waits_in, ahead_of, waiting_line, compute_live_position,
}
use filazero_local.Tickets.Positions.{row_number, renumber}
use filazero_local.Tickets.Frame.{renumbered, renumber-Agrees, count_if-renumbered}
use filazero_local.Tickets.Line.{row_number-eq-live_position, row_number-not_waiting}

-- Each waiting ticket of the queue has its live position in the cache.
abbrev pub CacheIsLive : ℕ → List Ticket → Type 0
CacheIsLive q ts =
    (u : Ticket) → In u ts → waits_in q u ≡ true → u.position ≡ some (compute_live_position ts u)

-- An id names one ticket, and so does a number in a queue.
abbrev pub Keyed : List Ticket → Type 0
Keyed ts = ((i : ℕ) → count_if (has_id i) ts ≤ 1) × ((q n : ℕ) → count_if (has_number q n) ts ≤ 1)

-- A row of a mapped list comes from a row of the list.
In-map :
    (f : Ticket → Ticket) (ts : List Ticket) (u : Ticket)
    → In u (map f ts)
    → (t : Ticket) × In t ts × (f t ≡ u)
In-map f [] u i = absurd i
In-map f (t ∷ ts) u (inl e) = (t, inl refl, e)
In-map f (t ∷ ts) u (inr i) = let (v, j, e) = In-map f ts u i in (v, inr j, e)

-- The live position does not read the cache.
live-renumbered :
    (now q : ℕ) (ts : List Ticket) (u : Ticket)
    → compute_live_position (renumbered now q ts) u ≡ compute_live_position ts u
unfolding compute_live_position
live-renumbered now q ts u =
    ap (λ n. n + 1) (count_if-renumbered (ahead_of u) (λ t p a. refl) now q ts)

-- A renumbered row keeps its place in the line.
live-renumber :
    (now : ℕ) (line ts : List Ticket) (t : Ticket)
    → compute_live_position ts (renumber now line t) ≡ compute_live_position ts t
unfolding compute_live_position renumber
live-renumber now line ts t = elim (Option-cases (row_number t.id 1 line)) [
  | inl e ↦ rw (e, renumber)
  | inr (n, e) ↦ rw (e, renumber)
]

-- After the positions of a queue have been recomputed its cache is live.
pub renumbered-CacheIsLive :
    (ts : List Ticket) (now q : ℕ) → Keyed ts → CacheIsLive q (renumbered now q ts)
unfolding renumber
renumbered-CacheIsLive ts now q c u i w =
    let line = waiting_line q ts in
    let (t, j, e) = In-map (renumber now line) ts u i in
    let waits : waits_in q t ≡ true =
      sym (renumber-Agrees (waits_in q) (λ v p a. refl) now line t) ∙ ap (waits_in q) e ∙ w in
    let same : t.queue_id ≡ q = ground arith in
    let row : row_number t.id 1 line ≡ some (compute_live_position ts t) =
      subst (λ x. row_number t.id 1 (waiting_line x ts) ≡ some (compute_live_position ts t)) same
        (row_number-eq-live_position ts t c.0 (c.1 t.queue_id) j
          (subst (λ x. waits_in x t ≡ true) (sym same) waits)) in
    let cached : (renumber now line t).position ≡ some (compute_live_position ts t) =
      rw (row, renumber) refl in
    let live = live-renumbered now q ts (renumber now line t) ∙ live-renumber now line ts t in
    subst (λ v. v.position ≡ some (compute_live_position (renumbered now q ts) v)) e
      (cached ∙ ap some (sym live))

-- The cache of another queue is not touched.
pub renumbered-CacheIsLive_other :
    (ts : List Ticket) (now q k : ℕ)
    → Keyed ts
    → (k == q) ≡ false
    → CacheIsLive k ts
    → CacheIsLive k (renumbered now q ts)
unfolding renumber
renumbered-CacheIsLive_other ts now q k c apart h u i w =
    let line = waiting_line q ts in
    let (t, j, e) = In-map (renumber now line) ts u i in
    let waits : waits_in k t ≡ true =
      sym (renumber-Agrees (waits_in k) (λ v p a. refl) now line t) ∙ ap (waits_in k) e ∙ w in
    let out : waits_in q t ≡ false = ground arith in
    let kept : (renumber now line t).position ≡ t.position =
      rw (row_number-not_waiting q ts t c.0 j out, renumber) refl in
    let live = live-renumbered now q ts (renumber now line t) ∙ live-renumber now line ts t in
    subst (λ v. v.position ≡ some (compute_live_position (renumbered now q ts) v)) e
      (kept ∙ h t j waits ∙ ap some (sym live))

In-modify_where :
    (p : Ticket → Bool) (f : Ticket → Ticket) (ts : List Ticket) (u : Ticket)
    → In u (modify_where p f ts)
    → (In u ts × (p u ≡ false)) ⊎ ((t : Ticket) × In t ts × (p t ≡ true) × (f t ≡ u))
In-modify_where p f [] u i = absurd i
In-modify_where p f (t ∷ ts) u (inl e) = elim (Bool-cases (p t)) [
  | inl y ↦ inr (t, inl refl, y, rw y at e)
  | inr n ↦ let same : t ≡ u = rw n at e in inl (inl same, subst (λ x. p x ≡ false) same n)
]
In-modify_where p f (t ∷ ts) u (inr i) = elim (In-modify_where p f ts u i) [
  | inl (j, n) ↦ inl (inr j, n)
  | inr (v, j, y, e) ↦ inr (v, inr j, y, e)
]

-- A write to a ticket that does not wait in the queue, before or after, leaves its cache live.
pub written-CacheIsLive :
    (ts : List Ticket) (id : ℕ) (f : Ticket → Ticket) (t : Ticket) (k : ℕ)
    → Keyed ts
    → find (has_id id) ts ≡ some t
    → waits_in k t ≡ false
    → waits_in k (f t) ≡ false
    → CacheIsLive k ts
    → CacheIsLive k (modify_where (has_id id) f ts)
unfolding compute_live_position
written-CacheIsLive ts id f t k c found out out' h u i w =
    elim (In-modify_where (has_id id) f ts u i) [
      | inl (j, _) ↦
          let counts = count_if-modify_where (has_id id) f (ahead_of u) ts t found (c.0 id) in
          h u j w ∙ ap some (ground arith)
      | inr (v, j, y, e) ↦
          let only = find-only (has_id id) ts v j y (c.0 id) in
          let same : v ≡ t = cc in
          let waits : waits_in k (f t) ≡ true =
            subst (λ x. waits_in k (f x) ≡ true) same
              (subst (λ x. waits_in k x ≡ true) (sym e) w) in
          absurd (ground arith)
    ]
