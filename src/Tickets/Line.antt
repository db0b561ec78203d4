-- ===== src/Tickets/Line.antt =====
-- The waiting line of a queue: who stands in it, and in which order.
use filazero_local.Base.{
  ℕ, suc, ◌+◌, ◌≤◌, ◌≡◌, refl, ap, subst, ◌∙◌, ◌≢◌, ◌⊎◌, inl, inr, Bool, true, false, ◌&&◌, none,
  some, List, [], ◌∷◌, arith, bit, count_if, select, Bool-cases, In, In-select, select-In,
  count_if-In, count_if-select, count_if-le, count_if-excluded, ==_refl,
}
use filazero_local.Database.{Ticket}
use filazero_local.Tickets.Rows.{
  has_id, has_number, waits_in, before, insert, in_order, waiting_line, compute_live_position,
}
use filazero_local.Tickets.Positions.{row_number}

pub In-insert : (t u : Ticket) (ts : List Ticket) → In t (insert u ts) → (u ≡ t) ⊎ In t ts
unfolding insert
In-insert t u [] i = i
In-insert t u (v ∷ vs) i = elim (Bool-cases (before u v)) [
  | inl e ↦ rw (e, insert) at i
  | inr e ↦ ground (arith, In-insert t u vs)
]

insert-In : (t u : Ticket) (ts : List Ticket) → (u ≡ t) ⊎ In t ts → In t (insert u ts)
unfolding insert
insert-In t u [] i = i
insert-In t u (v ∷ vs) i = ground (arith, insert-In t u vs)

In-in_order : (t : Ticket) (ts : List Ticket) → In t (in_order ts) → In t ts
unfolding in_order
In-in_order t [] i = i
In-in_order t (u ∷ us) i = ground (arith, In-insert t u (in_order us), In-in_order t us)

in_order-In : (t : Ticket) (ts : List Ticket) → In t ts → In t (in_order ts)
unfolding in_order
in_order-In t [] i = i
in_order-In t (u ∷ us) i = ground (arith, insert-In t u (in_order us), in_order-In t us)

count_if-insert :
    (p : Ticket → Bool) (t : Ticket) (ts : List Ticket)
    → count_if p (insert t ts) ≡ bit (p t) + count_if p ts
unfolding insert
count_if-insert p t [] = refl
count_if-insert p t (u ∷ us) = ground (arith, count_if-insert p t us)

count_if-in_order :
    (p : Ticket → Bool) (ts : List Ticket) → count_if p (in_order ts) ≡ count_if p ts
unfolding in_order
count_if-in_order p [] = refl
count_if-in_order p (t ∷ ts) =
    ground (arith, count_if-insert p t (in_order ts), count_if-in_order p ts)

-- Each row comes before all that follow it.
abbrev pub Sorted : List Ticket → Type 0
Sorted [] = Unit {0}
Sorted (t ∷ ts) = ((u : Ticket) → In u ts → before t u ≡ true) × Sorted ts

before_trans : (t u v : Ticket) → before t u ≡ true → before u v ≡ true → before t v ≡ true
before_trans t u v h k = ground arith

before-total :
    (t u : Ticket) → before t u ≡ false → u.ticket_number ≢ t.ticket_number → before u t ≡ true
before-total t u h k = ground arith

-- No other row has the number of `t`.
abbrev Fresh : Ticket → List Ticket → Type 0
Fresh t ts = (u : Ticket) → In u ts → u.ticket_number ≢ t.ticket_number

insert-Sorted : (t : Ticket) (ts : List Ticket) → Fresh t ts → Sorted ts → Sorted (insert t ts)
unfolding insert
insert-Sorted t [] f s = ((λ u i. absurd i), tt)
insert-Sorted t (v ∷ vs) f s = elim (Bool-cases (before t v)) [
  | inl e ↦ rw (e, insert) (first e, s)
  | inr e ↦ rw (e, insert) (later e, insert-Sorted t vs (λ u i. f u (inr i)) s.1)
]
  where
    first : before t v ≡ true → (u : Ticket) → In u (v ∷ vs) → before t u ≡ true
    first e u (inl i) = subst (λ x. before t x ≡ true) i e
    first e u (inr i) = before_trans t v u e (s.0 u i)

    later : before t v ≡ false → (u : Ticket) → In u (insert t vs) → before v u ≡ true
    later e u i = elim (In-insert u t vs i) [
      | inl j ↦ subst (λ x. before v x ≡ true) j (before-total t v e (f v (inl refl)))
      | inr j ↦ s.0 u j
    ]

-- No two rows of the list have one number.
abbrev pub Distinct : List Ticket → Type 0
Distinct [] = Unit {0}
Distinct (t ∷ ts) = Fresh t ts × Distinct ts

in_order-Sorted : (ts : List Ticket) → Distinct ts → Sorted (in_order ts)
unfolding in_order
in_order-Sorted [] d = tt
in_order-Sorted (t ∷ ts) d =
    insert-Sorted t (in_order ts) (λ u i. d.0 u (In-in_order u ts i)) (in_order-Sorted ts d.1)

-- A waiting row whose number is counted once shares it with no other waiting row.
Fresh-select :
    (q : ℕ) (t : Ticket) (ts : List Ticket)
    → count_if (has_number q t.ticket_number) (t ∷ ts) ≤ 1
    → waits_in q t ≡ true
    → Fresh t (select (waits_in q) ts)
Fresh-select q t ts h e u i same = ground (
  arith,
  In-select (waits_in q) ts u i,
  count_if-In (has_number q t.ticket_number) ts u (In-select (waits_in q) ts u i).0,
)

select-Distinct :
    (q : ℕ) (ts : List Ticket)
    → ((n : ℕ) → count_if (has_number q n) ts ≤ 1)
    → Distinct (select (waits_in q) ts)
select-Distinct q [] h = tt
select-Distinct q (t ∷ ts) h =
    let rest = select-Distinct q ts (λ n. omega (arith, h n)) in
    elim (Bool-cases (waits_in q t)) [
      | inl e ↦ rw e (Fresh-select q t ts (h t.ticket_number) e, rest)
      | inr e ↦ rw e rest
    ]

-- The line of a queue stands in order of arrival, and by number among those who came together.
pub waiting_line-Sorted :
    (q : ℕ) (ts : List Ticket)
    → ((n : ℕ) → count_if (has_number q n) ts ≤ 1)
    → Sorted (waiting_line q ts)
unfolding waiting_line
waiting_line-Sorted q ts h = in_order-Sorted (select (waits_in q) ts) (select-Distinct q ts h)

pub waiting_line-In :
    (q : ℕ) (ts : List Ticket) (t : Ticket)
    → In t (waiting_line q ts)
    → In t ts × (waits_in q t ≡ true)
unfolding waiting_line
waiting_line-In q ts t i = In-select (waits_in q) ts t (In-in_order t (select (waits_in q) ts) i)

pub In-waiting_line :
    (q : ℕ) (ts : List Ticket) (t : Ticket)
    → In t ts
    → waits_in q t ≡ true
    → In t (waiting_line q ts)
unfolding waiting_line
In-waiting_line q ts t i w =
    in_order-In t (select (waits_in q) ts) (select-In (waits_in q) ts t i w)

pub count_if-waiting_line :
    (p : Ticket → Bool) (q : ℕ) (ts : List Ticket)
    → count_if p (waiting_line q ts) ≡ count_if (λ u. waits_in q u && p u) ts
unfolding waiting_line
count_if-waiting_line p q ts =
    count_if-in_order p (select (waits_in q) ts) ∙ count_if-select p (waits_in q) ts

none_before_first :
    (t : Ticket) (ts : List Ticket)
    → ((u : Ticket) → In u ts → before t u ≡ true)
    → count_if (λ u. before u t) ts ≡ 0
none_before_first t [] h = refl
none_before_first t (u ∷ us) h =
    let head = h u (inl refl) in
    let rest = none_before_first t us (λ v i. h v (inr i)) in ground arith

-- In a sorted list with one row to an id, the row number is one more than the rows before.
row_number-count :
    (t : Ticket) (n : ℕ) (ts : List Ticket)
    → Sorted ts
    → count_if (has_id t.id) ts ≤ 1
    → In t ts
    → row_number t.id n ts ≡ some (n + count_if (λ u. before u t) ts)
unfolding row_number
row_number-count t n [] s u i = absurd i
row_number-count t n (v ∷ vs) s u (inl e) =
    let none_ahead = none_before_first t vs (λ w j. subst (λ x. before x w ≡ true) e (s.0 w j)) in
    ground (arith, ap (λ x. x.id) e, ap (λ x. x.joined_at) e, ap (λ x. x.ticket_number) e)
row_number-count t n (v ∷ vs) s u (inr i) =
    ground (arith, s.0 t i, count_if-In (has_id t.id) vs t i, row_number-count t (suc n) vs s.1)

row_number-none :
    (id n : ℕ) (ts : List Ticket) → count_if (has_id id) ts ≡ 0 → row_number id n ts ≡ none
unfolding row_number
row_number-none id n [] h = refl
row_number-none id n (t ∷ ts) h = ground (arith, row_number-none id (suc n) ts)

-- `ROW_NUMBER()` over the waiting tickets of a queue is the live position: where ids and numbers are
-- unique, a waiting ticket gets one more than the number of waiting tickets ahead of it.
pub row_number-eq-live_position :
    (ts : List Ticket) (t : Ticket)
    → ((i : ℕ) → count_if (has_id i) ts ≤ 1)
    → ((n : ℕ) → count_if (has_number t.queue_id n) ts ≤ 1)
    → In t ts
    → waits_in t.queue_id t ≡ true
    → row_number t.id 1 (waiting_line t.queue_id ts) ≡ some (compute_live_position ts t)
unfolding compute_live_position
row_number-eq-live_position ts t ids numbers i w =
    let q = t.queue_id in
    ground (
      arith,
      row_number-count t 1 (waiting_line q ts) (waiting_line-Sorted q ts numbers),
      count_if-waiting_line (has_id t.id) q ts,
      count_if-waiting_line (λ u. before u t) q ts,
      count_if-le (λ u. waits_in q u && has_id t.id u) (has_id t.id) (λ u h. ground arith) ts,
      ids t.id,
      In-waiting_line q ts t i w,
    )

-- A ticket that does not wait in the queue has no row number in its line.
pub row_number-not_waiting :
    (q : ℕ) (ts : List Ticket) (t : Ticket)
    → ((i : ℕ) → count_if (has_id i) ts ≤ 1)
    → In t ts
    → waits_in q t ≡ false
    → row_number t.id 1 (waiting_line q ts) ≡ none
row_number-not_waiting q ts t ids i w = row_number-none t.id 1 (waiting_line q ts) (
    omega (
      arith,
      count_if-waiting_line (has_id t.id) q ts,
      count_if-excluded (has_id t.id) (waits_in q) ts t i (==_refl t.id) w (ids t.id),
    ))
