-- ===== src/Tickets/Life.antt =====
-- The status of one ticket across the writes of src/server/tickets/ticket.service.ts.
use filazero_local.Base.{
  ℕ, ◌≡◌, refl, true, false, Option, none, some, List, [], ◌∷◌, ◌++◌, map, inl, inr, ◌⊎◌, arith,
  ◌==◌, if◌then◌else◌, find, modify_where, Option-cases, Bool-cases,
}
use filazero_local.Database.{Ticket}
use filazero_local.Tickets.State.{TicketStatus, can_transition_ticket}
use filazero_local.Tickets.Rows.{has_id, waiting_line}
use filazero_local.Tickets.Positions.{row_number, renumber}
use filazero_local.Tickets.Frame.{renumbered}

-- The status of the ticket with this id.
abbrev pub status_of : ℕ → List Ticket → Option TicketStatus
status_of i [] = none
status_of i (t ∷ ts) = let rest = status_of i ts in if has_id i t then some t.status else rest

status_of-map :
    (i : ℕ) (f : Ticket → Ticket)
    → ((t : Ticket) → ((f t).id ≡ t.id) × ((f t).status ≡ t.status))
    → (ts : List Ticket) → status_of i (map f ts) ≡ status_of i ts
status_of-map i f h [] = refl
status_of-map i f h (t ∷ ts) = ground (arith, h t, status_of-map i f h ts)

renumber-keeps :
    (now : ℕ) (line : List Ticket) (t : Ticket)
    → ((renumber now line t).id ≡ t.id) × ((renumber now line t).status ≡ t.status)
unfolding renumber
renumber-keeps now line t = elim (Option-cases (row_number t.id 1 line)) [
  | inl e ↦ rw (e, renumber) (refl, refl)
  | inr (n, e) ↦ rw (e, renumber) (refl, refl)
]

-- Recomputing positions changes no status.
pub status_of-renumbered :
    (i now q : ℕ) (ts : List Ticket) → status_of i (renumbered now q ts) ≡ status_of i ts
status_of-renumbered i now q ts =
    status_of-map i (renumber now (waiting_line q ts)) (renumber-keeps now (waiting_line q ts)) ts

-- A new ticket changes the status of no old one.
pub status_of-append :
    (i : ℕ) (ts : List Ticket) (t : Ticket) (s : TicketStatus)
    → status_of i ts ≡ some s
    → status_of i (ts ++ t ∷ []) ≡ some s
status_of-append i [] t s e = cc
status_of-append i (u ∷ us) t s e = ground (arith, status_of-append i us t s)

-- The status of a ticket that is found is that of the row.
pub status_of-find :
    (i : ℕ) (ts : List Ticket) (t : Ticket)
    → find (has_id i) ts ≡ some t
    → status_of i ts ≡ some t.status
status_of-find i [] t e = cc
status_of-find i (u ∷ us) t e = ground (arith, status_of-find i us t)

status_of-write_other :
    (i j : ℕ) (f : Ticket → Ticket) (ts : List Ticket)
    → (i == j) ≡ false
    → ((t : Ticket) → (f t).id ≡ t.id)
    → status_of i (modify_where (has_id j) f ts) ≡ status_of i ts
status_of-write_other i j f [] h k = refl
status_of-write_other i j f (t ∷ ts) h k = ground (arith, k t, status_of-write_other i j f ts h k)

status_of-write_self :
    (j : ℕ) (f : Ticket → Ticket) (ts : List Ticket) (t : Ticket)
    → find (has_id j) ts ≡ some t
    → ((u : Ticket) → (f u).id ≡ u.id)
    → status_of j (modify_where (has_id j) f ts) ≡ some (f t).status
status_of-write_self j f [] t e k = cc
status_of-write_self j f (u ∷ us) t e k = ground (arith, k u, status_of-write_self j f us t)

-- What may become of a status: it stays, or it moves on as the state machine allows.
abbrev pub Follows : TicketStatus → TicketStatus → Type 0
Follows s s' = (s ≡ s') ⊎ (can_transition_ticket s s' ≡ true)

-- Each ticket of the first table is in the second, and its status has followed the machine.
abbrev pub Orderly : List Ticket → List Ticket → Type 0
Orderly ts us =
    (i : ℕ) (s : TicketStatus)
    → status_of i ts ≡ some s
    → (s' : TicketStatus) × (status_of i us ≡ some s') × Follows s s'

-- A write to one ticket that follows the machine is orderly.
pub written-Orderly :
    (j : ℕ) (f : Ticket → Ticket) (ts : List Ticket) (t : Ticket)
    → find (has_id j) ts ≡ some t
    → ((u : Ticket) → (f u).id ≡ u.id)
    → Follows t.status (f t).status
    → Orderly ts (modify_where (has_id j) f ts)
written-Orderly j f ts t e k m i s h = elim (Bool-cases (i == j)) [
  | inl y ↦
      let same : i ≡ j = ground arith in
      let was : t.status ≡ s = ground (arith, status_of-find j ts t) in
      ((f t).status, rw same (status_of-write_self j f ts t e k), rw (← was) m)
  | inr n ↦ (s, rw (status_of-write_other i j f ts n k) h, inl refl)
]

pub renumbered-Orderly :
    (now q : ℕ) (ts us : List Ticket) → Orderly ts us → Orderly ts (renumbered now q us)
renumbered-Orderly now q ts us o i s h =
    let (s', e, m) = o i s h in (s', rw (status_of-renumbered i now q us) e, m)
