-- ===== src/Tickets/Invariant.antt =====
-- The invariant of the queue engine, over the tables of queues and tickets.
use filazero_local.Base.{
  ℕ, ◌<◌, ◌≤◌, ◌≡◌, refl, Bool, not, ◌&&◌, Option, none, some, List, arith, count_if,
}
use filazero_local.Database.{Db, Ticket, Queue}
use filazero_local.Tickets.Rows.{has_id, has_number, in_progress_in, active_of}
use filazero_local.Tickets.Frame.{SameRows, Agrees, renumbered, count_if-renumbered}

-- The last number that a queue has given out.
abbrev pub sequence_of : Option Queue → ℕ
sequence_of none = 0
sequence_of (some q) = q.ticket_sequence

-- The ticket that a queue shows as the current one.
abbrev pub pointer_of : Option Queue → Option ℕ
pointer_of none = none
pointer_of (some q) = q.current_ticket_id

abbrev pub is_current : ℕ → ℕ → Ticket → Bool
is_current q c t = in_progress_in q t && has_id c t

-- A ticket in progress that is not the current one.
abbrev pub is_stray : ℕ → ℕ → Ticket → Bool
is_stray q c t = in_progress_in q t && not (has_id c t)

-- A queue with no current ticket has none in progress; otherwise just that one is in progress.
abbrev pub Shows : ℕ → Option ℕ → List Ticket → Type 0
Shows q none ts = count_if (in_progress_in q) ts ≡ 0
Shows q (some c) ts =
    (count_if (in_progress_in q) ts ≡ 1)
    × (count_if (is_current q c) ts ≡ 1)
    × (count_if (is_stray q c) ts ≡ 0)

pub record IsConsistent (queues : ℕ → Option Queue) (tickets : List Ticket) : Type 0 where
  -- An id names one ticket.
  pub ids : (i : ℕ) → count_if (has_id i) tickets ≤ 1
  -- A number names one ticket of its queue,
  pub numbers : (q n : ℕ) → count_if (has_number q n) tickets ≤ 1
  -- and was given out by the queue's counter.
  pub issued : (q n : ℕ) → sequence_of (queues q) < n → count_if (has_number q n) tickets ≡ 0
  -- A user has one active ticket in a queue at most.
  pub holders : (u q : ℕ) → count_if (active_of u q) tickets ≤ 1
  -- The pointer of each queue shows what is in progress.
  pub pointers : (q : ℕ) → Shows q (pointer_of (queues q)) tickets

-- A database is consistent if its queues and tickets are.
abbrev pub Consistent : Db → Type 0
Consistent db = IsConsistent db.queues db.tickets

Shows-ext :
    (q : ℕ) (p : Option ℕ) (ts us : List Ticket)
    → ((r : Ticket → Bool) → Agrees r → count_if r us ≡ count_if r ts)
    → Shows q p ts
    → Shows q p us
Shows-ext q none ts us h s = omega (arith, h (in_progress_in q) (λ t p a. refl))
Shows-ext q (some c) ts us h s = omega (
  arith,
  h (in_progress_in q) (λ t p a. refl),
  h (is_current q c) (λ t p a. refl),
  h (is_stray q c) (λ t p a. refl),
)

-- Recomputing the cached positions keeps the invariant.
pub renumbered-IsConsistent :
    (queues : ℕ → Option Queue) (ts : List Ticket) (now q : ℕ)
    → IsConsistent queues ts
    → IsConsistent queues (renumbered now q ts)
renumbered-IsConsistent queues ts now q c =
    let same = λ (r : Ticket → Bool) (h : Agrees r). count_if-renumbered r h now q ts in
    record {
      ids = λ i. omega (arith, c.ids i, same (has_id i) (λ t p a. refl));
      numbers = λ k n. omega (arith, c.numbers k n, same (has_number k n) (λ t p a. refl));
      issued = λ k n h. omega (arith, c.issued k n h, same (has_number k n) (λ t p a. refl));
      holders = λ u k. omega (arith, c.holders u k, same (active_of u k) (λ t p a. refl));
      pointers =
          λ k. Shows-ext k (pointer_of (queues k)) ts (renumbered now q ts) same (c.pointers k);
    }

-- A database with the same rows is as consistent.
pub SameRows-Consistent : (a b : Db) → SameRows a b → Consistent b → Consistent a
SameRows-Consistent a b h c = rw (h.0, h.1) c
