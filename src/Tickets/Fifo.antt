-- ===== src/Tickets/Fifo.antt =====
-- `callNext` of src/server/tickets/ticket.service.ts: when it succeeds, and whom it calls.
use filazero_local.Base.{
  ℕ, ◌<◌, ◌≡◌, refl, sym, ap, subst, ◌∙◌, ==_refl, ◌↔◌, ◌⊎◌, Bool, true, false, not, ◌&&◌, some,
  List, [], ◌∷◌, inl, inr, arith, count_if, find, find-In, find-holds, find-none, In, count_if-In,
  Option-cases, Bool-cases,
}
use filazero_local.Errors.{ok, Result-cases}
use filazero_local.Access.Rbac.{Permission}
use filazero_local.Access.Context.{AuthContext}
use filazero_local.Database.{Db, Ticket, Queue, write_queue}
use filazero_local.Tickets.Rows.{waits_in, in_progress_in, before, waiting_line}
use filazero_local.Tickets.Writes.{check_staff, write_ticket}
use filazero_local.Tickets.Staff.{as_called, call_next, next_unlocked, set_current}
use filazero_local.Tickets.Effects.{announce-HasRows, call-HasRows}
use filazero_local.Tickets.Line.{
  Sorted, waiting_line-Sorted, waiting_line-In, In-waiting_line, count_if-waiting_line,
}
use filazero_local.Tickets.Invariant.{Consistent, pointer_of}
use filazero_local.Tickets.Results.{call_next-result}
use filazero_local.Tickets.Admit.{call_next-Consistent}

-- In a sorted list the first row that passes comes before all others that pass.
find-first :
    (p : Ticket → Bool) (ts : List Ticket) (t u : Ticket)
    → Sorted ts
    → find p ts ≡ some t
    → In u ts
    → p u ≡ true
    → (u ≡ t) ⊎ (before t u ≡ true)
find-first p [] t u s e i h = absurd i
find-first p (v ∷ vs) t u s e (inl i) h = inl (ground (arith, subst (λ x. p x ≡ true) (sym i) h))
find-first p (v ∷ vs) t u s e (inr i) h = elim (Bool-cases (p v)) [
  | inl y ↦ let same : v ≡ t = ground arith in inr (subst (λ x. before x u ≡ true) same (s.0 u i))
  | inr n ↦ find-first p vs t u s.1 (ground arith) i h
]

-- The customer called was waiting in the queue and is the first in the line: every other waiting
-- ticket of the queue that no other transaction holds joined later, or at the same time under a
-- higher number. Afterwards the queue shows this ticket, and it is the only one in progress.
pub call_next-fifo :
    (locked : ℕ → Bool) (ctx : AuthContext) (q now : ℕ) (db db' : Db) (called : Ticket)
    → Consistent db
    → call_next locked ctx q now db ≡ ok (called, db')
    → (first : Ticket) × In first db.tickets
      × (waits_in q first ≡ true)
      × (called ≡ as_called ctx now first)
      × ((u : Ticket)
          → In u db.tickets
          → waits_in q u ≡ true
          → locked u.id ≡ false
          → (u ≡ first) ⊎ (before first u ≡ true))
      × (pointer_of (db'.queues q) ≡ some called.id)
      × (count_if (in_progress_in q) db'.tickets ≡ 1)
unfolding next_unlocked set_current write_queue write_ticket
call_next-fifo locked ctx q now db db' called c h =
    let (t, row, e, _, z, first, k) = call_next-result locked ctx q now db (called, db') h in
    let stands =
      waiting_line-In q db.tickets t
        (find-In (λ u. not (locked u.id)) (waiting_line q db.tickets) t first) in
    let rows =
      announce-HasRows ctx t.user_id _ _ _ row.organization_id (as_called ctx now t) _ _ _
        (call-HasRows ctx now q row t db) in
    let pointer : pointer_of (db'.queues q) ≡ some called.id =
      rw (ap (λ r. r.1.queues) k ∙ rows.1, ap (λ r. r.0.id) k, ==_refl q) refl in
    let shown = call_next-Consistent locked ctx q now db (called, db') h c in
    (
      t,
      stands.0,
      stands.1,
      ap (λ r. r.0) k,
      (λ u i w free.
          find-first (λ v. not (locked v.id)) (waiting_line q db.tickets) t u
            (waiting_line-Sorted q db.tickets (c.numbers q)) first
            (In-waiting_line q db.tickets u i w) (rw free)),
      pointer,
      (rw pointer at (shown.pointers q)).0,
    )

-- `callNext` succeeds exactly if the queue exists, the caller is staff of its branch, nothing is in
-- progress there, and a ticket that no other transaction holds waits.
pub call_next_iff :
    (locked : ℕ → Bool) (ctx : AuthContext) (q now : ℕ) (db : Db)
    → ((r : Ticket × Db) × (call_next locked ctx q now db ≡ ok r)) ↔ (
        (row : Queue) × (db.queues q ≡ some row)
        × (check_staff ctx Permission.ticket_call row ≡ ok tt)
        × (count_if (in_progress_in q) db.tickets ≡ 0)
        × (0 < count_if (λ u. waits_in q u && not (locked u.id)) db.tickets))
unfolding call_next next_unlocked
call_next_iff locked ctx q now db = (needs, enough)
  where
    needs :
        ((r : Ticket × Db) × (call_next locked ctx q now db ≡ ok r))
        → (row : Queue) × (db.queues q ≡ some row)
          × (check_staff ctx Permission.ticket_call row ≡ ok tt)
          × (count_if (in_progress_in q) db.tickets ≡ 0)
          × (0 < count_if (λ u. waits_in q u && not (locked u.id)) db.tickets)
    needs (r, h) =
        let (t, row, e, staff, z, first, _) = call_next-result locked ctx q now db r h in
        let line = waiting_line q db.tickets in
        let free = λ (u : Ticket). not (locked u.id) in
        let some_waits =
          count_if-In free line t (find-In free line t first) (find-holds free line t first) in
        (row, e, staff, z, omega (arith, count_if-waiting_line free q db.tickets))

    enough :
        ((row : Queue) × (db.queues q ≡ some row)
          × (check_staff ctx Permission.ticket_call row ≡ ok tt)
          × (count_if (in_progress_in q) db.tickets ≡ 0)
          × (0 < count_if (λ u. waits_in q u && not (locked u.id)) db.tickets))
        → (r : Ticket × Db) × (call_next locked ctx q now db ≡ ok r)
    enough (row, e, staff, z, waits) =
        elim (Option-cases (find (λ u. not (locked u.id)) (waiting_line q db.tickets))) [
          | inl absent ↦ absurd (
              let free = λ (u : Ticket). not (locked u.id) in
              omega (
                arith,
                find-none free (waiting_line q db.tickets) absent,
                count_if-waiting_line free q db.tickets,
              ))
          | inr (t, first) ↦ elim (Result-cases (call_next locked ctx q now db)) [
            | inl (f, no_result) ↦ absurd (ground arith)
            | inr (r, result) ↦ (r, result)
          ]
        ]
