-- ===== src/Tickets/Joining.antt =====
-- When `joinQueue` of src/server/tickets/ticket.service.ts lets a customer in, and with what.
use filazero_local.Base.{
  ℕ, ◌+◌, ◌<◌, ◌≤◌, ◌≡◌, refl, ap, ◌↔◌, Bool, true, ◌||◌, none, some, List, [], ◌∷◌, inl, inr,
  arith, count_if, count_if-le, In, count_if-In,
}
use filazero_local.Errors.{ok, Result-cases}
use filazero_local.Access.Rbac.{Permission}
use filazero_local.Access.Context.{AuthContext, require_permission}
use filazero_local.Database.{Db, Ticket, Queue}
use filazero_local.Tickets.State.{TicketStatus}
use filazero_local.Tickets.Rows.{has_id, has_number, waits_in, active_of}
use filazero_local.Tickets.Writes.{is_open, collides, same_holder, insert_ticket}
use filazero_local.Tickets.Join.{
  draw_number, new_ticket, is_available, assert_operational, join_queue,
}
use filazero_local.Tickets.Invariant.{Consistent, sequence_of}
use filazero_local.Tickets.EntryResults.{join_queue-result}

count_if-or :
    (p q : Ticket → Bool) (ts : List Ticket)
    → count_if (λ u. p u || q u) ts ≤ count_if p ts + count_if q ts
count_if-or p q [] = omega arith
count_if-or p q (t ∷ ts) = ground (arith, count_if-or p q ts)

-- No constraint refuses a new ticket: its number has never been given out.
unrefused :
    (ctx : AuthContext) (q id now : ℕ) (db : Db) (row : Queue)
    → Consistent db
    → db.queues q ≡ some row
    → count_if (has_id id) db.tickets ≡ 0
    → count_if (active_of ctx.user_id q) db.tickets ≡ 0
    → let t = new_ticket id q row (some ctx.user_id) none none now db in
      count_if (λ u. has_id t.id u || collides t u) db.tickets ≡ 0
unfolding new_ticket
unrefused ctx q id now db row c e fresh single =
    let t = new_ticket id q row (some ctx.user_id) none none now db in
    let known : sequence_of (db.queues q) ≡ row.ticket_sequence = rw e refl in
    omega (
      arith,
      count_if-or (has_id id) (collides t) db.tickets,
      count_if-or (has_number q (row.ticket_sequence + 1)) (same_holder (some ctx.user_id) t)
          db.tickets,
      c.issued q (row.ticket_sequence + 1),
      count_if-le (same_holder (some ctx.user_id) t) (active_of ctx.user_id q) (λ u h. ground arith)
          db.tickets,
    )

-- In a consistent database, and for an id that is not taken, `joinQueue` succeeds exactly if the
-- caller may join, has a subscription where one is needed, the queue is open, its branch and
-- organization are active, and the caller has no active ticket in it: the unique indexes of the
-- table never refuse the row.
pub join_queue_iff :
    (ctx : AuthContext) (q id now : ℕ) (db : Db)
    → Consistent db
    → count_if (has_id id) db.tickets ≡ 0
    → ((r : Ticket × Db) × (join_queue ctx q id now db ≡ ok r)) ↔ (
        (row : Queue) × (db.queues q ≡ some row)
        × (require_permission ctx Permission.ticket_join ≡ ok tt)
        × (assert_operational ctx now db ≡ ok tt)
        × (is_open row.status ≡ true)
        × (is_available db row.branch_id ≡ true)
        × (count_if (active_of ctx.user_id q) db.tickets ≡ 0))
unfolding join_queue insert_ticket draw_number
join_queue_iff ctx q id now db c fresh = (needs, enough)
  where
    needs :
        ((r : Ticket × Db) × (join_queue ctx q id now db ≡ ok r))
        → (row : Queue) × (db.queues q ≡ some row)
          × (require_permission ctx Permission.ticket_join ≡ ok tt)
          × (assert_operational ctx now db ≡ ok tt)
          × (is_open row.status ≡ true)
          × (is_available db row.branch_id ≡ true)
          × (count_if (active_of ctx.user_id q) db.tickets ≡ 0)
    needs (r, h) =
        let (row, _, e, p, s, o, a, n, _, _) = join_queue-result ctx q id now db r h in
        (row, e, p, s, o, a, n)

    enough :
        ((row : Queue) × (db.queues q ≡ some row)
          × (require_permission ctx Permission.ticket_join ≡ ok tt)
          × (assert_operational ctx now db ≡ ok tt)
          × (is_open row.status ≡ true)
          × (is_available db row.branch_id ≡ true)
          × (count_if (active_of ctx.user_id q) db.tickets ≡ 0))
        → (r : Ticket × Db) × (join_queue ctx q id now db ≡ ok r)
    enough (row, e, p, s, o, a, n) = elim (Result-cases (join_queue ctx q id now db)) [
      | inl (f, refused) ↦
          let free = unrefused ctx q id now db row c e fresh n in absurd (ground arith)
      | inr (r, result) ↦ (r, result)
    ]

-- The ticket handed out waits under a number above that of every ticket that the queue has ever
-- had, at the position that follows those who wait.
pub join_queue-ticket :
    (ctx : AuthContext) (q id now : ℕ) (db db' : Db) (t : Ticket)
    → Consistent db
    → join_queue ctx q id now db ≡ ok (t, db')
    → (t.status ≡ TicketStatus.waiting)
      × (t.user_id ≡ some ctx.user_id)
      × (t.position ≡ some (count_if (waits_in q) db.tickets + 1))
      × ((u : Ticket) → In u db.tickets → u.queue_id ≡ q → u.ticket_number < t.ticket_number)
unfolding new_ticket
join_queue-ticket ctx q id now db db' t c h =
    let (row, _, e, _, _, _, _, _, _, k) = join_queue-result ctx q id now db (t, db') h in
    let same = ap (λ r. r.0) k in
    let known : sequence_of (db.queues q) ≡ row.ticket_sequence = rw e refl in
    (
      ap (λ x. x.status) same,
      ap (λ x. x.user_id) same,
      ap (λ x. x.position) same,
      λ u i home. ground (
        arith,
        ap (λ x. x.ticket_number) same,
        c.issued q u.ticket_number,
        count_if-In (has_number q u.ticket_number) db.tickets u i,
      ),
    )
