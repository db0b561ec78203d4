-- ===== src/Engine/Laws.antt =====
-- The invariant of the queue engine, after any history.
use filazero_local.Base.{
  ℕ, ◌≡◌, refl, Option, none, some, List, ==_iff, arith, inl, inr, Option-cases, Bool-cases, ◌==◌,
  select,
}
use filazero_local.Errors.{ok}
use filazero_local.Access.Context.{AuthContext}
use filazero_local.Database.{
  Db, Ticket, Queue, QueueStatus, update, write_queue, publish_queue_event, record_audit,
}
use filazero_local.Queues.StatusLaws.{notify_waiting-SameRows}
use filazero_local.Queues.Status.{set_queue_status}
use filazero_local.Tickets.Rows.{waits_in}
use filazero_local.Tickets.Invariant.{
  IsConsistent, Consistent, sequence_of, pointer_of, SameRows-Consistent,
}
use filazero_local.Tickets.Preserve.{
  complete_service-Consistent, mark_no_show-Consistent, cancel_ticket-Consistent,
  leave_queue-Consistent, recall_ticket-Consistent, start_serving-Consistent,
}
use filazero_local.Tickets.Admit.{
  call_next-Consistent, join_queue-Consistent, join_queue_as_guest-Consistent,
}
use filazero_local.Tickets.Moves.{transfer_ticket-Consistent}
use filazero_local.Engine.{
  Step, guest_joins, joins, calls_next, recalls, starts, completes, misses, cancels, leaves,
  transfers, sets_status, Reach, here, next, IsInitial,
}

-- A change of a queue's row that keeps its counter and its pointer.
rewrite_queue :
    (queues : ℕ → Option Queue) (q : ℕ) (old new : Queue) (ts : List Ticket)
    → queues q ≡ some old
    → new.ticket_sequence ≡ old.ticket_sequence
    → new.current_ticket_id ≡ old.current_ticket_id
    → IsConsistent queues ts
    → IsConsistent (update queues q new) ts
rewrite_queue queues q old new ts e s p c = record {
  ids = c.ids;
  numbers = c.numbers;
  issued = λ k n h. c.issued k n (rw (← sequence k) h);
  holders = c.holders;
  pointers = λ k. rw (pointer k) (c.pointers k);
}
  where
    sequence : (k : ℕ) → sequence_of (update queues q new k) ≡ sequence_of (queues k)
    sequence k = elim (Bool-cases (k == q)) [ inl h ↦ rw (h, (==_iff k q).0 h, e) s | inr h ↦ rw h ]

    pointer : (k : ℕ) → pointer_of (update queues q new k) ≡ pointer_of (queues k)
    pointer k = elim (Bool-cases (k == q)) [ inl h ↦ rw (h, (==_iff k q).0 h, e) p | inr h ↦ rw h ]

-- A change of status keeps the invariant.
set_queue_status-Consistent :
    (ctx : AuthContext) (q : ℕ) (s : QueueStatus) (db : Db) (r : Queue × Db)
    → set_queue_status ctx q s db ≡ ok r
    → Consistent db
    → Consistent r.1
unfolding set_queue_status write_queue publish_queue_event record_audit
set_queue_status-Consistent ctx q s db r h c = elim (Option-cases (db.queues q)) [
  | inl e ↦ absurd (ground arith)
  | inr (row, e) ↦
      let new = record row { status = s } in
      let changed = record db { queues = update db.queues q new } in
      let kept = rewrite_queue db.queues q row new db.tickets e refl refl c in
      let told = notify_waiting-SameRows (select (waits_in q) db.tickets) changed in
      SameRows-Consistent r.1 changed (ground arith) kept
]

-- Each committed call keeps the invariant.
pub Step-Consistent : {db db' : Db} → Step db db' → Consistent db → Consistent db'
Step-Consistent (guest_joins q name phone id now t h) =
    join_queue_as_guest-Consistent q name phone id now _ _ h
Step-Consistent (joins ctx q id now t h) = join_queue-Consistent ctx q id now _ _ h
Step-Consistent (calls_next locked ctx q now t h) = call_next-Consistent locked ctx q now _ _ h
Step-Consistent (recalls ctx id now t h) = recall_ticket-Consistent ctx id now _ _ h
Step-Consistent (starts ctx id now t h) = start_serving-Consistent ctx id now _ _ h
Step-Consistent (completes ctx id now t h) = complete_service-Consistent ctx id now _ _ h
Step-Consistent (misses ctx id now t h) = mark_no_show-Consistent ctx id now _ _ h
Step-Consistent (cancels ctx id now t h) = cancel_ticket-Consistent ctx id now _ _ h
Step-Consistent (leaves ctx id now t h) = leave_queue-Consistent ctx id now _ _ h
Step-Consistent (transfers ctx id target now t h) =
    transfer_ticket-Consistent ctx id target now _ _ h
Step-Consistent (sets_status ctx q s r h) = set_queue_status-Consistent ctx q s _ _ h

-- Before the first ticket the invariant holds.
pub IsInitial-Consistent : (db : Db) → IsInitial db → Consistent db
IsInitial-Consistent db i = rw i.no_tickets (record {
  ids = λ k. omega arith;
  numbers = λ q n. omega arith;
  issued = λ q n h. refl;
  holders = λ u q. omega arith;
  pointers = λ q. rw (blank q (db.queues q) refl) refl;
})
  where
    blank : (q : ℕ) (o : Option Queue) → db.queues q ≡ o → pointer_of o ≡ none
    blank q none e = refl
    blank q (some row) e = i.unused q row e

-- After any history from a database without tickets the invariant holds: ids and numbers are
-- unique, every number was given out by its queue's counter, a user has one active ticket in a
-- queue at most, and each queue shows exactly the ticket that it has in progress, if any.
pub Reach-Consistent : {start db : Db} → IsInitial start → Reach start db → Consistent db
Reach-Consistent {start} i here = IsInitial-Consistent start i
Reach-Consistent i (next r s) = Step-Consistent s (Reach-Consistent i r)
