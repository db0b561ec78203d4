-- ===== src/Engine.antt =====
-- The queue engine as a transition system: each committed call of an operation of
-- src/server/tickets/ticket.service.ts or of `setQueueStatus` takes the database to the next one.
-- A call that throws rolls back and is no step.
use filazero_local.Base.{
  ℕ, ◌≡◌, refl, Bool, true, Option, none, some, List, [], Text, ◌≤◌, count_if, arith,
}
use filazero_local.Errors.{Result, ok}
use filazero_local.Access.Context.{AuthContext}
use filazero_local.Database.{Db, Ticket, Queue, QueueStatus}
use filazero_local.Queues.Status.{set_queue_status}
use filazero_local.Tickets.Join.{join_queue, join_queue_as_guest}
use filazero_local.Tickets.Staff.{
  call_next, recall_ticket, start_serving, complete_service, mark_no_show, cancel_ticket,
  leave_queue,
}
use filazero_local.Tickets.Transfer.{transfer_ticket}
pub mod Laws
pub mod Transitions
pub mod Positions

pub data Step (db : Db) (next : Db) : Type 0 where
  guest_joins :
      (queue : ℕ) (name phone : Option Text) (id now : ℕ) (t : Ticket)
      → join_queue_as_guest queue name phone id now db ≡ ok (t, next)
      → Step db next
  joins :
      (ctx : AuthContext) (queue id now : ℕ) (t : Ticket)
      → join_queue ctx queue id now db ≡ ok (t, next)
      → Step db next
  calls_next :
      (locked : ℕ → Bool) (ctx : AuthContext) (queue now : ℕ) (t : Ticket)
      → call_next locked ctx queue now db ≡ ok (t, next)
      → Step db next
  recalls :
      (ctx : AuthContext) (id now : ℕ) (t : Ticket)
      → recall_ticket ctx id now db ≡ ok (t, next)
      → Step db next
  starts :
      (ctx : AuthContext) (id now : ℕ) (t : Ticket)
      → start_serving ctx id now db ≡ ok (t, next)
      → Step db next
  completes :
      (ctx : AuthContext) (id now : ℕ) (t : Ticket)
      → complete_service ctx id now db ≡ ok (t, next)
      → Step db next
  misses :
      (ctx : AuthContext) (id now : ℕ) (t : Ticket)
      → mark_no_show ctx id now db ≡ ok (t, next)
      → Step db next
  cancels :
      (ctx : AuthContext) (id now : ℕ) (t : Ticket)
      → cancel_ticket ctx id now db ≡ ok (t, next)
      → Step db next
  leaves :
      (ctx : AuthContext) (id now : ℕ) (t : Ticket)
      → leave_queue ctx id now db ≡ ok (t, next)
      → Step db next
  transfers :
      (ctx : AuthContext) (id target now : ℕ) (t : Ticket)
      → transfer_ticket ctx id target now db ≡ ok (t, next)
      → Step db next
  sets_status :
      (ctx : AuthContext) (queue : ℕ) (status : QueueStatus) (q : Queue)
      → set_queue_status ctx queue status db ≡ ok (q, next)
      → Step db next

-- Any number of steps.
pub data Reach (start : Db) : Db → Type 0 where
  here : Reach start start
  next : {db db' : Db} → Reach start db → Step db db' → Reach start db'

-- A database before the first ticket: no queue has given out a number or shows a ticket.
pub record IsInitial (db : Db) : Type 0 where
  pub no_tickets : db.tickets ≡ []
  pub unused : (q : ℕ) (row : Queue) → db.queues q ≡ some row → row.current_ticket_id ≡ none
