-- ===== src/Engine/Positions.antt =====
-- The cached positions after any history of the queue engine.
use filazero_local.Base.{ℕ, ◌≡◌, refl, arith, inl, inr, Option-cases, select}
use filazero_local.Errors.{ok}
use filazero_local.Access.Context.{AuthContext}
use filazero_local.Database.{
  Db, Queue, QueueStatus, update, write_queue, publish_queue_event, record_audit,
}
use filazero_local.Queues.Status.{set_queue_status}
use filazero_local.Tickets.Rows.{waits_in}
use filazero_local.Tickets.Invariant.{Consistent}
use filazero_local.Tickets.LiveSteps.{
  AllLive, live_of_rows, call_next-live, recall_ticket-live, start_serving-live,
  complete_service-live, mark_no_show-live, cancel_ticket-live, leave_queue-live,
}
use filazero_local.Tickets.LiveArrivals.{
  JoinedBy, join_queue-live, join_queue_as_guest-live, transfer_ticket-live,
}
use filazero_local.Queues.StatusLaws.{notify_waiting-SameRows}
use filazero_local.Engine.{
  Step, guest_joins, joins, calls_next, recalls, starts, completes, misses, cancels, leaves,
  transfers, sets_status, IsInitial,
}
use filazero_local.Engine.Laws.{Step-Consistent, IsInitial-Consistent}

-- A step whose clock is not behind that of those who joined before.
abbrev pub Timely : {db db' : Db} → Step db db' → Type 0
Timely {db} (guest_joins q name phone id now t h) = JoinedBy now db
Timely {db} (joins ctx q id now t h) = JoinedBy now db
Timely _ = Unit {0}

-- Any number of such steps.
pub data TimelyReach (start : Db) : Db → Type 0 where
  here : TimelyReach start start
  next : {db db' : Db} → TimelyReach start db → (s : Step db db') → Timely s → TimelyReach start db'

set_queue_status-live :
    (ctx : AuthContext) (q : ℕ) (s : QueueStatus) (db : Db) (r : Queue × Db)
    → set_queue_status ctx q s db ≡ ok r
    → AllLive db
    → AllLive r.1
unfolding set_queue_status write_queue publish_queue_event record_audit
set_queue_status-live ctx q s db r h live = elim (Option-cases (db.queues q)) [
  | inl e ↦ absurd (ground arith)
  | inr (row, e) ↦
      let changed = record db { queues = update db.queues q (record row { status = s }) } in
      let told = notify_waiting-SameRows (select (waits_in q) db.tickets) changed in
      live_of_rows r.1 r.1.queues db.tickets (ground arith, refl) live
]

pub Step-AllLive :
    {db db' : Db} (s : Step db db') → Timely s → Consistent db → AllLive db → AllLive db'
Step-AllLive (guest_joins q name phone id now t h) by =
    join_queue_as_guest-live q name phone id now _ _ h by
Step-AllLive (joins ctx q id now t h) by = join_queue-live ctx q id now _ _ h by
Step-AllLive (calls_next locked ctx q now t h) _ = call_next-live locked ctx q now _ _ h
Step-AllLive (recalls ctx id now t h) _ = recall_ticket-live ctx id now _ _ h
Step-AllLive (starts ctx id now t h) _ = start_serving-live ctx id now _ _ h
Step-AllLive (completes ctx id now t h) _ = complete_service-live ctx id now _ _ h
Step-AllLive (misses ctx id now t h) _ = mark_no_show-live ctx id now _ _ h
Step-AllLive (cancels ctx id now t h) _ = cancel_ticket-live ctx id now _ _ h
Step-AllLive (leaves ctx id now t h) _ = leave_queue-live ctx id now _ _ h
Step-AllLive (transfers ctx id target now t h) _ = transfer_ticket-live ctx id target now _ _ h
Step-AllLive (sets_status ctx q s r h) _ = λ _. set_queue_status-live ctx q s _ _ h

reach_both : {start db : Db} → IsInitial start → TimelyReach start db → Consistent db × AllLive db
reach_both {start} i here = (IsInitial-Consistent start i, (λ q u m. ground arith))
reach_both i (next r s t) =
    let (c, live) = reach_both i r in (Step-Consistent s c, Step-AllLive s t c live)

-- After any history in which nobody joins before those already in the table, each waiting ticket
-- has in its row the position that the customer is shown: one more than the number of waiting
-- tickets of its queue that come before it by time of joining, then by number.
pub TimelyReach-AllLive : {start db : Db} → IsInitial start → TimelyReach start db → AllLive db
TimelyReach-AllLive i r = (reach_both i r).1
