-- ===== src/Engine/Transitions.antt =====
-- The state machine of src/server/tickets/ticket.state.ts governs the table: what a step of the
-- engine does to the status of any ticket.
use filazero_local.Base.{
  ℕ, ◌≡◌, refl, sym, subst, Bool, true, Option, none, some, List, [], ◌∷◌, ◌++◌, inl, inr, arith,
  Text, find, modify_where, Option-cases, select,
}
use filazero_local.Errors.{ok}
use filazero_local.Access.Context.{AuthContext}
use filazero_local.Database.{
  Db, Ticket, Queue, QueueStatus, NotificationType, AuditAction, QueueEventType, update,
  write_queue, publish_queue_event, record_audit,
}
use filazero_local.Queues.Status.{set_queue_status}
use filazero_local.Tickets.State.{TicketStatus, can_transition_ticket}
use filazero_local.Tickets.Rows.{has_id, waits_in}
use filazero_local.Tickets.Positions.{recompute_positions}
use filazero_local.Tickets.Writes.{retire, write_ticket, announce, insert_ticket}
use filazero_local.Tickets.Join.{
  draw_number, new_ticket, guest_name_of, join_queue, join_queue_as_guest,
}
use filazero_local.Tickets.Staff.{
  as_called, as_recalled, as_serving, as_completed, as_no_show, as_cancelled, call_next,
  recall_ticket, start_serving, complete_service, mark_no_show, cancel_ticket, leave_queue,
  set_current,
}
use filazero_local.Tickets.Invariant.{Consistent}
use filazero_local.Tickets.Results.{
  Loaded, call_next-result, recall_ticket-result, start_serving-result, complete_service-result,
  mark_no_show-result, cancel_ticket-result, leave_queue-result,
}
use filazero_local.Tickets.EntryResults.{join_queue-result, join_queue_as_guest-result}
use filazero_local.Tickets.Effects.{HasRows, announce-HasRows, retire-HasRows, call-HasRows}
use filazero_local.Tickets.Preserve.{own_id}
use filazero_local.Tickets.Admit.{next-stands}
use filazero_local.Tickets.Life.{Orderly, status_of-append, written-Orderly, renumbered-Orderly}
use filazero_local.Queues.StatusLaws.{notify_waiting-SameRows}
use filazero_local.Engine.{
  Step, guest_joins, joins, calls_next, recalls, starts, completes, misses, cancels, leaves,
  transfers, sets_status,
}

-- The tables before and after a call.
abbrev OrderlyDb : Db → Db → Type 0
OrderlyDb a b = Orderly a.tickets b.tickets

Orderly-of_rows :
    (a db : Db) (queues : ℕ → Option Queue) (ts : List Ticket)
    → HasRows db queues ts
    → Orderly a.tickets ts
    → OrderlyDb a db
Orderly-of_rows a db queues ts h o = rw h.0 o

announced-Orderly :
    (a : Db) (ctx : AuthContext) (o : Option ℕ) (n : NotificationType) (k : AuditAction)
    (e : QueueEventType) (org : ℕ) (t : Ticket) (db : Db)
    → OrderlyDb a db
    → OrderlyDb a (announce ctx o n k e org t db)
announced-Orderly a ctx o n k e org t db h =
    Orderly-of_rows a (announce ctx o n k e org t db) db.queues db.tickets
      (announce-HasRows ctx o n k e org t db db.queues db.tickets (refl, refl)) h

retired-Orderly :
    (id now : ℕ) (t : Ticket) (row : Queue) (f : Ticket → Ticket) (db : Db)
    → Loaded id db t row
    → ((u : Ticket) → (f u).id ≡ u.id)
    → can_transition_ticket t.status (f t).status ≡ true
    → OrderlyDb db (retire now t f db)
retired-Orderly id now t row f db l k m =
    let found =
      subst (λ x. find (has_id x) db.tickets ≡ some t) (sym (own_id id db.tickets t l.0)) l.0 in
    Orderly-of_rows db (retire now t f db) _ _ (retire-HasRows now t f db) (
      renumbered-Orderly now t.queue_id db.tickets (modify_where (has_id t.id) f db.tickets)
        (written-Orderly t.id f db.tickets t found k (inr m)))

inserted-Orderly :
    (db created : Db) (q : ℕ) (row : Queue) (t : Ticket)
    → insert_ticket t (draw_number q row db) ≡ ok created
    → OrderlyDb db created
unfolding insert_ticket draw_number write_queue
inserted-Orderly db created q row t h =
    Orderly-of_rows db created created.queues (db.tickets ++ t ∷ []) (ground arith, refl)
      (λ i s e. (s, status_of-append i db.tickets t s e, inl refl))

complete_service-Orderly :
    (ctx : AuthContext) (id now : ℕ) (db : Db) (r : Ticket × Db)
    → complete_service ctx id now db ≡ ok r
    → OrderlyDb db r.1
complete_service-Orderly ctx id now db r h =
    let (t, row, l, _, m, e) = complete_service-result ctx id now db r h in
    rw e (
      announced-Orderly db ctx t.user_id _ _ _ _ _ _
        (retired-Orderly id now t row (as_completed now) db l (λ u. refl) m))

mark_no_show-Orderly :
    (ctx : AuthContext) (id now : ℕ) (db : Db) (r : Ticket × Db)
    → mark_no_show ctx id now db ≡ ok r
    → OrderlyDb db r.1
mark_no_show-Orderly ctx id now db r h =
    let (t, row, l, _, m, e) = mark_no_show-result ctx id now db r h in
    rw e (
      announced-Orderly db ctx t.user_id _ _ _ _ _ _
        (retired-Orderly id now t row (as_no_show now) db l (λ u. refl) m))

cancel_ticket-Orderly :
    (ctx : AuthContext) (id now : ℕ) (db : Db) (r : Ticket × Db)
    → cancel_ticket ctx id now db ≡ ok r
    → OrderlyDb db r.1
cancel_ticket-Orderly ctx id now db r h =
    let (t, row, l, _, m, e) = cancel_ticket-result ctx id now db r h in
    rw e (
      announced-Orderly db ctx t.user_id _ _ _ _ _ _
        (retired-Orderly id now t row (as_cancelled now) db l (λ u. refl) m))

leave_queue-Orderly :
    (ctx : AuthContext) (id now : ℕ) (db : Db) (r : Ticket × Db)
    → leave_queue ctx id now db ≡ ok r
    → OrderlyDb db r.1
leave_queue-Orderly ctx id now db r h =
    let (t, row, l, _, m, e) = leave_queue-result ctx id now db r h in
    rw e (
      announced-Orderly db ctx t.user_id _ _ _ _ _ _
        (retired-Orderly id now t row (as_cancelled now) db l (λ u. refl) m))

start_serving-Orderly :
    (ctx : AuthContext) (id now : ℕ) (db : Db) (r : Ticket × Db)
    → start_serving ctx id now db ≡ ok r
    → OrderlyDb db r.1
unfolding write_ticket set_current write_queue
start_serving-Orderly ctx id now db r h =
    let (t, row, l, _, m, e) = start_serving-result ctx id now db r h in
    rw e (
      announced-Orderly db ctx t.user_id _ _ _ _ _
        (set_current t.queue_id row id (write_ticket id (as_serving ctx now) db))
        (written-Orderly id (as_serving ctx now) db.tickets t l.0 (λ u. refl) (inr m)))

recall_ticket-Orderly :
    (ctx : AuthContext) (id now : ℕ) (db : Db) (r : Ticket × Db)
    → recall_ticket ctx id now db ≡ ok r
    → OrderlyDb db r.1
unfolding write_ticket
recall_ticket-Orderly ctx id now db r h =
    let (t, row, l, _, _, e) = recall_ticket-result ctx id now db r h in
    rw e (
      announced-Orderly db ctx t.user_id _ _ _ _ _ (write_ticket id (as_recalled now) db)
        (written-Orderly id (as_recalled now) db.tickets t l.0 (λ u. refl) (inl refl)))

waiting_may_be_called :
    (q : ℕ) (t : Ticket)
    → waits_in q t ≡ true
    → can_transition_ticket t.status TicketStatus.called ≡ true
unfolding can_transition_ticket
waiting_may_be_called q t w = ground arith

call_next-Orderly :
    (locked : ℕ → Bool) (ctx : AuthContext) (q now : ℕ) (db : Db) (r : Ticket × Db)
    → call_next locked ctx q now db ≡ ok r
    → Consistent db
    → OrderlyDb db r.1
call_next-Orderly locked ctx q now db r h c =
    let (t, row, _, _, _, first, k) = call_next-result locked ctx q now db r h in
    let (found, w) = next-stands locked q db.tickets t c.ids first in
    let desk =
      recompute_positions now q
        (set_current q row t.id (write_ticket t.id (as_called ctx now) db)) in
    rw k (
      announced-Orderly db ctx t.user_id _ _ _ _ _ desk (
        Orderly-of_rows db desk _ _ (call-HasRows ctx now q row t db) (
          renumbered-Orderly now q db.tickets
            (modify_where (has_id t.id) (as_called ctx now) db.tickets)
            (written-Orderly t.id (as_called ctx now) db.tickets t found (λ u. refl)
              (inr (waiting_may_be_called q t w))))))

join_queue-Orderly :
    (ctx : AuthContext) (q id now : ℕ) (db : Db) (r : Ticket × Db)
    → join_queue ctx q id now db ≡ ok r
    → OrderlyDb db r.1
join_queue-Orderly ctx q id now db r h =
    let (row, created, _, _, _, _, _, _, i, k) = join_queue-result ctx q id now db r h in
    rw k (
      announced-Orderly db ctx (some ctx.user_id) _ _ _ _ _ created (
        inserted-Orderly db created q row (new_ticket id q row (some ctx.user_id) none none now db)
          i))

join_queue_as_guest-Orderly :
    (q : ℕ) (name phone : Option Text) (id now : ℕ) (db : Db) (r : Ticket × Db)
    → join_queue_as_guest q name phone id now db ≡ ok r
    → OrderlyDb db r.1
unfolding record_audit publish_queue_event
join_queue_as_guest-Orderly q name phone id now db r h =
    let (row, created, number, _, _, _, _, _, i, k) =
      join_queue_as_guest-result q name phone id now db r h in
    rw k (
      inserted-Orderly db created q row
        (new_ticket id q row none (guest_name_of name) number now db) i)

set_queue_status-Orderly :
    (ctx : AuthContext) (q : ℕ) (s : QueueStatus) (db : Db) (r : Queue × Db)
    → set_queue_status ctx q s db ≡ ok r
    → OrderlyDb db r.1
unfolding set_queue_status write_queue publish_queue_event record_audit
set_queue_status-Orderly ctx q s db r h = elim (Option-cases (db.queues q)) [
  | inl e ↦ absurd (ground arith)
  | inr (row, e) ↦
      let changed = record db { queues = update db.queues q (record row { status = s }) } in
      let told = notify_waiting-SameRows (select (waits_in q) db.tickets) changed in
      Orderly-of_rows db r.1 r.1.queues db.tickets (ground arith, refl) (λ i u k. (u, k, inl refl))
]

-- Every step but a transfer.
abbrev pub IsNoTransfer : {db db' : Db} → Step db db' → Type 0
IsNoTransfer (transfers ctx id target now t h) = ⊥
IsNoTransfer _ = Unit {0}

-- In a consistent database every step but a transfer keeps every ticket, and the status of each
-- either stays as it is or makes a transition that the state machine allows.
pub Step-Orderly :
    {db db' : Db} (s : Step db db')
    → IsNoTransfer s
    → Consistent db
    → Orderly db.tickets db'.tickets
Step-Orderly (guest_joins q name phone id now t h) _ c =
    join_queue_as_guest-Orderly q name phone id now _ _ h
Step-Orderly (joins ctx q id now t h) _ c = join_queue-Orderly ctx q id now _ _ h
Step-Orderly (calls_next locked ctx q now t h) _ c = call_next-Orderly locked ctx q now _ _ h c
Step-Orderly (recalls ctx id now t h) _ c = recall_ticket-Orderly ctx id now _ _ h
Step-Orderly (starts ctx id now t h) _ c = start_serving-Orderly ctx id now _ _ h
Step-Orderly (completes ctx id now t h) _ c = complete_service-Orderly ctx id now _ _ h
Step-Orderly (misses ctx id now t h) _ c = mark_no_show-Orderly ctx id now _ _ h
Step-Orderly (cancels ctx id now t h) _ c = cancel_ticket-Orderly ctx id now _ _ h
Step-Orderly (leaves ctx id now t h) _ c = leave_queue-Orderly ctx id now _ _ h
Step-Orderly (transfers ctx id target now t h) n c = absurd n
Step-Orderly (sets_status ctx q s r h) _ c = set_queue_status-Orderly ctx q s _ _ h
