-- ===== src/Tickets/TransferLaws.antt =====
-- What `transferTicket` of src/server/tickets/ticket.service.ts makes of a ticket.
use filazero_local.Base.{
  ℕ, ◌<◌, ◌≡◌, refl, ap, true, false, some, arith, ◌==◌, In, count_if-In, find-holds,
}
use filazero_local.Errors.{ok}
use filazero_local.Access.Context.{AuthContext}
use filazero_local.Database.{Db, Ticket, Queue}
use filazero_local.Tickets.State.{TicketStatus, is_active_ticket_status}
use filazero_local.Tickets.Rows.{has_id, has_number}
use filazero_local.Tickets.Transfer.{transfer_ticket}
use filazero_local.Tickets.Invariant.{Consistent, sequence_of}
use filazero_local.Tickets.Results.{Loaded}
use filazero_local.Tickets.EntryResults.{transfer_ticket-result}

-- A transfer takes an active ticket to another queue of the same organization, where it keeps its
-- id and its owner, waits, and has a number above that of every ticket that queue has ever had.
pub transfer_ticket-ticket :
    (ctx : AuthContext) (id target now : ℕ) (db db' : Db) (t : Ticket)
    → Consistent db
    → transfer_ticket ctx id target now db ≡ ok (t, db')
    → (was : Ticket) × (source : Queue) × (aim : Queue) × Loaded id db was source
      × (db.queues target ≡ some aim)
      × (aim.organization_id ≡ source.organization_id)
      × ((was.queue_id == target) ≡ false)
      × (is_active_ticket_status was.status ≡ true)
      × (t.id ≡ id)
      × (t.user_id ≡ was.user_id)
      × (t.queue_id ≡ target)
      × (t.status ≡ TicketStatus.waiting)
      × ((u : Ticket) → In u db.tickets → u.queue_id ≡ target → u.ticket_number < t.ticket_number)
transfer_ticket-ticket ctx id target now db db' t c h =
    let (was, source, aim, _, l, _, other, active, e, one, _, _, k) =
      transfer_ticket-result ctx id target now db (t, db') h in
    let same = ap (λ r. r.0) k in
    let known : sequence_of (db.queues target) ≡ aim.ticket_sequence = rw e refl in
    let named : has_id id was ≡ true = find-holds (has_id id) db.tickets was l.0 in
    (
      was,
      source,
      aim,
      l,
      e,
      one,
      other,
      active,
      ground (arith, ap (λ x. x.id) same),
      ap (λ x. x.user_id) same,
      ap (λ x. x.queue_id) same,
      ap (λ x. x.status) same,
      λ u i home. ground (
        arith,
        ap (λ x. x.ticket_number) same,
        c.issued target u.ticket_number,
        count_if-In (has_number target u.ticket_number) db.tickets u i,
      ),
    )
