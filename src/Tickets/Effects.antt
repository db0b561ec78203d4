-- ===== src/Tickets/Effects.antt =====
-- The queues and the tickets that each operation of src/server/tickets/ticket.service.ts leaves
-- behind, as equations.
use filazero_local.Base.{ℕ, ◌≡◌, refl, ap, ◌∙◌, Option, some, List, modify_where}
use filazero_local.Access.Context.{AuthContext}
use filazero_local.Database.{
  Db, Ticket, Queue, NotificationType, AuditAction, QueueEventType, update, write_queue,
}
use filazero_local.Tickets.Rows.{has_id}
use filazero_local.Tickets.Positions.{recompute_positions}
use filazero_local.Tickets.Writes.{
  clear_pointer, write_ticket, clear_current_ticket, announce, retire,
}
use filazero_local.Tickets.Staff.{as_called, set_current}
use filazero_local.Tickets.Frame.{announce-SameRows, renumbered, recompute_positions-rows}

-- The database has these queues and these tickets.
abbrev pub HasRows : Db → (ℕ → Option Queue) → List Ticket → Type 0
HasRows db queues tickets = (db.tickets ≡ tickets) × (db.queues ≡ queues)

pub announce-HasRows :
    (ctx : AuthContext) (o : Option ℕ) (n : NotificationType) (a : AuditAction) (k : QueueEventType)
    (org : ℕ) (t : Ticket) (db : Db) (queues : ℕ → Option Queue) (ts : List Ticket)
    → HasRows db queues ts
    → HasRows (announce ctx o n a k org t db) queues ts
announce-HasRows ctx o n a k org t db queues ts h =
    let same = announce-SameRows ctx o n a k org t db in (same.0 ∙ h.0, same.1 ∙ h.1)

pub recompute-HasRows :
    (now q : ℕ) (db : Db) (queues : ℕ → Option Queue) (ts : List Ticket)
    → HasRows db queues ts
    → HasRows (recompute_positions now q db) queues (renumbered now q ts)
recompute-HasRows now q db queues ts h =
    let same = recompute_positions-rows now q db in
    (same.0 ∙ ap (renumbered now q) h.0, same.1 ∙ h.1)

-- The end of a ticket.
pub retire-HasRows :
    (now : ℕ) (t : Ticket) (f : Ticket → Ticket) (db : Db)
    → HasRows
        (retire now t f db)
        (λ k. clear_pointer t.id (db.queues k))
        (renumbered now t.queue_id (modify_where (has_id t.id) f db.tickets))
unfolding retire
retire-HasRows now t f db =
    recompute-HasRows now t.queue_id (clear_current_ticket t.id (write_ticket t.id f db)) _ _
      (refl, refl)

-- A ticket called to the desk.
pub call-HasRows :
    (ctx : AuthContext) (now q : ℕ) (row : Queue) (t : Ticket) (db : Db)
    → HasRows
        (recompute_positions now q
          (set_current q row t.id (write_ticket t.id (as_called ctx now) db)))
        (update db.queues q (record row { current_ticket_id = some t.id }))
        (renumbered now q (modify_where (has_id t.id) (as_called ctx now) db.tickets))
unfolding set_current write_queue write_ticket
call-HasRows ctx now q row t db =
    recompute-HasRows now q (set_current q row t.id (write_ticket t.id (as_called ctx now) db)) _ _
      (refl, refl)
