-- ===== src/Tickets/Positions.antt =====
-- src/server/tickets/ticket.service.ts `recomputePositions`: the cached positions of a queue.
use filazero_local.Base.{
  ℕ, suc, Bool, false, Option, none, some, List, [], ◌∷◌, map, ltb, if◌then◌else◌, select, find,
}
use filazero_local.Database.{Db, Ticket, NotificationType}
use filazero_local.Notifications.Create.{notify_owner}
use filazero_local.Tickets.Rows.{has_id, waits_in, waiting_line}

-- `ROW_NUMBER()` of the row with this id, when the first row of the list has number `n`.
unfoldable pub row_number : ℕ → ℕ → List Ticket → Option ℕ
row_number id n [] = none
row_number id n (t ∷ ts) =
    let later = row_number id (suc n) ts in if has_id id t then some n else later

-- `UPDATE tickets SET position = rn FROM ranked WHERE t.id = ranked.id`, for one row.
unfoldable pub renumber : ℕ → List Ticket → Ticket → Ticket
unfolding row_number
renumber now line t = elim (row_number t.id 1 line) [
  | none ↦ t
  | some n ↦ record t { position = some n; updated_at = now }
]

-- `previousByTicket.get(id)`: NULL and a missing row read alike.
previous_position : ℕ → List Ticket → Option ℕ
previous_position id rows = elim (find (has_id id) rows) [ none ↦ none | some t ↦ t.position ]

-- Whether the position is there now, was there before, and has become smaller.
has_improved : Option ℕ → Option ℕ → Bool
has_improved (some old) (some new) = ltb new old
has_improved _ _ = false

unfoldable pub is_promoted : List Ticket → Ticket → Bool
unfolding previous_position has_improved
is_promoted rows t = has_improved (previous_position t.id rows) t.position

unfoldable pub notify_promoted : List Ticket → Db → Db
notify_promoted [] db = db
notify_promoted (t ∷ ts) db =
    notify_promoted ts (notify_owner t.user_id NotificationType.position_changed t.id db)

unfoldable pub recompute_positions : ℕ → ℕ → Db → Db
unfolding renumber is_promoted notify_promoted
recompute_positions now queue db =
    notify_promoted
      (select (is_promoted (select (waits_in queue) db.tickets))
        (select (waits_in queue) renumbered))
      (record db { tickets = renumbered })
  where
    renumbered : List Ticket
    renumbered = map (renumber now (waiting_line queue db.tickets)) db.tickets
