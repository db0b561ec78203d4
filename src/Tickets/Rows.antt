-- ===== src/Tickets/Rows.antt =====
-- src/server/tickets/ticket.service.ts: the conditions of its queries on the tickets, and the order
-- in which a queue is served.
use filazero_local.Base.{
  ℕ, ◌+◌, Bool, ◌&&◌, ◌||◌, List, [], ◌∷◌, ltb, ◌==◌, if◌then◌else◌, is_some_of, count_if, select,
}
use filazero_local.Tickets.State.{is_waiting, is_in_progress, is_active}
use filazero_local.Database.{Ticket}

abbrev pub has_id : ℕ → Ticket → Bool
has_id id t = t.id == id

abbrev pub has_number : ℕ → ℕ → Ticket → Bool
has_number queue number t = t.queue_id == queue && t.ticket_number == number

-- A waiting ticket of the queue.
abbrev pub waits_in : ℕ → Ticket → Bool
waits_in queue t = t.queue_id == queue && is_waiting t.status

-- A called or serving ticket of the queue.
abbrev pub in_progress_in : ℕ → Ticket → Bool
in_progress_in queue t = t.queue_id == queue && is_in_progress t.status

-- An active ticket of the user in the queue.
abbrev pub active_of : ℕ → ℕ → Ticket → Bool
active_of user queue t = is_some_of user t.user_id && t.queue_id == queue && is_active t.status

-- `ORDER BY joined_at ASC, ticket_number ASC`
abbrev pub before : Ticket → Ticket → Bool
before t u =
    ltb t.joined_at u.joined_at
    || (t.joined_at == u.joined_at && ltb t.ticket_number u.ticket_number)

unfoldable pub insert : Ticket → List Ticket → List Ticket
insert t [] = t ∷ []
insert t (u ∷ us) = let later = insert t us in if before t u then t ∷ u ∷ us else u ∷ later

unfoldable pub in_order : List Ticket → List Ticket
unfolding insert
in_order [] = []
in_order (t ∷ ts) = insert t (in_order ts)

-- The waiting tickets of a queue, the next one first.
unfoldable pub waiting_line : ℕ → List Ticket → List Ticket
unfolding in_order
waiting_line queue ts = in_order (select (waits_in queue) ts)

-- A waiting ticket of the same queue that comes before `t`.
abbrev pub ahead_of : Ticket → Ticket → Bool
ahead_of t u = waits_in t.queue_id u && before u t

-- `computeLivePosition`
unfoldable pub compute_live_position : List Ticket → Ticket → ℕ
compute_live_position ts t = count_if (ahead_of t) ts + 1
