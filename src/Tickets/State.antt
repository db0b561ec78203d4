-- ===== src/Tickets/State.antt =====
-- src/server/tickets/ticket.state.ts: the state machine of a ticket.
use filazero_local.Base.{Bool, true, false, List, [], ◌∷◌, includes}
use filazero_local.Errors.{Result, ErrorCode, require}

pub data TicketStatus : Type 0 where
  waiting called serving completed cancelled no_show : TicketStatus

unfoldable pub TicketStatus-discrete : Discrete TicketStatus
TicketStatus-discrete = hlevel

unfoldable pub ticket_transitions : TicketStatus → List TicketStatus
ticket_transitions TicketStatus.waiting = TicketStatus.called ∷ TicketStatus.cancelled ∷ []
ticket_transitions TicketStatus.called =
    TicketStatus.serving ∷ TicketStatus.no_show ∷ TicketStatus.cancelled ∷ []
ticket_transitions TicketStatus.serving = TicketStatus.completed ∷ TicketStatus.cancelled ∷ []
ticket_transitions _ = []

abbrev pub terminal_ticket_statuses : List TicketStatus
terminal_ticket_statuses =
    TicketStatus.completed ∷ TicketStatus.cancelled ∷ TicketStatus.no_show ∷ []

abbrev pub active_ticket_statuses : List TicketStatus
active_ticket_statuses = TicketStatus.waiting ∷ TicketStatus.called ∷ TicketStatus.serving ∷ []

unfoldable pub is_terminal_ticket_status : TicketStatus → Bool
unfolding TicketStatus-discrete
is_terminal_ticket_status status = includes TicketStatus-discrete terminal_ticket_statuses status

unfoldable pub is_active_ticket_status : TicketStatus → Bool
unfolding TicketStatus-discrete
is_active_ticket_status status = includes TicketStatus-discrete active_ticket_statuses status

unfoldable pub can_transition_ticket : TicketStatus → TicketStatus → Bool
unfolding ticket_transitions TicketStatus-discrete
can_transition_ticket from to = includes TicketStatus-discrete (ticket_transitions from) to

unfoldable pub assert_ticket_transition : TicketStatus → TicketStatus → Result (Unit {0})
assert_ticket_transition from to = require (can_transition_ticket from to) ErrorCode.invalid_state

-- Tests of one status, as the queries write them.
abbrev pub is_waiting : TicketStatus → Bool
is_waiting TicketStatus.waiting = true
is_waiting _ = false

-- `status IN ('CALLED', 'SERVING')`
abbrev pub is_in_progress : TicketStatus → Bool
is_in_progress TicketStatus.called = true
is_in_progress TicketStatus.serving = true
is_in_progress _ = false

-- `status IN ('WAITING', 'CALLED', 'SERVING')`
abbrev pub is_active : TicketStatus → Bool
is_active TicketStatus.waiting = true
is_active TicketStatus.called = true
is_active TicketStatus.serving = true
is_active _ = false
