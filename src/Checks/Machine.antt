-- ===== src/Checks/Machine.antt =====
-- Tests of src/server/tickets/ticket.state.ts.
use filazero_local.Base.{◌≤◌, ◌+◌, refl, List, [], ◌∷◌, length}
use filazero_local.Tickets.State.{TicketStatus, can_transition_ticket}
use filazero_local.Tickets.StateLaws.{Run, stop, step, steps_left, Run-bounded}

abbrev whole_service : List TicketStatus
whole_service = TicketStatus.called ∷ TicketStatus.serving ∷ TicketStatus.completed ∷ []

served : Run TicketStatus.waiting whole_service TicketStatus.completed
unfolding can_transition_ticket
served = step refl (step refl (step refl (stop TicketStatus.completed)))

Run-bounded_example :
    length whole_service + steps_left TicketStatus.completed ≤ steps_left TicketStatus.waiting
Run-bounded_example = Run-bounded served
