-- ===== src/Tickets/StateLaws.antt =====
-- The life of a ticket under src/server/tickets/ticket.state.ts.
use filazero_local.Base.{
  ℕ, ◌+◌, ◌≡◌, refl, ◌<◌, ◌≤◌, ◌↔◌, true, false, not, List, [], ◌∷◌, arith, length,
}
use filazero_local.Tickets.State.{
  TicketStatus, can_transition_ticket, is_terminal_ticket_status, is_active_ticket_status,
}

-- A path through the table of transitions: each status is followed by one that the table allows.
-- `transferTicket`, which sets a ticket back to WAITING, does not go by the table.
pub data Run : TicketStatus → List TicketStatus → TicketStatus → Type 0 where
  stop : (s : TicketStatus) → Run s [] s
  step :
      {s t u : TicketStatus} {path : List TicketStatus}
      → can_transition_ticket s t ≡ true
      → Run t path u
      → Run s (t ∷ path) u

-- The number of steps a status lies from the end at most.
abbrev pub steps_left : TicketStatus → ℕ
steps_left TicketStatus.waiting = 3
steps_left TicketStatus.called = 2
steps_left TicketStatus.serving = 1
steps_left _ = 0

transition-descends :
    (s t : TicketStatus) → can_transition_ticket s t ≡ true → steps_left t < steps_left s
unfolding can_transition_ticket
transition-descends TicketStatus.waiting t h = ground arith
transition-descends TicketStatus.called t h = ground arith
transition-descends TicketStatus.serving t h = ground arith
transition-descends _ t h = ground arith

-- A path through the table of transitions makes at most `steps_left` steps from its first status,
-- three from WAITING, and so comes back to no status. A transfer is no transition of the table.
pub Run-bounded :
    {s t : TicketStatus} {path : List TicketStatus}
    → Run s path t
    → length path + steps_left t ≤ steps_left s
Run-bounded (stop s) = omega arith
Run-bounded (step {s} {t} h r) = omega (arith, transition-descends s t h, Run-bounded r)

-- A status is terminal exactly if it is not active, and exactly if no transition leaves it.
terminal_iff :
    (s : TicketStatus)
    → (is_terminal_ticket_status s ≡ not (is_active_ticket_status s))
      × ((is_terminal_ticket_status s ≡ true)
          ↔ ((t : TicketStatus) → can_transition_ticket s t ≡ false))
unfolding can_transition_ticket is_terminal_ticket_status is_active_ticket_status
terminal_iff TicketStatus.waiting = (refl, ((λ h. cc), (λ h. cc (h TicketStatus.called))))
terminal_iff TicketStatus.called = (refl, ((λ h. cc), (λ h. cc (h TicketStatus.serving))))
terminal_iff TicketStatus.serving = (refl, ((λ h. cc), (λ h. cc (h TicketStatus.completed))))
terminal_iff _ = (refl, ((λ h t. refl), (λ h. refl)))
