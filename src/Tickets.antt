-- ===== src/Tickets.antt =====
-- src/server/tickets: the state machine of a ticket (ticket.state.ts) and the queue engine
-- (ticket.service.ts), and what is proved of them.
pub mod Frame
pub mod Invariant
pub mod Join
pub mod Line
pub mod Positions
pub mod Rows
pub mod Staff
pub mod State
pub mod StateLaws
pub mod Writes
pub mod Rewrite
pub mod Arrivals
pub mod Departures
pub mod Results
pub mod Preserve
pub mod Admit
pub mod Fifo
pub mod Effects
pub mod Live
pub mod LiveSteps
pub mod LiveArrivals
pub mod Life
pub mod Joining
pub mod Tenancy
pub mod EntryResults
pub mod Moves
pub mod Transfer
pub mod TransferLaws
