-- ===== src/Checks/Histories.antt =====
-- Tests of histories of the queue engine.
use filazero_local.Engine.{Step, Reach, joins, calls_next}
use filazero_local.Engine.Laws.{Reach-Consistent}
use filazero_local.Engine.Transitions.{Step-Orderly}
use filazero_local.Engine.Positions.{TimelyReach, TimelyReach-AllLive}
use filazero_local.Tickets.Invariant.{Consistent}
use filazero_local.Tickets.Life.{Orderly}
use filazero_local.Tickets.LiveSteps.{AllLive}
use filazero_local.Checks.Sample.{start, customer_ctx, staff_ctx, ticket_of, left_by}
use filazero_local.Checks.Runs as Runs
use filazero_local.Checks.Runs.{
  start-IsInitial, joined, after_join, after_join-Consistent, called, after_call, unheld,
  second_join, JoinedBy-then,
}

abbrev join_step : Step start after_join
join_step = joins customer_ctx 1 11 100 (ticket_of joined) Runs.joins

abbrev second_step : Step after_join (left_by after_join second_join)
second_step = joins customer_ctx 2 12 130 (ticket_of second_join) Runs.joins_again

abbrev call_step : Step after_join after_call
call_step = calls_next unheld staff_ctx 1 120 (ticket_of called) Runs.calls

Reach-Consistent_example : Consistent after_call
Reach-Consistent_example =
    Reach-Consistent start-IsInitial (Reach.next (Reach.next Reach.here join_step) call_step)

TimelyReach-AllLive_example : AllLive (left_by after_join second_join)
TimelyReach-AllLive_example = TimelyReach-AllLive start-IsInitial (
    TimelyReach.next (TimelyReach.next TimelyReach.here join_step (λ u i. absurd i)) second_step
      JoinedBy-then)

Step-Orderly_example : Orderly after_join.tickets after_call.tickets
Step-Orderly_example = Step-Orderly call_step tt after_join-Consistent
