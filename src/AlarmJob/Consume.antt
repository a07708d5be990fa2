-- ===== src/AlarmJob/Consume.antt =====
-- What one round of the runner's inner loop does with the pending events (src/alarm_job.c).
use boom_par.Prelude.{ℕ, ◌≤◌, ◌<◌, ◌≡◌, ◌⊎◌, ◌↔◌, refl, true, false, arith, has_flag}
use boom_par.Runner.{calling}
use boom_par.AlarmJob.{
  State, aj_paused, aj_running, aj_waiting, aj_shutdown, AlarmJob, shutdown_called, pause_called,
  wake_up_called, consume_events_and_update_state, inner_round,
}

abbrev pub Sent : AlarmJob → ℕ → Type 0
Sent ajob event = has_flag ajob.event_vector event ≡ true

abbrev pub Unsent : AlarmJob → ℕ → Type 0
Unsent ajob event = has_flag ajob.event_vector event ≡ false

-- When the job is due: woken while paused, or woken or timed out while it waits for its alarm, with
-- no event of a higher priority pending.
abbrev pub Due : AlarmJob → ℕ → Type 0
Due ajob total =
    Unsent ajob shutdown_called
    × (((ajob.state ≡ aj_paused) × Sent ajob wake_up_called)
        ⊎ ((ajob.state ≡ aj_waiting)
            × Unsent ajob pause_called
            × (Sent ajob wake_up_called ⊎ (ajob.period_in_microseconds ≤ total))))

-- A round leads to a call of the job function exactly when the job is due; so never before the
-- period has passed, but by a wake-up.
pub alarm_round-calls :
    (ajob : AlarmJob) (total : ℕ) → ((inner_round ajob total).2 ≡ calling) ↔ Due ajob total
unfolding inner_round
alarm_round-calls ajob total = (λ h. ground arith, λ h. ground arith)

-- The header's diagram, with the event or the lapse that takes each edge.
pub data Edge (ajob : AlarmJob) (total : ℕ) : State → State → Type 0 where
  stop : {s : State} → Sent ajob shutdown_called → Edge ajob total s aj_shutdown
  stopped : Edge ajob total aj_shutdown aj_shutdown
  stay : Unsent ajob wake_up_called → Edge ajob total aj_paused aj_paused
  wake : Sent ajob wake_up_called → Edge ajob total aj_paused aj_running
  pause : Sent ajob pause_called → Edge ajob total aj_running aj_paused
  arm : Unsent ajob pause_called → Edge ajob total aj_running aj_waiting
  hold : Sent ajob pause_called → Edge ajob total aj_waiting aj_paused
  ring : Sent ajob wake_up_called → Edge ajob total aj_waiting aj_running
  lapse : ajob.period_in_microseconds ≤ total → Edge ajob total aj_waiting aj_running
  wait : total < ajob.period_in_microseconds → Edge ajob total aj_waiting aj_waiting

ruleset edges = (stop, stopped, stay, wake, pause, arm, hold, ring, lapse, wait)

-- Every round takes an edge of the diagram, for the reason that the edge names, and consumes all
-- events.
pub alarm_round-Edge :
    (ajob : AlarmJob) (total : ℕ)
    → let after = consume_events_and_update_state ajob total in
      Edge ajob total ajob.state after.state × (after.event_vector ≡ 0)
unfolding consume_events_and_update_state
alarm_round-Edge ajob total = (grind (arith, edges), refl)
