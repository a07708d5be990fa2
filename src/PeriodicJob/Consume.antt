-- ===== src/PeriodicJob/Consume.antt =====
-- What one round of the runner's inner loop does with the pending events (src/periodic_job.c).
use boom_par.Prelude.{ℕ, ◌≤◌, ◌<◌, ◌≡◌, ◌⊎◌, ◌↔◌, refl, true, false, arith, has_flag}
use boom_par.Runner.{top, calling}
use boom_par.PeriodicJob.{
  State, pj_paused, pj_single_shot_on_paused, pj_running, pj_waiting, pj_single_shot_on_waiting,
  pj_shutdown, PeriodicJob, shutdown_called, pause_called, resume_called, single_shot_called,
  next_state, consume_events_and_update_state, inner_round, periodic_job_runner,
}

abbrev pub Sent : PeriodicJob → ℕ → Type 0
Sent pjob event = has_flag pjob.event_vector event ≡ true

abbrev pub Unsent : PeriodicJob → ℕ → Type 0
Unsent pjob event = has_flag pjob.event_vector event ≡ false

-- When the job function is to run: resumed or shot once while paused, or shot once or timed out
-- while it waits, with no event of a higher priority pending.
abbrev pub Due : PeriodicJob → ℕ → Type 0
Due pjob total =
    Unsent pjob shutdown_called
    × (((pjob.state ≡ pj_paused) × (Sent pjob resume_called ⊎ Sent pjob single_shot_called))
        ⊎ ((pjob.state ≡ pj_waiting)
            × Unsent pjob pause_called
            × (Sent pjob single_shot_called ⊎ (pjob.period_in_microseconds ≤ total))))

-- A round leads to a call of the job function exactly when the job is due; so while the job waits,
-- never before its period has passed, but by a single shot.
pub periodic_round-calls :
    (pjob : PeriodicJob) (total : ℕ) → ((inner_round pjob total).2 ≡ calling) ↔ Due pjob total
unfolding inner_round
periodic_round-calls pjob total = (λ h. ground arith, λ h. ground arith)

-- The diagram of the states, with the events or the lapse that take each edge. A shutdown comes before
-- any other event; in a state that runs or waits, a pause comes next, then a single shot, and then
-- the lapse of the period; in a paused state, a resumption comes next, and then a single shot.
pub data Edge (pjob : PeriodicJob) (total : ℕ) : State → State → Type 0 where
  stop : {s : State} → Sent pjob shutdown_called → Edge pjob total s pj_shutdown
  stopped : Edge pjob total pj_shutdown pj_shutdown
  stay :
      Unsent pjob shutdown_called
      → Unsent pjob resume_called
      → Unsent pjob single_shot_called
      → Edge pjob total pj_paused pj_paused
  resume :
      Unsent pjob shutdown_called → Sent pjob resume_called → Edge pjob total pj_paused pj_running
  shoot_paused :
      Unsent pjob shutdown_called
      → Unsent pjob resume_called
      → Sent pjob single_shot_called
      → Edge pjob total pj_paused pj_single_shot_on_paused
  shot_resumed :
      Unsent pjob shutdown_called
      → Sent pjob resume_called
      → Edge pjob total pj_single_shot_on_paused pj_waiting
  shot_paused :
      Unsent pjob shutdown_called
      → Unsent pjob resume_called
      → Edge pjob total pj_single_shot_on_paused pj_paused
  pause :
      Unsent pjob shutdown_called → Sent pjob pause_called → Edge pjob total pj_running pj_paused
  rest :
      Unsent pjob shutdown_called → Unsent pjob pause_called → Edge pjob total pj_running pj_waiting
  hold : Unsent pjob shutdown_called → Sent pjob pause_called → Edge pjob total pj_waiting pj_paused
  shoot_waiting :
      Unsent pjob shutdown_called
      → Unsent pjob pause_called
      → Sent pjob single_shot_called
      → Edge pjob total pj_waiting pj_single_shot_on_waiting
  lapse :
      Unsent pjob shutdown_called
      → Unsent pjob pause_called
      → Unsent pjob single_shot_called
      → pjob.period_in_microseconds ≤ total
      → Edge pjob total pj_waiting pj_running
  wait :
      Unsent pjob shutdown_called
      → Unsent pjob pause_called
      → Unsent pjob single_shot_called
      → total < pjob.period_in_microseconds
      → Edge pjob total pj_waiting pj_waiting
  shot_held :
      Unsent pjob shutdown_called
      → Sent pjob pause_called
      → Edge pjob total pj_single_shot_on_waiting pj_paused
  shot_waiting :
      Unsent pjob shutdown_called
      → Unsent pjob pause_called
      → Edge pjob total pj_single_shot_on_waiting pj_waiting

ruleset edges = (
  stop, stopped, stay, resume, shoot_paused, shot_resumed, shot_paused, pause, rest, hold,
  shoot_waiting, lapse, wait, shot_held, shot_waiting,
)

Edge-next :
    (pjob : PeriodicJob) (total : ℕ) (from to : State)
    → Edge pjob total from to
    → to ≡ next_state from pjob.event_vector total pjob.period_in_microseconds
unfolding next_state
Edge-next pjob total pj_paused _ (stop e) = ground arith
Edge-next pjob total pj_single_shot_on_paused _ (stop e) = ground arith
Edge-next pjob total pj_running _ (stop e) = ground arith
Edge-next pjob total pj_waiting _ (stop e) = ground arith
Edge-next pjob total pj_single_shot_on_waiting _ (stop e) = ground arith
Edge-next pjob total pj_shutdown _ (stop e) = refl
Edge-next pjob total _ _ stopped = refl
Edge-next pjob total _ _ (stay n r s) = ground arith
Edge-next pjob total _ _ (resume n r) = ground arith
Edge-next pjob total _ _ (shoot_paused n r s) = ground arith
Edge-next pjob total _ _ (shot_resumed n r) = ground arith
Edge-next pjob total _ _ (shot_paused n r) = ground arith
Edge-next pjob total _ _ (pause n p) = ground arith
Edge-next pjob total _ _ (rest n p) = ground arith
Edge-next pjob total _ _ (hold n p) = ground arith
Edge-next pjob total _ _ (shoot_waiting n p s) = ground arith
Edge-next pjob total _ _ (lapse n p s l) = ground arith
Edge-next pjob total _ _ (wait n p s l) = ground arith
Edge-next pjob total _ _ (shot_held n p) = ground arith
Edge-next pjob total _ _ (shot_waiting n p) = ground arith

-- Every round takes an edge of the diagram, whose events are sent or not as the edge says, with the
-- events of higher priority than its own not sent; no edge that the events allow leads from that state
-- to another one; and the round consumes all events. So a shutdown comes before all, a pause before a
-- single shot and the lapse of the period, and a resumption before a single shot.
pub periodic_round-Edge :
    (pjob : PeriodicJob) (total : ℕ)
    → let after = consume_events_and_update_state pjob total in
      Edge pjob total pjob.state after.state
      × ((s : State) → Edge pjob total pjob.state s → s ≡ after.state)
      × (after.event_vector ≡ 0)
unfolding consume_events_and_update_state
periodic_round-Edge pjob total =
    (grind (arith, edges), (λ s e. Edge-next pjob total pjob.state s e), refl)

-- A job that runs one single shot, with no other event sent before or during the call of its
-- function, is back in the state it came from when the runner goes through its next round.
pub single_shot-restores :
    (pjob : PeriodicJob) (total remaining : ℕ)
    → (pjob.state ≡ pj_paused) ⊎ (pjob.state ≡ pj_waiting)
    → pjob.event_vector ≡ single_shot_called
    → let (shot, _, place) = inner_round pjob total in
      let (called, _, next_place) = periodic_job_runner shot place remaining in
      (place ≡ calling)
      × (next_place ≡ top)
      × ((periodic_job_runner called next_place remaining).0.state ≡ pjob.state)
unfolding inner_round periodic_job_runner has_flag
single_shot-restores pjob total remaining s e = ground arith
