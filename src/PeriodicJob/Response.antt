-- ===== src/PeriodicJob/Response.antt =====
-- How soon the runner answers a call (src/periodic_job.c): at its next round.
use boom_par.Prelude.{
  ℕ, ◌≡◌, ◌≢◌, ◌⊎◌, refl, ap, ◌∙◌, Bool, true, false, List, [], ◌∷◌, arith, has_flag, broadcast,
  waits, returns,
}
use boom_par.Prelude.Flags.{Flag, value, bit_0, bit_1, bit_2, bit_3, has_flag-set_flag}
use boom_par.Runner.{stop_wait, Pc, top, paused, timed, calling, exited}
use boom_par.PeriodicJob.{
  pj_paused, pj_shutdown, PeriodicJob, shutdown_called, pause_called, periodic_job_runner,
  may_pause, wait_for_pause_or_shutdown_of_periodic_job, wait_for_shutdown_of_periodic_job,
}
use boom_par.PeriodicJob.Reachable.{
  Call, resumes, pauses, shoots_once, shuts_down, updates_period, call,
}

-- Calls of other threads, while the runner is not in an atomic section.
unfoldable pub run_calls : PeriodicJob → List Call → PeriodicJob
run_calls pjob [] = pjob
run_calls pjob (c ∷ cs) = run_calls (call pjob c).0 cs

-- The places from which the runner goes through a round of its loops.
abbrev pub takes_round : Pc → Bool
takes_round top = true
takes_round (paused total) = true
takes_round (timed total time) = true
takes_round _ = false

-- Calls change nothing but the event vector and the period, and clear no event.
record Kept (before after : PeriodicJob) : Type 0 where
  same_state : after.state ≡ before.state
  keeps_events :
      (f : Flag)
      → has_flag before.event_vector (value f) ≡ true
      → has_flag after.event_vector (value f) ≡ true

call-Kept : (pjob : PeriodicJob) (c : Call) → Kept pjob (call pjob c).0
unfolding call
call-Kept pjob resumes = record {
  same_state = ground arith;
  keeps_events = λ f h. ground (arith, has_flag-set_flag pjob.event_vector bit_2 f);
}
call-Kept pjob pauses = record {
  same_state = ground arith;
  keeps_events = λ f h. ground (arith, has_flag-set_flag pjob.event_vector bit_1 f);
}
call-Kept pjob shoots_once = record {
  same_state = ground arith;
  keeps_events = λ f h. ground (arith, has_flag-set_flag pjob.event_vector bit_3 f);
}
call-Kept pjob shuts_down = record {
  same_state = ground arith;
  keeps_events = λ f h. ground (arith, has_flag-set_flag pjob.event_vector bit_0 f);
}
call-Kept pjob (updates_period period) = record {
  same_state = ground arith;
  keeps_events = λ f h. ground arith;
}

run_calls-Kept : (pjob : PeriodicJob) (cs : List Call) → Kept pjob (run_calls pjob cs)
unfolding run_calls
run_calls-Kept pjob [] = record { same_state = refl; keeps_events = λ f h. h }
run_calls-Kept pjob (c ∷ cs) =
    let first = call-Kept pjob c in
    let rest = run_calls-Kept (call pjob c).0 cs in
    record {
      same_state = rest.same_state ∙ first.same_state;
      keeps_events = λ f h. rest.keeps_events f (first.keeps_events f h);
    }

round-exits :
    (pjob : PeriodicJob) (pc : Pc) (remaining : ℕ)
    → has_flag pjob.event_vector shutdown_called ≡ true
    → takes_round pc ≡ true
    → let (after, notices, place) = periodic_job_runner pjob pc remaining in
      (after.state ≡ pj_shutdown) × (notices ≡ broadcast stop_wait ∷ []) × (place ≡ exited)
unfolding periodic_job_runner
round-exits pjob top remaining h t = ground arith
round-exits pjob _ remaining h t = ground arith

shuts_down-sends :
    (pjob : PeriodicJob)
    → pjob.state ≢ pj_shutdown
    → has_flag (call pjob shuts_down).0.event_vector shutdown_called ≡ true
unfolding call
shuts_down-sends pjob live = ground (arith, has_flag-set_flag pjob.event_vector bit_0 bit_0)

-- Once `shutdown_periodic_job` was called, whatever other calls come behind it, the runner's next
-- round, from wherever it stands, puts the job into `PJ_SHUTDOWN`, broadcasts to the threads that
-- wait for that, and returns. (The job was not shut down before.)
pub shutdown_periodic_job-exits :
    (pjob : PeriodicJob) (cs : List Call) (pc : Pc) (remaining : ℕ)
    → pjob.state ≢ pj_shutdown
    → takes_round pc ≡ true
    → let (after, notices, place) =
        periodic_job_runner (run_calls pjob (shuts_down ∷ cs)) pc remaining in
      (after.state ≡ pj_shutdown) × (notices ≡ broadcast stop_wait ∷ []) × (place ≡ exited)
unfolding run_calls
shutdown_periodic_job-exits pjob cs pc remaining live t =
    let rest = run_calls-Kept (call pjob shuts_down).0 cs in
    round-exits (run_calls (call pjob shuts_down).0 cs) pc remaining
      (rest.keeps_events bit_0 (shuts_down-sends pjob live)) t

pauses-sends :
    (pjob : PeriodicJob)
    → may_pause pjob.state ≡ true
    → has_flag (call pjob pauses).0.event_vector pause_called ≡ true
unfolding call
pauses-sends pjob live = ground (arith, has_flag-set_flag pjob.event_vector bit_1 bit_1)

round-stops :
    (pjob : PeriodicJob) (pc : Pc) (remaining : ℕ)
    → has_flag pjob.event_vector pause_called ≡ true
    → may_pause pjob.state ≡ true
    → takes_round pc ≡ true
    → let (after, notices, place) = periodic_job_runner pjob pc remaining in
      ((after.state ≡ pj_paused) ⊎ (after.state ≡ pj_shutdown))
      × (notices ≡ broadcast stop_wait ∷ [])
      × (place ≢ calling)
unfolding periodic_job_runner
round-stops pjob top remaining h m t = ground arith
round-stops pjob _ remaining h m t = ground arith

-- Once `pause_periodic_job` was called while the job ran, waited or took a single shot from its wait, whatever other calls come behind
-- it, resumptions and single shots too, the runner's next round does not call the job function: it pauses the job, or
-- shuts it down, and broadcasts to the threads that wait for that.
pub pause_periodic_job-stops :
    (pjob : PeriodicJob) (cs : List Call) (pc : Pc) (remaining : ℕ)
    → may_pause pjob.state ≡ true
    → takes_round pc ≡ true
    → let (after, notices, place) =
        periodic_job_runner (run_calls pjob (pauses ∷ cs)) pc remaining in
      ((after.state ≡ pj_paused) ⊎ (after.state ≡ pj_shutdown))
      × (notices ≡ broadcast stop_wait ∷ [])
      × (place ≢ calling)
unfolding run_calls
pause_periodic_job-stops pjob cs pc remaining live t =
    let first = call-Kept pjob pauses in
    let rest = run_calls-Kept (call pjob pauses).0 cs in
    round-stops (run_calls (call pjob pauses).0 cs) pc remaining
      (rest.keeps_events bit_1 (pauses-sends pjob live))
      (ap may_pause (rest.same_state ∙ first.same_state) ∙ live) t

-- A wait of another thread on `stop_wait` would end between the two states of the job.
abbrev pub EndsWait : PeriodicJob → PeriodicJob → Type 0
EndsWait before after =
    ((wait_for_pause_or_shutdown_of_periodic_job before ≡ waits)
      × (wait_for_pause_or_shutdown_of_periodic_job after ≡ returns tt))
    ⊎ ((wait_for_shutdown_of_periodic_job before ≡ waits)
        × (wait_for_shutdown_of_periodic_job after ≡ returns tt))

-- A section of the runner that ends the wait of `wait_for_pause_or_shutdown_of_periodic_job`, or that
-- of `wait_for_shutdown_of_periodic_job`, has broadcast on `stop_wait`.
pub periodic_job_runner-EndsWait :
    (pjob : PeriodicJob) (pc : Pc) (remaining : ℕ)
    → EndsWait pjob (periodic_job_runner pjob pc remaining).0
    → (periodic_job_runner pjob pc remaining).1 ≡ broadcast stop_wait ∷ []
unfolding periodic_job_runner wait_for_pause_or_shutdown_of_periodic_job
    wait_for_shutdown_of_periodic_job
periodic_job_runner-EndsWait pjob top remaining e = ground arith
periodic_job_runner-EndsWait pjob _ remaining e = ground arith

-- No call of another thread ends such a wait.
pub call-ends_no_wait : (pjob : PeriodicJob) (c : Call) → ¬ EndsWait pjob (call pjob c).0
unfolding wait_for_pause_or_shutdown_of_periodic_job wait_for_shutdown_of_periodic_job
call-ends_no_wait pjob c e = ground (arith, (call-Kept pjob c).same_state)
