-- ===== src/PeriodicJob/Tests.antt =====
-- Runs of a periodic job (src/periodic_job.c), and its theorems at concrete jobs.
use boom_par.Prelude.{
  ◌≡◌, ◌≢◌, ◌⊎◌, ◌↔◌, inl, refl, true, [], ◌∷◌, some, none, arith, broadcast, has_flag, set_flag,
  waits,
}
use boom_par.Runner.{stop_wait, timed, calling, exited}
use boom_par.PeriodicJob.{
  pj_paused, pj_running, pj_waiting, pj_shutdown, PeriodicJob, inner_round, periodic_job_runner,
  new_periodic_job, consume_events_and_update_state, delete_periodic_job,
  get_period_for_periodic_job, wait_for_pause_or_shutdown_of_periodic_job, blocking, State,
}
use boom_par.PeriodicJob.Consume.{Due, periodic_round-calls, Edge, periodic_round-Edge}
use boom_par.PeriodicJob.Reachable.{
  resumes, pauses, shoots_once, shuts_down, updates_period, call, System, after_run, after_call,
  start, runs, calls, Reach, created, later, IsConsistent, periodic_Reach-IsConsistent,
}
use boom_par.PeriodicJob.Response.{
  run_calls, shutdown_periodic_job-exits, pause_periodic_job-stops, periodic_job_runner-EndsWait,
}

-- A job that waits for the rest of a period of 100 microseconds.
abbrev waiting : PeriodicJob
waiting = record {
  state = pj_waiting;
  period_in_microseconds = 100;
  input_p = 5;
  periodic_job_function = 7;
  event_vector = 0;
}

abbrev fresh : PeriodicJob
fresh = record waiting { state = pj_paused }

abbrev shot : PeriodicJob
shot = record waiting { event_vector = 8 }

new_job : new_periodic_job true true 7 5 100 ≡ some fresh
unfolding new_periodic_job
new_job = refl

no_job_without_period : new_periodic_job true true 7 5 blocking ≡ none
unfolding new_periodic_job
no_job_without_period = refl

period_updated : get_period_for_periodic_job (call waiting (updates_period 60)).0 ≡ 60
unfolding get_period_for_periodic_job call
period_updated = refl

-- A shorter period that is set during the wait takes effect at once.
shorter_period_runs :
    (periodic_job_runner (run_calls waiting (updates_period 60 ∷ [])) (timed 0 100) 40).2 ≡ calling
unfolding periodic_job_runner run_calls call has_flag set_flag
shorter_period_runs = refl

delete_waits : (delete_periodic_job waiting).2 ≡ waits
unfolding delete_periodic_job
delete_waits = refl

periodic_round-calls_example : ((inner_round waiting 100).2 ≡ calling) ↔ Due waiting 100
periodic_round-calls_example = periodic_round-calls waiting 100

periodic_round-Edge_example :
    Edge waiting 100 pj_waiting pj_running
    × ((s : State) → Edge waiting 100 pj_waiting s → s ≡ pj_running)
    × ((consume_events_and_update_state waiting 100).event_vector ≡ 0)
unfolding consume_events_and_update_state has_flag
periodic_round-Edge_example = periodic_round-Edge waiting 100

-- The runner pauses, is resumed, and calls the job function.
abbrev asleep : System
asleep = after_run (start fresh) 0

abbrev resumed : System
resumed = after_run (after_call asleep resumes) 0

resumed-Reach : Reach resumed
unfolding new_periodic_job
resumed-Reach =
    later
      (later (later (created 7 5 100 (omega arith) refl) (runs 0 (omega arith))) (calls resumes tt))
      (runs 0 (omega arith))

periodic_Reach-IsConsistent_example : IsConsistent resumed
periodic_Reach-IsConsistent_example = periodic_Reach-IsConsistent resumed-Reach

resumed_calls : resumed.pc ≡ calling
unfolding periodic_job_runner call has_flag set_flag
resumed_calls = refl

shutdown_periodic_job-exits_example :
    let (after, notices, place) =
      periodic_job_runner (run_calls waiting (shuts_down ∷ shoots_once ∷ [])) (timed 0 100) 40 in
    (after.state ≡ pj_shutdown) × (notices ≡ broadcast stop_wait ∷ []) × (place ≡ exited)
shutdown_periodic_job-exits_example =
    shutdown_periodic_job-exits waiting (shoots_once ∷ []) (timed 0 100) 40 (λ e. cc) refl

pause_periodic_job-stops_example :
    let (after, notices, place) =
      periodic_job_runner (run_calls waiting (pauses ∷ shoots_once ∷ [])) (timed 0 100) 40 in
    ((after.state ≡ pj_paused) ⊎ (after.state ≡ pj_shutdown))
    × (notices ≡ broadcast stop_wait ∷ [])
    × (place ≢ calling)
pause_periodic_job-stops_example =
    pause_periodic_job-stops waiting (shoots_once ∷ []) (timed 0 100) 40 refl refl

periodic_job_runner-EndsWait_example :
    (periodic_job_runner (run_calls waiting (pauses ∷ [])) (timed 0 100) 40).1
    ≡ broadcast stop_wait ∷ []
unfolding periodic_job_runner run_calls call has_flag set_flag
    wait_for_pause_or_shutdown_of_periodic_job
periodic_job_runner-EndsWait_example =
    periodic_job_runner-EndsWait (run_calls waiting (pauses ∷ [])) (timed 0 100) 40
      (inl (refl, refl))
