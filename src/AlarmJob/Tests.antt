-- ===== src/AlarmJob/Tests.antt =====
-- Runs of an alarm job (src/alarm_job.c), and its theorems at concrete jobs.
use boom_par.Prelude.{
  ◌-◌, ◌≡◌, ◌≢◌, ◌⊎◌, refl, true, [], ◌∷◌, some, none, arith, broadcast, word_size, has_flag,
  set_flag, waits,
}
use boom_par.Runner.{stop_wait, paused, timed, calling, exited}
use boom_par.AlarmJob.{
  aj_paused, aj_waiting, aj_shutdown, AlarmJob, alarm_job_runner, new_alarm_job, delete_alarm_job,
  wait_for_pause_or_shutdown_of_alarm_job,
}
use boom_par.AlarmJob.Reachable.{
  pauses, wakes_up, shuts_down, call, System, after_run, after_call, start, runs, calls, Reach,
  created, later, IsConsistent, alarm_Reach-IsConsistent,
}
use boom_par.AlarmJob.Response.{
  run_calls, shutdown_alarm_job-exits, pause_alarm_job-stops, FaultsOnceWoken, new_alarm_job-faults,
}

-- A job that waits for its alarm, 100 microseconds away, and has been paused by another thread.
abbrev waiting : AlarmJob
waiting = record {
  state = aj_waiting;
  period_in_microseconds = 100;
  input_p = 5;
  alarm_set_function = 6;
  alarm_job_function = 7;
  event_vector = 0;
}

abbrev fresh : AlarmJob
fresh = record waiting { state = aj_paused; period_in_microseconds = word_size - 1 }

new_job : new_alarm_job true true 6 7 5 ≡ some fresh
unfolding new_alarm_job
new_job = refl

no_job_without_function : new_alarm_job true true 6 0 5 ≡ none
unfolding new_alarm_job
no_job_without_function = refl

-- The wake-up is lost behind a pause that is sent before the runner gets to run.
pause_beats_wake_up :
    (alarm_job_runner (run_calls waiting (wakes_up ∷ pauses ∷ [])) (timed 0 100) 1 40).2 ≡ paused 60
unfolding alarm_job_runner run_calls call has_flag set_flag wait_for_pause_or_shutdown_of_alarm_job
pause_beats_wake_up = refl

delete_waits : (delete_alarm_job waiting).2 ≡ waits
unfolding delete_alarm_job
delete_waits = refl

-- The runner pauses, is woken up, and calls the job function.
abbrev asleep : System
asleep = after_run (start fresh) 0 0

abbrev woken : System
woken = after_run (after_call asleep wakes_up) 0 0

woken-Reach : Reach woken
unfolding new_alarm_job
woken-Reach =
    later
      (later (later (created 6 7 5 refl) (runs 0 0 (omega arith) (omega arith))) (calls wakes_up))
      (runs 0 0 (omega arith) (omega arith))

alarm_Reach-IsConsistent_example : IsConsistent woken
alarm_Reach-IsConsistent_example = alarm_Reach-IsConsistent woken-Reach

woken_calls : woken.pc ≡ calling
unfolding alarm_job_runner call has_flag set_flag
woken_calls = refl

shutdown_alarm_job-exits_example :
    let (after, notices, place) =
      alarm_job_runner (run_calls waiting (shuts_down ∷ wakes_up ∷ [])) (timed 0 100) 1 40 in
    (after.state ≡ aj_shutdown) × (notices ≡ broadcast stop_wait ∷ []) × (place ≡ exited)
shutdown_alarm_job-exits_example =
    shutdown_alarm_job-exits waiting (wakes_up ∷ []) (timed 0 100) 1 40 (λ e. cc) (λ e. omega arith)
      refl

pause_alarm_job-stops_example :
    let (after, notices, place) =
      alarm_job_runner (run_calls waiting (pauses ∷ wakes_up ∷ [])) (timed 0 100) 1 40 in
    ((after.state ≡ aj_paused) ⊎ (after.state ≡ aj_shutdown))
    × (notices ≡ broadcast stop_wait ∷ [])
    × (place ≢ calling)
pause_alarm_job-stops_example =
    pause_alarm_job-stops waiting (wakes_up ∷ []) (timed 0 100) 1 40 refl (λ e. omega arith) refl

new_alarm_job-faults_example : FaultsOnceWoken (record fresh { alarm_set_function = 0 }) 50 0
unfolding new_alarm_job
new_alarm_job-faults_example =
    new_alarm_job-faults 7 5 50 0 (record fresh { alarm_set_function = 0 }) refl
