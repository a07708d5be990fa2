-- ===== src/AlarmJob/Response.antt =====
-- How soon the runner answers a call (src/alarm_job.c): at its next round.
use boom_par.Prelude.{
  ℕ, ◌≡◌, ◌≢◌, ◌⊎◌, refl, sym, ap, ◌∙◌, Bool, true, false, List, [], ◌∷◌, some, arith, has_flag,
  set_flag, broadcast, waits, returns, subst,
}
use boom_par.Prelude.Flags.{Flag, value, bit_0, bit_1, bit_2, has_flag-set_flag}
use boom_par.Runner.{stop_wait, Pc, top, paused, timed, calling, exited, faulted}
use boom_par.AlarmJob.{
  blocking, aj_paused, aj_shutdown, AlarmJob, shutdown_called, pause_called, alarm_job_runner,
  new_alarm_job, may_pause, wait_for_pause_or_shutdown_of_alarm_job, wait_for_shutdown_of_alarm_job,
}
use boom_par.AlarmJob.Reachable.{Call, pauses, wakes_up, shuts_down, call}

-- Calls of other threads, while the runner is not in an atomic section.
unfoldable pub run_calls : AlarmJob → List Call → AlarmJob
run_calls ajob [] = ajob
run_calls ajob (c ∷ cs) = run_calls (call ajob c).0 cs

-- The places from which the runner goes through a round of its loops.
abbrev pub takes_round : Pc → Bool
takes_round top = true
takes_round (paused total) = true
takes_round (timed total time) = true
takes_round _ = false

-- Calls change nothing but the event vector, and clear no event.
record Kept (before after : AlarmJob) : Type 0 where
  same_state : after.state ≡ before.state
  same_period : after.period_in_microseconds ≡ before.period_in_microseconds
  same_alarm : after.alarm_set_function ≡ before.alarm_set_function
  keeps_events :
      (f : Flag)
      → has_flag before.event_vector (value f) ≡ true
      → has_flag after.event_vector (value f) ≡ true

call-Kept : (ajob : AlarmJob) (c : Call) → Kept ajob (call ajob c).0
unfolding call
call-Kept ajob pauses = record {
  same_state = ground arith;
  same_period = ground arith;
  same_alarm = ground arith;
  keeps_events = λ f h. ground (arith, has_flag-set_flag ajob.event_vector bit_1 f);
}
call-Kept ajob wakes_up = record {
  same_state = ground arith;
  same_period = ground arith;
  same_alarm = ground arith;
  keeps_events = λ f h. ground (arith, has_flag-set_flag ajob.event_vector bit_2 f);
}
call-Kept ajob shuts_down = record {
  same_state = ground arith;
  same_period = ground arith;
  same_alarm = ground arith;
  keeps_events = λ f h. ground (arith, has_flag-set_flag ajob.event_vector bit_0 f);
}

run_calls-Kept : (ajob : AlarmJob) (cs : List Call) → Kept ajob (run_calls ajob cs)
unfolding run_calls
run_calls-Kept ajob [] = record {
  same_state = refl;
  same_period = refl;
  same_alarm = refl;
  keeps_events = λ f h. h;
}
run_calls-Kept ajob (c ∷ cs) =
    let first = call-Kept ajob c in
    let rest = run_calls-Kept (call ajob c).0 cs in
    record {
      same_state = rest.same_state ∙ first.same_state;
      same_period = rest.same_period ∙ first.same_period;
      same_alarm = rest.same_alarm ∙ first.same_alarm;
      keeps_events = λ f h. rest.keeps_events f (first.keeps_events f h);
    }

round-exits :
    (ajob : AlarmJob) (pc : Pc) (alarm remaining : ℕ)
    → has_flag ajob.event_vector shutdown_called ≡ true
    → ajob.alarm_set_function ≢ 0
    → takes_round pc ≡ true
    → let (after, notices, place) = alarm_job_runner ajob pc alarm remaining in
      (after.state ≡ aj_shutdown) × (notices ≡ broadcast stop_wait ∷ []) × (place ≡ exited)
unfolding alarm_job_runner
round-exits ajob top alarm remaining h f t = ground arith
round-exits ajob _ alarm remaining h f t = ground arith

shuts_down-sends :
    (ajob : AlarmJob)
    → ajob.state ≢ aj_shutdown
    → has_flag (call ajob shuts_down).0.event_vector shutdown_called ≡ true
unfolding call
shuts_down-sends ajob live = ground (arith, has_flag-set_flag ajob.event_vector bit_0 bit_0)

-- Once `shutdown_alarm_job` was called, whatever other calls come behind it, the runner's next
-- round, from wherever it stands, puts the job into `AJ_SHUTDOWN`, broadcasts to the threads that
-- wait for that, and returns. (The job was not shut down before, and its alarm function is given.)
pub shutdown_alarm_job-exits :
    (ajob : AlarmJob) (cs : List Call) (pc : Pc) (alarm remaining : ℕ)
    → ajob.state ≢ aj_shutdown
    → ajob.alarm_set_function ≢ 0
    → takes_round pc ≡ true
    → let (after, notices, place) =
        alarm_job_runner (run_calls ajob (shuts_down ∷ cs)) pc alarm remaining in
      (after.state ≡ aj_shutdown) × (notices ≡ broadcast stop_wait ∷ []) × (place ≡ exited)
unfolding run_calls
shutdown_alarm_job-exits ajob cs pc alarm remaining live f t =
    let rest = run_calls-Kept (call ajob shuts_down).0 cs in
    round-exits (run_calls (call ajob shuts_down).0 cs) pc alarm remaining
      (rest.keeps_events bit_0 (shuts_down-sends ajob live))
      (λ e. f (sym (call-Kept ajob shuts_down).same_alarm ∙ sym rest.same_alarm ∙ e)) t

pauses-sends :
    (ajob : AlarmJob)
    → may_pause ajob.state ≡ true
    → has_flag (call ajob pauses).0.event_vector pause_called ≡ true
unfolding call
pauses-sends ajob live = ground (arith, has_flag-set_flag ajob.event_vector bit_1 bit_1)

round-stops :
    (ajob : AlarmJob) (pc : Pc) (alarm remaining : ℕ)
    → has_flag ajob.event_vector pause_called ≡ true
    → may_pause ajob.state ≡ true
    → ajob.alarm_set_function ≢ 0
    → takes_round pc ≡ true
    → let (after, notices, place) = alarm_job_runner ajob pc alarm remaining in
      ((after.state ≡ aj_paused) ⊎ (after.state ≡ aj_shutdown))
      × (notices ≡ broadcast stop_wait ∷ [])
      × (place ≢ calling)
unfolding alarm_job_runner
round-stops ajob top alarm remaining h m f t = ground arith
round-stops ajob _ alarm remaining h m f t = ground arith

-- Once `pause_alarm_job` was called while the job ran or waited, whatever other calls come behind
-- it, wake-ups too, the runner's next round does not call the job function: it pauses the job, or
-- shuts it down, and broadcasts to the threads that wait for that. (The alarm function is given.)
pub pause_alarm_job-stops :
    (ajob : AlarmJob) (cs : List Call) (pc : Pc) (alarm remaining : ℕ)
    → may_pause ajob.state ≡ true
    → ajob.alarm_set_function ≢ 0
    → takes_round pc ≡ true
    → let (after, notices, place) =
        alarm_job_runner (run_calls ajob (pauses ∷ cs)) pc alarm remaining in
      ((after.state ≡ aj_paused) ⊎ (after.state ≡ aj_shutdown))
      × (notices ≡ broadcast stop_wait ∷ [])
      × (place ≢ calling)
unfolding run_calls
pause_alarm_job-stops ajob cs pc alarm remaining live f t =
    let first = call-Kept ajob pauses in
    let rest = run_calls-Kept (call ajob pauses).0 cs in
    round-stops (run_calls (call ajob pauses).0 cs) pc alarm remaining
      (rest.keeps_events bit_1 (pauses-sends ajob live))
      (ap may_pause (rest.same_state ∙ first.same_state) ∙ live)
      (λ e. f (sym first.same_alarm ∙ sym rest.same_alarm ∙ e)) t

-- A wait of another thread on `stop_wait` would end between the two states of the job.
abbrev pub EndsWait : AlarmJob → AlarmJob → Type 0
EndsWait before after =
    ((wait_for_pause_or_shutdown_of_alarm_job before ≡ waits)
      × (wait_for_pause_or_shutdown_of_alarm_job after ≡ returns tt))
    ⊎ ((wait_for_shutdown_of_alarm_job before ≡ waits)
        × (wait_for_shutdown_of_alarm_job after ≡ returns tt))

-- A section of the runner that ends the wait of `wait_for_pause_or_shutdown_of_alarm_job`, or that
-- of `wait_for_shutdown_of_alarm_job`, has broadcast on `stop_wait`.
pub alarm_job_runner-EndsWait :
    (ajob : AlarmJob) (pc : Pc) (alarm remaining : ℕ)
    → EndsWait ajob (alarm_job_runner ajob pc alarm remaining).0
    → (alarm_job_runner ajob pc alarm remaining).1 ≡ broadcast stop_wait ∷ []
unfolding alarm_job_runner wait_for_pause_or_shutdown_of_alarm_job wait_for_shutdown_of_alarm_job
alarm_job_runner-EndsWait ajob top alarm remaining e = ground arith
alarm_job_runner-EndsWait ajob _ alarm remaining e = ground arith

-- No call of another thread ends such a wait.
pub call-ends_no_wait : (ajob : AlarmJob) (c : Call) → ¬ EndsWait ajob (call ajob c).0
unfolding wait_for_pause_or_shutdown_of_alarm_job wait_for_shutdown_of_alarm_job
call-ends_no_wait ajob c e = ground (arith, (call-Kept ajob c).same_state)

-- The job is woken up at its first pause; the runner calls the job function, and behind that call
-- goes through the head of its loop once more.
abbrev pub FaultsOnceWoken : AlarmJob → ℕ → ℕ → Type 0
FaultsOnceWoken ajob alarm remaining =
    let (asleep, _, place_1) = alarm_job_runner ajob top alarm remaining in
    let (woken, _, place_2) = alarm_job_runner (call asleep wakes_up).0 place_1 alarm remaining in
    let (ran, _, place_3) = alarm_job_runner woken place_2 alarm remaining in
    (place_1 ≡ paused 0)
    × (place_2 ≡ calling)
    × ((alarm_job_runner ran place_3 alarm remaining).2 ≡ faulted)

null_alarm : ℕ → ℕ → AlarmJob
null_alarm alarm_job input = record {
  state = aj_paused;
  period_in_microseconds = blocking;
  input_p = input;
  alarm_set_function = 0;
  alarm_job_function = alarm_job;
  event_vector = 0;
}

null_alarm-Faults : (f x alarm remaining : ℕ) → FaultsOnceWoken (null_alarm f x) alarm remaining
unfolding alarm_job_runner call has_flag set_flag null_alarm
null_alarm-Faults f x alarm remaining = (refl, refl, refl)

new-null_alarm :
    (f x : ℕ) (ajob : AlarmJob) → new_alarm_job true true 0 f x ≡ some ajob → ajob ≡ null_alarm f x
unfolding new_alarm_job null_alarm
new-null_alarm f x ajob e = ground arith

-- `new_alarm_job` takes a null `alarm_set_function`; and then, once the job is woken up, the runner
-- calls that null pointer, right behind its first call of the job function.
pub new_alarm_job-faults :
    (alarm_job input alarm remaining : ℕ) (ajob : AlarmJob)
    → new_alarm_job true true 0 alarm_job input ≡ some ajob
    → FaultsOnceWoken ajob alarm remaining
new_alarm_job-faults alarm_job input alarm remaining ajob e =
    subst (λ job. FaultsOnceWoken job alarm remaining) (sym (new-null_alarm alarm_job input ajob e))
      (null_alarm-Faults alarm_job input alarm remaining)
