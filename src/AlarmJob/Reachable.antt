-- ===== src/AlarmJob/Reachable.antt =====
-- The runner and the other threads, interleaved in any order (src/alarm_job.c).
use boom_par.Prelude.{
  ℕ, ◌+◌, ◌≤◌, ◌<◌, ◌≡◌, ◌≢◌, ◌⊎◌, inl, inr, add64, sub64, Bool, true, false, ◌||◌, ◌&&◌, some,
  arith, word_size, has_flag, set_flag, ◌==◌,
}
use boom_par.Prelude.Flags.{Flag, value, bit_0, bit_1, bit_2, has_flag-set_flag, has_flag-zero}
use boom_par.Runner.{Pc, top, paused, timed, calling, exited, faulted, sleeps, wakes_runner}
use boom_par.AlarmJob.{
  aj_paused, aj_running, aj_waiting, aj_shutdown, AlarmJob, shutdown_called, pause_called,
  wake_up_called, inner_round, alarm_job_runner, new_alarm_job, CallSection, pause_alarm_job,
  wake_up_alarm_job, shutdown_alarm_job, may_pause, may_wake_up, is_shutdown,
}

pub data Call : Type 0 where
  pauses wakes_up shuts_down : Call

unfoldable pub call : AlarmJob → Call → CallSection
unfolding pause_alarm_job wake_up_alarm_job shutdown_alarm_job
call ajob pauses = pause_alarm_job ajob
call ajob wakes_up = wake_up_alarm_job ajob
call ajob shuts_down = shutdown_alarm_job ajob

-- `signalled`: a signal on `job_wait` has reached the runner in its sleep, and it has not gone on.
pub record System : Type 0 where
  pub ajob : AlarmJob
  pub pc : Pc
  pub signalled : Bool

-- The time that the runner's timed wait asks for.
abbrev pub asked : Pc → ℕ
asked (timed total time) = time
asked _ = 0

abbrev pub after_run : System → ℕ → ℕ → System
after_run s alarm remaining =
    let (ajob, _, pc) = alarm_job_runner s.ajob s.pc alarm remaining in
    record { ajob = ajob; pc = pc; signalled = false }

abbrev pub after_call : System → Call → System
after_call s c =
    let (ajob, notices, _) = call s.ajob c in
    record s { ajob = ajob; signalled = s.signalled || (sleeps s.pc && wakes_runner notices) }

-- The runner may go on from a wait at any time: waits end spuriously too. A timed wait leaves at
-- most the time that it was given.
pub data Step (s : System) : System → Type 0 where
  runs :
      (alarm remaining : ℕ)
      → alarm < word_size
      → remaining ≤ asked s.pc
      → Step s (after_run s alarm remaining)
  calls : (c : Call) → Step s (after_call s c)

abbrev pub start : AlarmJob → System
start ajob = record { ajob = ajob; pc = top; signalled = false }

-- All that can happen to a job that `new_alarm_job` made.
pub data Reach : System → Type 0 where
  created :
      (alarm_set alarm_job input : ℕ) {ajob : AlarmJob}
      → new_alarm_job true true alarm_set alarm_job input ≡ some ajob
      → Reach (start ajob)
  later : {s t : System} → Reach s → Step s t → Reach t

-- How the runner's place and its locals fit the job.
abbrev pub Place : AlarmJob → Pc → Type 0
Place ajob top = (ajob.state ≡ aj_paused) ⊎ (ajob.state ≡ aj_running)
Place ajob (paused total) = ajob.state ≡ aj_paused
Place ajob (timed total time) =
    (ajob.state ≡ aj_waiting) × (total + time ≡ ajob.period_in_microseconds)
Place ajob calling = ajob.state ≡ aj_running
Place ajob exited = ajob.state ≡ aj_shutdown
Place ajob faulted = (ajob.state ≡ aj_running) × (ajob.alarm_set_function ≡ 0)

-- Only events that the state accepts are pending.
pub record Accepted (ajob : AlarmJob) : Type 0 where
  pub pause : has_flag ajob.event_vector pause_called ≡ true → may_pause ajob.state ≡ true
  pub wake_up : has_flag ajob.event_vector wake_up_called ≡ true → may_wake_up ajob.state ≡ true
  pub shutdown : has_flag ajob.event_vector shutdown_called ≡ true → is_shutdown ajob.state ≡ false

pub record IsConsistent (s : System) : Type 0 where
  pub period : s.ajob.period_in_microseconds < word_size
  pub place : Place s.ajob s.pc
  pub accepted : Accepted s.ajob
  pub callable : s.ajob.alarm_job_function ≢ 0
  pub unread : sleeps s.pc ≡ true → s.signalled ≡ false → s.ajob.event_vector ≡ 0

new-IsConsistent :
    (f g x : ℕ) (ajob : AlarmJob)
    → new_alarm_job true true f g x ≡ some ajob
    → IsConsistent (start ajob)
unfolding new_alarm_job has_flag
new-IsConsistent f g x ajob e = ground arith

-- What `v |= event` does to each flag.
abbrev Sets : ℕ → ℕ → ℕ → Type 0
Sets before event after =
    (f : Flag) → has_flag after (value f) ≡ (has_flag before (value f) || (event == value f))

call-IsConsistent : (s : System) (c : Call) → IsConsistent s → IsConsistent (after_call s c)
unfolding call
call-IsConsistent s pauses v = ground (arith, sets bit_0, sets bit_1, sets bit_2)
  where
    sets : Sets s.ajob.event_vector 2 (set_flag s.ajob.event_vector 2)
    sets = has_flag-set_flag s.ajob.event_vector bit_1
call-IsConsistent s wakes_up v = ground (arith, sets bit_0, sets bit_1, sets bit_2)
  where
    sets : Sets s.ajob.event_vector 4 (set_flag s.ajob.event_vector 4)
    sets = has_flag-set_flag s.ajob.event_vector bit_2
call-IsConsistent s shuts_down v = ground (arith, sets bit_0, sets bit_1, sets bit_2)
  where
    sets : Sets s.ajob.event_vector 1 (set_flag s.ajob.event_vector 1)
    sets = has_flag-set_flag s.ajob.event_vector bit_0

inner_round-IsConsistent :
    (ajob : AlarmJob) (total : ℕ)
    → ajob.period_in_microseconds < word_size
    → (ajob.state ≡ aj_paused) ⊎ (total ≤ ajob.period_in_microseconds)
    → ajob.alarm_job_function ≢ 0
    → let (ajob', _, pc) = inner_round ajob total in
      IsConsistent (record { ajob = ajob'; pc = pc; signalled = false })
unfolding inner_round
inner_round-IsConsistent ajob total h k f =
    ground (arith, has_flag-zero bit_0, has_flag-zero bit_1, has_flag-zero bit_2)

run-IsConsistent :
    (ajob : AlarmJob) (pc : Pc) (signalled : Bool) (alarm remaining : ℕ)
    → alarm < word_size
    → remaining ≤ asked pc
    → let s : System = record { ajob = ajob; pc = pc; signalled = signalled } in
      IsConsistent s → IsConsistent (after_run s alarm remaining)
unfolding alarm_job_runner
run-IsConsistent ajob top sig alarm remaining a r v = ground (
  arith,
  inner_round-IsConsistent (record ajob { period_in_microseconds = alarm }) 0 a,
  inner_round-IsConsistent ajob 0 v.period,
)
run-IsConsistent ajob (paused total) sig alarm remaining a r v =
    inner_round-IsConsistent ajob total v.period (inl v.place) v.callable
run-IsConsistent ajob (timed total time) sig alarm remaining a r v =
    inner_round-IsConsistent ajob (add64 total (sub64 time remaining)) v.period
      (inr (omega (arith, v.place))) v.callable
run-IsConsistent ajob calling sig alarm remaining a r v = ground arith
run-IsConsistent ajob exited sig alarm remaining a r v = ground arith
run-IsConsistent ajob faulted sig alarm remaining a r v = ground arith

Step-IsConsistent : {s t : System} → Step s t → IsConsistent s → IsConsistent t
Step-IsConsistent {s} (runs alarm remaining a r) v =
    run-IsConsistent s.ajob s.pc s.signalled alarm remaining a r v
Step-IsConsistent {s} (calls c) v = call-IsConsistent s c v

-- In every state that can be reached from `new_alarm_job`, in any interleaving of the runner with
-- the calls of other threads and with any values of the user's alarm function: where the runner
-- stands fits the state of the job, the rest of the period that a timed wait asks for is exact, only
-- events that the state accepts are pending, and while the runner sleeps with no signal on its way,
-- no event is pending, so none is lost.
pub alarm_Reach-IsConsistent : {s : System} → Reach s → IsConsistent s
alarm_Reach-IsConsistent (created f g x {ajob} e) = new-IsConsistent f g x ajob e
alarm_Reach-IsConsistent (later r st) = Step-IsConsistent st (alarm_Reach-IsConsistent r)
