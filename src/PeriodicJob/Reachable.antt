-- ===== src/PeriodicJob/Reachable.antt =====
-- The runner and the other threads, interleaved in any order (src/periodic_job.c).
use boom_par.Prelude.{
  ℕ, ◌+◌, ◌≤◌, ◌<◌, ◌≡◌, ◌≢◌, ◌⊎◌, inl, inr, refl, Bool, true, false, ◌||◌, ◌&&◌, ◌==◌, some, arith,
  word_size, add64, sub64, has_flag, set_flag,
}
use boom_par.Prelude.Flags.{
  Flag, value, bit_0, bit_1, bit_2, bit_3, has_flag-set_flag, has_flag-zero,
}
use boom_par.Runner.{Pc, top, paused, timed, calling, exited, faulted, sleeps, wakes_runner}
use boom_par.PeriodicJob.{
  State, pj_paused, pj_single_shot_on_paused, pj_running, pj_waiting, pj_single_shot_on_waiting,
  pj_shutdown, PeriodicJob, shutdown_called, pause_called, resume_called, single_shot_called,
  blocking, inner_round, periodic_job_runner, new_periodic_job, CallSection,
  update_period_for_periodic_job, resume_periodic_job, pause_periodic_job, single_shot_periodic_job,
  shutdown_periodic_job, may_resume, may_pause, may_single_shot, is_shutdown,
}

pub data Call : Type 0 where
  resumes pauses shoots_once shuts_down : Call
  updates_period : (period_in_microseconds : ℕ) → Call

-- The period that a call passes is a word.
abbrev pub Fits : Call → Type 0
Fits (updates_period period) = period < word_size
Fits _ = Unit

unfoldable pub call : PeriodicJob → Call → CallSection
unfolding update_period_for_periodic_job resume_periodic_job pause_periodic_job
    single_shot_periodic_job shutdown_periodic_job
call pjob resumes = resume_periodic_job pjob
call pjob pauses = pause_periodic_job pjob
call pjob shoots_once = single_shot_periodic_job pjob
call pjob shuts_down = shutdown_periodic_job pjob
call pjob (updates_period period) = update_period_for_periodic_job pjob period

-- `signalled`: a signal on `job_wait` has reached the runner in its sleep, and it has not gone on.
pub record System : Type 0 where
  pub pjob : PeriodicJob
  pub pc : Pc
  pub signalled : Bool

-- The time that the runner's timed wait asks for.
abbrev pub asked : Pc → ℕ
asked (timed total time) = time
asked _ = 0

abbrev pub after_run : System → ℕ → System
after_run s remaining =
    let (pjob, _, pc) = periodic_job_runner s.pjob s.pc remaining in
    record { pjob = pjob; pc = pc; signalled = false }

abbrev pub after_call : System → Call → System
after_call s c =
    let (pjob, notices, _) = call s.pjob c in
    record s { pjob = pjob; signalled = s.signalled || (sleeps s.pc && wakes_runner notices) }

-- The runner may go on from a wait at any time: waits end spuriously too. A timed wait leaves at
-- most the time that it was given.
pub data Step (s : System) : System → Type 0 where
  runs : (remaining : ℕ) → remaining ≤ asked s.pc → Step s (after_run s remaining)
  calls : (c : Call) → Fits c → Step s (after_call s c)

abbrev pub start : PeriodicJob → System
start pjob = record { pjob = pjob; pc = top; signalled = false }

-- All that can happen to a job that `new_periodic_job` made.
pub data Reach : System → Type 0 where
  created :
      (job_function input period : ℕ) {pjob : PeriodicJob}
      → period < word_size
      → new_periodic_job true true job_function input period ≡ some pjob
      → Reach (start pjob)
  later : {s t : System} → Reach s → Step s t → Reach t

-- The states in which the job function runs.
abbrev pub runs_function : State → Bool
runs_function pj_running = true
runs_function pj_single_shot_on_paused = true
runs_function pj_single_shot_on_waiting = true
runs_function _ = false

-- How the runner's place and its locals fit the job.
abbrev pub Place : PeriodicJob → Pc → Type 0
Place pjob top = (pjob.state ≡ pj_paused) ⊎ (runs_function pjob.state ≡ true)
Place pjob (paused total) = pjob.state ≡ pj_paused
Place pjob (timed total time) = (pjob.state ≡ pj_waiting) × (total + time < word_size)
Place pjob calling = runs_function pjob.state ≡ true
Place pjob exited = pjob.state ≡ pj_shutdown
Place pjob faulted = ⊥

-- Only events that the state accepts are pending.
pub record Accepted (pjob : PeriodicJob) : Type 0 where
  pub shutdown : has_flag pjob.event_vector shutdown_called ≡ true → is_shutdown pjob.state ≡ false
  pub pause : has_flag pjob.event_vector pause_called ≡ true → may_pause pjob.state ≡ true
  pub resume : has_flag pjob.event_vector resume_called ≡ true → may_resume pjob.state ≡ true
  pub single_shot :
      has_flag pjob.event_vector single_shot_called ≡ true → may_single_shot pjob.state ≡ true

-- The timed wait ends when the present period has passed.
abbrev pub OnTime : PeriodicJob → Pc → Type 0
OnTime pjob (timed total time) = total + time ≡ pjob.period_in_microseconds
OnTime pjob _ = Unit

pub record IsConsistent (s : System) : Type 0 where
  pub period_low : 0 < s.pjob.period_in_microseconds
  pub period_high : s.pjob.period_in_microseconds < blocking
  pub callable : s.pjob.periodic_job_function ≢ 0
  pub place : Place s.pjob s.pc
  pub accepted : Accepted s.pjob
  pub unread : sleeps s.pc ≡ true → s.signalled ≡ false → s.pjob.event_vector ≡ 0
  pub on_time : s.signalled ≡ false → OnTime s.pjob s.pc

new-IsConsistent :
    (f x p : ℕ) (pjob : PeriodicJob)
    → p < word_size
    → new_periodic_job true true f x p ≡ some pjob
    → IsConsistent (start pjob)
unfolding new_periodic_job has_flag
new-IsConsistent f x p pjob h e = ground arith

inner_round-IsConsistent :
    (pjob : PeriodicJob) (total : ℕ)
    → 0 < pjob.period_in_microseconds
    → pjob.period_in_microseconds < blocking
    → (total ≡ 0) ⊎ ((pjob.state ≡ pj_paused) ⊎ (pjob.state ≡ pj_waiting))
    → pjob.periodic_job_function ≢ 0
    → let (pjob', _, pc) = inner_round pjob total in
      IsConsistent (record { pjob = pjob'; pc = pc; signalled = false })
unfolding inner_round
inner_round-IsConsistent pjob total low high k f =
    ground
      (arith, has_flag-zero bit_0, has_flag-zero bit_1, has_flag-zero bit_2, has_flag-zero bit_3)

run-IsConsistent :
    (pjob : PeriodicJob) (pc : Pc) (signalled : Bool) (remaining : ℕ)
    → remaining ≤ asked pc
    → let s : System = record { pjob = pjob; pc = pc; signalled = signalled } in
      IsConsistent s → IsConsistent (after_run s remaining)
unfolding periodic_job_runner
run-IsConsistent pjob top sig remaining r v =
    inner_round-IsConsistent pjob 0 v.period_low v.period_high (inl refl) v.callable
run-IsConsistent pjob (paused total) sig remaining r v =
    inner_round-IsConsistent pjob total v.period_low v.period_high (inr (inl v.place)) v.callable
run-IsConsistent pjob (timed total time) sig remaining r v =
    inner_round-IsConsistent pjob (add64 total (sub64 time remaining)) v.period_low v.period_high
      (inr (inr v.place.0)) v.callable
run-IsConsistent pjob calling sig remaining r v = ground arith
run-IsConsistent pjob exited sig remaining r v = ground arith
run-IsConsistent pjob faulted sig remaining r v = absurd v.place

update-IsConsistent :
    (pjob : PeriodicJob) (pc : Pc) (signalled : Bool) (period : ℕ)
    → period < word_size
    → let s : System = record { pjob = pjob; pc = pc; signalled = signalled } in
      IsConsistent s → IsConsistent (after_call s (updates_period period))
unfolding call
update-IsConsistent pjob top sig period fits v = ground arith
update-IsConsistent pjob _ sig period fits v = ground arith

-- What `v |= event` does to each flag.
abbrev Sets : ℕ → ℕ → ℕ → Type 0
Sets before event after =
    (f : Flag) → has_flag after (value f) ≡ (has_flag before (value f) || (event == value f))

call-IsConsistent :
    (s : System) (c : Call) → Fits c → IsConsistent s → IsConsistent (after_call s c)
unfolding call
call-IsConsistent s resumes fits v = ground (arith, sets bit_0, sets bit_1, sets bit_2, sets bit_3)
  where
    sets : Sets s.pjob.event_vector 4 (set_flag s.pjob.event_vector 4)
    sets = has_flag-set_flag s.pjob.event_vector bit_2
call-IsConsistent s pauses fits v = ground (arith, sets bit_0, sets bit_1, sets bit_2, sets bit_3)
  where
    sets : Sets s.pjob.event_vector 2 (set_flag s.pjob.event_vector 2)
    sets = has_flag-set_flag s.pjob.event_vector bit_1
call-IsConsistent s shoots_once fits v =
    ground (arith, sets bit_0, sets bit_1, sets bit_2, sets bit_3)
  where
    sets : Sets s.pjob.event_vector 8 (set_flag s.pjob.event_vector 8)
    sets = has_flag-set_flag s.pjob.event_vector bit_3
call-IsConsistent s shuts_down fits v =
    ground (arith, sets bit_0, sets bit_1, sets bit_2, sets bit_3)
  where
    sets : Sets s.pjob.event_vector 1 (set_flag s.pjob.event_vector 1)
    sets = has_flag-set_flag s.pjob.event_vector bit_0
call-IsConsistent s (updates_period period) fits v =
    update-IsConsistent s.pjob s.pc s.signalled period fits v

Step-IsConsistent : {s t : System} → Step s t → IsConsistent s → IsConsistent t
Step-IsConsistent {s} (runs remaining r) v = run-IsConsistent s.pjob s.pc s.signalled remaining r v
Step-IsConsistent {s} (calls c fits) v = call-IsConsistent s c fits v

-- In every state that can be reached from `new_periodic_job`, in any interleaving of the runner with
-- the calls of other threads: the period is neither `NON_BLOCKING` nor `BLOCKING`, where the runner
-- stands fits the state of the job, only events that the state accepts are pending, and while the
-- runner sleeps with no signal on its way, no event is pending and its timed wait ends when the
-- present period has passed; so neither an event nor a new period is missed.
pub periodic_Reach-IsConsistent : {s : System} → Reach s → IsConsistent s
periodic_Reach-IsConsistent (created f x p {pjob} h e) = new-IsConsistent f x p pjob h e
periodic_Reach-IsConsistent (later r st) = Step-IsConsistent st (periodic_Reach-IsConsistent r)
