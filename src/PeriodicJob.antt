-- ===== src/PeriodicJob.antt =====
-- src/periodic_job.c and inc/boompar/periodic_job.h: a job that runs once in every period. The
-- runner and the calls of other threads are functions of the state that `job_lock` protects.
pub mod Consume
pub mod Reachable
pub mod Response
mod Tests
use boom_par.Prelude.{
  ℕ, ◌-◌, Bool, true, false, not, ◌||◌, List, [], ◌∷◌, Option, none, some, leb, ◌==◌, if◌then◌else◌,
  word_size, add64, sub64, has_flag, set_flag, Notice, signal, broadcast, Outcome, waits, returns,
}
use boom_par.Runner.{
  Condition, job_wait, stop_wait, Pc, top, paused, timed, calling, exited, faulted,
}

pub data State : Type 0 where
  pj_paused pj_single_shot_on_paused pj_running pj_waiting pj_single_shot_on_waiting : State
  pj_shutdown : State

-- The function pointer is an address, 0 for NULL.
pub record PeriodicJob : Type 0 where
  pub state : State
  pub period_in_microseconds : ℕ
  pub input_p : ℕ
  pub periodic_job_function : ℕ
  pub event_vector : ℕ

abbrev pub shutdown_called : ℕ
shutdown_called = 1

abbrev pub pause_called : ℕ
pause_called = 2

abbrev pub resume_called : ℕ
resume_called = 4

abbrev pub single_shot_called : ℕ
single_shot_called = 8

-- The timeouts of posixutils that wait forever and never.
abbrev pub blocking : ℕ
blocking = word_size - 1

abbrev pub non_blocking : ℕ
non_blocking = 0

-- The `switch` of `consume_events_and_update_state`.
next_state : State → ℕ → ℕ → ℕ → State
next_state pj_paused events total period =
    if has_flag events shutdown_called
    then pj_shutdown
    else if has_flag events resume_called
    then pj_running
    else if has_flag events single_shot_called
    then pj_single_shot_on_paused
    else pj_paused
next_state pj_single_shot_on_paused events total period =
    if has_flag events shutdown_called
    then pj_shutdown
    else if has_flag events resume_called
    then pj_waiting
    else pj_paused
next_state pj_running events total period =
    if has_flag events shutdown_called
    then pj_shutdown
    else if has_flag events pause_called
    then pj_paused
    else pj_waiting
next_state pj_waiting events total period =
    if has_flag events shutdown_called
    then pj_shutdown
    else if has_flag events pause_called
    then pj_paused
    else if has_flag events single_shot_called
    then pj_single_shot_on_waiting
    else if leb period total
    then pj_running
    else pj_waiting
next_state pj_single_shot_on_waiting events total period =
    if has_flag events shutdown_called
    then pj_shutdown
    else if has_flag events pause_called
    then pj_paused
    else pj_waiting
next_state pj_shutdown events total period = pj_shutdown

pub consume_events_and_update_state : PeriodicJob → ℕ → PeriodicJob
unfolding next_state
consume_events_and_update_state pjob total_time_waited_for = record pjob {
  state = next_state pjob.state pjob.event_vector total_time_waited_for pjob.period_in_microseconds;
  event_vector = 0;
}

-- What a section of the runner leaves: the job, the notices, and where the runner stands.
abbrev pub RunnerSection : Type 0
RunnerSection = PeriodicJob × List (Notice Condition) × Pc

settle : State → PeriodicJob → ℕ → RunnerSection
settle pj_shutdown pjob total = (pjob, broadcast stop_wait ∷ [], exited)
settle pj_paused pjob total = (pjob, broadcast stop_wait ∷ [], paused total)
settle pj_waiting pjob total = (pjob, [], timed total (sub64 pjob.period_in_microseconds total))
settle _ pjob total = (pjob, [], calling)

-- The inner loop of `periodic_job_runner`, up to its next wait, its end or the return.
pub inner_round : PeriodicJob → ℕ → RunnerSection
unfolding consume_events_and_update_state settle
inner_round pjob total_time_waited_for =
    let pjob' = consume_events_and_update_state pjob total_time_waited_for in
    settle pjob'.state pjob' total_time_waited_for

-- The runner goes on from where it stands. `remaining` is the time that the timed wait left in
-- `time_to_wait_for_FINAL`.
pub periodic_job_runner : PeriodicJob → Pc → ℕ → RunnerSection
unfolding inner_round
periodic_job_runner pjob top remaining = inner_round pjob 0
periodic_job_runner pjob (paused total) remaining = inner_round pjob total
periodic_job_runner pjob (timed total time) remaining =
    inner_round pjob (add64 total (sub64 time remaining))
periodic_job_runner pjob calling remaining = (pjob, [], top)
periodic_job_runner pjob exited remaining = (pjob, [], exited)
periodic_job_runner pjob faulted remaining = (pjob, [], faulted)

abbrev is_no_period : ℕ → Bool
is_no_period period = period == blocking || period == non_blocking

-- `allocated` and `created` say whether `malloc` and `pthread_create` succeeded.
pub new_periodic_job : Bool → Bool → ℕ → ℕ → ℕ → Option PeriodicJob
new_periodic_job allocated created periodic_job_function input_p period_in_microseconds =
    if periodic_job_function == 0
    then none
    else if is_no_period period_in_microseconds
    then none
    else if not allocated
    then none
    else if not created
    then none
    else some (record {
      state = pj_paused;
      period_in_microseconds = period_in_microseconds;
      input_p = input_p;
      periodic_job_function = periodic_job_function;
      event_vector = 0;
    })

-- What a call of another thread leaves: the job, the notices, and the return value.
abbrev pub CallSection : Type 0
CallSection = PeriodicJob × List (Notice Condition) × Bool

pub update_period_for_periodic_job : PeriodicJob → ℕ → CallSection
update_period_for_periodic_job pjob period_in_microseconds =
    if is_no_period period_in_microseconds then (pjob, [], false) else (
      record pjob { period_in_microseconds = period_in_microseconds },
      signal job_wait ∷ [],
      true,
    )

pub get_period_for_periodic_job : PeriodicJob → ℕ
get_period_for_periodic_job pjob = pjob.period_in_microseconds

-- The common body of the four calls: `res`, and the event that is sent if it holds.
send : PeriodicJob → Bool → ℕ → CallSection
send pjob res event =
    if res
    then (
      record pjob { event_vector = set_flag pjob.event_vector event },
      signal job_wait ∷ [],
      true,
    )
    else (pjob, [], false)

abbrev may_resume : State → Bool
may_resume pj_paused = true
may_resume pj_single_shot_on_paused = true
may_resume _ = false

abbrev may_pause : State → Bool
may_pause pj_running = true
may_pause pj_waiting = true
may_pause pj_single_shot_on_waiting = true
may_pause _ = false

abbrev may_single_shot : State → Bool
may_single_shot pj_waiting = true
may_single_shot pj_paused = true
may_single_shot _ = false

abbrev is_shutdown : State → Bool
is_shutdown pj_shutdown = true
is_shutdown _ = false

pub resume_periodic_job : PeriodicJob → CallSection
unfolding send
resume_periodic_job pjob = send pjob (may_resume pjob.state) resume_called

pub pause_periodic_job : PeriodicJob → CallSection
unfolding send
pause_periodic_job pjob = send pjob (may_pause pjob.state) pause_called

pub single_shot_periodic_job : PeriodicJob → CallSection
unfolding send
single_shot_periodic_job pjob = send pjob (may_single_shot pjob.state) single_shot_called

pub shutdown_periodic_job : PeriodicJob → CallSection
unfolding send
shutdown_periodic_job pjob = send pjob (not (is_shutdown pjob.state)) shutdown_called

-- One round of the loops that wait on `stop_wait`.
pub wait_for_pause_or_shutdown_of_periodic_job : PeriodicJob → Outcome (Unit {0})
wait_for_pause_or_shutdown_of_periodic_job pjob = elim pjob.state [
  | pj_shutdown ↦ returns tt
  | pj_paused ↦ returns tt
  | _ ↦ waits
]

pub wait_for_shutdown_of_periodic_job : PeriodicJob → Outcome (Unit {0})
wait_for_shutdown_of_periodic_job pjob = elim pjob.state [ pj_shutdown ↦ returns tt | _ ↦ waits ]

-- The shutdown, and the first round of the wait; once the wait returns, the struct is freed.
pub delete_periodic_job : PeriodicJob → PeriodicJob × List (Notice Condition) × Outcome (Unit {0})
unfolding shutdown_periodic_job wait_for_shutdown_of_periodic_job
delete_periodic_job pjob =
    let (pjob', notices, _) = shutdown_periodic_job pjob in
    (pjob', notices, wait_for_shutdown_of_periodic_job pjob')
