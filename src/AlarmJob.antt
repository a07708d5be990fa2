-- ===== src/AlarmJob.antt =====
-- src/alarm_job.c and inc/boompar/alarm_job.h: a job that tells when it is to run next. The runner
-- and the calls of other threads are functions of the state that `job_lock` protects.
pub mod Consume
pub mod Reachable
pub mod Response
mod Tests
use boom_par.Prelude.{
  ℕ, Bool, true, false, not, ◌||◌, List, [], ◌∷◌, Option, none, some, leb, ◌==◌, if◌then◌else◌,
  word_size, ◌-◌, add64, sub64, has_flag, set_flag, Notice, signal, broadcast, Outcome, waits,
  returns,
}
use boom_par.Runner.{
  Condition, job_wait, stop_wait, Pc, top, paused, timed, calling, exited, faulted,
}

pub data State : Type 0 where
  aj_paused aj_running aj_waiting aj_shutdown : State

-- The function pointers are addresses, 0 for NULL.
pub record AlarmJob : Type 0 where
  pub state : State
  pub period_in_microseconds : ℕ
  pub input_p : ℕ
  pub alarm_set_function : ℕ
  pub alarm_job_function : ℕ
  pub event_vector : ℕ

abbrev pub shutdown_called : ℕ
shutdown_called = 1

abbrev pub pause_called : ℕ
pause_called = 2

abbrev pub wake_up_called : ℕ
wake_up_called = 4

-- `BLOCKING` of posixutils, the timeout that never passes.
abbrev pub blocking : ℕ
blocking = word_size - 1

-- The `switch` of `consume_events_and_update_state`.
next_state : State → ℕ → ℕ → ℕ → State
next_state aj_paused events total period =
    if has_flag events shutdown_called
    then aj_shutdown
    else if has_flag events wake_up_called
    then aj_running
    else aj_paused
next_state aj_running events total period =
    if has_flag events shutdown_called
    then aj_shutdown
    else if has_flag events pause_called
    then aj_paused
    else aj_waiting
next_state aj_waiting events total period =
    if has_flag events shutdown_called
    then aj_shutdown
    else if has_flag events pause_called
    then aj_paused
    else if has_flag events wake_up_called
    then aj_running
    else if leb period total
    then aj_running
    else aj_waiting
next_state aj_shutdown events total period = aj_shutdown

pub consume_events_and_update_state : AlarmJob → ℕ → AlarmJob
unfolding next_state
consume_events_and_update_state ajob total_time_waited_for = record ajob {
  state = next_state ajob.state ajob.event_vector total_time_waited_for ajob.period_in_microseconds;
  event_vector = 0;
}

-- What a section of the runner leaves: the job, the notices, and where the runner stands.
abbrev pub RunnerSection : Type 0
RunnerSection = AlarmJob × List (Notice Condition) × Pc

settle : State → AlarmJob → ℕ → RunnerSection
settle aj_shutdown ajob total = (ajob, broadcast stop_wait ∷ [], exited)
settle aj_paused ajob total = (ajob, broadcast stop_wait ∷ [], paused total)
settle aj_waiting ajob total = (ajob, [], timed total (sub64 ajob.period_in_microseconds total))
settle aj_running ajob total = (ajob, [], calling)

-- The inner loop of `alarm_job_runner`, up to its next wait, its end or the return.
pub inner_round : AlarmJob → ℕ → RunnerSection
unfolding consume_events_and_update_state settle
inner_round ajob total_time_waited_for =
    let ajob' = consume_events_and_update_state ajob total_time_waited_for in
    settle ajob'.state ajob' total_time_waited_for

abbrev is_running : State → Bool
is_running aj_running = true
is_running _ = false

-- The head of the outer loop; `alarm` is what the user's `alarm_set_function` returns.
pub outer_round : AlarmJob → ℕ → RunnerSection
unfolding inner_round
outer_round ajob alarm =
    let armed = inner_round (record ajob { period_in_microseconds = alarm }) 0 in
    let resumed = inner_round ajob 0 in
    if is_running ajob.state
    then if ajob.alarm_set_function == 0 then (ajob, [], faulted) else armed
    else resumed

-- The runner goes on from where it stands. `alarm` is used at the head of the outer loop, and
-- `remaining`, the time that the timed wait left in `time_to_wait_for_FINAL`, behind that wait.
pub alarm_job_runner : AlarmJob → Pc → ℕ → ℕ → RunnerSection
unfolding inner_round outer_round
alarm_job_runner ajob top alarm remaining = outer_round ajob alarm
alarm_job_runner ajob (paused total) alarm remaining = inner_round ajob total
alarm_job_runner ajob (timed total time) alarm remaining =
    inner_round ajob (add64 total (sub64 time remaining))
alarm_job_runner ajob calling alarm remaining = (ajob, [], top)
alarm_job_runner ajob exited alarm remaining = (ajob, [], exited)
alarm_job_runner ajob faulted alarm remaining = (ajob, [], faulted)

-- `allocated` and `created` say whether `malloc` and `pthread_create` succeeded.
pub new_alarm_job : Bool → Bool → ℕ → ℕ → ℕ → Option AlarmJob
new_alarm_job allocated created alarm_set_function alarm_job_function input_p =
    if alarm_job_function == 0
    then none
    else if not allocated
    then none
    else if not created
    then none
    else some (record {
      state = aj_paused;
      period_in_microseconds = blocking;
      input_p = input_p;
      alarm_set_function = alarm_set_function;
      alarm_job_function = alarm_job_function;
      event_vector = 0;
    })

-- What a call of another thread leaves: the job, the notices, and the return value.
abbrev pub CallSection : Type 0
CallSection = AlarmJob × List (Notice Condition) × Bool

-- The common body of the three calls: `res`, and the event that is sent if it holds.
send : AlarmJob → Bool → ℕ → CallSection
send ajob res event =
    if res
    then (
      record ajob { event_vector = set_flag ajob.event_vector event },
      signal job_wait ∷ [],
      true,
    )
    else (ajob, [], false)

abbrev may_pause : State → Bool
may_pause aj_running = true
may_pause aj_waiting = true
may_pause _ = false

abbrev may_wake_up : State → Bool
may_wake_up aj_paused = true
may_wake_up aj_waiting = true
may_wake_up _ = false

abbrev is_shutdown : State → Bool
is_shutdown aj_shutdown = true
is_shutdown _ = false

pub pause_alarm_job : AlarmJob → CallSection
unfolding send
pause_alarm_job ajob = send ajob (may_pause ajob.state) pause_called

pub wake_up_alarm_job : AlarmJob → CallSection
unfolding send
wake_up_alarm_job ajob = send ajob (may_wake_up ajob.state) wake_up_called

pub shutdown_alarm_job : AlarmJob → CallSection
unfolding send
shutdown_alarm_job ajob = send ajob (not (is_shutdown ajob.state)) shutdown_called

-- One round of the loops that wait on `stop_wait`.
pub wait_for_pause_or_shutdown_of_alarm_job : AlarmJob → Outcome (Unit {0})
wait_for_pause_or_shutdown_of_alarm_job ajob = elim ajob.state [
  | aj_shutdown ↦ returns tt
  | aj_paused ↦ returns tt
  | _ ↦ waits
]

pub wait_for_shutdown_of_alarm_job : AlarmJob → Outcome (Unit {0})
wait_for_shutdown_of_alarm_job ajob = elim ajob.state [ aj_shutdown ↦ returns tt | _ ↦ waits ]

-- The shutdown, and the first round of the wait; once the wait returns, the struct is freed.
pub delete_alarm_job : AlarmJob → AlarmJob × List (Notice Condition) × Outcome (Unit {0})
unfolding shutdown_alarm_job wait_for_shutdown_of_alarm_job
delete_alarm_job ajob =
    let (ajob', notices, _) = shutdown_alarm_job ajob in
    (ajob', notices, wait_for_shutdown_of_alarm_job ajob')
