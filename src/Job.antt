-- ===== src/Job.antt =====
-- src/job.c and inc/boompar/job.h: a function to run once, or to cancel. A job is used by one thread
-- at a time, so its functions are functions of the job and of the world around it: the promises, by
-- their addresses, and a record of the calls into user code.
pub mod Lifecycle
mod Tests
use boom_par.Prelude.{
  ℕ, Bool, true, false, not, List, [], ◌∷◌, ◌++◌, Option, none, some, ◌==◌, if◌then◌else◌,
}
use boom_par.Promise.{Promise, set_promised_result}

pub data State : Type 0 where
  created running completed cancelled : State

-- Pointers are addresses, 0 for NULL.
pub record Job : Type 0 where
  pub state : State
  pub input_p : ℕ
  pub job_function : ℕ
  pub cancellation_callback : ℕ
  pub promise_for_output : ℕ

-- A call into code of the user: a job function and a cancellation callback with their input, or the
-- completion callback of a promise.
pub data Event : Type 0 where
  ran : (job_function input_p : ℕ) → Event
  cancelled_with : (cancellation_callback input_p : ℕ) → Event
  notified : (promise promised_callback : ℕ) → Event

pub record World : Type 0 where
  pub promises : ℕ → Promise
  pub events : List Event

-- What the user's job function returns, given the calls before it.
abbrev pub UserCode : Type 0
UserCode = List Event → ℕ → ℕ → ℕ

abbrev pub update : (ℕ → Promise) → ℕ → Promise → ℕ → Promise
update promises address p other = if address == other then p else promises other

abbrev pub log : World → Event → World
log w e = record w { events = w.events ++ e ∷ [] }

abbrev log_callback : ℕ → Option ℕ → World → World
log_callback promise none w = w
log_callback promise (some callback) w = log w (notified promise callback)

-- `if(job_p->promise_for_output) set_promised_result(job_p->promise_for_output, output)`
unfoldable pub fulfil : World → ℕ → ℕ → World
unfolding set_promised_result
fulfil w promise output =
    if promise == 0
    then w
    else let (p, _, callback, _) = set_promised_result (w.promises promise) output in
      log_callback promise callback (record w { promises = update w.promises promise p })

unfoldable pub initialize_job : ℕ → ℕ → ℕ → ℕ → Job
initialize_job job_function input_p promise_for_output cancellation_callback = record {
  state = created;
  input_p = input_p;
  job_function = job_function;
  cancellation_callback = cancellation_callback;
  promise_for_output = promise_for_output;
}

-- `allocated` says whether `malloc` succeeded.
unfoldable pub new_job : Bool → ℕ → ℕ → ℕ → ℕ → Option Job
unfolding initialize_job
new_job allocated job_function input_p promise_for_output cancellation_callback =
    if job_function == 0
    then none
    else if allocated
    then some (initialize_job job_function input_p promise_for_output cancellation_callback)
    else none

abbrev pub is_created : State → Bool
is_created created = true
is_created _ = false

unfoldable pub execute_job : UserCode → Job → World → Job × World × Bool
execute_job user job w =
    let running_job = record job { state = running } in
    let output = user w.events running_job.job_function running_job.input_p in
    let w' = fulfil (log w (ran job.job_function job.input_p)) job.promise_for_output output in
    if is_created job.state
    then (record running_job { state = completed }, w', true)
    else (job, w, false)

-- The return value: `INVALID_JOB_STATE`, or the error of `pthread_create`, 0 for none. A thread that
-- was created runs `execute_wrapper`, which is one call of `execute_job`.
pub data AsyncResult : Type 0 where
  invalid_job_state : AsyncResult
  error : ℕ → AsyncResult

-- `create_error` is what `pthread_create` returns.
pub execute_job_async : ℕ → Job → AsyncResult
execute_job_async create_error job =
    if is_created job.state then error create_error else invalid_job_state

pub execute_wrapper : UserCode → Job → World → Job × World
unfolding execute_job
execute_wrapper user job w = let (job', w', _) = execute_job user job w in (job', w')

unfoldable pub cancel_job : Job → World → Job × World × Bool
cancel_job job w =
    let told =
      if job.cancellation_callback == 0
      then w
      else log w (cancelled_with job.cancellation_callback job.input_p) in
    if is_created job.state
    then (record job { state = cancelled }, fulfil told job.promise_for_output 0, true)
    else (job, w, false)

pub deinitialize_job : Job → Job
deinitialize_job job = record job {
  input_p = 0;
  job_function = 0;
  cancellation_callback = 0;
  promise_for_output = 0;
}
