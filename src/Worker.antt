-- ===== src/Worker.antt =====
-- src/worker.c and inc/boompar/worker.h: jobs are submitted to a job queue, and the threads that take
-- them from there run them. The jobs are kept in a store by their addresses, which `malloc` chooses
-- and `free` gives back.
pub mod Ready
pub mod Submission
pub mod Draining
pub mod Owned
pub mod Sharing
mod Tests
use boom_par.Prelude.{
  ℕ, zero, suc, Bool, true, false, not, ◌||◌, List, [], ◌∷◌, Option, none, some, ◌==◌,
  if◌then◌else◌, Notice, Outcome, waits, returns,
}
use boom_par.Cutlery.Arraylist.{Arraylist}
use boom_par.Cutlery.Singlylist.{Singlylist}
use boom_par.SyncQueue.{Condition}
use boom_par.Job.{Job, World, UserCode, new_job, execute_job, cancel_job}
use boom_par.JobQueue.{
  JobQueue, is_empty_job_queue, push_job_queue, push_job_queue_woken, pop_job_queue,
  pop_job_queue_woken,
}

-- `EAGAIN` of errno.h, and `NON_BLOCKING` of posixutils.
abbrev pub eagain : ℕ
eagain = 11

abbrev pub non_blocking : ℕ
non_blocking = 0

-- Pointers are addresses, 0 for NULL.
pub record WorkerThreadParams : Type 0 where
  pub start_up : ℕ
  pub job_q : ℕ
  pub job_queue_empty_timeout_in_microseconds : ℕ
  pub clean_up : ℕ
  pub additional_params : ℕ

-- `allocated` says whether `malloc` succeeded.
unfoldable pub get_worker_thread_params : Bool → ℕ → ℕ → ℕ → ℕ → ℕ → Option WorkerThreadParams
get_worker_thread_params allocated job_q timeout start_up clean_up additional_params =
    if allocated
    then some (record {
      start_up = start_up;
      job_q = job_q;
      job_queue_empty_timeout_in_microseconds = timeout;
      clean_up = clean_up;
      additional_params = additional_params;
    })
    else none

abbrev created : ℕ → Option WorkerThreadParams → ℕ × Option WorkerThreadParams
created create_error none = (eagain, none)
created create_error (some wtp) = if create_error == 0 then (0, some wtp) else (create_error, none)

-- The return value, and what the new thread runs `worker_function` with. The stack size, which goes to
-- the attributes of the thread, is left out. `create_error` is what
-- `pthread_create` returns.
unfoldable pub start_worker : Bool → ℕ → ℕ → ℕ → ℕ → ℕ → ℕ → ℕ × Option WorkerThreadParams
unfolding get_worker_thread_params
start_worker allocated create_error job_q timeout start_up clean_up additional_params =
    if timeout == non_blocking
    then (eagain, none)
    else created create_error
        (get_worker_thread_params allocated job_q timeout start_up clean_up additional_params)

abbrev pub set_job : (ℕ → Option Job) → ℕ → Option Job → ℕ → Option Job
set_job jobs address job other = if address == other then job else jobs other

pub record Pool (A : Arraylist) (S : Singlylist) : Type 0 where
  pub jobs : ℕ → Option Job
  pub job_q : JobQueue A S
  pub world : World

-- What a worker does behind its pop: it goes on with the loop, or it breaks. `faulted`: it used a job
-- that is not in the store.
pub data Next : Type 0 where
  loops breaks faulted : Next

module _ (A : Arraylist) (S : Singlylist) where
  -- What a section does: the new state, its notices, and its outcome.
  abbrev pub Section : Type 0 → Type 0
  Section B = Pool A S × List (Notice Condition) × Outcome B

  -- The code behind `push_job_queue`: a job that was not queued is deleted.
  abbrev settle :
      Pool A S → ℕ → JobQueue A S × List (Notice Condition) × Outcome Bool → Section Bool
  settle pool address (jq, notices, waits) = (record pool { job_q = jq }, notices, waits)
  settle pool address (jq, notices, returns true) =
      (record pool { job_q = jq }, notices, returns true)
  settle pool address (jq, notices, returns false) =
      (record pool { job_q = jq; jobs = set_job pool.jobs address none }, notices, returns false)

  abbrev submit : Pool A S → ℕ → Option Job → Section Bool
  submit pool address none = (pool, [], returns false)
  submit pool address (some job) =
      settle (record pool { jobs = set_job pool.jobs address (some job) }) address
        (push_job_queue A S pool.job_q address)

  -- `address` is what `malloc` returns, 0 if it fails.
  unfoldable pub submit_job_worker : Pool A S → ℕ → ℕ → ℕ → ℕ → ℕ → Section Bool
  submit_job_worker pool address function_p input_p promise_for_output cancellation_callback =
      submit pool address
        (new_job (not (address == 0)) function_p input_p promise_for_output cancellation_callback)

  -- The same call behind a wait of its push, which returned `wait_error`.
  unfoldable pub submit_job_worker_woken : Pool A S → ℕ → Bool → Section Bool
  submit_job_worker_woken pool address wait_error =
      settle pool address (push_job_queue_woken A S pool.job_q address wait_error)

  -- What a pop of the queue leaves of the pool.
  abbrev popped : Pool A S → JobQueue A S × List (Notice Condition) × Outcome ℕ → Section ℕ
  popped pool (jq, notices, outcome) = (record pool { job_q = jq }, notices, outcome)

  -- The pop of `worker_function`, up to its first wait or its return, and the same behind a wait of it.
  unfoldable pub worker_pops : Pool A S → Section ℕ
  worker_pops pool = popped pool (pop_job_queue A S pool.job_q)

  unfoldable pub worker_pops_woken : Pool A S → Bool → Section ℕ
  worker_pops_woken pool wait_error = popped pool (pop_job_queue_woken A S pool.job_q wait_error)

  abbrev work : UserCode → Pool A S → ℕ → Option Job → Pool A S × Next
  work user pool address none = (pool, faulted)
  work user pool address (some job) =
      let (_, world, _) = execute_job user job pool.world in
      (record pool { jobs = set_job pool.jobs address none; world = world }, loops)

  -- `execute_job` and `delete_job` on the job that was popped. No mutex is held here.
  unfoldable pub worker_runs : UserCode → Pool A S → ℕ → Pool A S × Next
  worker_runs user pool address = work user pool address (pool.jobs address)

  abbrev handle : UserCode → Pool A S → ℕ → Pool A S × Next
  handle user pool address = if address == 0 then (pool, breaks) else worker_runs user pool address

  abbrev run_popped : UserCode → Section ℕ → Section Next
  run_popped user (pool, notices, waits) = (pool, notices, waits)
  run_popped user (pool, notices, returns address) =
      let (pool', next) = handle user pool address in (pool', notices, returns next)

  -- One round of the loop of `worker_function`, for as long as no other thread gets the lock.
  unfoldable pub worker_round : UserCode → Pool A S → Section Next
  worker_round user pool = run_popped user (worker_pops pool)

  abbrev go_on : (Pool A S → Pool A S × Outcome Next) → Section Next → Pool A S × Outcome Next
  go_on loop (pool, notices, returns loops) = loop pool
  go_on loop (pool, notices, outcome) = (pool, outcome)

  -- The loop of `worker_function`, for as long as no other thread gets the lock: up to its `break`, a
  -- wait, or `fuel` rounds.
  unfoldable pub worker_function : UserCode → ℕ → Pool A S → Pool A S × Outcome Next
  worker_function user zero pool = (pool, returns loops)
  worker_function user (suc fuel) pool = go_on (worker_function user fuel) (worker_round user pool)

  abbrev cancel : Pool A S → ℕ → Option Job → Pool A S × Next
  cancel pool address none = (pool, faulted)
  cancel pool address (some job) =
      let (_, world, _) = cancel_job job pool.world in
      (record pool { jobs = set_job pool.jobs address none; world = world }, loops)

  -- `cancel_job` and `delete_job` on the job that was popped. No mutex is held here.
  unfoldable pub discard_cancels : Pool A S → ℕ → Pool A S × Next
  discard_cancels pool address = cancel pool address (pool.jobs address)

  -- A NON_BLOCKING pop that would wait returns at once, with an error of the wait.
  abbrev popped_at_once : Pool A S → JobQueue A S × List (Notice Condition) × Outcome ℕ → Section ℕ
  popped_at_once pool (jq, notices, waits) = popped pool (pop_job_queue_woken A S jq true)
  popped_at_once pool (jq, notices, returns address) =
      (record pool { job_q = jq }, notices, returns address)

  -- The pop of `discard_leftover_jobs`.
  unfoldable pub discard_pops : Pool A S → Section ℕ
  discard_pops pool = popped_at_once pool (pop_job_queue A S pool.job_q)

  abbrev cancel_popped : Section ℕ → Pool A S × Next
  cancel_popped (pool, notices, waits) = (pool, loops)
  cancel_popped (pool, notices, returns address) =
      if address == 0 then (pool, loops) else discard_cancels pool address

  -- One round of the loop of `discard_leftover_jobs`, for as long as no other thread gets the lock.
  unfoldable pub discard_round : Pool A S → Pool A S × Next
  discard_round pool =
      if is_empty_job_queue A S pool.job_q
      then (pool, breaks)
      else cancel_popped (discard_pops pool)

  abbrev go_on_discarding :
      (Pool A S → Pool A S × Outcome Next) → Pool A S × Next → Pool A S × Outcome Next
  go_on_discarding loop (pool, loops) = loop pool
  go_on_discarding loop (pool, next) = (pool, returns next)

  -- The loop of `discard_leftover_jobs`, for as long as no other thread gets the lock.
  unfoldable pub discard_leftover_jobs : ℕ → Pool A S → Pool A S × Outcome Next
  discard_leftover_jobs zero pool = (pool, returns loops)
  discard_leftover_jobs (suc fuel) pool =
      go_on_discarding (discard_leftover_jobs fuel) (discard_round pool)
