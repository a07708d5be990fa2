-- ===== src/Executor.antt =====
-- src/executor.c and inc/boompar/executor.h: a job queue, the worker threads on it, and the threads
-- that submit to it. Each function is the code under one of the two mutexes, up to the next wait or
-- the unlock; a call that takes a mutex again is two functions.
pub mod Creation
pub mod Places
pub mod Threads
pub mod Steps
pub mod Held
pub mod Events
pub mod Moves
pub mod Transfer
pub mod Dispatch
pub mod History
pub mod Accounting
pub mod Completion
pub mod Wakeups
pub mod Leftovers
pub mod Measure
pub mod Sections
pub mod Progress
pub mod Fulfilment
mod Runs
pub mod Counting
pub mod Counts
pub mod Idle
pub mod Ownership
pub mod Safety
mod OneWorker
pub mod Stranded
mod Tests
use boom_par.Prelude.{
  ℕ, zero, suc, ◌+◌, ◌-◌, Bool, true, false, not, ◌&&◌, List, [], ◌∷◌, Option, none, some, ltb,
  ◌==◌, if◌then◌else◌, word_size, add64, sub64, Notice, broadcast, Outcome, waits, returns,
}
use boom_par.Cutlery.Arraylist.{Arraylist}
use boom_par.Cutlery.Singlylist.{Singlylist}
use boom_par.Job.{Job, World}
use boom_par.JobQueue.{
  JobQueue, initialize_job_queue, is_empty_job_queue, close_job_queue,
  get_threads_waiting_on_empty_job_queue,
}
use boom_par.Worker.{Pool, Next, discard_leftover_jobs}

pub data ExecutorType : Type 0 where
  fixed_thread_count_executor cached_thread_pool_executor : ExecutorType

pub data Condition : Type 0 where
  active_worker_count_until_zero_wait submitters_count_until_zero_wait : Condition

-- `BLOCKING` of posixutils, the timeout that never passes.
abbrev pub blocking : ℕ
blocking = word_size - 1

-- `pool` has the field `job_q`, with the store of the jobs and the world that they change.
pub record Executor (A : Arraylist) (S : Singlylist) : Type 0 where
  pub type : ExecutorType
  pub empty_job_queue_wait_time_out_in_micro_seconds : ℕ
  pub worker_stack_size : ℕ
  pub worker_count_limit : ℕ
  pub pool : Pool A S
  pub active_worker_count : ℕ
  pub submitters_count : ℕ
  pub shutdown_requested : Bool
  pub worker_startup : ℕ
  pub worker_finish : ℕ
  pub call_back_params : ℕ

abbrev pub is_cached : ExecutorType → Bool
is_cached fixed_thread_count_executor = false
is_cached cached_thread_pool_executor = true

module _ (A : Arraylist) (S : Singlylist) where
  -- What a section does: the new state, its notices, and its outcome.
  abbrev pub Section : Type 0 → Type 0
  Section B = Executor A S × List (Notice Condition) × Outcome B

  -- The callback that a new worker calls first, and the one that it calls last, if they are not NULL.
  pub start_up : Executor A S → Option ℕ
  start_up ex = if ex.worker_startup == 0 then none else some ex.worker_startup

  pub clean_up : Executor A S → Option ℕ
  clean_up ex = if ex.worker_finish == 0 then none else some ex.worker_finish

  -- A worker or its creator takes itself off the count.
  abbrev uncounted : Executor A S → Executor A S × List (Notice Condition)
  uncounted ex =
      let active_worker_count = sub64 ex.active_worker_count 1 in
      (
        record ex { active_worker_count = active_worker_count },
        if active_worker_count == 0 then broadcast active_worker_count_until_zero_wait ∷ [] else [],
      )

  -- The code of `clean_up` under the mutex.
  unfoldable pub clean_up_locked : Executor A S → Executor A S × List (Notice Condition)
  clean_up_locked ex = uncounted ex

  -- `create_worker` up to its call of `start_worker`, and whether it comes to that.
  unfoldable pub create_worker : Executor A S → Executor A S × Bool
  create_worker ex =
      if ltb ex.active_worker_count ex.worker_count_limit
      then (record ex { active_worker_count = add64 ex.active_worker_count 1 }, true)
      else (ex, false)

  -- `create_worker` behind its call of `start_worker`, which returned an error or not; the last
  -- component is `is_thread_added`.
  unfoldable pub create_worker_started :
      Executor A S → Bool → Executor A S × List (Notice Condition) × Bool
  create_worker_started ex error_worker_creation =
      let (ex', notices) = uncounted ex in
      if error_worker_creation then (ex', notices, false) else (ex, [], true)

  abbrev initialized :
      ExecutorType
      → ℕ
      → ℕ
      → ℕ
      → ℕ
      → ℕ
      → ℕ
      → (ℕ → Option Job)
      → World
      → Option (JobQueue A S)
      → Option (Executor A S)
  initialized type limit timeout worker_startup worker_finish call_back_params worker_stack_size
        jobs world none =
      none
  initialized type limit timeout worker_startup worker_finish call_back_params worker_stack_size
        jobs world (some job_q) =
      some (record {
        type = type;
        empty_job_queue_wait_time_out_in_micro_seconds =
            if is_cached type then timeout else blocking;
        worker_stack_size = worker_stack_size;
        worker_count_limit = limit;
        pool = record { jobs = jobs; job_q = job_q; world = world };
        active_worker_count = 0;
        submitters_count = 0;
        shutdown_requested = false;
        worker_startup = worker_startup;
        worker_finish = worker_finish;
        call_back_params = call_back_params;
      })

  -- `new_executor` before it creates workers. `allocated` says whether `malloc` succeeded, `node_offset`
  -- is that of the node in a job; `jobs` and `world` are there already.
  unfoldable pub new_executor :
      Bool
      → ℕ
      → (ℕ → Option Job)
      → World
      → ExecutorType
      → ℕ
      → ℕ
      → ℕ
      → ℕ
      → ℕ
      → ℕ
      → ℕ
      → Option (Executor A S)
  new_executor allocated node_offset jobs world type worker_count_limit max_job_queue_capacity
        timeout worker_startup worker_finish call_back_params worker_stack_size =
      if worker_count_limit == 0
      then none
      else if allocated
      then initialized type worker_count_limit timeout worker_startup worker_finish call_back_params
          worker_stack_size jobs world (initialize_job_queue A S node_offset max_job_queue_capacity)
      else none

  -- A call of `create_worker` from begin to end, and how many threads it adds.
  abbrev created : Executor A S × Bool → Bool → Executor A S × ℕ
  created (ex, false) error = (ex, 0)
  created (ex, true) error =
      let (ex', _, is_thread_added) = create_worker_started ex error in
      (ex', if is_thread_added then 1 else 0)

  -- The loop at the end of `new_executor`: `count` calls of `create_worker`, the errors of their
  -- `start_worker` given by their index, and how many threads they added. No other thread knows the
  -- executor but its workers, which only wait for jobs.
  unfoldable pub create_workers : ℕ → (ℕ → Bool) → Executor A S → Executor A S × ℕ
  create_workers zero errors ex = (ex, 0)
  create_workers (suc count) errors ex =
      let (before, added) = create_workers count errors ex in
      let (after, one_more) = created (create_worker before) (errors count) in
      (after, added + one_more)

  -- The same, if `new_executor` comes to it.
  unfoldable pub create_workers_upfront : (ℕ → Bool) → Executor A S → Executor A S × ℕ
  create_workers_upfront errors ex =
      let upfront = create_workers ex.worker_count_limit errors ex in
      if is_cached ex.type then (ex, 0) else upfront

  -- `submit_job_executor` up to its call of `submit_job_worker`, and whether it comes to that.
  unfoldable pub submit_job_executor : Executor A S → Executor A S × Bool
  submit_job_executor ex =
      if ex.shutdown_requested
      then (ex, false)
      else (record ex { submitters_count = add64 ex.submitters_count 1 }, true)

  -- The condition for a new worker; the two reads of the queue each take its mutex.
  unfoldable pub lacks_idle_worker : Executor A S → Bool
  lacks_idle_worker ex =
      is_cached ex.type && get_threads_waiting_on_empty_job_queue A S ex.pool.job_q == 0

  unfoldable pub has_jobs : Executor A S → Bool
  has_jobs ex = not (is_empty_job_queue A S ex.pool.job_q)

  -- The last section of `submit_job_executor`.
  unfoldable pub submit_job_executor_leaves : Executor A S → Executor A S × List (Notice Condition)
  submit_job_executor_leaves ex =
      let submitters_count = sub64 ex.submitters_count 1 in
      (
        record ex { submitters_count = submitters_count },
        if submitters_count == 0 && ex.shutdown_requested
            then broadcast submitters_count_until_zero_wait ∷ []
            else [],
      )

  -- One round of the loop in `shutdown_executor`.
  unfoldable pub shutdown_executor_round : Executor A S → Outcome (Unit {0})
  shutdown_executor_round ex = if ltb 0 ex.submitters_count then waits else returns tt

  -- `shutdown_executor` up to its first wait or its unlock.
  unfoldable pub shutdown_executor : Executor A S → Section (Unit {0})
  shutdown_executor ex =
      let closed = (close_job_queue A S ex.pool.job_q).0 in
      let ex' = record ex { shutdown_requested = true; pool = record ex.pool { job_q = closed } } in
      if ex.shutdown_requested then (ex, [], returns tt) else (ex', [], shutdown_executor_round ex')

  -- One round of the loop in `wait_for_all_executor_workers_to_complete`.
  unfoldable pub wait_for_workers_round : Executor A S → Outcome Bool
  wait_for_workers_round ex = if ltb 0 ex.active_worker_count then waits else returns true

  -- The call from its beginning: it fails, or goes on to the loop. (It reads `shutdown_requested` under
  -- the other mutex; a flag that was set stays so.)
  unfoldable pub wait_for_all_executor_workers_to_complete : Executor A S → Outcome Bool
  wait_for_all_executor_workers_to_complete ex =
      if ex.shutdown_requested then wait_for_workers_round ex else returns false

  abbrev discarding : Executor A S → Pool A S × Outcome Next → Executor A S
  discarding ex (pool, outcome) = record ex { pool = pool }

  -- `delete_executor`, given what its wait returned: what is left of the executor when it is freed, and
  -- the return value.
  unfoldable pub delete_executor : ℕ → Executor A S → Bool → Executor A S × Bool
  delete_executor fuel ex completed =
      if completed
      then (discarding ex (discard_leftover_jobs A S fuel ex.pool), true)
      else (ex, false)
