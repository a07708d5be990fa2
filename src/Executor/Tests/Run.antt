-- ===== src/Executor/Tests/Run.antt =====
-- A run of a fixed executor of one worker (src/executor.c), and the theorems on executors there.
use mathlib.Core.List.{Mem, Memᴰ, Perm}
use boom_par.Worker.Ready.{queued}
use boom_par.Prelude.{
  ◌≢◌, sym, subst, ℕ, ◌≡◌, refl, Bool, true, false, [], ◌++◌, map, some, arith, returns,
}
use boom_par.SyncLlQueue.{initialize_sync_ll_queue}
use boom_par.JobQueue.{initialize_job_queue}
use boom_par.Cutlery.Instances.{array_lists, array_lists_laws, singly_lists, singly_lists_laws}
use boom_par.Job.{initialize_job}
use boom_par.Executor.{
  new_executor, create_workers_upfront, wait_for_all_executor_workers_to_complete,
  wait_for_workers_round, create_workers, create_worker, create_worker_started,
}
use boom_par.Executor.Steps.{Reach}
use boom_par.Executor.Events.{job_of, accepted, popped, ended, in_hand, pending}
use boom_par.Executor.History.{executor-dispatches}
use boom_par.Executor.Accounting.{user_calls, all_calls, executor-accounts}
use boom_par.Executor.Completion.{fixed_executor-completes}
use boom_par.Executor.Fulfilment.{fixed_executor-fulfils}
use boom_par.Executor.Runs.{open_one, job as one_job, finished-accepted, finished_one, finished}
use boom_par.Executor.Counts.{opened}
use boom_par.Executor.Creation.{created_by}
use boom_par.Executor.OneWorker.{Threads, no_jobs}
use boom_par.Executor.Tests.{echo, world, fixed_count}

-- A fixed executor of one worker, which runs one job and is shut down.
abbrev none_fails : ℕ → Bool
none_fails index = false

new_one : created_by array_lists singly_lists (fixed_count 1) ≡ some (open_one [] no_jobs world 0 0)
unfolding new_executor initialize_job_queue initialize_sync_ll_queue
new_one = refl

abbrev Upfront : Threads → Type 0
Upfront s =
    Reach array_lists singly_lists echo
      (opened array_lists singly_lists (
        create_workers_upfront array_lists singly_lists none_fails (open_one [] no_jobs world 0 0)))
      s

finished_run : Upfront (finished_one echo world 70 5)
unfolding create_workers_upfront create_workers create_worker create_worker_started
finished_run = finished echo world 70 5

executor-dispatches_example :
    accepted array_lists singly_lists finished_run
    ≡ popped array_lists singly_lists finished_run
      ++ pending array_lists singly_lists array_lists_laws singly_lists_laws
          (finished_one echo world 70 5)
executor-dispatches_example =
    executor-dispatches array_lists singly_lists array_lists_laws singly_lists_laws echo
      (fixed_count 1) (open_one [] no_jobs world 0 0) none_fails (finished_one echo world 70 5)
      new_one finished_run

executor-accounts_example :
    Perm (accepted array_lists singly_lists finished_run) (
      map job_of (ended array_lists singly_lists finished_run)
      ++ in_hand array_lists singly_lists (finished_one echo world 70 5)
      ++ pending array_lists singly_lists array_lists_laws singly_lists_laws
          (finished_one echo world 70 5))
    × Perm
        (user_calls (finished_one echo world 70 5).ex.pool.world.events)
        (user_calls world.events ++ all_calls (ended array_lists singly_lists finished_run))
executor-accounts_example =
    executor-accounts array_lists singly_lists array_lists_laws singly_lists_laws echo
      (fixed_count 1) (open_one [] no_jobs world 0 0) none_fails (finished_one echo world 70 5)
      new_one finished_run

one_upfront :
    (create_workers_upfront array_lists singly_lists none_fails (open_one [] no_jobs world 0 0)).1
    ≡ 1
unfolding create_workers_upfront create_workers create_worker create_worker_started
one_upfront = refl

all_complete :
    wait_for_all_executor_workers_to_complete array_lists singly_lists
      (finished_one echo world 70 5).ex
    ≡ returns true
unfolding wait_for_all_executor_workers_to_complete wait_for_workers_round
all_complete = refl

fixed_executor-completes_example :
    (queued array_lists singly_lists array_lists_laws singly_lists_laws
        (finished_one echo world 70 5).ex.pool
      ≡ [])
    × Perm
        (accepted array_lists singly_lists finished_run)
        (map job_of (ended array_lists singly_lists finished_run))
fixed_executor-completes_example =
    fixed_executor-completes array_lists singly_lists array_lists_laws singly_lists_laws echo
      (fixed_count 1) (open_one [] no_jobs world 0 0) none_fails (finished_one echo world 70 5)
      new_one refl (omega arith) (omega (arith, one_upfront)) finished_run all_complete refl

-- The job has the promise at 5.
job_accepted : Mem (some (one_job echo world 70 5)) (accepted array_lists singly_lists finished_run)
unfolding finished_run
job_accepted =
    subst (Mem (some (one_job echo world 70 5))) (sym (finished-accepted echo world 70 5))
      ∣ Memᴰ.head refl ∣₁

has_promise : (one_job echo world 70 5).promise_for_output ≢ 0
unfolding initialize_job
has_promise = λ e. omega arith

fixed_executor-fulfils_example :
    ((finished_one echo world 70 5).ex.pool.world.promises 5).output_result_ready ≡ true
unfolding initialize_job
fixed_executor-fulfils_example =
    fixed_executor-fulfils array_lists singly_lists array_lists_laws singly_lists_laws echo
      (fixed_count 1) (open_one [] no_jobs world 0 0) none_fails (finished_one echo world 70 5)
      new_one refl (omega arith) (omega (arith, one_upfront)) finished_run all_complete refl
      (one_job echo world 70 5) job_accepted has_promise
