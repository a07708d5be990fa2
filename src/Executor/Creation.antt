-- ===== src/Executor/Creation.antt =====
-- The workers that new_executor of src/executor.c creates upfront.
use boom_par.Prelude.{
  ℕ, zero, suc, ◌+◌, ◌≤◌, ◌<◌, ◌≡◌, refl, Bool, true, Option, arith, if◌then◌else◌, word_size,
}
use boom_par.Cutlery.Arraylist.{Arraylist}
use boom_par.Cutlery.Singlylist.{Singlylist}
use boom_par.Executor.{
  Executor, ExecutorType, new_executor, create_worker, create_worker_started, create_workers,
}
use boom_par.Job.{Job, World}

-- The arguments of new_executor, where malloc succeeds: first what stands for the node in a job, and
-- for the store and the world that are there already.
pub record Arguments : Type 0 where
  pub node_offset : ℕ
  pub jobs : ℕ → Option Job
  pub world : World
  pub type : ExecutorType
  pub worker_count_limit : ℕ
  pub max_job_queue_capacity : ℕ
  pub empty_job_queue_wait_time_out_in_micro_seconds : ℕ
  pub worker_startup : ℕ
  pub worker_finish : ℕ
  pub call_back_params : ℕ
  pub worker_stack_size : ℕ

abbrev pub created_by : (A : Arraylist) (S : Singlylist) → Arguments → Option (Executor A S)
created_by A S args =
    new_executor A S true args.node_offset args.jobs args.world args.type args.worker_count_limit
      args.max_job_queue_capacity args.empty_job_queue_wait_time_out_in_micro_seconds
      args.worker_startup args.worker_finish args.call_back_params args.worker_stack_size

-- How many of the first `count` threads could not be created.
abbrev pub failures : ℕ → (ℕ → Bool) → ℕ
failures zero errors = 0
failures (suc count) errors = (if errors count then 1 else 0) + failures count errors

module _ (A : Arraylist) (S : Singlylist) where
  -- Creating as many workers as the limit, on an executor that has none: `start_worker` is called as
  -- many times as the limit, so that the threads that were added, of which the executor counts every
  -- one, are short of the limit by the creations that failed.
  pub create_workers-counts :
      (count : ℕ) (errors : ℕ → Bool) (ex : Executor A S)
      → ex.active_worker_count ≡ 0
      → count ≤ ex.worker_count_limit
      → ex.worker_count_limit < word_size
      → let (after, added) = create_workers A S count errors ex in
        (after.active_worker_count ≡ added)
        × (after.worker_count_limit ≡ ex.worker_count_limit)
        × (added + failures count errors ≡ count)
  unfolding create_workers create_worker create_worker_started
  create_workers-counts zero errors ex e h w = (e, refl, refl)
  create_workers-counts (suc count) errors ex e h w =
      ground (arith, create_workers-counts count errors ex e (omega arith) w)
