-- ===== src/Executor/OneWorker.antt =====
-- An executor of one worker, over lists, with which runs of threads are written down (src/executor.c).
use boom_par.Prelude.{ℕ, false, List, [], Option, none}
use boom_par.Cutlery.Instances.{array_lists, singly_lists}
use boom_par.Job.{Job, World, initialize_job}
use boom_par.JobQueue.{linkedlist_type_job_queue}
use boom_par.Executor.{Executor, cached_thread_pool_executor}
use boom_par.Executor.Places.{Places, System}
use boom_par.Executor.Counts.{opened}

abbrev pub Threads : Type 0
Threads = System array_lists singly_lists

-- The parts of a cached executor of one worker, over a linked list, that change.
abbrev pub one_worker :
    ℕ → List ℕ → (ℕ → Option Job) → World → ℕ → ℕ → Executor array_lists singly_lists
one_worker waiting items jobs world active_worker_count submitters_count = record {
  type = cached_thread_pool_executor;
  empty_job_queue_wait_time_out_in_micro_seconds = 1000;
  worker_stack_size = 0;
  worker_count_limit = 1;
  pool = record {
    jobs = jobs;
    job_q =
        linkedlist_type_job_queue
          (record { q_empty_wait_thread_count = waiting; qp = items; is_closed = false });
    world = world;
  };
  active_worker_count = active_worker_count;
  submitters_count = submitters_count;
  shutdown_requested = false;
  worker_startup = 0;
  worker_finish = 0;
  call_back_params = 0;
}

abbrev pub no_jobs : ℕ → Option Job
no_jobs address = none

abbrev pub empty : World → Threads
empty world = opened array_lists singly_lists (one_worker 0 [] no_jobs world 0 0, 0)

abbrev pub nobody : Places
nobody = record {
  entered = 0;
  pushing = [];
  pushers = record { asleep = 0; woken = 0 };
  queued = 0;
  lacking = 0;
  creating = 0;
  starting = 0;
  leaving = 0;
  working = 0;
  poppers = record { asleep = 0; woken = 0 };
  running = [];
  finishing = 0;
  closers = record { asleep = 0; woken = 0 };
  discarders = 0;
  discarding = 0;
  cancelling = [];
  waiters = record { asleep = 0; woken = 0 };
}

-- The job with function 1, an input, no promise and no callback.
abbrev pub job : ℕ → Job
job input_p = initialize_job 1 input_p 0 0
