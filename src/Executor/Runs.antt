-- ===== src/Executor/Runs.antt =====
-- A run of a fixed executor of one worker (src/executor.c): one job is submitted, the executor is shut
-- down, and its worker runs the job and stops.
use boom_par.Prelude.{ℕ, ◌≡◌, refl, true, false, List, [], ◌∷◌, Option, some, none, arith}
use boom_par.Cutlery.Instances.{array_lists, singly_lists}
use boom_par.Job.{Job, World, initialize_job, UserCode, new_job, execute_job}
use boom_par.JobQueue.{push_job_queue, pop_job_queue, close_job_queue, linkedlist_type_job_queue}
use boom_par.SyncLlQueue.{push_sync_ll_queue, pop_sync_ll_queue, close_sync_ll_queue}
use boom_par.Worker.{set_job, submit_job_worker, worker_pops, worker_runs}
use boom_par.Executor.{
  Executor, fixed_thread_count_executor, blocking, submit_job_executor, lacks_idle_worker,
  submit_job_executor_leaves, shutdown_executor, shutdown_executor_round, clean_up_locked,
}
use boom_par.Executor.Threads.{enter, submit, look_for_worker, leave, pop, run, finish, close}
use boom_par.Executor.Steps.{
  enters, submits, looks_for_worker, leaves, pops, runs, closes, finishes, Reach, here, later,
}
use boom_par.Executor.Events.{executes, accepted, ended}
use boom_par.Executor.OneWorker.{Threads, one_worker, nobody, no_jobs}

-- It is open, or it is shut down.
abbrev pub open_one : List ℕ → (ℕ → Option Job) → World → ℕ → ℕ → Executor array_lists singly_lists
open_one items jobs world active_worker_count submitters_count =
    record (one_worker 0 items jobs world active_worker_count submitters_count) {
      type = fixed_thread_count_executor;
      empty_job_queue_wait_time_out_in_micro_seconds = blocking;
    }

abbrev pub shut_one : List ℕ → (ℕ → Option Job) → World → ℕ → Executor array_lists singly_lists
shut_one items jobs world active_worker_count =
    record (open_one items jobs world active_worker_count 0) {
      shutdown_requested = true;
      pool = record {
        jobs = jobs;
        job_q =
            linkedlist_type_job_queue
              (record { q_empty_wait_thread_count = 0; qp = items; is_closed = true });
        world = world;
      };
    }

module _ (user : UserCode) (world : World) (input_p promise : ℕ) where
  -- The job with function 1, an input, a promise and no callback.
  abbrev pub job : Job
  job = initialize_job 1 input_p promise 0

  abbrev one_job : ℕ → Option Job
  one_job = set_job no_jobs 10 (some job)

  abbrev ran_job : ℕ → Option Job
  ran_job = set_job one_job 10 none

  abbrev world' : World
  world' = (execute_job user job world).1

  abbrev pub opened_one : Threads
  opened_one = record { ex = open_one [] no_jobs world 1 0; at = record nobody { working = 1 } }

  abbrev pub ReachesOne : Threads → Type 0
  ReachesOne s = Reach array_lists singly_lists user opened_one s

  unfoldable entered : ReachesOne (record {
    ex = open_one [] no_jobs world 1 1;
    at = record nobody { working = 1; entered = 1 };
  })
  unfolding enter submit_job_executor
  entered = later here (enters (omega arith))

  unfoldable submitted : ReachesOne (record {
    ex = open_one (10 ∷ []) one_job world 1 1;
    at = record nobody { working = 1; queued = 1 };
  })
  unfolding submit submit_job_worker push_job_queue push_sync_ll_queue new_job
  submitted = later entered (submits 10 1 input_p promise 0 (omega arith) refl)

  unfoldable looked : ReachesOne (record {
    ex = open_one (10 ∷ []) one_job world 1 1;
    at = record nobody { working = 1; leaving = 1 };
  })
  unfolding look_for_worker lacks_idle_worker
  looked = later submitted (looks_for_worker (omega arith))

  unfoldable left :
      ReachesOne
        (record { ex = open_one (10 ∷ []) one_job world 1 0; at = record nobody { working = 1 } })
  unfolding leave submit_job_executor_leaves
  left = later looked (leaves (omega arith))

  unfoldable shut :
      ReachesOne
        (record { ex = shut_one (10 ∷ []) one_job world 1; at = record nobody { working = 1 } })
  unfolding close shutdown_executor shutdown_executor_round close_job_queue close_sync_ll_queue
  shut = later left (closes false)

  unfoldable taken :
      ReachesOne
        (record { ex = shut_one [] one_job world 1; at = record nobody { running = 10 ∷ [] } })
  unfolding pop worker_pops pop_job_queue pop_sync_ll_queue
  taken = later shut (pops (omega arith))

  unfoldable ran :
      ReachesOne (record { ex = shut_one [] ran_job world' 1; at = record nobody { working = 1 } })
  unfolding run worker_runs
  ran = later taken (runs 10 [] [] refl)

  unfoldable stopped :
      ReachesOne
        (record { ex = shut_one [] ran_job world' 1; at = record nobody { finishing = 1 } })
  unfolding pop worker_pops pop_job_queue pop_sync_ll_queue
  stopped = later ran (pops (omega arith))

  abbrev pub finished_one : Threads
  finished_one = record { ex = shut_one [] ran_job world' 0; at = nobody }

  unfoldable all_steps : ReachesOne finished_one
  unfolding finish clean_up_locked entered submitted looked left shut taken ran stopped
  all_steps = later stopped (finishes (omega arith))

  pub finished : ReachesOne finished_one
  finished = all_steps

  pub finished-accepted : accepted array_lists singly_lists finished ≡ some job ∷ []
  unfolding accepted finished all_steps submit_job_worker push_job_queue push_sync_ll_queue new_job
  finished-accepted = refl

  finished-ended : ended array_lists singly_lists finished ≡ executes (some job) ∷ []
  unfolding ended finished all_steps
  finished-ended = refl
