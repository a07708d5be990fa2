-- ===== src/Executor/Stranded.antt =====
-- A job that is accepted and then has no worker (submit_job_executor of src/executor.c).
use boom_par.Prelude.{ℕ, ◌≡◌, refl, true, false, [], ◌∷◌, Option, some, none, arith}
use boom_par.Cutlery.Instances.{array_lists, array_lists_laws, singly_lists, singly_lists_laws}
use boom_par.Job.{Job, World, UserCode, new_job, execute_job}
use boom_par.JobQueue.{
  push_job_queue, is_empty_job_queue, pop_job_queue, pop_job_queue_woken, initialize_job_queue,
  get_threads_waiting_on_empty_job_queue,
}
use boom_par.JobQueue.Refines.{view}
use boom_par.SyncLlQueue.{
  initialize_sync_ll_queue, push_sync_ll_queue, is_empty_sync_ll_queue, pop_sync_ll_queue,
  pop_sync_ll_queue_woken, get_threads_waiting_on_empty_sync_ll_queue,
}
use boom_par.Worker.{set_job, submit_job_worker, worker_pops, worker_pops_woken, worker_runs}
use boom_par.Executor.{
  cached_thread_pool_executor, new_executor, submit_job_executor, lacks_idle_worker, has_jobs,
  create_worker, create_worker_started, submit_job_executor_leaves, clean_up_locked,
}
use boom_par.Executor.Threads.{
  submitters, enter, submit, look_for_worker, look_for_jobs, create, start, leave, pop, pop_resumes,
  run, finish,
}
use boom_par.Executor.Steps.{
  rouses_popper, enters, submits, looks_for_worker, looks_for_jobs, creates, starts, leaves, pops,
  pop_goes_on, runs, finishes, Reach, here, later,
}
use boom_par.Executor.OneWorker.{Threads, empty, job, no_jobs, nobody, one_worker}

module _ (user : UserCode) (world : World) (input_p input_p' : ℕ) where
  abbrev one_job : ℕ → Option Job
  one_job = set_job no_jobs 10 (some (job input_p))

  abbrev ran_job : ℕ → Option Job
  ran_job = set_job one_job 10 none

  abbrev other_job : ℕ → Option Job
  other_job = set_job ran_job 20 (some (job input_p'))

  abbrev world' : World
  world' = (execute_job user (job input_p) world).1

  abbrev pub Reaches : Threads → Type 0
  Reaches s = Reach array_lists singly_lists user (empty world) s

  -- The first job gets a worker.
  entered_first :
      Reaches
        (record { ex = one_worker 0 [] no_jobs world 0 1; at = record nobody { entered = 1 } })
  unfolding enter submit_job_executor
  entered_first = later here (enters (omega arith))

  submitted_first :
      Reaches (record {
        ex = one_worker 0 (10 ∷ []) one_job world 0 1;
        at = record nobody { queued = 1 };
      })
  unfolding submit submit_job_worker push_job_queue push_sync_ll_queue new_job
  submitted_first = later entered_first (submits 10 1 input_p 0 0 (omega arith) refl)

  lacking_first :
      Reaches (record {
        ex = one_worker 0 (10 ∷ []) one_job world 0 1;
        at = record nobody { lacking = 1 };
      })
  unfolding look_for_worker lacks_idle_worker get_threads_waiting_on_empty_job_queue
      get_threads_waiting_on_empty_sync_ll_queue
  lacking_first = later submitted_first (looks_for_worker (omega arith))

  creating_first : Reaches (record {
    ex = one_worker 0 (10 ∷ []) one_job world 0 1;
    at = record nobody { creating = 1 };
  })
  unfolding look_for_jobs has_jobs is_empty_job_queue is_empty_sync_ll_queue
  creating_first = later lacking_first (looks_for_jobs (omega arith))

  starting_first : Reaches (record {
    ex = one_worker 0 (10 ∷ []) one_job world 1 1;
    at = record nobody { starting = 1 };
  })
  unfolding create create_worker
  starting_first = later creating_first (creates (omega arith))

  started_first : Reaches (record {
    ex = one_worker 0 (10 ∷ []) one_job world 1 1;
    at = record nobody { working = 1; leaving = 1 };
  })
  unfolding start create_worker_started
  started_first = later starting_first (starts false (omega arith))

  left_first :
      Reaches (record {
        ex = one_worker 0 (10 ∷ []) one_job world 1 0;
        at = record nobody { working = 1 };
      })
  unfolding leave submit_job_executor_leaves
  left_first = later started_first (leaves (omega arith))

  -- The worker runs it, waits for more, and times out.
  running_first :
      Reaches (record {
        ex = one_worker 0 [] one_job world 1 0;
        at = record nobody { running = 10 ∷ [] };
      })
  unfolding pop worker_pops pop_job_queue pop_sync_ll_queue
  running_first = later left_first (pops (omega arith))

  worked :
      Reaches
        (record { ex = one_worker 0 [] ran_job world' 1 0; at = record nobody { working = 1 } })
  unfolding run worker_runs
  worked = later running_first (runs 10 [] [] refl)

  popping_more : Reaches (record {
    ex = one_worker 1 [] ran_job world' 1 0;
    at = record nobody { poppers = record { asleep = 1; woken = 0 } };
  })
  unfolding pop worker_pops pop_job_queue pop_sync_ll_queue
  popping_more = later worked (pops (omega arith))

  roused_worker : Reaches (record {
    ex = one_worker 1 [] ran_job world' 1 0;
    at = record nobody { poppers = record { asleep = 0; woken = 1 } };
  })
  roused_worker = later popping_more (rouses_popper (omega arith))

  timed_out :
      Reaches
        (record { ex = one_worker 0 [] ran_job world' 1 0; at = record nobody { finishing = 1 } })
  unfolding pop_resumes worker_pops_woken pop_job_queue_woken pop_sync_ll_queue_woken
  timed_out = later roused_worker (pop_goes_on true (omega arith) (λ h. omega arith))

  -- Before it is off the count, the second job is submitted.
  entered_second : Reaches (record {
    ex = one_worker 0 [] ran_job world' 1 1;
    at = record nobody { finishing = 1; entered = 1 };
  })
  unfolding enter submit_job_executor
  entered_second = later timed_out (enters (omega arith))

  submitted_second : Reaches (record {
    ex = one_worker 0 (20 ∷ []) other_job world' 1 1;
    at = record nobody { finishing = 1; queued = 1 };
  })
  unfolding submit submit_job_worker push_job_queue push_sync_ll_queue new_job
  submitted_second = later entered_second (submits 20 1 input_p' 0 0 (omega arith) refl)

  lacking_second : Reaches (record {
    ex = one_worker 0 (20 ∷ []) other_job world' 1 1;
    at = record nobody { finishing = 1; lacking = 1 };
  })
  unfolding look_for_worker lacks_idle_worker get_threads_waiting_on_empty_job_queue
      get_threads_waiting_on_empty_sync_ll_queue
  lacking_second = later submitted_second (looks_for_worker (omega arith))

  creating_second : Reaches (record {
    ex = one_worker 0 (20 ∷ []) other_job world' 1 1;
    at = record nobody { finishing = 1; creating = 1 };
  })
  unfolding look_for_jobs has_jobs is_empty_job_queue is_empty_sync_ll_queue
  creating_second = later lacking_second (looks_for_jobs (omega arith))

  refused_second : Reaches (record {
    ex = one_worker 0 (20 ∷ []) other_job world' 1 1;
    at = record nobody { finishing = 1; leaving = 1 };
  })
  unfolding create create_worker
  refused_second = later creating_second (creates (omega arith))

  left_second : Reaches (record {
    ex = one_worker 0 (20 ∷ []) other_job world' 1 0;
    at = record nobody { finishing = 1 };
  })
  unfolding leave submit_job_executor_leaves
  left_second = later refused_second (leaves (omega arith))

  stranded : Reaches (record { ex = one_worker 0 (20 ∷ []) other_job world' 0 0; at = nobody })
  unfolding finish clean_up_locked
  stranded = later left_second (finishes (omega arith))

  -- A cached executor can accept a job that no worker will run: from a new executor of one worker,
  -- whatever the jobs do, threads reach a state in which the job that was submitted second is in the
  -- open queue, while no worker is left, no thread is inside submit_job_executor to create one, and
  -- the executor is not shut down. (The worker timed out, and was still on the count when the
  -- submitter looked for a worker.)
  pub submit_job_executor-strands :
      (new_executor array_lists singly_lists true 40 no_jobs world cached_thread_pool_executor 1 0
          1000 0 0 0 0
        ≡ some (one_worker 0 [] no_jobs world 0 0))
      × ((s : Threads) × Reaches s
          × ((view array_lists singly_lists array_lists_laws singly_lists_laws
                s.ex.pool.job_q).items
              ≡ 20 ∷ [])
          × (s.ex.pool.jobs 20 ≡ some (job input_p'))
          × (s.ex.active_worker_count ≡ 0)
          × (submitters array_lists singly_lists s.at ≡ 0)
          × (s.ex.shutdown_requested ≡ false))
  unfolding new_executor initialize_job_queue initialize_sync_ll_queue
  submit_job_executor-strands = (refl, (_, stranded, refl, refl, refl, refl, refl))
