-- ===== src/Worker/Tests.antt =====
-- Runs of workers (src/worker.c), and their theorems there.
use boom_par.Prelude.{
  ℕ, ◌≡◌, ◌≢◌, refl, Bool, true, false, [], ◌∷◌, Option, none, some, arith, ◌==◌, if◌then◌else◌,
  returns,
}
use boom_par.SyncLlQueue.{is_empty_sync_ll_queue, pop_sync_ll_queue}
use boom_par.Cutlery.Instances.{array_lists, array_lists_laws, singly_lists, singly_lists_laws}
use boom_par.Promise.{Promise}
use boom_par.Job.{
  fulfil, Job, World, UserCode, created, initialize_job, ran, cancelled_with, execute_job,
  cancel_job,
}
use boom_par.JobQueue.{is_empty_job_queue, pop_job_queue, linkedlist_type_job_queue}
use boom_par.Worker.{
  discard_cancels, discard_pops, worker_pops, worker_runs, discard_round, worker_round, Pool,
  breaks, start_worker, eagain, non_blocking, submit_job_worker, worker_function,
  discard_leftover_jobs,
}
use boom_par.Worker.Ready.{queued, IsValid}
use boom_par.Worker.Submission.{Submitted, submit_job_worker-Submitted}
use boom_par.Worker.Draining.{
  all_executed, all_cancelled, worker_function-drains, discard_leftover_jobs-cancels,
}

-- Every job function returns its input.
abbrev echo : UserCode
echo events function_p input_p = input_p

abbrev new_promise : Promise
new_promise = record { output_result_ready = false; output_result = 0; promised_callback = 0 }

abbrev world : World
world = record { promises = λ address. new_promise; events = [] }

-- Two jobs with the functions 7 and 8, the inputs 70 and 80, and the promise 3 for the first one.
abbrev two_jobs : ℕ → Option Job
two_jobs address =
    if address == 100
    then some (record {
      state = created;
      input_p = 70;
      job_function = 7;
      cancellation_callback = 0;
      promise_for_output = 3;
    })
    else if address == 200
    then some (record {
      state = created;
      input_p = 80;
      job_function = 8;
      cancellation_callback = 9;
      promise_for_output = 0;
    })
    else none

-- The two jobs in a queue, which is closed or open.
abbrev pool : Bool → Pool array_lists singly_lists
pool is_closed = record {
  jobs = two_jobs;
  job_q =
      linkedlist_type_job_queue
        (record { q_empty_wait_thread_count = 0; qp = 100 ∷ 200 ∷ []; is_closed = is_closed });
  world = world;
}

pool-IsValid :
    (is_closed : Bool)
    → IsValid array_lists singly_lists array_lists_laws singly_lists_laws (pool is_closed)
pool-IsValid is_closed =
    ((omega arith, (_, refl, refl)), (omega arith, tt), ((omega arith, (_, refl, refl)), tt, tt))

no_worker_without_blocking : start_worker true 0 1 non_blocking 2 3 4 ≡ (eagain, none)
unfolding start_worker
no_worker_without_blocking = refl

runs_both :
    (worker_function array_lists singly_lists echo 3 (pool true)).0.world.events
    ≡ ran 7 70 ∷ ran 8 80 ∷ []
unfolding worker_function worker_round pop_job_queue pop_sync_ll_queue execute_job fulfil
    worker_pops worker_runs
runs_both = refl

cancels_both :
    (discard_leftover_jobs array_lists singly_lists 3 (pool false)).0.world.events
    ≡ cancelled_with 9 80 ∷ []
unfolding discard_leftover_jobs discard_round is_empty_job_queue is_empty_sync_ll_queue
    pop_job_queue pop_sync_ll_queue cancel_job fulfil discard_pops discard_cancels
cancels_both = refl

submit_job_worker-Submitted_example :
    let (after, _, outcome) = submit_job_worker array_lists singly_lists (pool false) 300 5 6 0 0 in
    Submitted array_lists singly_lists array_lists_laws singly_lists_laws
      (pool false)
      300
      (initialize_job 5 6 0 0)
      after
      outcome
    × ((other : ℕ) → 300 ≢ other → after.jobs other ≡ two_jobs other)
    × (after.world ≡ world)
submit_job_worker-Submitted_example =
    submit_job_worker-Submitted array_lists singly_lists array_lists_laws singly_lists_laws
      (pool false) 300 5 6 0 0 refl

worker_function-drains_example :
    let (after, outcome) = worker_function array_lists singly_lists echo 3 (pool true) in
    (outcome ≡ returns breaks)
    × (queued array_lists singly_lists array_lists_laws singly_lists_laws after ≡ [])
    × (after.world ≡ all_executed echo two_jobs (100 ∷ 200 ∷ []) world)
worker_function-drains_example =
    worker_function-drains array_lists singly_lists array_lists_laws singly_lists_laws echo 3
      (pool true) refl (pool-IsValid true) (omega arith)

discard_leftover_jobs-cancels_example :
    let (after, outcome) = discard_leftover_jobs array_lists singly_lists 3 (pool false) in
    (outcome ≡ returns breaks)
    × (queued array_lists singly_lists array_lists_laws singly_lists_laws after ≡ [])
    × (after.world ≡ all_cancelled two_jobs (100 ∷ 200 ∷ []) world)
discard_leftover_jobs-cancels_example =
    discard_leftover_jobs-cancels array_lists singly_lists array_lists_laws singly_lists_laws 3
      (pool false) (pool-IsValid false) (omega arith)
