-- ===== src/Executor/Tests.antt =====
-- Runs of executors (src/executor.c), and their theorems there.
mod Run
use mathlib.Core.List.{Mem, Memᴰ, Perm}
use boom_par.Worker.Ready.{queued}
use boom_par.Prelude.{
  ◌<◌, ◌≤◌, ◌≢◌, ◌⊎◌, sym, subst, ℕ, ◌+◌, ◌≡◌, refl, Bool, true, false, List, [], ◌∷◌, ◌++◌, map,
  length, some, none, arith, ◌==◌, returns,
}
use boom_par.SyncLlQueue.{initialize_sync_ll_queue}
use boom_par.JobQueue.{initialize_job_queue, get_max_capacity_job_queue}
use boom_par.Cutlery.Instances.{
  array_lists, array_lists_laws, array_lists-makes_room, singly_lists, singly_lists_laws,
}
use boom_par.Job.{initialize_job, World, UserCode}
use boom_par.JobQueue.Refines.{view}
use boom_par.Executor.{
  Executor, fixed_thread_count_executor, cached_thread_pool_executor, new_executor,
  create_workers_upfront, start_up, clean_up, wait_for_all_executor_workers_to_complete,
  wait_for_workers_round, submit_job_executor, shutdown_executor, shutdown_executor_round,
  create_workers, create_worker, create_worker_started,
}
use boom_par.Executor.Threads.{submit, submitters, enter, close}
use boom_par.Executor.Steps.{submits, enters, closes, Reach, here, later}
use boom_par.Executor.Events.{job_of, one_by_one, accepted, popped, ended, in_hand, pending}
use boom_par.Executor.History.{executor-dispatches}
use boom_par.Executor.Completion.{fixed_executor-completes}
use boom_par.Executor.Wakeups.{IsAwake, Reach-IsAwake, new_executor-IsAwake, executor-IsAwake}
use boom_par.Executor.Fulfilment.{fixed_executor-fulfils}
use boom_par.Executor.Progress.{GoesOn, shutdown-ends}
use boom_par.Executor.Measure.{sections_left, own_sections}
use boom_par.Executor.Runs.{open_one, job as one_job, finished-accepted, finished_one, finished}
use boom_par.Executor.Counts.{opened, executor-IsCounted}
use boom_par.Executor.Counting.{IsCounted}
use boom_par.Worker.{loops, worker_runs, discard_cancels}
use boom_par.Executor.Safety.{executor-IsSafe}
use boom_par.Executor.Ownership.{IsSafe}
use boom_par.Executor.Creation.{Arguments, created_by}
use boom_par.Executor.Idle.{idle_executor-stays}
use boom_par.Executor.Stranded.{Reaches, submit_job_executor-strands}
use boom_par.Executor.OneWorker.{Threads, one_worker, no_jobs, job}

abbrev pub echo : UserCode
echo events function_p input_p = input_p

abbrev pub world : World
world = record {
  promises =
      λ address. (record { output_result_ready = false; output_result = 0; promised_callback = 0 });
  events = [];
}

-- A new executor of three fixed workers, and the error of the second `start_worker`.
abbrev fixed : Executor array_lists singly_lists
fixed = record (one_worker 0 [] no_jobs world 0 0) {
  type = fixed_thread_count_executor;
  empty_job_queue_wait_time_out_in_micro_seconds = 18446744073709551615;
  worker_count_limit = 3;
}

abbrev second_fails : ℕ → Bool
second_fails index = index == 1

abbrev pub fixed_count : ℕ → Arguments
fixed_count worker_count_limit = record {
  node_offset = 40;
  jobs = no_jobs;
  world = world;
  type = fixed_thread_count_executor;
  worker_count_limit = worker_count_limit;
  max_job_queue_capacity = 0;
  empty_job_queue_wait_time_out_in_micro_seconds = 1000;
  worker_startup = 0;
  worker_finish = 0;
  call_back_params = 0;
  worker_stack_size = 0;
}

new_fixed : created_by array_lists singly_lists (fixed_count 3) ≡ some fixed
unfolding new_executor initialize_job_queue initialize_sync_ll_queue
new_fixed = refl

no_callbacks :
    (start_up array_lists singly_lists fixed ≡ none)
    × (clean_up array_lists singly_lists fixed ≡ none)
unfolding start_up clean_up
no_callbacks = (refl, refl)

not_deleted_before_shutdown :
    wait_for_all_executor_workers_to_complete array_lists singly_lists fixed ≡ returns false
unfolding wait_for_all_executor_workers_to_complete
not_deleted_before_shutdown = refl

-- One thread submits, and one shuts the executor down.
abbrev closing : Threads
closing =
    close array_lists singly_lists
      (enter array_lists singly_lists (
        opened array_lists singly_lists
          (create_workers_upfront array_lists singly_lists second_fails fixed)))
      true

closing-Reach :
    Reach array_lists singly_lists echo
      (opened array_lists singly_lists
        (create_workers_upfront array_lists singly_lists second_fails fixed))
      closing
closing-Reach = later (later here (enters (omega arith))) (closes true)

executor-IsCounted_example : IsCounted array_lists singly_lists closing
executor-IsCounted_example =
    executor-IsCounted array_lists singly_lists echo (fixed_count 3) fixed second_fails closing
      new_fixed (omega arith) closing-Reach

executor-IsSafe_example :
    IsSafe array_lists singly_lists array_lists_laws singly_lists_laws closing
    × ((a : ℕ) (before after : List ℕ)
        → closing.at.running ≡ before ++ a ∷ after
        → (worker_runs array_lists singly_lists echo closing.ex.pool a).1 ≡ loops)
    × ((a : ℕ) (before after : List ℕ)
        → closing.at.cancelling ≡ before ++ a ∷ after
        → (discard_cancels array_lists singly_lists closing.ex.pool a).1 ≡ loops)
executor-IsSafe_example =
    executor-IsSafe array_lists singly_lists array_lists_laws singly_lists_laws echo (fixed_count 3)
      fixed second_fails closing new_fixed closing-Reach

-- A cached executor that is shut down, and a thread that still tries to submit.
abbrev idle : Threads
idle =
    opened array_lists singly_lists
      (record (one_worker 0 [] no_jobs world 0 0) { shutdown_requested = true }, 0)

idle-IsCounted : IsCounted array_lists singly_lists idle
idle-IsCounted = ground arith

idle_executor-stays_example :
    ((enter array_lists singly_lists idle).ex ≡ idle.ex)
    × (submitters array_lists singly_lists (enter array_lists singly_lists idle).at ≡ 0)
    × ((enter array_lists singly_lists idle).at.starting
          + (enter array_lists singly_lists idle).at.working
          + ((enter array_lists singly_lists idle).at.poppers.asleep
              + (enter array_lists singly_lists idle).at.poppers.woken)
          + length (enter array_lists singly_lists idle).at.running
          + (enter array_lists singly_lists idle).at.finishing
        ≡ 0)
    × (wait_for_all_executor_workers_to_complete array_lists singly_lists
          (enter array_lists singly_lists idle).ex
        ≡ returns true)
idle_executor-stays_example =
    idle_executor-stays array_lists singly_lists echo idle (enter array_lists singly_lists idle)
      idle-IsCounted refl (refl, refl, refl, refl) refl refl (later here (enters (omega arith)))

submit_job_executor-strands_example :
    (new_executor array_lists singly_lists true 40 no_jobs world cached_thread_pool_executor 1 0
        1000 0 0 0 0
      ≡ some (one_worker 0 [] no_jobs world 0 0))
    × ((s : Threads) × Reaches echo world 70 80 s
        × ((view array_lists singly_lists array_lists_laws singly_lists_laws s.ex.pool.job_q).items
            ≡ 20 ∷ [])
        × (s.ex.pool.jobs 20 ≡ some (job 80))
        × (s.ex.active_worker_count ≡ 0)
        × (submitters array_lists singly_lists s.at ≡ 0)
        × (s.ex.shutdown_requested ≡ false))
submit_job_executor-strands_example = submit_job_executor-strands echo world 70 80

-- The thread that entered before the shutdown submits, and is refused.
shut_down : closing.ex.shutdown_requested ≡ true
unfolding enter close submit_job_executor shutdown_executor shutdown_executor_round
    create_workers_upfront create_workers create_worker create_worker_started
shut_down = refl

one_entered : closing.at.entered ≡ 1
unfolding enter close submit_job_executor shutdown_executor shutdown_executor_round
    create_workers_upfront create_workers create_worker create_worker_started
one_entered = refl

no_job_at_ten : closing.ex.pool.jobs 10 ≡ none
unfolding enter close submit_job_executor shutdown_executor shutdown_executor_round
    create_workers_upfront create_workers create_worker create_worker_started
no_job_at_ten = refl

abbrev refused : Threads
refused = submit array_lists singly_lists closing 10 1 70 0 0

refused-Reach : Reach array_lists singly_lists echo closing refused
refused-Reach = later here (submits 10 1 70 0 0 (omega (arith, one_entered)) no_job_at_ten)

executor-IsAwake_example :
    ((view array_lists singly_lists array_lists_laws singly_lists_laws
          closing.ex.pool.job_q).is_closed
        ≡ true
      → (closing.at.poppers.asleep ≡ 0) × (closing.at.pushers.asleep ≡ 0))
    × (0 < closing.at.poppers.asleep
        → length
            (view array_lists singly_lists array_lists_laws singly_lists_laws
              closing.ex.pool.job_q).items
          ≤ closing.at.poppers.woken)
    × (0 < closing.at.pushers.asleep
        → get_max_capacity_job_queue array_lists singly_lists closing.ex.pool.job_q
          ≤ length
              (view array_lists singly_lists array_lists_laws singly_lists_laws
                closing.ex.pool.job_q).items
            + closing.at.pushers.woken)
executor-IsAwake_example =
    executor-IsAwake array_lists singly_lists array_lists_laws singly_lists_laws
      array_lists-makes_room echo (fixed_count 3) fixed second_fails closing new_fixed (omega arith)
      closing-Reach

closing-IsAwake :
    IsAwake array_lists singly_lists array_lists_laws singly_lists_laws array_lists-makes_room
      closing
closing-IsAwake =
    Reach-IsAwake array_lists singly_lists array_lists_laws singly_lists_laws array_lists-makes_room
      echo
      (executor-IsCounted array_lists singly_lists echo (fixed_count 3) fixed second_fails _
        new_fixed (omega arith) here)
      (new_executor-IsAwake array_lists singly_lists array_lists_laws singly_lists_laws
        array_lists-makes_room (fixed_count 3) fixed second_fails new_fixed (omega arith))
      closing-Reach

shutdown-ends_example :
    (own_sections array_lists singly_lists array_lists_laws singly_lists_laws refused-Reach
        + sections_left array_lists singly_lists array_lists_laws singly_lists_laws refused
      ≤ sections_left array_lists singly_lists array_lists_laws singly_lists_laws closing)
    × (((refused.ex.submitters_count ≡ 0)
          × (refused.ex.active_worker_count ≡ 0)
          × (refused.at.closers.asleep + refused.at.closers.woken ≡ 0)
          × (refused.at.discarders + refused.at.discarding + length refused.at.cancelling ≡ 0))
        ⊎ ((a : ℕ)
            → refused.ex.pool.jobs a ≡ none
            → GoesOn array_lists singly_lists array_lists_laws singly_lists_laws echo refused))
shutdown-ends_example =
    shutdown-ends array_lists singly_lists array_lists_laws singly_lists_laws array_lists-makes_room
      echo closing refused
      (executor-IsSafe array_lists singly_lists array_lists_laws singly_lists_laws echo
        (fixed_count 3) fixed second_fails closing new_fixed closing-Reach).0
      (executor-IsCounted array_lists singly_lists echo (fixed_count 3) fixed second_fails closing
        new_fixed (omega arith) closing-Reach)
      closing-IsAwake shut_down refused-Reach
