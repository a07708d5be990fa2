-- ===== src/Executor/Places.antt =====
-- Where the threads of an executor stand between two sections (src/executor.c).
use boom_par.Prelude.{ℕ, Bool, true, false, List, Notice, Sleepers, told}
use boom_par.Cutlery.Arraylist.{Arraylist}
use boom_par.Cutlery.Singlylist.{Singlylist}
use boom_par.SyncQueue
use boom_par.SyncQueue.Threads.{on_empty, on_full}
use boom_par.Executor.{
  Executor, Condition, active_worker_count_until_zero_wait, submitters_count_until_zero_wait,
}

-- How many threads stand where between two sections.
pub record Places : Type 0 where
  pub entered : ℕ  -- in submit_job_executor, before the push
  pub pushing : List ℕ  -- waiting in the push, with the address of the job
  pub pushers : Sleepers  -- the same threads, asleep or woken
  pub queued : ℕ  -- about to read how many workers are idle
  pub lacking : ℕ  -- about to read whether the queue is empty
  pub creating : ℕ  -- about to call create_worker
  pub starting : ℕ  -- in create_worker, in the call of start_worker
  pub leaving : ℕ  -- before the last section of submit_job_executor
  pub working : ℕ  -- a worker, about to pop a job
  pub poppers : Sleepers  -- a worker that waits in its pop
  pub running : List ℕ  -- a worker behind its pop, with the address of the job
  pub finishing : ℕ  -- a worker that left its loop, before the section of clean_up
  pub closers : Sleepers  -- in the wait of shutdown_executor
  pub discarders : ℕ  -- in discard_leftover_jobs, before the test of its loop
  pub discarding : ℕ  -- there, before its pop
  pub cancelling : List ℕ  -- there, behind its pop, with the address of the job
  pub waiters : Sleepers  -- in that of wait_for_all_executor_workers_to_complete

pub record System (A : Arraylist) (S : Singlylist) : Type 0 where
  pub ex : Executor A S
  pub at : Places

abbrev pub on_submitters : Condition → Bool
on_submitters active_worker_count_until_zero_wait = false
on_submitters submitters_count_until_zero_wait = true

abbrev pub on_workers : Condition → Bool
on_workers active_worker_count_until_zero_wait = true
on_workers submitters_count_until_zero_wait = false

abbrev pub notified : List (Notice Condition) → Places → Places
notified notices at = record at {
  closers = told on_submitters notices at.closers;
  waiters = told on_workers notices at.waiters;
}

-- The same for the notices of the queue.
abbrev pub queue_notified : List (Notice SyncQueue.Condition) → Places → Places
queue_notified notices at = record at {
  poppers = told on_empty notices at.poppers;
  pushers = told on_full notices at.pushers;
}
