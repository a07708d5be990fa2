-- ===== src/JobQueue.antt =====
-- src/job_queue.c and inc/boompar/job_queue.h: the queue of jobs, a union of the two queues. Each
-- function dispatches on the type, the tag of the union; the `default` of its `switch` is no value of
-- `job_queue_type`.
pub mod Refines
pub mod Threads
pub mod Wakeups
mod Tests
use boom_par.Prelude.{
  ℕ, Bool, true, false, List, [], ◌∷◌, Option, none, some, ◌==◌, if◌then◌else◌, Notice, Outcome,
  waits, returns,
}
use boom_par.Cutlery.Arraylist.{Arraylist}
use boom_par.Cutlery.Singlylist.{Singlylist}
use boom_par.SyncQueue.{
  Condition, SyncQueue, unbounded_sync_queue, initialize_sync_queue, get_max_capacity_sync_queue,
  update_max_capacity_sync_queue, is_full_sync_queue, is_empty_sync_queue, push_sync_queue,
  push_sync_queue_woken, pop_sync_queue, pop_sync_queue_woken, close_sync_queue,
  get_threads_waiting_on_empty_sync_queue, get_threads_waiting_on_full_sync_queue,
}
use boom_par.SyncLlQueue.{
  SyncLlQueue, initialize_sync_ll_queue, is_empty_sync_ll_queue, push_sync_ll_queue,
  pop_sync_ll_queue, pop_sync_ll_queue_woken, close_sync_ll_queue,
  get_threads_waiting_on_empty_sync_ll_queue,
}

-- `JOB_QUEUE_AS_LINKEDLIST`
abbrev pub job_queue_as_linkedlist : ℕ
job_queue_as_linkedlist = 0

pub data JobQueue (A : Arraylist) (S : Singlylist) : Type 0 where
  linkedlist_type_job_queue : (lsq : SyncLlQueue S) → JobQueue A S
  arraylist_type_job_queue : (sq : SyncQueue A) → JobQueue A S

module _ (A : Arraylist) (S : Singlylist) where
  -- What a section does: the new state, its notices, and its outcome.
  abbrev pub Section : Type 0 → Type 0
  Section B = JobQueue A S × List (Notice Condition) × Outcome B

  abbrev of_linkedlist :
      {B : Type 0} → SyncLlQueue S × List (Notice Condition) × Outcome B → Section B
  of_linkedlist (lsq, notices, outcome) = (linkedlist_type_job_queue lsq, notices, outcome)

  abbrev of_arraylist : {B : Type 0} → SyncQueue A × List (Notice Condition) × Outcome B → Section B
  of_arraylist (sq, notices, outcome) = (arraylist_type_job_queue sq, notices, outcome)

  abbrev as_arraylist : Option (SyncQueue A) → Option (JobQueue A S)
  as_arraylist none = none
  as_arraylist (some sq) = some (arraylist_type_job_queue sq)

  -- `node_offset` is the offset of `embed_node_to_link_jobs_in_sync_ll_queue` in a job.
  unfoldable pub initialize_job_queue : ℕ → ℕ → Option (JobQueue A S)
  initialize_job_queue node_offset max_capacity =
      if max_capacity == job_queue_as_linkedlist
      then some (linkedlist_type_job_queue (initialize_sync_ll_queue S node_offset))
      else as_arraylist (initialize_sync_queue A max_capacity)

  -- `allocated` says whether `malloc` succeeded.
  pub new_job_queue : Bool → ℕ → ℕ → Option (JobQueue A S)
  unfolding initialize_job_queue
  new_job_queue allocated node_offset max_capacity =
      if allocated then initialize_job_queue node_offset max_capacity else none

  unfoldable pub get_max_capacity_job_queue : JobQueue A S → ℕ
  get_max_capacity_job_queue (linkedlist_type_job_queue lsq) = unbounded_sync_queue
  get_max_capacity_job_queue (arraylist_type_job_queue sq) = get_max_capacity_sync_queue A sq

  unfoldable pub update_max_capacity_job_queue : JobQueue A S → ℕ → Section (Unit {0})
  update_max_capacity_job_queue (linkedlist_type_job_queue lsq) new_max_capacity =
      (linkedlist_type_job_queue lsq, [], returns tt)
  update_max_capacity_job_queue (arraylist_type_job_queue sq) new_max_capacity =
      of_arraylist (update_max_capacity_sync_queue A sq new_max_capacity)

  unfoldable pub is_full_job_queue : JobQueue A S → Bool
  is_full_job_queue (linkedlist_type_job_queue lsq) = false
  is_full_job_queue (arraylist_type_job_queue sq) = is_full_sync_queue A sq

  unfoldable pub is_empty_job_queue : JobQueue A S → Bool
  is_empty_job_queue (linkedlist_type_job_queue lsq) = is_empty_sync_ll_queue S lsq
  is_empty_job_queue (arraylist_type_job_queue sq) = is_empty_sync_queue A sq

  unfoldable pub push_job_queue : JobQueue A S → ℕ → Section Bool
  push_job_queue (linkedlist_type_job_queue lsq) job_p =
      of_linkedlist (push_sync_ll_queue S lsq job_p)
  push_job_queue (arraylist_type_job_queue sq) job_p = of_arraylist (push_sync_queue A sq job_p)

  -- Behind a wait that returned `wait_error`. A push to a linked list does not wait.
  unfoldable pub push_job_queue_woken : JobQueue A S → ℕ → Bool → Section Bool
  push_job_queue_woken (linkedlist_type_job_queue lsq) job_p wait_error =
      of_linkedlist (push_sync_ll_queue S lsq job_p)
  push_job_queue_woken (arraylist_type_job_queue sq) job_p wait_error =
      of_arraylist (push_sync_queue_woken A sq job_p wait_error)

  unfoldable pub pop_job_queue : JobQueue A S → Section ℕ
  pop_job_queue (linkedlist_type_job_queue lsq) = of_linkedlist (pop_sync_ll_queue S lsq)
  pop_job_queue (arraylist_type_job_queue sq) = of_arraylist (pop_sync_queue A sq)

  unfoldable pub pop_job_queue_woken : JobQueue A S → Bool → Section ℕ
  pop_job_queue_woken (linkedlist_type_job_queue lsq) wait_error =
      of_linkedlist (pop_sync_ll_queue_woken S lsq wait_error)
  pop_job_queue_woken (arraylist_type_job_queue sq) wait_error =
      of_arraylist (pop_sync_queue_woken A sq wait_error)

  unfoldable pub close_job_queue : JobQueue A S → Section (Unit {0})
  close_job_queue (linkedlist_type_job_queue lsq) = of_linkedlist (close_sync_ll_queue S lsq)
  close_job_queue (arraylist_type_job_queue sq) = of_arraylist (close_sync_queue A sq)

  unfoldable pub get_threads_waiting_on_empty_job_queue : JobQueue A S → ℕ
  get_threads_waiting_on_empty_job_queue (linkedlist_type_job_queue lsq) =
      get_threads_waiting_on_empty_sync_ll_queue S lsq
  get_threads_waiting_on_empty_job_queue (arraylist_type_job_queue sq) =
      get_threads_waiting_on_empty_sync_queue A sq

  unfoldable pub get_threads_waiting_on_full_job_queue : JobQueue A S → ℕ
  get_threads_waiting_on_full_job_queue (linkedlist_type_job_queue lsq) = 0
  get_threads_waiting_on_full_job_queue (arraylist_type_job_queue sq) =
      get_threads_waiting_on_full_sync_queue A sq
