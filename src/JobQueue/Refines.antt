-- ===== src/JobQueue/Refines.antt =====
-- Both kinds of job queue (src/job_queue.c) keep the promise of a closable queue of jobs.
use boom_par.Prelude.{ℕ, ◌≡◌, ◌↔◌, refl, Bool, true, false, [], some, arith}
use boom_par.Cutlery.Arraylist.{Arraylist, ArraylistLaws}
use boom_par.Cutlery.Singlylist.{Singlylist, SinglylistLaws}
use boom_par.ClosableQueue.{ClosableQueue, Pushes, Pops}
use boom_par.SyncQueue.{
  update_max_capacity_sync_queue, close_sync_queue, is_empty_sync_queue, initialize_sync_queue,
}
use boom_par.SyncQueue.Refines as ArraylistQueue
use boom_par.SyncLlQueue.{close_sync_ll_queue, is_empty_sync_ll_queue, initialize_sync_ll_queue}
use boom_par.SyncLlQueue.Refines as LinkedlistQueue
use boom_par.JobQueue.{
  JobQueue, linkedlist_type_job_queue, arraylist_type_job_queue, initialize_job_queue,
  update_max_capacity_job_queue, is_empty_job_queue, push_job_queue, push_job_queue_woken,
  pop_job_queue, pop_job_queue_woken, close_job_queue,
}

-- The calls of the threads, each cut into the sections between its waits.
pub data Call : Type 0 where
  pushes : (job_p : ℕ) → Call
  push_resumes : (job_p : ℕ) → (wait_error : Bool) → Call
  pops : Call
  pop_resumes : (wait_error : Bool) → Call
  updates : (new_max_capacity : ℕ) → Call
  closes : Call

module _ (A : Arraylist) (S : Singlylist) (L : ArraylistLaws A) (M : SinglylistLaws S) where
  -- The closable queue that the data stand for.
  abbrev pub view : JobQueue A S → ClosableQueue
  view (linkedlist_type_job_queue lsq) = LinkedlistQueue.view S M lsq
  view (arraylist_type_job_queue sq) = ArraylistQueue.view A L sq

  -- The container of the queue does not take the job: the arraylist is full and its wait or expansion
  -- fails, or the singlylist refuses the node.
  abbrev pub cramped : JobQueue A S → ℕ → Bool → Bool
  cramped (linkedlist_type_job_queue lsq) job_p wait_error = LinkedlistQueue.cramped S M lsq job_p
  cramped (arraylist_type_job_queue sq) job_p wait_error = ArraylistQueue.cramped A L sq wait_error

  -- What the promise says of the section of a call.
  abbrev pub Keeps : JobQueue A S → Call → Type 0
  Keeps jq (pushes job_p) =
      let (after, _, outcome) = push_job_queue A S jq job_p in
      Pushes (cramped jq job_p false) (view jq) job_p (view after) outcome
  Keeps jq (push_resumes job_p wait_error) =
      let (after, _, outcome) = push_job_queue_woken A S jq job_p wait_error in
      Pushes (cramped jq job_p wait_error) (view jq) job_p (view after) outcome
  Keeps jq pops =
      let (after, _, outcome) = pop_job_queue A S jq in Pops false (view jq) (view after) outcome
  Keeps jq (pop_resumes wait_error) =
      let (after, _, outcome) = pop_job_queue_woken A S jq wait_error in
      Pops wait_error (view jq) (view after) outcome
  Keeps jq (updates new_max_capacity) =
      view (update_max_capacity_job_queue A S jq new_max_capacity).0 ≡ view jq
  Keeps jq closes = view (close_job_queue A S jq).0 ≡ record (view jq) { is_closed = true }

  -- Every call on a job queue of either kind does what a closable queue does: a push waits on an open
  -- queue and changes nothing; or it is refused and changes nothing, and then the queue is closed, or
  -- its arraylist is full and the wait for room or the expansion fails, or its singlylist refuses the
  -- node; or it appends to an open queue. A pop waits on an open, empty queue, or returns NULL from an
  -- empty queue that is closed, or whose wait failed, or takes the first job; a change of the capacity
  -- changes neither the jobs nor whether the queue is closed, and a close only closes.
  pub job_queue-Keeps : (jq : JobQueue A S) (c : Call) → Keeps jq c
  unfolding push_job_queue push_job_queue_woken pop_job_queue pop_job_queue_woken
      update_max_capacity_job_queue close_job_queue update_max_capacity_sync_queue close_sync_queue
      close_sync_ll_queue
  job_queue-Keeps (linkedlist_type_job_queue lsq) (pushes job_p) =
      LinkedlistQueue.push_sync_ll_queue-Pushes S M lsq job_p
  job_queue-Keeps (linkedlist_type_job_queue lsq) (push_resumes job_p wait_error) =
      LinkedlistQueue.push_sync_ll_queue-Pushes S M lsq job_p
  job_queue-Keeps (linkedlist_type_job_queue lsq) pops =
      LinkedlistQueue.pop_sync_ll_queue-Pops S M lsq
  job_queue-Keeps (linkedlist_type_job_queue lsq) (pop_resumes wait_error) =
      LinkedlistQueue.pop_sync_ll_queue_woken-Pops S M lsq wait_error
  job_queue-Keeps (linkedlist_type_job_queue lsq) (updates n) = refl
  job_queue-Keeps (linkedlist_type_job_queue lsq) closes = refl
  job_queue-Keeps (arraylist_type_job_queue sq) (pushes job_p) =
      ArraylistQueue.push_sync_queue-Pushes A L sq job_p
  job_queue-Keeps (arraylist_type_job_queue sq) (push_resumes job_p wait_error) =
      ArraylistQueue.push_sync_queue_woken-Pushes A L sq job_p wait_error
  job_queue-Keeps (arraylist_type_job_queue sq) pops = ArraylistQueue.pop_sync_queue-Pops A L sq
  job_queue-Keeps (arraylist_type_job_queue sq) (pop_resumes wait_error) =
      ArraylistQueue.pop_sync_queue_woken-Pops A L sq wait_error
  job_queue-Keeps (arraylist_type_job_queue sq) (updates n) = refl
  job_queue-Keeps (arraylist_type_job_queue sq) closes = refl

  pub is_empty_job_queue-items :
      (jq : JobQueue A S) → (is_empty_job_queue A S jq ≡ true) ↔ ((view jq).items ≡ [])
  unfolding is_empty_job_queue is_empty_sync_queue is_empty_sync_ll_queue
  is_empty_job_queue-items (linkedlist_type_job_queue lsq) = M.emptied lsq.qp
  is_empty_job_queue-items (arraylist_type_job_queue sq) = L.emptied sq.qp

  -- A new job queue, of either kind, is empty and open.
  pub initialize_job_queue-view :
      (node_offset max_capacity : ℕ) (jq : JobQueue A S)
      → initialize_job_queue A S node_offset max_capacity ≡ some jq
      → view jq ≡ record { items = []; is_closed = false }
  unfolding initialize_job_queue initialize_sync_queue initialize_sync_ll_queue
  initialize_job_queue-view node_offset max_capacity (linkedlist_type_job_queue lsq) e =
      ground (arith, M.initialized node_offset)
  initialize_job_queue-view node_offset max_capacity (arraylist_type_job_queue sq) e =
      ground (arith, L.initialized 0 sq.qp)
