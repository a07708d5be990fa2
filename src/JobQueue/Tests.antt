-- ===== src/JobQueue/Tests.antt =====
-- Runs of job queues of both kinds (src/job_queue.c), and their theorem there.
use boom_par.Prelude.{◌≡◌, refl, true, false, [], ◌∷◌, some, signal, returns}
use boom_par.SyncLlQueue.{initialize_sync_ll_queue}
use boom_par.Cutlery.Instances.{array_lists, array_lists_laws, singly_lists, singly_lists_laws}
use boom_par.SyncQueue.{
  get_max_capacity_sync_queue, get_threads_waiting_on_empty_sync_queue,
  get_threads_waiting_on_full_sync_queue, is_empty_sync_queue, is_full_sync_queue, pop_sync_queue,
  q_full_wait, unbounded_sync_queue,
}
use boom_par.JobQueue.{
  JobQueue, linkedlist_type_job_queue, arraylist_type_job_queue, new_job_queue,
  get_max_capacity_job_queue, is_full_job_queue, is_empty_job_queue, pop_job_queue,
  get_threads_waiting_on_empty_job_queue, get_threads_waiting_on_full_job_queue,
}
use boom_par.JobQueue.Refines.{pops, Keeps, job_queue-Keeps}

-- A queue with one job, at its capacity, which a pusher waits on; and an empty linked list.
abbrev full : JobQueue array_lists singly_lists
full = arraylist_type_job_queue (record {
  q_empty_wait_thread_count = 0;
  q_full_wait_thread_count = 1;
  max_capacity = 1;
  qp = record { capacity = 1; list = 5 ∷ [] };
  is_closed = false;
})

abbrev linked : JobQueue array_lists singly_lists
linked =
    linkedlist_type_job_queue (record { q_empty_wait_thread_count = 0; qp = []; is_closed = false })

new_linked : new_job_queue array_lists singly_lists true 40 0 ≡ some linked
unfolding new_job_queue initialize_sync_ll_queue
new_linked = refl

getters :
    (is_full_job_queue array_lists singly_lists full ≡ true)
    × (is_empty_job_queue array_lists singly_lists full ≡ false)
    × (get_max_capacity_job_queue array_lists singly_lists full ≡ 1)
    × (get_max_capacity_job_queue array_lists singly_lists linked ≡ unbounded_sync_queue)
    × (get_threads_waiting_on_empty_job_queue array_lists singly_lists full ≡ 0)
    × (get_threads_waiting_on_full_job_queue array_lists singly_lists full ≡ 1)
unfolding is_full_job_queue is_empty_job_queue get_max_capacity_job_queue
    get_threads_waiting_on_empty_job_queue get_threads_waiting_on_full_job_queue is_full_sync_queue
    is_empty_sync_queue get_max_capacity_sync_queue get_threads_waiting_on_empty_sync_queue
    get_threads_waiting_on_full_sync_queue
getters = (refl, refl, refl, refl, refl, refl)

pop_wakes_pusher :
    let (_, notices, outcome) = pop_job_queue array_lists singly_lists full in
    (notices ≡ signal q_full_wait ∷ []) × (outcome ≡ returns 5)
unfolding pop_job_queue pop_sync_queue
pop_wakes_pusher = (refl, refl)

job_queue-Keeps_example :
    Keeps array_lists singly_lists array_lists_laws singly_lists_laws full pops
job_queue-Keeps_example =
    job_queue-Keeps array_lists singly_lists array_lists_laws singly_lists_laws full pops
