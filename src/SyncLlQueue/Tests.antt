-- ===== src/SyncLlQueue/Tests.antt =====
-- Runs of a linked-list queue (src/sync_ll_queue.c), and its theorem there.
use boom_par.Prelude.{◌≡◌, refl, true, false, [], some, arith}
use boom_par.Cutlery.Instances.{singly_lists, singly_lists_laws}
use boom_par.SyncLlQueue.{
  initialize_sync_ll_queue, new_sync_ll_queue, is_empty_sync_ll_queue, push_sync_ll_queue,
  pop_sync_ll_queue, pop_sync_ll_queue_woken, close_sync_ll_queue,
  get_threads_waiting_on_empty_sync_ll_queue,
}
use boom_par.SyncLlQueue.Wakeups.{
  pushes, pops, pop_resumes, closes, System, act, acts, Reach, initialized, later, IsLive,
  sync_ll_queue-IsLive,
}

abbrev fresh : System singly_lists
fresh = record {
  sq = record { q_empty_wait_thread_count = 0; qp = []; is_closed = false };
  poppers = record { asleep = 0; woken = 0 };
}

new_queue : new_sync_ll_queue singly_lists true 8 ≡ some fresh.sq
unfolding new_sync_ll_queue
new_queue = refl

-- A popper sleeps, a push signals it; it takes the struct before the close.
abbrev handed_over : System singly_lists
handed_over =
    act singly_lists
      (act singly_lists (act singly_lists (act singly_lists fresh pops) (pushes 5))
        (pop_resumes false))
      closes

handed_over-Reach : Reach singly_lists 8 handed_over
unfolding act initialize_sync_ll_queue push_sync_ll_queue pop_sync_ll_queue
handed_over-Reach =
    later
      (later (later (later initialized (acts pops (omega arith))) (acts (pushes 5) tt))
        (acts (pop_resumes false) (omega arith)))
      (acts closes tt)

handed_over_queue :
    (is_empty_sync_ll_queue singly_lists handed_over.sq ≡ true)
    × (get_threads_waiting_on_empty_sync_ll_queue singly_lists handed_over.sq ≡ 0)
    × (handed_over.sq.is_closed ≡ true)
unfolding act push_sync_ll_queue pop_sync_ll_queue pop_sync_ll_queue_woken close_sync_ll_queue
    is_empty_sync_ll_queue get_threads_waiting_on_empty_sync_ll_queue
handed_over_queue = (refl, refl, refl)

sync_ll_queue-IsLive_example : IsLive singly_lists singly_lists_laws handed_over
sync_ll_queue-IsLive_example =
    sync_ll_queue-IsLive singly_lists singly_lists_laws 8 handed_over handed_over-Reach
