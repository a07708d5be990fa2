-- ===== src/SyncQueue/Tests.antt =====
-- Runs of a queue (src/sync_queue.c) over the list with its capacity, and its theorems there.
use boom_par.Prelude.{
  ◌≡◌, ◌≤◌, length, returns, refl, true, false, List, [], ◌∷◌, ◌++◌, some, arith,
}
use boom_par.Cutlery.Instances.{
  array_lists, array_lists_laws, array_lists-makes_room, array_lists-space,
}
use boom_par.SyncQueue.{
  push_sync_queue_woken, update_max_capacity_sync_queue, SyncQueue, initialize_sync_queue,
  new_sync_queue, push_sync_queue, pop_sync_queue, pop_sync_queue_woken, close_sync_queue,
  is_full_sync_queue, is_empty_sync_queue, get_max_capacity_sync_queue,
  get_threads_waiting_on_empty_sync_queue, get_threads_waiting_on_full_sync_queue,
}
use boom_par.SyncQueue.Fifo.{
  Call, pushes, push_resumes, updates, pops, pop_resumes, closes, items, run, all_pushed,
  all_popped, run-fifo,
}
use boom_par.SyncQueue.Bounds.{sync_queue-within}
use boom_par.SyncQueue.Threads.{System, act, acts, Reach, here, later}
use boom_par.SyncQueue.Wakeups.{IsLive, start, sync_queue-IsLive}

-- An empty queue of capacity 2, and one that holds two pointers and is closed.
abbrev fresh : SyncQueue array_lists
fresh = record {
  q_empty_wait_thread_count = 0;
  q_full_wait_thread_count = 0;
  max_capacity = 2;
  qp = record { capacity = 0; list = [] };
  is_closed = false;
}

abbrev closed : SyncQueue array_lists
closed = record fresh { qp = record { capacity = 3; list = 5 ∷ 6 ∷ [] }; is_closed = true }

new_queue : new_sync_queue array_lists true 2 ≡ some fresh
unfolding new_sync_queue
new_queue = refl

getters :
    (is_full_sync_queue array_lists fresh ≡ true)
    × (is_empty_sync_queue array_lists fresh ≡ true)
    × (get_max_capacity_sync_queue array_lists fresh ≡ 2)
    × (get_threads_waiting_on_empty_sync_queue array_lists (pop_sync_queue array_lists fresh).0 ≡ 1)
    × (get_threads_waiting_on_full_sync_queue array_lists fresh ≡ 0)
unfolding is_full_sync_queue is_empty_sync_queue get_max_capacity_sync_queue
    get_threads_waiting_on_empty_sync_queue get_threads_waiting_on_full_sync_queue pop_sync_queue
getters = (refl, refl, refl, refl, refl)

-- The popper sleeps, the push signals it, and it takes the pointer.
abbrev handover : List Call
handover = pops ∷ pushes 5 ∷ pop_resumes false ∷ pushes 6 ∷ closes ∷ []

-- A capacity of 2 does not keep the queue from holding three pointers: the list grew from 1 to 3.
overshoots :
    items array_lists array_lists_laws (run array_lists fresh (pushes 5 ∷ pushes 6 ∷ pushes 7 ∷ []))
    ≡ 5 ∷ 6 ∷ 7 ∷ []
unfolding run push_sync_queue
overshoots = refl

-- The fourth push waits, and is refused at its timeout.
abbrev four_pushes : List Call
four_pushes = pushes 5 ∷ pushes 6 ∷ pushes 7 ∷ pushes 8 ∷ push_resumes 8 true ∷ []

sync_queue-within_example :
    length (items array_lists array_lists_laws (run array_lists fresh four_pushes)) ≤ 4
unfolding initialize_sync_queue
sync_queue-within_example =
    sync_queue-within array_lists array_lists_laws 2 4 (array_lists-space 2) (omega arith) 2 fresh
      four_pushes (omega arith) refl tt

run-fifo_example :
    all_pushed array_lists fresh handover
    ≡ all_popped array_lists fresh handover
      ++ items array_lists array_lists_laws (run array_lists fresh handover)
run-fifo_example = run-fifo array_lists array_lists_laws fresh handover (omega arith) tt

handover_pops : all_popped array_lists fresh handover ≡ 5 ∷ []
unfolding all_popped run push_sync_queue pop_sync_queue pop_sync_queue_woken close_sync_queue
handover_pops = refl

-- One popper sleeps, and is signalled by a push.
abbrev signalled_popper : System array_lists
signalled_popper =
    act array_lists
      (act array_lists (start array_lists array_lists_laws array_lists-makes_room fresh) pops)
      (pushes 5)

signalled_popper-Reach :
    Reach array_lists
      (start array_lists array_lists_laws array_lists-makes_room fresh)
      signalled_popper
unfolding act pop_sync_queue
signalled_popper-Reach =
    later (later here (acts pops (omega arith))) (acts (pushes 5) (omega arith))

sync_queue-IsLive_example :
    IsLive array_lists array_lists_laws array_lists-makes_room signalled_popper
unfolding initialize_sync_queue
sync_queue-IsLive_example =
    sync_queue-IsLive array_lists array_lists_laws array_lists-makes_room 2 fresh signalled_popper
      (omega arith) refl signalled_popper-Reach

popper_is_woken : signalled_popper.poppers ≡ record { asleep = 0; woken = 1 }
unfolding act pop_sync_queue push_sync_queue
popper_is_woken = refl

-- Three pointers fill the list of a queue of capacity 2, and two pushers sleep. A pop signals one of
-- them; the capacity is raised to 10, when the list is not full; and the woken pusher pushes.
abbrev raised_late : List Call
raised_late =
    pushes 5
    ∷ pushes 6
    ∷ pushes 7
    ∷ pushes 8
    ∷ pushes 9
    ∷ pops
    ∷ updates 10
    ∷ push_resumes 8 false
    ∷ []

abbrev act_all : System array_lists → List Call → System array_lists
act_all s [] = s
act_all s (c ∷ cs) = act_all (act array_lists s c) cs

-- The other pusher sleeps on, and no thread is on its way to wake it, though there is room for its
-- pointer: a push of another thread goes through.
pusher_overslept :
    let s = act_all (start array_lists array_lists_laws array_lists-makes_room fresh) raised_late in
    (s.pushers ≡ record { asleep = 1; woken = 0 })
    × (s.sq.max_capacity ≡ 10)
    × (items array_lists array_lists_laws s.sq ≡ 6 ∷ 7 ∷ 8 ∷ [])
    × ((push_sync_queue array_lists s.sq 11).2 ≡ returns true)
unfolding act push_sync_queue push_sync_queue_woken pop_sync_queue update_max_capacity_sync_queue
pusher_overslept = (refl, refl, refl, refl)
