-- ===== src/CompletionCallback/Tests.antt =====
-- A run with a completion callback (src/promise_completion_default_callback.c), and its theorem there.
use boom_par.Prelude.{ℕ, ◌≡◌, refl, false, some, [], ◌∷◌, arith, if◌then◌else◌}
use boom_par.Cutlery.Instances.{array_lists, array_lists_laws}
use boom_par.Promise.{initialize_promise, set_promised_result, set_promised_callback}
use boom_par.SyncQueue.{SyncQueue, initialize_sync_queue, push_sync_queue}
use boom_par.CompletionCallback.{
  PromiseCompletionCallback, push_to_sync_queue_on_promise_completion_callback, callback_pushes,
}
use boom_par.CompletionCallback.Threads.{
  System, set_result, set_callback, run_callback, sets_result, sets_callback, runs_callback, Reach,
  here, later, started,
}
use boom_par.CompletionCallback.Announced.{is_complete, announced, promise-announced_once}

-- A queue of capacity 2 at the address 500.
abbrev new_queue : SyncQueue array_lists
new_queue = record {
  max_capacity = 2;
  qp = record { capacity = 0; list = [] };
  q_empty_wait_thread_count = 0;
  q_full_wait_thread_count = 0;
  is_closed = false;
}

abbrev callbacks : ℕ → PromiseCompletionCallback
callbacks address = push_to_sync_queue_on_promise_completion_callback 500

initialized : initialize_sync_queue array_lists 2 ≡ some new_queue
unfolding initialize_sync_queue
initialized = refl

-- The promise at 7 gets its result, and then its callback, which pushes it.
abbrev with_result : System array_lists
with_result = set_result array_lists (started array_lists new_queue) 7 70

abbrev with_both : System array_lists
with_both = set_callback array_lists with_result 7 3

abbrev pushed : System array_lists
pushed = run_callback array_lists callbacks 500 with_both 7 []

about_to_push : with_both.calling ≡ 7 ∷ []
unfolding set_result set_callback set_promised_result set_promised_callback initialize_promise
about_to_push = refl

in_the_queue : pushed.sq.qp.list ≡ 7 ∷ []
unfolding set_result set_callback run_callback callback_pushes push_sync_queue
    push_to_sync_queue_on_promise_completion_callback set_promised_result set_promised_callback
    initialize_promise
in_the_queue = refl

pushed-Reach : Reach array_lists callbacks 500 (started array_lists new_queue) pushed
pushed-Reach =
    later (later (later here (sets_result 7 70)) (sets_callback 7 3 (λ e. omega arith) refl))
      (runs_callback 7 [] [] about_to_push)

promise-announced_once_example :
    announced array_lists array_lists_laws pushed 7
    ≡ (if is_complete (pushed.promises 7) then 1 else 0)
promise-announced_once_example =
    promise-announced_once array_lists array_lists_laws callbacks 500 2 new_queue pushed 7
      initialized (λ e. omega arith) pushed-Reach
