-- ===== src/CompletionCallback.antt =====
-- src/promise_completion_default_callback.c, inc/boompar/promise_completion_default_callbacks.h, and
-- the completion callbacks of inc/boompar/promise.h: a callback that pushes the promise that is
-- completed to a queue.
pub mod Threads
pub mod Announced
mod Tests
use boom_par.Prelude.{ℕ, Bool, false}
use boom_par.Cutlery.Arraylist.{Arraylist}
use boom_par.SyncQueue.{SyncQueue, Section, push_sync_queue, push_sync_queue_woken}

-- A callback function of this repository, or one of its user.
pub data CallbackFunction : Type 0 where
  push_to_sync_queue_on_promise_completion_callback_function : CallbackFunction
  other_function : ℕ → CallbackFunction

pub record PromiseCompletionCallback : Type 0 where
  pub callback_param : ℕ
  pub callback_function : CallbackFunction

-- `sq` is the address of the queue.
unfoldable pub push_to_sync_queue_on_promise_completion_callback : ℕ → PromiseCompletionCallback
push_to_sync_queue_on_promise_completion_callback sq = record {
  callback_param = sq;
  callback_function = push_to_sync_queue_on_promise_completion_callback_function;
}

module _ (A : Arraylist) where
  -- The body of the callback function on the queue that it is given, up to the first wait of its
  -- push, and behind a wait, which has no timeout. The code does not look at what the push returns,
  -- which here is the outcome.
  unfoldable pub callback_pushes : SyncQueue A → ℕ → Section A Bool
  callback_pushes sq p = push_sync_queue A sq p

  unfoldable pub callback_pushes_woken : SyncQueue A → ℕ → Section A Bool
  callback_pushes_woken sq p = push_sync_queue_woken A sq p false
