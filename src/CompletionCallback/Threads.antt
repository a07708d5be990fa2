-- ===== src/CompletionCallback/Threads.antt =====
-- Threads that complete promises, whose callbacks push them to one queue
-- (src/promise_completion_default_callback.c, src/promise.c, src/sync_queue.c), and threads that pop
-- them from there.
use boom_par.Prelude.{
  ℕ, ◌≡◌, ◌≢◌, Bool, true, false, List, [], ◌∷◌, ◌++◌, Option, none, some, ◌==◌, if◌then◌else◌,
  Outcome, waits, returns,
}
use boom_par.Cutlery.Arraylist.{Arraylist}
use boom_par.Promise.{Promise, initialize_promise, set_promised_result, set_promised_callback}
use boom_par.Job.{update}
use boom_par.SyncQueue.{SyncQueue, pop_sync_queue, pop_sync_queue_woken, close_sync_queue}
use boom_par.CompletionCallback.{
  CallbackFunction, push_to_sync_queue_on_promise_completion_callback_function, other_function,
  PromiseCompletionCallback, push_to_sync_queue_on_promise_completion_callback, callback_pushes,
  callback_pushes_woken,
}

-- The promises by their addresses, and the threads, by their promise, that are about to run its
-- callback, or wait in its push. The last two are a record: the promises that the queue refused, which
-- the callback does not notice, and those that pops returned.
pub record System (A : Arraylist) : Type 0 where
  pub promises : ℕ → Promise
  pub sq : SyncQueue A
  pub calling : List ℕ
  pub pushing : List ℕ
  pub refused : List ℕ
  pub received : List ℕ

module _ (A : Arraylist) where
  abbrev calls : System A → ℕ → Option ℕ → System A
  calls s p none = s
  calls s p (some callback) = record s { calling = p ∷ s.calling }

  unfoldable pub set_result : System A → ℕ → ℕ → System A
  set_result s p res =
      let (promise, _, callback, _) = set_promised_result (s.promises p) res in
      calls (record s { promises = update s.promises p promise }) p callback

  unfoldable pub set_callback : System A → ℕ → ℕ → System A
  set_callback s p promised_callback =
      let (promise, callback, _) = set_promised_callback (s.promises p) promised_callback in
      calls (record s { promises = update s.promises p promise }) p callback

  abbrev pub behind_push : System A → ℕ → SyncQueue A → Outcome Bool → System A
  behind_push s p sq waits = record s { sq = sq; pushing = p ∷ s.pushing }
  behind_push s p sq (returns true) = record s { sq = sq }
  behind_push s p sq (returns false) = record s { sq = sq; refused = p ∷ s.refused }

  -- `callback_function(p, callback_param)`. Only the queue at `queue` is in the system; another function,
  -- or a push to another queue, does nothing here.
  abbrev pub call_function : CallbackFunction → ℕ → ℕ → System A → ℕ → System A
  call_function push_to_sync_queue_on_promise_completion_callback_function callback_param queue s
        p =
      let (sq, _, outcome) = callback_pushes A s.sq p in
      if callback_param == queue then behind_push s p sq outcome else s
  call_function (other_function f) callback_param queue s p = s

  unfoldable pub run_callback :
      (ℕ → PromiseCompletionCallback) → ℕ → System A → ℕ → List ℕ → System A
  run_callback callbacks queue s p rest =
      let callback = callbacks (s.promises p).promised_callback in
      call_function callback.callback_function callback.callback_param queue
        (record s { calling = rest }) p

  unfoldable pub callback_resumes : System A → ℕ → List ℕ → System A
  callback_resumes s p rest =
      let (sq, _, outcome) = callback_pushes_woken A s.sq p in
      behind_push (record s { pushing = rest }) p sq outcome

  abbrev pub behind_pop : System A → SyncQueue A → Outcome ℕ → System A
  behind_pop s sq waits = record s { sq = sq }
  behind_pop s sq (returns p) = record s {
    sq = sq;
    received = if p == 0 then s.received else p ∷ s.received;
  }

  unfoldable pub pop : System A → System A
  pop s = let (sq, _, outcome) = pop_sync_queue A s.sq in behind_pop s sq outcome

  unfoldable pub pop_resumes : System A → Bool → System A
  pop_resumes s wait_error =
      let (sq, _, outcome) = pop_sync_queue_woken A s.sq wait_error in behind_pop s sq outcome

  unfoldable pub close : System A → System A
  close s = record s { sq = (close_sync_queue A s.sq).0 }

  -- Threads get the locks in any order; pushers and poppers wake freely. `callbacks` has the callbacks
  -- by their addresses; only those for the queue at `queue` are set.
  pub data Step (callbacks : ℕ → PromiseCompletionCallback) (queue : ℕ) (s : System A)
      : System A → Type 0 where
    sets_result : (p res : ℕ) → Step callbacks queue s (set_result s p res)
    sets_callback :
        (p promised_callback : ℕ)
        → promised_callback ≢ 0
        → callbacks promised_callback ≡ push_to_sync_queue_on_promise_completion_callback queue
        → Step callbacks queue s (set_callback s p promised_callback)
    runs_callback :
        (p : ℕ) (before after : List ℕ)
        → s.calling ≡ before ++ p ∷ after
        → Step callbacks queue s (run_callback callbacks queue s p (before ++ after))
    callback_goes_on :
        (p : ℕ) (before after : List ℕ)
        → s.pushing ≡ before ++ p ∷ after
        → Step callbacks queue s (callback_resumes s p (before ++ after))
    pops : Step callbacks queue s (pop s)
    pop_goes_on : (wait_error : Bool) → Step callbacks queue s (pop_resumes s wait_error)
    closes : Step callbacks queue s (close s)

  pub data Reach (callbacks : ℕ → PromiseCompletionCallback) (queue : ℕ) (s : System A)
      : System A → Type 0 where
    here : Reach callbacks queue s s
    later :
        {t u : System A}
        → Reach callbacks queue s t
        → Step callbacks queue t u
        → Reach callbacks queue s u

  -- Nothing has happened yet.
  abbrev pub started : SyncQueue A → System A
  started sq = record {
    promises = λ p. initialize_promise;
    sq = sq;
    calling = [];
    pushing = [];
    refused = [];
    received = [];
  }
