-- ===== src/CompletionCallback/Announced.antt =====
-- Each promise that is completed is announced once (src/promise_completion_default_callback.c).
use boom_par.Prelude.{
  ℕ, ◌+◌, ◌≡◌, ◌≢◌, refl, sym, subst, ap, Bool, false, not, ◌&&◌, List, [], ◌∷◌, ◌++◌, some, arith,
  ◌==◌, if◌then◌else◌, Outcome,
}
use boom_par.Cutlery.Arraylist.{Arraylist, ArraylistLaws}
use boom_par.ClosableQueue.{Pushes, Pops}
use boom_par.Promise.{Promise, initialize_promise, set_promised_result, set_promised_callback}
use boom_par.SyncQueue.{
  SyncQueue, initialize_sync_queue, pop_sync_queue, pop_sync_queue_woken, close_sync_queue,
}
use boom_par.SyncQueue.Refines.{
  view, push_sync_queue-Pushes, push_sync_queue_woken-Pushes, pop_sync_queue-Pops,
  pop_sync_queue_woken-Pops,
}
use boom_par.CompletionCallback.{
  PromiseCompletionCallback, push_to_sync_queue_on_promise_completion_callback, callback_pushes,
  callback_pushes_woken,
}
use boom_par.CompletionCallback.Threads.{
  System, set_result, set_callback, behind_push, call_function, run_callback, callback_resumes,
  behind_pop, pop, pop_resumes, close, Step, sets_result, sets_callback, runs_callback,
  callback_goes_on, pops, pop_goes_on, closes, Reach, here, later, started,
}

-- How often a promise is in a list.
unfoldable pub times : ℕ → List ℕ → ℕ
times p [] = 0
times p (x ∷ xs) = (if x == p then 1 else 0) + times p xs

times-append : (p : ℕ) (xs ys : List ℕ) → times p (xs ++ ys) ≡ times p xs + times p ys
unfolding times
times-append p [] ys = omega arith
times-append p (x ∷ xs) ys = omega (arith, times-append p xs ys)

-- It has its result and its callback.
abbrev pub is_complete : Promise → Bool
is_complete promise = promise.output_result_ready && not (promise.promised_callback == 0)

module _ (A : Arraylist) (L : ArraylistLaws A) where
  -- How often the system has a promise: with a thread that runs its callback, in the queue, refused by
  -- it, or received from it.
  abbrev pub announced : System A → ℕ → ℕ
  announced s p =
      times p s.calling
      + times p s.pushing
      + times p s.refused
      + times p (view A L s.sq).items
      + times p s.received

  abbrev IsAnnounced : System A → ℕ → Type 0
  IsAnnounced s p = announced s p ≡ (if is_complete (s.promises p) then 1 else 0)

  set_result-IsAnnounced :
      (s : System A) (p q res : ℕ) → IsAnnounced s q → IsAnnounced (set_result A s p res) q
  unfolding set_result set_promised_result times
  set_result-IsAnnounced s p q res v = ground arith

  set_callback-IsAnnounced :
      (s : System A) (p q promised_callback : ℕ)
      → promised_callback ≢ 0
      → IsAnnounced s q
      → IsAnnounced (set_callback A s p promised_callback) q
  unfolding set_callback set_promised_callback times
  set_callback-IsAnnounced s p q promised_callback h v = ground arith

  -- A push of `p` by its callback.
  pushed-times :
      {cramped : Bool} (s : System A) (p q : ℕ) (sq : SyncQueue A) (outcome : Outcome Bool)
      → Pushes cramped (view A L s.sq) p (view A L sq) outcome
      → announced (behind_push A s p sq outcome) q ≡ announced s q + times q (p ∷ [])
  unfolding times
  pushed-times s p q sq outcome keeps =
      ground (arith, times-append q (view A L s.sq).items (p ∷ []), keeps)

  behind_pop-IsAnnounced :
      (s : System A) (q : ℕ) (wait_error : Bool) (sq : SyncQueue A) (outcome : Outcome ℕ)
      → q ≢ 0
      → Pops wait_error (view A L s.sq) (view A L sq) outcome
      → IsAnnounced s q
      → IsAnnounced (behind_pop A s sq outcome) q
  unfolding times
  behind_pop-IsAnnounced s q wait_error sq outcome h keeps v = ground (arith, keeps)

  -- The callback of a promise, if it is set, pushes to the queue at `queue`.
  abbrev IsDefault : (ℕ → PromiseCompletionCallback) → ℕ → System A → ℕ → Type 0
  IsDefault callbacks queue s p =
      (s.promises p).promised_callback ≢ 0
      → callbacks (s.promises p).promised_callback
        ≡ push_to_sync_queue_on_promise_completion_callback queue

  -- Calling the default function, for the queue at `queue`, pushes the promise; another function
  -- pushes no other one.
  call_function-times :
      (callback : PromiseCompletionCallback) (queue : ℕ) (s : System A) (p q : ℕ)
      → (p ≡ q → callback ≡ push_to_sync_queue_on_promise_completion_callback queue)
      → let s' = call_function A callback.callback_function callback.callback_param queue s p in
        (announced s' q ≡ announced s q + times q (p ∷ [])) × (s'.promises ≡ s.promises)
  unfolding push_to_sync_queue_on_promise_completion_callback times callback_pushes
  call_function-times callback queue s p q default =
      let (sq, _, outcome) = callback_pushes A s.sq p in
      ground (arith, pushed-times s p q sq outcome (push_sync_queue-Pushes A L s.sq p))

  run_callback-IsAnnounced :
      (callbacks : ℕ → PromiseCompletionCallback) (queue : ℕ) (s : System A) (p q : ℕ)
      (before after : List ℕ)
      → s.calling ≡ before ++ p ∷ after
      → IsDefault callbacks queue s q
      → IsAnnounced s q
      → IsAnnounced (run_callback A callbacks queue s p (before ++ after)) q
  unfolding run_callback times
  run_callback-IsAnnounced callbacks queue s p q before after e default v =
      let has_callback : p ≡ q → (s.promises p).promised_callback ≢ 0 =
        λ same. ground (arith, ap (times q) e, times-append q before (p ∷ after)) in
      let pushes_it : p ≡ q
          → callbacks (s.promises p).promised_callback
            ≡ push_to_sync_queue_on_promise_completion_callback queue =
        λ same. subst (IsDefault callbacks queue s) (sym same) default (has_callback same) in
      ground (
        arith,
        ap (times q) e,
        times-append q before (p ∷ after),
        times-append q before after,
        call_function-times (callbacks (s.promises p).promised_callback) queue
            (record s { calling = before ++ after }) p q pushes_it,
      )

  callback_resumes-IsAnnounced :
      (s : System A) (p q : ℕ) (before after : List ℕ)
      → s.pushing ≡ before ++ p ∷ after
      → IsAnnounced s q
      → IsAnnounced (callback_resumes A s p (before ++ after)) q
  unfolding callback_resumes callback_pushes_woken times
  callback_resumes-IsAnnounced s p q before after e v =
      let (sq, _, outcome) = callback_pushes_woken A s.sq p in
      ground (
        arith,
        ap (times q) e,
        times-append q before (p ∷ after),
        times-append q before after,
        pushed-times (record s { pushing = before ++ after }) p q sq outcome
            (push_sync_queue_woken-Pushes A L s.sq p false),
      )

  Step-IsDefault :
      (callbacks : ℕ → PromiseCompletionCallback) (queue q : ℕ) {s t : System A}
      → Step A callbacks queue s t
      → IsDefault callbacks queue s q
      → IsDefault callbacks queue t q
  unfolding set_result set_callback set_promised_result set_promised_callback run_callback
      callback_resumes pop pop_resumes close
  Step-IsDefault callbacks queue q {s} (sets_result p res) d = ground arith
  Step-IsDefault callbacks queue q {s} (sets_callback p callback n e) d = ground arith
  Step-IsDefault callbacks queue q {s} (runs_callback p before after e) d = ground arith
  Step-IsDefault callbacks queue q {s} (callback_goes_on p before after e) d = ground arith
  Step-IsDefault callbacks queue q {s} pops d = ground arith
  Step-IsDefault callbacks queue q {s} (pop_goes_on wait_error) d = ground arith
  Step-IsDefault callbacks queue q {s} closes d = d

  Step-IsAnnounced :
      (callbacks : ℕ → PromiseCompletionCallback) (queue q : ℕ) {s t : System A}
      → q ≢ 0
      → Step A callbacks queue s t
      → IsDefault callbacks queue s q
      → IsAnnounced s q
      → IsAnnounced t q
  unfolding pop pop_resumes close close_sync_queue
  Step-IsAnnounced callbacks queue q {s} h (sets_result p res) d v =
      set_result-IsAnnounced s p q res v
  Step-IsAnnounced callbacks queue q {s} h (sets_callback p callback n e) d v =
      set_callback-IsAnnounced s p q callback n v
  Step-IsAnnounced callbacks queue q {s} h (runs_callback p before after e) d v =
      run_callback-IsAnnounced callbacks queue s p q before after e d v
  Step-IsAnnounced callbacks queue q {s} h (callback_goes_on p before after e) d v =
      callback_resumes-IsAnnounced s p q before after e v
  Step-IsAnnounced callbacks queue q {s} h pops d v =
      behind_pop-IsAnnounced s q false (pop_sync_queue A s.sq).0 (pop_sync_queue A s.sq).2 h
        (pop_sync_queue-Pops A L s.sq) v
  Step-IsAnnounced callbacks queue q {s} h (pop_goes_on wait_error) d v =
      behind_pop-IsAnnounced s q wait_error (pop_sync_queue_woken A s.sq wait_error).0
        (pop_sync_queue_woken A s.sq wait_error).2 h (pop_sync_queue_woken-Pops A L s.sq wait_error)
        v
  Step-IsAnnounced callbacks queue q {s} h closes d v = v

  Reach-IsAnnounced :
      (callbacks : ℕ → PromiseCompletionCallback) (queue q : ℕ) {s t : System A}
      → q ≢ 0
      → IsDefault callbacks queue s q
      → IsAnnounced s q
      → Reach A callbacks queue s t
      → IsDefault callbacks queue t q × IsAnnounced t q
  Reach-IsAnnounced callbacks queue q h d v here = (d, v)
  Reach-IsAnnounced callbacks queue q h d v (later r step) =
      let (default, announces) = Reach-IsAnnounced callbacks queue q h d v r in
      (
        Step-IsDefault callbacks queue q step default,
        Step-IsAnnounced callbacks queue q h step default announces,
      )

  -- Threads set results and the default callback of promises that are new, with a new queue, and pop
  -- from the queue, and their sections come in any order. Then a promise that has both its result and
  -- its callback is exactly once with a thread that runs the callback, in the queue, refused by it,
  -- or received from it; a promise that lacks one of them is nowhere there. So the callback pushes
  -- each promise once, when the later one of the two is set.
  pub promise-announced_once :
      (callbacks : ℕ → PromiseCompletionCallback) (queue max_capacity : ℕ) (sq : SyncQueue A)
      (s : System A) (p : ℕ)
      → initialize_sync_queue A max_capacity ≡ some sq
      → p ≢ 0
      → Reach A callbacks queue (started A sq) s
      → announced s p ≡ (if is_complete (s.promises p) then 1 else 0)
  unfolding initialize_sync_queue initialize_promise times
  promise-announced_once callbacks queue max_capacity sq s p e h r =
      (Reach-IsAnnounced callbacks queue p h (λ n. absurd (n refl))
        (ground (arith, L.initialized 0 sq.qp)) r).1
