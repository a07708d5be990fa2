-- ===== src/Promise/Tests.antt =====
-- Runs of a promise (src/promise.c), and its theorems at concrete histories.
use boom_par.Prelude.{ap, ◌≡◌, refl, true, false, List, [], ◌∷◌, some, arith, returns}
use boom_par.Promise.{
  initialize_promise, new_promise, set_promised_result, get_promised_result,
  is_promised_result_ready, set_promised_callback, deinitialize_promise,
}
use boom_par.Promise.Threads.{
  System, get, set_result, get_resumes, started, sets_result, gets, get_goes_on, Reach, here, later,
  IsKept, promise-IsKept,
}
use boom_par.Promise.Once as Once
use boom_par.Promise.Once.{Call, run, callbacks, run-once, null_callback-called}

-- The result is set first; a second result and a second callback are refused.
abbrev late_callback : List Call
late_callback =
    Once.sets_result 7 ∷ Once.sets_callback 3 ∷ Once.sets_result 8 ∷ Once.sets_callback 4 ∷ []

late_callback_runs : callbacks initialize_promise late_callback ≡ 3 ∷ []
unfolding callbacks initialize_promise set_promised_result set_promised_callback
late_callback_runs = refl

new_is_initialized : new_promise true ≡ some initialize_promise
unfolding new_promise
new_is_initialized = refl

not_ready : is_promised_result_ready (deinitialize_promise initialize_promise) ≡ false
unfolding is_promised_result_ready deinitialize_promise
not_ready = refl

run-once_example :
    (get_promised_result (run initialize_promise late_callback) ≡ returns 7)
    × (callbacks initialize_promise late_callback ≡ 3 ∷ [])
run-once_example = run-once late_callback ((λ e. omega arith), ((λ e. omega arith), tt))

null_callback-called_example :
    let (p, callback, accepted) =
      set_promised_callback
        (run initialize_promise (Once.sets_result 7 ∷ Once.sets_callback 0 ∷ []))
        0 in
    (callback ≡ some 0) × (accepted ≡ true)
null_callback-called_example =
    null_callback-called (Once.sets_result 7 ∷ Once.sets_callback 0 ∷ []) 7 (refl, tt) refl

-- A thread waits; the result 7 is set, and then refused a second time; and the thread goes on.
abbrev waited : System
waited = get_resumes (set_result (set_result (get started) 7) 8)

one_woken : (set_result (set_result (get started) 7) 8).getters ≡ record { asleep = 0; woken = 1 }
unfolding get set_result get_promised_result set_promised_result initialize_promise
one_woken = refl

waited-Reach : Reach started waited
waited-Reach =
    later (later (later (later here gets) (sets_result 7)) (sets_result 8))
      (get_goes_on (omega (arith, ap (λ s. s.woken) one_woken)))

promise-IsKept_example : IsKept waited
promise-IsKept_example = promise-IsKept waited waited-Reach
