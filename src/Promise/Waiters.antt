-- ===== src/Promise/Waiters.antt =====
-- Threads that wait for the result of a promise (src/promise.c).
use boom_par.Prelude.{ℕ, ◌≡◌, true, ◌∷◌, [], arith, waits, returns, broadcast}
use boom_par.Promise.{
  Promise, promise_wait, set_promised_result, set_promised_callback, get_promised_result,
}
use boom_par.Promise.Once.{Call, sets_result, sets_callback, after}

-- If `get_promised_result` waits, and behind a call of another thread it would return `res`, then
-- that call was `set_promised_result` of `res`, it reported success, and it has broadcast to all the
-- threads that wait.
pub result-wakes :
    (p : Promise) (c : Call) (res : ℕ)
    → get_promised_result p ≡ waits
    → get_promised_result (after p c) ≡ returns res
    → (c ≡ sets_result res)
      × ((set_promised_result p res).1 ≡ broadcast promise_wait ∷ [])
      × ((set_promised_result p res).3 ≡ true)
unfolding get_promised_result set_promised_result set_promised_callback
result-wakes p (sets_result r) res w h = ground arith
result-wakes p (sets_callback callback) res w h = ground arith
