-- ===== src/Promise.antt =====
-- src/promise.c and inc/boompar/promise.h: a result that is set once, with one completion callback.
-- Each function is the code under `promise_lock`; a callback that the code runs behind the unlock is
-- part of what the function returns.
pub mod Once
pub mod Waiters
pub mod Threads
mod Tests
use boom_par.Prelude.{
  ℕ, Bool, true, false, not, ◌&&◌, List, [], ◌∷◌, Option, none, some, ◌==◌, if◌then◌else◌, Notice,
  broadcast, Outcome, waits, returns,
}

-- Pointers are addresses, 0 for NULL; `promised_callback` is that of a `promise_completion_callback`.
pub record Promise : Type 0 where
  pub output_result_ready : Bool
  pub output_result : ℕ
  pub promised_callback : ℕ

pub data Condition : Type 0 where
  promise_wait : Condition

unfoldable pub initialize_promise : Promise
initialize_promise = record {
  output_result_ready = false;
  output_result = 0;
  promised_callback = 0;
}

-- `allocated` says whether `malloc` succeeded.
pub new_promise : Bool → Option Promise
unfolding initialize_promise
new_promise allocated = if allocated then some initialize_promise else none

-- The promise, the notices, the callback that is run behind the unlock, and the return value.
unfoldable pub set_promised_result :
    Promise → ℕ → Promise × List (Notice Condition) × Option ℕ × Bool
set_promised_result p res = if p.output_result_ready then (p, [], none, false) else (
  record p { output_result = res; output_result_ready = true },
  broadcast promise_wait ∷ [],
  if p.promised_callback == 0 then none else some p.promised_callback,
  true,
)

-- One round of the loop in `get_promised_result`.
unfoldable pub get_promised_result : Promise → Outcome ℕ
get_promised_result p = if p.output_result_ready then returns p.output_result else waits

pub is_promised_result_ready : Promise → Bool
is_promised_result_ready p = p.output_result_ready

-- The promise, the callback that is run behind the unlock, and the return value. The code does not
-- look whether the callback that it runs is null: `some 0` is a call through a null pointer.
unfoldable pub set_promised_callback : Promise → ℕ → Promise × Option ℕ × Bool
set_promised_callback p promised_callback =
    if p.promised_callback == 0
    then (
      record p { promised_callback = promised_callback },
      if p.output_result_ready then some promised_callback else none,
      true,
    )
    else (p, none, false)

pub deinitialize_promise : Promise → Promise
deinitialize_promise p = record p {
  promised_callback = 0;
  output_result_ready = false;
  output_result = 0;
}
