-- ===== src/Promise/Threads.antt =====
-- The threads that wait for the result of a promise, and those that set it, interleaved in any order
-- (src/promise.c).
use boom_par.Prelude.{
  ℕ, ◌+◌, ◌<◌, ◌≡◌, ◌⊎◌, inl, inr, refl, Bool, true, false, List, [], ◌∷◌, ◌++◌, arith, Outcome,
  waits, returns, Sleepers, told, resumed, roused,
}
use boom_par.Promise.{
  Promise, Condition, promise_wait, initialize_promise, set_promised_result, set_promised_callback,
  get_promised_result,
}

-- `tried` has the results that set_promised_result was called with, in order, and `got` what calls of
-- get_promised_result returned.
pub record System : Type 0 where
  pub p : Promise
  pub getters : Sleepers
  pub tried : List ℕ
  pub got : List ℕ

abbrev on_result : Condition → Bool
on_result promise_wait = true

unfoldable pub set_result : System → ℕ → System
set_result s res =
    let (p, notices, _, _) = set_promised_result s.p res in
    record s { p = p; getters = told on_result notices s.getters; tried = s.tried ++ res ∷ [] }

abbrev behind_get : System → Sleepers → Outcome ℕ → System
behind_get s getters waits = record s { getters = record getters { asleep = getters.asleep + 1 } }
behind_get s getters (returns res) = record s { getters = getters; got = res ∷ s.got }

unfoldable pub get : System → System
get s = behind_get s s.getters (get_promised_result s.p)

unfoldable pub get_resumes : System → System
get_resumes s = behind_get s (resumed s.getters) (get_promised_result s.p)

-- Threads get the lock in any order, and wake at a notice or for no reason.
pub data Step (s : System) : System → Type 0 where
  sets_result : (res : ℕ) → Step s (set_result s res)
  sets_callback :
      (promised_callback : ℕ)
      → Step s (record s { p = (set_promised_callback s.p promised_callback).0 })
  gets : Step s (get s)
  get_goes_on : 0 < s.getters.woken → Step s (get_resumes s)
  rouses_getter : 0 < s.getters.asleep → Step s (record s { getters = roused s.getters })

pub data Reach (s : System) : System → Type 0 where
  here : Reach s s
  later : {t u : System} → Reach s t → Step t u → Reach s u

abbrev pub started : System
started = record {
  p = initialize_promise;
  getters = record { asleep = 0; woken = 0 };
  tried = [];
  got = [];
}

abbrev pub AllAre : ℕ → List ℕ → Type 0
AllAre res [] = Unit
AllAre res (x ∷ xs) = (x ≡ res) × AllAre res xs

-- No result was tried, and none was got; or the first that was tried is what was got, and no thread
-- sleeps.
abbrev pub IsKept : System → Type 0
IsKept s =
    ((s.p.output_result_ready ≡ false) × (s.tried ≡ []) × (s.got ≡ []))
    ⊎ ((res : ℕ) × (rest : List ℕ) × (s.p.output_result_ready ≡ true)
        × (s.tried ≡ res ∷ rest)
        × (s.p.output_result ≡ res)
        × AllAre res s.got
        × (s.getters.asleep ≡ 0))

Step-IsKept : {s t : System} → Step s t → IsKept s → IsKept t
unfolding set_result get get_resumes set_promised_result set_promised_callback get_promised_result
Step-IsKept {s} (sets_result r) (inl (unset, none_tried, none_got)) =
    inr (r, [], ground arith, ground arith, ground arith, ground arith, ground arith)
Step-IsKept {s} (sets_result r) (inr (res, rest, set, is_tried, is, is_got, none_asleep)) =
    inr (res, rest ++ r ∷ [], ground arith, ground arith, ground arith, ground arith, ground arith)
Step-IsKept {s} (sets_callback c) (inl v) = inl (ground arith)
Step-IsKept {s} (sets_callback c) (inr (res, rest, set, is_tried, is, is_got, none_asleep)) =
    inr (res, rest, ground arith, ground arith, ground arith, ground arith, ground arith)
Step-IsKept {s} gets (inl v) = inl (ground arith)
Step-IsKept {s} gets (inr (res, rest, set, is_tried, is, is_got, none_asleep)) =
    inr (res, rest, ground arith, ground arith, ground arith, ground arith, ground arith)
Step-IsKept {s} (get_goes_on h) (inl v) = inl (ground arith)
Step-IsKept {s} (get_goes_on h) (inr (res, rest, set, is_tried, is, is_got, none_asleep)) =
    inr (res, rest, ground arith, ground arith, ground arith, ground arith, ground arith)
Step-IsKept {s} (rouses_getter h) (inl v) = inl (ground arith)
Step-IsKept {s} (rouses_getter h) (inr (res, rest, set, is_tried, is, is_got, none_asleep)) =
    inr (res, rest, ground arith, ground arith, ground arith, ground arith, ground arith)

-- Any number of threads set the result and a callback of a new promise, and wait for the result, and
-- their sections come in any order. Then either no thread has tried to set the result, and no call of
-- get_promised_result has returned; or every call of it that returned gave the result that was tried
-- first, and no thread is asleep in it any more.
pub promise-IsKept : (s : System) → Reach started s → IsKept s
unfolding initialize_promise
promise-IsKept s here = inl (refl, refl, refl)
promise-IsKept s (later r step) = Step-IsKept step (promise-IsKept _ r)
