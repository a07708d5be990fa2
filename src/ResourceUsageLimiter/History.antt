-- ===== src/ResourceUsageLimiter/History.antt =====
-- The limiter over any history of calls (src/resource_usage_limiter.c).
use boom_par.Prelude.{
  ℕ, ◌+◌, ◌≤◌, ◌≡◌, ◌↔◌, refl, Bool, true, false, List, [], ◌∷◌, arith, waits, returns,
}
use boom_par.ResourceUsageLimiter.{
  Section, request_round, delete_round, request_resources_from_resource_usage_limiter,
  give_back_resources_to_resource_usage_limiter,
}
use boom_par.ResourceUsageLimiter.Grants.{IsValid, get_resources_left-sub}
use boom_par.ResourceUsageLimiter.Calls.{
  Call, requests, wakes, gives_back, sets, Fits, View, call, call-IsValid,
}

abbrev pub AllFit : List Call → Type 0
AllFit [] = Unit
AllFit (c ∷ cs) = Fits c × AllFit cs

unfoldable pub run : View → List Call → View
run w [] = w
run w (c ∷ cs) = run (call w c).0 cs

abbrev returned : Section ℕ → ℕ
returned (rul, notices, waits) = 0
returned (rul, notices, returns res) = res

abbrev taken_back : ℕ → Section Bool → ℕ
taken_back n (rul, notices, returns true) = n
taken_back n (rul, notices, _) = 0

-- What a call was granted, by its return value.
pub grant_of : View → Call → ℕ
unfolding request_resources_from_resource_usage_limiter request_round
grant_of w (requests least most flag) =
    returned (request_resources_from_resource_usage_limiter w.rul least most flag)
grant_of w (wakes least most flag wait_error) =
    returned (request_round w.rul least most flag wait_error)
grant_of w c = 0

-- What a call gave back, if it returned 1.
pub return_of : View → Call → ℕ
unfolding give_back_resources_to_resource_usage_limiter
return_of w (gives_back n) = taken_back n (give_back_resources_to_resource_usage_limiter w.rul n)
return_of w c = 0

pub all_granted : View → List Call → ℕ
all_granted w [] = 0
all_granted w (c ∷ cs) = grant_of w c + all_granted (call w c).0 cs

pub all_returned : View → List Call → ℕ
all_returned w [] = 0
all_returned w (c ∷ cs) = return_of w c + all_returned (call w c).0 cs

call-balance :
    (w : View) (c : Call)
    → Fits c
    → IsValid w.rul
    → (call w c).0.rul.resource_granted_count + return_of w c
      ≡ w.rul.resource_granted_count + grant_of w c
unfolding call grant_of return_of
call-balance w (requests least most flag) fits v = ground (arith, get_resources_left-sub w.rul v)
call-balance w (wakes least most flag wait_error) fits v =
    ground (arith, get_resources_left-sub w.rul v)
call-balance w c fits v = ground arith

-- Over any history of calls the granted count is the initial one, plus all that requests returned,
-- minus all that was given back.
pub run-balance :
    (w : View) (cs : List Call)
    → AllFit cs
    → IsValid w.rul
    → (run w cs).rul.resource_granted_count + all_returned w cs
      ≡ w.rul.resource_granted_count + all_granted w cs
unfolding run all_granted all_returned
run-balance w [] fits v = refl
run-balance w (c ∷ cs) fits v = omega (
  arith,
  call-balance w c fits.0 v,
  run-balance (call w c).0 cs fits.1 (call-IsValid w c fits.0 v),
)

abbrev keeps_count : Call → Bool
keeps_count (sets count) = false
keeps_count _ = true

abbrev pub AllKeepCount : List Call → Type 0
AllKeepCount [] = Unit
AllKeepCount (c ∷ cs) = (keeps_count c ≡ true) × AllKeepCount cs

call-within :
    (w : View) (c : Call)
    → Fits c
    → IsValid w.rul
    → keeps_count c ≡ true
    → w.rul.resource_granted_count ≤ w.rul.resource_count
    → ((call w c).0.rul.resource_granted_count ≤ (call w c).0.rul.resource_count)
      × ((call w c).0.rul.resource_count ≡ w.rul.resource_count)
unfolding call
call-within w (requests least most flag) fits v k h = ground (arith, get_resources_left-sub w.rul v)
call-within w (wakes least most flag wait_error) fits v k h =
    ground (arith, get_resources_left-sub w.rul v)
call-within w c fits v k h = ground arith

-- While `set_resource_count` is not called, never more resources are granted than there are, over
-- any history of the other calls.
pub run-within :
    (w : View) (cs : List Call)
    → AllFit cs
    → AllKeepCount cs
    → IsValid w.rul
    → w.rul.resource_granted_count ≤ w.rul.resource_count
    → (run w cs).rul.resource_granted_count ≤ w.rul.resource_count
unfolding run
run-within w [] fits k v h = h
run-within w (c ∷ cs) fits k v h =
    let step = call-within w c fits.0 v k.0 h in
    omega (arith, run-within (call w c).0 cs fits.1 k.1 (call-IsValid w c fits.0 v) step.0)

call-shut :
    (w : View) (c : Call)
    → Fits c
    → IsValid w.rul
    → w.rul.shutdown_requested ≡ true
    → ((call w c).0.rul.shutdown_requested ≡ true)
      × ((call w c).0.rul.resource_count ≡ w.rul.resource_count)
      × (grant_of w c ≡ 0)
unfolding call grant_of
call-shut w (requests least most flag) fits v h = ground arith
call-shut w c fits v h = ground arith

run-shut :
    (w : View) (cs : List Call)
    → AllFit cs
    → IsValid w.rul
    → w.rul.shutdown_requested ≡ true
    → ((run w cs).rul.resource_count ≡ w.rul.resource_count) × (all_granted w cs ≡ 0)
unfolding run all_granted
run-shut w [] fits v h = (refl, refl)
run-shut w (c ∷ cs) fits v h =
    let step = call-shut w c fits.0 v h in
    let rest = run-shut (call w c).0 cs fits.1 (call-IsValid w c fits.0 v) step.0 in omega arith

-- After a shutdown nothing is granted and the total stays, over any history of calls; and
-- `delete_resource_usage_limiter` stops waiting exactly when all that was granted is back.
pub run-after_shutdown :
    (w : View) (cs : List Call)
    → AllFit cs
    → IsValid w.rul
    → w.rul.shutdown_requested ≡ true
    → ((run w cs).rul.resource_count ≡ w.rul.resource_count)
      × (all_granted w cs ≡ 0)
      × ((delete_round (run w cs).rul true ≡ returns tt)
          ↔ (all_returned w cs ≡ w.rul.resource_granted_count))
unfolding delete_round
run-after_shutdown w cs fits v h =
    let (same, none_granted) = run-shut w cs fits v h in
    let balance = run-balance w cs fits v in
    (same, none_granted, ((λ e. ground arith), (λ e. ground arith)))
