-- ===== src/ResourceUsageLimiter/Tests.antt =====
-- Runs of the limiter (src/resource_usage_limiter.c), and its theorems at concrete limiters.
use boom_par.Prelude.{
  ◌+◌, ◌≤◌, ◌≡◌, ◌↔◌, refl, true, false, List, [], ◌∷◌, arith, waits, returns, some, none,
}
use boom_par.ResourceUsageLimiter.{
  ResourceUsageLimiter, new_resource_usage_limiter, delete_round, delete_resource_usage_limiter,
  get_resource_count, request_resources_from_resource_usage_limiter,
}
use boom_par.ResourceUsageLimiter.Grants.{IsValid}
use boom_par.ResourceUsageLimiter.Calls.{Call, requests, wakes, gives_back, breaks_out, View, call}
use boom_par.ResourceUsageLimiter.Wakeups.{woken, call-ends_wait}
use boom_par.ResourceUsageLimiter.History.{
  run, all_granted, all_returned, run-balance, run-within, run-after_shutdown,
}

-- Ten resources, seven of them granted.
abbrev busy : ResourceUsageLimiter
busy = record { resource_count = 10; resource_granted_count = 7; shutdown_requested = false }

busy-IsValid : IsValid busy
busy-IsValid = record { counts = omega arith; granted = omega arith; managed = omega arith }

abbrev view : View
view = record { rul = busy; break_out = false }

abbrev closing : View
closing = record { rul = record busy { shutdown_requested = true }; break_out = false }

new_limiter : new_resource_usage_limiter true 10 ≡ some (record busy { resource_granted_count = 0 })
unfolding new_resource_usage_limiter
new_limiter = refl

new_limiter_of_zero : new_resource_usage_limiter true 0 ≡ none
unfolding new_resource_usage_limiter
new_limiter_of_zero = refl

count_of_busy : get_resource_count busy ≡ 10
unfolding get_resource_count
count_of_busy = refl

delete_sleeps : (delete_resource_usage_limiter busy true).2 ≡ waits
unfolding delete_resource_usage_limiter
delete_sleeps = refl

request_sleeps : request_resources_from_resource_usage_limiter busy 4 6 false ≡ (busy, [], waits)
unfolding request_resources_from_resource_usage_limiter
request_sleeps = refl

call-ends_wait_example : (call view (gives_back 2)).1 ≡ woken
unfolding call
call-ends_wait_example = call-ends_wait view (gives_back 2) 4 tt busy-IsValid refl refl

-- One request sleeps, some resources come back, the sleeper is served.
abbrev day : List Call
day = requests 4 6 false ∷ gives_back 2 ∷ wakes 4 6 false false ∷ breaks_out ∷ []

run-balance_example :
    (run view day).rul.resource_granted_count + all_returned view day ≡ 7 + all_granted view day
run-balance_example = run-balance view day (omega arith) busy-IsValid

run-within_example : (run view day).rul.resource_granted_count ≤ 10
run-within_example =
    run-within view day (omega arith) (refl, (refl, (refl, (refl, tt)))) busy-IsValid (omega arith)

day_served : (run view day).rul.resource_granted_count ≡ 10
unfolding run call
day_served = refl

run-after_shutdown_example :
    let after = run closing (requests 1 1 false ∷ gives_back 7 ∷ []) in
    (after.rul.resource_count ≡ 10)
    × (all_granted closing (requests 1 1 false ∷ gives_back 7 ∷ []) ≡ 0)
    × ((delete_round after.rul true ≡ returns tt)
        ↔ (all_returned closing (requests 1 1 false ∷ gives_back 7 ∷ []) ≡ 7))
run-after_shutdown_example =
    run-after_shutdown closing (requests 1 1 false ∷ gives_back 7 ∷ []) (omega arith)
      (record { counts = omega arith; granted = omega arith; managed = omega arith }) refl
