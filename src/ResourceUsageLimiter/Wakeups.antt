-- ===== src/ResourceUsageLimiter/Wakeups.antt =====
-- No wake-up is missed (src/resource_usage_limiter.c): whatever ends a wait is broadcast.
use boom_par.Prelude.{
  ℕ, ◌+◌, ◌≤◌, ◌<◌, ◌≡◌, ◌⊎◌, inl, inr, Bool, true, false, List, [], ◌∷◌, arith, Notice, broadcast,
  waits, returns,
}
use boom_par.ResourceUsageLimiter.{
  ResourceUsageLimiter, Condition, resource_limiter_wait, must_wait, delete_round,
}
use boom_par.ResourceUsageLimiter.Grants.{IsValid, get_resources_left-sub}
use boom_par.ResourceUsageLimiter.Calls.{
  Call, requests, wakes, gives_back, Fits, View, call, call-IsValid,
}

-- The one broadcast that wakes every sleeper.
abbrev pub woken : List (Notice Condition)
woken = broadcast resource_limiter_wait ∷ []

-- What the loop condition says of a valid limiter.
abbrev Short : ResourceUsageLimiter → ℕ → Bool → Type 0
Short rul least break_out =
    (rul.shutdown_requested ≡ false)
    × (break_out ≡ false)
    × (rul.resource_count < rul.resource_granted_count + least)
    × (least ≤ rul.resource_count)
    × (0 < least)

must_wait-Short :
    (rul : ResourceUsageLimiter) (least : ℕ) (break_out : Bool)
    → IsValid rul
    → must_wait rul least break_out false ≡ true
    → Short rul least break_out
unfolding must_wait
must_wait-Short rul least break_out v h = ground (arith, get_resources_left-sub rul v)

Short-must_wait :
    (rul : ResourceUsageLimiter) (least : ℕ) (break_out : Bool)
    → IsValid rul
    → Short rul least break_out
    → must_wait rul least break_out false ≡ true
unfolding must_wait
Short-must_wait rul least break_out v h = ground (arith, get_resources_left-sub rul v)

-- A call leaves a short limiter short, or it has broadcast.
call-Short :
    (w : View) (c : Call) (least : ℕ)
    → Fits c
    → IsValid w.rul
    → Short w.rul least w.break_out
    → (Short (call w c).0.rul least (call w c).0.break_out) ⊎ ((call w c).1 ≡ woken)
unfolding call
call-Short w (requests low most flag) least fits v h =
    ground (arith, get_resources_left-sub w.rul v)
call-Short w (wakes low most flag wait_error) least fits v h =
    ground (arith, get_resources_left-sub w.rul v)
call-Short w (gives_back granted) least fits v h = ground (arith)
call-Short w c least fits v h = ground arith

-- If a request for at least `least` has to sleep, and after a call of any other thread it no longer
-- would, then that call has broadcast: the sleeper is woken, whether its resources came back, the
-- total changed, its flag was set or the limiter was shut down.
pub call-ends_wait :
    (w : View) (c : Call) (least : ℕ)
    → Fits c
    → IsValid w.rul
    → must_wait w.rul least w.break_out false ≡ true
    → must_wait (call w c).0.rul least (call w c).0.break_out false ≡ false
    → (call w c).1 ≡ woken
call-ends_wait w c least fits v h k = elim (call-Short w c least fits v short) [
  | inl still ↦ absurd (ground (arith, Short-must_wait _ least _ (call-IsValid w c fits v) still))
  | inr done ↦ done
]
  where
    short : Short w.rul least w.break_out
    short = must_wait-Short w.rul least w.break_out v h

-- If `delete_resource_usage_limiter` has to sleep until all resources are back, and after a call of
-- any other thread it no longer would, then that call has broadcast.
pub call-ends_delete :
    (w : View) (c : Call)
    → Fits c
    → IsValid w.rul
    → delete_round w.rul true ≡ waits
    → delete_round (call w c).0.rul true ≡ returns tt
    → (call w c).1 ≡ woken
unfolding call delete_round
call-ends_delete w (requests low most flag) fits v h k =
    ground (arith, get_resources_left-sub w.rul v)
call-ends_delete w (wakes low most flag wait_error) fits v h k =
    ground (arith, get_resources_left-sub w.rul v)
call-ends_delete w c fits v h k = ground arith
