-- ===== src/ResourceUsageLimiter/Calls.antt =====
-- The calls that other threads make on a limiter (src/resource_usage_limiter.c), as data.
use boom_par.Prelude.{ℕ, ◌≤◌, ◌<◌, Bool, List, word_size, Notice, arith}
use boom_par.ResourceUsageLimiter.{
  ResourceUsageLimiter, Condition, Section, set_resource_count, request_round,
  request_resources_from_resource_usage_limiter, give_back_resources_to_resource_usage_limiter,
  break_out_from_resource_usage_limiter, shutdown_resource_usage_limiter,
}
use boom_par.ResourceUsageLimiter.Grants.{IsValid, get_resources_left-sub}

-- `wakes` is the next round of a request that slept; the flag of `requests` and `wakes` is the
-- value of the caller's own `*break_out`. `breaks_out` is for the flag of the thread under study.
pub data Call : Type 0 where
  requests : (least most : ℕ) → (break_out : Bool) → Call
  wakes : (least most : ℕ) → (break_out wait_error : Bool) → Call
  gives_back : (granted : ℕ) → Call
  sets : (resource_count : ℕ) → Call
  breaks_out : Call
  shuts_down : Call

-- A sleeper passed the range check before it slept, and a count is a word.
abbrev pub Fits : Call → Type 0
Fits (wakes least most break_out wait_error) = least ≤ most
Fits (sets resource_count) = resource_count < word_size
Fits _ = Unit

-- The limiter, and the flag of the thread under study.
pub record View : Type 0 where
  pub rul : ResourceUsageLimiter
  pub break_out : Bool

abbrev seen : {A : Type 0} → View → Section A → View × List (Notice Condition)
seen w (rul', notices, outcome) = (record w { rul = rul' }, notices)

unfoldable pub call : View → Call → View × List (Notice Condition)
unfolding set_resource_count request_round request_resources_from_resource_usage_limiter
    give_back_resources_to_resource_usage_limiter break_out_from_resource_usage_limiter
    shutdown_resource_usage_limiter
call w (requests least most flag) =
    seen w (request_resources_from_resource_usage_limiter w.rul least most flag)
call w (wakes least most flag wait_error) = seen w (request_round w.rul least most flag wait_error)
call w (gives_back granted) = seen w (give_back_resources_to_resource_usage_limiter w.rul granted)
call w (sets count) = seen w (set_resource_count w.rul count)
call w breaks_out =
    let (flag, notices) = break_out_from_resource_usage_limiter w.break_out in
    (record w { break_out = flag }, notices)
call w shuts_down = seen w (shutdown_resource_usage_limiter w.rul)

-- Every call keeps a limiter valid.
pub call-IsValid : (w : View) (c : Call) → Fits c → IsValid w.rul → IsValid (call w c).0.rul
unfolding call
call-IsValid w (requests least most flag) fits v = ground (arith, get_resources_left-sub w.rul v)
call-IsValid w (wakes least most flag wait_error) fits v =
    ground (arith, get_resources_left-sub w.rul v)
call-IsValid w c fits v = ground arith
