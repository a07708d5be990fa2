-- ===== src/ResourceUsageLimiter/Grants.antt =====
-- What a request is granted (src/resource_usage_limiter.c).
use boom_par.Prelude.{
  ℕ, ◌+◌, ◌-◌, ◌≤◌, ◌<◌, ◌≡◌, ◌⊎◌, Bool, List, arith, word_size, Notice, returns,
}
use boom_par.ResourceUsageLimiter.{
  ResourceUsageLimiter, Condition, get_resources_left, grant_resources, request_round,
  request_resources_from_resource_usage_limiter,
}

-- The counts are 64-bit words, and the limiter manages at least one resource.
pub record IsValid (rul : ResourceUsageLimiter) : Type 0 where
  pub counts : rul.resource_count < word_size
  pub granted : rul.resource_granted_count < word_size
  pub managed : 0 < rul.resource_count

pub get_resources_left-sub :
    (rul : ResourceUsageLimiter)
    → IsValid rul
    → get_resources_left rul ≡ rul.resource_count - rul.resource_granted_count
unfolding get_resources_left
get_resources_left-sub rul v = ground arith

-- How a request that returned `res` changed the limiter.
pub record Granted (before after : ResourceUsageLimiter) (least most res : ℕ) : Type 0 where
  pub counted : after.resource_granted_count ≡ before.resource_granted_count + res
  pub same_count : after.resource_count ≡ before.resource_count
  pub same_shutdown : after.shutdown_requested ≡ before.shutdown_requested
  pub sized :
      (res ≡ 0)
      ⊎ ((least ≤ res)
          × (res ≤ most)
          × (before.resource_granted_count + res ≤ before.resource_count))

grant_resources-Granted :
    (rul : ResourceUsageLimiter) (least most : ℕ) (break_out : Bool)
    → IsValid rul
    → least ≤ most
    → let (after, res) = grant_resources rul least most break_out in
      Granted rul after least most res
unfolding grant_resources
grant_resources-Granted rul least most break_out v h = ground (arith, get_resources_left-sub rul v)

-- A request that returns `res` has added exactly `res` to the granted count, with no overflow, and
-- changed nothing else; `res` is 0, or lies in the requested range and within the resources that
-- were left.
pub request-Granted :
    (rul after : ResourceUsageLimiter) (least most res : ℕ) (break_out : Bool)
    {notices : List (Notice Condition)}
    → IsValid rul
    → request_resources_from_resource_usage_limiter rul least most break_out
      ≡ (after, notices, returns res)
    → Granted rul after least most res
unfolding request_resources_from_resource_usage_limiter request_round
request-Granted rul after least most res break_out v h =
    ground (arith, grant_resources-Granted rul least most break_out v)
