-- ===== src/ResourceUsageLimiter.antt =====
-- src/resource_usage_limiter.c and inc/boompar/resource_usage_limiter.h: the counting limiter.
-- Each function is the code between taking `resource_limiter_lock` and the next wait or unlock.
pub mod Grants
pub mod Calls
pub mod Wakeups
pub mod History
mod Tests
use boom_par.Prelude.{
  ℕ, ◌-◌, min, max, Bool, true, false, not, ◌&&◌, List, [], ◌∷◌, Option, none, some, ltb, leb, ◌==◌,
  if◌then◌else◌, add64, sub64, Notice, broadcast, Outcome, waits, returns,
}

pub record ResourceUsageLimiter : Type 0 where
  pub resource_count : ℕ
  pub resource_granted_count : ℕ
  pub shutdown_requested : Bool

-- The one condition variable of the struct.
pub data Condition : Type 0 where
  resource_limiter_wait : Condition

-- What a section does: the new state, its notices, and its outcome.
abbrev pub Section : Type 0 → Type 0
Section A = ResourceUsageLimiter × List (Notice Condition) × Outcome A

-- `allocated` says whether `malloc` succeeded.
pub new_resource_usage_limiter : Bool → ℕ → Option ResourceUsageLimiter
new_resource_usage_limiter allocated resource_count =
    if resource_count == 0
    then none
    else if allocated
    then some (record {
      resource_count = resource_count;
      resource_granted_count = 0;
      shutdown_requested = false;
    })
    else none

pub get_resource_count : ResourceUsageLimiter → ℕ
get_resource_count rul = rul.resource_count

pub set_resource_count : ResourceUsageLimiter → ℕ → Section Bool
set_resource_count rul new_resource_count =
    if new_resource_count == 0
    then (rul, [], returns false)
    else if rul.shutdown_requested
    then (rul, [], returns false)
    else if rul.resource_count == new_resource_count
    then (rul, [], returns true)
    else (
      record rul { resource_count = new_resource_count },
      broadcast resource_limiter_wait ∷ [],
      returns true,
    )

pub get_resources_left : ResourceUsageLimiter → ℕ
get_resources_left rul =
    if leb rul.resource_granted_count rul.resource_count
    then sub64 rul.resource_count rul.resource_granted_count
    else 0

-- The condition of the `while` loop.
pub must_wait : ResourceUsageLimiter → ℕ → Bool → Bool → Bool
unfolding get_resources_left
must_wait rul min_resource_count break_out wait_error =
    not rul.shutdown_requested
    && not break_out
    && ltb (get_resources_left rul) min_resource_count
    && leb min_resource_count rul.resource_count
    && not wait_error

-- The code behind the loop.
pub grant_resources : ResourceUsageLimiter → ℕ → ℕ → Bool → ResourceUsageLimiter × ℕ
unfolding get_resources_left
grant_resources rul min_resource_count max_resource_count break_out =
    let resources_left = get_resources_left rul in
    let res = max (min resources_left max_resource_count) min_resource_count in
    if not rul.shutdown_requested && not break_out && leb min_resource_count resources_left
    then (record rul { resource_granted_count = add64 rul.resource_granted_count res }, res)
    else (rul, 0)

-- One round of the loop: `wait_error` is 0 at first, and then what the timed wait returned.
-- `break_out` is the value of `*break_out` when the round begins.
pub request_round : ResourceUsageLimiter → ℕ → ℕ → Bool → Bool → Section ℕ
unfolding must_wait grant_resources
request_round rul min_resource_count max_resource_count break_out wait_error =
    if must_wait rul min_resource_count break_out wait_error
    then (rul, [], waits)
    else let (rul', res) = grant_resources rul min_resource_count max_resource_count break_out in
      (rul', [], returns res)

pub request_resources_from_resource_usage_limiter : ResourceUsageLimiter → ℕ → ℕ → Bool → Section ℕ
unfolding request_round
request_resources_from_resource_usage_limiter rul min_resource_count max_resource_count break_out =
    if ltb max_resource_count min_resource_count
    then (rul, [], returns 0)
    else if max_resource_count == 0
    then (rul, [], returns 0)
    else request_round rul min_resource_count max_resource_count break_out false

pub give_back_resources_to_resource_usage_limiter : ResourceUsageLimiter → ℕ → Section Bool
unfolding get_resources_left
give_back_resources_to_resource_usage_limiter rul granted_resource_count =
    let rul' = record rul {
      resource_granted_count = sub64 rul.resource_granted_count granted_resource_count;
    } in
    if granted_resource_count == 0
    then (rul, [], returns true)
    else if leb granted_resource_count rul.resource_granted_count
    then (
      rul',
      if ltb 0 (get_resources_left rul') then broadcast resource_limiter_wait ∷ [] else [],
      returns true,
    )
    else (rul, [], returns false)

-- The new value of `*break_out`, and the notices; the limiter itself does not change.
pub break_out_from_resource_usage_limiter : Bool → Bool × List (Notice Condition)
break_out_from_resource_usage_limiter break_out =
    if break_out then (true, []) else (true, broadcast resource_limiter_wait ∷ [])

pub shutdown_resource_usage_limiter : ResourceUsageLimiter → Section (Unit {0})
shutdown_resource_usage_limiter rul =
    (record rul { shutdown_requested = true }, broadcast resource_limiter_wait ∷ [], returns tt)

-- One round of the loop in `delete_resource_usage_limiter`, after the shutdown. When it returns,
-- the struct is freed.
pub delete_round : ResourceUsageLimiter → Bool → Outcome (Unit {0})
delete_round rul wait_for_resources_to_be_returned =
    if wait_for_resources_to_be_returned && ltb 0 rul.resource_granted_count
    then waits
    else returns tt

pub delete_resource_usage_limiter : ResourceUsageLimiter → Bool → Section (Unit {0})
unfolding shutdown_resource_usage_limiter delete_round
delete_resource_usage_limiter rul wait_for_resources_to_be_returned =
    let (rul', notices, _) = shutdown_resource_usage_limiter rul in
    (rul', notices, delete_round rul' wait_for_resources_to_be_returned)
