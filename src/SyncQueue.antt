-- ===== src/SyncQueue.antt =====
-- src/sync_queue.c and inc/boompar/sync_queue.h: a closable queue of pointers with waiting on both
-- ends, over Cutlery's arraylist. Each function is the code under `q_lock`, up to the next wait or
-- the unlock.
pub mod Fifo
pub mod Bounds
pub mod Threads
pub mod Refines
pub mod Wakeups
mod Tests
use boom_par.Prelude.{
  ℕ, ◌-◌, ◌*◌, ◌%◌, Bool, true, false, not, ◌&&◌, List, [], ◌∷◌, Option, none, some, ltb, leb, ◌==◌,
  if◌then◌else◌, word_size, add64, sub64, Notice, signal, broadcast, Outcome, waits, returns,
}
use boom_par.Cutlery.Arraylist.{Arraylist}

pub data Condition : Type 0 where
  q_empty_wait q_full_wait : Condition

-- `CY_UINT_MAX`
abbrev pub unbounded_sync_queue : ℕ
unbounded_sync_queue = word_size - 1

pub record SyncQueue (A : Arraylist) : Type 0 where
  pub q_empty_wait_thread_count : ℕ
  pub q_full_wait_thread_count : ℕ
  pub max_capacity : ℕ
  pub qp : A.Rep
  pub is_closed : Bool

module _ (A : Arraylist) where
  open A use {
    initialize_arraylist, is_full_arraylist, is_empty_arraylist, get_capacity_arraylist,
    get_element_count_arraylist, push_back_to_arraylist, get_front_of_arraylist,
    pop_front_from_arraylist, expand_arraylist, shrink_arraylist,
  }

  -- What a section does: the new state, its notices, and its outcome.
  abbrev pub Section : Type 0 → Type 0
  Section B = SyncQueue A × List (Notice Condition) × Outcome B

  abbrev initialized : ℕ → Option A.Rep → Option (SyncQueue A)
  initialized max_capacity none = none
  initialized max_capacity (some qp) = some (record {
    q_empty_wait_thread_count = 0;
    q_full_wait_thread_count = 0;
    max_capacity = max_capacity;
    qp = qp;
    is_closed = false;
  })

  unfoldable pub initialize_sync_queue : ℕ → Option (SyncQueue A)
  initialize_sync_queue max_capacity = initialized max_capacity (initialize_arraylist 0)

  -- `allocated` says whether `malloc` succeeded.
  pub new_sync_queue : Bool → ℕ → Option (SyncQueue A)
  unfolding initialize_sync_queue
  new_sync_queue allocated max_capacity =
      if allocated then initialize_sync_queue max_capacity else none

  pub has_sync_queue_capacity_crossed_max_capacity_limits_unsafe : SyncQueue A → Bool
  has_sync_queue_capacity_crossed_max_capacity_limits_unsafe sq =
      if sq.max_capacity == unbounded_sync_queue
      then false
      else leb sq.max_capacity (get_capacity_arraylist sq.qp)

  unfoldable pub get_max_capacity_sync_queue : SyncQueue A → ℕ
  get_max_capacity_sync_queue sq = sq.max_capacity

  unfoldable pub update_max_capacity_sync_queue : SyncQueue A → ℕ → Section (Unit {0})
  update_max_capacity_sync_queue sq new_max_capacity = (
    record sq { max_capacity = new_max_capacity },
    if is_full_arraylist sq.qp
          && ltb 0 sq.q_full_wait_thread_count
          && ltb sq.max_capacity new_max_capacity
        then broadcast q_full_wait ∷ []
        else [],
    returns tt,
  )

  unfoldable pub is_full_sync_queue : SyncQueue A → Bool
  is_full_sync_queue sq = is_full_arraylist sq.qp

  unfoldable pub is_empty_sync_queue : SyncQueue A → Bool
  is_empty_sync_queue sq = is_empty_arraylist sq.qp

  -- The condition of the loop in `push_sync_queue`.
  push_must_wait : SyncQueue A → Bool → Bool
  unfolding has_sync_queue_capacity_crossed_max_capacity_limits_unsafe
  push_must_wait sq wait_error =
      not sq.is_closed
      && is_full_arraylist sq.qp
      && has_sync_queue_capacity_crossed_max_capacity_limits_unsafe sq
      && not wait_error

  -- The list into which the code behind the loop pushes.
  pub room_for_push : SyncQueue A → A.Rep
  unfolding has_sync_queue_capacity_crossed_max_capacity_limits_unsafe
  room_for_push sq =
      if is_full_arraylist sq.qp
        && not (has_sync_queue_capacity_crossed_max_capacity_limits_unsafe sq)
      then expand_arraylist sq.qp
      else sq.qp

  -- The code behind the loop.
  push_locked : SyncQueue A → ℕ → Section Bool
  push_locked sq data_p =
      let (qp, is_pushed) = push_back_to_arraylist (room_for_push sq) data_p in
      if sq.is_closed then (sq, [], returns false) else (
        record sq { qp = qp },
        if is_pushed && ltb 0 sq.q_empty_wait_thread_count then signal q_empty_wait ∷ [] else [],
        returns is_pushed,
      )

  push_round : SyncQueue A → ℕ → Bool → Section Bool
  push_round sq data_p wait_error =
      if push_must_wait sq wait_error
      then (record sq { q_full_wait_thread_count = add64 sq.q_full_wait_thread_count 1 }, [], waits)
      else push_locked sq data_p

  -- The first round, and a later one behind a wait that returned `wait_error`.
  unfoldable pub push_sync_queue : SyncQueue A → ℕ → Section Bool
  unfolding push_round push_locked push_must_wait room_for_push
  push_sync_queue sq data_p = push_round sq data_p false

  unfoldable pub push_sync_queue_woken : SyncQueue A → ℕ → Bool → Section Bool
  unfolding push_round push_locked push_must_wait room_for_push
  push_sync_queue_woken sq data_p wait_error =
      push_round (record sq { q_full_wait_thread_count = sub64 sq.q_full_wait_thread_count 1 })
        data_p wait_error

  pop_must_wait : SyncQueue A → Bool → Bool
  pop_must_wait sq wait_error = not sq.is_closed && is_empty_arraylist sq.qp && not wait_error

  -- `shrink_arraylist`, if the list has more than thrice the space that it needs.
  pub trimmed : A.Rep → A.Rep
  trimmed qp =
      if ltb (3 * get_element_count_arraylist qp % word_size) (get_capacity_arraylist qp)
      then shrink_arraylist qp
      else qp

  -- The code behind the loop; NULL is returned if nothing was popped.
  pop_locked : SyncQueue A → Section ℕ
  pop_locked sq =
      let (qp, is_popped) = pop_front_from_arraylist sq.qp in
      (
        record sq { qp = trimmed qp },
        if not sq.is_closed && is_popped && ltb 0 sq.q_full_wait_thread_count
            then signal q_full_wait ∷ []
            else [],
        returns (if is_popped then get_front_of_arraylist sq.qp else 0),
      )

  pop_round : SyncQueue A → Bool → Section ℕ
  pop_round sq wait_error =
      if pop_must_wait sq wait_error
      then (
        record sq { q_empty_wait_thread_count = add64 sq.q_empty_wait_thread_count 1 },
        [],
        waits,
      )
      else pop_locked sq

  unfoldable pub pop_sync_queue : SyncQueue A → Section ℕ
  unfolding pop_round pop_locked pop_must_wait trimmed
  pop_sync_queue sq = pop_round sq false

  unfoldable pub pop_sync_queue_woken : SyncQueue A → Bool → Section ℕ
  unfolding pop_round pop_locked pop_must_wait trimmed
  pop_sync_queue_woken sq wait_error =
      pop_round (record sq { q_empty_wait_thread_count = sub64 sq.q_empty_wait_thread_count 1 })
        wait_error

  abbrev notice_if : Bool → Notice Condition → List (Notice Condition) → List (Notice Condition)
  notice_if true notice notices = notice ∷ notices
  notice_if false notice notices = notices

  unfoldable pub close_sync_queue : SyncQueue A → Section (Unit {0})
  close_sync_queue sq = (
    record sq { is_closed = true },
    if sq.is_closed
        then []
        else notice_if (ltb 0 sq.q_full_wait_thread_count) (broadcast q_full_wait)
            (notice_if (ltb 0 sq.q_empty_wait_thread_count) (broadcast q_empty_wait) []),
    returns tt,
  )

  unfoldable pub get_threads_waiting_on_empty_sync_queue : SyncQueue A → ℕ
  get_threads_waiting_on_empty_sync_queue sq = sq.q_empty_wait_thread_count

  unfoldable pub get_threads_waiting_on_full_sync_queue : SyncQueue A → ℕ
  get_threads_waiting_on_full_sync_queue sq = sq.q_full_wait_thread_count
