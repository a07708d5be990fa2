-- ===== src/SyncLlQueue.antt =====
-- src/sync_ll_queue.c and inc/boompar/sync_ll_queue.h: a closable queue of structs that are linked
-- through a node inside them, over Cutlery's singlylist. Only a pop waits. Each function is the code
-- under `q_lock`, up to the next wait or the unlock.
pub mod Refines
pub mod Wakeups
mod Tests
use boom_par.Prelude.{
  ℕ, Bool, true, false, not, ◌&&◌, List, [], ◌∷◌, Option, none, some, ltb, if◌then◌else◌, add64,
  sub64, Notice, signal, broadcast, Outcome, waits, returns,
}
use boom_par.Cutlery.Singlylist.{Singlylist}
use boom_par.SyncQueue.{Condition, q_empty_wait}

pub record SyncLlQueue (S : Singlylist) : Type 0 where
  pub q_empty_wait_thread_count : ℕ
  pub qp : S.Rep
  pub is_closed : Bool

module _ (S : Singlylist) where
  open S use {
    initialize_singlylist, is_empty_singlylist, insert_tail_in_singlylist, get_head_of_singlylist,
    remove_head_from_singlylist,
  }

  -- What a section does: the new state, its notices, and its outcome. The condition variable is
  -- `q_empty_wait`, as in the other queue.
  abbrev pub Section : Type 0 → Type 0
  Section B = SyncLlQueue S × List (Notice Condition) × Outcome B

  unfoldable pub initialize_sync_ll_queue : ℕ → SyncLlQueue S
  initialize_sync_ll_queue node_offset = record {
    q_empty_wait_thread_count = 0;
    qp = initialize_singlylist node_offset;
    is_closed = false;
  }

  -- `allocated` says whether `malloc` succeeded.
  pub new_sync_ll_queue : Bool → ℕ → Option (SyncLlQueue S)
  unfolding initialize_sync_ll_queue
  new_sync_ll_queue allocated node_offset =
      if allocated then some (initialize_sync_ll_queue node_offset) else none

  unfoldable pub is_empty_sync_ll_queue : SyncLlQueue S → Bool
  is_empty_sync_ll_queue sq = is_empty_singlylist sq.qp

  unfoldable pub push_sync_ll_queue : SyncLlQueue S → ℕ → Section Bool
  push_sync_ll_queue sq data_p =
      let (qp, is_pushed) = insert_tail_in_singlylist sq.qp data_p in
      if sq.is_closed then (sq, [], returns false) else (
        record sq { qp = qp },
        if is_pushed && ltb 0 sq.q_empty_wait_thread_count then signal q_empty_wait ∷ [] else [],
        returns is_pushed,
      )

  -- The condition of the loop in `pop_sync_ll_queue`.
  pop_must_wait : SyncLlQueue S → Bool → Bool
  pop_must_wait sq wait_error = not sq.is_closed && is_empty_singlylist sq.qp && not wait_error

  -- The code behind the loop; NULL is returned if nothing was popped.
  pop_locked : SyncLlQueue S → Section ℕ
  pop_locked sq =
      let (qp, is_popped) = remove_head_from_singlylist sq.qp in
      (record sq { qp = qp }, [], returns (if is_popped then get_head_of_singlylist sq.qp else 0))

  pop_round : SyncLlQueue S → Bool → Section ℕ
  pop_round sq wait_error =
      if pop_must_wait sq wait_error
      then (
        record sq { q_empty_wait_thread_count = add64 sq.q_empty_wait_thread_count 1 },
        [],
        waits,
      )
      else pop_locked sq

  -- The first round, and a later one behind a wait that returned `wait_error`.
  unfoldable pub pop_sync_ll_queue : SyncLlQueue S → Section ℕ
  unfolding pop_round pop_locked pop_must_wait
  pop_sync_ll_queue sq = pop_round sq false

  unfoldable pub pop_sync_ll_queue_woken : SyncLlQueue S → Bool → Section ℕ
  unfolding pop_round pop_locked pop_must_wait
  pop_sync_ll_queue_woken sq wait_error =
      pop_round (record sq { q_empty_wait_thread_count = sub64 sq.q_empty_wait_thread_count 1 })
        wait_error

  unfoldable pub close_sync_ll_queue : SyncLlQueue S → Section (Unit {0})
  close_sync_ll_queue sq = (
    record sq { is_closed = true },
    if sq.is_closed
        then []
        else if ltb 0 sq.q_empty_wait_thread_count
        then broadcast q_empty_wait ∷ []
        else [],
    returns tt,
  )

  unfoldable pub get_threads_waiting_on_empty_sync_ll_queue : SyncLlQueue S → ℕ
  get_threads_waiting_on_empty_sync_ll_queue sq = sq.q_empty_wait_thread_count
