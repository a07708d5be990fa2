-- ===== src/SyncPipe.antt =====
-- src/sync_pipe.c and inc/boompar/sync_pipe.h: a pipe of bytes with waiting on both ends, over
-- Cutlery's dpipe. Each function is the code under `sync_pipe_lock`, up to the next wait or the unlock;
-- as a round of its loop reads nothing that an earlier one left, a later round is the same function.
pub mod Stream
pub mod RoundTrip
pub mod Wakeups
mod Tests
use boom_par.Prelude.{
  ℕ, ◌+◌, ◌*◌, ◌%◌, min, Bool, true, false, not, ◌&&◌, List, [], ◌∷◌, Option, none, some, length,
  ltb, ◌==◌, if◌then◌else◌, word_size, Notice, broadcast, Outcome, waits, returns,
}
use boom_par.Cutlery.Dpipe.{Dpipe}

pub data Condition : Type 0 where
  sync_pipe_empty sync_pipe_full : Condition

pub record SyncPipe (D : Dpipe) : Type 0 where
  pub max_capacity : ℕ
  pub pyp : D.Rep

module _ (D : Dpipe) where
  open D use {
    initialize_dpipe, is_dpipe_closed, close_dpipe, is_full_dpipe, is_empty_dpipe,
    get_capacity_dpipe, get_bytes_readable_in_dpipe, get_bytes_writable_in_dpipe, resize_dpipe,
    write_to_dpipe, read_from_dpipe,
  }

  -- What a section does: the new state, its notices, and its outcome.
  abbrev pub Section : Type 0 → Type 0
  Section B = SyncPipe D × List (Notice Condition) × Outcome B

  abbrev initialized : ℕ → Option D.Rep → Option (SyncPipe D)
  initialized max_capacity none = none
  initialized max_capacity (some pyp) = some (record { max_capacity = max_capacity; pyp = pyp })

  unfoldable pub initialize_sync_pipe : ℕ → Option (SyncPipe D)
  initialize_sync_pipe max_capacity = initialized max_capacity (initialize_dpipe 0)

  -- `allocated` says whether `malloc` succeeded.
  pub new_sync_pipe : Bool → ℕ → Option (SyncPipe D)
  unfolding initialize_sync_pipe
  new_sync_pipe allocated max_capacity =
      if allocated then initialize_sync_pipe max_capacity else none

  -- The condition of the loop in `write_to_sync_pipe`.
  pub write_must_wait : SyncPipe D → Bool
  write_must_wait spyp =
      not (is_dpipe_closed spyp.pyp)
      && is_full_dpipe spyp.pyp
      && get_capacity_dpipe spyp.pyp == spyp.max_capacity

  -- The pipe that the code behind the loop writes to.
  pub room_for_write : SyncPipe D → ℕ → D.Rep
  room_for_write spyp data_size =
      if ltb (get_capacity_dpipe spyp.pyp) spyp.max_capacity
        && ltb (get_bytes_writable_in_dpipe spyp.pyp) data_size
      then resize_dpipe spyp.pyp (
          min spyp.max_capacity
            ((2 * get_bytes_readable_in_dpipe spyp.pyp + 2 * data_size) % word_size))
      else spyp.pyp

  -- It returns how many bytes were written.
  unfoldable pub write_to_sync_pipe : SyncPipe D → List ℕ → Section ℕ
  unfolding write_must_wait room_for_write
  write_to_sync_pipe spyp data_p =
      let (pyp, bytes_written) = write_to_dpipe (room_for_write spyp (length data_p)) data_p in
      if write_must_wait spyp
      then (spyp, [], waits)
      else if is_dpipe_closed spyp.pyp
      then (spyp, [], returns 0)
      else (
        record spyp { pyp = pyp },
        if ltb 0 bytes_written then broadcast sync_pipe_empty ∷ [] else [],
        returns bytes_written,
      )

  -- The condition of the loop in `read_from_sync_pipe`.
  pub read_must_wait : SyncPipe D → Bool
  read_must_wait spyp = not (is_dpipe_closed spyp.pyp) && is_empty_dpipe spyp.pyp

  -- The pipe is shrunk if its capacity is more than thrice what is needed.
  pub trimmed : D.Rep → D.Rep
  trimmed pyp =
      if ltb (3 * get_bytes_readable_in_dpipe pyp % word_size) (get_capacity_dpipe pyp)
      then resize_dpipe pyp (get_bytes_readable_in_dpipe pyp)
      else pyp

  -- It returns the bytes that were read.
  unfoldable pub read_from_sync_pipe : SyncPipe D → ℕ → Section (List ℕ)
  unfolding read_must_wait trimmed
  read_from_sync_pipe spyp data_size =
      let (pyp, bytes) = read_from_dpipe spyp.pyp data_size in
      if read_must_wait spyp then (spyp, [], waits) else (
        record spyp { pyp = trimmed pyp },
        if not (is_dpipe_closed (trimmed pyp)) && ltb 0 (length bytes)
            then broadcast sync_pipe_full ∷ []
            else [],
        returns bytes,
      )

  unfoldable pub close_sync_pipe : SyncPipe D → Section (Unit {0})
  close_sync_pipe spyp = if is_dpipe_closed spyp.pyp then (spyp, [], returns tt) else (
    record spyp { pyp = close_dpipe spyp.pyp },
    broadcast sync_pipe_full ∷ broadcast sync_pipe_empty ∷ [],
    returns tt,
  )
