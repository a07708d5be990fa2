-- ===== src/SyncQueue/Refines.antt =====
-- The queue in an arraylist (src/sync_queue.c) keeps the promise of a closable queue.
use boom_par.Prelude.{ℕ, inl, inr, Bool, false, ◌&&◌, ◌||◌, arith}
use boom_par.Cutlery.Arraylist.{Arraylist, ArraylistLaws}
use boom_par.ClosableQueue.{ClosableQueue, Pushes, Pops}
use boom_par.SyncQueue.{
  SyncQueue, has_sync_queue_capacity_crossed_max_capacity_limits_unsafe, room_for_push, push_locked,
  push_round, push_sync_queue, push_sync_queue_woken, push_must_wait, pop_must_wait, pop_locked,
  pop_round, pop_sync_queue, pop_sync_queue_woken,
}
use boom_par.SyncQueue.Fifo.{contents-trimmed}

module _ (A : Arraylist) (L : ArraylistLaws A) where
  -- The closable queue that the data stand for.
  abbrev pub view : SyncQueue A → ClosableQueue
  view sq = record { items = L.contents sq.qp; is_closed = sq.is_closed }

  -- The list is full, and stays so, since the wait for room failed or expand_arraylist does.
  abbrev pub cramped : SyncQueue A → Bool → Bool
  cramped sq wait_error =
      A.is_full_arraylist sq.qp && (wait_error || A.is_full_arraylist (A.expand_arraylist sq.qp))

  push_round-Pushes :
      (sq : SyncQueue A) (x : ℕ) (wait_error : Bool)
      → let (after, _, outcome) = push_round A sq x wait_error in
        Pushes (cramped sq wait_error) (view sq) x (view after) outcome
  unfolding push_round push_locked push_must_wait room_for_push
      has_sync_queue_capacity_crossed_max_capacity_limits_unsafe
  push_round-Pushes sq x wait_error =
      ground (arith, L.expanded sq.qp, L.pushed sq.qp x, L.pushed (A.expand_arraylist sq.qp) x)

  pop_round-Pops :
      (sq : SyncQueue A) (wait_error : Bool)
      → let (after, _, outcome) = pop_round A sq wait_error in
        Pops wait_error (view sq) (view after) outcome
  unfolding pop_round pop_locked pop_must_wait
  pop_round-Pops sq wait_error =
      let trim = contents-trimmed A L (A.pop_front_from_arraylist sq.qp).0 in
      elim (L.popped sq.qp) [
        | inl e ↦ ground (arith, L.emptied sq.qp, trim)
        | inr e ↦ inr (
            inr (
              A.get_front_of_arraylist sq.qp,
              ground (arith, L.emptied sq.qp, trim),
              ground (arith, L.emptied sq.qp, trim),
              ground (arith, L.emptied sq.qp, trim),
            ))
      ]

  pub push_sync_queue-Pushes :
      (sq : SyncQueue A) (data_p : ℕ)
      → let (after, _, outcome) = push_sync_queue A sq data_p in
        Pushes (cramped sq false) (view sq) data_p (view after) outcome
  unfolding push_sync_queue
  push_sync_queue-Pushes sq data_p = push_round-Pushes sq data_p false

  pub push_sync_queue_woken-Pushes :
      (sq : SyncQueue A) (data_p : ℕ) (wait_error : Bool)
      → let (after, _, outcome) = push_sync_queue_woken A sq data_p wait_error in
        Pushes (cramped sq wait_error) (view sq) data_p (view after) outcome
  unfolding push_sync_queue_woken
  push_sync_queue_woken-Pushes sq data_p wait_error = push_round-Pushes _ data_p wait_error

  pub pop_sync_queue-Pops :
      (sq : SyncQueue A)
      → let (after, _, outcome) = pop_sync_queue A sq in Pops false (view sq) (view after) outcome
  unfolding pop_sync_queue
  pop_sync_queue-Pops sq = pop_round-Pops sq false

  pub pop_sync_queue_woken-Pops :
      (sq : SyncQueue A) (wait_error : Bool)
      → let (after, _, outcome) = pop_sync_queue_woken A sq wait_error in
        Pops wait_error (view sq) (view after) outcome
  unfolding pop_sync_queue_woken
  pop_sync_queue_woken-Pops sq wait_error = pop_round-Pops _ wait_error
