-- ===== src/SyncLlQueue/Refines.antt =====
-- The linked-list queue (src/sync_ll_queue.c) keeps the promise of a closable queue.
use boom_par.Prelude.{ℕ, inl, inr, Bool, false, not, arith}
use boom_par.Cutlery.Singlylist.{Singlylist, SinglylistLaws}
use boom_par.ClosableQueue.{ClosableQueue, Pushes, Pops}
use boom_par.SyncLlQueue.{
  SyncLlQueue, push_sync_ll_queue, pop_must_wait, pop_locked, pop_round, pop_sync_ll_queue,
  pop_sync_ll_queue_woken,
}

module _ (S : Singlylist) (L : SinglylistLaws S) where
  -- The closable queue that the data stand for.
  abbrev pub view : SyncLlQueue S → ClosableQueue
  view sq = record { items = L.contents sq.qp; is_closed = sq.is_closed }

  -- The singlylist does not take the struct.
  abbrev pub cramped : SyncLlQueue S → ℕ → Bool
  cramped sq x = not (S.insert_tail_in_singlylist sq.qp x).1

  pub push_sync_ll_queue-Pushes :
      (sq : SyncLlQueue S) (x : ℕ)
      → let (after, _, outcome) = push_sync_ll_queue S sq x in
        Pushes (cramped sq x) (view sq) x (view after) outcome
  unfolding push_sync_ll_queue
  push_sync_ll_queue-Pushes sq x = ground (arith, L.inserted sq.qp x)

  pop_round-Pops :
      (sq : SyncLlQueue S) (wait_error : Bool)
      → let (after, _, outcome) = pop_round S sq wait_error in
        Pops wait_error (view sq) (view after) outcome
  unfolding pop_round pop_locked pop_must_wait
  pop_round-Pops sq wait_error = elim (L.removed sq.qp) [
    | inl e ↦ ground (arith, L.emptied sq.qp)
    | inr e ↦ inr (
        inr (
          S.get_head_of_singlylist sq.qp,
          ground (arith, L.emptied sq.qp),
          ground (arith, L.emptied sq.qp),
          ground (arith, L.emptied sq.qp),
        ))
  ]

  pub pop_sync_ll_queue-Pops :
      (sq : SyncLlQueue S)
      → let (after, _, outcome) = pop_sync_ll_queue S sq in
        Pops false (view sq) (view after) outcome
  unfolding pop_sync_ll_queue
  pop_sync_ll_queue-Pops sq = pop_round-Pops sq false

  pub pop_sync_ll_queue_woken-Pops :
      (sq : SyncLlQueue S) (wait_error : Bool)
      → let (after, _, outcome) = pop_sync_ll_queue_woken S sq wait_error in
        Pops wait_error (view sq) (view after) outcome
  unfolding pop_sync_ll_queue_woken
  pop_sync_ll_queue_woken-Pops sq wait_error = pop_round-Pops _ wait_error
