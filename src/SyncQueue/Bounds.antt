-- ===== src/SyncQueue/Bounds.antt =====
-- How large a bounded queue becomes (src/sync_queue.c).
use boom_par.Prelude.{
  ℕ, ◌≤◌, ◌<◌, ◌≡◌, Bool, false, List, [], ◌∷◌, some, arith, length, length-append,
}
use boom_par.Cutlery.Arraylist.{Arraylist, ArraylistLaws, ArraylistSpace}
use boom_par.SyncQueue.{
  SyncQueue, unbounded_sync_queue, initialize_sync_queue, room_for_push, push_locked, push_round,
  push_sync_queue, push_sync_queue_woken, trimmed, pop_locked, pop_round, pop_sync_queue,
  pop_sync_queue_woken, update_max_capacity_sync_queue, close_sync_queue,
}
use boom_par.SyncQueue.Fifo.{
  Call, pushes, push_resumes, pops, pop_resumes, updates, closes, after, run, items,
}

-- Only capacities of at most `limit` are set.
abbrev pub SetsWithin : ℕ → List Call → Type 0
SetsWithin limit [] = Unit
SetsWithin limit (updates n ∷ calls) = (n ≤ limit) × SetsWithin limit calls
SetsWithin limit (c ∷ calls) = SetsWithin limit calls

module _ (A : Arraylist) (L : ArraylistLaws A) (limit bound : ℕ)
    (space : ArraylistSpace A L limit bound) (bounded : limit < unbounded_sync_queue) where
  abbrev FitsIn : A.Rep → Type 0
  FitsIn r =
      (length (L.contents r) ≤ A.get_capacity_arraylist r) × (A.get_capacity_arraylist r ≤ bound)

  abbrev IsBounded : SyncQueue A → Type 0
  IsBounded sq = (sq.max_capacity ≤ limit) × FitsIn sq.qp

  room_for_push-within : (sq : SyncQueue A) → IsBounded sq → FitsIn (room_for_push A sq)
  unfolding room_for_push
  room_for_push-within sq b = ground (arith, space.expanded sq.qp, L.expanded sq.qp)

  push_round-IsBounded :
      (sq : SyncQueue A) (x : ℕ) (wait_error : Bool)
      → IsBounded sq
      → IsBounded (push_round A sq x wait_error).0
  unfolding push_round push_locked
  push_round-IsBounded sq x wait_error b =
      let room = room_for_push A sq in
      ground (
        arith,
        room_for_push-within sq b,
        space.roomy room,
        space.pushed room x,
        L.pushed room x,
        length-append (L.contents room) (x ∷ []),
      )

  pop_round-IsBounded :
      (sq : SyncQueue A) (wait_error : Bool)
      → IsBounded sq
      → IsBounded (pop_round A sq wait_error).0
  unfolding pop_round pop_locked trimmed
  pop_round-IsBounded sq wait_error b = ground (
    arith,
    space.popped sq.qp,
    L.popped sq.qp,
    space.shrunk (A.pop_front_from_arraylist sq.qp).0,
    L.shrunk (A.pop_front_from_arraylist sq.qp).0,
  )

  after-IsBounded :
      (sq : SyncQueue A) (c : Call) (calls : List Call)
      → SetsWithin limit (c ∷ calls)
      → IsBounded sq
      → IsBounded (after A sq c) × SetsWithin limit calls
  unfolding push_sync_queue push_sync_queue_woken pop_sync_queue pop_sync_queue_woken
      update_max_capacity_sync_queue close_sync_queue
  after-IsBounded sq (pushes x) calls w b = (push_round-IsBounded sq x false b, w)
  after-IsBounded sq (push_resumes x wait_error) calls w b =
      (push_round-IsBounded _ x wait_error b, w)
  after-IsBounded sq pops calls w b = (pop_round-IsBounded sq false b, w)
  after-IsBounded sq (pop_resumes wait_error) calls w b = (pop_round-IsBounded _ wait_error b, w)
  after-IsBounded sq (updates n) calls w b = ((w.0, b.1), w.1)
  after-IsBounded sq closes calls w b = (b, w)

  run-IsBounded :
      (sq : SyncQueue A) (calls : List Call)
      → SetsWithin limit calls
      → IsBounded sq
      → IsBounded (run A sq calls)
  unfolding run
  run-IsBounded sq [] w b = b
  run-IsBounded sq (c ∷ calls) w b =
      let (still, later) = after-IsBounded sq c calls w b in
      run-IsBounded (after A sq c) calls later still

  -- A new queue whose `max_capacity` is at most `limit` all the time, and `limit` is not that of an
  -- unbounded queue: it never holds more than `bound` pointers, whatever is called in whatever order,
  -- with waits and errors of waits, if expand_arraylist makes at most `bound` of a capacity below
  -- `limit`. So the list can outgrow `max_capacity`, but by one expansion and no more.
  pub sync_queue-within :
      (n : ℕ) (sq : SyncQueue A) (calls : List Call)
      → n ≤ limit
      → initialize_sync_queue A n ≡ some sq
      → SetsWithin limit calls
      → length (items A L (run A sq calls)) ≤ bound
  unfolding initialize_sync_queue
  sync_queue-within n sq calls h e w =
      let start : IsBounded sq = ground (arith, space.initialized 0 sq.qp, L.initialized 0 sq.qp) in
      omega (arith, (run-IsBounded sq calls w start).1)
