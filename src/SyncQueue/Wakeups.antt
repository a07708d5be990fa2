-- ===== src/SyncQueue/Wakeups.antt =====
-- The threads that wait on a queue (src/sync_queue.c), under any interleaving: how many there are, and
-- that none of them sleeps while there is work for it.
use boom_par.Prelude.{
  ℕ, ◌+◌, ◌≤◌, ◌%◌, ◌<◌, ◌≡◌, some, ◌≢◌, ◌⊎◌, Bool, true, false, not, ◌&&◌, List, [], ◌∷◌, arith,
  ltb, if◌then◌else◌, word_size, length, length-append, Notice, signal, Outcome, waits, sub64,
}
use boom_par.Cutlery.Arraylist.{Arraylist, ArraylistLaws}
use boom_par.SyncQueue.{
  SyncQueue, Condition, q_empty_wait, q_full_wait, push_must_wait, room_for_push, push_locked,
  push_round, push_sync_queue, push_sync_queue_woken, pop_must_wait, pop_locked, pop_round,
  pop_sync_queue, pop_sync_queue_woken, update_max_capacity_sync_queue, close_sync_queue,
  initialize_sync_queue, has_sync_queue_capacity_crossed_max_capacity_limits_unsafe,
}
use boom_par.SyncQueue.Fifo.{
  Call, pushes, push_resumes, pops, pop_resumes, updates, closes, items, contents-trimmed,
}
use boom_par.SyncQueue.Threads.{
  System, act, Able, Step, acts, rouses_popper, rouses_pusher, Reach, here, later,
}

-- `makes_room`: `expand_arraylist` does not run out of memory when it is asked to grow a full list.
module _ (A : Arraylist) (L : ArraylistLaws A)
    (makes_room : (r : A.Rep)
      → A.is_full_arraylist r ≡ true
      → A.is_full_arraylist (A.expand_arraylist r) ≡ false) where
  abbrev pub size : SyncQueue A → ℕ
  size sq = length (items A L sq)

  pub record IsLive (s : System A) : Type 0 where
    pub poppers_counted : s.sq.q_empty_wait_thread_count ≡ s.poppers.asleep + s.poppers.woken
    pub pushers_counted : s.sq.q_full_wait_thread_count ≡ s.pushers.asleep + s.pushers.woken
    pub countable :
        (s.poppers.asleep + s.poppers.woken < word_size)
        × (s.pushers.asleep + s.pushers.woken < word_size)
    pub capacious : 0 < s.sq.max_capacity
    pub closed_awake : s.sq.is_closed ≡ true → (s.poppers.asleep ≡ 0) × (s.pushers.asleep ≡ 0)
    pub poppers_fed : 0 < s.poppers.asleep → size s.sq ≤ s.poppers.woken
    pub pushers_fed : 0 < s.pushers.asleep → s.sq.max_capacity ≤ size s.sq + s.pushers.woken

  -- What a round of a push does.
  abbrev PushRound : SyncQueue A → SyncQueue A → List (Notice Condition) → Outcome Bool → Type 0
  PushRound sq after notices outcome =
      (after.max_capacity ≡ sq.max_capacity)
      × (after.is_closed ≡ sq.is_closed)
      × (after.q_empty_wait_thread_count ≡ sq.q_empty_wait_thread_count)
      × (((outcome ≡ waits)
            × (notices ≡ [])
            × (sq.is_closed ≡ false)
            × (sq.max_capacity ≤ size sq)
            × (size after ≡ size sq)
            × (after.q_full_wait_thread_count ≡ (sq.q_full_wait_thread_count + 1) % word_size))
          ⊎ ((outcome ≢ waits)
              × (after.q_full_wait_thread_count ≡ sq.q_full_wait_thread_count)
              × (((sq.is_closed ≡ true) × (notices ≡ []) × (size after ≡ size sq))
                  ⊎ (((sq.max_capacity ≤ size sq) × (notices ≡ []) × (size after ≡ size sq))
                      ⊎ ((size after ≡ size sq + 1)
                          × (notices ≡ (
                              if ltb 0 sq.q_empty_wait_thread_count
                              then signal q_empty_wait ∷ []
                              else [])))))))

  push_round-PushRound :
      (sq : SyncQueue A) (x : ℕ) (wait_error : Bool)
      → 0 < sq.max_capacity
      → let (after, notices, outcome) = push_round A sq x wait_error in
        PushRound sq after notices outcome
  unfolding push_round push_locked push_must_wait
      has_sync_queue_capacity_crossed_max_capacity_limits_unsafe room_for_push
  push_round-PushRound sq x wait_error h = ground (
    arith,
    L.filled sq.qp,
    makes_room sq.qp,
    L.expanded sq.qp,
    L.pushed sq.qp x,
    L.pushed (A.expand_arraylist sq.qp) x,
    length-append (items A L sq) (x ∷ []),
  )

  -- What a round of a pop does.
  abbrev PopRound : SyncQueue A → SyncQueue A → List (Notice Condition) → Outcome ℕ → Type 0
  PopRound sq after notices outcome =
      (after.max_capacity ≡ sq.max_capacity)
      × (after.is_closed ≡ sq.is_closed)
      × (after.q_full_wait_thread_count ≡ sq.q_full_wait_thread_count)
      × (((outcome ≡ waits)
            × (notices ≡ [])
            × (sq.is_closed ≡ false)
            × (size sq ≡ 0)
            × (size after ≡ 0)
            × (after.q_empty_wait_thread_count ≡ (sq.q_empty_wait_thread_count + 1) % word_size))
          ⊎ ((outcome ≢ waits)
              × (after.q_empty_wait_thread_count ≡ sq.q_empty_wait_thread_count)
              × (((size sq ≡ 0) × (notices ≡ []) × (size after ≡ 0))
                  ⊎ ((size sq ≡ size after + 1)
                      × (notices ≡ (
                          if not sq.is_closed && ltb 0 sq.q_full_wait_thread_count
                          then signal q_full_wait ∷ []
                          else []))))))

  pop_round-PopRound :
      (sq : SyncQueue A) (wait_error : Bool)
      → let (after, notices, outcome) = pop_round A sq wait_error in
        PopRound sq after notices outcome
  unfolding pop_round pop_locked pop_must_wait
  pop_round-PopRound sq wait_error = ground (
    arith,
    L.emptied sq.qp,
    contents-trimmed A L (A.pop_front_from_arraylist sq.qp).0,
    L.popped sq.qp,
  )

  -- A pop whose wait failed does not wait again.
  pub pop_sync_queue_woken-returns : (sq : SyncQueue A) → (pop_sync_queue_woken A sq true).2 ≢ waits
  unfolding pop_sync_queue_woken pop_must_wait pop_round pop_locked
  pop_sync_queue_woken-returns sq e = ground arith

  -- A pop that waits has told nobody.
  pub pop_sync_queue-quiet :
      (sq : SyncQueue A) → (pop_sync_queue A sq).2 ≡ waits → (pop_sync_queue A sq).1 ≡ []
  unfolding pop_sync_queue
  pop_sync_queue-quiet sq e = ground (arith, pop_round-PopRound sq false)

  push-IsLive :
      (s : System A) (x : ℕ) → Able A s (pushes x) → IsLive s → IsLive (act A s (pushes x))
  unfolding act push_sync_queue
  push-IsLive s x able v = ground (arith, push_round-PushRound s.sq x false v.capacious)

  push_resume-IsLive :
      (s : System A) (x : ℕ) (wait_error : Bool)
      → Able A s (push_resumes x wait_error)
      → IsLive s
      → IsLive (act A s (push_resumes x wait_error))
  unfolding act push_sync_queue_woken
  push_resume-IsLive s x wait_error able v = ground (
    arith,
    push_round-PushRound
        (record s.sq { q_full_wait_thread_count = sub64 s.sq.q_full_wait_thread_count 1 }) x
        wait_error v.capacious,
  )

  pop-IsLive : (s : System A) → Able A s pops → IsLive s → IsLive (act A s pops)
  unfolding act pop_sync_queue
  pop-IsLive s able v = ground (arith, pop_round-PopRound s.sq false)

  pop_resume-IsLive :
      (s : System A) (wait_error : Bool)
      → Able A s (pop_resumes wait_error)
      → IsLive s
      → IsLive (act A s (pop_resumes wait_error))
  unfolding act pop_sync_queue_woken
  pop_resume-IsLive s wait_error able v = ground (
    arith,
    pop_round-PopRound
        (record s.sq { q_empty_wait_thread_count = sub64 s.sq.q_empty_wait_thread_count 1 })
        wait_error,
  )

  update-IsLive :
      (s : System A) (n : ℕ) → Able A s (updates n) → IsLive s → IsLive (act A s (updates n))
  unfolding act update_max_capacity_sync_queue
  update-IsLive s n h v = ground arith

  close-IsLive : (s : System A) → IsLive s → IsLive (act A s closes)
  unfolding act close_sync_queue
  close-IsLive s v = ground arith

  pub act-IsLive : (s : System A) (c : Call) → Able A s c → IsLive s → IsLive (act A s c)
  act-IsLive s (pushes x) able v = push-IsLive s x able v
  act-IsLive s (push_resumes x wait_error) able v = push_resume-IsLive s x wait_error able v
  act-IsLive s pops able v = pop-IsLive s able v
  act-IsLive s (pop_resumes wait_error) able v = pop_resume-IsLive s wait_error able v
  act-IsLive s (updates n) able v = update-IsLive s n able v
  act-IsLive s closes able v = close-IsLive s v

  Step-IsLive : {s t : System A} → Step A s t → IsLive s → IsLive t
  Step-IsLive {s} (acts c able) v = act-IsLive s c able v
  Step-IsLive (rouses_popper h) v = ground arith
  Step-IsLive (rouses_pusher h) v = ground arith

  Reach-IsLive : {s t : System A} → IsLive s → Reach A s t → IsLive t
  Reach-IsLive v here = v
  Reach-IsLive v (later r st) = Step-IsLive st (Reach-IsLive v r)

  -- A new queue, which no thread waits on.
  abbrev pub start : SyncQueue A → System A
  start sq = record {
    sq = sq;
    poppers = record { asleep = 0; woken = 0 };
    pushers = record { asleep = 0; woken = 0 };
  }

  initialize-IsLive :
      (n : ℕ) (sq : SyncQueue A) → 0 < n → initialize_sync_queue A n ≡ some sq → IsLive (start sq)
  unfolding initialize_sync_queue
  initialize-IsLive n sq h e = ground arith

  -- In every state that threads can reach on a new queue of a capacity that is never 0, by pushes,
  -- pops, capacity changes and closing in any order, with waits that end by a signal, a timeout or
  -- for no reason: the two thread counts are the numbers of threads in the waits; no thread sleeps
  -- on a closed queue; if a popper sleeps, then no more pointers are in the queue than there are
  -- woken poppers on their way to take them; and if a pusher sleeps, then the pointers in the queue
  -- and the woken pushers on their way are at least `max_capacity`. (There are fewer threads than
  -- 2 ^ 64; expanding the list does not run out of memory; and the capacity is raised only while the
  -- list is full or no pusher sleeps, since otherwise a sleeping pusher is not woken up. The list can
  -- have more room than `max_capacity`; that a pusher sleeps only if it has none is not said.)
  pub sync_queue-IsLive :
      (n : ℕ) (sq : SyncQueue A) (s : System A)
      → 0 < n
      → initialize_sync_queue A n ≡ some sq
      → Reach A (start sq) s
      → IsLive s
  sync_queue-IsLive n sq s h e r = Reach-IsLive (initialize-IsLive n sq h e) r
