-- ===== src/SyncLlQueue/Wakeups.antt =====
-- The threads that push to a linked-list queue and pop from it (src/sync_ll_queue.c), under any
-- interleaving: how many of them wait, and that none of them sleeps while there is work for it.
use boom_par.Prelude.{
  ℕ, ◌+◌, ◌%◌, ◌≤◌, ◌<◌, ◌≡◌, ◌≢◌, ◌⊎◌, Bool, true, false, List, [], ◌∷◌, arith, word_size, length,
  length-append, Notice, Outcome, waits, sub64, Sleepers, told, slept, resumed, roused,
}
use boom_par.Cutlery.Singlylist.{Singlylist, SinglylistLaws}
use boom_par.SyncQueue.{Condition}
use boom_par.SyncQueue.Threads.{on_empty}
use boom_par.SyncLlQueue.{
  SyncLlQueue, Section, initialize_sync_ll_queue, push_sync_ll_queue, pop_must_wait, pop_locked,
  pop_round, pop_sync_ll_queue, pop_sync_ll_queue_woken, close_sync_ll_queue,
}

-- The calls of the threads, each cut into the sections between its waits.
pub data Call : Type 0 where
  pushes : (data_p : ℕ) → Call
  pops : Call
  pop_resumes : (wait_error : Bool) → Call
  closes : Call

pub record System (S : Singlylist) : Type 0 where
  pub sq : SyncLlQueue S
  pub poppers : Sleepers

module _ (S : Singlylist) where
  -- The thread of the section is a popper, or one that does not wait.
  abbrev popper_did : Sleepers → Section S ℕ → System S
  popper_did poppers (sq, notices, outcome) = record {
    sq = sq;
    poppers = slept outcome (told on_empty notices poppers);
  }

  abbrev pusher_did : Sleepers → Section S Bool → System S
  pusher_did poppers (sq, notices, outcome) = record {
    sq = sq;
    poppers = told on_empty notices poppers;
  }

  abbrev closer_did : Sleepers → Section S (Unit {0}) → System S
  closer_did poppers (sq, notices, outcome) = record {
    sq = sq;
    poppers = told on_empty notices poppers;
  }

  unfoldable pub act : System S → Call → System S
  act s (pushes x) = pusher_did s.poppers (push_sync_ll_queue S s.sq x)
  act s pops = popper_did s.poppers (pop_sync_ll_queue S s.sq)
  act s (pop_resumes wait_error) =
      popper_did (resumed s.poppers) (pop_sync_ll_queue_woken S s.sq wait_error)
  act s closes = closer_did s.poppers (close_sync_ll_queue S s.sq)

  -- A round behind a wait is that of a woken thread, and there are fewer threads than words.
  abbrev pub Able : System S → Call → Type 0
  Able s pops = s.poppers.asleep + s.poppers.woken + 1 < word_size
  Able s (pop_resumes wait_error) = 0 < s.poppers.woken
  Able s _ = Unit

  pub data Step (s : System S) : System S → Type 0 where
    acts : (c : Call) → Able s c → Step s (act s c)
    rouses_popper : 0 < s.poppers.asleep → Step s (record s { poppers = roused s.poppers })

  -- What threads can make of a new queue.
  pub data Reach (node_offset : ℕ) : System S → Type 0 where
    initialized : Reach node_offset (record {
      sq = initialize_sync_ll_queue S node_offset;
      poppers = record { asleep = 0; woken = 0 };
    })
    later : {s t : System S} → Reach node_offset s → Step s t → Reach node_offset t

module _ (S : Singlylist) (L : SinglylistLaws S) where
  abbrev pub size : SyncLlQueue S → ℕ
  size sq = length (L.contents sq.qp)

  pub record IsLive (s : System S) : Type 0 where
    pub poppers_counted : s.sq.q_empty_wait_thread_count ≡ s.poppers.asleep + s.poppers.woken
    pub countable : s.poppers.asleep + s.poppers.woken < word_size
    pub closed_awake : s.sq.is_closed ≡ true → s.poppers.asleep ≡ 0
    pub poppers_fed : 0 < s.poppers.asleep → size s.sq ≤ s.poppers.woken

  -- What a round of a pop does.
  abbrev PopRound : SyncLlQueue S → SyncLlQueue S → List (Notice Condition) → Outcome ℕ → Type 0
  PopRound sq after notices outcome =
      (after.is_closed ≡ sq.is_closed)
      × (notices ≡ [])
      × (((outcome ≡ waits)
            × (sq.is_closed ≡ false)
            × (size sq ≡ 0)
            × (size after ≡ 0)
            × (after.q_empty_wait_thread_count ≡ (sq.q_empty_wait_thread_count + 1) % word_size))
          ⊎ ((outcome ≢ waits)
              × (after.q_empty_wait_thread_count ≡ sq.q_empty_wait_thread_count)
              × (((size sq ≡ 0) × (size after ≡ 0)) ⊎ (size sq ≡ size after + 1))))

  pop_round-PopRound :
      (sq : SyncLlQueue S) (wait_error : Bool)
      → let (after, notices, outcome) = pop_round S sq wait_error in
        PopRound sq after notices outcome
  unfolding pop_round pop_locked pop_must_wait
  pop_round-PopRound sq wait_error = ground (arith, L.emptied sq.qp, L.removed sq.qp)

  -- A pop whose wait failed does not wait again.
  pub pop_sync_ll_queue_woken-returns :
      (sq : SyncLlQueue S) → (pop_sync_ll_queue_woken S sq true).2 ≢ waits
  unfolding pop_sync_ll_queue_woken pop_must_wait pop_round pop_locked
  pop_sync_ll_queue_woken-returns sq e = ground arith

  -- A pop that waits has told nobody.
  pub pop_sync_ll_queue-quiet :
      (sq : SyncLlQueue S) → (pop_sync_ll_queue S sq).2 ≡ waits → (pop_sync_ll_queue S sq).1 ≡ []
  unfolding pop_sync_ll_queue
  pop_sync_ll_queue-quiet sq e = ground (arith, pop_round-PopRound sq false)

  pub push-IsLive : (s : System S) (x : ℕ) → IsLive s → IsLive (act S s (pushes x))
  unfolding act push_sync_ll_queue
  push-IsLive s x v =
      ground (arith, L.inserted s.sq.qp x, length-append (L.contents s.sq.qp) (x ∷ []))

  pub pop-IsLive : (s : System S) → Able S s pops → IsLive s → IsLive (act S s pops)
  unfolding act pop_sync_ll_queue
  pop-IsLive s able v = ground (arith, pop_round-PopRound s.sq false)

  pub pop_resume-IsLive :
      (s : System S) (wait_error : Bool)
      → Able S s (pop_resumes wait_error)
      → IsLive s
      → IsLive (act S s (pop_resumes wait_error))
  unfolding act pop_sync_ll_queue_woken
  pop_resume-IsLive s wait_error able v = ground (
    arith,
    pop_round-PopRound
        (record s.sq { q_empty_wait_thread_count = sub64 s.sq.q_empty_wait_thread_count 1 })
        wait_error,
  )

  pub close-IsLive : (s : System S) → IsLive s → IsLive (act S s closes)
  unfolding act close_sync_ll_queue
  close-IsLive s v = ground arith

  Step-IsLive : {s t : System S} → Step S s t → IsLive s → IsLive t
  Step-IsLive {s} (acts (pushes x) able) v = push-IsLive s x v
  Step-IsLive {s} (acts pops able) v = pop-IsLive s able v
  Step-IsLive {s} (acts (pop_resumes wait_error) able) v = pop_resume-IsLive s wait_error able v
  Step-IsLive {s} (acts closes able) v = close-IsLive s v
  Step-IsLive (rouses_popper h) v = ground arith

  -- In every state that threads can reach on a new linked-list queue, by pushes, pops and closing in
  -- any order, with waits that end by a signal, a timeout or for no reason: the thread count is the
  -- number of threads in the wait; no thread sleeps on a closed queue; and if a popper sleeps, then no
  -- more structs are in the queue than there are woken poppers on their way to take them. So no
  -- wake-up is lost. (There are fewer threads than 2 ^ 64.)
  pub sync_ll_queue-IsLive : (node_offset : ℕ) (s : System S) → Reach S node_offset s → IsLive s
  unfolding initialize_sync_ll_queue
  sync_ll_queue-IsLive node_offset _ initialized = ground (arith, L.initialized node_offset)
  sync_ll_queue-IsLive node_offset _ (later {s} r st) =
      Step-IsLive st (sync_ll_queue-IsLive node_offset s r)
