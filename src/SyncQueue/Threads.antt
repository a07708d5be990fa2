-- ===== src/SyncQueue/Threads.antt =====
-- The threads that push to a queue and pop from it, interleaved in any order (src/sync_queue.c).
use boom_par.Prelude.{
  ℕ, ◌+◌, ◌≤◌, ◌<◌, ◌≡◌, ◌⊎◌, Bool, true, false, word_size, Sleepers, told, slept, resumed, roused,
}
use boom_par.Cutlery.Arraylist.{Arraylist}
use boom_par.SyncQueue.{
  SyncQueue, Section, Condition, q_empty_wait, q_full_wait, push_sync_queue, push_sync_queue_woken,
  pop_sync_queue, pop_sync_queue_woken, update_max_capacity_sync_queue, close_sync_queue,
}
use boom_par.SyncQueue.Fifo.{Call, pushes, push_resumes, pops, pop_resumes, updates, closes}

abbrev pub on_empty : Condition → Bool
on_empty q_empty_wait = true
on_empty q_full_wait = false

abbrev pub on_full : Condition → Bool
on_full q_empty_wait = false
on_full q_full_wait = true

pub record System (A : Arraylist) : Type 0 where
  pub sq : SyncQueue A
  pub poppers : Sleepers
  pub pushers : Sleepers

module _ (A : Arraylist) where
  -- The thread of the section is a popper, a pusher, or waits for nothing.
  abbrev pub popper_did : Sleepers → Sleepers → Section A ℕ → System A
  popper_did poppers pushers (sq, notices, outcome) = record {
    sq = sq;
    poppers = slept outcome (told on_empty notices poppers);
    pushers = told on_full notices pushers;
  }

  abbrev pub pusher_did : Sleepers → Sleepers → Section A Bool → System A
  pusher_did poppers pushers (sq, notices, outcome) = record {
    sq = sq;
    poppers = told on_empty notices poppers;
    pushers = slept outcome (told on_full notices pushers);
  }

  abbrev pub caller_did : Sleepers → Sleepers → Section A (Unit {0}) → System A
  caller_did poppers pushers (sq, notices, outcome) = record {
    sq = sq;
    poppers = told on_empty notices poppers;
    pushers = told on_full notices pushers;
  }

  unfoldable pub act : System A → Call → System A
  act s (pushes x) = pusher_did s.poppers s.pushers (push_sync_queue A s.sq x)
  act s (push_resumes x wait_error) =
      pusher_did s.poppers (resumed s.pushers) (push_sync_queue_woken A s.sq x wait_error)
  act s pops = popper_did s.poppers s.pushers (pop_sync_queue A s.sq)
  act s (pop_resumes wait_error) =
      popper_did (resumed s.poppers) s.pushers (pop_sync_queue_woken A s.sq wait_error)
  act s (updates n) = caller_did s.poppers s.pushers (update_max_capacity_sync_queue A s.sq n)
  act s closes = caller_did s.poppers s.pushers (close_sync_queue A s.sq)

  -- A round behind a wait is that of a woken thread; there are fewer threads than words; and the
  -- capacity is not 0, and is raised only while the list is full, as the code expects, or while no
  -- pusher sleeps.
  abbrev pub Able : System A → Call → Type 0
  Able s (pushes x) = s.pushers.asleep + s.pushers.woken + 1 < word_size
  Able s (push_resumes x wait_error) = 0 < s.pushers.woken
  Able s pops = s.poppers.asleep + s.poppers.woken + 1 < word_size
  Able s (pop_resumes wait_error) = 0 < s.poppers.woken
  Able s (updates n) =
      (0 < n)
      × ((n ≤ s.sq.max_capacity) ⊎ ((A.is_full_arraylist s.sq.qp ≡ true) ⊎ (s.pushers.asleep ≡ 0)))
  Able s closes = Unit

  -- Threads get the lock in any order, and wake by themselves, at a timeout or for no reason.
  pub data Step (s : System A) : System A → Type 0 where
    acts : (c : Call) → Able s c → Step s (act s c)
    rouses_popper : 0 < s.poppers.asleep → Step s (record s { poppers = roused s.poppers })
    rouses_pusher : 0 < s.pushers.asleep → Step s (record s { pushers = roused s.pushers })

  pub data Reach (s : System A) : System A → Type 0 where
    here : Reach s s
    later : {t u : System A} → Reach s t → Step t u → Reach s u
