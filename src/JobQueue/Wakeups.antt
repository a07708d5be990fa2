-- ===== src/JobQueue/Wakeups.antt =====
-- The threads that push to a job queue and pop from it (src/job_queue.c), of either kind: none of them
-- sleeps while there is work for it.
use boom_par.Prelude.{
  ◌≢◌, returns, subst, [], waits, Outcome, ℕ, ◌+◌, ◌≤◌, ◌<◌, ◌≡◌, refl, Bool, true, false, some,
  arith, word_size, length, List, Notice, Sleepers, told, slept, resumed, roused, told-counted,
}
use boom_par.Cutlery.Arraylist.{Arraylist, ArraylistLaws}
use boom_par.Cutlery.Singlylist.{Singlylist, SinglylistLaws}
use boom_par.SyncQueue.{SyncQueue, Condition, get_max_capacity_sync_queue, initialize_sync_queue}
use boom_par.SyncQueue.Threads as ArraylistThreads
use boom_par.SyncQueue.Threads.{on_empty, on_full}
use boom_par.SyncQueue.Fifo as ArraylistCalls
use boom_par.SyncQueue.Wakeups as ArraylistWakeups
use boom_par.SyncLlQueue.{
  SyncLlQueue, initialize_sync_ll_queue, push_sync_ll_queue, pop_sync_ll_queue,
  pop_sync_ll_queue_woken, close_sync_ll_queue,
}
use boom_par.SyncLlQueue.Wakeups as LinkedlistWakeups
use boom_par.JobQueue.{
  get_max_capacity_job_queue, JobQueue, linkedlist_type_job_queue, arraylist_type_job_queue,
  initialize_job_queue, push_job_queue, push_job_queue_woken, pop_job_queue, pop_job_queue_woken,
  close_job_queue,
}
use boom_par.JobQueue.Refines.{view}
use boom_par.JobQueue.Threads.{System, popper_did, pusher_did, caller_did}

slept-returns : (outcome : Outcome ℕ) (s : Sleepers) → outcome ≢ waits → slept outcome s ≡ s
slept-returns waits s h = absurd (h refl)
slept-returns (returns x) s h = refl

module _ (A : Arraylist) (S : Singlylist) (L : ArraylistLaws A) (M : SinglylistLaws S)
    (makes_room : (r : A.Rep)
      → A.is_full_arraylist r ≡ true
      → A.is_full_arraylist (A.expand_arraylist r) ≡ false) where
  -- No thread pushes to a linked list and waits.
  abbrev pub IsLiveQueue : JobQueue A S → Sleepers → Sleepers → Type 0
  IsLiveQueue (linkedlist_type_job_queue lsq) poppers pushers =
      LinkedlistWakeups.IsLive S M (record { sq = lsq; poppers = poppers })
      × (pushers.asleep ≡ 0)
      × (pushers.woken ≡ 0)
  IsLiveQueue (arraylist_type_job_queue sq) poppers pushers =
      ArraylistWakeups.IsLive A L makes_room
        (record { sq = sq; poppers = poppers; pushers = pushers })

  abbrev pub IsLive : System A S → Type 0
  IsLive s = IsLiveQueue s.jq s.poppers s.pushers

  abbrev of_arraylist : SyncQueue A → Sleepers → Sleepers → ArraylistThreads.System A
  of_arraylist sq poppers pushers = record { sq = sq; poppers = poppers; pushers = pushers }

  abbrev of_linkedlist : SyncLlQueue S → Sleepers → LinkedlistWakeups.System S
  of_linkedlist lsq poppers = record { sq = lsq; poppers = poppers }

  -- A push to a linked list does not wait.
  nobody_pushes :
      (lsq : SyncLlQueue S) (x : ℕ) (pushers : Sleepers)
      → pushers.asleep ≡ 0
      → pushers.woken ≡ 0
      → let (_, notices, outcome) = push_sync_ll_queue S lsq x in
        let after = slept outcome (told on_full notices pushers) in
        (after.asleep ≡ 0) × (after.woken ≡ 0)
  unfolding push_sync_ll_queue
  nobody_pushes lsq x pushers a w =
      let (_, notices, _) = push_sync_ll_queue S lsq x in
      ground (arith, told-counted on_full notices pushers)

  nobody_told :
      (notices : List (Notice Condition)) (pushers : Sleepers)
      → pushers.asleep ≡ 0
      → pushers.woken ≡ 0
      → let after = told on_full notices pushers in (after.asleep ≡ 0) × (after.woken ≡ 0)
  nobody_told notices pushers a w = ground (arith, told-counted on_full notices pushers)

  pub push-IsLive :
      (jq : JobQueue A S) (poppers pushers : Sleepers) (x : ℕ)
      → pushers.asleep + pushers.woken + 1 < word_size
      → IsLiveQueue jq poppers pushers
      → IsLive (pusher_did A S poppers pushers (push_job_queue A S jq x))
  unfolding push_job_queue LinkedlistWakeups.act ArraylistThreads.act
  push-IsLive (arraylist_type_job_queue sq) poppers pushers x h v =
      ArraylistWakeups.act-IsLive A L makes_room (of_arraylist sq poppers pushers)
        (ArraylistCalls.pushes x) h v
  push-IsLive (linkedlist_type_job_queue lsq) poppers pushers x h v =
      let (asleep, woken) = nobody_pushes lsq x pushers v.1 v.2 in
      (LinkedlistWakeups.push-IsLive S M (of_linkedlist lsq poppers) x v.0, asleep, woken)

  pub push_resume-IsLive :
      (jq : JobQueue A S) (poppers pushers : Sleepers) (x : ℕ) (wait_error : Bool)
      → 0 < pushers.woken
      → IsLiveQueue jq poppers pushers
      → IsLive (pusher_did A S poppers (resumed pushers) (push_job_queue_woken A S jq x wait_error))
  unfolding push_job_queue_woken ArraylistThreads.act
  push_resume-IsLive (arraylist_type_job_queue sq) poppers pushers x wait_error h v =
      ArraylistWakeups.act-IsLive A L makes_room (of_arraylist sq poppers pushers)
        (ArraylistCalls.push_resumes x wait_error) h v
  push_resume-IsLive (linkedlist_type_job_queue lsq) poppers pushers x wait_error h v =
      absurd (omega (arith, v.2))

  pub pop-IsLive :
      (jq : JobQueue A S) (poppers pushers : Sleepers)
      → poppers.asleep + poppers.woken + 1 < word_size
      → IsLiveQueue jq poppers pushers
      → IsLive (popper_did A S poppers pushers (pop_job_queue A S jq))
  unfolding pop_job_queue LinkedlistWakeups.act ArraylistThreads.act
  pop-IsLive (arraylist_type_job_queue sq) poppers pushers h v =
      ArraylistWakeups.act-IsLive A L makes_room (of_arraylist sq poppers pushers)
        ArraylistCalls.pops h v
  pop-IsLive (linkedlist_type_job_queue lsq) poppers pushers h v =
      let (asleep, woken) = nobody_told (pop_sync_ll_queue S lsq).1 pushers v.1 v.2 in
      (LinkedlistWakeups.pop-IsLive S M (of_linkedlist lsq poppers) h v.0, asleep, woken)

  pub pop_resume-IsLive :
      (jq : JobQueue A S) (poppers pushers : Sleepers) (wait_error : Bool)
      → 0 < poppers.woken
      → IsLiveQueue jq poppers pushers
      → IsLive (popper_did A S (resumed poppers) pushers (pop_job_queue_woken A S jq wait_error))
  unfolding pop_job_queue_woken LinkedlistWakeups.act ArraylistThreads.act
  pop_resume-IsLive (arraylist_type_job_queue sq) poppers pushers wait_error h v =
      ArraylistWakeups.act-IsLive A L makes_room (of_arraylist sq poppers pushers)
        (ArraylistCalls.pop_resumes wait_error) h v
  pop_resume-IsLive (linkedlist_type_job_queue lsq) poppers pushers wait_error h v =
      let (asleep, woken) =
        nobody_told (pop_sync_ll_queue_woken S lsq wait_error).1 pushers v.1 v.2 in
      (
        LinkedlistWakeups.pop_resume-IsLive S M (of_linkedlist lsq poppers) wait_error h v.0,
        asleep,
        woken,
      )

  pub rouse_popper-IsLive :
      (jq : JobQueue A S) (poppers pushers : Sleepers)
      → 0 < poppers.asleep
      → IsLiveQueue jq poppers pushers
      → IsLiveQueue jq (roused poppers) pushers
  rouse_popper-IsLive (arraylist_type_job_queue sq) poppers pushers h v = ground arith
  rouse_popper-IsLive (linkedlist_type_job_queue lsq) poppers pushers h v = ground arith

  -- A pop that waits has told nobody.
  pop_job_queue-quiet :
      (jq : JobQueue A S) → (pop_job_queue A S jq).2 ≡ waits → (pop_job_queue A S jq).1 ≡ []
  unfolding pop_job_queue
  pop_job_queue-quiet (arraylist_type_job_queue sq) e =
      ArraylistWakeups.pop_sync_queue-quiet A L makes_room sq e
  pop_job_queue-quiet (linkedlist_type_job_queue lsq) e =
      LinkedlistWakeups.pop_sync_ll_queue-quiet S M lsq e

  pop_job_queue_woken-returns : (jq : JobQueue A S) → (pop_job_queue_woken A S jq true).2 ≢ waits
  unfolding pop_job_queue_woken
  pop_job_queue_woken-returns (arraylist_type_job_queue sq) =
      ArraylistWakeups.pop_sync_queue_woken-returns A L makes_room sq
  pop_job_queue_woken-returns (linkedlist_type_job_queue lsq) =
      LinkedlistWakeups.pop_sync_ll_queue_woken-returns S M lsq

  -- A pop that waits, and whose wait fails at once.
  pub pop_at_once-IsLive :
      (jq : JobQueue A S) (poppers pushers : Sleepers)
      → poppers.asleep + poppers.woken + 1 < word_size
      → IsLiveQueue jq poppers pushers
      → (pop_job_queue A S jq).2 ≡ waits
      → let (jq', notices, _) = pop_job_queue_woken A S (pop_job_queue A S jq).0 true in
        IsLiveQueue jq' (told on_empty notices poppers) (told on_full notices pushers)
  pop_at_once-IsLive jq poppers pushers h v e =
      let (jq₁, notices₁, outcome₁) = pop_job_queue A S jq in
      let quiet = pop_job_queue-quiet jq e in
      let asleep : IsLiveQueue jq₁ (record poppers { asleep = poppers.asleep + 1 }) pushers =
        subst (λ o. IsLiveQueue jq₁ (slept o poppers) pushers) e
          (subst
            (λ ns.
              IsLiveQueue jq₁ (slept outcome₁ (told on_empty ns poppers)) (told on_full ns pushers))
            quiet (pop-IsLive jq poppers pushers h v)) in
      let woken =
        rouse_popper-IsLive jq₁ (record poppers { asleep = poppers.asleep + 1 }) pushers
          (omega arith) asleep in
      let again =
        pop_resume-IsLive jq₁ (roused (record poppers { asleep = poppers.asleep + 1 })) pushers true
          (omega arith) woken in
      let (jq₂, notices₂, outcome₂) = pop_job_queue_woken A S jq₁ true in
      let same : resumed (roused (record poppers { asleep = poppers.asleep + 1 })) ≡ poppers =
        ground arith in
      subst (λ x. IsLiveQueue jq₂ (told on_empty notices₂ x) (told on_full notices₂ pushers)) same
        (subst (λ x. IsLiveQueue jq₂ x (told on_full notices₂ pushers))
          (slept-returns outcome₂ _ (pop_job_queue_woken-returns jq₁)) again)

  pub close-IsLive :
      (jq : JobQueue A S) (poppers pushers : Sleepers)
      → IsLiveQueue jq poppers pushers
      → IsLive (caller_did A S poppers pushers (close_job_queue A S jq))
  unfolding close_job_queue LinkedlistWakeups.act ArraylistThreads.act
  close-IsLive (arraylist_type_job_queue sq) poppers pushers v =
      ArraylistWakeups.act-IsLive A L makes_room (of_arraylist sq poppers pushers)
        ArraylistCalls.closes tt v
  close-IsLive (linkedlist_type_job_queue lsq) poppers pushers v =
      let (asleep, woken) = nobody_told (close_sync_ll_queue S lsq).1 pushers v.1 v.2 in
      (LinkedlistWakeups.close-IsLive S M (of_linkedlist lsq poppers) v.0, asleep, woken)

  pub rouse_pusher-IsLive :
      (jq : JobQueue A S) (poppers pushers : Sleepers)
      → 0 < pushers.asleep
      → IsLiveQueue jq poppers pushers
      → IsLiveQueue jq poppers (roused pushers)
  rouse_pusher-IsLive (arraylist_type_job_queue sq) poppers pushers h v = ground arith
  rouse_pusher-IsLive (linkedlist_type_job_queue lsq) poppers pushers h v =
      absurd (omega (arith, v.1))

  pub initialize-IsLive :
      (node_offset max_capacity : ℕ) (jq : JobQueue A S)
      → initialize_job_queue A S node_offset max_capacity ≡ some jq
      → IsLiveQueue jq (record { asleep = 0; woken = 0 }) (record { asleep = 0; woken = 0 })
  unfolding initialize_job_queue initialize_sync_queue initialize_sync_ll_queue
  initialize-IsLive node_offset max_capacity (linkedlist_type_job_queue lsq) e =
      ground (arith, M.initialized node_offset)
  initialize-IsLive node_offset max_capacity (arraylist_type_job_queue sq) e =
      ground (arith, L.initialized 0 sq.qp)

  -- What it means: no thread sleeps on a closed queue; a popper sleeps only if woken ones are on their
  -- way to all that is in the queue; and a pusher only if what is in the queue and the woken pushers
  -- on their way are at least the capacity.
  pub IsLiveQueue-wakes :
      (jq : JobQueue A S) (poppers pushers : Sleepers)
      → IsLiveQueue jq poppers pushers
      → ((view A S L M jq).is_closed ≡ true → (poppers.asleep ≡ 0) × (pushers.asleep ≡ 0))
        × (0 < poppers.asleep → length (view A S L M jq).items ≤ poppers.woken)
        × (0 < pushers.asleep
            → get_max_capacity_job_queue A S jq ≤ length (view A S L M jq).items + pushers.woken)
  unfolding get_max_capacity_job_queue get_max_capacity_sync_queue
  IsLiveQueue-wakes (arraylist_type_job_queue sq) poppers pushers v = ground arith
  IsLiveQueue-wakes (linkedlist_type_job_queue lsq) poppers pushers v = ground arith
