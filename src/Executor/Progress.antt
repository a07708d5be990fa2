-- ===== src/Executor/Progress.antt =====
-- An executor that is shut down comes to an end (src/executor.c, src/worker.c).
use boom_par.Prelude.{
  ◌∙◌, ℕ, zero, suc, ◌+◌, ◌≤◌, ◌<◌, ◌≡◌, ◌⊎◌, inl, inr, refl, true, false, List, [], ◌∷◌, none,
  arith, length,
}
use boom_par.Cutlery.Arraylist.{Arraylist, ArraylistLaws}
use boom_par.Cutlery.Singlylist.{Singlylist, SinglylistLaws}
use boom_par.Job.{UserCode}
use boom_par.JobQueue.Wakeups.{IsLiveQueue-wakes}
use boom_par.Executor.Wakeups.{IsAwake, Reach-IsAwake}
use boom_par.Executor.Counting.{IsCounted, Reach-IsCounted}
use boom_par.Executor.Ownership.{IsSafe, Reach-IsSafe}
use boom_par.Executor.Threads.{submitters}
use boom_par.Executor.Places.{System}
use boom_par.Executor.Steps.{
  Step, submits, submit_goes_on, looks_for_worker, looks_for_jobs, creates, starts, leaves, pops,
  pop_goes_on, runs, finishes, Reach, close_goes_on, looks_for_leftovers, discards, cancels,
}
use boom_par.Executor.Sections.{Reach-Nearer}
use boom_par.Executor.Measure.{own, own_sections, sections_left}

if_positive {ℓ} : {P : Type ℓ} (n : ℕ) → (0 < n → P) → (n ≡ 0 → P) → P
if_positive zero positive null = null refl
if_positive (suc n) positive null = positive (omega arith)

module _ (A : Arraylist) (S : Singlylist) (L : ArraylistLaws A) (M : SinglylistLaws S) where
  -- A submitter, a worker, or a thread in shutdown_executor has a section to go on with.
  abbrev pub GoesOn : UserCode → System A S → Type 0
  GoesOn user s = (t : System A S) × (step : Step A S user s t) × (own A S L M step ≡ 1)

  pusher-GoesOn :
      (user : UserCode) (s : System A S) (pushing : List ℕ)
      → 0 < s.at.pushers.woken
      → s.at.pushing ≡ pushing
      → 0 < length pushing
      → GoesOn user s
  pusher-GoesOn user s [] w e h = absurd (omega arith)
  pusher-GoesOn user s (a ∷ after) w e h = (_, submit_goes_on a [] after false w e, refl)

  runner-GoesOn :
      (user : UserCode) (s : System A S) (running : List ℕ)
      → s.at.running ≡ running
      → 0 < length running
      → GoesOn user s
  runner-GoesOn user s [] e h = absurd (omega arith)
  runner-GoesOn user s (a ∷ after) e h = (_, runs a [] after e, refl)

  module _
      (makes_room : (r : A.Rep)
        → A.is_full_arraylist r ≡ true
        → A.is_full_arraylist (A.expand_arraylist r) ≡ false) where
    -- No thread sleeps on the closed queue of an executor that is shut down.
    nobody_asleep :
        (s : System A S)
        → IsSafe A S L M s
        → IsAwake A S L M makes_room s
        → s.ex.shutdown_requested ≡ true
        → (s.at.poppers.asleep ≡ 0) × (s.at.pushers.asleep ≡ 0)
    nobody_asleep s v w shut =
        (IsLiveQueue-wakes A S L M makes_room s.ex.pool.job_q s.at.poppers s.at.pushers w.live).0
          (v.shut ∙ shut)

    submitter-GoesOn :
        (user : UserCode) (s : System A S) (a : ℕ)
        → IsAwake A S L M makes_room s
        → s.at.pushers.asleep ≡ 0
        → s.ex.pool.jobs a ≡ none
        → 0 < submitters A S s.at
        → GoesOn user s
    submitter-GoesOn user s a w awake e h =
        if_positive s.at.entered (λ p. (_, submits a 0 0 0 0 p e, refl))
          (λ z₁.
            if_positive (length s.at.pushing)
              (λ p. pusher-GoesOn user s s.at.pushing (omega (arith, w.listed)) refl p)
              (λ z₂.
                if_positive s.at.queued (λ p. (_, looks_for_worker p, refl))
                  (λ z₃.
                    if_positive s.at.lacking (λ p. (_, looks_for_jobs p, refl))
                      (λ z₄.
                        if_positive s.at.creating (λ p. (_, creates p, refl))
                          (λ z₅.
                            if_positive s.at.starting (λ p. (_, starts false p, refl))
                              (λ z₆. (_, leaves (omega arith), refl)))))))

    worker-GoesOn :
        (user : UserCode) (s : System A S)
        → s.at.poppers.asleep ≡ 0
        → 0
          < s.at.working
            + (s.at.poppers.asleep + s.at.poppers.woken)
            + length s.at.running
            + s.at.finishing
        → GoesOn user s
    worker-GoesOn user s awake h =
        if_positive s.at.working (λ p. (_, pops p, refl))
          (λ z₁.
            if_positive s.at.poppers.woken (λ p. (_, pop_goes_on false p (λ e. absurd cc), refl))
              (λ z₂.
                if_positive (length s.at.running) (runner-GoesOn user s s.at.running refl)
                  (λ z₃. (_, finishes (omega arith), refl))))

    discarder-GoesOn :
        (user : UserCode) (s : System A S) (cancelling : List ℕ)
        → s.ex.submitters_count ≡ 0
        → s.at.closers.asleep ≡ 0
        → s.at.cancelling ≡ cancelling
        → 0
          < s.at.closers.asleep
            + s.at.closers.woken
            + (s.at.discarders + s.at.discarding + length cancelling)
        → GoesOn user s
    discarder-GoesOn user s (a ∷ after) none_left awake e h = (_, cancels a [] after e, refl)
    discarder-GoesOn user s [] none_left awake e h =
        if_positive s.at.discarders (λ p. (_, looks_for_leftovers p, refl))
          (λ z₁.
            if_positive s.at.discarding (λ p. (_, discards p, refl))
              (λ z₂. (_, close_goes_on false (omega arith), ground arith)))

    -- From any state that threads can reach on an executor and in which it is shut down, whatever they
    -- do: its submitters, its workers, and the threads in shutdown_executor, its discard_leftover_jobs
    -- included, get to at most `sections_left` sections more in all; and as long as one of them is
    -- left, one of them has a section that it can do, if there is an address that `malloc` can return.
    -- So they all leave, and when they have, both counts that shutdown_executor and
    -- wait_for_all_executor_workers_to_complete wait for are 0. (A wake-up in shutdown_executor while
    -- submitters are left does not count as a section. Expanding the list of the queue does not run out
    -- of memory.)
    pub shutdown-ends :
        (user : UserCode) (s t : System A S)
        → IsSafe A S L M s
        → IsCounted A S s
        → IsAwake A S L M makes_room s
        → s.ex.shutdown_requested ≡ true
        → (r : Reach A S user s t)
        → (own_sections A S L M r + sections_left A S L M t ≤ sections_left A S L M s)
          × (((t.ex.submitters_count ≡ 0)
                × (t.ex.active_worker_count ≡ 0)
                × (t.at.closers.asleep + t.at.closers.woken ≡ 0)
                × (t.at.discarders + t.at.discarding + length t.at.cancelling ≡ 0))
              ⊎ ((a : ℕ) → t.ex.pool.jobs a ≡ none → GoesOn user t))
    shutdown-ends user s t v c w shut r =
        let counted = Reach-IsCounted A S user c r in
        let awake = Reach-IsAwake A S L M makes_room user c w r in
        let (fewer, still_shut) = Reach-Nearer A S L M user r v shut in
        let (poppers, pushers) = nobody_asleep t (Reach-IsSafe A S L M user v r) awake still_shut in
        (
          fewer,
          if_positive (submitters A S t.at)
              (λ p. inr (λ a e. submitter-GoesOn user t a awake pushers e p))
              (λ z₁.
                if_positive
                  (t.at.working
                    + (t.at.poppers.asleep + t.at.poppers.woken)
                    + length t.at.running
                    + t.at.finishing)
                  (λ p. inr (λ a e. worker-GoesOn user t poppers p))
                  (λ z₂.
                    let none_left : t.ex.submitters_count ≡ 0 = omega (arith, counted.submitting) in
                    if_positive
                      (t.at.closers.asleep
                        + t.at.closers.woken
                        + (t.at.discarders + t.at.discarding + length t.at.cancelling))
                      (λ p. inr (λ a e.
                        discarder-GoesOn user t t.at.cancelling none_left
                          (ground (arith, counted.closers_due)) refl p))
                      (λ z₃.
                        inl
                          (none_left, omega (arith, counted.workers), omega arith, omega arith)))),
        )
