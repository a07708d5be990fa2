-- ===== src/Executor/Dispatch.antt =====
-- What one step of a thread does to the jobs of an executor (src/executor.c, src/worker.c).
use mathlib.Core.List.{Perm, perm_middle}
use mathlib.Core.List.Perm
use boom_par.Prelude.{
  ℕ, ◌≡◌, refl, sym, subst, Bool, true, false, List, [], ◌∷◌, ◌++◌, none, some, arith, Outcome,
  waits, returns,
}
use boom_par.Cutlery.Arraylist.{Arraylist, ArraylistLaws}
use boom_par.Cutlery.Singlylist.{Singlylist, SinglylistLaws}
use boom_par.Job.{UserCode, initialize_job}
use boom_par.JobQueue.Refines.{closes as closes_queue, job_queue-Keeps}
use boom_par.Worker.{
  submit_job_worker, submit_job_worker_woken, worker_pops, worker_pops_woken, worker_runs,
  discard_pops, discard_cancels,
}
use boom_par.Worker.Ready.{queued, unused-Fresh}
use boom_par.Worker.Submission.{submit_job_worker-Submitted, submit_job_worker_woken-Submitted}
use boom_par.Worker.Sharing.{
  popping_after, worker_pops-Took, worker_pops_woken-Took, discard_pops-Took, OwnedBy-Holds,
  worker_runs-OwnedBy, discard_cancels-OwnedBy,
}
use boom_par.Executor.{shutdown_executor}
use boom_par.Executor.Held.{held, running_out, cancelling_out}
use boom_par.Executor.Events.{executes, cancels_it, one_by_one, accepted_if, taken}
use boom_par.Executor.Ownership.{IsSafe, pushing-owned, running-owned, cancelling-owned}
use boom_par.Executor.Threads.{
  submit, submit_resumes, pop, pop_resumes, run, close, discard, cancel,
}
use boom_par.Executor.Places.{System, Places}
use boom_par.Executor.Transfer.{
  Moved, Moved-queue, Moved-to, Moves, Submitted-Moved, Took-Moved, ended-Moved, hands_of,
}

-- A pop, among the addresses that threads run or cancel.
running_popped :
    (at : Places) (outcome : Outcome ℕ)
    → Perm
        (popping_after (at.running ++ at.cancelling) outcome)
        (popping_after at.running outcome ++ at.cancelling)
running_popped at waits = Perm.refl _
running_popped at (returns a) =
    let same = Perm.refl (at.running ++ at.cancelling) in
    let more = Perm.refl (a ∷ at.running ++ at.cancelling) in ground (arith, same, more)

cancelling_popped :
    (at : Places) (outcome : Outcome ℕ)
    → Perm
        (popping_after (at.running ++ at.cancelling) outcome)
        (at.running ++ popping_after at.cancelling outcome)
cancelling_popped at waits = Perm.refl _
cancelling_popped at (returns a) =
    let same = Perm.refl (at.running ++ at.cancelling) in
    let more : Perm (a ∷ at.running ++ at.cancelling) (at.running ++ a ∷ at.cancelling) =
      Perm.symm (perm_middle at.running at.cancelling) in
    ground (arith, same, more)

module _ (A : Arraylist) (S : Singlylist) (L : ArraylistLaws A) (M : SinglylistLaws S) where
  pub Moves-none :
      (user : UserCode) (s t : System A S)
      → t.ex.pool ≡ s.ex.pool
      → hands_of A S L M t.at ≡ hands_of A S L M s.at
      → Moves A S L M user s t [] [] []
  Moves-none user s t p h =
      Moved-to A S L M user s.ex.pool (hands_of A S L M s.at)
        (Moved-queue A S L M user s.ex.pool s.ex.pool (hands_of A S L M s.at) refl refl refl) p h

  pub close-Moves :
      (user : UserCode) (s : System A S) (shutdown_immediately : Bool)
      → Moves A S L M user s (close A S s shutdown_immediately) [] [] []
  unfolding close shutdown_executor
  close-Moves user s shutdown_immediately =
      let closed = job_queue-Keeps A S L M s.ex.pool.job_q closes_queue in
      Moved-to A S L M user s.ex.pool (hands_of A S L M s.at)
        (Moved-queue A S L M user s.ex.pool (close A S s shutdown_immediately).ex.pool
          (hands_of A S L M s.at) (ground arith) (ground (arith, closed)) (ground arith))
        refl (ground arith)

  pub submit-Moves :
      (user : UserCode) (s : System A S) (a f i p c : ℕ)
      → s.ex.pool.jobs a ≡ none
      → IsSafe A S L M s
      → Moves A S L M user s
          (submit A S s a f i p c)
          (accepted_if
            (some (initialize_job f i p c))
            (submit_job_worker A S s.ex.pool a f i p c).2)
          []
          []
  unfolding submit
  submit-Moves user s a f i p c e v =
      let (after, _, outcome) = submit_job_worker A S s.ex.pool a f i p c in
      let fresh = unused-Fresh s.ex.pool.jobs a (queued A S L M s.ex.pool ++ held s.at) e v.owned in
      Moved-to A S L M user s.ex.pool (hands_of A S L M s.at)
        (Submitted-Moved A S L M user s.ex.pool after a (initialize_job f i p c) s.at.pushing
          (hands_of A S L M s.at) outcome fresh
          (submit_job_worker-Submitted A S L M s.ex.pool a f i p c e))
        (ground arith) (ground arith)

  pub submit_resumes-Moves :
      (user : UserCode) (s : System A S) (a : ℕ) (before after : List ℕ) (wait_error : Bool)
      → s.at.pushing ≡ before ++ a ∷ after
      → IsSafe A S L M s
      → Moves A S L M user s
          (submit_resumes A S s a (before ++ after) wait_error)
          (accepted_if (s.ex.pool.jobs a) (submit_job_worker_woken A S s.ex.pool a wait_error).2)
          []
          []
  unfolding submit_resumes
  submit_resumes-Moves user s a before after wait_error e v =
      let (pool', _, outcome) = submit_job_worker_woken A S s.ex.pool a wait_error in
      let ((not_null, (job, at, state)), fresh, rest) =
        OwnedBy-Holds A S L M s.ex.pool a _ (pushing-owned A S L M s a before after e v) in
      let moved =
        Submitted-Moved A S L M user s.ex.pool pool' a job (before ++ after) (hands_of A S L M s.at)
          outcome fresh (submit_job_worker_woken-Submitted A S L M s.ex.pool a job wait_error at) in
      Moved-to A S L M user s.ex.pool (hands_of A S L M s.at)
        (subst
          (λ o.
            Moved A S L M user s.ex.pool (hands_of A S L M s.at) pool' (hands_of A S L M s.at)
              (accepted_if o outcome) [] [])
          (sym at) moved)
        (ground arith) (ground arith)

  pub pop-Moves :
      (user : UserCode) (s : System A S)
      → IsSafe A S L M s
      → Moves A S L M user s (pop A S s) [] (taken s.ex.pool.jobs (worker_pops A S s.ex.pool).2) []
  unfolding pop
  pop-Moves user s v =
      let (after, _, outcome) = worker_pops A S s.ex.pool in
      Moved-to A S L M user s.ex.pool (hands_of A S L M s.at)
        (Took-Moved A S L M user false s.ex.pool after (held s.at) (hands_of A S L M s.at)
          (popping_after s.at.running outcome ++ s.at.cancelling) outcome
          (worker_pops-Took A S L M s.ex.pool (held s.at) v.owned) (running_popped s.at outcome))
        (ground arith) (ground arith)

  pub pop_resumes-Moves :
      (user : UserCode) (s : System A S) (wait_error : Bool)
      → IsSafe A S L M s
      → Moves A S L M user s
          (pop_resumes A S s wait_error)
          []
          (taken s.ex.pool.jobs (worker_pops_woken A S s.ex.pool wait_error).2)
          []
  unfolding pop_resumes
  pop_resumes-Moves user s wait_error v =
      let (after, _, outcome) = worker_pops_woken A S s.ex.pool wait_error in
      Moved-to A S L M user s.ex.pool (hands_of A S L M s.at)
        (Took-Moved A S L M user wait_error s.ex.pool after (held s.at) (hands_of A S L M s.at)
          (popping_after s.at.running outcome ++ s.at.cancelling) outcome
          (worker_pops_woken-Took A S L M s.ex.pool (held s.at) wait_error v.owned)
          (running_popped s.at outcome))
        (ground arith) (ground arith)

  pub discard-Moves :
      (user : UserCode) (s : System A S)
      → IsSafe A S L M s
      → Moves A S L M user s
          (discard A S s)
          []
          (taken s.ex.pool.jobs (discard_pops A S s.ex.pool).2)
          []
  unfolding discard
  discard-Moves user s v =
      let (after, _, outcome) = discard_pops A S s.ex.pool in
      Moved-to A S L M user s.ex.pool (hands_of A S L M s.at)
        (Took-Moved A S L M user true s.ex.pool after (held s.at) (hands_of A S L M s.at)
          (s.at.running ++ popping_after s.at.cancelling outcome) outcome
          (discard_pops-Took A S L M s.ex.pool (held s.at) v.owned)
          (cancelling_popped s.at outcome))
        (ground arith) (ground arith)

  pub run-Moves :
      (user : UserCode) (s : System A S) (a : ℕ) (before after : List ℕ)
      → s.at.running ≡ before ++ a ∷ after
      → IsSafe A S L M s
      → Moves A S L M user s
          (run A S user s a (before ++ after))
          []
          []
          (executes (s.ex.pool.jobs a) ∷ [])
  unfolding run worker_runs one_by_one
  run-Moves user s a before after e v =
      let owned = running-owned A S L M s a before after e v in
      let (kept, looped, queue, jobs) = worker_runs-OwnedBy A S L M user s.ex.pool a _ owned in
      let out : Perm (hands_of A S L M s.at) (a ∷ ((before ++ after) ++ s.at.cancelling)) =
        subst (λ rs. Perm (rs ++ s.at.cancelling) (a ∷ ((before ++ after) ++ s.at.cancelling)))
          (sym e) ∣ running_out [] before a after s.at.cancelling ∣₁ in
      ended-Moved A S L M user s.ex.pool (worker_runs A S user s.ex.pool a).0 a s.at.pushing
        (hands_of A S L M s.at) ((before ++ after) ++ s.at.cancelling) (executes (s.ex.pool.jobs a))
        owned out refl queue jobs (ground arith)

  pub cancel-Moves :
      (user : UserCode) (s : System A S) (a : ℕ) (before after : List ℕ)
      → s.at.cancelling ≡ before ++ a ∷ after
      → IsSafe A S L M s
      → Moves A S L M user s
          (cancel A S s a (before ++ after))
          []
          []
          (cancels_it (s.ex.pool.jobs a) ∷ [])
  unfolding cancel discard_cancels one_by_one
  cancel-Moves user s a before after e v =
      let owned = cancelling-owned A S L M s a before after e v in
      let (kept, looped, queue, jobs) = discard_cancels-OwnedBy A S L M s.ex.pool a _ owned in
      let out : Perm (hands_of A S L M s.at) (a ∷ (s.at.running ++ (before ++ after))) =
        subst (λ cs. Perm (s.at.running ++ cs) (a ∷ (s.at.running ++ (before ++ after)))) (sym e)
          ∣ cancelling_out [] s.at.running before a after ∣₁ in
      ended-Moved A S L M user s.ex.pool (discard_cancels A S s.ex.pool a).0 a s.at.pushing
        (hands_of A S L M s.at) (s.at.running ++ (before ++ after)) (cancels_it (s.ex.pool.jobs a))
        owned out refl queue jobs (ground arith)
