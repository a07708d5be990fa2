-- ===== src/Executor/Measure.antt =====
-- A measure of the sections that the threads of an executor that is shut down have left, and how
-- those of submitters and workers lessen it (src/executor.c, src/worker.c).
use boom_par.SyncQueue.Threads.{on_empty}
use boom_par.Prelude.{
  told-counted, resumed, ℕ, ◌+◌, ◌*◌, ◌≤◌, ◌<◌, ◌≡◌, ap, Bool, true, List, ◌∷◌, ◌++◌, none, arith,
  length, length-append, if◌then◌else◌, ◌==◌,
}
use boom_par.Executor.Places.{System}
use boom_par.Cutlery.Arraylist.{Arraylist, ArraylistLaws}
use boom_par.Cutlery.Singlylist.{Singlylist, SinglylistLaws}
use boom_par.Job.{UserCode}
use boom_par.Worker.{submit_job_worker, submit_job_worker_woken, worker_pops, worker_pops_woken}
use boom_par.Worker.Ready.{queued}
use boom_par.Worker.Submission.{submit_job_worker-Submitted, submit_job_worker_woken-Submitted}
use boom_par.Worker.Sharing.{
  worker_pops-Took, worker_pops_woken-Took, worker_runs-OwnedBy, OwnedBy-Holds,
}
use boom_par.Executor.Held.{held}
use boom_par.Executor.Ownership.{IsSafe, pushing-owned, running-owned}
use boom_par.Executor.Threads.{submit, submit_resumes, pop, pop_resumes, run}
use boom_par.Executor.Steps.{
  Step, submits, submit_goes_on, looks_for_worker, looks_for_jobs, creates, starts, leaves, pops,
  pop_goes_on, runs, finishes, close_goes_on, looks_for_leftovers, discards, cancels, Reach, here,
  later,
}
use boom_par.Executor.Leftovers.{weigh, if_empty, if_filled}

module _ (A : Arraylist) (S : Singlylist) (L : ArraylistLaws A) (M : SinglylistLaws S) where
  -- At most how many sections the submitters, the workers and the threads that discard jobs have left,
  -- once no job is accepted.
  abbrev pub sections_left : System A S → ℕ
  sections_left s =
      s.at.entered * 2
      + length s.at.pushing * 2
      + s.at.queued * 7
      + s.at.lacking * 6
      + s.at.creating * 5
      + s.at.starting * 4
      + s.at.leaving
      + s.at.working * 2
      + (s.at.poppers.asleep + s.at.poppers.woken) * 2
      + length s.at.running * 3
      + s.at.finishing
      + length (queued A S L M s.ex.pool) * 3
      + weigh (queued A S L M s.ex.pool) (if_empty s.at) (if_filled s.at)

  -- Whether a step is a section of a submitter, of a worker, or of a thread in shutdown_executor that
  -- has no submitter to wait for.
  abbrev pub own : {user : UserCode} {s t : System A S} → Step A S user s t → ℕ
  own (submits a f i p c h e) = 1
  own (submit_goes_on a before after wait_error w e) = 1
  own (looks_for_worker h) = 1
  own (looks_for_jobs h) = 1
  own (creates h) = 1
  own (starts error h) = 1
  own (leaves h) = 1
  own (pops h) = 1
  own (pop_goes_on wait_error h n) = 1
  own (runs a before after e) = 1
  own (finishes h) = 1
  own {s = s} (close_goes_on immediately h) = if s.ex.submitters_count == 0 then 1 else 0
  own (looks_for_leftovers h) = 1
  own (discards h) = 1
  own (cancels a before after e) = 1
  own _ = 0

  unfoldable pub own_sections : {user : UserCode} {s t : System A S} → Reach A S user s t → ℕ
  own_sections here = 0
  own_sections (later r step) = own_sections r + own step

  -- A step from `s` to `t` that counts as `sections`, behind the shutdown.
  abbrev pub Nearer : ℕ → System A S → System A S → Type 0
  Nearer sections s t =
      (sections + sections_left t ≤ sections_left s) × (t.ex.shutdown_requested ≡ true)

  pub submit-Nearer :
      (s : System A S) (a f i p c : ℕ)
      → 0 < s.at.entered
      → s.ex.pool.jobs a ≡ none
      → IsSafe A S L M s
      → s.ex.shutdown_requested ≡ true
      → Nearer 1 s (submit A S s a f i p c)
  unfolding submit
  submit-Nearer s a f i p c h e v shut =
      let (_, notices, _) = submit_job_worker A S s.ex.pool a f i p c in
      ground (
        arith,
        told-counted on_empty notices s.at.poppers,
        submit_job_worker-Submitted A S L M s.ex.pool a f i p c e,
        v.shut,
      )

  pub submit_resumes-Nearer :
      (s : System A S) (a : ℕ) (before after : List ℕ) (wait_error : Bool)
      → s.at.pushing ≡ before ++ a ∷ after
      → IsSafe A S L M s
      → s.ex.shutdown_requested ≡ true
      → Nearer 1 s (submit_resumes A S s a (before ++ after) wait_error)
  unfolding submit_resumes
  submit_resumes-Nearer s a before after wait_error e v shut =
      let (_, notices, _) = submit_job_worker_woken A S s.ex.pool a wait_error in
      let ((not_null, (job, at, state)), fresh, rest) =
        OwnedBy-Holds A S L M s.ex.pool a _ (pushing-owned A S L M s a before after e v) in
      ground (
        arith,
        told-counted on_empty notices s.at.poppers,
        submit_job_worker_woken-Submitted A S L M s.ex.pool a job wait_error at,
        v.shut,
        ap length e,
        length-append before (a ∷ after),
        length-append before after,
      )

  pub pop-Nearer :
      (s : System A S)
      → 0 < s.at.working
      → IsSafe A S L M s
      → s.ex.shutdown_requested ≡ true
      → Nearer 1 s (pop A S s)
  unfolding pop
  pop-Nearer s h v shut =
      let (_, notices, _) = worker_pops A S s.ex.pool in
      ground (
        arith,
        told-counted on_empty notices s.at.poppers,
        worker_pops-Took A S L M s.ex.pool (held s.at) v.owned,
        v.shut,
      )

  pub pop_resumes-Nearer :
      (s : System A S) (wait_error : Bool)
      → 0 < s.at.poppers.woken
      → IsSafe A S L M s
      → s.ex.shutdown_requested ≡ true
      → Nearer 1 s (pop_resumes A S s wait_error)
  unfolding pop_resumes
  pop_resumes-Nearer s wait_error h v shut =
      let (_, notices, _) = worker_pops_woken A S s.ex.pool wait_error in
      ground (
        arith,
        told-counted on_empty notices (resumed s.at.poppers),
        worker_pops_woken-Took A S L M s.ex.pool (held s.at) wait_error v.owned,
        v.shut,
      )

  pub run-Nearer :
      (user : UserCode) (s : System A S) (a : ℕ) (before after : List ℕ)
      → s.at.running ≡ before ++ a ∷ after
      → IsSafe A S L M s
      → s.ex.shutdown_requested ≡ true
      → Nearer 1 s (run A S user s a (before ++ after))
  unfolding run
  run-Nearer user s a before after e v shut = ground (
    arith,
    worker_runs-OwnedBy A S L M user s.ex.pool a _ (running-owned A S L M s a before after e v),
    ap length e,
    length-append before (a ∷ after),
    length-append before after,
  )
