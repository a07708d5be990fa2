-- ===== src/Executor/Ownership.antt =====
-- Which jobs the threads of an executor hold, under any interleaving (src/executor.c, src/worker.c).
use boom_par.Prelude.{
  ℕ, ◌≡◌, ◌≢◌, subst, Bool, true, false, List, ◌∷◌, ◌++◌, none, arith, Outcome, waits, returns,
}
use boom_par.Cutlery.Arraylist.{Arraylist, ArraylistLaws}
use boom_par.Cutlery.Singlylist.{Singlylist, SinglylistLaws}
use boom_par.Job.{UserCode}
use boom_par.JobQueue.Refines.{closes as closes_queue, job_queue-Keeps}
use boom_par.Worker.{Pool, worker_pops, worker_pops_woken, discard_pops}
use boom_par.Worker.Sharing.{
  OwnedBy, popping_after, is_closed, OwnedBy-Perm, submit_job_worker-OwnedBy,
  submit_job_worker_woken-OwnedBy, worker_pops-Took, worker_pops_woken-Took, discard_pops-Took,
  worker_runs-OwnedBy, discard_cancels-OwnedBy,
}
use boom_par.Executor.{
  is_cached, blocking, clean_up_locked, create_worker, create_worker_started, submit_job_executor,
  submit_job_executor_leaves, shutdown_executor,
}
use boom_par.Executor.Threads.{
  enter, submit, submit_resumes, look_for_worker, look_for_jobs, create, start, leave, pop,
  pop_resumes, run, finish, close, close_resumes, look_for_leftovers, discard, cancel, await,
  await_resumes,
}
use boom_par.Executor.Places.{System}
use boom_par.Executor.Steps.{
  Step, enters, submits, submit_goes_on, looks_for_worker, looks_for_jobs, creates, starts, leaves,
  pops, pop_goes_on, runs, finishes, closes, close_goes_on, looks_for_leftovers, discards, cancels,
  awaits, await_goes_on, rouses_pusher, rouses_popper, rouses_closer, rouses_waiter, Reach, here,
  later,
}
use boom_par.Executor.Held.{
  held, held_by, pushing_out, running_out, cancelling_out, running_in, cancelling_in,
}

module _ (A : Arraylist) (S : Singlylist) (L : ArraylistLaws A) (M : SinglylistLaws S) where
  pub record IsSafe (s : System A S) : Type 0 where
    pub owned : OwnedBy A S L M s.ex.pool (held s.at)
    pub shut : is_closed A S L M s.ex.pool ≡ s.ex.shutdown_requested
    pub patient :
        is_cached s.ex.type ≡ false → s.ex.empty_job_queue_wait_time_out_in_micro_seconds ≡ blocking
    pub kept : is_cached s.ex.type ≡ false → s.ex.shutdown_requested ≡ false → s.at.finishing ≡ 0

  submit-IsSafe :
      (s : System A S) (a f i p c : ℕ)
      → s.ex.pool.jobs a ≡ none
      → IsSafe s
      → IsSafe (submit A S s a f i p c)
  unfolding submit
  submit-IsSafe s a f i p c e v =
      ground (arith, submit_job_worker-OwnedBy A S L M s.ex.pool a f i p c (held s.at) v.owned e)

  pub pushing-owned :
      (s : System A S) (a : ℕ) (before after : List ℕ)
      → s.at.pushing ≡ before ++ a ∷ after
      → IsSafe s
      → OwnedBy A S L M s.ex.pool (a ∷ held_by (before ++ after) s.at.running s.at.cancelling)
  pushing-owned s a before after e v =
      OwnedBy-Perm A S L M s.ex.pool (pushing_out before a after s.at.running s.at.cancelling) (
        subst (λ ps. OwnedBy A S L M s.ex.pool (held_by ps s.at.running s.at.cancelling)) e v.owned)

  submit_resumes-IsSafe :
      (s : System A S) (a : ℕ) (before after : List ℕ) (wait_error : Bool)
      → s.at.pushing ≡ before ++ a ∷ after
      → IsSafe s
      → IsSafe (submit_resumes A S s a (before ++ after) wait_error)
  unfolding submit_resumes
  submit_resumes-IsSafe s a before after wait_error e v = ground (
    arith,
    submit_job_worker_woken-OwnedBy A S L M s.ex.pool a _ wait_error
        (pushing-owned s a before after e v),
  )

  -- A worker or a discarder that pops ends with the job, if any.
  popped-running :
      (pool : Pool A S) (pushing running cancelling : List ℕ) (outcome : Outcome ℕ)
      → OwnedBy A S L M pool (popping_after (held_by pushing running cancelling) outcome)
      → OwnedBy A S L M pool (held_by pushing (popping_after running outcome) cancelling)
  popped-running pool pushing running cancelling waits o = o
  popped-running pool pushing running cancelling (returns a) o =
      let moved = OwnedBy-Perm A S L M pool (running_in a pushing running cancelling) in
      ground (arith, moved)

  popped-cancelling :
      (pool : Pool A S) (pushing running cancelling : List ℕ) (outcome : Outcome ℕ)
      → OwnedBy A S L M pool (popping_after (held_by pushing running cancelling) outcome)
      → OwnedBy A S L M pool (held_by pushing running (popping_after cancelling outcome))
  popped-cancelling pool pushing running cancelling waits o = o
  popped-cancelling pool pushing running cancelling (returns a) o =
      let moved = OwnedBy-Perm A S L M pool (cancelling_in a pushing running cancelling) in
      ground (arith, moved)

  pop-IsSafe : (s : System A S) → IsSafe s → IsSafe (pop A S s)
  unfolding pop
  pop-IsSafe s v =
      let (after, _, outcome) = worker_pops A S s.ex.pool in
      ground (
        arith,
        worker_pops-Took A S L M s.ex.pool (held s.at) v.owned,
        popped-running after s.at.pushing s.at.running s.at.cancelling outcome,
      )

  pop_resumes-IsSafe :
      (s : System A S) (wait_error : Bool)
      → (wait_error ≡ true → s.ex.empty_job_queue_wait_time_out_in_micro_seconds ≢ blocking)
      → IsSafe s
      → IsSafe (pop_resumes A S s wait_error)
  unfolding pop_resumes
  pop_resumes-IsSafe s wait_error n v =
      let (after, _, outcome) = worker_pops_woken A S s.ex.pool wait_error in
      ground (
        arith,
        worker_pops_woken-Took A S L M s.ex.pool (held s.at) wait_error v.owned,
        popped-running after s.at.pushing s.at.running s.at.cancelling outcome,
      )

  discard-IsSafe : (s : System A S) → IsSafe s → IsSafe (discard A S s)
  unfolding discard
  discard-IsSafe s v =
      let (after, _, outcome) = discard_pops A S s.ex.pool in
      ground (
        arith,
        discard_pops-Took A S L M s.ex.pool (held s.at) v.owned,
        popped-cancelling after s.at.pushing s.at.running s.at.cancelling outcome,
      )

  -- The thread that runs or cancels a job, with the job first.
  pub running-owned :
      (s : System A S) (a : ℕ) (before after : List ℕ)
      → s.at.running ≡ before ++ a ∷ after
      → IsSafe s
      → OwnedBy A S L M s.ex.pool (a ∷ held_by s.at.pushing (before ++ after) s.at.cancelling)
  running-owned s a before after e v =
      OwnedBy-Perm A S L M s.ex.pool (running_out s.at.pushing before a after s.at.cancelling) (
        subst (λ rs. OwnedBy A S L M s.ex.pool (held_by s.at.pushing rs s.at.cancelling)) e v.owned)

  pub cancelling-owned :
      (s : System A S) (a : ℕ) (before after : List ℕ)
      → s.at.cancelling ≡ before ++ a ∷ after
      → IsSafe s
      → OwnedBy A S L M s.ex.pool (a ∷ held_by s.at.pushing s.at.running (before ++ after))
  cancelling-owned s a before after e v =
      OwnedBy-Perm A S L M s.ex.pool (cancelling_out s.at.pushing s.at.running before a after)
        (subst (λ cs. OwnedBy A S L M s.ex.pool (held_by s.at.pushing s.at.running cs)) e v.owned)

  run-IsSafe :
      (user : UserCode) (s : System A S) (a : ℕ) (before after : List ℕ)
      → s.at.running ≡ before ++ a ∷ after
      → IsSafe s
      → IsSafe (run A S user s a (before ++ after))
  unfolding run
  run-IsSafe user s a before after e v =
      ground
        (arith, worker_runs-OwnedBy A S L M user s.ex.pool a _ (running-owned s a before after e v))

  cancel-IsSafe :
      (s : System A S) (a : ℕ) (before after : List ℕ)
      → s.at.cancelling ≡ before ++ a ∷ after
      → IsSafe s
      → IsSafe (cancel A S s a (before ++ after))
  unfolding cancel
  cancel-IsSafe s a before after e v =
      ground (
        arith,
        discard_cancels-OwnedBy A S L M s.ex.pool a _ (cancelling-owned s a before after e v),
      )

  close-IsSafe :
      (s : System A S) (shutdown_immediately : Bool)
      → IsSafe s
      → IsSafe (close A S s shutdown_immediately)
  unfolding close shutdown_executor
  close-IsSafe s shutdown_immediately v =
      ground (arith, job_queue-Keeps A S L M s.ex.pool.job_q closes_queue)

  pub Step-IsSafe : (user : UserCode) {s t : System A S} → Step A S user s t → IsSafe s → IsSafe t
  unfolding enter look_for_worker look_for_jobs create start leave finish close_resumes
      look_for_leftovers await await_resumes submit_job_executor create_worker create_worker_started
      submit_job_executor_leaves clean_up_locked
  Step-IsSafe user {s} (enters h) v = ground arith
  Step-IsSafe user {s} (submits a f i p c h e) v = submit-IsSafe s a f i p c e v
  Step-IsSafe user {s} (submit_goes_on a before after wait_error w e) v =
      submit_resumes-IsSafe s a before after wait_error e v
  Step-IsSafe user {s} (looks_for_worker h) v = ground arith
  Step-IsSafe user {s} (looks_for_jobs h) v = ground arith
  Step-IsSafe user {s} (creates h) v = ground arith
  Step-IsSafe user {s} (starts error h) v = ground arith
  Step-IsSafe user {s} (leaves h) v = ground arith
  Step-IsSafe user {s} (pops h) v = pop-IsSafe s v
  Step-IsSafe user {s} (pop_goes_on wait_error h n) v = pop_resumes-IsSafe s wait_error n v
  Step-IsSafe user {s} (runs a before after e) v = run-IsSafe user s a before after e v
  Step-IsSafe user {s} (finishes h) v = ground arith
  Step-IsSafe user {s} (closes immediately) v = close-IsSafe s immediately v
  Step-IsSafe user {s} (close_goes_on immediately h) v = ground arith
  Step-IsSafe user {s} (looks_for_leftovers h) v = ground arith
  Step-IsSafe user {s} (discards h) v = discard-IsSafe s v
  Step-IsSafe user {s} (cancels a before after e) v = cancel-IsSafe s a before after e v
  Step-IsSafe user {s} awaits v = ground arith
  Step-IsSafe user {s} (await_goes_on h) v = ground arith
  Step-IsSafe user {s} (rouses_pusher h) v = ground arith
  Step-IsSafe user {s} (rouses_popper h) v = ground arith
  Step-IsSafe user {s} (rouses_closer h) v = ground arith
  Step-IsSafe user {s} (rouses_waiter h) v = ground arith

  pub Reach-IsSafe : (user : UserCode) {s t : System A S} → IsSafe s → Reach A S user s t → IsSafe t
  Reach-IsSafe user v here = v
  Reach-IsSafe user v (later r st) = Step-IsSafe user st (Reach-IsSafe user v r)
