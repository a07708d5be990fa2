-- ===== src/Executor/Completion.antt =====
-- A fixed executor leaves no job behind (src/executor.c).
use mathlib.Core.List.{Perm, append-nil}
use mathlib.Core.List.Perm
use boom_par.SyncQueue.Threads.{on_empty}
use boom_par.JobQueue.{close_job_queue}
use boom_par.Worker.{
  submit_job_worker, submit_job_worker_woken, worker_pops, worker_pops_woken, discard_pops,
}
use boom_par.Prelude.{
  told-counted, resumed, ℕ, ◌+◌, ◌<◌, ◌≡◌, ◌≢◌, ap, ◌∙◌, Bool, true, false, List, [], ◌∷◌, ◌++◌,
  none, some, arith, map, length, word_size, returns,
}
use boom_par.Cutlery.Arraylist.{Arraylist, ArraylistLaws}
use boom_par.Cutlery.Singlylist.{Singlylist, SinglylistLaws}
use boom_par.Job.{UserCode}
use boom_par.JobQueue.Refines.{closes as closes_queue, job_queue-Keeps}
use boom_par.Worker.Ready.{queued}
use boom_par.Worker.Submission.{submit_job_worker-Submitted, submit_job_worker_woken-Submitted}
use boom_par.Worker.Sharing.{
  worker_pops-Took, worker_pops_woken-Took, discard_pops-Took, discard_cancels-OwnedBy,
  OwnedBy-Holds,
}
use boom_par.Executor.{
  Executor, fixed_thread_count_executor, is_cached, blocking, wait_for_workers_round,
  wait_for_all_executor_workers_to_complete, create_workers_upfront, create_worker,
  create_worker_started, submit_job_executor, submit_job_executor_leaves, shutdown_executor,
  clean_up_locked,
}
use boom_par.Executor.Held.{held}
use boom_par.Executor.Events.{job_of, accepted, ended, in_hand}
use boom_par.Executor.Counts.{opened, executor-IsCounted}
use boom_par.Executor.Safety.{new_executor-IsSafe}
use boom_par.Executor.Ownership.{IsSafe, Reach-IsSafe, pushing-owned, cancelling-owned}
use boom_par.Executor.Moves.{eq-Perm}
use boom_par.Executor.History.{executor-ends}
use boom_par.Executor.Threads.{
  enter, submit, submit_resumes, look_for_worker, look_for_jobs, create, start, leave, pop,
  pop_resumes, run, finish, close, close_resumes, look_for_leftovers, discard, cancel, await,
  await_resumes,
}
use boom_par.Executor.Places.{System}
use boom_par.Executor.Steps.{
  Step, enters, submits, submit_goes_on, looks_for_worker, looks_for_jobs, creates, starts, leaves,
  pops, pop_goes_on, runs, finishes, closes, close_goes_on, looks_for_leftovers, discards, cancels,
  awaits, await_goes_on, rouses_pusher, rouses_popper, rouses_closer, rouses_waiter, Reach, here,
  later,
}
use boom_par.Executor.Creation.{Arguments, created_by}

module _ (A : Arraylist) (S : Singlylist) (L : ArraylistLaws A) (M : SinglylistLaws S) where
  -- The workers in the loop of worker_function.
  abbrev in_loop : System A S → ℕ
  in_loop s = s.at.working + (s.at.poppers.asleep + s.at.poppers.woken) + length s.at.running

  -- A fixed executor has a worker in its loop, or it is shut down and its queue is empty.
  abbrev IsManned : System A S → Type 0
  IsManned s =
      (is_cached s.ex.type ≡ false)
      × (in_loop s ≡ 0 → (queued A S L M s.ex.pool ≡ []) × (s.ex.shutdown_requested ≡ true))

  submit-IsManned :
      (s : System A S) (a f i p c : ℕ)
      → s.ex.pool.jobs a ≡ none
      → IsSafe A S L M s
      → IsManned s
      → IsManned (submit A S s a f i p c)
  unfolding submit
  submit-IsManned s a f i p c e v m =
      let (_, notices, _) = submit_job_worker A S s.ex.pool a f i p c in
      ground (
        arith,
        told-counted on_empty notices s.at.poppers,
        submit_job_worker-Submitted A S L M s.ex.pool a f i p c e,
        v.shut,
      )

  submit_resumes-IsManned :
      (s : System A S) (a : ℕ) (before after : List ℕ) (wait_error : Bool)
      → s.at.pushing ≡ before ++ a ∷ after
      → IsSafe A S L M s
      → IsManned s
      → IsManned (submit_resumes A S s a (before ++ after) wait_error)
  unfolding submit_resumes
  submit_resumes-IsManned s a before after wait_error e v m =
      let (_, notices, _) = submit_job_worker_woken A S s.ex.pool a wait_error in
      let ((not_null, (job, at, state)), fresh, rest) =
        OwnedBy-Holds A S L M s.ex.pool a _ (pushing-owned A S L M s a before after e v) in
      ground (
        arith,
        told-counted on_empty notices s.at.poppers,
        submit_job_worker_woken-Submitted A S L M s.ex.pool a job wait_error at,
        v.shut,
      )

  pop-IsManned : (s : System A S) → IsSafe A S L M s → IsManned s → IsManned (pop A S s)
  unfolding pop
  pop-IsManned s v m =
      let (_, notices, _) = worker_pops A S s.ex.pool in
      ground (
        arith,
        told-counted on_empty notices s.at.poppers,
        worker_pops-Took A S L M s.ex.pool (held s.at) v.owned,
        v.shut,
      )

  pop_resumes-IsManned :
      (s : System A S) (wait_error : Bool)
      → (wait_error ≡ true → s.ex.empty_job_queue_wait_time_out_in_micro_seconds ≢ blocking)
      → IsSafe A S L M s
      → IsManned s
      → IsManned (pop_resumes A S s wait_error)
  unfolding pop_resumes
  pop_resumes-IsManned s wait_error n v m =
      let (_, notices, _) = worker_pops_woken A S s.ex.pool wait_error in
      ground (
        arith,
        told-counted on_empty notices (resumed s.at.poppers),
        worker_pops_woken-Took A S L M s.ex.pool (held s.at) wait_error v.owned,
        v.shut,
        v.patient,
      )

  close-IsManned :
      (s : System A S) (shutdown_immediately : Bool)
      → IsManned s
      → IsManned (close A S s shutdown_immediately)
  unfolding close shutdown_executor
  close-IsManned s shutdown_immediately m =
      let (_, notices, _) = close_job_queue A S s.ex.pool.job_q in
      ground (
        arith,
        told-counted on_empty notices s.at.poppers,
        job_queue-Keeps A S L M s.ex.pool.job_q closes_queue,
      )

  discard-IsManned : (s : System A S) → IsSafe A S L M s → IsManned s → IsManned (discard A S s)
  unfolding discard
  discard-IsManned s v m =
      let (_, notices, _) = discard_pops A S s.ex.pool in
      ground (
        arith,
        told-counted on_empty notices s.at.poppers,
        discard_pops-Took A S L M s.ex.pool (held s.at) v.owned,
      )

  cancel-IsManned :
      (s : System A S) (a : ℕ) (before after : List ℕ)
      → s.at.cancelling ≡ before ++ a ∷ after
      → IsSafe A S L M s
      → IsManned s
      → IsManned (cancel A S s a (before ++ after))
  unfolding cancel
  cancel-IsManned s a before after e v m = ground (
    arith,
    discard_cancels-OwnedBy A S L M s.ex.pool a _ (cancelling-owned A S L M s a before after e v),
  )

  Step-IsManned :
      (user : UserCode) {s t : System A S}
      → Step A S user s t
      → IsSafe A S L M s
      → IsManned s
      → IsManned t
  unfolding enter look_for_worker look_for_jobs create start leave run finish close_resumes
      look_for_leftovers await await_resumes submit_job_executor create_worker create_worker_started
      submit_job_executor_leaves clean_up_locked
  Step-IsManned user {s} (enters h) v m = ground arith
  Step-IsManned user {s} (submits a f i p c h e) v m = submit-IsManned s a f i p c e v m
  Step-IsManned user {s} (submit_goes_on a before after wait_error w e) v m =
      submit_resumes-IsManned s a before after wait_error e v m
  Step-IsManned user {s} (looks_for_worker h) v m = ground arith
  Step-IsManned user {s} (looks_for_jobs h) v m = ground arith
  Step-IsManned user {s} (creates h) v m = ground arith
  Step-IsManned user {s} (starts error h) v m = ground arith
  Step-IsManned user {s} (leaves h) v m = ground arith
  Step-IsManned user {s} (pops h) v m = pop-IsManned s v m
  Step-IsManned user {s} (pop_goes_on wait_error h n) v m = pop_resumes-IsManned s wait_error n v m
  Step-IsManned user {s} (runs a before after e) v m = ground arith
  Step-IsManned user {s} (finishes h) v m = ground arith
  Step-IsManned user {s} (closes immediately) v m = close-IsManned s immediately m
  Step-IsManned user {s} (close_goes_on immediately h) v m = ground arith
  Step-IsManned user {s} (looks_for_leftovers h) v m = ground arith
  Step-IsManned user {s} (discards h) v m = discard-IsManned s v m
  Step-IsManned user {s} (cancels a before after e) v m = cancel-IsManned s a before after e v m
  Step-IsManned user {s} awaits v m = ground arith
  Step-IsManned user {s} (await_goes_on h) v m = ground arith
  Step-IsManned user {s} (rouses_pusher h) v m = ground arith
  Step-IsManned user {s} (rouses_popper h) v m = ground arith
  Step-IsManned user {s} (rouses_closer h) v m = ground arith
  Step-IsManned user {s} (rouses_waiter h) v m = ground arith

  Reach-IsManned :
      (user : UserCode) {s t : System A S}
      → IsSafe A S L M s
      → IsManned s
      → Reach A S user s t
      → IsManned t
  Reach-IsManned user v m here = m
  Reach-IsManned user v m (later r step) =
      Step-IsManned user step (Reach-IsSafe A S L M user v r) (Reach-IsManned user v m r)

  -- A fixed executor that has at least one worker, and is shut down, so that
  -- wait_for_all_executor_workers_to_complete returned 1 and no thread still cancels a job: its queue
  -- is empty, and the jobs that it accepted are, in some order, those that were executed or
  -- cancelled. None is left behind, whatever the order of the sections of the threads was.
  pub fixed_executor-completes :
      (user : UserCode) (args : Arguments) (ex : Executor A S) (errors : ℕ → Bool) (s : System A S)
      → created_by A S args ≡ some ex
      → args.type ≡ fixed_thread_count_executor
      → args.worker_count_limit < word_size
      → 0 < (create_workers_upfront A S errors ex).1
      → (r : Reach A S user (opened A S (create_workers_upfront A S errors ex)) s)
      → wait_for_all_executor_workers_to_complete A S s.ex ≡ returns true
      → s.at.cancelling ≡ []
      → (queued A S L M s.ex.pool ≡ []) × Perm (accepted A S r) (map job_of (ended A S r))
  unfolding wait_for_all_executor_workers_to_complete wait_for_workers_round
  fixed_executor-completes user args ex errors s e fixed_count h manned r complete done =
      let (safe, empty, same, fixed) = new_executor-IsSafe A S L M args ex errors e in
      let counted = executor-IsCounted A S user args ex errors s e h r in
      let start : IsManned (opened A S (create_workers_upfront A S errors ex)) = ground arith in
      let idle : queued A S L M s.ex.pool ≡ [] = ground (arith, Reach-IsManned user safe start r) in
      let running : s.at.running ≡ [] = ground arith in
      let serial = executor-ends A S L M user args ex errors s e r in
      let endings = map job_of (ended A S r) in
      let all =
        ap (λ q. endings ++ in_hand A S s ++ map s.ex.pool.jobs q) idle
        ∙ append-nil (endings ++ in_hand A S s)
        ∙ ap (λ rs. endings ++ map s.ex.pool.jobs (rs ++ s.at.cancelling)) running
        ∙ ap (λ cs. endings ++ map s.ex.pool.jobs cs) done
        ∙ append-nil endings in
      (idle, Perm.trans serial.0 (eq-Perm all))
