-- ===== src/Executor/Counting.antt =====
-- The counts of an executor and the threads that they count, under any interleaving (src/executor.c).
use boom_par.SyncQueue.Threads.{on_empty}
use boom_par.JobQueue.{close_job_queue}
use boom_par.Worker.{
  submit_job_worker, submit_job_worker_woken, worker_pops, worker_pops_woken, discard_pops,
}
use boom_par.Prelude.{
  told-counted, resumed, ℕ, ◌+◌, ◌≤◌, ◌<◌, ◌≡◌, ap, Bool, true, List, ◌∷◌, ◌++◌, arith, length,
  length-append, word_size,
}
use boom_par.Cutlery.Arraylist.{Arraylist}
use boom_par.Cutlery.Singlylist.{Singlylist}
use boom_par.Job.{UserCode}
use boom_par.Executor.{
  clean_up_locked, create_worker, create_worker_started, submit_job_executor,
  submit_job_executor_leaves, shutdown_executor_round, shutdown_executor, wait_for_workers_round,
  wait_for_all_executor_workers_to_complete,
}
use boom_par.Executor.Threads.{
  submitters, enter, submit, submit_resumes, look_for_worker, look_for_jobs, create, start, leave,
  pop, pop_resumes, run, finish, close, close_resumes, look_for_leftovers, discard, cancel, await,
  await_resumes,
}
use boom_par.Executor.Places.{System}
use boom_par.Executor.Steps.{
  Step, enters, submits, submit_goes_on, looks_for_worker, looks_for_jobs, creates, starts, leaves,
  pops, pop_goes_on, runs, finishes, closes, close_goes_on, looks_for_leftovers, discards, cancels,
  awaits, await_goes_on, rouses_pusher, rouses_popper, rouses_closer, rouses_waiter, Reach, here,
  later,
}

module _ (A : Arraylist) (S : Singlylist) where
  pub record IsCounted (s : System A S) : Type 0 where
    pub workers :
        s.ex.active_worker_count
        ≡ s.at.starting
          + s.at.working
          + (s.at.poppers.asleep + s.at.poppers.woken)
          + length s.at.running
          + s.at.finishing
    pub limited : s.ex.active_worker_count ≤ s.ex.worker_count_limit
    pub limit : s.ex.worker_count_limit < word_size
    pub submitting : s.ex.submitters_count ≡ submitters A S s.at
    pub submittable : submitters A S s.at < word_size
    pub closing : 0 < s.at.closers.asleep + s.at.closers.woken → s.ex.shutdown_requested ≡ true
    pub closers_due : 0 < s.at.closers.asleep → 0 < s.ex.submitters_count
    pub waiters_due : 0 < s.at.waiters.asleep → 0 < s.ex.active_worker_count

  enter-IsCounted :
      (s : System A S) → submitters A S s.at + 1 < word_size → IsCounted s → IsCounted (enter A S s)
  unfolding enter submit_job_executor
  enter-IsCounted s h v = ground arith

  submit-IsCounted :
      (s : System A S) (a f i p c : ℕ)
      → 0 < s.at.entered
      → IsCounted s
      → IsCounted (submit A S s a f i p c)
  unfolding submit
  submit-IsCounted s a f i p c h v =
      let (_, notices, _) = submit_job_worker A S s.ex.pool a f i p c in
      ground (arith, told-counted on_empty notices s.at.poppers)

  submit_resumes-IsCounted :
      (s : System A S) (a : ℕ) (before after : List ℕ) (wait_error : Bool)
      → s.at.pushing ≡ before ++ a ∷ after
      → IsCounted s
      → IsCounted (submit_resumes A S s a (before ++ after) wait_error)
  unfolding submit_resumes
  submit_resumes-IsCounted s a before after wait_error e v =
      let (_, notices, _) = submit_job_worker_woken A S s.ex.pool a wait_error in
      ground (
        arith,
        told-counted on_empty notices s.at.poppers,
        ap length e,
        length-append before (a ∷ after),
        length-append before after,
      )

  look_for_worker-IsCounted :
      (s : System A S) → 0 < s.at.queued → IsCounted s → IsCounted (look_for_worker A S s)
  unfolding look_for_worker
  look_for_worker-IsCounted s h v = ground arith

  look_for_jobs-IsCounted :
      (s : System A S) → 0 < s.at.lacking → IsCounted s → IsCounted (look_for_jobs A S s)
  unfolding look_for_jobs
  look_for_jobs-IsCounted s h v = ground arith

  create-IsCounted : (s : System A S) → 0 < s.at.creating → IsCounted s → IsCounted (create A S s)
  unfolding create create_worker
  create-IsCounted s h v = ground arith

  start-IsCounted :
      (s : System A S) (error : Bool)
      → 0 < s.at.starting
      → IsCounted s
      → IsCounted (start A S s error)
  unfolding start create_worker_started
  start-IsCounted s error h v = ground arith

  leave-IsCounted : (s : System A S) → 0 < s.at.leaving → IsCounted s → IsCounted (leave A S s)
  unfolding leave submit_job_executor_leaves
  leave-IsCounted s h v = ground arith

  pop-IsCounted : (s : System A S) → 0 < s.at.working → IsCounted s → IsCounted (pop A S s)
  unfolding pop
  pop-IsCounted s h v =
      let (_, notices, _) = worker_pops A S s.ex.pool in
      ground (arith, told-counted on_empty notices s.at.poppers)

  pop_resumes-IsCounted :
      (s : System A S) (wait_error : Bool)
      → 0 < s.at.poppers.woken
      → IsCounted s
      → IsCounted (pop_resumes A S s wait_error)
  unfolding pop_resumes
  pop_resumes-IsCounted s wait_error h v =
      let (_, notices, _) = worker_pops_woken A S s.ex.pool wait_error in
      ground (arith, told-counted on_empty notices (resumed s.at.poppers))

  run-IsCounted :
      (user : UserCode) (s : System A S) (a : ℕ) (before after : List ℕ)
      → s.at.running ≡ before ++ a ∷ after
      → IsCounted s
      → IsCounted (run A S user s a (before ++ after))
  unfolding run
  run-IsCounted user s a before after e v =
      ground (arith, ap length e, length-append before (a ∷ after), length-append before after)

  finish-IsCounted : (s : System A S) → 0 < s.at.finishing → IsCounted s → IsCounted (finish A S s)
  unfolding finish clean_up_locked
  finish-IsCounted s h v = ground arith

  discard-IsCounted : (s : System A S) → IsCounted s → IsCounted (discard A S s)
  unfolding discard
  discard-IsCounted s v =
      let (_, notices, _) = discard_pops A S s.ex.pool in
      ground (arith, told-counted on_empty notices s.at.poppers)

  close-IsCounted :
      (s : System A S) (shutdown_immediately : Bool)
      → IsCounted s
      → IsCounted (close A S s shutdown_immediately)
  unfolding close shutdown_executor shutdown_executor_round
  close-IsCounted s shutdown_immediately v =
      let (_, notices, _) = close_job_queue A S s.ex.pool.job_q in
      ground (arith, told-counted on_empty notices s.at.poppers)

  close_resumes-IsCounted :
      (s : System A S) (shutdown_immediately : Bool)
      → 0 < s.at.closers.woken
      → IsCounted s
      → IsCounted (close_resumes A S s shutdown_immediately)
  unfolding close_resumes shutdown_executor_round
  close_resumes-IsCounted s shutdown_immediately h v = ground arith

  await-IsCounted : (s : System A S) → IsCounted s → IsCounted (await A S s)
  unfolding await wait_for_all_executor_workers_to_complete wait_for_workers_round
  await-IsCounted s v = ground arith

  await_resumes-IsCounted :
      (s : System A S) → 0 < s.at.waiters.woken → IsCounted s → IsCounted (await_resumes A S s)
  unfolding await_resumes wait_for_workers_round
  await_resumes-IsCounted s h v = ground arith

  Step-IsCounted :
      (user : UserCode) {s t : System A S} → Step A S user s t → IsCounted s → IsCounted t
  unfolding look_for_leftovers discard cancel
  Step-IsCounted user {s} (enters h) v = enter-IsCounted s h v
  Step-IsCounted user {s} (submits a f i p c h e) v = submit-IsCounted s a f i p c h v
  Step-IsCounted user {s} (submit_goes_on a before after wait_error w e) v =
      submit_resumes-IsCounted s a before after wait_error e v
  Step-IsCounted user {s} (looks_for_worker h) v = look_for_worker-IsCounted s h v
  Step-IsCounted user {s} (looks_for_jobs h) v = look_for_jobs-IsCounted s h v
  Step-IsCounted user {s} (creates h) v = create-IsCounted s h v
  Step-IsCounted user {s} (starts error h) v = start-IsCounted s error h v
  Step-IsCounted user {s} (leaves h) v = leave-IsCounted s h v
  Step-IsCounted user {s} (pops h) v = pop-IsCounted s h v
  Step-IsCounted user {s} (pop_goes_on wait_error h n) v = pop_resumes-IsCounted s wait_error h v
  Step-IsCounted user {s} (runs a before after e) v = run-IsCounted user s a before after e v
  Step-IsCounted user {s} (finishes h) v = finish-IsCounted s h v
  Step-IsCounted user {s} (closes immediately) v = close-IsCounted s immediately v
  Step-IsCounted user {s} (close_goes_on immediately h) v =
      close_resumes-IsCounted s immediately h v
  Step-IsCounted user {s} (looks_for_leftovers h) v = ground arith
  Step-IsCounted user {s} (discards h) v = discard-IsCounted s v
  Step-IsCounted user {s} (cancels a before after e) v = ground arith
  Step-IsCounted user {s} awaits v = await-IsCounted s v
  Step-IsCounted user {s} (await_goes_on h) v = await_resumes-IsCounted s h v
  Step-IsCounted user {s} (rouses_pusher h) v = ground arith
  Step-IsCounted user {s} (rouses_popper h) v = ground arith
  Step-IsCounted user {s} (rouses_closer h) v = ground arith
  Step-IsCounted user {s} (rouses_waiter h) v = ground arith

  pub Reach-IsCounted :
      (user : UserCode) {s t : System A S} → IsCounted s → Reach A S user s t → IsCounted t
  Reach-IsCounted user v here = v
  Reach-IsCounted user v (later r st) = Step-IsCounted user st (Reach-IsCounted user v r)
