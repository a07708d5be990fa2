-- ===== src/Executor/Threads.antt =====
-- The threads of an executor (src/executor.c), interleaved in any order: those that submit, its
-- workers, and those that shut it down or wait for its workers.
use boom_par.Prelude.{
  ℕ, ◌+◌, ◌-◌, Bool, true, false, List, ◌∷◌, length, ◌==◌, if◌then◌else◌, Outcome, waits, returns,
  slept, resumed,
}
use boom_par.Cutlery.Arraylist.{Arraylist}
use boom_par.Cutlery.Singlylist.{Singlylist}
use boom_par.Job.{UserCode}
use boom_par.JobQueue.{is_empty_job_queue, close_job_queue}
use boom_par.Worker.{
  Pool, submit_job_worker, submit_job_worker_woken, worker_pops, worker_pops_woken, worker_runs,
  discard_pops, discard_cancels,
}
use boom_par.Executor.{
  Executor, clean_up_locked, create_worker, create_worker_started, submit_job_executor,
  lacks_idle_worker, has_jobs, submit_job_executor_leaves, shutdown_executor_round,
  shutdown_executor, wait_for_workers_round, wait_for_all_executor_workers_to_complete,
}
use boom_par.Executor.Places.{Places, System, notified, queue_notified}

module _ (A : Arraylist) (S : Singlylist) where
  unfoldable pub enter : System A S → System A S
  enter s =
      let (ex, enters) = submit_job_executor A S s.ex in
      if enters then record { ex = ex; at = record s.at { entered = s.at.entered + 1 } } else s

  -- Behind a push of the submission of the job at `address`.
  abbrev pub submission : Executor A S → Places → ℕ → Outcome Bool → Pool A S → System A S
  submission ex at address waits pool = record {
    ex = record ex { pool = pool };
    at = record at {
      pushing = address ∷ at.pushing;
      pushers = record at.pushers { asleep = at.pushers.asleep + 1 };
    };
  }
  submission ex at address (returns true) pool = record {
    ex = record ex { pool = pool };
    at = record at { queued = at.queued + 1 };
  }
  submission ex at address (returns false) pool = record {
    ex = record ex { pool = pool };
    at = record at { leaving = at.leaving + 1 };
  }

  unfoldable pub submit : System A S → ℕ → ℕ → ℕ → ℕ → ℕ → System A S
  submit s address function_p input_p promise_for_output cancellation_callback =
      let (pool, notices, outcome) =
        submit_job_worker A S s.ex.pool address function_p input_p promise_for_output
          cancellation_callback in
      let at = record s.at { entered = s.at.entered - 1 } in
      submission s.ex (queue_notified notices at) address outcome pool

  -- The pusher of `address` wakes; the others are `rest`.
  unfoldable pub submit_resumes : System A S → ℕ → List ℕ → Bool → System A S
  submit_resumes s address rest wait_error =
      let (pool, notices, outcome) = submit_job_worker_woken A S s.ex.pool address wait_error in
      let at = record s.at { pushing = rest; pushers = resumed s.at.pushers } in
      submission s.ex (queue_notified notices at) address outcome pool

  unfoldable pub look_for_worker : System A S → System A S
  look_for_worker s =
      let at = record s.at { queued = s.at.queued - 1 } in
      if lacks_idle_worker A S s.ex
      then record s { at = record at { lacking = at.lacking + 1 } }
      else record s { at = record at { leaving = at.leaving + 1 } }

  unfoldable pub look_for_jobs : System A S → System A S
  look_for_jobs s =
      let at = record s.at { lacking = s.at.lacking - 1 } in
      if has_jobs A S s.ex
      then record s { at = record at { creating = at.creating + 1 } }
      else record s { at = record at { leaving = at.leaving + 1 } }

  unfoldable pub create : System A S → System A S
  create s =
      let (ex, starts) = create_worker A S s.ex in
      let at = record s.at { creating = s.at.creating - 1 } in
      if starts
      then record { ex = ex; at = record at { starting = at.starting + 1 } }
      else record { ex = ex; at = record at { leaving = at.leaving + 1 } }

  -- `start_worker` returned, with an error or with a new thread.
  unfoldable pub start : System A S → Bool → System A S
  start s error =
      let (ex, notices, added) = create_worker_started A S s.ex error in
      let at = record s.at { starting = s.at.starting - 1; leaving = s.at.leaving + 1 } in
      record {
        ex = ex;
        at = notified notices (if added then record at { working = at.working + 1 } else at);
      }

  unfoldable pub leave : System A S → System A S
  leave s =
      let (ex, notices) = submit_job_executor_leaves A S s.ex in
      record { ex = ex; at = notified notices (record s.at { leaving = s.at.leaving - 1 }) }

  -- Behind a section of the pop of a worker: it waits, leaves its loop, or has a job.
  abbrev pub worker_popped : Executor A S → Places → Outcome ℕ → Pool A S → System A S
  worker_popped ex at waits pool = record {
    ex = record ex { pool = pool };
    at = record at { poppers = record at.poppers { asleep = at.poppers.asleep + 1 } };
  }
  worker_popped ex at (returns address) pool = record {
    ex = record ex { pool = pool };
    at =
        if address == 0
        then record at { finishing = at.finishing + 1 }
        else record at { running = address ∷ at.running };
  }

  unfoldable pub pop : System A S → System A S
  pop s =
      let (pool, notices, outcome) = worker_pops A S s.ex.pool in
      let at = record s.at { working = s.at.working - 1 } in
      worker_popped s.ex (queue_notified notices at) outcome pool

  unfoldable pub pop_resumes : System A S → Bool → System A S
  pop_resumes s wait_error =
      let (pool, notices, outcome) = worker_pops_woken A S s.ex.pool wait_error in
      let at = record s.at { poppers = resumed s.at.poppers } in
      worker_popped s.ex (queue_notified notices at) outcome pool

  -- The worker with the job at `address` runs it; the others are `rest`.
  unfoldable pub run : UserCode → System A S → ℕ → List ℕ → System A S
  run user s address rest =
      let (pool, _) = worker_runs A S user s.ex.pool address in
      record {
        ex = record s.ex { pool = pool };
        at = record s.at { running = rest; working = s.at.working + 1 };
      }

  unfoldable pub finish : System A S → System A S
  finish s =
      let (ex, notices) = clean_up_locked A S s.ex in
      record { ex = ex; at = notified notices (record s.at { finishing = s.at.finishing - 1 }) }

  -- Behind the unlock in `shutdown_executor`, when it was not requested before.
  abbrev closed : Bool → Outcome (Unit {0}) → Places → Places
  closed shutdown_immediately waits at = at
  closed shutdown_immediately (returns tt) at =
      if shutdown_immediately then record at { discarders = at.discarders + 1 } else at

  unfoldable pub close : System A S → Bool → System A S
  close s shutdown_immediately =
      let (ex, _, outcome) = shutdown_executor A S s.ex in
      let (_, notices, _) = close_job_queue A S s.ex.pool.job_q in
      let at = record s.at { closers = slept outcome s.at.closers } in
      record {
        ex = ex;
        at =
            if s.ex.shutdown_requested
            then at
            else closed shutdown_immediately outcome (queue_notified notices at);
      }

  -- The argument `shutdown_immediately` of the thread that wakes is of use only here.
  unfoldable pub close_resumes : System A S → Bool → System A S
  close_resumes s shutdown_immediately =
      let outcome = shutdown_executor_round A S s.ex in
      let at = record s.at { closers = slept outcome (resumed s.at.closers) } in
      record s { at = closed shutdown_immediately outcome at }

  unfoldable pub look_for_leftovers : System A S → System A S
  look_for_leftovers s =
      let at = record s.at { discarders = s.at.discarders - 1 } in
      if is_empty_job_queue A S s.ex.pool.job_q
      then record s { at = at }
      else record s { at = record at { discarding = at.discarding + 1 } }

  abbrev pub discard_popped : Executor A S → Places → Outcome ℕ → Pool A S → System A S
  discard_popped ex at waits pool = record {
    ex = record ex { pool = pool };
    at = record at { discarders = at.discarders + 1 };
  }
  discard_popped ex at (returns address) pool = record {
    ex = record ex { pool = pool };
    at =
        if address == 0
        then record at { discarders = at.discarders + 1 }
        else record at { cancelling = address ∷ at.cancelling };
  }

  unfoldable pub discard : System A S → System A S
  discard s =
      let (pool, notices, outcome) = discard_pops A S s.ex.pool in
      let at = record s.at { discarding = s.at.discarding - 1 } in
      discard_popped s.ex (queue_notified notices at) outcome pool

  unfoldable pub cancel : System A S → ℕ → List ℕ → System A S
  cancel s address rest =
      let (pool, _) = discard_cancels A S s.ex.pool address in
      record {
        ex = record s.ex { pool = pool };
        at = record s.at { cancelling = rest; discarders = s.at.discarders + 1 };
      }

  unfoldable pub await : System A S → System A S
  await s =
      let outcome = wait_for_all_executor_workers_to_complete A S s.ex in
      record s { at = record s.at { waiters = slept outcome s.at.waiters } }

  unfoldable pub await_resumes : System A S → System A S
  await_resumes s =
      let outcome = wait_for_workers_round A S s.ex in
      record s { at = record s.at { waiters = slept outcome (resumed s.at.waiters) } }

  -- The threads inside submit_job_executor.
  abbrev pub submitters : Places → ℕ
  submitters at =
      at.entered
      + length at.pushing
      + at.queued
      + at.lacking
      + at.creating
      + at.starting
      + at.leaving
