-- ===== src/Executor/Steps.antt =====
-- The steps that the threads of an executor take, in any order (src/executor.c).
use boom_par.Prelude.{ℕ, ◌+◌, ◌<◌, ◌≡◌, ◌≢◌, Bool, true, List, ◌∷◌, ◌++◌, none, word_size, roused}
use boom_par.Cutlery.Arraylist.{Arraylist}
use boom_par.Cutlery.Singlylist.{Singlylist}
use boom_par.Job.{UserCode}
use boom_par.Executor.{blocking}
use boom_par.Executor.Threads.{
  submitters, enter, submit, submit_resumes, look_for_worker, look_for_jobs, create, start, leave,
  pop, pop_resumes, run, finish, close, close_resumes, look_for_leftovers, discard, cancel, await,
  await_resumes,
}
use boom_par.Executor.Places.{System}

module _ (A : Arraylist) (S : Singlylist) where
  -- Threads get their mutex in any order. A thread that waits wakes at a notice, at a timeout, or for
  -- no reason; the last two of these are steps of their own. Which of the pushers that wait was woken
  -- is not told apart. A worker that never times out has no error of its wait.
  pub data Step (user : UserCode) (s : System A S) : System A S → Type 0 where
    enters : submitters A S s.at + 1 < word_size → Step user s (enter A S s)
    submits :
        (address function_p input_p promise_for_output cancellation_callback : ℕ)
        → 0 < s.at.entered
        → s.ex.pool.jobs address ≡ none
        → Step user s
            (submit A S s address function_p input_p promise_for_output cancellation_callback)
    submit_goes_on :
        (address : ℕ) (before after : List ℕ) (wait_error : Bool)
        → 0 < s.at.pushers.woken
        → s.at.pushing ≡ before ++ address ∷ after
        → Step user s (submit_resumes A S s address (before ++ after) wait_error)
    looks_for_worker : 0 < s.at.queued → Step user s (look_for_worker A S s)
    looks_for_jobs : 0 < s.at.lacking → Step user s (look_for_jobs A S s)
    creates : 0 < s.at.creating → Step user s (create A S s)
    starts : (error : Bool) → 0 < s.at.starting → Step user s (start A S s error)
    leaves : 0 < s.at.leaving → Step user s (leave A S s)
    pops : 0 < s.at.working → Step user s (pop A S s)
    pop_goes_on :
        (wait_error : Bool)
        → 0 < s.at.poppers.woken
        → (wait_error ≡ true → s.ex.empty_job_queue_wait_time_out_in_micro_seconds ≢ blocking)
        → Step user s (pop_resumes A S s wait_error)
    runs :
        (address : ℕ) (before after : List ℕ)
        → s.at.running ≡ before ++ address ∷ after
        → Step user s (run A S user s address (before ++ after))
    finishes : 0 < s.at.finishing → Step user s (finish A S s)
    closes : (shutdown_immediately : Bool) → Step user s (close A S s shutdown_immediately)
    close_goes_on :
        (shutdown_immediately : Bool)
        → 0 < s.at.closers.woken
        → Step user s (close_resumes A S s shutdown_immediately)
    looks_for_leftovers : 0 < s.at.discarders → Step user s (look_for_leftovers A S s)
    discards : 0 < s.at.discarding → Step user s (discard A S s)
    cancels :
        (address : ℕ) (before after : List ℕ)
        → s.at.cancelling ≡ before ++ address ∷ after
        → Step user s (cancel A S s address (before ++ after))
    awaits : Step user s (await A S s)
    await_goes_on : 0 < s.at.waiters.woken → Step user s (await_resumes A S s)
    rouses_pusher :
        0 < s.at.pushers.asleep
        → Step user s (record s { at = record s.at { pushers = roused s.at.pushers } })
    rouses_popper :
        0 < s.at.poppers.asleep
        → Step user s (record s { at = record s.at { poppers = roused s.at.poppers } })
    rouses_closer :
        0 < s.at.closers.asleep
        → Step user s (record s { at = record s.at { closers = roused s.at.closers } })
    rouses_waiter :
        0 < s.at.waiters.asleep
        → Step user s (record s { at = record s.at { waiters = roused s.at.waiters } })

  pub data Reach (user : UserCode) (s : System A S) : System A S → Type 0 where
    here : Reach user s s
    later : {t u : System A S} → Reach user s t → Step user t u → Reach user s u
