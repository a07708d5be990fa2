-- ===== src/Executor/Idle.antt =====
-- An executor that is shut down and has no more submitters and workers (src/executor.c).
use boom_par.Prelude.{◌+◌, ◌≡◌, refl, ap, ◌∙◌, true, ◌∷◌, arith, length, length-append, returns}
use boom_par.Cutlery.Arraylist.{Arraylist}
use boom_par.Cutlery.Singlylist.{Singlylist}
use boom_par.Job.{UserCode}
use boom_par.Executor.{
  submit_job_executor, shutdown_executor, wait_for_all_executor_workers_to_complete,
  wait_for_workers_round,
}
use boom_par.Executor.Threads.{submitters, enter, close, close_resumes, await, await_resumes}
use boom_par.Executor.Places.{System, Places}
use boom_par.Executor.Steps.{
  Step, enters, submits, submit_goes_on, looks_for_worker, looks_for_jobs, creates, starts, leaves,
  pops, pop_goes_on, runs, finishes, closes, close_goes_on, looks_for_leftovers, discards, cancels,
  awaits, await_goes_on, rouses_pusher, rouses_popper, rouses_closer, rouses_waiter, Reach, here,
  later,
}
use boom_par.Executor.Counting.{IsCounted}

module _ (A : Arraylist) (S : Singlylist) where
  -- Every thread that called shutdown_executor is back.
  abbrev pub IsShut : Places → Type 0
  IsShut at =
      (at.closers.asleep + at.closers.woken ≡ 0)
      × (at.discarders ≡ 0)
      × (at.discarding ≡ 0)
      × (length at.cancelling ≡ 0)

  abbrev pub IsIdle : System A S → Type 0
  IsIdle s =
      (s.ex.shutdown_requested ≡ true)
      × (submitters A S s.at ≡ 0)
      × (s.at.working ≡ 0)
      × ((s.at.poppers.asleep + s.at.poppers.woken) ≡ 0)
      × (length s.at.running ≡ 0)
      × (s.at.finishing ≡ 0)
      × IsShut s.at

  Step-IsIdle :
      (user : UserCode) {s t : System A S} → Step A S user s t → IsIdle s → IsIdle t × (t.ex ≡ s.ex)
  unfolding enter close await close_resumes await_resumes submit_job_executor shutdown_executor
  Step-IsIdle user {s} (enters h) v = ground arith
  Step-IsIdle user {s} (submit_goes_on a before after wait_error w e) v =
      ground (arith, ap length e, length-append before (a ∷ after))
  Step-IsIdle user {s} (runs a before after e) v =
      ground (arith, ap length e, length-append before (a ∷ after))
  Step-IsIdle user {s} (cancels a before after e) v =
      ground (arith, ap length e, length-append before (a ∷ after))
  Step-IsIdle user {s} (closes immediately) v = ground arith
  Step-IsIdle user {s} (submits a f i p c h e) v = ground arith
  Step-IsIdle user {s} (looks_for_worker h) v = ground arith
  Step-IsIdle user {s} (looks_for_jobs h) v = ground arith
  Step-IsIdle user {s} (creates h) v = ground arith
  Step-IsIdle user {s} (starts error h) v = ground arith
  Step-IsIdle user {s} (leaves h) v = ground arith
  Step-IsIdle user {s} (pops h) v = ground arith
  Step-IsIdle user {s} (pop_goes_on wait_error h n) v = ground arith
  Step-IsIdle user {s} (finishes h) v = ground arith
  Step-IsIdle user {s} (close_goes_on immediately h) v = ground arith
  Step-IsIdle user {s} (looks_for_leftovers h) v = ground arith
  Step-IsIdle user {s} (discards h) v = ground arith
  Step-IsIdle user {s} awaits v = ground arith
  Step-IsIdle user {s} (await_goes_on h) v = ground arith
  Step-IsIdle user {s} (rouses_pusher h) v = ground arith
  Step-IsIdle user {s} (rouses_popper h) v = ground arith
  Step-IsIdle user {s} (rouses_closer h) v = ground arith
  Step-IsIdle user {s} (rouses_waiter h) v = ground arith

  Reach-IsIdle :
      (user : UserCode) {s t : System A S}
      → IsIdle s
      → Reach A S user s t
      → IsIdle t × (t.ex ≡ s.ex)
  Reach-IsIdle user v here = (v, refl)
  Reach-IsIdle user v (later r st) =
      let (idle, same) = Reach-IsIdle user v r in
      let (idle', same') = Step-IsIdle user st idle in (idle', same' ∙ same)

  -- Once an executor is shut down, each call of shutdown_executor has returned, and both of its counts
  -- are 0, no thread changes it any more, whatever they call: no thread is inside
  -- submit_job_executor, no worker is left, a thread that submits is turned away, and
  -- wait_for_all_executor_workers_to_complete returns 1. So delete_executor may free it.
  pub idle_executor-stays :
      (user : UserCode) (s t : System A S)
      → IsCounted A S s
      → s.ex.shutdown_requested ≡ true
      → IsShut s.at
      → s.ex.submitters_count ≡ 0
      → s.ex.active_worker_count ≡ 0
      → Reach A S user s t
      → (t.ex ≡ s.ex)
        × (submitters A S t.at ≡ 0)
        × (t.at.starting
              + t.at.working
              + (t.at.poppers.asleep + t.at.poppers.woken)
              + length t.at.running
              + t.at.finishing
            ≡ 0)
        × (wait_for_all_executor_workers_to_complete A S t.ex ≡ returns true)
  unfolding wait_for_all_executor_workers_to_complete wait_for_workers_round
  idle_executor-stays user s t v shut back no_submitters no_workers r =
      let idle : IsIdle s = ground arith in
      let (idle', same) = Reach-IsIdle user idle r in
      (same, ground arith, ground arith, ground arith)
