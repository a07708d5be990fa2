-- ===== src/Executor/Sections.antt =====
-- How the sections of an executor that is shut down come to an end (src/executor.c, src/worker.c).
-- src/worker.c).
use boom_par.SyncQueue.Threads.{on_empty}
use boom_par.Prelude.{
  told-counted, ℕ, ◌+◌, ◌<◌, ◌≡◌, ap, Bool, true, List, ◌∷◌, ◌++◌, arith, length, length-append,
  if◌then◌else◌, ◌==◌, ◌-◌, ◌∙◌,
}
use boom_par.JobQueue.Refines.{view, is_empty_job_queue-items}
use boom_par.Executor.Places.{queue_notified, System}
use boom_par.Cutlery.Arraylist.{Arraylist, ArraylistLaws}
use boom_par.Cutlery.Singlylist.{Singlylist, SinglylistLaws}
use boom_par.Job.{UserCode}
use boom_par.Worker.{discard_pops}
use boom_par.Worker.Ready.{queued}
use boom_par.Worker.Sharing.{discard_pops-Took, discard_cancels-OwnedBy}
use boom_par.Executor.{
  create_worker, create_worker_started, submit_job_executor, submit_job_executor_leaves,
  shutdown_executor, shutdown_executor_round, clean_up_locked,
}
use boom_par.Executor.Held.{held}
use boom_par.Executor.Ownership.{IsSafe, Reach-IsSafe, cancelling-owned}
use boom_par.Executor.Threads.{
  enter, look_for_worker, look_for_jobs, create, start, leave, finish, close, close_resumes,
  look_for_leftovers, discard, cancel, await, await_resumes,
}
use boom_par.Executor.Steps.{
  Step, enters, submits, submit_goes_on, looks_for_worker, looks_for_jobs, creates, starts, leaves,
  pops, pop_goes_on, runs, finishes, closes, close_goes_on, looks_for_leftovers, discards, cancels,
  awaits, await_goes_on, rouses_pusher, rouses_popper, rouses_closer, rouses_waiter, Reach, here,
  later,
}
use boom_par.Executor.Leftovers.{weigh-less, if_empty, if_filled, discard_popped-Discards}
use boom_par.Executor.Measure.{
  Nearer, own, own_sections, pop-Nearer, pop_resumes-Nearer, run-Nearer, submit-Nearer,
  submit_resumes-Nearer,
}

module _ (A : Arraylist) (S : Singlylist) (L : ArraylistLaws A) (M : SinglylistLaws S) where
  discard-Nearer :
      (s : System A S)
      → 0 < s.at.discarding
      → IsSafe A S L M s
      → s.ex.shutdown_requested ≡ true
      → Nearer A S L M 1 s (discard A S s)
  unfolding discard
  discard-Nearer s h v shut =
      let (after, notices, outcome) = discard_pops A S s.ex.pool in
      let at = queue_notified notices (record s.at { discarding = s.at.discarding - 1 }) in
      ground (
        arith,
        told-counted on_empty notices s.at.poppers,
        discard_popped-Discards A S L M (record s { at = at }) after (held s.at) outcome
            (discard_pops-Took A S L M s.ex.pool (held s.at) v.owned) (v.shut ∙ shut),
        weigh-less (queued A S L M s.ex.pool) 0 (if_empty s.at) (if_empty at + 2) (if_filled s.at)
            (if_filled at + 3) (omega arith) (omega arith),
      )

  cancel-Nearer :
      (s : System A S) (a : ℕ) (before after : List ℕ)
      → s.at.cancelling ≡ before ++ a ∷ after
      → IsSafe A S L M s
      → s.ex.shutdown_requested ≡ true
      → Nearer A S L M 1 s (cancel A S s a (before ++ after))
  unfolding cancel
  cancel-Nearer s a before after e v shut =
      let t = cancel A S s a (before ++ after) in
      let (kept, looped, queue, jobs) =
        discard_cancels-OwnedBy A S L M s.ex.pool a _
          (cancelling-owned A S L M s a before after e v) in
      let same : queued A S L M t.ex.pool ≡ queued A S L M s.ex.pool =
        ap (λ q. (view A S L M q).items) queue in
      let fewer : length s.at.cancelling ≡ length (before ++ after) + 1 =
        ground (arith, ap length e, length-append before (a ∷ after), length-append before after) in
      let less =
        weigh-less (queued A S L M s.ex.pool) 1 (if_empty s.at) (if_empty t.at) (if_filled s.at)
          (if_filled t.at) (omega (arith, fewer)) (omega (arith, fewer)) in
      ground (arith, same, less)

  close_resumes-Nearer :
      (s : System A S) (immediately : Bool)
      → 0 < s.at.closers.woken
      → s.ex.shutdown_requested ≡ true
      → Nearer A S L M
          (if s.ex.submitters_count == 0 then 1 else 0)
          s
          (close_resumes A S s immediately)
  unfolding close_resumes shutdown_executor_round
  close_resumes-Nearer s immediately h shut = ground arith

  look_for_leftovers-Nearer :
      (s : System A S)
      → 0 < s.at.discarders
      → s.ex.shutdown_requested ≡ true
      → Nearer A S L M 1 s (look_for_leftovers A S s)
  unfolding look_for_leftovers
  look_for_leftovers-Nearer s h shut =
      ground (arith, is_empty_job_queue-items A S L M s.ex.pool.job_q)

  Step-Nearer :
      (user : UserCode) {s t : System A S} (step : Step A S user s t)
      → IsSafe A S L M s
      → s.ex.shutdown_requested ≡ true
      → Nearer A S L M (own A S L M step) s t
  unfolding enter look_for_worker look_for_jobs create start leave finish close close_resumes
      look_for_leftovers await await_resumes submit_job_executor create_worker create_worker_started
      submit_job_executor_leaves shutdown_executor clean_up_locked
  Step-Nearer user {s} (enters h) v shut = ground arith
  Step-Nearer user {s} (submits a f i p c h e) v shut = submit-Nearer A S L M s a f i p c h e v shut
  Step-Nearer user {s} (submit_goes_on a before after wait_error w e) v shut =
      submit_resumes-Nearer A S L M s a before after wait_error e v shut
  Step-Nearer user {s} (looks_for_worker h) v shut = ground arith
  Step-Nearer user {s} (looks_for_jobs h) v shut = ground arith
  Step-Nearer user {s} (creates h) v shut = ground arith
  Step-Nearer user {s} (starts error h) v shut = ground arith
  Step-Nearer user {s} (leaves h) v shut = ground arith
  Step-Nearer user {s} (pops h) v shut = pop-Nearer A S L M s h v shut
  Step-Nearer user {s} (pop_goes_on wait_error h n) v shut =
      pop_resumes-Nearer A S L M s wait_error h v shut
  Step-Nearer user {s} (runs a before after e) v shut =
      run-Nearer A S L M user s a before after e v shut
  Step-Nearer user {s} (finishes h) v shut = ground arith
  Step-Nearer user {s} (closes immediately) v shut = ground arith
  Step-Nearer user {s} (close_goes_on immediately h) v shut =
      close_resumes-Nearer s immediately h shut
  Step-Nearer user {s} (looks_for_leftovers h) v shut = look_for_leftovers-Nearer s h shut
  Step-Nearer user {s} (discards h) v shut = discard-Nearer s h v shut
  Step-Nearer user {s} (cancels a before after e) v shut = cancel-Nearer s a before after e v shut
  Step-Nearer user {s} awaits v shut = ground arith
  Step-Nearer user {s} (await_goes_on h) v shut = ground arith
  Step-Nearer user {s} (rouses_pusher h) v shut = ground arith
  Step-Nearer user {s} (rouses_popper h) v shut = ground arith
  Step-Nearer user {s} (rouses_closer h) v shut = ground arith
  Step-Nearer user {s} (rouses_waiter h) v shut = ground arith

  pub Reach-Nearer :
      (user : UserCode) {s t : System A S} (r : Reach A S user s t)
      → IsSafe A S L M s
      → s.ex.shutdown_requested ≡ true
      → Nearer A S L M (own_sections A S L M r) s t
  unfolding own_sections
  Reach-Nearer user here v shut = ground arith
  Reach-Nearer user (later r step) v shut =
      let before = Reach-Nearer user r v shut in
      let last = Step-Nearer user step (Reach-IsSafe A S L M user v r) before.1 in
      (omega (arith, before.0, last.0), last.1)
