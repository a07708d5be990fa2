-- ===== src/Executor/Wakeups.antt =====
-- The threads of an executor that wait on its job queue (src/executor.c, src/job_queue.c): none of them
-- sleeps while there is work for it.
use boom_par.Prelude.{
  ℕ, ◌+◌, ◌≤◌, ◌<◌, ◌≡◌, ap, Bool, true, false, List, ◌∷◌, ◌++◌, some, arith, length, length-append,
  word_size, resumed, told-counted,
}
use boom_par.Cutlery.Arraylist.{Arraylist, ArraylistLaws}
use boom_par.Cutlery.Singlylist.{Singlylist, SinglylistLaws}
use boom_par.Job.{UserCode, new_job}
use boom_par.SyncQueue.Threads.{on_full}
use boom_par.JobQueue.{
  push_job_queue, push_job_queue_woken, pop_job_queue, pop_job_queue_woken, close_job_queue,
  get_max_capacity_job_queue,
}
use boom_par.JobQueue.Refines.{view}
use boom_par.JobQueue.Wakeups.{
  IsLiveQueue, push-IsLive, push_resume-IsLive, pop-IsLive, pop_resume-IsLive, pop_at_once-IsLive,
  close-IsLive, rouse_popper-IsLive, rouse_pusher-IsLive, initialize-IsLive, IsLiveQueue-wakes,
}
use boom_par.Worker.{
  submit_job_worker, submit_job_worker_woken, worker_pops, worker_pops_woken, worker_runs,
  discard_pops, discard_cancels,
}
use boom_par.Executor.{
  Executor, new_executor, create_workers_upfront, create_worker, create_worker_started,
  submit_job_executor, submit_job_executor_leaves, shutdown_executor, shutdown_executor_round,
  clean_up_locked,
}
use boom_par.Executor.Safety.{create_workers-keeps}
use boom_par.Executor.Creation.{create_workers-counts, Arguments, created_by}
use boom_par.Executor.Counts.{opened, executor-IsCounted}
use boom_par.Executor.Counting.{IsCounted, Reach-IsCounted}
use boom_par.Executor.Threads.{
  enter, submit, submit_resumes, look_for_worker, look_for_jobs, create, start, leave, pop,
  pop_resumes, run, finish, close, close_resumes, look_for_leftovers, discard, cancel, await,
  await_resumes,
}
use boom_par.Executor.Places.{System}
use boom_par.Executor.Steps.{
  Step, enters, submits, submit_goes_on, looks_for_worker, looks_for_jobs, creates, starts, leaves,
  pops, pop_goes_on, runs, finishes, closes, close_goes_on, looks_for_leftovers, discards, cancels,
  awaits, await_goes_on, rouses_pusher, rouses_popper, rouses_closer, rouses_waiter, Reach, here,
  later,
}

module _ (A : Arraylist) (S : Singlylist) (L : ArraylistLaws A) (M : SinglylistLaws S)
    (makes_room : (r : A.Rep)
      → A.is_full_arraylist r ≡ true
      → A.is_full_arraylist (A.expand_arraylist r) ≡ false) where
  pub record IsAwake (s : System A S) : Type 0 where
    pub live : IsLiveQueue A S L M makes_room s.ex.pool.job_q s.at.poppers s.at.pushers
    pub listed : s.at.pushers.asleep + s.at.pushers.woken ≡ length s.at.pushing
    pub few : s.ex.worker_count_limit + 1 < word_size

  submit-IsAwake :
      (s : System A S) (a f i p c : ℕ)
      → 0 < s.at.entered
      → IsCounted A S s
      → IsAwake s
      → IsAwake (submit A S s a f i p c)
  unfolding submit submit_job_worker new_job
  submit-IsAwake s a f i p c h n v =
      let (_, notices, _) = push_job_queue A S s.ex.pool.job_q a in
      let live =
        push-IsLive A S L M makes_room s.ex.pool.job_q s.at.poppers s.at.pushers a
          (omega (arith, n.submittable, v.listed)) v.live in
      ground (arith, live, told-counted on_full notices s.at.pushers)

  submit_resumes-IsAwake :
      (s : System A S) (a : ℕ) (before after : List ℕ) (wait_error : Bool)
      → 0 < s.at.pushers.woken
      → s.at.pushing ≡ before ++ a ∷ after
      → IsAwake s
      → IsAwake (submit_resumes A S s a (before ++ after) wait_error)
  unfolding submit_resumes submit_job_worker_woken
  submit_resumes-IsAwake s a before after wait_error w e v =
      let (_, notices, _) = push_job_queue_woken A S s.ex.pool.job_q a wait_error in
      let live =
        push_resume-IsLive A S L M makes_room s.ex.pool.job_q s.at.poppers s.at.pushers a wait_error
          w v.live in
      ground (
        arith,
        live,
        told-counted on_full notices (resumed s.at.pushers),
        ap length e,
        length-append before (a ∷ after),
        length-append before after,
      )

  pop-IsAwake :
      (s : System A S) → 0 < s.at.working → IsCounted A S s → IsAwake s → IsAwake (pop A S s)
  unfolding pop worker_pops
  pop-IsAwake s h n v =
      let (_, notices, _) = pop_job_queue A S s.ex.pool.job_q in
      let live =
        pop-IsLive A S L M makes_room s.ex.pool.job_q s.at.poppers s.at.pushers
          (omega (arith, n.workers, n.limited, n.limit)) v.live in
      ground (arith, live, told-counted on_full notices s.at.pushers)

  pop_resumes-IsAwake :
      (s : System A S) (wait_error : Bool)
      → 0 < s.at.poppers.woken
      → IsAwake s
      → IsAwake (pop_resumes A S s wait_error)
  unfolding pop_resumes worker_pops_woken
  pop_resumes-IsAwake s wait_error h v =
      let (_, notices, _) = pop_job_queue_woken A S s.ex.pool.job_q wait_error in
      let live =
        pop_resume-IsLive A S L M makes_room s.ex.pool.job_q s.at.poppers s.at.pushers wait_error h
          v.live in
      ground (arith, live, told-counted on_full notices s.at.pushers)

  discard-IsAwake : (s : System A S) → IsCounted A S s → IsAwake s → IsAwake (discard A S s)
  unfolding discard discard_pops
  discard-IsAwake s n v =
      let (jq, notices, _) = pop_job_queue A S s.ex.pool.job_q in
      let (_, notices', _) = pop_job_queue_woken A S jq true in
      let few : s.at.poppers.asleep + s.at.poppers.woken + 1 < word_size =
        omega (arith, n.workers, n.limited, v.few) in
      let live =
        pop-IsLive A S L M makes_room s.ex.pool.job_q s.at.poppers s.at.pushers few v.live in
      let at_once =
        pop_at_once-IsLive A S L M makes_room s.ex.pool.job_q s.at.poppers s.at.pushers few
          v.live in
      ground (
        arith,
        live,
        at_once,
        told-counted on_full notices s.at.pushers,
        told-counted on_full notices' s.at.pushers,
      )

  close-IsAwake :
      (s : System A S) (shutdown_immediately : Bool)
      → IsAwake s
      → IsAwake (close A S s shutdown_immediately)
  unfolding close shutdown_executor shutdown_executor_round
  close-IsAwake s shutdown_immediately v =
      let (_, notices, _) = close_job_queue A S s.ex.pool.job_q in
      let live = close-IsLive A S L M makes_room s.ex.pool.job_q s.at.poppers s.at.pushers v.live in
      ground (arith, live, told-counted on_full notices s.at.pushers)

  Step-IsAwake :
      (user : UserCode) {s t : System A S}
      → Step A S user s t
      → IsCounted A S s
      → IsAwake s
      → IsAwake t
  unfolding enter look_for_worker look_for_jobs create start leave run finish close_resumes
      look_for_leftovers cancel await await_resumes submit_job_executor create_worker
      create_worker_started submit_job_executor_leaves clean_up_locked worker_runs discard_cancels
  Step-IsAwake user {s} (enters h) n v = ground arith
  Step-IsAwake user {s} (submits a f i p c h e) n v = submit-IsAwake s a f i p c h n v
  Step-IsAwake user {s} (submit_goes_on a before after wait_error w e) n v =
      submit_resumes-IsAwake s a before after wait_error w e v
  Step-IsAwake user {s} (looks_for_worker h) n v = ground arith
  Step-IsAwake user {s} (looks_for_jobs h) n v = ground arith
  Step-IsAwake user {s} (creates h) n v = ground arith
  Step-IsAwake user {s} (starts error h) n v = ground arith
  Step-IsAwake user {s} (leaves h) n v = ground arith
  Step-IsAwake user {s} (pops h) n v = pop-IsAwake s h n v
  Step-IsAwake user {s} (pop_goes_on wait_error h e) n v = pop_resumes-IsAwake s wait_error h v
  Step-IsAwake user {s} (runs a before after e) n v = ground arith
  Step-IsAwake user {s} (finishes h) n v = ground arith
  Step-IsAwake user {s} (closes immediately) n v = close-IsAwake s immediately v
  Step-IsAwake user {s} (close_goes_on immediately h) n v = ground arith
  Step-IsAwake user {s} (looks_for_leftovers h) n v = ground arith
  Step-IsAwake user {s} (discards h) n v = discard-IsAwake s n v
  Step-IsAwake user {s} (cancels a before after e) n v = ground arith
  Step-IsAwake user {s} awaits n v = ground arith
  Step-IsAwake user {s} (await_goes_on h) n v = ground arith
  Step-IsAwake user {s} (rouses_pusher h) n v = record {
    live =
        rouse_pusher-IsLive A S L M makes_room s.ex.pool.job_q s.at.poppers s.at.pushers h v.live;
    listed = omega (arith, v.listed);
    few = v.few;
  }
  Step-IsAwake user {s} (rouses_popper h) n v = record {
    live =
        rouse_popper-IsLive A S L M makes_room s.ex.pool.job_q s.at.poppers s.at.pushers h v.live;
    listed = v.listed;
    few = v.few;
  }
  Step-IsAwake user {s} (rouses_closer h) n v = ground arith
  Step-IsAwake user {s} (rouses_waiter h) n v = ground arith

  pub Reach-IsAwake :
      (user : UserCode) {s t : System A S}
      → IsCounted A S s
      → IsAwake s
      → Reach A S user s t
      → IsAwake t
  Reach-IsAwake user n v here = v
  Reach-IsAwake user n v (later r step) =
      Step-IsAwake user step (Reach-IsCounted A S user n r) (Reach-IsAwake user n v r)

  pub new_executor-IsAwake :
      (args : Arguments) (ex : Executor A S) (errors : ℕ → Bool)
      → created_by A S args ≡ some ex
      → args.worker_count_limit + 1 < word_size
      → IsAwake (opened A S (create_workers_upfront A S errors ex))
  unfolding new_executor create_workers_upfront
  new_executor-IsAwake args ex errors e h =
      let live =
        initialize-IsLive A S L M makes_room args.node_offset args.max_job_queue_capacity
          ex.pool.job_q in
      let none_yet : ex.active_worker_count ≡ 0 = ground arith in
      let limited : ex.worker_count_limit ≡ args.worker_count_limit = ground arith in
      let counts =
        create_workers-counts A S ex.worker_count_limit errors ex none_yet (omega arith)
          (omega (arith, limited)) in
      ground (arith, live, create_workers-keeps A S L M ex.worker_count_limit errors ex, counts)

  -- In every state that threads can reach on a new executor of fewer than 2 ^ 64 - 1 workers, whatever
  -- the order of their sections: no worker or submitter sleeps on a queue that is closed; if a worker
  -- sleeps in its pop, then no more jobs are in the queue than there are woken workers on their way to
  -- take them, so that no accepted job waits for a wake-up that was lost; and if a submitter sleeps in
  -- its push, then the jobs in the queue and the woken submitters on their way are at least the
  -- capacity of the queue, as get_max_capacity_job_queue returns it. (Fewer than 2 ^ 64 threads submit
  -- at a time, and expanding the list of the queue does not run out of memory.)
  pub executor-IsAwake :
      (user : UserCode) (args : Arguments) (ex : Executor A S) (errors : ℕ → Bool) (s : System A S)
      → created_by A S args ≡ some ex
      → args.worker_count_limit + 1 < word_size
      → Reach A S user (opened A S (create_workers_upfront A S errors ex)) s
      → ((view A S L M s.ex.pool.job_q).is_closed ≡ true
          → (s.at.poppers.asleep ≡ 0) × (s.at.pushers.asleep ≡ 0))
        × (0 < s.at.poppers.asleep
            → length (view A S L M s.ex.pool.job_q).items ≤ s.at.poppers.woken)
        × (0 < s.at.pushers.asleep
            → get_max_capacity_job_queue A S s.ex.pool.job_q
              ≤ length (view A S L M s.ex.pool.job_q).items + s.at.pushers.woken)
  executor-IsAwake user args ex errors s e h r =
      let counted = executor-IsCounted A S user args ex errors _ e (omega arith) here in
      let start = new_executor-IsAwake args ex errors e h in
      IsLiveQueue-wakes A S L M makes_room s.ex.pool.job_q s.at.poppers s.at.pushers
        (Reach-IsAwake user counted start r).live
