-- ===== src/Executor/Fulfilment.antt =====
-- The promises of the jobs that an executor ends (src/executor.c, src/job.c, src/promise.c).
use boom_par.Executor.Creation.{Arguments, created_by}
use mathlib.Core.List.{Mem, Memᴰ}
use mathlib.Core.List.Perm
use mathlib.Core.Option.{some-injective}
use mathlib.Core.Logic.{∥∥₁_elim}
use mathlib.Core.Bool.{Bool-set}
use boom_par.Prelude.{
  ℕ, ◌<◌, ◌≡◌, ◌≢◌, sym, ap, subst, ◌∙◌, Bool, true, List, [], ◌∷◌, ◌++◌, Option, none, some, arith,
  map, word_size, returns,
}
use boom_par.Cutlery.Arraylist.{Arraylist, ArraylistLaws}
use boom_par.Cutlery.Singlylist.{Singlylist, SinglylistLaws}
use boom_par.Promise.{set_promised_result}
use boom_par.Job.{Job, World, UserCode, created, fulfil, execute_job, cancel_job}
use boom_par.Worker.Draining.{executed, cancelled}
use boom_par.Worker.Sharing.{OwnedBy-Holds}
use boom_par.Executor.{
  Executor, fixed_thread_count_executor, create_workers_upfront,
  wait_for_all_executor_workers_to_complete,
}
use boom_par.Executor.Events.{
  Ending, executes, cancels_it, job_of, one_by_one, accepted, ended, ended_by,
}
use boom_par.Executor.Counts.{opened}
use boom_par.Executor.Safety.{new_executor-IsSafe}
use boom_par.Executor.Ownership.{IsSafe, Reach-IsSafe, running-owned, cancelling-owned}
use boom_par.Executor.History.{map-job_of, executor-ends}
use boom_par.Executor.Completion.{fixed_executor-completes}
use boom_par.Executor.Places.{System}
use boom_par.Executor.Steps.{Step, runs, cancels, Reach, here, later}

-- The promise at an address has its result.
abbrev IsReady : World → ℕ → Type 0
IsReady world promise = (world.promises promise).output_result_ready ≡ true

module _ (user : UserCode) where
  executed-IsReady :
      (job : Option Job) (world : World) (p : ℕ)
      → IsReady world p
      → IsReady (executed user job world) p
  unfolding execute_job fulfil set_promised_result
  executed-IsReady none world p h = h
  executed-IsReady (some job) world p h = ground arith

  cancelled-IsReady :
      (job : Option Job) (world : World) (p : ℕ) → IsReady world p → IsReady (cancelled job world) p
  unfolding cancel_job fulfil set_promised_result
  cancelled-IsReady none world p h = h
  cancelled-IsReady (some job) world p h = ground arith

  one_by_one-IsReady :
      (es : List Ending) (world : World) (p : ℕ)
      → IsReady world p
      → IsReady (one_by_one user es world) p
  unfolding one_by_one
  one_by_one-IsReady [] world p h = h
  one_by_one-IsReady (executes job ∷ es) world p h =
      one_by_one-IsReady es _ p (executed-IsReady job world p h)
  one_by_one-IsReady (cancels_it job ∷ es) world p h =
      one_by_one-IsReady es _ p (cancelled-IsReady job world p h)

  execute_job-IsReady :
      (job : Job) (world : World)
      → job.state ≡ created
      → job.promise_for_output ≢ 0
      → IsReady (executed user (some job) world) job.promise_for_output
  unfolding execute_job fulfil set_promised_result
  execute_job-IsReady job world c h = ground arith

  cancel_job-IsReady :
      (job : Job) (world : World)
      → job.state ≡ created
      → job.promise_for_output ≢ 0
      → IsReady (cancelled (some job) world) job.promise_for_output
  unfolding cancel_job fulfil set_promised_result
  cancel_job-IsReady job world c h = ground arith

  -- A job that was created, and executed or cancelled, has fulfilled its promise.
  ended-IsReady :
      (es : List Ending) (world : World) (job : Job)
      → job.state ≡ created
      → job.promise_for_output ≢ 0
      → Memᴰ (some job) (map job_of es)
      → IsReady (one_by_one user es world) job.promise_for_output
  unfolding one_by_one
  ended-IsReady [] world job c h m = elim m [ ]
  ended-IsReady (executes o ∷ es) world job c h (Memᴰ.head e) =
      one_by_one-IsReady es _ job.promise_for_output (
        subst (λ o. IsReady (executed user o world) job.promise_for_output) e
          (execute_job-IsReady job world c h))
  ended-IsReady (cancels_it o ∷ es) world job c h (Memᴰ.head e) =
      one_by_one-IsReady es _ job.promise_for_output (
        subst (λ o. IsReady (cancelled o world) job.promise_for_output) e
          (cancel_job-IsReady job world c h))
  ended-IsReady (executes o ∷ es) world job c h (Memᴰ.tail m) = ended-IsReady es _ job c h m
  ended-IsReady (cancels_it o ∷ es) world job c h (Memᴰ.tail m) = ended-IsReady es _ job c h m

-- Jobs that exist, and were created.
abbrev pub IsNew : Option Job → Type 0
IsNew o = (job : Job) × (o ≡ some job) × (job.state ≡ created)

abbrev pub AllNew : List (Option Job) → Type 0
AllNew [] = Unit
AllNew (o ∷ os) = IsNew o × AllNew os

AllNew-append : (os os' : List (Option Job)) → AllNew os → AllNew os' → AllNew (os ++ os')
AllNew-append [] os' n n' = n'
AllNew-append (o ∷ os) os' n n' = (n.0, AllNew-append os os' n.1 n')

AllNew-Mem :
    (os : List (Option Job)) (job : Job) → AllNew os → Memᴰ (some job) os → job.state ≡ created
AllNew-Mem [] job n m = elim m [ ]
AllNew-Mem (o ∷ os) job n (Memᴰ.head e) =
    let ((job', same, c), rest) = n in ap (λ j. j.state) (some-injective job job' (e ∙ same)) ∙ c
AllNew-Mem (o ∷ os) job n (Memᴰ.tail m) = AllNew-Mem os job n.1 m

module _ (A : Arraylist) (S : Singlylist) (L : ArraylistLaws A) (M : SinglylistLaws S) where
  ended_by-AllNew :
      (user : UserCode) {s t : System A S} (step : Step A S user s t)
      → IsSafe A S L M s
      → AllNew (map job_of (ended_by A S step))
  ended_by-AllNew user {s} (runs a before after e) v =
      let (stored, fresh, rest) =
        OwnedBy-Holds A S L M s.ex.pool a _ (running-owned A S L M s a before after e v) in
      (stored.1, tt)
  ended_by-AllNew user {s} (cancels a before after e) v =
      let (stored, fresh, rest) =
        OwnedBy-Holds A S L M s.ex.pool a _ (cancelling-owned A S L M s a before after e v) in
      (stored.1, tt)
  ended_by-AllNew user {s} _ v = tt

  pub ended-AllNew :
      (user : UserCode) {s t : System A S} (r : Reach A S user s t)
      → IsSafe A S L M s
      → AllNew (map job_of (ended A S r))
  unfolding ended
  ended-AllNew user here v = tt
  ended-AllNew user (later r step) v =
      subst AllNew (sym (map-job_of (ended A S r) (ended_by A S step))) (
        AllNew-append (map job_of (ended A S r)) _ (ended-AllNew user r v)
          (ended_by-AllNew user step (Reach-IsSafe A S L M user v r)))

  -- A fixed executor that has at least one worker, and is shut down, so that
  -- wait_for_all_executor_workers_to_complete returned 1 and no thread still cancels a job: every job
  -- that was accepted with a promise has set the result of its promise, so that no thread waits for it
  -- in vain.
  pub fixed_executor-fulfils :
      (user : UserCode) (args : Arguments) (ex : Executor A S) (errors : ℕ → Bool) (s : System A S)
      → created_by A S args ≡ some ex
      → args.type ≡ fixed_thread_count_executor
      → args.worker_count_limit < word_size
      → 0 < (create_workers_upfront A S errors ex).1
      → (r : Reach A S user (opened A S (create_workers_upfront A S errors ex)) s)
      → wait_for_all_executor_workers_to_complete A S s.ex ≡ returns true
      → s.at.cancelling ≡ []
      → (job : Job) → Mem (some job) (accepted A S r)
      → job.promise_for_output ≢ 0
      → (s.ex.pool.world.promises job.promise_for_output).output_result_ready ≡ true
  fixed_executor-fulfils user args ex errors s e fixed_count h manned r complete done job m
        promised =
      let (idle, all) =
        fixed_executor-completes A S L M user args ex errors s e fixed_count h manned r complete
          done in
      let (safe, empty, same, fixed) = new_executor-IsSafe A S L M args ex errors e in
      let (serial, acts) = executor-ends A S L M user args ex errors s e r in
      let new = ended-AllNew user r safe in
      ∥∥₁_elim ((Perm.mem_iff all).0 m) (Bool-set _ _) (λ d.
        subst (λ w. IsReady w job.promise_for_output) (sym acts)
          (ended-IsReady user (ended A S r) args.world job (AllNew-Mem _ job new d) promised d))
