-- ===== src/Executor/Safety.antt =====
-- The jobs and the workers of an executor under any interleaving (src/executor.c, src/worker.c).
use boom_par.Prelude.{ℕ, zero, suc, ◌≡◌, refl, Bool, false, List, [], ◌∷◌, ◌++◌, some, arith}
use boom_par.Cutlery.Arraylist.{Arraylist, ArraylistLaws}
use boom_par.Cutlery.Singlylist.{Singlylist, SinglylistLaws}
use boom_par.Job.{UserCode}
use boom_par.JobQueue.Refines.{view, initialize_job_queue-view}
use boom_par.Worker.{loops, worker_runs, discard_cancels}
use boom_par.Worker.Ready.{queued}
use boom_par.Worker.Sharing.{worker_runs-OwnedBy, discard_cancels-OwnedBy}
use boom_par.Executor.{
  Executor, is_cached, blocking, create_worker, create_worker_started, new_executor, create_workers,
  create_workers_upfront,
}
use boom_par.Executor.Places.{System}
use boom_par.Executor.Steps.{Reach}
use boom_par.Executor.Counts.{opened}
use boom_par.Executor.Creation.{Arguments, created_by}
use boom_par.Executor.Ownership.{IsSafe, Reach-IsSafe, cancelling-owned, running-owned}

module _ (A : Arraylist) (S : Singlylist) (L : ArraylistLaws A) (M : SinglylistLaws S) where
  pub create_workers-keeps :
      (count : ℕ) (errors : ℕ → Bool) (ex : Executor A S)
      → let after = (create_workers A S count errors ex).0 in
        (after.pool ≡ ex.pool)
        × (after.type ≡ ex.type)
        × (after.shutdown_requested ≡ ex.shutdown_requested)
        × (after.empty_job_queue_wait_time_out_in_micro_seconds
            ≡ ex.empty_job_queue_wait_time_out_in_micro_seconds)
  unfolding create_workers create_worker create_worker_started
  create_workers-keeps zero errors ex = (refl, refl, refl, refl)
  create_workers-keeps (suc count) errors ex = ground (arith, create_workers-keeps count errors ex)

  opened-IsSafe :
      (ex : Executor A S) (errors : ℕ → Bool)
      → view A S L M ex.pool.job_q ≡ record { items = []; is_closed = false }
      → ex.shutdown_requested ≡ false
      → (is_cached ex.type ≡ false → ex.empty_job_queue_wait_time_out_in_micro_seconds ≡ blocking)
      → IsSafe A S L M (opened A S (create_workers_upfront A S errors ex))
  unfolding create_workers_upfront
  opened-IsSafe ex errors empty running patient =
      ground (arith, create_workers-keeps ex.worker_count_limit errors ex)

  pub new_executor-IsSafe :
      (args : Arguments) (ex : Executor A S) (errors : ℕ → Bool)
      → created_by A S args ≡ some ex
      → IsSafe A S L M (opened A S (create_workers_upfront A S errors ex))
        × (queued A S L M (create_workers_upfront A S errors ex).0.pool ≡ [])
        × ((create_workers_upfront A S errors ex).0.pool.world ≡ args.world)
        × ((create_workers_upfront A S errors ex).0.type ≡ args.type)
  unfolding new_executor create_workers_upfront
  new_executor-IsSafe args ex errors e =
      let empty : view A S L M ex.pool.job_q ≡ record { items = []; is_closed = false } = ground (
        arith,
        initialize_job_queue-view A S L M args.node_offset args.max_job_queue_capacity
            ex.pool.job_q,
      ) in
      let safe = opened-IsSafe ex errors empty (ground arith) (λ h. ground arith) in
      let kept = create_workers-keeps ex.worker_count_limit errors ex in
      (safe, ground (arith, kept), ground (arith, kept), ground (arith, kept))

  -- In every state that threads can reach on a new executor, whatever the order of their sections: the
  -- jobs in the queue, those of submitters that wait and those that threads run or cancel are in the
  -- store, not run yet, and each at an address of its own, so that no thread uses a job that was
  -- freed; the queue is closed exactly if the shutdown was requested; and no worker of a fixed
  -- executor has left its loop before that.
  pub executor-IsSafe :
      (user : UserCode) (args : Arguments) (ex : Executor A S) (errors : ℕ → Bool) (s : System A S)
      → created_by A S args ≡ some ex
      → Reach A S user (opened A S (create_workers_upfront A S errors ex)) s
      → IsSafe A S L M s
        × ((a : ℕ) (before after : List ℕ)
            → s.at.running ≡ before ++ a ∷ after
            → (worker_runs A S user s.ex.pool a).1 ≡ loops)
        × ((a : ℕ) (before after : List ℕ)
            → s.at.cancelling ≡ before ++ a ∷ after
            → (discard_cancels A S s.ex.pool a).1 ≡ loops)
  executor-IsSafe user args ex errors s e r =
      let start = new_executor-IsSafe args ex errors e in
      let v = Reach-IsSafe A S L M user start.0 r in
      (
        v,
        (λ a before after at.
            (worker_runs-OwnedBy A S L M user s.ex.pool a _
              (running-owned A S L M s a before after at v)).1),
        λ a before after at.
            (discard_cancels-OwnedBy A S L M s.ex.pool a _
              (cancelling-owned A S L M s a before after at v)).1,
      )
