-- ===== src/Worker/Submission.antt =====
-- Submitting a job (submit_job_worker of src/worker.c).
use boom_par.Prelude.{
  ℕ, ◌≡◌, ◌≢◌, ◌⊎◌, Bool, true, false, [], ◌∷◌, ◌++◌, none, some, arith, Outcome, waits, returns,
}
use boom_par.Cutlery.Arraylist.{Arraylist, ArraylistLaws}
use boom_par.Cutlery.Singlylist.{Singlylist, SinglylistLaws}
use boom_par.Job.{Job, initialize_job, new_job}
use boom_par.JobQueue.Refines.{view, pushes, push_resumes, job_queue-Keeps}
use boom_par.Worker.{Pool, submit_job_worker, submit_job_worker_woken}
use boom_par.Worker.Ready.{queued}

module _ (A : Arraylist) (S : Singlylist) (L : ArraylistLaws A) (M : SinglylistLaws S) where
  -- How a submission of `job` at `address` goes on: it waits on an open queue, with its job in the
  -- store and not in the queue; it fails, and leaves no job; or its job is the last of an open queue.
  abbrev pub Submitted : Pool A S → ℕ → Job → Pool A S → Outcome Bool → Type 0
  Submitted pool address job after outcome =
      ((outcome ≡ waits)
        × ((view A S L M pool.job_q).is_closed ≡ false)
        × (view A S L M after.job_q ≡ view A S L M pool.job_q)
        × (after.jobs address ≡ some job))
      ⊎ (((outcome ≡ returns false)
            × (view A S L M after.job_q ≡ view A S L M pool.job_q)
            × (after.jobs address ≡ none))
          ⊎ ((outcome ≡ returns true)
              × ((view A S L M pool.job_q).is_closed ≡ false)
              × (queued A S L M after ≡ queued A S L M pool ++ address ∷ [])
              × (after.jobs address ≡ some job)))

  -- Submitting a job, with `malloc` returning an address that holds no job: it waits on an open queue,
  -- with the new job in the store and the queue as it was; or it returns 0, the queue is as it was, and
  -- the address holds no job; or it returns 1, the queue is open, and the new job, created with the
  -- four arguments, is its last. The other jobs stay, and no code of the user runs.
  pub submit_job_worker-Submitted :
      (pool : Pool A S) (address function_p input_p promise_for_output cancellation_callback : ℕ)
      → pool.jobs address ≡ none
      → let (after, _, outcome) =
          submit_job_worker A S pool address function_p input_p promise_for_output
            cancellation_callback in
        Submitted pool address
          (initialize_job function_p input_p promise_for_output cancellation_callback)
          after
          outcome
        × ((other : ℕ) → address ≢ other → after.jobs other ≡ pool.jobs other)
        × (after.world ≡ pool.world)
  unfolding submit_job_worker new_job
  submit_job_worker-Submitted pool address function_p input_p promise_for_output
        cancellation_callback e =
      let keeps = job_queue-Keeps A S L M pool.job_q (pushes address) in
      (ground (arith, keeps), (λ other h. ground (arith, keeps)), ground (arith, keeps))

  -- A submission that waited goes on in the same way, if its job is still in the store.
  pub submit_job_worker_woken-Submitted :
      (pool : Pool A S) (address : ℕ) (job : Job) (wait_error : Bool)
      → pool.jobs address ≡ some job
      → let (after, _, outcome) = submit_job_worker_woken A S pool address wait_error in
        Submitted pool address job after outcome
        × ((other : ℕ) → address ≢ other → after.jobs other ≡ pool.jobs other)
        × (after.world ≡ pool.world)
  unfolding submit_job_worker_woken
  submit_job_worker_woken-Submitted pool address job wait_error e =
      let keeps = job_queue-Keeps A S L M pool.job_q (push_resumes address wait_error) in
      (ground (arith, keeps), (λ other h. ground (arith, keeps)), ground (arith, keeps))
