-- ===== src/Executor/Events.antt =====
-- What becomes of the jobs of an executor (src/executor.c, src/worker.c), told from the steps of its
-- threads: accepted into the queue, popped by a thread, and then executed or cancelled.
use boom_par.Prelude.{
  ℕ, Bool, List, [], ◌∷◌, ◌++◌, Option, some, ◌==◌, if◌then◌else◌, map, Outcome, waits, returns,
}
use boom_par.Cutlery.Arraylist.{Arraylist, ArraylistLaws}
use boom_par.Cutlery.Singlylist.{Singlylist, SinglylistLaws}
use boom_par.Job.{Job, World, UserCode, initialize_job}
use boom_par.Worker.{
  submit_job_worker, submit_job_worker_woken, worker_pops, worker_pops_woken, discard_pops,
}
use boom_par.Worker.Ready.{queued}
use boom_par.Worker.Draining.{executed, cancelled}
use boom_par.Executor.Places.{System}
use boom_par.Executor.Steps.{
  Step, submits, submit_goes_on, pops, pop_goes_on, runs, discards, cancels, Reach, here, later,
}

-- The end of a job; the job is what the store held at its address.
pub data Ending : Type 0 where
  executes : Option Job → Ending
  cancels_it : Option Job → Ending

abbrev pub job_of : Ending → Option Job
job_of (executes job) = job
job_of (cancels_it job) = job

-- One after the other, executed or cancelled as a whole.
unfoldable pub one_by_one : UserCode → List Ending → World → World
one_by_one user [] world = world
one_by_one user (executes job ∷ endings) world = one_by_one user endings (executed user job world)
one_by_one user (cancels_it job ∷ endings) world = one_by_one user endings (cancelled job world)

abbrev pub accepted_if : Option Job → Outcome Bool → List (Option Job)
accepted_if job waits = []
accepted_if job (returns was_job_queued) = if was_job_queued then job ∷ [] else []

abbrev pub taken : (ℕ → Option Job) → Outcome ℕ → List (Option Job)
taken jobs waits = []
taken jobs (returns address) = if address == 0 then [] else jobs address ∷ []

module _ (A : Arraylist) (S : Singlylist) where
  abbrev pub accepted_by :
      {user : UserCode} {s t : System A S} → Step A S user s t → List (Option Job)
  accepted_by {s = s} (submits a f i p c h e) =
      accepted_if (some (initialize_job f i p c)) (submit_job_worker A S s.ex.pool a f i p c).2
  accepted_by {s = s} (submit_goes_on a before after wait_error w e) =
      accepted_if (s.ex.pool.jobs a) (submit_job_worker_woken A S s.ex.pool a wait_error).2
  accepted_by _ = []

  abbrev pub popped_by :
      {user : UserCode} {s t : System A S} → Step A S user s t → List (Option Job)
  popped_by {s = s} (pops h) = taken s.ex.pool.jobs (worker_pops A S s.ex.pool).2
  popped_by {s = s} (pop_goes_on wait_error h n) =
      taken s.ex.pool.jobs (worker_pops_woken A S s.ex.pool wait_error).2
  popped_by {s = s} (discards h) = taken s.ex.pool.jobs (discard_pops A S s.ex.pool).2
  popped_by _ = []

  abbrev pub ended_by : {user : UserCode} {s t : System A S} → Step A S user s t → List Ending
  ended_by {s = s} (runs a before after e) = executes (s.ex.pool.jobs a) ∷ []
  ended_by {s = s} (cancels a before after e) = cancels_it (s.ex.pool.jobs a) ∷ []
  ended_by _ = []

  -- The same over a run, in the order of its steps.
  unfoldable pub accepted :
      {user : UserCode} {s t : System A S} → Reach A S user s t → List (Option Job)
  accepted here = []
  accepted (later r step) = accepted r ++ accepted_by step

  unfoldable pub popped :
      {user : UserCode} {s t : System A S} → Reach A S user s t → List (Option Job)
  popped here = []
  popped (later r step) = popped r ++ popped_by step

  unfoldable pub ended : {user : UserCode} {s t : System A S} → Reach A S user s t → List Ending
  ended here = []
  ended (later r step) = ended r ++ ended_by step

  -- The jobs that a thread has popped, and neither executed nor cancelled yet.
  abbrev pub in_hand : System A S → List (Option Job)
  in_hand s = map s.ex.pool.jobs (s.at.running ++ s.at.cancelling)

module _ (A : Arraylist) (S : Singlylist) (L : ArraylistLaws A) (M : SinglylistLaws S) where
  -- The jobs in the queue, first in first.
  abbrev pub pending : System A S → List (Option Job)
  pending s = map s.ex.pool.jobs (queued A S L M s.ex.pool)
