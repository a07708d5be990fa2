-- ===== src/Worker/Draining.antt =====
-- What becomes of the jobs in a queue (worker_function and discard_leftover_jobs of src/worker.c).
use boom_par.Prelude.{
  ℕ, zero, suc, ◌<◌, ◌≡◌, ◌⊎◌, inl, inr, refl, subst, ap, ◌∙◌, Bool, true, List, [], ◌∷◌, Option,
  none, some, arith, length, returns,
}
use boom_par.Cutlery.Arraylist.{Arraylist, ArraylistLaws}
use boom_par.Cutlery.Singlylist.{Singlylist, SinglylistLaws}
use boom_par.Job.{Job, World, UserCode, execute_job, cancel_job}
use boom_par.JobQueue.Refines.{view, pops, job_queue-Keeps, is_empty_job_queue-items}
use boom_par.Worker.{
  Pool, loops, breaks, set_job, worker_round, worker_function, discard_round, discard_leftover_jobs,
  worker_pops, worker_runs, discard_pops, discard_cancels,
}
use boom_par.Worker.Ready.{Fresh, AllReady, set_job-AllReady, queued, IsValid}

-- The world behind the jobs at the addresses, executed in order, or cancelled in order.
abbrev pub executed : UserCode → Option Job → World → World
executed user none w = w
executed user (some job) w = let (_, w', _) = execute_job user job w in w'

unfoldable pub all_executed : UserCode → (ℕ → Option Job) → List ℕ → World → World
all_executed user jobs [] w = w
all_executed user jobs (a ∷ bs) w = all_executed user jobs bs (executed user (jobs a) w)

abbrev pub cancelled : Option Job → World → World
cancelled none w = w
cancelled (some job) w = let (_, w', _) = cancel_job job w in w'

unfoldable pub all_cancelled : (ℕ → Option Job) → List ℕ → World → World
all_cancelled jobs [] w = w
all_cancelled jobs (a ∷ bs) w = all_cancelled jobs bs (cancelled (jobs a) w)

all_executed-set_job :
    (user : UserCode) (jobs : ℕ → Option Job) (a : ℕ) (job : Option Job) (bs : List ℕ) (w : World)
    → Fresh a bs
    → all_executed user (set_job jobs a job) bs w ≡ all_executed user jobs bs w
unfolding all_executed
all_executed-set_job user jobs a job [] w f = refl
all_executed-set_job user jobs a job (b ∷ bs) w f =
    let same : set_job jobs a job b ≡ jobs b = ground arith in
    all_executed-set_job user jobs a job bs _ f.1
    ∙ ap (λ o. all_executed user jobs bs (executed user o w)) same

all_cancelled-set_job :
    (jobs : ℕ → Option Job) (a : ℕ) (job : Option Job) (bs : List ℕ) (w : World)
    → Fresh a bs
    → all_cancelled (set_job jobs a job) bs w ≡ all_cancelled jobs bs w
unfolding all_cancelled
all_cancelled-set_job jobs a job [] w f = refl
all_cancelled-set_job jobs a job (b ∷ bs) w f =
    let same : set_job jobs a job b ≡ jobs b = ground arith in
    all_cancelled-set_job jobs a job bs _ f.1 ∙ ap (λ o. all_cancelled jobs bs (cancelled o w)) same

module _ (A : Arraylist) (S : Singlylist) (L : ArraylistLaws A) (M : SinglylistLaws S) where
  abbrev is_closed : Pool A S → Bool
  is_closed pool = (view A S L M pool.job_q).is_closed

  -- A round of a worker on a closed queue: it takes the first job and runs it, or breaks.
  closed_round-cases :
      (user : UserCode) (pool : Pool A S)
      → is_closed pool ≡ true
      → IsValid A S L M pool
      → let (after, _, outcome) = worker_round A S user pool in
        (is_closed after ≡ true)
        × IsValid A S L M after
        × (((outcome ≡ returns breaks)
              × (queued A S L M pool ≡ [])
              × (queued A S L M after ≡ [])
              × (after.world ≡ pool.world))
            ⊎ ((a : ℕ) × (queued A S L M pool ≡ a ∷ queued A S L M after)
                × (outcome ≡ returns loops)
                × (after.jobs ≡ set_job pool.jobs a none)
                × (after.world ≡ executed user (pool.jobs a) pool.world)))
  unfolding worker_round worker_pops worker_runs
  closed_round-cases user pool h v = elim (job_queue-Keeps A S L M pool.job_q pops) [
    | inl e ↦ ground arith
    | inr (inl e) ↦ ground arith
    | inr (inr (a, eq, returned, closed)) ↦
        let ((not_null, (job, at, state)), fresh, rest) = subst (AllReady pool.jobs) eq v in
        (
          ground arith,
          ground (arith, set_job-AllReady pool.jobs a none _ fresh rest),
          inr (a, ground arith, ground arith, ground arith, ground arith),
        )
  ]

  -- A worker whose queue is closed, with jobs that are in the store, each at an address of its own and
  -- not run before, runs all of them in order, leaves the queue empty, and breaks out of its loop;
  -- the loop takes at most one round more than there are jobs. (No other thread gets the lock in
  -- the meantime.)
  pub worker_function-drains :
      (user : UserCode) (fuel : ℕ) (pool : Pool A S)
      → is_closed pool ≡ true
      → IsValid A S L M pool
      → length (queued A S L M pool) < fuel
      → let (after, outcome) = worker_function A S user fuel pool in
        (outcome ≡ returns breaks)
        × (queued A S L M after ≡ [])
        × (after.world ≡ all_executed user pool.jobs (queued A S L M pool) pool.world)
  unfolding worker_function all_executed
  worker_function-drains user zero pool h v enough = ground arith
  worker_function-drains user (suc fuel) pool h v enough =
      let (still, valid, cases) = closed_round-cases user pool h v in
      elim cases [
        | inl e ↦ ground arith
        | inr (a, eq, looped, store, world) ↦
            let after = (worker_round A S user pool).0 in
            let fresh : Fresh a (queued A S L M after) = (subst (AllReady pool.jobs) eq v).1 in
            let rest = worker_function-drains user fuel after still valid (ground arith) in
            let later =
              all_executed-set_job user pool.jobs a none (queued A S L M after) after.world fresh in
            ground (arith, rest, later)
      ]

  -- A round of discarding: it takes the first job and cancels it, or breaks.
  discard_round-cases :
      (pool : Pool A S)
      → IsValid A S L M pool
      → let (after, next) = discard_round A S pool in
        IsValid A S L M after
        × (((next ≡ breaks) × (queued A S L M pool ≡ []) × (after ≡ pool))
            ⊎ ((a : ℕ) × (queued A S L M pool ≡ a ∷ queued A S L M after)
                × (next ≡ loops)
                × (after.jobs ≡ set_job pool.jobs a none)
                × (after.world ≡ cancelled (pool.jobs a) pool.world)))
  unfolding discard_round discard_pops discard_cancels
  discard_round-cases pool v =
      let empty = is_empty_job_queue-items A S L M pool.job_q in
      elim (job_queue-Keeps A S L M pool.job_q pops) [
        | inl e ↦ ground (arith, empty)
        | inr (inl e) ↦ ground (arith, empty)
        | inr (inr (a, eq, returned, closed)) ↦
            let ((not_null, (job, at, state)), fresh, rest) = subst (AllReady pool.jobs) eq v in
            (
              ground (arith, empty, set_job-AllReady pool.jobs a none _ fresh rest),
              inr (
                a,
                ground (arith, empty),
                ground (arith, empty),
                ground (arith, empty),
                ground (arith, empty),
              ),
            )
      ]

  -- Discarding the jobs of a queue, which are in the store, each at an address of its own and not run
  -- before, cancels all of them in order and leaves the queue empty; the loop takes at most one
  -- round more than there are jobs. (No other thread gets the lock in the meantime.)
  pub discard_leftover_jobs-cancels :
      (fuel : ℕ) (pool : Pool A S)
      → IsValid A S L M pool
      → length (queued A S L M pool) < fuel
      → let (after, outcome) = discard_leftover_jobs A S fuel pool in
        (outcome ≡ returns breaks)
        × (queued A S L M after ≡ [])
        × (after.world ≡ all_cancelled pool.jobs (queued A S L M pool) pool.world)
  unfolding discard_leftover_jobs all_cancelled
  discard_leftover_jobs-cancels zero pool v enough = ground arith
  discard_leftover_jobs-cancels (suc fuel) pool v enough =
      let (valid, cases) = discard_round-cases pool v in
      elim cases [
        | inl e ↦ ground arith
        | inr (a, eq, looped, store, world) ↦
            let after = (discard_round A S pool).0 in
            let fresh : Fresh a (queued A S L M after) = (subst (AllReady pool.jobs) eq v).1 in
            let rest = discard_leftover_jobs-cancels fuel after valid (ground arith) in
            let later =
              all_cancelled-set_job pool.jobs a none (queued A S L M after) after.world fresh in
            ground (arith, rest, later)
      ]
