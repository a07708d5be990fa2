-- ===== src/Worker/Sharing.antt =====
-- The sections of src/worker.c keep the jobs of the queue and those that threads hold in order.
use mathlib.Core.List.{Permᴰ, append_assoc}
use mathlib.Core.List.Permᴰ
use boom_par.Prelude.{
  ℕ, ◌≡◌, ◌≢◌, ◌⊎◌, inl, inr, refl, sym, subst, Bool, true, false, not, List, [], ◌∷◌, ◌++◌, Option,
  none, some, arith, ◌==◌, if◌then◌else◌, Notice, Outcome, waits, returns,
}
use boom_par.Cutlery.Arraylist.{Arraylist, ArraylistLaws}
use boom_par.Cutlery.Singlylist.{Singlylist, SinglylistLaws}
use boom_par.Job.{Job, UserCode, created, new_job, initialize_job}
use boom_par.JobQueue.{
  JobQueue, push_job_queue, push_job_queue_woken, pop_job_queue, pop_job_queue_woken,
}
use boom_par.JobQueue.Refines.{view, pushes, push_resumes, pops, pop_resumes, job_queue-Keeps}
use boom_par.SyncQueue.{Condition}
use boom_par.ClosableQueue.{Pushes, Pops}
use boom_par.Worker.{
  Pool, loops, set_job, settle, submit, popped, popped_at_once, submit_job_worker,
  submit_job_worker_woken, worker_pops, worker_pops_woken, worker_runs, discard_pops,
  discard_cancels,
}
use boom_par.Worker.Ready.{AllReady, unused-Fresh, set_job-AllReady, queued}
use boom_par.Worker.Owned.{AllReady-Perm, AllReady-deleted}

-- The addresses that threads hold behind a section of the submission of the job at `a`.
abbrev pub pushing_after : ℕ → List ℕ → Outcome Bool → List ℕ
pushing_after a held waits = a ∷ held
pushing_after a held (returns done) = held

-- The same behind a section of a pop.
abbrev pub popping_after : List ℕ → Outcome ℕ → List ℕ
popping_after held waits = held
popping_after held (returns a) = if a == 0 then held else a ∷ held

module _ (A : Arraylist) (S : Singlylist) (L : ArraylistLaws A) (M : SinglylistLaws S) where
  -- The jobs of the queue, and those that threads hold.
  abbrev pub OwnedBy : Pool A S → List ℕ → Type 0
  OwnedBy pool held = AllReady pool.jobs (queued A S L M pool ++ held)

  abbrev pub is_closed : Pool A S → Bool
  is_closed pool = (view A S L M pool.job_q).is_closed

  pub OwnedBy-Perm :
      (pool : Pool A S) {held held' : List ℕ}
      → Permᴰ held held'
      → OwnedBy pool held
      → OwnedBy pool held'
  OwnedBy-Perm pool p = AllReady-Perm pool.jobs (Permᴰ.append_left (queued A S L M pool) p)

  -- A thread that holds a job apart from the queue.
  abbrev Holds : Pool A S → ℕ → List ℕ → Type 0
  Holds pool a held = AllReady pool.jobs (a ∷ (queued A S L M pool ++ held))

  pub OwnedBy-Holds :
      (pool : Pool A S) (a : ℕ) (held : List ℕ) → OwnedBy pool (a ∷ held) → Holds pool a held
  OwnedBy-Holds pool a held = AllReady-Perm pool.jobs (Permᴰ.middle a (queued A S L M pool) held)

  Holds-OwnedBy :
      (pool : Pool A S) (a : ℕ) (held : List ℕ) → Holds pool a held → OwnedBy pool (a ∷ held)
  Holds-OwnedBy pool a held =
      AllReady-Perm pool.jobs (Permᴰ.symm (Permᴰ.middle a (queued A S L M pool) held))

  -- A push of the job at `a`, which its thread holds.
  settle-OwnedBy :
      {cramped : Bool} (pool : Pool A S) (a : ℕ) (held : List ℕ)
      (r : JobQueue A S × List (Notice Condition) × Outcome Bool)
      → Holds pool a held
      → Pushes cramped (view A S L M pool.job_q) a (view A S L M r.0) r.2
      → let (after, _, outcome) = settle A S pool a r in
        OwnedBy after (pushing_after a held outcome) × (is_closed after ≡ is_closed pool)
  settle-OwnedBy pool a held r h keeps =
      let waiting = Holds-OwnedBy pool a held h in
      let pushed : AllReady pool.jobs ((queued A S L M pool ++ a ∷ []) ++ held) =
        subst (AllReady pool.jobs) (sym (append_assoc (queued A S L M pool) (a ∷ []) held))
          waiting in
      let deleted = AllReady-deleted pool.jobs a (queued A S L M pool ++ held) h in
      ground (arith, waiting, pushed, deleted)

  submit-OwnedBy :
      (pool : Pool A S) (a : ℕ) (held : List ℕ) (job : Option Job)
      → OwnedBy pool held
      → pool.jobs a ≡ none
      → ((j : Job) → job ≡ some j → (a ≢ 0) × (j.state ≡ created))
      → let (after, _, outcome) = submit A S pool a job in
        OwnedBy after (pushing_after a held outcome) × (is_closed after ≡ is_closed pool)
  submit-OwnedBy pool a held none o e new = (o, refl)
  submit-OwnedBy pool a held (some j) o e new =
      let fresh = unused-Fresh pool.jobs a (queued A S L M pool ++ held) e o in
      settle-OwnedBy (record pool { jobs = set_job pool.jobs a (some j) }) a held
        (push_job_queue A S pool.job_q a)
        (
          ((new j refl).0, (j, ground arith, (new j refl).1)),
          fresh,
          set_job-AllReady pool.jobs a (some j) (queued A S L M pool ++ held) fresh o,
        )
        (job_queue-Keeps A S L M pool.job_q (pushes a))

  pub submit_job_worker-OwnedBy :
      (pool : Pool A S) (a f i p c : ℕ) (held : List ℕ)
      → OwnedBy pool held
      → pool.jobs a ≡ none
      → let (after, _, outcome) = submit_job_worker A S pool a f i p c in
        OwnedBy after (pushing_after a held outcome) × (is_closed after ≡ is_closed pool)
  unfolding submit_job_worker new_job initialize_job
  submit_job_worker-OwnedBy pool a f i p c held o e =
      submit-OwnedBy pool a held (new_job (not (a == 0)) f i p c) o e
        (λ j same. (ground arith, ground arith))

  pub submit_job_worker_woken-OwnedBy :
      (pool : Pool A S) (a : ℕ) (held : List ℕ) (wait_error : Bool)
      → OwnedBy pool (a ∷ held)
      → let (pool', _, outcome) = submit_job_worker_woken A S pool a wait_error in
        OwnedBy pool' (pushing_after a held outcome) × (is_closed pool' ≡ is_closed pool)
  unfolding submit_job_worker_woken
  submit_job_worker_woken-OwnedBy pool a held wait_error o =
      settle-OwnedBy pool a held (push_job_queue_woken A S pool.job_q a wait_error)
        (OwnedBy-Holds pool a held o)
        (job_queue-Keeps A S L M pool.job_q (push_resumes a wait_error))

  -- What a pop does to the pool and to the jobs that threads hold: it waits on an open, empty queue;
  -- it returns NULL from an empty queue, which is closed or whose wait failed; or it takes the first.
  abbrev pub Took : Bool → Pool A S → List ℕ → Pool A S → Outcome ℕ → Type 0
  Took wait_error pool held after outcome =
      OwnedBy after (popping_after held outcome)
      × (is_closed after ≡ is_closed pool)
      × (after.jobs ≡ pool.jobs)
      × (after.world ≡ pool.world)
      × (((outcome ≡ waits)
            × (queued A S L M after ≡ queued A S L M pool)
            × (is_closed pool ≡ false))
          ⊎ (((outcome ≡ returns 0)
                × (queued A S L M after ≡ queued A S L M pool)
                × (queued A S L M pool ≡ [])
                × ((is_closed pool ≡ true) ⊎ (wait_error ≡ true)))
              ⊎ ((a : ℕ) × (outcome ≡ returns a)
                  × (a ≢ 0)
                  × (queued A S L M pool ≡ a ∷ queued A S L M after))))

  pub popped-Took :
      (pool : Pool A S) (held : List ℕ) (wait_error : Bool)
      (r : JobQueue A S × List (Notice Condition) × Outcome ℕ)
      → OwnedBy pool held
      → Pops wait_error (view A S L M pool.job_q) (view A S L M r.0) r.2
      → let (after, _, outcome) = popped A S pool r in Took wait_error pool held after outcome
  popped-Took pool held wait_error r o (inl e) = ground arith
  popped-Took pool held wait_error r o (inr (inl e)) = ground arith
  popped-Took pool held wait_error r o (inr (inr (a, eq, returned, closed))) =
      let holds : AllReady pool.jobs (a ∷ (view A S L M r.0).items ++ held) =
        subst (λ q. AllReady pool.jobs (q ++ held)) eq o in
      let owned = Holds-OwnedBy (record pool { job_q = r.0 }) a held holds in
      let not_null : a ≢ 0 = holds.0.0 in
      (ground arith, closed, refl, refl, inr (inr (a, returned, not_null, eq)))

  pub worker_pops-Took :
      (pool : Pool A S) (held : List ℕ)
      → OwnedBy pool held
      → let (after, _, outcome) = worker_pops A S pool in Took false pool held after outcome
  unfolding worker_pops
  worker_pops-Took pool held o =
      popped-Took pool held false (pop_job_queue A S pool.job_q) o
        (job_queue-Keeps A S L M pool.job_q pops)

  pub worker_pops_woken-Took :
      (pool : Pool A S) (held : List ℕ) (wait_error : Bool)
      → OwnedBy pool held
      → let (after, _, outcome) = worker_pops_woken A S pool wait_error in
        Took wait_error pool held after outcome
  unfolding worker_pops_woken
  worker_pops_woken-Took pool held wait_error o =
      popped-Took pool held wait_error (pop_job_queue_woken A S pool.job_q wait_error) o
        (job_queue-Keeps A S L M pool.job_q (pop_resumes wait_error))

  popped_at_once-Took :
      (pool : Pool A S) (held : List ℕ) (r : JobQueue A S × List (Notice Condition) × Outcome ℕ)
      → let (tried, _, outcome) = popped A S pool r in
        Took false pool held tried outcome
        → let (after, _, outcome') = popped_at_once A S pool r in Took true pool held after outcome'
  popped_at_once-Took pool held (jq, notices, waits) took =
      let again =
        popped-Took (record pool { job_q = jq }) held true (pop_job_queue_woken A S jq true) took.0
          (job_queue-Keeps A S L M jq (pop_resumes true)) in
      ground (arith, again)
  popped_at_once-Took pool held (jq, notices, returns a) took = ground arith

  pub discard_pops-Took :
      (pool : Pool A S) (held : List ℕ)
      → OwnedBy pool held
      → let (after, _, outcome) = discard_pops A S pool in Took true pool held after outcome
  unfolding discard_pops
  discard_pops-Took pool held o = popped_at_once-Took pool held (pop_job_queue A S pool.job_q) (
      popped-Took pool held false (pop_job_queue A S pool.job_q) o
        (job_queue-Keeps A S L M pool.job_q pops))

  -- A thread that has popped a job finds it in the store, and runs or cancels it.
  pub worker_runs-OwnedBy :
      (user : UserCode) (pool : Pool A S) (a : ℕ) (held : List ℕ)
      → OwnedBy pool (a ∷ held)
      → let (after, next) = worker_runs A S user pool a in
        OwnedBy after held
        × (next ≡ loops)
        × (after.job_q ≡ pool.job_q)
        × (after.jobs ≡ set_job pool.jobs a none)
  unfolding worker_runs
  worker_runs-OwnedBy user pool a held o =
      let h = OwnedBy-Holds pool a held o in
      let (not_null, (job, at, state)) = h.0 in
      let deleted = AllReady-deleted pool.jobs a (queued A S L M pool ++ held) h in
      ground (arith, deleted)

  pub discard_cancels-OwnedBy :
      (pool : Pool A S) (a : ℕ) (held : List ℕ)
      → OwnedBy pool (a ∷ held)
      → let (after, next) = discard_cancels A S pool a in
        OwnedBy after held
        × (next ≡ loops)
        × (after.job_q ≡ pool.job_q)
        × (after.jobs ≡ set_job pool.jobs a none)
  unfolding discard_cancels
  discard_cancels-OwnedBy pool a held o =
      let h = OwnedBy-Holds pool a held o in
      let (not_null, (job, at, state)) = h.0 in
      let deleted = AllReady-deleted pool.jobs a (queued A S L M pool ++ held) h in
      ground (arith, deleted)
