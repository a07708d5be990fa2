-- ===== src/Worker/Ready.antt =====
-- The jobs of a queue in the store of src/worker.c: each is there, at an address of its own, and has
-- not been run.
use boom_par.Prelude.{ℕ, ◌≡◌, ◌≢◌, ap, List, [], ◌∷◌, ◌++◌, Option, none, some, arith}
use boom_par.Cutlery.Arraylist.{Arraylist, ArraylistLaws}
use boom_par.Cutlery.Singlylist.{Singlylist, SinglylistLaws}
use boom_par.Job.{Job, created}
use boom_par.JobQueue.Refines.{view}
use boom_par.Worker.{Pool, set_job}

abbrev pub Fresh : ℕ → List ℕ → Type 0
Fresh a [] = Unit
Fresh a (b ∷ bs) = (a ≢ b) × Fresh a bs

abbrev pub Stored : (ℕ → Option Job) → ℕ → Type 0
Stored jobs a = (a ≢ 0) × ((job : Job) × (jobs a ≡ some job) × (job.state ≡ created))

abbrev pub AllReady : (ℕ → Option Job) → List ℕ → Type 0
AllReady jobs [] = Unit
AllReady jobs (b ∷ bs) = Stored jobs b × Fresh b bs × AllReady jobs bs

-- An address that `malloc` may return is none of a stored job.
pub unused-Fresh :
    (jobs : ℕ → Option Job) (a : ℕ) (bs : List ℕ) → jobs a ≡ none → AllReady jobs bs → Fresh a bs
unused-Fresh jobs a [] e r = tt
unused-Fresh jobs a (b ∷ bs) e r =
    ((λ same. ground (arith, ap jobs same)), unused-Fresh jobs a bs e r.2)

pub set_job-AllReady :
    (jobs : ℕ → Option Job) (a : ℕ) (job : Option Job) (bs : List ℕ)
    → Fresh a bs
    → AllReady jobs bs
    → AllReady (set_job jobs a job) bs
set_job-AllReady jobs a job [] f r = tt
set_job-AllReady jobs a job (b ∷ bs) f r =
    let (stored, fresh, rest) = r in
    let (not_null, (found, at, state)) = stored in
    ((not_null, (found, ground arith, state)), fresh, set_job-AllReady jobs a job bs f.1 rest)

Fresh-append : (b a : ℕ) (bs : List ℕ) → Fresh b bs → b ≢ a → Fresh b (bs ++ a ∷ [])
Fresh-append b a [] f h = (h, tt)
Fresh-append b a (c ∷ bs) f h = (f.0, Fresh-append b a bs f.1 h)

pub AllReady-append :
    (jobs : ℕ → Option Job) (a : ℕ) (bs : List ℕ)
    → AllReady jobs bs
    → Fresh a bs
    → Stored jobs a
    → AllReady jobs (bs ++ a ∷ [])
AllReady-append jobs a [] r f s = (s, tt, tt)
AllReady-append jobs a (b ∷ bs) r f s =
    let (stored, fresh, rest) = r in
    (stored, Fresh-append b a bs fresh (ground arith), AllReady-append jobs a bs rest f.1 s)

module _ (A : Arraylist) (S : Singlylist) (L : ArraylistLaws A) (M : SinglylistLaws S) where
  abbrev pub queued : Pool A S → List ℕ
  queued pool = (view A S L M pool.job_q).items

  abbrev pub IsValid : Pool A S → Type 0
  IsValid pool = AllReady pool.jobs (queued pool)
