-- ===== src/Executor/Moves.antt =====
-- How a section of src/worker.c moves the jobs of an executor between its queue and its threads.
use mathlib.Core.List.{Perm, append-nil, perm_middle}
use mathlib.Core.List.Perm
use boom_par.Prelude.{
  ℕ, ◌≡◌, ◌≢◌, inl, inr, refl, sym, ap, subst, ◌∙◌, Bool, List, [], ◌∷◌, ◌++◌, Option, none, some,
  arith, map, Outcome, waits, returns,
}
use boom_par.Cutlery.Arraylist.{Arraylist, ArraylistLaws}
use boom_par.Cutlery.Singlylist.{Singlylist, SinglylistLaws}
use boom_par.Job.{Job}
use boom_par.Worker.{Pool, set_job}
use boom_par.Worker.Ready.{Fresh, queued}
use boom_par.Worker.Owned.{map-kept}
use boom_par.Worker.Submission.{Submitted}
use boom_par.Worker.Sharing.{Took, popping_after}
use boom_par.Executor.Events.{accepted_if, taken}

pub map-append : (f : ℕ → Option Job) (xs ys : List ℕ) → map f (xs ++ ys) ≡ map f xs ++ map f ys
map-append f [] ys = refl
map-append f (x ∷ xs) ys = ap (λ os. f x ∷ os) (map-append f xs ys)

pub Fresh-append_left : (a : ℕ) (bs cs : List ℕ) → Fresh a (bs ++ cs) → Fresh a bs
Fresh-append_left a [] cs f = tt
Fresh-append_left a (b ∷ bs) cs f = (f.0, Fresh-append_left a bs cs f.1)

pub Fresh-append_right : (a : ℕ) (bs cs : List ℕ) → Fresh a (bs ++ cs) → Fresh a cs
Fresh-append_right a [] cs f = f
Fresh-append_right a (b ∷ bs) cs f = Fresh-append_right a bs cs f.1

pub eq-Perm {ℓ} : {B : Type ℓ} {xs ys : List B} → xs ≡ ys → Perm xs ys
eq-Perm {xs = xs} e = subst (Perm xs) e (Perm.refl xs)

-- A pop, as a change of the addresses that its kind of thread holds.
pub taken-Perm :
    (jobs : ℕ → Option Job) (ps held : List ℕ) (outcome : Outcome ℕ)
    → Perm (popping_after ps outcome) held
    → Perm (map jobs ps ++ taken jobs outcome) (map jobs held)
taken-Perm jobs ps held waits p = Perm.trans (eq-Perm (append-nil (map jobs ps))) (Perm.map jobs p)
taken-Perm jobs ps held (returns a) p =
    let same : Perm ps held → Perm (map jobs ps ++ []) (map jobs held) =
      λ q. Perm.trans (eq-Perm (append-nil (map jobs ps))) (Perm.map jobs q) in
    let more : Perm (a ∷ ps) held → Perm (map jobs ps ++ jobs a ∷ []) (map jobs held) = λ q.
      Perm.trans (perm_middle (map jobs ps) []) (
        Perm.trans (eq-Perm (ap (λ os. jobs a ∷ os) (append-nil (map jobs ps))))
          (Perm.map jobs q)) in
    ground (arith, same, more)

-- The job at `a` is deleted, and is no longer held.
pub deleted-Perm :
    (jobs : ℕ → Option Job) (a : ℕ) (held rest : List ℕ)
    → Fresh a rest
    → Perm held (a ∷ rest)
    → Perm (map jobs held ++ []) (jobs a ∷ map (set_job jobs a none) rest)
deleted-Perm jobs a held rest fresh p =
    let kept = map-kept jobs (set_job jobs a none) a rest fresh (λ other h. ground arith) in
    Perm.trans (eq-Perm (append-nil (map jobs held)))
      (Perm.trans (Perm.map jobs p) (eq-Perm (ap (λ os. jobs a ∷ os) (sym kept))))

module _ (A : Arraylist) (S : Singlylist) (L : ArraylistLaws A) (M : SinglylistLaws S) where
  abbrev lined_up : Pool A S → List (Option Job)
  lined_up pool = map pool.jobs (queued A S L M pool)

  -- A submission appends its job to the queue, if it is accepted.
  pub Submitted-lined_up :
      (pool after : Pool A S) (a : ℕ) (job : Job) (outcome : Outcome Bool)
      → Fresh a (queued A S L M pool)
      → Submitted A S L M pool a job after outcome
      → ((other : ℕ) → a ≢ other → after.jobs other ≡ pool.jobs other)
      → lined_up pool ++ accepted_if (some job) outcome ≡ lined_up after
  Submitted-lined_up pool after a job outcome fresh submitted others =
      let kept = map-kept pool.jobs after.jobs a (queued A S L M pool) fresh others in
      let as_it_was : queued A S L M after ≡ queued A S L M pool
          → lined_up pool ++ [] ≡ lined_up after =
        λ same. append-nil (lined_up pool) ∙ sym kept ∙ sym (ap (map after.jobs) same) in
      elim submitted [
        | inl (waiting, open_queue, same, at) ↦
            ap (λ o. lined_up pool ++ accepted_if (some job) o) waiting
            ∙ as_it_was (ap (λ q. q.items) same)
        | inr (inl (refused, same, at)) ↦
            ap (λ o. lined_up pool ++ accepted_if (some job) o) refused
            ∙ as_it_was (ap (λ q. q.items) same)
        | inr (inr (done, open_queue, same, at)) ↦
            ap (λ o. lined_up pool ++ accepted_if (some job) o) done
            ∙ ap (λ os. os ++ some job ∷ []) (sym kept)
            ∙ ap (λ o. map after.jobs (queued A S L M pool) ++ o ∷ []) (sym at)
            ∙ sym (map-append after.jobs (queued A S L M pool) (a ∷ []))
            ∙ sym (ap (map after.jobs) same)
      ]

  -- A pop takes the first job of the queue, if any.
  pub Took-first :
      (wait_error : Bool) (pool after : Pool A S) (held : List ℕ) (outcome : Outcome ℕ)
      → Took A S L M wait_error pool held after outcome
      → lined_up pool ++ [] ≡ taken pool.jobs outcome ++ lined_up after
  Took-first wait_error pool after held outcome took =
      let (owned, closed, jobs, world, cases) = took in
      let same_jobs : map after.jobs (queued A S L M after) ≡ map pool.jobs (queued A S L M after) =
        ap (λ js. map js (queued A S L M after)) jobs in
      let as_it_was : queued A S L M after ≡ queued A S L M pool
          → lined_up pool ++ [] ≡ lined_up after =
        λ same. append-nil (lined_up pool) ∙ sym (ap (map pool.jobs) same) ∙ sym same_jobs in
      elim cases [
        | inl (waiting, same, open_queue) ↦
            as_it_was same ∙ sym (ap (λ o. taken pool.jobs o ++ lined_up after) waiting)
        | inr (inl (null, same, empty, why)) ↦
            as_it_was same ∙ sym (ap (λ o. taken pool.jobs o ++ lined_up after) null)
        | inr (inr (a, returned, not_null, same)) ↦
            let one : taken pool.jobs (returns a) ≡ pool.jobs a ∷ [] = ground arith in
            append-nil (lined_up pool)
            ∙ ap (map pool.jobs) same
            ∙ sym (ap (λ os. pool.jobs a ∷ os) same_jobs)
            ∙ sym (ap (λ os. os ++ lined_up after) one)
            ∙ sym (ap (λ o. taken pool.jobs o ++ lined_up after) returned)
      ]
