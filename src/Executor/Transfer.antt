-- ===== src/Executor/Transfer.antt =====
-- How jobs go from the queue of an executor to the hands of its threads and from there (src/executor.c, src/worker.c).
use mathlib.Core.List.{Perm, append-nil}
use mathlib.Core.List.Perm
use boom_par.Prelude.{
  ℕ, ◌≡◌, ◌≢◌, sym, ap, subst, ◌∙◌, Bool, List, [], ◌∷◌, ◌++◌, Option, none, some, arith, map,
  Outcome,
}
use boom_par.Cutlery.Arraylist.{Arraylist, ArraylistLaws}
use boom_par.Cutlery.Singlylist.{Singlylist, SinglylistLaws}
use boom_par.Job.{Job, UserCode}
use boom_par.JobQueue.Refines.{view}
use boom_par.Worker.{Pool, set_job}
use boom_par.Worker.Ready.{Fresh, queued}
use boom_par.Worker.Owned.{map-kept}
use boom_par.Worker.Submission.{Submitted}
use boom_par.Worker.Sharing.{OwnedBy, popping_after, Took, OwnedBy-Holds}
use boom_par.Executor.Held.{held}
use boom_par.Executor.Events.{Ending, job_of, one_by_one, accepted_if, taken}
use boom_par.Executor.Moves.{
  Fresh-append_left, Fresh-append_right, eq-Perm, taken-Perm, deleted-Perm, Submitted-lined_up,
  Took-first,
}
use boom_par.Executor.Places.{System, Places}

module _ (A : Arraylist) (S : Singlylist) (L : ArraylistLaws A) (M : SinglylistLaws S) where
  -- Between two pools, with the addresses that threads run or cancel, some jobs were accepted, some
  -- popped, and some ended.
  pub record Moved (user : UserCode) (pool : Pool A S) (hands : List ℕ) (pool' : Pool A S)
      (hands' : List ℕ) (accepts pops : List (Option Job)) (ends : List Ending) : Type 0 where
    pub lines_up :
        map pool.jobs (queued A S L M pool) ++ accepts
        ≡ pops ++ map pool'.jobs (queued A S L M pool')
    pub handed : Perm (map pool.jobs hands ++ pops) (map job_of ends ++ map pool'.jobs hands')
    pub acts : pool'.world ≡ one_by_one user ends pool.world

  abbrev pub hands_of : Places → List ℕ
  hands_of at = at.running ++ at.cancelling

  abbrev pub Moves :
      UserCode
      → System A S
      → System A S
      → List (Option Job)
      → List (Option Job)
      → List Ending
      → Type 0
  Moves user s t = Moved user s.ex.pool (hands_of s.at) t.ex.pool (hands_of t.at)

  pub Moved-to :
      (user : UserCode) (pool : Pool A S) (hands : List ℕ) {pool' pool'' : Pool A S}
      {hands' hands'' : List ℕ} {accepts pops : List (Option Job)} {ends : List Ending}
      → Moved user pool hands pool'' hands'' accepts pops ends
      → pool' ≡ pool''
      → hands' ≡ hands''
      → Moved user pool hands pool' hands' accepts pops ends
  Moved-to user pool hands {pool'} {pool''} {hands'} {hands''} {accepts} {pops} {ends} m p h =
      subst (λ x. Moved user pool hands x hands' accepts pops ends) (sym p)
        (subst (λ x. Moved user pool hands pool'' x accepts pops ends) (sym h) m)

  pub Moved-queue :
      (user : UserCode) (pool pool' : Pool A S) (hands : List ℕ)
      → pool'.jobs ≡ pool.jobs
      → queued A S L M pool' ≡ queued A S L M pool
      → pool'.world ≡ pool.world
      → Moved user pool hands pool' hands [] [] []
  unfolding one_by_one
  Moved-queue user pool pool' hands j q w = record {
    lines_up =
        append-nil _
        ∙ sym (ap (map pool.jobs) q)
        ∙ sym (ap (λ js. map js (queued A S L M pool')) j);
    handed = eq-Perm (append-nil _ ∙ sym (ap (λ js. map js hands) j));
    acts = w;
  }

  pub Submitted-Moved :
      (user : UserCode) (pool after : Pool A S) (a : ℕ) (job : Job) (pushing hands : List ℕ)
      (outcome : Outcome Bool)
      → Fresh a (queued A S L M pool ++ (pushing ++ hands))
      → Submitted A S L M pool a job after outcome
        × ((other : ℕ) → a ≢ other → after.jobs other ≡ pool.jobs other)
        × (after.world ≡ pool.world)
      → Moved user pool hands after hands (accepted_if (some job) outcome) [] []
  unfolding one_by_one
  Submitted-Moved user pool after a job pushing hands outcome fresh (submitted, others, world) =
      let at_hand =
        Fresh-append_right a pushing hands (Fresh-append_right a (queued A S L M pool) _ fresh) in
      let kept = map-kept pool.jobs after.jobs a hands at_hand others in
      record {
        lines_up =
            Submitted-lined_up A S L M pool after a job outcome
              (Fresh-append_left a (queued A S L M pool) _ fresh) submitted others;
        handed = eq-Perm (append-nil _ ∙ sym kept);
        acts = world;
      }

  pub Took-Moved :
      (user : UserCode) (wait_error : Bool) (pool after : Pool A S) (held hands hands' : List ℕ)
      (outcome : Outcome ℕ)
      → Took A S L M wait_error pool held after outcome
      → Perm (popping_after hands outcome) hands'
      → Moved user pool hands after hands' [] (taken pool.jobs outcome) []
  unfolding one_by_one
  Took-Moved user wait_error pool after held hands hands' outcome took p = record {
    lines_up = Took-first A S L M wait_error pool after held outcome took;
    handed =
        Perm.trans (taken-Perm pool.jobs hands hands' outcome p)
          (eq-Perm (sym (ap (λ js. map js hands') took.2)));
    acts = took.3;
  }

  pub ended-Moved :
      (user : UserCode) (pool after : Pool A S) (a : ℕ) (pushing hands rest : List ℕ)
      (ending : Ending)
      → OwnedBy A S L M pool (a ∷ pushing ++ rest)
      → Perm hands (a ∷ rest)
      → job_of ending ≡ pool.jobs a
      → after.job_q ≡ pool.job_q
      → after.jobs ≡ set_job pool.jobs a none
      → after.world ≡ one_by_one user (ending ∷ []) pool.world
      → Moved user pool hands after rest [] [] (ending ∷ [])
  ended-Moved user pool after a pushing hands rest ending owned p j q js w =
      let (stored, fresh, ready) = OwnedBy-Holds A S L M pool a (pushing ++ rest) owned in
      let kept =
        map-kept pool.jobs (set_job pool.jobs a none) a (queued A S L M pool)
          (Fresh-append_left a (queued A S L M pool) _ fresh) (λ other h. ground arith) in
      let at_hand =
        Fresh-append_right a pushing rest (Fresh-append_right a (queued A S L M pool) _ fresh) in
      record {
        lines_up =
            append-nil _
            ∙ sym kept
            ∙ sym (ap (λ js. map js (queued A S L M pool)) js)
            ∙ sym (ap (λ q. map after.jobs (view A S L M q).items) q);
        handed = Perm.trans (deleted-Perm pool.jobs a hands rest at_hand p) (
            eq-Perm (
              ap (λ o. o ∷ map (set_job pool.jobs a none) rest) (sym j)
              ∙ sym (ap (λ js. job_of ending ∷ map js rest) js)));
        acts = w;
      }
