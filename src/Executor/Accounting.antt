-- ===== src/Executor/Accounting.antt =====
-- Every job that an executor accepts is accounted for, and so is every call of user code for it
-- (src/executor.c, src/worker.c, src/job.c).
use mathlib.Core.List.{Perm, append-nil, append_assoc}
use boom_par.Prelude.{
  ℕ, ◌≡◌, refl, sym, ap, subst, ◌∙◌, Bool, List, [], ◌∷◌, ◌++◌, none, some, arith, map,
}
use boom_par.Cutlery.Arraylist.{Arraylist, ArraylistLaws}
use boom_par.Cutlery.Singlylist.{Singlylist, SinglylistLaws}
use boom_par.Job.{Job, World, UserCode, Event, ran, cancelled_with, notified, created}
use boom_par.Job.Lifecycle.{
  Call, executes as to_execute, cancels as to_cancel, call, calls_of, completion, call-acts,
}
use boom_par.Worker.Draining.{executed, cancelled}
use boom_par.Executor.{Executor, create_workers_upfront}
use boom_par.Executor.Creation.{Arguments, created_by}
use boom_par.Executor.Events.{
  Ending, executes, cancels_it, job_of, one_by_one, accepted, ended, in_hand, pending,
}
use boom_par.Executor.Counts.{opened}
use boom_par.Executor.Safety.{new_executor-IsSafe}
use boom_par.Executor.History.{executor-ends}
use boom_par.Executor.Fulfilment.{AllNew, ended-AllNew}
use boom_par.Executor.Moves.{eq-Perm}
use boom_par.Executor.Places.{System}
use boom_par.Executor.Steps.{Reach}

-- The calls of job functions and of cancellation callbacks.
abbrev pub user_calls : List Event → List Event
user_calls [] = []
user_calls (ran f x ∷ es) = ran f x ∷ user_calls es
user_calls (cancelled_with f x ∷ es) = cancelled_with f x ∷ user_calls es
user_calls (notified p c ∷ es) = user_calls es

user_calls-append : (es es' : List Event) → user_calls (es ++ es') ≡ user_calls es ++ user_calls es'
user_calls-append [] es' = refl
user_calls-append (ran f x ∷ es) es' = ap (λ cs. ran f x ∷ cs) (user_calls-append es es')
user_calls-append (cancelled_with f x ∷ es) es' =
    ap (λ cs. cancelled_with f x ∷ cs) (user_calls-append es es')
user_calls-append (notified p c ∷ es) es' = user_calls-append es es'

-- What the end of a job calls: its function, if it is executed, and its cancellation callback, if it
-- has one, if it is cancelled.
abbrev pub calls_for : Ending → List Event
calls_for (executes none) = []
calls_for (executes (some job)) = calls_of job to_execute
calls_for (cancels_it none) = []
calls_for (cancels_it (some job)) = calls_of job to_cancel

abbrev pub all_calls : List Ending → List Event
all_calls [] = []
all_calls (e ∷ es) = calls_for e ++ all_calls es

user_calls-completion : (w : World) (address : ℕ) → user_calls (completion w address) ≡ []
user_calls-completion w address = ground arith

user_calls-calls_of : (job : Job) (c : Call) → user_calls (calls_of job c) ≡ calls_of job c
user_calls-calls_of job to_execute = refl
user_calls-calls_of job to_cancel = ground arith

-- A call on a created job adds its calls.
call-user_calls :
    (user : UserCode) (job : Job) (w : World) (c : Call)
    → job.state ≡ created
    → user_calls (call user job w c).1.events ≡ user_calls w.events ++ calls_of job c
call-user_calls user job w c e =
    ap user_calls (call-acts user job w c e).2
    ∙ user_calls-append (w.events ++ calls_of job c) (completion w job.promise_for_output)
    ∙ ap (λ cs. user_calls (w.events ++ calls_of job c) ++ cs)
        (user_calls-completion w job.promise_for_output)
    ∙ append-nil (user_calls (w.events ++ calls_of job c))
    ∙ user_calls-append w.events (calls_of job c)
    ∙ ap (λ cs. user_calls w.events ++ cs) (user_calls-calls_of job c)

-- The world behind the end of one job.
abbrev ended_one : UserCode → Ending → World → World
ended_one user (executes job) world = executed user job world
ended_one user (cancels_it job) world = cancelled job world

ended_one-calls :
    (user : UserCode) (e : Ending) (w : World) (job : Job)
    → job_of e ≡ some job
    → job.state ≡ created
    → user_calls (ended_one user e w).events ≡ user_calls w.events ++ calls_for e
unfolding call
ended_one-calls user (executes o) w job same c =
    subst
      (λ o. user_calls (executed user o w).events ≡ user_calls w.events ++ calls_for (executes o))
      (sym same) (call-user_calls user job w to_execute c)
ended_one-calls user (cancels_it o) w job same c =
    subst (λ o. user_calls (cancelled o w).events ≡ user_calls w.events ++ calls_for (cancels_it o))
      (sym same) (call-user_calls user job w to_cancel c)

one_by_one-calls :
    (user : UserCode) (es : List Ending) (w : World)
    → AllNew (map job_of es)
    → user_calls (one_by_one user es w).events ≡ user_calls w.events ++ all_calls es
unfolding one_by_one
one_by_one-calls user [] w new = sym (append-nil (user_calls w.events))
one_by_one-calls user (executes o ∷ es) w ((job, same, c), new) =
    one_by_one-calls user es (executed user o w) new
    ∙ ap (λ cs. cs ++ all_calls es) (ended_one-calls user (executes o) w job same c)
    ∙ append_assoc (user_calls w.events) (calls_for (executes o)) (all_calls es)
one_by_one-calls user (cancels_it o ∷ es) w ((job, same, c), new) =
    one_by_one-calls user es (cancelled o w) new
    ∙ ap (λ cs. cs ++ all_calls es) (ended_one-calls user (cancels_it o) w job same c)
    ∙ append_assoc (user_calls w.events) (calls_for (cancels_it o)) (all_calls es)

module _ (A : Arraylist) (S : Singlylist) (L : ArraylistLaws A) (M : SinglylistLaws S) where
  -- From a new executor on, whatever the order of the sections of its threads: the jobs that were
  -- accepted are, in some order, those that were executed or cancelled, those that a thread has popped
  -- and not ended yet, and those in the queue; and the calls of job functions and cancellation
  -- callbacks are, in some order, those that came before, the call of the function of each executed
  -- job, on its input, and that of the cancellation callback of each cancelled job that has one. So
  -- no job is lost or made up; each is ended at most once; the function of an executed job is called
  -- once, and that of a cancelled job not at all. (A job counts as executed from the call of its
  -- function on, and as cancelled from that of its callback on; the order of the calls is not said.)
  pub executor-accounts :
      (user : UserCode) (args : Arguments) (ex : Executor A S) (errors : ℕ → Bool) (s : System A S)
      → created_by A S args ≡ some ex
      → (r : Reach A S user (opened A S (create_workers_upfront A S errors ex)) s)
      → Perm (accepted A S r) (map job_of (ended A S r) ++ in_hand A S s ++ pending A S L M s)
        × Perm
            (user_calls s.ex.pool.world.events)
            (user_calls args.world.events ++ all_calls (ended A S r))
  executor-accounts user args ex errors s e r =
      let (safe, empty, same, fixed) = new_executor-IsSafe A S L M args ex errors e in
      let (serial, acts) = executor-ends A S L M user args ex errors s e r in
      (
        serial,
        eq-Perm (
            ap (λ w. user_calls w.events) acts
            ∙ one_by_one-calls user (ended A S r) args.world (ended-AllNew A S L M user r safe)),
      )
