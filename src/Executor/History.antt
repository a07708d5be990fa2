-- ===== src/Executor/History.antt =====
-- Every job that an executor accepts, under any interleaving of its threads (src/executor.c,
-- src/worker.c).
use boom_par.Executor.Creation.{Arguments, created_by}
use mathlib.Core.List.{Perm, append_assoc}
use mathlib.Core.List.Perm
use boom_par.Prelude.{
  ℕ, ◌≡◌, refl, sym, ap, ◌∙◌, Bool, List, [], ◌∷◌, ◌++◌, Option, some, arith, map,
}
use boom_par.Cutlery.Arraylist.{Arraylist, ArraylistLaws}
use boom_par.Cutlery.Singlylist.{Singlylist, SinglylistLaws}
use boom_par.Job.{Job, World, UserCode}
use boom_par.Executor.{
  Executor, create_workers_upfront, create_worker, create_worker_started, submit_job_executor,
  submit_job_executor_leaves, clean_up_locked,
}
use boom_par.Executor.Events.{
  Ending, executes, cancels_it, job_of, one_by_one, accepted_by, popped_by, ended_by, accepted,
  popped, ended, in_hand, pending,
}
use boom_par.Executor.Moves.{eq-Perm}
use boom_par.Executor.Dispatch.{
  Moves-none, close-Moves, submit-Moves, submit_resumes-Moves, pop-Moves, pop_resumes-Moves,
  discard-Moves, run-Moves, cancel-Moves,
}
use boom_par.Executor.Transfer.{Moves}
use boom_par.Executor.Counts.{opened}
use boom_par.Executor.Safety.{new_executor-IsSafe}
use boom_par.Executor.Ownership.{IsSafe, Reach-IsSafe}
use boom_par.Executor.Threads.{
  enter, look_for_worker, look_for_jobs, create, start, leave, finish, close, close_resumes,
  look_for_leftovers, await, await_resumes,
}
use boom_par.Executor.Places.{System}
use boom_par.Executor.Steps.{
  Step, enters, submits, submit_goes_on, looks_for_worker, looks_for_jobs, creates, starts, leaves,
  pops, pop_goes_on, runs, finishes, closes, close_goes_on, looks_for_leftovers, discards, cancels,
  awaits, await_goes_on, rouses_pusher, rouses_popper, rouses_closer, rouses_waiter, Reach, here,
  later,
}

one_by_one-append :
    (user : UserCode) (es es' : List Ending) (world : World)
    → one_by_one user (es ++ es') world ≡ one_by_one user es' (one_by_one user es world)
unfolding one_by_one
one_by_one-append user [] es' world = refl
one_by_one-append user (executes job ∷ es) es' world = one_by_one-append user es es' _
one_by_one-append user (cancels_it job ∷ es) es' world = one_by_one-append user es es' _

pub map-job_of : (es es' : List Ending) → map job_of (es ++ es') ≡ map job_of es ++ map job_of es'
map-job_of [] es' = refl
map-job_of (e ∷ es) es' = ap (λ os. job_of e ∷ os) (map-job_of es es')

-- Two stretches of a run behind each other: what came in before, and what went out.
lines_up-append :
    (before middle behind ins ins' outs outs' : List (Option Job))
    → before ++ ins ≡ outs ++ middle
    → middle ++ ins' ≡ outs' ++ behind
    → before ++ (ins ++ ins') ≡ (outs ++ outs') ++ behind
lines_up-append before middle behind ins ins' outs outs' e e' =
    sym (append_assoc before ins ins')
    ∙ ap (λ xs. xs ++ ins') e
    ∙ append_assoc outs middle ins'
    ∙ ap (λ xs. outs ++ xs) e'
    ∙ sym (append_assoc outs outs' behind)

handed-append :
    (before middle behind ins ins' outs outs' : List (Option Job))
    → Perm (before ++ ins) (outs ++ middle)
    → Perm (middle ++ ins') (outs' ++ behind)
    → Perm (before ++ (ins ++ ins')) ((outs ++ outs') ++ behind)
handed-append before middle behind ins ins' outs outs' p p' =
    Perm.trans (eq-Perm (sym (append_assoc before ins ins'))) (
      Perm.trans (Perm.append_right ins' p) (
        Perm.trans (eq-Perm (append_assoc outs middle ins'))
          (Perm.trans (Perm.append_left outs p') (eq-Perm (sym (append_assoc outs outs' behind))))))

module _ (A : Arraylist) (S : Singlylist) (L : ArraylistLaws A) (M : SinglylistLaws S) where
  Step-Moves :
      (user : UserCode) {s t : System A S} (step : Step A S user s t)
      → IsSafe A S L M s
      → Moves A S L M user s t (accepted_by A S step) (popped_by A S step) (ended_by A S step)
  unfolding enter look_for_worker look_for_jobs create start leave finish close close_resumes
      look_for_leftovers await await_resumes submit_job_executor create_worker create_worker_started
      submit_job_executor_leaves clean_up_locked
  Step-Moves user {s} {t} (enters h) v = Moves-none A S L M user s t (ground arith) (ground arith)
  Step-Moves user {s} {t} (submits a f i p c h e) v = submit-Moves A S L M user s a f i p c e v
  Step-Moves user {s} {t} (submit_goes_on a before after wait_error w e) v =
      submit_resumes-Moves A S L M user s a before after wait_error e v
  Step-Moves user {s} {t} (looks_for_worker h) v =
      Moves-none A S L M user s t (ground arith) (ground arith)
  Step-Moves user {s} {t} (looks_for_jobs h) v =
      Moves-none A S L M user s t (ground arith) (ground arith)
  Step-Moves user {s} {t} (creates h) v = Moves-none A S L M user s t (ground arith) (ground arith)
  Step-Moves user {s} {t} (starts error h) v =
      Moves-none A S L M user s t (ground arith) (ground arith)
  Step-Moves user {s} {t} (leaves h) v = Moves-none A S L M user s t (ground arith) (ground arith)
  Step-Moves user {s} {t} (pops h) v = pop-Moves A S L M user s v
  Step-Moves user {s} {t} (pop_goes_on wait_error h n) v =
      pop_resumes-Moves A S L M user s wait_error v
  Step-Moves user {s} {t} (runs a before after e) v = run-Moves A S L M user s a before after e v
  Step-Moves user {s} {t} (finishes h) v = Moves-none A S L M user s t (ground arith) (ground arith)
  Step-Moves user {s} {t} (closes immediately) v = close-Moves A S L M user s immediately
  Step-Moves user {s} {t} (close_goes_on immediately h) v =
      Moves-none A S L M user s t (ground arith) (ground arith)
  Step-Moves user {s} {t} (looks_for_leftovers h) v =
      Moves-none A S L M user s t (ground arith) (ground arith)
  Step-Moves user {s} {t} (discards h) v = discard-Moves A S L M user s v
  Step-Moves user {s} {t} (cancels a before after e) v =
      cancel-Moves A S L M user s a before after e v
  Step-Moves user {s} {t} awaits v = Moves-none A S L M user s t (ground arith) (ground arith)
  Step-Moves user {s} {t} (await_goes_on h) v =
      Moves-none A S L M user s t (ground arith) (ground arith)
  Step-Moves user {s} {t} (rouses_pusher h) v =
      Moves-none A S L M user s t (ground arith) (ground arith)
  Step-Moves user {s} {t} (rouses_popper h) v =
      Moves-none A S L M user s t (ground arith) (ground arith)
  Step-Moves user {s} {t} (rouses_closer h) v =
      Moves-none A S L M user s t (ground arith) (ground arith)
  Step-Moves user {s} {t} (rouses_waiter h) v =
      Moves-none A S L M user s t (ground arith) (ground arith)

  pub Reach-Moves :
      (user : UserCode) {s t : System A S} (r : Reach A S user s t)
      → IsSafe A S L M s
      → Moves A S L M user s t (accepted A S r) (popped A S r) (ended A S r)
  unfolding accepted popped ended one_by_one
  Reach-Moves user {s} here v = Moves-none A S L M user s s refl refl
  Reach-Moves user {s} (later {t = t} {u} r step) v =
      let before = Reach-Moves user r v in
      let last = Step-Moves user step (Reach-IsSafe A S L M user v r) in
      record {
        lines_up =
            lines_up-append (pending A S L M s) (pending A S L M t) (pending A S L M u)
              (accepted A S r) (accepted_by A S step) (popped A S r) (popped_by A S step)
              before.lines_up last.lines_up;
        handed =
            Perm.trans
              (handed-append (in_hand A S s) (in_hand A S t) (in_hand A S u) (popped A S r)
                (popped_by A S step) (map job_of (ended A S r)) (map job_of (ended_by A S step))
                before.handed last.handed)
              (eq-Perm (
                ap (λ os. os ++ in_hand A S u)
                  (sym (map-job_of (ended A S r) (ended_by A S step)))));
        acts =
            last.acts
            ∙ ap (one_by_one user (ended_by A S step)) before.acts
            ∙ sym (one_by_one-append user (ended A S r) (ended_by A S step) s.ex.pool.world);
      }

  module _ (user : UserCode) (args : Arguments) (ex : Executor A S) (errors : ℕ → Bool)
      (s : System A S) (e : created_by A S args ≡ some ex)
      (r : Reach A S user (opened A S (create_workers_upfront A S errors ex)) s) where
    -- From a new executor on, whatever the order of the sections of its threads: the jobs that were
    -- accepted into the queue are, in the order in which they were accepted, those that threads have
    -- popped, in the order in which they popped them, and then those in the queue. So jobs are
    -- dispatched first in, first out, and none is lost, made up or dispatched twice.
    pub executor-dispatches : accepted A S r ≡ popped A S r ++ pending A S L M s
    executor-dispatches =
        let (safe, empty, same, fixed) = new_executor-IsSafe A S L M args ex errors e in
        let lines_up = (Reach-Moves user r safe).lines_up in
        let pool = (create_workers_upfront A S errors ex).0.pool in
        sym (ap (λ q. map pool.jobs q ++ accepted A S r) empty) ∙ lines_up

    -- The accepted jobs, and the world. (The latter is told in the order of the steps of the model,
    -- each of which ends a job as a whole; in the program, jobs that threads have popped overlap, so
    -- that their calls come in other orders, too.)
    pub executor-ends :
        Perm (accepted A S r) (map job_of (ended A S r) ++ in_hand A S s ++ pending A S L M s)
        × (s.ex.pool.world ≡ one_by_one user (ended A S r) args.world)
    executor-ends =
        let (safe, empty, same, fixed) = new_executor-IsSafe A S L M args ex errors e in
        let moves = Reach-Moves user r safe in
        (
          Perm.trans (eq-Perm executor-dispatches)
              (Perm.append_right (pending A S L M s) moves.handed),
          moves.acts ∙ ap (one_by_one user (ended A S r)) same,
        )
