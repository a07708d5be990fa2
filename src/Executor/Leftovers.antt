-- ===== src/Executor/Leftovers.antt =====
-- How many sections discard_leftover_jobs of src/worker.c has left in an executor that is shut down.
use boom_par.Prelude.{
  ℕ, ◌+◌, ◌*◌, ◌≤◌, ◌≡◌, true, List, [], ◌∷◌, arith, length, Outcome, waits, returns,
}
use boom_par.Worker.{Pool}
use boom_par.Worker.Sharing.{Took, is_closed}
use boom_par.Executor.Threads.{discard_popped}
use boom_par.Cutlery.Arraylist.{Arraylist, ArraylistLaws}
use boom_par.Cutlery.Singlylist.{Singlylist, SinglylistLaws}
use boom_par.Worker.Ready.{queued}
use boom_par.Executor.Held.{held}
use boom_par.Executor.Places.{System, Places}

-- The first number if the queue is empty, and the second if it is not.
abbrev pub weigh : List ℕ → ℕ → ℕ → ℕ
weigh [] few many = few
weigh (a ∷ items) few many = many

pub weigh-less :
    (items : List ℕ) (by few few' many many' : ℕ)
    → by + few' ≤ few
    → by + many' ≤ many
    → by + weigh items few' many' ≤ weigh items few many
weigh-less [] by few few' many many' f m = f
weigh-less (a ∷ items) by few few' many many' f m = m

weigh_at_most : (items : List ℕ) (few many : ℕ) → few ≤ many → weigh items few many ≤ many
weigh_at_most [] few many h = h
weigh_at_most (a ∷ items) few many h = omega arith

-- The sections that a call of discard_leftover_jobs has left, if it meets an empty queue, and
-- otherwise; a thread that waits for the submitters can still call it.
abbrev pub if_empty : Places → ℕ
if_empty at =
    at.discarders
    + at.discarding * 2
    + length at.cancelling * 2
    + (at.closers.asleep + at.closers.woken) * 2

abbrev pub if_filled : Places → ℕ
if_filled at =
    at.discarders * 4
    + at.discarding * 3
    + length at.cancelling * 5
    + (at.closers.asleep + at.closers.woken) * 5

module _ (A : Arraylist) (S : Singlylist) (L : ArraylistLaws A) (M : SinglylistLaws S) where
  -- What a pop in discard_leftover_jobs leaves to do.
  abbrev pub Discards : System A S → System A S → Type 0
  Discards s t =
      1
        + length (queued A S L M t.ex.pool) * 3
        + weigh (queued A S L M t.ex.pool) (if_empty t.at) (if_filled t.at)
      ≤ length (queued A S L M s.ex.pool) * 3
        + weigh (queued A S L M s.ex.pool) (if_empty s.at + 2) (if_filled s.at + 3)

  pub discard_popped-Discards :
      (s : System A S) (after : Pool A S) (held : List ℕ) (outcome : Outcome ℕ)
      → Took A S L M true s.ex.pool held after outcome
      → is_closed A S L M s.ex.pool ≡ true
      → Discards s (discard_popped A S s.ex s.at outcome after)
  discard_popped-Discards s after held waits took shut = ground (arith, took)
  discard_popped-Discards s after held (returns a) took shut = ground (
    arith,
    took,
    weigh_at_most (queued A S L M after)
        (if_empty (record s.at { cancelling = a ∷ s.at.cancelling }))
        (if_filled (record s.at { cancelling = a ∷ s.at.cancelling })) (omega arith),
  )
