-- ===== src/Executor/Held.antt =====
-- The jobs that threads of src/executor.c hold, by their addresses, in an order that does not matter.
use mathlib.Core.List.{Permᴰ}
use mathlib.Core.List.Permᴰ
use boom_par.Prelude.{ℕ, List, ◌∷◌, ◌++◌}
use boom_par.Executor.Places.{Places}

abbrev pub held_by : List ℕ → List ℕ → List ℕ → List ℕ
held_by pushing running cancelling = pushing ++ (running ++ cancelling)

-- Those that wait in their push, that run a job, and that cancel one.
abbrev pub held : Places → List ℕ
held at = held_by at.pushing at.running at.cancelling

-- A job leaves one of the lists, or is put at its beginning.
pub pushing_out :
    (before : List ℕ) (a : ℕ) (after running cancelling : List ℕ)
    → Permᴰ
        (held_by (before ++ a ∷ after) running cancelling)
        (a ∷ held_by (before ++ after) running cancelling)
pushing_out before a after running cancelling =
    Permᴰ.append_right (running ++ cancelling) (Permᴰ.middle a before after)

pub running_out :
    (pushing before : List ℕ) (a : ℕ) (after cancelling : List ℕ)
    → Permᴰ
        (held_by pushing (before ++ a ∷ after) cancelling)
        (a ∷ held_by pushing (before ++ after) cancelling)
running_out pushing before a after cancelling =
    Permᴰ.trans
      (Permᴰ.append_left pushing (Permᴰ.append_right cancelling (Permᴰ.middle a before after)))
      (Permᴰ.middle a pushing ((before ++ after) ++ cancelling))

pub cancelling_out :
    (pushing running before : List ℕ) (a : ℕ) (after : List ℕ)
    → Permᴰ
        (held_by pushing running (before ++ a ∷ after))
        (a ∷ held_by pushing running (before ++ after))
cancelling_out pushing running before a after =
    Permᴰ.trans
      (Permᴰ.append_left pushing (
        Permᴰ.trans (Permᴰ.append_left running (Permᴰ.middle a before after))
          (Permᴰ.middle a running (before ++ after))))
      (Permᴰ.middle a pushing (running ++ (before ++ after)))

pub running_in :
    (a : ℕ) (pushing running cancelling : List ℕ)
    → Permᴰ (a ∷ held_by pushing running cancelling) (held_by pushing (a ∷ running) cancelling)
running_in a pushing running cancelling =
    Permᴰ.symm (Permᴰ.middle a pushing (running ++ cancelling))

pub cancelling_in :
    (a : ℕ) (pushing running cancelling : List ℕ)
    → Permᴰ (a ∷ held_by pushing running cancelling) (held_by pushing running (a ∷ cancelling))
cancelling_in a pushing running cancelling =
    Permᴰ.trans (Permᴰ.symm (Permᴰ.middle a pushing (running ++ cancelling)))
      (Permᴰ.append_left pushing (Permᴰ.symm (Permᴰ.middle a running cancelling)))
