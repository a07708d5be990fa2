-- ===== src/Prelude/Waiting.antt =====
-- Condition variables. Code between `pthread_mutex_lock` and the next wait or unlock is one atomic
-- section, a function of the protected state. A section returns what it notified, and whether its
-- thread went on with a result or went to sleep on a condition variable.
use Prim.Native.Nat.{ℕ, ◌+◌, ◌-◌}
use mathlib.Core.Path.{◌≡◌, refl, ◌∙◌}
use mathlib.Core.Bool.{Bool}
use native.Mathlib.Omega.{arith}
use mathlib.Core.List.{List, [], ◌∷◌}
use boom_par.Prelude.Tests.{◌==◌, if◌then◌else◌}

-- `pthread_cond_signal` and `pthread_cond_broadcast` on one of the condition variables `C`.
pub data Notice {ℓ} (C : Type ℓ) : Type ℓ where
  signal : C → Notice C
  broadcast : C → Notice C

-- The end of a section: the thread waits on a condition variable, or returns.
pub data Outcome {ℓ} (A : Type ℓ) : Type ℓ where
  waits : Outcome A
  returns : A → Outcome A

-- The threads that wait on one condition variable: asleep, or woken and on their way to the lock.
pub record Sleepers : Type 0 where
  pub asleep : ℕ
  pub woken : ℕ

-- A signal wakes one thread that is asleep, a broadcast wakes all.
abbrev pub signalled : Sleepers → Sleepers
signalled s = if s.asleep == 0 then s else record { asleep = s.asleep - 1; woken = s.woken + 1 }

abbrev pub broadcasted : Sleepers → Sleepers
broadcasted s = record { asleep = 0; woken = s.asleep + s.woken }

-- What the notices of a section do to the threads that wait on the condition variables `on`.
abbrev pub told {ℓ} : {C : Type ℓ} → (C → Bool) → List (Notice C) → Sleepers → Sleepers
told on [] s = s
told on (signal c ∷ notices) s = told on notices (if on c then signalled s else s)
told on (broadcast c ∷ notices) s = told on notices (if on c then broadcasted s else s)

-- Notices wake threads, and neither add nor remove any.
pub told-counted {ℓ} :
    {C : Type ℓ} (on : C → Bool) (notices : List (Notice C)) (s : Sleepers)
    → (told on notices s).asleep + (told on notices s).woken ≡ s.asleep + s.woken
told-counted on [] s = refl
told-counted on (signal c ∷ notices) s =
    told-counted on notices (if on c then signalled s else s) ∙ ground arith
told-counted on (broadcast c ∷ notices) s =
    told-counted on notices (if on c then broadcasted s else s) ∙ ground arith

-- The thread of a section falls asleep behind it, if it waits.
abbrev pub slept {ℓ} : {A : Type ℓ} → Outcome A → Sleepers → Sleepers
slept waits s = record s { asleep = s.asleep + 1 }
slept (returns a) s = s

-- A woken thread gets the lock.
abbrev pub resumed : Sleepers → Sleepers
resumed s = record s { woken = s.woken - 1 }

-- A thread wakes by itself: its timeout passed, or its wait ended spuriously.
abbrev pub roused : Sleepers → Sleepers
roused s = record { asleep = s.asleep - 1; woken = s.woken + 1 }
