-- ===== src/Promise/Once.antt =====
-- A promise over any history of calls (src/promise.c): the first result stays, and the callback runs
-- exactly once.
use mathlib.Core.Path.{ap₂}
use mathlib.Core.List.{append-nil, append_assoc}
use boom_par.Prelude.{
  ap, sym, ◌∙◌, ℕ, ◌≡◌, ◌≢◌, refl, true, List, [], ◌∷◌, ◌++◌, Option, none, some, ◌==◌,
  if◌then◌else◌, arith, Outcome, waits, returns,
}
use boom_par.Promise.{
  Promise, initialize_promise, set_promised_result, set_promised_callback, get_promised_result,
}

-- The calls that change a promise, in the order in which they get its lock.
pub data Call : Type 0 where
  sets_result : (res : ℕ) → Call
  sets_callback : (promised_callback : ℕ) → Call

abbrev pub after : Promise → Call → Promise
after p (sets_result res) = (set_promised_result p res).0
after p (sets_callback callback) = (set_promised_callback p callback).0

abbrev pub called : Promise → Call → Option ℕ
called p (sets_result res) = (set_promised_result p res).2
called p (sets_callback callback) = (set_promised_callback p callback).1

pub run : Promise → List Call → Promise
run p [] = p
run p (c ∷ cs) = run (after p c) cs

abbrev prepend : Option ℕ → List ℕ → List ℕ
prepend none cs = cs
prepend (some c) cs = c ∷ cs

-- The callbacks that a history runs.
unfoldable pub callbacks : Promise → List Call → List ℕ
callbacks p [] = []
callbacks p (c ∷ cs) = prepend (called p c) (callbacks (after p c) cs)

-- The first result and the first callback of a history.
abbrev pub first_result : List Call → Outcome ℕ
first_result [] = waits
first_result (sets_result res ∷ cs) = returns res
first_result (sets_callback callback ∷ cs) = first_result cs

abbrev pub first_callback : List Call → Option ℕ
first_callback [] = none
first_callback (sets_result res ∷ cs) = first_callback cs
first_callback (sets_callback callback ∷ cs) = some callback

abbrev pub NoneNull : List Call → Type 0
NoneNull [] = Unit
NoneNull (sets_result res ∷ cs) = NoneNull cs
NoneNull (sets_callback callback ∷ cs) = (callback ≢ 0) × NoneNull cs

-- The callback that a promise holds.
callback_of : Promise → Option ℕ
callback_of p = if p.promised_callback == 0 then none else some p.promised_callback

abbrev first_of : Outcome ℕ → Outcome ℕ → Outcome ℕ
first_of waits later = later
first_of (returns res) later = returns res

abbrev first_some : Option ℕ → Option ℕ → Option ℕ
first_some none later = later
first_some (some c) later = some c

-- The callback runs when there is a result and a callback.
abbrev pub due : Outcome ℕ → Option ℕ → List ℕ
due (returns res) (some c) = c ∷ []
due _ _ = []

after-result :
    (p : Promise) (c : Call)
    → get_promised_result (after p c) ≡ first_of (get_promised_result p) (first_result (c ∷ []))
unfolding get_promised_result set_promised_result set_promised_callback
after-result p (sets_result res) = ground arith
after-result p (sets_callback callback) = ground arith

after-callback :
    (p : Promise) (c : Call)
    → NoneNull (c ∷ [])
    → callback_of (after p c) ≡ first_some (callback_of p) (first_callback (c ∷ []))
unfolding callback_of set_promised_result set_promised_callback
after-callback p (sets_result res) n = ground arith
after-callback p (sets_callback callback) n = ground arith

-- A call runs the callback exactly when it is the call that makes it due.
called-due :
    (p : Promise) (c : Call)
    → NoneNull (c ∷ [])
    → due (get_promised_result (after p c)) (callback_of (after p c))
      ≡ due (get_promised_result p) (callback_of p) ++ prepend (called p c) []
unfolding get_promised_result callback_of set_promised_result set_promised_callback
called-due p (sets_result res) n = ground arith
called-due p (sets_callback callback) n = ground arith

run-result :
    (p : Promise) (cs : List Call)
    → get_promised_result (run p cs) ≡ first_of (get_promised_result p) (first_result cs)
unfolding run
run-result p [] = ground arith
run-result p (sets_result res ∷ cs) =
    ground (arith, after-result p (sets_result res), run-result (after p (sets_result res)) cs)
run-result p (sets_callback c ∷ cs) =
    ground (arith, after-result p (sets_callback c), run-result (after p (sets_callback c)) cs)

run-callback :
    (p : Promise) (cs : List Call)
    → NoneNull cs
    → callback_of (run p cs) ≡ first_some (callback_of p) (first_callback cs)
unfolding run
run-callback p [] n = ground arith
run-callback p (sets_result res ∷ cs) n =
    ground
      (arith, after-callback p (sets_result res), run-callback (after p (sets_result res)) cs n)
run-callback p (sets_callback c ∷ cs) n = ground (
  arith,
  after-callback p (sets_callback c) (n.0, tt),
  run-callback (after p (sets_callback c)) cs n.1,
)

NoneNull-head : (c : Call) (cs : List Call) → NoneNull (c ∷ cs) → NoneNull (c ∷ []) × NoneNull cs
NoneNull-head (sets_result res) cs n = (tt, n)
NoneNull-head (sets_callback c) cs n = ((n.0, tt), n.1)

prepend-append : (o : Option ℕ) (xs : List ℕ) → prepend o [] ++ xs ≡ prepend o xs
prepend-append none xs = refl
prepend-append (some c) xs = refl

callbacks-due :
    (p : Promise) (cs : List Call)
    → NoneNull cs
    → due (get_promised_result (run p cs)) (callback_of (run p cs))
      ≡ due (get_promised_result p) (callback_of p) ++ callbacks p cs
unfolding run callbacks
callbacks-due p [] n = sym (append-nil _)
callbacks-due p (c ∷ cs) n =
    let (here, rest) = NoneNull-head c cs n in
    rw (callbacks-due (after p c) cs rest, called-due p c here, append_assoc)
      (ap (◌++◌ _) (prepend-append (called p c) (callbacks (after p c) cs)))

-- After any history of calls on a new promise, in the order in which they get the lock:
-- `get_promised_result` returns the first result that was set, whatever was tried later, and waits
-- if none was; and if no callback was null, the callbacks that were run are the first callback that
-- was set, once, if there are both a result and a callback, and none otherwise. So the callback is
-- neither missed nor run twice, whether it was set before or behind the result.
pub run-once :
    (cs : List Call)
    → NoneNull cs
    → (get_promised_result (run initialize_promise cs) ≡ first_result cs)
      × (callbacks initialize_promise cs ≡ due (first_result cs) (first_callback cs))
unfolding initialize_promise callback_of get_promised_result
run-once cs n = (
  run-result initialize_promise cs,
  sym (callbacks-due initialize_promise cs n)
      ∙ ap₂ due (run-result initialize_promise cs) (run-callback initialize_promise cs n),
)

abbrev pub AllNull : List Call → Type 0
AllNull [] = Unit
AllNull (sets_result res ∷ cs) = AllNull cs
AllNull (sets_callback callback ∷ cs) = (callback ≡ 0) × AllNull cs

run-AllNull :
    (p : Promise) (cs : List Call)
    → p.promised_callback ≡ 0
    → AllNull cs
    → (run p cs).promised_callback ≡ 0
unfolding run
run-AllNull p [] e n = e
run-AllNull p (sets_result res ∷ cs) e n =
    run-AllNull (after p (sets_result res)) cs (unfold set_promised_result in ground arith) n
run-AllNull p (sets_callback c ∷ cs) e n =
    run-AllNull (after p (sets_callback c)) cs (unfold set_promised_callback in ground arith) n.1

ready-set :
    (p : Promise) (res : ℕ) → get_promised_result p ≡ returns res → p.output_result_ready ≡ true
unfolding get_promised_result
ready-set p res h = ground arith

-- The callback is not checked for NULL when it is set: on a promise whose result has been set, in
-- any history whose callbacks were all null, one more null callback is accepted and called.
pub null_callback-called :
    (cs : List Call) (res : ℕ)
    → AllNull cs
    → first_result cs ≡ returns res
    → let (p, callback, accepted) = set_promised_callback (run initialize_promise cs) 0 in
      (callback ≡ some 0) × (accepted ≡ true)
unfolding set_promised_callback
null_callback-called cs res n h = ground (
  arith,
  run-AllNull initialize_promise cs (unfold initialize_promise in refl) n,
  ready-set (run initialize_promise cs) res
      (unfold initialize_promise get_promised_result in (run-result initialize_promise cs ∙ h)),
)
