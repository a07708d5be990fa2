-- ===== src/SyncQueue/Fifo.antt =====
-- What goes in comes out, in order (src/sync_queue.c).
use mathlib.Core.List.{append-nil, append_assoc}
use boom_par.Prelude.{
  ℕ, ◌≡◌, ◌≢◌, subst, refl, sym, ap, ◌∙◌, Bool, true, false, List, [], ◌∷◌, ◌++◌, arith, ◌==◌,
  if◌then◌else◌, Outcome, waits, returns,
}
use boom_par.Cutlery.Arraylist.{Arraylist, ArraylistLaws}
use boom_par.SyncQueue.{
  SyncQueue, room_for_push, push_locked, push_round, push_sync_queue, push_sync_queue_woken,
  trimmed, pop_locked, pop_round, pop_sync_queue, pop_sync_queue_woken,
  update_max_capacity_sync_queue, close_sync_queue,
}

-- The calls of the threads, each cut into the sections between its waits.
pub data Call : Type 0 where
  pushes : (data_p : ℕ) → Call
  push_resumes : (data_p : ℕ) → (wait_error : Bool) → Call
  pops : Call
  pop_resumes : (wait_error : Bool) → Call
  updates : (new_max_capacity : ℕ) → Call
  closes : Call

-- Only pointers that are not NULL are pushed.
abbrev pub NotNull : Call → Type 0
NotNull (pushes data_p) = data_p ≢ 0
NotNull (push_resumes data_p wait_error) = data_p ≢ 0
NotNull _ = Unit

abbrev pub AllNotNull : List Call → Type 0
AllNotNull [] = Unit
AllNotNull (c ∷ cs) = NotNull c × AllNotNull cs

abbrev pub NoNull : List ℕ → Type 0
NoNull [] = Unit
NoNull (x ∷ xs) = (x ≢ 0) × NoNull xs

NoNull-append : (xs : List ℕ) (x : ℕ) → NoNull xs → x ≢ 0 → NoNull (xs ++ x ∷ [])
NoNull-append [] x n h = (h, tt)
NoNull-append (y ∷ xs) x n h = (n.0, NoNull-append xs x n.1 h)

NoNull-suffix : (xs ys : List ℕ) → NoNull (xs ++ ys) → NoNull ys
NoNull-suffix [] ys n = n
NoNull-suffix (x ∷ xs) ys n = NoNull-suffix xs ys n.1

module _ (A : Arraylist) where
  abbrev pub after : SyncQueue A → Call → SyncQueue A
  after sq (pushes data_p) = (push_sync_queue A sq data_p).0
  after sq (push_resumes data_p wait_error) = (push_sync_queue_woken A sq data_p wait_error).0
  after sq pops = (pop_sync_queue A sq).0
  after sq (pop_resumes wait_error) = (pop_sync_queue_woken A sq wait_error).0
  after sq (updates n) = (update_max_capacity_sync_queue A sq n).0
  after sq closes = (close_sync_queue A sq).0

  abbrev item_if : ℕ → Outcome Bool → List ℕ
  item_if x (returns true) = x ∷ []
  item_if x _ = []

  abbrev item_of : Outcome ℕ → List ℕ
  item_of waits = []
  item_of (returns x) = if x == 0 then [] else x ∷ []

  -- What a call has pushed: its pointer, if it returned 1.
  abbrev pub pushed_by : SyncQueue A → Call → List ℕ
  pushed_by sq (pushes data_p) = item_if data_p (push_sync_queue A sq data_p).2
  pushed_by sq (push_resumes data_p wait_error) =
      item_if data_p (push_sync_queue_woken A sq data_p wait_error).2
  pushed_by sq _ = []

  -- What a call has popped: the pointer that it returned, if that is not NULL.
  abbrev pub popped_by : SyncQueue A → Call → List ℕ
  popped_by sq pops = item_of (pop_sync_queue A sq).2
  popped_by sq (pop_resumes wait_error) = item_of (pop_sync_queue_woken A sq wait_error).2
  popped_by sq _ = []

  unfoldable pub run : SyncQueue A → List Call → SyncQueue A
  run sq [] = sq
  run sq (c ∷ cs) = run (after sq c) cs

  unfoldable pub all_pushed : SyncQueue A → List Call → List ℕ
  all_pushed sq [] = []
  all_pushed sq (c ∷ cs) = pushed_by sq c ++ all_pushed (after sq c) cs

  unfoldable pub all_popped : SyncQueue A → List Call → List ℕ
  all_popped sq [] = []
  all_popped sq (c ∷ cs) = popped_by sq c ++ all_popped (after sq c) cs

module _ (A : Arraylist) (L : ArraylistLaws A) where
  open L use {contents}

  abbrev pub items : SyncQueue A → List ℕ
  items sq = contents sq.qp

  pub contents-room_for_push : (sq : SyncQueue A) → contents (room_for_push A sq) ≡ items sq
  unfolding room_for_push
  contents-room_for_push sq = ground (arith, L.expanded sq.qp)

  pub contents-trimmed : (r : A.Rep) → contents (trimmed A r) ≡ contents r
  unfolding trimmed
  contents-trimmed r = ground (arith, L.shrunk r)

  push_round-items :
      (sq : SyncQueue A) (x : ℕ) (wait_error : Bool)
      → items (push_round A sq x wait_error).0
        ≡ items sq ++ item_if A x (push_round A sq x wait_error).2
  unfolding push_round push_locked
  push_round-items sq x wait_error =
      ground
        (arith, append-nil (items sq), contents-room_for_push sq, L.pushed (room_for_push A sq) x)

  pop_round-items :
      (sq : SyncQueue A) (wait_error : Bool)
      → NoNull (items sq)
      → items sq ≡ item_of A (pop_round A sq wait_error).2 ++ items (pop_round A sq wait_error).0
  unfolding pop_round pop_locked
  pop_round-items sq wait_error n =
      ground (arith, contents-trimmed (A.pop_front_from_arraylist sq.qp).0, L.popped sq.qp)

  NoNull-item_if :
      (xs : List ℕ) (x : ℕ) (o : Outcome Bool) → NoNull xs → x ≢ 0 → NoNull (xs ++ item_if A x o)
  NoNull-item_if xs x waits n h = rw (append-nil xs) n
  NoNull-item_if xs x (returns true) n h = NoNull-append xs x n h
  NoNull-item_if xs x (returns false) n h = rw (append-nil xs) n

  push_round-step :
      (sq : SyncQueue A) (x : ℕ) (wait_error : Bool)
      → x ≢ 0
      → NoNull (items sq)
      → let (after_push, _, outcome) = push_round A sq x wait_error in
        (items sq ++ item_if A x outcome ≡ items after_push) × NoNull (items after_push)
  push_round-step sq x wait_error h n =
      let pushed = push_round-items sq x wait_error in
      (sym pushed, subst NoNull (sym pushed) (NoNull-item_if (items sq) x _ n h))

  pop_round-step :
      (sq : SyncQueue A) (wait_error : Bool)
      → NoNull (items sq)
      → let (after_pop, _, outcome) = pop_round A sq wait_error in
        (items sq ++ [] ≡ item_of A outcome ++ items after_pop) × NoNull (items after_pop)
  pop_round-step sq wait_error n =
      let popped = pop_round-items sq wait_error n in
      (
        append-nil (items sq) ∙ popped,
        NoNull-suffix (item_of A (pop_round A sq wait_error).2) _ (subst NoNull popped n),
      )

  after-items :
      (sq : SyncQueue A) (c : Call)
      → NotNull c
      → NoNull (items sq)
      → (items sq ++ pushed_by A sq c ≡ popped_by A sq c ++ items (after A sq c))
        × NoNull (items (after A sq c))
  unfolding push_sync_queue push_sync_queue_woken pop_sync_queue pop_sync_queue_woken
      update_max_capacity_sync_queue close_sync_queue
  after-items sq (pushes x) nx n = push_round-step sq x false nx n
  after-items sq (push_resumes x wait_error) nx n = push_round-step _ x wait_error nx n
  after-items sq pops nx n = pop_round-step sq false n
  after-items sq (pop_resumes wait_error) nx n = pop_round-step _ wait_error n
  after-items sq (updates m) nx n = (append-nil (items sq), n)
  after-items sq closes nx n = (append-nil (items sq), n)

  -- Over any history of calls, in the order in which they get the lock, with waits, errors of waits,
  -- capacity changes and closing anywhere in it: what the queue held, and then all that pushes
  -- accepted, is in this order what pops returned, and then what the queue holds. So nothing is
  -- lost, made up, doubled or overtaken. (No NULL is pushed.)
  pub run-fifo :
      (sq : SyncQueue A) (cs : List Call)
      → AllNotNull cs
      → NoNull (items sq)
      → items sq ++ all_pushed A sq cs ≡ all_popped A sq cs ++ items (run A sq cs)
  unfolding run all_pushed all_popped
  run-fifo sq [] nc n = append-nil (items sq)
  run-fifo sq (c ∷ cs) nc n =
      let (here, n') = after-items sq c nc.0 n in
      let rest = run-fifo (after A sq c) cs nc.1 n' in
      sym (append_assoc (items sq) (pushed_by A sq c) (all_pushed A (after A sq c) cs))
      ∙ ap (λ xs. xs ++ all_pushed A (after A sq c) cs) here
      ∙ append_assoc (popped_by A sq c) (items (after A sq c)) (all_pushed A (after A sq c) cs)
      ∙ ap (λ xs. popped_by A sq c ++ xs) rest
      ∙ sym (append_assoc (popped_by A sq c) (all_popped A (after A sq c) cs) _)

  closed-call :
      (sq : SyncQueue A) (c : Call)
      → sq.is_closed ≡ true
      → ((after A sq c).is_closed ≡ true) × (pushed_by A sq c ≡ [])
  unfolding push_sync_queue push_sync_queue_woken pop_sync_queue pop_sync_queue_woken
      update_max_capacity_sync_queue close_sync_queue push_round push_locked pop_round pop_locked
  closed-call sq (pushes x) h = ground arith
  closed-call sq c h = ground arith

  -- A closed queue stays closed, and accepts nothing any more, over any history of calls.
  pub run-closed :
      (sq : SyncQueue A) (cs : List Call)
      → sq.is_closed ≡ true
      → ((run A sq cs).is_closed ≡ true) × (all_pushed A sq cs ≡ [])
  unfolding run all_pushed
  run-closed sq [] h = (h, refl)
  run-closed sq (c ∷ cs) h =
      let (still, nothing) = closed-call sq c h in
      let (later, none_later) = run-closed (after A sq c) cs still in
      (later, rw (nothing) none_later)
