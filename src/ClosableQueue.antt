-- ===== src/ClosableQueue.antt =====
-- A queue that can be closed, whatever it is made of, as src/sync_queue.c, src/sync_ll_queue.c and
-- src/job_queue.c have it: a list and whether it is closed.
use boom_par.Prelude.{ℕ, ◌≡◌, ◌⊎◌, Bool, true, false, List, [], ◌∷◌, ◌++◌, Outcome, waits, returns}

pub record ClosableQueue : Type 0 where
  pub items : List ℕ
  pub is_closed : Bool

-- A section of a push: it waits on an open queue; is refused, by a queue that is closed or `cramped`,
-- which is to say that what the queue is made of does not take the pointer; or appends to an open
-- queue.
abbrev pub Pushes : Bool → ClosableQueue → ℕ → ClosableQueue → Outcome Bool → Type 0
Pushes cramped q data_p q' outcome =
    ((q.is_closed ≡ false) × (outcome ≡ waits) × (q' ≡ q))
    ⊎ (((outcome ≡ returns false) × (q' ≡ q) × ((q.is_closed ≡ true) ⊎ (cramped ≡ true)))
        ⊎ ((q.is_closed ≡ false)
            × (outcome ≡ returns true)
            × (q' ≡ record q { items = q.items ++ data_p ∷ [] })))

-- A section of a pop behind a wait that returned `wait_error`, if any: it waits on an open, empty
-- queue; returns NULL for none, on a closed queue or behind an error; or takes the first.
abbrev pub Pops : Bool → ClosableQueue → ClosableQueue → Outcome ℕ → Type 0
Pops wait_error q q' outcome =
    ((q.is_closed ≡ false) × (q.items ≡ []) × (outcome ≡ waits) × (q' ≡ q))
    ⊎ (((q.items ≡ [])
          × (outcome ≡ returns 0)
          × (q' ≡ q)
          × ((q.is_closed ≡ true) ⊎ (wait_error ≡ true)))
        ⊎ ((data_p : ℕ) × (q.items ≡ data_p ∷ q'.items)
            × (outcome ≡ returns data_p)
            × (q'.is_closed ≡ q.is_closed)))
