-- ===== src/Cutlery/Arraylist.antt =====
-- `arraylist` of cutlery/arraylist.h, a double-ended queue of pointers in an array that grows on
-- demand, as src/sync_queue.c uses it.
use boom_par.Prelude.{
  ℕ, ◌≤◌, ◌<◌, ◌≡◌, ◌≢◌, ◌↔◌, ◌⊎◌, Bool, true, false, List, [], ◌∷◌, ◌++◌, Option, length,
}

-- A pointer is an address, 0 for NULL. `initialize_arraylist` fails if it gets no memory.
pub record Arraylist : Type 1 where
  pub Rep : Type 0
  pub initialize_arraylist : ℕ → Option Rep
  pub is_full_arraylist : Rep → Bool
  pub is_empty_arraylist : Rep → Bool
  pub get_capacity_arraylist : Rep → ℕ
  pub get_element_count_arraylist : Rep → ℕ
  pub push_back_to_arraylist : Rep → ℕ → Rep × Bool
  pub get_front_of_arraylist : Rep → ℕ
  pub pop_front_from_arraylist : Rep → Rep × Bool
  pub expand_arraylist : Rep → Rep
  pub shrink_arraylist : Rep → Rep

-- Pushing fails when the list is full, and else appends.
abbrev pub Pushed : List ℕ → List ℕ → ℕ → Bool → Bool → Type 0
Pushed before after x full done =
    ((full ≡ true) × (done ≡ false) × (after ≡ before))
    ⊎ ((full ≡ false) × (done ≡ true) × (after ≡ before ++ x ∷ []))

-- Popping fails when the list is empty, and else takes the front.
abbrev pub Popped : List ℕ → List ℕ → ℕ → Bool → Type 0
Popped before after front done =
    ((before ≡ []) × (done ≡ false) × (after ≡ [])) ⊎ ((before ≡ front ∷ after) × (done ≡ true))

-- `expand_arraylist` and `shrink_arraylist` may fail, and then change nothing.
pub record ArraylistLaws (A : Arraylist) : Type 0 where
  pub contents : A.Rep → List ℕ
  pub initialized : (n : ℕ) (r : A.Rep) → A.initialize_arraylist n ≡ Option.some r → contents r ≡ []
  pub counted : (r : A.Rep) → A.get_element_count_arraylist r ≡ length (contents r)
  pub emptied : (r : A.Rep) → (A.is_empty_arraylist r ≡ true) ↔ (contents r ≡ [])
  pub filled :
      (r : A.Rep) → A.is_full_arraylist r ≡ true → length (contents r) ≡ A.get_capacity_arraylist r
  pub pushed :
      (r : A.Rep) (x : ℕ)
      → let (r', done) = A.push_back_to_arraylist r x in
        Pushed (contents r) (contents r') x (A.is_full_arraylist r) done
  pub popped :
      (r : A.Rep)
      → let (r', done) = A.pop_front_from_arraylist r in
        Popped (contents r) (contents r') (A.get_front_of_arraylist r) done
  pub expanded : (r : A.Rep) → contents (A.expand_arraylist r) ≡ contents r
  pub shrunk : (r : A.Rep) → contents (A.shrink_arraylist r) ≡ contents r

-- The space of a list: it is allocated as asked for, and is full only if it is used up; it changes by
-- `expand_arraylist`, which makes no less, and at most `bound`, of a capacity below `limit`, and by
-- `shrink_arraylist`, which makes no more of it, and leaves enough.
pub record ArraylistSpace (A : Arraylist) (L : ArraylistLaws A) (limit bound : ℕ) : Type 0 where
  pub initialized :
      (n : ℕ) (r : A.Rep)
      → A.initialize_arraylist n ≡ Option.some r
      → A.get_capacity_arraylist r ≡ n
  pub roomy :
      (r : A.Rep)
      → A.is_full_arraylist r ≡ false
      → length (L.contents r) ≢ A.get_capacity_arraylist r
  pub pushed :
      (r : A.Rep) (x : ℕ)
      → A.get_capacity_arraylist (A.push_back_to_arraylist r x).0 ≡ A.get_capacity_arraylist r
  pub popped :
      (r : A.Rep)
      → A.get_capacity_arraylist (A.pop_front_from_arraylist r).0 ≡ A.get_capacity_arraylist r
  pub expanded :
      (r : A.Rep)
      → A.get_capacity_arraylist r < limit
      → (A.get_capacity_arraylist r ≤ A.get_capacity_arraylist (A.expand_arraylist r))
        × (A.get_capacity_arraylist (A.expand_arraylist r) ≤ bound)
  pub shrunk :
      (r : A.Rep)
      → length (L.contents r) ≤ A.get_capacity_arraylist r
      → (length (L.contents r) ≤ A.get_capacity_arraylist (A.shrink_arraylist r))
        × (A.get_capacity_arraylist (A.shrink_arraylist r) ≤ A.get_capacity_arraylist r)
