-- ===== src/Cutlery/Singlylist.antt =====
-- `singlylist` of cutlery/singlylist.h, a list of structs that are linked through a node inside them,
-- as src/sync_ll_queue.c uses it.
use boom_par.Prelude.{ℕ, ◌≡◌, ◌↔◌, ◌⊎◌, Bool, true, false, List, [], ◌∷◌, ◌++◌}

-- A struct is known by its address, 0 for NULL. The list keeps the offset of the node.
pub record Singlylist : Type 1 where
  pub Rep : Type 0
  pub initialize_singlylist : ℕ → Rep
  pub is_empty_singlylist : Rep → Bool
  pub insert_tail_in_singlylist : Rep → ℕ → Rep × Bool
  pub get_head_of_singlylist : Rep → ℕ
  pub remove_head_from_singlylist : Rep → Rep × Bool

-- Inserting appends, or fails, if the node is part of a list already.
abbrev pub Inserted : List ℕ → List ℕ → ℕ → Bool → Type 0
Inserted before after x done =
    ((done ≡ false) × (after ≡ before)) ⊎ ((done ≡ true) × (after ≡ before ++ x ∷ []))

-- Removing fails when the list is empty, and else takes the head.
abbrev pub Removed : List ℕ → List ℕ → ℕ → Bool → Type 0
Removed before after head done =
    ((before ≡ []) × (done ≡ false) × (after ≡ [])) ⊎ ((before ≡ head ∷ after) × (done ≡ true))

pub record SinglylistLaws (S : Singlylist) : Type 0 where
  pub contents : S.Rep → List ℕ
  pub initialized : (n : ℕ) → contents (S.initialize_singlylist n) ≡ []
  pub emptied : (r : S.Rep) → (S.is_empty_singlylist r ≡ true) ↔ (contents r ≡ [])
  pub inserted :
      (r : S.Rep) (x : ℕ)
      → let (r', done) = S.insert_tail_in_singlylist r x in
        Inserted (contents r) (contents r') x done
  pub removed :
      (r : S.Rep)
      → let (r', done) = S.remove_head_from_singlylist r in
        Removed (contents r) (contents r') (S.get_head_of_singlylist r) done
