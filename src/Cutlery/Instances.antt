-- ===== src/Cutlery/Instances.antt =====
-- Containers that meet the interfaces, for runs of the models: a list with its capacity.
use boom_par.Prelude.{
  ℕ, ◌+◌, ◌*◌, ◌≡◌, ◌↔◌, inl, inr, refl, Bool, true, false, List, [], ◌∷◌, ◌++◌, some, arith, ◌==◌,
  if◌then◌else◌, length,
}
use boom_par.Cutlery.Singlylist.{Singlylist, SinglylistLaws, Inserted, Removed}
use boom_par.Cutlery.Arraylist.{Arraylist, ArraylistLaws, ArraylistSpace, Pushed, Popped}

pub record Sized : Type 0 where
  pub capacity : ℕ
  pub list : List ℕ

abbrev is_nil : List ℕ → Bool
is_nil [] = true
is_nil (x ∷ xs) = false

abbrev head_or_null : List ℕ → ℕ
head_or_null [] = 0
head_or_null (x ∷ xs) = x

abbrev pop_list : Sized → List ℕ → Sized × Bool
pop_list s [] = (s, false)
pop_list s (x ∷ xs) = (record s { list = xs }, true)

abbrev is_full : Sized → Bool
is_full s = length s.list == s.capacity

abbrev push : Sized → ℕ → Sized × Bool
push s x = if is_full s then (s, false) else (record s { list = s.list ++ x ∷ [] }, true)

abbrev pub array_lists : Arraylist
array_lists = record {
  Rep = Sized;
  initialize_arraylist = λ n. some (record { capacity = n; list = [] });
  is_full_arraylist = is_full;
  is_empty_arraylist = λ s. is_nil s.list;
  get_capacity_arraylist = λ s. s.capacity;
  get_element_count_arraylist = λ s. length s.list;
  push_back_to_arraylist = push;
  get_front_of_arraylist = λ s. head_or_null s.list;
  pop_front_from_arraylist = λ s. pop_list s s.list;
  expand_arraylist = λ s. record s { capacity = s.capacity * 2 + 1 };
  shrink_arraylist = λ s. record s { capacity = length s.list };
}

pub initialized-nil :
    (n : ℕ) (s : Sized) → some (record { capacity = n; list = [] }) ≡ some s → s.list ≡ []
initialized-nil n s e = ground arith

pub is_nil_iff : (xs : List ℕ) → (is_nil xs ≡ true) ↔ (xs ≡ [])
is_nil_iff [] = ((λ e. refl), λ e. refl)
is_nil_iff (x ∷ xs) = ((λ e. cc), λ e. cc)

pub push-Pushed :
    (s : Sized) (x : ℕ) → let (s', done) = push s x in Pushed s.list s'.list x (is_full s) done
push-Pushed s x = ground arith

pub pop-Popped :
    (s : Sized) (xs : List ℕ)
    → s.list ≡ xs
    → let (s', done) = pop_list s xs in Popped s.list s'.list (head_or_null s.list) done
pop-Popped s [] e = inl (e, refl, e)
pop-Popped s (x ∷ xs) e = inr (ground arith, refl)

pub is_full-capacity : (s : Sized) → is_full s ≡ true → length s.list ≡ s.capacity
is_full-capacity s e = ground arith

abbrev pub array_lists_laws : ArraylistLaws array_lists
array_lists_laws = record {
  contents = λ s. s.list;
  initialized = initialized-nil;
  counted = λ s. refl;
  emptied = λ s. is_nil_iff s.list;
  filled = is_full-capacity;
  pushed = push-Pushed;
  popped = λ s. pop-Popped s s.list refl;
  expanded = λ s. refl;
  shrunk = λ s. refl;
}

pub array_lists-makes_room :
    (s : Sized)
    → array_lists.is_full_arraylist s ≡ true
    → array_lists.is_full_arraylist (array_lists.expand_arraylist s) ≡ false
array_lists-makes_room s h = ground arith

pop_list-capacity : (s : Sized) (xs : List ℕ) → (pop_list s xs).0.capacity ≡ s.capacity
pop_list-capacity s [] = refl
pop_list-capacity s (x ∷ xs) = refl

-- Expanded once, a list of a capacity below `limit` gets at most twice that.
pub array_lists-space : (limit : ℕ) → ArraylistSpace array_lists array_lists_laws limit (limit * 2)
array_lists-space limit = record {
  initialized = λ n s e. ground arith;
  roomy = λ s e. ground arith;
  pushed = λ s x. ground arith;
  popped = λ s. pop_list-capacity s s.list;
  expanded = λ s h. (omega arith, omega arith);
  shrunk = λ s h. (omega arith, h);
}

abbrev tail_of : List ℕ → List ℕ × Bool
tail_of [] = ([], false)
tail_of (x ∷ xs) = (xs, true)

abbrev contains : List ℕ → ℕ → Bool
contains [] y = false
contains (x ∷ xs) y = if x == y then true else contains xs y

-- The nodes are those of one list, so a struct is refused if the list holds it.
abbrev pub singly_lists : Singlylist
singly_lists = record {
  Rep = List ℕ;
  initialize_singlylist = λ n. [];
  is_empty_singlylist = is_nil;
  insert_tail_in_singlylist = λ xs y. if contains xs y then (xs, false) else (xs ++ y ∷ [], true);
  get_head_of_singlylist = head_or_null;
  remove_head_from_singlylist = tail_of;
}

pub insert-Inserted :
    (xs : List ℕ) (y : ℕ)
    → let (ys, done) = singly_lists.insert_tail_in_singlylist xs y in Inserted xs ys y done
insert-Inserted xs y = ground arith

pub remove-Removed :
    (xs : List ℕ) → let (ys, done) = tail_of xs in Removed xs ys (head_or_null xs) done
remove-Removed [] = inl (refl, refl, refl)
remove-Removed (x ∷ xs) = inr (refl, refl)

abbrev pub singly_lists_laws : SinglylistLaws singly_lists
singly_lists_laws = record {
  contents = λ xs. xs;
  initialized = λ n. refl;
  emptied = is_nil_iff;
  inserted = insert-Inserted;
  removed = remove-Removed;
}
