-- ===== src/Cutlery/Dpipe.antt =====
-- `dpipe` of cutlery/dpipe.h, a resizable buffer of bytes that can be closed, as src/sync_pipe.c uses
-- it, always with PARTIAL_ALLOWED.
use boom_par.Prelude.{
  ℕ, ◌-◌, ◌≤◌, ◌≡◌, ◌↔◌, ◌⊎◌, min, Bool, true, false, List, [], ◌++◌, Option, length, take,
}

-- `write_to_dpipe` returns how many bytes it wrote, and `read_from_dpipe` the bytes that it read.
pub record Dpipe : Type 1 where
  pub Rep : Type 0
  pub initialize_dpipe : ℕ → Option Rep
  pub is_dpipe_closed : Rep → Bool
  pub close_dpipe : Rep → Rep
  pub is_full_dpipe : Rep → Bool
  pub is_empty_dpipe : Rep → Bool
  pub get_capacity_dpipe : Rep → ℕ
  pub get_bytes_readable_in_dpipe : Rep → ℕ
  pub get_bytes_writable_in_dpipe : Rep → ℕ
  pub resize_dpipe : Rep → ℕ → Rep
  pub write_to_dpipe : Rep → List ℕ → Rep × ℕ
  pub read_from_dpipe : Rep → ℕ → Rep × List ℕ

-- Resizing may fail, if there is no memory or the bytes do not fit. An open pipe takes as many bytes
-- as fit in.
pub record DpipeLaws (D : Dpipe) : Type 0 where
  pub contents : D.Rep → List ℕ
  pub initialized :
      (n : ℕ) (r : D.Rep)
      → D.initialize_dpipe n ≡ Option.some r
      → (contents r ≡ []) × (D.is_dpipe_closed r ≡ false) × (D.get_capacity_dpipe r ≡ n)
  pub closed :
      (r : D.Rep)
      → (D.is_dpipe_closed (D.close_dpipe r) ≡ true)
        × (contents (D.close_dpipe r) ≡ contents r)
        × (D.get_capacity_dpipe (D.close_dpipe r) ≡ D.get_capacity_dpipe r)
  pub within : (r : D.Rep) → length (contents r) ≤ D.get_capacity_dpipe r
  pub filled :
      (r : D.Rep) → (D.is_full_dpipe r ≡ true) ↔ (length (contents r) ≡ D.get_capacity_dpipe r)
  pub emptied : (r : D.Rep) → (D.is_empty_dpipe r ≡ true) ↔ (length (contents r) ≡ 0)
  pub readable : (r : D.Rep) → D.get_bytes_readable_in_dpipe r ≡ length (contents r)
  pub writable :
      (r : D.Rep) → D.get_bytes_writable_in_dpipe r ≡ D.get_capacity_dpipe r - length (contents r)
  pub resized :
      (r : D.Rep) (n : ℕ)
      → let r' = D.resize_dpipe r n in
        (contents r' ≡ contents r)
        × (D.is_dpipe_closed r' ≡ D.is_dpipe_closed r)
        × ((D.get_capacity_dpipe r' ≡ n) ⊎ (D.get_capacity_dpipe r' ≡ D.get_capacity_dpipe r))
  pub written :
      (r : D.Rep) (data_p : List ℕ)
      → D.is_dpipe_closed r ≡ false
      → let (r', count) = D.write_to_dpipe r data_p in
        (count ≡ min (length data_p) (D.get_capacity_dpipe r - length (contents r)))
        × (contents r' ≡ contents r ++ take count data_p)
        × (D.is_dpipe_closed r' ≡ false)
        × (D.get_capacity_dpipe r' ≡ D.get_capacity_dpipe r)
  pub read :
      (r : D.Rep) (data_size : ℕ)
      → let (r', bytes) = D.read_from_dpipe r data_size in
        (contents r ≡ bytes ++ contents r')
        × (length bytes ≡ min data_size (length (contents r)))
        × (D.is_dpipe_closed r' ≡ D.is_dpipe_closed r)
        × (D.get_capacity_dpipe r' ≡ D.get_capacity_dpipe r)
