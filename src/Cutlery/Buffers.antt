-- ===== src/Cutlery/Buffers.antt =====
-- A buffer of bytes that meets the interface of the dpipe, for runs of the models.
use boom_par.Prelude.{
  ℕ, zero, suc, ◌-◌, min, take, length-append, length-take, leb, ◌+◌, ◌≡◌, refl, ap, Bool, true,
  false, List, [], ◌∷◌, ◌++◌, some, arith, ◌==◌, if◌then◌else◌, length,
}
use boom_par.Cutlery.Dpipe.{Dpipe, DpipeLaws}

pub record Buffer : Type 0 where
  pub room : ℕ
  pub bytes : List ℕ
  pub is_closed : Bool

abbrev drop : ℕ → List ℕ → List ℕ
drop zero xs = xs
drop (suc n) [] = []
drop (suc n) (x ∷ xs) = drop n xs

-- `room` is what is left of the capacity.
abbrev capacity_of : Buffer → ℕ
capacity_of b = length b.bytes + b.room

abbrev with_capacity : Buffer → ℕ → Buffer
with_capacity b n = if leb (length b.bytes) n then record b { room = n - length b.bytes } else b

abbrev write_buffer : Buffer → List ℕ → Buffer × ℕ
write_buffer b xs =
    let count = min (length xs) b.room in
    (record b { room = b.room - count; bytes = b.bytes ++ take count xs }, count)

abbrev read_buffer : Buffer → ℕ → Buffer × List ℕ
read_buffer b n =
    let got = take (min n (length b.bytes)) b.bytes in
    (record b { room = b.room + length got; bytes = drop (min n (length b.bytes)) b.bytes }, got)

abbrev pub buffers : Dpipe
buffers = record {
  Rep = Buffer;
  initialize_dpipe = λ n. some (record { room = n; bytes = []; is_closed = false });
  is_dpipe_closed = λ b. b.is_closed;
  close_dpipe = λ b. record b { is_closed = true };
  is_full_dpipe = λ b. b.room == 0;
  is_empty_dpipe = λ b. length b.bytes == 0;
  get_capacity_dpipe = capacity_of;
  get_bytes_readable_in_dpipe = λ b. length b.bytes;
  get_bytes_writable_in_dpipe = λ b. b.room;
  resize_dpipe = with_capacity;
  write_to_dpipe = write_buffer;
  read_from_dpipe = read_buffer;
}

pub take-append-drop : (n : ℕ) (xs : List ℕ) → xs ≡ take n xs ++ drop n xs
take-append-drop zero xs = refl
take-append-drop (suc n) [] = refl
take-append-drop (suc n) (x ∷ xs) = ap (λ ys. x ∷ ys) (take-append-drop n xs)

unfoldable pub buffers_laws : DpipeLaws buffers
buffers_laws = record {
  contents = λ b. b.bytes;
  initialized = λ n b e. ground arith;
  closed = λ b. (refl, refl, refl);
  within = λ b. omega arith;
  filled = λ b. ground arith;
  emptied = λ b. ground arith;
  readable = λ b. refl;
  writable = λ b. omega arith;
  resized = λ b n. ground arith;
  written = λ b xs open_pipe. ground (
    arith,
    length-append b.bytes (take (min (length xs) b.room) xs),
    length-take (min (length xs) b.room) xs,
  );
  read = λ b n. ground (
    arith,
    take-append-drop (min n (length b.bytes)) b.bytes,
    length-append (take (min n (length b.bytes)) b.bytes) (drop (min n (length b.bytes)) b.bytes),
    length-take (min n (length b.bytes)) b.bytes,
  );
}
