-- ===== src/SyncPipe/RoundTrip.antt =====
-- A write to a pipe, and a read of all behind it (src/sync_pipe.c).
use mathlib.Core.List.{append-nil}
use boom_par.Prelude.{
  ℕ, ◌+◌, ◌≤◌, ◌<◌, ◌≡◌, refl, ap, ◌∙◌, List, [], ◌∷◌, ◌++◌, arith, length, length-append, take,
  length-take, returns,
}
use boom_par.Cutlery.Dpipe.{Dpipe, DpipeLaws}
use boom_par.SyncPipe.{
  SyncPipe, room_for_write, write_to_sync_pipe, read_must_wait, read_from_sync_pipe,
}
use boom_par.SyncPipe.Stream.{bytes, room_for_write-contents, trimmed-contents, write-bytes}

nothing_left : (xs ys : List ℕ) → length (xs ++ ys) ≤ length xs → ys ≡ []
nothing_left xs [] h = refl
nothing_left xs (y ∷ ys) h = absurd (omega (arith, length-append xs (y ∷ ys)))

module _ (D : Dpipe) (L : DpipeLaws D) where
  -- A read of all that a pipe has, if it has something.
  read-all :
      (spyp : SyncPipe D) (data_size : ℕ)
      → 0 < length (bytes D L spyp)
      → length (bytes D L spyp) ≤ data_size
      → let (after, _, outcome) = read_from_sync_pipe D spyp data_size in
        (outcome ≡ returns (bytes D L spyp)) × (bytes D L after ≡ [])
  unfolding read_from_sync_pipe read_must_wait
  read-all spyp data_size some_bytes enough =
      let (split, count, closed, capacity) = L.read spyp.pyp data_size in
      let (pyp, got) = D.read_from_dpipe spyp.pyp data_size in
      let none_left = nothing_left got (L.contents pyp) (omega (arith, ap length split, count)) in
      let all : bytes D L spyp ≡ got = split ∙ ap (λ xs. got ++ xs) none_left ∙ append-nil got in
      let trimmed_empty = trimmed-contents D L pyp ∙ none_left in
      (ground (arith, L.emptied spyp.pyp, all), ground (arith, L.emptied spyp.pyp, trimmed_empty))

  written-within :
      (spyp : SyncPipe D) (data_p : List ℕ) (bytes_written : ℕ)
      → (write_to_sync_pipe D spyp data_p).2 ≡ returns bytes_written
      → bytes_written ≤ length data_p
  unfolding write_to_sync_pipe
  written-within spyp data_p bytes_written e = ground (
    arith,
    room_for_write-contents D L spyp (length data_p),
    L.written (room_for_write D spyp (length data_p)) data_p,
  )

  -- A write of `data_p` returned `bytes_written`, and the next call is a read of at least as many bytes
  -- as the pipe has now, which is not none: it returns the bytes that were in the pipe before the
  -- write, and then the first `bytes_written` of `data_p`, and leaves the pipe empty.
  pub write-read :
      (spyp : SyncPipe D) (data_p : List ℕ) (bytes_written data_size : ℕ)
      → (write_to_sync_pipe D spyp data_p).2 ≡ returns bytes_written
      → 0 < length (bytes D L spyp) + bytes_written
      → length (bytes D L spyp) + bytes_written ≤ data_size
      → let (after, _, outcome) =
          read_from_sync_pipe D (write_to_sync_pipe D spyp data_p).0 data_size in
        (outcome ≡ returns (bytes D L spyp ++ take bytes_written data_p)) × (bytes D L after ≡ [])
  write-read spyp data_p bytes_written data_size e some_bytes enough =
      let after = (write_to_sync_pipe D spyp data_p).0 in
      let held : bytes D L after ≡ bytes D L spyp ++ take bytes_written data_p =
        ground (arith, write-bytes D L spyp data_p) in
      let counted = length-take bytes_written data_p (written-within spyp data_p bytes_written e) in
      let sized = ap length held ∙ length-append (bytes D L spyp) (take bytes_written data_p) in
      let (outcome, empty) =
        read-all after data_size (omega (arith, sized, counted)) (omega (arith, sized, counted)) in
      (outcome ∙ ap returns held, empty)
