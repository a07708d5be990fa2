-- ===== src/SyncPipe/Stream.antt =====
-- What is written to a pipe is read from it, in order (src/sync_pipe.c).
use mathlib.Core.List.{append-nil, append_assoc}
use boom_par.Prelude.{
  ℕ, ◌+◌, ◌*◌, ◌%◌, min, word_size, ◌≡◌, sym, ap, ◌∙◌, List, [], ◌∷◌, ◌++◌, arith, length, take,
  Outcome, waits, returns,
}
use boom_par.Cutlery.Dpipe.{Dpipe, DpipeLaws}
use boom_par.SyncPipe.{
  SyncPipe, room_for_write, write_to_sync_pipe, trimmed, read_from_sync_pipe, close_sync_pipe,
}

-- The calls of the threads; each round of a loop is a call of its own.
pub data Call : Type 0 where
  writes : (data_p : List ℕ) → Call
  reads : (data_size : ℕ) → Call
  closes : Call

module _ (D : Dpipe) where
  abbrev pub after : SyncPipe D → Call → SyncPipe D
  after spyp (writes data_p) = (write_to_sync_pipe D spyp data_p).0
  after spyp (reads data_size) = (read_from_sync_pipe D spyp data_size).0
  after spyp closes = (close_sync_pipe D spyp).0

  abbrev written : List ℕ → Outcome ℕ → List ℕ
  written data_p waits = []
  written data_p (returns bytes_written) = take bytes_written data_p

  abbrev got : Outcome (List ℕ) → List ℕ
  got waits = []
  got (returns bytes) = bytes

  -- The bytes of its data that a call has written, by the number that it returned, and those that it
  -- has read.
  abbrev pub written_by : SyncPipe D → Call → List ℕ
  written_by spyp (writes data_p) = written data_p (write_to_sync_pipe D spyp data_p).2
  written_by spyp _ = []

  abbrev pub read_by : SyncPipe D → Call → List ℕ
  read_by spyp (reads data_size) = got (read_from_sync_pipe D spyp data_size).2
  read_by spyp _ = []

  unfoldable pub run : SyncPipe D → List Call → SyncPipe D
  run spyp [] = spyp
  run spyp (c ∷ cs) = run (after spyp c) cs

  unfoldable pub all_written : SyncPipe D → List Call → List ℕ
  all_written spyp [] = []
  all_written spyp (c ∷ cs) = written_by spyp c ++ all_written (after spyp c) cs

  unfoldable pub all_read : SyncPipe D → List Call → List ℕ
  all_read spyp [] = []
  all_read spyp (c ∷ cs) = read_by spyp c ++ all_read (after spyp c) cs

module _ (D : Dpipe) (L : DpipeLaws D) where
  abbrev pub bytes : SyncPipe D → List ℕ
  bytes spyp = L.contents spyp.pyp

  pub room_for_write-contents :
      (spyp : SyncPipe D) (n : ℕ)
      → (L.contents (room_for_write D spyp n) ≡ bytes spyp)
        × (D.is_dpipe_closed (room_for_write D spyp n) ≡ D.is_dpipe_closed spyp.pyp)
  unfolding room_for_write
  room_for_write-contents spyp n = ground (
    arith,
    L.resized spyp.pyp
        (min spyp.max_capacity ((2 * D.get_bytes_readable_in_dpipe spyp.pyp + 2 * n) % word_size)),
  )

  pub trimmed-contents : (r : D.Rep) → L.contents (trimmed D r) ≡ L.contents r
  unfolding trimmed
  trimmed-contents r = ground (arith, L.resized r (D.get_bytes_readable_in_dpipe r))

  pub write-bytes :
      (spyp : SyncPipe D) (data_p : List ℕ)
      → bytes (after D spyp (writes data_p)) ≡ bytes spyp ++ written_by D spyp (writes data_p)
  unfolding write_to_sync_pipe
  write-bytes spyp data_p = ground (
    arith,
    append-nil (bytes spyp),
    room_for_write-contents spyp (length data_p),
    L.written (room_for_write D spyp (length data_p)) data_p,
  )

  read-bytes :
      (spyp : SyncPipe D) (data_size : ℕ)
      → bytes spyp ≡ read_by D spyp (reads data_size) ++ bytes (after D spyp (reads data_size))
  unfolding read_from_sync_pipe
  read-bytes spyp data_size =
      ground (
        arith,
        L.read spyp.pyp data_size,
        trimmed-contents (D.read_from_dpipe spyp.pyp data_size).0,
      )

  after-bytes :
      (spyp : SyncPipe D) (c : Call)
      → bytes spyp ++ written_by D spyp c ≡ read_by D spyp c ++ bytes (after D spyp c)
  unfolding close_sync_pipe
  after-bytes spyp (writes data_p) = sym (write-bytes spyp data_p)
  after-bytes spyp (reads data_size) = append-nil (bytes spyp) ∙ read-bytes spyp data_size
  after-bytes spyp closes = append-nil (bytes spyp) ∙ ground (arith, L.closed spyp.pyp)

  -- Over any history of writes, reads and closing, by any threads, with waits and partial writes and
  -- reads: the bytes in the pipe, and then all bytes that writes reported as written, are in this
  -- order all bytes that reads returned, and then the bytes in the pipe.
  pub run-streams :
      (spyp : SyncPipe D) (cs : List Call)
      → bytes spyp ++ all_written D spyp cs ≡ all_read D spyp cs ++ bytes (run D spyp cs)
  unfolding run all_written all_read
  run-streams spyp [] = append-nil (bytes spyp)
  run-streams spyp (c ∷ cs) =
      sym (append_assoc (bytes spyp) (written_by D spyp c) (all_written D (after D spyp c) cs))
      ∙ ap (λ xs. xs ++ all_written D (after D spyp c) cs) (after-bytes spyp c)
      ∙ append_assoc (read_by D spyp c) (bytes (after D spyp c)) (all_written D (after D spyp c) cs)
      ∙ ap (λ xs. read_by D spyp c ++ xs) (run-streams (after D spyp c) cs)
      ∙ sym (
          append_assoc (read_by D spyp c) (all_read D (after D spyp c) cs)
            (bytes (run D (after D spyp c) cs)))
