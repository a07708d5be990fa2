-- ===== src/SyncPipe/Wakeups.antt =====
-- The threads that write to a pipe and read from it, under any interleaving (src/sync_pipe.c).
use boom_par.Prelude.{
  ℕ, ◌+◌, ◌*◌, ◌%◌, ◌≤◌, ◌<◌, ◌≡◌, refl, min, some, Bool, true, false, List, arith, word_size,
  length, length-append, take, length-take, Sleepers, told, slept, resumed, roused,
}
use boom_par.Cutlery.Dpipe.{Dpipe, DpipeLaws}
use boom_par.SyncPipe.{
  SyncPipe, Section, Condition, sync_pipe_empty, sync_pipe_full, initialize_sync_pipe,
  room_for_write, write_must_wait, write_to_sync_pipe, read_must_wait, trimmed, read_from_sync_pipe,
  close_sync_pipe,
}

pub record System (D : Dpipe) : Type 0 where
  pub spyp : SyncPipe D
  pub readers : Sleepers
  pub writers : Sleepers

abbrev on_empty : Condition → Bool
on_empty sync_pipe_empty = true
on_empty sync_pipe_full = false

abbrev on_full : Condition → Bool
on_full sync_pipe_empty = false
on_full sync_pipe_full = true

module _ (D : Dpipe) where
  abbrev writer_did : Sleepers → Sleepers → Section D ℕ → System D
  writer_did readers writers (spyp, notices, outcome) = record {
    spyp = spyp;
    readers = told on_empty notices readers;
    writers = slept outcome (told on_full notices writers);
  }

  abbrev reader_did : Sleepers → Sleepers → Section D (List ℕ) → System D
  reader_did readers writers (spyp, notices, outcome) = record {
    spyp = spyp;
    readers = slept outcome (told on_empty notices readers);
    writers = told on_full notices writers;
  }

  abbrev closer_did : Sleepers → Sleepers → Section D (Unit {0}) → System D
  closer_did readers writers (spyp, notices, outcome) = record {
    spyp = spyp;
    readers = told on_empty notices readers;
    writers = told on_full notices writers;
  }

  unfoldable pub write : System D → Sleepers → List ℕ → System D
  write s writers data_p = writer_did s.readers writers (write_to_sync_pipe D s.spyp data_p)

  unfoldable pub read : System D → Sleepers → ℕ → System D
  read s readers data_size = reader_did readers s.writers (read_from_sync_pipe D s.spyp data_size)

  unfoldable pub close : System D → System D
  close s = closer_did s.readers s.writers (close_sync_pipe D s.spyp)

  -- Threads get the lock in any order, for their first round or a later one, and wake for no reason.
  pub data Step (s : System D) : System D → Type 0 where
    writes : (data_p : List ℕ) → Step s (write s s.writers data_p)
    write_resumes :
        (data_p : List ℕ) → 0 < s.writers.woken → Step s (write s (resumed s.writers) data_p)
    reads : (data_size : ℕ) → Step s (read s s.readers data_size)
    read_resumes :
        (data_size : ℕ) → 0 < s.readers.woken → Step s (read s (resumed s.readers) data_size)
    closes : Step s (close s)
    rouses_reader : 0 < s.readers.asleep → Step s (record s { readers = roused s.readers })
    rouses_writer : 0 < s.writers.asleep → Step s (record s { writers = roused s.writers })

  abbrev pub start : SyncPipe D → System D
  start spyp = record {
    spyp = spyp;
    readers = record { asleep = 0; woken = 0 };
    writers = record { asleep = 0; woken = 0 };
  }

  pub data Reach (s : System D) : System D → Type 0 where
    here : Reach s s
    later : {t u : System D} → Reach s t → Step t u → Reach s u

module _ (D : Dpipe) (L : DpipeLaws D) where
  abbrev pub size : SyncPipe D → ℕ
  size spyp = length (L.contents spyp.pyp)

  pub record IsLive (max_capacity : ℕ) (s : System D) : Type 0 where
    pub same_bound : s.spyp.max_capacity ≡ max_capacity
    pub bounded : D.get_capacity_dpipe s.spyp.pyp ≤ max_capacity
    pub readers_due :
        0 < s.readers.asleep → (D.is_dpipe_closed s.spyp.pyp ≡ false) × (size s.spyp ≡ 0)
    pub writers_due :
        0 < s.writers.asleep → (D.is_dpipe_closed s.spyp.pyp ≡ false) × (size s.spyp ≡ max_capacity)

  room_for_write-cases :
      (spyp : SyncPipe D) (n : ℕ)
      → D.get_capacity_dpipe spyp.pyp ≤ spyp.max_capacity
      → let r = room_for_write D spyp n in
        (L.contents r ≡ L.contents spyp.pyp)
        × (D.is_dpipe_closed r ≡ D.is_dpipe_closed spyp.pyp)
        × (D.get_capacity_dpipe r ≤ spyp.max_capacity)
        × (D.get_capacity_dpipe spyp.pyp ≡ spyp.max_capacity
            → D.get_capacity_dpipe r ≡ spyp.max_capacity)
  unfolding room_for_write
  room_for_write-cases spyp n h = ground (
    arith,
    L.resized spyp.pyp
        (min spyp.max_capacity ((2 * D.get_bytes_readable_in_dpipe spyp.pyp + 2 * n) % word_size)),
  )

  trimmed-cases :
      (r : D.Rep)
      → (L.contents (trimmed D r) ≡ L.contents r)
        × (D.is_dpipe_closed (trimmed D r) ≡ D.is_dpipe_closed r)
        × (D.get_capacity_dpipe (trimmed D r) ≤ D.get_capacity_dpipe r)
  unfolding trimmed
  trimmed-cases r =
      ground (arith, L.resized r (D.get_bytes_readable_in_dpipe r), L.within r, L.readable r)

  write-IsLive :
      (n : ℕ) (s : System D) (writers : Sleepers) (data_p : List ℕ)
      → writers.asleep ≡ s.writers.asleep
      → IsLive n s
      → IsLive n (write D s writers data_p)
  unfolding write write_to_sync_pipe write_must_wait
  write-IsLive n s writers data_p e v =
      let room = room_for_write D s.spyp (length data_p) in
      let count = (D.write_to_dpipe room data_p).1 in
      ground (
        arith,
        L.filled s.spyp.pyp,
        L.within s.spyp.pyp,
        room_for_write-cases s.spyp (length data_p) (ground arith),
        L.written room data_p,
        length-append (L.contents room) (take count data_p),
        length-take count data_p,
      )

  read-IsLive :
      (n : ℕ) (s : System D) (readers : Sleepers) (data_size : ℕ)
      → readers.asleep ≡ s.readers.asleep
      → IsLive n s
      → IsLive n (read D s readers data_size)
  unfolding read read_from_sync_pipe read_must_wait
  read-IsLive n s readers data_size e v =
      let (after, bytes) = D.read_from_dpipe s.spyp.pyp data_size in
      ground (
        arith,
        L.emptied s.spyp.pyp,
        L.read s.spyp.pyp data_size,
        trimmed-cases after,
        length-append bytes (L.contents after),
      )

  close-IsLive : (n : ℕ) (s : System D) → IsLive n s → IsLive n (close D s)
  unfolding close close_sync_pipe
  close-IsLive n s v = ground (arith, L.closed s.spyp.pyp)

  Step-IsLive : (n : ℕ) {s t : System D} → Step D s t → IsLive n s → IsLive n t
  Step-IsLive n {s} (writes data_p) v = write-IsLive n s s.writers data_p refl v
  Step-IsLive n {s} (write_resumes data_p h) v = write-IsLive n s (resumed s.writers) data_p refl v
  Step-IsLive n {s} (reads data_size) v = read-IsLive n s s.readers data_size refl v
  Step-IsLive n {s} (read_resumes data_size h) v =
      read-IsLive n s (resumed s.readers) data_size refl v
  Step-IsLive n {s} closes v = close-IsLive n s v
  Step-IsLive n {s} (rouses_reader h) v = ground arith
  Step-IsLive n {s} (rouses_writer h) v = ground arith

  Reach-IsLive : (n : ℕ) {s t : System D} → IsLive n s → Reach D s t → IsLive n t
  Reach-IsLive n v here = v
  Reach-IsLive n v (later r st) = Step-IsLive n st (Reach-IsLive n v r)

  initialize-IsLive :
      (n : ℕ) (spyp : SyncPipe D) → initialize_sync_pipe D n ≡ some spyp → IsLive n (start D spyp)
  unfolding initialize_sync_pipe
  initialize-IsLive n spyp e = ground (arith, L.initialized 0 spyp.pyp)

  -- In every state that threads can reach on a new pipe, by writes, reads and closing in any order:
  -- the capacity of the buffer is at most `max_capacity`; a reader sleeps only while the pipe is open
  -- and empty; and a writer sleeps only while it is open and holds `max_capacity` bytes. So no
  -- wake-up is lost.
  pub sync_pipe-IsLive :
      (n : ℕ) (spyp : SyncPipe D) (s : System D)
      → initialize_sync_pipe D n ≡ some spyp
      → Reach D (start D spyp) s
      → IsLive n s
  sync_pipe-IsLive n spyp s e r = Reach-IsLive n (initialize-IsLive n spyp e) r
