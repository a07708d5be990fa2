-- ===== src/SyncPipe/Tests.antt =====
-- Runs of a pipe (src/sync_pipe.c), and its theorems there.
use boom_par.Prelude.{◌≡◌, refl, true, false, List, [], ◌∷◌, ◌++◌, some, arith, returns}
use boom_par.Cutlery.Buffers.{buffers, buffers_laws}
use boom_par.SyncPipe.{
  SyncPipe, initialize_sync_pipe, new_sync_pipe, write_to_sync_pipe, read_from_sync_pipe,
  close_sync_pipe,
}
use boom_par.SyncPipe.Stream as Stream
use boom_par.SyncPipe.RoundTrip.{write-read}
use boom_par.SyncPipe.Wakeups.{
  System, write, read, writes, reads, start, here, later, IsLive, sync_pipe-IsLive,
}

-- An empty pipe of at most two bytes.
abbrev fresh : SyncPipe buffers
fresh = record { max_capacity = 2; pyp = record { room = 0; bytes = []; is_closed = false } }

new_pipe : new_sync_pipe buffers true 2 ≡ some fresh
unfolding new_sync_pipe
new_pipe = refl

-- The second of three bytes fits, the third does not.
abbrev traffic : List Stream.Call
traffic =
    Stream.writes (7 ∷ 8 ∷ 9 ∷ [])
    ∷ Stream.reads 1
    ∷ Stream.writes (9 ∷ [])
    ∷ Stream.closes
    ∷ Stream.reads 5
    ∷ []

traffic_is_read : Stream.all_read buffers fresh traffic ≡ 7 ∷ 8 ∷ 9 ∷ []
unfolding Stream.all_read write_to_sync_pipe read_from_sync_pipe close_sync_pipe
traffic_is_read = refl

run-streams_example :
    Stream.bytes buffers buffers_laws fresh ++ Stream.all_written buffers fresh traffic
    ≡ Stream.all_read buffers fresh traffic
      ++ Stream.bytes buffers buffers_laws (Stream.run buffers fresh traffic)
run-streams_example = Stream.run-streams buffers buffers_laws fresh traffic

-- A reader sleeps, a write of three bytes wakes it, and a second writer sleeps.
abbrev crowded : System buffers
crowded =
    write buffers
      (write buffers (read buffers (start buffers fresh) (start buffers fresh).readers 4)
        (read buffers (start buffers fresh) (start buffers fresh).readers 4).writers
        (7 ∷ 8 ∷ 9 ∷ []))
      (write buffers (read buffers (start buffers fresh) (start buffers fresh).readers 4)
        (read buffers (start buffers fresh) (start buffers fresh).readers 4).writers
        (7 ∷ 8 ∷ 9 ∷ [])).writers
      (9 ∷ [])

crowded_threads :
    (crowded.readers ≡ record { asleep = 0; woken = 1 })
    × (crowded.writers ≡ record { asleep = 1; woken = 0 })
unfolding write read write_to_sync_pipe read_from_sync_pipe
crowded_threads = (refl, refl)

sync_pipe-IsLive_example : IsLive buffers buffers_laws 2 crowded
unfolding initialize_sync_pipe
sync_pipe-IsLive_example =
    sync_pipe-IsLive buffers buffers_laws 2 fresh crowded refl
      (later (later (later here (reads 4)) (writes (7 ∷ 8 ∷ 9 ∷ []))) (writes (9 ∷ [])))

-- Two of three bytes are written, and read.
two_written : (write_to_sync_pipe buffers fresh (7 ∷ 8 ∷ 9 ∷ [])).2 ≡ returns 2
unfolding write_to_sync_pipe
two_written = refl

write-read_example :
    let (after, _, outcome) =
      read_from_sync_pipe buffers (write_to_sync_pipe buffers fresh (7 ∷ 8 ∷ 9 ∷ [])).0 5 in
    (outcome ≡ returns (7 ∷ 8 ∷ [])) × (Stream.bytes buffers buffers_laws after ≡ [])
unfolding buffers_laws
write-read_example =
    write-read buffers buffers_laws fresh (7 ∷ 8 ∷ 9 ∷ []) 2 5 two_written (omega arith)
      (omega arith)
