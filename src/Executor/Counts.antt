-- ===== src/Executor/Counts.antt =====
-- What the two counts of an executor count, under any interleaving, and that no thread that waits for
-- one of them to become 0 misses it (src/executor.c).
use boom_par.Prelude.{ℕ, zero, suc, ◌<◌, ◌≡◌, refl, Bool, [], some, arith, word_size}
use boom_par.Cutlery.Arraylist.{Arraylist}
use boom_par.Cutlery.Singlylist.{Singlylist}
use boom_par.Job.{UserCode}
use boom_par.Executor.{
  Executor, create_worker, create_worker_started, new_executor, create_workers,
  create_workers_upfront,
}
use boom_par.Executor.Creation.{create_workers-counts, Arguments, created_by}
use boom_par.Executor.Places.{System}
use boom_par.Executor.Steps.{Reach}
use boom_par.Executor.Counting.{IsCounted, Reach-IsCounted}

module _ (A : Arraylist) (S : Singlylist) where
  -- A new executor with its upfront workers, about to pop.
  abbrev pub opened : Executor A S × ℕ → System A S
  opened (ex, added) = record {
    ex = ex;
    at = record {
      entered = 0;
      pushing = [];
      pushers = record { asleep = 0; woken = 0 };
      queued = 0;
      lacking = 0;
      creating = 0;
      starting = 0;
      leaving = 0;
      working = added;
      poppers = record { asleep = 0; woken = 0 };
      running = [];
      finishing = 0;
      closers = record { asleep = 0; woken = 0 };
      discarders = 0;
      discarding = 0;
      cancelling = [];
      waiters = record { asleep = 0; woken = 0 };
    };
  }

  create_workers-submitters_count :
      (count : ℕ) (errors : ℕ → Bool) (ex : Executor A S)
      → (create_workers A S count errors ex).0.submitters_count ≡ ex.submitters_count
  unfolding create_workers create_worker create_worker_started
  create_workers-submitters_count zero errors ex = refl
  create_workers-submitters_count (suc count) errors ex =
      ground (arith, create_workers-submitters_count count errors ex)

  -- In every state that threads can reach on a new executor of fewer than 2 ^ 64 workers, whatever the
  -- order of their sections: `active_worker_count` is the number of workers that run or are being
  -- created, and at most the limit; `submitters_count` is the number of threads inside
  -- submit_job_executor; a thread waits for the submitters only behind a shutdown; and no thread
  -- sleeps for a count that is 0 already. (Fewer than 2 ^ 64 threads submit at a time.)
  pub executor-IsCounted :
      (user : UserCode) (args : Arguments) (ex : Executor A S) (errors : ℕ → Bool) (s : System A S)
      → created_by A S args ≡ some ex
      → args.worker_count_limit < word_size
      → Reach A S user (opened (create_workers_upfront A S errors ex)) s
      → IsCounted A S s
  unfolding new_executor create_workers_upfront
  executor-IsCounted user args ex errors s e h r =
      let none_yet : ex.active_worker_count ≡ 0 = ground arith in
      let limited : ex.worker_count_limit ≡ args.worker_count_limit = ground arith in
      let no_submitters : ex.submitters_count ≡ 0 = ground arith in
      let counted =
        create_workers-counts A S args.worker_count_limit errors ex none_yet (ground arith)
          (ground arith) in
      Reach-IsCounted A S user
        (ground (arith, counted, create_workers-submitters_count args.worker_count_limit errors ex))
        r
