-- ===== src/JobQueue/Threads.antt =====
-- The threads of a job queue, and what a section does to them (src/job_queue.c).
use boom_par.Prelude.{ℕ, Bool, Sleepers, told, slept}
use boom_par.Cutlery.Arraylist.{Arraylist}
use boom_par.Cutlery.Singlylist.{Singlylist}
use boom_par.SyncQueue.Threads.{on_empty, on_full}
use boom_par.JobQueue.{JobQueue, Section}

pub record System (A : Arraylist) (S : Singlylist) : Type 0 where
  pub jq : JobQueue A S
  pub poppers : Sleepers
  pub pushers : Sleepers

module _ (A : Arraylist) (S : Singlylist) where
  -- The thread of the section is a popper, a pusher, or waits for nothing.
  abbrev pub popper_did : Sleepers → Sleepers → Section A S ℕ → System A S
  popper_did poppers pushers (jq, notices, outcome) = record {
    jq = jq;
    poppers = slept outcome (told on_empty notices poppers);
    pushers = told on_full notices pushers;
  }

  abbrev pub pusher_did : Sleepers → Sleepers → Section A S Bool → System A S
  pusher_did poppers pushers (jq, notices, outcome) = record {
    jq = jq;
    poppers = told on_empty notices poppers;
    pushers = slept outcome (told on_full notices pushers);
  }

  abbrev pub caller_did : Sleepers → Sleepers → Section A S (Unit {0}) → System A S
  caller_did poppers pushers (jq, notices, outcome) = record {
    jq = jq;
    poppers = told on_empty notices poppers;
    pushers = told on_full notices pushers;
  }
