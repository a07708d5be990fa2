-- ===== src/Runner.antt =====
-- What the threads of src/alarm_job.c and src/periodic_job.c have in common: where the runner
-- stands between two of its atomic sections, and the condition variables of the two structs.
use boom_par.Prelude.{ℕ, Bool, true, false, List, [], ◌∷◌, Notice, signal, broadcast}

pub data Condition : Type 0 where
  job_wait stop_wait : Condition

-- The locals that are live at a place are its arguments.
pub data Pc : Type 0 where
  top : Pc  -- about to take `job_lock` at the head of the outer loop
  paused : (total_time_waited_for : ℕ) → Pc  -- in the untimed wait on `job_wait`
  timed : (total_time_waited_for time_to_wait_for : ℕ) → Pc  -- in the timed wait on `job_wait`
  calling : Pc  -- in the user's function, with `job_lock` free
  exited : Pc  -- returned
  faulted : Pc  -- called a null function pointer

abbrev pub sleeps : Pc → Bool
sleeps (paused total) = true
sleeps (timed total time) = true
sleeps _ = false

-- Does a section wake the one thread that waits on `job_wait`?
abbrev pub wakes_runner : List (Notice Condition) → Bool
wakes_runner [] = false
wakes_runner (signal job_wait ∷ notices) = true
wakes_runner (broadcast job_wait ∷ notices) = true
wakes_runner (notice ∷ notices) = wakes_runner notices
