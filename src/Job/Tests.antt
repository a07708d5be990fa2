-- ===== src/Job/Tests.antt =====
-- Runs of a job (src/job.c), and its theorems at a concrete job.
use boom_par.Prelude.{◌+◌, ◌≡◌, ◌++◌, refl, true, false, [], ◌∷◌, some, none}
use boom_par.Promise.{set_promised_result}
use boom_par.Job.{
  created, completed, Job, ran, notified, World, UserCode, new_job, fulfil, execute_job_async,
  execute_wrapper, deinitialize_job, invalid_job_state,
}
use boom_par.Job.Lifecycle.{executes, cancels, call, run, completion, Fulfils, run-first_only}

-- Every function returns its input plus one.
abbrev increment : UserCode
increment events f x = x + 1

abbrev ready_job : Job
ready_job = record {
  state = created;
  input_p = 40;
  job_function = 9;
  cancellation_callback = 8;
  promise_for_output = 3;
}

-- All promises are new, and have the callback 5.
abbrev world : World
world = record {
  promises =
      λ address. record { output_result_ready = false; output_result = 0; promised_callback = 5 };
  events = [];
}

job_is_new : new_job true 9 40 3 8 ≡ some ready_job
unfolding new_job
job_is_new = refl

no_job_without_function : new_job true 0 40 3 8 ≡ none
unfolding new_job
no_job_without_function = refl

async_twice : execute_job_async 0 (execute_wrapper increment ready_job world).0 ≡ invalid_job_state
unfolding execute_job_async execute_wrapper
async_twice = refl

pointers_are_cleared : (deinitialize_job ready_job).promise_for_output ≡ 0
unfolding deinitialize_job
pointers_are_cleared = refl

executed_then_cancelled :
    (run increment ready_job world (executes ∷ cancels ∷ executes ∷ [])).1.events
    ≡ ran 9 40 ∷ notified 3 5 ∷ []
unfolding run call fulfil set_promised_result
executed_then_cancelled = refl

run-first_only_example :
    let (job', w') = run increment ready_job world (executes ∷ cancels ∷ []) in
    (job'.state ≡ completed)
    × (w'.events ≡ (ran 9 40 ∷ []) ++ completion world 3)
    × Fulfils ready_job world w' 41
run-first_only_example = run-first_only increment ready_job world executes (cancels ∷ []) refl
