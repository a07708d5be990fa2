-- ===== src/Job/Lifecycle.antt =====
-- A job is executed or cancelled, once (src/job.c).
use mathlib.Core.List.{append-nil, append_assoc}
use boom_par.Prelude.{
  ℕ, ◌≡◌, ◌≢◌, ◌⊎◌, refl, sym, subst, Bool, true, false, List, [], ◌∷◌, ◌++◌, ◌==◌, if◌then◌else◌,
  arith, returns,
}
use boom_par.Promise.{Promise, get_promised_result}
use boom_par.Job.{
  State, created, completed, cancelled, Job, Event, ran, cancelled_with, notified, World, UserCode,
  log, fulfil, is_created, execute_job, cancel_job,
}

-- What a thread can do with a job.
pub data Call : Type 0 where
  executes cancels : Call

unfoldable pub call : UserCode → Job → World → Call → Job × World × Bool
unfolding execute_job cancel_job
call user job w executes = execute_job user job w
call user job w cancels = cancel_job job w

unfoldable pub run : UserCode → Job → World → List Call → Job × World
run user job w [] = (job, w)
run user job w (c ∷ cs) = let (job', w', _) = call user job w c in run user job' w' cs

-- The promise at `address` has a result: the one it had, or else `output`.
abbrev pub Holds : Promise → Promise → ℕ → Type 0
Holds before after output =
    ((before.output_result_ready ≡ true) × (after ≡ before))
    ⊎ ((before.output_result_ready ≡ false) × (get_promised_result after ≡ returns output))

fulfil-Holds :
    (w : World) (address output : ℕ)
    → address ≢ 0
    → Holds (w.promises address) ((fulfil w address output).promises address) output
unfolding fulfil get_promised_result
fulfil-Holds w address output h = ground arith

fulfil-frame :
    (w : World) (address output other : ℕ)
    → other ≢ address
    → (fulfil w address output).promises other ≡ w.promises other
unfolding fulfil
fulfil-frame w address output other h = ground arith

-- The completion callback of a promise that is fulfilled now, if it has one, as an event.
abbrev pub completion : World → ℕ → List Event
completion w address =
    if address == 0
    then []
    else if (w.promises address).output_result_ready
    then []
    else if (w.promises address).promised_callback == 0
    then []
    else notified address (w.promises address).promised_callback ∷ []

fulfil-events :
    (w : World) (address output : ℕ)
    → (fulfil w address output).events ≡ w.events ++ completion w address
unfolding fulfil
fulfil-events w address output = ground (arith, append-nil w.events)

-- Executing a created job runs its function on its input, and behind it the completion callback of
-- its promise, if that is fulfilled now and has one; the job is completed; the promise, if there is
-- one, then holds what the function returned, unless it already held a result; and no other promise
-- changes.
pub execute_job-completes :
    (user : UserCode) (job : Job) (w : World) (other : ℕ)
    → job.state ≡ created
    → job.promise_for_output ≢ 0
    → other ≢ job.promise_for_output
    → let (job', w', done) = execute_job user job w in
      let address = job.promise_for_output in
      (job'.state ≡ completed)
      × (done ≡ true)
      × (w'.events ≡ w.events ++ ran job.job_function job.input_p ∷ completion w address)
      × Holds
          (w.promises address)
          (w'.promises address)
          (user w.events job.job_function job.input_p)
      × (w'.promises other ≡ w.promises other)
unfolding execute_job
execute_job-completes user job w other h p o =
    let output = user w.events job.job_function job.input_p in
    let called = log w (ran job.job_function job.input_p) in
    ground (
      arith,
      fulfil-events called job.promise_for_output output,
      append_assoc w.events (ran job.job_function job.input_p ∷ [])
          (completion w job.promise_for_output),
      fulfil-Holds called job.promise_for_output output p,
      fulfil-frame called job.promise_for_output output other o,
    )

-- The cancellation callback of a job, if it has one, as an event.
abbrev pub cancellation : Job → List Event
cancellation job =
    if job.cancellation_callback == 0
    then []
    else cancelled_with job.cancellation_callback job.input_p ∷ []

-- Cancelling a created job does not run its function: it calls its cancellation callback, if it has
-- one, on its input, and behind it the completion callback of its promise, if that is fulfilled now
-- and has one; the promise, if there is one, then holds NULL, unless it already held a result; and
-- no other promise changes.
pub cancel_job-cancels :
    (job : Job) (w : World) (other : ℕ)
    → job.state ≡ created
    → job.promise_for_output ≢ 0
    → other ≢ job.promise_for_output
    → let (job', w', done) = cancel_job job w in
      let address = job.promise_for_output in
      (job'.state ≡ cancelled)
      × (done ≡ true)
      × (w'.events ≡ (w.events ++ cancellation job) ++ completion w address)
      × Holds (w.promises address) (w'.promises address) 0
      × (w'.promises other ≡ w.promises other)
unfolding cancel_job
cancel_job-cancels job w other h p o =
    let told : World = record w { events = w.events ++ cancellation job } in
    ground (
      arith,
      append-nil w.events,
      fulfil-events told job.promise_for_output 0,
      fulfil-Holds told job.promise_for_output 0 p,
      fulfil-frame told job.promise_for_output 0 other o,
    )

call-settles :
    (user : UserCode) (job : Job) (w : World) (c : Call)
    → is_created (call user job w c).0.state ≡ false
unfolding call
call-settles user job w executes = ground arith
call-settles user job w cancels = ground arith

call-refused :
    (user : UserCode) (job : Job) (w : World) (c : Call)
    → is_created job.state ≡ false
    → call user job w c ≡ (job, w, false)
unfolding call
call-refused user job w executes h = ground arith
call-refused user job w cancels h = ground arith

run-refused :
    (user : UserCode) (job : Job) (w : World) (cs : List Call)
    → is_created job.state ≡ false
    → run user job w cs ≡ (job, w)
unfolding run
run-refused user job w [] h = refl
run-refused user job w (c ∷ cs) h = rw (call-refused user job w c h) (run-refused user job w cs h)

-- What the first attempt makes of a job, and its calls of user code.
abbrev pub settled : Call → State
settled executes = completed
settled cancels = cancelled

abbrev pub calls_of : Job → Call → List Event
calls_of job executes = ran job.job_function job.input_p ∷ []
calls_of job cancels = cancellation job

-- What the first attempt gives to the promise.
abbrev pub output_of : UserCode → Job → World → Call → ℕ
output_of user job w executes = user w.events job.job_function job.input_p
output_of user job w cancels = 0

-- The promise of a job, if it has one, holds `output`, or what it held before; if it has none, the
-- promises stay.
abbrev pub Fulfils : Job → World → World → ℕ → Type 0
Fulfils job before after output =
    ((job.promise_for_output ≡ 0) × (after.promises ≡ before.promises))
    ⊎ ((job.promise_for_output ≢ 0)
        × Holds (before.promises job.promise_for_output) (after.promises job.promise_for_output)
            output)

fulfil-Fulfils :
    (job : Job) (w : World) (output : ℕ)
    → Fulfils job w (fulfil w job.promise_for_output output) output
unfolding fulfil get_promised_result
fulfil-Fulfils job w output = ground arith

pub call-acts :
    (user : UserCode) (job : Job) (w : World) (c : Call)
    → job.state ≡ created
    → let (job', w', done) = call user job w c in
      (job'.state ≡ settled c)
      × (done ≡ true)
      × (w'.events ≡ (w.events ++ calls_of job c) ++ completion w job.promise_for_output)
      × Fulfils job w w' (output_of user job w c)
unfolding call execute_job cancel_job
call-acts user job w executes e =
    let output = user w.events job.job_function job.input_p in
    let called = log w (ran job.job_function job.input_p) in
    ground
      (arith, fulfil-events called job.promise_for_output output, fulfil-Fulfils job called output)
call-acts user job w cancels e =
    let told : World = record w { events = w.events ++ cancellation job } in
    ground (
      arith,
      append-nil w.events,
      fulfil-events told job.promise_for_output 0,
      fulfil-Fulfils job told 0,
    )

-- A created job, and any sequence of attempts to execute or cancel it, the first of which is `c`. If
-- `c` executes it, its function is called once, on its input, and the cancellation callback is not; if
-- `c` cancels it, the cancellation callback is called once, on the same input, if there is one, and
-- the function is not. Behind it comes the completion callback of the promise, if that is fulfilled
-- now and has one, and no other call of user code. The job ends completed or cancelled, as `c` has
-- it, and its promise, if there is one, holds what the function returned, or NULL, unless it held a
-- result before.
pub run-first_only :
    (user : UserCode) (job : Job) (w : World) (c : Call) (cs : List Call)
    → job.state ≡ created
    → let (job', w') = run user job w (c ∷ cs) in
      (job'.state ≡ settled c)
      × (w'.events ≡ (w.events ++ calls_of job c) ++ completion w job.promise_for_output)
      × Fulfils job w w' (output_of user job w c)
unfolding run
run-first_only user job w c cs e =
    let (job', w', _) = call user job w c in
    let (state, done, events, fulfils) = call-acts user job w c e in
    let first : run user job w (c ∷ cs) ≡ (job', w') =
      run-refused user job' w' cs (call-settles user job w c) in
    subst
      (λ (j, x).
        (j.state ≡ settled c)
        × (x.events ≡ (w.events ++ calls_of job c) ++ completion w job.promise_for_output)
        × Fulfils job w x (output_of user job w c))
      (sym first) (state, events, fulfils)
