-- ===== src/Lib.antt =====
-- BoomPar, a C library of threading primitives: jobs and promises, queues, recurring jobs, and a
-- resource limiter.
--
-- The threads of the program meet at objects, each of which has a mutex, and the executor two. So each
-- object is a record of the fields that the mutex protects, and each function of the C code is a
-- function of that record for each stretch of code between taking the mutex and the next wait, or
-- giving the mutex up. Such a stretch returns the new record, its notices (the signals and broadcasts,
-- in order), and an outcome: `waits`, or `returns` with the value. A wait is therefore the end of one
-- stretch and the beginning of another, and the theorems on histories and reachable states take any
-- sequence of stretches, with waits that end by a notice, a timeout or for no reason.
--
-- - Prelude: Boolean tests on numbers, words of 64 bits (`add64`, `sub64`), the flags of an event
--   vector, lists, and threads that sleep on a condition variable (Prelude/Waiting).
-- - ResourceUsageLimiter: src/resource_usage_limiter.c. `request_round` is a round of the loop in
--   request_resources_from_resource_usage_limiter, `delete_round` one of that in
--   delete_resource_usage_limiter. Grants has what one call does, Calls a call as data, Wakeups what a
--   call does to threads that wait, History sequences of calls.
-- - Promise: src/promise.c; Once has sequences of calls, Waiters what wakes a thread that waits,
--   Threads the threads that set a result and wait for it.
-- - CompletionCallback: src/promise_completion_default_callback.c, a callback of a Promise that pushes it
--   to a SyncQueue. Threads has the threads that complete promises and those that pop, Announced what
--   becomes of the promises.
-- - Job: src/job.c, which sets the result of a Promise. The store of promises and the calls into user
--   code are a `World` that the functions change.
-- - Runner: where the thread of a recurring job stands between two stretches.
-- - AlarmJob and PeriodicJob: src/alarm_job.c and src/periodic_job.c. `inner_round` is the body of the
--   inner loop of the runner, `next_state` the switch of consume_events_and_update_state. Consume has
--   what one round does, Reachable the states that the runner and the calls reach together, Response
--   what the runner does behind a call.
-- - Cutlery: the arraylist, the singlylist and the dpipe of the Cutlery library, whose code is not in
--   this repository, as interfaces with their documented laws, and an instance of each for runs.
-- - SyncQueue: src/sync_queue.c over that interface. `push_sync_queue` is the first round of the loop
--   and `push_sync_queue_woken` one behind a wait, likewise for pop. Fifo has what goes in and comes
--   out, Bounds how much the queue holds at most, Threads the threads on both ends as a step relation,
--   Wakeups what holds of them.
-- - SyncLlQueue: src/sync_ll_queue.c, in the same way, over the singlylist of Cutlery.
-- - ClosableQueue: the abstract queue, a list and a flag; SyncQueue/Refines, SyncLlQueue/Refines and
--   JobQueue/Refines relate the three queues to it.
-- - JobQueue: src/job_queue.c, the union of the two queues. Threads has the threads that wait
--   on it, Wakeups what wakes them.
-- - Worker: src/worker.c over a JobQueue, with a store of Jobs by their addresses. `worker_round` is a
--   round of the loop of worker_function, `discard_round` one of discard_leftover_jobs. Submission has
--   what a submission leads to, Ready what the jobs of a queue are in the store, Owned and Sharing the
--   same for those that threads hold too, Draining what becomes of the jobs.
-- - Executor: src/executor.c over the functions of Worker. A call is cut where it gives a mutex up,
--   a worker also between its pop and the job: Places has the threads that stand at each cut, those
--   that sleep on one of the four condition variables among them, Threads what a thread does between
--   two cuts, and Steps the step relation. Creation has the arguments of new_executor and the workers
--   created upfront, Counting and Counts the two counts and the waits for them, Wakeups the waits on
--   the queue, Held, Ownership and Safety the jobs and the workers, Idle what is left after a
--   shutdown, Leftovers, Measure, Sections and Progress that a shutdown comes to it, OneWorker and
--   Stranded a job that gets no worker. Events tells from a run which jobs were accepted, popped and
--   ended, Moves, Transfer and Dispatch what one step does to them, History what a run does,
--   Accounting the jobs and the calls of user code, Completion what is left of them at the end,
--   Fulfilment their promises. A job is executed or cancelled in one step, although no mutex is held
--   there and jobs of several workers overlap in the program; so no result on the executor speaks of
--   the order of their calls of user code.
-- - SyncPipe: src/sync_pipe.c over the dpipe of Cutlery. Stream has what goes in and comes out,
--   RoundTrip a write and a read behind it, Wakeups the threads on both ends.
--
-- Pointers are addresses, 0 for NULL. Counters are natural numbers and wrap at 2 ^ 64 where the code
-- computes on uint64_t or on cy_uint. A loop that waits is not a recursion here but one stretch per
-- round, and needs no fuel. Only worker_function and discard_leftover_jobs, run without other threads,
-- are recursive on fuel, and one round more than there are jobs in the queue is enough.
--
-- Not modelled: the initialisation and destruction of mutexes
-- and condition variables, the freeing of memory, and the cancellation of threads; the passage of
-- time, of which only the remaining time that a timed wait reports is used; the test drivers under
-- test/.
mod Prelude
pub mod Cutlery
pub mod CompletionCallback
pub mod ClosableQueue
pub mod SyncQueue
pub mod SyncLlQueue
pub mod JobQueue
pub mod SyncPipe
pub mod Promise
pub mod Job
pub mod Worker
pub mod Executor
pub mod Runner
pub mod AlarmJob
pub mod PeriodicJob
pub mod ResourceUsageLimiter
