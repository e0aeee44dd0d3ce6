-- ===== src/Orchestrator.antt =====
-- src/core/orchestrator.c, without its threads' work. `answers` are those of `calloc`, `create_queue`, `malloc` and
-- `pthread_create`, in the order of the calls. A call answers with what it did to the things that a runtime owns, in
-- order. A pointer of a runtime is here whether it is not NULL.
pub mod Closes
pub mod Waits
pub mod Dispatch
pub mod Pipeline
mod Witnesses
use fman.Prelude.{
  ℕ, zero, suc, ◌+◌, Bool, true, false, not, List, [], ◌∷◌, ◌++◌, Option, none, some, ltb,
  if◌then◌else◌,
}
use fman.Prelude.Int.{ℤ, pos, negsuc}
use fman.Models.{Response}
use fman.Dsl.Lexer.{malloc}

pub data Thing : Type 0 where
  runtime db_queue request_queue response_queue http_threads db_worker dispatcher : Thing
  http_worker : ℕ → Thing

-- A thing is made: allocated or started. A queue is shut down. A thing is gone: freed, destroyed or joined.
pub data Event : Type 0 where
  made shut gone : Thing → Event

pub record Runtime : Type 0 where
  pub has_db_queue : Bool
  pub has_request_queue : Bool
  pub has_response_queue : Bool
  pub has_http_threads : Bool
  pub http_worker_count : ℕ
  pub is_running : Bool
  pub db_worker_started : Bool
  pub dispatcher_started : Bool

abbrev pub when : Bool → Event → List Event
when true e = e ∷ []
when false e = []

-- The loop that joins the workers, from the first on.
unfoldable pub join_workers : ℕ → ℕ → List Event
join_workers zero i = []
join_workers (suc rounds) i = gone (http_worker i) ∷ join_workers rounds (i + 1)

-- Behind the joined workers.
unfoldable pub destroy_rest : Runtime → List Event
destroy_rest r =
    when r.has_response_queue (shut response_queue)
    ++ (when r.dispatcher_started (gone dispatcher)
        ++ (when r.has_db_queue (shut db_queue)
            ++ (when r.db_worker_started (gone db_worker)
                ++ (when r.has_request_queue (gone request_queue)
                    ++ (when r.has_response_queue (gone response_queue)
                        ++ (when r.has_db_queue (gone db_queue)
                            ++ (when r.has_http_threads (gone http_threads)
                                ++ gone runtime ∷ [])))))))

unfoldable pub destroy_runtime : Runtime → List Event
unfolding join_workers destroy_rest
destroy_runtime r =
    when r.has_request_queue (shut request_queue)
    ++ (join_workers r.http_worker_count 0 ++ destroy_rest r)

-- What `calloc` gives.
abbrev pub new_runtime : Runtime
new_runtime = record {
  has_db_queue = false;
  has_request_queue = false;
  has_response_queue = false;
  has_http_threads = false;
  http_worker_count = 0;
  is_running = false;
  db_worker_started = false;
  dispatcher_started = false;
}

abbrev pub with_db_queue : Runtime
with_db_queue = record new_runtime { has_db_queue = true }

abbrev pub with_request_queue : Runtime
with_request_queue = record with_db_queue { has_request_queue = true }

abbrev pub with_response_queue : Runtime
with_response_queue = record with_request_queue { has_response_queue = true }

abbrev pub with_http_threads : Runtime
with_http_threads = record with_response_queue { has_http_threads = true }

abbrev pub with_db_worker : Runtime
with_db_worker = record with_http_threads { db_worker_started = true }

abbrev pub with_dispatcher : ℕ → Runtime
with_dispatcher i = record with_db_worker { dispatcher_started = true; http_worker_count = i }

-- `cleanup`, with what was done before.
abbrev pub fail : Runtime → List Event → Option Runtime × List Event
fail r log = (none, log ++ destroy_runtime r)

-- The loop that starts the workers, from the i-th on.
unfoldable pub start_workers : ℕ → ℕ → List Event → List Bool → Option Runtime × List Event
start_workers zero i log answers = (some (record (with_dispatcher i) { is_running = true }), log)
start_workers (suc rounds) i log answers =
    let (started, answers') = malloc answers in
    let rest = start_workers rounds (i + 1) (log ++ made (http_worker i) ∷ []) answers' in
    if started then rest else fail (with_dispatcher i) log

-- Everything before the workers, as it is made.
abbrev pub made_first : List Event
made_first =
    made runtime
    ∷ made db_queue
    ∷ made request_queue
    ∷ made response_queue
    ∷ made http_threads
    ∷ made db_worker
    ∷ made dispatcher
    ∷ []

unfoldable pub create_with : ℕ → List Bool → Option Runtime × List Event
unfolding malloc destroy_runtime start_workers
create_with workers answers =
    let (allocated, a1) = malloc answers in
    let (db, a2) = malloc a1 in
    let (request, a3) = malloc a2 in
    let (response, a4) = malloc a3 in
    let (threads, a5) = malloc a4 in
    let (db_started, a6) = malloc a5 in
    let (dispatcher_started, a7) = malloc a6 in
    if not allocated
    then (none, [])
    else if not db
    then fail new_runtime (made runtime ∷ [])
    else if not request
    then fail with_db_queue (made runtime ∷ made db_queue ∷ [])
    else if not response
    then fail with_request_queue (made runtime ∷ made db_queue ∷ made request_queue ∷ [])
    else if not threads
    then fail with_response_queue
        (made runtime ∷ made db_queue ∷ made request_queue ∷ made response_queue ∷ [])
    else if not db_started
    then fail with_http_threads (
        made runtime
        ∷ made db_queue
        ∷ made request_queue
        ∷ made response_queue
        ∷ made http_threads
        ∷ [])
    else if not dispatcher_started
    then fail with_db_worker (
        made runtime
        ∷ made db_queue
        ∷ made request_queue
        ∷ made response_queue
        ∷ made http_threads
        ∷ made db_worker
        ∷ [])
    else start_workers workers 0 made_first a7

-- NULL is `none`.
unfoldable pub create_runtime : ℤ → List Bool → Option Runtime × List Event
unfolding create_with
create_runtime (pos (suc n)) answers = create_with (suc n) answers
create_runtime _ answers = (none, [])

-- The polls of `wait_for_response`, by what the database has at each; `elapsed` grows by 100 in each round.
unfoldable pub poll : ℕ → ℕ → ℕ → (ℕ → Option Response) → ℕ → Option Response
poll zero elapsed timeout db k = none
poll (suc fuel) elapsed timeout db k =
    let rest = poll fuel (elapsed + 100) timeout db (k + 1) in
    if ltb elapsed timeout then elim (db k) [ some r ↦ some r | none ↦ rest ] else none

-- A timeout that is not positive is no round.
unfoldable pub wait_for_response : (ℕ → Option Response) → ℤ → Option Response
unfolding poll
wait_for_response db (pos timeout) = poll timeout 0 timeout db 0
wait_for_response db (negsuc n) = none
