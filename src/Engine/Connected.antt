-- ===== src/Engine/Connected.antt =====
-- The services of `run_plan` of src/core/engine.c by the models of src/core/db_manager.c, src/core/models.c and
-- src/core/orchestrator.c. A parameter is what the other threads do.
pub mod Closes
pub mod Polls
pub mod Answers
pub mod Witnesses
use fman.Prelude.{
  ℕ, zero, suc, ◌+◌, Bool, true, not, List, [], ◌∷◌, ◌++◌, Option, none, some, is_some, get_or, ltb,
  if◌then◌else◌, Text,
}
use fman.Prelude.Int.{ℤ, pos, negsuc, int_eq}
use fman.Models.{Request, Response, Collection, WorkerTask}
use fman.Models.Create.{create_http_worker_task}
use fman.RunPlan.{RequestCase}
use fman.Database.{Sqlite, sqlite_error}
use fman.Database.Load.{db_get_latest_response_by_request_id}
use fman.Database.Connect
use fman.Database.Save
use fman.Models.Create
use fman.Orchestrator
use fman.Orchestrator.{Runtime, Event, destroy_runtime}
use fman.Orchestrator.Dispatch.{worker, dispatch_task}
use fman.Engine.{Services}

-- What the other threads do to the world when they are started, when a task is pushed to the queue of requests (which
-- answers with whether it takes it), while the engine sleeps, and until they are joined.
pub record Threads (World : Type 0) : Type 0 where
  pub start : World → World
  pub push : WorkerTask → World → Bool × World
  pub sleep : World → World
  pub join : World → World

-- The world, whether `db` is not NULL, the runtime, what was done to the things that it owns, and the answers of the
-- allocations in each of the calls to come.
pub record Machine (World : Type 0) : Type 0 where
  pub world : World
  pub db : Bool
  pub runtime : Option Runtime
  pub log : List Event
  pub allocs : List (List Bool)

-- The answers for this call. Behind the list, memory is there.
abbrev pub answers_now : List (List Bool) → List Bool
answers_now [] = []
answers_now (now ∷ later) = now

abbrev pub answers_later : List (List Bool) → List (List Bool)
answers_later [] = []
answers_later (now ∷ later) = later

-- What a `save` returns, by the record with the id.
abbrev pub saved_as : {A : Type 0} → A → Option A → A
saved_as old none = old
saved_as old (some new) = new

module _ {World Stmt : Type 0} (s : Sqlite World Stmt) (t : Threads World) where
  unfoldable pub open_db : Text → Machine World → Bool × Machine World
  open_db path m =
      let (rc, db, w) = Connect.db_init s path m.world in
      (not (int_eq rc sqlite_error), record m { db = db; world = w })

  unfoldable pub make_collection : Text → Machine World → Option Collection × Machine World
  make_collection name m = (
    (Create.create_collection (some name) (answers_now m.allocs)).returned,
    record m { allocs = answers_later m.allocs },
  )

  unfoldable pub store_collection : Collection → Machine World → Bool × Collection × Machine World
  store_collection coll m =
      let ((rc, coll'), w) = Save.db_save_collection s (some coll) m.world in
      (not (int_eq rc sqlite_error), saved_as coll coll', record m { world = w })

  unfoldable pub start_runtime : ℕ → Machine World → Bool × Machine World
  start_runtime workers m =
      let (runtime, log) = Orchestrator.create_runtime (pos workers) (answers_now m.allocs) in
      (
        is_some runtime,
        record m {
          world = t.start m.world;
          runtime = runtime;
          log = m.log ++ log;
          allocs = answers_later m.allocs;
        },
      )

  unfoldable pub make_request : RequestCase → ℤ → Machine World → Option Request × Machine World
  make_request c collection_id m = (
    (Create.create_request c.method collection_id c.url c.headers c.body c.body_len
        (answers_now m.allocs)).returned,
    record m { allocs = answers_later m.allocs },
  )

  unfoldable pub store_request : Request → Machine World → Bool × Request × Machine World
  store_request req m =
      let ((rc, req'), w) = Save.db_save_request s (some req) m.world in
      (not (int_eq rc sqlite_error), saved_as req req', record m { world = w })

  unfoldable pub push_request : Request → Machine World → Bool × Machine World
  push_request req m =
      let (takes, w) = t.push (create_http_worker_task (some req)) m.world in
      (dispatch_task (is_some m.runtime) true worker (λ _. takes), record m { world = w })

  -- One look at the database.
  unfoldable pub look : ℤ → Machine World → Option Response × Machine World
  look id m =
      let (resp, w) =
        db_get_latest_response_by_request_id s m.db id (answers_now m.allocs) m.world in
      (resp, record m { world = w; allocs = answers_later m.allocs })

  unfoldable pub sleep : Machine World → Machine World
  sleep m = record m { world = t.sleep m.world }

  -- The loop of `wait_for_response`; `elapsed` grows by 100 in each round.
  unfoldable pub poll_db : ℕ → ℕ → ℕ → ℤ → Machine World → Option Response × Machine World
  unfolding look sleep
  poll_db zero elapsed timeout id m = (none, m)
  poll_db (suc fuel) elapsed timeout id m =
      let (resp, m1) = look id m in
      let rest = poll_db fuel (elapsed + 100) timeout id (sleep m1) in
      if ltb elapsed timeout then elim resp [ none ↦ rest | some r ↦ (some r, m1) ] else (none, m)

  unfoldable pub wait : ℤ → ℤ → Machine World → Option Response × Machine World
  unfolding poll_db
  wait id (pos timeout) m = poll_db timeout 0 timeout id m
  wait id (negsuc n) m = (none, m)

  -- Behind `destroy_runtime`.
  unfoldable pub close_db : Machine World → Machine World
  close_db m = let (rc, db, w) = Connect.db_close s m.db m.world in record m { db = db; world = w }

  unfoldable pub end_runtime : Option Runtime → Machine World → Machine World
  end_runtime none m = m
  end_runtime (some r) m = record m {
    world = t.join m.world;
    runtime = none;
    log = m.log ++ destroy_runtime r;
  }

  unfoldable pub clean_machine : Machine World → Machine World
  unfolding close_db end_runtime
  clean_machine m = close_db (end_runtime m.runtime m)

  abbrev pub services : Services (Machine World)
  services = record {
    db_init = open_db;
    create_collection = make_collection;
    db_save_collection = store_collection;
    create_runtime = start_runtime;
    create_request = make_request;
    db_save_request = store_request;
    dispatch_task = push_request;
    wait_for_response = wait;
    clean_up = clean_machine;
  }
