-- ===== src/Engine/Connected/Closes.antt =====
-- `run_plan` of src/core/engine.c with src/core/db_manager.c and src/core/orchestrator.c: what is left behind it.
pub mod Connection
use fman.Prelude.{
  ℕ, zero, suc, ◌+◌, ◌≡◌, refl, sym, ◌∙◌, subst, Bool, true, false, List, [], ◌∷◌, Option, none,
  some, if_cases, ltb, Text, String,
}
use fman.Prelude.Int.{ℤ, pos, negsuc, int_eq}
use fman.Models.{Response, WorkerTask}
use fman.RunPlan.{RunPlan}
use fman.RunPlan.Results.{RunResult}
use fman.Database.{Sqlite, sqlite_ok}
use fman.Database.Connect.{
  create_collections, create_requests, create_responses, create_tables, db_init, db_close,
}
use fman.Database.Statements.{save_collection-live, save_request-live, latest-live}
use fman.Database.Statements.Running.{Counts}
use fman.Orchestrator.{Thing, Runtime}
use fman.Orchestrator.Closes.{all_made, all_gone, whole_life, create_runtime_closes}
use fman.Orchestrator.Waits.{orderly, create_runtime_orderly}
use fman.Engine.{run_plan}
use fman.Engine.Keeps.{Keeps, Cleaned, run_plan-Cleaned}
use fman.Engine.Connected.{
  Threads, Machine, open_db, make_collection, store_collection, start_runtime, make_request,
  store_request, push_request, look, sleep, poll_db, wait, close_db, end_runtime, clean_machine,
  services,
}
use Connection.{Quiet, db_init-live, db_close-live, db_close-closed}

-- `db` is NULL, no statement is open, the runtime is gone with everything that was made for it, and no
-- thread was joined before the queue that it waits on was shut down.
pub record IsOver {World : Type 0} (live : World → ℕ) (weigh : Thing → ℕ) (m : Machine World)
    : Type 0 where
  pub db_closed : m.db ≡ false
  pub idle : live m.world ≡ 0
  pub no_runtime : m.runtime ≡ none
  pub even : all_made weigh m.log ≡ all_gone weigh m.log
  pub in_order : orderly false false false m.log ≡ true

-- Before there is a runtime.
pub record IsFresh {World : Type 0} (live : World → ℕ) (m : Machine World) : Type 0 where
  pub idle : live m.world ≡ 0
  pub no_runtime : m.runtime ≡ none
  pub no_log : m.log ≡ []

-- With the runtime, if there is one, the things are even.
record IsEven {World : Type 0} (live : World → ℕ) (weigh : Thing → ℕ) (m : Machine World)
    : Type 0 where
  idle : live m.world ≡ 0
  even :
      all_made weigh (whole_life (m.runtime, m.log))
      ≡ all_gone weigh (whole_life (m.runtime, m.log))
  in_order : orderly false false false (whole_life (m.runtime, m.log)) ≡ true

module _ {World Stmt : Type 0} (s : Sqlite World Stmt) (t : Threads World) (live : World → ℕ)
    (law : Counts s live) (quiet : Quiet s t live) where
  -- A step that changes the world and the allocations only.
  abbrev moved : Machine World → World → List (List Bool) → Machine World
  moved m w allocs = record m { world = w; allocs = allocs }

  moved-IsEven :
      (weigh : Thing → ℕ) (m : Machine World) (w : World) (allocs : List (List Bool))
      → live w ≡ live m.world
      → IsEven live weigh m
      → IsEven live weigh (moved m w allocs)
  moved-IsEven weigh m w allocs e even = record {
    idle = e ∙ even.idle;
    even = even.even;
    in_order = even.in_order;
  }

  moved-IsFresh :
      (m : Machine World) (w : World) (db : Bool) (allocs : List (List Bool))
      → live w ≡ live m.world
      → IsFresh live m
      → IsFresh live (record m { world = w; db = db; allocs = allocs })
  moved-IsFresh m w db allocs e fresh = record {
    idle = e ∙ fresh.idle;
    no_runtime = fresh.no_runtime;
    no_log = fresh.no_log;
  }

  IsFresh-IsEven : (weigh : Thing → ℕ) (m : Machine World) → IsFresh live m → IsEven live weigh m
  unfolding all_made all_gone whole_life orderly
  IsFresh-IsEven weigh m fresh = record {
    idle = fresh.idle;
    even = rw (fresh.no_runtime, fresh.no_log) refl;
    in_order = rw (fresh.no_runtime, fresh.no_log) refl;
  }

  start_runtime-IsEven :
      (weigh : Thing → ℕ) (workers : ℕ) (m : Machine World)
      → IsFresh live m
      → IsEven live weigh (start_runtime s t workers m).1
  unfolding start_runtime
  start_runtime-IsEven weigh workers m fresh = record {
    idle = quiet.started m.world ∙ fresh.idle;
    even = rw fresh.no_log (create_runtime_closes weigh (pos workers) _);
    in_order = rw fresh.no_log (create_runtime_orderly (pos workers) _);
  }

  look-live : (id : ℤ) (m : Machine World) → live (look s t id m).1.world ≡ live m.world
  unfolding look
  look-live id m = latest-live s live law m.db id _ m.world

  poll_db-IsEven :
      (weigh : Thing → ℕ) (fuel elapsed timeout : ℕ) (id : ℤ) (m : Machine World)
      → IsEven live weigh m
      → IsEven live weigh (poll_db s t fuel elapsed timeout id m).1
  unfolding poll_db look sleep
  poll_db-IsEven weigh zero elapsed timeout id m even = even
  poll_db-IsEven weigh (suc fuel) elapsed timeout id m even =
      let (resp, m1) = look s t id m in
      let even1 : IsEven live weigh m1 = moved-IsEven weigh m _ _ (look-live id m) even in
      let rest =
        poll_db-IsEven weigh fuel (elapsed + 100) timeout id (sleep s t m1)
          (moved-IsEven weigh m1 _ _ (quiet.slept m1.world) even1) in
      if_cases (λ (out : Option Response × Machine World). IsEven live weigh out.1)
        (ltb elapsed timeout)
        (λ _.
          elim resp
            as (λ resp.
              IsEven live weigh
                (elim resp as (λ _. Option Response × Machine World) [
                  | none ↦ poll_db s t fuel (elapsed + 100) timeout id (sleep s t m1)
                  | some r ↦ (some r, m1)
                ]).1) [ none ↦ rest | some r ↦ even1 ])
        (λ _. even)

  wait-IsEven :
      (weigh : Thing → ℕ) (id timeout : ℤ) (m : Machine World)
      → IsEven live weigh m
      → IsEven live weigh (wait s t id timeout m).1
  unfolding wait
  wait-IsEven weigh id (pos n) m even = poll_db-IsEven weigh n 0 n id m even
  wait-IsEven weigh id (negsuc n) m even = even

  services-Keeps : (weigh : Thing → ℕ) → Keeps (services s t) (IsFresh live) (IsEven live weigh)
  unfolding open_db make_collection store_collection make_request store_request push_request
  services-Keeps weigh = record {
    weaker = IsFresh-IsEven weigh;
    db_init = λ path m. moved-IsFresh m _ _ _ (db_init-live s t live law quiet path m.world);
    create_collection = λ name m. moved-IsFresh m _ _ _ refl;
    db_save_collection =
        λ coll m. moved-IsFresh m _ _ _ (save_collection-live s live law (some coll) m.world);
    create_runtime = start_runtime-IsEven weigh;
    create_request = λ c id m. moved-IsEven weigh m _ _ refl;
    db_save_request =
        λ req m. moved-IsEven weigh m _ _ (save_request-live s live law (some req) m.world);
    dispatch_task = λ req m. moved-IsEven weigh m _ _ (quiet.pushed _ m.world);
    wait_for_response = wait-IsEven weigh;
  }

  close_db-IsOver :
      (weigh : Thing → ℕ) (m : Machine World)
      → live m.world ≡ 0
      → m.runtime ≡ none
      → all_made weigh m.log ≡ all_gone weigh m.log
      → orderly false false false m.log ≡ true
      → IsOver live weigh (close_db s t m)
  unfolding close_db
  close_db-IsOver weigh m idle gone even in_order = record {
    db_closed = db_close-closed s t live law quiet m.db m.world idle;
    idle = db_close-live s t live law quiet m.db m.world ∙ idle;
    no_runtime = gone;
    even = even;
    in_order = in_order;
  }

  end_runtime-IsOver :
      (weigh : Thing → ℕ) (r : Option Runtime) (m : Machine World)
      → m.runtime ≡ r
      → live m.world ≡ 0
      → all_made weigh (whole_life (r, m.log)) ≡ all_gone weigh (whole_life (r, m.log))
      → orderly false false false (whole_life (r, m.log)) ≡ true
      → IsOver live weigh (close_db s t (end_runtime s t r m))
  unfolding end_runtime whole_life
  end_runtime-IsOver weigh none m e idle = close_db-IsOver weigh m idle e
  end_runtime-IsOver weigh (some r) m e idle =
      close_db-IsOver weigh (end_runtime s t (some r) m) (quiet.joined m.world ∙ idle) refl

  clean_machine-IsOver :
      (weigh : Thing → ℕ) (m : Machine World)
      → IsEven live weigh m
      → IsOver live weigh (clean_machine s t m)
  unfolding clean_machine
  clean_machine-IsOver weigh m even =
      end_runtime-IsOver weigh m.runtime m refl even.idle even.even even.in_order

  -- However a run over the connected services ends, `db` is NULL, no statement is open, there is no runtime, each
  -- thing that was made for a runtime is gone as often as it was made, and no thread was joined before the queue that
  -- it waits on was shut down. This holds for a run that starts without a runtime and without open statements, if
  -- SQLite counts its statements as `Counts` says, and it and the threads are `Quiet`.
  pub run_plan-IsOver :
      (weigh : Thing → ℕ) (plan : RunPlan) (result : RunResult) (m : Machine World)
      → IsFresh live m
      → IsOver live weigh (run_plan (services s t) plan result m).2
  unfolding Cleaned
  run_plan-IsOver weigh plan result m fresh =
      let (m', even, same) =
        run_plan-Cleaned (services s t) (IsFresh live) (IsEven live weigh) (services-Keeps weigh)
          plan result m fresh in
      subst (IsOver live weigh) (sym same) (clean_machine-IsOver weigh m' even)
