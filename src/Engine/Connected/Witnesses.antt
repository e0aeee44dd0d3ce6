-- ===== src/Engine/Connected/Witnesses.antt =====
-- `run_plan` of src/core/engine.c with the rest of the program, at a small SQLite.
use text.Mathlib.Text.{◌==◌}
use fman.Prelude.{
  ap, ◌∙◌, String, sym, subst, if_cases, ℕ, ◌≡◌, ◌⊎◌, refl, true, false, [], ◌∷◌, ◌++◌, none, some,
  get_or, arith, if◌then◌else◌, ◌||◌, length, codes,
}
use fman.Prelude.Int.{ℤ, pos, int_eq}
use fman.Database.Connect.{db_init}
use fman.Orchestrator.Dispatch.{dispatch_task}
use fman.Models.Create.{create_collection, create_request}
use fman.RunPlan.{zero_plan, init_run_plan}
use fman.RunPlan.Results.{zero_run_result, zero_case_result}
use fman.Database.{Sqlite, sqlite_row}
use fman.Database.Save.{
  select_collection, select_request, insert_response, db_save_collection, db_save_request,
}
use fman.Database.Load.{select_latest, db_get_latest_response_by_request_id}
use fman.Assertion.{eval_assertion}
use fman.Database.Tables.{
  SqlValue, sql_int, History, Row, row_of, value_of, int_of, latest_of, column_of,
}
use fman.Database.History.Stored.{saved_row}
use fman.Database.Statements.Running.{Counts}
use fman.Database.Witnesses.{
  Store, small_sqlite, step_store, run_sql, last_id, is_at_same, is_at_other, step_insert,
  step_select, empty_store, small_sqlite-Counts,
}
use fman.Engine.{run_plan}
use fman.Engine.Witnesses.{answer, status_plan, status_case}
use fman.Engine.Passes.{HasPassed}
use fman.Engine.Answers.Sent.{IsSent}
use fman.Orchestrator.{Thing, db_worker, create_runtime}
use fman.Orchestrator.Waits.{FirstAt, NoneIn}
use fman.Engine.Connected.{
  Threads, Machine, services, wait, open_db, make_collection, store_collection, start_runtime,
  make_request, store_request, push_request,
}
use fman.Engine.Connected.Closes.{IsOver, run_plan-IsOver}
use fman.Engine.Connected.Closes.Connection.{Quiet}
use fman.Engine.Connected.Polls.{looks, wait_lem}
use fman.Engine.Connected.Answers.{IsLatestSince, run_plan_reads}

-- It finds every collection and every request under the id 1.
abbrev run_found : String → Store → ℤ × Store
run_found sql w =
    if sql == select_collection || sql == select_request
    then (sqlite_row, record w { here = λ i. sql_int (pos 1) })
    else run_sql sql w

abbrev pub finding_sqlite : Sqlite Store Unit
finding_sqlite = record small_sqlite { step = λ st w. run_found w.sql w }

same_insert : (w : Store) → w.sql ≡ insert_response → step_store w ≡ run_found w.sql w
same_insert w e = subst (λ sql. run_sql sql w ≡ run_found sql w) (sym e) refl

same_select : (w : Store) → w.sql ≡ select_latest → step_store w ≡ run_found w.sql w
same_select w e = subst (λ sql. run_sql sql w ≡ run_found sql w) (sym e) refl

pub finding_sqlite-Counts : Counts finding_sqlite (λ w. w.live)
finding_sqlite-Counts = record {
  prepared = λ sql w. refl;
  bound = λ st i b w. refl;
  stepped = λ st w.
      if_cases (λ (out : ℤ × Store). out.1.live ≡ w.live)
        (w.sql == select_collection || w.sql == select_request) (λ _. refl)
        (λ _. small_sqlite-Counts.stepped st w);
  executed = λ sql w. refl;
  finalized = λ st w. refl;
}

finding_sqlite-History : History finding_sqlite
finding_sqlite-History = record {
  rows = λ w. w.table;
  text = λ st w. w.sql;
  values = λ st w. w.bound;
  cells = λ st w. w.here;
  kept_double = λ d. d;
  prepared = λ sql w st e. refl;
  prepare_rows = λ sql w. refl;
  bound = λ st i b w e. is_at_same i (value_of b) w.bound;
  bound_others = λ st i j b w ne. is_at_other i j (value_of b) w.bound ne;
  bind_text_of = λ st i b w. refl;
  bind_rows = λ st i b w. refl;
  inserted = λ st w e typed done.
      subst (λ (out : ℤ × Store). out.1.table ≡ w.table ++ row_of (last_id out.1) w.bound ∷ [])
        (same_insert w e) (step_insert w e);
  selected = λ st w n e key.
      subst
        (λ (out : ℤ × Store).
          out.0 ≡ sqlite_row
          → (r : Row) × (latest_of n w.table ≡ some r) × ((i : ℕ) → out.1.here i ≡ column_of r i))
        (same_select w e)
        (λ row.
          let f = step_select w e row in
          (
            f.row,
            sym (ap (λ (v : SqlValue). latest_of (int_of v) w.table) key) ∙ f.latest,
            f.cells,
          ));
  finalize_rows = λ st w. refl;
  int_is = λ st i w kind. refl;
  double_is = λ st i w kind. refl;
  text_is = λ st i w kind. refl;
  blob_is = λ st i w kind. refl;
  bytes_are = λ st i w kind. refl;
}

-- The other threads save the response to a request while the engine sleeps.
abbrev pub saving_threads : Threads Store
saving_threads = record {
  start = λ w. w;
  push = λ task w. (true, w);
  sleep =
      λ w. record w { table = w.table ++ saved_row (answer (pos 1)) (pos (length w.table)) ∷ [] };
  join = λ w. w;
}

abbrev pub first_machine : Machine Store
first_machine = record { world = empty_store; db = false; runtime = none; log = []; allocs = [] }

pub saving_threads-Quiet : Quiet finding_sqlite saving_threads (λ w. w.live)
saving_threads-Quiet = record {
  opened = λ path w. refl;
  closed = λ w. refl;
  closes = λ w idle. refl;
  started = λ w. refl;
  pushed = λ task w. refl;
  slept = λ w. refl;
  joined = λ w. refl;
}

-- Only the thread of the database worker counts.
abbrev pub only_db_worker : Thing → ℕ
only_db_worker db_worker = 1
only_db_worker _ = 0

run_plan-IsOver_example :
    IsOver
      (λ (w : Store). w.live)
      only_db_worker
      (run_plan
        (services finding_sqlite saving_threads)
        status_plan
        zero_run_result
        first_machine).2
run_plan-IsOver_example =
    run_plan-IsOver finding_sqlite saving_threads (λ w. w.live) finding_sqlite-Counts
      saving_threads-Quiet only_db_worker status_plan zero_run_result first_machine
      (record { idle = refl; no_runtime = refl; no_log = refl })

wait_lem_example :
    FirstAt
      (looks finding_sqlite saving_threads (pos 1) first_machine)
      5000
      (wait finding_sqlite saving_threads (pos 1) (pos 5000) first_machine).0
    ⊎ NoneIn
        (looks finding_sqlite saving_threads (pos 1) first_machine)
        5000
        (wait finding_sqlite saving_threads (pos 1) (pos 5000) first_machine).0
wait_lem_example = wait_lem finding_sqlite saving_threads (pos 1) (pos 5000) first_machine

exits_with_zero :
    (run_plan (services finding_sqlite saving_threads) status_plan zero_run_result first_machine).0
    ≡ pos 0
unfolding run_plan init_run_plan eval_assertion int_eq db_get_latest_response_by_request_id open_db
    db_init make_collection create_collection codes store_collection db_save_collection
    start_runtime create_runtime make_request create_request store_request db_save_request
    push_request dispatch_task wait latest_of
exits_with_zero = refl

run_plan_reads_example :
    let out =
      run_plan (services finding_sqlite saving_threads) status_plan zero_run_result first_machine in
    (id : ℤ) × IsSent (services finding_sqlite saving_threads) first_machine status_case id
    × (passed : HasPassed status_case (get_or out.1.case_results 0 zero_case_result))
    × IsLatestSince finding_sqlite saving_threads finding_sqlite-History first_machine id
        passed.resp
unfolding zero_plan init_run_plan
run_plan_reads_example =
    run_plan_reads finding_sqlite saving_threads finding_sqlite-History status_plan zero_run_result
      first_machine exits_with_zero 0 (omega arith)
