-- ===== src/Database/Witnesses.antt =====
-- The theorems on src/core/db_manager.c at a small SQLite that keeps the rows of one table.
use text.Mathlib.Text.{◌==◌}
use fman.Prelude.{
  ap, ◌∙◌, strlen, ℕ, suc, ◌+◌, ◌-◌, ◌≡◌, ◌≢◌, ◌⊎◌, refl, sym, ap, subst, Bool, true, false, List,
  [], ◌∷◌, ◌++◌, Option, none, some, length-append, if◌then◌else◌, length, String, arith, codes,
}
use fman.Prelude.{◌==◌ as same}
use fman.Prelude.Int.{ℤ, pos, int_eq}
use fman.Models.{Request, Response, Collection, get, response_curl_error}
use fman.Database.{run_stmt, Sqlite, sqlite_ok, sqlite_row, sqlite_done}
use fman.Database.Save.{
  insert_response, db_save_response, db_save_request, db_save_collection, db_update_request_status,
}
use fman.Database.Load.{
  select_latest, db_get_latest_response_by_request_id, db_get_next_pending_request,
  db_count_responses_by_request_id, db_count_all_responses,
}
use fman.Database.Statements.Running.{Counts}
use fman.Database.Statements.{statements_closed}
use fman.Database.Tables.{
  SqlValue, sql_null, value_of, int_of, double_of, text_of, blob_of, bytes_of, Row, row_of,
  latest_of, column_of, History,
}
use fman.Database.Transaction.{Transactions, Uncommitted, next_pending_ends}
use fman.Database.History.{save_then_latest}
use fman.Database.History.Stored.{stored}

pub record Store : Type 0 where
  pub table : List Row
  pub sql : String
  pub bound : ℕ → SqlValue
  pub here : ℕ → SqlValue
  pub live : ℕ
  pub in_tx : Bool

abbrev pub is_at : ℕ → SqlValue → (ℕ → SqlValue) → ℕ → SqlValue
is_at i v f j = if same j i then v else f j

abbrev found : Store → Option Row → ℤ × Store
found w none = (sqlite_done, w)
found w (some r) = (sqlite_row, record w { here = column_of r })

abbrev next_id : Store → ℤ
next_id w = pos (suc (length w.table))

abbrev pub run_sql : String → Store → ℤ × Store
run_sql sql w =
    if sql == insert_response
    then (sqlite_done, record w { table = w.table ++ row_of (pos (length w.table)) w.bound ∷ [] })
    else if sql == select_latest
    then found w (latest_of (int_of (w.bound 1)) w.table)
    else (sqlite_done, w)

abbrev pub step_store : Store → ℤ × Store
step_store w = run_sql w.sql w

abbrev pub last_id : Store → ℤ
last_id w = pos (length w.table - 1)

abbrev pub small_sqlite : Sqlite Store Unit
small_sqlite = record {
  open_v2 = λ path w. (sqlite_ok, true, w);
  exec = λ sql w. (sqlite_ok, record w { in_tx = sql == "BEGIN IMMEDIATE;" });
  prepare_v2 = λ sql w. (some tt, record w { sql = sql; live = w.live + 1 });
  bind = λ st i b w. (true, record w { bound = is_at i (value_of b) w.bound });
  step = λ st w. step_store w;
  column_int = λ st i w. int_of (w.here i);
  column_int64 = λ st i w. 0;
  column_bytes = λ st i w. bytes_of (w.here i);
  column_double = λ st i w. double_of (w.here i);
  column_text = λ st i w. text_of (w.here i);
  column_blob = λ st i w. blob_of (w.here i);
  last_insert_rowid = last_id;
  finalize = λ st w. record w { live = w.live - 1 };
  close_v2 = λ w. (true, w);
}

found-live : (w : Store) (o : Option Row) → (found w o).1.live ≡ w.live
found-live w none = refl
found-live w (some r) = refl

pub small_sqlite-Counts : Counts small_sqlite (λ w. w.live)
small_sqlite-Counts = record {
  prepared = λ sql w. refl;
  bound = λ st i b w. refl;
  stepped = λ st w. ground (arith, found-live w (latest_of (int_of (w.bound 1)) w.table));
  executed = λ sql w. refl;
  finalized = λ st w. refl;
}

pub step_insert :
    (w : Store)
    → w.sql ≡ insert_response
    → (step_store w).1.table ≡ w.table ++ row_of (last_id (step_store w).1) w.bound ∷ []
step_insert w e =
    subst
      (λ sql. (run_sql sql w).1.table ≡ w.table ++ row_of (last_id (run_sql sql w).1) w.bound ∷ [])
      (sym e)
      (ap (λ (n : ℕ). w.table ++ row_of (pos n) w.bound ∷ [])
        (omega (arith, length-append w.table (row_of (pos (length w.table)) w.bound ∷ []))))

pub record Found (w w' : Store) : Type 0 where
  pub row : Row
  pub latest : latest_of (int_of (w.bound 1)) w.table ≡ some row
  pub cells : (i : ℕ) → w'.here i ≡ column_of row i

number : ℤ → ℕ
number (pos n) = n
number _ = 0

found_row :
    (w : Store) (o : Option Row)
    → latest_of (int_of (w.bound 1)) w.table ≡ o
    → (found w o).0 ≡ sqlite_row
    → Found w (found w o).1
unfolding number
found_row w none same_row e = absurd (omega (arith, ap number e))
found_row w (some r) same_row e = record { row = r; latest = same_row; cells = λ i. refl }

pub step_select :
    (w : Store) → w.sql ≡ select_latest → (step_store w).0 ≡ sqlite_row → Found w (step_store w).1
step_select w e =
    subst (λ sql. (run_sql sql w).0 ≡ sqlite_row → Found w (run_sql sql w).1) (sym e)
      (found_row w (latest_of (int_of (w.bound 1)) w.table) refl)

pub is_at_same : (i : ℕ) (v : SqlValue) (f : ℕ → SqlValue) → is_at i v f i ≡ v
is_at_same i v f = ground arith

pub is_at_other : (i j : ℕ) (v : SqlValue) (f : ℕ → SqlValue) → i ≢ j → is_at i v f j ≡ f j
is_at_other i j v f ne = ground (arith, ne)

small_sqlite-Transactions : Transactions small_sqlite (λ w. w.in_tx)
small_sqlite-Transactions = record {
  not_begun = λ w outside bad. absurd (bad refl);
  rolled_back = λ w. refl;
  committed = λ w good. refl;
  finalized = λ st w outside. outside;
}

pub small_sqlite-History : History small_sqlite
small_sqlite-History = record {
  rows = λ w. w.table;
  text = λ st w. w.sql;
  values = λ st w. w.bound;
  cells = λ st w. w.here;
  kept_double = λ d. d;
  prepared = λ sql w st e. refl;
  prepare_rows = λ sql w. refl;
  bound = λ st i b w e. is_at_same i (value_of b) w.bound;
  bound_others = λ st i j b w ne. is_at_other i j (value_of b) w.bound ne;
  bind_text_of = λ st i b w. refl;
  bind_rows = λ st i b w. refl;
  inserted = λ st w e typed done. step_insert w e;
  selected = λ st w n e key row.
      let f = step_select w e row in
      (f.row, sym (ap (λ (v : SqlValue). latest_of (int_of v) w.table) key) ∙ f.latest, f.cells);
  finalize_rows = λ st w. refl;
  int_is = λ st i w kind. refl;
  double_is = λ st i w kind. refl;
  text_is = λ st i w kind. refl;
  blob_is = λ st i w kind. refl;
  bytes_are = λ st i w kind. refl;
}

abbrev pub empty_store : Store
empty_store = record {
  table = [];
  sql = "";
  bound = λ i. sql_null;
  here = λ i. sql_null;
  live = 0;
  in_tx = false;
}

abbrev answer : Response
answer = record {
  id = pos 0;
  request_id = pos 7;
  status_code = pos 404;
  headers = some (codes "A: b" ++ 0 ∷ 65 ∷ []);
  headers_len = 4;
  headers_capacity = 6;
  content_type = none;
  body = some (codes "hello");
  body_len = 5;
  body_capacity = 5;
  duration = 3;
  result = response_curl_error;
}

abbrev demo_request : Request
demo_request = record {
  id = pos 0;
  collection_id = pos 1;
  method = get;
  url = some (codes "http://a");
  url_len = 8;
  headers = none;
  headers_len = 0;
  body = none;
  body_len = 0;
  status = pos 0;
}

abbrev demo_collection : Collection
demo_collection = record { id = pos 0; name = some (codes "c"); name_len = 1 }

abbrev two_stored : Store
two_stored =
    (db_save_response small_sqlite (some answer)
      (db_save_response small_sqlite (some answer) empty_store).1).1

save_then_latest_example :
    let latest = λ (answers : List Bool).
      (db_get_latest_response_by_request_id small_sqlite true
        (pos 7)
        answers
        (db_save_response small_sqlite (some answer) two_stored).1).0 in
    (id : ℤ) × ((db_save_response small_sqlite (some answer) two_stored).0.1
      ≡ some (record answer { id = id }))
    × (latest [] ≡ some (stored answer id))
    × ((latest (true ∷ false ∷ []) ≡ none) ⊎ (latest (true ∷ false ∷ []) ≡ some (stored answer id)))
unfolding db_save_response latest_of int_eq run_stmt strlen codes small_sqlite-History
save_then_latest_example =
    save_then_latest small_sqlite small_sqlite-History answer (true ∷ false ∷ []) two_stored tt refl
      refl refl

statements_closed_example :
    let kept = λ (w : Store). w.live ≡ 0 in
    kept (db_save_collection small_sqlite (some demo_collection) empty_store).1
    × kept (db_save_request small_sqlite (some demo_request) empty_store).1
    × kept (db_save_response small_sqlite (some answer) empty_store).1
    × kept (db_update_request_status small_sqlite (pos 1) (pos 2) empty_store).1
    × kept (db_get_next_pending_request small_sqlite [] empty_store).1
    × kept (db_get_latest_response_by_request_id small_sqlite true (pos 1) [] empty_store).1
    × kept (db_count_responses_by_request_id small_sqlite true (pos 1) empty_store).1
    × kept (db_count_all_responses small_sqlite true empty_store).1
statements_closed_example =
    statements_closed small_sqlite (λ w. w.live) small_sqlite-Counts (some demo_collection)
      (some demo_request) (some answer) true (pos 1) (pos 2) [] empty_store

next_pending_ends_example :
    ((db_get_next_pending_request small_sqlite [] empty_store).1.in_tx ≡ false)
    ⊎ Uncommitted small_sqlite
        (λ w. w.in_tx)
        small_sqlite-Transactions
        (db_get_next_pending_request small_sqlite [] empty_store)
next_pending_ends_example =
    next_pending_ends small_sqlite (λ w. w.in_tx) small_sqlite-Transactions [] empty_store refl
