-- ===== src/Database/History/Latest.antt =====
-- `db_get_latest_response_by_request_id` of src/core/db_manager.c: what it returns is made of the latest row.
use fman.Prelude.{
  ◌⊎◌, inl, inr, Bool-cases, ◌&&◌, ◌||◌, ℕ, ◌≡◌, refl, sym, ap, ◌∙◌, Bool, true, false, List, [],
  ◌∷◌, Option, none, some, if◌then◌else◌, subst, arith,
}
use fman.Prelude.Int.{ℤ, int_eq_iff}
use fman.Models.{Response}
use fman.Database.{Sqlite, bind_int, run_stmt, finish_with, sqlite_row}
use fman.Database.Load.{
  map_row_to_response, load_response, results_of, select_latest,
  db_get_latest_response_by_request_id,
}
use fman.Database.Tables.{
  sql_null, sql_int, sql_double, sql_text, sql_blob, is_int, is_double, is_text, is_blob, is_typed,
  is_number, SqlValue, int_of, double_of, text_of, blob_of, bytes_of, Row, latest_of, column_of,
  History,
}
use fman.Database.History.Stored.{either_kind}
use fman.Database.History.Runs.{run_stmt-Ran}
use fman.Database.History.Loaded.{copied, load_response_is}

-- The response that a row is read as; a double is read as `kept` of it.
abbrev pub response_of : (ℕ → ℕ) → Row → Response
response_of kept row = record {
  id = row.id;
  request_id = int_of row.request_id;
  status_code = int_of row.status_code;
  headers = copied (text_of row.headers) (bytes_of row.headers);
  headers_len = 0;
  headers_capacity = 0;
  content_type = copied (text_of row.content_type) (bytes_of row.content_type);
  body = copied (blob_of row.body) (bytes_of row.body);
  body_len = bytes_of row.body;
  body_capacity = 0;
  duration = kept (double_of row.duration);
  result = results_of (int_of row.result);
}

both_true : (a b : Bool) → (a && b) ≡ true → (a ≡ true) × (b ≡ true)
both_true true b e = (refl, e)
both_true false b e = absurd (cc e)

this_number : (id : ℤ) (v : SqlValue) → is_number v id ≡ true → v ≡ sql_int id
this_number id (sql_int n) e = ap sql_int ((int_eq_iff n id).0 e)
this_number id sql_null e = absurd (cc e)
this_number id (sql_double d) e = absurd (cc e)
this_number id (sql_text t) e = absurd (cc e)
this_number id (sql_blob t) e = absurd (cc e)

this_request :
    (id : ℤ) (r row : Row) (b : Bool)
    → is_number r.request_id id ≡ b
    → (if b then some r else none) ≡ some row
    → row.request_id ≡ sql_int id
this_request id r row true same e =
    subst (λ (q : Row). q.request_id ≡ sql_int id) {x = r} {y = row} (cc e)
      (this_number id r.request_id same)
this_request id r row false same e = absurd (cc e)

later_request :
    (id : ℤ) (r row : Row) (later : Option Row)
    → (later ≡ some row → row.request_id ≡ sql_int id)
    → (elim later as (λ _. Option Row) [
      | some q ↦ some q
      | none ↦ if is_number r.request_id id then some r else none
    ])
      ≡ some row
    → row.request_id ≡ sql_int id
later_request id r row none ih e = this_request id r row _ refl e
later_request id r row (some q) ih e = ih e

latest_request :
    (id : ℤ) (rows : List Row) (row : Row)
    → latest_of id rows ≡ some row
    → row.request_id ≡ sql_int id
unfolding latest_of
latest_request id [] row e = absurd (cc e)
latest_request id (r ∷ rows) row e =
    later_request id r row (latest_of id rows) (latest_request id rows row) e

kinds :
    (row : Row)
    → is_typed row ≡ true
    → (is_int row.request_id ≡ true)
      × (is_int row.status_code ≡ true)
      × (is_int row.result ≡ true)
      × (is_double row.duration ≡ true)
      × (is_text row.headers ≡ true)
      × (is_text row.content_type ≡ true)
      × (is_blob row.body ≡ true)
kinds row e =
    let (a7, _) = both_true _ _ e in
    let (a6, body) = both_true _ _ a7 in
    let (a5, type) = both_true _ _ a6 in
    let (a4, headers) = both_true _ _ a5 in
    let (a3, duration) = both_true _ _ a4 in
    let (a2, result) = both_true _ _ a3 in
    let (request_id, status) = both_true _ _ a2 in
    (request_id, status, result, duration, headers, type, body)

module _ {World Stmt : Type 0} (s : Sqlite World Stmt) (h : History s) where
  -- The response is read from the latest row of the request: it has the ids of the row and of the request, and the other
  -- fields as well, if each value of the row is of its column's kind.
  pub record IsLatest (id : ℤ) (w : World) (resp : Response) : Type 0 where
    pub row : Row
    pub found : latest_of id (h.rows w) ≡ some row
    pub id_is : resp.id ≡ row.id
    pub request_is : resp.request_id ≡ id
    pub is : (resp ≡ response_of h.kept_double row) ⊎ (is_typed row ≡ false)

  mapped_row :
      (st : Stmt) (at : World) (row : Row) (allocs : List Bool) (resp : Response)
      → ((i : ℕ) → h.cells st at i ≡ column_of row i)
      → is_typed row ≡ true
      → (map_row_to_response s st at allocs).0 ≡ some resp
      → resp ≡ response_of h.kept_double row
  unfolding map_row_to_response
  mapped_row st at row allocs resp cell typed e =
      let ints = λ (i : ℕ) (p : is_int (column_of row i) ≡ true).
        h.int_is st i at (ap is_int (cell i) ∙ p) ∙ ap int_of (cell i) in
      let sizes = λ (i : ℕ) (p : (is_text (column_of row i) || is_blob (column_of row i)) ≡ true).
        h.bytes_are st i at (ap (λ (v : SqlValue). is_text v || is_blob v) (cell i) ∙ p)
        ∙ ap bytes_of (cell i) in
      let texts = λ (i : ℕ) (p : is_text (column_of row i) ≡ true).
        h.text_is st i at (ap is_text (cell i) ∙ p) ∙ ap text_of (cell i) in
      let (request_id, status, result, duration, headers, type, body) = kinds row typed in
      let blob = h.blob_is st 5 at (ap is_blob (cell 5) ∙ body) ∙ ap blob_of (cell 5) in
      let seconds =
        h.double_is st 7 at (ap is_double (cell 7) ∙ duration)
        ∙ ap (λ (v : SqlValue). h.kept_double (double_of v)) (cell 7) in
      load_response_is _ _ _ _ _ _ _ _ _ _ _ allocs resp (
        sym (λ i.
          (load_response (ints 0 refl i) (ints 1 request_id i) (ints 2 status i) (ints 8 result i)
            (seconds i) (texts 3 headers i) (sizes 3 (either_kind _ _ (inl headers)) i)
            (texts 4 type i) (sizes 4 (either_kind _ _ (inl type)) i) (blob i)
            (sizes 5 (either_kind _ _ (inr body)) i) allocs).0)
        ∙ e)

  -- The two ids are read of any row.
  mapped_ids :
      (st : Stmt) (at : World) (row : Row) (allocs : List Bool) (resp : Response) (id : ℤ)
      → ((i : ℕ) → h.cells st at i ≡ column_of row i)
      → row.request_id ≡ sql_int id
      → (map_row_to_response s st at allocs).0 ≡ some resp
      → (resp.id ≡ row.id) × (resp.request_id ≡ id)
  unfolding map_row_to_response
  mapped_ids st at row allocs resp id cell key e =
      let same =
        load_response_is (s.column_int st 0 at) (s.column_int st 1 at) (s.column_int st 2 at)
          (s.column_int st 8 at) (s.column_double st 7 at) (s.column_text st 3 at)
          (s.column_bytes st 3 at) (s.column_text st 4 at) (s.column_bytes st 4 at)
          (s.column_blob st 5 at) (s.column_bytes st 5 at) allocs resp e in
      let request = cell 1 ∙ key in
      (
        ap (λ (r : Response). r.id) same
            ∙ h.int_is st 0 at (ap is_int (cell 0))
            ∙ ap int_of (cell 0),
        ap (λ (r : Response). r.request_id) same
            ∙ h.int_is st 1 at (ap is_int request)
            ∙ ap int_of request,
      )

  finished_some :
      (id : ℤ) (allocs : List Bool) (w : World) (resp : Response) (out : Option Stmt × World)
      → out ≡ run_stmt s select_latest (bind_int id ∷ []) sqlite_row w
      → (finish_with s none (λ st w'. (map_row_to_response s st w' allocs).0) out).0 ≡ some resp
      → IsLatest id w resp
  unfolding finish_with
  finished_some id allocs w resp (none, after) is e = absurd (cc e)
  finished_some id allocs w resp (some st, after) is e =
      let ran =
        run_stmt-Ran s h select_latest (bind_int id ∷ []) sqlite_row w st
          (sym (ap (λ (out : Option Stmt × World). out.0) is)) in
      let (row, found, cells) =
        h.selected st ran.at id ran.text_is (ran.values_are 0 (omega arith)) ran.stepped in
      let latest : latest_of id (h.rows w) ≡ some row =
        sym (λ i. latest_of id (ran.rows_are i)) ∙ found in
      let at_row : after ≡ (s.step st ran.at).1 =
        ap (λ (out : Option Stmt × World). out.1) is ∙ ran.after_is in
      let made = ap (λ (x : World). (map_row_to_response s st x allocs).0) (sym at_row) ∙ e in
      let (id_is, request_is) =
        mapped_ids st (s.step st ran.at).1 row allocs resp id cells
          (latest_request id (h.rows w) row latest) made in
      record {
        row = row;
        found = latest;
        id_is = id_is;
        request_is = request_is;
        is = elim (Bool-cases (is_typed row)) [
          | inl typed ↦ inl (mapped_row st (s.step st ran.at).1 row allocs resp cells typed made)
          | inr other ↦ inr other
        ];
      }

  pub db_get_latest_response_by_request_id-IsLatest :
      (db : Bool) (id : ℤ) (allocs : List Bool) (w : World) (resp : Response)
      → (db_get_latest_response_by_request_id s db id allocs w).0 ≡ some resp
      → IsLatest id w resp
  unfolding db_get_latest_response_by_request_id
  db_get_latest_response_by_request_id-IsLatest false id allocs w resp e = absurd (cc e)
  db_get_latest_response_by_request_id-IsLatest true id allocs w resp e =
      finished_some id allocs w resp _ refl e
