-- ===== src/Database/History.antt =====
-- src/core/db_manager.c: a response that is saved is the latest one of its request.
pub mod Runs
pub mod Loaded
pub mod Stored
pub mod Latest
use fman.Prelude.{
  ◌⊎◌, strlen, ℕ, zero, suc, ◌+◌, ◌≡◌, refl, sym, ap, ◌∙◌, Bool, true, false, not, ◌&&◌, ◌||◌, List,
  [], ◌∷◌, ◌++◌, Option, none, some, is_some, if◌then◌else◌, take, length, Text, arith, subst,
  Bool-cases, Option-cases, inl, inr, ltb, append-nil, take_all,
}
use fman.Prelude.Int.{ℤ, pos, int_eq, int_eq_iff}
use fman.Models.{
  Response, ResponseResults, response_ok, response_curl_error, response_internal_error,
  response_cancelled,
}
use fman.Database.{
  Sqlite, Binding, bind_int, bind_blob, bind_null, run_stmt, finish_with, sqlite_ok, sqlite_error,
  sqlite_row, sqlite_done,
}
use fman.Database.Save.{
  insert_response, response_bindings, text_binding, has_body, results_code, db_save_response,
}
use fman.Database.Load.{
  map_row_to_response, load_response, results_of, select_latest,
  db_get_latest_response_by_request_id,
}
use fman.Database.Tables.{
  SqlValue, sql_null, sql_int, sql_double, sql_text, sql_blob, value_of, int_of, double_of, text_of,
  blob_of, bytes_of, Row, row_of, latest_of, column_of, History, is_int, is_double, is_text,
  is_blob, is_typed,
}
use Runs.{Ran, run_stmt-Ran}
use Loaded.{copied, load_response_is}
use Stored.{
  either_kind, text_is_text, blob_is_blob, saved_row_typed, stored, kept_text, kept_body, kept_len,
  saved_row, load_stored, load_stored_full, load_stored_cases,
}

latest_of_append :
    (n : ℤ) (rows : List Row) (r : Row)
    → r.request_id ≡ sql_int n
    → latest_of n (rows ++ r ∷ []) ≡ some r
unfolding latest_of
latest_of_append n [] r e = rw (e, (int_eq_iff n n).1 refl) refl
latest_of_append n (q ∷ rows) r e = rw (latest_of_append n rows r e) refl

module _ {World Stmt : Type 0} (s : Sqlite World Stmt) (h : History s) where
  -- Behind the step of the select, a response is made of the row that it stands at.
  mapped :
      (st : Stmt) (at : World) (r : Row) (allocs : List Bool) (resp : Response) (id : ℤ)
      → ((i : ℕ) → h.cells st at i ≡ column_of r i)
      → r ≡ saved_row resp id
      → h.kept_double resp.duration ≡ resp.duration
      → map_row_to_response s st at allocs ≡ load_stored resp id allocs
  unfolding map_row_to_response
  mapped st at r allocs resp id cells row kept =
      let cell : (i : ℕ) → h.cells st at i ≡ column_of (saved_row resp id) i =
        λ i. cells i ∙ ap (λ (q : Row). column_of q i) row in
      let ints = λ (i : ℕ) (p : is_int (column_of (saved_row resp id) i) ≡ true).
        h.int_is st i at (ap is_int (cell i) ∙ p) ∙ ap int_of (cell i) in
      let sizes =
        λ (i : ℕ)
            (p : (is_text (column_of (saved_row resp id) i)
                || is_blob (column_of (saved_row resp id) i))
              ≡ true).
          h.bytes_are st i at (ap (λ (v : SqlValue). is_text v || is_blob v) (cell i) ∙ p)
          ∙ ap bytes_of (cell i) in
      let texts = λ (i : ℕ) (p : is_text (column_of (saved_row resp id) i) ≡ true).
        h.text_is st i at (ap is_text (cell i) ∙ p) ∙ ap text_of (cell i) in
      let body = blob_is_blob resp.body resp.body_len in
      let blob = h.blob_is st 5 at (ap is_blob (cell 5) ∙ body) ∙ ap blob_of (cell 5) in
      let duration =
        h.double_is st 7 at (ap is_double (cell 7))
        ∙ ap (λ (v : SqlValue). h.kept_double (double_of v)) (cell 7)
        ∙ kept in
      let headers = text_is_text resp.headers in
      let type = text_is_text resp.content_type in
      λ i.
        load_response (ints 0 refl i) (ints 1 refl i) (ints 2 refl i) (ints 8 refl i) (duration i)
          (texts 3 headers i) (sizes 3 (either_kind _ _ (inl headers)) i) (texts 4 type i)
          (sizes 4 (either_kind _ _ (inl type)) i) (blob i) (sizes 5 (either_kind _ _ (inr body)) i)
          allocs

  finished :
      {A : Type 0} (failed : A) (read : Stmt → World → A) (out : Option Stmt × World) (st : Stmt)
      → out.0 ≡ some st
      → finish_with s failed read out ≡ (read st out.1, s.finalize st out.1)
  unfolding finish_with
  finished failed read (none, w) st e = absurd (cc e)
  finished failed read (some st', w) st e =
      ap (λ (x : Option Stmt). finish_with s failed read (x, w)) e

  inserted_row :
      (resp : Response) (w : World) (st : Stmt) (after : World)
      → (ran : Ran s h insert_response (response_bindings resp) sqlite_done w st after)
      → row_of (s.last_insert_rowid (s.step st ran.at).1) (h.values st ran.at)
        ≡ saved_row resp (s.last_insert_rowid after)
  inserted_row resp w st after ran = λ i. record {
    id = ap s.last_insert_rowid (sym ran.after_is) i;
    request_id = ran.values_are 0 (omega arith) i;
    status_code = ran.values_are 1 (omega arith) i;
    result = ran.values_are 2 (omega arith) i;
    duration = ran.values_are 3 (omega arith) i;
    headers = ran.values_are 4 (omega arith) i;
    content_type = ran.values_are 5 (omega arith) i;
    body = ran.values_are 6 (omega arith) i;
    body_len = ran.values_are 7 (omega arith) i;
  }

  -- A save that returns SQLITE_OK has appended the row of the response under the id that it was given.
  saved :
      (resp : Response) (w : World)
      → (db_save_response s (some resp) w).0.0 ≡ sqlite_ok
      → (id : ℤ) × ((db_save_response s (some resp) w).0.1 ≡ some (record resp { id = id }))
        × (h.rows (db_save_response s (some resp) w).1 ≡ h.rows w ++ saved_row resp id ∷ [])
  unfolding db_save_response finish_with
  saved resp w e =
      let out = run_stmt s insert_response (response_bindings resp) sqlite_done w in
      elim (Option-cases out.0) [
        | inl failed ↦ absurd (cc (rw (db_save_response, finish_with, failed) at e))
        | inr (st, done) ↦
            let ran =
              run_stmt-Ran s h insert_response (response_bindings resp) sqlite_done w st done in
            let same =
              finished (sqlite_error, some resp)
                (λ st w'. (sqlite_ok, some (record resp { id = s.last_insert_rowid w' }))) out st
                done in
            (
              s.last_insert_rowid out.1,
              ap (λ (x : (ℤ × Option Response) × World). x.0.1) same,
              ap (λ (x : (ℤ × Option Response) × World). h.rows x.1) same
                  ∙ h.finalize_rows st out.1
                  ∙ ap h.rows ran.after_is
                  ∙ h.inserted st ran.at ran.text_is
                      (ap is_typed (inserted_row resp w st out.1 ran)
                        ∙ saved_row_typed resp (s.last_insert_rowid out.1))
                      ran.stepped
                  ∙ (λ i. ran.rows_are i ++ inserted_row resp w st out.1 ran i ∷ []),
            )
      ]

  -- What the load returns is made of the latest row of the request, if the select runs.
  loaded_latest :
      (resp : Response) (id : ℤ) (rows : List Row) (allocs : List Bool) (w : World) (st : Stmt)
      → h.rows w ≡ rows ++ saved_row resp id ∷ []
      → h.kept_double resp.duration ≡ resp.duration
      → (run_stmt s select_latest (bind_int resp.request_id ∷ []) sqlite_row w).0 ≡ some st
      → (db_get_latest_response_by_request_id s true resp.request_id allocs w).0
        ≡ (load_stored resp id allocs).0
  unfolding db_get_latest_response_by_request_id
  loaded_latest resp id rows allocs w st grown kept done =
      let args = bind_int resp.request_id ∷ [] in
      let run = run_stmt s select_latest args sqlite_row w in
      let ran = run_stmt-Ran s h select_latest args sqlite_row w st done in
      let (r, latest, cells) =
        h.selected st ran.at resp.request_id ran.text_is (ran.values_are 0 (omega arith))
          ran.stepped in
      let same = finished none (λ st w'. (map_row_to_response s st w' allocs).0) run st done in
      let row : some r ≡ some (saved_row resp id) =
        sym latest
        ∙ (λ i. latest_of resp.request_id ((ran.rows_are ∙ grown) i))
        ∙ latest_of_append resp.request_id rows (saved_row resp id) refl in
      ap (λ (x : Option Response × World). x.0) same
      ∙ ap (λ (x : World). (map_row_to_response s st x allocs).0) ran.after_is
      ∙ ap (λ (x : Option Response × List Text). x.0)
          (mapped st (s.step st ran.at).1 r allocs resp id cells (cc row) kept)

-- A response that was saved with SQLITE_OK was given an id. When the latest response of its request is loaded from
-- there and the select finds a row, it is the one that was saved: under this id, with its request, status, result and
-- duration, its texts up to their terminators (NULL for one that is empty) and the bytes of its body. With memory it is
-- returned; without, it or NULL is. This holds if SQLite keeps and finds rows as `History` says, and the duration as
-- it is.
pub save_then_latest :
    {World Stmt : Type 0} (s : Sqlite World Stmt)
    → (h : History s) (resp : Response) (allocs : List Bool) (w : World) (st : Stmt)
    → h.kept_double resp.duration ≡ resp.duration
    → (db_save_response s (some resp) w).0.0 ≡ sqlite_ok
    → (run_stmt s select_latest
        (bind_int resp.request_id ∷ [])
        sqlite_row
        (db_save_response s (some resp) w).1).0
      ≡ some st
    → let latest = λ (answers : List Bool).
      (db_get_latest_response_by_request_id s true resp.request_id answers
        (db_save_response s (some resp) w).1).0 in
      (id : ℤ) × ((db_save_response s (some resp) w).0.1 ≡ some (record resp { id = id }))
      × (latest [] ≡ some (stored resp id))
      × ((latest allocs ≡ none) ⊎ (latest allocs ≡ some (stored resp id)))
save_then_latest s h resp allocs w st kept ok found =
    let (id, given, grown) = saved s h resp w ok in
    let after = (db_save_response s (some resp) w).1 in
    let loaded = λ (answers : List Bool).
      loaded_latest s h resp id (h.rows w) answers after st grown kept found in
    (
      id,
      given,
      loaded [] ∙ load_stored_full resp id,
      elim (load_stored_cases resp id allocs) [
        | inl failed ↦ inl (loaded allocs ∙ failed)
        | inr whole ↦ inr (loaded allocs ∙ whole)
      ],
    )
