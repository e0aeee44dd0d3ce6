-- ===== src/Database/Statements.antt =====
-- src/core/db_manager.c: the statements that are open.
pub mod Running
use fman.Prelude.{
  ℕ, ◌+◌, ◌-◌, ◌≡◌, refl, ◌∙◌, Bool, true, false, List, [], ◌∷◌, Option, none, some, if_cases,
  arith, String, subst,
}
use fman.Prelude.Int.{ℤ, int_eq}
use fman.Models.{Request, Response, Collection}
use fman.Database.{
  Sqlite, Binding, bind_int, bind_text, Tried, unprepared, refused, ready, bind_all, step_stmt,
  bind_stmt, try_stmt, settle, run_stmt, finish_with, sqlite_ok, sqlite_row, sqlite_done,
}
use fman.Database.Save.{
  find_id, find_behind, with_id, insert_and_find, db_save_collection, db_save_request,
  db_save_response, db_update_request_status, request_bindings, request_key, collection_bindings,
  response_bindings, insert_collection, select_collection, insert_request, select_request,
  insert_response, update_status_sql,
}
use fman.Database.Load.{
  map_row_to_request, db_get_latest_response_by_request_id, db_count_responses_by_request_id,
  db_count_all_responses, rollback, take_request, with_row, find_pending,
  db_get_next_pending_request, select_pending, mark_pending, select_latest, count_of_request,
  count_all,
}
use Running.{
  Counts, one_open, Opens, plus_zero, closed_one, run_stmt-live, try_stmt-Opens, run-live,
}

module _ {World Stmt : Type 0} (s : Sqlite World Stmt) (live : World → ℕ)
    (law : Counts s live) where
  find_behind-live :
      (select : String) (key : List Binding) (out : Option Stmt × World) (n : ℕ)
      → live out.1 ≡ n + one_open out.0
      → live (find_behind s select key out).1 ≡ n
  unfolding find_behind find_id
  find_behind-live select key (none, w) n e = e ∙ plus_zero n
  find_behind-live select key (some st, w) n e =
      run-live s live law none _ select key sqlite_row (s.finalize st w)
      ∙ closed_one s live law st w n e

  with_id-live :
      {A : Type 0} (old : A) (new : ℤ → A) (out : Option ℤ × World)
      → live (with_id s old new out).1 ≡ live out.1
  unfolding with_id
  with_id-live old new (none, w) = refl
  with_id-live old new (some id, w) = refl

  insert_and_find-live :
      (insert : String) (args : List Binding) (select : String) (key : List Binding) (w : World)
      → live (insert_and_find s insert args select key w).1 ≡ live w
  unfolding insert_and_find
  insert_and_find-live insert args select key w =
      find_behind-live select key (run_stmt s insert args sqlite_done w) (live w)
        (run_stmt-live s live law insert args sqlite_done w)

  pub save_collection-live :
      (coll : Option Collection) (w : World) → live (db_save_collection s coll w).1 ≡ live w
  unfolding db_save_collection
  save_collection-live none w = refl
  save_collection-live (some coll) w =
      with_id-live (some coll) _ _
      ∙ insert_and_find-live insert_collection (collection_bindings coll) select_collection
          (bind_text coll.name coll.name_len ∷ []) w

  pub save_request-live :
      (req : Option Request) (w : World) → live (db_save_request s req w).1 ≡ live w
  unfolding db_save_request
  save_request-live none w = refl
  save_request-live (some req) w =
      with_id-live (some req) _ _
      ∙ insert_and_find-live insert_request (request_bindings req) select_request (request_key req)
          w

  save_response-live :
      (resp : Option Response) (w : World) → live (db_save_response s resp w).1 ≡ live w
  unfolding db_save_response
  save_response-live none w = refl
  save_response-live (some resp) w =
      run-live s live law _ _ insert_response (response_bindings resp) sqlite_done w

  pub latest-live :
      (db : Bool) (request_id : ℤ) (allocs : List Bool) (w : World)
      → live (db_get_latest_response_by_request_id s db request_id allocs w).1 ≡ live w
  unfolding db_get_latest_response_by_request_id
  latest-live false request_id allocs w = refl
  latest-live true request_id allocs w =
      run-live s live law _ _ select_latest (bind_int request_id ∷ []) sqlite_row w

  count-live :
      (db : Bool) (request_id : ℤ) (w : World)
      → live (db_count_responses_by_request_id s db request_id w).1 ≡ live w
  unfolding db_count_responses_by_request_id
  count-live false request_id w = refl
  count-live true request_id w =
      run-live s live law _ _ count_of_request (bind_int request_id ∷ []) sqlite_row w

  count_all-live : (db : Bool) (w : World) → live (db_count_all_responses s db w).1 ≡ live w
  unfolding db_count_all_responses
  count_all-live false w = refl
  count_all-live true w = run-live s live law _ _ count_all [] sqlite_row w

  rollback-live : (w : World) → live (rollback s w) ≡ live w
  unfolding rollback
  rollback-live w = law.executed "ROLLBACK;" w

  take_request-live :
      (req : Request) (out : Tried Stmt × World) (n : ℕ)
      → Opens s live law n out
      → live (take_request s req out).1 ≡ n
  unfolding take_request Opens
  take_request-live req (unprepared, w) n e = rollback-live w ∙ e ∙ plus_zero n
  take_request-live req (refused st, w) n e =
      closed_one s live law st (rollback s w) n (rollback-live w ∙ e)
  take_request-live req (ready st, w) n e =
      law.executed "COMMIT;" (s.finalize st w) ∙ closed_one s live law st w n e

  with_row-live :
      (st : Stmt) (req : Option Request) (w : World) (n : ℕ)
      → live w ≡ n + 1
      → live (with_row s st req w).1 ≡ n
  unfolding with_row
  with_row-live st none w n e = closed_one s live law st (rollback s w) n (rollback-live w ∙ e)
  with_row-live st (some req) w n e = take_request-live req _ n (
      subst
        (λ (k : ℕ).
          Opens s live law k
            (try_stmt s mark_pending (bind_int req.id ∷ []) sqlite_done (s.finalize st w)))
        (closed_one s live law st w n e)
        (try_stmt-Opens s live law mark_pending (bind_int req.id ∷ []) sqlite_done
          (s.finalize st w)))

  find_pending-live :
      (allocs : List Bool) (out : Tried Stmt × World) (n : ℕ)
      → Opens s live law n out
      → live (find_pending s allocs out).1 ≡ n
  unfolding find_pending Opens
  find_pending-live allocs (unprepared, w) n e = rollback-live w ∙ e ∙ plus_zero n
  find_pending-live allocs (refused st, w) n e =
      rollback-live (s.finalize st w) ∙ closed_one s live law st w n e
  find_pending-live allocs (ready st, w) n e =
      with_row-live st (map_row_to_request s st w allocs).0 w n e

  next_pending-live :
      (allocs : List Bool) (w : World) → live (db_get_next_pending_request s allocs w).1 ≡ live w
  unfolding db_get_next_pending_request
  next_pending-live allocs w =
      let w' = (s.exec "BEGIN IMMEDIATE;" w).1 in
      let begun = law.executed "BEGIN IMMEDIATE;" w in
      if_cases (λ (out : Option Request × World). live out.1 ≡ live w)
        (int_eq (s.exec "BEGIN IMMEDIATE;" w).0 sqlite_ok)
        (λ _.
          find_pending-live allocs _ (live w')
            (try_stmt-Opens s live law select_pending [] sqlite_row w')
          ∙ begun)
        (λ _. begun)

-- Every function that prepares statements has finalized them all when it returns, wherever it fails: as many are
-- open as before, if SQLite opens one with each that it prepares and closes one with each that is finalized.
pub statements_closed :
    {World Stmt : Type 0} (s : Sqlite World Stmt) (live : World → ℕ)
    → Counts s live
    → (coll : Option Collection) (req : Option Request) (resp : Option Response) (db : Bool)
      (id status : ℤ) (allocs : List Bool) (w : World)
    → (live (db_save_collection s coll w).1 ≡ live w)
      × (live (db_save_request s req w).1 ≡ live w)
      × (live (db_save_response s resp w).1 ≡ live w)
      × (live (db_update_request_status s id status w).1 ≡ live w)
      × (live (db_get_next_pending_request s allocs w).1 ≡ live w)
      × (live (db_get_latest_response_by_request_id s db id allocs w).1 ≡ live w)
      × (live (db_count_responses_by_request_id s db id w).1 ≡ live w)
      × (live (db_count_all_responses s db w).1 ≡ live w)
unfolding db_update_request_status
statements_closed s live law coll req resp db id status allocs w = (
  save_collection-live s live law coll w,
  save_request-live s live law req w,
  save_response-live s live law resp w,
  run-live s live law _ _ update_status_sql (bind_int status ∷ bind_int id ∷ []) sqlite_done w,
  next_pending-live s live law allocs w,
  latest-live s live law db id allocs w,
  count-live s live law db id w,
  count_all-live s live law db w,
)
