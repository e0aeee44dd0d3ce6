-- ===== src/Database/Load.antt =====
-- src/core/db_manager.c: the functions that read rows. `allocs` are the answers of `malloc` and `calloc`. What maps
-- a row answers with the buffers that it gave back, too; the free of a request that is given up is left out.
use fman.Prelude.{
  ℕ, zero, suc, ◌&&◌, ◌||◌, Bool, true, false, not, List, [], ◌∷◌, Option, none, some, ltb, ◌==◌,
  if◌then◌else◌, is_some, take, Text, String,
}
use fman.Prelude.Int.{ℤ, pos, int_eq}
use fman.Models.{
  Method, get, post, put, delete, patch, head, options, Request, Response, ResponseResults,
  response_ok, response_curl_error, response_internal_error, response_cancelled,
}
use fman.Models.Create.{free_request, free_response}
use fman.Dsl.Lexer.{malloc}
use fman.Database.{
  Sqlite, bind_int, run_stmt, finish_with, try_stmt, Tried, unprepared, refused, ready, sqlite_ok,
  sqlite_error, sqlite_row, sqlite_done,
}

unfoldable pub safe_copy_string : Option Text → ℕ → List Bool → Option Text × List Bool
unfolding malloc
safe_copy_string none len allocs = (none, allocs)
safe_copy_string (some src) zero allocs = (none, allocs)
safe_copy_string (some src) (suc n) allocs =
    let (done, allocs') = malloc allocs in (if done then some (take (suc n) src) else none, allocs')

unfoldable pub safe_copy_blob : Option Text → ℕ → List Bool → Option Text × List Bool
unfolding malloc
safe_copy_blob none len allocs = (none, allocs)
safe_copy_blob (some src) zero allocs = (none, allocs)
safe_copy_blob (some src) (suc n) allocs =
    let (done, allocs') = malloc allocs in (if done then some (take (suc n) src) else none, allocs')

-- The numbers of the enumerations. Of any other number C makes a method that no worker sends, like the last, and a
-- result that prints as the last.
abbrev pub method_of : ℤ → Method
method_of (pos zero) = get
method_of (pos (suc zero)) = post
method_of (pos (suc (suc zero))) = put
method_of (pos (suc (suc (suc zero)))) = delete
method_of (pos (suc (suc (suc (suc zero))))) = patch
method_of (pos (suc (suc (suc (suc (suc zero)))))) = head
method_of _ = options

abbrev pub results_of : ℤ → ResponseResults
results_of (pos zero) = response_ok
results_of (pos (suc zero)) = response_curl_error
results_of (pos (suc (suc zero))) = response_internal_error
results_of _ = response_cancelled

-- A copy that is missing.
abbrev pub lost : ℕ → Option Text → Bool
lost len copy = ltb 0 len && not (is_some copy)

abbrev pub select_pending : String
select_pending =
    "SELECT id,collection_id,method,url,url_len,headers,headers_len,body,body_len,status FROM requests WHERE status = 0 ORDER BY created_at ASC LIMIT 1;"

abbrev pub mark_pending : String
mark_pending = "UPDATE requests SET status = 1 WHERE id = ?;"

abbrev pub select_latest : String
select_latest =
    "SELECT id, request_id, status_code, headers, content_type, body, body_len, duration, result FROM responses WHERE request_id = ? ORDER BY id DESC LIMIT 1;"

abbrev pub count_of_request : String
count_of_request = "SELECT COUNT(*) FROM responses WHERE request_id = ?;"

abbrev pub count_all : String
count_all = "SELECT COUNT(*) FROM responses;"

-- What `map_row_to_response` makes of the columns: the texts and the body with the number of their bytes.
unfoldable pub load_response :
    ℤ
    → ℤ
    → ℤ
    → ℤ
    → ℕ
    → Option Text
    → ℕ
    → Option Text
    → ℕ
    → Option Text
    → ℕ
    → List Bool
    → Option Response × List Text
unfolding malloc safe_copy_string safe_copy_blob free_response
load_response id request_id status_code result duration db_headers headers_len db_content_type
      content_type_len db_body body_len allocs =
    let (done, allocs1) = malloc allocs in
    let (content_type, allocs2) = safe_copy_string db_content_type content_type_len allocs1 in
    let (headers, allocs3) = safe_copy_string db_headers headers_len allocs2 in
    let (body, _) = safe_copy_blob db_body body_len allocs3 in
    let resp : Response = record {
      id = id;
      request_id = request_id;
      status_code = status_code;
      headers = headers;
      headers_len = 0;
      headers_capacity = 0;
      content_type = content_type;
      body = body;
      body_len = body_len;
      body_capacity = 0;
      duration = duration;
      result = results_of result;
    } in
    if not done
    then (none, [])
    else if lost content_type_len content_type || lost headers_len headers || lost body_len body
    then (none, free_response resp)
    else (some resp, [])

module _ {World Stmt : Type 0} (s : Sqlite World Stmt) where
  unfoldable pub map_row_to_request : Stmt → World → List Bool → Option Request × List Text
  unfolding malloc safe_copy_string safe_copy_blob free_request
  map_row_to_request st w allocs =
      let (done, allocs1) = malloc allocs in
      let url_len = s.column_int64 st 4 w in
      let headers_len = s.column_int64 st 6 w in
      let body_len = s.column_int64 st 8 w in
      let (url, allocs2) = safe_copy_string (s.column_text st 3 w) url_len allocs1 in
      let (headers, allocs3) = safe_copy_string (s.column_text st 5 w) headers_len allocs2 in
      let (body, _) = safe_copy_blob (s.column_blob st 7 w) body_len allocs3 in
      let req : Request = record {
        id = s.column_int st 0 w;
        collection_id = s.column_int st 1 w;
        method = method_of (s.column_int st 2 w);
        url = url;
        url_len = url_len;
        headers = headers;
        headers_len = headers_len;
        body = body;
        body_len = body_len;
        status = s.column_int st 9 w;
      } in
      if not done
      then (none, [])
      else if not (is_some url) || url_len == 0 || lost headers_len headers || lost body_len body
      then (none, free_request req)
      else (some req, [])

  unfoldable pub map_row_to_response : Stmt → World → List Bool → Option Response × List Text
  unfolding load_response
  map_row_to_response st w allocs =
      load_response (s.column_int st 0 w) (s.column_int st 1 w) (s.column_int st 2 w)
        (s.column_int st 8 w) (s.column_double st 7 w) (s.column_text st 3 w)
        (s.column_bytes st 3 w) (s.column_text st 4 w) (s.column_bytes st 4 w)
        (s.column_blob st 5 w) (s.column_bytes st 5 w) allocs

  -- `db` is whether the connection is not NULL.
  unfoldable pub db_get_latest_response_by_request_id :
      Bool → ℤ → List Bool → World → Option Response × World
  unfolding run_stmt finish_with map_row_to_response
  db_get_latest_response_by_request_id false request_id allocs w = (none, w)
  db_get_latest_response_by_request_id true request_id allocs w =
      finish_with s none (λ st w'. (map_row_to_response st w' allocs).0)
        (run_stmt s select_latest (bind_int request_id ∷ []) sqlite_row w)

  unfoldable pub db_count_responses_by_request_id : Bool → ℤ → World → ℤ × World
  unfolding run_stmt finish_with
  db_count_responses_by_request_id false request_id w = (sqlite_error, w)
  db_count_responses_by_request_id true request_id w =
      finish_with s sqlite_error (λ st w'. s.column_int st 0 w')
        (run_stmt s count_of_request (bind_int request_id ∷ []) sqlite_row w)

  unfoldable pub db_count_all_responses : Bool → World → ℤ × World
  unfolding run_stmt finish_with
  db_count_all_responses false w = (sqlite_error, w)
  db_count_all_responses true w =
      finish_with s sqlite_error (λ st w'. s.column_int st 0 w')
        (run_stmt s count_all [] sqlite_row w)

  -- The transaction is taken back.
  unfoldable pub rollback : World → World
  rollback w = (s.exec "ROLLBACK;" w).1

  -- The update of a request that was read, up to the end of the transaction.
  unfoldable pub take_request : Request → Tried Stmt × World → Option Request × World
  unfolding rollback
  take_request req (unprepared, w) = (none, rollback w)
  take_request req (refused st, w) = (none, s.finalize st (rollback w))
  take_request req (ready st, w) = (some req, (s.exec "COMMIT;" (s.finalize st w)).1)

  -- With the row of a pending request.
  unfoldable pub with_row : Stmt → Option Request → World → Option Request × World
  unfolding rollback try_stmt take_request
  with_row st none w = (none, s.finalize st (rollback w))
  with_row st (some req) w =
      take_request req
        (try_stmt s mark_pending (bind_int req.id ∷ []) sqlite_done (s.finalize st w))

  -- Behind the start of the transaction.
  unfoldable pub find_pending : List Bool → Tried Stmt × World → Option Request × World
  unfolding rollback map_row_to_request with_row
  find_pending allocs (unprepared, w) = (none, rollback w)
  find_pending allocs (refused st, w) = (none, rollback (s.finalize st w))
  find_pending allocs (ready st, w) = with_row st (map_row_to_request st w allocs).0 w

  unfoldable pub db_get_next_pending_request : List Bool → World → Option Request × World
  unfolding try_stmt find_pending
  db_get_next_pending_request allocs w =
      let (rc, w') = s.exec "BEGIN IMMEDIATE;" w in
      let rest = find_pending allocs (try_stmt s select_pending [] sqlite_row w') in
      if int_eq rc sqlite_ok then rest else (none, w')
