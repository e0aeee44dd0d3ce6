-- ===== src/Database/Save.antt =====
-- src/core/db_manager.c: the functions that save and update.
use fman.Prelude.{
  strlen, ℕ, ◌&&◌, Bool, List, [], ◌∷◌, Option, none, some, ltb, if◌then◌else◌, is_some, Text,
  String,
}
use fman.Prelude.Int.{ℤ, pos}
use fman.Models.{
  Method, get, post, put, delete, patch, head, options, Request, Response, Collection,
  ResponseResults, response_ok, response_curl_error, response_internal_error, response_cancelled,
}
use fman.Database.{
  Sqlite, Binding, bind_int, bind_int64, bind_double, bind_text, bind_blob, bind_null, run_stmt,
  finish_with, sqlite_ok, sqlite_error, sqlite_row, sqlite_done,
}

-- The numbers of the enumerations.
abbrev pub method_code : Method → ℕ
method_code get = 0
method_code post = 1
method_code put = 2
method_code delete = 3
method_code patch = 4
method_code head = 5
method_code options = 6

abbrev pub results_code : ResponseResults → ℕ
results_code response_ok = 0
results_code response_curl_error = 1
results_code response_internal_error = 2
results_code response_cancelled = 3

abbrev pub insert_collection : String
insert_collection = "INSERT OR IGNORE INTO collections (name, name_len)VALUES(?,?);"

abbrev pub select_collection : String
select_collection = "SELECT id FROM collections WHERE name = ? LIMIT 1;"

abbrev pub insert_response : String
insert_response =
    "INSERT INTO responses (request_id, status_code, result, duration ,headers, content_type, body, body_len)VALUES(?,?,?,?,?,?,?,?);"

abbrev pub insert_request : String
insert_request =
    "INSERT OR IGNORE INTO requests (collection_id,method,url,url_len,headers,headers_len,body,body_len)VALUES(?,?,?,?,?,?,?,?);"

abbrev pub select_request : String
select_request =
    "SELECT id FROM requests WHERE collection_id = ? AND method = ? AND url = ? AND body = ? AND body_len = ? LIMIT 1;"

abbrev pub update_status_sql : String
update_status_sql = "UPDATE requests SET status = ? WHERE id = ?;"

-- A text up to its terminator, or NULL.
abbrev pub text_binding : Option Text → Binding
text_binding none = bind_null
text_binding (some t) = bind_text (some t) (strlen t)

-- Whether the request has a body, and what is bound for it: an empty one is not NULL.
abbrev pub has_body : Option Text → ℕ → Bool
has_body body len = is_some body && ltb 0 len

abbrev pub body_data : Request → Option Text
body_data req = if has_body req.body req.body_len then req.body else some (0 ∷ [])

abbrev pub bound_len : Request → ℕ
bound_len req = if has_body req.body req.body_len then req.body_len else 0

abbrev pub collection_bindings : Collection → List Binding
collection_bindings coll = bind_text coll.name coll.name_len ∷ bind_int (pos coll.name_len) ∷ []

abbrev pub response_bindings : Response → List Binding
response_bindings resp =
    bind_int resp.request_id
    ∷ bind_int resp.status_code
    ∷ bind_int (pos (results_code resp.result))
    ∷ bind_double resp.duration
    ∷ text_binding resp.headers
    ∷ text_binding resp.content_type
    ∷ (if has_body resp.body resp.body_len then bind_blob resp.body resp.body_len else bind_null)
    ∷ bind_int64 resp.body_len
    ∷ []

abbrev pub request_bindings : Request → List Binding
request_bindings req =
    bind_int req.collection_id
    ∷ bind_int (pos (method_code req.method))
    ∷ bind_text req.url req.url_len
    ∷ bind_int64 req.url_len
    ∷ bind_text req.headers req.headers_len
    ∷ bind_int64 req.headers_len
    ∷ bind_blob (body_data req) (bound_len req)
    ∷ bind_int64 (bound_len req)
    ∷ []

abbrev pub request_key : Request → List Binding
request_key req =
    bind_int req.collection_id
    ∷ bind_int (pos (method_code req.method))
    ∷ bind_text req.url req.url_len
    ∷ bind_blob (body_data req) (bound_len req)
    ∷ bind_int64 (bound_len req)
    ∷ []

module _ {World Stmt : Type 0} (s : Sqlite World Stmt) where
  -- The id that a select finds, or none.
  unfoldable pub find_id : String → List Binding → World → Option ℤ × World
  unfolding run_stmt finish_with
  find_id sql args w =
      finish_with s none (λ st w'. some (s.column_int st 0 w')) (run_stmt s sql args sqlite_row w)

  -- Behind the insert, whose statement is finalized first.
  unfoldable pub find_behind : String → List Binding → Option Stmt × World → Option ℤ × World
  unfolding find_id
  find_behind select key (none, w) = (none, w)
  find_behind select key (some st, w) = find_id select key (s.finalize st w)

  unfoldable pub insert_and_find :
      String → List Binding → String → List Binding → World → Option ℤ × World
  unfolding run_stmt find_behind
  insert_and_find insert args select key w =
      find_behind select key (run_stmt s insert args sqlite_done w)

  -- The record with the id that was found, or as it was.
  unfoldable pub with_id : {A : Type 0} → A → (ℤ → A) → Option ℤ × World → (ℤ × A) × World
  with_id old new (none, w) = ((sqlite_error, old), w)
  with_id old new (some id, w) = ((sqlite_ok, new id), w)

  unfoldable pub db_save_collection : Option Collection → World → (ℤ × Option Collection) × World
  unfolding insert_and_find with_id
  db_save_collection none w = ((sqlite_error, none), w)
  db_save_collection (some coll) w =
      with_id (some coll) (λ id. some (record coll { id = id }))
        (insert_and_find insert_collection (collection_bindings coll) select_collection
          (bind_text coll.name coll.name_len ∷ []) w)

  unfoldable pub db_save_request : Option Request → World → (ℤ × Option Request) × World
  unfolding insert_and_find with_id
  db_save_request none w = ((sqlite_error, none), w)
  db_save_request (some req) w =
      with_id (some req) (λ id. some (record req { id = id }))
        (insert_and_find insert_request (request_bindings req) select_request (request_key req) w)

  unfoldable pub db_save_response : Option Response → World → (ℤ × Option Response) × World
  unfolding run_stmt finish_with
  db_save_response none w = ((sqlite_error, none), w)
  db_save_response (some resp) w =
      finish_with s (sqlite_error, some resp)
        (λ st w'. (sqlite_ok, some (record resp { id = s.last_insert_rowid w' })))
        (run_stmt s insert_response (response_bindings resp) sqlite_done w)

  unfoldable pub db_update_request_status : ℤ → ℤ → World → ℤ × World
  unfolding run_stmt finish_with
  db_update_request_status id status w =
      finish_with s sqlite_error (λ st w'. sqlite_ok)
        (run_stmt s update_status_sql (bind_int status ∷ bind_int id ∷ []) sqlite_done w)
