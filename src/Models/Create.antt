-- ===== src/Models/Create.antt =====
-- src/core/models.c. `allocs` are the answers of `malloc` and `calloc`. A call answers with the buffers that it
-- allocated and those that it gave back, each in order, besides what it returns; a `free` answers with the buffers
-- that it gives back. The `free` of a record itself is left out.
pub mod Copied
pub mod Holds
mod Witnesses
use fman.Prelude.{
  ℕ, zero, suc, ◌+◌, ◌≡◌, refl, sym, ap, ◌∙◌, ◌⊎◌, inl, inr, Bool, true, false, not, ◌&&◌, List, [],
  ◌∷◌, ◌++◌, Option, none, some, ltb, ◌==◌, if◌then◌else◌, length, take, Text, String, is_some,
  append-nil, append_assoc, if_cases,
}
use fman.Prelude.Int.{ℤ, pos}
use fman.Dsl.Lexer.{malloc}
use fman.Models.{
  Method, Request, Response, Collection, WorkerTask, http_request, ResponseResults, response_ok,
  response_curl_error,
}

-- `safe_copy_string` and `safe_copy_blob`: the first `len` bytes in a buffer, or NULL.
unfoldable pub safe_copy : Option Text → ℕ → List Bool → Option Text × List Bool
unfolding malloc
safe_copy none len allocs = (none, allocs)
safe_copy (some src) len allocs =
    let (done, allocs') = malloc allocs in
    if len == 0 then (none, allocs) else (if done then some (take len src) else none, allocs')

abbrev pub response_result_to_char : ResponseResults → String
response_result_to_char response_ok = "OK"
response_result_to_char response_curl_error = "CURL_ERROR"
response_result_to_char _ = "UNKNOWN"

abbrev pub buffer_of : Option Text → List Text
buffer_of none = []
buffer_of (some b) = b ∷ []

unfoldable pub free_request : Request → List Text
free_request req = buffer_of req.url ++ (buffer_of req.headers ++ buffer_of req.body)

unfoldable pub free_response : Response → List Text
free_response resp = buffer_of resp.body ++ (buffer_of resp.headers ++ buffer_of resp.content_type)

unfoldable pub free_collection : Collection → List Text
free_collection coll = buffer_of coll.name

pub record Created (A : Type 0) : Type 0 where
  pub returned : Option A
  pub made : List Text
  pub freed : List Text

-- What `calloc` gives, with the method and the collection.
abbrev pub new_request : Method → ℤ → Request
new_request method collection_id = record {
  id = pos 0;
  collection_id = collection_id;
  method = method;
  url = none;
  url_len = 0;
  headers = none;
  headers_len = 0;
  body = none;
  body_len = 0;
  status = pos 0;
}

abbrev text_len : Option Text → ℕ
text_len none = 0
text_len (some t) = length t

-- `failure`
abbrev pub give_up : Request → List Text → Created Request
give_up req made = record { returned = none; made = made; freed = free_request req }

-- Behind the headers.
pub with_body : Option Text → ℕ → Request → List Text → List Bool → Created Request
unfolding safe_copy
with_body none body_len req made allocs = record { returned = some req; made = made; freed = [] }
with_body (some bytes) body_len req made allocs =
    let copy = (safe_copy (some bytes) body_len allocs).0 in
    let req' = record req { body = copy; body_len = body_len } in
    if body_len == 0
    then record { returned = some req; made = made; freed = [] }
    else if is_some copy
    then record { returned = some req'; made = made ++ buffer_of copy; freed = [] }
    else give_up req' made

-- Behind the URL.
pub with_headers : Option Text → Option Text → ℕ → Request → List Text → List Bool → Created Request
unfolding safe_copy with_body
with_headers none body body_len req made allocs = with_body body body_len req made allocs
with_headers (some h) body body_len req made allocs =
    let (copy, allocs') = safe_copy (some h) (length h) allocs in
    let req' = record req { headers = copy; headers_len = length h } in
    if ltb 0 (length h) && not (is_some copy)
    then give_up req' made
    else with_body body body_len req' (made ++ buffer_of copy) allocs'

pub with_url :
    Option Text → Option Text → Option Text → ℕ → Request → List Text → List Bool → Created Request
unfolding safe_copy with_headers
with_url none headers body body_len req made allocs =
    with_headers headers body body_len req made allocs
with_url (some u) headers body body_len req made allocs =
    let (copy, allocs') = safe_copy (some u) (length u) allocs in
    let req' = record req { url = copy; url_len = length u } in
    if ltb 0 (length u) && not (is_some copy)
    then give_up req' made
    else with_headers headers body body_len req' (made ++ buffer_of copy) allocs'

unfoldable pub create_request :
    Method → ℤ → Option Text → Option Text → Option Text → ℕ → List Bool → Created Request
unfolding malloc with_url
create_request method collection_id url headers body body_len allocs =
    let (done, allocs') = malloc allocs in
    if done
    then with_url url headers body body_len (new_request method collection_id) [] allocs'
    else record { returned = none; made = []; freed = [] }

unfoldable pub create_collection : Option Text → List Bool → Created Collection
unfolding malloc safe_copy
create_collection none allocs = record { returned = none; made = []; freed = [] }
create_collection (some []) allocs = record { returned = none; made = []; freed = [] }
create_collection (some (c ∷ rest)) allocs =
    let (done, allocs') = malloc allocs in
    let copy = (safe_copy (some (c ∷ rest)) (length (c ∷ rest)) allocs').0 in
    let coll : Collection = record { id = pos 0; name = copy; name_len = length (c ∷ rest) } in
    if not done
    then record { returned = none; made = []; freed = [] }
    else if is_some copy
    then record { returned = some coll; made = buffer_of copy; freed = [] }
    else record { returned = none; made = []; freed = [] }

-- With memory for the task: the source writes through the pointer that `calloc` gives it.
abbrev pub create_http_worker_task : Option Request → WorkerTask
create_http_worker_task req = record { type = http_request; data_ptr = req }
