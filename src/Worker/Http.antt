-- ===== src/Worker/Http.antt =====
-- `http_worker_routine` of src/core/worker.c: what a worker does with one task. libcurl, the allocator and the
-- response queue are parameters. A round is the list of what it does to the things that it owns, in order.
pub mod Rounds
pub mod Owned
pub mod Answers
use fman.Prelude.{
  ℕ, ◌-◌, ◌%◌, ◌^◌, ltb, Bool, true, false, not, ◌&&◌, List, [], ◌∷◌, ◌++◌, Option, none, some,
  if◌then◌else◌, Text, codes,
}
use fman.Prelude.Int.{ℤ, pos, negsuc}
use fman.Models.{Request, Response, ResponseResults, response_ok, response_curl_error, WorkerTask}
use fman.Worker.Curl.{
  CurlOption, opt_url, opt_writefunction, opt_writedata, opt_headerfunction, opt_headerdata,
  opt_connecttimeout, opt_timeout, opt_followlocation, opt_maxredirs, opt_useragent, set_all,
  set_curl_method, set_curl_headers,
}

-- `curl_easy_getinfo` after a transfer. `none` is an error of the call; a content type may be NULL.
pub record Info : Type 0 where
  pub http_code : ℤ
  pub content_type : Option (Option Text)
  pub total_time : Option ℕ

-- What a worker relies on: whether `calloc` gives a response and `curl_easy_init` a handle, the options that
-- libcurl accepts, the answers of the allocations for headers, whether `strdup` has memory, `curl_easy_perform` with
-- its result and what it makes of the response through the callbacks, `curl_easy_getinfo`, and whether the response
-- queue takes a response.
pub record Env : Type 0 where
  pub has_response : Bool
  pub has_handle : Bool
  pub accepts : CurlOption → Bool
  pub allocs : List Bool
  pub has_copy : Bool
  pub easy_perform : Response → Bool × Response
  pub info : Info
  pub is_open : Bool

pub data Event : Type 0 where
  handle_opened handle_closed list_made list_freed : Event
  response_pushed response_freed : Response → Event
  request_freed task_freed : Event

-- What `calloc` gives, with the request's id.
abbrev pub new_response : ℤ → Response
new_response request_id = record {
  id = pos 0;
  request_id = request_id;
  status_code = pos 0;
  headers = none;
  headers_len = 0;
  headers_capacity = 0;
  content_type = none;
  body = none;
  body_len = 0;
  body_capacity = 0;
  duration = 0;
  result = response_ok;
}

-- `(int)http_code`, on 32 bits.
unfoldable pub to_int : ℤ → ℤ
to_int (pos n) =
    let low = n % 2 ^ 32 in if ltb low (2 ^ 31) then pos low else negsuc (2 ^ 32 - 1 - low)
to_int (negsuc n) =
    let low = n % 2 ^ 32 in if ltb low (2 ^ 31) then negsuc low else pos (2 ^ 32 - 1 - low)

-- After `curl_easy_perform` succeeded.
abbrev pub answered_response : Env → Response → Response
answered_response env r = record r {
  result = response_ok;
  status_code = to_int env.info.http_code;
  content_type = elim env.info.content_type [
    | some (some t) ↦ (if env.has_copy then some t else none)
    | _ ↦ r.content_type
  ];
  duration = elim env.info.total_time [ none ↦ r.duration | some t ↦ t ];
}

abbrev pub curl_failed : Response → Response
curl_failed r = record r { result = response_curl_error }

-- `curl_easy_perform` and what follows it.
pub perform : Env → Response → Response
perform env r =
    let (done, r') = env.easy_perform r in if done then answered_response env r' else curl_failed r'

abbrev pub push_response_or_free : Env → Response → List Event
push_response_or_free env r = (if env.is_open then response_pushed r else response_freed r) ∷ []

-- `cleanup_task`
abbrev pub cleanup_task : WorkerTask → List Event
cleanup_task task = elim task.data_ptr [
  | none ↦ task_freed ∷ []
  | some _ ↦ request_freed ∷ task_freed ∷ []
]

-- The options behind the method and the headers, in order.
abbrev pub transfer_options : Request → List CurlOption
transfer_options req =
    opt_url req.url
    ∷ opt_writefunction
    ∷ opt_writedata
    ∷ opt_headerfunction
    ∷ opt_headerdata
    ∷ opt_connecttimeout 10
    ∷ opt_timeout 30
    ∷ opt_followlocation 1
    ∷ opt_maxredirs 5
    ∷ opt_useragent (codes "MyCWorker/1.0")
    ∷ []

-- The response as an error, and the handle closed.
abbrev pub fail_curl : Env → Response → List Event
fail_curl env r = push_response_or_free env (curl_failed r) ++ handle_closed ∷ []

abbrev pub free_list : List Text → List Event
free_list [] = []
free_list (_ ∷ _) = list_freed ∷ []

-- With the list of headers, or NULL.
pub with_options : Env → Request → Response → List Text → List Event
with_options env req r list =
    if set_all env.accepts (transfer_options req)
    then push_response_or_free env (perform env r) ++ (free_list list ++ handle_closed ∷ [])
    else fail_curl env r

pub with_list : Env → Request → Response → List Text → List Event
with_list env req r [] = fail_curl env r
with_list env req r (line ∷ rest) = list_made ∷ with_options env req r (line ∷ rest)

pub with_handle : Env → Request → Response → List Event
with_handle env req r =
    if set_curl_method env.accepts req
    then elim req.headers [
      | none ↦ with_options env req r []
      | some [] ↦ with_options env req r []
      | some (c ∷ h) ↦ with_list env req r (set_curl_headers env.accepts env.allocs (c ∷ h))
    ]
    else fail_curl env r

pub with_request : Env → Request → List Event
with_request env req =
    let r = new_response req.id in
    if not env.has_response
    then []
    else if env.has_handle
    then handle_opened ∷ with_handle env req r
    else push_response_or_free env (curl_failed r)

unfoldable pub handle_task : Env → WorkerTask → List Event
unfolding with_request with_handle with_list with_options perform
handle_task env task =
    elim task.data_ptr [ none ↦ [] | some req ↦ with_request env req ] ++ cleanup_task task
