-- ===== src/Worker/Http/Rounds.antt =====
-- `http_worker_routine` of src/core/worker.c: the rounds that there are, and what each of them owns and gives back.
use fman.Prelude.{◌≡◌, false, not, List, [], ◌∷◌, ◌++◌, Option, none, some, if_cases, Text, arith}
use fman.Models.{Request, Response}
use fman.Worker.Curl.{set_all, set_curl_method, set_curl_headers}
use fman.Worker.Http.{
  Env, Event, handle_opened, handle_closed, list_made, list_freed, new_response, perform,
  push_response_or_free, transfer_options, fail_curl, curl_failed, with_options, with_list,
  with_handle, with_request,
}

-- A worker without a response, or without a handle; one that failed before the transfer, with or without a list of
-- headers; and one that made the transfer, with or without a list.
pub data Round (env : Env) (req : Request) : List Event → Type 0 where
  no_response : env.has_response ≡ false → Round env req []
  no_handle : Round env req (push_response_or_free env (curl_failed (new_response req.id)))
  failed_plain : Round env req (handle_opened ∷ fail_curl env (new_response req.id))
  failed_listed :
      set_all env.accepts (transfer_options req) ≡ false
      → Round env req (handle_opened ∷ list_made ∷ fail_curl env (new_response req.id))
  made_plain : Round env req (
      handle_opened
      ∷ (push_response_or_free env (perform env (new_response req.id)) ++ handle_closed ∷ []))
  made_listed : Round env req (
      handle_opened
      ∷ list_made
      ∷ (push_response_or_free env (perform env (new_response req.id))
          ++ list_freed ∷ handle_closed ∷ []))

module _ (env : Env) (req : Request) where
  Is : List Event → Type 0
  Is = Round env req

  r : Response
  r = new_response req.id

  with_plain : Is (handle_opened ∷ with_options env req (new_response req.id) [])
  unfolding Is with_options
  with_plain =
      if_cases (λ (es : List Event). Is (handle_opened ∷ es))
        (set_all env.accepts (transfer_options req)) (λ _. made_plain) λ _. failed_plain

  with_list-Round :
      (list : List Text) → Is (handle_opened ∷ with_list env req (new_response req.id) list)
  unfolding Is with_list with_options
  with_list-Round [] = failed_plain
  with_list-Round (line ∷ rest) =
      if_cases (λ (es : List Event). Is (handle_opened ∷ list_made ∷ es))
        (set_all env.accepts (transfer_options req)) (λ _. made_listed) λ e. failed_listed e

  with_headers :
      (headers : Option Text)
      → Is (
          handle_opened ∷ (elim headers [
            | none ↦ with_options env req (new_response req.id) []
            | some [] ↦ with_options env req (new_response req.id) []
            | some (c ∷ h) ↦
                with_list env req
                  (new_response req.id)
                  (set_curl_headers env.accepts env.allocs (c ∷ h))
          ]))
  unfolding Is
  with_headers none = with_plain
  with_headers (some []) = with_plain
  with_headers (some (c ∷ h)) = with_list-Round (set_curl_headers env.accepts env.allocs (c ∷ h))

  pub with_request-Round : Round env req (with_request env req)
  unfolding Is with_request with_handle
  with_request-Round =
      if_cases Is (not env.has_response) (λ e. no_response (ground arith))
        λ _.
          if_cases Is env.has_handle
            (λ _.
              if_cases (λ (es : List Event). Is (handle_opened ∷ es))
                (set_curl_method env.accepts req) (λ _. with_headers req.headers) λ _. failed_plain)
            λ _. no_handle
