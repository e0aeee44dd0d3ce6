-- ===== src/Worker/Http/Answers.antt =====
-- `http_worker_routine` of src/core/worker.c: the response of a round.
use fman.Prelude.{
  ◌≡◌, refl, ap, ◌∙◌, true, false, List, [], ◌∷◌, ◌++◌, some, if_cases, if◌then◌else◌, Bool,
  append-nil, Bool-cases, inl, inr,
}
use fman.Prelude.Int.{ℤ}
use fman.Models.{WorkerOpType, Request, Response}
use fman.Worker.Buffer.{Realloc}
use fman.Worker.Buffer.Keeps.{Called, Called-id}
use fman.Worker.Http.{
  Env, Event, handle_closed, list_freed, request_freed, task_freed, new_response, perform,
  push_response_or_free, curl_failed, with_request, handle_task,
}
use fman.Worker.Http.Rounds.{
  Round, no_response, no_handle, failed_plain, failed_listed, made_plain, made_listed,
  with_request-Round,
}
use fman.Worker.Http.Owned.{
  freed, responses_pushed, responses_freed, responses_pushed-append, responses_freed-append,
}

-- `curl_easy_perform` changes a response by calls of the callbacks only.
abbrev pub CallsBack : Realloc → Env → Type 0
CallsBack realloc env = (r : Response) → Called realloc r (env.easy_perform r).1

perform_id :
    (realloc : Realloc) (env : Env) (r : Response)
    → CallsBack realloc env
    → (perform env r).request_id ≡ r.request_id
unfolding perform
perform_id realloc env r law =
    let e = Called-id realloc r (env.easy_perform r).1 (law r) in
    if_cases (λ (s : Response). s.request_id ≡ r.request_id) (env.easy_perform r).0 (λ _. e) λ _. e

-- One response, with this id: it is pushed to an open queue, and freed if the queue is closed.
unfoldable pub OneFor : Bool → ℤ → List Event → Type 0
OneFor is_open n events =
    (r : Response) × (r.request_id ≡ n)
    × (responses_pushed events ≡ (if is_open then r ∷ [] else []))
    × (responses_freed events ≡ (if is_open then [] else r ∷ []))

pushed-OneFor :
    (env : Env) (r : Response) (n : ℤ) (rest : List Event)
    → r.request_id ≡ n
    → responses_pushed rest ≡ []
    → responses_freed rest ≡ []
    → OneFor env.is_open n (push_response_or_free env r ++ rest)
unfolding OneFor responses_pushed responses_freed
pushed-OneFor env r n rest id p f = elim (Bool-cases env.is_open) [
  | inl e ↦ rw e (r, id, ap (◌∷◌ r) p, f)
  | inr e ↦ rw e (r, id, p, ap (◌∷◌ r) f)
]

Round-OneFor :
    (realloc : Realloc) (env : Env) (req : Request) (events : List Event)
    → CallsBack realloc env
    → env.has_response ≡ true
    → Round env req events
    → OneFor env.is_open req.id events
unfolding responses_pushed responses_freed OneFor
Round-OneFor realloc env req events law has (no_response e) = absurd (cc (has, e))
Round-OneFor realloc env req events law has no_handle =
    pushed-OneFor env (curl_failed (new_response req.id)) req.id [] refl refl refl
Round-OneFor realloc env req events law has failed_plain =
    pushed-OneFor env (curl_failed (new_response req.id)) req.id (handle_closed ∷ []) refl refl refl
Round-OneFor realloc env req events law has (failed_listed e) =
    pushed-OneFor env (curl_failed (new_response req.id)) req.id (handle_closed ∷ []) refl refl refl
Round-OneFor realloc env req events law has made_plain =
    pushed-OneFor env (perform env (new_response req.id)) req.id (handle_closed ∷ [])
      (perform_id realloc env (new_response req.id) law) refl refl
Round-OneFor realloc env req events law has made_listed =
    pushed-OneFor env (perform env (new_response req.id)) req.id (list_freed ∷ handle_closed ∷ [])
      (perform_id realloc env (new_response req.id) law) refl refl

-- When there is memory for a response, a round on a task with a request makes exactly one, with the request's id,
-- whatever libcurl refuses and however the transfer ends. It pushes this one to the queue and frees none if the queue
-- is open, and pushes none and frees this one if the queue is closed. libcurl changes a response by calls of the
-- callbacks only.
pub handle_task_answers :
    (realloc : Realloc) (env : Env) (type : WorkerOpType) (req : Request)
    → CallsBack realloc env
    → env.has_response ≡ true
    → OneFor env.is_open req.id (handle_task env (record { type = type; data_ptr = some req }))
unfolding handle_task responses_pushed responses_freed OneFor
handle_task_answers realloc env type req law has =
    let end = request_freed ∷ task_freed ∷ [] in
    let (r, id, pushed, freed) =
      Round-OneFor realloc env req _ law has (with_request-Round env req) in
    (
      r,
      id,
      responses_pushed-append (with_request env req) end
          ∙ append-nil (responses_pushed (with_request env req))
          ∙ pushed,
      responses_freed-append (with_request env req) end
          ∙ append-nil (responses_freed (with_request env req))
          ∙ freed,
    )

-- Without memory for a response, a round hands over none and frees none.
pub no_answer :
    (env : Env) (type : WorkerOpType) (req : Request)
    → env.has_response ≡ false
    → let events = handle_task env (record { type = type; data_ptr = some req }) in
      (responses_pushed events ≡ []) × (responses_freed events ≡ [])
unfolding handle_task responses_pushed responses_freed
no_answer env type req none_left = rw (none_left) (refl, refl)
