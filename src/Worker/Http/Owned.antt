-- ===== src/Worker/Http/Owned.antt =====
-- `http_worker_routine` of src/core/worker.c: the things that a round owns, and how often each is given back.
use fman.Prelude.{
  ℕ, ◌+◌, ◌≡◌, refl, sym, ap, ◌∙◌, true, false, List, [], ◌∷◌, ◌++◌, Option, none, some, arith,
  Bool-cases, inl, inr,
}
use fman.Models.{WorkerOpType, Request, Response, WorkerTask}
use fman.Worker.Curl.{set_all}
use fman.Worker.Http.{
  Env, Event, handle_opened, handle_closed, list_made, list_freed, response_pushed, response_freed,
  request_freed, task_freed, new_response, perform, push_response_or_free, transfer_options,
  curl_failed, with_request, handle_task,
}
use fman.Worker.Http.Rounds.{
  Round, no_response, no_handle, failed_plain, failed_listed, made_plain, made_listed,
  with_request-Round,
}

-- How often something happens, by what it counts for in each event.
unfoldable pub tally : (Event → ℕ) → List Event → ℕ
tally w [] = 0
tally w (e ∷ events) = w e + tally w events

unfoldable pub opened : Event → ℕ
opened handle_opened = 1
opened _ = 0

unfoldable pub closed : Event → ℕ
closed handle_closed = 1
closed _ = 0

unfoldable pub made : Event → ℕ
made list_made = 1
made _ = 0

unfoldable pub freed : Event → ℕ
freed list_freed = 1
freed _ = 0

unfoldable pub task_frees : Event → ℕ
task_frees task_freed = 1
task_frees _ = 0

unfoldable pub request_frees : Event → ℕ
request_frees request_freed = 1
request_frees _ = 0

-- The responses that are handed to the queue.
unfoldable pub responses_pushed : List Event → List Response
responses_pushed [] = []
responses_pushed (response_pushed r ∷ events) = r ∷ responses_pushed events
responses_pushed (_ ∷ events) = responses_pushed events

-- The responses that are freed.
unfoldable pub responses_freed : List Event → List Response
responses_freed [] = []
responses_freed (response_freed r ∷ events) = r ∷ responses_freed events
responses_freed (_ ∷ events) = responses_freed events

tally-append : (w : Event → ℕ) (xs ys : List Event) → tally w (xs ++ ys) ≡ tally w xs + tally w ys
unfolding tally
tally-append w [] ys = omega arith
tally-append w (x ∷ xs) ys = omega (arith, tally-append w xs ys)

pub responses_pushed-append :
    (xs ys : List Event) → responses_pushed (xs ++ ys) ≡ responses_pushed xs ++ responses_pushed ys
unfolding responses_pushed
responses_pushed-append [] ys = refl
responses_pushed-append (response_pushed r ∷ xs) ys = ap (◌∷◌ r) (responses_pushed-append xs ys)
responses_pushed-append (_ ∷ xs) ys = responses_pushed-append xs ys

pub responses_freed-append :
    (xs ys : List Event) → responses_freed (xs ++ ys) ≡ responses_freed xs ++ responses_freed ys
unfolding responses_freed
responses_freed-append [] ys = refl
responses_freed-append (response_freed r ∷ xs) ys = ap (◌∷◌ r) (responses_freed-append xs ys)
responses_freed-append (_ ∷ xs) ys = responses_freed-append xs ys

-- What happens besides the response.
unfoldable pub quiet : List Event → List Event
quiet [] = []
quiet (response_pushed r ∷ events) = quiet events
quiet (response_freed r ∷ events) = quiet events
quiet (handle_opened ∷ events) = handle_opened ∷ quiet events
quiet (handle_closed ∷ events) = handle_closed ∷ quiet events
quiet (list_made ∷ events) = list_made ∷ quiet events
quiet (list_freed ∷ events) = list_freed ∷ quiet events
quiet (request_freed ∷ events) = request_freed ∷ quiet events
quiet (task_freed ∷ events) = task_freed ∷ quiet events

quiet-push :
    (env : Env) (r : Response) (rest : List Event)
    → quiet (push_response_or_free env r ++ rest) ≡ quiet rest
unfolding quiet
quiet-push env r rest = elim (Bool-cases env.is_open) [ inl e ↦ rw e refl | inr e ↦ rw e refl ]

-- Something that a response does not count for.
tally-quiet :
    (w : Event → ℕ) (events : List Event)
    → ((r : Response) → w (response_pushed r) ≡ 0)
    → ((r : Response) → w (response_freed r) ≡ 0)
    → tally w events ≡ tally w (quiet events)
unfolding tally quiet
tally-quiet w [] p f = refl
tally-quiet w (response_pushed r ∷ events) p f = omega (arith, p r, tally-quiet w events p f)
tally-quiet w (response_freed r ∷ events) p f = omega (arith, f r, tally-quiet w events p f)
tally-quiet w (handle_opened ∷ events) p f =
    ap (λ (n : ℕ). w handle_opened + n) (tally-quiet w events p f)
tally-quiet w (handle_closed ∷ events) p f =
    ap (λ (n : ℕ). w handle_closed + n) (tally-quiet w events p f)
tally-quiet w (list_made ∷ events) p f = ap (λ (n : ℕ). w list_made + n) (tally-quiet w events p f)
tally-quiet w (list_freed ∷ events) p f =
    ap (λ (n : ℕ). w list_freed + n) (tally-quiet w events p f)
tally-quiet w (request_freed ∷ events) p f =
    ap (λ (n : ℕ). w request_freed + n) (tally-quiet w events p f)
tally-quiet w (task_freed ∷ events) p f =
    ap (λ (n : ℕ). w task_freed + n) (tally-quiet w events p f)

-- What a round does besides its response. A list of headers is left when an option behind it is refused.
data Shape (env : Env) (req : Request) : List Event → Type 0 where
  nothing : Shape env req []
  plain : Shape env req (handle_opened ∷ handle_closed ∷ [])
  leaked :
      set_all env.accepts (transfer_options req) ≡ false
      → Shape env req (handle_opened ∷ list_made ∷ handle_closed ∷ [])
  listed : Shape env req (handle_opened ∷ list_made ∷ list_freed ∷ handle_closed ∷ [])

Round-Shape :
    (env : Env) (req : Request) (events : List Event)
    → Round env req events
    → Shape env req (quiet events)
unfolding quiet
Round-Shape env req events (no_response e) = nothing
Round-Shape env req events no_handle =
    rw (quiet-push env (curl_failed (new_response req.id)) []) nothing
Round-Shape env req events failed_plain =
    rw (quiet-push env (curl_failed (new_response req.id)) (handle_closed ∷ [])) plain
Round-Shape env req events (failed_listed e) =
    rw (quiet-push env (curl_failed (new_response req.id)) (handle_closed ∷ [])) (leaked e)
Round-Shape env req events made_plain =
    rw (quiet-push env (perform env (new_response req.id)) (handle_closed ∷ [])) plain
Round-Shape env req events made_listed =
    rw (quiet-push env (perform env (new_response req.id)) (list_freed ∷ handle_closed ∷ [])) listed

round-Shape : (env : Env) (req : Request) → Shape env req (quiet (with_request env req))
round-Shape env req = Round-Shape env req (with_request env req) (with_request-Round env req)

-- What a round counts for is what its shape counts for, and its cleanup.
round_tally :
    (w : Event → ℕ) (env : Env) (req : Request) (rest : List Event)
    → ((r : Response) → w (response_pushed r) ≡ 0)
    → ((r : Response) → w (response_freed r) ≡ 0)
    → tally w (with_request env req ++ rest) ≡ tally w (quiet (with_request env req)) + tally w rest
round_tally w env req rest p f =
    tally-append w (with_request env req) rest
    ∙ ap (λ (n : ℕ). n + tally w rest) (tally-quiet w (with_request env req) p f)

Shape-tally :
    (env : Env) (req : Request) (s : List Event)
    → Shape env req s
    → (tally opened s ≡ tally closed s) × (tally task_frees s ≡ 0) × (tally request_frees s ≡ 0)
unfolding tally opened closed task_frees request_frees
Shape-tally env req s nothing = (refl, refl, refl)
Shape-tally env req s plain = (refl, refl, refl)
Shape-tally env req s (leaked e) = (refl, refl, refl)
Shape-tally env req s listed = (refl, refl, refl)

gives_back :
    (env : Env) (type : WorkerOpType) (data_ptr : Option Request)
    → (tally opened (handle_task env (record { type = type; data_ptr = data_ptr }))
        ≡ tally closed (handle_task env (record { type = type; data_ptr = data_ptr })))
      × (tally task_frees (handle_task env (record { type = type; data_ptr = data_ptr })) ≡ 1)
      × (tally request_frees (handle_task env (record { type = type; data_ptr = data_ptr }))
          ≡ elim data_ptr [ none ↦ 0 | some _ ↦ 1 ])
unfolding handle_task tally opened closed task_frees request_frees
gives_back env type none = (refl, refl, refl)
gives_back env type (some req) =
    let (handles, tasks, requests) = Shape-tally env req _ (round-Shape env req) in
    let end = request_freed ∷ task_freed ∷ [] in
    (
      round_tally opened env req end (λ r. refl) (λ r. refl)
          ∙ ap (λ (n : ℕ). n + 0) handles
          ∙ sym (round_tally closed env req end (λ r. refl) (λ r. refl)),
      round_tally task_frees env req end (λ r. refl) (λ r. refl) ∙ ap (λ (n : ℕ). n + 1) tasks,
      round_tally request_frees env req end (λ r. refl) (λ r. refl)
          ∙ ap (λ (n : ℕ). n + 1) requests,
    )

-- A round on any task closes a handle as often as it opened one, frees the task once, and frees its request once
-- if it has one, whatever fails.
pub handle_task_gives_back :
    (env : Env) (task : WorkerTask)
    → (tally opened (handle_task env task) ≡ tally closed (handle_task env task))
      × (tally task_frees (handle_task env task) ≡ 1)
      × (tally request_frees (handle_task env task) ≡ elim task.data_ptr [ none ↦ 0 | some _ ↦ 1 ])
handle_task_gives_back env task = gives_back env task.type task.data_ptr

Shape-lists :
    (env : Env) (req : Request) (s : List Event)
    → set_all env.accepts (transfer_options req) ≡ true
    → Shape env req s
    → tally made s ≡ tally freed s
unfolding tally made freed
Shape-lists env req s ok nothing = refl
Shape-lists env req s ok plain = refl
Shape-lists env req s ok (leaked e) = absurd (cc (ok, e))
Shape-lists env req s ok listed = refl

-- When libcurl accepts the options of the transfer, a round frees each list of headers that it made.
pub handle_task_frees_lists :
    (env : Env) (type : WorkerOpType) (req : Request)
    → set_all env.accepts (transfer_options req) ≡ true
    → tally made (handle_task env (record { type = type; data_ptr = some req }))
      ≡ tally freed (handle_task env (record { type = type; data_ptr = some req }))
unfolding handle_task tally made freed
handle_task_frees_lists env type req ok =
    let end = request_freed ∷ task_freed ∷ [] in
    round_tally made env req end (λ r. refl) (λ r. refl)
    ∙ ap (λ (n : ℕ). n + 0) (Shape-lists env req _ ok (round-Shape env req))
    ∙ sym (round_tally freed env req end (λ r. refl) (λ r. refl))
