-- ===== src/Orchestrator/Pipeline.antt =====
-- The threads of src/core/orchestrator.c and src/core/worker.c over their queues, in any order: the engine dispatches
-- requests, the workers answer them, the dispatcher makes tasks of the answers, the database worker saves. A queue is
-- the list that Queue/Runs shows it to be, and what a thread does between two waits is one step, made of what its
-- routine does. The queues may be closed to pushes; a thread that ends takes no step.
pub mod Counts
pub mod Kept
mod Witnesses
use fman.Prelude.{
  ◌≡◌, Bool, List, [], ◌∷◌, ◌++◌, Option, none, some, if◌then◌else◌, map, replicate, ℕ, ◌+◌, ◌&&◌,
  length,
}
use fman.Prelude.Int.{ℤ}
use fman.Models.{Request, Response, http_request}
use fman.Worker.Buffer.{Realloc}
use fman.Worker.Http.{Env, Event, handle_task}
use fman.Worker.Http.Owned.{responses_pushed, responses_freed}
use fman.Worker.Http.Answers.{CallsBack}
use fman.Orchestrator.Dispatch.{
  DbTask, DbEvent, queued, response_saved, response_freed, dispatcher_routine, handle_db_task,
}

-- What was dispatched, the queue of requests, each worker with the request that it works on, the queues of responses
-- and of database tasks, the responses that were saved, and the ids of those that were given up.
pub record System : Type 0 where
  pub sent : List Request
  pub requests : List Request
  pub workers : List (Option Request)
  pub responses : List Response
  pub tasks : List DbTask
  pub saved : List Response
  pub lost : List ℤ
  pub refused : ℕ

abbrev pub round : Env → Request → List Event
round env req = handle_task env (record { type = http_request; data_ptr = some req })

abbrev pub answers : Env → Request → List Response
answers env req = responses_pushed (round env req)

abbrev pub id_of : Response → ℤ
id_of resp = resp.request_id

-- A request is given up whose response has no memory, or is freed.
abbrev pub unanswered : Env → Request → List ℤ
unanswered env req =
    (if env.has_response then [] else req.id ∷ []) ++ map id_of (responses_freed (round env req))

-- One refusal, unless both are granted.
abbrev pub refusal : Bool → Bool → ℕ
refusal a b = if a && b then 0 else 1

-- The tasks that are queued, the responses that `db_save_response` is called on, and the ids of those that are freed.
unfoldable pub queued_tasks : List DbEvent → List DbTask
queued_tasks [] = []
queued_tasks (queued task ∷ events) = task ∷ queued_tasks events
queued_tasks (_ ∷ events) = queued_tasks events

unfoldable pub saved_responses : List DbEvent → List Response
saved_responses [] = []
saved_responses (response_saved r ∷ events) = r ∷ saved_responses events
saved_responses (_ ∷ events) = saved_responses events

abbrev pub to_save : DbTask → List Response
to_save task = saved_responses (handle_db_task none task)

unfoldable pub freed_ids : List DbEvent → List ℤ
freed_ids [] = []
freed_ids (response_freed r ∷ events) = r.request_id ∷ freed_ids events
freed_ids (_ ∷ events) = freed_ids events

-- A round of the dispatcher on one response: whether there is memory, and whether the queue takes the task.
abbrev pub dispatched : Response → Bool → Bool → List DbEvent
dispatched resp done pushed = dispatcher_routine (resp ∷ []) (done ∷ []) (pushed ∷ [])

module _ (realloc : Realloc) where
  -- What a thread does, the engine left aside.
  pub data Work (s : System) : System → Type 0 where
    take :
        (xs ys : List (Option Request)) (req : Request) (rest : List Request)
        → s.workers ≡ xs ++ none ∷ ys
        → s.requests ≡ req ∷ rest
        → Work s (record s { workers = xs ++ some req ∷ ys; requests = rest })
    answer :
        (xs ys : List (Option Request)) (req : Request) (env : Env)
        → CallsBack realloc env
        → s.workers ≡ xs ++ some req ∷ ys
        → Work s (record s {
          workers = xs ++ none ∷ ys;
          responses = s.responses ++ answers env req;
          lost = s.lost ++ unanswered env req;
          refused = s.refused + refusal env.has_response env.is_open;
        })
    dispatch :
        (resp : Response) (rest : List Response) (done pushed : Bool)
        → s.responses ≡ resp ∷ rest
        → Work s (record s {
          responses = rest;
          tasks = s.tasks ++ queued_tasks (dispatched resp done pushed);
          lost = s.lost ++ freed_ids (dispatched resp done pushed);
          refused = s.refused + refusal done pushed;
        })
    -- The result of db_save_response, `stored`, is not looked at: the response is freed either way.
    save :
        (task : DbTask) (rest : List DbTask) (stored : Bool)
        → s.tasks ≡ task ∷ rest
        → Work s (record s {
          tasks = rest;
          saved = s.saved ++ (if stored then to_save task else []);
          lost = s.lost ++ (if stored then [] else map id_of (to_save task));
          refused = s.refused + (if stored then 0 else length (to_save task));
        })

  pub data Turn (s : System) : System → Type 0 where
    send :
        (req : Request)
        → Turn s (record s { sent = s.sent ++ req ∷ []; requests = s.requests ++ req ∷ [] })
    work : {t : System} → Work s t → Turn s t

  -- What can be reached with so many workers.
  pub data Reach (n : ℕ) : System → Type 0 where
    start : Reach n (record {
      sent = [];
      requests = [];
      workers = replicate n none;
      responses = [];
      tasks = [];
      saved = [];
      lost = [];
      refused = 0;
    })
    later : {s t : System} → Reach n s → Turn s t → Reach n t
