-- ===== src/Orchestrator/Dispatch.antt =====
-- `dispatch_task` and `dispatcher_routine` of src/core/orchestrator.c and `db_worker_routine` of src/core/worker.c: the
-- way of a response from the queue to the database. A routine is given what it pops, up to the NULL that ends it, and
-- answers with what it does. The database is left out: the calls of it are events.
use fman.Prelude.{
  ℕ, ◌+◌, ◌≡◌, refl, ap, Bool, true, false, not, List, [], ◌∷◌, ◌++◌, Option, none, some,
  if◌then◌else◌, if_cases, arith,
}
use fman.Prelude.Int.{ℤ}
use fman.Dsl.Lexer.{malloc}
use fman.Models.{Request, Response, Collection}

pub data MessageType : Type 0 where
  db worker : MessageType

pub data DbOpType : Type 0 where
  save_collection save_request save_response update_status get_next_request shutdown : DbOpType

-- What `data` points to: the type of the task says which.
pub data DbData : Type 0 where
  no_data : DbData
  request_data : Request → DbData
  response_data : Response → DbData
  collection_data : Collection → DbData
  status_data : ℤ → ℤ → DbData

pub record DbTask : Type 0 where
  pub type : DbOpType
  pub data_ptr : DbData
  pub has_callback : Bool

pub data DbEvent : Type 0 where
  queued task_freed : DbTask → DbEvent
  request_saved request_freed : Request → DbEvent
  response_saved response_freed : Response → DbEvent
  collection_saved collection_freed : Collection → DbEvent
  status_updated : ℤ → ℤ → DbEvent
  status_freed : DbEvent
  called_back : Option Request → DbEvent

-- Whether the task is pushed, by whether the queue of its type takes it; NULL for the runtime or the task fails.
unfoldable pub dispatch_task : Bool → Bool → MessageType → (MessageType → Bool) → Bool
dispatch_task true true type takes = takes type
dispatch_task _ _ type takes = false

abbrev pub save_task : Response → DbTask
save_task resp = record {
  type = save_response;
  data_ptr = response_data resp;
  has_callback = false;
}

-- `allocs` are the answers of `calloc`, `pushes` whether the queue of the database takes a task.
unfoldable pub dispatcher_routine : List Response → List Bool → List Bool → List DbEvent
unfolding malloc
dispatcher_routine [] allocs pushes = []
dispatcher_routine (resp ∷ resps) allocs pushes =
    let (done, allocs') = malloc allocs in
    let (pushed, pushes') = malloc pushes in
    let unpushed = dispatcher_routine resps allocs' pushes in
    let rest = dispatcher_routine resps allocs' pushes' in
    if not done
    then response_freed resp ∷ unpushed
    else if pushed
    then queued (save_task resp) ∷ rest
    else response_freed resp ∷ (task_freed (save_task resp) ∷ rest)

-- The `switch`, for a task that does not shut down. `pending` is what `db_get_next_pending_request` finds.
unfoldable pub handle_db_task : Option Request → DbTask → List DbEvent
handle_db_task pending task = elim task.type [
  | save_request ↦ elim task.data_ptr [
    | request_data r ↦ request_saved r ∷ request_freed r ∷ []
    | _ ↦ []
  ]
  | save_response ↦ elim task.data_ptr [
    | response_data r ↦ response_saved r ∷ response_freed r ∷ []
    | _ ↦ []
  ]
  | save_collection ↦ elim task.data_ptr [
    | collection_data c ↦ collection_saved c ∷ collection_freed c ∷ []
    | _ ↦ []
  ]
  | get_next_request ↦
      if task.has_callback
      then called_back pending ∷ []
      else elim pending [ none ↦ [] | some r ↦ request_freed r ∷ [] ]
  | update_status ↦ elim task.data_ptr [
    | status_data id code ↦ status_updated id code ∷ status_freed ∷ []
    | _ ↦ []
  ]
  | shutdown ↦ []
]

unfoldable pub db_worker_routine : Option Request → List DbTask → List DbEvent
unfolding handle_db_task
db_worker_routine pending [] = []
db_worker_routine pending (task ∷ tasks) =
    let rest = db_worker_routine pending tasks in
    let handled = handle_db_task pending task ++ task_freed task ∷ rest in
    elim task.type [ shutdown ↦ task_freed task ∷ [] | _ ↦ handled ]

-- The tasks that are queued, in order.
unfoldable pub tasks_of : List DbEvent → List DbTask
tasks_of [] = []
tasks_of (queued t ∷ events) = t ∷ tasks_of events
tasks_of (_ ∷ events) = tasks_of events

-- What is freed of responses, and what is saved, as they weigh.
unfoldable pub freed_weight : (Response → ℕ) → List DbEvent → ℕ
freed_weight w [] = 0
freed_weight w (response_freed r ∷ events) = w r + freed_weight w events
freed_weight w (_ ∷ events) = freed_weight w events

unfoldable pub saved : List DbEvent → List Response
saved [] = []
saved (response_saved r ∷ events) = r ∷ saved events
saved (_ ∷ events) = saved events

unfoldable pub weight : (Response → ℕ) → List Response → ℕ
weight w [] = 0
weight w (r ∷ rs) = w r + weight w rs

-- A response that the dispatcher pops is freed exactly once, by the dispatcher or by the database worker behind it,
-- whichever allocations fail and whenever the queue between them is shut down.
pub dispatch_frees :
    (w : Response → ℕ) (pending : Option Request) (resps : List Response)
    (allocs pushes : List Bool)
    → freed_weight w (dispatcher_routine resps allocs pushes)
        + freed_weight w
            (db_worker_routine pending (tasks_of (dispatcher_routine resps allocs pushes)))
      ≡ weight w resps
unfolding freed_weight dispatcher_routine db_worker_routine tasks_of weight
dispatch_frees w pending [] allocs pushes = refl
dispatch_frees w pending (resp ∷ resps) allocs pushes =
    if_cases Good (not (malloc allocs).0)
      (λ _. omega (arith, dispatch_frees w pending resps (malloc allocs).1 pushes))
      λ _.
        if_cases Good (malloc pushes).0
          (λ _. omega (arith, dispatch_frees w pending resps (malloc allocs).1 (malloc pushes).1))
          λ _. omega (arith, dispatch_frees w pending resps (malloc allocs).1 (malloc pushes).1)
  where
    Good : List DbEvent → Type 0
    Good events =
        freed_weight w events + freed_weight w (db_worker_routine pending (tasks_of events))
        ≡ w resp + weight w resps

-- With memory and an open queue, the database worker saves the responses that the dispatcher pops, in order.
pub dispatch_saves :
    (pending : Option Request) (resps : List Response)
    → saved (db_worker_routine pending (tasks_of (dispatcher_routine resps [] []))) ≡ resps
unfolding dispatcher_routine db_worker_routine tasks_of saved malloc
dispatch_saves pending [] = refl
dispatch_saves pending (resp ∷ resps) = ap (◌∷◌ resp) (dispatch_saves pending resps)
