-- ===== src/Orchestrator/Pipeline/Counts.antt =====
-- How often an id stands in the lists of a system.
use fman.Prelude.{
  ℕ, zero, suc, ◌+◌, ◌≡◌, refl, ap, Bool, true, false, List, [], ◌∷◌, ◌++◌, Option, none, some,
  Bool-cases, inl, inr, if◌then◌else◌, map, replicate, arith, length,
}
use fman.Prelude.Int.{ℤ, int_eq}
use fman.Models.{Request, Response, http_request}
use fman.Worker.Buffer.{Realloc}
use fman.Worker.Http.{Env}
use fman.Worker.Http.Answers.{CallsBack, OneFor, handle_task_answers, no_answer}
use fman.Orchestrator.Dispatch.{
  DbTask, DbData, DbOpType, save_collection, save_request, save_response, update_status,
  get_next_request, shutdown, no_data, request_data, response_data, collection_data, status_data,
  dispatcher_routine, handle_db_task,
}
use fman.Orchestrator.Pipeline.{
  answers, unanswered, id_of, queued_tasks, saved_responses, freed_ids, dispatched, refusal,
}

module _ {A : Type 0} (w : A → ℕ) where
  abbrev pub total : List A → ℕ
  total [] = 0
  total (x ∷ xs) = w x + total xs

  pub total-append : (xs ys : List A) → total (xs ++ ys) ≡ total xs + total ys
  total-append [] ys = omega arith
  total-append (x ∷ xs) ys = omega (arith, total-append xs ys)

  pub total_zero : (n : ℕ) (x : A) → w x ≡ 0 → total (replicate n x) ≡ 0
  total_zero zero x e = refl
  total_zero (suc n) x e = omega (arith, e, total_zero n x e)

-- One element between two lists, replaced by another.
pub swapped :
    {A : Type 0} (w : A → ℕ) (workers xs ys : List A) (x y : A)
    → workers ≡ xs ++ x ∷ ys
    → total w (xs ++ y ∷ ys) + w x ≡ total w workers + w y
swapped w workers xs ys x y e =
    omega (arith, ap (total w) e, total-append w xs (x ∷ ys), total-append w xs (y ∷ ys))

abbrev given_up : ℤ → Bool → List Response → List ℤ
given_up n has freed = (if has then [] else n ∷ []) ++ map id_of freed

length_one :
    (n : ℤ) (has is_open : Bool) (r : Response) (freed : List Response)
    → has ≡ true
    → freed ≡ (if is_open then [] else r ∷ [])
    → length (given_up n has freed) ≡ refusal has is_open
length_one n false is_open r freed e f = absurd (cc e)
length_one n true true r freed e f = ap (λ (rs : List Response). length (map id_of rs)) f
length_one n true false r freed e f = ap (λ (rs : List Response). length (map id_of rs)) f

length_missing :
    (n : ℤ) (has is_open : Bool) (freed : List Response)
    → has ≡ false
    → freed ≡ []
    → length (given_up n has freed) ≡ refusal has is_open
length_missing n true is_open freed e f = absurd (cc e)
length_missing n false is_open freed e f =
    ap (λ (rs : List Response). length (given_up n false rs)) f

-- As many are given up as the environment refuses.
pub length-unanswered :
    (realloc : Realloc) (env : Env) (req : Request)
    → CallsBack realloc env
    → length (unanswered env req) ≡ refusal env.has_response env.is_open
unfolding OneFor
length-unanswered realloc env req law = elim (Bool-cases env.has_response) [
  | inl has ↦
      let (r, id, pushed, freed) = handle_task_answers realloc env http_request req law has in
      length_one req.id env.has_response env.is_open r _ has freed
  | inr hasnt ↦
      let (pushed, freed) = no_answer env http_request req hasnt in
      length_missing req.id env.has_response env.is_open _ hasnt freed
]

pub length-freed_ids :
    (resp : Response) (done pushed : Bool)
    → length (freed_ids (dispatched resp done pushed)) ≡ refusal done pushed
unfolding freed_ids dispatcher_routine
length-freed_ids resp false pushed = refl
length-freed_ids resp true false = refl
length-freed_ids resp true true = refl

module _ (id : ℤ) where
  abbrev pub one : ℤ → ℕ
  one a = if int_eq id a then 1 else 0

  abbrev pub of_request : Request → ℕ
  of_request req = one req.id

  abbrev pub of_worker : Option Request → ℕ
  of_worker none = 0
  of_worker (some req) = one req.id

  abbrev pub of_response : Response → ℕ
  of_response resp = one resp.request_id

  -- A task that saves a response stands for it.
  abbrev pub of_data : DbOpType → DbData → ℕ
  of_data save_response (response_data r) = one r.request_id
  of_data _ _ = 0

  abbrev pub of_task : DbTask → ℕ
  of_task task = of_data task.type task.data_ptr

  pub total_ids : (rs : List Response) → total one (map id_of rs) ≡ total of_response rs
  total_ids [] = refl
  total_ids (r ∷ rs) = omega (arith, total_ids rs)

  total-one :
      (n : ℤ) (has is_open : Bool) (r : Response) (pushed freed : List Response)
      → has ≡ true
      → r.request_id ≡ n
      → pushed ≡ (if is_open then r ∷ [] else [])
      → freed ≡ (if is_open then [] else r ∷ [])
      → total of_response pushed + total one (given_up n has freed) ≡ one n
  total-one n false is_open r pushed freed has id p f = absurd (cc has)
  total-one n true true r pushed freed has id p f = omega (
    arith,
    ap one id,
    ap (total of_response) p,
    ap (λ (rs : List Response). total one (map id_of rs)) f,
  )
  total-one n true false r pushed freed has id p f = omega (
    arith,
    ap one id,
    ap (total of_response) p,
    ap (λ (rs : List Response). total one (map id_of rs)) f,
  )

  total_missing :
      (n : ℤ) (has : Bool) (pushed freed : List Response)
      → has ≡ false
      → pushed ≡ []
      → freed ≡ []
      → total of_response pushed + total one (given_up n has freed) ≡ one n
  total_missing n true pushed freed has p f = absurd (cc has)
  total_missing n false pushed freed has p f =
      omega
        (arith, ap (total of_response) p, ap (λ (rs : List Response). total one (map id_of rs)) f)

  pub total-answers :
      (realloc : Realloc) (env : Env) (req : Request)
      → CallsBack realloc env
      → total of_response (answers env req) + total one (unanswered env req) ≡ one req.id
  unfolding OneFor
  total-answers realloc env req law = elim (Bool-cases env.has_response) [
    | inl has ↦
        let (r, id, pushed, freed) = handle_task_answers realloc env http_request req law has in
        total-one req.id env.has_response env.is_open r _ _ has id pushed freed
    | inr hasnt ↦
        let (pushed, freed) = no_answer env http_request req hasnt in
        total_missing req.id env.has_response _ _ hasnt pushed freed
  ]

  pub total-dispatched :
      (resp : Response) (done pushed : Bool)
      → total of_task (queued_tasks (dispatched resp done pushed))
          + total one (freed_ids (dispatched resp done pushed))
        ≡ one resp.request_id
  unfolding queued_tasks freed_ids dispatcher_routine
  total-dispatched resp false pushed = omega arith
  total-dispatched resp true false = omega arith
  total-dispatched resp true true = omega arith

  saved_of_data :
      (type : DbOpType) (d : DbData) (b : Bool)
      → total of_response (
          saved_responses
            (handle_db_task none (record { type = type; data_ptr = d; has_callback = b })))
        ≡ of_data type d
  unfolding saved_responses handle_db_task
  saved_of_data save_response (response_data r) b = omega arith
  saved_of_data save_response no_data b = refl
  saved_of_data save_response (request_data r) b = refl
  saved_of_data save_response (collection_data r) b = refl
  saved_of_data save_response (status_data n m) b = refl
  saved_of_data save_request (response_data r) b = refl
  saved_of_data save_request no_data b = refl
  saved_of_data save_request (request_data r) b = refl
  saved_of_data save_request (collection_data r) b = refl
  saved_of_data save_request (status_data n m) b = refl
  saved_of_data save_collection (response_data r) b = refl
  saved_of_data save_collection no_data b = refl
  saved_of_data save_collection (request_data r) b = refl
  saved_of_data save_collection (collection_data r) b = refl
  saved_of_data save_collection (status_data n m) b = refl
  saved_of_data update_status (response_data r) b = refl
  saved_of_data update_status no_data b = refl
  saved_of_data update_status (request_data r) b = refl
  saved_of_data update_status (collection_data r) b = refl
  saved_of_data update_status (status_data n m) b = refl
  saved_of_data get_next_request d true = refl
  saved_of_data get_next_request d false = refl
  saved_of_data shutdown d b = refl

  pub total-saved :
      (task : DbTask)
      → total of_response (saved_responses (handle_db_task none task)) ≡ of_task task
  total-saved task = saved_of_data task.type task.data_ptr task.has_callback
