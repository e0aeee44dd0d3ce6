-- ===== src/Engine/Later.antt =====
-- `run_plan` of src/core/engine.c: the worlds that its calls of the database, the runtime and the constructors lead to.
use fman.Prelude.{
  ℕ, zero, suc, ◌+◌, Bool, false, not, if_cases, List, none, some, get_or, set, Text, if◌then◌else◌,
}
use fman.Prelude.Int.{ℤ}
use fman.Models.{Request, Collection}
use fman.RunPlan.{RequestCase, RunPlan, zero_case}
use fman.Engine.{Services, dispatch_all}

-- A world that calls one after another lead to, from the world at the start.
pub data Later {World : Type 0} (s : Services World) (start : World) : World → Type 0 where
  at_start : Later s start start
  initialised : {w : World} (path : Text) → Later s start w → Later s start (s.db_init path w).1
  collection_created :
      {w : World} (name : Text) → Later s start w → Later s start (s.create_collection name w).1
  collection_saved :
      {w : World} (c : Collection) → Later s start w → Later s start (s.db_save_collection c w).2
  runtime_created :
      {w : World} (workers : ℕ) → Later s start w → Later s start (s.create_runtime workers w).1
  request_created :
      {w : World} (c : RequestCase) (collection_id : ℤ)
      → Later s start w
      → Later s start (s.create_request c collection_id w).1
  request_saved :
      {w : World} (req : Request) → Later s start w → Later s start (s.db_save_request req w).2
  task_dispatched :
      {w : World} (req : Request) → Later s start w → Later s start (s.dispatch_task req w).1
  response_awaited :
      {w : World} (id timeout : ℤ)
      → Later s start w
      → Later s start (s.wait_for_response id timeout w).1

module _ {World : Type 0} (s : Services World) (start : World) where
  Ended : Bool × List ℤ × World → Type 0
  Ended out = Later s start out.2

  pub dispatch_all-Later :
      (rounds i : ℕ) (plan : RunPlan) (collection_id : ℤ) (ids : List ℤ) (w : World)
      → Later s start w
      → Later s start (dispatch_all s rounds i plan collection_id ids w).2
  unfolding dispatch_all Ended
  dispatch_all-Later zero i plan collection_id ids w l = l
  dispatch_all-Later (suc rounds) i plan collection_id ids w l =
      let c = get_or plan.cases i zero_case in
      let (o, w1) = s.create_request c collection_id w in
      let l1 = request_created c collection_id l in
      elim o
        as (λ req. Ended (elim req as (λ _. Bool × List ℤ × World) [
          | none ↦ (false, ids, w1)
          | some r ↦
              (let (saved, r', w2) = s.db_save_request r w1 in
                let (dispatched, w3) = s.dispatch_task r' w2 in
                let ids' = set ids i r'.id in
                let rest = dispatch_all s rounds (i + 1) plan collection_id ids' w3 in
                if not saved
                then (false, ids, w2)
                else if dispatched
                then rest
                else (false, ids', w3))
        ])) [
          | none ↦ l1
          | some r ↦
              let (saved, r', w2) = s.db_save_request r w1 in
              let (dispatched, w3) = s.dispatch_task r' w2 in
              let l2 = request_saved r l1 in
              let l3 = task_dispatched r' l2 in
              if_cases Ended (not saved) (λ _. l2)
                λ _.
                  if_cases Ended dispatched
                    (λ _.
                      dispatch_all-Later rounds (i + 1) plan collection_id (set ids i r'.id) w3 l3)
                    (λ _. l3)
        ]
