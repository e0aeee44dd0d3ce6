-- ===== src/Engine/Keeps.antt =====
-- `run_plan` of src/core/engine.c: a property that the services keep, up to the clean-up that ends every run.
use fman.Prelude.{
  ℕ, zero, suc, ◌+◌, ◌≡◌, refl, Bool, false, not, Option, none, some, if◌then◌else◌, if_cases, List,
  ltb, get_or, set, replicate, Text, codes,
}
use fman.Prelude.Int.{ℤ, pos, negsuc}
use fman.Models.{Request, Collection}
use fman.RunPlan.{RequestCase, RunPlan, max_request_cases, zero_case}
use fman.RunPlan.Results.{RunResult, init_run_result}
use fman.Engine.{
  Services, dispatch_all, collect_all, finish, run_cases, with_collection, run_plan, or_text,
}

-- `P` is kept up to `create_runtime`, from which on `Q` is kept.
pub record Keeps {World : Type 0} (s : Services World) (P Q : World → Type 0) : Type 0 where
  pub weaker : (w : World) → P w → Q w
  pub db_init : (path : Text) (w : World) → P w → P (s.db_init path w).1
  pub create_collection : (name : Text) (w : World) → P w → P (s.create_collection name w).1
  pub db_save_collection : (coll : Collection) (w : World) → P w → P (s.db_save_collection coll w).2
  pub create_runtime : (workers : ℕ) (w : World) → P w → Q (s.create_runtime workers w).1
  pub create_request : (c : RequestCase) (id : ℤ) (w : World) → Q w → Q (s.create_request c id w).1
  pub db_save_request : (req : Request) (w : World) → Q w → Q (s.db_save_request req w).2
  pub dispatch_task : (req : Request) (w : World) → Q w → Q (s.dispatch_task req w).1
  pub wait_for_response :
      (id timeout : ℤ) (w : World) → Q w → Q (s.wait_for_response id timeout w).1

module _ {World : Type 0} (s : Services World) (P Q : World → Type 0) (law : Keeps s P Q) where
  dispatch_all-keeps :
      (rounds i : ℕ) (plan : RunPlan) (collection_id : ℤ) (ids : List ℤ) (w : World)
      → Q w
      → Q (dispatch_all s rounds i plan collection_id ids w).2
  unfolding dispatch_all
  dispatch_all-keeps zero i plan collection_id ids w p = p
  dispatch_all-keeps (suc rounds) i plan collection_id ids w p =
      let c = get_or plan.cases i zero_case in
      let (req, w1) = s.create_request c collection_id w in
      let p1 : Q w1 = law.create_request c collection_id w p in
      elim req
        as (λ req.
          Q
            (elim req as (λ _. Bool × List ℤ × World) [
              | none ↦ (false, ids, w1)
              | some r ↦
                  (let (saved, r', w2) = s.db_save_request r w1 in
                    let (dispatched, w3) = s.dispatch_task r' w2 in
                    let ids' = set ids i r'.id in
                    let rest = dispatch_all s rounds (i + 1) plan collection_id ids' w3 in
                    if not saved
                    then (false, ids, w2)
                    else if dispatched
                    then rest
                    else (false, ids', w3))
            ]).2) [
              | none ↦ p1
              | some r ↦
                  (let (saved, r', w2) = s.db_save_request r w1 in
                    let (dispatched, w3) = s.dispatch_task r' w2 in
                    let p2 : Q w2 = law.db_save_request r w1 p1 in
                    let p3 : Q w3 = law.dispatch_task r' w2 p2 in
                    if_cases (λ (out : Bool × List ℤ × World). Q out.2) (not saved) (λ _. p2)
                      λ _.
                        if_cases (λ (out : Bool × List ℤ × World). Q out.2) dispatched
                          (λ _. dispatch_all-keeps rounds (i + 1) plan collection_id _ w3 p3)
                          (λ _. p3))
            ]

  collect_all-keeps :
      (rounds i : ℕ) (plan : RunPlan) (ids : List ℤ) (result : RunResult) (w : World)
      → Q w
      → Q (collect_all s rounds i plan ids result w).1
  unfolding collect_all
  collect_all-keeps zero i plan ids result w p = p
  collect_all-keeps (suc rounds) i plan ids result w p =
      collect_all-keeps rounds (i + 1) plan ids _ _ (law.wait_for_response _ _ w p)

  -- The run ends with a clean-up, of a world that has the property.
  unfoldable pub Cleaned : ℤ × RunResult × World → Type 0
  Cleaned out = (w : World) × Q w × (out.2 ≡ s.clean_up w)

  finish-Cleaned :
      (code : ℤ) (result : RunResult) (w : World) → Q w → Cleaned (finish s code result w)
  unfolding Cleaned finish
  finish-Cleaned code result w p = (w, p, refl)

  run_cases-Cleaned :
      (plan : RunPlan) (id : ℤ) (result : RunResult) (w : World)
      → Q w
      → Cleaned (run_cases s plan id result w)
  unfolding run_cases
  run_cases-Cleaned plan id result w p =
      let (done, ids, w1) =
        dispatch_all s plan.case_count 0 plan id (replicate max_request_cases (negsuc 0)) w in
      let p1 : Q w1 = dispatch_all-keeps plan.case_count 0 plan id _ w p in
      if_cases Cleaned done
        (λ _. finish-Cleaned _ _ _ (collect_all-keeps plan.case_count 0 plan ids _ w1 p1))
        (λ _. finish-Cleaned _ _ w1 p1)

  with_collection-Cleaned :
      (plan : RunPlan) (coll : Option Collection) (result : RunResult) (w : World)
      → P w
      → Cleaned (with_collection s plan coll result w)
  unfolding with_collection
  with_collection-Cleaned plan none result w p = finish-Cleaned _ _ w (law.weaker w p)
  with_collection-Cleaned plan (some coll) result w p =
      let (saved, coll', w1) = s.db_save_collection coll w in
      let workers = if ltb 0 plan.worker_count then plan.worker_count else 1 in
      let p1 : P w1 = law.db_save_collection coll w p in
      let p2 = law.create_runtime workers w1 p1 in
      if_cases Cleaned (not saved) (λ _. finish-Cleaned _ _ w1 (law.weaker w1 p1))
        λ _.
          if_cases Cleaned (s.create_runtime workers w1).0
            (λ _. run_cases-Cleaned plan coll'.id result _ p2) (λ _. finish-Cleaned _ _ _ p2)

  pub run_plan-Cleaned :
      (plan : RunPlan) (result : RunResult) (w : World) → P w → Cleaned (run_plan s plan result w)
  unfolding run_plan
  run_plan-Cleaned plan result w p =
      let fresh = init_run_result result in
      let path = or_text s plan.db_path (codes "default.db") in
      let name = or_text s plan.collection_name (codes "default") in
      let (opened, w1) = s.db_init path w in
      let (coll, w2) = s.create_collection name w1 in
      let p1 : P w1 = law.db_init path w p in
      if_cases Cleaned (ltb max_request_cases plan.case_count)
        (λ _. finish-Cleaned (pos 1) fresh w (law.weaker w p))
        λ _.
          if_cases Cleaned opened
            (λ _. with_collection-Cleaned plan coll _ w2 (law.create_collection name w1 p1))
            (λ _. finish-Cleaned (pos 1) fresh w1 (law.weaker w1 p1))
