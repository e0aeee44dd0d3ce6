-- ===== src/Engine/Exit.antt =====
-- `run_plan` of src/core/engine.c: its exit code.
use fman.Prelude.{
  ℕ, ◌+◌, ◌≤◌, ◌<◌, ◌≡◌, refl, sym, subst, ap, ◌∙◌, ◌⊎◌, inl, inr, Bool, true, false, not, codes,
  List, Option, none, some, ltb, if◌then◌else◌, if_cases, Bool-cases, get_or, replicate, arith,
  length, length-replicate,
}
use fman.Prelude.Int.{ℤ, pos, negsuc}
use fman.Models.{Collection}
use fman.RunPlan.{RunPlan, max_request_cases, zero_case}
use fman.RunPlan.Results.{RunResult, zero_run_result, zero_case_result, init_run_result}
use fman.Engine.{
  Services, dispatch_all, collect_all, finish, run_cases, with_collection, or_text, run_plan,
}
use fman.Engine.Passes.{HasPassed, flags, collect_all-HasPassed}
use fman.Engine.Later.{
  Later, at_start, initialised, collection_created, collection_saved, runtime_created,
}

-- The exit code is the one in the result, and 0 or 1.
pub Reports : {World : Type 0} → ℤ × RunResult × World → Type 0
Reports out = (out.1.exit_code ≡ out.0) × ((out.0 ≡ pos 0) ⊎ (out.0 ≡ pos 1))

-- The exit code 0 says of every case of the plan that it has passed.
Passes : {World : Type 0} → RunPlan → ℤ × RunResult × World → Type 0
Passes plan out =
    out.0 ≡ pos 0
    → (j : ℕ) → j < plan.case_count
    → HasPassed (get_or plan.cases j zero_case) (get_or out.1.case_results j zero_case_result)

pub fresh_room :
    (plan : RunPlan) (result : RunResult)
    → plan.case_count ≤ max_request_cases
    → 0 + plan.case_count ≤ length (init_run_result result).case_results
unfolding init_run_result zero_run_result
fresh_room plan result few =
    subst (λ n. 0 + plan.case_count ≤ n) (sym (length-replicate max_request_cases zero_case_result))
      (omega arith)

module _ {World : Type 0} (s : Services World) where
  finish-Reports :
      (b : Bool) (result : RunResult) (w : World)
      → Reports (finish s (if b then pos 0 else pos 1) result w)
  unfolding Reports finish
  finish-Reports true result w = (refl, inl refl)
  finish-Reports false result w = (refl, inr refl)

  failed-Reports : (result : RunResult) (w : World) → Reports (finish s (pos 1) result w)
  failed-Reports result w = finish-Reports false result w

  failed-Passes :
      (plan : RunPlan) (result : RunResult) (w : World) → Passes plan (finish s (pos 1) result w)
  unfolding Passes finish
  failed-Passes plan result w = λ zero. absurd (cc zero)

  finish-Passes :
      (plan : RunPlan) (result : RunResult) (w : World)
      → (flags result ≡ true
          → (j : ℕ) → j < plan.case_count
          → HasPassed
              (get_or plan.cases j zero_case)
              (get_or result.case_results j zero_case_result))
      → Passes plan (finish s (if flags result then pos 0 else pos 1) result w)
  unfolding Passes finish
  finish-Passes plan result w passed = elim (Bool-cases (flags result)) [
    | inl ok ↦ λ _. passed ok
    | inr bad ↦ λ zero. absurd (cc (sym zero ∙ ap (λ b. if b then pos 0 else pos 1) bad))
  ]

  abbrev pub started : RunPlan → RunResult → RunResult
  started plan result = record result {
    all_requests_ok = true;
    all_assertions_ok = true;
    case_result_count = plan.case_count;
  }

  abbrev collected : RunPlan → RunResult → List ℤ → World → RunResult × World
  collected plan result ids w = collect_all s plan.case_count 0 plan ids (started plan result) w

  -- A run fails before the cases, or it is what `run_cases` gives.
  with_collection_cases :
      (P : ℤ × RunResult × World → Type 0) (plan : RunPlan) (coll : Option Collection)
      (result : RunResult) (start w : World)
      → Later s start w
      → ((r : RunResult) (w' : World) → P (finish s (pos 1) r w'))
      → ((id : ℤ) (w' : World) → Later s start w' → P (run_cases s plan id result w'))
      → P (with_collection s plan coll result w)
  unfolding with_collection
  with_collection_cases P plan none result start w l failed ran = failed result w
  with_collection_cases P plan (some coll) result start w l failed ran =
      let (saved, coll', w1) = s.db_save_collection coll w in
      let workers = if ltb 0 plan.worker_count then plan.worker_count else 1 in
      if_cases P (not saved) (λ _. failed result w1)
        λ _.
          if_cases P (s.create_runtime workers w1).0
            (λ _. ran coll'.id _ (runtime_created workers (collection_saved coll l)))
            (λ _. failed result _)

  pub run_plan_cases :
      (P : ℤ × RunResult × World → Type 0) (plan : RunPlan) (result : RunResult) (w : World)
      → ((r : RunResult) (w' : World) → P (finish s (pos 1) r w'))
      → (plan.case_count ≤ max_request_cases
          → (id : ℤ) (w' : World) → Later s w w'
          → P (run_cases s plan id (init_run_result result) w'))
      → P (run_plan s plan result w)
  unfolding run_plan
  run_plan_cases P plan result w failed ran =
      let fresh = init_run_result result in
      let path = or_text s plan.db_path (codes "default.db") in
      let name = or_text s plan.collection_name (codes "default") in
      let (opened, w1) = s.db_init path w in
      let (coll, w2) = s.create_collection name w1 in
      let l = collection_created name (initialised path at_start) in
      if_cases P (ltb max_request_cases plan.case_count) (λ _. failed fresh w)
        λ few.
          if_cases P opened
            (λ _. with_collection_cases P plan coll fresh w w2 l failed (ran (ground arith)))
            (λ _. failed fresh w1)

  pub run_cases_cases :
      (P : ℤ × RunResult × World → Type 0) (plan : RunPlan) (id : ℤ) (result : RunResult)
      (w : World)
      → ((r : RunResult) (w' : World) → P (finish s (pos 1) r w'))
      → ((ids : List ℤ) (w1 : World)
          → P (
              finish s
                (if flags (collected plan result ids w1).0 then pos 0 else pos 1)
                (collected plan result ids w1).0
                (collected plan result ids w1).1))
      → P (run_cases s plan id result w)
  unfolding run_cases
  run_cases_cases P plan id result w failed ran =
      let (done, ids, w1) =
        dispatch_all s plan.case_count 0 plan id (replicate max_request_cases (negsuc 0)) w in
      if_cases P done (λ _. ran ids w1) (λ _. failed _ w1)

  -- The exit code is the one that the result records, and it is 0 or 1.
  pub run_plan-Reports :
      (plan : RunPlan) (result : RunResult) (w : World) → Reports (run_plan s plan result w)
  run_plan-Reports plan result w = run_plan_cases Reports plan result w failed-Reports λ _ id w' _.
      run_cases_cases Reports plan id (init_run_result result) w' failed-Reports
        λ ids w1. finish-Reports _ _ _

  -- If the run exits with 0, then each case of the plan has at most 32 assertions in use and a response in the result,
  -- and each assertion of the case passes on that response.
  pub run_plan_passes :
      (plan : RunPlan) (result : RunResult) (w : World)
      → (run_plan s plan result w).0 ≡ pos 0
      → (j : ℕ) → j < plan.case_count
      → HasPassed
          (get_or plan.cases j zero_case)
          (get_or (run_plan s plan result w).1.case_results j zero_case_result)
  unfolding Passes
  run_plan_passes plan result w =
      run_plan_cases (Passes plan) plan result w (failed-Passes plan) λ few id w' _.
        run_cases_cases (Passes plan) plan id (init_run_result result) w' (failed-Passes plan)
          λ ids w1.
            finish-Passes plan (collected plan (init_run_result result) ids w1).0 _ λ ok j lt.
              (collect_all-HasPassed s plan.case_count 0 plan ids
                  (started plan (init_run_result result)) w1 (fresh_room plan result few) ok).2
                j (omega arith) (omega arith)
