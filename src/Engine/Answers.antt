-- ===== src/Engine/Answers.antt =====
-- `run_plan` of src/core/engine.c: the request that the response of a case answers.
pub mod Sent
use fman.Prelude.{
  Bool-cases, ℕ, at_or_past, zero, suc, ◌+◌, ◌≤◌, ◌<◌, ◌≡◌, refl, sym, ap, ◌∙◌, inl, inr, Bool,
  true, not, if_cases, false, List, Option, none, some, get_or, arith, length, length-set, set,
  subst, if◌then◌else◌, replicate, length-replicate, get_or-set_self, get_or-set_ne,
}
use fman.Prelude.Int.{ℤ, pos, negsuc}
use fman.Models.{Request, Response}
use fman.RunPlan.{RequestCase, RunPlan, max_case_assertions, max_request_cases, zero_case}
use fman.RunPlan.Results.{RequestCaseResult, RunResult, zero_case_result, init_run_result}
use fman.Engine.{
  Services, timeout_of, collect_case, collect_all, dispatch_all, finish, run_cases, run_plan,
}
use fman.Engine.Passes.{flags, eval_keeps, collect_case-length, collect_all-HasPassed}
use fman.Engine.Exit.{run_plan_cases, fresh_room, started}
use fman.Engine.Later.{Later, response_awaited, dispatch_all-Later}
use Sent.{IsSent, Sends, dispatch_all-Sends}

module _ {World : Type 0} (s : Services World) where
  -- The response of the case is what a call of `wait_for_response` for the id returned, behind calls of the run that
  -- began at the start.
  pub record IsRead (start : World) (id : ℤ) (cr : RequestCaseResult) : Type 0 where
    pub timeout : ℤ
    pub before : World
    pub later : Later s start before
    pub response_is : cr.response ≡ (s.wait_for_response id timeout before).0

  collect_case_response :
      (c : RequestCase) (i : ℕ) (resp : Option Response) (result : RunResult)
      → i < length result.case_results
      → flags (collect_case c i resp result) ≡ true
      → (get_or (collect_case c i resp result).case_results i zero_case_result).response ≡ resp
  unfolding collect_case
  collect_case_response c i none result lt e = absurd (cc e)
  collect_case_response c i (some resp) result lt e =
      ap (λ (cr : RequestCaseResult). cr.response)
        (get_or-set_self result.case_results i _ zero_case_result lt)
      ∙ (eval_keeps c.assertion_count 0 c resp _ result.all_assertions_ok).0

  collect_all-IsRead :
      (rounds i : ℕ) (plan : RunPlan) (ids : List ℤ) (result : RunResult) (start w : World)
      → Later s start w
      → i + rounds ≤ length result.case_results
      → flags (collect_all s rounds i plan ids result w).0 ≡ true
      → (j : ℕ) → i ≤ j
      → j < i + rounds
      → IsRead start
          (get_or ids j (negsuc 0))
          (get_or (collect_all s rounds i plan ids result w).0.case_results j zero_case_result)
  unfolding collect_all
  collect_all-IsRead zero i plan ids result start w l len e j le lt = absurd (omega arith)
  collect_all-IsRead (suc rounds) i plan ids result start w l len e j le lt =
      let c = get_or plan.cases i zero_case in
      let timeout = timeout_of c plan in
      let (resp, w') = s.wait_for_response (get_or ids i (negsuc 0)) timeout w in
      let result' = collect_case c i resp result in
      let len' : i + 1 + rounds ≤ length result'.case_results =
        subst (λ n. i + 1 + rounds ≤ n) (sym (collect_case-length c i resp result)) (omega arith) in
      let (flags', kept, _) = collect_all-HasPassed s rounds (i + 1) plan ids result' w' len' e in
      let here : IsRead start (get_or ids i (negsuc 0)) (
          get_or (collect_all s rounds (i + 1) plan ids result' w').0.case_results i
            zero_case_result) =
        record {
          timeout = timeout;
          before = w;
          later = l;
          response_is =
              ap (λ (cr : RequestCaseResult). cr.response) (kept i (omega arith))
              ∙ collect_case_response c i resp result (omega arith) flags';
        } in
      elim (at_or_past i j le) [
        | inl same ↦
            subst
              (λ n. IsRead start (get_or ids n (negsuc 0)) (
                get_or (collect_all s rounds (i + 1) plan ids result' w').0.case_results n
                  zero_case_result))
              same here
        | inr past ↦
            collect_all-IsRead rounds (i + 1) plan ids result' start w'
              (response_awaited (get_or ids i (negsuc 0)) timeout l) len' e j past (omega arith)
      ]

  -- The exit code 0 says of every case that its response answers a request for it.
  Answers : World → RunPlan → ℤ × RunResult × World → Type 0
  Answers start plan out =
      out.0 ≡ pos 0
      → (j : ℕ) → j < plan.case_count
      → (id : ℤ) × IsSent s start (get_or plan.cases j zero_case) id
        × IsRead start id (get_or out.1.case_results j zero_case_result)

  failed-Answers :
      (start : World) (plan : RunPlan) (result : RunResult) (w : World)
      → Answers start plan (finish s (pos 1) result w)
  unfolding Answers finish
  failed-Answers start plan result w e = absurd (cc e)

  finish-Answers :
      (start : World) (plan : RunPlan) (result : RunResult) (w : World)
      → (flags result ≡ true
          → (j : ℕ) → j < plan.case_count
          → (id : ℤ) × IsSent s start (get_or plan.cases j zero_case) id
            × IsRead start id (get_or result.case_results j zero_case_result))
      → Answers start plan (finish s (if flags result then pos 0 else pos 1) result w)
  unfolding Answers finish
  finish-Answers start plan result w passed = elim (Bool-cases (flags result)) [
    | inl ok ↦ λ _. passed ok
    | inr bad ↦ λ e. absurd (cc (sym e ∙ ap (λ b. if b then pos 0 else pos 1) bad))
  ]

  run_cases-Answers :
      (start : World) (plan : RunPlan) (id : ℤ) (result : RunResult) (w : World)
      → Later s start w
      → plan.case_count ≤ max_request_cases
      → 0 + plan.case_count ≤ length result.case_results
      → Answers start plan (run_cases s plan id result w)
  unfolding run_cases Sends
  run_cases-Answers start plan id result w l few room =
      let fresh = replicate max_request_cases (negsuc 0) in
      let n = plan.case_count in
      let (done, ids, w1) = dispatch_all s n 0 plan id fresh w in
      if_cases (Answers start plan) done
        (λ ok.
          finish-Answers start plan (collect_all s n 0 plan ids (started s plan result) w1).0 _
            λ passed j lt. (
              get_or ids j (negsuc 0),
              (dispatch_all-Sends s start n 0 plan id fresh w l
                    (subst (λ k. 0 + n ≤ k) (sym (length-replicate max_request_cases (negsuc 0)))
                      (omega arith))
                    ok).1
                  j (omega arith) (omega arith),
              collect_all-IsRead n 0 plan ids (started s plan result) start w1
                  (dispatch_all-Later s start n 0 plan id fresh w l) room passed j (omega arith)
                  (omega arith),
            ))
        (λ _. failed-Answers start plan _ w1)

  -- If the run exits with 0, then for each case a request was created, saved under an id and dispatched, and the
  -- response of the case in the result is what a call of `wait_for_response` for this id returned, behind
  -- calls of the run.
  pub run_plan_answers :
      (plan : RunPlan) (result : RunResult) (w : World)
      → (run_plan s plan result w).0 ≡ pos 0
      → (j : ℕ) → j < plan.case_count
      → (id : ℤ) × IsSent s w (get_or plan.cases j zero_case) id
        × IsRead w id (get_or (run_plan s plan result w).1.case_results j zero_case_result)
  unfolding Answers
  run_plan_answers plan result w =
      run_plan_cases s (Answers w plan) plan result w (failed-Answers w plan) λ few id w' l.
        run_cases-Answers w plan id (init_run_result result) w' l few (fresh_room plan result few)
