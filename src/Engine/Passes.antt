-- ===== src/Engine/Passes.antt =====
-- `run_plan` of src/core/engine.c: what the exit code says of the results.
use fman.Prelude.{
  ℕ, at_or_past, zero, suc, ◌+◌, ◌≤◌, ◌<◌, ◌≡◌, ◌≢◌, refl, sym, ap, ◌∙◌, inl, inr, Bool, true,
  false, ◌&&◌, List, Option, none, some, leb, if_cases, get_or, arith, length, length-set,
  get_or-set_self, get_or-set_ne, subst, both_if,
}
use fman.Prelude.Int.{ℤ, negsuc}
use fman.Models.{Response}
use fman.Assertion.{eval_assertion}
use fman.RunPlan.{RequestCase, RunPlan, max_case_assertions, zero_case, zero_assertion}
use fman.RunPlan.Results.{RequestCaseResult, RunResult, zero_case_result}
use fman.Engine.{Services, timeout_of, eval_assertions, collect_case, collect_all}

abbrev passed_at : RequestCase → Response → ℕ → Bool
passed_at c resp j =
    (eval_assertion (some resp) (some (get_or c.assertions j zero_assertion))).passed

-- The case has at most 32 assertions in use, and a response on which each of them passes.
pub record HasPassed (c : RequestCase) (cr : RequestCaseResult) : Type 0 where
  pub resp : Response
  pub response_is : cr.response ≡ some resp
  pub request_is : cr.request_ok ≡ true
  pub fits : c.assertion_count ≤ max_case_assertions
  pub passes :
      (j : ℕ)
      → j < c.assertion_count
      → (eval_assertion (some resp) (some (get_or c.assertions j zero_assertion))).passed ≡ true

abbrev pub flags : RunResult → Bool
flags result = result.all_requests_ok && result.all_assertions_ok

both : (a b : Bool) → (a && b) ≡ true → (a ≡ true) × (b ≡ true)
both true b e = (refl, e)
both false b e = absurd (cc e)

passed_first :
    (rounds j : ℕ) (c : RequestCase) (resp : Response)
    → passed_at c resp j ≡ true
    → ((k : ℕ) → k < rounds → passed_at c resp (j + 1 + k) ≡ true)
    → (k : ℕ) → k < suc rounds
    → passed_at c resp (j + k) ≡ true
passed_first rounds j c resp passed later zero lt =
    subst (λ n. passed_at c resp n ≡ true) {x = j} (omega arith) passed
passed_first rounds j c resp passed later (suc k) lt =
    subst (λ n. passed_at c resp n ≡ true) {x = j + 1 + k} (omega arith) (later k (omega arith))

-- Only passing assertions, for which there is room, leave the flag.
eval-passes :
    (rounds j : ℕ) (c : RequestCase) (resp : Response) (cr : RequestCaseResult) (ok : Bool)
    → cr.assertion_result_count ≤ max_case_assertions
    → (eval_assertions rounds j c resp cr ok).1 ≡ true
    → (ok ≡ true)
      × (cr.assertion_result_count + rounds ≤ max_case_assertions)
      × ((k : ℕ) → k < rounds → passed_at c resp (j + k) ≡ true)
unfolding eval_assertions
eval-passes zero j c resp cr ok h = λ e. (e, omega arith, λ k lt. absurd (omega arith))
eval-passes (suc rounds) j c resp cr ok h =
    if_cases
      (λ (out : RequestCaseResult × Bool).
        out.1 ≡ true
        → (ok ≡ true)
          × (cr.assertion_result_count + suc rounds ≤ max_case_assertions)
          × ((k : ℕ) → k < suc rounds → passed_at c resp (j + k) ≡ true))
      (leb max_case_assertions cr.assertion_result_count) (λ full e. absurd (cc e))
      λ room e.
        let (now, fits, later) = eval-passes rounds (j + 1) c resp _ _ (ground (arith, room)) e in
        let (passed, before) = both_if _ _ now in
        (before, omega (arith, fits), passed_first rounds j c resp passed later)

pub eval_keeps :
    (rounds j : ℕ) (c : RequestCase) (resp : Response) (cr : RequestCaseResult) (ok : Bool)
    → ((eval_assertions rounds j c resp cr ok).0.response ≡ cr.response)
      × ((eval_assertions rounds j c resp cr ok).0.request_ok ≡ cr.request_ok)
unfolding eval_assertions
eval_keeps zero j c resp cr ok = (refl, refl)
eval_keeps (suc rounds) j c resp cr ok =
    if_cases
      (λ (out : RequestCaseResult × Bool).
        (out.0.response ≡ cr.response) × (out.0.request_ok ≡ cr.request_ok))
      (leb max_case_assertions cr.assertion_result_count) (λ _. (refl, refl))
      λ _. eval_keeps rounds (j + 1) c resp _ _

pub collect_case-length :
    (c : RequestCase) (i : ℕ) (resp : Option Response) (result : RunResult)
    → length (collect_case c i resp result).case_results ≡ length result.case_results
unfolding collect_case
collect_case-length c i none result = length-set result.case_results i _
collect_case-length c i (some resp) result = length-set result.case_results i _

collect_case_others :
    (c : RequestCase) (i j : ℕ) (resp : Option Response) (result : RunResult)
    → i ≢ j
    → get_or (collect_case c i resp result).case_results j zero_case_result
      ≡ get_or result.case_results j zero_case_result
unfolding collect_case
collect_case_others c i j none result = get_or-set_ne result.case_results i j _ zero_case_result
collect_case_others c i j (some resp) result =
    get_or-set_ne result.case_results i j _ zero_case_result

collect_case-HasPassed :
    (c : RequestCase) (i : ℕ) (resp : Option Response) (result : RunResult)
    → i < length result.case_results
    → flags (collect_case c i resp result) ≡ true
    → (flags result ≡ true)
      × HasPassed c (get_or (collect_case c i resp result).case_results i zero_case_result)
unfolding collect_case
collect_case-HasPassed c i none result lt e = absurd (cc e)
collect_case-HasPassed c i (some resp) result lt e =
    let (requests, assertions) = both _ _ e in
    let cr : RequestCaseResult = record (get_or result.case_results i zero_case_result) {
      response = some resp;
      request_ok = true;
      assertions_ok = true;
      assertion_result_count = 0;
    } in
    let (before, fits, passes) =
      eval-passes c.assertion_count 0 c resp cr result.all_assertions_ok (omega arith) assertions in
    let (response_is, request_is) =
      eval_keeps c.assertion_count 0 c resp cr result.all_assertions_ok in
    (
      ap (λ b. b && result.all_assertions_ok) requests ∙ before,
      subst (HasPassed c) (sym (get_or-set_self result.case_results i _ zero_case_result lt))
          (record {
            resp = resp;
            response_is = response_is;
            request_is = request_is;
            fits = omega (arith, fits);
            passes = λ j h.
                subst (λ n. passed_at c resp n ≡ true) {x = 0 + j} (omega arith) (passes j h);
          }),
    )

module _ {World : Type 0} (s : Services World) where
  pub collect_all-HasPassed :
      (rounds i : ℕ) (plan : RunPlan) (ids : List ℤ) (result : RunResult) (w : World)
      → i + rounds ≤ length result.case_results
      → flags (collect_all s rounds i plan ids result w).0 ≡ true
      → (flags result ≡ true)
        × ((j : ℕ)
            → j < i
            → get_or (collect_all s rounds i plan ids result w).0.case_results j zero_case_result
              ≡ get_or result.case_results j zero_case_result)
        × ((j : ℕ)
            → i ≤ j
            → j < i + rounds
            → HasPassed (get_or plan.cases j zero_case) (
                get_or
                  (collect_all s rounds i plan ids result w).0.case_results
                  j
                  zero_case_result))
  unfolding collect_all
  collect_all-HasPassed zero i plan ids result w len e =
      (e, λ j lt. refl, λ j le lt. absurd (omega arith))
  collect_all-HasPassed (suc rounds) i plan ids result w len e =
      let c = get_or plan.cases i zero_case in
      let (resp, w') = s.wait_for_response (get_or ids i (negsuc 0)) (timeout_of c plan) w in
      let result' = collect_case c i resp result in
      let (flags', kept, later) =
        collect_all-HasPassed rounds (i + 1) plan ids result' w'
          (subst (λ n. i + 1 + rounds ≤ n) (sym (collect_case-length c i resp result))
            (omega arith))
          e in
      let (before, here) = collect_case-HasPassed c i resp result (omega arith) flags' in
      (
        before,
        λ j lt. kept j (omega arith) ∙ collect_case_others c i j resp result (omega arith),
        λ j le lt. elim (at_or_past i j le) [
          | inl same ↦
              subst
                (λ n. HasPassed (get_or plan.cases n zero_case) (
                  get_or (collect_all s rounds (i + 1) plan ids result' w').0.case_results n
                    zero_case_result))
                same (subst (HasPassed c) (sym (kept i (omega arith))) here)
          | inr past ↦ later j past (omega arith)
        ],
      )
