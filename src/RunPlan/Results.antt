-- ===== src/RunPlan/Results.antt =====
-- include/core/run_plan.h and src/core/run_plan.c: the results of a run.
use fman.Prelude.{
  ℕ, zero, suc, ◌+◌, Bool, false, List, [], ◌∷◌, Option, none, some, replicate, get_or,
}
use fman.Prelude.Int.{ℤ, pos}
use fman.Models.{Response, AssertionResult, assert_status_eq, value_none}
use fman.RunPlan.{max_request_cases, max_case_assertions}

pub record RequestCaseResult : Type 0 where
  pub response : Option Response
  pub assertion_results : List AssertionResult
  pub assertion_result_count : ℕ
  pub request_ok : Bool
  pub assertions_ok : Bool

pub record RunResult : Type 0 where
  pub case_results : List RequestCaseResult
  pub case_result_count : ℕ
  pub all_requests_ok : Bool
  pub all_assertions_ok : Bool
  pub exit_code : ℤ

-- What `memset(..., 0, ...)` leaves.
abbrev pub zero_assertion_result : AssertionResult
zero_assertion_result = record {
  type = assert_status_eq;
  passed = false;
  expected = value_none;
  actual = value_none;
  message = none;
}

unfoldable pub zero_case_result : RequestCaseResult
zero_case_result = record {
  response = none;
  assertion_results = replicate max_case_assertions zero_assertion_result;
  assertion_result_count = 0;
  request_ok = false;
  assertions_ok = false;
}

unfoldable pub zero_run_result : RunResult
unfolding zero_case_result
zero_run_result = record {
  case_results = replicate max_request_cases zero_case_result;
  case_result_count = 0;
  all_requests_ok = false;
  all_assertions_ok = false;
  exit_code = pos 0;
}

unfoldable pub init_run_result : RunResult → RunResult
unfolding zero_run_result
init_run_result result = record zero_run_result {
  exit_code = pos 1;
  all_requests_ok = false;
  all_assertions_ok = false;
}

-- The responses that `free_response` is called on.
pub freed_responses : ℕ → ℕ → List RequestCaseResult → List Response
freed_responses zero i results = []
freed_responses (suc rounds) i results =
    let rest = freed_responses rounds (i + 1) results in
    elim (get_or results i zero_case_result).response [ none ↦ rest | some r ↦ r ∷ rest ]

-- The responses that are given back, in order, and the result that is left.
unfoldable pub free_run_result : RunResult → List Response × RunResult
unfolding freed_responses zero_run_result
free_run_result result =
    (freed_responses result.case_result_count 0 result.case_results, zero_run_result)
