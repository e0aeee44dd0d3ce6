-- ===== src/Commands/Print.antt =====
-- `print_run_result` of src/cli/commands.c and `print_usage` of src/cli/main.c: the bytes that they write.
use fman.Prelude.{
  ℕ, zero, suc, ◌+◌, List, [], ◌∷◌, ◌++◌, Option, none, some, get_or, if◌then◌else◌, Text, codes,
  decimal, c_string,
}
use fman.Models.{AssertionResult, Response}
use fman.RunPlan.Results.{RequestCaseResult, RunResult, zero_case_result, zero_assertion_result}
use fman.Cli.Output.{written, print_assertion_result}
use fman.Cli.Output.Summary.{print_response_summary}

-- The results from the j-th on.
unfoldable pub print_assertion_results : List AssertionResult → ℕ → ℕ → Text
print_assertion_results results j zero = []
print_assertion_results results j (suc n) =
    print_assertion_result (some (get_or results j zero_assertion_result))
    ++ print_assertion_results results (j + 1) n

unfoldable pub print_assertions : RequestCaseResult → ℕ → Text
unfolding print_assertion_results
print_assertions c zero = []
print_assertions c (suc n) = written (
    codes "\nAssertions:\n"
    ∷ print_assertion_results c.assertion_results 0 (suc n)
    ∷ codes "\nAssertion Result: "
    ∷ (if c.assertions_ok then codes "PASS" else codes "FAIL")
    ∷ codes "\n"
    ∷ [])

-- The i-th case, by its response.
unfoldable pub print_case : (ℕ → Text) → ℕ → RequestCaseResult → Option Response → Text
unfolding print_assertions
print_case three_places i c none =
    written (codes "Request " ∷ decimal (i + 1) ∷ codes " failed or timed out.\n" ∷ [])
print_case three_places i c (some response) =
    print_response_summary three_places (some response)
    ++ print_assertions c c.assertion_result_count

unfoldable pub print_cases : (ℕ → Text) → List RequestCaseResult → ℕ → ℕ → Text
unfolding print_case
print_cases three_places results i zero = []
print_cases three_places results i (suc n) =
    let c = get_or results i zero_case_result in
    print_case three_places i c c.response ++ print_cases three_places results (i + 1) n

unfoldable pub print_run_result : (ℕ → Text) → Option RunResult → Text
unfolding print_cases
print_run_result three_places none = []
print_run_result three_places (some result) =
    print_cases three_places result.case_results 0 result.case_result_count

unfoldable pub print_usage : Text → Text
print_usage program_name =
    let name = c_string program_name in
    written (
      codes "Usage:\n\t"
      ∷ name
      ∷ codes
          " GET <url> [options]\n\nUsage:\n\t--expect-status <code>\tExpect HTTP status code\n\n"
      ∷ codes "\nExamples:\n\t"
      ∷ name
      ∷ codes " GET https://example.com\n\t"
      ∷ name
      ∷ codes " GET google.com\n\t"
      ∷ name
      ∷ codes " GET https://example.com --expect-status 200\n\n"
      ∷ [])
