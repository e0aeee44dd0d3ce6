-- ===== src/Commands/Exit.antt =====
-- src/cli/commands.c: what the exit code of a command says.
use fman.Prelude.{
  ℕ, ◌≤◌, ◌<◌, ◌≡◌, refl, sym, ap, ◌∙◌, inl, inr, Bool, true, false, not, ◌&&◌, List, [], ◌∷◌, none,
  some, is_some, Bool-cases, if_cases, ltb, length, get_or, arith, subst, codes,
}
use fman.Prelude.Int.{pos}
use fman.Models.{Response, Assertion}
use fman.Assertion.{eval_assertion}
use fman.RunPlan.{RunPlan, zero_case, zero_plan, zero_assertion, max_case_assertions, init_run_plan}
use fman.RunPlan.Results.{RunResult, zero_run_result, zero_case_result, init_run_result}
use fman.Cli.{CliOptions}
use fman.Cli.Bounds.{IsOptions}
use fman.Dsl.Parser.{dsl_parse_ok, DslParseError}
use fman.Dsl.Parser.Program.{Outcome}
use fman.Dsl.Parser.Program.Bounds.{Leaves}
use fman.Dsl.File.{Files, dsl_parse_run_plan_file, dsl_parse_run_plan_file-LeavesFile, LeavesFile}
use fman.Engine.{Services, run_plan}
use fman.Engine.Passes.{HasPassed}
use fman.Engine.Exit.{run_plan_passes}
use fman.Commands.{
  dup_string, get_case, with_assertions, copy_assertions, cli_options_to_run_plan, Done,
  run_get_command, run_parsed, run_run_command,
}
use fman.Commands.Copies.{copy_assertions-passes}

-- Each assertion of the options passes on the response.
pub record PassesAll (options : CliOptions) (resp : Response) : Type 0 where
  pub each :
      (j : ℕ)
      → j < options.assertion_count
      → (eval_assertion (some resp) (some (get_or options.assertions j zero_assertion))).passed
        ≡ true

-- Each case of the plan has passed in the result.
pub record PlanPassed (plan : RunPlan) (result : RunResult) : Type 0 where
  pub each :
      (j : ℕ)
      → j < plan.case_count
      → HasPassed (get_or plan.cases j zero_case) (get_or result.case_results j zero_case_result)

-- The plan of a single case, with copies of the assertions of the options.
record IsSingle (options : CliOptions) (plan : RunPlan) : Type 0 where
  single : plan.case_count ≡ 1
  allocs : List Bool
  fresh : List Assertion
  room : max_case_assertions ≤ length fresh
  count_is : (get_or plan.cases 0 zero_case).assertion_count ≡ options.assertion_count
  copies :
      (get_or plan.cases 0 zero_case).assertions
      ≡ (copy_assertions options.assertion_count 0 options.assertions fresh allocs).0

Builds : CliOptions → Bool × RunPlan → Type 0
Builds options out = out.0 ≡ true → IsSingle options out.1

fails_to_build : (options : CliOptions) (plan : RunPlan) → Builds options (false, plan)
unfolding Builds
fails_to_build options plan e = absurd (cc e)

cli_options_to_run_plan-Builds :
    (options : CliOptions) (plan : RunPlan) (allocs : List Bool)
    → Builds options (cli_options_to_run_plan options plan allocs)
unfolding cli_options_to_run_plan with_assertions get_case init_run_plan zero_plan zero_case Builds
cli_options_to_run_plan-Builds options plan allocs =
    let has_url : Bool = elim options.url [
      | none ↦ false
      | some [] ↦ false
      | some (_ ∷ _) ↦ true
    ] in
    let (db_path, allocs1) = dup_string (some (codes "runner.db")) allocs in
    let (collection_name, allocs2) = dup_string (some (codes "DEFAULT")) allocs1 in
    let (url, allocs3) = dup_string options.url allocs2 in
    if_cases (Builds options) (not has_url) (λ _. fails_to_build options _)
      λ _.
        if_cases (Builds options) (not (is_some db_path && is_some collection_name))
          (λ _. fails_to_build options _)
          λ _.
            if_cases (Builds options) (not (is_some url)) (λ _. fails_to_build options _)
              λ _.
                if_cases (Builds options) (ltb max_case_assertions options.assertion_count)
                  (λ _. fails_to_build options _)
                  λ _ _. record {
                    single = refl;
                    allocs = allocs3;
                    fresh = zero_case.assertions;
                    room = omega arith;
                    count_is = refl;
                    copies = refl;
                  }

-- What passes on the plan's case passes on the options.
single-passes :
    (options : CliOptions) (plan : RunPlan) (resp : Response)
    → IsOptions options
    → IsSingle options plan
    → ((j : ℕ)
        → j < (get_or plan.cases 0 zero_case).assertion_count
        → (eval_assertion
            (some resp)
            (some (get_or (get_or plan.cases 0 zero_case).assertions j zero_assertion))).passed
          ≡ true)
    → PassesAll options resp
single-passes options plan resp fits built passes = record {
  each = λ j lt.
      (copy_assertions-passes options.assertion_count 0 options.assertions built.fresh built.allocs
          resp (omega (arith, built.room, fits.bounded.count_fits))
          (λ i h. fits.fit i (omega arith))).1
        j (omega arith) (omega arith)
        (subst
          (λ (xs : List Assertion).
            (eval_assertion (some resp) (some (get_or xs j zero_assertion))).passed ≡ true)
          built.copies (passes j (omega (arith, built.count_is))));
}

module _ {World : Type 0} (s : Services World) where
  -- If the options are as `parse_cli_options` leaves them and `run_get_command` exits with 0, then it prints a result
  -- with a response, and each assertion of the options passes on that response, whichever allocations fail.
  pub run_get_command_passes :
      (options : CliOptions) (allocs : List Bool) (w : World)
      → IsOptions options
      → (run_get_command s options allocs w).exit_code ≡ pos 0
      → (result : RunResult) × (resp : Response) × ((run_get_command s options allocs w).printed
          ≡ some result)
        × ((get_or result.case_results 0 zero_case_result).response ≡ some resp)
        × PassesAll options resp
  unfolding run_get_command Builds
  run_get_command_passes options allocs w fits ok = elim (Bool-cases out.0) [
    | inr bad ↦ absurd (cc (rw (run_get_command, bad) at ok))
    | inl good ↦
        let built = cli_options_to_run_plan-Builds options (init_run_plan zero_plan) allocs good in
        let exit : (run_plan s out.1 fresh w).0 ≡ pos 0 = cc (rw (run_get_command, good) at ok) in
        let passed = run_plan_passes s out.1 fresh w exit 0 (omega (arith, built.single)) in
        (
          (run_plan s out.1 fresh w).1,
          passed.resp,
          rw (run_get_command, good) refl,
          passed.response_is,
          single-passes options out.1 passed.resp fits built passed.passes,
        )
  ]
    where
      out : Bool × RunPlan
      out = cli_options_to_run_plan options (init_run_plan zero_plan) allocs

      fresh : RunResult
      fresh = init_run_result zero_run_result

  -- `run_run_command` always returns, whatever the file holds and whichever allocations fail.
  pub run_run_command_returns :
      (files : Files) (error : DslParseError) (options : CliOptions) (allocs : List Bool)
      (w : World)
      → is_some (run_run_command s files error options allocs w) ≡ true
  unfolding run_run_command
  run_run_command_returns files error options allocs w =
      let (parsed, e, _) =
        dsl_parse_run_plan_file-LeavesFile files options.url zero_plan error allocs in
      rw (run_run_command, e) refl

  run_parsed_passes :
      (parsed : Outcome) (w : World)
      → LeavesFile zero_plan parsed
      → (run_parsed s parsed w).exit_code ≡ pos 0
      → (result : RunResult) × (parsed.result ≡ dsl_parse_ok)
        × ((run_parsed s parsed w).printed ≡ some result)
        × PlanPassed parsed.plan result
  unfolding run_parsed LeavesFile Leaves
  run_parsed_passes parsed w (inl (inl (good, fits))) ok =
      let exit : (run_plan s parsed.plan zero_run_result w).0 ≡ pos 0 =
        cc (rw (run_parsed, good) at ok) in
      (
        (run_plan s parsed.plan zero_run_result w).1,
        good,
        rw (run_parsed, good) refl,
        record { each = run_plan_passes s parsed.plan zero_run_result w exit },
      )
  run_parsed_passes parsed w (inl (inr (bad, _))) ok = absurd (cc (rw (run_parsed, bad) at ok))
  run_parsed_passes parsed w (inr (bad, _)) ok = absurd (cc (rw (run_parsed, bad) at ok))

  -- If `run_run_command` exits with 0, then the file was parsed, and the command prints a result in which each
  -- case of the plan has a response on which each of its assertions passes, whatever the file holds and
  -- whichever allocations fail.
  pub run_run_command_passes :
      (files : Files) (error : DslParseError) (options : CliOptions) (allocs : List Bool)
      (w : World) (done : Done World)
      → run_run_command s files error options allocs w ≡ some done
      → done.exit_code ≡ pos 0
      → (parsed : Outcome) × (result : RunResult) × (dsl_parse_run_plan_file files options.url
            zero_plan error allocs
          ≡ some parsed)
        × (parsed.result ≡ dsl_parse_ok)
        × (done.printed ≡ some result)
        × PlanPassed parsed.plan result
  unfolding run_run_command
  run_run_command_passes files error options allocs w done e ok =
      let (parsed, found, leaves) =
        dsl_parse_run_plan_file-LeavesFile files options.url zero_plan error allocs in
      let is_done : run_parsed s parsed w ≡ done = cc (rw (run_run_command, found) at e) in
      let (result, parsed_ok, printed, passed) =
        run_parsed_passes parsed w leaves (ap (λ (d : Done World). d.exit_code) is_done ∙ ok) in
      (
        parsed,
        result,
        found,
        parsed_ok,
        ap (λ (d : Done World). d.printed) (sym is_done) ∙ printed,
        passed,
      )
