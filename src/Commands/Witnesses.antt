-- ===== src/Commands/Witnesses.antt =====
-- The theorems on src/cli/commands.c and src/dsl/dsl.c at concrete inputs.
use fman.Prelude.{
  ℕ, zero, suc, ◌≡◌, refl, true, [], ◌∷◌, ◌++◌, Option, none, some, is_some, get_or, set, replicate,
  arith, codes, List, Text,
}
use fman.Prelude.Int.{ℤ, pos, int_eq}
use fman.Models.{Response, value_int, assert_status_eq}
use fman.Assertion.{eval_assertion}
use fman.RunPlan.{zero_assertion, zero_plan, init_run_plan, zero_case}
use fman.RunPlan.Results.{RunResult, zero_run_result, zero_case_result}
use fman.Cli.{parse_cli_options, CliOptions, max_assertion}
use fman.Cli.Bounds.{IsOptions}
use fman.Dsl.Parser.{dsl_parse_ok, DslParseError}
use fman.Dsl.Parser.Program.{Outcome, dsl_parse_run_plan}
use fman.Dsl.File.{Files, dsl_parse_run_plan_file, LeavesFile, dsl_parse_run_plan_file-LeavesFile}
use fman.Engine.{run_plan}
use fman.Engine.Witnesses.{good_services}
use fman.Database.Witnesses.{Store}
use fman.Engine.Connected.{services}
use fman.Engine.Connected.Closes.{IsOver}
use fman.Engine.Connected.Witnesses.{
  finding_sqlite, saving_threads, finding_sqlite-Counts, saving_threads-Quiet, only_db_worker,
  first_machine,
}
use fman.Commands.Ends.{Ends, main_closes}
use fman.Commands.{run_command, Done, cli_options_to_run_plan, run_get_command, run_run_command}
use fman.Commands.Main.{zero_options, main, main_returns, main_get_passes}
use fman.Commands.Exit.{
  PassesAll, PlanPassed, run_get_command_passes, run_run_command_returns, run_run_command_passes,
}

abbrev get_options : CliOptions
get_options = record {
  command = some (codes "get");
  url = some (codes "https://example.com");
  assertions =
      set (replicate max_assertion zero_assertion) 0
        (record { type = assert_status_eq; expected = value_int (pos 200) });
  assertion_count = 1;
  owned_expected_body = replicate max_assertion none;
  owned_body_count = 0;
}

get_options-IsOptions : IsOptions get_options
get_options-IsOptions = record {
  bounded = record {
    count_fits = omega arith;
    array = refl;
    owned_fits = omega arith;
    owned_array = refl;
  };
  fit = elim [ zero ↦ λ lt. tt | suc j ↦ λ lt. absurd (omega arith) ];
}

get_exits_with_zero : (run_get_command good_services get_options [] 0).exit_code ≡ pos 0
unfolding run_get_command cli_options_to_run_plan run_plan zero_plan init_run_plan zero_case
    zero_run_result eval_assertion int_eq codes
get_exits_with_zero = refl

run_get_command_passes_example :
    (result : RunResult) × (resp : Response) × ((run_get_command good_services get_options []
        0).printed
      ≡ some result)
    × ((get_or result.case_results 0 zero_case_result).response ≡ some resp)
    × PassesAll get_options resp
run_get_command_passes_example =
    run_get_command_passes good_services get_options [] 0 get_options-IsOptions get_exits_with_zero

-- A file with a NUL behind its plan.
abbrev one_file : Files
one_file path = some (codes "GET https://example.com\nEXPECT status 200\n" ++ 0 ∷ codes "EXPECT")

abbrev no_error : DslParseError
no_error = record { message = []; line = 0; column = 0 }

abbrev run_options : CliOptions
run_options = record get_options { command = some (codes "run"); url = some (codes "plan.fman") }

dsl_parse_run_plan_file-LeavesFile_example :
    (out : Outcome) × (dsl_parse_run_plan_file one_file none zero_plan no_error [] ≡ some out)
    × LeavesFile zero_plan out
dsl_parse_run_plan_file-LeavesFile_example =
    dsl_parse_run_plan_file-LeavesFile one_file none zero_plan no_error []

abbrev or_nothing : Option (Done ℕ) → Done ℕ
or_nothing (some d) = d
or_nothing none = record {
  exit_code = pos 1;
  printed = none;
  freed_responses = [];
  freed_buffers = [];
  world = 0;
}

abbrev done : Done ℕ
done = or_nothing (run_run_command good_services one_file no_error run_options [] 0)

returned : (o : Option (Done ℕ)) → is_some o ≡ true → o ≡ some (or_nothing o)
returned none e = absurd (cc e)
returned (some d) e = refl

run_exits_with_zero : done.exit_code ≡ pos 0
unfolding run_run_command dsl_parse_run_plan_file dsl_parse_run_plan run_plan zero_plan
    init_run_plan zero_case zero_run_result eval_assertion int_eq codes
run_exits_with_zero = refl

run_run_command_passes_example :
    (parsed : Outcome) × (result : RunResult) × (dsl_parse_run_plan_file one_file
        (some (codes "plan.fman"))
        zero_plan
        no_error
        []
      ≡ some parsed)
    × (parsed.result ≡ dsl_parse_ok)
    × (done.printed ≡ some result)
    × PlanPassed parsed.plan result
run_run_command_passes_example =
    run_run_command_passes good_services one_file no_error run_options [] 0 done
      (returned _ (run_run_command_returns good_services one_file no_error run_options [] 0))
      run_exits_with_zero

-- `fman get https://example.com`, without options.
abbrev get_line : List Text
get_line = codes "fman" ∷ codes "get" ∷ codes "https://example.com" ∷ []

no_number : Text → ℤ
no_number t = pos 0

abbrev plain_options : CliOptions
plain_options = record zero_options {
  command = some (codes "get");
  url = some (codes "https://example.com");
}

line_parsed : parse_cli_options no_number get_line [] zero_options ≡ some (pos 0, plain_options)
unfolding parse_cli_options
line_parsed = refl

abbrev main_done : Done ℕ
main_done = or_nothing (main good_services no_number one_file no_error get_line [] [] 0)

main_exits_with_zero : main_done.exit_code ≡ pos 0
unfolding main run_command parse_cli_options run_get_command cli_options_to_run_plan run_plan
    zero_plan init_run_plan zero_case zero_run_result eval_assertion int_eq codes
main_exits_with_zero = refl

main_get_passes_example :
    (result : RunResult) × (resp : Response) × (main_done.printed ≡ some result)
    × ((get_or result.case_results 0 zero_case_result).response ≡ some resp)
    × PassesAll plain_options resp
main_get_passes_example =
    main_get_passes good_services no_number one_file no_error get_line [] [] 0 plain_options
      main_done line_parsed refl
      (returned _ (main_returns good_services no_number one_file no_error get_line [] [] 0))
      main_exits_with_zero

-- `fman run plan.fman`.
abbrev run_line : List Text
run_line = codes "fman" ∷ codes "run" ∷ codes "plan.fman" ∷ []

main_closes_example : Ends (IsOver (λ (w : Store). w.live) only_db_worker) (
    main
      (services finding_sqlite saving_threads)
      no_number
      one_file
      no_error
      run_line
      []
      []
      first_machine)
main_closes_example =
    main_closes finding_sqlite saving_threads (λ w. w.live) finding_sqlite-Counts
      saving_threads-Quiet only_db_worker no_number one_file no_error run_line [] [] first_machine
      (record { idle = refl; no_runtime = refl; no_log = refl }) refl
