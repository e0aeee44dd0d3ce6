-- ===== src/Commands.antt =====
-- src/cli/commands.c. What it prints is in Commands/Print. `allocs` are the answers of `malloc` and `strdup`. The services of the
-- engine and the file system are parameters. `print_run_result` leaves the result that it is called on as it is.
pub mod Copies
pub mod Exit
pub mod Main
pub mod Ends
pub mod Print
mod Witnesses
use fman.Prelude.{
  ℕ, zero, suc, ◌+◌, ◌-◌, Bool, true, false, not, ◌&&◌, List, [], ◌∷◌, Option, none, some, is_some,
  ltb, if◌then◌else◌, get_or, set, take, Text, codes, text_eq,
}
use fman.Prelude.Int.{ℤ, pos, negsuc}
use fman.Models.{
  get, Response, Value, value_bytes, value_header, Assertion, AssertionType, assert_status_eq,
  assert_body_contains, assert_header_contains,
}
use fman.RunPlan.{
  RequestCase, RunPlan, zero_case, zero_plan, zero_assertion, max_case_assertions, init_run_plan,
  free_run_plan,
}
use fman.RunPlan.Results.{RunResult, zero_run_result, init_run_result, free_run_result}
use fman.Cli.{CliOptions}
use fman.Dsl.Lexer.{malloc}
use fman.Dsl.Parser.{DslParseResult, dsl_parse_ok, dsl_parse_error, dsl_io_error, DslParseError}
use fman.Dsl.Parser.Program.{Outcome}
use fman.Dsl.File.{Files, dsl_parse_run_plan_file}
use fman.Engine.{Services, run_plan}

-- And `strdup`.
unfoldable pub dup_string : Option Text → List Bool → Option Text × List Bool
unfolding malloc
dup_string none allocs = (none, allocs)
dup_string (some s) allocs =
    let (done, allocs') = malloc allocs in (if done then some s else none, allocs')

-- The bytes of a pattern, copied into a block of that many bytes.
unfoldable pub copy_data : Option Text → ℕ → List Bool → Option Text × List Bool
unfolding malloc
copy_data none len allocs = (none, allocs)
copy_data (some bytes) len allocs =
    let (done, allocs') = malloc allocs in (if done then some (take len bytes) else none, allocs')

-- The `switch` of the loop. The expected value of an assertion on the body is bytes, as the command line parser
-- makes it: the source reads its pointer as `string_value`, the same word of the union.
unfoldable pub copy_value : AssertionType → Value → List Bool → Value × List Bool
unfolding copy_data dup_string
copy_value assert_body_contains (value_bytes e) allocs =
    let (bytes, allocs') = copy_data e.bytes e.len allocs in
    (value_bytes (record { bytes = bytes; len = e.len }), allocs')
copy_value assert_header_contains (value_header e) allocs =
    let (name, allocs1) = dup_string e.name allocs in
    let (value, allocs2) = dup_string e.value allocs1 in
    (value_header (record { name = name; value = value }), allocs2)
copy_value _ expected allocs = (expected, allocs)

-- The loop over the assertions of the options.
unfoldable pub copy_assertions :
    ℕ → ℕ → List Assertion → List Assertion → List Bool → List Assertion × List Bool
unfolding copy_value
copy_assertions zero i from to allocs = (to, allocs)
copy_assertions (suc rounds) i from to allocs =
    let a = get_or from i zero_assertion in
    let (expected, allocs') = copy_value a.type a.expected allocs in
    copy_assertions rounds (i + 1) from (set to i (record { type = a.type; expected = expected }))
      allocs'

-- The case of the plan, before its assertions.
pub get_case : RequestCase → Option Text → RequestCase
get_case c url = record c {
  method = get;
  url = url;
  headers = none;
  body = none;
  body_len = 0;
  timeout_ms = pos 5000;
}

pub with_assertions : CliOptions → RunPlan → List Bool → RunPlan
unfolding copy_assertions
with_assertions options plan allocs =
    let c = get_or plan.cases 0 zero_case in
    let (copied, _) =
      copy_assertions options.assertion_count 0 options.assertions c.assertions allocs in
    record plan {
      cases =
          set plan.cases 0
            (record c { assertion_count = options.assertion_count; assertions = copied });
    }

-- Whether it returns 0, and the plan.
unfoldable pub cli_options_to_run_plan : CliOptions → RunPlan → List Bool → Bool × RunPlan
unfolding dup_string get_case with_assertions init_run_plan
cli_options_to_run_plan options plan allocs =
    let has_url : Bool = elim options.url [
      | none ↦ false
      | some [] ↦ false
      | some (_ ∷ _) ↦ true
    ] in
    let (db_path, allocs1) = dup_string (some (codes "runner.db")) allocs in
    let (collection_name, allocs2) = dup_string (some (codes "DEFAULT")) allocs1 in
    let plan1 = record (init_run_plan plan) {
      worker_count = 1;
      default_timeout_ms = pos 5000;
      save_history = true;
      db_path = db_path;
      collection_name = collection_name;
    } in
    let (url, allocs3) = dup_string options.url allocs2 in
    let plan2 = record plan1 {
      case_count = 1;
      cases = set plan1.cases 0 (get_case (get_or plan1.cases 0 zero_case) url);
    } in
    if not has_url
    then (false, plan)
    else if not (is_some db_path && is_some collection_name)
    then (false, plan1)
    else if not (is_some url)
    then (false, plan2)
    else if ltb max_case_assertions options.assertion_count
    then (false, plan2)
    else (true, with_assertions options plan2 allocs3)

-- What a command does: its exit code, the result that it prints, the responses and the buffers that it
-- gives back, and the world that it leaves.
pub record Done (World : Type 0) : Type 0 where
  pub exit_code : ℤ
  pub printed : Option RunResult
  pub freed_responses : List Response
  pub freed_buffers : List Text
  pub world : World

-- The numbers of the enumeration.
abbrev pub result_code : DslParseResult → ℤ
result_code dsl_parse_ok = pos 0
result_code dsl_parse_error = pos 1
result_code dsl_io_error = pos 2

module _ {World : Type 0} (s : Services World) where
  -- `cleanup`
  abbrev pub close : ℤ → Option RunResult → RunPlan → RunResult → World → Done World
  close exit_code printed plan result w = record {
    exit_code = exit_code;
    printed = printed;
    freed_responses = (free_run_result result).0;
    freed_buffers = (free_run_plan plan).0;
    world = w;
  }

  unfoldable pub run_get_command : CliOptions → List Bool → World → Done World
  run_get_command options allocs w =
      let (built, plan) = cli_options_to_run_plan options (init_run_plan zero_plan) allocs in
      let fresh = init_run_result zero_run_result in
      let (exit_code, result, w') = run_plan s plan fresh w in
      if built
      then close exit_code (some result) plan result w'
      else close (pos 1) none plan fresh w

  -- Behind the parser.
  pub run_parsed : Outcome → World → Done World
  run_parsed parsed w =
      let (exit_code, result, w') = run_plan s parsed.plan zero_run_result w in
      elim parsed.result [
        | dsl_parse_ok ↦ close exit_code (some result) parsed.plan result w'
        | dsl_parse_error ↦ close (pos 1) none parsed.plan zero_run_result w
        | dsl_io_error ↦ close (pos 2) none parsed.plan zero_run_result w
      ]

  -- `error` is what stands in the uninitialised error, and `none` stands for a parser that does not return.
  unfoldable pub run_run_command :
      Files → DslParseError → CliOptions → List Bool → World → Option (Done World)
  unfolding run_parsed
  run_run_command files error options allocs w =
      elim (dsl_parse_run_plan_file files options.url zero_plan error allocs) [
        | none ↦ none
        | some parsed ↦ some (run_parsed parsed w)
      ]

  -- A command that does nothing.
  abbrev pub nothing_done : ℤ → World → Done World
  nothing_done exit_code w = record {
    exit_code = exit_code;
    printed = none;
    freed_responses = [];
    freed_buffers = [];
    world = w;
  }

  unfoldable pub run_command :
      Files → DslParseError → CliOptions → List Bool → World → Option (Done World)
  run_command files error options allocs w = elim options.command [
    | none ↦ some (nothing_done (pos 1) w)
    | some command ↦
        if text_eq (codes "get") command
        then some (run_get_command options allocs w)
        else if text_eq (codes "post") command
        then some (nothing_done (pos 0) w)
        else if text_eq (codes "run") command
        then run_run_command files error options allocs w
        else some (nothing_done (pos 1) w)
  ]
