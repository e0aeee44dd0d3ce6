-- ===== src/Commands/Main.antt =====
-- src/cli/main.c, and `free_cli_options` of src/cli/cli_parser.c.
use fman.Prelude.{
  ℕ, zero, suc, ◌+◌, ◌≡◌, refl, sym, ap, ◌∙◌, inl, inr, Bool, true, List, [], ◌∷◌, ◌++◌, Option,
  none, some, is_some, Option-cases, Bool-cases, subst, if◌then◌else◌, if_cases, ltb, length,
  get_or, replicate, Text, codes, text_eq, arith,
}
use fman.Prelude.Int.{ℤ, pos, negsuc, int_eq}
use fman.Models.{Response}
use fman.RunPlan.{zero_assertion}
use fman.RunPlan.Results.{RunResult, zero_case_result}
use fman.Cli.{CliOptions, max_assertion, parse_cli_options}
use fman.Cli.Bounds.{IsOptions, IsParsed, parse_cli_options-IsParsed}
use fman.Dsl.Parser.{DslParseError}
use fman.Dsl.File.{Files}
use fman.Engine.{Services}
use fman.Commands.{Done, nothing_done, run_command, run_get_command}
use fman.Commands.Exit.{PassesAll, run_get_command_passes, run_run_command_returns}

-- `CliOptions options = {0};`
abbrev pub zero_options : CliOptions
zero_options = record {
  command = none;
  url = none;
  assertions = replicate max_assertion zero_assertion;
  assertion_count = 0;
  owned_expected_body = replicate max_assertion none;
  owned_body_count = 0;
}

pub zero_options-IsOptions : IsOptions zero_options
zero_options-IsOptions = record {
  bounded = record {
    count_fits = omega arith;
    array = refl;
    owned_fits = omega arith;
    owned_array = refl;
  };
  fit = λ j lt. absurd (omega arith);
}

-- The patterns that are given back, from the i-th on.
freed_patterns : ℕ → ℕ → List (Option Text) → List Text
freed_patterns zero i owned = []
freed_patterns (suc rounds) i owned =
    let rest = freed_patterns rounds (i + 1) owned in
    elim (get_or owned i none) [ none ↦ rest | some p ↦ p ∷ rest ]

unfoldable pub free_cli_options : CliOptions → List Text
unfolding freed_patterns
free_cli_options options = freed_patterns options.owned_body_count 0 options.owned_expected_body

module _ {World : Type 0} (s : Services World) (atoi : Text → ℤ) (files : Files)
    (error : DslParseError) where
  -- The command's answer, with the patterns of the options behind the buffers that the command gives back.
  unfoldable pub and_free : CliOptions → Option (Done World) → Option (Done World)
  and_free options none = none
  and_free options (some d) =
      some (record d { freed_buffers = d.freed_buffers ++ free_cli_options options })

  -- Behind `parse_cli_options`.
  unfoldable pub main_with : ℤ × CliOptions → List Bool → World → Option (Done World)
  unfolding and_free
  main_with (result, options) allocs w =
      if int_eq result (negsuc 0)
      then and_free options (some (nothing_done s (negsuc 0) w))
      else and_free options (run_command s files error options allocs w)

  -- `parses` are the answers of `malloc` to the parser of the command line, `allocs` to the command.
  unfoldable pub main : List Text → List Bool → List Bool → World → Option (Done World)
  unfolding main_with
  main argv parses allocs w =
      if ltb (length argv) 3
      then some (nothing_done s (negsuc 0) w)
      else elim (parse_cli_options atoi argv parses zero_options) [
        | none ↦ none
        | some out ↦ main_with out allocs w
      ]

  run_command_returns :
      (options : CliOptions) (allocs : List Bool) (w : World)
      → is_some (run_command s files error options allocs w) ≡ true
  unfolding run_command
  run_command_returns options allocs w =
      let Good = λ (o : Option (Done World)). is_some o ≡ true in
      elim (Option-cases options.command) [
        | inl missing ↦ rw missing refl
        | inr (command, given) ↦ rw given (
            if_cases Good (text_eq (codes "get") command) (λ _. refl)
              λ _.
                if_cases Good (text_eq (codes "post") command) (λ _. refl)
                  λ _.
                    if_cases Good (text_eq (codes "run") command)
                      (λ _. run_run_command_returns s files error _ allocs w) λ _. refl)
      ]

  and_free_returns :
      (options : CliOptions) (o : Option (Done World))
      → is_some o ≡ true
      → is_some (and_free options o) ≡ true
  unfolding and_free
  and_free_returns options none e = e
  and_free_returns options (some d) e = refl

  -- `main` always returns, whatever its arguments, the files and the services are and whichever allocations fail.
  pub main_returns :
      (argv : List Text) (parses allocs : List Bool) (w : World)
      → is_some (main argv parses allocs w) ≡ true
  unfolding main main_with
  main_returns argv parses allocs w =
      let (out, parsed, _) =
        parse_cli_options-IsParsed atoi argv parses zero_options zero_options-IsOptions in
      if_cases (λ (o : Option (Done World)). is_some o ≡ true) (ltb (length argv) 3) (λ _. refl)
        λ _. rw parsed (
          if_cases (λ (o : Option (Done World)). is_some o ≡ true) (int_eq out.0 (negsuc 0))
            (λ _. refl) λ _. and_free_returns out.1 _ (run_command_returns out.1 allocs w))

  main_get :
      (options : CliOptions) (allocs : List Bool) (w : World)
      → options.command ≡ some (codes "get")
      → main_with (pos 0, options) allocs w
        ≡ and_free options (some (run_get_command s options allocs w))
  unfolding main_with run_command int_eq
  main_get options allocs w is_get = rw is_get (unfold codes text_eq in refl)

  parsed_fits :
      (argv : List Text) (parses : List Bool) (options : CliOptions)
      → parse_cli_options atoi argv parses zero_options ≡ some (pos 0, options)
      → IsOptions options
  unfolding IsParsed
  parsed_fits argv parses options e =
      let (out, found, v) =
        parse_cli_options-IsParsed atoi argv parses zero_options zero_options-IsOptions in
      let same : out ≡ (pos 0, options) = cc (e, found) in
      elim (subst IsParsed same v) [ inl (good, fits) ↦ fits | inr (bad, _) ↦ absurd (cc bad) ]

  -- If the command line is parsed to options of the command get and `main` exits with 0, then a result is printed with
  -- a response, and each assertion of the command line passes on that response, whichever allocations fail.
  pub main_get_passes :
      (argv : List Text) (parses allocs : List Bool) (w : World) (options : CliOptions)
      (d : Done World)
      → parse_cli_options atoi argv parses zero_options ≡ some (pos 0, options)
      → options.command ≡ some (codes "get")
      → main argv parses allocs w ≡ some d
      → d.exit_code ≡ pos 0
      → (result : RunResult) × (resp : Response) × (d.printed ≡ some result)
        × ((get_or result.case_results 0 zero_case_result).response ≡ some resp)
        × PassesAll options resp
  unfolding main and_free
  main_get_passes argv parses allocs w options d parsed is_get e ok =
      elim (Bool-cases (ltb (length argv) 3)) [
        | inl few ↦
            let refused : nothing_done s (negsuc 0) w ≡ d = cc (rw (main, few) at e) in
            absurd (cc (ap (λ (x : Done World). x.exit_code) refused ∙ ok))
        | inr enough ↦
            let get_done = run_get_command s options allocs w in
            let same : record get_done {
              freed_buffers = get_done.freed_buffers ++ free_cli_options options;
            }
                ≡ d =
              cc (main_get options allocs w is_get, rw (main, enough, parsed) at e) in
            let (result, resp, printed, response, passes) =
              run_get_command_passes s options allocs w (parsed_fits argv parses options parsed)
                (ap (λ (x : Done World). x.exit_code) same ∙ ok) in
            (
              result,
              resp,
              ap (λ (x : Done World). x.printed) (sym same) ∙ printed,
              response,
              passes,
            )
      ]
