-- ===== src/Commands/Ends.antt =====
-- `main` of src/cli/main.c over the services of Engine.Connected: what is left behind the program.
use fman.Prelude.{
  ℕ, ◌≡◌, refl, inl, inr, Bool, false, List, Option, none, some, Option-cases, if_cases, ltb,
  length, Text, codes, text_eq,
}
use fman.Prelude.Int.{ℤ, pos, negsuc, int_eq}
use fman.RunPlan.{RunPlan, zero_plan, init_run_plan}
use fman.RunPlan.Results.{RunResult, zero_run_result, init_run_result}
use fman.Cli.{CliOptions}
use fman.Cli.Bounds.{parse_cli_options-IsParsed}
use fman.Dsl.Parser.{DslParseError, dsl_parse_ok, dsl_parse_error, dsl_io_error}
use fman.Dsl.Parser.Program.{Outcome}
use fman.Dsl.File.{Files}
use fman.Dsl.File.{dsl_parse_run_plan_file-LeavesFile}
use fman.Engine.{Services, run_plan}
use fman.Database.{Sqlite}
use fman.Database.Statements.Running.{Counts}
use fman.Orchestrator.{Thing}
use fman.Orchestrator.Closes.{all_made, all_gone}
use fman.Orchestrator.Waits.{orderly}
use fman.Engine.Connected.{Threads, Machine, services}
use fman.Engine.Connected.Closes.{IsOver, IsFresh, run_plan-IsOver}
use fman.Engine.Connected.Closes.Connection.{Quiet}
use fman.Commands.{
  Done, close, cli_options_to_run_plan, run_get_command, run_parsed, run_run_command, run_command,
}
use fman.Commands.Main.{zero_options, zero_options-IsOptions, and_free, main_with, main}

-- It returns, and leaves a world with the property.
pub Ends : {World : Type 0} → (World → Type 0) → Option (Done World) → Type 0
Ends P none = ⊥
Ends P (some d) = P d.world

module _ {World : Type 0} (s : Services World) (P : World → Type 0) (w : World) (now : P w)
    (ran : (plan : RunPlan) (result : RunResult) → P (run_plan s plan result w).2) where
  run_get_command-Ends :
      (options : CliOptions) (allocs : List Bool) → P (run_get_command s options allocs w).world
  unfolding run_get_command
  run_get_command-Ends options allocs =
      let (built, plan) = cli_options_to_run_plan options (init_run_plan zero_plan) allocs in
      let fresh = init_run_result zero_run_result in
      if_cases (λ (d : Done World). P d.world) built (λ _. ran plan fresh) (λ _. now)

  run_parsed-Ends : (parsed : Outcome) → P (run_parsed s parsed w).world
  unfolding run_parsed
  run_parsed-Ends parsed =
      let (exit_code, result, w') = run_plan s parsed.plan zero_run_result w in
      elim parsed.result
        as (λ r.
          P
            (elim r as (λ _. Done World) [
              | dsl_parse_ok ↦ close s exit_code (some result) parsed.plan result w'
              | dsl_parse_error ↦ close s (pos 1) none parsed.plan zero_run_result w
              | dsl_io_error ↦ close s (pos 2) none parsed.plan zero_run_result w
            ]).world) [
              | dsl_parse_ok ↦ ran parsed.plan zero_run_result
              | dsl_parse_error ↦ now
              | dsl_io_error ↦ now
            ]

  run_run_command-Ends :
      (files : Files) (error : DslParseError) (options : CliOptions) (allocs : List Bool)
      → Ends P (run_run_command s files error options allocs w)
  unfolding run_run_command Ends
  run_run_command-Ends files error options allocs =
      let (parsed, e, _) =
        dsl_parse_run_plan_file-LeavesFile files options.url zero_plan error allocs in
      rw (Ends, run_run_command, e) (run_parsed-Ends parsed)

  run_command-Ends :
      (files : Files) (error : DslParseError) (options : CliOptions) (allocs : List Bool)
      → Ends P (run_command s files error options allocs w)
  unfolding run_command Ends
  run_command-Ends files error options allocs = elim (Option-cases options.command) [
    | inl missing ↦ rw missing now
    | inr (command, given) ↦ rw given (
        if_cases (Ends P) (text_eq (codes "get") command) (λ _. run_get_command-Ends _ allocs)
          λ _.
            if_cases (Ends P) (text_eq (codes "post") command) (λ _. now)
              λ _.
                if_cases (Ends P) (text_eq (codes "run") command)
                  (λ _. run_run_command-Ends files error _ allocs) (λ _. now))
  ]

  and_free-Ends :
      (atoi : Text → ℤ) (files : Files) (error : DslParseError) (options : CliOptions)
      (o : Option (Done World))
      → Ends P o
      → Ends P (and_free s atoi files error options o)
  unfolding and_free Ends
  and_free-Ends atoi files error options none p = p
  and_free-Ends atoi files error options (some d) p = p

  main-Ends :
      (atoi : Text → ℤ) (files : Files) (error : DslParseError) (argv : List Text)
      (parses allocs : List Bool)
      → Ends P (main s atoi files error argv parses allocs w)
  unfolding main main_with Ends
  main-Ends atoi files error argv parses allocs =
      let (out, parsed, _) =
        parse_cli_options-IsParsed atoi argv parses zero_options zero_options-IsOptions in
      if_cases (Ends P) (ltb (length argv) 3) (λ _. now)
        λ _. rw parsed (
          if_cases (Ends P) (int_eq out.0 (negsuc 0)) (λ _. unfold and_free in now)
            λ _. and_free-Ends atoi files error out.1 _ (run_command-Ends files error out.1 allocs))

-- The program, over the services by SQLite and the other threads, always returns, whatever its arguments and the
-- files are and whichever allocations fail. When it does, `db` is NULL, no statement is open, there is no runtime,
-- each thing that was made for a runtime is gone as often as it was made, and no thread was joined before the queue
-- that it waits on was shut down. This holds for a program that starts with `db` NULL, without a runtime and without
-- open statements, if SQLite counts its statements as `Counts` says, and it and the threads are `Quiet`.
pub main_closes :
    {World Stmt : Type 0} (s : Sqlite World Stmt) (t : Threads World) (live : World → ℕ)
    → Counts s live
    → Quiet s t live
    → (weigh : Thing → ℕ) (atoi : Text → ℤ) (files : Files) (error : DslParseError)
      (argv : List Text) (parses allocs : List Bool) (m : Machine World)
    → IsFresh live m
    → m.db ≡ false
    → Ends (IsOver live weigh) (main (services s t) atoi files error argv parses allocs m)
unfolding all_made all_gone orderly
main_closes s t live law quiet weigh atoi files error argv parses allocs m fresh closed =
    main-Ends (services s t) (IsOver live weigh) m
      (record {
        db_closed = closed;
        idle = fresh.idle;
        no_runtime = fresh.no_runtime;
        even = rw fresh.no_log refl;
        in_order = rw fresh.no_log refl;
      })
      (λ plan result. run_plan-IsOver s t live law quiet weigh plan result m fresh) atoi files error
      argv parses allocs
