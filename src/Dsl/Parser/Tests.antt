-- ===== src/Dsl/Parser/Tests.antt =====
-- The parser on sources like those of tests/test_dsl_run_plan.c.
use fman.Prelude.{ℕ, ◌≡◌, refl, [], Option, none, some, Text, codes}
use fman.RunPlan.{zero_plan}
use fman.Dsl.Parser.{DslParseResult, dsl_parse_ok, DslParseError}
use fman.Dsl.Parser.Program.{Outcome, dsl_parse_run_plan}

abbrev no_error : Option DslParseError
no_error = some (record { message = []; line = 0; column = 0 })

abbrev result_of : Option Outcome → Option (DslParseResult × ℕ × Option DslParseError)
result_of none = none
result_of (some o) = some (o.result, o.plan.case_count, o.error)

abbrev source : Text
source = codes "GET https://example.com\nEXPECT status 200\nEXPECT header Content-Type text/html\n"

parsed :
    result_of (dsl_parse_run_plan (some source) zero_plan no_error [])
    ≡ some (dsl_parse_ok, 1, no_error)
unfolding dsl_parse_run_plan zero_plan
parsed = refl
