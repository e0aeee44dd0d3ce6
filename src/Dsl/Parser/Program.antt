-- ===== src/Dsl/Parser/Program.antt =====
-- src/dsl/dsl_parser.c: the statements, the loop over them, and the entry point.
pub mod Bounds
pub mod Progress
pub mod Ends
use fman.Prelude.{
  ℕ, zero, suc, ◌+◌, ◌-◌, ◌*◌, Bool, true, false, not, ◌&&◌, ◌||◌, List, [], ◌∷◌, Option, none,
  some, leb, ◌==◌, if◌then◌else◌, length, Text, codes, String,
}
use fman.Prelude.Int.{ℤ, pos, negsuc}
use fman.Models.{Method, get, post, put, delete, patch}
use fman.RunPlan.{
  RequestCase, RunPlan, max_request_cases, max_case_assertions, zero_case, init_run_plan,
  free_run_plan,
}
use fman.Dsl.Token.{
  DslTokenType, token_eof, token_newline, token_get, token_post, token_put, token_delete,
  token_patch, token_body_stmt, token_expect, token_ident, token_body_raw, DslToken, type_code,
}
use fman.Dsl.Lexer.{
  DslLexer, dsl_create_lexer, create_lexer, malloc, dsl_strndup, dsl_lexer_next_token,
}
use fman.Dsl.Parser.{
  ◌>>◌, check, report, parser_error, text_or, is_error, shift, advance_parser, consume,
  end_statement, strdup_previous, case_at, add_assertion, room_for_assertion, atoi_from, set_status,
  parse_status_assertion, set_body_pattern, parse_body_assertion, is_value, set_header_value,
  parse_header_value, parse_header_assertion, parse_assertion, DslParseResult, dsl_parse_ok,
  dsl_parse_error, DslParseError, DslParser, State, Parse, fail, advanced, put_case,
}

pub method_from_token : DslTokenType → Method
method_from_token token_get = get
method_from_token token_post = post
method_from_token token_put = put
method_from_token token_delete = delete
method_from_token token_patch = patch
method_from_token _ = get

pub is_method : DslTokenType → Bool
is_method token_get = true
is_method token_post = true
is_method token_put = true
is_method token_delete = true
is_method token_patch = true
is_method _ = false

pub set_body : ℕ → Parse
set_body i s =
    let text = text_or s.parser.previous.str [] in
    let (copy, parser) = strdup_previous s.parser in
    let c = case_at s.plan i in
    let s' = record s { parser = parser } in
    elim copy [
      | none ↦
          fail "out of memory while copying request body" (put_case s' i (record c { body = none }))
      | some body ↦ (true, put_case s' i (record c { body = some body; body_len = length text }))
    ]

pub body_stmt : ℕ → Parse
body_stmt i = do
  consume token_body_stmt "expected BODY"
  consume token_body_raw "expected body value after BODY"
  set_body i
  end_statement "expected newline after BODY statement"

pub parse_body_stmt : Parse
parse_body_stmt s =
    if s.plan.case_count == 0
    then fail "BODY must appear after a request statement" s
    else body_stmt (s.plan.case_count - 1) s

-- `plan->default_timeout_ms > 0 ? plan->default_timeout_ms : 5000`
pub timeout_or_default : ℤ → ℤ
timeout_or_default (pos (suc n)) = pos (suc n)
timeout_or_default _ = pos 5000

-- The new case at the end of the cases in use, and the count.
pub set_request : Method → Parse
set_request method s =
    let (copy, parser) = strdup_previous s.parser in
    let s' = record s { parser = parser } in
    let n = s.plan.case_count in
    elim copy [
      | none ↦
          fail "out of memory while copying URL"
            (put_case s' n (record zero_case { method = method }))
      | some url ↦
          let placed = put_case s' n (record zero_case {
            method = method;
            url = some url;
            headers = none;
            body = none;
            body_len = 0;
            timeout_ms = timeout_or_default s.plan.default_timeout_ms;
            assertion_count = 0;
          }) in
          (true, record placed { plan = record placed.plan { case_count = n + 1 } })
    ]

pub request_stmt : Method → Parse
request_stmt method = do
  consume token_ident "expected URL after HTTP method"
  set_request method
  end_statement "expected newline after request statement"

pub parse_request_stmt : Parse
parse_request_stmt s =
    let type = s.parser.current.type in
    if leb max_request_cases s.plan.case_count
    then fail "too many request cases" s
    else if not (is_method type)
    then fail "expected HTTP method" s
    else request_stmt (method_from_token type) (advanced s)

pub expect_stmt : ℕ → Parse
expect_stmt i = do
  consume token_expect "expected EXPECT"
  room_for_assertion i
  parse_assertion i
  end_statement "expected newline after EXPECT statement"

pub parse_expect_stmt : Parse
parse_expect_stmt s =
    if s.plan.case_count == 0
    then fail "EXPECT statement must come after a request statement" s
    else expect_stmt (s.plan.case_count - 1) s

pub at_request : DslParser → Bool
at_request p =
    check p token_get
    || check p token_post
    || check p token_put
    || check p token_delete
    || check p token_patch

pub parse_statement : Parse
parse_statement s =
    if check s.parser token_newline
    then (true, advanced s)
    else if at_request s.parser
    then parse_request_stmt s
    else if check s.parser token_body_stmt
    then parse_body_stmt s
    else if check s.parser token_expect
    then parse_expect_stmt s
    else fail "expected request statement or EXPECT statement" s

-- The loop over the statements; `none` says that the fuel ran out.
pub parse_program : ℕ → State → Option (Bool × State)
parse_program zero s = none
parse_program (suc fuel) s =
    let (done, s') = parse_statement s in
    let rest = parse_program fuel s' in
    if check s.parser token_eof
    then some (not s.parser.had_error, s)
    else if s.parser.had_error
    then some (false, s)
    else if done
    then rest
    else some (false, s')

abbrev no_token : DslToken
no_token = record { type = token_eof; str = none; line = 0; column = 0 }

-- The parser before its first token, for a caller that wants the error or does not.
pub new_parser : Option DslParseError → DslLexer → DslParser
new_parser error lexer = record {
  lexer = lexer;
  current = no_token;
  previous = no_token;
  error = elim error [
    | none ↦ none
    | some _ ↦ some (record { message = []; line = 0; column = 0 })
  ];
  had_error = false;
  has_previous = false;
  has_current = false;
}

pub dsl_parser_create : Text → Option DslParseError → List Bool → Option DslParser
dsl_parser_create text error allocs =
    let (done, allocs') = malloc allocs in
    let lexer = dsl_create_lexer (some text) allocs' in
    if done
    then elim lexer [ none ↦ none | some l ↦ some (advance_parser (new_parser error l)) ]
    else none

-- What a call leaves: its result, the plan and the error.
pub record Outcome : Type 0 where
  pub result : DslParseResult
  pub plan : RunPlan
  pub error : Option DslParseError

abbrev refuse : RunPlan → Option DslParseError → String → Outcome
refuse plan error message = record {
  result = dsl_parse_error;
  plan = plan;
  error = elim error [
    | none ↦ none
    | some _ ↦ some (record { message = codes message; line = 0; column = 0 })
  ];
}

-- `if (!ok || parser->had_error)`: a plan that failed to parse is given back.
pub finish_parse : Bool → State → Outcome
finish_parse done s =
    if not done || s.parser.had_error
    then record {
      result = dsl_parse_error;
      plan = (free_run_plan s.plan).1;
      error = s.parser.error;
    }
    else record { result = dsl_parse_ok; plan = s.plan; error = s.parser.error }

pub parse_with : ℕ → Option DslParser → RunPlan → Option DslParseError → Option Outcome
parse_with fuel none plan error = some (refuse plan error "parser creation failed")
parse_with fuel (some parser) plan error =
    elim (parse_program fuel (record { parser = parser; plan = plan })) [
      | none ↦ none
      | some (done, s) ↦ some (finish_parse done s)
    ]

-- `plan` is what stands at the plan's address before the call. Every statement but the last reads
-- a byte of the source, so one more round than there are bytes is enough, with one for the end.
unfoldable pub dsl_parse_run_plan :
    Option Text → RunPlan → Option DslParseError → List Bool → Option Outcome
unfolding ◌>>◌ check report parser_error text_or is_error shift advance_parser consume end_statement
    strdup_previous case_at add_assertion room_for_assertion atoi_from set_status
    parse_status_assertion set_body_pattern parse_body_assertion is_value set_header_value
    parse_header_value parse_header_assertion parse_assertion method_from_token is_method set_body
    body_stmt parse_body_stmt timeout_or_default set_request request_stmt parse_request_stmt
    expect_stmt parse_expect_stmt at_request parse_statement parse_program new_parser
    dsl_parser_create finish_parse parse_with dsl_create_lexer create_lexer malloc dsl_strndup
    dsl_lexer_next_token codes type_code init_run_plan free_run_plan
dsl_parse_run_plan none plan error allocs = some (refuse plan error "source or plan is null")
dsl_parse_run_plan (some source) plan error allocs =
    parse_with (length source + 2) (dsl_parser_create source error allocs) (init_run_plan plan)
      error
