-- ===== src/Dsl/Parser.antt =====
-- src/dsl/dsl_parser.c. A parser function takes the parser and the plan, and gives back what it returns
-- with both as it leaves them. Pointers to the parser and the plan are never NULL inside; `lexer.allocs` is
-- also where the parser's own allocations are answered.
pub mod Program
pub mod Ensures
pub mod Fits
pub mod Tokens
pub mod Expect
pub mod Tests
use fman.Prelude.{
  ℕ, zero, suc, ◌+◌, ◌-◌, ◌*◌, Bool, true, false, not, ◌&&◌, ◌||◌, List, [], ◌∷◌, Option, none,
  some, ltb, leb, ◌==◌, if◌then◌else◌, length, get_or, set, take, Text, codes, String,
}
use fman.Prelude.Int.{ℤ, pos, negsuc}
use fman.Models.{
  Method, get, post, put, delete, patch, value_int, value_bytes, value_header, assert_status_eq,
  assert_body_contains, assert_header_contains, Assertion,
}
use fman.RunPlan.{
  RequestCase, RunPlan, max_request_cases, max_case_assertions, zero_case, init_run_plan,
  free_run_plan,
}
use fman.Dsl.Token.{
  DslTokenType, token_eof, token_error, token_newline, token_get, token_post, token_put,
  token_delete, token_patch, token_body_stmt, token_expect, token_status, token_header, token_body,
  token_contains, token_int, token_string, token_ident, token_body_raw, DslToken, type_code,
}
use fman.Dsl.Lexer.{DslLexer, dsl_strndup, dsl_lexer_next_token, dsl_create_lexer, malloc}

pub data DslParseResult : Type 0 where
  dsl_parse_ok dsl_parse_error dsl_io_error : DslParseResult

pub record DslParseError : Type 0 where
  pub message : Text
  pub line : ℕ
  pub column : ℕ

pub record DslParser : Type 0 where
  pub lexer : DslLexer
  pub current : DslToken
  pub previous : DslToken
  pub error : Option DslParseError
  pub had_error : Bool
  pub has_previous : Bool
  pub has_current : Bool

pub record State : Type 0 where
  pub parser : DslParser
  pub plan : RunPlan

abbrev pub Parse : Type 0
Parse = State → Bool × State

-- `if (!m) return false;` and then `k`
infixl 5 ◌>>◌
pub ◌>>◌ : Parse → Parse → Parse
◌>>◌ m k s = let (done, s') = m s in if done then k s' else (false, s')

pub check : DslParser → DslTokenType → Bool
check parser type = parser.has_current && type_code parser.current.type == type_code type

-- `snprintf(error->message, 256, "%s", message)`
abbrev error_at : Text → ℕ → ℕ → DslParseError
error_at message line column = record { message = take 255 message; line = line; column = column }

pub report : Option DslParseError → Text → ℕ → ℕ → Option DslParseError
report none message line column = none
report (some _) message line column = some (error_at message line column)

pub parser_error : String → DslParser → DslParser
parser_error message p = if p.had_error then p else record p {
  had_error = true;
  error =
      report p.error (codes message) (if p.has_current then p.current.line else 0)
        (if p.has_current then p.current.column else 0);
}

-- A token's text, or what stands for it where there is none.
pub text_or : Option Text → Text → Text
text_or none t = t
text_or (some s) t = s

is_error : DslTokenType → Bool
is_error token_error = true
is_error _ = false

pub shift : DslParser → DslToken → DslLexer → DslParser
shift p token lexer = record p {
  lexer = lexer;
  current = token;
  has_current = true;
  previous = if p.has_current then p.current else p.previous;
  has_previous = p.has_current;
  had_error = if is_error token.type then true else p.had_error;
  error =
      if is_error token.type
      then report p.error (text_or token.str (codes "lexer error")) token.line token.column
      else p.error;
}

pub advance_parser : DslParser → DslParser
advance_parser p = let (token, lexer) = dsl_lexer_next_token p.lexer in shift p token lexer

abbrev pub advanced : State → State
advanced s = record s { parser = advance_parser s.parser }

abbrev pub fail : String → Parse
fail message s = (false, record s { parser = parser_error message s.parser })

pub consume : DslTokenType → String → Parse
consume type message s = if check s.parser type then (true, advanced s) else fail message s

-- The end of a statement: a newline, which is read, or the end of the input.
pub end_statement : String → Parse
end_statement message s =
    if check s.parser token_newline
    then (true, advanced s)
    else if check s.parser token_eof
    then (true, s)
    else fail message s

-- `strdup(parser->previous.str)`
pub strdup_previous : DslParser → Option Text × DslParser
strdup_previous p =
    let (copy, lexer) = dsl_strndup (text_or p.previous.str []) p.lexer in
    (copy, record p { lexer = lexer })

unfoldable pub case_at : RunPlan → ℕ → RequestCase
case_at plan i = get_or plan.cases i zero_case

abbrev pub put_case : State → ℕ → RequestCase → State
put_case s i c = record s { plan = record s.plan { cases = set s.plan.cases i c } }

-- `request_case->assertions[request_case->assertion_count++] = a`
pub add_assertion : ℕ → Assertion → State → State
add_assertion i a s =
    let c = case_at s.plan i in
    put_case s i (record c {
      assertions = set c.assertions c.assertion_count a;
      assertion_count = c.assertion_count + 1;
    })

-- `request_case->assertion_count >= MAX_CASE_ASSERTIONS`
pub room_for_assertion : ℕ → Parse
room_for_assertion i s =
    if leb max_case_assertions (case_at s.plan i).assertion_count
    then fail "too many assertions for request case" s
    else (true, s)

-- `atoi` on a run of digits.
unfoldable pub atoi_from : ℕ → Text → ℕ
atoi_from n [] = n
atoi_from n (c ∷ cs) = atoi_from (n * 10 + (c - b'0')) cs

pub set_status : ℕ → Parse
set_status i s =
    let status = pos (atoi_from 0 (text_or s.parser.previous.str [])) in
    (true, add_assertion i (record { type = assert_status_eq; expected = value_int status }) s)

pub parse_status_assertion : ℕ → Parse
parse_status_assertion i = do
  room_for_assertion i
  consume token_status "expected 'status'"
  consume token_int "expected status code after 'status'"
  set_status i

pub set_body_pattern : ℕ → Parse
set_body_pattern i s =
    let text = text_or s.parser.previous.str [] in
    let (copy, parser) = strdup_previous s.parser in
    let expected = value_bytes (record { bytes = copy; len = length text }) in
    let s' =
      add_assertion i (record { type = assert_body_contains; expected = expected })
        (record s { parser = parser }) in
    elim copy [ none ↦ fail "out of memory while copying body assertion" s' | some _ ↦ (true, s') ]

pub parse_body_assertion : ℕ → Parse
parse_body_assertion i = do
  room_for_assertion i
  consume token_body "expected 'body'"
  consume token_contains "expected 'contains' after 'body'"
  consume token_string "expected string after 'body contains'"
  set_body_pattern i

pub is_value : DslParser → Bool
is_value p = check p token_ident || check p token_string || check p token_int

pub set_header_value : ℕ → Text → Parse
set_header_value i name s =
    let (copy, parser) = strdup_previous s.parser in
    let s' = record s { parser = parser } in
    elim copy [
      | none ↦ fail "out of memory while copying header value" s'
      | some value ↦ (
        true,
        add_assertion i
            (record {
              type = assert_header_contains;
              expected = value_header (record { name = some name; value = some value });
            })
            s',
      )
    ]

pub parse_header_value : ℕ → Parse
parse_header_value i s =
    let (copy, parser) = strdup_previous s.parser in
    let s' = record s { parser = parser } in
    elim copy [
      | none ↦ fail "out of memory while copying header name" s'
      | some name ↦
          if is_value parser
          then set_header_value i name (advanced s')
          else fail "expected header value after header name" s'
    ]

pub parse_header_assertion : ℕ → Parse
parse_header_assertion i = do
  room_for_assertion i
  consume token_header "expected 'header'"
  consume token_ident "expected header name after 'header'"
  parse_header_value i

pub parse_assertion : ℕ → Parse
parse_assertion i s =
    if check s.parser token_status
    then parse_status_assertion i s
    else if check s.parser token_body
    then parse_body_assertion i s
    else if check s.parser token_header
    then parse_header_assertion i s
    else fail "expected assertion type: status, body, or header" s
