-- ===== src/Dsl/Parser/Program/Ends.antt =====
-- `parse_program` of src/dsl/dsl_parser.c: the end of the loop over the statements.
use fman.Prelude.{
  ℕ, zero, suc, ◌+◌, ◌≤◌, ◌≡◌, refl, Bool, true, false, not, Option, none, some, List, leb, ◌==◌,
  arith, length, [], Text, if_cases, Lacks, is_some,
}
use fman.RunPlan.{RunPlan, init_run_plan, max_request_cases}
use fman.Dsl.Token.{
  DslTokenType, token_newline, token_eof, token_body_stmt, token_expect, token_get, token_post,
  token_put, token_delete, token_patch, type_code,
}
use fman.Dsl.Lexer.{dsl_create_lexer, create_lexer, malloc}
use fman.Dsl.Lexer.View.{At, line_of, column_of}
use fman.Dsl.Lexer.Next.{next_token-spells}
use fman.Dsl.Parser.{State, DslParser, DslParseError, check, advance_parser, advanced}
use fman.Dsl.Parser.Program.{
  is_method, body_stmt, parse_body_stmt, request_stmt, parse_request_stmt, expect_stmt,
  parse_expect_stmt, at_request, parse_statement, parse_program, new_parser, dsl_parser_create,
  finish_parse, parse_with, dsl_parse_run_plan,
}
use fman.Models.{Method}
use fman.Dsl.Parser.Ensures.{Ensures, true-After, false-After, if-After, Ensures->>}
use fman.Dsl.Parser.Program.Progress.{
  Within, consume-Within, shift-Within, Stays, consume-Stays, end-Stays, then-Stays, room-Stays,
  parse_assertion-Stays, set_body-Stays, set_request-Stays, weight, weight_of, check-weight,
  advance-Within,
}

-- A state with less than so much left.
Left : ℕ → State → Type 0
Left n s = Within n s.parser

request_stmt-Stays : (n : ℕ) (method : Method) → Stays n (request_stmt method)
unfolding request_stmt
request_stmt-Stays n method =
    then-Stays n _ _ (consume-Stays n _ _)
      (then-Stays n _ _ (set_request-Stays n method) (end-Stays n _))

body_stmt-Ensures : (n i : ℕ) → Ensures (Left (suc n)) (Left n) (body_stmt i)
unfolding body_stmt weight weight_of type_code Left Stays
body_stmt-Ensures n i =
    Ensures->> _ _ (consume-Within n token_body_stmt _ refl) (
      then-Stays n _ _ (consume-Stays n _ _)
        (then-Stays n _ _ (set_body-Stays n i) (end-Stays n _)))

expect_stmt-Ensures : (n i : ℕ) → Ensures (Left (suc n)) (Left n) (expect_stmt i)
unfolding expect_stmt weight weight_of type_code Left Stays
expect_stmt-Ensures n i = Ensures->> _ _ (consume-Within n token_expect _ refl) (
    then-Stays n _ _ (room-Stays n i)
      (then-Stays n _ _ (parse_assertion-Stays n i) (end-Stays n _)))

-- A method's token weighs one.
method-weight : (type : DslTokenType) → not (is_method type) ≡ false → weight type ≡ 1
unfolding is_method weight weight_of type_code
method-weight token_get h = refl
method-weight token_post h = refl
method-weight token_put h = refl
method-weight token_delete h = refl
method-weight token_patch h = refl
method-weight _ h = cc h

request-Ensures : (n : ℕ) → Ensures (Left (suc n)) (Left n) parse_request_stmt
unfolding parse_request_stmt Left Stays
request-Ensures n s w =
    if-After (leb max_request_cases s.plan.case_count) (λ _. false-After)
      λ _.
        if-After (not (is_method s.parser.current.type)) (λ _. false-After)
          λ h. request_stmt-Stays n _ (advanced s) (
            advance-Within s.parser (suc n) n (omega (arith, method-weight s.parser.current.type h))
              w)

parse_statement-Ensures : (n : ℕ) → Ensures (Left (suc n)) (Left n) parse_statement
unfolding parse_statement parse_body_stmt parse_expect_stmt Left weight weight_of type_code
parse_statement-Ensures n s w =
    if-After (check s.parser token_newline)
      (λ h. true-After (
        advance-Within s.parser (suc n) n (omega (arith, check-weight s.parser token_newline h)) w))
      λ _.
        if-After (at_request s.parser) (λ _. request-Ensures n s w)
          λ _.
            if-After (check s.parser token_body_stmt)
              (λ _.
                if-After (s.plan.case_count == 0) (λ _. false-After) λ _. body_stmt-Ensures n _ s w)
              λ _.
                if-After (check s.parser token_expect)
                  (λ _.
                    if-After (s.plan.case_count == 0) (λ _. false-After)
                      λ _. expect_stmt-Ensures n _ s w)
                  λ _. false-After

loop-ends : (fuel n : ℕ) (s : State) → Left n s → n ≤ fuel → is_some (parse_program fuel s) ≡ true
unfolding parse_program Left
loop-ends zero n s w h = absurd (omega (arith, w.bound))
loop-ends (suc fuel) zero s w h = absurd (omega (arith, w.bound))
loop-ends (suc fuel) (suc n) s w h =
    let Ends = λ (o : Option (Bool × State)). is_some o ≡ true in
    let out = parse_statement s in
    if_cases Ends (check s.parser token_eof) (λ _. refl)
      λ _.
        if_cases Ends s.parser.had_error (λ _. refl)
          λ _.
            if_cases Ends out.0
              (λ e.
                loop-ends fuel n out.1 ((parse_statement-Ensures n s w).reached e) (omega arith))
              λ _. refl

-- The lexer of a parser that was made, before the first token.
pub start-At :
    (source : Text) (allocs : List Bool)
    → At
        (record {
          input = source;
          len = length source;
          pos = 0;
          line = 1;
          column = 1;
          read_body_raw_next = false;
          allocs = allocs;
        })
        []
        source
unfolding line_of column_of
start-At source allocs = record {
  input_is = refl;
  pos_is = refl;
  len_is = refl;
  line_is = refl;
  column_is = refl;
}

-- A parser that is made has no more than the whole source left.
Started : ℕ → Option DslParser → Type 0
Started n none = Unit {0}
Started n (some p) = Within n p

lexer-Started :
    (done : Bool) (source : Text) (error : Option DslParseError) (rest : List Bool)
    → Lacks 0 source
    → Started (length source + 1) (elim (create_lexer done source rest) [
      | none ↦ none
      | some l ↦ some (advance_parser (new_parser error l))
    ])
unfolding Started create_lexer new_parser
lexer-Started false source error rest clean = tt
lexer-Started true source error rest clean =
    shift-Within _ (length source + 1) clean
      (next_token-spells _ [] source (start-At source rest) clean) (omega arith)

dsl_parser_create-Started :
    (source : Text) (error : Option DslParseError) (allocs : List Bool)
    → Lacks 0 source
    → Started (length source + 1) (dsl_parser_create source error allocs)
unfolding dsl_parser_create dsl_create_lexer Started
dsl_parser_create-Started source error allocs clean =
    if_cases (Started (length source + 1)) (malloc allocs).0
      (λ _.
        lexer-Started (malloc (malloc allocs).1).0 source error (malloc (malloc allocs).1).1 clean)
      λ _. tt

parse_with-returns :
    (fuel n : ℕ) (parser : Option DslParser) (plan : RunPlan) (error : Option DslParseError)
    → Started n parser
    → n ≤ fuel
    → is_some (parse_with fuel parser plan error) ≡ true
unfolding parse_with Started Left
parse_with-returns fuel n none plan error w h = refl
parse_with-returns fuel n (some parser) plan error w h =
    finished _ (loop-ends fuel n (record { parser = parser; plan = plan }) w h)
  where
    finished :
        (o : Option (Bool × State))
        → is_some o ≡ true
        → is_some (elim o [ none ↦ none | some (done, s) ↦ some (finish_parse done s) ]) ≡ true
    finished none e = cc e
    finished (some _) e = refl

-- On a source without NUL the parser always returns: every statement reads a token that is spelled by
-- some of the source, so the fuel of two more than its length is never used up, whatever the plan was
-- and whichever allocations fail.
pub dsl_parse_run_plan_returns :
    (source : Text) (plan : RunPlan) (error : Option DslParseError) (allocs : List Bool)
    → Lacks 0 source
    → is_some (dsl_parse_run_plan (some source) plan error allocs) ≡ true
unfolding dsl_parse_run_plan
dsl_parse_run_plan_returns source plan error allocs clean =
    parse_with-returns (length source + 2) (length source + 1)
      (dsl_parser_create source error allocs) (init_run_plan plan) error
      (dsl_parser_create-Started source error allocs clean) (omega arith)
