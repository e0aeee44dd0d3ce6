-- ===== src/Dsl/Lexer/Tests.antt =====
-- The lexer on the inputs of tests/test_dsl_lexer.c, and on a raw body and a comment.
use fman.Prelude.{
  ℕ, ◌≡◌, refl, List, [], ◌∷◌, Option, none, some, String, Text, codes, suc, zero, length, false,
}
use fman.Dsl.Token.{
  DslTokenType, token_eof, token_newline, token_get, token_post, token_body_stmt, token_expect,
  token_status, token_header, token_body, token_contains, token_int, token_string, token_ident,
  token_body_raw,
}
use fman.Dsl.Lexer.{DslLexer, dsl_lexer_next_token}

abbrev lexer_on : Text → DslLexer
lexer_on input = record {
  input = input;
  len = length input;
  pos = 0;
  line = 1;
  column = 1;
  read_body_raw_next = false;
  allocs = [];
}

abbrev tokens : ℕ → DslLexer → List (DslTokenType × Option Text)
tokens zero lexer = []
tokens (suc n) lexer =
    let (t, lexer') = dsl_lexer_next_token lexer in (t.type, t.str) ∷ tokens n lexer'

abbrev named : DslTokenType → String → DslTokenType × Option Text
named t s = (t, some (codes s))

get_expect_status :
    tokens 8 (lexer_on (codes "GET https://example.com\nEXPECT status 200\n"))
    ≡ named token_get "GET"
      ∷ named token_ident "https://example.com"
      ∷ named token_newline "\\n"
      ∷ named token_expect "EXPECT"
      ∷ named token_status "status"
      ∷ named token_int "200"
      ∷ named token_newline "\\n"
      ∷ (token_eof, none)
      ∷ []
unfolding dsl_lexer_next_token codes
get_expect_status = refl

header_and_body_contains :
    tokens 10
      (lexer_on (codes "EXPECT header Content-Type text/html\nEXPECT body contains \"A b\"\n"))
    ≡ named token_expect "EXPECT"
      ∷ named token_header "header"
      ∷ named token_ident "Content-Type"
      ∷ named token_ident "text/html"
      ∷ named token_newline "\\n"
      ∷ named token_expect "EXPECT"
      ∷ named token_body "body"
      ∷ named token_contains "contains"
      ∷ named token_string "A b"
      ∷ named token_newline "\\n"
      ∷ []
unfolding dsl_lexer_next_token codes
header_and_body_contains = refl

raw_body_and_comment :
    tokens 5 (lexer_on (codes "BODY  {\"a\": 1} \t\r\n# note\nPOST"))
    ≡ named token_body_stmt "BODY"
      ∷ named token_body_raw "{\"a\": 1}"
      ∷ named token_newline "\\n"
      ∷ named token_newline "\\n"
      ∷ named token_post "POST"
      ∷ []
unfolding dsl_lexer_next_token codes
raw_body_and_comment = refl
