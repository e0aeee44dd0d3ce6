-- ===== src/Dsl/Token.antt =====
-- include/dsl/dsl_token.h
use fman.Prelude.{ℕ, Option, Text}

pub data DslTokenType : Type 0 where
  token_eof token_error token_newline : DslTokenType
  token_get token_post token_put token_delete token_patch : DslTokenType
  token_body_stmt token_expect token_status token_header token_body token_contains : DslTokenType
  token_int token_string token_ident token_body_raw : DslTokenType

pub record DslToken : Type 0 where
  pub type : DslTokenType
  pub str : Option Text
  pub line : ℕ
  pub column : ℕ

-- The values of the enumeration.
unfoldable pub type_code : DslTokenType → ℕ
type_code token_eof = 0
type_code token_error = 1
type_code token_newline = 2
type_code token_get = 3
type_code token_post = 4
type_code token_put = 5
type_code token_delete = 6
type_code token_patch = 7
type_code token_body_stmt = 8
type_code token_expect = 9
type_code token_status = 10
type_code token_header = 11
type_code token_body = 12
type_code token_contains = 13
type_code token_int = 14
type_code token_string = 15
type_code token_ident = 16
type_code token_body_raw = 17
