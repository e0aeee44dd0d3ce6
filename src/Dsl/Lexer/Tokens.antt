-- ===== src/Dsl/Lexer/Tokens.antt =====
-- `dsl_lexer_get_tokens`, `dsl_free_token`, `dsl_free_tokens` and `dsl_token_type_name` of src/dsl/dsl_lexer.c. The
-- array's blocks are asked of `DslLexer.allocs`, in the order of the calls, too.
pub mod Rank
pub mod Gathers
mod Tests
use fman.Prelude.{
  ℕ, zero, suc, ◌+◌, ◌*◌, Bool, true, false, not, List, [], ◌∷◌, ◌++◌, Option, none, some, leb,
  if◌then◌else◌, length, Text, String,
}
use fman.Dsl.Token.{
  DslTokenType, token_eof, token_error, token_newline, token_get, token_post, token_put,
  token_delete, token_patch, token_body_stmt, token_expect, token_status, token_header, token_body,
  token_contains, token_int, token_string, token_ident, token_body_raw, DslToken,
}
use fman.Dsl.Lexer.{DslLexer, malloc, dsl_lexer_next_token}

-- The buffers that are given back.
abbrev pub dsl_free_token : DslToken → List Text
dsl_free_token token = elim token.str [ none ↦ [] | some str ↦ str ∷ [] ]

unfoldable pub dsl_free_tokens : List DslToken → List Text
dsl_free_tokens [] = []
dsl_free_tokens (token ∷ tokens) = dsl_free_token token ++ dsl_free_tokens tokens

-- The loop has not come to its end; NULL, with what was given back; or the array, with its capacity.
pub data Gathered : Type 0 where
  running : Gathered
  null_tokens : List Text → Gathered
  all_tokens : List DslToken → ℕ → Gathered

abbrev pub is_last : DslTokenType → Bool
is_last token_eof = true
is_last token_error = true
is_last _ = false

-- Whether there is room for one more, with the capacity then.
unfoldable pub grow : ℕ → ℕ → DslLexer → Bool × ℕ × DslLexer
unfolding malloc
grow count capacity lexer =
    let (done, allocs) = malloc lexer.allocs in
    if leb capacity count
    then (done, capacity * 2, record lexer { allocs = allocs })
    else (true, capacity, lexer)

unfoldable pub gather : ℕ → ℕ → List DslToken → DslLexer → Gathered × DslLexer
unfolding grow dsl_free_tokens dsl_lexer_next_token
gather zero capacity tokens lexer = (running, lexer)
gather (suc fuel) capacity tokens lexer =
    let (room, capacity', roomy) = grow (length tokens) capacity lexer in
    let (token, after) = dsl_lexer_next_token roomy in
    let rest = gather fuel capacity' (tokens ++ token ∷ []) after in
    if not room
    then (null_tokens (dsl_free_tokens tokens), roomy)
    else if is_last token.type
    then (all_tokens (tokens ++ token ∷ []) capacity', after)
    else rest

-- A token takes a byte at least, but for a raw body, which follows a token BODY, and for the last.
unfoldable pub dsl_lexer_get_tokens : DslLexer → Gathered × DslLexer
unfolding malloc gather
dsl_lexer_get_tokens lexer =
    let (done, allocs) = malloc lexer.allocs in
    let lexer' = record lexer { allocs = allocs } in
    let gathered = gather (2 * lexer.len + 2) 16 [] lexer' in
    if done then gathered else (null_tokens [], lexer')

abbrev pub dsl_token_type_name : DslTokenType → String
dsl_token_type_name token_eof = "EOF"
dsl_token_type_name token_error = "ERROR"
dsl_token_type_name token_newline = "NEWLINE"
dsl_token_type_name token_get = "GET"
dsl_token_type_name token_post = "POST"
dsl_token_type_name token_put = "PUT"
dsl_token_type_name token_delete = "DELETE"
dsl_token_type_name token_patch = "PATCH"
dsl_token_type_name token_expect = "EXPECT"
dsl_token_type_name token_status = "STATUS"
dsl_token_type_name token_header = "HEADER"
dsl_token_type_name token_body = "BODY"
dsl_token_type_name token_contains = "CONTAINS"
dsl_token_type_name token_int = "INT"
dsl_token_type_name token_string = "STRING"
dsl_token_type_name token_ident = "IDENT"
dsl_token_type_name _ = "UNKNOWN"
