-- ===== src/Dsl/Lexer.antt =====
-- src/dsl/dsl_lexer.c. A lexer keeps its whole input and a position in it, as in the source. Whether
-- an allocation succeeds is for the environment: `allocs` lists its next answers, and behind the end
-- of the list every allocation succeeds. The lexer pointer is never NULL here.
pub mod Tests
pub mod View
pub mod Spelling
pub mod Scan
pub mod Raw
pub mod Next
pub mod Tokens
use fman.Prelude.{
  ℕ, zero, suc, ◌+◌, ◌-◌, ◌*◌, Bool, true, false, not, ◌&&◌, ◌||◌, List, [], ◌∷◌, ◌++◌, Option,
  none, some, ltb, leb, ◌==◌, if◌then◌else◌, length, get_or, take, drop, Text, codes, text_eq,
  is_digit, is_alpha, is_alnum,
}
use fman.Dsl.Token.{
  DslTokenType, token_eof, token_error, token_newline, token_get, token_post, token_put,
  token_delete, token_patch, token_body_stmt, token_expect, token_status, token_header, token_body,
  token_contains, token_int, token_string, token_ident, token_body_raw, DslToken,
}

pub record DslLexer : Type 0 where
  pub input : Text
  pub len : ℕ
  pub pos : ℕ
  pub line : ℕ
  pub column : ℕ
  pub read_body_raw_next : Bool
  pub allocs : List Bool

-- One allocation: whether it succeeds, and the answers that are left.
unfoldable pub malloc : List Bool → Bool × List Bool
malloc [] = (true, [])
malloc (b ∷ bs) = (b, bs)

unfoldable pub dsl_strndup : Text → DslLexer → Option Text × DslLexer
dsl_strndup s lexer =
    let (done, allocs) = malloc lexer.allocs in
    (if done then some s else none, record lexer { allocs = allocs })

pub peek : DslLexer → ℕ
peek lexer = if ltb lexer.pos lexer.len then get_or lexer.input lexer.pos 0 else 0

pub advance : DslLexer → DslLexer
advance lexer =
    let c = peek lexer in
    if c == 0
    then lexer
    else if c == b'\n'
    then record lexer { pos = lexer.pos + 1; line = lexer.line + 1; column = 1 }
    else record lexer { pos = lexer.pos + 1; column = lexer.column + 1 }

-- `while (test(peek(lexer))) advance(lexer);`
pub advance_while : (ℕ → Bool) → ℕ → DslLexer → DslLexer
advance_while test zero lexer = lexer
advance_while test (suc fuel) lexer =
    let rest = advance_while test fuel (advance lexer) in if test (peek lexer) then rest else lexer

-- Every test refuses the terminator, so the loop runs at most once for each byte that is left.
pub skip_while : (ℕ → Bool) → DslLexer → DslLexer
skip_while test lexer = advance_while test (lexer.len - lexer.pos) lexer

pub make_token : DslTokenType → Option Text → ℕ → ℕ → DslToken
make_token type str line column = record { type = type; str = str; line = line; column = column }

pub make_error_token : Text → ℕ → ℕ → DslLexer → DslToken × DslLexer
make_error_token message line column lexer =
    let (str, lexer') = dsl_strndup message lexer in
    (make_token token_error str line column, lexer')

pub is_space_or_tab : ℕ → Bool
is_space_or_tab c = c == b' ' || c == b'\t' || c == b'\r'

pub skip_spaces_and_tabs : DslLexer → DslLexer
skip_spaces_and_tabs lexer = skip_while is_space_or_tab lexer

pub is_ident_start : ℕ → Bool
is_ident_start c = is_alpha c || c == b'_' || c == b'-' || c == b':' || c == b'/' || c == b'.'

pub is_ident_char : ℕ → Bool
is_ident_char c =
    is_alnum c
    || c == b'_'
    || c == b'-'
    || c == b':'
    || c == b'/'
    || c == b'.'
    || c == b'?'
    || c == b'&'
    || c == b'='
    || c == b'%'
    || c == b'#'

pub keyword_type : Text → DslTokenType
keyword_type word =
    if text_eq word (codes "GET")
    then token_get
    else if text_eq word (codes "POST")
    then token_post
    else if text_eq word (codes "PUT")
    then token_put
    else if text_eq word (codes "DELETE")
    then token_delete
    else if text_eq word (codes "PATCH")
    then token_patch
    else if text_eq word (codes "EXPECT")
    then token_expect
    else if text_eq word (codes "status")
    then token_status
    else if text_eq word (codes "header")
    then token_header
    else if text_eq word (codes "body")
    then token_body
    else if text_eq word (codes "contains")
    then token_contains
    else if text_eq word (codes "BODY")
    then token_body_stmt
    else token_ident

-- The bytes of the input from `start` up to the position of `lexer`.
pub since : ℕ → DslLexer → Text
since start lexer = take (lexer.pos - start) (drop start lexer.input)

-- A token for a copied text, or the error token for a failed copy.
pub copied : DslTokenType → Option Text → ℕ → ℕ → DslLexer → DslToken × DslLexer
copied type none line column lexer = make_error_token (codes "out of memory") line column lexer
copied type (some text) line column lexer = (make_token type (some text) line column, lexer)

pub scan_number : DslLexer → DslToken × DslLexer
scan_number lexer =
    let after = skip_while is_digit lexer in
    let (num, lexer') = dsl_strndup (since lexer.pos after) after in
    copied token_int num lexer.line lexer.column lexer'

is_body_stmt : DslTokenType → Bool
is_body_stmt token_body_stmt = true
is_body_stmt _ = false

-- The token of a copied word; the keyword BODY makes the next token a raw body.
pub copied_word : Option Text → ℕ → ℕ → DslLexer → DslToken × DslLexer
copied_word none line column lexer = make_error_token (codes "out of memory") line column lexer
copied_word (some word) line column lexer =
    let type = keyword_type word in
    let flag = if is_body_stmt type then true else lexer.read_body_raw_next in
    (make_token type (some word) line column, record lexer { read_body_raw_next = flag })

pub scan_identifier : DslLexer → DslToken × DslLexer
scan_identifier lexer =
    let after = skip_while is_ident_char lexer in
    let (word, lexer') = dsl_strndup (since lexer.pos after) after in
    copied_word word lexer.line lexer.column lexer'

pub in_string : ℕ → Bool
in_string c = not (c == b'"') && not (c == 0) && not (c == b'\n')

pub scan_string : DslLexer → DslToken × DslLexer
scan_string lexer =
    let opened = advance lexer in
    let after = skip_while in_string opened in
    let (str, lexer') = dsl_strndup (since opened.pos after) after in
    if not (peek after == b'"')
    then make_error_token (codes "unterminated string") lexer.line lexer.column after
    else copied token_string str lexer.line lexer.column (advance lexer')

pub is_space : ℕ → Bool
is_space c = c == b' ' || c == b'\t'

pub in_raw : ℕ → Bool
in_raw c = not (c == 0) && not (c == b'\n') && not (c == b'\r')

-- `while (len > 0 && (input[start + len - 1] is a space or a tab)) len--;`
pub trim_len : Text → ℕ → ℕ → ℕ
trim_len input start zero = zero
trim_len input start (suc len) =
    if is_space (get_or input (start + len) 0) then trim_len input start len else suc len

pub scan_body_raw : DslLexer → DslToken × DslLexer
scan_body_raw lexer =
    let first = skip_while is_space lexer in
    let after = skip_while in_raw first in
    let len = trim_len first.input first.pos (after.pos - first.pos) in
    let (raw, lexer') = dsl_strndup (take len (drop first.pos first.input)) after in
    copied token_body_raw raw lexer.line first.column lexer'

unfoldable pub create_lexer : Bool → Text → List Bool → Option DslLexer
create_lexer false input allocs = none
create_lexer true input allocs = some (record {
  input = input;
  len = length input;
  pos = 0;
  line = 1;
  column = 1;
  read_body_raw_next = false;
  allocs = allocs;
})

unfoldable pub dsl_create_lexer : Option Text → List Bool → Option DslLexer
dsl_create_lexer none allocs = none
dsl_create_lexer (some input) allocs =
    let (done, rest) = malloc allocs in create_lexer done input rest

pub in_comment : ℕ → Bool
in_comment c = not (c == 0) && not (c == b'\n')

-- The text that `snprintf` writes for a character that starts no token.
unexpected : ℕ → Text
unexpected c = codes "unexpected character '" ++ c ∷ codes "'"

-- The branches on the next character, once spaces are skipped; `again` stands for the recursive call
-- behind a comment.
pub lex_char : (DslLexer → DslToken × DslLexer) → ℕ → DslLexer → DslToken × DslLexer
lex_char again c lexer =
    if c == 0
    then (make_token token_eof none lexer.line lexer.column, lexer)
    else if c == b'\n'
    then (let (str, lexer') = dsl_strndup (codes "\\n") (advance lexer) in
        (make_token token_newline str lexer.line lexer.column, lexer'))
    else if c == b'"'
    then scan_string lexer
    else if is_digit c
    then scan_number lexer
    else if is_ident_start c
    then scan_identifier lexer
    else if c == b'#'
    then again (skip_while in_comment lexer)
    else make_error_token (unexpected c) lexer.line lexer.column (advance lexer)

pub next_token : (DslLexer → DslToken × DslLexer) → DslLexer → DslToken × DslLexer
next_token again lexer =
    let here = skip_spaces_and_tabs lexer in
    if here.read_body_raw_next
    then scan_body_raw (record here { read_body_raw_next = false })
    else lex_char again (peek here) here

-- A call with at most `depth` calls inside one another.
pub next_token_within : ℕ → DslLexer → DslToken × DslLexer
next_token_within zero lexer = (make_token token_eof none lexer.line lexer.column, lexer)
next_token_within (suc depth) lexer = next_token (next_token_within depth) lexer

-- A comment ends before a newline or the end of the text, so the call behind it makes no further one.
unfoldable pub dsl_lexer_next_token : DslLexer → DslToken × DslLexer
unfolding malloc dsl_strndup peek advance advance_while skip_while make_token make_error_token
    is_space_or_tab skip_spaces_and_tabs is_ident_start is_ident_char keyword_type since copied
    scan_number is_body_stmt copied_word scan_identifier in_string scan_string is_space in_raw
    trim_len scan_body_raw in_comment unexpected lex_char next_token next_token_within codes text_eq
    is_digit is_alpha is_alnum
dsl_lexer_next_token lexer = next_token_within 2 lexer
