-- ===== src/Dsl/Lexer/Tokens/Rank.antt =====
-- src/dsl/dsl_lexer.c: a raw body is read right behind the keyword BODY only.
use fman.Prelude.{
  ℕ, zero, suc, ◌-◌, ◌≡◌, ◌≢◌, refl, ◌∙◌, Bool, true, false, not, Option, none, some, if_cases,
  ◌==◌, Text, arith, is_digit, Bool-cases, inl, inr,
}
use fman.Dsl.Token.{DslTokenType, DslToken, type_code, token_body_raw}
use fman.Dsl.Lexer.{
  DslLexer, dsl_strndup, advance, advance_while, skip_while, peek, make_token, make_error_token,
  is_space_or_tab, skip_spaces_and_tabs, keyword_type, copied, scan_number, copied_word,
  scan_identifier, in_string, scan_string, is_space, in_raw, scan_body_raw, in_comment, lex_char,
  next_token, next_token_within, dsl_lexer_next_token, is_ident_start,
}

advance_flag : (lexer : DslLexer) → (advance lexer).read_body_raw_next ≡ lexer.read_body_raw_next
unfolding advance
advance_flag lexer =
    let Same = λ (l : DslLexer). l.read_body_raw_next ≡ lexer.read_body_raw_next in
    if_cases Same (peek lexer == 0) (λ _. refl)
      (λ _. if_cases Same (peek lexer == b'\n') (λ _. refl) (λ _. refl))

advance_while_flag :
    (test : ℕ → Bool) (fuel : ℕ) (lexer : DslLexer)
    → (advance_while test fuel lexer).read_body_raw_next ≡ lexer.read_body_raw_next
unfolding advance_while
advance_while_flag test zero lexer = refl
advance_while_flag test (suc fuel) lexer =
    if_cases (λ (l : DslLexer). l.read_body_raw_next ≡ lexer.read_body_raw_next) (test (peek lexer))
      (λ _. advance_while_flag test fuel (advance lexer) ∙ advance_flag lexer) (λ _. refl)

skip_flag :
    (test : ℕ → Bool) (lexer : DslLexer)
    → (skip_while test lexer).read_body_raw_next ≡ lexer.read_body_raw_next
unfolding skip_while
skip_flag test lexer = advance_while_flag test (lexer.len - lexer.pos) lexer

copied_flag :
    (type : DslTokenType) (text : Option Text) (line column : ℕ) (lexer : DslLexer)
    → (copied type text line column lexer).1.read_body_raw_next ≡ lexer.read_body_raw_next
unfolding copied make_error_token dsl_strndup
copied_flag type none line column lexer = refl
copied_flag type (some text) line column lexer = refl

-- A raw body leaves the flag as it finds it, and it is put out before.
scan_body_raw_flag :
    (lexer : DslLexer) → (scan_body_raw lexer).1.read_body_raw_next ≡ lexer.read_body_raw_next
unfolding scan_body_raw dsl_strndup
scan_body_raw_flag lexer =
    let first = skip_while is_space lexer in
    copied_flag token_body_raw _ lexer.line first.column _
    ∙ skip_flag in_raw first
    ∙ skip_flag is_space lexer

NotRaw : DslToken × DslLexer → Type 0
NotRaw out = type_code out.0.type ≢ 17

error-NotRaw :
    (message : Text) (line column : ℕ) (lexer : DslLexer)
    → NotRaw (make_error_token message line column lexer)
unfolding NotRaw make_error_token make_token type_code
error-NotRaw message line column lexer e = absurd (omega (arith, e))

copied-NotRaw :
    (type : DslTokenType) (text : Option Text) (line column : ℕ) (lexer : DslLexer)
    → type_code type ≢ 17
    → NotRaw (copied type text line column lexer)
unfolding copied NotRaw make_token
copied-NotRaw type none line column lexer ne = unfold NotRaw in error-NotRaw _ line column lexer
copied-NotRaw type (some text) line column lexer ne = ne

keyword_not_raw : (word : Text) → type_code (keyword_type word) ≢ 17
unfolding keyword_type type_code
keyword_not_raw word = ground arith

copied_word-NotRaw :
    (word : Option Text) (line column : ℕ) (lexer : DslLexer)
    → NotRaw (copied_word word line column lexer)
unfolding copied_word NotRaw make_token
copied_word-NotRaw none line column lexer = error-NotRaw _ line column lexer
copied_word-NotRaw (some word) line column lexer = keyword_not_raw word

scan_string-NotRaw : (lexer : DslLexer) → NotRaw (scan_string lexer)
unfolding scan_string dsl_strndup type_code
scan_string-NotRaw lexer =
    if_cases NotRaw (not (peek (skip_while in_string (advance lexer)) == b'"'))
      (λ _. error-NotRaw _ _ _ _) (λ _. copied-NotRaw _ _ _ _ _ (λ e. absurd (omega (arith, e))))

-- Behind a comment, the call must find the flag put out.
lex_char-NotRaw :
    (again : DslLexer → DslToken × DslLexer) (c : ℕ) (lexer : DslLexer)
    → NotRaw (again (skip_while in_comment lexer))
    → NotRaw (lex_char again c lexer)
unfolding lex_char scan_number scan_identifier type_code make_token
lex_char-NotRaw again c lexer behind =
    if_cases NotRaw (c == 0) (λ _. unfold NotRaw in (λ e. absurd (omega (arith, e))))
      (λ _.
        if_cases NotRaw (c == b'\n') (λ _. unfold NotRaw in (λ e. absurd (omega (arith, e))))
          (λ _.
            if_cases NotRaw (c == b'"') (λ _. scan_string-NotRaw lexer)
              (λ _.
                if_cases NotRaw (is_digit c)
                  (λ _. copied-NotRaw _ _ _ _ _ (λ e. absurd (omega (arith, e))))
                  (λ _.
                    if_cases NotRaw (is_ident_start c) (λ _. copied_word-NotRaw _ _ _ _)
                      (λ _.
                        if_cases NotRaw (c == b'#') (λ _. behind) (λ _. error-NotRaw _ _ _ _))))))

spaces_flag :
    (lexer : DslLexer) → (skip_spaces_and_tabs lexer).read_body_raw_next ≡ lexer.read_body_raw_next
unfolding skip_spaces_and_tabs
spaces_flag lexer = skip_flag is_space_or_tab lexer

within-NotRaw :
    (depth : ℕ) (lexer : DslLexer)
    → lexer.read_body_raw_next ≡ false
    → NotRaw (next_token_within depth lexer)
unfolding next_token_within next_token
within-NotRaw zero lexer off =
    unfold NotRaw make_token type_code in (λ e. absurd (omega (arith, e)))
within-NotRaw (suc depth) lexer off =
    let here = skip_spaces_and_tabs lexer in
    if_cases NotRaw here.read_body_raw_next (λ on. absurd (cc (on, spaces_flag lexer, off)))
      (λ _. lex_char-NotRaw (next_token_within depth) (peek here) here (
        within-NotRaw depth (skip_while in_comment here)
          (skip_flag in_comment here ∙ spaces_flag lexer ∙ off)))

next_flag :
    (again : DslLexer → DslToken × DslLexer) (lexer : DslLexer)
    → lexer.read_body_raw_next ≡ true
    → (next_token again lexer).1.read_body_raw_next ≡ false
unfolding next_token
next_flag again lexer on =
    let here = skip_spaces_and_tabs lexer in
    if_cases (λ (out : DslToken × DslLexer). out.1.read_body_raw_next ≡ false)
      here.read_body_raw_next (λ _. scan_body_raw_flag (record here { read_body_raw_next = false }))
      (λ off. absurd (cc (off, spaces_flag lexer, on)))

-- A raw body is read only where the flag is set, which is put out then.
pub raw_flag :
    (lexer : DslLexer)
    → type_code (dsl_lexer_next_token lexer).0.type ≡ 17
    → (lexer.read_body_raw_next ≡ true)
      × ((dsl_lexer_next_token lexer).1.read_body_raw_next ≡ false)
unfolding dsl_lexer_next_token next_token_within next_token NotRaw
raw_flag lexer raw = elim (Bool-cases lexer.read_body_raw_next) [
  | inr off ↦ absurd (within-NotRaw 2 lexer off raw)
  | inl on ↦ (on, next_flag (next_token_within 1) lexer on)
]
