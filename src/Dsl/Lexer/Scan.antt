-- ===== src/Dsl/Lexer/Scan.antt =====
-- `scan_number`, `scan_identifier` and `scan_string` of src/dsl/dsl_lexer.c.
use fman.Prelude.{
  ℕ, ◌≡◌, ◌≢◌, refl, inl, inr, Bool, true, false, List, [], ◌∷◌, ◌++◌, some, if◌then◌else◌, Text,
  deref, arith, append_assoc, take_while, drop_while, take-drop_while, is_digit, Bool-cases,
  AllPass, AllPass-take_while, subst, codes, not, ◌==◌, is_alnum,
}
use fman.Dsl.Token.{
  DslTokenType, token_eof, token_error, token_newline, token_int, token_string, token_body_raw,
}
use fman.Dsl.Lexer.{
  DslLexer, dsl_strndup, make_error_token, keyword_type, is_ident_char, copied, copied_word,
  scan_number, scan_identifier, scan_string, in_string, advance, peek,
}
use fman.Dsl.Lexer.View.{At, line_of, column_of, skip_while-At, since-At, advance-At, peek-At}
use fman.Dsl.Lexer.Spelling.{
  Spells, Lexed, Lexed-here, error-Lexed, At-allocs, At-flag, strndup_cases,
}

ident_stops : is_ident_char 0 ≡ false
unfolding is_ident_char is_alnum
ident_stops = refl

pub copied-Lexed :
    (before spelled left : Text) (type : DslTokenType) (text : Text) (line column : ℕ)
    (after : DslLexer)
    → At after (before ++ spelled) left
    → line ≡ line_of before
    → column ≡ column_of before
    → Spells type (some text) spelled left
    → Lexed before
        (spelled ++ left)
        (copied type (dsl_strndup text after).0 line column (dsl_strndup text after).1)
unfolding copied
copied-Lexed before spelled left type text line column after v l c s =
    let (allocs, copy) = strndup_cases text after in
    elim copy [
      | inl e ↦
          rw e (Lexed-here before spelled left type _ line column _ (At-allocs allocs v) l c s)
      | inr e ↦ rw e (error-Lexed before spelled left _ line column _ (At-allocs allocs v) l c)
    ]

take_while_ne :
    (test : ℕ → Bool) (rest : Text)
    → test 0 ≡ false
    → test (deref rest) ≡ true
    → take_while test rest ≢ []
take_while_ne test [] z h = cc
take_while_ne test (c ∷ rest) z h = ground arith

pub scan_number-Lexed :
    {lexer : DslLexer} {before rest : Text}
    → At lexer before rest
    → is_digit (deref rest) ≡ true
    → Lexed before rest (scan_number lexer)
unfolding scan_number is_digit
scan_number-Lexed {lexer} {before} {rest} v h =
    let after = skip_while-At is_digit refl v in
    subst (λ (t : Text). Lexed before t (scan_number lexer)) (take-drop_while is_digit rest)
      (rw (since-At before (take_while is_digit rest) (drop_while is_digit rest) rest v after) (
        copied-Lexed before (take_while is_digit rest) (drop_while is_digit rest) token_int
          (take_while is_digit rest) lexer.line lexer.column _ after v.line_is v.column_is
          (refl, take_while_ne is_digit rest refl h, AllPass-take_while is_digit rest)))

abbrev is_word : DslTokenType → Bool
is_word token_eof = false
is_word token_error = false
is_word token_newline = false
is_word token_string = false
is_word token_int = false
is_word token_body_raw = false
is_word _ = true

keyword_type-is_word : (word : Text) → is_word (keyword_type word) ≡ true
unfolding keyword_type
keyword_type-is_word word = ground arith

word-Spells :
    (type : DslTokenType) (spelled left : Text)
    → is_word type ≡ true
    → spelled ≢ []
    → AllPass is_ident_char spelled
    → keyword_type spelled ≡ type
    → Spells type (some spelled) spelled left
word-Spells token_eof spelled left w n a k = cc
word-Spells token_error spelled left w n a k = cc
word-Spells token_newline spelled left w n a k = cc
word-Spells token_string spelled left w n a k = cc
word-Spells token_int spelled left w n a k = cc
word-Spells token_body_raw spelled left w n a k = cc
word-Spells _ spelled left w n a k = (refl, n, a, k)

copied_word-Lexed :
    (before word left : Text) (line column : ℕ) (after : DslLexer)
    → At after (before ++ word) left
    → line ≡ line_of before
    → column ≡ column_of before
    → word ≢ []
    → AllPass is_ident_char word
    → Lexed before
        (word ++ left)
        (copied_word (dsl_strndup word after).0 line column (dsl_strndup word after).1)
unfolding copied_word
copied_word-Lexed before word left line column after v l c n a =
    let (allocs, copy) = strndup_cases word after in
    elim copy [
      | inl e ↦ rw e (
          Lexed-here before word left (keyword_type word) _ line column _
            (At-flag _ (At-allocs allocs v)) l c
            (word-Spells (keyword_type word) word left (keyword_type-is_word word) n a refl))
      | inr e ↦ rw e (error-Lexed before word left _ line column _ (At-allocs allocs v) l c)
    ]

pub scan_identifier-Lexed :
    {lexer : DslLexer} {before rest : Text}
    → At lexer before rest
    → is_ident_char (deref rest) ≡ true
    → Lexed before rest (scan_identifier lexer)
unfolding scan_identifier
scan_identifier-Lexed {lexer} {before} {rest} v h =
    let after = skip_while-At is_ident_char ident_stops v in
    subst (λ (t : Text). Lexed before t (scan_identifier lexer))
      (take-drop_while is_ident_char rest)
      (rw
        (since-At before (take_while is_ident_char rest) (drop_while is_ident_char rest) rest v
          after)
        (copied_word-Lexed before (take_while is_ident_char rest) (drop_while is_ident_char rest)
          lexer.line lexer.column _ after v.line_is v.column_is
          (take_while_ne is_ident_char rest ident_stops h) (AllPass-take_while is_ident_char rest)))

-- Behind the closing quote.
closed-At :
    {after : DslLexer} (before text left : Text) (allocs : List Bool)
    → At after (before ++ (b'"' ∷ text)) (b'"' ∷ left)
    → At (advance (record after { allocs = allocs })) (before ++ (b'"' ∷ (text ++ b'"' ∷ []))) left
closed-At before text left allocs v =
    rw (← append_assoc before (b'"' ∷ text) (b'"' ∷ []))
      (advance-At b'"' (At-allocs allocs v) (omega arith))

closed-Lexed :
    (before text left : Text) (line column : ℕ) (after : DslLexer)
    → At after (before ++ (b'"' ∷ text)) (b'"' ∷ left)
    → line ≡ line_of before
    → column ≡ column_of before
    → Lexed before ((b'"' ∷ (text ++ b'"' ∷ [])) ++ left) (
        copied token_string
          (dsl_strndup text after).0
          line
          column
          (advance (dsl_strndup text after).1))
unfolding copied
closed-Lexed before text left line column after v l c =
    let (allocs, copy) = strndup_cases text after in
    let spelled : Text = b'"' ∷ (text ++ b'"' ∷ []) in
    elim copy [
      | inl e ↦ rw e (
          Lexed-here before spelled left token_string _ line column _
            (closed-At before text left allocs v) l c (text, refl, refl))
      | inr e ↦ rw e (
          error-Lexed before spelled left _ line column _ (closed-At before text left allocs v) l c)
    ]

string-Lexed :
    (before text left : Text) (line column : ℕ) (after : DslLexer)
    → At after (before ++ (b'"' ∷ text)) left
    → line ≡ line_of before
    → column ≡ column_of before
    → Lexed before ((b'"' ∷ text) ++ left) (
        if not (peek after == b'"')
        then make_error_token (codes "unterminated string") line column after
        else copied token_string
            (dsl_strndup text after).0
            line
            column
            (advance (dsl_strndup text after).1))
string-Lexed before text [] line column after v l c =
    rw (peek-At v) (error-Lexed before (b'"' ∷ text) [] _ line column after v l c)
string-Lexed before text (q ∷ left) line column after v l c = elim (Bool-cases (q == b'"')) [
  | inl quote ↦
      let same : q ≡ b'"' = ground arith in
      rw (peek-At v, quote, same, ← append_assoc text (b'"' ∷ []) left)
        (closed-Lexed before text left line column after
          (subst (λ (x : ℕ). At after (before ++ (b'"' ∷ text)) (x ∷ left)) same v) l c)
  | inr other ↦
      rw (peek-At v, other) (error-Lexed before (b'"' ∷ text) (q ∷ left) _ line column after v l c)
]

pub scan_string-Lexed :
    {lexer : DslLexer} {before : Text} (rest : Text)
    → At lexer before (b'"' ∷ rest)
    → Lexed before (b'"' ∷ rest) (scan_string lexer)
unfolding scan_string in_string
scan_string-Lexed {lexer} {before} rest v =
    let opened = advance-At b'"' v (omega arith) in
    let after = skip_while-At in_string refl opened in
    subst (λ (t : Text). Lexed before (b'"' ∷ t) (scan_string lexer))
      (take-drop_while in_string rest)
      (rw
        (since-At (before ++ b'"' ∷ []) (take_while in_string rest) (drop_while in_string rest) rest
          opened after)
        (string-Lexed before (take_while in_string rest) (drop_while in_string rest) lexer.line
          lexer.column _ (rw (← append_assoc before (b'"' ∷ []) (take_while in_string rest)) after)
          v.line_is v.column_is))
