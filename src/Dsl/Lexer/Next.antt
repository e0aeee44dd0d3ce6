-- ===== src/Dsl/Lexer/Next.antt =====
-- `dsl_lexer_next_token` of src/dsl/dsl_lexer.c: its branches and its call behind a comment.
use fman.Prelude.{
  ap, AllPass, AllPass-take_while, ℕ, ◌≡◌, ◌≢◌, refl, sym, inl, inr, Bool, true, false, [], ◌∷◌,
  ◌++◌, Text, Lacks, Lacks-behind, deref, arith, append-nil, take_while, drop_while, codes, none,
  take-drop_while, if_cases, ==_iff, subst, ◌==◌, is_digit, is_alnum,
}
use fman.Dsl.Token.{token_eof, token_newline, DslToken}
use fman.Dsl.Lexer.{
  DslLexer, advance, skip_while, skip_spaces_and_tabs, is_space_or_tab, in_comment, is_ident_start,
  is_ident_char, lex_char, next_token, next_token_within, dsl_lexer_next_token, make_token,
  dsl_strndup, scan_string,
}
use fman.Dsl.Lexer.View.{At, skip_while-At, advance-At, peek-At}
use fman.Dsl.Lexer.Spelling.{
  Skips, comment, IsBlank, AtLineEnd, blanks-Skips, Lexed, Lexed-skip, Lexed-here, error-Lexed,
  At-allocs, At-flag, strndup_cases,
}
use fman.Dsl.Lexer.Scan.{scan_number-Lexed, scan_identifier-Lexed, scan_string-Lexed}
use fman.Dsl.Lexer.Raw.{scan_body_raw-Lexed}

comment_stops : in_comment 0 ≡ false
unfolding in_comment
comment_stops = refl

blank_stops : is_space_or_tab 0 ≡ false
unfolding is_space_or_tab
blank_stops = refl

drop_while_stop :
    (test : ℕ → Bool) (rest : Text) → test 0 ≡ false → test (deref (drop_while test rest)) ≡ false
drop_while_stop test [] z = z
drop_while_stop test (c ∷ rest) z =
    if_cases (λ (t : Text). test (deref t) ≡ false) (test c) (λ _. drop_while_stop test rest z)
      (λ no_more. no_more)

drop_while-Lacks :
    (b : ℕ) (test : ℕ → Bool) (rest : Text) → Lacks b rest → Lacks b (drop_while test rest)
drop_while-Lacks b test rest l =
    Lacks-behind b (take_while test rest) (drop_while test rest) (rw (take-drop_while test rest) l)

is_space_or_tab-IsBlank : (c : ℕ) → is_space_or_tab c ≡ true → IsBlank c
unfolding is_space_or_tab
is_space_or_tab-IsBlank c h = grind (arith, ==_iff c b' ', ==_iff c b'\t', ==_iff c b'\r')

in_comment-Lacks : (line : Text) → AllPass in_comment line → Lacks b'\n' line
unfolding in_comment
in_comment-Lacks [] a = tt
in_comment-Lacks (c ∷ line) (here, a) = (ground (arith, here), in_comment-Lacks line a)

-- A comment ends at the end of its line.
comment_ends : (more : Text) → in_comment (deref more) ≡ false → Lacks 0 more → AtLineEnd more
unfolding in_comment
comment_ends [] stop l = inl refl
comment_ends (c ∷ more) stop l = inr (more, ap (λ (x : ℕ). x ∷ more) (ground (arith, stop, l.0)))

hash-Skips :
    (rest : Text) {t after : Text}
    → Lacks 0 rest
    → drop_while in_comment rest ≡ t ++ after
    → Skips after t
    → Skips after (take_while in_comment (b'#' ∷ rest) ++ t)
unfolding in_comment
hash-Skips rest l e skips =
    comment (take_while in_comment rest) (in_comment-Lacks _ (AllPass-take_while in_comment rest))
      (subst AtLineEnd e (
        comment_ends (drop_while in_comment rest) (drop_while_stop in_comment rest comment_stops)
          (drop_while-Lacks 0 in_comment rest l)))
      skips

comment-Skips :
    (c : ℕ) (rest : Text) {t after : Text}
    → c ≡ b'#'
    → Lacks 0 rest
    → drop_while in_comment (c ∷ rest) ≡ t ++ after
    → Skips after t
    → Skips after (take_while in_comment (c ∷ rest) ++ t)
comment-Skips c rest {t} {after} is_hash l =
    subst
      (λ (x : ℕ).
        drop_while in_comment (x ∷ rest) ≡ t ++ after
        → Skips after t
        → Skips after (take_while in_comment (x ∷ rest) ++ t))
      (sym is_hash) (unfold in_comment in hash-Skips rest l)

newline-Lexed :
    {lexer : DslLexer} {before : Text} (rest : Text)
    → At lexer before (b'\n' ∷ rest)
    → Lexed before (b'\n' ∷ rest) (
      make_token token_newline
          (dsl_strndup (codes "\\n") (advance lexer)).0
          lexer.line
          lexer.column,
      (dsl_strndup (codes "\\n") (advance lexer)).1,
    )
newline-Lexed {lexer} {before} rest v =
    let (allocs, copy) = strndup_cases (codes "\\n") (advance lexer) in
    let next = At-allocs allocs (advance-At b'\n' v (omega arith)) in
    elim copy [
      | inl e ↦ rw e (
          Lexed-here before (b'\n' ∷ []) rest token_newline _ lexer.line lexer.column _ next
            v.line_is v.column_is refl)
      | inr e ↦ rw e (
          Lexed-here before (b'\n' ∷ []) rest token_newline _ lexer.line lexer.column _ next
            v.line_is v.column_is refl)
    ]

ident_char-of-start : (c : ℕ) → is_ident_start c ≡ true → is_ident_char c ≡ true
unfolding is_ident_start is_ident_char is_alnum
ident_char-of-start c h = ground arith

-- The branches on the next character, where the recursive call reads what it should.
lex_char-Lexed :
    (again : DslLexer → DslToken × DslLexer) {lexer : DslLexer} {before : Text} (rest : Text)
    → At lexer before rest
    → Lacks 0 rest
    → (deref rest ≡ b'#'
        → (after : DslLexer)
        → At after (before ++ take_while in_comment rest) (drop_while in_comment rest)
        → Lexed (before ++ take_while in_comment rest) (drop_while in_comment rest) (again after))
    → Lexed before rest (lex_char again (deref rest) lexer)
unfolding lex_char
lex_char-Lexed again {lexer} {before} [] v l later =
    Lexed-here before [] [] token_eof none lexer.line lexer.column lexer (rw append-nil v) v.line_is
      v.column_is (refl, refl)
lex_char-Lexed again {lexer} {before} (c ∷ rest) v l later =
    let Reads = λ (out : DslToken × DslLexer). Lexed before (c ∷ rest) out in
    if_cases Reads (c == 0) (λ h. absurd (l.0 ((==_iff c 0).0 h)))
      λ _.
        if_cases Reads (c == b'\n') (λ h. at_newline ((==_iff c b'\n').0 h))
          λ _.
            if_cases Reads (c == b'"') (λ h. at_quote ((==_iff c b'"').0 h))
              λ _.
                if_cases Reads (is_digit c) (λ h. scan_number-Lexed v h)
                  λ _.
                    if_cases Reads (is_ident_start c)
                      (λ h. scan_identifier-Lexed v (ident_char-of-start c h))
                      λ _.
                        if_cases Reads (c == b'#') (λ h. at_comment ((==_iff c b'#').0 h))
                          λ _.
                            error-Lexed before (c ∷ []) rest _ _ _ _ (advance-At c v l.0) v.line_is
                              v.column_is
  where
    at_newline :
        c ≡ b'\n'
        → Lexed before (c ∷ rest) (
          make_token token_newline
              (dsl_strndup (codes "\\n") (advance lexer)).0
              lexer.line
              lexer.column,
          (dsl_strndup (codes "\\n") (advance lexer)).1,
        )
    at_newline e = rw e (newline-Lexed rest (subst (λ (x : ℕ). At lexer before (x ∷ rest)) e v))

    at_quote : c ≡ b'"' → Lexed before (c ∷ rest) (scan_string lexer)
    at_quote e = rw e (scan_string-Lexed rest (subst (λ (x : ℕ). At lexer before (x ∷ rest)) e v))

    at_comment : c ≡ b'#' → Lexed before (c ∷ rest) (again (skip_while in_comment lexer))
    at_comment e =
        Lexed-skip (take_while in_comment (c ∷ rest)) (sym (take-drop_while in_comment (c ∷ rest)))
          (λ t after split. comment-Skips c rest e l.1 split)
          (later e (skip_while in_comment lexer) (skip_while-At in_comment comment_stops v))

next_token-Lexed :
    (again : DslLexer → DslToken × DslLexer) (lexer : DslLexer) (before rest : Text)
    → ((after : DslLexer) (past more : Text)
        → deref (drop_while is_space_or_tab rest) ≡ b'#'
        → in_comment (deref more) ≡ false
        → At after past more
        → Lacks 0 more
        → Lexed past more (again after))
    → At lexer before rest
    → Lacks 0 rest
    → Lexed before rest (next_token again lexer)
unfolding next_token skip_spaces_and_tabs
next_token-Lexed again lexer before rest ih v l =
    let blank = take_while is_space_or_tab rest in
    let more = drop_while is_space_or_tab rest in
    let here = skip_while-At is_space_or_tab blank_stops v in
    let l' = drop_while-Lacks 0 is_space_or_tab rest l in
    Lexed-skip blank (sym (take-drop_while is_space_or_tab rest))
      (λ t after split.
        blanks-Skips blank is_space_or_tab-IsBlank (AllPass-take_while is_space_or_tab rest))
      (if_cases (λ (out : DslToken × DslLexer). Lexed (before ++ blank) more out)
        (skip_while is_space_or_tab lexer).read_body_raw_next
        (λ _. scan_body_raw-Lexed (At-flag false here))
        (λ _. rw (peek-At here) (
          lex_char-Lexed again more here l' λ hash after w.
            ih after _ _ hash (drop_while_stop in_comment more comment_stops) w
              (drop_while-Lacks 0 in_comment more l'))))

-- Behind a comment no blank is skipped, and no further comment begins.
not_hash :
    (rest : Text) → in_comment (deref rest) ≡ false → deref (drop_while is_space_or_tab rest) ≢ b'#'
unfolding in_comment is_space_or_tab
not_hash [] h = omega arith
not_hash (c ∷ rest) h = ground arith

end-Lexed :
    (again : DslLexer → DslToken × DslLexer) (lexer : DslLexer) (before rest : Text)
    → in_comment (deref rest) ≡ false
    → At lexer before rest
    → Lacks 0 rest
    → Lexed before rest (next_token again lexer)
end-Lexed again lexer before rest stop v l =
    next_token-Lexed again lexer before rest
      (λ after past more hash. absurd (not_hash rest stop hash)) v l

pub next_token-spells :
    (lexer : DslLexer) (before rest : Text)
    → At lexer before rest
    → Lacks 0 rest
    → Lexed before rest (dsl_lexer_next_token lexer)
unfolding dsl_lexer_next_token
next_token-spells lexer before rest v l =
    unfold next_token_within in
    next_token-Lexed (next_token_within 1) lexer before rest
      (λ after past more hash stop w l'. end-Lexed (next_token_within 0) after past more stop w l')
      v l
