-- ===== src/Dsl/Lexer/Raw.antt =====
-- `scan_body_raw` of src/dsl/dsl_lexer.c, the raw body of a BODY statement: the rest of the line, without the blanks around it.
use fman.Prelude.{
  true, ==_iff, ℕ, zero, suc, ◌+◌, ◌-◌, ◌≡◌, refl, sym, ap, ◌∙◌, inl, inr, false, ◌&&◌, [], ◌∷◌,
  ◌++◌, if◌then◌else◌, Text, arith, append_assoc, take_while, drop_while, get_or, length, take,
  drop, take-drop_while, Bool-cases, AllPass, AllPass-take_while, subst, ◌==◌, take_all, drop_all,
  length-append,
}
use fman.Dsl.Token.{token_body_raw}
use fman.Dsl.Lexer.{
  DslLexer, dsl_strndup, is_space, in_raw, trim_len, copied, skip_while, scan_body_raw,
}
use fman.Dsl.Lexer.View.{At, line_of, newlines, newlines-append, get_or_at, skip_while-At}
use fman.Dsl.Lexer.Spelling.{Lexed, Lexed-skip, IsBlank, blanks-Skips}
use fman.Dsl.Lexer.Scan.{copied-Lexed}

-- A text without the blanks at its end.
trim_right : Text → Text
trim_right [] = []
trim_right (c ∷ cs) = let r = trim_right cs in if length r == 0 && is_space c then [] else c ∷ r

trim_step :
    (c : ℕ) (t r blanks : Text)
    → t ≡ r ++ blanks
    → AllPass is_space blanks
    → (more : Text) × (c ∷ t ≡ (if length r == 0 && is_space c then [] else c ∷ r) ++ more)
      × AllPass is_space more
trim_step c t [] blanks e a = elim (Bool-cases (is_space c)) [
  | inl blank ↦ (c ∷ blanks, rw blank (ap (◌∷◌ c) e), (blank, a))
  | inr black ↦ (blanks, rw black (ap (◌∷◌ c) e), a)
]
trim_step c t (x ∷ r) blanks e a = (blanks, ground (arith, ap (◌∷◌ c) e), a)

trim_right-append :
    (t : Text) → (blanks : Text) × (t ≡ trim_right t ++ blanks) × AllPass is_space blanks
unfolding trim_right
trim_right-append [] = ([], refl, tt)
trim_right-append (c ∷ t) =
    let (blanks, e, a) = trim_right-append t in trim_step c t (trim_right t) blanks e a

trim_len-cons :
    (input : Text) (start len : ℕ)
    → trim_len input start (suc len) ≡ (
        if trim_len input (start + 1) len == 0 && is_space (get_or input start 0)
        then 0
        else suc (trim_len input (start + 1) len))
unfolding trim_len
trim_len-cons input start zero = let e : start + 0 ≡ start = omega arith in rw e refl
trim_len-cons input start (suc len) =
    let e : start + suc len ≡ start + 1 + len = omega arith in
    rw e (ground (arith, trim_len-cons input start len))

trim_len-trim_right :
    (front word more : Text)
    → trim_len (front ++ (word ++ more)) (length front) (length word) ≡ length (trim_right word)
unfolding trim_right
trim_len-trim_right front [] more = unfold trim_len in refl
trim_len-trim_right front (c ∷ word) more =
    let later =
      rw (append_assoc front (c ∷ []) (word ++ more), length-append front (c ∷ [])) at
        (trim_len-trim_right (front ++ c ∷ []) word more) in
    rw
      (
        trim_len-cons (front ++ c ∷ (word ++ more)) (length front) (length word),
        get_or_at front (c ∷ (word ++ more)),
        later,
      )
      (ground arith)

raw_stops : in_raw 0 ≡ false
unfolding in_raw
raw_stops = refl

space_stops : is_space 0 ≡ false
unfolding is_space
space_stops = refl

space-IsBlank : (c : ℕ) → is_space c ≡ true → IsBlank c
unfolding is_space
space-IsBlank c h = grind (arith, ==_iff c b' ', ==_iff c b'\t')

-- Blanks are on one line.
newlines_blank : (blanks : Text) → AllPass is_space blanks → newlines blanks ≡ 0
unfolding is_space
newlines_blank [] a = refl
newlines_blank (c ∷ blanks) a = ground (arith, newlines_blank blanks a.1)

line_of_blank :
    (before blanks : Text) → AllPass is_space blanks → line_of (before ++ blanks) ≡ line_of before
unfolding line_of
line_of_blank before blanks a =
    omega (arith, newlines-append before blanks, newlines_blank blanks a)

-- What is copied is the line without the blanks at its end.
raw_text :
    {first after : DslLexer} (before word rest : Text)
    → At first before (word ++ rest)
    → At after (before ++ word) rest
    → take (trim_len first.input first.pos (after.pos - first.pos)) (drop first.pos first.input)
      ≡ trim_right word
raw_text {first} {after} before word rest v w =
    let size : length (before ++ word) - length before ≡ length word =
      omega (arith, length-append before word) in
    let (blanks, e, a) = trim_right-append word in
    rw (w.pos_is, v.pos_is, v.input_is, size, trim_len-trim_right before word rest, drop_all)
      (ap (λ (t : Text). take (length (trim_right word)) (t ++ rest)) e
        ∙ rw (append_assoc (trim_right word) blanks rest)
            (take_all (trim_right word) (blanks ++ rest)))

raw-Lexed :
    {first after : DslLexer} (before word rest : Text) (line : ℕ)
    → At first before (word ++ rest)
    → At after (before ++ word) rest
    → line ≡ line_of before
    → Lexed before (word ++ rest) (
        copied token_body_raw
          (dsl_strndup (trim_right word) after).0
          line
          first.column
          (dsl_strndup (trim_right word) after).1)
raw-Lexed {first} {after} before word rest line v w l =
    let (blanks, e, a) = trim_right-append word in
    copied-Lexed before word rest token_body_raw (trim_right word) line first.column after w l
      v.column_is (trim_right word, blanks, refl, e, a)

pub scan_body_raw-Lexed :
    {lexer : DslLexer} {before rest : Text}
    → At lexer before rest
    → Lexed before rest (scan_body_raw lexer)
unfolding scan_body_raw
scan_body_raw-Lexed {lexer} {before} {rest} v =
    let first = skip_while-At is_space space_stops v in
    let after = skip_while-At in_raw raw_stops first in
    let blank = take_while is_space rest in
    let more = drop_while is_space rest in
    let word = take_while in_raw more in
    let left = drop_while in_raw more in
    let first' : At (skip_while is_space lexer) (before ++ blank) (word ++ left) =
      rw (take-drop_while in_raw more) first in
    Lexed-skip blank (sym (take-drop_while is_space rest))
      (λ t after e. blanks-Skips blank space-IsBlank (AllPass-take_while is_space rest))
      (subst (λ (t : Text). Lexed (before ++ blank) t (scan_body_raw lexer))
        (take-drop_while in_raw more)
        (rw (raw_text (before ++ blank) word left first' after) (
          raw-Lexed (before ++ blank) word left lexer.line first' after
            (v.line_is ∙ sym (line_of_blank before blank (AllPass-take_while is_space rest))))))
