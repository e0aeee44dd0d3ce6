-- ===== src/Dsl/Lexer/View.antt =====
-- src/dsl/dsl_lexer.c: a lexer seen as the text that it has read and the text that is left.
use mathlib.Core.List.{reverse, reverse-append}
use fman.Prelude.{
  ℕ, zero, suc, ◌+◌, ◌-◌, ◌≤◌, ◌≡◌, ◌≢◌, refl, sym, ap, inl, inr, Bool, false, not, [], ◌∷◌, ◌++◌,
  ltb, ◌==◌, if◌then◌else◌, length, get_or, Text, deref, arith, length-append, append_assoc,
  append-nil, take_while, drop_while, Bool-cases, subst, take_all, drop_all,
}
use fman.Dsl.Lexer.{DslLexer, peek, advance, advance_while, skip_while, since}

abbrev pub newlines : Text → ℕ
newlines [] = 0
newlines (c ∷ cs) = (if c == b'\n' then 1 else 0) + newlines cs

-- The line and the column of what stands behind `before`: one more than the newlines in it, and one
-- more than the bytes behind the last of them.
unfoldable pub line_of : Text → ℕ
line_of before = 1 + newlines before

unfoldable pub column_of : Text → ℕ
column_of before = 1 + length (take_while (λ c. not (c == b'\n')) (reverse before))

-- The lexer has read `before`, and `rest` is left; its line and column are right.
pub record At (lexer : DslLexer) (before rest : Text) : Type 0 where
  pub input_is : lexer.input ≡ before ++ rest
  pub pos_is : lexer.pos ≡ length before
  pub len_is : lexer.len ≡ length lexer.input
  pub line_is : lexer.line ≡ line_of before
  pub column_is : lexer.column ≡ column_of before

pub newlines-append : (xs ys : Text) → newlines (xs ++ ys) ≡ newlines xs + newlines ys
newlines-append [] ys = omega arith
newlines-append (x ∷ xs) ys = ground (arith, newlines-append xs ys)

line_of-snoc :
    (before : Text) (c : ℕ)
    → line_of (before ++ c ∷ []) ≡ (if c == b'\n' then line_of before + 1 else line_of before)
unfolding line_of
line_of-snoc before c = ground (arith, newlines-append before (c ∷ []))

column_of-snoc :
    (before : Text) (c : ℕ)
    → column_of (before ++ c ∷ []) ≡ (if c == b'\n' then 1 else column_of before + 1)
unfolding column_of
column_of-snoc before c = rw (reverse-append before (c ∷ [])) (ground arith)

pub get_or_at : (before rest : Text) → get_or (before ++ rest) (length before) 0 ≡ deref rest
get_or_at [] [] = refl
get_or_at [] (c ∷ rest) = refl
get_or_at (b ∷ before) rest = get_or_at before rest

pub size-At :
    {lexer : DslLexer} {before rest : Text}
    → At lexer before rest
    → lexer.len ≡ lexer.pos + length rest
size-At {lexer} {before} {rest} v =
    omega
      (arith, v.len_is, v.pos_is, ap (λ (t : Text). length t) v.input_is, length-append before rest)

pub peek-At :
    {lexer : DslLexer} {before rest : Text} → At lexer before rest → peek lexer ≡ deref rest
unfolding peek
peek-At {lexer} {before} {rest} v = elim (Bool-cases (ltb lexer.pos lexer.len)) [
  | inl inside ↦ rw (inside, v.input_is, v.pos_is) (get_or_at before rest)
  | inr outside ↦ rw outside (sym (deref_end rest (ground (arith, size-At v))))
]
  where
    deref_end : (rest : Text) → length rest ≡ 0 → deref rest ≡ 0
    deref_end [] h = refl
    deref_end (c ∷ rest) h = absurd (omega arith)

pub advance-At :
    {lexer : DslLexer} {before rest : Text} (c : ℕ)
    → At lexer before (c ∷ rest)
    → c ≢ 0
    → At (advance lexer) (before ++ c ∷ []) rest
unfolding advance
advance-At {lexer} {before} {rest} c v ne = record {
  input_is = ground (arith, peek-At v, append_assoc before (c ∷ []) rest);
  pos_is = ground (arith, peek-At v, length-append before (c ∷ []));
  len_is = ground (arith, peek-At v);
  line_is = ground (arith, peek-At v, line_of-snoc before c);
  column_is = ground (arith, peek-At v, column_of-snoc before c);
}

-- What `advance` leaves alone.
pub record Kept (lexer lexer' : DslLexer) : Type 0 where
  pub flag_kept : lexer'.read_body_raw_next ≡ lexer.read_body_raw_next
  pub allocs_kept : lexer'.allocs ≡ lexer.allocs
  pub input_kept : lexer'.input ≡ lexer.input

pub advance-Kept : (lexer : DslLexer) → Kept lexer (advance lexer)
unfolding advance
advance-Kept lexer = ground arith

-- A loop over the bytes that pass a test which refuses the terminator.
module _ (test : ℕ → Bool) (stops : test 0 ≡ false) where
  advance_while_stop :
      (fuel : ℕ) (lexer : DslLexer)
      → test (peek lexer) ≡ false
      → advance_while test fuel lexer ≡ lexer
  unfolding advance_while
  advance_while_stop zero lexer h = refl
  advance_while_stop (suc fuel) lexer h = rw h

  advance_while-At :
      (fuel : ℕ) (lexer : DslLexer) (before rest : Text)
      → length rest ≤ fuel
      → At lexer before rest
      → At (advance_while test fuel lexer) (before ++ take_while test rest) (drop_while test rest)
  unfolding advance_while
  advance_while-At fuel lexer before [] h v =
      rw (advance_while_stop fuel lexer (rw (peek-At v) stops), append-nil) v
  advance_while-At zero lexer before (c ∷ rest) h v = absurd (omega arith)
  advance_while-At (suc fuel) lexer before (c ∷ rest) h v = elim (Bool-cases (test c)) [
    | inl more ↦
        rw (peek-At v, more)
          (subst
            (λ (b : Text). At (advance_while test fuel (advance lexer)) b (drop_while test rest))
            (append_assoc before (c ∷ []) (take_while test rest))
            (advance_while-At fuel (advance lexer) (before ++ c ∷ []) rest (omega arith)
              (advance-At c v (λ z. cc (rw z at more)))))
    | inr done ↦ rw (peek-At v, done, append-nil) v
  ]

  advance_while-Kept : (fuel : ℕ) (lexer : DslLexer) → Kept lexer (advance_while test fuel lexer)
  unfolding advance_while
  advance_while-Kept zero lexer = ground arith
  advance_while-Kept (suc fuel) lexer =
      ground (arith, advance_while-Kept fuel (advance lexer), advance-Kept lexer)

  pub skip_while-At :
      {lexer : DslLexer} {before rest : Text}
      → At lexer before rest
      → At (skip_while test lexer) (before ++ take_while test rest) (drop_while test rest)
  unfolding skip_while
  skip_while-At {lexer} {before} {rest} v =
      advance_while-At (lexer.len - lexer.pos) lexer before rest (omega (arith, size-At v)) v

  pub skip_while-Kept : (lexer : DslLexer) → Kept lexer (skip_while test lexer)
  unfolding skip_while
  skip_while-Kept lexer = advance_while-Kept (lexer.len - lexer.pos) lexer

-- The text between two positions of the lexer.
pub since-At :
    {lexer after : DslLexer} (before word rest more : Text)
    → At lexer before more
    → At after (before ++ word) rest
    → since lexer.pos after ≡ word
unfolding since
since-At {lexer} {after} before word rest more v w =
    let size : length (before ++ word) - length before ≡ length word =
      omega (arith, length-append before word) in
    rw (w.pos_is, v.pos_is, w.input_is, size, append_assoc before word rest, drop_all)
      (take_all word rest)
