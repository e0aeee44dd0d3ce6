-- ===== src/Dsl/Lexer/Spelling.antt =====
-- src/dsl/dsl_lexer.c: what a token says of the text that it was read from.
use fman.Prelude.{
  ℕ, ◌≡◌, ◌≢◌, refl, sym, ap, ◌∙◌, ◌⊎◌, inl, inr, Bool, List, [], ◌∷◌, ◌++◌, Option, none, some,
  Text, append_assoc, append-nil, is_digit, Bool-cases, AllPass, Lacks, true,
}
use fman.Dsl.Token.{
  DslTokenType, token_eof, token_error, token_newline, token_int, token_string, token_body_raw,
  DslToken,
}
use fman.Dsl.Lexer.{
  DslLexer, malloc, dsl_strndup, make_token, make_error_token, keyword_type, is_ident_char,
  is_space,
}
use fman.Dsl.Lexer.View.{At, line_of, column_of}

-- `spelled` is what stands in the input for the token, and `left` stands behind it. A word is its own
-- text; a string stands between quotes; behind a raw body stand the blanks that it loses. The end
-- of the input is spelled by nothing, and nothing is left. Of an error nothing is said.
abbrev pub Spells : DslTokenType → Option Text → Text → Text → Type 0
Spells token_eof str spelled left = (spelled ≡ []) × (left ≡ [])
Spells token_error str spelled left = Unit {0}
Spells token_newline str spelled left = spelled ≡ b'\n' ∷ []
Spells token_string str spelled left =
    (t : Text) × (str ≡ some t) × (spelled ≡ b'"' ∷ (t ++ b'"' ∷ []))
Spells token_body_raw str spelled left =
    (t blanks : Text) × (str ≡ some t) × (spelled ≡ t ++ blanks) × AllPass is_space blanks
Spells token_int str spelled left = (str ≡ some spelled) × (spelled ≢ []) × AllPass is_digit spelled
Spells word str spelled left =
    (str ≡ some spelled)
    × (spelled ≢ [])
    × AllPass is_ident_char spelled
    × (keyword_type spelled ≡ word)

abbrev pub IsBlank : ℕ → Type 0
IsBlank c = (c ≡ b' ') ⊎ (c ≡ b'\t') ⊎ (c ≡ b'\r')

-- A newline stands there, or nothing.
abbrev pub AtLineEnd : Text → Type 0
AtLineEnd text = (text ≡ []) ⊎ ((rest : Text) × (text ≡ b'\n' ∷ rest))

-- Blanks and comments, in front of a text. A comment reaches from a `#` to the end of its line.
pub data Skips (after : Text) : Text → Type 0 where
  nothing : Skips after []
  blank : (c : ℕ) {t : Text} → IsBlank c → Skips after t → Skips after (c ∷ t)
  comment :
      (line : Text) {t : Text}
      → Lacks b'\n' line
      → AtLineEnd (t ++ after)
      → Skips after t
      → Skips after (b'#' ∷ (line ++ t))

pub blanks-Skips :
    {test : ℕ → Bool} (blanks : Text) {t after : Text}
    → ((c : ℕ) → test c ≡ true → IsBlank c)
    → AllPass test blanks
    → Skips after t
    → Skips after (blanks ++ t)
blanks-Skips [] is_blank a skips = skips
blanks-Skips (c ∷ blanks) is_blank (here, a) skips =
    blank c (is_blank c here) (blanks-Skips blanks is_blank a skips)

-- The lexer was at `rest`, with `before` read. It has skipped blanks and comments and read a token, whose line and
-- column are those of the first byte that spells it.
pub record Lexed (before rest : Text) (out : DslToken × DslLexer) : Type 0 where
  pub skipped : Text
  pub spelled : Text
  pub left : Text
  pub skips : Skips (spelled ++ left) skipped
  pub splits : rest ≡ skipped ++ (spelled ++ left)
  pub view : At out.1 ((before ++ skipped) ++ spelled) left
  pub line_is : out.0.line ≡ line_of (before ++ skipped)
  pub column_is : out.0.column ≡ column_of (before ++ skipped)
  pub spells : Spells out.0.type out.0.str spelled left

-- Text that is skipped first, which is blanks or a comment in front of what is skipped next.
pub Lexed-skip :
    {before rest more : Text} {out : DslToken × DslLexer} (front : Text)
    → rest ≡ front ++ more
    → ((t after : Text) → more ≡ t ++ after → Skips after t → Skips after (front ++ t))
    → Lexed (before ++ front) more out
    → Lexed before rest out
Lexed-skip {before} {rest} {more} {out} front e more_skips l =
    let same : before ++ (front ++ l.skipped) ≡ (before ++ front) ++ l.skipped =
      sym (append_assoc before front l.skipped) in
    record {
      skipped = front ++ l.skipped;
      spelled = l.spelled;
      left = l.left;
      skips = more_skips l.skipped (l.spelled ++ l.left) l.splits l.skips;
      splits =
          e ∙ ap (◌++◌ front) l.splits ∙ sym (append_assoc front l.skipped (l.spelled ++ l.left));
      view = rw same l.view;
      line_is = rw same l.line_is;
      column_is = rw same l.column_is;
      spells = l.spells;
    }

pub At-allocs :
    {lexer : DslLexer} {before rest : Text} (allocs : List Bool)
    → At lexer before rest
    → At (record lexer { allocs = allocs }) before rest
At-allocs allocs v = record {
  input_is = v.input_is;
  pos_is = v.pos_is;
  len_is = v.len_is;
  line_is = v.line_is;
  column_is = v.column_is;
}

pub At-flag :
    {lexer : DslLexer} {before rest : Text} (flag : Bool)
    → At lexer before rest
    → At (record lexer { read_body_raw_next = flag }) before rest
At-flag flag v = record {
  input_is = v.input_is;
  pos_is = v.pos_is;
  len_is = v.len_is;
  line_is = v.line_is;
  column_is = v.column_is;
}

-- A copy succeeds or fails, and uses up one answer of the environment.
pub strndup_cases :
    (s : Text) (lexer : DslLexer)
    → (allocs : List Bool) × ((dsl_strndup s lexer ≡ (some s, record lexer { allocs = allocs }))
        ⊎ (dsl_strndup s lexer ≡ (none, record lexer { allocs = allocs })))
unfolding dsl_strndup
strndup_cases s lexer = (
  (malloc lexer.allocs).1,
  elim (Bool-cases (malloc lexer.allocs).0) [ inl e ↦ inl (rw e) | inr e ↦ inr (rw e) ],
)

module _ (before spelled left : Text) where
  -- A token that begins at once.
  pub Lexed-here :
      (type : DslTokenType) (str : Option Text) (line column : ℕ) (after : DslLexer)
      → At after (before ++ spelled) left
      → line ≡ line_of before
      → column ≡ column_of before
      → Spells type str spelled left
      → Lexed before (spelled ++ left) (make_token type str line column, after)
  unfolding make_token
  Lexed-here type str line column after v l c s = record {
    skipped = [];
    spelled = spelled;
    left = left;
    skips = nothing;
    splits = refl;
    view = rw append-nil v;
    line_is = rw append-nil l;
    column_is = rw append-nil c;
    spells = s;
  }

  pub error-Lexed :
      (message : Text) (line column : ℕ) (after : DslLexer)
      → At after (before ++ spelled) left
      → line ≡ line_of before
      → column ≡ column_of before
      → Lexed before (spelled ++ left) (make_error_token message line column after)
  unfolding make_error_token
  error-Lexed message line column after v l c =
      let (allocs, copy) = strndup_cases message after in
      elim copy [
        | inl e ↦ rw e (Lexed-here token_error _ line column _ (At-allocs allocs v) l c tt)
        | inr e ↦ rw e (Lexed-here token_error _ line column _ (At-allocs allocs v) l c tt)
      ]
