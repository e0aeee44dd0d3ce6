-- ===== src/Dsl/Lexer/Tokens/Gathers.antt =====
-- `dsl_lexer_get_tokens` of src/dsl/dsl_lexer.c beside the calls of `dsl_lexer_next_token` one after another.
use fman.Prelude.{
  ℕ, zero, suc, ◌+◌, ◌*◌, ◌≤◌, ◌<◌, ◌≡◌, ◌⊎◌, refl, ap, subst, Bool, Bool-cases, true, false, not,
  List, [], Option, none, some, map, ◌∷◌, ◌++◌, leb, if◌then◌else◌, if_cases, inl, inr, length,
  length-append, Text, Lacks, Lacks-behind, arith,
}
use fman.Dsl.Token.{DslTokenType, DslToken, type_code, token_eof, token_error, token_body_raw}
use fman.Dsl.Lexer.{DslLexer, malloc, dsl_lexer_next_token}
use fman.Dsl.Lexer.View.{At}
use fman.Dsl.Lexer.Spelling.{At-allocs}
use fman.Dsl.Lexer.Next.{next_token-spells}
use fman.Dsl.Lexer.Tokens.{
  dsl_free_tokens, Gathered, running, null_tokens, all_tokens, is_last, grow, gather,
  dsl_lexer_get_tokens,
}
use fman.Dsl.Lexer.Tokens.Rank.{raw_flag}
use fman.Dsl.Parser.Program.Progress.{weight, weight_of, spelled-weight}

-- Calls of the lexer one after another give the tokens, none but the newest of which may be a last one, and leave a
-- lexer. In between there may be allocations for others that succeed.
pub data Calls (lexer : DslLexer) : List DslToken → DslLexer → Type 0 where
  none_yet : Calls lexer [] lexer
  allocated :
      {tokens : List DslToken} {now : DslLexer}
      → Calls lexer tokens now
      → (malloc now.allocs).0 ≡ true
      → Calls lexer tokens (record now { allocs = (malloc now.allocs).1 })
  called :
      {tokens : List DslToken} {now : DslLexer}
      → Calls lexer tokens now
      → is_last (dsl_lexer_next_token now).0.type ≡ false
      → Calls lexer (tokens ++ (dsl_lexer_next_token now).0 ∷ []) (dsl_lexer_next_token now).1

-- The last call behind them.
pub record AllCalls (lexer : DslLexer) (tokens : List DslToken) (after : DslLexer) : Type 0 where
  pub front : List DslToken
  pub now : DslLexer
  pub calls : Calls lexer front now
  pub ends : is_last (dsl_lexer_next_token now).0.type ≡ true
  pub tokens_are : tokens ≡ front ++ (dsl_lexer_next_token now).0 ∷ []
  pub after_is : after ≡ (dsl_lexer_next_token now).1

-- The texts that are there, in their order.
unfoldable pub strings : List (Option Text) → List Text
strings [] = []
strings (none ∷ texts) = strings texts
strings (some text ∷ texts) = text ∷ strings texts

abbrev str_of : DslToken → Option Text
str_of token = token.str

-- An allocation failed behind calls that went well, and the text of each token that they gave is freed, once.
pub record GivesUp (lexer : DslLexer) (freed : List Text) (after : DslLexer) : Type 0 where
  pub tokens : List DslToken
  pub now : DslLexer
  pub calls : Calls lexer tokens now
  pub no_memory : (malloc now.allocs).0 ≡ false
  pub after_is : after ≡ record now { allocs = (malloc now.allocs).1 }
  pub freed_are : freed ≡ strings (map str_of tokens)

-- NULL with every token freed that was read, or all tokens within the capacity.
abbrev pub Gathers : DslLexer → Gathered → DslLexer → Type 0
Gathers lexer running after = ⊥
Gathers lexer (null_tokens freed) after = GivesUp lexer freed after
Gathers lexer (all_tokens tokens capacity) after =
    AllCalls lexer tokens after × (length tokens ≤ capacity)

free_tokens-strings :
    (tokens : List DslToken) → dsl_free_tokens tokens ≡ strings (map str_of tokens)
unfolding dsl_free_tokens strings
free_tokens-strings [] = refl
free_tokens-strings (token ∷ tokens) =
    elim token.str
      as (λ o.
        (elim o as (λ _. List Text) [ none ↦ [] | some str ↦ str ∷ [] ]) ++ dsl_free_tokens tokens
        ≡ strings (o ∷ map str_of tokens)) [
          | none ↦ free_tokens-strings tokens
          | some str ↦ ap (λ rest. str ∷ rest) (free_tokens-strings tokens)
        ]

one_if : Bool → ℕ
one_if b = if b then 1 else 0

-- How many calls there can be: two for a byte, and one for a raw body.
rank : DslLexer → Text → ℕ
rank lexer rest = 2 * length rest + one_if lexer.read_body_raw_next

one_if_small : (b : Bool) → one_if b ≤ 1
unfolding one_if
one_if_small true = omega arith
one_if_small false = omega arith

kinds : (type : DslTokenType) → is_last type ≡ false → (type_code type ≡ 17) ⊎ (weight type ≡ 1)
unfolding type_code weight weight_of
kinds token_eof more = absurd (cc more)
kinds token_error more = absurd (cc more)
kinds token_body_raw more = inl refl
kinds _ more = inr refl

-- The lexer is at a place of a text without NUL, with so many calls left.
record Ahead (n : ℕ) (lexer : DslLexer) : Type 0 where
  pub before : Text
  pub rest : Text
  pub view : At lexer before rest
  pub clean : Lacks 0 rest
  pub small : rank lexer rest < n

next-Ahead :
    (n : ℕ) (now : DslLexer)
    → is_last (dsl_lexer_next_token now).0.type ≡ false
    → Ahead (suc n) now
    → Ahead n (dsl_lexer_next_token now).1
unfolding rank
next-Ahead n now more a =
    let (token, after) = dsl_lexer_next_token now in
    let l = next_token-spells now a.before a.rest a.view a.clean in
    let spelled = spelled-weight token.type token.str l.spelled l.left l.spells in
    let bytes = ap length l.splits in
    record {
      before = (a.before ++ l.skipped) ++ l.spelled;
      rest = l.left;
      view = l.view;
      clean =
          Lacks-behind 0 l.spelled l.left
            (Lacks-behind 0 l.skipped (l.spelled ++ l.left) (subst (Lacks 0) l.splits a.clean));
      small = elim (kinds token.type more) [
        | inl raw ↦
            let (on, off) = raw_flag now raw in
            unfold one_if in
            omega (
              arith,
              a.small,
              bytes,
              length-append l.skipped (l.spelled ++ l.left),
              length-append l.spelled l.left,
              ap one_if on,
              ap one_if off,
            )
        | inr one ↦ omega (
          arith,
          a.small,
          bytes,
          spelled,
          one,
          length-append l.skipped (l.spelled ++ l.left),
          length-append l.spelled l.left,
          one_if_small after.read_body_raw_next,
        )
      ];
    }

allocs-Ahead :
    (n : ℕ) (now : DslLexer) (allocs : List Bool)
    → Ahead n now
    → Ahead n (record now { allocs = allocs })
unfolding rank
allocs-Ahead n now allocs a = record {
  before = a.before;
  rest = a.rest;
  view = At-allocs allocs a.view;
  clean = a.clean;
  small = a.small;
}

-- The state of the loop behind `grow`, when it has room.
record Grown (lexer : DslLexer) (n : ℕ) (tokens : List DslToken) (out : Bool × ℕ × DslLexer)
    : Type 0 where
  pub calls : Calls lexer tokens out.2
  pub ahead : Ahead n out.2
  pub large : 16 ≤ out.1
  pub has_room : length tokens < out.1

-- Behind `grow`: room, or an allocation that failed.
Growth : DslLexer → ℕ → List DslToken → DslLexer → Bool × ℕ × DslLexer → Type 0
Growth lexer n tokens now out =
    ((out.0 ≡ true) × Grown lexer n tokens out)
    ⊎ ((out.0 ≡ false)
        × ((malloc now.allocs).0 ≡ false)
        × (out.2 ≡ record now { allocs = (malloc now.allocs).1 }))

grow-Growth :
    (lexer : DslLexer) (n capacity : ℕ) (tokens : List DslToken) (now : DslLexer)
    → Calls lexer tokens now
    → Ahead n now
    → 16 ≤ capacity
    → length tokens ≤ capacity
    → Growth lexer n tokens now (grow (length tokens) capacity now)
unfolding grow Growth
grow-Growth lexer n capacity tokens now calls ahead large fits =
    if_cases (Growth lexer n tokens now) (leb capacity (length tokens))
      (λ _. elim (Bool-cases (malloc now.allocs).0) [
        | inl done ↦ inl (
          done,
          record {
            calls = allocated calls done;
            ahead = allocs-Ahead n now (malloc now.allocs).1 ahead;
            large = omega arith;
            has_room = omega arith;
          },
        )
        | inr refused ↦ inr (refused, refused, refl)
      ])
      (λ room. inl (
        refl,
        record { calls = calls; ahead = ahead; large = large; has_room = ground (arith, room) },
      ))

Ends : DslLexer → Gathered × DslLexer → Type 0
Ends lexer out = Gathers lexer out.0 out.1

gather-Ends :
    (lexer : DslLexer) (fuel n capacity : ℕ) (tokens : List DslToken) (now : DslLexer)
    → n ≤ fuel
    → Calls lexer tokens now
    → Ahead n now
    → 16 ≤ capacity
    → length tokens ≤ capacity
    → Ends lexer (gather fuel capacity tokens now)
unfolding gather Growth
gather-Ends lexer zero n capacity tokens now enough calls ahead large fits =
    absurd (omega (arith, ahead.small))
gather-Ends lexer (suc fuel) zero capacity tokens now enough calls ahead large fits =
    absurd (omega (arith, ahead.small))
gather-Ends lexer (suc fuel) (suc n) capacity tokens now enough calls ahead large fits =
    let (room, capacity', roomy) = grow (length tokens) capacity now in
    let (token, after) = dsl_lexer_next_token roomy in
    let longer = length-append tokens (token ∷ []) in
    elim (grow-Growth lexer (suc n) capacity tokens now calls ahead large fits) [
      | inl (fine, g) ↦
          if_cases (Ends lexer) (not room) (λ bad. absurd (cc (fine, bad)))
            (λ _.
              if_cases (Ends lexer) (is_last token.type)
                (λ last.
                  unfold Ends in
                  (
                    record {
                      front = tokens;
                      now = roomy;
                      calls = g.calls;
                      ends = last;
                      tokens_are = refl;
                      after_is = refl;
                    },
                    omega (arith, g.has_room, longer),
                  ))
                (λ more.
                  gather-Ends lexer fuel n capacity' (tokens ++ token ∷ []) after (omega arith)
                    (called g.calls more) (next-Ahead n roomy more g.ahead) g.large
                    (omega (arith, g.has_room, longer))))
      | inr (stuck, none_left, left) ↦
          if_cases (Ends lexer) (not room)
            (λ _.
              unfold Ends in
              record {
                tokens = tokens;
                now = now;
                calls = calls;
                no_memory = none_left;
                after_is = left;
                freed_are = free_tokens-strings tokens;
              })
            (λ fine. absurd (cc (stuck, fine)))
    ]

-- From a lexer at a place of a text without NUL, the loop of `dsl_lexer_get_tokens` always comes to its end. The
-- answer is the array of exactly the tokens that the calls of `dsl_lexer_next_token` give one after another, up to
-- the first that is the end or an error and within the capacity, with every allocation for the array made; or
-- NULL, where an allocation for the array failed behind calls before the last, and the text of each token that
-- they gave is freed.
pub dsl_lexer_get_tokens-Gathers :
    (lexer : DslLexer) (before rest : Text)
    → At lexer before rest
    → Lacks 0 rest
    → Gathers lexer (dsl_lexer_get_tokens lexer).0 (dsl_lexer_get_tokens lexer).1
unfolding dsl_lexer_get_tokens Ends
dsl_lexer_get_tokens-Gathers lexer before rest v clean =
    let allocs = (malloc lexer.allocs).1 in
    if_cases (Ends lexer) (malloc lexer.allocs).0
      (λ done.
        gather-Ends lexer (2 * lexer.len + 2) (2 * lexer.len + 2) 16 []
          (record lexer { allocs = allocs }) (omega arith) (allocated none_yet done)
          (record {
            before = before;
            rest = rest;
            view = At-allocs allocs v;
            clean = clean;
            small =
                unfold rank in
                omega (
                  arith,
                  v.len_is,
                  ap length v.input_is,
                  length-append before rest,
                  one_if_small lexer.read_body_raw_next,
                );
          })
          (omega arith) (omega arith))
      (λ refused. record {
        tokens = [];
        now = lexer;
        calls = none_yet;
        no_memory = refused;
        after_is = refl;
        freed_are = unfold strings in refl;
      })
