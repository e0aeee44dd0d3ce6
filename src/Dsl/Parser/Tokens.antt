-- ===== src/Dsl/Parser/Tokens.antt =====
-- The tokens that a parser of src/dsl/dsl_parser.c holds: `match`, `dsl_parser_destroy`, and what `advance_parser`
-- gives back.
use fman.Prelude.{
  ℕ, zero, suc, ◌+◌, ◌≡◌, refl, Bool, true, false, List, [], ◌∷◌, ◌++◌, Option, none, some,
  if◌then◌else◌, Text, arith,
}
use fman.Dsl.Token.{DslTokenType, DslToken}
use fman.Dsl.Lexer.{dsl_lexer_next_token}
use fman.Dsl.Lexer.Tokens.{dsl_free_token}
use fman.Dsl.Parser.{DslParser, Parse, check, shift, advance_parser, advanced}

abbrev pub match_token : DslTokenType → Parse
match_token type s = if check s.parser type then (true, advanced s) else (false, s)

abbrev pub if_held : Bool → DslToken → List Text
if_held has token = if has then dsl_free_token token else []

-- The buffers that the parser gives back. The lexer has none of its own.
abbrev pub dsl_parser_destroy : Option DslParser → List Text
dsl_parser_destroy none = []
dsl_parser_destroy (some p) = if_held p.has_current p.current ++ if_held p.has_previous p.previous

abbrev pub freed_by_advance : DslParser → List Text
freed_by_advance p = if_held p.has_previous p.previous

-- Reading on several times: what is given back, and the parser then.
advance_times : ℕ → DslParser → List Text × DslParser
advance_times zero p = ([], p)
advance_times (suc n) p =
    let (freed, after) = advance_times n (advance_parser p) in (freed_by_advance p ++ freed, after)

-- The buffers of the tokens that are read.
read_times : ℕ → DslParser → List Text
read_times zero p = []
read_times (suc n) p =
    dsl_free_token (dsl_lexer_next_token p.lexer).0 ++ read_times n (advance_parser p)

module _ (w : Text → ℕ) where
  weight_of_all : List Text → ℕ
  weight_of_all [] = 0
  weight_of_all (t ∷ ts) = w t + weight_of_all ts

  weight_of_all-append :
      (xs ys : List Text) → weight_of_all (xs ++ ys) ≡ weight_of_all xs + weight_of_all ys
  unfolding weight_of_all
  weight_of_all-append [] ys = omega arith
  weight_of_all-append (x ∷ xs) ys = omega (arith, weight_of_all-append xs ys)

  held_moves :
      (b : Bool) (current previous : DslToken)
      → weight_of_all (if_held b (if b then current else previous))
        ≡ weight_of_all (if_held b current)
  held_moves true current previous = refl
  held_moves false current previous = refl

  advance_gives_back :
      (p : DslParser)
      → weight_of_all (freed_by_advance p)
          + weight_of_all (dsl_parser_destroy (some (advance_parser p)))
        ≡ weight_of_all (dsl_parser_destroy (some p))
          + weight_of_all (dsl_free_token (dsl_lexer_next_token p.lexer).0)
  unfolding advance_parser shift
  advance_gives_back p =
      let token = (dsl_lexer_next_token p.lexer).0 in
      omega (
        arith,
        weight_of_all-append (dsl_free_token token)
            (if_held p.has_current (if p.has_current then p.current else p.previous)),
        held_moves p.has_current p.current p.previous,
        weight_of_all-append (if_held p.has_current p.current) (if_held p.has_previous p.previous),
      )

  -- However far a parser reads on, and is destroyed then: each token that it held or read is given back exactly once,
  -- by the weight of the buffers.
  tokens_given_back :
      (n : ℕ) (p : DslParser)
      → weight_of_all (advance_times n p).0
          + weight_of_all (dsl_parser_destroy (some (advance_times n p).1))
        ≡ weight_of_all (dsl_parser_destroy (some p)) + weight_of_all (read_times n p)
  unfolding advance_times read_times weight_of_all
  tokens_given_back zero p = omega arith
  tokens_given_back (suc n) p =
      let token = (dsl_lexer_next_token p.lexer).0 in
      omega (
        arith,
        weight_of_all-append (freed_by_advance p) (advance_times n (advance_parser p)).0,
        weight_of_all-append (dsl_free_token token) (read_times n (advance_parser p)),
        advance_gives_back p,
        tokens_given_back n (advance_parser p),
      )
