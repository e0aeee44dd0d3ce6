-- ===== src/Dsl/Parser/Ensures.antt =====
-- src/dsl/dsl_parser.c: what holds of the state after a parser function that returned true.
use fman.Prelude.{◌≡◌, Bool, true, false, if◌then◌else◌, if_cases, String}
use fman.Dsl.Token.{DslTokenType, token_newline, token_eof}
use fman.Dsl.Parser.{State, Parse, ◌>>◌, check, consume, end_statement, advanced}

-- A function that returned true did so in a state with `Q`.
pub record After (Q : State → Type 0) (out : Bool × State) : Type 0 where
  pub reached : out.0 ≡ true → Q out.1

-- From a state with `P` the function returns true in one with `Q`, if it returns true.
abbrev pub Ensures : (P Q : State → Type 0) → Parse → Type 0
Ensures P Q m = (s : State) → P s → After Q (m s)

module _ {Q : State → Type 0} where
  pub true-After : {s : State} → Q s → After Q (true, s)
  true-After q = record { reached = λ _. q }

  pub false-After : {s : State} → After Q (false, s)
  false-After = record { reached = λ h. cc h }

  pub if-After :
      (b : Bool) {x y : Bool × State}
      → (b ≡ true → After Q x)
      → (b ≡ false → After Q y)
      → After Q (if b then x else y)
  if-After b h k = if_cases (λ (out : Bool × State). After Q out) b h k

pub Ensures->> :
    {P Q R : State → Type 0} (m k : Parse) → Ensures P Q m → Ensures Q R k → Ensures P R (m >> k)
unfolding ◌>>◌
Ensures->> m k h n s p = if-After (m s).0 (λ e. n (m s).1 ((h s p).reached e)) λ e. false-After

-- A property that reading a token keeps.
abbrev pub KeptByAdvance : (State → Type 0) → Type 0
KeptByAdvance P = (s : State) → P s → P (advanced s)

module _ {P : State → Type 0} (stable : KeptByAdvance P) where
  pub consume-Ensures :
      (type : DslTokenType) (message : String) → Ensures P P (consume type message)
  unfolding consume
  consume-Ensures type message s p =
      if-After (check s.parser type) (λ _. true-After (stable s p)) λ _. false-After

  pub end_statement-Ensures : (message : String) → Ensures P P (end_statement message)
  unfolding end_statement
  end_statement-Ensures message s p =
      if-After (check s.parser token_newline) (λ _. true-After (stable s p))
        λ _. if-After (check s.parser token_eof) (λ _. true-After p) λ _. false-After
