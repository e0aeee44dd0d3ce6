-- ===== src/Dsl/Parser/Program/Progress.antt =====
-- src/dsl/dsl_parser.c: what a parser function leaves of the source.
use fman.Prelude.{
  ℕ, suc, ◌+◌, ◌≤◌, ◌<◌, ◌≡◌, refl, ap, inl, inr, Bool, true, false, ◌&&◌, Option, if◌then◌else◌,
  String, leb, ◌==◌, ==_iff, arith, length, [], ◌∷◌, ◌++◌, Text, subst, Lacks, Lacks-behind,
  length-append,
}
use fman.RunPlan.{max_case_assertions}
use fman.Dsl.Token.{
  DslTokenType, token_newline, token_eof, token_error, token_body_raw, token_status, token_header,
  token_body, token_string, type_code,
}
use fman.Dsl.Lexer.{dsl_lexer_next_token}
use fman.Dsl.Lexer.View.{At}
use fman.Dsl.Lexer.Spelling.{Lexed, Spells, At-allocs, strndup_cases}
use fman.Dsl.Lexer.Next.{next_token-spells}
use fman.Dsl.Parser.{
  State, Parse, DslParser, check, consume, end_statement, advance_parser, advanced, shift,
  strdup_previous, text_or, room_for_assertion, case_at, parse_assertion, ◌>>◌, add_assertion,
  set_status, set_body_pattern, set_header_value, parse_header_value, parse_status_assertion,
  parse_body_assertion, parse_header_assertion, is_value,
}
use fman.Dsl.Parser.Program.{set_body, set_request}
use fman.Models.{Method}
use fman.Dsl.Parser.Expect.{strdup_cases}
use fman.Dsl.Parser.Ensures.{
  Ensures, true-After, false-After, if-After, Ensures->>, consume-Ensures, end_statement-Ensures,
}

-- One for a token that is spelled by some of the source; none for the end, an error and a raw body.
unfoldable pub weight_of : ℕ → ℕ
weight_of n = if n == 0 then 0 else if n == 1 then 0 else if n == 17 then 0 else 1

unfoldable pub weight : DslTokenType → ℕ
weight type = weight_of (type_code type)

-- A token that weighs one is spelled by a byte at least.
pub spelled-weight :
    (type : DslTokenType) (str : Option Text) (spelled left : Text)
    → Spells type str spelled left
    → weight type ≤ length spelled
unfolding weight weight_of type_code
spelled-weight token_eof str spelled left s = omega arith
spelled-weight token_error str spelled left s = omega arith
spelled-weight token_newline str spelled left s = rw s (omega arith)
spelled-weight token_string str spelled left (t, e, split) = rw split (omega arith)
spelled-weight token_body_raw str spelled left s = omega arith
spelled-weight _ str [] left s = absurd (s.1 refl)
spelled-weight _ str (c ∷ spelled) left s = omega arith

-- The lexer is at a place of a text without NUL, and less than `n` is left with the token that is held.
pub record Within (n : ℕ) (p : DslParser) : Type 0 where
  pub before : Text
  pub rest : Text
  pub view : At p.lexer before rest
  pub clean : Lacks 0 rest
  pub bound : length rest + weight p.current.type < n

pub shift-Within :
    (p : DslParser) (n : ℕ) {before rest : Text}
    → Lacks 0 rest
    → Lexed before rest (dsl_lexer_next_token p.lexer)
    → length rest < n
    → Within n (advance_parser p)
unfolding advance_parser shift
shift-Within p n {before} {rest} clean l h =
    let w = spelled-weight (dsl_lexer_next_token p.lexer).0.type _ l.spelled l.left l.spells in
    record {
      before = (before ++ l.skipped) ++ l.spelled;
      rest = l.left;
      view = l.view;
      clean =
          Lacks-behind 0 l.spelled l.left
            (Lacks-behind 0 l.skipped (l.spelled ++ l.left) (subst (Lacks 0) l.splits clean));
      bound = omega (
        arith,
        w,
        h,
        ap length l.splits,
        length-append l.skipped (l.spelled ++ l.left),
        length-append l.spelled l.left,
      );
    }

-- Reading on takes the weight of the token that was held.
pub advance-Within :
    (p : DslParser) (n m : ℕ)
    → n ≤ m + weight p.current.type
    → Within n p
    → Within m (advance_parser p)
advance-Within p n m h w =
    shift-Within p m w.clean (next_token-spells p.lexer w.before w.rest w.view w.clean)
      (omega (arith, w.bound))

pub kept : (n : ℕ) (s : State) → Within n s.parser → Within n (advanced s).parser
kept n s w = advance-Within s.parser n n (omega arith) w

pub check-weight :
    (p : DslParser) (type : DslTokenType)
    → check p type ≡ true
    → weight p.current.type ≡ weight type
unfolding check weight
check-weight p type h =
    ap weight_of ((==_iff (type_code p.current.type) (type_code type)).0 (second p.has_current _ h))
  where
    second : (a b : Bool) → (a && b) ≡ true → b ≡ true
    second true b e = e
    second false b e = cc e

-- Reading a token of weight one.
pub consume-Within :
    (n : ℕ) (type : DslTokenType) (message : String)
    → weight type ≡ 1
    → Ensures (λ s. Within (suc n) s.parser) (λ s. Within n s.parser) (consume type message)
unfolding consume
consume-Within n type message one s w =
    if-After (check s.parser type)
      (λ h.
        true-After
          (advance-Within s.parser (suc n) n (omega (arith, one, check-weight s.parser type h)) w))
      λ _. false-After

strdup-Within : (n : ℕ) (p : DslParser) → Within n p → Within n (strdup_previous p).1
unfolding strdup_previous
strdup-Within n p w = record {
  before = w.before;
  rest = w.rest;
  view = elim (strndup_cases (text_or p.previous.str []) p.lexer).1 [
    | inl e ↦ rw e (At-allocs _ w.view)
    | inr e ↦ rw e (At-allocs _ w.view)
  ];
  clean = w.clean;
  bound = w.bound;
}

-- The rest of a statement reads on only.
module _ (n : ℕ) where
  unfoldable pub Stays : Parse → Type 0
  Stays m = Ensures (λ s. Within n s.parser) (λ s. Within n s.parser) m

  pub consume-Stays : (type : DslTokenType) (message : String) → Stays (consume type message)
  unfolding Stays
  consume-Stays type message = consume-Ensures (kept n) type message

  pub end-Stays : (message : String) → Stays (end_statement message)
  unfolding Stays
  end-Stays message = end_statement-Ensures (kept n) message

  pub then-Stays : (m k : Parse) → Stays m → Stays k → Stays (m >> k)
  unfolding Stays
  then-Stays m k h l = Ensures->> m k h l

  pub room-Stays : (i : ℕ) → Stays (room_for_assertion i)
  unfolding Stays room_for_assertion
  room-Stays i s w =
      if-After (leb max_case_assertions (case_at s.plan i).assertion_count) (λ _. false-After)
        λ _. true-After w

  set_status-Stays : (i : ℕ) → Stays (set_status i)
  unfolding Stays set_status add_assertion
  set_status-Stays i s w = true-After w

  set_body_pattern-Stays : (i : ℕ) → Stays (set_body_pattern i)
  unfolding Stays set_body_pattern add_assertion
  set_body_pattern-Stays i s w = elim (strdup_cases s.parser) [
    | inl e ↦ rw (set_body_pattern, e) (true-After (strdup-Within n s.parser w))
    | inr e ↦ rw (set_body_pattern, e) false-After
  ]

  set_header_value-Stays : (i : ℕ) (name : Text) → Stays (set_header_value i name)
  unfolding Stays set_header_value add_assertion
  set_header_value-Stays i name s w = elim (strdup_cases s.parser) [
    | inl e ↦ rw (set_header_value, e) (true-After (strdup-Within n s.parser w))
    | inr e ↦ rw (set_header_value, e) false-After
  ]

  parse_header_value-Stays : (i : ℕ) → Stays (parse_header_value i)
  unfolding Stays parse_header_value
  parse_header_value-Stays i s w =
      let s' = record s { parser = (strdup_previous s.parser).1 } in
      elim (strdup_cases s.parser) [
        | inl e ↦
            rw (parse_header_value, e)
              (if-After (is_value s'.parser)
                (λ _.
                  set_header_value-Stays i _ (advanced s') (kept n s' (strdup-Within n s.parser w)))
                λ _. false-After)
        | inr e ↦ rw (parse_header_value, e) false-After
      ]

  pub parse_assertion-Stays : (i : ℕ) → Stays (parse_assertion i)
  unfolding Stays parse_assertion parse_status_assertion parse_body_assertion parse_header_assertion
  parse_assertion-Stays i s w =
      if-After (check s.parser token_status) (λ _. status s w)
        λ _.
          if-After (check s.parser token_body) (λ _. body s w)
            λ _. if-After (check s.parser token_header) (λ _. header s w) λ _. false-After
    where
      status : Stays (parse_status_assertion i)
      status = then-Stays _ _ (room-Stays i) (
          then-Stays _ _ (consume-Stays _ _)
            (then-Stays _ _ (consume-Stays _ _) (set_status-Stays i)))

      body : Stays (parse_body_assertion i)
      body = then-Stays _ _ (room-Stays i) (
          then-Stays _ _ (consume-Stays _ _) (
            then-Stays _ _ (consume-Stays _ _)
              (then-Stays _ _ (consume-Stays _ _) (set_body_pattern-Stays i))))

      header : Stays (parse_header_assertion i)
      header = then-Stays _ _ (room-Stays i) (
          then-Stays _ _ (consume-Stays _ _)
            (then-Stays _ _ (consume-Stays _ _) (parse_header_value-Stays i)))

  pub set_body-Stays : (i : ℕ) → Stays (set_body i)
  unfolding Stays set_body
  set_body-Stays i s w = elim (strdup_cases s.parser) [
    | inl e ↦ rw (set_body, e) (true-After (strdup-Within n s.parser w))
    | inr e ↦ rw (set_body, e) false-After
  ]

  pub set_request-Stays : (method : Method) → Stays (set_request method)
  unfolding Stays set_request
  set_request-Stays method s w = elim (strdup_cases s.parser) [
    | inl e ↦ rw (set_request, e) (true-After (strdup-Within n s.parser w))
    | inr e ↦ rw (set_request, e) false-After
  ]
