-- ===== src/Dsl/Parser/Expect.antt =====
-- src/dsl/dsl_parser.c: the assertions of an EXPECT statement, in a plan of at most 128 cases with 32 assertions each.
use fman.Prelude.{
  ℕ, ◌<◌, ◌≡◌, refl, ap, ◌⊎◌, inl, inr, Option, none, some, Text, String, leb, arith, length, [],
}
use fman.Models.{assert_body_contains, assert_header_contains, value_bytes, value_header, Assertion}
use fman.RunPlan.{max_case_assertions}
use fman.Dsl.Token.{
  DslTokenType, token_status, token_int, token_body, token_contains, token_string, token_header,
  token_ident,
}
use fman.Dsl.Parser.{
  State, Parse, DslParser, check, consume, advanced, strdup_previous, text_or, case_at,
  add_assertion, room_for_assertion, set_status, parse_status_assertion, set_body_pattern,
  parse_body_assertion, is_value, set_header_value, parse_header_value, parse_header_assertion,
  parse_assertion, ◌>>◌,
}
use fman.Dsl.Lexer.{DslLexer}
use fman.Dsl.Lexer.Spelling.{strndup_cases}
use fman.Dsl.Parser.Ensures.{
  Ensures, true-After, false-After, if-After, Ensures->>, consume-Ensures,
}
use fman.Dsl.Parser.Fits.{IsFit, IsPlan, put_case-IsPlan, add_assertion-IsCase}

-- The plan is one that the parser builds, and case `i` is in use.
pub record Open (i : ℕ) (s : State) : Type 0 where
  pub plan_fits : IsPlan s.plan
  pub in_use : i < s.plan.case_count

-- And the case has room for an assertion.
pub record Room (i : ℕ) (s : State) : Type 0 where
  pub is_open : Open i s
  pub has_room : (case_at s.plan i).assertion_count < max_case_assertions

pub Open-advanced : (i : ℕ) (s : State) → Open i s → Open i (advanced s)
Open-advanced i s o = record { plan_fits = o.plan_fits; in_use = o.in_use }

pub Room-with : (i : ℕ) (s : State) (p : DslParser) → Room i s → Room i (record s { parser = p })
Room-with i s p r = record {
  is_open = record { plan_fits = r.is_open.plan_fits; in_use = r.is_open.in_use };
  has_room = r.has_room;
}

Room-advanced : (i : ℕ) (s : State) → Room i s → Room i (advanced s)
Room-advanced i s r = record { is_open = Open-advanced i s r.is_open; has_room = r.has_room }

pub room_for_assertion-Ensures : (i : ℕ) → Ensures (Open i) (Room i) (room_for_assertion i)
unfolding room_for_assertion
room_for_assertion-Ensures i s o =
    if-After (leb max_case_assertions (case_at s.plan i).assertion_count) (λ _. false-After)
      λ h. true-After (record { is_open = o; has_room = ground arith })

pub add_assertion-Open :
    (i : ℕ) (a : Assertion) (s : State)
    → Room i s
    → IsFit a.type a.expected
    → Open i (add_assertion i a s)
unfolding add_assertion
add_assertion-Open i a s r f = record {
  plan_fits =
      put_case-IsPlan s i _ r.is_open.in_use
        (add_assertion-IsCase (case_at s.plan i) a (r.is_open.plan_fits.each i r.is_open.in_use)
          r.has_room f)
        r.is_open.plan_fits;
  in_use = r.is_open.in_use;
}

-- A copy of the previous token's text, or none.
pub strdup_cases :
    (p : DslParser)
    → ((strdup_previous p).0 ≡ some (text_or p.previous.str [])) ⊎ ((strdup_previous p).0 ≡ none)
unfolding strdup_previous
strdup_cases p = elim (strndup_cases (text_or p.previous.str []) p.lexer).1 [
  | inl e ↦ inl (ap (λ (x : Option Text × DslLexer). x.0) e)
  | inr e ↦ inr (ap (λ (x : Option Text × DslLexer). x.0) e)
]

set_status-Ensures : (i : ℕ) → Ensures (Room i) (Open i) (set_status i)
unfolding set_status
set_status-Ensures i s r = true-After (add_assertion-Open i _ s r tt)

set_body_pattern-Ensures : (i : ℕ) → Ensures (Room i) (Open i) (set_body_pattern i)
unfolding set_body_pattern
set_body_pattern-Ensures i s r =
    let text = text_or s.parser.previous.str [] in
    let a : Assertion = record {
      type = assert_body_contains;
      expected = value_bytes (record { bytes = (strdup_previous s.parser).0; len = length text });
    } in
    let p = (strdup_previous s.parser).1 in
    elim (strdup_cases s.parser) [
      | inl e ↦
          rw (set_body_pattern, e)
            (true-After (add_assertion-Open i a _ (Room-with i s p r) (text, e, refl)))
      | inr e ↦ rw (set_body_pattern, e) false-After
    ]

set_header_value-Ensures :
    (i : ℕ) (name : Text) → Ensures (Room i) (Open i) (set_header_value i name)
unfolding set_header_value
set_header_value-Ensures i name s r =
    let text = text_or s.parser.previous.str [] in
    let a : Assertion = record {
      type = assert_header_contains;
      expected = value_header (record { name = some name; value = some text });
    } in
    let p = (strdup_previous s.parser).1 in
    elim (strdup_cases s.parser) [
      | inl e ↦
          rw (set_header_value, e)
            (true-After (add_assertion-Open i a _ (Room-with i s p r) (name, text, refl, refl)))
      | inr e ↦ rw (set_header_value, e) false-After
    ]

parse_header_value-Ensures : (i : ℕ) → Ensures (Room i) (Open i) (parse_header_value i)
unfolding parse_header_value
parse_header_value-Ensures i s r =
    let p = (strdup_previous s.parser).1 in
    let next = Room-advanced i (record s { parser = p }) (Room-with i s p r) in
    elim (strdup_cases s.parser) [
      | inl e ↦
          rw (parse_header_value, e)
            (if-After (is_value p) (λ _. set_header_value-Ensures i _ _ next) λ _. false-After)
      | inr e ↦ rw (parse_header_value, e) false-After
    ]

-- `type` in front of what follows, inside a case with room.
then-Ensures :
    (i : ℕ) (type : DslTokenType) (message : String) (k : Parse)
    → Ensures (Room i) (Open i) k
    → Ensures (Room i) (Open i) (consume type message >> k)
then-Ensures i type message k h =
    Ensures->> (consume type message) k (consume-Ensures (Room-advanced i) type message) h

pub parse_assertion-Ensures : (i : ℕ) → Ensures (Open i) (Open i) (parse_assertion i)
unfolding parse_assertion parse_status_assertion parse_body_assertion parse_header_assertion
parse_assertion-Ensures i s o =
    if-After (check s.parser token_status) (λ _. in_room status s o)
      λ _.
        if-After (check s.parser token_body) (λ _. in_room body s o)
          λ _. if-After (check s.parser token_header) (λ _. in_room header s o) λ _. false-After
  where
    in_room :
        {k : Parse}
        → Ensures (Room i) (Open i) k
        → Ensures (Open i) (Open i) (room_for_assertion i >> k)
    in_room {k} h = Ensures->> (room_for_assertion i) k (room_for_assertion-Ensures i) h

    status : Ensures (Room i) (Open i) (
        consume token_status "expected 'status'"
        >> (consume token_int "expected status code after 'status'" >> set_status i))
    status = then-Ensures i _ _ _ (then-Ensures i _ _ _ (set_status-Ensures i))

    body : Ensures (Room i) (Open i) (
        consume token_body "expected 'body'"
        >> (consume token_contains "expected 'contains' after 'body'"
            >> (consume token_string "expected string after 'body contains'"
                >> set_body_pattern i)))
    body =
        then-Ensures i _ _ _
          (then-Ensures i _ _ _ (then-Ensures i _ _ _ (set_body_pattern-Ensures i)))

    header : Ensures (Room i) (Open i) (
        consume token_header "expected 'header'"
        >> (consume token_ident "expected header name after 'header'" >> parse_header_value i))
    header = then-Ensures i _ _ _ (then-Ensures i _ _ _ (parse_header_value-Ensures i))
