-- ===== src/Assertion/Eval.antt =====
-- `eval_assertion` of src/core/assertion.c: what it means that an assertion passes.
use fman.Prelude.{
  ℕ, zero, ◌==◌, if◌then◌else◌, suc, ◌≡◌, ◌≢◌, ◌↔◌, refl, sym, ◌∙◌, ◌⊎◌, inl, inr, Bool, true,
  false, [], ◌∷◌, ◌++◌, Option, none, some, length, Text, Lacks, arith, Any,
}
use fman.Prelude.Int.{int_eq_iff}
use fman.Models.{
  Bytes, HeaderExpect, Value, value_int, value_bytes, value_header, AssertionType, assert_status_eq,
  assert_body_contains, assert_header_contains, Assertion, Response,
}
use fman.Assertion.{eval_assertion, eval_type, eval_status, eval_body, eval_header}
use fman.Assertion.Search.{
  Occurs, bytes_contains, bytes_contains_null, buffer, whole, bytes_contains-Occurs,
}
use fman.Assertion.Header.{header_contains}
use fman.Assertion.Header.Colon.{HeaderLine}
use fman.Assertion.Header.Lines.{
  lines, header_contains_iff, header_contains_empty, header_contains_null,
}

-- A buffer at `p`, of which the first bytes are `used`.
abbrev pub Holds : Option Text → ℕ → Text → Type 0
Holds p n used = (spare : Text) × (p ≡ some (used ++ spare)) × (n ≡ length used)

-- The response has the property that the assertion asks for. Nothing passes an assertion whose
-- expected value is of another kind.
abbrev pub Passes : Response → AssertionType → Value → Type 0
Passes r assert_status_eq (value_int e) = r.status_code ≡ e
Passes r assert_body_contains (value_bytes e) =
    (used needle : Text) × Holds r.body r.body_len used
    × (e.bytes ≡ some needle)
    × (e.len ≡ length needle)
    × (used ≢ [])
    × Occurs needle used
Passes r assert_header_contains (value_header e) =
    (headers name value : Text) × (r.headers ≡ some headers)
    × (e.name ≡ some name)
    × (e.value ≡ some value)
    × Any (HeaderLine name value) (lines headers)
Passes _ _ _ = ⊥

-- The expected bytes are all of their buffer, or there is none.
abbrev pub IsWhole : Value → Type 0
IsWhole (value_bytes e) =
    (e.bytes ≡ none) ⊎ ((needle : Text) × (e.bytes ≡ some needle) × (e.len ≡ length needle))
IsWhole _ = Unit {0}

-- The buffers of a response and of an expected value can be read as far as their lengths say.
pub record IsReadable (r : Response) (v : Value) : Type 0 where
  pub body_ok : (r.body ≡ none) ⊎ ((used : Text) × Holds r.body r.body_len used)
  pub headers_ok : (h : Text) → r.headers ≡ some h → Lacks 0 h
  pub expected_ok : IsWhole v

status_iff :
    (r : Response) (v : Value) → ((eval_status r v).passed ≡ true) ↔ Passes r assert_status_eq v
unfolding eval_status
status_iff r (value_int e) = unfold eval_assertion in int_eq_iff r.status_code e
status_iff r _ = (λ h. cc h, λ x. absurd x)

whole_bytes :
    (e : Bytes) (needle : Text)
    → e.bytes ≡ some needle
    → e.len ≡ length needle
    → value_bytes e ≡ whole needle
whole_bytes e needle p q i = value_bytes (record { bytes = p i; len = q i })

body_at :
    (body : Option Text) (n : ℕ) (e : Bytes) (used spare needle : Text)
    → body ≡ some (used ++ spare)
    → n ≡ length used
    → e.bytes ≡ some needle
    → e.len ≡ length needle
    → (eval_body body n (value_bytes e)).passed
      ≡ (if length used == 0 then false else bytes_contains (buffer used spare) (whole needle))
unfolding eval_body
body_at body n e [] spare needle pb pn qb qn = rw (pb, pn, eval_body)
body_at body n e (c ∷ used) spare needle pb pn qb qn =
    rw (pb, pn, whole_bytes e needle qb qn, eval_body) (ground arith)

pub body_none :
    (body : Option Text) (n : ℕ) (e : Bytes)
    → (body ≡ none) ⊎ (e.bytes ≡ none)
    → (eval_body body n (value_bytes e)).passed ≡ false
unfolding eval_body
body_none none n e h = refl
body_none (some b) zero e h = refl
body_none (some b) (suc n) e (inl h) = cc
body_none (some b) (suc n) e (inr h) = bytes_contains_null _ e h

used_test :
    (used : Text) (b : Bool)
    → ((if length used == 0 then false else b) ≡ true) ↔ ((used ≢ []) × (b ≡ true))
used_test [] b = (λ h. cc h, λ h. absurd (h.0 refl))
used_test (c ∷ used) b = (λ h. (λ e. cc e, ground arith), λ h. ground arith)

body_iff :
    (r : Response) (v : Value)
    → IsReadable r v
    → ((eval_body r.body r.body_len v).passed ≡ true) ↔ Passes r assert_body_contains v
body_iff r (value_bytes e) ok = (sound ok.body_ok ok.expected_ok, complete)
  where
    sound :
        (r.body ≡ none) ⊎ ((used : Text) × Holds r.body r.body_len used)
        → IsWhole (value_bytes e)
        → (eval_body r.body r.body_len (value_bytes e)).passed ≡ true
        → Passes r assert_body_contains (value_bytes e)
    sound (inl p) w h = absurd (cc (body_none r.body r.body_len e (inl p)))
    sound (inr b) (inl q) h = absurd (cc (body_none r.body r.body_len e (inr q)))
    sound (inr (used, (spare, pb, pn))) (inr (needle, qb, qn)) h =
        let equal = body_at r.body r.body_len e used spare needle pb pn qb qn in
        let (ne, found) = (used_test used _).0 (sym equal ∙ h) in
        (
          used,
          needle,
          (spare, pb, pn),
          qb,
          qn,
          ne,
          (bytes_contains-Occurs used spare needle).0 found,
        )

    complete :
        Passes r assert_body_contains (value_bytes e)
        → (eval_body r.body r.body_len (value_bytes e)).passed ≡ true
    complete (used, needle, (spare, pb, pn), qb, qn, ne, o) =
        body_at r.body r.body_len e used spare needle pb pn qb qn
        ∙ (used_test used _).1 (ne, (bytes_contains-Occurs used spare needle).1 o)
body_iff r _ ok = (unfold eval_body in λ h. ground arith, λ x. absurd x)

pub header_at :
    (headers : Option Text) (e : HeaderExpect)
    → (eval_header headers (value_header e)).passed ≡ header_contains headers e
unfolding eval_header
header_at none e = unfold header_contains in refl
header_at (some []) e = sym (header_contains_empty e)
header_at (some (c ∷ h)) e = refl

header_parts :
    (headers : Option Text) (e : HeaderExpect) {h n v : Text}
    → headers ≡ some h
    → e.name ≡ some n
    → e.value ≡ some v
    → header_contains headers e
      ≡ header_contains (some h) (record { name = some n; value = some v })
header_parts headers e p q s i = header_contains (p i) (record { name = q i; value = s i })

header_iff :
    (r : Response) (v : Value)
    → IsReadable r v
    → ((eval_header r.headers v).passed ≡ true) ↔ Passes r assert_header_contains v
header_iff r (value_header e) ok =
    (λ h. sound r.headers e.name e.value refl refl refl (sym (header_at r.headers e) ∙ h), complete)
  where
    sound :
        (h n v : Option Text)
        → r.headers ≡ h
        → e.name ≡ n
        → e.value ≡ v
        → header_contains r.headers e ≡ true
        → Passes r assert_header_contains (value_header e)
    sound none n v p q s found = absurd (unfold header_contains in cc (rw p at found))
    sound (some h) none v p q s found = absurd (cc (header_contains_null r.headers e (inl q)))
    sound (some h) (some n) none p q s found =
        absurd (cc (header_contains_null r.headers e (inr s)))
    sound (some h) (some n) (some v) p q s found = (
      h,
      n,
      v,
      p,
      q,
      s,
      (header_contains_iff h n v (ok.headers_ok h p)).0
          (sym (header_parts r.headers e p q s) ∙ found),
    )

    complete :
        Passes r assert_header_contains (value_header e)
        → (eval_header r.headers (value_header e)).passed ≡ true
    complete (h, n, v, p, q, s, line) =
        header_at r.headers e
        ∙ header_parts r.headers e p q s
        ∙ (header_contains_iff h n v (ok.headers_ok h p)).1 line
header_iff r _ ok = (unfold eval_header in λ h. ground arith, λ x. absurd x)

type_iff :
    (r : Response) (t : AssertionType) (v : Value)
    → IsReadable r v
    → ((eval_type r t v).passed ≡ true) ↔ Passes r t v
unfolding eval_type
type_iff r assert_status_eq v ok = status_iff r v
type_iff r assert_body_contains v ok = body_iff r v ok
type_iff r assert_header_contains v ok = header_iff r v ok

-- Where the buffers of the response and of the expected value can be read as far as their lengths
-- say and the headers hold no NUL, the result says "passed" exactly when the response has the
-- property that the assertion asks for: the expected status code; a non-empty body in which the
-- expected bytes occur; a header line with the expected name, in any mix of cases, and value. An
-- expected value of another kind never passes.
pub eval_assertion_iff :
    (r : Response) (a : Assertion)
    → IsReadable r a.expected
    → ((eval_assertion (some r) (some a)).passed ≡ true) ↔ Passes r a.type a.expected
unfolding eval_assertion
eval_assertion_iff r a ok = type_iff r a.type a.expected ok
