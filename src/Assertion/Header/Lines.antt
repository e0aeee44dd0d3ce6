-- ===== src/Assertion/Header/Lines.antt =====
-- `header_contains` of src/core/assertion.c: the lines of the headers and the loop over them.
use fman.Prelude.{
  ℕ, zero, suc, ◌+◌, ◌<◌, ◌≡◌, ◌↔◌, refl, ap, ◌⊎◌, inl, inr, Bool, true, false, List, [], ◌∷◌, ◌++◌,
  Option, none, some, ◌==◌, if◌then◌else◌, length, Text, Lacks, arith, length-append, Any,
  append-nil, subst,
}
use fman.Models.{HeaderExpect}
use fman.Assertion.Header.{line_matches, strchr, header_loop, search_headers, header_contains}
use fman.Assertion.Header.Cut.{missing, at_first, cut}
use fman.Assertion.Header.Colon.{HeaderLine, Lacks-append, Lacks-past, line_iff}

-- The byte joins the line that follows it.
on_first : ℕ → List Text → List Text
on_first c [] = []
on_first c (l ∷ ls) = (c ∷ l) ∷ ls

-- The text between the newlines.
unfoldable pub lines : Text → List Text
unfolding on_first
lines [] = [] ∷ []
lines (c ∷ cs) = if c == b'\n' then [] ∷ lines cs else on_first c (lines cs)

lines_missing : (s : Text) → Lacks b'\n' s → lines s ≡ s ∷ []
unfolding lines
lines_missing [] l = refl
lines_missing (c ∷ s) l = ground (arith, lines_missing s l.1)

lines_cut : (line next : Text) → Lacks b'\n' line → lines (line ++ b'\n' ∷ next) ≡ line ∷ lines next
unfolding lines
lines_cut [] next l = refl
lines_cut (c ∷ line) next l = ground (arith, lines_cut line next l.1)

strchr_missing : (s : Text) → Lacks b'\n' s → strchr s b'\n' ≡ none
unfolding strchr
strchr_missing [] l = refl
strchr_missing (c ∷ s) l = ground (arith, strchr_missing s l.1)

strchr_cut :
    (line next : Text)
    → Lacks b'\n' line
    → strchr (line ++ b'\n' ∷ next) b'\n' ≡ some (b'\n' ∷ next)
unfolding strchr
strchr_cut [] next l = refl
strchr_cut (c ∷ line) next l = ground (arith, strchr_cut line next l.1)

-- The loop at the last line, and at a line with another behind it.
loop_last :
    (name value : Text) (fuel c : ℕ) (s : Text)
    → strchr (c ∷ s) b'\n' ≡ none
    → header_loop (suc fuel) name value (c ∷ s)
      ≡ (if line_matches name value (c ∷ s) [] then true else false)
unfolding header_loop
loop_last name value fuel c s e = rw e

loop_cut :
    (name value : Text) (fuel c : ℕ) (s next : Text)
    → strchr (c ∷ s) b'\n' ≡ some (b'\n' ∷ next)
    → header_loop (suc fuel) name value (c ∷ s) ≡ (
        if line_matches name value (c ∷ s) (b'\n' ∷ next)
        then true
        else header_loop fuel name value next)
unfolding header_loop
loop_cut name value fuel c s next e = ground (arith, e)

either_iff :
    {P Q : Type 0} (a b : Bool)
    → (a ≡ true) ↔ P
    → (b ≡ true) ↔ Q
    → ((if a then true else b) ≡ true) ↔ (P ⊎ Q)
either_iff true b p q = (λ h. inl (p.0 refl), λ h. refl)
either_iff false b p q = (λ h. inr (q.0 h), elim [ inl x ↦ cc (p.1 x) | inr y ↦ q.1 y ])

no_line : {name value : Text} → HeaderLine name value [] → ⊥
no_line g = omega (arith, ap (λ (t : Text). length t) g.splits, length-append g.key (b':' ∷ g.rest))

header_loop_iff :
    (name value : Text) (fuel : ℕ) (s : Text)
    → length s < fuel
    → Lacks 0 s
    → (header_loop fuel name value s ≡ true) ↔ Any (HeaderLine name value) (lines s)
header_loop_iff name value zero s h l = elim h [ ]
header_loop_iff name value (suc fuel) [] h l =
    rw (lines_missing [] tt)
      (unfold header_loop in λ x. cc x, elim [ inl g ↦ absurd (no_line g) | inr x ↦ absurd x ])
header_loop_iff name value (suc fuel) (c ∷ s) h l = elim (cut b'\n' (c ∷ s)) [
  | missing m ↦
      rw (loop_last name value fuel c s (strchr_missing (c ∷ s) m), lines_missing (c ∷ s) m)
        (either_iff _ false (rw append-nil at (line_iff name value (c ∷ s) [] (inl refl) l))
          (λ x. cc x, λ x. absurd x))
  | at_first line next splits first ↦
      rw
        (
          loop_cut name value fuel c s next (rw splits (strchr_cut line next first)),
          splits,
          lines_cut line next first,
        )
        (either_iff _ _
          (line_iff name value line (b'\n' ∷ next) (inr (next, refl))
            (Lacks-append 0 line (b'\n' ∷ next) (subst (Lacks 0) splits l)))
          (header_loop_iff name value fuel next
            (omega (arith, ap (λ (t : Text). length t) splits, length-append line (b'\n' ∷ next)))
            (Lacks-past 0 line b'\n' next (subst (Lacks 0) splits l))))
]

-- For headers and an expected name and value that hold no NUL, `header_contains` answers true
-- exactly when one of the lines is `name: value`, the name in any mix of cases.
pub header_contains_iff :
    (headers name value : Text)
    → Lacks 0 headers
    → (header_contains (some headers) (record { name = some name; value = some value }) ≡ true)
      ↔ Any (HeaderLine name value) (lines headers)
unfolding header_contains
header_contains_iff headers name value l =
    header_loop_iff name value (length headers + 1) headers (omega arith) l

search_empty : (name value : Option Text) → search_headers (some []) name value ≡ false
unfolding search_headers header_loop
search_empty none value = refl
search_empty (some n) none = refl
search_empty (some n) (some v) = refl

search_null :
    (headers name value : Option Text)
    → (name ≡ none) ⊎ (value ≡ none)
    → search_headers headers name value ≡ false
unfolding search_headers
search_null none name value h = refl
search_null (some t) none value h = refl
search_null (some t) (some n) none h = refl
search_null (some t) (some n) (some v) h = ground arith

-- Empty headers, a NULL name and a NULL value match nothing.
pub header_contains_empty : (e : HeaderExpect) → header_contains (some []) e ≡ false
unfolding header_contains
header_contains_empty e = search_empty e.name e.value

pub header_contains_null :
    (headers : Option Text) (e : HeaderExpect)
    → (e.name ≡ none) ⊎ (e.value ≡ none)
    → header_contains headers e ≡ false
unfolding header_contains
header_contains_null headers e h = search_null headers e.name e.value h
