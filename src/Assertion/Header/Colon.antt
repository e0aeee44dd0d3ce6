-- ===== src/Assertion/Header/Colon.antt =====
-- `header_contains` of src/core/assertion.c: a line of the headers and its parts.
use fman.Prelude.{
  ℕ, ◌+◌, ◌-◌, ◌≡◌, ◌↔◌, refl, ap, ◌∙◌, Bool, true, false, ◌&&◌, [], ◌∷◌, ◌++◌, some, ◌==◌, length,
  drop, Text, Lacks, arith, length-append, tolower, map, length-map, append_assoc, subst,
}
use fman.Prelude.Int.{pos, int_eq}
use fman.Assertion.Header.{strncasecmp_simple, strncmp_eq, memchr, at_colon, line_matches}
use fman.Assertion.Header.Trim.{
  rtrim, ltrim, Ends, rtrim_end-rtrim, rtrim-append, skip_spaces-ltrim,
}
use fman.Assertion.Header.Cut.{
  missing, at_first, cut, memchr_first, memchr_missing, strncasecmp_iff, strncmp_iff,
}

-- The line is `key: rest` with no colon in the key; without the blanks around them, the key is the
-- name in some mix of cases, and the rest is the value.
pub record HeaderLine (name value line : Text) : Type 0 where
  pub key : Text
  pub rest : Text
  pub splits : line ≡ key ++ b':' ∷ rest
  pub first : Lacks b':' key
  pub named : map tolower (rtrim key) ≡ map tolower name
  pub valued : rtrim (ltrim rest) ≡ value

pub Lacks-append : (b : ℕ) (xs ys : Text) → Lacks b (xs ++ ys) → Lacks b xs
Lacks-append b [] ys l = tt
Lacks-append b (x ∷ xs) ys l = (l.0, Lacks-append b xs ys l.1)

pub Lacks-past : (b : ℕ) (xs : Text) (y : ℕ) (ys : Text) → Lacks b (xs ++ y ∷ ys) → Lacks b ys
Lacks-past b [] y ys l = l.1
Lacks-past b (x ∷ xs) y ys l = Lacks-past b xs y ys l.1

same_length : (a b : Text) → map tolower a ≡ map tolower b → length a ≡ length b
same_length a b e =
    omega (arith, ap (λ (t : Text). length t) e, length-map tolower a, length-map tolower b)

name_test :
    (t more name : Text)
    → Lacks 0 t
    → ((length t == length name && int_eq (strncasecmp_simple (t ++ more) name (length t)) (pos 0))
        ≡ true)
      ↔ (map tolower t ≡ map tolower name)
name_test t more name l = (
  λ h. ground (arith, strncasecmp_iff t more name l),
  λ e. ground (arith, strncasecmp_iff t more name l, same_length t name e),
)

name_iff :
    (key more name : Text)
    → Lacks 0 key
    → ((length (rtrim key) == length name
          && int_eq (strncasecmp_simple (key ++ more) name (length (rtrim key))) (pos 0))
        ≡ true)
      ↔ (map tolower (rtrim key) ≡ map tolower name)
name_iff key more name l =
    let (cut, e) = rtrim-append key in
    let same : key ++ more ≡ rtrim key ++ (cut ++ more) =
      ap (λ (k : Text). k ++ more) e ∙ append_assoc (rtrim key) cut more in
    rw same (name_test (rtrim key) (cut ++ more) name (Lacks-append 0 (rtrim key) cut (rw e at l)))

value_test :
    (t more value : Text)
    → ((length t == length value && strncmp_eq (t ++ more) value (length t)) ≡ true) ↔ (t ≡ value)
value_test t more value = (
  λ h. ground (arith, strncmp_iff t more value),
  λ e. ground (arith, strncmp_iff t more value, ap (λ (t : Text). length t) e),
)

value_iff :
    (v tail value : Text)
    → ((length (rtrim v) == length value && strncmp_eq (v ++ tail) value (length (rtrim v))) ≡ true)
      ↔ (rtrim v ≡ value)
value_iff v tail value =
    let (cut, e) = rtrim-append v in
    let same : v ++ tail ≡ rtrim v ++ (cut ++ tail) =
      ap (λ (k : Text). k ++ tail) e ∙ append_assoc (rtrim v) cut tail in
    rw same (value_test (rtrim v) (cut ++ tail) value)

drop_key : (key rest : Text) (b : ℕ) → drop (length key + 1) (key ++ b ∷ rest) ≡ rest
drop_key [] rest b = refl
drop_key (c ∷ key) rest b = ground (arith, drop_key key rest b)

tail_length : (v tail : Text) → length (v ++ tail) - length tail ≡ length v
tail_length v tail = omega (arith, length-append v tail)

both_iff :
    {P Q : Type 0} (a b : Bool) → (a ≡ true) ↔ P → (b ≡ true) ↔ Q → ((a && b) ≡ true) ↔ (P × Q)
both_iff a b p q =
    (λ h. (p.0 (ground arith), q.0 (ground arith)), λ h. ground (arith, p.1 h.0, q.1 h.1))

at_colon_iff :
    (name value key rest tail : Text)
    → Ends tail
    → Lacks 0 key
    → (at_colon name value (key ++ b':' ∷ (rest ++ tail)) tail (length key) ≡ true)
      ↔ ((map tolower (rtrim key) ≡ map tolower name) × (rtrim (ltrim rest) ≡ value))
unfolding at_colon
at_colon_iff name value key rest tail e l =
    rw
      (
        rtrim_end-rtrim key (b':' ∷ (rest ++ tail)),
        drop_key key (rest ++ tail) b':',
        skip_spaces-ltrim rest tail e,
        tail_length (ltrim rest) tail,
        rtrim_end-rtrim (ltrim rest) tail,
      )
      (both_iff _ _ (name_iff key (b':' ∷ (rest ++ tail)) name l)
        (value_iff (ltrim rest) tail value))

line_at :
    (name value text tail : Text) (colon : ℕ)
    → memchr text b':' (length text - length tail) ≡ some colon
    → line_matches name value text tail ≡ at_colon name value text tail colon
unfolding line_matches
line_at name value text tail colon e = rw (e, line_matches)

colon_found :
    (key rest tail : Text)
    → Lacks b':' key
    → memchr
        (key ++ b':' ∷ (rest ++ tail))
        b':'
        (length (key ++ b':' ∷ (rest ++ tail)) - length tail)
      ≡ some (length key)
colon_found key rest tail first =
    memchr_first b':' key (rest ++ tail) _ first
      (omega (arith, length-append key (b':' ∷ (rest ++ tail)), length-append rest tail))

line_at_iff :
    (name value line tail key rest : Text)
    → Ends tail
    → Lacks 0 line
    → line ≡ key ++ b':' ∷ rest
    → Lacks b':' key
    → (line_matches name value (line ++ tail) tail ≡ true)
      ↔ ((map tolower (rtrim key) ≡ map tolower name) × (rtrim (ltrim rest) ≡ value))
line_at_iff name value line tail key rest e l splits first =
    rw
      (
        ap (λ (t : Text). t ++ tail) splits,
        append_assoc key (b':' ∷ rest) tail,
        line_at name value _ tail (length key) (colon_found key rest tail first),
      )
      (at_colon_iff name value key rest tail e
        (Lacks-append 0 key (b':' ∷ rest) (subst (Lacks 0) splits l)))

line_missing :
    (name value line tail : Text)
    → Lacks b':' line
    → line_matches name value (line ++ tail) tail ≡ false
unfolding line_matches
line_missing name value line tail l =
    rw (tail_length line tail, memchr_missing b':' line tail l, line_matches)

pub line_iff :
    (name value line tail : Text)
    → Ends tail
    → Lacks 0 line
    → (line_matches name value (line ++ tail) tail ≡ true) ↔ HeaderLine name value line
line_iff name value line tail e l = (
  λ h. elim (cut b':' line) [
    | missing none_left ↦ absurd (cc (line_missing name value line tail none_left))
    | at_first key rest splits first ↦
        let (named, valued) = (line_at_iff name value line tail key rest e l splits first).0 h in
        record {
          key = key;
          rest = rest;
          splits = splits;
          first = first;
          named = named;
          valued = valued;
        }
  ],
  λ g. (line_at_iff name value line tail g.key g.rest e l g.splits g.first).1 (g.named, g.valued),
)
