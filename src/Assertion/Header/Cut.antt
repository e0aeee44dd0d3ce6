-- ===== src/Assertion/Header/Cut.antt =====
-- `header_contains` of src/core/assertion.c: a line cut at its first colon.
use fman.Prelude.{
  ℕ, zero, suc, ◌<◌, ◌≡◌, ◌≢◌, ◌↔◌, refl, ap, inl, inr, true, [], ◌∷◌, ◌++◌, none, some, ◌==◌,
  length, Text, Lacks, arith, tolower, map, Bool-cases,
}
use fman.Prelude.Int.{pos, int_eq, sub_ℕ}
use fman.Assertion.Header.{memchr, strncasecmp_simple, strncmp_eq}

-- `strchr` and `memchr` stop at the first occurrence.
pub memchr_first :
    (b : ℕ) (key more : Text) (n : ℕ)
    → Lacks b key
    → length key < n
    → memchr (key ++ b ∷ more) b n ≡ some (length key)
unfolding memchr
memchr_first b key more zero l h = elim h [ ]
memchr_first b [] more (suc n) l h = ground arith
memchr_first b (c ∷ key) more (suc n) l h = ground (arith, memchr_first b key more n l.1)

-- Either the byte is missing, or the text is cut at the first one.
pub data Cut (b : ℕ) (line : Text) : Type 0 where
  missing : Lacks b line → Cut b line
  at_first : (key rest : Text) → line ≡ key ++ b ∷ rest → Lacks b key → Cut b line

Cut-cons : {b : ℕ} {line : Text} (c : ℕ) → c ≢ b → Cut b line → Cut b (c ∷ line)
Cut-cons c ne (missing l) = missing (ne, l)
Cut-cons c ne (at_first key rest e l) = at_first (c ∷ key) rest (ap (◌∷◌ c) e) (ne, l)

pub cut : (b : ℕ) (line : Text) → Cut b line
cut b [] = missing tt
cut b (c ∷ line) = elim (Bool-cases (c == b)) [
  | inl hit ↦ at_first [] line (ground arith) tt
  | inr miss ↦ Cut-cons c (ground arith) (cut b line)
]

pub memchr_missing :
    (b : ℕ) (line more : Text) → Lacks b line → memchr (line ++ more) b (length line) ≡ none
unfolding memchr
memchr_missing b [] more l = refl
memchr_missing b (c ∷ line) more l = ground (arith, memchr_missing b line more l.1)

tolower_zero : (c : ℕ) → c ≢ 0 → tolower c ≢ 0
unfolding tolower
tolower_zero c h = ground arith

sub_ℕ_zero : (a b : ℕ) → sub_ℕ a b ≡ pos 0 → a ≡ b
sub_ℕ_zero a b h = ground arith

-- The comparison of names accepts exactly the same letters up to case.
pub strncasecmp_iff :
    (a more b : Text)
    → Lacks 0 a
    → length a ≡ length b
    → (int_eq (strncasecmp_simple (a ++ more) b (length a)) (pos 0) ≡ true)
      ↔ (map tolower a ≡ map tolower b)
unfolding strncasecmp_simple int_eq
strncasecmp_iff [] more [] l e = ground arith
strncasecmp_iff [] more (y ∷ b) l e = absurd (omega arith)
strncasecmp_iff (x ∷ a) more [] l e = absurd (omega arith)
strncasecmp_iff (x ∷ a) more (y ∷ b) l e = ground (
  arith,
  tolower_zero x l.0,
  sub_ℕ_zero (tolower x) (tolower y),
  strncasecmp_iff a more b l.1 (omega arith),
)

pub strncmp_iff :
    (a more b : Text) → length a ≡ length b → (strncmp_eq (a ++ more) b (length a) ≡ true) ↔ (a ≡ b)
unfolding strncmp_eq
strncmp_iff [] more [] e = ground arith
strncmp_iff [] more (y ∷ b) e = absurd (omega arith)
strncmp_iff (x ∷ a) more [] e = absurd (omega arith)
strncmp_iff (x ∷ a) more (y ∷ b) e = ground (arith, strncmp_iff a more b (omega arith))
