-- ===== src/Cli/Output/Numbers.antt =====
-- The numbers that src/cli/cli_output.c prints: they are read back as `atoi` reads digits, so the fuel of `decimal` is
-- enough.
use fman.Prelude.{
  ℕ, zero, suc, ◌+◌, ◌-◌, ◌*◌, ◌/◌, ◌%◌, ◌<◌, ◌≡◌, refl, [], ◌∷◌, ◌++◌, ltb, if_cases, Text, arith,
  digits_within, decimal,
}
use fman.Dsl.Parser.{atoi_from}

atoi_from-append :
    (a : ℕ) (front : Text) (c : ℕ)
    → atoi_from a (front ++ c ∷ []) ≡ atoi_from a front * 10 + (c - b'0')
unfolding atoi_from
atoi_from-append a [] c = refl
atoi_from-append a (d ∷ front) c = atoi_from-append (a * 10 + (d - b'0')) front c

atoi_from-digits_within : (fuel n : ℕ) → n < fuel → atoi_from 0 (digits_within fuel n) ≡ n
unfolding digits_within atoi_from
atoi_from-digits_within zero n lt = absurd (omega arith)
atoi_from-digits_within (suc fuel) n lt =
    if_cases (λ (front : Text). atoi_from 0 (front ++ (b'0' + n % 10) ∷ []) ≡ n) (ltb n 10)
      (λ small. ground arith)
      (λ large. omega (
        arith,
        atoi_from-append 0 (digits_within fuel (n / 10)) (b'0' + n % 10),
        atoi_from-digits_within fuel (n / 10) (ground arith),
      ))

pub atoi_from-decimal : (n : ℕ) → atoi_from 0 (decimal n) ≡ n
unfolding decimal
atoi_from-decimal n = atoi_from-digits_within (suc n) n (omega arith)
