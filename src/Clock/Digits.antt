-- ===== src/Clock/Digits.antt =====
-- `parseInt` reads the decimal digits of a number back.
use hotello_backend.Common.{
  ℕ, ◌+◌, ◌-◌, ◌*◌, ◌/◌, ◌%◌, ◌<◌, ◌≡◌, refl, ◌∙◌, arith, true, ◌&&◌, [], ◌∷◌, Text, leb,
}
use hotello_backend.Clock.{parse_digits, parse_int}

digit_lem :
    (acc n : ℕ) (s : Text)
    → parse_digits acc ((48 + n % 10) ∷ s) ≡ parse_digits (acc * 10 + n % 10) s
unfolding parse_digits
digit_lem acc n s = rw (in_range, value) refl
  where
    in_range : (leb 48 (48 + n % 10) && leb (48 + n % 10) 57) ≡ true
    in_range = ground arith

    value : acc * 10 + (48 + n % 10 - 48) ≡ acc * 10 + n % 10
    value = omega arith

pub parse_int-two : (n : ℕ) → n < 100 → parse_int ((48 + n / 10 % 10) ∷ (48 + n % 10) ∷ []) ≡ n
unfolding parse_int parse_digits
parse_int-two n small =
    digit_lem 0 (n / 10) ((48 + n % 10) ∷ []) ∙ digit_lem (0 * 10 + n / 10 % 10) n [] ∙ sum
  where
    sum : (0 * 10 + n / 10 % 10) * 10 + n % 10 ≡ n
    sum = omega arith

pub parse_int-four :
    (n : ℕ)
    → n < 10_000
    → parse_int
        ((48 + n / 1000 % 10) ∷ (48 + n / 100 % 10) ∷ (48 + n / 10 % 10) ∷ (48 + n % 10) ∷ [])
      ≡ n
unfolding parse_int parse_digits
parse_int-four n small =
    digit_lem 0 (n / 1000) ((48 + n / 100 % 10) ∷ (48 + n / 10 % 10) ∷ (48 + n % 10) ∷ [])
    ∙ digit_lem (0 * 10 + n / 1000 % 10) (n / 100) ((48 + n / 10 % 10) ∷ (48 + n % 10) ∷ [])
    ∙ digit_lem ((0 * 10 + n / 1000 % 10) * 10 + n / 100 % 10) (n / 10) ((48 + n % 10) ∷ [])
    ∙ digit_lem (((0 * 10 + n / 1000 % 10) * 10 + n / 100 % 10) * 10 + n / 10 % 10) n []
    ∙ sum
  where
    sum : (((0 * 10 + n / 1000 % 10) * 10 + n / 100 % 10) * 10 + n / 10 % 10) * 10 + n % 10 ≡ n
    sum = omega arith
