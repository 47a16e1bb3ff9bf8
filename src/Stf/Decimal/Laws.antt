-- ===== src/Stf/Decimal/Laws.antt =====
-- A printed number is read back.
use zfstest.Prelude.{
  ℕ, zero, suc, ◌+◌, ◌*◌, ◌/◌, ◌%◌, ◌^◌, ◌<◌, ◌≡◌, true, [], ◌∷◌, ◌==◌, arith, Bool-cases, inl, inr,
  ◌∙◌, ap,
}
use zfstest.Stf.Number.{Text, is_digit}
use zfstest.Stf.Number.Digits.{spelled, AllDigits}
use zfstest.Stf.Decimal.{digits, decimal}

is_digit-last : (n : ℕ) → is_digit (b'0' + n % 10) ≡ true
is_digit-last n = ground arith

digits-AllDigits : (fuel n : ℕ) (out : Text) → AllDigits out → AllDigits (digits fuel n out)
unfolding digits
digits-AllDigits zero n out h = h
digits-AllDigits (suc fuel) n out h = elim (Bool-cases (n / 10 == 0)) [
  | inl e ↦ rw e (is_digit-last n, h)
  | inr e ↦ rw e (digits-AllDigits fuel (n / 10) ((b'0' + n % 10) ∷ out) (is_digit-last n, h))
]

abbrev tens : ℕ → ℕ
tens zero = 1
tens (suc k) = 10 * tens k

-- The digits in front of `out` spell the number.
spelled-digits :
    (fuel n : ℕ) (out : Text)
    → n < tens (suc fuel)
    → spelled 0 (digits (suc fuel) n out) ≡ spelled n out
unfolding digits
spelled-digits zero n out small = rw one_digit (ap (λ k. spelled k out) (omega arith))
  where
    one_digit : (n / 10 == 0) ≡ true
    one_digit = ground arith
spelled-digits (suc fuel) n out small = elim (Bool-cases (n / 10 == 0)) [
  | inl e ↦ rw e (ap (λ k. spelled k out) (ground arith))
  | inr e ↦ rw e (
      spelled-digits fuel (n / 10) ((b'0' + n % 10) ∷ out) (omega arith)
      ∙ ap (λ k. spelled k out) (omega arith))
]

pub spelled-decimal : (n : ℕ) → n < 10 ^ 10 → spelled 0 (decimal n) ≡ n
unfolding decimal
spelled-decimal n small = spelled-digits 9 n [] (omega arith)

pub decimal-AllDigits : (n : ℕ) → AllDigits (decimal n)
unfolding decimal
decimal-AllDigits n = digits-AllDigits 10 n [] tt
