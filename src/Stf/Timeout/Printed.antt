-- ===== src/Stf/Timeout/Printed.antt =====
-- A limit as it is printed is read back.
use zfstest.Prelude.{ℕ, ◌+◌, ◌*◌, ◌≤◌, ◌≡◌, refl, arith, [], Option, none, some, ◌∙◌, ap}
use zfstest.Stf.Number.{Text, int_max}
use zfstest.Stf.Number.Digits.{spelled, AllDigits}
use zfstest.Stf.Decimal.{decimal}
use zfstest.Stf.Decimal.Laws.{spelled-decimal, decimal-AllDigits}
use zfstest.Stf.Timeout.{Units, parse_timeout}
use zfstest.Stf.Timeout.Limits.{part, amount, accepted, DigitsOnly, parse_timeout-part}

abbrev pub number : Option ℕ → Option Text
number none = none
number (some n) = some (decimal n)

abbrev pub or_zero : Option ℕ → ℕ
or_zero none = 0
or_zero (some n) = n

abbrev pub tail : Option ℕ → Text
tail none = []
tail (some n) = decimal n

-- `3h23m45s`, where each part may be missing, and a number without a unit at the end.
abbrev pub printed : Option ℕ → Option ℕ → Option ℕ → Option ℕ → Text
printed h m s rest = part b'h' (number h) (part b'm' (number m) (part b's' (number s) (tail rest)))

amount-number : (n : Option ℕ) → or_zero n ≤ int_max → amount (number n) ≡ or_zero n
amount-number none _ = refl
amount-number (some n) small = spelled-decimal n (omega arith)

number-DigitsOnly : (n : Option ℕ) → DigitsOnly (number n)
number-DigitsOnly none = tt
number-DigitsOnly (some n) = decimal-AllDigits n

spelled-tail : (n : Option ℕ) → or_zero n ≤ int_max → spelled 0 (tail n) ≡ or_zero n
spelled-tail none _ = refl
spelled-tail (some n) small = spelled-decimal n (omega arith)

tail-AllDigits : (n : Option ℕ) → AllDigits (tail n)
tail-AllDigits none = tt
tail-AllDigits (some n) = decimal-AllDigits n

-- `parse_timeout` of stf_timeout on a limit as it is printed, with hours, minutes, seconds and a
-- rest without unit, each of which may be missing: if the total of seconds is at most INT_MAX, the
-- duration is that total, and the only complaint is that of a total of 0.
pub parse_timeout-printed :
    (stale : Units) (h m s rest : Option ℕ)
    → 3600 * or_zero h + (60 * or_zero m + (or_zero s + or_zero rest)) ≤ int_max
    → parse_timeout stale (printed h m s rest)
      ≡ accepted (3600 * or_zero h + (60 * or_zero m + (or_zero s + or_zero rest)))
parse_timeout-printed stale h m s rest small =
    let eh = amount-number h (omega arith) in
    let em = amount-number m (omega arith) in
    let es = amount-number s (omega arith) in
    let er = spelled-tail rest (omega arith) in
    parse_timeout-part (tail rest) (tail-AllDigits rest) stale (number h) (number m) (number s)
      (number-DigitsOnly h) (number-DigitsOnly m) (number-DigitsOnly s)
      (omega (arith, eh, em, es, er))
    ∙ ap accepted (omega (arith, eh, em, es, er))
