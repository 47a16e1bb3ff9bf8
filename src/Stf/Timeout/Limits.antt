-- ===== src/Stf/Timeout/Limits.antt =====
-- Which limits parse_timeout accepts, and what it makes of them.
use mathlib.Core.List.{append-nil}
use zfstest.Prelude.{
  ◌∙◌, ℕ, ◌+◌, ◌*◌, ◌≤◌, ◌≡◌, refl, ap, sym, true, false, [], ◌∷◌, ◌++◌, arith, Option, none, some,
  ◌==◌, if◌then◌else◌,
}
use zfstest.Stf.Number.{strtol, Text, int_max}
use zfstest.Stf.Number.Digits.{spelled, AllDigits, strtol-append}
use zfstest.Stf.Timeout.{
  Units, hours, minutes, seconds, Value, Limit, zero_duration, is, set_units, parse_value, advance,
  finish_limit, parse_timeout,
}

-- A part such as `23m`, which may be missing.
abbrev pub part : ℕ → Option Text → Text → Text
part unit none s = s
part unit (some ds) s = ds ++ unit ∷ s

abbrev pub amount : Option Text → ℕ
amount none = 0
amount (some ds) = spelled 0 ds

abbrev pub DigitsOnly : Option Text → Type 0
DigitsOnly none = Unit
DigitsOnly (some ds) = AllDigits ds

abbrev value_of : ℕ → Units → Text → Value
value_of n unit s = record { value = n; units = unit; rest = s; complaints = [] }

abbrev pub accepted : ℕ → Limit
accepted total = record {
  duration = total;
  complaints = if total == 0 then zero_duration ∷ [] else [];
}

module _ (u : Units) (ds s : Text) (all : AllDigits ds) (fits : spelled 0 ds ≤ int_max) where
  parse_value-hours : parse_value u (ds ++ b'h' ∷ s) ≡ value_of (spelled 0 ds) hours s
  unfolding parse_value set_units
  parse_value-hours =
      rw (strtol-append ds (b'h' ∷ s) all (refl, refl, refl, refl) fits) (ground arith)

  parse_value-minutes : parse_value u (ds ++ b'm' ∷ s) ≡ value_of (spelled 0 ds) minutes s
  unfolding parse_value set_units
  parse_value-minutes =
      rw (strtol-append ds (b'm' ∷ s) all (refl, refl, refl, refl) fits) (ground arith)

  parse_value-seconds : parse_value u (ds ++ b's' ∷ s) ≡ value_of (spelled 0 ds) seconds s
  unfolding parse_value set_units
  parse_value-seconds =
      rw (strtol-append ds (b's' ∷ s) all (refl, refl, refl, refl) fits) (ground arith)

  parse_value-last : parse_value u ds ≡ value_of (spelled 0 ds) Units.none []
  unfolding parse_value set_units
  parse_value-last =
      rw (ap strtol (sym (append-nil ds)), strtol-append ds [] all tt fits) (ground arith)

advance-skip :
    (unit : Units) (k d : ℕ) (v : Value) → is unit v.units ≡ false → advance unit k (d, v) ≡ (d, v)
unfolding advance
advance-skip unit k d v other = rw other refl

advance-take :
    (unit : Units) (k d n : ℕ) (s : Text)
    → is unit unit ≡ true
    → d + k * n ≤ int_max
    → advance unit k (d, value_of n unit s) ≡ (d + k * n, parse_value unit s)
unfolding advance
advance-take unit k d n s same small = rw same (ground arith)

pub parse_timeout_step :
    (stale : Units) (s : Text)
    → parse_timeout stale s
      ≡ finish_limit
          (advance seconds 1 (advance minutes 60 (advance hours 3600 (0, parse_value stale s))))
unfolding parse_timeout
parse_timeout_step stale s = refl

-- The parts behind the hours, behind the minutes and behind the seconds.
module _ (ds : Text) (all : AllDigits ds) where
  finish-last :
      (u : Units) (d : ℕ)
      → d + spelled 0 ds ≤ int_max
      → finish_limit (d, parse_value u ds) ≡ accepted (d + spelled 0 ds)
  unfolding finish_limit
  finish-last u d small = rw (parse_value-last u ds [] all (omega arith)) (ground arith)

  finish-seconds :
      (u : Units) (d : ℕ) (f : Option Text)
      → DigitsOnly f
      → d + (amount f + spelled 0 ds) ≤ int_max
      → finish_limit (advance seconds 1 (d, parse_value u (part b's' f ds)))
        ≡ accepted (d + (amount f + spelled 0 ds))
  finish-seconds u d none _ small =
      rw
        (advance-skip seconds 1 d (parse_value u ds)
          (ap (λ v. is seconds v.units) (parse_value-last u ds [] all (omega arith))))
        (finish-last u d (omega arith) ∙ ap accepted (omega arith))
  finish-seconds u d (some ss) h small =
      rw
        (
          parse_value-seconds u ss ds h (omega arith),
          advance-take seconds 1 d (spelled 0 ss) ds refl (omega arith),
          finish-last seconds (d + 1 * spelled 0 ss) (omega arith),
        )
        (ap accepted (omega arith))

  -- Without hours or minutes in front, the next part is not one of these.
  units-seconds :
      (unit u : Units) (g : Option Text)
      → is unit seconds ≡ false
      → is unit Units.none ≡ false
      → DigitsOnly g
      → amount g + spelled 0 ds ≤ int_max
      → is unit (parse_value u (part b's' g ds)).units ≡ false
  units-seconds unit u none _ not_none _ small =
      rw (parse_value-last u ds [] all (omega arith)) not_none
  units-seconds unit u (some ss) not_seconds _ h small =
      rw (parse_value-seconds u ss ds h (omega arith)) not_seconds

  finish-minutes :
      (u : Units) (d : ℕ) (f g : Option Text)
      → DigitsOnly f
      → DigitsOnly g
      → d + (60 * amount f + (amount g + spelled 0 ds)) ≤ int_max
      → finish_limit
          (advance seconds 1 (advance minutes 60 (d, parse_value u (part b'm' f (part b's' g ds)))))
        ≡ accepted (d + (60 * amount f + (amount g + spelled 0 ds)))
  finish-minutes u d none g _ hg small =
      rw
        (advance-skip minutes 60 d (parse_value u (part b's' g ds))
          (units-seconds minutes u g refl refl hg (omega arith)))
        (finish-seconds u d g hg (omega arith) ∙ ap accepted (omega arith))
  finish-minutes u d (some ms) g h hg small =
      rw
        (
          parse_value-minutes u ms (part b's' g ds) h (omega arith),
          advance-take minutes 60 d (spelled 0 ms) (part b's' g ds) refl (omega arith),
          finish-seconds minutes (d + 60 * spelled 0 ms) g hg (omega arith),
        )
        (ap accepted (omega arith))

  units-minutes :
      (u : Units) (f g : Option Text)
      → DigitsOnly f
      → DigitsOnly g
      → 60 * amount f + (amount g + spelled 0 ds) ≤ int_max
      → is hours (parse_value u (part b'm' f (part b's' g ds))).units ≡ false
  units-minutes u none g _ hg small = units-seconds hours u g refl refl hg (omega arith)
  units-minutes u (some ms) g h _ small =
      rw (parse_value-minutes u ms (part b's' g ds) h (omega arith)) refl

  -- A limit with its parts in order is accepted, and counts the seconds of all parts.
  pub parse_timeout-part :
      (stale : Units) (e f g : Option Text)
      → DigitsOnly e
      → DigitsOnly f
      → DigitsOnly g
      → 3600 * amount e + (60 * amount f + (amount g + spelled 0 ds)) ≤ int_max
      → parse_timeout stale (part b'h' e (part b'm' f (part b's' g ds)))
        ≡ accepted (3600 * amount e + (60 * amount f + (amount g + spelled 0 ds)))
  parse_timeout-part stale none f g _ hf hg small =
      rw
        (
          parse_timeout_step stale (part b'm' f (part b's' g ds)),
          advance-skip hours 3600 0 (parse_value stale (part b'm' f (part b's' g ds)))
              (units-minutes stale f g hf hg (omega arith)),
        )
        (finish-minutes stale 0 f g hf hg (omega arith) ∙ ap accepted (omega arith))
  parse_timeout-part stale (some hs) f g he hf hg small =
      rw
        (
          parse_timeout_step stale (hs ++ b'h' ∷ part b'm' f (part b's' g ds)),
          parse_value-hours stale hs (part b'm' f (part b's' g ds)) he (omega arith),
          advance-take hours 3600 0 (spelled 0 hs) (part b'm' f (part b's' g ds)) refl
              (omega arith),
          finish-minutes hours (0 + 3600 * spelled 0 hs) f g hf hg (omega arith),
        )
        (ap accepted (omega arith))
