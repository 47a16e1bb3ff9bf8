-- ===== src/Stf/Timeout/Stale.antt =====
-- What parse_timeout makes of a character that is no unit: the units that parse_value leaves unset.
use zfstest.Prelude.{ℕ, ◌*◌, ◌≤◌, ◌≡◌, false, [], ◌∷◌, ◌++◌, arith, ◌==◌, if◌then◌else◌}
use zfstest.Stf.Number.{Text, int_max}
use zfstest.Stf.Number.Digits.{spelled, AllDigits, Ends, strtol-append}
use zfstest.Stf.Timeout.{
  Units, hours, minutes, seconds, none, garbage, Limit, zero_duration, bad_limit, unrecognized,
  set_units, parse_value, advance, finish_limit, parse_timeout,
}
use zfstest.Stf.Timeout.Limits.{parse_timeout_step}

-- The limit that comes out, by what the variable for the units held before: it is called bad, but
-- not where that was `none`.
abbrev pub stale_limit : Units → ℕ → ℕ → Limit
stale_limit hours n c = record {
  duration = 3600 * n;
  complaints = unrecognized c ∷ unrecognized c ∷ bad_limit ∷ [];
}
stale_limit minutes n c = record {
  duration = 60 * n;
  complaints = unrecognized c ∷ unrecognized c ∷ bad_limit ∷ [];
}
stale_limit seconds n c = record {
  duration = n;
  complaints = unrecognized c ∷ unrecognized c ∷ bad_limit ∷ [];
}
stale_limit none n c = record {
  duration = n;
  complaints = unrecognized c ∷ (if n == 0 then zero_duration ∷ [] else []);
}
stale_limit garbage n c = record { duration = 0; complaints = unrecognized c ∷ bad_limit ∷ [] }

module _ (c : ℕ) (s : Text) (ends : Ends (c ∷ s)) (no_h : (c == b'h') ≡ false)
    (no_m : (c == b'm') ≡ false) (no_s : (c == b's') ≡ false) where
  parse_value-other :
      (u : Units) (ds : Text)
      → AllDigits ds
      → spelled 0 ds ≤ int_max
      → parse_value u (ds ++ c ∷ s)
        ≡ record { value = spelled 0 ds; units = u; rest = c ∷ s; complaints = unrecognized c ∷ [] }
  unfolding parse_value set_units
  parse_value-other u ds all fits =
      rw (strtol-append ds (c ∷ s) all ends fits, no_h, no_m, no_s) (ground arith)

  -- `parse_timeout` of stf_timeout on digits, none or more, and a character that is no digit, no
  -- blank, no sign and no unit, with any text behind it: if 3600 times the number is at most
  -- INT_MAX, the result depends on what the variable for the units held before, as the function
  -- `stale_limit` of that value, the number and the character says.
  pub parse_timeout-stale :
      (stale : Units) (ds : Text)
      → AllDigits ds
      → 3600 * spelled 0 ds ≤ int_max
      → parse_timeout stale (ds ++ c ∷ s) ≡ stale_limit stale (spelled 0 ds) c
  unfolding advance finish_limit
  parse_timeout-stale hours ds all fits =
      rw
        (
          parse_timeout_step hours (ds ++ c ∷ s),
          parse_value-other hours ds all (omega arith),
          parse_value-other hours [] tt (omega arith),
        )
        (ground arith)
  parse_timeout-stale minutes ds all fits =
      rw
        (
          parse_timeout_step minutes (ds ++ c ∷ s),
          parse_value-other minutes ds all (omega arith),
          parse_value-other minutes [] tt (omega arith),
        )
        (ground arith)
  parse_timeout-stale seconds ds all fits =
      rw
        (
          parse_timeout_step seconds (ds ++ c ∷ s),
          parse_value-other seconds ds all (omega arith),
          parse_value-other seconds [] tt (omega arith),
        )
        (ground arith)
  parse_timeout-stale none ds all fits =
      rw (parse_timeout_step none (ds ++ c ∷ s), parse_value-other none ds all (omega arith))
        (ground arith)
  parse_timeout-stale garbage ds all fits =
      rw (parse_timeout_step garbage (ds ++ c ∷ s), parse_value-other garbage ds all (omega arith))
        (ground arith)
