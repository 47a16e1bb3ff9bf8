-- ===== src/Stf/Number/Digits.antt =====
-- What `strtol` returns on digits.
use mathlib.Core.List.{foldl}
use zfstest.Prelude.{
  ℕ, ◌+◌, ◌-◌, ◌*◌, ◌≤◌, ◌≡◌, refl, true, false, [], ◌∷◌, ◌++◌, arith, false, ◌==◌,
}
use zfstest.Stf.Number.{Text, int_max, is_digit, is_space, scan, convert, signed, skip, strtol}

-- The number that digits spell behind `n`.
abbrev pub spelled : ℕ → Text → ℕ
spelled = foldl (λ n c. n * 10 + (c - b'0'))

abbrev pub AllDigits : Text → Type 0
AllDigits [] = Unit
AllDigits (c ∷ s) = (is_digit c ≡ true) × AllDigits s

-- The text does not go on with a digit, a blank or a sign.
abbrev pub Ends : Text → Type 0
Ends [] = Unit
Ends (c ∷ s) =
    (is_digit c ≡ false) × (is_space c ≡ false) × ((c == b'-') ≡ false) × ((c == b'+') ≡ false)

scan-append : (ds s : Text) (n : ℕ) → AllDigits ds → Ends s → scan (ds ++ s) n ≡ (spelled n ds, s)
unfolding scan
scan-append [] [] n _ _ = refl
scan-append [] (c ∷ s) n _ e = rw e.0 refl
scan-append (d ∷ ds) s n h e = rw h.0 (scan-append ds s (n * 10 + (d - b'0')) h.1 e)

le-spelled : (ds : Text) (n : ℕ) → n ≤ spelled n ds
le-spelled [] n = omega arith
le-spelled (d ∷ ds) n = omega (arith, le-spelled ds (n * 10 + (d - b'0')))

digit_plain :
    (c : ℕ)
    → is_digit c ≡ true
    → (is_space c ≡ false) × ((c == b'-') ≡ false) × ((c == b'+') ≡ false)
digit_plain c h = ground arith

-- Digits that spell a number in range are read to their end, whatever follows.
pub strtol-append :
    (ds s : Text)
    → AllDigits ds
    → Ends s
    → spelled 0 ds ≤ int_max
    → strtol (ds ++ s) ≡ record { value = spelled 0 ds; rest = s; out_of_range = false }
unfolding strtol signed skip convert
strtol-append [] [] _ _ _ = refl
strtol-append [] (c ∷ s) _ e _ = ground arith
strtol-append (d ∷ ds) s h e fits =
    let (no_space, no_minus, no_plus) = digit_plain d h.0 in
    ground (arith, scan-append (d ∷ ds) s 0 h e)
