-- ===== src/Stf/Decimal.antt =====
-- Numbers in print, as `%d` writes one that is not negative.
pub mod Laws
use zfstest.Prelude.{ℕ, zero, suc, ◌+◌, ◌/◌, ◌%◌, List, [], ◌∷◌, ◌++◌, ◌==◌, if◌then◌else◌}
use zfstest.Stf.Number.{Text}

-- The digits in front of `out`, with fuel; ten rounds are enough for a word.
unfoldable pub digits : ℕ → ℕ → Text → Text
digits zero n out = out
digits (suc fuel) n out =
    let longer = digits fuel (n / 10) ((b'0' + n % 10) ∷ out) in
    if n / 10 == 0 then (b'0' + n % 10) ∷ out else longer

unfoldable pub decimal : ℕ → Text
unfolding digits
decimal n = digits 10 n []
