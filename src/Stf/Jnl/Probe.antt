-- ===== src/Stf/Jnl/Probe.antt =====
-- The search of jnl_dl_description_fetch and jnl_dl_level_fetch: the loop that both have, on
-- a sorted table that is seen through comparisons with the key.
pub mod Ceiling
pub mod Scan
use zfstest.Prelude.{
  ℕ, zero, suc, ◌+◌, ◌-◌, ◌/◌, Bool, true, false, ◌&&◌, ◌==◌, ltb, if◌then◌else◌, Option, none,
  some,
}

-- The key is less than the entry, the same, or more.
pub data Comparison : Type 0 where
  less same more : Comparison

abbrev pub is_less : Comparison → Bool
is_less less = true
is_less _ = false

abbrev pub is_same : Comparison → Bool
is_same same = true
is_same _ = false

abbrev pub is_more : Comparison → Bool
is_more more = true
is_more _ = false

-- One move by `distance`, kept within the table.
abbrev pub move : ℕ → Bool → ℕ → ℕ → ℕ
move highest down i distance =
    if down
    then (if ltb i distance then 0 else i - distance)
    else if ltb highest (i + distance)
    then highest
    else i + distance

module _ (highest : ℕ) (against : ℕ → Comparison) where
  unfoldable pub probe : ℕ → ℕ → ℕ → Option ℕ
  probe zero i distance = none
  probe (suc fuel) i distance =
      let halved = (distance + 1) / 2 in
      let j = move highest (is_less (against i)) i halved in
      let rest = probe fuel j halved in
      if is_same (against i)
      then some i
      else if j == i
      then some j
      else if (halved == 1) && (is_more (against j) && is_less (against i))
      then some i
      else rest

  -- The start: the entry in the middle.
  unfoldable pub fetch : ℕ → Option ℕ
  unfolding probe
  fetch fuel = probe fuel ((highest + 1) / 2 - 1) ((highest + 1) / 2)
