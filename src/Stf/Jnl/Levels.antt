-- ===== src/Stf/Jnl/Levels.antt =====
-- The detail levels of libjnl.c and jnl_private.h: jnl_dl_check, jnl_dl_description_fetch,
-- jnl_dl_level_fetch and the choice of the level in _jnl_init_. A level is a signed word; here it
-- is the number that is 2 ^ 31 more, so that INT_MIN is 0 and the order is that of numbers.
pub mod Laws
use zfstest.Prelude.{
  ℕ, ◌+◌, ◌-◌, ◌^◌, ◌/◌, ◌%◌, Bool, true, false, ◌&&◌, List, [], ◌∷◌, ◌==◌, ltb, leb, if◌then◌else◌,
  Option, none, some,
}
use zfstest.Stf.Number.{Text, codes, int_max, int_min, word, is_digit, Parsed, strtol}
use zfstest.Stf.Jnl.Probe.{Comparison, less, same, more, is_same, fetch}
use zfstest.Stf.Jnl.Probe.Scan.{entry}

pub record Description : Type 0 where
  pub level : ℕ
  pub description : Text

abbrev pub bias : ℕ
bias = 2 ^ 31

abbrev pub assertion : Description
assertion = record { level = 0; description = codes "Assertion" }

abbrev pub result : Description
result = record { level = 1; description = codes "Result" }

abbrev pub diagnostic : Description
diagnostic = record { level = 2; description = codes "Diagnostic" }

abbrev pub progress : Description
progress = record { level = bias; description = codes "Progress" }

abbrev pub encyclopedic : Description
encyclopedic = record { level = bias + int_max; description = codes "Encyclopedic" }

abbrev pub stack : Description
stack = record { level = bias + int_max / 2; description = codes "Stack" }

abbrev pub verbose : Description
verbose = record { level = bias + int_max / 2 / 2; description = codes "Verbose" }

-- jnlDL_Level_Descriptions behind its first entry
abbrev pub later_levels : List Description
later_levels = result ∷ diagnostic ∷ progress ∷ verbose ∷ stack ∷ encyclopedic ∷ []

-- jnlDL_Description_Levels behind its first entry
abbrev pub later_descriptions : List Description
later_descriptions = diagnostic ∷ encyclopedic ∷ progress ∷ result ∷ stack ∷ verbose ∷ []

abbrev pub compare_levels : ℕ → ℕ → Comparison
compare_levels a b = if a == b then same else if ltb a b then less else more

abbrev pub lower : ℕ → ℕ
lower c = if leb b'A' c && leb c b'Z' then c + 32 else c

-- The sign of what strcasecmp returns.
unfoldable pub strcasecmp : Text → Text → Comparison
strcasecmp [] [] = same
strcasecmp [] (d ∷ t) = less
strcasecmp (c ∷ s) [] = more
strcasecmp (c ∷ s) (d ∷ t) =
    if lower c == lower d then strcasecmp s t else if ltb (lower c) (lower d) then less else more

-- The searches return an index of their table.
unfoldable pub description_fetch : ℕ → ℕ → Option ℕ
description_fetch fuel level =
    fetch 6 (λ k. compare_levels level (entry assertion (assertion ∷ later_levels) k).level) fuel

unfoldable pub level_fetch : ℕ → Text → Option ℕ
level_fetch fuel text =
    fetch 6 (λ k. strcasecmp text (entry assertion (assertion ∷ later_descriptions) k).description)
      fuel

abbrev pub dl_check : ℕ → ℕ → Bool
dl_check current level = leb level current

-- `_jnlDL_` behind the loading of the library: what TJNL_DETAIL says, or PROGRESS. `atoi` is strtol
-- here, and its failure ends the program (`none`).
unfoldable pub keyword_level : Text → Option ℕ → Option ℕ
keyword_level text none = none
keyword_level text (some k) =
    let found = entry assertion (assertion ∷ later_descriptions) k in
    some (if is_same (strcasecmp found.description text) then found.level else progress.level)

unfoldable pub init_level : ℕ → Option Text → Option ℕ
unfolding keyword_level
init_level fuel none = some progress.level
init_level fuel (some []) = keyword_level [] (level_fetch fuel [])
init_level fuel (some (c ∷ text)) =
    if is_digit c
    then (let p = strtol (c ∷ text) in
        if p.out_of_range then none else some ((p.value + bias) % word))
    else keyword_level (c ∷ text) (level_fetch fuel (c ∷ text))
