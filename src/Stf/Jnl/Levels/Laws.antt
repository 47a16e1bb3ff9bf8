-- ===== src/Stf/Jnl/Levels/Laws.antt =====
-- What the two searches find.
use zfstest.Prelude.{ℕ, ◌≤◌, ◌<◌, ◌≡◌, ◌≢◌, refl, [], ◌∷◌, some, arith}
use zfstest.Stf.Number.{Text}
use zfstest.Stf.Jnl.Probe.{less, more}
use zfstest.Stf.Jnl.Probe.Ceiling.{IsCeiling, fetch-ceiling}
use zfstest.Stf.Jnl.Probe.Scan.{entry, Ascends, scan, scan-IsCeiling}
use zfstest.Stf.Jnl.Levels.{
  assertion, later_levels, later_descriptions, compare_levels, strcasecmp, description_fetch,
  level_fetch,
}

compare_levels-less :
    (key a b : ℕ) → a < b → compare_levels key a ≢ more → compare_levels key b ≡ less
compare_levels-less key a b lt h = ground arith

strcasecmp-less :
    (key a b : Text) → strcasecmp a b ≡ less → strcasecmp key a ≢ more → strcasecmp key b ≡ less
unfolding strcasecmp
strcasecmp-less key [] [] e _ = absurd (cc)
strcasecmp-less [] [] (b ∷ bs) _ _ = refl
strcasecmp-less (k ∷ ks) [] (b ∷ bs) _ h = absurd (h refl)
strcasecmp-less key (a ∷ as') [] e _ = absurd (cc)
strcasecmp-less [] (a ∷ as') (b ∷ bs) _ _ = refl
strcasecmp-less (k ∷ ks) (a ∷ as') (b ∷ bs) e h = ground (arith, strcasecmp-less ks as' bs)

-- `jnl_dl_description_fetch`, a binary search, equals a scan from the front for the first level of
-- its table that is not below the one asked for, or the last, if the fuel is 15 or more: the search
-- ends for every level.
pub description_fetch-scan :
    (level fuel : ℕ)
    → 15 ≤ fuel
    → description_fetch fuel level
      ≡ some (scan (λ d. compare_levels level d.level) (assertion ∷ later_levels))
unfolding description_fetch
description_fetch-scan level fuel enough =
    fetch-ceiling 6 (λ k. compare_levels level (entry assertion (assertion ∷ later_levels) k).level)
      _ fuel
      (scan-IsCeiling (λ d. compare_levels level d.level) (λ d e. d.level < e.level)
        (λ d e. compare_levels-less level d.level e.level) assertion assertion later_levels
        (omega arith))
      (omega arith) enough

-- Each description is less than those behind it.
later_descriptions-Ascends :
    Ascends (λ d e. strcasecmp d.description e.description ≡ less) (assertion ∷ later_descriptions)
unfolding strcasecmp
later_descriptions-Ascends = (
  (refl, (refl, (refl, (refl, (refl, (refl, tt)))))),
  (
    (refl, (refl, (refl, (refl, (refl, tt))))),
    (
      (refl, (refl, (refl, (refl, tt)))),
      ((refl, (refl, (refl, tt))), ((refl, (refl, tt)), ((refl, tt), (tt, tt)))),
    ),
  ),
)

descriptions-IsCeiling :
    (text : Text)
    → IsCeiling 6
        (λ k. strcasecmp text (entry assertion (assertion ∷ later_descriptions) k).description)
        (scan (λ d. strcasecmp text d.description) (assertion ∷ later_descriptions))
descriptions-IsCeiling text =
    scan-IsCeiling (λ d. strcasecmp text d.description)
      (λ d e. strcasecmp d.description e.description ≡ less)
      (λ d e. strcasecmp-less text d.description e.description) assertion assertion
      later_descriptions later_descriptions-Ascends

-- The search by description is a scan as well.
pub level_fetch-scan :
    (text : Text) (fuel : ℕ)
    → 15 ≤ fuel
    → level_fetch fuel text
      ≡ some (scan (λ d. strcasecmp text d.description) (assertion ∷ later_descriptions))
unfolding level_fetch
level_fetch-scan text fuel enough =
    fetch-ceiling 6
      (λ k. strcasecmp text (entry assertion (assertion ∷ later_descriptions) k).description) _ fuel
      (descriptions-IsCeiling text) (omega arith) enough
