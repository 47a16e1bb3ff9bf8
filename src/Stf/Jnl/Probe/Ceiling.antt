-- ===== src/Stf/Jnl/Probe/Ceiling.antt =====
-- The search ends at the first entry that the key does not exceed.
use zfstest.Prelude.{
  ℕ, zero, suc, ◌+◌, ◌-◌, ◌/◌, ◌≤◌, ◌<◌, ◌≡◌, ◌≢◌, refl, true, false, ◌==◌, ltb, if◌then◌else◌,
  some, arith, ◌⊎◌, inl, inr, ◌∙◌, Bool-cases, eq_of_==, ne_of_==, ap, ◌*◌,
}
use zfstest.Stf.Jnl.Probe.{Comparison, less, same, more, is_more, move, probe, fetch}

-- The first entry that the key does not exceed, or the last one of the table.
pub record IsCeiling (highest : ℕ) (against : ℕ → Comparison) (t : ℕ) : Type 0 where
  pub inside : t ≤ highest
  pub below : (k : ℕ) → k < t → against k ≡ more
  pub at : t < highest → against t ≢ more
  pub above : (k : ℕ) → t < k → k ≤ highest → against k ≡ less

abbrev apart : ℕ → ℕ → ℕ
apart i t = (i - t) + (t - i)

pub compare_cases : (a b : ℕ) → (a < b) ⊎ ((b < a) ⊎ (a ≡ b))
compare_cases a b = omega arith

==_cases : (a b : ℕ) → (a ≡ b) ⊎ (a ≢ b)
==_cases a b = elim (Bool-cases (a == b)) [
  | inl e ↦ inl (eq_of_== a b e)
  | inr e ↦ inr (ne_of_== a b e)
]

pub is_more-ne : (c : Comparison) → c ≢ more → is_more c ≡ false
is_more-ne less _ = refl
is_more-ne same _ = refl
is_more-ne more h = absurd (h refl)

Comparison-cases : (c : Comparison) → (c ≡ less) ⊎ ((c ≡ same) ⊎ (c ≡ more))
Comparison-cases less = inl refl
Comparison-cases same = inr (inl refl)
Comparison-cases more = inr (inr refl)

module _ (highest : ℕ) (against : ℕ → Comparison) (t : ℕ)
    (ceiling : IsCeiling highest against t) where
  -- One round, by the comparison with the entry at hand.
  module _ (fuel i distance : ℕ) (positive : 0 < distance) where
    probe-same : against i ≡ same → probe highest against (suc fuel) i distance ≡ some i
    unfolding probe
    probe-same e = rw e refl

    probe-up :
        against i ≡ more
        → i < highest
        → probe highest against (suc fuel) i distance
          ≡ probe highest against fuel
              (move highest false i ((distance + 1) / 2))
              ((distance + 1) / 2)
    unfolding probe
    probe-up e inner = rw e (ground arith)

    probe-top :
        against i ≡ more → i ≡ highest → probe highest against (suc fuel) i distance ≡ some i
    unfolding probe
    probe-top e top = rw e (ground arith)

    probe-bottom : against i ≡ less → i ≡ 0 → probe highest against (suc fuel) i distance ≡ some i
    unfolding probe
    probe-bottom e first = rw e (ground arith)

    probe-passed :
        against i ≡ less
        → 0 < i
        → (distance + 1) / 2 ≡ 1
        → against (i - 1) ≡ more
        → probe highest against (suc fuel) i distance ≡ some i
    unfolding probe
    probe-passed e inner close before = rw (e, close) (ground (arith, before))

    probe-down_near :
        against i ≡ less
        → 0 < i
        → (distance + 1) / 2 ≡ 1
        → is_more (against (i - 1)) ≡ false
        → probe highest against (suc fuel) i distance ≡ probe highest against fuel (i - 1) 1
    unfolding probe
    probe-down_near e inner close before = rw (e, close, not_lt_one, before, not_fixed) refl
      where
        not_lt_one : ltb i 1 ≡ false
        not_lt_one = ground arith

        not_fixed : (i - 1 == i) ≡ false
        not_fixed = ground arith

    probe-down_far :
        against i ≡ less
        → 0 < i
        → (distance + 1) / 2 ≢ 1
        → probe highest against (suc fuel) i distance
          ≡ probe highest against fuel
              (move highest true i ((distance + 1) / 2))
              ((distance + 1) / 2)
    unfolding probe
    probe-down_far e inner far = rw e (ground arith)

  not_more : (i : ℕ) → t ≤ i → i < highest → is_more (against i) ≡ false
  not_more i le inner = elim (compare_cases t i) [
    | inl later ↦ is_more-ne (against i) (λ m. cc (m, ceiling.above i later (omega arith)))
    | inr (inl earlier) ↦ absurd (omega arith)
    | inr (inr e) ↦ is_more-ne (against i) (λ m. ceiling.at (omega arith) (rw e m))
  ]

  -- At the ceiling the loop ends, unless a jump of more than one entry leads below it.
  probe-here :
      (fuel distance : ℕ)
      → 0 < distance
      → (probe highest against (suc fuel) t distance ≡ some t)
        ⊎ ((against t ≡ less) × (0 < t) × ((distance + 1) / 2 ≢ 1))
  probe-here fuel distance positive = elim (Comparison-cases (against t)) [
    | inr (inl e) ↦ inl (probe-same fuel t distance positive e)
    | inr (inr e) ↦ elim (compare_cases t highest) [
      | inl inner ↦ absurd (ceiling.at inner e)
      | inr (inl outer) ↦ absurd (omega (arith, ceiling.inside))
      | inr (inr top) ↦ inl (probe-top fuel t distance positive e top)
    ]
    | inl e ↦ elim (==_cases t 0) [
      | inl first ↦ inl (probe-bottom fuel t distance positive e first)
      | inr later ↦ elim (==_cases ((distance + 1) / 2) 1) [
        | inl close ↦ inl (
            probe-passed fuel t distance positive e (omega arith) close
              (ceiling.below (t - 1) (omega arith)))
        | inr far ↦ inr (e, omega arith, far)
      ]
    ]
  ]

  probe-ceiling :
      (fuel i distance : ℕ)
      → i ≤ highest
      → 0 < distance
      → (if ltb distance 2 then apart i t + 2 else distance + highest + 1) ≤ fuel
      → probe highest against fuel i distance ≡ some t
  probe-ceiling zero i distance _ _ enough = absurd (ground arith)
  probe-ceiling (suc fuel) i distance inside positive enough = elim (compare_cases i t) [
    | inl lower ↦
        probe-up fuel i distance positive (ceiling.below i lower) (omega (arith, ceiling.inside))
        ∙ probe-ceiling fuel (move highest false i ((distance + 1) / 2)) ((distance + 1) / 2)
            (ground arith) (omega arith) (ground (arith, ceiling.inside))
    | inr (inl higher) ↦ elim (==_cases ((distance + 1) / 2) 1) [
      | inl close ↦
          probe-down_near fuel i distance positive (ceiling.above i higher inside) (omega arith)
            close (not_more (i - 1) (omega arith) (omega arith))
          ∙ probe-ceiling fuel (i - 1) 1 (omega arith) (omega arith) (ground arith)
      | inr far ↦
          probe-down_far fuel i distance positive (ceiling.above i higher inside) (omega arith) far
          ∙ probe-ceiling fuel (move highest true i ((distance + 1) / 2)) ((distance + 1) / 2)
              (ground arith) (omega arith) (ground arith)
    ]
    | inr (inr e) ↦ elim (probe-here fuel distance positive) [
      | inl done ↦ ap (λ k. probe highest against (suc fuel) k distance) e ∙ done
      | inr (low, inner, far) ↦
          probe-down_far fuel i distance positive (ap against e ∙ low) (omega arith) far
          ∙ probe-ceiling fuel (move highest true i ((distance + 1) / 2)) ((distance + 1) / 2)
              (ground arith) (omega arith) (ground arith)
    ]
  ]

-- With fuel for a table of this size, the search ends at the ceiling of the key.
pub fetch-ceiling :
    (highest : ℕ) (against : ℕ → Comparison) (t fuel : ℕ)
    → IsCeiling highest against t
    → 0 < highest
    → 2 * highest + 3 ≤ fuel
    → fetch highest against fuel ≡ some t
unfolding fetch
fetch-ceiling highest against t fuel ceiling many enough =
    probe-ceiling highest against t ceiling fuel ((highest + 1) / 2 - 1) ((highest + 1) / 2)
      (omega arith) (omega arith) (ground (arith, ceiling.inside))
