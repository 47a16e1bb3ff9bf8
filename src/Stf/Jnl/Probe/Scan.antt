-- ===== src/Stf/Jnl/Probe/Scan.antt =====
-- The ceiling of a key in a list that ascends, found by a scan from the front.
use zfstest.Prelude.{
  ℕ, zero, suc, ◌≤◌, ◌<◌, ◌≡◌, ◌≢◌, true, if◌then◌else◌, List, [], ◌∷◌, length, arith, Bool-cases,
  inl, inr, if_true, if_false, sym, ap, subst,
}
use zfstest.Stf.Jnl.Probe.{Comparison, less, more, is_more}
use zfstest.Stf.Jnl.Probe.Ceiling.{IsCeiling}

more_of : (c : Comparison) → is_more c ≡ true → c ≡ more
more_of c e = ground arith

module _ (h : ℕ) (f : ℕ → Comparison) where
  module _ (t : ℕ) (c : IsCeiling h (λ k. f (suc k)) t) (first : f 0 ≡ more) where
    below-suc : (k : ℕ) → k < suc t → f k ≡ more
    below-suc zero _ = first
    below-suc (suc k) lt = c.below k (omega arith)

    above-suc : (k : ℕ) → suc t < k → k ≤ suc h → f k ≡ less
    above-suc zero lt _ = absurd (omega arith)
    above-suc (suc k) lt le = c.above k (omega arith) (omega arith)

    suc-IsCeiling : IsCeiling (suc h) f (suc t)
    suc-IsCeiling = record {
      inside = omega (arith, c.inside);
      below = below-suc;
      at = λ lt. c.at (omega arith);
      above = above-suc;
    }

  zero-IsCeiling : f 0 ≢ more → ((k : ℕ) → 0 < k → k ≤ h → f k ≡ less) → IsCeiling h f 0
  zero-IsCeiling first later = record {
    inside = omega arith;
    below = λ k lt. absurd (omega arith);
    at = λ _. first;
    above = later;
  }

module _ {A : Type 0} where
  abbrev pub entry : A → List A → ℕ → A
  entry x [] k = x
  entry x (y ∷ ys) zero = y
  entry x (y ∷ ys) (suc k) = entry x ys k

  abbrev pub All : (A → Type 0) → List A → Type 0
  All P [] = Unit
  All P (x ∷ xs) = P x × All P xs

  -- Each element stands in the relation to all behind it.
  abbrev pub Ascends : (A → A → Type 0) → List A → Type 0
  Ascends R [] = Unit
  Ascends R (x ∷ xs) = All (R x) xs × Ascends R xs

  module _ (key : A → Comparison) where
    -- The index of the first element that the key does not exceed, or of the last one.
    abbrev pub scan : List A → ℕ
    scan [] = 0
    scan (x ∷ []) = 0
    scan (x ∷ y ∷ ys) = if is_more (key x) then suc (scan (y ∷ ys)) else 0

    module _ (R : A → A → Type 0) (ascending : (x y : A) → R x y → key x ≢ more → key y ≡ less)
        (d : A) where
      entry-less :
          (x : A) (ys : List A) (k : ℕ)
          → key x ≢ more
          → All (R x) ys
          → k < length ys
          → key (entry d ys k) ≡ less
      entry-less x [] k _ _ h = absurd (omega arith)
      entry-less x (y ∷ ys) zero h (r, _) _ = ascending x y r h
      entry-less x (y ∷ ys) (suc k) h (_, rs) lt = entry-less x ys k h rs (omega arith)

      later-less :
          (x : A) (ys : List A)
          → key x ≢ more
          → All (R x) ys
          → (k : ℕ) → 0 < k
          → k ≤ length ys
          → key (entry d (x ∷ ys) k) ≡ less
      later-less x ys h rs zero lt _ = absurd (omega arith)
      later-less x ys h rs (suc k) _ le = entry-less x ys k h rs (omega arith)

      pub scan-IsCeiling :
          (x : A) (xs : List A)
          → Ascends R (x ∷ xs)
          → IsCeiling (length xs) (λ k. key (entry d (x ∷ xs) k)) (scan (x ∷ xs))
      scan-IsCeiling x [] _ = record {
        inside = omega arith;
        below = λ k h. absurd (omega arith);
        at = λ h. absurd (omega arith);
        above = λ k h h'. absurd (omega arith);
      }
      scan-IsCeiling x (y ∷ ys) (rs, rest) = elim (Bool-cases (is_more (key x))) [
        | inl higher ↦
            subst (IsCeiling (suc (length ys)) (λ k. key (entry d (x ∷ y ∷ ys) k)))
              (sym (if_true (is_more (key x)) _ _ higher))
              (suc-IsCeiling (length ys) (λ k. key (entry d (x ∷ y ∷ ys) k)) (scan (y ∷ ys))
                (scan-IsCeiling y ys rest) (more_of (key x) higher))
        | inr here ↦
            subst (IsCeiling (suc (length ys)) (λ k. key (entry d (x ∷ y ∷ ys) k)))
              (sym (if_false (is_more (key x)) _ _ here))
              (zero-IsCeiling (suc (length ys)) (λ k. key (entry d (x ∷ y ∷ ys) k))
                (λ m. cc (here, ap is_more m))
                (later-less x (y ∷ ys) (λ m. cc (here, ap is_more m)) rs))
      ]
