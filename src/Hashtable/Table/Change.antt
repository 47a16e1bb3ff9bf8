-- ===== src/Hashtable/Table/Change.antt =====
-- A change of the entries of one slot.
use zfstest.Prelude.{
  ℕ, ◌+◌, ◌<◌, ◌≡◌, ◌≢◌, true, ◌∷◌, has, arith, ◌==◌, Bool-cases, inl, inr, eq_of_==, ne_of_==, sym,
  subst, ap, ◌∙◌,
}
use zfstest.Hashtable.Data.{Ptr, World}
use zfstest.Hashtable.Chain.Contents.{contents, contents_congr}
use zfstest.Hashtable.Steady.{Steady}
use zfstest.Hashtable.Table.{
  Layout, IsTable, IsBucket, IsFree, IsBucket-frame, slots, size, view, slots-Steady, size-Steady,
  index-Steady,
}

-- From `w` with the layout `t` to `v` with the layout `u` only the slot `n` and free entries change.
pub record IsChange (w v : World) (t u : Layout) (n : ℕ) : Type 0 where
  pub steady : Steady w v
  pub bucket : IsBucket v.entries (slots w + n) (u.chain n)
  pub chains : (j : ℕ) → j ≢ n → u.chain j ≡ t.chain j
  pub entries : (a : Ptr) → t.owner a < size w → t.owner a ≢ n → v.entries a ≡ w.entries a
  pub owners : (a : Ptr) → t.owner a < size w → t.owner a ≢ n → u.owner a ≡ t.owner a
  pub owned : (a : Ptr) → has a ((slots w + n) ∷ u.chain n) ≡ true → u.owner a ≡ n
  pub free : IsFree v.entries v.ht.freechain u.free
  pub unowned : (a : Ptr) → has a u.free ≡ true → u.owner a ≡ size w

module _ {w v : World} {t u : Layout} {n : ℕ} (i : IsTable w t) (c : IsChange w v t u n) where
  IsBucket-kept : (j : ℕ) → j < size w → IsBucket v.entries (slots w + j) (u.chain j)
  IsBucket-kept j h = elim (Bool-cases (j == n)) [
    | inl here ↦
        subst (λ k. IsBucket v.entries (slots w + k) (u.chain k)) (sym (eq_of_== j n here)) c.bucket
    | inr other ↦
        let apart = ne_of_== j n other in
        subst (IsBucket v.entries (slots w + j)) (sym (c.chains j apart)) (
          IsBucket-frame w.entries v.entries (slots w + j) (t.chain j) (i.buckets j h)
            (λ a o. let e = i.owned j a h o in c.entries a (omega arith) (omega arith)))
  ]

  owned_kept :
      (j : ℕ) (a : Ptr) → j < size w → has a ((slots w + j) ∷ u.chain j) ≡ true → u.owner a ≡ j
  owned_kept j a h o = elim (Bool-cases (j == n)) [
    | inl here ↦
        let e = eq_of_== j n here in
        c.owned a (subst (λ k. has a ((slots w + k) ∷ u.chain k) ≡ true) e o) ∙ sym e
    | inr other ↦
        let apart = ne_of_== j n other in
        let e =
          i.owned j a h (subst (λ ps. has a ((slots w + j) ∷ ps) ≡ true) (c.chains j apart) o) in
        c.owners a (omega arith) (omega arith) ∙ e
  ]

  pub change-IsTable : IsTable v u
  change-IsTable =
      let at = slots-Steady c.steady in
      let count = size-Steady c.steady in
      record {
        idle = c.steady.idle;
        base = rw at i.base;
        spread = λ key. rw (index-Steady c.steady key, count) (i.spread key);
        buckets = λ j h. rw at (IsBucket-kept j (rw (sym count) h));
        owned = λ j a h o. owned_kept j a (rw (sym count) h) (rw (sym at) o);
        free = c.free;
        unowned = λ a h. rw count (c.unowned a h);
      }

  pub change-view : (j : ℕ) → j < size w → j ≢ n → view v u j ≡ view w t j
  change-view j h apart =
      ap (contents v.entries) (c.chains j apart)
      ∙ contents_congr w.entries v.entries (t.chain j) (λ a o.
        let e = i.owned j a h (ground arith) in
        let same = c.entries a (omega arith) (omega arith) in
        (ap (λ x. x.key) same, ap (λ x. x.datum) same))
