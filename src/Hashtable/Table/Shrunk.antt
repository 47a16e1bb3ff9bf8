-- ===== src/Hashtable/Table/Shrunk.antt =====
-- Fewer entries in one slot, and more free ones.
use zfstest.Prelude.{
  ℕ, ◌<◌, ◌≡◌, ◌≢◌, true, false, List, [], ◌∷◌, has, arith, ◌==◌, if◌then◌else◌, Bool-cases, inl,
  inr, ==_of_ne, ==_refl, sym, subst,
}
use zfstest.Hashtable.Data.{Ptr, Key, World}
use zfstest.Hashtable.Locate.{home}
use zfstest.Hashtable.Delete.Contents.{drop_match}
use zfstest.Hashtable.Delete.Laws.{Deletes}
use zfstest.Hashtable.Table.{Layout, IsTable, IsBucket, IsFree, size, index}
use zfstest.Hashtable.Table.Change.{IsChange}

-- The slot `n` keeps the entries `qs`, and `fs` are free.
abbrev pub without : World → ℕ → List Ptr → List Ptr → Layout → Layout
without w n qs fs t = record {
  chain = λ j. if j == n then qs else t.chain j;
  free = fs;
  owner = λ a. if has a fs then size w else t.owner a;
}

pub without-here :
    (w : World) (n : ℕ) (qs fs : List Ptr) (t : Layout) → (without w n qs fs t).chain n ≡ qs
without-here w n qs fs t = rw (==_refl n)

module _ (key : Key) (w v : World) (t : Layout) (i : IsTable w t) (ps qs fs : List Ptr) where
  abbrev n : ℕ
  n = index key w

  abbrev b : Ptr
  b = home key w

  -- Fewer entries are on the chain, and at least as many are free.
  pub deleted-IsChange :
      t.chain n ≡ b ∷ ps
      → Deletes w v key b ps qs
      → IsFree v.entries v.ht.freechain fs
      → ((a : Ptr) → has a (b ∷ ps) ≡ false → has a t.free ≡ false → has a fs ≡ false)
      → ((a : Ptr) → has a (b ∷ qs) ≡ true → has a t.free ≡ false → has a fs ≡ false)
      → ((a : Ptr) → has a (b ∷ qs) ≡ true → has a (b ∷ ps) ≡ true)
      → IsChange w v t (without w n (b ∷ qs) fs t) n
  deleted-IsChange occupied d free off kept fewer =
      let below = i.spread key in
      let mine : (a : Ptr) → has a (b ∷ ps) ≡ true → t.owner a ≡ n = λ a h.
        i.owned n a below (subst (λ l. has a (b ∷ l) ≡ true) (sym occupied) (ground arith)) in
      let out : (a : Ptr) → t.owner a ≢ n → has a (b ∷ ps) ≡ false = λ a other.
        elim (Bool-cases (has a (b ∷ ps))) [
          | inl on ↦ absurd (other (mine a on))
          | inr away ↦ away
        ] in
      let loose : (a : Ptr) → t.owner a < size w → has a t.free ≡ false = λ a h.
        elim (Bool-cases (has a t.free)) [
          | inl on ↦ let e = i.unowned a on in absurd (omega arith)
          | inr away ↦ away
        ] in
      let u = without w n (b ∷ qs) fs t in
      record {
        steady = d.steady;
        bucket = subst (IsBucket v.entries b) (sym (without-here w n (b ∷ qs) fs t)) d.chain;
        chains = λ j apart. rw (==_of_ne j n apart);
        entries = λ a h other.
            subst (λ c. (if c then w.entries a else v.entries a) ≡ w.entries a) (out a other)
              (d.others a);
        owners = λ a h other. rw (off a (out a other) (loose a h));
        owned = λ a o.
            let on : has a (b ∷ qs) ≡ true =
              (let x = subst (λ l. has a (b ∷ l) ≡ true) (without-here w n (b ∷ qs) fs t) o in
                ground arith) in
            let e = mine a (fewer a on) in rw (kept a on (loose a (omega arith))) e;
        free = free;
        unowned = λ a h. rw h;
      }

pub has-drop_match :
    (w : World) (key : Key) (a : Ptr) (ps : List Ptr)
    → has a (drop_match w key ps) ≡ true
    → has a ps ≡ true
has-drop_match w key a [] h = h
has-drop_match w key a (d ∷ ps) h = ground (arith, has-drop_match w key a ps)
