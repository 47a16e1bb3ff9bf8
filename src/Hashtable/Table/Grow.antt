-- ===== src/Hashtable/Table/Grow.antt =====
-- A whole table that gets one more slab of free entries.
pub mod Insert
use zfstest.Prelude.{
  ℕ, zero, suc, ◌+◌, ◌<◌, ◌≤◌, ◌≡◌, refl, ◌≢◌, Bool, true, false, ◌&&◌, ◌||◌, List, [], ◌∷◌, has,
  arith, ◌==◌, leb, ltb, if◌then◌else◌, ==_refl, ==_of_ne, ap, ◌∙◌, subst, sym, length,
}
use zfstest.Hashtable.Lock.{unlocked}
use zfstest.Hashtable.Data.{Ptr, null, Key, Slab, World}
use zfstest.Hashtable.Insert.Grow.{first, strung, grown, HasSlab}
use zfstest.Hashtable.Insert.Grown.{grown-IsIdle}
use zfstest.Hashtable.Chain.{Heap}
use zfstest.Hashtable.Chain.Contents.{contents_congr}
use zfstest.Hashtable.Table.{
  Layout, IsTable, IsBucket, IsFree, IsBucket-frame, slots, size, index, view,
}

-- The `n` addresses from `p` on.
abbrev pub range : Ptr → ℕ → List Ptr
range p zero = []
range p (suc n) = p ∷ range (p + 1) n

has-range : (a p : Ptr) (n : ℕ) → has a (range p n) ≡ (leb p a && ltb a (p + n))
has-range a p zero = ground arith
has-range a p (suc n) = ground (arith, has-range a (p + 1) n)

next-first : (p n : ℕ) → (if p + 1 == p + suc n then null else p + 1) ≡ first (p + 1) n null
next-first p zero = ground arith
next-first p (suc n) = ground arith

-- Entries that point each to the next one are a free chain.
strung-IsFree :
    (es : Heap) (p : Ptr) (n : ℕ)
    → p ≢ null
    → ((a : Ptr) → has a (range p n) ≡ true → (es a).rwlock ≡ unlocked)
    → ((a : Ptr)
        → has a (range p n) ≡ true
        → (es a).next ≡ (if a + 1 == p + n then null else a + 1))
    → IsFree es (first p n null) (range p n)
strung-IsFree es p zero ne loose next = refl
strung-IsFree es p (suc n) ne loose next =
    let out : has p (range (p + 1) n) ≡ false = has-range p (p + 1) n ∙ ground arith in
    let here : has p (range p (suc n)) ≡ true = ground (arith, ==_refl p) in
    let rest =
      strung-IsFree es (p + 1) n (omega arith) (λ a h. loose a (ground arith))
        (λ a h.
          let same : p + suc n ≡ p + 1 + n = omega arith in
          subst (λ m. (es a).next ≡ (if a + 1 == m then null else a + 1)) same
            (next a (ground arith))) in
    let at : (es p).next ≡ first (p + 1) n null = next p here ∙ next-first p n in
    (refl, ne, out, loose p here, subst (λ q. IsFree es q (range (p + 1) n)) (sym at) rest)

-- Where memory ends: the table and all entries of its slots lie below the break.
pub record IsPlaced (w : World) (t : Layout) : Type 0 where
  pub table : w.ht.table < w.brk
  pub entries : (a : Ptr) → t.owner a < size w → a < w.brk

-- The layout with the new entries, which are free.
abbrev pub stretched : World → Layout → Layout
stretched w t = record t {
  free = range (w.brk + 1) (size w);
  owner = λ a. if has a (range (w.brk + 1) (size w)) then size w else t.owner a;
}

module _ (w : World) (t : Layout) (i : IsTable w t) (p : IsPlaced w t) (h : HasSlab (size w) w)
    (empty : w.ht.freechain ≡ null) where
  abbrev pub x : World
  x = grown (size w) w

  table-grown : x.slabs w.ht.table ≡ w.slabs w.ht.table
  table-grown = let b = p.table in ground arith

  pub slots-grown : slots x ≡ slots w
  slots-grown = ap (λ s. s.entry) table-grown

  pub size-grown : size x ≡ size w
  size-grown = ap (λ s. s.entrycount) table-grown

  entries-grown : (a : Ptr) → a < w.brk → x.entries a ≡ w.entries a
  entries-grown a below = ground arith

  off_range : (a : Ptr) → a < w.brk → has a (range (w.brk + 1) (size w)) ≡ false
  off_range a below = has-range a (w.brk + 1) (size w) ∙ ground arith

  strung_entry :
      (a : Ptr)
      → has a (range (w.brk + 1) (size w)) ≡ true
      → ((x.entries a).rwlock ≡ unlocked)
        × ((x.entries a).next ≡ (if a + 1 == w.brk + 1 + size w then null else a + 1))
  strung_entry a on = let inside = sym (has-range a (w.brk + 1) (size w)) ∙ on in ground arith

  pub grown-IsTable : IsTable x (stretched w t)
  grown-IsTable =
      let below : (j : ℕ) (a : Ptr)
          → j < size w
          → has a ((slots w + j) ∷ t.chain j) ≡ true
          → a < w.brk =
        λ j a less on. let e = i.owned j a less on in p.entries a (omega arith) in
      record {
        idle = grown-IsIdle (size w) null w h i.idle;
        base = rw slots-grown i.base;
        spread = λ key.
            subst (λ m. w.ht.hash_compute key w.ht.keysize m < m) (sym size-grown) (i.spread key);
        buckets = λ j less.
            let less' = subst (λ m. j < m) size-grown less in
            subst (λ s. IsBucket x.entries (s + j) (t.chain j)) (sym slots-grown)
              (IsBucket-frame w.entries x.entries (slots w + j) (t.chain j) (i.buckets j less')
                (λ a on. entries-grown a (below j a less' on)));
        owned = λ j a less on.
            let less' = subst (λ m. j < m) size-grown less in
            let on' = subst (λ s. has a ((s + j) ∷ t.chain j) ≡ true) slots-grown on in
            rw (off_range a (below j a less' on')) (i.owned j a less' on');
        free =
            subst
              (λ f. IsFree x.entries (first (w.brk + 1) (size w) f) (range (w.brk + 1) (size w)))
              (sym empty)
              (strung-IsFree x.entries (w.brk + 1) (size w) (omega arith)
                (λ a on. (strung_entry a on).0) (λ a on. (strung_entry a on).1));
        unowned = λ a on. rw on (sym size-grown);
      }

  pub grown-view : (j : ℕ) → j < size w → view x (stretched w t) j ≡ view w t j
  grown-view j less = contents_congr w.entries x.entries (t.chain j) (λ a on.
      let e = i.owned j a less (ground arith) in
      let same = entries-grown a (p.entries a (omega arith)) in
      (ap (λ e. e.key) same, ap (λ e. e.datum) same))
