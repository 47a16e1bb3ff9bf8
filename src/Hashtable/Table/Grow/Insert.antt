-- ===== src/Hashtable/Table/Grow/Insert.antt =====
-- `ht_insert_key` on a whole table without free entries.
use zfstest.Prelude.{
  ℕ, zero, suc, ◌+◌, ◌-◌, ◌<◌, ◌≤◌, ◌≡◌, refl, ◌≢◌, false, not, ◌&&◌, List, [], ◌∷◌, has, some, pos,
  arith, ==_refl, ap, ap₂, ◌∙◌, subst, sym, length, ℤ, Option,
}
use zfstest.Hashtable.Data.{Ptr, null, Key, World}
use zfstest.Hashtable.Locate.{home}
use zfstest.Hashtable.Insert.{insert_key_with, reject_or_chain}
use zfstest.Hashtable.Insert.Steps.{Resize, begun, attached, searched, searched-IsIdle}
use zfstest.Hashtable.Insert.Laws.{
  NeverFull, Inserts, scanned, insert_at-scan, begun-IsIdle, resize_if_full-never, linked-IsChain,
  linked_pairs, hung-Steady,
}
use zfstest.Hashtable.Insert.Grow.{first, grown, HasSlab}
use zfstest.Hashtable.Insert.Grown.{chain_key-grown}
use zfstest.Hashtable.Chain.{Heap, IsChain}
use zfstest.Hashtable.Chain.Contents.{same_key, occurs, contents}
use zfstest.Hashtable.Table.{Layout, IsTable, IsBucket, IsFree, size, index, view}
use zfstest.Hashtable.Table.Change.{change-IsTable}
use zfstest.Hashtable.Table.Locate.{IsTable-same}
use zfstest.Hashtable.Table.Insert.{
  IsInserted, inserted, with_chain, with_taken, with_chain-here, chained-IsChange, change-inserted,
  off,
}
use zfstest.Hashtable.Table.Grow.{
  IsPlaced, range, stretched, slots-grown, size-grown, grown-IsTable, grown-view,
}

module _ (key : Key) (datum : Ptr) (x : World) (t : Layout) (depth : ℕ) (ps fs : List Ptr) where
  abbrev after : World
  after = attached key datum (home key x) depth x

  -- The first free entry is hung on the chain of the slot.
  hung-IsTable :
      (fuel : ℕ) (resize : Resize)
      → IsTable x t
      → t.free ≡ x.ht.freechain ∷ fs
      → t.chain (index key x) ≡ home key x ∷ ps
      → (u : Layout) × IsTable after u
        × ((k : Key) → view after u (index k after) ≡ inserted key datum x t k)
  hung-IsTable fuel resize i stock occupied =
      let n = index key x in
      let b = home key x in
      let f = x.ht.freechain in
      let below = i.spread key in
      let c = subst (IsBucket x.entries b) occupied (i.buckets n below) in
      let (_, ready, apart, loose, rest) = subst (IsFree x.entries f) stock i.free in
      let unowned = i.unowned f (rw (stock, ==_refl f)) in
      let out = off key datum x x t i f (λ e. absurd (omega arith)) in
      let away = subst (λ l. has f (b ∷ l) ≡ false) occupied out in
      let gone : has f (b ∷ ps) ≡ false = ground arith in
      let ins : Inserts x after key datum b (b ∷ ps) (f ∷ ps) = record {
        chain = linked-IsChain key datum f b ps x ready loose gone c;
        pairs = linked_pairs key datum f b ps x gone c.2;
        others = λ a. ground arith;
        steady = hung-Steady key datum b depth x i.idle;
      } in
      let u = with_chain n (b ∷ f ∷ ps) (with_taken n f fs t) in
      let change =
        chained-IsChange key datum x after t i f fs ps stock occupied ins rest apart refl in
      (
        u,
        change-IsTable i change,
        change-inserted fuel resize key datum x t after u (b ∷ ps) (b ∷ f ∷ ps) i change occupied
            (with_chain-here n (b ∷ f ∷ ps) (with_taken n f fs t)) ins.pairs,
      )

inserted-same :
    (key : Key) (datum : Ptr) (w x : World) (t u : Layout)
    → ((k : Key) → index k x ≡ index k w)
    → ((k : Key) → view x u (index k w) ≡ view w t (index k w))
    → (k : Key) → inserted key datum x u k ≡ inserted key datum w t k
inserted-same key datum w x t u at same k = rw (at k, at key, same k)

IsFree-null : (es : Heap) (p : Ptr) (fs : List Ptr) → IsFree es p fs → p ≡ null → length fs ≡ 0
IsFree-null es p [] c e = refl
IsFree-null es p (q ∷ fs) c e = absurd (c.1 (sym c.0 ∙ e))

range-first : (p n last : ℕ) → n ≢ 0 → range p n ≡ first p n last ∷ range (p + 1) (n - 1)
range-first p zero last ne = absurd (ne refl)
range-first p (suc n) last ne = ap (λ m. p ∷ range (p + 1) m) (omega arith)

module _ (fuel : ℕ) (resize : Resize) (key : Key) (datum : Ptr) (w : World) (t : Layout)
    (ps : List Ptr) (i : IsTable w t) (p : IsPlaced w t) (h : HasSlab (size w) w)
    (empty : w.ht.freechain ≡ null) (occupied : t.chain (index key w) ≡ home key w ∷ ps)
    (enough : length ps < suc fuel)
    (fresh : (not w.ht.dups_allowed
        && occurs (same_key w key) (contents w.entries (home key w ∷ ps)))
      ≡ false)
    (never : NeverFull w) where
  start-IsChain : IsChain w.entries (home key w) (home key w ∷ ps)
  start-IsChain =
      subst (IsBucket w.entries (home key w)) occupied (i.buckets (index key w) (i.spread key))

  abbrev depth : ℕ
  depth = (scanned (suc fuel) resize key datum w i.idle ps start-IsChain enough).1

  abbrev s : World
  s = searched depth (begun w)

  abbrev x : World
  x = grown (size w) s

  insert_key-hung :
      insert_key_with (suc (suc fuel)) resize key datum w
      ≡ some (pos 0, attached key datum (home key w) depth x)
  unfolding reject_or_chain
  insert_key-hung =
      let b = home key w in
      let spread = i.spread key in
      let mine = i.owned (index key w) b spread (rw (==_refl b)) in
      let inside = p.entries b (omega arith) in
      let below : b ≤ w.brk = omega arith in
      let g : HasSlab (size w) (begun w) = record {
        slots = h.slots;
        base = h.base;
        room = h.room;
        fresh = h.fresh;
      } in
      insert_at-scan (suc fuel) resize key datum w i.idle ps start-IsChain enough false fresh
      ∙ chain_key-grown fuel resize key datum b depth (size w) (begun w) (begun-IsIdle w i.idle) g
          refl below start-IsChain.3 empty
      ∙ resize_if_full-never resize (attached key datum b depth x) never

  searched-IsTable : IsTable s t
  searched-IsTable =
      IsTable-same w s t i
        (record {
          idle = searched-IsIdle depth (begun w) (begun-IsIdle w i.idle);
          slabs = refl;
          head = refl;
        })
        refl refl

  searched-IsPlaced : IsPlaced s t
  searched-IsPlaced = record { table = p.table; entries = p.entries }

  searched-HasSlab : HasSlab (size w) s
  searched-HasSlab = record { slots = h.slots; base = h.base; room = h.room; fresh = h.fresh }

  -- `ht_insert_key` into an occupied slot of a well-formed table whose free chain is empty: every
  -- slot is empty or starts a chain, no two slots share an entry and no lock is held; if the
  -- table and its entries lie below the break, there is memory for another slab as large as the
  -- table, its locks and those of the table can be initialised, the chain of the slot is no
  -- longer than the fuel, no key there forbids the new one and the threshold function, if there
  -- is one, always answers 0, then it returns 0, the table is well formed again, the slot has the
  -- same pairs and the new one behind its first, and the pairs of every other slot are as before.
  pub insert_key-IsTable_grown : IsInserted (suc fuel) resize key datum w t
  insert_key-IsTable_grown =
      let tx = stretched s t in
      let ix = grown-IsTable s t searched-IsTable searched-IsPlaced searched-HasSlab empty in
      let count = size-grown s t searched-IsTable searched-IsPlaced searched-HasSlab empty in
      let base = slots-grown s t searched-IsTable searched-IsPlaced searched-HasSlab empty in
      let at : (k : Key) → index k x ≡ index k w =
        λ k. ap (λ m. w.ht.hash_compute k w.ht.keysize m) count in
      let home_at : home key x ≡ home key w = ap₂ (λ a m. a + m) base (at key) in
      let stock = range-first (w.brk + 1) (size w) w.ht.freechain h.slots in
      let there : tx.chain (index key x) ≡ home key x ∷ ps =
        ap t.chain (at key) ∙ occupied ∙ ap (λ b. b ∷ ps) (sym home_at) in
      let (u, table, views) =
        hung-IsTable key datum x tx depth ps (range (w.brk + 1 + 1) (size w - 1)) fuel resize ix
          stock there in
      (
        attached key datum (home key x) depth x,
        u,
        insert_key-hung
            ∙ ap {B = Option (ℤ × World)} (λ b. some (pos 0, attached key datum b depth x))
                (sym home_at),
        table,
        λ k.
            views k
            ∙ inserted-same key datum w x t tx at
                (λ k.
                  grown-view s t searched-IsTable searched-IsPlaced searched-HasSlab empty
                    (index k w) (i.spread k))
                k,
        rw (IsFree-null w.entries w.ht.freechain t.free i.free empty) (omega arith),
      )
