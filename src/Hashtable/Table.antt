-- ===== src/Hashtable/Table.antt =====
-- The table as a whole: the entries of each slot, the free entries, and that no two share one.
pub mod Change
pub mod Locate
pub mod Insert
pub mod Grow
pub mod Freed
pub mod Shrunk
pub mod Delete
pub mod Create
use zfstest.Prelude.{
  ℕ, ◌+◌, ◌<◌, ◌≤◌, ◌≡◌, ◌≢◌, refl, true, false, List, [], ◌∷◌, has, length, ap₂, arith, ==_refl,
}
use zfstest.Hashtable.Lock.{unlocked}
use zfstest.Hashtable.Data.{Ptr, null, Key, Slab, Head, World}
use zfstest.Hashtable.Stats.Bumps.{IsIdle}
use zfstest.Hashtable.Steady.{Steady}
use zfstest.Hashtable.Chain.{Heap, IsChain}
use zfstest.Hashtable.Chain.Contents.{Pairs, contents, IsChain-frame}

-- The first entry of the table, the number of its slots, and the slot of a key.
abbrev pub slots : World → Ptr
slots w = (w.slabs w.ht.table).entry

abbrev pub size : World → ℕ
size w = (w.slabs w.ht.table).entrycount

abbrev pub index : Key → World → ℕ
index key w = w.ht.hash_compute key w.ht.keysize (size w)

-- The slot `b` with its entries: it is empty and nothing hangs from it, or it starts a chain.
abbrev pub IsBucket : Heap → Ptr → List Ptr → Type 0
IsBucket es b [] = ((es b).occupied ≡ false) × ((es b).rwlock ≡ unlocked) × ((es b).next ≡ null)
IsBucket es b (p ∷ ps) = IsChain es b (p ∷ ps)

-- From `p` the free entries, with their locks free.
abbrev pub IsFree : Heap → Ptr → List Ptr → Type 0
IsFree es p [] = p ≡ null
IsFree es p (q ∷ ps) =
    (p ≡ q)
    × (q ≢ null)
    × (has q ps ≡ false)
    × ((es q).rwlock ≡ unlocked)
    × IsFree es (es q).next ps

-- Which entries each slot has, which are free, and the slot that an entry belongs to.
pub record Layout : Type 0 where
  pub chain : ℕ → List Ptr
  pub free : List Ptr
  pub owner : Ptr → ℕ

-- No lock is held, every slot has the entries that the layout says, and every entry belongs to one
-- slot or is free. Free entries belong to the slot behind the last.
pub record IsTable (w : World) (t : Layout) : Type 0 where
  pub idle : IsIdle w
  pub base : slots w ≢ null
  pub spread : (key : Key) → index key w < size w
  pub buckets : (i : ℕ) → i < size w → IsBucket w.entries (slots w + i) (t.chain i)
  pub owned :
      (i : ℕ) (a : Ptr) → i < size w → has a ((slots w + i) ∷ t.chain i) ≡ true → t.owner a ≡ i
  pub free : IsFree w.entries w.ht.freechain t.free
  pub unowned : (a : Ptr) → has a t.free ≡ true → t.owner a ≡ size w

-- The pairs of a slot.
abbrev pub view : World → Layout → ℕ → Pairs
view w t i = contents w.entries (t.chain i)

pub IsBucket-frame :
    (es fs : Heap) (b : Ptr) (ps : List Ptr)
    → IsBucket es b ps
    → ((a : Ptr) → has a (b ∷ ps) ≡ true → fs a ≡ es a)
    → IsBucket fs b ps
IsBucket-frame es fs b [] c same = let e = same b (rw (==_refl b)) in rw e c
IsBucket-frame es fs b (p ∷ ps) c same =
    IsChain-frame es fs b (p ∷ ps) c (λ a h. same a (ground arith))

pub IsFree-frame :
    (es fs : Heap) (p : Ptr) (ps : List Ptr)
    → IsFree es p ps
    → ((a : Ptr) → has a ps ≡ true → fs a ≡ es a)
    → IsFree fs p ps
IsFree-frame es fs p [] c same = c
IsFree-frame es fs p (q ∷ ps) (at, ne, out, free, rest) same =
    let e = same q (rw (==_refl q)) in
    (
      at,
      ne,
      out,
      rw e free,
      rw e (IsFree-frame es fs (es q).next ps rest (λ a h. same a (ground arith))),
    )

module _ {w v : World} (s : Steady w v) where
  pub slots-Steady : slots v ≡ slots w
  slots-Steady = ap₂ (λ (slabs : Ptr → Slab) (h : Head). (slabs h.table).entry) s.slabs s.head

  pub size-Steady : size v ≡ size w
  size-Steady = ap₂ (λ (slabs : Ptr → Slab) (h : Head). (slabs h.table).entrycount) s.slabs s.head

  pub index-Steady : (key : Key) → index key v ≡ index key w
  index-Steady key =
      ap₂
        (λ (slabs : Ptr → Slab) (h : Head). h.hash_compute key h.keysize (slabs h.table).entrycount)
        s.slabs s.head
