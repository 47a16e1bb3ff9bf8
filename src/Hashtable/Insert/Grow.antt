-- ===== src/Hashtable/Insert/Grow.antt =====
-- The loop of `ht_insert_key` that fills an empty free chain.
use zfstest.Prelude.{
  ℕ, zero, suc, ◌+◌, ◌≤◌, ◌≡◌, refl, ◌≢◌, true, ◌&&◌, arith, ==_of_ne, ==_refl, if◌then◌else◌, ap,
  ap₂, fun_ext, ◌∙◌, ◌==◌, leb, ltb,
}
use zfstest.Hashtable.Lock.{unlocked}
use zfstest.Hashtable.Data.{Ptr, null, Slab, World, write, set_entry}
use zfstest.Hashtable.Stats.{CounterName, AverageName, wrap64}
use zfstest.Hashtable.Stats.Bumps.{bump, merge, counter_add-bump, average_update-merge}
use zfstest.Hashtable.Slab.Laws.{IsFresh, slab_added, create_slab-added}
use zfstest.Hashtable.Insert.{set_freechain, dangle, grow_free}
use zfstest.Hashtable.Chain.{Heap}

-- Each of the `n` entries from `p` on points to the next one, and the last one to `last`.
abbrev pub strung : Ptr → ℕ → Ptr → Heap → Heap
strung p n last es a =
    if leb p a && ltb a (p + n)
    then record (es a) { next = if a + 1 == p + n then last else a + 1 }
    else es a

abbrev pub first : Ptr → ℕ → Ptr → Ptr
first p zero last = last
first p (suc n) last = p

abbrev pub dangled : Ptr → ℕ → World → World
dangled p n w =
    set_freechain (first p n w.ht.freechain)
      (record w { entries = strung p n w.ht.freechain w.entries })

strung-zero : (p last : Ptr) (es : Heap) (a : Ptr) → es a ≡ strung p 0 last es a
strung-zero p last es a = ground arith

strung-suc :
    (p n last : ℕ) (es : Heap) (a : Ptr)
    → strung p n (p + n) (write es (p + n) (record (es (p + n)) { next = last })) a
      ≡ strung p (suc n) last es a
strung-suc p n last es a = ground arith

first-suc : (p n : ℕ) → first p n (p + n) ≡ p
first-suc p zero = omega arith
first-suc p (suc n) = refl

dangle-dangled : (p : Ptr) (n : ℕ) (w : World) → dangle p n w ≡ dangled p n w
unfolding dangle
dangle-dangled p zero w =
    ap (λ es. record w { entries = es }) (fun_ext (strung-zero p w.ht.freechain w.entries))
dangle-dangled p (suc n) w =
    dangle-dangled p n (
      set_freechain (p + n)
        (set_entry (p + n) (record (w.entries (p + n)) { next = w.ht.freechain }) w))
    ∙ ap₂ (λ f es. set_freechain f (record w { entries = es })) (first-suc p n)
        (fun_ext (strung-suc p n w.ht.freechain w.entries))

-- One more slab, as large as the table, is on the list of slabs.
abbrev pub slab_linked : ℕ → World → World
slab_linked n w =
    let v = bump CounterName.slabs 1 (slab_added n w) in
    let header : Slab = record { next = w.ht.slabs; entry = w.brk + 1; entrycount = n } in
    record v { slabs = write v.slabs w.brk header; ht = record v.ht { slabs = w.brk } }

-- And all of its entries are free.
abbrev pub grown : ℕ → World → World
grown n w =
    let stocked = wrap64 (w.ht.stats.freechain.current + n) in
    merge AverageName.freechain 1 n stocked stocked (dangled (w.brk + 1) n (slab_linked n w))

-- There is room for a slab, and its locks can be initialised.
pub record HasSlab (n : ℕ) (w : World) : Type 0 where
  pub slots : n ≢ 0
  pub base : w.brk ≢ null
  pub room : w.brk + (1 + n) ≤ w.limit
  pub fresh : (a : Ptr) → IsFresh (w.entries a).rwlock

pub grow_free-grown :
    (n : ℕ) (w : World)
    → (w.slabs w.ht.table).entrycount ≡ n
    → HasSlab n w
    → w.ht.stats.slabs.mutex ≡ unlocked
    → w.ht.stats.freechain.mutex ≡ unlocked
    → grow_free w ≡ (true, grown n w)
unfolding grow_free
grow_free-grown n w size h slabs freechain =
    let stocked = wrap64 (w.ht.stats.freechain.current + n) in
    let x = dangled (w.brk + 1) n (slab_linked n w) in
    rw (
      size,
      create_slab-added n w h.slots h.base h.room h.fresh,
      counter_add-bump CounterName.slabs 1 (slab_added n w) slabs,
      ==_refl w.brk,
      dangle-dangled (w.brk + 1) n (slab_linked n w),
      average_update-merge AverageName.freechain 1 n stocked stocked x freechain,
      ==_of_ne w.brk 0 h.base,
    )
