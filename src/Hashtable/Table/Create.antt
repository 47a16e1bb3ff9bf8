-- ===== src/Hashtable/Table/Create.antt =====
-- `ht_create` makes a well-formed table without a pair.
use zfstest.Prelude.{
  ℕ, ◌+◌, ◌-◌, ◌<◌, ◌≡◌, ◌≢◌, refl, Bool, true, List, [], arith, ==_refl, ap, subst, sym,
}
use zfstest.Hashtable.Lock.{unlocked}
use zfstest.Hashtable.Data.{Ptr, null, Key, Head, World}
use zfstest.Hashtable.Slab.{cleared}
use zfstest.Hashtable.Create.{create}
use zfstest.Hashtable.Create.Laws.{HasRoom, created, create-created, created-IsIdle}
use zfstest.Hashtable.Hash.Laws.{hash_bytes-bound}
use zfstest.Hashtable.Table.{Layout, IsTable, IsBucket, slots, size, index, view}

-- No slot has an entry, none is free, and an entry of the table belongs to its slot.
abbrev pub empty : Ptr → Layout
empty base = record { chain = λ i. []; free = []; owner = λ a. a - base }

module _ (raw : Head) (raw_old : List Head) (numents keysize : ℕ)
    (resize_implicit dups_allowed : Bool) (w : World) (r : HasRoom raw numents w) where
  abbrev v : World
  v = created raw raw_old numents keysize resize_implicit dups_allowed w

  abbrev base : Ptr
  base = w.brk + 1 + 1

  slots-created : slots v ≡ base
  slots-created = rw (slots, ==_refl (w.brk + 1))

  size-created : size v ≡ numents
  size-created = rw (size, ==_refl (w.brk + 1))

  slot-created : (i : ℕ) → i < numents → v.entries (base + i) ≡ cleared unlocked true
  slot-created i h = ground arith

  -- `ht_create` with memory left, a number of entries other than 0 and locks that can be
  -- initialised makes a well-formed table, where every slot is empty, no entry is free, no two
  -- slots share an entry and no lock is held, and no slot has a pair.
  pub create-IsTable :
      (create raw raw_old numents keysize resize_implicit dups_allowed w ≡ (true, v))
      × IsTable v (empty base)
      × ((k : Key) → view v (empty base) (index k v) ≡ [])
  create-IsTable = (
    create-created raw raw_old numents keysize resize_implicit dups_allowed w r,
    record {
      idle = created-IsIdle raw raw_old numents keysize resize_implicit dups_allowed w;
      base = subst (λ a. a ≢ null) (sym slots-created) (omega arith);
      spread = λ k.
          let some_slots : 0 < size v = rw size-created (omega (arith, r.slots)) in
          hash_bytes-bound k keysize some_slots;
      buckets = λ i h.
          let e = slot-created i (subst (λ m. i < m) size-created h) in
          subst (λ a. IsBucket v.entries (a + i) []) (sym slots-created)
            (ap (λ x. x.occupied) e, ap (λ x. x.rwlock) e, ap (λ x. x.next) e);
      owned = λ i a h o.
          let here : a ≡ base + i = subst (λ s. a ≡ s + i) slots-created (ground arith) in
          omega arith;
      free = refl;
      unowned = λ a h. absurd (ground arith);
    },
    λ k. refl,
  )
