-- ===== src/Hashtable/Destroy/Laws.antt =====
-- A new table can be destroyed.
use zfstest.Prelude.{
  ℕ, zero, suc, ◌+◌, ◌<◌, ◌≡◌, refl, ◌≢◌, Bool, true, false, ◌&&◌, [], some, pos, arith, leb, ltb,
  if◌then◌else◌, ==_refl, ==_of_ne, ap, fun_ext, subst,
}
use zfstest.Hashtable.Lock.{unset, unlocked, exclusive, lock_destroy, rw_wrlock, rw_unlock}
use zfstest.Hashtable.Data.{Ptr, null, Slab, Head, World, write, set_entry}
use zfstest.Hashtable.Slab.{cleared, destroy_entry, destroy_entries, destroy_slab}
use zfstest.Hashtable.Locate.{call_table}
use zfstest.Hashtable.Destroy.{
  set_slabs, destroy_slabs, note_failure, destroy_counter, destroy_average, destroy_stats,
  destroy_head, destroy_table, destroy_from, destroy,
}
use zfstest.Hashtable.Create.{create}
use zfstest.Hashtable.Create.Laws.{HasRoom, created, create-created}
use zfstest.Hashtable.Chain.{Heap}

-- Entries whose locks are gone.
abbrev pub wiped : Ptr → ℕ → Heap → Heap
wiped p n es a = if leb p a && ltb a (p + n) then cleared unset false else es a

-- Unused entries, with their locks initialised.
abbrev IsClean : Ptr → ℕ → World → Type 0
IsClean p n w = (i : ℕ) → i < n → w.entries (p + i) ≡ cleared unlocked true

destroy_entry-clean :
    (p ret : ℕ) (w : World)
    → w.entries p ≡ cleared unlocked true
    → destroy_entry p ret w ≡ (0, 0, set_entry p (cleared unset false) w)
unfolding destroy_entry lock_destroy
destroy_entry-clean p ret w clean = rw clean

wiped-zero : (p : Ptr) (es : Heap) (a : Ptr) → es a ≡ wiped p 0 es a
wiped-zero p es a = ground arith

wiped-suc :
    (p : Ptr) (n : ℕ) (es : Heap) (a : Ptr)
    → wiped (p + 1) n (write es p (cleared unset false)) a ≡ wiped p (suc n) es a
wiped-suc p n es a = ground arith

destroy_entries-wiped :
    (p : Ptr) (n ret : ℕ) (w : World)
    → IsClean p n w
    → destroy_entries p n ret w ≡ (0, record w { entries = wiped p n w.entries })
unfolding destroy_entries
destroy_entries-wiped p zero ret w clean =
    ap {B = ℕ × World} (λ es. (0, record w { entries = es })) (fun_ext (wiped-zero p w.entries))
destroy_entries-wiped p (suc n) ret w clean =
    let v = set_entry p (cleared unset false) w in
    let here : p + 0 ≡ p = omega arith in
    let first = subst (λ a. w.entries a ≡ cleared unlocked true) here (clean 0 (omega arith)) in
    let rest : IsClean (p + 1) n v = λ i h.
      let at : p + suc i ≡ p + 1 + i = omega arith in
      let e = subst (λ a. w.entries a ≡ cleared unlocked true) at (clean (suc i) (omega arith)) in
      rw (==_of_ne (p + 1 + i) p (omega arith)) e in
    rw (destroy_entry-clean p ret w first, destroy_entries-wiped (p + 1) n 0 v rest)
      (ap {B = ℕ × World} (λ es. (0, record w { entries = es }))
        (fun_ext (wiped-suc p n w.entries)))

abbrev blank : Slab
blank = record { next = null; entry = null; entrycount = 0 }

abbrev slab_wiped : Ptr → Ptr → ℕ → World → World
slab_wiped s p n w = record w { entries = wiped p n w.entries; slabs = write w.slabs s blank }

destroy_slab-wiped :
    (s p : Ptr) (n : ℕ) (w : World)
    → (w.slabs s).entry ≡ p
    → (w.slabs s).entrycount ≡ n
    → IsClean p n w
    → destroy_slab s w ≡ (0, slab_wiped s p n w)
unfolding destroy_slab
destroy_slab-wiped s p n w at count clean = rw (at, count, destroy_entries-wiped p n 0 w clean)

-- The only slab of a table is destroyed.
destroy_slabs-wiped :
    (fuel : ℕ) (s p : Ptr) (n : ℕ) (w : World)
    → w.ht.slabs ≡ s
    → w.ht.table ≡ s
    → s ≢ null
    → (w.slabs s).next ≡ null
    → (w.slabs s).entry ≡ p
    → (w.slabs s).entrycount ≡ n
    → IsClean p n w
    → destroy_slabs (suc (suc fuel)) w
      ≡ some (0, record (slab_wiped s p n w) { ht = record w.ht { slabs = null; table = null } })
unfolding destroy_slabs
destroy_slabs-wiped fuel s p n w slabs table ne last at count clean = rw (
  slabs,
  last,
  destroy_slab-wiped s p n (set_slabs null w) at count clean,
  table,
  ==_of_ne s null ne,
  ==_refl s,
)

module _ (raw : Head) (numents keysize : ℕ) (resize_implicit dups_allowed : Bool) (w : World)
    (r : HasRoom raw numents w) (last : (w.slabs (w.brk + 1)).next ≡ null) where
  abbrev v : World
  v = created raw [] numents keysize resize_implicit dups_allowed w

  -- The lock of the table is taken, as `ht_destroy` does first.
  abbrev taken : World
  taken = record v { ht = record v.ht { tablelock = exclusive }; errno = 0 }

  created-IsClean : IsClean (w.brk + 1 + 1) numents taken
  created-IsClean i h = ground arith

  abbrev emptied : World
  emptied = record (slab_wiped (w.brk + 1) (w.brk + 1 + 1) numents taken) {
    ht = record taken.ht { slabs = null; table = null };
  }

  destroy_slabs-created : (fuel : ℕ) → destroy_slabs (suc (suc fuel)) taken ≡ some (0, emptied)
  destroy_slabs-created fuel =
      destroy_slabs-wiped fuel (w.brk + 1) (w.brk + 1 + 1) numents taken refl refl (omega arith)
        (rw (==_refl (w.brk + 1)) last) (rw (==_refl (w.brk + 1))) (rw (==_refl (w.brk + 1)))
        created-IsClean

  abbrev gone : World
  gone = (destroy_head emptied).1

  destroy_head-emptied :
      (destroy_head emptied ≡ (pos 0, gone))
      × (gone.entries ≡ emptied.entries)
      × (gone.ht.slabs ≡ null)
      × (gone.ht.tablelock ≡ unset)
      × (gone.ht.freelock ≡ unlocked)
      × (gone.ht.resizemutex ≡ unlocked)
  unfolding destroy_head destroy_stats destroy_counter destroy_average note_failure lock_destroy
      call_table rw_unlock
  destroy_head-emptied = (refl, refl, refl, refl, refl, refl)

  -- `ht_destroy` of a table that `ht_create` just made, with memory left, a number of entries
  -- other than 0, locks that can be initialised and fuel of 2 or more, where the fields `old` and
  -- `header.next`, which creation does not set, happen to be NULL in fresh memory: it returns 0,
  -- the entries of the table are cleared and have no locks, the list of slabs is empty and the
  -- table lock is destroyed, but the locks `freelock` and `resizemutex` are not.
  pub destroy-created :
      (fuel : ℕ)
      → (u : World) × (create raw [] numents keysize resize_implicit dups_allowed w ≡ (true, v))
        × (destroy (suc (suc fuel)) v ≡ some (pos 0, u))
        × (u.entries ≡ wiped (w.brk + 1 + 1) numents v.entries)
        × (u.ht.slabs ≡ null)
        × (u.ht.tablelock ≡ unset)
        × (u.ht.freelock ≡ unlocked)
        × (u.ht.resizemutex ≡ unlocked)
  unfolding destroy destroy_from destroy_table call_table rw_wrlock
  destroy-created fuel =
      let (done, entries, slabs, table, free, resize) = destroy_head-emptied in
      (
        gone,
        create-created raw [] numents keysize resize_implicit dups_allowed w r,
        rw (destroy_slabs-created fuel) (ap some done),
        entries,
        slabs,
        table,
        free,
        resize,
      )
