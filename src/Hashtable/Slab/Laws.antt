-- ===== src/Hashtable/Slab/Laws.antt =====
-- Fresh slabs: `ht_init_entries` and `ht_create_slab` when memory is left and no lock fails.
use zfstest.Prelude.{
  ℕ, zero, suc, ◌+◌, ◌≤◌, ◌≡◌, ◌≢◌, true, ◌&&◌, ◌==◌, leb, ltb, if◌then◌else◌, ap, fun_ext, arith,
  ==_of_ne, inl, inr, Bool-cases,
}
use zfstest.Hashtable.Lock.{Mode, unlocked, lock_init}
use zfstest.Hashtable.Data.{Ptr, null, World, write, set_entry}
use zfstest.Hashtable.Slab.{malloc, cleared, init_entry, init_entries, create_slab}
use zfstest.Hashtable.Chain.{Heap}

-- A lock that can be initialised.
abbrev pub IsFresh : Mode → Type 0
IsFresh m = lock_init m ≡ (0, unlocked)

-- Memory whose `n` entries from `p` on are empty, with their locks ready.
abbrev pub clear : Ptr → ℕ → Heap → Heap
clear p n es a = if leb p a && ltb a (p + n) then cleared unlocked true else es a

init_entry-cleared :
    (p : Ptr) (w : World)
    → IsFresh (w.entries p).rwlock
    → init_entry p w ≡ (0, set_entry p (cleared unlocked true) w)
unfolding init_entry
init_entry-cleared p w fresh = rw fresh

clear-suc :
    (p : Ptr) (n : ℕ) (es : Heap) (a : Ptr)
    → clear (p + 1) n (write es p (cleared unlocked true)) a ≡ clear p (suc n) es a
clear-suc p n es a = ground arith

clear-zero : (p : Ptr) (es : Heap) (a : Ptr) → es a ≡ clear p 0 es a
clear-zero p es a = ground arith

write-IsFresh :
    (p : Ptr) (es : Heap)
    → ((a : Ptr) → IsFresh (es a).rwlock)
    → (a : Ptr) → IsFresh (write es p (cleared unlocked true) a).rwlock
unfolding lock_init
write-IsFresh p es fresh a = elim (Bool-cases (a == p)) [
  | inl here ↦ rw here
  | inr other ↦ rw other (fresh a)
]

-- Every entry is initialised.
pub init_entries-clear :
    (p : Ptr) (n : ℕ) (w : World)
    → ((a : Ptr) → IsFresh (w.entries a).rwlock)
    → init_entries p n w ≡ (0, record w { entries = clear p n w.entries })
unfolding init_entries
init_entries-clear p zero w fresh =
    ap {B = ℕ × World} (λ es. (0, record w { entries = es })) (fun_ext (clear-zero p w.entries))
init_entries-clear p (suc n) w fresh =
    let v = set_entry p (cleared unlocked true) w in
    rw
      (
        init_entry-cleared p w (fresh p),
        init_entries-clear (p + 1) n v (write-IsFresh p w.entries fresh),
      )
      (ap {B = ℕ × World} (λ es. (0, record w { entries = es }))
        (fun_ext (clear-suc p n w.entries)))

pub malloc-room :
    (n : ℕ) (w : World) → w.brk + n ≤ w.limit → malloc n w ≡ (w.brk, record w { brk = w.brk + n })
unfolding malloc
malloc-room n w room = ground arith

-- The slab stands at the break of the old state, its entries right behind it.
abbrev pub slab_added : ℕ → World → World
slab_added n w =
    let header = record (w.slabs w.brk) { entry = w.brk + 1; entrycount = n } in
    record w {
      entries = clear (w.brk + 1) n w.entries;
      slabs = write w.slabs w.brk header;
      brk = w.brk + (1 + n);
    }

-- `ht_create_slab` with memory left, a break other than NULL, a number of entries other than 0 and
-- locks that can be initialised returns the old break; the header there has the entries right
-- behind it and their number, each of these entries is empty and unlocked, and nothing else in
-- memory changes.
pub create_slab-added :
    (n : ℕ) (w : World)
    → n ≢ 0
    → w.brk ≢ null
    → w.brk + (1 + n) ≤ w.limit
    → ((a : Ptr) → IsFresh (w.entries a).rwlock)
    → create_slab n w ≡ (w.brk, slab_added n w)
unfolding create_slab
create_slab-added n w some_entries base room fresh =
    let header = record (w.slabs w.brk) { entry = w.brk + 1; entrycount = n } in
    let v = record w { slabs = write w.slabs w.brk header; brk = w.brk + (1 + n) } in
    rw (
      malloc-room (1 + n) w room,
      init_entries-clear (w.brk + 1) n v fresh,
      ==_of_ne n 0 some_entries,
      ==_of_ne w.brk 0 base,
    )
