-- ===== src/Hashtable/Insert.antt =====
-- `ht_insert_key`, part by part. `none` means that fuel ran out.
pub mod Steps
pub mod Laws
pub mod Refused
pub mod Grow
pub mod Grown
pub mod Full
use zfstest.Prelude.{
  ℕ, zero, suc, ◌+◌, ◌-◌, ◌*◌, ◌^◌, ◌==◌, if◌then◌else◌, Option, none, some, Bool, true, false, not,
  ◌&&◌, ℤ, pos, negsuc,
}
use mathlib.Core.Option
use zfstest.Hashtable.Lock.{eexist, rw_wrlock, rw_unlock}
use zfstest.Hashtable.Data.{Ptr, null, Key, Entry, World, write, set_entry, set_errno}
use zfstest.Hashtable.Stats.{
  CounterName, AverageName, counter_add, average_increment, average_update, wrap64,
}
use zfstest.Hashtable.Slab.{create_slab}
use zfstest.Hashtable.Locate.{
  LockCall, call_entry, call_table, release, count_error, count_search, matches, home,
}

abbrev pub set_freechain : Ptr → World → World
set_freechain p w = record w { ht = record w.ht { freechain = p } }

-- A call on the lock of the free chain.
unfoldable pub call_free : LockCall → World → ℕ × World
call_free f w = let (r, m) = f w.ht.freelock in (r, record w { ht = record w.ht { freelock = m } })

-- `errno = (errno ? errno : ret)`
unfoldable pub keep_errno : ℕ → World → World
keep_errno ret w = set_errno (if w.errno == 0 then ret else w.errno) w

-- The entry with its key, its data and the flag `htef_occupied`.
abbrev pub fill : Key → Ptr → Entry → Entry
fill key datum e = record e { occupied = true; key = key; datum = datum }

-- The slot of the table is empty.
unfoldable pub fill_vacant : Key → Ptr → Ptr → World → ℤ × World
fill_vacant key datum dhte w =
    let (ret, w₁) =
      call_entry rw_unlock dhte (set_entry dhte (fill key datum (w.entries dhte)) w) in
    if ret == 0 then (pos 0, w₁) else (negsuc 1, set_errno ret (count_error w₁))

-- Walks the chain; says whether an entry with the key forbids the insertion, and at which depth
-- the walk ended.
unfoldable pub scan_dups : ℕ → Key → Ptr → ℕ → World → Option (Bool × ℕ)
scan_dups zero key ohte depth w = none
scan_dups (suc fuel) key ohte depth w =
    let rest = scan_dups fuel key (w.entries ohte).next (depth + 1) w in
    if ohte == null
    then some (false, depth)
    else (if not w.ht.dups_allowed && matches w key ohte then some (true, depth) else rest)

unfoldable pub reject_dup : (dhte : Ptr) (depth : ℕ) → World → ℤ × World
reject_dup dhte depth w =
    let (_, w₁) = counter_add CounterName.hits 1 (count_search depth w) in
    let (ret, w₂) = call_entry rw_unlock dhte (set_errno eexist w₁) in
    if ret == 0 then (negsuc 0, w₂) else (negsuc 1, set_errno ret (count_error w₂))

-- Puts the entries of a slab on the free chain, the last one first.
unfoldable pub dangle : (entry : Ptr) (count : ℕ) → World → World
dangle entry zero w = w
dangle entry (suc count) w =
    let ohte = entry + count in
    let linked = set_entry ohte (record (w.entries ohte) { next = w.ht.freechain }) w in
    dangle entry count (set_freechain ohte linked)

-- One round of the loop that fills an empty free chain, and whether there was memory for it.
unfoldable pub grow_free : World → Bool × World
grow_free w =
    let (slab, w₁) = create_slab (w.slabs w.ht.table).entrycount w in
    let (_, w₂) = counter_add CounterName.slabs 1 w₁ in
    let chained = record (w₂.slabs slab) { next = w₂.ht.slabs } in
    let w₃ = record w₂ {
      slabs = write w₂.slabs slab chained;
      ht = record w₂.ht { slabs = slab };
    } in
    let w₄ = dangle chained.entry chained.entrycount w₃ in
    let stocked = wrap64 (w₄.ht.stats.freechain.current + chained.entrycount) in
    let (_, w₅) = average_update AverageName.freechain 1 chained.entrycount stocked stocked w₄ in
    if slab == null then (false, w₁) else (true, w₅)

-- `while ((ohte = ht->freechain) == NULL) {...}`
unfoldable pub fill_free : ℕ → World → Option (Bool × World)
fill_free zero w = none
fill_free (suc fuel) w =
    let (grown, w₁) = grow_free w in
    let again = fill_free fuel w₁ in
    if not (w.ht.freechain == null)
    then some (true, w)
    else (if grown then again else some (false, w₁))

-- Takes the first entry off the free chain.
unfoldable pub take_free : World → Ptr × World
take_free w =
    let ohte = w.ht.freechain in
    let e = w.entries ohte in
    let taken = set_freechain e.next (set_entry ohte (record e { next = null }) w) in
    let current = wrap64 (taken.ht.stats.freechain.current + (2 ^ 64 - 1)) in
    (ohte, (average_increment AverageName.freechain current taken).1)

-- Hangs the entry `ohte` on the chain, right behind `dhte`.
unfoldable pub link : Key → (datum ohte dhte : Ptr) → World → World
link key datum ohte dhte w =
    let w₁ = set_entry ohte (fill key datum (w.entries ohte)) w in
    let w₂ = set_entry ohte (record (w₁.entries ohte) { next = (w₁.entries dhte).next }) w₁ in
    set_entry dhte (record (w₂.entries dhte) { next = ohte }) w₂

-- What the threshold function answers; without a function, it does not ask for a resize.
abbrev pub evaluated : Option (ℕ → ℕ → ℕ → ℕ → ℕ → ℕ) → ℕ → ℕ → ℕ → ℕ → ℕ → ℕ
evaluated none numents a b c d = 0
evaluated (some f) numents a b c d = f numents a b c d

-- The implicit resize at the end, if the options ask for one, there is a threshold function, and the
-- threshold is crossed.
unfoldable pub resize_if_full :
    (resize : ℕ → World → Option (ℤ × World)) → World → Option (ℤ × World)
resize_if_full resize w =
    let numents = (w.slabs w.ht.table).entrycount in
    let s = w.ht.stats in
    let full =
      evaluated w.ht.threshold_evaluate numents s.depth.count s.depth.sum s.searches.count
        s.searches.sum in
    if w.ht.resize_implicit && not (full == 0) then resize (numents * 2) w else some (pos 0, w)

-- What follows once the free chain has an entry.
unfoldable pub attach :
    (resize : ℕ → World → Option (ℤ × World))
    → Key
    → (datum dhte : Ptr) (depth : ℕ) → World
    → Option (ℤ × World)
attach resize key datum dhte depth w =
    let (ohte, w₁) = take_free w in
    let (freed, w₂) = call_free rw_unlock w₁ in
    let w₃ = if freed == 0 then w₂ else keep_errno freed (count_error w₂) in
    let (_, w₄) = average_increment AverageName.depth depth (link key datum ohte dhte w₃) in
    let (ret, w₅) = call_entry rw_unlock dhte w₄ in
    if ret == 0 then resize_if_full resize w₅ else some (negsuc 1, keep_errno ret (count_error w₅))

-- What follows the loop: its second exit is a `malloc` that failed.
unfoldable pub attach_or_fail :
    (resize : ℕ → World → Option (ℤ × World))
    → Key
    → (datum dhte : Ptr) (depth : ℕ) → Bool × World
    → Option (ℤ × World)
attach_or_fail resize key datum dhte depth (true, w) = attach resize key datum dhte depth w
attach_or_fail resize key datum dhte depth (false, w) =
    some (negsuc 0, count_error (release dhte (call_free rw_unlock w).1))

-- The slot is occupied, and no duplicate forbids the insertion.
unfoldable pub chain_key :
    ℕ
    → (resize : ℕ → World → Option (ℤ × World)) → Key
    → (datum dhte : Ptr) (depth : ℕ) → World
    → Option (ℤ × World)
chain_key fuel resize key datum dhte depth w =
    let w₁ = if w.ht.dups_allowed then w else count_search depth w in
    let (locked, w₂) = call_free rw_wrlock w₁ in
    if locked == 0
    then Option.bind (fill_free fuel w₂) (attach_or_fail resize key datum dhte depth)
    else some (negsuc 1, keep_errno locked (count_error (release dhte w₂)))

unfoldable pub reject_or_chain :
    ℕ
    → (resize : ℕ → World → Option (ℤ × World)) → Key
    → (datum dhte : Ptr) → World
    → Bool × ℕ
    → Option (ℤ × World)
reject_or_chain fuel resize key datum dhte w (true, depth) = some (reject_dup dhte depth w)
reject_or_chain fuel resize key datum dhte w (false, depth) =
    chain_key fuel resize key datum dhte depth w

-- The slot `dhte` is locked, and the table lock is given back.
unfoldable pub insert_at :
    ℕ
    → (resize : ℕ → World → Option (ℤ × World)) → Key
    → (datum dhte : Ptr) → World
    → Option (ℤ × World)
insert_at fuel resize key datum dhte w =
    if not (w.entries dhte).occupied
    then some (fill_vacant key datum dhte w)
    else Option.bind (scan_dups fuel key dhte 0 w) (reject_or_chain fuel resize key datum dhte w)

-- `ht_insert_key`, which calls `ht_resize` at its end.
unfoldable pub insert_key_with :
    ℕ → (resize : ℕ → World → Option (ℤ × World)) → Key → Ptr → World → Option (ℤ × World)
insert_key_with fuel resize key datum w =
    let (_, w₁) = counter_add CounterName.inserts 1 w in
    let (locked, t) = call_table rw_wrlock w₁ in
    let w₂ = set_errno locked t in
    let (_, w₃) = counter_add CounterName.probes 1 w₂ in
    let dhte = home key w₃ in
    let (held, w₄) = call_entry rw_wrlock dhte w₃ in
    let (freed, w₅) = call_table rw_unlock w₄ in
    if not (locked == 0)
    then some (negsuc 1, count_error w₂)
    else (if not (held == 0)
        then some (negsuc 1, set_errno held (count_error (call_table rw_unlock w₄).1))
        else (if not (freed == 0)
            then some (negsuc 1, set_errno freed (count_error (release dhte w₅)))
            else insert_at fuel resize key datum dhte w₅))
