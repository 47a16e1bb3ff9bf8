-- ===== src/Hashtable/Locate.antt =====
-- `ht_locate_entry_`, `ht_locate_entry` and `ht_locate_key`. `none` means that the fuel, a bound on
-- the length of a chain, ran out.
pub mod Search
pub mod Found
pub mod Laws
use zfstest.Prelude.{ℕ, zero, suc, ◌+◌, ◌==◌, if◌then◌else◌, Option, none, some, Bool, not}
use mathlib.Core.Option
use zfstest.Hashtable.Lock.{Mode, enoent, rw_rdlock, rw_unlock}
use zfstest.Hashtable.Data.{Ptr, null, Key, World, set_entry, set_errno}
use zfstest.Hashtable.Stats.{CounterName, AverageName, counter_add, average_increment}

-- A lock function of synch.h at the lock of an entry.
abbrev pub LockCall : Type 0
LockCall = Mode → ℕ × Mode

unfoldable pub call_entry : LockCall → Ptr → World → ℕ × World
call_entry f p w =
    let (r, m) = f (w.entries p).rwlock in (r, set_entry p (record (w.entries p) { rwlock = m }) w)

-- `(void) rw_unlock(&p->rwlock)`, where p is not NULL.
unfoldable pub release : Ptr → World → World
release p w = if p == null then w else (call_entry rw_unlock p w).1

unfoldable pub count_error : World → World
count_error w = (counter_add CounterName.errors 1 w).1

unfoldable pub count_search : ℕ → World → World
count_search depth w = (average_increment AverageName.searches depth w).1

-- The entry found, or NULL, and what `*previous` holds, if the caller asked for it.
abbrev pub FoundEntry : Type 0
FoundEntry = Ptr × Option Ptr

abbrev pub matches : World → Key → Ptr → Bool
matches w key p = w.ht.key_compare (w.entries p).key key w.ht.keysize == 0

-- What follows the loop once `dhte` matches: the statistics and `*previous`, or the lock of the
-- previous entry given back.
unfoldable pub hit : Option Ptr → (phte dhte : Ptr) → ℕ → World → FoundEntry × World
hit previous phte dhte depth w =
    let (_, w₁) = counter_add CounterName.hits 1 (count_search depth w) in
    let (ret, w₂) = call_entry rw_unlock phte w₁ in
    elim previous [
      | some _ ↦ ((dhte, some phte), w₁)
      | none ↦
          if phte == null
          then ((dhte, none), w₁)
          else (if ret == 0
              then ((dhte, none), w₂)
              else ((null, none), set_errno ret (count_error (release dhte w₂))))
    ]

-- The `while` loop: `dhte` is the entry at hand, `phte` the one before it, and both are locked.
unfoldable pub search :
    ℕ → Key → LockCall → Option Ptr → (phte dhte : Ptr) → ℕ → World → Option (FoundEntry × World)
search zero key lockfunc previous phte dhte depth w = none
search (suc fuel) key lockfunc previous phte dhte depth w =
    let next = (w.entries dhte).next in
    let (locked, w₁) = call_entry lockfunc next w in
    let (freed, w₂) = call_entry rw_unlock phte w₁ in
    let missing = count_search (depth + 1) (release dhte (release phte (set_errno enoent w))) in
    let refused = count_error (count_search (depth + 1) (release dhte (release phte w₁))) in
    let stuck =
      set_errno freed (count_error (count_search (depth + 1) (release next (release dhte w₂)))) in
    let onward = search fuel key lockfunc previous dhte next (depth + 1) w₁ in
    let onward' = search fuel key lockfunc previous dhte next (depth + 1) w₂ in
    if matches w key dhte
    then some (hit previous phte dhte depth w)
    else (if next == null
        then some ((null, previous), missing)
        else (if not (locked == 0)
            then some ((null, previous), refused)
            else (if phte == null
                then onward
                else (if not (freed == 0) then some ((null, previous), stuck) else onward'))))

-- The address of the entry in the table that a key belongs to.
abbrev pub home : Key → World → Ptr
home key w =
    let table = w.slabs w.ht.table in
    table.entry + w.ht.hash_compute key w.ht.keysize table.entrycount

unfoldable pub locate_entry_at :
    ℕ → Key → LockCall → Option Ptr → World → Option (FoundEntry × World)
locate_entry_at fuel key lockfunc previous w =
    let (_, w₁) = counter_add CounterName.probes 1 w in
    let dhte = home key w₁ in
    let (locked, w₂) = call_entry lockfunc dhte w₁ in
    let found = search fuel key lockfunc previous null dhte 0 w₂ in
    if not (locked == 0)
    then some ((null, previous), count_error w₂)
    else (if not (w₂.entries dhte).occupied
        then some ((null, previous), (call_entry rw_unlock dhte (set_errno enoent w₂)).1)
        else found)

-- A call on the lock of the whole table.
unfoldable pub call_table : LockCall → World → ℕ × World
call_table f w =
    let (r, m) = f w.ht.tablelock in (r, record w { ht = record w.ht { tablelock = m } })

-- The end of `ht_locate_entry`, which gives the table lock back.
unfoldable pub unlock_located : Ptr → World → Ptr × World
unlock_located hte w =
    let (ret, w₁) = call_table rw_unlock w in
    if ret == 0 then (hte, w₁) else (null, set_errno ret (count_error (release hte w₁)))

-- `ht_locate_entry`: the entry found is still locked for reading.
unfoldable pub locate_entry : ℕ → Key → World → Option (Ptr × World)
locate_entry fuel key w =
    let (locked, w₁) = call_table rw_rdlock w in
    let w₂ = set_errno locked w₁ in
    let after =
      Option.map (λ f. unlock_located f.0.0 f.1) (locate_entry_at fuel key rw_rdlock none w₂) in
    if locked == 0 then after else some (null, count_error w₂)

-- The end of `ht_locate_key`: the data, and no lock is held.
unfoldable pub unlock_found : Ptr → World → Ptr × World
unlock_found hte w =
    let (ret, w₁) = call_entry rw_unlock hte w in
    if hte == null
    then (null, w)
    else (if ret == 0 then ((w.entries hte).datum, w₁) else (null, set_errno ret (count_error w₁)))

-- `ht_locate_key`
unfoldable pub locate_key : ℕ → Key → World → Option (Ptr × World)
locate_key fuel key w = Option.map (λ f. unlock_found f.0 f.1) (locate_entry fuel key w)
