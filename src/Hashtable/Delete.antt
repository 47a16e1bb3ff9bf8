-- ===== src/Hashtable/Delete.antt =====
-- `ht_delete_key`, part by part.
pub mod Unlink
pub mod Removed
pub mod Contents
pub mod Laws
use zfstest.Prelude.{ℕ, ◌==◌, if◌then◌else◌, Option, none, some, false, not}
use mathlib.Core.Option
use zfstest.Hashtable.Lock.{rw_wrlock, rw_unlock}
use zfstest.Hashtable.Data.{Ptr, null, Key, World, set_entry, set_errno}
use zfstest.Hashtable.Stats.{CounterName, counter_add}
use zfstest.Hashtable.Locate.{
  FoundEntry, call_entry, call_table, release, count_error, locate_entry_at,
}
use zfstest.Hashtable.Insert.{call_free, set_freechain}

-- Counts an unlock that failed.
unfoldable pub count_failed : ℕ → World → World
count_failed ret w = if ret == 0 then w else count_error w

-- The three locks given back, and the result: the data of `dhte`, or NULL if `errno` is set.
unfoldable pub finish_delete : (phte dhte : Ptr) → World → Ptr × World
finish_delete phte dhte w =
    let (fret, w₁) = call_free rw_unlock w in
    let (pret, w₂) = call_entry rw_unlock phte (count_failed fret w₁) in
    let (dret, w₃) = call_entry rw_unlock dhte (count_failed pret w₂) in
    let w₄ = count_failed dret (set_errno dret w₃) in
    let w₅ =
      if not (fret == 0)
      then set_errno fret w₄
      else (if not (pret == 0) then set_errno pret w₄ else w₄) in
    (if w₅.errno == 0 then (w₅.entries dhte).datum else null, w₅)

-- Takes `dhte` out of the chain behind `phte` and puts it on the free chain. Both are locked.
unfoldable pub unlink : (phte dhte : Ptr) → World → Ptr × World
unlink phte dhte w =
    let w₁ = set_entry dhte (record (w.entries dhte) { occupied = false }) w in
    let (locked, w₂) = call_free rw_wrlock w₁ in
    let w₃ = set_entry phte (record (w₂.entries phte) { next = (w₂.entries dhte).next }) w₂ in
    let w₄ = set_entry dhte (record (w₃.entries dhte) { next = w₃.ht.freechain }) w₃ in
    if locked == 0
    then finish_delete phte dhte (set_freechain dhte w₄)
    else (null, set_errno locked (count_error (release dhte (release phte w₂))))

-- The entry stands in the table proper, and a chain hangs from it: the next entry is copied here,
-- and its own place is freed.
unfoldable pub pull_up : Ptr → World → Ptr × World
pull_up phte w =
    let dhte = (w.entries phte).next in
    let (locked, w₁) = call_entry rw_wrlock dhte w in
    let e = w₁.entries dhte in
    let copy = record (w₁.entries phte) {
      key = e.key;
      datum = e.datum;
      occupied = e.occupied;
      lock_initialized = e.lock_initialized;
    } in
    if locked == 0
    then unlink phte dhte (set_entry phte copy w₁)
    else (null, set_errno locked (count_error (release phte w₁)))

-- What follows once the entry is found and locked, and the table lock given back.
unfoldable pub delete_at : Option Ptr → Ptr → World → Ptr × World
delete_at previous dhte w =
    let e = w.entries dhte in
    let alone = set_entry dhte (record e { occupied = false }) w in
    let head = if e.next == null then (e.datum, alone) else pull_up dhte w in
    elim previous [ none ↦ head | some phte ↦ if phte == null then head else unlink phte dhte w ]

unfoldable pub delete_found : FoundEntry → World → Ptr × World
delete_found found w =
    let dhte = found.0 in
    let (ret, w₁) = call_table rw_unlock w in
    if dhte == null
    then (null, w₁)
    else (if not (ret == 0)
        then (null, set_errno ret (release dhte (count_error w₁)))
        else delete_at found.1 dhte w₁)

-- `phte` holds `garbage` before `ht_locate_entry_` sets it.
unfoldable pub delete_key : ℕ → (garbage : Ptr) → Key → World → Option (Ptr × World)
delete_key fuel garbage key w =
    let (_, w₁) = counter_add CounterName.deletes 1 w in
    let (locked, t) = call_table rw_wrlock w₁ in
    let w₂ = set_errno locked t in
    if locked == 0
    then Option.map (λ f. delete_found f.0 f.1)
        (locate_entry_at fuel key rw_wrlock (some garbage) w₂)
    else some (null, count_error w₂)
