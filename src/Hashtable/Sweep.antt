-- ===== src/Hashtable/Sweep.antt =====
-- `ht_sweep`: takes and gives back the lock of each entry. `none` means that fuel ran out.
pub mod Laws
use zfstest.Prelude.{ℕ, zero, suc, ◌+◌, ◌==◌, if◌then◌else◌, Option, none, some, not, ◌&&◌}
use mathlib.Core.Option
use zfstest.Hashtable.Lock.{rw_wrlock, rw_unlock}
use zfstest.Hashtable.Data.{Ptr, null, World}
use zfstest.Hashtable.Locate.{call_entry, call_table, count_error}

-- The inner loop, from the entry `chte` of the chain of `hte`. The lock that it gives back is that
-- of `hte`, as in the source.
unfoldable pub sweep_chain : ℕ → (hte chte : Ptr) → World → Option (ℕ × World)
sweep_chain zero hte chte w = none
sweep_chain (suc fuel) hte chte w =
    let next = (w.entries chte).next in
    let (locked, w₁) = call_entry rw_wrlock next w in
    let (freed, w₂) = call_entry rw_unlock hte w₁ in
    let plain = sweep_chain fuel hte next w in
    let swept = sweep_chain fuel hte next w₂ in
    if next == null
    then some (0, w)
    else (if not (w.entries hte).lock_initialized
        then plain
        else (if not (locked == 0)
            then some (locked, count_error w₁)
            else (if not (freed == 0) then some (freed, count_error w₂) else swept)))

-- The outer loop over `count` entries of the table from `hte` on.
unfoldable pub sweep_entries : ℕ → Ptr → ℕ → World → Option (ℕ × World)
sweep_entries fuel hte zero w = some (0, w)
sweep_entries fuel hte (suc count) w =
    let initialized = (w.entries hte).lock_initialized in
    let (locked, w₁) = call_entry rw_wrlock hte w in
    let (freed, w₂) = call_entry rw_unlock hte w₁ in
    let swept = if initialized then w₂ else w in
    let onward = λ (r : ℕ × World).
      let rest = sweep_entries fuel (hte + 1) count r.1 in if r.0 == 0 then rest else some r in
    let chain = sweep_chain fuel hte hte swept in
    if initialized && not (locked == 0)
    then some (locked, count_error w₁)
    else (if initialized && not (freed == 0)
        then some (freed, count_error w₂)
        else Option.bind chain onward)

-- `ht_sweep`
unfoldable pub sweep : ℕ → World → Option (ℕ × World)
sweep fuel w =
    let (locked, w₁) = call_table rw_wrlock w in
    let (freed, w₂) = call_table rw_unlock w₁ in
    let table = w₂.slabs w₂.ht.table in
    if not (locked == 0)
    then some (locked, count_error w₁)
    else (if not (freed == 0)
        then some (freed, count_error w₂)
        else sweep_entries fuel table.entry table.entrycount w₂)
