-- ===== src/Hashtable/Resize.antt =====
-- `ht_resize`, part by part, and `ht_insert_key` and `ht_resize` as they call one another.
use zfstest.Prelude.{
  ℕ, zero, suc, ◌+◌, ◌==◌, if◌then◌else◌, Option, none, some, Bool, true, false, List, [], ◌∷◌, not,
  ◌&&◌, ◌||◌, ℤ, pos, negsuc,
}
use mathlib.Core.Option
use zfstest.Hashtable.Lock.{rw_wrlock, rw_rdlock, rw_unlock}
use zfstest.Hashtable.Data.{Ptr, null, Key, Average, Head, Stats, World, set_errno}
use zfstest.Hashtable.Stats.{CounterName, AverageName, counter_add, average_update}
use zfstest.Hashtable.Create.{create}
use zfstest.Hashtable.Locate.{LockCall, call_table, count_error}
use zfstest.Hashtable.Insert.{call_free, insert_key_with}
use zfstest.Hashtable.Delete.{count_failed}
use zfstest.Hashtable.Sweep.{sweep}
use zfstest.Hashtable.Destroy.{destroy, on_old}

-- `ht_insert_key` at a table.
abbrev pub Insertion : Type 0
Insertion = Key → Ptr → World → Option (ℤ × World)

unfoldable pub call_resize : LockCall → World → ℕ × World
call_resize f w =
    let (r, m) = f w.ht.resizemutex in (r, record w { ht = record w.ht { resizemutex = m } })

abbrev pub is_zero : ℤ → Bool
is_zero (pos zero) = true
is_zero _ = false

-- The entries of the chain that follows `chte`, put into the table at hand; whether all went in.
unfoldable pub populate_chain : ℕ → Insertion → Ptr → World → Option (Bool × World)
populate_chain zero insert chte w = none
populate_chain (suc fuel) insert chte w =
    let next = (w.entries chte).next in
    let e = w.entries next in
    let onward = λ (r : ℤ × World).
      let rest = populate_chain fuel insert next r.1 in
      if is_zero r.0 then rest else some (false, r.1) in
    if next == null then some (true, w) else Option.bind (insert e.key e.datum w) onward

-- The `count` entries of the old table from `entry` on, the last one first.
unfoldable pub populate : ℕ → Insertion → (entry : Ptr) (count : ℕ) → World → Option (Bool × World)
populate fuel insert entry zero w = some (true, w)
populate fuel insert entry (suc count) w =
    let hte = entry + count in
    let e = w.entries hte in
    let onward = λ (r : Bool × World).
      let rest = populate fuel insert entry count r.1 in if r.0 then rest else some r in
    let chain = λ (r : ℤ × World).
      if is_zero r.0
      then Option.bind (populate_chain fuel insert hte r.1) onward
      else some (false, r.1) in
    Option.bind (if e.occupied then insert e.key e.datum w else some (pos 0, w)) chain

-- `f(nht)`: the new table stands first on the chain `old`.
unfoldable pub at_old {ℓ} :
    {A : Type ℓ} → (World → Option (A × World)) → List Head → World → Option (A × World)
at_old f [] w = none
at_old f (o ∷ os) w = on_old f o os w

-- Gives back the table lock and the resize mutex.
unfoldable pub unlock_both : World → World
unlock_both w = (call_resize rw_unlock (call_table rw_unlock w).1).1

-- The exits on which the new table is destroyed. `code` is returned, and `errno` set if `ret` is
-- not 0.
unfoldable pub abandon : ℕ → ℤ → ℕ → World → Option (ℤ × World)
abandon fuel code ret w =
    Option.map
      (λ (r : ℤ × World).
        let v = if is_zero r.0 then record r.1 { old = [] } else r.1 in
        (code, unlock_both (if ret == 0 then v else set_errno ret v)))
      (at_old (destroy fuel) w.old (count_error w))

-- Slabs, free chains and tables change places.
unfoldable pub swap_tables : World → List Head → World
swap_tables w [] = w
swap_tables w (nht ∷ os) =
    let ht = w.ht in
    record w {
      ht = record ht { slabs = nht.slabs; freechain = nht.freechain; table = nht.table };
      old = record nht { slabs = ht.slabs; freechain = ht.freechain; table = ht.table } ∷ os;
    }

abbrev pub add_average : AverageName → Average → World → World
add_average c a w = (average_update c a.count a.sum a.current a.maximum w).1

-- The statistics `s` of the other table are added.
unfoldable pub add_stats : Stats → World → World
add_stats s w =
    let w₁ = (counter_add CounterName.probes s.probes.value w).1 in
    let w₂ = (counter_add CounterName.hits s.hits.value w₁).1 in
    let w₃ = (counter_add CounterName.errors s.errors.value w₂).1 in
    let w₄ = (counter_add CounterName.resizes s.resizes.value w₃).1 in
    let w₅ = (counter_add CounterName.inserts s.inserts.value w₄).1 in
    let w₆ = (counter_add CounterName.deletes s.deletes.value w₅).1 in
    let w₇ = add_average AverageName.searches s.searches w₆ in
    add_average AverageName.freechain s.freechain (add_average AverageName.depth s.depth w₇)

abbrev pub add_old_stats : World → List Head → World
add_old_stats w [] = w
add_old_stats w (nht ∷ os) = add_stats nht.stats w

abbrev pub first_failure : ℕ → ℕ → ℕ
first_failure a b = if a == 0 then b else a

-- The mutex given back and the result: `fret`, `tret` and `sret` are what the unlock of the free
-- chain, the unlock of the table and the sweep returned.
unfoldable pub finish_resize : (fret tret sret : ℕ) → World → ℤ × World
finish_resize fret tret sret w =
    let (ret, w₁) = call_resize rw_unlock w in
    let errno = first_failure fret (first_failure tret (first_failure sret ret)) in
    let code =
      if not (fret == 0) || not (tret == 0) || not (ret == 0)
      then negsuc 1
      else (if sret == 0 then pos 0 else negsuc 0) in
    (code, set_errno errno (count_failed ret w₁))

-- The old table is swept and, if that and the unlock of the table worked, destroyed.
unfoldable pub retire : ℕ → (fret tret : ℕ) → World → Option (ℤ × World)
retire fuel fret tret w = Option.bind (at_old (sweep fuel) w.old w) (λ (s : ℕ × World).
    let w₁ = count_failed s.0 s.1 in
    let destroyed =
      Option.map
        (λ (r : ℤ × World).
          finish_resize fret tret s.0
            (if is_zero r.0 then record r.1 { old = [] } else count_error r.1))
        (at_old (destroy fuel) w₁.old w₁) in
    if (tret == 0) && (s.0 == 0)
    then destroyed
    else some (finish_resize fret tret s.0 (count_error w₁)))

-- The new table is populated; the two change places.
unfoldable pub exchange : ℕ → World → Option (ℤ × World)
exchange fuel w =
    let (ret, w₁) = call_free rw_wrlock w in
    let w₂ = swap_tables w₁ w₁.old in
    let w₃ = add_old_stats w₂ w₂.old in
    let (fret, w₄) = call_free rw_unlock w₃ in
    let (tret, w₅) = call_table rw_unlock (count_failed fret w₄) in
    if ret == 0
    then retire fuel fret tret (count_failed tret w₅)
    else abandon fuel (negsuc 1) ret w₁

-- The new table stands on the chain `old`.
unfoldable pub fill_new : ℕ → Insertion → World → Option (ℤ × World)
fill_new fuel insert w =
    let table = w.slabs w.ht.table in
    Option.bind (at_old (populate fuel insert table.entry table.entrycount) w.old w)
      (λ (r : Bool × World). if r.0 then exchange fuel r.1 else abandon fuel (negsuc 0) 0 r.1)

-- `ht_resize`, which calls `ht_insert_key` for the new table. `raw` is what the memory of its head
-- holds.
unfoldable pub resize_with : ℕ → Insertion → (raw : Head) (numents : ℕ) → World → Option (ℤ × World)
resize_with fuel insert raw numents w =
    let (mutex, m) = call_resize rw_wrlock w in
    let w₁ = set_errno mutex m in
    let (locked, t) = call_table rw_rdlock w₁ in
    let w₂ = set_errno locked t in
    let (created, w₃) = create raw [] numents w₂.ht.keysize false w₂.ht.dups_allowed w₂ in
    let linked = record w₃ { ht = w₂.ht; old = w₃.ht ∷ w₂.old } in
    let refused = record w₃ { ht = w₂.ht; old = w₂.old } in
    if not (mutex == 0)
    then some (negsuc 1, count_error w₁)
    else (if not (locked == 0)
        then some (negsuc 1, (call_resize rw_unlock (count_error w₂)).1)
        else (if created
            then fill_new fuel insert linked
            else some (negsuc 0, unlock_both (count_error refused))))

-- `ht_insert_key`, where resizes may nest `levels` deep. A table that `ht_resize` creates asks for
-- no implicit resize, so that one level is enough.
unfoldable pub insert_key : (levels fuel : ℕ) (raw : Head) → Insertion
insert_key zero fuel raw = insert_key_with fuel (λ numents w. none)
insert_key (suc levels) fuel raw =
    let inner = insert_key levels fuel raw in insert_key_with fuel (resize_with fuel inner raw)

unfoldable pub resize : (fuel : ℕ) (raw : Head) (numents : ℕ) → World → Option (ℤ × World)
resize fuel raw = resize_with fuel (insert_key zero fuel raw) raw
