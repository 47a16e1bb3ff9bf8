-- ===== src/Hashtable/Destroy.antt =====
-- `ht_destroy`, part by part. `none` means that the fuel, a bound on the number of slabs, ran out.
pub mod Laws
use zfstest.Prelude.{
  ℕ, zero, suc, ◌==◌, if◌then◌else◌, Option, none, some, List, [], ◌∷◌, not, ℤ, pos, negsuc,
}
use mathlib.Core.Option
use zfstest.Hashtable.Lock.{rw_wrlock, rw_unlock, lock_destroy}
use zfstest.Hashtable.Data.{Ptr, null, Head, World, write, set_errno}
use zfstest.Hashtable.Stats.{
  CounterName, AverageName, get_counter, get_average, put_counter, put_average,
}
use zfstest.Hashtable.Slab.{destroy_slab}
use zfstest.Hashtable.Locate.{call_table, count_error}
use zfstest.Hashtable.Insert.{keep_errno}

abbrev pub set_slabs : Ptr → World → World
set_slabs p w = record w { ht = record w.ht { slabs = p } }

-- The loop over the slabs. A slab that cannot be destroyed goes back on the chain.
unfoldable pub destroy_slabs : ℕ → World → Option (ℕ × World)
destroy_slabs zero w = none
destroy_slabs (suc fuel) w =
    let hts = w.ht.slabs in
    let (ret, w₁) = destroy_slab hts (set_slabs (w.slabs hts).next w) in
    let header = record (w₁.slabs hts) { next = w₁.ht.slabs } in
    let back = set_slabs hts (record w₁ { slabs = write w₁.slabs hts header }) in
    let gone =
      if w₁.ht.table == hts then record w₁ { ht = record w₁.ht { table = null } } else w₁ in
    let onward = destroy_slabs fuel gone in
    if hts == null
    then some (0, w)
    else (if ret == 0 then onward else some (ret, (call_table rw_unlock (count_error back)).1))

-- `if (ret = mutex_destroy(...)) {...}`
unfoldable pub note_failure : ℕ → World → World
note_failure ret w = if ret == 0 then w else count_error (keep_errno ret w)

unfoldable pub destroy_counter : CounterName → World → World
destroy_counter c w =
    let k = get_counter c w.ht.stats in
    let (ret, m) = lock_destroy k.mutex in
    note_failure ret (put_counter c (record k { mutex = m }) w)

unfoldable pub destroy_average : AverageName → World → World
destroy_average c w =
    let a = get_average c w.ht.stats in
    let (ret, m) = lock_destroy a.mutex in
    note_failure ret (put_average c (record a { mutex = m }) w)

-- The nine mutexes, in the order of the source.
unfoldable pub destroy_stats : World → World
destroy_stats w =
    let w₁ =
      destroy_counter CounterName.hits (destroy_counter CounterName.probes (set_errno 0 w)) in
    let w₂ = destroy_counter CounterName.resizes (destroy_average AverageName.searches w₁) in
    let w₃ = destroy_counter CounterName.deletes (destroy_counter CounterName.inserts w₂) in
    let w₄ = destroy_average AverageName.freechain (destroy_average AverageName.depth w₃) in
    destroy_counter CounterName.slabs w₄

-- The locks of the head, and the head itself. Neither `freelock` nor `resizemutex` is destroyed.
unfoldable pub destroy_head : World → ℤ × World
destroy_head w =
    let w₁ = destroy_stats w in
    let (freed, w₂) = call_table rw_unlock w₁ in
    let (gone, w₃) = call_table lock_destroy w₂ in
    let k = get_counter CounterName.errors w₃.ht.stats in
    let (ret, m) = lock_destroy k.mutex in
    let w₄ = put_counter CounterName.errors (record k { mutex = m }) w₃ in
    if not (freed == 0)
    then (negsuc 1, note_failure freed w₂)
    else (if not (gone == 0)
        then (negsuc 1, note_failure gone w₃)
        else (if ret == 0 then (pos 0, w₄) else (negsuc 1, keep_errno ret w₄)))

-- Once the older tables are gone: the slabs, then the head.
unfoldable pub destroy_table : ℕ → World → Option (ℤ × World)
destroy_table fuel w =
    Option.map (λ (r : ℕ × World). if r.0 == 0 then destroy_head r.1 else (pos r.0, r.1))
      (destroy_slabs fuel (record w { old = [] }))

-- `f(ht->old)`, where `old` is not NULL: the head that `old` points to takes the place of `ht`.
abbrev pub on_old {ℓ} :
    {A : Type ℓ} → (World → Option (A × World)) → Head → List Head → World → Option (A × World)
on_old f o os w =
    Option.map (λ r. (r.0, record r.1 { ht = w.ht; old = r.1.ht ∷ r.1.old }))
      (f (record w { ht = o; old = os }))

-- The recursive call came back.
unfoldable pub after_old : ℕ → ℤ × World → Option (ℤ × World)
after_old fuel (pos zero, w) = destroy_table fuel w
after_old fuel (r, w) = some (r, (call_table rw_unlock w).1)

-- `ht_destroy`, by recursion on the chain of old tables.
unfoldable pub destroy_from : ℕ → List Head → World → Option (ℤ × World)
destroy_from fuel [] w =
    let (locked, t) = call_table rw_wrlock w in
    let w₁ = set_errno locked t in
    if locked == 0 then destroy_table fuel w₁ else some (negsuc 1, count_error w₁)
destroy_from fuel (o ∷ os) w =
    let (locked, t) = call_table rw_wrlock w in
    let w₁ = set_errno locked t in
    let after = Option.bind (on_old (destroy_from fuel os) o os w₁) (after_old fuel) in
    if locked == 0 then after else some (negsuc 1, count_error w₁)

unfoldable pub destroy : ℕ → World → Option (ℤ × World)
destroy fuel w = destroy_from fuel w.old w
