-- ===== src/Hashtable/Insert/Refused.antt =====
-- `ht_insert_key` and `ht_locate_key` when the lock of the table is refused.
use zfstest.Prelude.{ℕ, suc, ◌≡◌, refl, some, negsuc, ap, ◌∙◌, sym, ==_of_ne, arith}
use zfstest.Hashtable.Lock.{failing, rw_wrlock, rw_rdlock}
use zfstest.Hashtable.Data.{Ptr, null, Key, World, set_errno}
use zfstest.Hashtable.Stats.{CounterName}
use zfstest.Hashtable.Stats.Bumps.{IsCounting, bump, counter_add-bump}
use zfstest.Hashtable.Locate.{call_table, locate_entry, unlock_found, locate_key}
use zfstest.Hashtable.Locate.Found.{table_held}
use zfstest.Hashtable.Locate.Search.{count_error-bump}
use zfstest.Hashtable.Insert.{insert_key_with}
use zfstest.Hashtable.Insert.Steps.{Resize}

abbrev errors_counted : World → World
errors_counted w = bump CounterName.errors 1 w

wrlock-refused :
    (e : ℕ) (w : World) → w.ht.tablelock ≡ failing e → call_table rw_wrlock w ≡ (suc e, w)
unfolding call_table rw_wrlock
wrlock-refused e w refused =
    ap {B = ℕ × World} (λ m. ((rw_wrlock m).0, table_held (rw_wrlock m).1 w)) refused
    ∙ ap {B = ℕ × World} (λ m. (suc e, table_held m w)) (sym refused)

rdlock-refused :
    (e : ℕ) (w : World) → w.ht.tablelock ≡ failing e → call_table rw_rdlock w ≡ (suc e, w)
unfolding call_table rw_rdlock
rdlock-refused e w refused =
    ap {B = ℕ × World} (λ m. ((rw_rdlock m).0, table_held (rw_rdlock m).1 w)) refused
    ∙ ap {B = ℕ × World} (λ m. (suc e, table_held m w)) (sym refused)

module _ (fuel : ℕ) (key : Key) (w : World) (e : ℕ) (refused : w.ht.tablelock ≡ failing e)
    (counting : IsCounting w.ht.stats) where
  -- `ht_insert_key` where the lock of the table refuses every call with an error and no statistic
  -- is locked returns -2 and changes no entry, and `errno` is 0.
  pub insert_key-refused :
      (resize : Resize) (datum : Ptr)
      → (v : World) × (insert_key_with fuel resize key datum w ≡ some (negsuc 1, v))
        × (v.errno ≡ 0)
        × (v.entries ≡ w.entries)
  unfolding insert_key_with
  insert_key-refused resize datum =
      let v = bump CounterName.inserts 1 w in
      (
        bump CounterName.errors 1 v,
        rw (
          counter_add-bump CounterName.inserts 1 w counting.inserts,
          wrlock-refused e v refused,
          ==_of_ne (suc e) 0 (omega arith),
          count_error-bump (set_errno (suc e) v) counting.errors,
        ),
        refl,
        refl,
      )

  -- `ht_locate_key` where the lock of the table refuses every call with an error and no statistic
  -- is locked returns NULL and changes no entry, and `errno` is 0.
  pub locate_key-refused :
      (v : World) × (locate_key fuel key w ≡ some (null, v))
      × (v.errno ≡ 0)
      × (v.entries ≡ w.entries)
  unfolding locate_key locate_entry unlock_found
  locate_key-refused = (
    bump CounterName.errors 1 w,
    rw (
      rdlock-refused e w refused,
      ==_of_ne (suc e) 0 (omega arith),
      count_error-bump (set_errno (suc e) w) counting.errors,
    ),
    refl,
    refl,
  )
