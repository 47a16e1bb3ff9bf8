-- ===== src/Tests/Runs.antt =====
-- Runs of the library on a table of two slots.
use zfstest.Prelude.{ℕ, ◌≡◌, refl, Option, none, some, false, [], ℤ, pos, negsuc}
use mathlib.Core.Option
use zfstest.Hashtable.Lock.{unset, eperm, enoent, eexist}
use zfstest.Hashtable.Data.{World, Ptr, null}
use zfstest.Hashtable.Lock.{lock_init, lock_destroy, rw_wrlock, rw_rdlock, rw_unlock}
use zfstest.Hashtable.Stats.{
  counter_init, counter_add, average_init, average_update, average_increment,
}
use zfstest.Hashtable.Hash.{hash_loop, hash_bytes, bcmp, evaluate_threshold_default}
use zfstest.Hashtable.Slab.{
  malloc, init_entry, init_entries, destroy_entry, destroy_entries, create_slab, destroy_slab,
}
use zfstest.Hashtable.Create.{init_stats, init_head, create}
use zfstest.Hashtable.Locate.{
  call_entry, release, count_error, count_search, hit, search, locate_entry_at, call_table,
  unlock_located, locate_entry, unlock_found, locate_key,
}
use zfstest.Hashtable.Insert.{
  call_free, keep_errno, fill_vacant, scan_dups, reject_dup, dangle, grow_free, fill_free,
  take_free, link, resize_if_full, attach, attach_or_fail, chain_key, reject_or_chain, insert_at,
  insert_key_with,
}
use zfstest.Hashtable.Delete.{
  count_failed, finish_delete, unlink, pull_up, delete_at, delete_found, delete_key,
}
use zfstest.Hashtable.Sweep.{sweep_chain, sweep_entries, sweep}
use zfstest.Hashtable.Destroy.{
  destroy_slabs, note_failure, destroy_counter, destroy_average, destroy_stats, destroy_head,
  destroy_table, after_old, destroy_from, destroy,
}
use zfstest.Hashtable.Resize.{
  call_resize, populate_chain, populate, at_old, unlock_both, abandon, swap_tables, add_stats,
  finish_resize, retire, exchange, fill_new, resize_with, insert_key, resize,
}
use zfstest.Tests.Tables.{head_in, key, fresh}

abbrev table_of : ℕ → World
table_of numents = (create (head_in unset) [] numents 1 false false fresh).1

abbrev insert : ℕ → Ptr → World → Option (ℤ × World)
insert n datum = insert_key 1 9 (head_in unset) (key n) datum

infixl 5 ◌>>=◌
abbrev ◌>>=◌ :
    {A B : Type 0} → Option (A × World) → (World → Option (B × World)) → Option (B × World)
none >>= f = none
some (a, w) >>= f = f w

abbrev result : {A : Type 0} → Option (A × World) → Option (A × ℕ)
result none = none
result (some (a, w)) = some (a, w.errno)

-- The keys 1, 3 and 5 share a slot.
abbrev filled : Option (ℤ × World)
filled = insert 1 11 (table_of 2) >>= insert 2 22 >>= insert 3 33 >>= insert 5 55

-- The last insertion, a second one of a key, a key that is found, one that is deleted, the head of
-- the chain deleted, a resize with a chain and one without.
runs :
    (result filled ≡ some (pos 0, 0))
    × (result (filled >>= insert 3 44) ≡ some (negsuc 0, eexist))
    × (result (filled >>= locate_key 9 (key 3)) ≡ some (33, 0))
    × (result (filled >>= delete_key 9 77 (key 3)) ≡ some (33, 0))
    × (result (filled >>= delete_key 9 77 (key 3) >>= locate_key 9 (key 3)) ≡ some (null, enoent))
    × (result (filled >>= delete_key 9 77 (key 1)) ≡ some (55, 0))
    × (result (filled >>= resize 9 (head_in unset) 4) ≡ some (negsuc 0, eperm))
    × (result (insert 1 11 (table_of 2) >>= resize 9 (head_in unset) 4) ≡ some (pos 0, 0))
unfolding lock_init lock_destroy rw_wrlock rw_rdlock rw_unlock counter_init counter_add average_init
    average_update average_increment hash_loop hash_bytes bcmp evaluate_threshold_default malloc
    init_entry init_entries destroy_entry destroy_entries create_slab destroy_slab init_stats
    init_head create call_entry release count_error count_search hit search locate_entry_at
    call_table unlock_located locate_entry unlock_found locate_key call_free keep_errno fill_vacant
    scan_dups reject_dup dangle grow_free fill_free take_free link resize_if_full attach
    attach_or_fail chain_key reject_or_chain insert_at insert_key_with count_failed finish_delete
    unlink pull_up delete_at delete_found delete_key sweep_chain sweep_entries sweep destroy_slabs
    note_failure destroy_counter destroy_average destroy_stats destroy_head destroy_table after_old
    destroy_from destroy call_resize populate_chain populate at_old unlock_both abandon swap_tables
    add_stats finish_resize retire exchange fill_new resize_with insert_key resize Option.bind
runs = (refl, refl, refl, refl, refl, refl, refl, refl)
