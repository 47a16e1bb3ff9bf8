-- ===== src/Hashtable/Insert/Full.antt =====
-- `ht_insert_key` into an occupied slot when the free chain is empty and no memory is left.
use zfstest.Prelude.{
  ℕ, suc, ◌+◌, ◌<◌, ◌≡◌, refl, ◌≢◌, false, List, [], ◌∷◌, some, arith, ==_of_ne, ◌∙◌, length,
  negsuc,
}
use mathlib.Core.Option
use zfstest.Hashtable.Lock.{exclusive, enomem}
use zfstest.Hashtable.Data.{Ptr, null, Key, World, set_errno}
use zfstest.Hashtable.Stats.{CounterName}
use zfstest.Hashtable.Stats.Bumps.{IsIdle, bump}
use zfstest.Hashtable.Slab.{malloc, create_slab}
use zfstest.Hashtable.Locate.{home, release}
use zfstest.Hashtable.Locate.Search.{count_error-bump}
use zfstest.Hashtable.Insert.{
  grow_free, fill_free, chain_key, attach_or_fail, reject_or_chain, insert_key_with,
}
use zfstest.Hashtable.Insert.Steps.{Resize, begun, searched, search_counted, searched-IsIdle}
use zfstest.Hashtable.Insert.Laws.{taken, scanned, insert_at-scan, begun-IsIdle}
use zfstest.Hashtable.Chain.{IsChain, locked}
use zfstest.Hashtable.Chain.Locked.{
  free_held, call_free-take, call_free-give, call_entry-give, locked-nil, wrlock-Takes,
}

create_slab-full :
    (n : ℕ) (w : World)
    → n ≢ 0
    → w.limit < w.brk + (1 + n)
    → create_slab n w ≡ (null, set_errno enomem w)
unfolding create_slab malloc
create_slab-full n w some_entries full = ground arith

grow_free-full :
    (w : World)
    → (w.slabs w.ht.table).entrycount ≢ 0
    → w.limit < w.brk + (1 + (w.slabs w.ht.table).entrycount)
    → grow_free w ≡ (false, set_errno enomem w)
unfolding grow_free
grow_free-full w some_entries full =
    rw (create_slab-full (w.slabs w.ht.table).entrycount w some_entries full)

fill_free-full :
    (fuel : ℕ) (x y : World)
    → x.ht.freechain ≡ null
    → grow_free x ≡ (false, y)
    → fill_free (suc fuel) x ≡ some (false, y)
unfolding fill_free
fill_free-full fuel x y empty grow = rw (grow, empty)

module _ (fuel : ℕ) (resize : Resize) (key : Key) (datum : Ptr) (w : World) (idle : IsIdle w)
    (ps : List Ptr) (c : IsChain w.entries (home key w) (home key w ∷ ps))
    (enough : length ps < fuel) (some_entries : (w.slabs w.ht.table).entrycount ≢ 0)
    (full : w.limit < w.brk + (1 + (w.slabs w.ht.table).entrycount))
    (empty : w.ht.freechain ≡ null) where
  abbrev left : World
  left = searched (scanned fuel resize key datum w idle ps c enough).1 (begun w)

  left-IsIdle : IsIdle left
  left-IsIdle =
      searched-IsIdle (scanned fuel resize key datum w idle ps c enough).1 (begun w)
        (begun-IsIdle w idle)

  released :
      release (home key w) (set_errno enomem (locked exclusive (home key w ∷ []) left))
      ≡ set_errno enomem left
  unfolding release
  released =
      let b = home key w in
      rw (
        ==_of_ne b null c.1,
        call_entry-give exclusive b (b ∷ []) [] (set_errno enomem left) wrlock-Takes.given c.3
            (ground arith) (λ a. ground arith),
        locked-nil exclusive (set_errno enomem left),
      )

  chain_key-full :
      chain_key
        (suc fuel)
        resize
        key
        datum
        (home key w)
        (scanned fuel resize key datum w idle ps c enough).1
        (locked exclusive (home key w ∷ []) (begun w))
      ≡ some (negsuc 0, bump CounterName.errors 1 left)
  unfolding chain_key attach_or_fail Option.bind
  chain_key-full =
      let b = home key w in
      let d = (scanned fuel resize key datum w idle ps c enough).1 in
      let held = locked exclusive (b ∷ []) left in
      rw (
        search_counted fuel resize key datum b d (begun w) (begun-IsIdle w idle) c.3,
        call_free-take held idle.freelock,
        fill_free-full fuel (free_held exclusive held) (set_errno enomem (free_held exclusive held))
            empty (grow_free-full (free_held exclusive held) some_entries full),
        call_free-give (set_errno enomem held) idle.freelock,
        released,
        count_error-bump (set_errno enomem left) left-IsIdle.counting.errors,
      )

  -- `ht_insert_key` into an occupied slot when the free chain is empty and memory has no room for
  -- another slab: if no lock of the table head is held, the chain of the slot is well formed with
  -- its locks free and shorter than the fuel, the table has a slot and no key of the chain
  -- forbids the new one, then it returns -1, all entries, with their locks, are as before and the
  -- free chain is still empty, and `errno` is 0.
  pub insert_key-full :
      taken fuel resize key datum w idle ps c enough ≡ false
      → (v : World) × (insert_key_with (suc fuel) resize key datum w ≡ some (negsuc 0, v))
        × (v.errno ≡ 0)
        × (v.entries ≡ w.entries)
        × (v.ht.freechain ≡ null)
  unfolding reject_or_chain
  insert_key-full fresh = (
    bump CounterName.errors 1 left,
    insert_at-scan fuel resize key datum w idle ps c enough false fresh ∙ chain_key-full,
    refl,
    refl,
    empty,
  )
