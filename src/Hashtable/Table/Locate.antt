-- ===== src/Hashtable/Table/Locate.antt =====
-- `ht_locate_key` on a whole table.
use zfstest.Prelude.{ℕ, ◌≤◌, ◌≡◌, List, [], ◌∷◌, some, length, arith, if◌then◌else◌, subst, sym, ap}
use zfstest.Hashtable.Data.{Ptr, null, Key, World}
use zfstest.Hashtable.Lock.{enoent}
use zfstest.Hashtable.Locate.{home, locate_key}
use zfstest.Hashtable.Locate.Laws.{Locates, locate_key-find, locate_key-empty}
use zfstest.Hashtable.Chain.{IsChain}
use zfstest.Hashtable.Chain.Contents.{same_key, occurs, find, get_or, contents}
use zfstest.Hashtable.Steady.{Steady}
use zfstest.Hashtable.Table.{
  Layout, IsTable, IsBucket, index, view, slots-Steady, size-Steady, index-Steady,
}

-- A table stays one where neither its entries nor its free chain change.
pub IsTable-same :
    (w v : World) (t : Layout)
    → IsTable w t
    → Steady w v
    → v.entries ≡ w.entries
    → v.ht.freechain ≡ w.ht.freechain
    → IsTable v t
IsTable-same w v t i s es free =
    let at = slots-Steady s in
    let count = size-Steady s in
    record {
      idle = s.idle;
      base = rw at i.base;
      spread = λ key. rw (index-Steady s key, count) (i.spread key);
      buckets = λ j h. rw (at, es) (i.buckets j (rw (sym count) h));
      owned = λ j a h o. i.owned j a (rw (sym count) h) (rw (sym at) o);
      free = rw (free, es) i.free;
      unowned = λ a h. rw count (i.unowned a h);
    }

bucket_located :
    (fuel : ℕ) (key : Key) (w : World) (t : Layout) (ps : List Ptr)
    → IsTable w t
    → IsBucket w.entries (home key w) ps
    → length ps ≤ fuel
    → Locates fuel key ps w
bucket_located fuel key w t [] i (empty, free, last) enough =
    locate_key-empty fuel key w i.idle empty free
bucket_located fuel key w t (p ∷ ps) i c enough =
    let b = home key w in
    let c' = subst (λ q. IsChain w.entries b (q ∷ ps)) (sym c.0) c in
    subst (λ q. Locates fuel key (q ∷ ps) w) c.0
      (locate_key-find fuel key w i.idle ps c' (omega arith))

module _ (fuel : ℕ) (key : Key) (w : World) (t : Layout) where
  -- `ht_locate_key` on a well-formed table, where every slot is empty or starts a chain, no two
  -- slots and the free chain share an entry and no lock is held: if fuel is at least the length
  -- of the chain of the key's slot, it returns the data of the first pair of that slot whose key
  -- compares as equal, or NULL, with `errno` 0 or ENOENT accordingly; the table is well formed
  -- with the same layout and the same pairs in every slot.
  pub locate_key-view :
      IsTable w t
      → length (t.chain (index key w)) ≤ fuel
      → (v : World) × (locate_key fuel key w
          ≡ some (get_or (find (same_key w key) (view w t (index key w))) null, v))
        × IsTable v t
        × ((j : ℕ) → view v t j ≡ view w t j)
        × (v.errno ≡ (if occurs (same_key w key) (view w t (index key w)) then 0 else enoent))
  locate_key-view i enough =
      let (v, e, l) =
        bucket_located fuel key w t (t.chain (index key w)) i
          (i.buckets (index key w) (i.spread key)) enough in
      (
        v,
        e,
        IsTable-same w v t i l.steady l.entries l.freechain,
        λ j. ap (λ es. contents es (t.chain j)) l.entries,
        l.errno,
      )
