-- ===== src/Hashtable/Insert/Laws.antt =====
-- The contract of `ht_insert_key`, for a table whose threshold never asks for a resize.
use zfstest.Prelude.{
  ℕ, suc, ◌+◌, ◌-◌, ◌^◌, ◌<◌, ◌≡◌, refl, ◌≢◌, Bool, true, false, not, ◌&&◌, ◌∙◌, List, [], ◌∷◌, has,
  ◌==◌, some, Bool-cases, arith, length, ==_refl, if◌then◌else◌, ap, inl, inr, pos, negsuc,
}
use mathlib.Core.Option
use zfstest.Hashtable.Lock.{unlocked, exclusive, eexist}
use zfstest.Hashtable.Data.{Ptr, null, Key, Entry, World, set_entry, set_errno}
use zfstest.Hashtable.Stats.Bumps.{IsIdle, bump}
use zfstest.Hashtable.Steady.{Steady, bump-IsIdle, tally-IsIdle, freechain-IsIdle}
use zfstest.Hashtable.Stats.{CounterName, AverageName, wrap64}
use zfstest.Hashtable.Locate.{home}
use zfstest.Hashtable.Locate.Search.{counted}
use zfstest.Hashtable.Chain.{IsChain, locked}
use zfstest.Hashtable.Chain.Locked.{occupied-locked}
use zfstest.Hashtable.Chain.Contents.{
  Pairs, same_key, occurs, contents, IsChain-frame, contents_congr,
}
use zfstest.Hashtable.Insert.{
  set_freechain, fill, insert_at, reject_or_chain, insert_key_with, resize_if_full, evaluated,
}
use zfstest.Hashtable.Insert.Steps.{
  Resize, begun, insert_key_with-at, dup_in, scan_dups-dup_in, fill_vacant-filled,
  reject_dup-rejected, linked, stocked, searched-IsIdle, attached, searched, chain_key-attached,
}

-- There is no threshold function, or it never asks for a resize, as `ht_evaluate_threshold_default` does not.
abbrev pub NeverFull : World → Type 0
NeverFull w = (numents a b c d : ℕ) → evaluated w.ht.threshold_evaluate numents a b c d ≡ 0

pub resize_if_full-never :
    (resize : Resize) (w : World) → NeverFull w → resize_if_full resize w ≡ some (pos 0, w)
unfolding resize_if_full
resize_if_full-never resize w never = elim (Bool-cases w.ht.resize_implicit) [
  | inl implicit ↦
      let s = w.ht.stats in
      rw (
        implicit,
        never (w.slabs w.ht.table).entrycount s.depth.count s.depth.sum s.searches.count
            s.searches.sum,
      )
  | inr explicit ↦ rw explicit
]

dup_in-occurs :
    (key : Key) (ps : List Ptr) (depth : ℕ) (w : World)
    → (dup_in key ps depth w).0
      ≡ (not w.ht.dups_allowed && occurs (same_key w key) (contents w.entries ps))
unfolding dup_in occurs
dup_in-occurs key [] depth w = ground arith
dup_in-occurs key (p ∷ ps) depth w = ground (arith, dup_in-occurs key ps (depth + 1) w)

-- The pair comes second, right behind that of the slot in the table.
abbrev pub insert_second : Key × Ptr → Pairs → Pairs
insert_second kv [] = kv ∷ []
insert_second kv (x ∷ kvs) = x ∷ kv ∷ kvs

-- The state `v` holds the chain `b ∷ qs` where `w` held `b ∷ ps`, with one more pair, and no entry
-- off the new chain has changed.
pub record Inserts (w v : World) (key : Key) (datum b : Ptr) (ps qs : List Ptr) : Type 0 where
  pub chain : IsChain v.entries b (b ∷ qs)
  pub pairs : contents v.entries (b ∷ qs) ≡ insert_second (key, datum) (contents w.entries ps)
  pub others : (a : Ptr) → (if has a (b ∷ qs) then w.entries a else v.entries a) ≡ w.entries a
  pub steady : Steady w v

pub begun-IsIdle : (w : World) → IsIdle w → IsIdle (begun w)
begun-IsIdle w i =
    bump-IsIdle CounterName.probes 1 (bump CounterName.inserts 1 w)
      (bump-IsIdle CounterName.inserts 1 w i)

begun-Steady : (b : Ptr) (e : Entry) (w : World) → IsIdle w → Steady w (set_entry b e (begun w))
begun-Steady b e w idle = record { idle = begun-IsIdle w idle; slabs = refl; head = refl }

module _ (fuel : ℕ) (resize : Resize) (key : Key) (datum : Ptr) (w : World) (idle : IsIdle w) where
  -- `ht_insert_key` into an empty slot whose lock is free, whose `next` is NULL and whose address
  -- is not NULL, where no lock of the head is held: it returns 0, the slot alone is a chain with
  -- the new pair and its lock free, no other entry changes, nor does the head beyond its
  -- statistics and free chain, and no lock of it is held.
  pub insert_key-vacant :
      (w.entries (home key w)).occupied ≡ false
      → (w.entries (home key w)).rwlock ≡ unlocked
      → (w.entries (home key w)).next ≡ null
      → home key w ≢ null
      → (v : World) × (insert_key_with fuel resize key datum w ≡ some (pos 0, v))
        × Inserts w v key datum (home key w) [] []
        × (v.ht.freechain ≡ w.ht.freechain)
  unfolding insert_at
  insert_key-vacant empty free last ne =
      let b = home key w in
      (
        set_entry b (fill key datum (w.entries b)) (begun w),
        insert_key_with-at fuel resize key datum w idle free
            ∙ rw (
              occupied-locked exclusive (b ∷ []) (begun w) b,
              empty,
              fill_vacant-filled key datum b (begun w) free,
            ),
        record {
          chain = rw (==_refl b) (refl, ne, refl, free, refl, last);
          pairs = rw (==_refl b);
          others = λ a. ground arith;
          steady = begun-Steady b (fill key datum (w.entries b)) w idle;
        },
        refl,
      )

-- An entry taken off the free chain and hung on a chain.
pub hung-Steady :
    (key : Key) (datum b : Ptr) (depth : ℕ) (w : World)
    → IsIdle w
    → Steady w (attached key datum b depth w)
hung-Steady key datum b depth w i =
    let v = linked key datum w.ht.freechain b (stocked w) in
    let rest = set_freechain (w.entries w.ht.freechain).next w in
    let count = wrap64 (w.ht.stats.freechain.current + (2 ^ 64 - 1)) in
    record {
      idle = tally-IsIdle AverageName.depth depth v (
          tally-IsIdle AverageName.freechain count rest
            (freechain-IsIdle (w.entries w.ht.freechain).next w i));
      slabs = refl;
      head = refl;
    }

attached-Steady :
    (key : Key) (datum b : Ptr) (depth : ℕ) (w : World)
    → IsIdle w
    → Steady w (attached key datum b depth (searched depth (begun w)))
attached-Steady key datum b depth w idle =
    let s = searched depth (begun w) in
    let h =
      hung-Steady key datum b depth s (searched-IsIdle depth (begun w) (begun-IsIdle w idle)) in
    record { idle = h.idle; slabs = refl; head = refl }

module _ (key : Key) (datum f b : Ptr) (ps : List Ptr) (w : World) where
  pub linked-IsChain :
      f ≢ null
      → (w.entries f).rwlock ≡ unlocked
      → has f (b ∷ ps) ≡ false
      → IsChain w.entries b (b ∷ ps)
      → IsChain (linked key datum f b w).entries b (b ∷ f ∷ ps)
  linked-IsChain ready loose off (_, ne, out, free, full, rest) =
      let es = (linked key datum f b w).entries in
      let fb : (f == b) ≡ false = ground arith in
      let bf : (b == f) ≡ false = ground arith in
      rw (==_refl b, ==_refl f, fb, bf)
        (
          refl,
          ne,
          out,
          free,
          full,
          (
            refl,
            ready,
            ground arith,
            loose,
            refl,
            IsChain-frame w.entries es (w.entries b).next ps rest (λ a h. ground arith),
          ),
        )

  pub linked_pairs :
      has f (b ∷ ps) ≡ false
      → has b ps ≡ false
      → contents (linked key datum f b w).entries (b ∷ f ∷ ps)
        ≡ insert_second (key, datum) (contents w.entries (b ∷ ps))
  linked_pairs off out =
      let es = (linked key datum f b w).entries in
      let fb : (f == b) ≡ false = ground arith in
      rw (==_refl b, ==_refl f, fb, contents_congr w.entries es ps (λ a h. ground arith))

module _ (fuel : ℕ) (resize : Resize) (key : Key) (datum : Ptr) (w : World) (idle : IsIdle w)
    (ps : List Ptr) (c : IsChain w.entries (home key w) (home key w ∷ ps))
    (enough : length ps < fuel) where
  -- Whether an entry of the chain forbids the insertion.
  abbrev pub taken : Bool
  taken = not w.ht.dups_allowed && occurs (same_key w key) (contents w.entries (home key w ∷ ps))

  abbrev pub scanned : Bool × ℕ
  scanned = dup_in key (home key w ∷ ps) 0 (begun w)

  abbrev pub slot_held : World
  slot_held = locked exclusive (home key w ∷ []) (begun w)

  pub insert_at-scan :
      (dup : Bool)
      → taken ≡ dup
      → insert_key_with (suc fuel) resize key datum w
        ≡ reject_or_chain (suc fuel) resize key datum (home key w) slot_held (dup, scanned.1)
  unfolding insert_at Option.bind
  insert_at-scan dup e =
      let b = home key w in
      let next = reject_or_chain (suc fuel) resize key datum b slot_held in
      insert_key_with-at (suc fuel) resize key datum w idle c.3
      ∙ rw
          (
            occupied-locked exclusive (b ∷ []) (begun w) b,
            c.4,
            scan_dups-dup_in (suc fuel) key b (b ∷ ps) (b ∷ []) 0 (begun w) c (omega arith),
          )
          (ap (λ (d : Bool). next (d, scanned.1)) (dup_in-occurs key (b ∷ ps) 0 (begun w) ∙ e))

  -- `ht_insert_key` of a key that is on the chain, where duplicates are not allowed: if no lock
  -- of the table head is held and the chain is well formed with its locks free and shorter than
  -- the fuel, it returns -1 with `errno` EEXIST, and all entries, with their locks, and the free
  -- chain are as before.
  pub insert_key-duplicate :
      taken ≡ true
      → (v : World) × (insert_key_with (suc fuel) resize key datum w ≡ some (negsuc 0, v))
        × (v.errno ≡ eexist)
        × (v.entries ≡ w.entries)
        × (v.ht.freechain ≡ w.ht.freechain)
  unfolding reject_or_chain
  insert_key-duplicate dup =
      let b = home key w in
      (
        set_errno eexist (counted scanned.1 (begun w)),
        insert_at-scan true dup
            ∙ ap some (
                reject_dup-rejected key datum b (begun w) c.3 scanned.1 idle.counting.searches
                  idle.counting.hits),
        refl,
        refl,
        refl,
      )

  -- `ht_insert_key` into an occupied slot: if no lock of the table head is held, the slot's
  -- entries are a chain with its locks free and fuel exceeds its length, no entry of the chain
  -- forbids the key, the threshold function, if there is one, always answers 0, and the first
  -- free entry exists, is off the chain and has its lock free, then it returns 0; the slot then
  -- holds the same chain with that entry second, and the same pairs with the new one second; no
  -- entry off the new chain changes, nor does the head beyond its free chain and statistics, and
  -- no lock of it is held; the free chain loses its first entry.
  pub insert_key-chained :
      taken ≡ false
      → NeverFull w
      → w.ht.freechain ≢ null
      → has w.ht.freechain (home key w ∷ ps) ≡ false
      → (w.entries w.ht.freechain).rwlock ≡ unlocked
      → (v : World) × (insert_key_with (suc fuel) resize key datum w ≡ some (pos 0, v))
        × Inserts w v key datum (home key w) (home key w ∷ ps) (w.ht.freechain ∷ ps)
        × (v.ht.freechain ≡ (w.entries w.ht.freechain).next)
  unfolding reject_or_chain
  insert_key-chained fresh never ready off loose =
      let b = home key w in
      let f = w.ht.freechain in
      let d = scanned.1 in
      let v = attached key datum b d (searched d (begun w)) in
      (
        v,
        insert_at-scan false fresh
            ∙ chain_key-attached fuel resize key datum b d (begun w) (begun-IsIdle w idle) c.3 ready
                (ground arith)
            ∙ resize_if_full-never resize v never,
        record {
          chain = linked-IsChain key datum f b ps w ready loose off c;
          pairs = linked_pairs key datum f b ps w off c.2;
          others = λ a. ground arith;
          steady = attached-Steady key datum b d w idle;
        },
        refl,
      )
