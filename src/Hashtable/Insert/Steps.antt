-- ===== src/Hashtable/Insert/Steps.antt =====
-- The parts of `ht_insert_key` with every lock free.
use zfstest.Prelude.{
  ℕ, zero, suc, ◌+◌, ◌-◌, ◌^◌, ◌<◌, ◌≡◌, refl, ◌≢◌, Bool, true, false, not, ◌&&◌, List, [], ◌∷◌,
  some, Bool-cases, arith, length, ==_of_ne, if◌then◌else◌, ap, fun_ext, inl, inr, ℤ, Option, pos,
  negsuc,
}
use mathlib.Core.Option
use zfstest.Hashtable.Lock.{unlocked, exclusive, eexist, rw_wrlock}
use zfstest.Hashtable.Data.{Ptr, null, Key, World, set_entry, set_errno}
use zfstest.Hashtable.Stats.{CounterName, AverageName, wrap64}
use zfstest.Hashtable.Stats.Bumps.{
  IsIdle, tally-IsCounting, bump, tally, counter_add-bump, average_increment-tally,
}
use zfstest.Hashtable.Locate.{matches, home, count_search}
use zfstest.Hashtable.Locate.Search.{counted, count_search-tally}
use zfstest.Hashtable.Locate.Found.{probed, table_held, call_table-take, call_table-give}
use zfstest.Hashtable.Insert.{
  set_freechain, take_free, link, attach, resize_if_full, fill, fill_vacant, scan_dups, reject_dup,
  insert_at, insert_key_with, fill_free, attach_or_fail, chain_key,
}
use zfstest.Hashtable.Chain.{IsChain, hold, locked}
use zfstest.Hashtable.Chain.Locked.{
  wrlock-Takes, call_entry-take, call_entry-give, call_entry-unlock, free_held, call_free-give,
  call_free-take, with_lock, locked-nil, matches-locked, next-locked,
}

-- An implicit resize, or any other continuation of the kind.
abbrev pub Resize : Type 0
Resize = ℕ → World → Option (ℤ × World)

-- The counters once an insertion has begun.
abbrev pub begun : World → World
begun w = probed (bump CounterName.inserts 1 w)

module _ (fuel : ℕ) (resize : Resize) (key : Key) (datum : Ptr) (w : World) (idle : IsIdle w) where
  -- The locks up to the point where only the slot is held.
  pub insert_key_with-at :
      (w.entries (home key w)).rwlock ≡ unlocked
      → insert_key_with fuel resize key datum w
        ≡ insert_at fuel resize key datum
            (home key w)
            (locked exclusive (home key w ∷ []) (begun w))
  unfolding insert_key_with hold
  insert_key_with-at free =
      let b = home key w in
      let t = set_errno 0 (table_held exclusive (bump CounterName.inserts 1 w)) in
      rw (
        counter_add-bump CounterName.inserts 1 w idle.counting.inserts,
        call_table-take rw_wrlock exclusive (bump CounterName.inserts 1 w) wrlock-Takes
            idle.tablelock,
        counter_add-bump CounterName.probes 1 t idle.counting.probes,
        call_entry-take exclusive rw_wrlock b [] (table_held exclusive (begun w)) wrlock-Takes free
            refl,
        call_table-give exclusive (locked exclusive (b ∷ []) (begun w)) wrlock-Takes.given
            idle.tablelock,
      )

-- How the walk for duplicates ends: whether one forbids the insertion, and at which depth.
unfoldable pub dup_in : Key → List Ptr → ℕ → World → Bool × ℕ
dup_in key [] depth w = (false, depth)
dup_in key (p ∷ ps) depth w =
    if not w.ht.dups_allowed && matches w key p then (true, depth) else dup_in key ps (depth + 1) w

pub scan_dups-dup_in :
    (fuel : ℕ) (key : Key) (q : Ptr) (ps hs : List Ptr) (depth : ℕ) (w : World)
    → IsChain w.entries q ps
    → length ps < fuel
    → scan_dups fuel key q depth (locked exclusive hs w) ≡ some (dup_in key ps depth w)
unfolding scan_dups dup_in
scan_dups-dup_in zero key q ps hs depth w c enough = absurd (omega arith)
scan_dups-dup_in (suc fuel) key q [] hs depth w c enough = rw c
scan_dups-dup_in (suc fuel) key q (p ∷ ps) hs depth w c enough =
    let onward =
      scan_dups-dup_in fuel key (w.entries p).next ps hs (depth + 1) w c.5 (omega arith) in
    rw
      (
        c.0,
        ==_of_ne p null c.1,
        matches-locked exclusive hs w p key,
        next-locked exclusive hs w p,
        onward,
      )
      (ground arith)

module _ (key : Key) (datum b : Ptr) (w : World) (free : (w.entries b).rwlock ≡ unlocked) where
  filled_same :
      (a : Ptr)
      → (with_lock unlocked b (
            set_entry b
              (fill key datum ((locked exclusive (b ∷ []) w).entries b))
              (locked exclusive (b ∷ []) w))).entries
          a
        ≡ (set_entry b (fill key datum (w.entries b)) w).entries a
  unfolding hold
  filled_same a = ground arith

  filled_lock :
      let v = locked exclusive (b ∷ []) w in
      ((set_entry b (fill key datum (v.entries b)) v).entries b).rwlock ≡ exclusive
  unfolding hold
  filled_lock = ground arith

  pub fill_vacant-filled :
      fill_vacant key datum b (locked exclusive (b ∷ []) w)
      ≡ (pos 0, set_entry b (fill key datum (w.entries b)) w)
  unfolding fill_vacant
  fill_vacant-filled =
      let v = locked exclusive (b ∷ []) w in
      rw (call_entry-unlock b (set_entry b (fill key datum (v.entries b)) v) filled_lock)
        (ap {B = ℤ × World} (λ es. (pos 0, record w { entries = es })) (fun_ext filled_same))

  pub reject_dup-rejected :
      (depth : ℕ)
      → w.ht.stats.searches.mutex ≡ unlocked
      → w.ht.stats.hits.mutex ≡ unlocked
      → reject_dup b depth (locked exclusive (b ∷ []) w)
        ≡ (negsuc 0, set_errno eexist (counted depth w))
  unfolding reject_dup
  reject_dup-rejected depth searches hits = rw (
    count_search-tally depth (locked exclusive (b ∷ []) w) searches,
    counter_add-bump CounterName.hits 1
        (locked exclusive (b ∷ []) (tally AverageName.searches depth w)) hits,
    call_entry-give exclusive b (b ∷ []) [] (set_errno eexist (counted depth w)) wrlock-Takes.given
        free (ground arith) (λ a. ground arith),
    locked-nil exclusive (set_errno eexist (counted depth w)),
  )

-- The entry `f` is filled and hangs behind `b`.
abbrev pub linked : Key → (datum f b : Ptr) → World → World
linked key datum f b w =
    let hung = record (fill key datum (w.entries f)) { next = (w.entries b).next } in
    set_entry b (record (w.entries b) { next = f }) (set_entry f hung w)

-- The first free entry is taken: the free chain is shorter, and its statistics count one less.
abbrev pub stocked : World → World
stocked w =
    let taken = set_freechain (w.entries w.ht.freechain).next w in
    tally AverageName.freechain (wrap64 (w.ht.stats.freechain.current + (2 ^ 64 - 1))) taken

-- What an insertion into a chain leaves behind.
abbrev pub attached : Key → (datum b : Ptr) (depth : ℕ) → World → World
attached key datum b depth w =
    tally AverageName.depth depth (linked key datum w.ht.freechain b (stocked w))

module _ (key : Key) (datum b : Ptr) (depth : ℕ) (w : World) (ne : b ≢ w.ht.freechain)
    (free : (w.entries b).rwlock ≡ unlocked) where
  abbrev cut : World
  cut =
      let f = w.ht.freechain in
      let v = locked exclusive (b ∷ []) w in set_entry f (record (v.entries f) { next = null }) v

  abbrev count : ℕ
  count = wrap64 (w.ht.stats.freechain.current + (2 ^ 64 - 1))

  abbrev stock : World
  stock = tally AverageName.freechain count (set_freechain (w.entries w.ht.freechain).next cut)

  link_idle :
      w.ht.stats.depth.mutex ≡ unlocked
      → (link key datum w.ht.freechain b stock).ht.stats.depth.mutex ≡ unlocked
  unfolding link
  link_idle h = h

  abbrev done : World
  done = tally AverageName.depth depth (link key datum w.ht.freechain b stock)

  linked_lock : (done.entries b).rwlock ≡ exclusive
  unfolding hold link
  linked_lock = ground arith

  linked_same :
      (a : Ptr) → (with_lock unlocked b done).entries a ≡ (attached key datum b depth w).entries a
  unfolding hold link
  linked_same a = ground arith

  done-attached : with_lock unlocked b done ≡ attached key datum b depth w
  unfolding link
  done-attached =
      ap (λ es. record (attached key datum b depth w) { entries = es }) (fun_ext linked_same)

  pub attach-attached :
      (resize : Resize)
      → IsIdle w
      → attach resize key datum b depth (free_held exclusive (locked exclusive (b ∷ []) w))
        ≡ resize_if_full resize (attached key datum b depth w)
  unfolding attach take_free
  attach-attached resize idle =
      let f = w.ht.freechain in
      let v = locked exclusive (b ∷ []) w in
      rw
        (
          average_increment-tally AverageName.freechain count
              (set_freechain (v.entries f).next (free_held exclusive cut)) idle.counting.freechain,
          next-locked exclusive (b ∷ []) w f,
          call_free-give stock idle.freelock,
          average_increment-tally AverageName.depth depth (link key datum f b stock)
              (link_idle idle.counting.depth),
          call_entry-unlock b done linked_lock,
        )
        (ap (resize_if_full resize) done-attached)

-- Where duplicates are forbidden the walk for them counts as a search.
abbrev pub searched : ℕ → World → World
searched depth w =
    let s = w.ht.stats in
    let counted_stats = (tally AverageName.searches depth w).ht.stats in
    record w { ht = record w.ht { stats = if w.ht.dups_allowed then s else counted_stats } }

pub searched-IsIdle : (depth : ℕ) (w : World) → IsIdle w → IsIdle (searched depth w)
searched-IsIdle depth w i = elim (Bool-cases w.ht.dups_allowed) [
  | inl allowed ↦ record {
    tablelock = i.tablelock;
    freelock = i.freelock;
    resizemutex = i.resizemutex;
    counting = rw allowed i.counting;
  }
  | inr forbidden ↦ record {
    tablelock = i.tablelock;
    freelock = i.freelock;
    resizemutex = i.resizemutex;
    counting = rw forbidden (tally-IsCounting AverageName.searches depth w i.counting);
  }
]

module _ (fuel : ℕ) (resize : Resize) (key : Key) (datum b : Ptr) (depth : ℕ) (w : World)
    (idle : IsIdle w) (free : (w.entries b).rwlock ≡ unlocked) where
  pub search_counted :
      (if w.ht.dups_allowed
        then locked exclusive (b ∷ []) w
        else count_search depth (locked exclusive (b ∷ []) w))
      ≡ locked exclusive (b ∷ []) (searched depth w)
  search_counted =
      rw (count_search-tally depth (locked exclusive (b ∷ []) w) idle.counting.searches)
        (elim (Bool-cases w.ht.dups_allowed) [
          | inl allowed ↦ rw allowed
          | inr forbidden ↦ rw forbidden
        ])

  pub chain_key-attached :
      w.ht.freechain ≢ null
      → b ≢ w.ht.freechain
      → chain_key (suc fuel) resize key datum b depth (locked exclusive (b ∷ []) w)
        ≡ resize_if_full resize (attached key datum b depth (searched depth w))
  unfolding chain_key fill_free attach_or_fail Option.bind
  chain_key-attached ready apart =
      let v = locked exclusive (b ∷ []) (searched depth w) in
      rw (
        search_counted,
        call_free-take v idle.freelock,
        ==_of_ne w.ht.freechain null ready,
        attach-attached key datum b depth (searched depth w) apart free resize
            (searched-IsIdle depth w idle),
      )
