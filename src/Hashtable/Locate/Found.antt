-- ===== src/Hashtable/Locate/Found.antt =====
-- `ht_locate_key` against a walk over the list of entries.
use zfstest.Prelude.{
  ℕ, ◌+◌, ◌<◌, ◌≡◌, refl, ◌≢◌, false, List, [], ◌∷◌, Option, none, some, Bool-cases, length, arith,
  sym, ==_of_ne, if◌then◌else◌, inl, inr, ap,
}
use zfstest.Hashtable.Lock.{Mode, unlocked, shared, enoent, rw_rdlock, rw_unlock}
use zfstest.Hashtable.Data.{Ptr, null, Key, World, set_errno}
use zfstest.Hashtable.Stats.{CounterName, AverageName}
use zfstest.Hashtable.Stats.Bumps.{
  IsCounting, IsIdle, bump, tally, counter_add-bump, bump-IsCounting,
}
use zfstest.Hashtable.Locate.{
  LockCall, FoundEntry, call_entry, call_table, matches, home, locate_entry_at, unlock_located,
  unlock_found, locate_entry, locate_key,
}
use zfstest.Hashtable.Locate.Search.{counted, outcome, search-outcome}
use zfstest.Hashtable.Chain.{IsChain, hold, locked}
use zfstest.Hashtable.Chain.Locked.{
  Takes, rdlock-Takes, call_entry-take, call_entry-give, locked-nil, occupied-locked, datum-locked,
}

-- The counters once a key has been looked for.
abbrev pub probed : World → World
probed w = bump CounterName.probes 1 w

module _ {f : LockCall} {m : Mode} (t : Takes f m) (key : Key) (previous : Option Ptr) (w : World)
    (c : IsCounting w.ht.stats) where
  take_home :
      ((w.entries (home key w)).rwlock ≡ unlocked)
      → call_entry f (home key w) (probed w) ≡ (0, locked m (home key w ∷ []) (probed w))
  unfolding hold
  take_home free = call_entry-take m f (home key w) [] (probed w) t free refl

  pub locate_entry_at-outcome :
      (fuel : ℕ) (ps : List Ptr)
      → IsChain w.entries (home key w) (home key w ∷ ps)
      → length ps < fuel
      → locate_entry_at fuel key f previous w
        ≡ some (outcome m key previous null (home key w ∷ ps) 0 (probed w))
  unfolding locate_entry_at
  locate_entry_at-outcome fuel ps chain enough =
      rw
        (
          counter_add-bump CounterName.probes 1 w c.probes,
          take_home chain.3,
          occupied-locked m (home key w ∷ []) (probed w) (home key w),
          chain.4,
        )
        (search-outcome t key previous fuel null (home key w) ps 0 (probed w)
          (bump-IsCounting CounterName.probes 1 w c) chain (inl refl) enough)

  pub locate_entry_at-vacant :
      (fuel : ℕ)
      → (w.entries (home key w)).occupied ≡ false
      → (w.entries (home key w)).rwlock ≡ unlocked
      → locate_entry_at fuel key f previous w ≡ some ((null, previous), set_errno enoent (probed w))
  unfolding locate_entry_at
  locate_entry_at-vacant fuel empty free = rw (
    counter_add-bump CounterName.probes 1 w c.probes,
    take_home free,
    occupied-locked m (home key w ∷ []) (probed w) (home key w),
    empty,
    call_entry-give m (home key w) (home key w ∷ []) [] (set_errno enoent (probed w)) t.given free
        (ground arith) (λ a. ground arith),
    locked-nil m (set_errno enoent (probed w)),
  )

-- The lock of the table in mode `m`.
abbrev pub table_held : Mode → World → World
table_held m w = record w { ht = record w.ht { tablelock = m } }

pub call_table-take :
    (f : LockCall) (m : Mode) (w : World)
    → Takes f m
    → w.ht.tablelock ≡ unlocked
    → call_table f w ≡ (0, table_held m w)
unfolding call_table
call_table-take f m w t free = rw (free, t.taken)

pub call_table-give :
    (m : Mode) (w : World)
    → rw_unlock m ≡ (0, unlocked)
    → w.ht.tablelock ≡ unlocked
    → call_table rw_unlock (table_held m w) ≡ (0, w)
unfolding call_table
call_table-give m w given free = rw given (ap {B = ℕ × World} (λ k. (0, table_held k w)) (sym free))

-- What looking for a key along the entries `ps` returns: the data of the first that matches, or
-- NULL and `ENOENT`. Only the statistics and `errno` change.
unfoldable pub lookup_in : Key → List Ptr → ℕ → World → Ptr × World
lookup_in key [] depth w = (null, tally AverageName.searches depth (set_errno enoent w))
lookup_in key (p ∷ ps) depth w =
    if matches w key p
    then ((w.entries p).datum, counted depth w)
    else lookup_in key ps (depth + 1) w

abbrev finish : FoundEntry × World → Ptr × World
finish r = let (hte, v) = unlock_located r.0.0 r.1 in unlock_found hte v

finish-null :
    (w : World)
    → w.ht.tablelock ≡ unlocked
    → finish ((null, none), table_held (shared 0) w) ≡ (null, w)
unfolding unlock_located unlock_found
finish-null w free = rw (call_table-give (shared 0) w (rdlock-Takes.given) free)

finish-found :
    (p : Ptr) (w : World)
    → w.ht.tablelock ≡ unlocked
    → p ≢ null
    → (w.entries p).rwlock ≡ unlocked
    → finish ((p, none), table_held (shared 0) (locked (shared 0) (p ∷ []) w))
      ≡ ((w.entries p).datum, w)
unfolding unlock_located unlock_found
finish-found p w free ne loose = rw (
  call_table-give (shared 0) (locked (shared 0) (p ∷ []) w) rdlock-Takes.given free,
  ==_of_ne p null ne,
  call_entry-give (shared 0) p (p ∷ []) [] w rdlock-Takes.given loose (ground arith)
      (λ a. ground arith),
  locked-nil (shared 0) w,
  datum-locked (shared 0) (p ∷ []) w p,
)

finish-outcome :
    (key : Key) (p q : Ptr) (ps : List Ptr) (depth : ℕ) (w : World)
    → w.ht.tablelock ≡ unlocked
    → IsChain w.entries q ps
    → finish (outcome (shared 0) key none p ps depth (table_held (shared 0) w))
      ≡ lookup_in key ps depth w
unfolding lookup_in
finish-outcome key p q [] depth w free c =
    finish-null (tally AverageName.searches depth (set_errno enoent w)) free
finish-outcome key p q (d ∷ ps) depth w free c = elim (Bool-cases (matches w key d)) [
  | inl hit ↦ rw hit (finish-found d (counted depth w) free c.1 c.3)
  | inr miss ↦ rw miss (finish-outcome key d (w.entries d).next ps (depth + 1) w free c.5)
]

module _ (fuel : ℕ) (key : Key) (ps : List Ptr) (w : World) (idle : IsIdle w) where
  abbrev held_world : World
  held_world = set_errno 0 (table_held (shared 0) w)

  -- `ht_locate_key`, with its locks taken hand over hand, equals a walk over the list of entries
  -- that takes no lock, in the value returned and the whole state left behind, if no lock of the
  -- table head is held and the slot's entries are a chain with its locks free, no longer than the
  -- fuel.
  pub locate_key-lookup_in :
      IsChain w.entries (home key w) (home key w ∷ ps)
      → length ps < fuel
      → locate_key fuel key w ≡ some (lookup_in key (home key w ∷ ps) 0 (probed w))
  unfolding locate_key locate_entry
  locate_key-lookup_in chain enough =
      rw
        (
          call_table-take rw_rdlock (shared 0) w rdlock-Takes idle.tablelock,
          locate_entry_at-outcome rdlock-Takes key none held_world idle.counting fuel ps chain
              enough,
        )
        (ap some (
          finish-outcome key null (home key w) (home key w ∷ ps) 0 (probed w) idle.tablelock chain))

  -- An empty slot.
  pub locate_key-vacant :
      (w.entries (home key w)).occupied ≡ false
      → (w.entries (home key w)).rwlock ≡ unlocked
      → locate_key fuel key w ≡ some (null, set_errno enoent (probed w))
  unfolding locate_key locate_entry
  locate_key-vacant empty free =
      rw
        (
          call_table-take rw_rdlock (shared 0) w rdlock-Takes idle.tablelock,
          locate_entry_at-vacant rdlock-Takes key none held_world idle.counting fuel empty free,
        )
        (ap some (finish-null (set_errno enoent (probed w)) idle.tablelock))
