-- ===== src/Hashtable/Locate/Laws.antt =====
-- The contract of `ht_locate_key`.
use zfstest.Prelude.{
  ℕ, ◌+◌, ◌<◌, ◌≡◌, refl, false, ◌∙◌, List, [], ◌∷◌, some, Bool-cases, length, if◌then◌else◌, ap,
  inl, inr,
}
use zfstest.Hashtable.Lock.{unlocked, enoent}
use zfstest.Hashtable.Data.{Ptr, null, Key, World, set_errno}
use zfstest.Hashtable.Stats.{CounterName, AverageName}
use zfstest.Hashtable.Stats.Bumps.{IsIdle, tally}
use zfstest.Hashtable.Locate.{matches, home, locate_key}
use zfstest.Hashtable.Locate.Found.{probed, lookup_in, locate_key-lookup_in, locate_key-vacant}
use zfstest.Hashtable.Chain.{IsChain}
use zfstest.Hashtable.Chain.Contents.{same_key, occurs, find, get_or, contents}
use zfstest.Hashtable.Steady.{Steady, bump-IsIdle, tally-IsIdle}

-- A search changed no entry, and said by `errno` whether it found the key.
pub record Looked (w v : World) (key : Key) (ps : List Ptr) : Type 0 where
  pub steady : Steady w v
  pub entries : v.entries ≡ w.entries
  pub freechain : v.ht.freechain ≡ w.ht.freechain
  pub errno : v.errno ≡ (if occurs (same_key w key) (contents w.entries ps) then 0 else enoent)

lookup_in-Looked :
    (key : Key) (ps : List Ptr) (depth : ℕ) (w : World)
    → IsIdle w
    → Looked w (lookup_in key ps depth w).1 key ps
unfolding lookup_in occurs
lookup_in-Looked key [] depth w idle = record {
  steady = record {
    idle = tally-IsIdle AverageName.searches depth (set_errno enoent w) idle;
    slabs = refl;
    head = refl;
  };
  entries = refl;
  freechain = refl;
  errno = refl;
}
lookup_in-Looked key (p ∷ ps) depth w idle =
    let rest = lookup_in-Looked key ps (depth + 1) w idle in
    elim (Bool-cases (matches w key p)) [
      | inl hit ↦ record {
        steady = rw hit (record {
          idle =
              bump-IsIdle CounterName.hits 1 (tally AverageName.searches depth w)
                (tally-IsIdle AverageName.searches depth w idle);
          slabs = refl;
          head = refl;
        });
        entries = rw hit;
        freechain = rw hit;
        errno = rw hit;
      }
      | inr miss ↦ record {
        steady = rw miss rest.steady;
        entries = rw miss rest.entries;
        freechain = rw miss rest.freechain;
        errno = rw miss rest.errno;
      }
    ]

Looked-probed :
    (key : Key) (ps : List Ptr) (w v : World) → Looked (probed w) v key ps → Looked w v key ps
Looked-probed key ps w v l = record {
  steady = record { idle = l.steady.idle; slabs = l.steady.slabs; head = l.steady.head };
  entries = l.entries;
  freechain = l.freechain;
  errno = l.errno;
}

lookup_in-find :
    (key : Key) (ps : List Ptr) (depth : ℕ) (w : World)
    → (lookup_in key ps depth w).0 ≡ get_or (find (same_key w key) (contents w.entries ps)) null
unfolding lookup_in find
lookup_in-find key [] depth w = refl
lookup_in-find key (p ∷ ps) depth w = elim (Bool-cases (matches w key p)) [
  | inl hit ↦ rw hit
  | inr miss ↦ rw miss (lookup_in-find key ps (depth + 1) w)
]

module _ (fuel : ℕ) (key : Key) (ps : List Ptr) (w : World) where
  -- What a search of the slot `home key w`, which holds the entries `ps`, comes to.
  abbrev pub Locates : Type 0
  Locates =
      (v : World) × (locate_key fuel key w
        ≡ some (get_or (find (same_key w key) (contents w.entries ps)) null, v))
      × Looked w v key ps

module _ (fuel : ℕ) (key : Key) (w : World) (idle : IsIdle w) where
  -- `ht_locate_key` where the slot is occupied: if no lock of the table head is held and the
  -- slot's entries are a chain with its locks free, no longer than the fuel, it returns the data
  -- of the first pair whose key compares as equal, or NULL; `errno` is 0 or ENOENT accordingly;
  -- entries, locks, free chain and table are as before.
  pub locate_key-find :
      (ps : List Ptr)
      → IsChain w.entries (home key w) (home key w ∷ ps)
      → length ps < fuel
      → Locates fuel key (home key w ∷ ps) w
  locate_key-find ps c enough =
      let b = home key w in
      let r = lookup_in key (b ∷ ps) 0 (probed w) in
      (
        r.1,
        locate_key-lookup_in fuel key ps w idle c enough
            ∙ ap (λ (d : Ptr). some (d, r.1)) (lookup_in-find key (b ∷ ps) 0 (probed w)),
        Looked-probed key (b ∷ ps) w r.1
            (lookup_in-Looked key (b ∷ ps) 0 (probed w) (bump-IsIdle CounterName.probes 1 w idle)),
      )

  -- `ht_locate_key` where the slot is empty and its lock, like those of the head, is free returns
  -- NULL with `errno` ENOENT, and entries, locks, free chain and table are as before.
  pub locate_key-empty :
      (w.entries (home key w)).occupied ≡ false
      → (w.entries (home key w)).rwlock ≡ unlocked
      → Locates fuel key [] w
  unfolding find occurs
  locate_key-empty empty free = (
    set_errno enoent (probed w),
    locate_key-vacant fuel key [] w idle empty free,
    record {
      steady = record { idle = bump-IsIdle CounterName.probes 1 w idle; slabs = refl; head = refl };
      entries = refl;
      freechain = refl;
      errno = refl;
    },
  )
