-- ===== src/Hashtable/Create/Laws.antt =====
-- A new table: every slot is empty and no lock is held.
use zfstest.Prelude.{
  ℕ, ◌+◌, ◌≤◌, ◌<◌, ◌≡◌, refl, ◌≢◌, Bool, true, List, arith, ==_of_ne, ==_refl, ap, ◌∙◌, subst, sym,
  some,
}
use zfstest.Hashtable.Lock.{unlocked}
use zfstest.Hashtable.Data.{Ptr, null, Key, Average, Counter, Stats, Head, World}
use zfstest.Hashtable.Stats.{CounterName, average_init, counter_init}
use zfstest.Hashtable.Stats.Bumps.{IsCounting, IsIdle, bump, counter_add-bump}
use zfstest.Hashtable.Hash.{hash_bytes, bcmp, evaluate_threshold_default}
use zfstest.Hashtable.Hash.Laws.{hash_bytes-bound, bcmp_refl}
use zfstest.Hashtable.Slab.{cleared}
use zfstest.Hashtable.Slab.Laws.{IsFresh, clear, slab_added, create_slab-added, malloc-room}
use zfstest.Hashtable.Create.{init_stats, init_head, create}
use zfstest.Hashtable.Locate.{home}
use zfstest.Hashtable.Insert.Steps.{Resize}
use zfstest.Hashtable.RoundTrip.{FoundAfter, locate_key-insert_key_vacant}
use zfstest.Hashtable.Steady.{bump-IsIdle}

-- Statistics whose mutexes can all be initialised.
pub record IsFreshStats (s : Stats) : Type 0 where
  pub depth : IsFresh s.depth.mutex
  pub freechain : IsFresh s.freechain.mutex
  pub searches : IsFresh s.searches.mutex
  pub deletes : IsFresh s.deletes.mutex
  pub errors : IsFresh s.errors.mutex
  pub hits : IsFresh s.hits.mutex
  pub inserts : IsFresh s.inserts.mutex
  pub probes : IsFresh s.probes.mutex
  pub resizes : IsFresh s.resizes.mutex
  pub slabs : IsFresh s.slabs.mutex

-- A head whose locks can all be initialised.
pub record IsFreshHead (h : Head) : Type 0 where
  pub stats : IsFreshStats h.stats
  pub tablelock : IsFresh h.tablelock
  pub freelock : IsFresh h.freelock
  pub resizemutex : IsFresh h.resizemutex

abbrev no_average : Average
no_average = record { mutex = unlocked; count = 0; sum = 0; current = 0; maximum = 0 }

abbrev no_count : Counter
no_count = record { mutex = unlocked; value = 0 }

abbrev no_stats : Stats
no_stats = record {
  depth = no_average;
  freechain = no_average;
  searches = no_average;
  deletes = no_count;
  errors = no_count;
  hits = no_count;
  inserts = no_count;
  probes = no_count;
  resizes = no_count;
  slabs = no_count;
}

average_init-fresh : (a : Average) → IsFresh a.mutex → average_init a ≡ (0, no_average)
unfolding average_init
average_init-fresh a fresh = rw fresh

counter_init-fresh : (k : Counter) → IsFresh k.mutex → counter_init k ≡ (0, no_count)
unfolding counter_init
counter_init-fresh k fresh = rw fresh

init_stats-fresh : (s : Stats) → IsFreshStats s → init_stats s ≡ (0, no_stats)
unfolding init_stats
init_stats-fresh s f = rw (
  average_init-fresh s.depth f.depth,
  average_init-fresh s.freechain f.freechain,
  average_init-fresh s.searches f.searches,
  counter_init-fresh s.deletes f.deletes,
  counter_init-fresh s.errors f.errors,
  counter_init-fresh s.hits f.hits,
  counter_init-fresh s.inserts f.inserts,
  counter_init-fresh s.probes f.probes,
  counter_init-fresh s.resizes f.resizes,
  counter_init-fresh s.slabs f.slabs,
)

no_stats-IsCounting : IsCounting no_stats
no_stats-IsCounting = record {
  depth = refl;
  freechain = refl;
  searches = refl;
  deletes = refl;
  errors = refl;
  hits = refl;
  inserts = refl;
  probes = refl;
  resizes = refl;
  slabs = refl;
}

-- Memory is left for the head and the slab, and the locks there can be initialised.
pub record HasRoom (raw : Head) (numents : ℕ) (w : World) : Type 0 where
  pub slots : numents ≢ 0
  pub base : w.brk ≢ null
  pub room : w.brk + 1 + (1 + numents) ≤ w.limit
  pub head : IsFreshHead raw
  pub entries : (a : Ptr) → IsFresh (w.entries a).rwlock

module _ (raw : Head) (raw_old : List Head) (numents keysize : ℕ)
    (resize_implicit dups_allowed : Bool) (w : World) where
  abbrev new_head : Head
  new_head = record raw {
    keysize = keysize;
    resize_implicit = resize_implicit;
    dups_allowed = dups_allowed;
    threshold_evaluate = some evaluate_threshold_default;
    hash_compute = hash_bytes;
    key_compare = bcmp;
    freechain = null;
    stats = no_stats;
    tablelock = unlocked;
    freelock = unlocked;
    resizemutex = unlocked;
  }

  init_head-fresh :
      IsFreshHead raw → init_head raw keysize resize_implicit dups_allowed ≡ (0, new_head)
  unfolding init_head
  init_head-fresh f =
      rw (init_stats-fresh raw.stats f.stats, f.tablelock, f.freelock, f.resizemutex)

  -- The state with the new table, before its first slab is counted.
  abbrev table_added : World
  table_added =
      let slab = w.brk + 1 in
      let v = slab_added numents (record w { brk = slab }) in
      record v { ht = record new_head { slabs = slab; table = slab }; old = raw_old }

  abbrev pub created : World
  created = bump CounterName.slabs 1 table_added

  pub created-IsIdle : IsIdle created
  created-IsIdle = bump-IsIdle CounterName.slabs 1 table_added (record {
    tablelock = refl;
    freelock = refl;
    resizemutex = refl;
    counting = no_stats-IsCounting;
  })

  pub create-created :
      HasRoom raw numents w
      → create raw raw_old numents keysize resize_implicit dups_allowed w ≡ (true, created)
  unfolding create
  create-created r =
      let apart : w.brk + 1 ≢ null = omega arith in
      rw (
        malloc-room 1 w (omega arith),
        init_head-fresh r.head,
        create_slab-added numents (record w { brk = w.brk + 1 }) r.slots apart r.room r.entries,
        ==_of_ne numents 0 r.slots,
        ==_of_ne w.brk 0 r.base,
        ==_of_ne (w.brk + 1) 0 apart,
        counter_add-bump CounterName.slabs 1 table_added refl,
      )

  module _ (r : HasRoom raw numents w) (key : Key) where
    abbrev slot : Ptr
    slot = w.brk + 1 + 1 + hash_bytes key keysize numents

    slot-clear : clear (w.brk + 1 + 1) numents w.entries slot ≡ cleared unlocked true
    slot-clear =
        let some_slots : 0 < numents = omega (arith, r.slots) in
        let b = hash_bytes-bound key keysize some_slots in ground arith

    home-created : home key created ≡ slot
    home-created = rw (==_refl (w.brk + 1))

    home_clear : created.entries (home key created) ≡ cleared unlocked true
    home_clear = ap (clear (w.brk + 1 + 1) numents w.entries) home-created ∙ slot-clear

    -- `ht_create` with memory left, a number of entries other than 0 and locks that can be
    -- initialised makes a table; any key inserted into the new table goes in with result 0, and
    -- `ht_locate_key` then returns its data.
    pub create-insert_key :
        (fuel : ℕ) (resize : Resize) (datum : Ptr)
        → (create raw raw_old numents keysize resize_implicit dups_allowed w ≡ (true, created))
          × FoundAfter fuel resize key datum created
    create-insert_key fuel resize datum = (
      create-created r,
      locate_key-insert_key_vacant fuel resize key datum created (bcmp_refl key keysize)
          created-IsIdle (ap (λ e. e.occupied) home_clear) (ap (λ e. e.rwlock) home_clear)
          (ap (λ e. e.next) home_clear) (subst (λ a. a ≢ null) (sym home-created) (omega arith)),
    )
