-- ===== src/Tests/Tables.antt =====
-- The tables of the runs and of the witnesses.
use zfstest.Prelude.{arith, ℕ, refl, Bool, true, false, [], ◌∷◌, ◌==◌, if◌then◌else◌, some, pos}
use zfstest.Hashtable.Lock.{Mode, unset, unlocked, lock_init}
use zfstest.Hashtable.Data.{Entry, Counter, Average, Stats, Head, World, Key, Ptr, null}
use zfstest.Hashtable.Hash.{hash_bytes, bcmp, evaluate_threshold_default}
use zfstest.Hashtable.Create.Laws.{IsFreshHead, HasRoom}
use zfstest.Hashtable.Stats.Bumps.{IsCounting, IsIdle}
use zfstest.Hashtable.Insert.Steps.{Resize}

abbrev average : Mode → Average
average m = record { mutex = m; count = 7; sum = 7; current = 7; maximum = 7 }

abbrev counter : Mode → Counter
counter m = record { mutex = m; value = 7 }

abbrev stats : Mode → Stats
stats m = record {
  depth = average m;
  freechain = average m;
  searches = average m;
  deletes = counter m;
  errors = counter m;
  hits = counter m;
  inserts = counter m;
  probes = counter m;
  resizes = counter m;
  slabs = counter m;
}

-- A head all of whose locks are in the mode `m`.
abbrev pub head_in : Mode → Head
head_in m = record {
  tablelock = m;
  freelock = m;
  resizemutex = m;
  keysize = 1;
  resize_implicit = true;
  dups_allowed = false;
  slabs = 9;
  table = 9;
  freechain = 21;
  hash_compute = hash_bytes;
  key_compare = bcmp;
  threshold_evaluate = some evaluate_threshold_default;
  stats = stats m;
}

abbrev pub entry : Ptr → Key → Ptr → Bool → Entry
entry next key datum occupied = record {
  rwlock = unlocked;
  next = next;
  key = key;
  datum = datum;
  occupied = occupied;
  lock_initialized = true;
}

abbrev pub key : ℕ → Key
key n = n ∷ []

-- The slots are the entries 10, which is empty, and 11, which has the key 1. The entry 20 with the
-- key 3 hangs on it; 21 and 22 are free.
abbrev chained_entry : Ptr → Entry
chained_entry p =
    if p == 11
    then entry 20 (key 1) 111 true
    else (if p == 20
        then entry null (key 3) 333 true
        else (if p == 21 then entry 22 [] null false else entry null [] null false))

abbrev world_of : (Ptr → Entry) → World
world_of entries = record {
  ht = head_in unlocked;
  old = [];
  entries = entries;
  slabs = λ p. record { next = null; entry = 10; entrycount = 2 };
  brk = 30;
  limit = 1000;
  errno = 0;
}

abbrev pub chained : World
chained = world_of chained_entry

-- The slot 11 has the key 1 and no chain.
abbrev pub single : World
single = world_of (λ p. if p == 11 then entry null (key 1) 111 true else entry null [] null false)

-- Every entry is empty.
abbrev pub vacant : World
vacant = world_of (λ p. entry null [] null false)

-- Memory before the first call.
abbrev pub fresh : World
fresh = record vacant {
  ht = head_in unset;
  entries = λ p. record (entry 5 [] 5 true) { rwlock = unset };
}

-- No operation of the runs resizes implicitly.
abbrev pub no_resize : Resize
no_resize numents w = some (pos 0, w)

pub chained-IsCounting : IsCounting (stats unlocked)
chained-IsCounting = record {
  depth = refl;
  freechain = refl;
  searches = refl;
  deletes = refl;
  errors = refl;
  hits = refl;
  inserts = refl;
  probes = refl;
  resizes = refl;
  slabs = refl;
}

pub chained-IsIdle : IsIdle chained
chained-IsIdle = record {
  tablelock = refl;
  freelock = refl;
  resizemutex = refl;
  counting = chained-IsCounting;
}

fresh-IsFreshHead : IsFreshHead (head_in unset)
unfolding lock_init
fresh-IsFreshHead = record {
  stats = record {
    depth = refl;
    freechain = refl;
    searches = refl;
    deletes = refl;
    errors = refl;
    hits = refl;
    inserts = refl;
    probes = refl;
    resizes = refl;
    slabs = refl;
  };
  tablelock = refl;
  freelock = refl;
  resizemutex = refl;
}

pub fresh-HasRoom : HasRoom (head_in unset) 4 fresh
unfolding lock_init
fresh-HasRoom = record {
  slots = omega arith;
  base = omega arith;
  room = omega arith;
  head = fresh-IsFreshHead;
  entries = λ a. refl;
}
