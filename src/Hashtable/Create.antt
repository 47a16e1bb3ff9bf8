-- ===== src/Hashtable/Create.antt =====
-- `ht_create`.
pub mod Laws
use zfstest.Prelude.{ℕ, ◌+◌, ◌==◌, if◌then◌else◌, Bool, true, false, List, some}
use zfstest.Hashtable.Lock.{lock_init, einval}
use zfstest.Hashtable.Data.{null, Head, Stats, World, set_errno}
use zfstest.Hashtable.Stats.{CounterName, counter_init, average_init, counter_add}
use zfstest.Hashtable.Hash.{hash_bytes, bcmp, evaluate_threshold_default}
use zfstest.Hashtable.Slab.{malloc, create_slab}

-- The three averages and the seven counters. All are initialised here; the source stops at the
-- first that fails and frees the head, so that no one sees the others.
unfoldable pub init_stats : Stats → ℕ × Stats
init_stats s =
    let (r₁, depth) = average_init s.depth in
    let (r₂, freechain) = average_init s.freechain in
    let (r₃, searches) = average_init s.searches in
    let (r₄, deletes) = counter_init s.deletes in
    let (r₅, errors) = counter_init s.errors in
    let (r₆, hits) = counter_init s.hits in
    let (r₇, inserts) = counter_init s.inserts in
    let (r₈, probes) = counter_init s.probes in
    let (r₉, resizes) = counter_init s.resizes in
    let (r₁₀, slabs) = counter_init s.slabs in
    (
      r₁ + r₂ + r₃ + r₄ + r₅ + r₆ + r₇ + r₈ + r₉ + r₁₀,
      record {
        depth = depth;
        freechain = freechain;
        searches = searches;
        deletes = deletes;
        errors = errors;
        hits = hits;
        inserts = inserts;
        probes = probes;
        resizes = resizes;
        slabs = slabs;
      },
    )

-- The head with its statistics and locks initialised, and whether all of that worked. `raw` is
-- what the memory of the head holds when `malloc` returns it.
unfoldable pub init_head :
    (raw : Head) (keysize : ℕ) (resize_implicit dups_allowed : Bool) → ℕ × Head
init_head raw keysize resize_implicit dups_allowed =
    let (r₁, stats) = init_stats raw.stats in
    let (r₂, tablelock) = lock_init raw.tablelock in
    let (r₃, freelock) = lock_init raw.freelock in
    let (r₄, resizemutex) = lock_init raw.resizemutex in
    (
      r₁ + r₂ + r₃ + r₄,
      record raw {
        keysize = keysize;
        resize_implicit = resize_implicit;
        dups_allowed = dups_allowed;
        threshold_evaluate = some evaluate_threshold_default;
        hash_compute = hash_bytes;
        key_compare = bcmp;
        freechain = null;
        stats = stats;
        tablelock = tablelock;
        freelock = freelock;
        resizemutex = resizemutex;
      },
    )

-- Whether a table was created; if so, its head is that of the new state. The field `old` is not
-- set: `raw_old` is what it leads to in the fresh memory.
unfoldable pub create :
    (raw : Head) (raw_old : List Head) (numents keysize : ℕ) (resize_implicit dups_allowed : Bool)
    → World
    → Bool × World
create raw raw_old numents keysize resize_implicit dups_allowed w =
    let (block, w₁) = malloc 1 w in
    let (bad, ht) = init_head raw keysize resize_implicit dups_allowed in
    let (slab, w₂) = create_slab numents w₁ in
    let ready = record w₂ { ht = record ht { slabs = slab; table = slab }; old = raw_old } in
    let (_, w₃) = counter_add CounterName.slabs 1 ready in
    if numents == 0
    then (false, set_errno einval w)
    else (if block == null
        then (false, w₁)
        else (if bad == 0 then (if slab == null then (false, w₂) else (true, w₃)) else (false, w₁)))
