-- ===== src/Hashtable/Slab.antt =====
-- Slabs of entries: `ht_init_entries`, `ht_destroy_entries`, `ht_create_slab`, `ht_destroy_slab`.
pub mod Laws
use zfstest.Prelude.{ℕ, zero, suc, ◌+◌, ◌==◌, ltb, if◌then◌else◌, Bool, true, false, []}
use zfstest.Hashtable.Lock.{Mode, lock_init, lock_destroy, einval, enomem}
use zfstest.Hashtable.Data.{Ptr, null, Entry, Slab, World, write, set_entry, set_errno}

-- `malloc` of `blocks` blocks of the size of an entry. `free` gives no address back.
unfoldable pub malloc : ℕ → World → Ptr × World
malloc blocks w =
    if ltb w.limit (w.brk + blocks)
    then (null, set_errno enomem w)
    else (w.brk, record w { brk = w.brk + blocks })

abbrev pub cleared : Mode → Bool → Entry
cleared m lock_initialized = record {
  rwlock = m;
  next = null;
  key = [];
  datum = null;
  occupied = false;
  lock_initialized = lock_initialized;
}

-- The body of the loop of `ht_init_entries`. The flag that its `if` tests has just been cleared.
unfoldable pub init_entry : Ptr → World → ℕ × World
init_entry hte w =
    let (ret, m) = lock_init (w.entries hte).rwlock in
    if ret == 0
    then (0, set_entry hte (cleared m true) w)
    else (1, set_errno ret (set_entry hte (cleared m false) w))

-- Returns how many entries could not be initialised.
unfoldable pub init_entries : Ptr → ℕ → World → ℕ × World
init_entries hte zero w = (0, w)
init_entries hte (suc numents) w =
    let (bad, w₁) = init_entry hte w in
    let (result, w₂) = init_entries (hte + 1) numents w₁ in (bad + result, w₂)

-- The body of the loop of `ht_destroy_entries`; `ret` is what the last `rwlock_destroy` returned.
unfoldable pub destroy_entry : Ptr → ℕ → World → ℕ × ℕ × World
destroy_entry hte ret w =
    let e = w.entries hte in
    let (ret', m) = lock_destroy e.rwlock in
    if e.lock_initialized
    then (if ret' == 0
        then (0, ret', set_entry hte (cleared m false) w)
        else (1, ret', set_errno ret' (set_entry hte (cleared m true) w)))
    else (1, ret, set_errno ret (set_entry hte (cleared e.rwlock false) w))

-- Returns how many entries could not be destroyed.
unfoldable pub destroy_entries : Ptr → ℕ → ℕ → World → ℕ × World
destroy_entries hte zero ret w = (0, w)
destroy_entries hte (suc numents) ret w =
    let (bad, ret', w₁) = destroy_entry hte ret w in
    let (result, w₂) = destroy_entries (hte + 1) numents ret' w₁ in (bad + result, w₂)

-- The header takes one block. `header.next` keeps what the fresh memory holds.
unfoldable pub create_slab : ℕ → World → Ptr × World
create_slab numents w =
    let (slab, w₁) = malloc (1 + numents) w in
    let header = record (w₁.slabs slab) { entry = slab + 1; entrycount = numents } in
    let (bad, w₂) =
      init_entries (slab + 1) numents (record w₁ { slabs = write w₁.slabs slab header }) in
    if numents == 0
    then (null, set_errno einval w)
    else (if slab == null then (null, w₁) else (if bad == 0 then (slab, w₂) else (null, w₂)))

-- Returns 0, or the number of entries that could not be destroyed.
unfoldable pub destroy_slab : Ptr → World → ℕ × World
destroy_slab slab w =
    let header = w.slabs slab in
    let (ret, w₁) = destroy_entries header.entry header.entrycount 0 w in
    let blank : Slab = record { next = null; entry = null; entrycount = 0 } in
    if ret == 0 then (0, record w₁ { slabs = write w₁.slabs slab blank }) else (ret, w₁)
