-- ===== src/Hashtable/Data.antt =====
-- hashtable_data.h: entries, slabs, statistics and the table head, and the state that the
-- functions of libhashtable.c pass on.
use zfstest.Prelude.{ℕ, ◌==◌, if◌then◌else◌, Bool, List, Option}
use zfstest.Hashtable.Lock.{Mode}

-- An address. Address 0 is NULL.
abbrev pub Ptr : Type 0
Ptr = ℕ

abbrev pub null : Ptr
null = 0

-- The bytes that a `void *key` points to. They stay outside the table and unchanged.
abbrev pub Key : Type 0
Key = List ℕ

-- `datum` is the source's field `data`; the two bits of `flags` are two fields.
pub record Entry : Type 0 where
  pub rwlock : Mode
  pub next : Ptr
  pub key : Key
  pub datum : Ptr
  pub occupied : Bool
  pub lock_initialized : Bool

pub record Slab : Type 0 where
  pub next : Ptr
  pub entry : Ptr
  pub entrycount : ℕ

pub record Counter : Type 0 where
  pub mutex : Mode
  pub value : ℕ

pub record Average : Type 0 where
  pub mutex : Mode
  pub count : ℕ
  pub sum : ℕ
  pub current : ℕ
  pub maximum : ℕ

pub record Stats : Type 0 where
  pub depth : Average
  pub freechain : Average
  pub searches : Average
  pub deletes : Counter
  pub errors : Counter
  pub hits : Counter
  pub inserts : Counter
  pub probes : Counter
  pub resizes : Counter
  pub slabs : Counter

-- The fields of `hashtable_t` less `old`, which links table heads.
pub record Head : Type 0 where
  pub tablelock : Mode
  pub freelock : Mode
  pub resizemutex : Mode
  pub keysize : ℕ
  pub resize_implicit : Bool
  pub dups_allowed : Bool
  pub slabs : Ptr
  pub table : Ptr
  pub freechain : Ptr
  pub hash_compute : Key → ℕ → ℕ → ℕ
  pub key_compare : Key → Key → ℕ → ℕ
  -- `none` is a NULL pointer
  pub threshold_evaluate : Option (ℕ → ℕ → ℕ → ℕ → ℕ → ℕ)
  pub stats : Stats

-- The memory that entries and slabs live in, `errno`, the table head at hand, and the heads that
-- its field `old` leads to. `malloc` gives the addresses from `brk` on, up to `limit`; what stands
-- at fresh addresses is arbitrary.
pub record World : Type 0 where
  pub ht : Head
  pub old : List Head
  pub entries : Ptr → Entry
  pub slabs : Ptr → Slab
  pub brk : Ptr
  pub limit : Ptr
  pub errno : ℕ

abbrev pub write {ℓ} : {A : Type ℓ} → (Ptr → A) → Ptr → A → Ptr → A
write f p v a = if a == p then v else f a

abbrev pub set_entry : Ptr → Entry → World → World
set_entry p e w = record w { entries = write w.entries p e }

abbrev pub set_errno : ℕ → World → World
set_errno e w = record w { errno = e }
