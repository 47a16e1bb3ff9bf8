-- ===== src/Hashtable/Chain.antt =====
-- Chains of entries in memory, and memory in which some entries are locked.
pub mod Locked
pub mod Contents
use zfstest.Prelude.{ℕ, ◌≡◌, ◌≢◌, true, false, List, [], ◌∷◌, has, if◌then◌else◌}
use zfstest.Hashtable.Lock.{Mode, unlocked}
use zfstest.Hashtable.Data.{Ptr, null, Entry, World}

abbrev pub Heap : Type 0
Heap = Ptr → Entry

-- From `p` the `next` pointers lead through the distinct entries `ps`, each occupied and with its
-- lock free, to NULL.
abbrev pub IsChain : Heap → Ptr → List Ptr → Type 0
IsChain es p [] = p ≡ null
IsChain es p (q ∷ ps) =
    (p ≡ q)
    × (q ≢ null)
    × (has q ps ≡ false)
    × ((es q).rwlock ≡ unlocked)
    × ((es q).occupied ≡ true)
    × IsChain es (es q).next ps

-- The entries `ps` are held in mode `m`.
unfoldable pub hold : Mode → List Ptr → Heap → Heap
hold m ps es a = if has a ps then record (es a) { rwlock = m } else es a

abbrev pub locked : Mode → List Ptr → World → World
locked m ps w = record w { entries = hold m ps w.entries }
