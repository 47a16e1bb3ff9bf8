-- ===== src/Hashtable/Steady.antt =====
-- What every operation on keys leaves alone: the table, its options and its functions.
use zfstest.Prelude.{ℕ, ◌+◌, ◌==◌, ◌≡◌, ap, ap₂}
use zfstest.Hashtable.Data.{Ptr, Key, Slab, Head, World}
use zfstest.Hashtable.Stats.{CounterName, AverageName}
use zfstest.Hashtable.Stats.Bumps.{IsIdle, bump, tally, bump-IsCounting, tally-IsCounting}
use zfstest.Hashtable.Locate.{home}
use zfstest.Hashtable.Insert.{set_freechain}
use zfstest.Hashtable.Chain.Contents.{same_key}

-- Between `w` and `v` only entries, the free chain, statistics and `errno` may have changed, and
-- no lock of the head is held in `v`.
pub record Steady (w v : World) : Type 0 where
  pub idle : IsIdle v
  pub slabs : v.slabs ≡ w.slabs
  pub head : v.ht ≡ record w.ht { stats = v.ht.stats; freechain = v.ht.freechain }

module _ {w v : World} (s : Steady w v) (key : Key) where
  pub home-Steady : home key v ≡ home key w
  home-Steady =
      ap₂
        (λ (slabs : Ptr → Slab) (h : Head).
          (slabs h.table).entry + h.hash_compute key h.keysize (slabs h.table).entrycount)
        s.slabs s.head

  pub same_key-Steady : (k : Key) → same_key v key k ≡ same_key w key k
  same_key-Steady k = ap (λ (h : Head). h.key_compare k key h.keysize == 0) s.head

pub bump-IsIdle : (c : CounterName) (delta : ℕ) (w : World) → IsIdle w → IsIdle (bump c delta w)
bump-IsIdle CounterName.deletes delta w i = record {
  tablelock = i.tablelock;
  freelock = i.freelock;
  resizemutex = i.resizemutex;
  counting = bump-IsCounting CounterName.deletes delta w i.counting;
}
bump-IsIdle c delta w i = record {
  tablelock = i.tablelock;
  freelock = i.freelock;
  resizemutex = i.resizemutex;
  counting = bump-IsCounting c delta w i.counting;
}

pub tally-IsIdle : (c : AverageName) (n : ℕ) (w : World) → IsIdle w → IsIdle (tally c n w)
tally-IsIdle c n w i = record {
  tablelock = i.tablelock;
  freelock = i.freelock;
  resizemutex = i.resizemutex;
  counting = tally-IsCounting c n w i.counting;
}

pub freechain-IsIdle : (p : Ptr) (w : World) → IsIdle w → IsIdle (set_freechain p w)
freechain-IsIdle p w i = record {
  tablelock = i.tablelock;
  freelock = i.freelock;
  resizemutex = i.resizemutex;
  counting = i.counting;
}
