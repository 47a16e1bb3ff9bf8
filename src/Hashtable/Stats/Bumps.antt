-- ===== src/Hashtable/Stats/Bumps.antt =====
-- What the statistics functions do while no mutex of theirs is held.
use zfstest.Prelude.{ℕ, ◌+◌, ◌≡◌, arith, pos}
use zfstest.Hashtable.Lock.{unlocked, rw_wrlock, rw_unlock}
use zfstest.Hashtable.Data.{Stats, Head, World, set_errno}
use zfstest.Hashtable.Stats.{
  CounterName, AverageName, get_counter, get_average, put_counter, put_average, wrap64, raise,
  counter_add, average_increment, average_update,
}

-- No mutex of the statistics is held.
pub record IsCounting (s : Stats) : Type 0 where
  pub depth : s.depth.mutex ≡ unlocked
  pub freechain : s.freechain.mutex ≡ unlocked
  pub searches : s.searches.mutex ≡ unlocked
  pub deletes : s.deletes.mutex ≡ unlocked
  pub errors : s.errors.mutex ≡ unlocked
  pub hits : s.hits.mutex ≡ unlocked
  pub inserts : s.inserts.mutex ≡ unlocked
  pub probes : s.probes.mutex ≡ unlocked
  pub resizes : s.resizes.mutex ≡ unlocked
  pub slabs : s.slabs.mutex ≡ unlocked

-- No lock of the table head is held.
pub record IsIdleHead (h : Head) : Type 0 where
  pub tablelock : h.tablelock ≡ unlocked
  pub freelock : h.freelock ≡ unlocked
  pub resizemutex : h.resizemutex ≡ unlocked
  pub counting : IsCounting h.stats

abbrev pub IsIdle : World → Type 0
IsIdle w = IsIdleHead w.ht

-- `counter_add` with its mutex free: the value grows and `errno` is 0.
abbrev pub bump : CounterName → ℕ → World → World
bump c delta w = set_errno 0 (
    put_counter c
      (record { mutex = unlocked; value = wrap64 ((get_counter c w.ht.stats).value + delta) }) w)

abbrev pub tally : AverageName → ℕ → World → World
tally c current w =
    let a = get_average c w.ht.stats in
    put_average c
      (record {
        mutex = unlocked;
        count = wrap64 (a.count + 1);
        sum = wrap64 (a.sum + current);
        current = current;
        maximum = raise a.maximum current;
      })
      w

abbrev pub merge : AverageName → ℕ → ℕ → ℕ → ℕ → World → World
merge c count sum current maximum w =
    let a = get_average c w.ht.stats in
    put_average c
      (record {
        mutex = unlocked;
        count = wrap64 (a.count + count);
        sum = wrap64 (a.sum + sum);
        current = current;
        maximum = raise (raise a.maximum maximum) current;
      })
      w

pub counter_add-bump :
    (c : CounterName) (delta : ℕ) (w : World)
    → (get_counter c w.ht.stats).mutex ≡ unlocked
    → counter_add c delta w ≡ (pos 0, bump c delta w)
unfolding counter_add rw_wrlock rw_unlock
counter_add-bump CounterName.deletes delta w h = rw h
counter_add-bump _ delta w h = rw h

pub average_increment-tally :
    (c : AverageName) (current : ℕ) (w : World)
    → (get_average c w.ht.stats).mutex ≡ unlocked
    → average_increment c current w ≡ (pos 0, tally c current w)
unfolding average_increment rw_wrlock rw_unlock
average_increment-tally AverageName.depth current w h = rw h
average_increment-tally _ current w h = rw h

pub average_update-merge :
    (c : AverageName) (count sum current maximum : ℕ) (w : World)
    → (get_average c w.ht.stats).mutex ≡ unlocked
    → average_update c count sum current maximum w ≡ (pos 0, merge c count sum current maximum w)
unfolding average_update rw_wrlock rw_unlock
average_update-merge AverageName.depth count sum current maximum w h = rw h
average_update-merge _ count sum current maximum w h = rw h

pub counter_IsCounting :
    (w : World) (c : CounterName)
    → IsCounting w.ht.stats
    → (get_counter c w.ht.stats).mutex ≡ unlocked
counter_IsCounting w CounterName.deletes i = i.deletes
counter_IsCounting w CounterName.errors i = i.errors
counter_IsCounting w CounterName.hits i = i.hits
counter_IsCounting w CounterName.inserts i = i.inserts
counter_IsCounting w CounterName.probes i = i.probes
counter_IsCounting w CounterName.resizes i = i.resizes
counter_IsCounting w CounterName.slabs i = i.slabs

pub average_IsCounting :
    (w : World) (c : AverageName)
    → IsCounting w.ht.stats
    → (get_average c w.ht.stats).mutex ≡ unlocked
average_IsCounting w AverageName.depth i = i.depth
average_IsCounting w AverageName.freechain i = i.freechain
average_IsCounting w AverageName.searches i = i.searches

pub bump-IsCounting :
    (c : CounterName) (delta : ℕ) (w : World)
    → IsCounting w.ht.stats
    → IsCounting (bump c delta w).ht.stats
bump-IsCounting CounterName.deletes delta w i = ground arith
bump-IsCounting _ delta w i = ground arith

pub tally-IsCounting :
    (c : AverageName) (current : ℕ) (w : World)
    → IsCounting w.ht.stats
    → IsCounting (tally c current w).ht.stats
tally-IsCounting AverageName.depth current w i = ground arith
tally-IsCounting _ current w i = ground arith
