-- ===== src/Hashtable/Insert/Grown.antt =====
-- `ht_insert_key` into an occupied slot when the free chain is empty and memory is left.
use zfstest.Prelude.{
  ℕ, zero, suc, ◌+◌, ◌≤◌, ◌≡◌, refl, ◌≢◌, Bool, true, [], ◌∷◌, some, arith, ==_of_ne, ap, fun_ext,
  ◌∙◌, ◌==◌, Bool-cases, inl, inr,
}
use mathlib.Core.Option
use zfstest.Hashtable.Lock.{unlocked, exclusive, lock_init}
use zfstest.Hashtable.Data.{Ptr, null, Key, World}
use zfstest.Hashtable.Stats.Bumps.{IsIdle}
use zfstest.Hashtable.Stats.{CounterName}
use zfstest.Hashtable.Slab.Laws.{slab_added}
use zfstest.Hashtable.Steady.{bump-IsIdle}
use zfstest.Hashtable.Insert.{fill_free, grow_free, chain_key, attach_or_fail, resize_if_full}
use zfstest.Hashtable.Insert.Steps.{
  Resize, attached, searched, search_counted, searched-IsIdle, attach-attached,
}
use zfstest.Hashtable.Insert.Grow.{first, grown, HasSlab, grow_free-grown}
use zfstest.Hashtable.Chain.{hold, locked}
use zfstest.Hashtable.Chain.Locked.{free_held, call_free-take}

-- The lock of the slot `b` and that of the free chain are held.
abbrev both_held : Ptr → World → World
both_held b w = free_held exclusive (locked exclusive (b ∷ []) w)

first-here : (p n last : ℕ) → n ≢ 0 → first p n last ≡ p
first-here p zero last ne = absurd (ne refl)
first-here p (suc n) last ne = refl

fill_free-step :
    (fuel : ℕ) (x y : World)
    → x.ht.freechain ≡ null
    → grow_free x ≡ (true, y)
    → y.ht.freechain ≢ null
    → fill_free (suc (suc fuel)) x ≡ some (true, y)
unfolding fill_free
fill_free-step fuel x y empty grow more = rw (grow, empty, ==_of_ne y.ht.freechain null more)

module _ (n : ℕ) (b : Ptr) (w : World) (h : HasSlab n w) where
  held-HasSlab : HasSlab n (both_held b w)
  unfolding hold lock_init
  held-HasSlab = record {
    slots = h.slots;
    base = h.base;
    room = h.room;
    fresh =
        λ a. elim (Bool-cases (a == b)) [ inl here ↦ rw here | inr other ↦ rw other (h.fresh a) ];
  }

  grown-held : b ≤ w.brk → grown n (both_held b w) ≡ both_held b (grown n w)
  unfolding hold
  grown-held below =
      ap (λ es. record (both_held b (grown n w)) { entries = es }) (fun_ext (λ a. ground arith))

  pub grown-IsIdle : IsIdle w → IsIdle (grown n w)
  grown-IsIdle i =
      let c = (bump-IsIdle CounterName.slabs 1 (slab_added n w) i).counting in
      record {
        tablelock = i.tablelock;
        freelock = i.freelock;
        resizemutex = i.resizemutex;
        counting = record {
          depth = c.depth;
          freechain = refl;
          searches = c.searches;
          deletes = c.deletes;
          errors = c.errors;
          hits = c.hits;
          inserts = c.inserts;
          probes = c.probes;
          resizes = c.resizes;
          slabs = c.slabs;
        };
      }

  some_first : first (w.brk + 1) n w.ht.freechain ≡ w.brk + 1 → (grown n w).ht.freechain ≢ null
  some_first here = λ e. absurd (omega arith)

  fill_free-grown :
      (fuel : ℕ)
      → (w.slabs w.ht.table).entrycount ≡ n
      → IsIdle w
      → w.ht.freechain ≡ null
      → b ≤ w.brk
      → fill_free (suc (suc fuel)) (both_held b w) ≡ some (true, both_held b (grown n w))
  fill_free-grown fuel size i empty below =
      fill_free-step fuel (both_held b w) (both_held b (grown n w)) empty
        (grow_free-grown n (both_held b w) size held-HasSlab i.counting.slabs i.counting.freechain
          ∙ ap {B = Bool × World} (λ x. (true, x)) (grown-held below))
        (some_first (first-here (w.brk + 1) n w.ht.freechain h.slots))

  pub grown_lock :
      b ≤ w.brk → (w.entries b).rwlock ≡ unlocked → ((grown n w).entries b).rwlock ≡ unlocked
  grown_lock below free = ground arith

module _ (fuel : ℕ) (resize : Resize) (key : Key) (datum b : Ptr) (depth n : ℕ) (w : World)
    (idle : IsIdle w) (h : HasSlab n w) (size : (w.slabs w.ht.table).entrycount ≡ n)
    (below : b ≤ w.brk) (free : (w.entries b).rwlock ≡ unlocked)
    (empty : w.ht.freechain ≡ null) where
  searched-HasSlab : HasSlab n (searched depth w)
  searched-HasSlab = record { slots = h.slots; base = h.base; room = h.room; fresh = h.fresh }

  pub chain_key-grown :
      chain_key (suc (suc fuel)) resize key datum b depth (locked exclusive (b ∷ []) w)
      ≡ resize_if_full resize (attached key datum b depth (grown n (searched depth w)))
  unfolding chain_key attach_or_fail Option.bind
  chain_key-grown =
      let x = searched depth w in
      let i = searched-IsIdle depth w idle in
      let g = searched-HasSlab in
      let here = first-here (w.brk + 1) n w.ht.freechain h.slots in
      let apart : b ≢ (grown n x).ht.freechain = λ e. absurd (omega arith) in
      rw (
        search_counted fuel resize key datum b depth w idle free,
        call_free-take (locked exclusive (b ∷ []) x) idle.freelock,
        fill_free-grown n b x g fuel size i empty below,
        attach-attached key datum b depth (grown n x) apart (grown_lock n b x g below free) resize
            (grown-IsIdle n b x g i),
      )
