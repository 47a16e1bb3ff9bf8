-- ===== src/Hashtable/Sweep/Laws.antt =====
-- What `ht_sweep` returns for slots without a chain, and for a slot with one.
use zfstest.Prelude.{
  ℕ, zero, suc, ◌+◌, ◌<◌, ◌≡◌, refl, ◌≢◌, true, [], ◌∷◌, some, ==_of_ne, arith, ◌-◌, sym, subst,
}
use mathlib.Core.Option
use zfstest.Hashtable.Lock.{unlocked, exclusive, eperm, rw_wrlock, rw_unlock}
use zfstest.Hashtable.Data.{Ptr, null, World}
use zfstest.Hashtable.Stats.Bumps.{IsIdle, bump}
use zfstest.Hashtable.Stats.{CounterName}
use zfstest.Hashtable.Locate.{call_entry}
use zfstest.Hashtable.Locate.Search.{count_error-bump}
use zfstest.Hashtable.Locate.Found.{call_table-take, call_table-give}
use zfstest.Hashtable.Chain.{locked, hold}
use zfstest.Hashtable.Chain.Locked.{
  wrlock-Takes, call_entry-take, call_entry-give, locked-nil, with_lock,
}
use zfstest.Hashtable.Sweep.{sweep_chain, sweep_entries, sweep}

-- An entry whose lock is initialised and free.
abbrev pub IsReady : World → Ptr → Type 0
IsReady w p = ((w.entries p).lock_initialized ≡ true) × ((w.entries p).rwlock ≡ unlocked)

take_entry :
    (p : Ptr) (w : World)
    → (w.entries p).rwlock ≡ unlocked
    → call_entry rw_wrlock p w ≡ (0, locked exclusive (p ∷ []) w)
unfolding hold
take_entry p w free = call_entry-take exclusive rw_wrlock p [] w wrlock-Takes free refl

give_entry :
    (p : Ptr) (w : World)
    → (w.entries p).rwlock ≡ unlocked
    → call_entry rw_unlock p (locked exclusive (p ∷ []) w) ≡ (0, w)
give_entry p w free = rw (
  call_entry-give exclusive p (p ∷ []) [] w wrlock-Takes.given free (ground arith)
      (λ a. ground arith),
  locked-nil exclusive w,
)

alone :
    (fuel : ℕ) (p : Ptr) (w : World)
    → (w.entries p).next ≡ null
    → sweep_chain (suc fuel) p p w ≡ some (0, w)
unfolding sweep_chain
alone fuel p w last = rw last

sweep_entries-quiet :
    (fuel : ℕ) (p : Ptr) (count : ℕ) (w : World)
    → ((i : ℕ) → i < count → IsReady w (p + i))
    → ((i : ℕ) → i < count → (w.entries (p + i)).next ≡ null)
    → sweep_entries (suc fuel) p count w ≡ some (0, w)
unfolding sweep_entries Option.bind
sweep_entries-quiet fuel p zero w ready last = refl
sweep_entries-quiet fuel p (suc count) w ready last =
    let shift : (i : ℕ) → p + suc i ≡ p + 1 + i = λ i. omega arith in
    let rest =
      sweep_entries-quiet fuel (p + 1) count w
        (λ i h. subst (IsReady w) (shift i) (ready (suc i) (omega arith)))
        (λ i h. subst (λ a. (w.entries a).next ≡ null) (shift i) (last (suc i) (omega arith))) in
    let here : p + 0 ≡ p = omega arith in
    let (set, free) = subst (IsReady w) here (ready 0 (omega arith)) in
    let end = subst (λ a. (w.entries a).next ≡ null) here (last 0 (omega arith)) in
    rw (set, take_entry p w free, give_entry p w free, alone fuel p w end) rest

give_free :
    (p : Ptr) (w : World)
    → (w.entries p).rwlock ≡ unlocked
    → call_entry rw_unlock p w ≡ (eperm, with_lock unlocked p w)
unfolding call_entry rw_unlock
give_free p w free = rw free

-- What a sweep leaves behind that stops at the entry `n` on the chain of `p`.
abbrev stuck : (p n : Ptr) → World → World
stuck p n w = bump CounterName.errors 1 (with_lock unlocked p (locked exclusive (n ∷ []) w))

module _ (fuel : ℕ) (p n : Ptr) (w : World) (errors : w.ht.stats.errors.mutex ≡ unlocked)
    (ready : IsReady w p) (chained : (w.entries p).next ≡ n) (ne : n ≢ null) (apart : n ≢ p)
    (free : (w.entries n).rwlock ≡ unlocked) where
  off_entry : ((locked exclusive (n ∷ []) w).entries p).rwlock ≡ unlocked
  unfolding hold
  off_entry = ground (arith, ready)

  sweep_chain-stuck : sweep_chain (suc fuel) p p w ≡ some (eperm, stuck p n w)
  unfolding sweep_chain
  sweep_chain-stuck =
      let v = with_lock unlocked p (locked exclusive (n ∷ []) w) in
      rw (
        chained,
        ==_of_ne n null ne,
        ready.0,
        take_entry n w free,
        give_free p (locked exclusive (n ∷ []) w) off_entry,
        count_error-bump v errors,
      )

  sweep_entries-stuck :
      (count : ℕ) → sweep_entries (suc fuel) p (suc count) w ≡ some (eperm, stuck p n w)
  unfolding sweep_entries Option.bind
  sweep_entries-stuck count =
      rw (ready.0, take_entry p w ready.1, give_entry p w ready.1, sweep_chain-stuck)

  stuck_lock : ((stuck p n w).entries n).rwlock ≡ exclusive
  unfolding hold
  stuck_lock = ground arith

module _ (fuel : ℕ) (w : World) (idle : IsIdle w) where
  -- `ht_sweep` of a table whose slots all have initialised, free locks and no chain, with no lock
  -- of the head held and fuel not 0, returns 0 and leaves the state as it was.
  pub sweep-quiet :
      ((i : ℕ) → i < (w.slabs w.ht.table).entrycount → IsReady w ((w.slabs w.ht.table).entry + i))
      → ((i : ℕ)
          → i < (w.slabs w.ht.table).entrycount
          → (w.entries ((w.slabs w.ht.table).entry + i)).next ≡ null)
      → sweep (suc fuel) w ≡ some (0, w)
  unfolding sweep
  sweep-quiet ready last =
      rw
        (
          call_table-take rw_wrlock exclusive w wrlock-Takes idle.tablelock,
          call_table-give exclusive w wrlock-Takes.given idle.tablelock,
        )
        (sweep_entries-quiet fuel (w.slabs w.ht.table).entry (w.slabs w.ht.table).entrycount w ready
          last)

  -- `ht_sweep` of a table from whose first slot a chain hangs returns EPERM and leaves the second
  -- entry of that chain locked for writing, where the locks of the slot, of that entry and of the
  -- head are free, the slot's lock is initialised and fuel is not 0.
  pub sweep-chain :
      (n : Ptr)
      → 0 < (w.slabs w.ht.table).entrycount
      → IsReady w (w.slabs w.ht.table).entry
      → (w.entries (w.slabs w.ht.table).entry).next ≡ n
      → n ≢ null
      → n ≢ (w.slabs w.ht.table).entry
      → (w.entries n).rwlock ≡ unlocked
      → (v : World) × (sweep (suc fuel) w ≡ some (eperm, v)) × ((v.entries n).rwlock ≡ exclusive)
  unfolding sweep
  sweep-chain n some_slots ready chained ne apart free =
      let table = w.slabs w.ht.table in
      let m = table.entrycount - 1 in
      let errors = idle.counting.errors in
      let count : suc m ≡ table.entrycount = omega arith in
      (
        stuck table.entry n w,
        rw
            (
              call_table-take rw_wrlock exclusive w wrlock-Takes idle.tablelock,
              call_table-give exclusive w wrlock-Takes.given idle.tablelock,
              sym count,
            )
            (sweep_entries-stuck fuel table.entry n w errors ready chained ne apart free m),
        stuck_lock fuel table.entry n w errors ready chained ne apart free,
      )
