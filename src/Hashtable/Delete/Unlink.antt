-- ===== src/Hashtable/Delete/Unlink.antt =====
-- `ht_delete_key` once the entry is found: what becomes of the chain and of the free chain.
use zfstest.Prelude.{◌≡◌, ◌≢◌, false, [], ◌∷◌, arith, ==_refl, ==_of_ne, ap, ap₂, sym, fun_ext, ◌∙◌}
use zfstest.Hashtable.Lock.{unlocked, exclusive, rw_wrlock}
use zfstest.Hashtable.Data.{Ptr, World, set_entry, set_errno}
use zfstest.Hashtable.Locate.{call_entry}
use zfstest.Hashtable.Insert.{set_freechain}
use zfstest.Hashtable.Delete.{count_failed, finish_delete, unlink, pull_up}
use zfstest.Hashtable.Chain.{hold, locked}
use zfstest.Hashtable.Chain.Locked.{
  free_held, call_free-take, call_free-give, with_lock, call_entry-unlock, wrlock-Takes,
  call_entry-take, next-locked,
}

finish_delete-unlocks :
    (p d : Ptr) (w : World)
    → w.ht.freelock ≡ unlocked
    → (w.entries p).rwlock ≡ exclusive
    → (w.entries d).rwlock ≡ exclusive
    → p ≢ d
    → finish_delete p d (free_held exclusive w)
      ≡ ((w.entries d).datum, set_errno 0 (with_lock unlocked d (with_lock unlocked p w)))
unfolding finish_delete count_failed
finish_delete-unlocks p d w free lp ld ne = rw (
  call_free-give w free,
  call_entry-unlock p w lp,
  call_entry-unlock d (with_lock unlocked p w) (rw (==_of_ne d p (λ e. ne (sym e))) ld),
  ==_refl d,
  ==_of_ne d p (λ e. ne (sym e)),
)

-- `d` is taken out of the chain behind `p` and stands first on the free chain.
abbrev pub unlinked : (p d : Ptr) → World → World
unlinked p d w =
    let shorter = set_entry p (record (w.entries p) { next = (w.entries d).next }) w in
    let freed = record (w.entries d) { occupied = false; next = w.ht.freechain } in
    set_errno 0 (set_freechain d (set_entry d freed shorter))

-- The writes of `unlink`, one by one.
abbrev writes : (p d : Ptr) → World → World
writes p d w =
    let w₁ = set_entry d (record (w.entries d) { occupied = false }) w in
    let w₂ = set_entry p (record (w₁.entries p) { next = (w₁.entries d).next }) w₁ in
    set_freechain d (set_entry d (record (w₂.entries d) { next = w₂.ht.freechain }) w₂)

unlink-writes :
    (p d : Ptr) (w : World)
    → w.ht.freelock ≡ unlocked
    → unlink p d w ≡ finish_delete p d (free_held exclusive (writes p d w))
unfolding unlink
unlink-writes p d w free =
    rw (call_free-take (set_entry d (record (w.entries d) { occupied = false }) w) free)

module _ (p d : Ptr) (w : World) (ne : p ≢ d) where
  abbrev pair_held : World
  pair_held = locked exclusive (p ∷ d ∷ []) w

  writes_locks :
      (((writes p d pair_held).entries p).rwlock ≡ exclusive)
      × (((writes p d pair_held).entries d).rwlock ≡ exclusive)
      × (((writes p d pair_held).entries d).datum ≡ (w.entries d).datum)
  unfolding hold
  writes_locks = ground arith

  writes_same :
      (w.entries p).rwlock ≡ unlocked
      → (w.entries d).rwlock ≡ unlocked
      → (a : Ptr)
      → (with_lock unlocked d (with_lock unlocked p (writes p d pair_held))).entries a
        ≡ (unlinked p d w).entries a
  unfolding hold
  writes_same lp ld a = ground arith

  -- `unlink` with both locks taken and the lock of the free chain free.
  pub unlink-unlinked :
      w.ht.freelock ≡ unlocked
      → (w.entries p).rwlock ≡ unlocked
      → (w.entries d).rwlock ≡ unlocked
      → unlink p d pair_held ≡ ((w.entries d).datum, unlinked p d w)
  unlink-unlinked free lp ld =
      unlink-writes p d pair_held free
      ∙ finish_delete-unlocks p d (writes p d pair_held) free writes_locks.0 writes_locks.1 ne
      ∙ ap₂ {C = Ptr × World} (λ v es. (v, record (unlinked p d w) { entries = es })) writes_locks.2
          (fun_ext (writes_same lp ld))

-- The entry `p` of the table takes over what the next one, `d`, holds.
abbrev pub pulled : (p d : Ptr) → World → World
pulled p d w =
    let e = w.entries d in
    set_entry p
      (record (w.entries p) {
        key = e.key;
        datum = e.datum;
        occupied = e.occupied;
        lock_initialized = e.lock_initialized;
      })
      w

pull_up-unlink :
    (p d : Ptr) (w : World) {w₁ : World}
    → (w.entries p).next ≡ d
    → call_entry rw_wrlock d w ≡ (0, w₁)
    → pull_up p w ≡ unlink p d (pulled p d w₁)
unfolding pull_up
pull_up-unlink p d w e took = rw (e, took)

module _ (p d : Ptr) (w : World) (ne : p ≢ d) where
  pulled_same :
      (a : Ptr)
      → (pulled p d (locked exclusive (d ∷ p ∷ []) w)).entries a
        ≡ (locked exclusive (p ∷ d ∷ []) (pulled p d w)).entries a
  unfolding hold
  pulled_same a = ground arith

  pulled_locks :
      (w.entries p).rwlock ≡ unlocked
      → (w.entries d).rwlock ≡ unlocked
      → (((pulled p d w).entries p).rwlock ≡ unlocked)
        × (((pulled p d w).entries d).rwlock ≡ unlocked)
        × (((pulled p d w).entries d).datum ≡ (w.entries d).datum)
  pulled_locks lp ld = ground arith

  -- The head of a chain is deleted by pulling the next entry up.
  pub pull_up-unlinked :
      w.ht.freelock ≡ unlocked
      → (w.entries p).next ≡ d
      → (w.entries p).rwlock ≡ unlocked
      → (w.entries d).rwlock ≡ unlocked
      → pull_up p (locked exclusive (p ∷ []) w) ≡ ((w.entries d).datum, unlinked p d (pulled p d w))
  pull_up-unlinked free e lp ld =
      let (lp', ld', same) = pulled_locks lp ld in
      pull_up-unlink p d (locked exclusive (p ∷ []) w) (next-locked exclusive (p ∷ []) w p ∙ e)
        (call_entry-take exclusive rw_wrlock d (p ∷ []) w wrlock-Takes ld (ground arith))
      ∙ ap (λ es. unlink p d (record w { entries = es })) (fun_ext pulled_same)
      ∙ unlink-unlinked p d (pulled p d w) ne free lp' ld'
      ∙ ap (λ v. (v, unlinked p d (pulled p d w))) same
