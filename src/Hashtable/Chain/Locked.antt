-- ===== src/Hashtable/Chain/Locked.antt =====
-- What locking and unlocking one entry does to a set of locked ones.
use zfstest.Prelude.{
  ℕ, ◌≡◌, refl, true, false, not, ◌&&◌, List, [], ◌∷◌, has, ◌==◌, arith, fun_ext, ap, sym,
}
use zfstest.Hashtable.Lock.{Mode, unlocked, rw_wrlock, rw_rdlock, rw_unlock, exclusive, shared}
use zfstest.Hashtable.Data.{Ptr, Key, World, set_entry}
use zfstest.Hashtable.Locate.{LockCall, call_entry, matches}
use zfstest.Hashtable.Insert.{call_free}
use zfstest.Hashtable.Chain.{hold, locked}

-- `f` takes a free lock, which then is in mode `m` and can be given back.
pub record Takes (f : LockCall) (m : Mode) : Type 0 where
  pub taken : f unlocked ≡ (0, m)
  pub given : rw_unlock m ≡ (0, unlocked)

pub wrlock-Takes : Takes rw_wrlock exclusive
unfolding rw_wrlock rw_unlock
wrlock-Takes = record { taken = refl; given = refl }

pub rdlock-Takes : Takes rw_rdlock (shared 0)
unfolding rw_rdlock rw_unlock
rdlock-Takes = record { taken = refl; given = refl }

module _ (m : Mode) where
  pub call_entry-take :
      (f : LockCall) (p : Ptr) (ps : List Ptr) (w : World)
      → Takes f m
      → (w.entries p).rwlock ≡ unlocked
      → has p ps ≡ false
      → call_entry f p (locked m ps w) ≡ (0, locked m (p ∷ ps) w)
  unfolding call_entry hold
  call_entry-take f p ps w t free out =
      rw (out, free, t.taken)
        (ap {B = ℕ × World} (λ es. (0, record w { entries = es })) (fun_ext λ a. ground arith))

  pub call_entry-give :
      (p : Ptr) (ps qs : List Ptr) (w : World)
      → rw_unlock m ≡ (0, unlocked)
      → (w.entries p).rwlock ≡ unlocked
      → has p ps ≡ true
      → ((a : Ptr) → has a qs ≡ (not (a == p) && has a ps))
      → call_entry rw_unlock p (locked m ps w) ≡ (0, locked m qs w)
  unfolding call_entry hold
  call_entry-give p ps qs w t free here same =
      rw (here, t)
        (ap {B = ℕ × World} (λ es. (0, record w { entries = es }))
          (fun_ext λ a. ground (arith, same a)))

  -- Only which entries are held matters.
  pub locked_congr :
      (ps qs : List Ptr) (w : World)
      → ((a : Ptr) → has a ps ≡ has a qs)
      → locked m ps w ≡ locked m qs w
  unfolding hold
  locked_congr ps qs w same = ap (λ es. record w { entries = es }) (fun_ext λ a. rw (same a))

  pub locked-nil : (w : World) → locked m [] w ≡ w
  unfolding hold
  locked-nil w = refl

  module _ (ps : List Ptr) (w : World) (p : Ptr) where
    pub next-locked : ((locked m ps w).entries p).next ≡ (w.entries p).next
    unfolding hold
    next-locked = ground arith

    pub datum-locked : ((locked m ps w).entries p).datum ≡ (w.entries p).datum
    unfolding hold
    datum-locked = ground arith

    pub occupied-locked : ((locked m ps w).entries p).occupied ≡ (w.entries p).occupied
    unfolding hold
    occupied-locked = ground arith

    pub matches-locked : (key : Key) → matches (locked m ps w) key p ≡ matches w key p
    unfolding hold
    matches-locked key = ground arith

abbrev pub free_held : Mode → World → World
free_held m w = record w { ht = record w.ht { freelock = m } }

pub call_free-take :
    (w : World) → w.ht.freelock ≡ unlocked → call_free rw_wrlock w ≡ (0, free_held exclusive w)
unfolding call_free rw_wrlock
call_free-take w free = rw free

pub call_free-give :
    (w : World) → w.ht.freelock ≡ unlocked → call_free rw_unlock (free_held exclusive w) ≡ (0, w)
unfolding call_free rw_unlock
call_free-give w free = ap {B = ℕ × World} (λ k. (0, free_held k w)) (sym free)

abbrev pub with_lock : Mode → Ptr → World → World
with_lock m p w = set_entry p (record (w.entries p) { rwlock = m }) w

pub call_entry-unlock :
    (p : Ptr) (w : World)
    → (w.entries p).rwlock ≡ exclusive
    → call_entry rw_unlock p w ≡ (0, with_lock unlocked p w)
unfolding call_entry rw_unlock
call_entry-unlock p w e = rw e
