-- ===== src/Hashtable/Lock.antt =====
-- The locks of synch.h (`rwlock_t`, `mutex_t`), as the calling thread sees them: what a call on a
-- lock returns, and how it leaves the lock. A call returns 0 or an error number.
use zfstest.Prelude.{ℕ, zero, suc}

-- `unset` memory holds no lock. `shared n` is held for reading n + 1 times. Every call on a
-- `failing e` lock returns the error e + 1.
pub data Mode : Type 0 where
  unset : Mode
  unlocked : Mode
  shared : ℕ → Mode
  exclusive : Mode
  failing : ℕ → Mode

-- errno.h
abbrev pub eperm : ℕ
eperm = 1

abbrev pub enoent : ℕ
enoent = 2

abbrev pub enomem : ℕ
enomem = 12

abbrev pub ebusy : ℕ
ebusy = 16

abbrev pub eexist : ℕ
eexist = 17

abbrev pub einval : ℕ
einval = 22

abbrev pub edeadlk : ℕ
edeadlk = 45

-- `mutex_init` and `rwlock_init`
unfoldable pub lock_init : Mode → ℕ × Mode
lock_init (failing e) = (suc e, failing e)
lock_init _ = (0, unlocked)

-- `mutex_destroy` and `rwlock_destroy`
unfoldable pub lock_destroy : Mode → ℕ × Mode
lock_destroy unset = (einval, unset)
lock_destroy unlocked = (0, unset)
lock_destroy (shared n) = (ebusy, shared n)
lock_destroy exclusive = (ebusy, exclusive)
lock_destroy (failing e) = (suc e, failing e)

-- `mutex_lock` and `rw_wrlock`
unfoldable pub rw_wrlock : Mode → ℕ × Mode
rw_wrlock unset = (einval, unset)
rw_wrlock unlocked = (0, exclusive)
rw_wrlock (shared n) = (edeadlk, shared n)
rw_wrlock exclusive = (edeadlk, exclusive)
rw_wrlock (failing e) = (suc e, failing e)

unfoldable pub rw_rdlock : Mode → ℕ × Mode
rw_rdlock unset = (einval, unset)
rw_rdlock unlocked = (0, shared 0)
rw_rdlock (shared n) = (0, shared (suc n))
rw_rdlock exclusive = (edeadlk, exclusive)
rw_rdlock (failing e) = (suc e, failing e)

-- `mutex_unlock` and `rw_unlock`
unfoldable pub rw_unlock : Mode → ℕ × Mode
rw_unlock unset = (einval, unset)
rw_unlock unlocked = (eperm, unlocked)
rw_unlock (shared zero) = (0, unlocked)
rw_unlock (shared (suc n)) = (0, shared n)
rw_unlock exclusive = (0, unlocked)
rw_unlock (failing e) = (suc e, failing e)
