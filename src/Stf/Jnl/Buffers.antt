-- ===== src/Stf/Jnl/Buffers.antt =====
-- _jnl_buffer_fetch of libjnl.c: the message buffers of a thread, which the hash table keeps.
pub mod Laws
use zfstest.Prelude.{
  ℕ, zero, suc, ◌+◌, Bool, true, false, List, [], ◌∷◌, ◌==◌, ltb, if◌then◌else◌, Option, none, some,
  ℤ, pos, negsuc,
}
use zfstest.Hashtable.Lock.{enoent}
use zfstest.Hashtable.Data.{Ptr, null, Key, World}
use zfstest.Hashtable.Locate.{locate_key}
use zfstest.Hashtable.Insert.{insert_key_with}

-- jnl_buffer_t: the owner, and a buffer for each kind of message.
pub record Group : Type 0 where
  pub thread_id : Key
  pub buffer : ℕ → Ptr

-- The table of contents, and the groups in memory.
pub record State : Type 0 where
  pub toc : World
  pub groups : Ptr → Group

-- What malloc gives: a group, and buffers for it; NULL if there is no memory.
pub record Memory : Type 0 where
  pub group : Ptr
  pub buffers : ℕ → Ptr

-- jnlBI_MAX_; the least index is 0
abbrev pub max_index : ℕ
max_index = 4

abbrev pub Resize : Type 0
Resize = ℕ → World → Option (ℤ × World)

abbrev pub put_group : Ptr → Group → (Ptr → Group) → Ptr → Group
put_group p g groups q = if q == p then g else groups q

-- Whether all of the buffers below `n` could be allocated.
unfoldable pub all_there : ℕ → (ℕ → Ptr) → Bool
all_there zero buffers = true
all_there (suc n) buffers = if buffers n == null then false else all_there n buffers

-- A pointer, or NULL, and the state behind the call; `none` means that fuel of the table ran out.
abbrev pub Fetched : Type 0
Fetched = Option (Ptr × State)

-- Behind the insertion: what was allocated is given back if it failed.
unfoldable pub inserted : Ptr → ℕ → (Ptr → Group) → (Ptr → Group) → Option (ℤ × World) → Fetched
inserted p index before groups none = none
inserted p index before groups (some (pos zero, toc)) =
    some ((groups p).buffer index, record { toc = toc; groups = groups })
inserted p index before groups (some (_, toc)) = some (null, record { toc = toc; groups = before })

unfoldable pub allocate : ℕ → Resize → Memory → Key → ℕ → State → Fetched
unfolding all_there inserted
allocate fuel resize memory thread index s =
    let groups =
      put_group memory.group (record { thread_id = thread; buffer = memory.buffers }) s.groups in
    let put = insert_key_with fuel resize thread memory.group s.toc in
    if memory.group == null
    then some (null, s)
    else if all_there max_index memory.buffers
    then inserted memory.group index s.groups groups put
    else some (null, s)

unfoldable pub found : ℕ → Resize → Memory → Key → ℕ → State → Option (Ptr × World) → Fetched
unfolding allocate
found fuel resize memory thread index s none = none
found fuel resize memory thread index s (some (p, toc)) =
    let t = record s { toc = toc } in
    if p == null
    then (if toc.errno == enoent
        then allocate fuel resize memory thread index t
        else some (null, t))
    else some ((s.groups p).buffer index, t)

unfoldable pub buffer_fetch : ℕ → Resize → Memory → Key → ℕ → State → Fetched
unfolding found
buffer_fetch fuel resize memory thread index s =
    if ltb index max_index
    then found fuel resize memory thread index s (locate_key fuel thread s.toc)
    else some (null, s)
