-- ===== src/Stf/Jnl/Buffers/Laws.antt =====
-- A thread gets the same buffer each time.
use zfstest.Prelude.{
  ℕ, suc, ◌<◌, ◌≡◌, ◌≢◌, refl, true, false, ◌==◌, ltb, some, pos, arith, ap, ap₂, ◌∙◌, sym,
  ==_of_ne, ==_refl, if_true,
}
use zfstest.Hashtable.Lock.{unlocked, enoent}
use zfstest.Hashtable.Data.{Ptr, null, Key, World, Entry, Head}
use zfstest.Hashtable.Stats.Bumps.{IsIdle}
use zfstest.Hashtable.Chain.Contents.{find, occurs}
use zfstest.Hashtable.Locate.{home, locate_key}
use zfstest.Hashtable.Locate.Laws.{locate_key-empty}
use zfstest.Hashtable.Insert.{insert_key_with}
use zfstest.Hashtable.Steady.{home-Steady}
use zfstest.Hashtable.RoundTrip.{locate_key-insert_key_vacant}
use zfstest.Stf.Jnl.Buffers.{
  Group, State, Memory, Resize, max_index, put_group, all_there, buffer_fetch,
}

module _ (fuel : ℕ) (resize : Resize) (memory : Memory) (thread : Key) (index : ℕ) (s : State)
    (inside : index < max_index) where
  -- A new thread.
  buffer_fetch-new :
      (u v : World)
      → locate_key fuel thread s.toc ≡ some (null, u)
      → u.errno ≡ enoent
      → memory.group ≢ null
      → all_there max_index memory.buffers ≡ true
      → insert_key_with fuel resize thread memory.group u ≡ some (pos 0, v)
      → buffer_fetch fuel resize memory thread index s
        ≡ some (
          memory.buffers index,
          record {
            toc = v;
            groups =
                put_group memory.group
                  (record { thread_id = thread; buffer = memory.buffers })
                  s.groups;
          },
        )
  unfolding buffer_fetch
  buffer_fetch-new u v missing no_entry group there put =
      rw
        (
          in_range,
          missing,
          put,
          no_entry,
          ==_of_ne memory.group null group,
          there,
          ==_refl memory.group,
        )
        refl
    where
      in_range : ltb index max_index ≡ true
      in_range = ground arith

  -- A thread that has its buffers.
  buffer_fetch-old :
      (p : Ptr) (u : World)
      → locate_key fuel thread s.toc ≡ some (p, u)
      → p ≢ null
      → buffer_fetch fuel resize memory thread index s
        ≡ some ((s.groups p).buffer index, record s { toc = u })
  unfolding buffer_fetch
  buffer_fetch-old p u there ne = rw (in_range, there, ==_of_ne p null ne) refl
    where
      in_range : ltb index max_index ≡ true
      in_range = ground arith

module _ (fuel : ℕ) (resize : Resize) (memory other_memory : Memory) (thread : Key)
    (index other_index : ℕ) (s : State) (inside : index < max_index)
    (inside' : other_index < max_index)
    (own : s.toc.ht.key_compare thread thread s.toc.ht.keysize ≡ 0) (idle : IsIdle s.toc)
    (vacant : (s.toc.entries (home thread s.toc)).occupied ≡ false)
    (free : (s.toc.entries (home thread s.toc)).rwlock ≡ unlocked)
    (last : (s.toc.entries (home thread s.toc)).next ≡ null) (ne : home thread s.toc ≢ null)
    (group : memory.group ≢ null) (there : all_there max_index memory.buffers ≡ true) where
  -- A new thread gets a group of buffers with the first call, and keeps it: a second call, for
  -- whatever kind of message and whatever memory has then, returns a buffer of the same group.
  pub buffer_fetch-again :
      (s₁ s₂ : State) × (buffer_fetch (suc fuel) resize memory thread index s
        ≡ some (memory.buffers index, s₁))
      × (buffer_fetch (suc fuel) resize other_memory thread other_index s₁
          ≡ some (memory.buffers other_index, s₂))
  unfolding occurs find
  buffer_fetch-again =
      let (u, missing, l) = locate_key-empty (suc fuel) thread s.toc idle vacant free in
      let at = home-Steady l.steady thread in
      let same_slot : u.entries (home thread u) ≡ s.toc.entries (home thread s.toc) =
        ap₂ (λ (m : Ptr → Entry) (a : Ptr). m a) l.entries at in
      let own' : u.ht.key_compare thread thread u.ht.keysize ≡ 0 =
        ap (λ (h : Head). h.key_compare thread thread h.keysize) l.steady.head ∙ own in
      let (v, v', put, there_again) =
        locate_key-insert_key_vacant fuel resize thread memory.group u own' l.steady.idle
          (ap (λ (e : Entry). e.occupied) same_slot ∙ vacant)
          (ap (λ (e : Entry). e.rwlock) same_slot ∙ free)
          (ap (λ (e : Entry). e.next) same_slot ∙ last) (λ e. ne (sym at ∙ e)) in
      let groups =
        put_group memory.group (record { thread_id = thread; buffer = memory.buffers }) s.groups in
      (
        record { toc = v; groups = groups },
        record { toc = v'; groups = groups },
        buffer_fetch-new (suc fuel) resize memory thread index s inside u v missing l.errno group
            there put,
        buffer_fetch-old (suc fuel) resize other_memory thread other_index
              (record { toc = v; groups = groups }) inside' memory.group v' there_again group
            ∙ ap (λ (g : Group). some (g.buffer other_index, record { toc = v'; groups = groups }))
                (if_true (memory.group == memory.group) _ _ (==_refl memory.group)),
      )
