-- ===== src/Stf/Jnl/Message/Laws.antt =====
-- A message stays in its buffer when the same thread makes one of another kind.
use zfstest.Prelude.{
  ℕ, suc, ◌-◌, ◌<◌, ◌≡◌, ◌≢◌, refl, true, false, take, Option, some, ==_of_ne, ==_refl,
}
use zfstest.Hashtable.Lock.{unlocked}
use zfstest.Hashtable.Data.{Ptr, null, Key}
use zfstest.Hashtable.Stats.Bumps.{IsIdle}
use zfstest.Hashtable.Locate.{home}
use zfstest.Stf.Number.{Text}
use zfstest.Stf.Jnl.Buffers.{State, Memory, Resize, max_index, all_there, buffer_fetch}
use zfstest.Stf.Jnl.Buffers.Laws.{buffer_fetch-again}
use zfstest.Stf.Jnl.Message.{
  Messages, message_size, put_text, title_format, write_message, fill_buffer, vformat_message,
}

vformat_message-fetched :
    (fuel : ℕ) (resize : Resize) (memory : Memory) (thread : Key) (expand : Text → Option Text)
    (index : ℕ) (format t : Text) (m : Messages) (p : Ptr) (b : State)
    → buffer_fetch fuel resize memory thread index m.buffers ≡ some (p, b)
    → p ≢ null
    → expand (title_format index format) ≡ some t
    → vformat_message fuel resize memory thread expand index format m
      ≡ some (p, record { buffers = b; text = put_text p (take (message_size - 1) t) m.text })
unfolding vformat_message fill_buffer write_message
vformat_message-fetched fuel resize memory thread expand index format t m p b fetched ne e =
    rw (fetched, ==_of_ne p null ne, e) refl

module _ (fuel : ℕ) (resize : Resize) (memory other_memory : Memory) (thread : Key)
    (index other_index : ℕ) (m : Messages) (inside : index < max_index)
    (inside' : other_index < max_index)
    (own : m.buffers.toc.ht.key_compare thread thread m.buffers.toc.ht.keysize ≡ 0)
    (idle : IsIdle m.buffers.toc)
    (vacant : (m.buffers.toc.entries (home thread m.buffers.toc)).occupied ≡ false)
    (free : (m.buffers.toc.entries (home thread m.buffers.toc)).rwlock ≡ unlocked)
    (last : (m.buffers.toc.entries (home thread m.buffers.toc)).next ≡ null)
    (ne : home thread m.buffers.toc ≢ null) (group : memory.group ≢ null)
    (there : all_there max_index memory.buffers ≡ true) (p_ne : memory.buffers index ≢ null)
    (q_ne : memory.buffers other_index ≢ null)
    (apart : memory.buffers index ≢ memory.buffers other_index) where
  -- `jnl_vformat_message_`, called twice by a thread that has no buffers yet: with indices below
  -- the number of buffers, a table of contents where the slot of the thread is empty (its lock
  -- free, its `next` NULL, its address not NULL) and no lock of the head is held, a thread that
  -- compares as equal to itself, fuel not 0, memory for a group and for its buffers, those of the
  -- two indices not NULL and different, and formats that expand behind their titles, both calls
  -- return the buffer of their index, the second one whatever memory has then, and afterwards
  -- both buffers hold their message, cut at 1023 characters.
  pub vformat_message-kept :
      (expand other_expand : Text → Option Text) (format other_format t u : Text)
      → expand (title_format index format) ≡ some t
      → other_expand (title_format other_index other_format) ≡ some u
      → (m₁ m₂ : Messages) × (vformat_message (suc fuel) resize memory thread expand index format m
          ≡ some (memory.buffers index, m₁))
        × (vformat_message
              (suc fuel)
              resize
              other_memory
              thread
              other_expand
              other_index
              other_format
              m₁
            ≡ some (memory.buffers other_index, m₂))
        × (m₂.text (memory.buffers index) ≡ take (message_size - 1) t)
        × (m₂.text (memory.buffers other_index) ≡ take (message_size - 1) u)
  vformat_message-kept expand other_expand format other_format t u e e' =
      let (s₁, s₂, first, second) =
        buffer_fetch-again fuel resize memory other_memory thread index other_index m.buffers inside
          inside' own idle vacant free last ne group there in
      let p = memory.buffers index in
      let q = memory.buffers other_index in
      let m₁ : Messages = record {
        buffers = s₁;
        text = put_text p (take (message_size - 1) t) m.text;
      } in
      let m₂ : Messages = record {
        buffers = s₂;
        text = put_text q (take (message_size - 1) u) m₁.text;
      } in
      (
        m₁,
        m₂,
        vformat_message-fetched (suc fuel) resize memory thread expand index format t m p s₁ first
            p_ne e,
        vformat_message-fetched (suc fuel) resize other_memory thread other_expand other_index
            other_format u m₁ q s₂ second q_ne e',
        rw (==_of_ne p q apart, ==_refl p) refl,
        rw (==_refl q) refl,
      )
