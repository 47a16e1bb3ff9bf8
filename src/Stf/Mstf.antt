-- ===== src/Stf/Mstf.antt =====
-- The client of the synchronisation server, lib/libmstf.c: mstf_sync, mstf_setvar, mstf_getvar,
-- mstf_find_server and mstf_error. What the system and the server answer is an argument.
pub mod Laws
use zfstest.Prelude.{
  ℕ, zero, suc, ◌+◌, ◌-◌, Bool, true, false, ◌&&◌, List, [], ◌∷◌, ◌++◌, ◌==◌, ltb, if◌then◌else◌,
  take, length, Option, none, some,
}
use zfstest.Stf.Number.{Text, codes}

-- One call of fgets: a line if it returns one, and `errno` if it sets it.
pub record Read : Type 0 where
  pub line : Option Text
  pub error : Option ℕ

pub record Net : Type 0 where
  pub serv_set : Bool
  pub malloc_works : Bool
  pub resolves : Bool
  pub socket_works : Bool
  pub connects : Bool
  pub fdopen_works : Bool
  pub write_error : Option ℕ
  pub reads : ℕ → Read
  -- MSTF_EXIT_ON_ERROR is 1
  pub exit_on_error : Bool
  -- what the buffer of the reply holds at first
  pub junk : Text

-- Whether the address is cached, and the streams that are open.
pub record State : Type 0 where
  pub cached : Bool
  pub streams : ℕ

abbrev pub stf_pass : ℕ
stf_pass = 0

abbrev pub stf_unresolved : ℕ
stf_unresolved = 2

abbrev pub eintr : ℕ
eintr = 4

-- A call returns a code with the text of its buffer, ends the process, does what C does not
-- define, or its fuel ran out.
pub data Answer : Type 0 where
  returns : ℕ → Text → Answer
  exits : ℕ → Answer
  undefined : Answer
  hangs : Answer

pub data Found : Type 0 where
  connected : Found
  no_server : Found
  unresolvable : Found

abbrev pub close : State → State
close s = record s { streams = s.streams - 1 }

module _ (net : Net) where
  unfoldable pub connect_server : State → Found × State
  connect_server s =
      if net.socket_works && (net.connects && net.fdopen_works)
      then (connected, record s { cached = true; streams = s.streams + 1 })
      else (no_server, record s { cached = true })

  unfoldable pub find_server : State → Found × State
  unfolding connect_server
  find_server s =
      if s.cached
      then connect_server s
      else if net.serv_set
      then (if net.malloc_works
          then (if net.resolves
              then connect_server s
              else (unresolvable, record s { cached = true }))
          else (no_server, s))
      else (no_server, s)

  -- mstf_error, and the return behind it
  abbrev pub fail : Text → State → Answer × State
  fail text s = (if net.exit_on_error then exits stf_unresolved else returns stf_unresolved text, s)

-- `errno` behind a call.
abbrev pub errno_of : Option ℕ → ℕ → ℕ
errno_of none errno = errno
errno_of (some e) errno = e

-- The buffer behind a call: at most `size` - 1 characters of the line, or what it was.
abbrev pub buffer_of : ℕ → Option Text → Text → Text
buffer_of size none buffer = buffer
buffer_of size (some line) buffer = take (size - 1) line

-- `do { fgets(...); } while (errno == EINTR);`: a call that succeeds leaves `errno` as it is.
unfoldable pub read_reply : ℕ → ℕ → (ℕ → Read) → ℕ → Text → Option (ℕ × Text)
read_reply zero size reads errno buffer = none
read_reply (suc fuel) size reads errno buffer =
    let e = errno_of (reads 0).error errno in
    let b = buffer_of size (reads 0).line buffer in
    let rest = read_reply fuel size (λ i. reads (suc i)) e b in
    if e == eintr then rest else some (e, b)

abbrev pub buflen : ℕ
buflen = 128

-- strncmp with the length of the prefix
abbrev pub starts : Text → Text → Bool
starts [] text = true
starts (c ∷ prefix) [] = false
starts (c ∷ prefix) (d ∷ text) = (c == d) && starts prefix text

module _ (net : Net) where
  -- The reply of mstf_sync; an error of the read leaves the stream open.
  unfoldable pub sync_reply : Option (ℕ × Text) → State → Answer × State
  sync_reply none s = (hangs, s)
  sync_reply (some (errno, reply)) s =
      if errno == 0
      then (if starts (codes "go") reply
          then (returns stf_pass reply, close s)
          else fail net reply (close s))
      else fail net reply s

  unfoldable pub sync_write : ℕ → Option ℕ → State → Answer × State
  unfolding sync_reply
  sync_write fuel (some e) s = fail net net.junk (close s)
  sync_write fuel none s = sync_reply (read_reply fuel buflen net.reads 0 net.junk) s

  unfoldable pub on_found : (State → Answer × State) → Text → Found × State → Answer × State
  on_found go buffer (connected, s) = go s
  on_found go buffer (no_server, s) = fail net buffer s
  on_found go buffer (unresolvable, s) = (exits stf_unresolved, s)

  unfoldable pub mstf_sync : ℕ → State → Answer × State
  unfolding sync_write on_found
  mstf_sync fuel s = on_found (sync_write fuel net.write_error) net.junk (find_server net s)

  unfoldable pub set_write : Option ℕ → State → Answer × State
  set_write (some e) s = fail net [] (close s)
  set_write none s = (returns stf_pass [], close s)

  unfoldable pub mstf_setvar : State → Answer × State
  unfolding set_write on_found
  mstf_setvar s = on_found (set_write net.write_error) [] (find_server net s)

  -- The reply of mstf_getvar loses two characters before `errno` is looked at.
  unfoldable pub get_reply : Option (ℕ × Text) → State → Answer × State
  get_reply none s = (hangs, s)
  get_reply (some (errno, reply)) s =
      let value = take (length reply - 2) reply in
      if ltb (length reply) 2
      then (undefined, s)
      else if errno == 0
      then (returns stf_pass value, close s)
      else fail net value (close s)

  unfoldable pub get_write : ℕ → ℕ → Option ℕ → Text → State → Answer × State
  unfolding get_reply
  get_write fuel size (some e) buffer s = fail net buffer (close s)
  get_write fuel size none buffer s = get_reply (read_reply fuel size net.reads 0 buffer) s

  unfoldable pub mstf_getvar : ℕ → ℕ → Text → State → Answer × State
  unfolding get_write on_found
  mstf_getvar fuel size buffer s =
      on_found (get_write fuel size net.write_error buffer) buffer (find_server net s)
