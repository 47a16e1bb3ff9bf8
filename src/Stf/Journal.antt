-- ===== src/Stf/Journal.antt =====
-- The journal of libstf.c: its state, the calls that return or end the process, and the parts that
-- its functions share. The functions are in Journal/Entry.
pub mod Entry
pub mod Run
pub mod Start
pub mod Keeps
pub mod Words
pub mod Session
use zfstest.Prelude.{
  ℕ, ◌+◌, ◌-◌, ◌%◌, ◌^◌, Bool, true, false, List, [], ◌∷◌, ◌++◌, ◌==◌, ltb, if◌then◌else◌, take,
  length, Option, none, some,
}
use zfstest.Stf.Number.{Text}
use zfstest.Stf.Context.{maxchar}

-- struct jvars without its mutex; the counters have 16 bits.
pub record Vars : Type 0 where
  pub jasrt : Text
  pub jsubid : Text
  pub jargid : Text
  pub jseq : ℕ
  pub jblk : ℕ
  pub jact : ℕ
  pub jsubcnt : ℕ

-- The static pointer of vfile_mmap: NULL, the variables, or the -1 of a failed mmap.
pub data Mapping : Type 0 where
  unmapped mapped refused : Mapping

-- What the system answers. `fd` is the descriptor of the journal file.
pub record System : Type 0 where
  pub journal_set : Bool
  pub journal_opens : Bool
  pub fd : ℕ
  pub varfile_set : Bool
  pub varfile_opens : Bool
  pub mmap_works : Bool
  pub lock_works : Bool
  pub unlock_works : Bool
  -- get_time, which formats the clock
  pub time : Text
  pub signalled : ℕ → Bool
  pub signal : ℕ → ℕ

-- `opened` counts the descriptors of the journal file; `written` has what went to a descriptor.
pub record World : Type 0 where
  pub mapping : Mapping
  pub vars : Vars
  pub locked : Bool
  pub opened : ℕ
  pub written : List (ℕ × Text)
  pub unlinked : Bool

-- A call returns, ends the process, or does what C does not define.
pub data Result (A : Type 0) : Type 0 where
  done : A → Result A
  exits : Result A
  undefined : Result A

abbrev pub M : Type 0 → Type 0
M A = World → Result A × World

abbrev pub after : {A B : Type 0} → Result A × World → (A → M B) → Result B × World
after (done a, w) f = f a w
after (exits, w) f = (exits, w)
after (undefined, w) f = (undefined, w)

infixl 5 ◌>>=◌ ◌>>◌
abbrev pub ◌>>=◌ : {A B : Type 0} → M A → (A → M B) → M B
◌>>=◌ m f w = after (m w) f

abbrev pub ◌>>◌ : {B : Type 0} → M (Unit {0}) → M B → M B
m >> k = m >>= λ _. k

abbrev pub return : {A : Type 0} → A → M A
return a w = (done a, w)

abbrev pub require : Bool → M (Unit {0})
require true w = (done tt, w)
require false w = (undefined, w)

abbrev pub update : (Vars → Vars) → M (Unit {0})
update f w = (done tt, record w { vars = f w.vars })

-- write(fd, text, strlen(text))
abbrev pub write : ℕ → Text → M (Unit {0})
write fd text w = (done tt, record w { written = w.written ++ (fd, text) ∷ [] })

-- snprintf into the buffer of MAXCHAR + 2, and print_entry
unfoldable pub print_entry : Text → ℕ → M (Unit {0})
print_entry text fd = write fd (take (maxchar + 1) text)

module _ (sys : System) where
  unfoldable pub stf_jnl_open : M ℕ
  stf_jnl_open w =
      if sys.journal_set
      then (if sys.journal_opens
          then (done sys.fd, record w { opened = w.opened + 1 })
          else (exits, w))
      else (done 1, w)

  unfoldable pub stf_jnl_close : ℕ → M (Unit {0})
  stf_jnl_close fd w = (done tt, if fd == 1 then w else record w { opened = w.opened - 1 })

  -- Whether there is a pointer to the variables.
  unfoldable pub map_first : World → Bool × World
  map_first w =
      if sys.varfile_set
      then (if sys.varfile_opens
          then (if sys.mmap_works
              then (true, record w { mapping = mapped })
              else (false, record w { mapping = refused }))
          else (false, w))
      else (false, w)

  unfoldable pub map_again : Mapping → World → Bool × World
  unfolding map_first
  map_again unmapped w = map_first w
  map_again mapped w = (true, w)
  map_again refused w = (false, w)

  unfoldable pub vfile_mmap : M Bool
  unfolding map_again
  vfile_mmap w = let (found, w₁) = map_again w.mapping w in (done found, w₁)

  unfoldable pub mutex_lock : M (Unit {0})
  mutex_lock w = if sys.lock_works then (done tt, record w { locked = true }) else (exits, w)

  unfoldable pub mutex_unlock : M (Unit {0})
  mutex_unlock w = if sys.unlock_works then (done tt, record w { locked = false }) else (exits, w)
