-- ===== src/Stf/Journal/Start.antt =====
-- stf_jnl_start_pid of libstf.c: the variables are written anew, and the journal gets two lines.
pub mod Laws
use zfstest.Prelude.{
  ℕ, ◌+◌, Bool, true, false, not, List, [], ◌∷◌, ◌++◌, if◌then◌else◌, Option, none, some,
}
use zfstest.Stf.Number.{Text, codes}
use zfstest.Stf.Decimal.{decimal}
use zfstest.Stf.Journal.{
  Vars, System, World, done, exits, M, ◌>>=◌, ◌>>◌, return, update, print_entry, stf_jnl_open,
}

-- What the system answers to the calls of the start. `uname` has the five names.
pub record Host : Type 0 where
  pub varfile_creates : Bool
  pub mutex_works : Bool
  pub write_works : Bool
  pub start_mmap_works : Bool
  pub uname : Option Text
  pub uid : ℕ
  pub login : Option Text
  pub passwd_name : Option Text
  -- get_dt, which formats the date
  pub date : Text

abbrev pub first_vars : Vars
first_vars = record {
  jasrt = codes "?";
  jsubid = [];
  jargid = [];
  jseq = 0;
  jblk = 0;
  jact = 0;
  jsubcnt = 0;
}

abbrev pub username : Option Text → Option Text → Text
username (some name) passwd = name
username none (some name) = name
username none none = codes "unknown"

-- A step that fails prints its line and ends the process.
abbrev pub or_exit : Bool → Text → ℕ → M (Unit {0})
or_exit true line fd = return tt
or_exit false line fd = print_entry line fd >> (λ w. (exits, w))

abbrev pub names_or_exit : Option Text → ℕ → M Text
names_or_exit (some names) fd = return names
names_or_exit none fd =
    print_entry (codes "stderr| jnl_start: uname error\n") fd >> (λ w. (exits, w))

-- The mutex in the file is a new one.
abbrev pub new_vars : M (Unit {0})
new_vars w = (done tt, record w { vars = first_vars; locked = false })

module _ (sys : System) (host : Host) where
  abbrev pub start_line : Text
  start_line =
      codes "Start| "
      ++ (host.date
          ++ (b' ' ∷ username host.login host.passwd_name
              ++ (codes " ("
                  ++ (decimal host.uid
                      ++ (codes ") | tpi 1.4 | " ++ (sys.time ++ codes " 0 |\n"))))))

  abbrev pub names_line : ℕ → Text → Text
  names_line pid names = codes "Start| " ++ (decimal pid ++ (b' ' ∷ names ++ codes " |\n"))

  -- The result is whether VARFILE was put into the environment. The journal stays open.
  unfoldable pub stf_jnl_start_pid : ℕ → M Bool
  stf_jnl_start_pid pid = do
    fd ← stf_jnl_open sys
    or_exit host.varfile_creates (codes "stderr| jnl_start: vfile_mmap error\n") fd
    or_exit host.mutex_works (codes "stderr| jnl_start: mutex_init error\n") fd
    or_exit host.write_works (codes "jnl_start: write error\n") fd
    new_vars
    or_exit host.start_mmap_works (codes "stderr| jnl_start: VARFILE mmap error\n") fd
    names ← names_or_exit host.uname fd
    print_entry start_line fd
    print_entry (names_line pid names) fd
    return (not sys.varfile_set)
