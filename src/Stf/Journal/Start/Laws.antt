-- ===== src/Stf/Journal/Start/Laws.antt =====
-- What the start of a run leaves behind.
use zfstest.Prelude.{ℕ, ◌+◌, ◌≡◌, ◌≢◌, refl, true, false, List, [], ◌∷◌, ◌++◌, not, take, some}
use zfstest.Stf.Number.{Text}
use zfstest.Stf.Context.{maxchar}
use zfstest.Stf.Journal.{System, World, done, print_entry, stf_jnl_open, ◌>>=◌}
use zfstest.Stf.Journal.Start.{Host, first_vars, start_line, names_line, stf_jnl_start_pid}
use zfstest.Stf.Journal.Session.{Call, perform_all}
use zfstest.Stf.Journal.Session.Laws.{perform_all-opened}

module _ (sys : System) (host : Host) (pid : ℕ) (names : Text) (w : World)
    (is_set : sys.journal_set ≡ true) (opens : sys.journal_opens ≡ true)
    (creates : host.varfile_creates ≡ true) (mutex : host.mutex_works ≡ true)
    (writes : host.write_works ≡ true) (maps : host.start_mmap_works ≡ true)
    (known : host.uname ≡ some names) where
  abbrev pub started : World
  started = record w {
    vars = first_vars;
    locked = false;
    opened = w.opened + 1;
    written =
        (w.written ++ (sys.fd, take (maxchar + 1) (start_line sys host)) ∷ [])
        ++ (sys.fd, take (maxchar + 1) (names_line sys host pid names)) ∷ [];
  }

  -- A start where every call works writes the variables and two lines, and closes nothing.
  pub stf_jnl_start_pid-started :
      stf_jnl_start_pid sys host pid w ≡ (done (not sys.varfile_set), started)
  unfolding stf_jnl_start_pid stf_jnl_open print_entry
  stf_jnl_start_pid-started = rw (is_set, opens, creates, mutex, writes, maps, known) refl

  -- The descriptor of the start stays open through all calls of the run.
  pub start-perform_all :
      (cs : List Call) (w' : World)
      → sys.fd ≢ 1
      → (stf_jnl_start_pid sys host pid >>= λ named. perform_all sys cs) w ≡ (done tt, w')
      → (w'.opened ≡ w.opened + 1) × (w'.locked ≡ false)
  start-perform_all cs w' apart e =
      perform_all-opened sys apart cs started w' (rw stf_jnl_start_pid-started at e) refl
