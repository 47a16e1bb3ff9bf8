-- ===== src/Stf/Journal/Run.antt =====
-- The functions of libstf.c for a whole run: the environment, the totals, an error of the harness
-- and the end.
use zfstest.Prelude.{
  ℕ, ◌-◌, true, List, [], ◌∷◌, ◌++◌, ◌==◌, if◌then◌else◌, take, Option, none, some,
}
use zfstest.Stf.Number.{Text, codes}
use zfstest.Stf.Decimal.{decimal}
use zfstest.Stf.Context.{maxchar}
use zfstest.Stf.Results.{result_tbl}
use zfstest.Stf.Journal.{Vars, System, done, M, ◌>>=◌, ◌>>◌, return, write, print_entry, vfile_mmap}
use zfstest.Stf.Journal.Entry.{int_text, asrt_of, build_id, peek_vars, with_journal}

-- ` NAME:count` for each count that is not 0, in 19 characters each
unfoldable pub all_results : List Text → List ℕ → Text
all_results [] counts = []
all_results (x ∷ xs) [] = []
all_results (x ∷ xs) (n ∷ counts) =
    (if n == 0 then [] else take 19 (b' ' ∷ x ++ (b':' ∷ int_text n))) ++ all_results xs counts

-- The variables that stf_jnl_env looks for, and the current directory, where they are known.
abbrev pub env_entry : Text → Text → Text
env_entry name value = codes "STF_ENV| " ++ (name ++ (codes " = " ++ (value ++ codes " |\n")))

unfoldable pub env_entries : List (Text × Option Text) → ℕ → M (Unit {0})
env_entries [] fd = return tt
env_entries ((name, none) ∷ rest) fd = env_entries rest fd
env_entries ((name, some value) ∷ rest) fd =
    print_entry (env_entry name value) fd >> env_entries rest fd

-- What getenv and getcwd return.
pub record Environment : Type 0 where
  pub stc_name : Option Text
  pub stc_version : Option Text
  pub stc_os_version : Option Text
  pub stf_execute_mode : Option Text
  pub cwd : Option Text

abbrev pub env_list : Environment → List (Text × Option Text)
env_list e =
    (codes "STC_NAME", e.stc_name)
    ∷ (codes "STC_VERSION", e.stc_version)
    ∷ (codes "STC_OS_VERSION", e.stc_os_version)
    ∷ (codes "STF_EXECUTE_MODE", e.stf_execute_mode)
    ∷ (codes "cwd", e.cwd)
    ∷ []

module _ (sys : System) where
  unfoldable pub stf_jnl_env : Environment → M (Unit {0})
  unfolding env_entries
  stf_jnl_env e = with_journal sys (env_entries (env_list e))

  abbrev pub totals_entry : ℕ → Text → List ℕ → Option Vars → Text
  totals_entry pid id_name counts v =
      codes "Totals| "
      ++ (decimal pid
          ++ (b' ' ∷ asrt_of v
              ++ (build_id id_name []
                  ++ (codes " |" ++ (all_results result_tbl counts ++ b'\n' ∷ [])))))

  unfoldable pub totals_body : ℕ → Text → List ℕ → ℕ → M (Unit {0})
  unfolding peek_vars build_id all_results
  totals_body pid id_name counts fd = do
    found ← vfile_mmap sys
    v ← peek_vars sys found
    print_entry (totals_entry pid id_name counts v) fd

  unfoldable pub stf_jnl_totals_pid : ℕ → Text → List ℕ → M (Unit {0})
  unfolding totals_body
  stf_jnl_totals_pid pid id_name counts = with_journal sys (totals_body pid id_name counts)

  -- The buffer of harness_error has MAXCHAR characters.
  abbrev pub error_body : Text → ℕ → M (Unit {0})
  error_body error fd =
      write fd (take (maxchar - 1) (codes "XXX| STF harness error: " ++ (error ++ b'\n' ∷ [])))

  unfoldable pub harness_error : Text → M (Unit {0})
  harness_error error = with_journal sys (error_body error)

  abbrev pub remove_varfile : M (Unit {0})
  remove_varfile w = (done tt, if sys.varfile_set then record w { unlinked = true } else w)

  abbrev pub run_end_entry : ℕ → Text
  run_end_entry pid = codes "End| " ++ (decimal pid ++ (b' ' ∷ sys.time ++ codes " |\n"))

  -- The end of a run removes the file of the variables.
  unfoldable pub stf_jnl_end_pid : ℕ → M (Unit {0})
  stf_jnl_end_pid pid =
      with_journal sys (λ fd. print_entry (run_end_entry pid) fd >> remove_varfile)
