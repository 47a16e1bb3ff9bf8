-- ===== src/Stf/Journal/Keeps/Entries.antt =====
-- Each function that writes an entry closes what it opened and unlocks what it locked.
use zfstest.Prelude.{ℕ, ◌≢◌, refl, List, [], ◌∷◌, ltb, length, Option, none, some, ℤ, arith}
use zfstest.Stf.Number.{Text}
use zfstest.Stf.Context.{maxchar}
use zfstest.Stf.Journal.{System, ◌>>◌, print_entry}
use zfstest.Stf.Journal.Keeps.{
  Keeps, steady, >>=-Keeps, with_journal-Keeps, print_entry-Keeps, defined-Keeps, require-Keeps,
  vfile_mmap-Keeps, start_vars-Keeps, end_vars-Keeps, assert_start_vars-Keeps, peek_vars-Keeps,
  return-Keeps,
}
use zfstest.Stf.Journal.Run.{
  totals_body, stf_jnl_totals_pid, totals_entry, Environment, env_list, env_entry, env_entries,
  stf_jnl_env, error_body, harness_error, run_end_entry, remove_varfile, stf_jnl_end_pid,
}
use zfstest.Stf.Journal.Entry.{
  stf_jnl_msg_pid, testcase_start_body, stf_jnl_testcase_start_pid, testcase_end_body,
  stf_jnl_testcase_end, assert_start_body, stf_jnl_assert_start_pid, assert_end_body,
  stf_jnl_assert_end_pid, before_space, start_entry, end_entry, assert_start_entry,
  assert_end_entry, msg_entry,
}

module _ (sys : System) (apart : sys.fd ≢ 1) where
  pub start-Keeps : (pid : ℕ) (line : Text) → Keeps (stf_jnl_testcase_start_pid sys pid line)
  unfolding stf_jnl_testcase_start_pid testcase_start_body
  start-Keeps pid line = with_journal-Keeps sys apart (testcase_start_body sys pid line) λ fd.
      >>=-Keeps _ _ (require-Keeps (ltb (length line) maxchar)) λ _.
        >>=-Keeps _ _ (defined-Keeps (before_space line)) λ name.
          >>=-Keeps _ _ (vfile_mmap-Keeps sys) λ found.
            >>=-Keeps _ _ (start_vars-Keeps sys name found)
              λ activity. print_entry-Keeps (start_entry sys pid line activity) fd

  end_body-Keeps :
      (name : Option Text) (child status fd : ℕ)
      → Keeps (testcase_end_body sys name child status fd)
  unfolding testcase_end_body
  end_body-Keeps name child status fd = >>=-Keeps _ _ (vfile_mmap-Keeps sys) λ found.
      >>=-Keeps _ _ (end_vars-Keeps sys found) λ activity.
        >>=-Keeps _ _ (defined-Keeps name)
          λ written. print_entry-Keeps (end_entry sys child written status activity) fd

  pub end-Keeps :
      (name : Option Text) (child status : ℕ) → Keeps (stf_jnl_testcase_end sys name child status)
  unfolding stf_jnl_testcase_end
  end-Keeps name child status =
      >>=-Keeps _ _
        (with_journal-Keeps sys apart (testcase_end_body sys name child status)
          λ fd. end_body-Keeps name child status fd)
        λ _. steady _ (λ w. (refl, refl))

  pub assert_start-Keeps : (pid : ℕ) (subid : Text) → Keeps (stf_jnl_assert_start_pid sys pid subid)
  unfolding stf_jnl_assert_start_pid assert_start_body
  assert_start-Keeps pid subid =
      with_journal-Keeps sys apart (assert_start_body sys pid subid) λ fd.
        >>=-Keeps _ _ (vfile_mmap-Keeps sys) λ found.
          >>=-Keeps _ _ (assert_start_vars-Keeps sys subid found)
            λ v. print_entry-Keeps (assert_start_entry sys pid subid v) fd

  pub assert_end-Keeps : (pid : ℕ) (result : ℤ) → Keeps (stf_jnl_assert_end_pid sys pid result)
  unfolding stf_jnl_assert_end_pid assert_end_body
  assert_end-Keeps pid result = with_journal-Keeps sys apart (assert_end_body sys pid result) λ fd.
      >>=-Keeps _ _ (vfile_mmap-Keeps sys) λ found.
        >>=-Keeps _ _ (peek_vars-Keeps sys found)
          λ v. print_entry-Keeps (assert_end_entry sys pid result v) fd

  pub totals-Keeps :
      (pid : ℕ) (name : Text) (counts : List ℕ) → Keeps (stf_jnl_totals_pid sys pid name counts)
  unfolding stf_jnl_totals_pid totals_body
  totals-Keeps pid name counts =
      with_journal-Keeps sys apart (totals_body sys pid name counts) λ fd.
        >>=-Keeps _ _ (vfile_mmap-Keeps sys) λ found.
          >>=-Keeps _ _ (peek_vars-Keeps sys found)
            λ v. print_entry-Keeps (totals_entry sys pid name counts v) fd

  pub msg-Keeps : (pid : ℕ) (msg : Text) → Keeps (stf_jnl_msg_pid sys pid msg)
  unfolding stf_jnl_msg_pid
  msg-Keeps pid msg =
      with_journal-Keeps sys apart (print_entry (msg_entry pid msg))
        λ fd. print_entry-Keeps (msg_entry pid msg) fd

  env_entries-Keeps : (rest : List (Text × Option Text)) (fd : ℕ) → Keeps (env_entries rest fd)
  unfolding env_entries
  env_entries-Keeps [] fd = return-Keeps sys _
  env_entries-Keeps ((name, none) ∷ rest) fd = env_entries-Keeps rest fd
  env_entries-Keeps ((name, some value) ∷ rest) fd =
      >>=-Keeps _ _ (print_entry-Keeps (env_entry name value) fd) λ _. env_entries-Keeps rest fd

  pub env-Keeps : (e : Environment) → Keeps (stf_jnl_env sys e)
  unfolding stf_jnl_env
  env-Keeps e =
      with_journal-Keeps sys apart (env_entries (env_list e))
        λ fd. env_entries-Keeps (env_list e) fd

  pub error-Keeps : (error : Text) → Keeps (harness_error sys error)
  unfolding harness_error
  error-Keeps error =
      with_journal-Keeps sys apart (error_body sys error)
        λ fd. steady (error_body sys error fd) (λ w. (refl, refl))

  pub finish-Keeps : (pid : ℕ) → Keeps (stf_jnl_end_pid sys pid)
  unfolding stf_jnl_end_pid
  finish-Keeps pid =
      with_journal-Keeps sys apart
        (λ fd. print_entry (run_end_entry sys pid) fd >> remove_varfile sys)
        λ fd.
          >>=-Keeps _ _ (print_entry-Keeps (run_end_entry sys pid) fd)
            λ _. steady (remove_varfile sys) (λ w. ground arith)
