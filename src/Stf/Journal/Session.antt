-- ===== src/Stf/Journal/Session.antt =====
-- A sequence of calls on the journal, as the test scripts make them.
pub mod Framed
pub mod Laws
use zfstest.Prelude.{ℕ, List, [], ◌∷◌, Option, ℤ}
use zfstest.Stf.Number.{Text}
use zfstest.Stf.Journal.{System, M, ◌>>=◌, ◌>>◌, return}
use zfstest.Stf.Journal.Entry.{
  stf_jnl_msg_pid, stf_jnl_testcase_start_pid, stf_jnl_testcase_end, stf_jnl_assert_start_pid,
  stf_jnl_assert_end_pid,
}
use zfstest.Stf.Journal.Run.{
  Environment, stf_jnl_env, stf_jnl_totals_pid, harness_error, stf_jnl_end_pid,
}

pub data Call : Type 0 where
  msg : ℕ → Text → Call
  testcase_start : ℕ → Text → Call
  testcase_end : Option Text → ℕ → ℕ → Call
  assert_start : ℕ → Text → Call
  assert_end : ℕ → ℤ → Call
  totals : ℕ → Text → List ℕ → Call
  env : Environment → Call
  harness_failure : Text → Call
  finish : ℕ → Call

unfoldable pub perform : System → Call → M (Unit {0})
perform sys (msg pid text) = stf_jnl_msg_pid sys pid text
perform sys (testcase_start pid line) = stf_jnl_testcase_start_pid sys pid line
perform sys (testcase_end name child status) = stf_jnl_testcase_end sys name child status
perform sys (assert_start pid subid) = stf_jnl_assert_start_pid sys pid subid
perform sys (assert_end pid result) = stf_jnl_assert_end_pid sys pid result
perform sys (totals pid name counts) = stf_jnl_totals_pid sys pid name counts
perform sys (env e) = stf_jnl_env sys e
perform sys (harness_failure error) = harness_error sys error
perform sys (finish pid) = stf_jnl_end_pid sys pid

unfoldable pub perform_all : System → List Call → M (Unit {0})
unfolding perform
perform_all sys [] = return tt
perform_all sys (c ∷ cs) = do perform sys c; perform_all sys cs
