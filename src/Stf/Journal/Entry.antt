-- ===== src/Stf/Journal/Entry.antt =====
-- The functions of libstf.c for messages, test cases and assertions, and main of
-- stf_jnl_testcase_end.c.
use zfstest.Prelude.{
  ℕ, ◌+◌, ◌-◌, ◌*◌, ◌/◌, ◌%◌, ◌^◌, Bool, true, false, [], ◌∷◌, ◌++◌, ◌==◌, ltb, leb, if◌then◌else◌,
  length, Option, none, some, ℤ, pos,
}
use zfstest.Stf.Number.{Text, codes, word, int_max}
use zfstest.Stf.Decimal.{decimal}
use zfstest.Stf.Context.{maxchar}
use zfstest.Stf.Results.{result_tbl, name_at, get_status_name, other, noresult, timed_out}
use zfstest.Stf.Journal.{
  Vars, System, done, undefined, M, ◌>>=◌, ◌>>◌, return, require, update, write, print_entry,
  stf_jnl_open, stf_jnl_close, vfile_mmap, mutex_lock, mutex_unlock,
}

-- `%d` of a short with these 16 bits.
abbrev pub short_text : ℕ → Text
short_text n = if ltb n (2 ^ 15) then decimal n else b'-' ∷ decimal (2 ^ 16 - n)

-- `%d` of an int with these 32 bits.
abbrev pub int_text : ℕ → Text
int_text n = if ltb int_max n then b'-' ∷ decimal (word - n) else decimal n

-- The activity in an entry, -1 without variables.
abbrev pub activity_text : Option ℕ → Text
activity_text none = codes "-1"
activity_text (some n) = short_text n

-- The same in stf_jnl_testcase_end, which keeps the activity in an int.
abbrev pub int_activity_text : Option ℕ → Text
int_activity_text none = codes "-1"
int_activity_text (some n) = decimal n

-- The static buffer of build_id is long enough for ids of 255 characters.
unfoldable pub build_id : Text → Text → Text
build_id sub_id arg_id =
    (if length sub_id == 0 then [] else b':' ∷ sub_id)
    ++ (if length arg_id == 0 then [] else b'(' ∷ (arg_id ++ b')' ∷ []))

-- The name in front of the first blank. The loop does not look for the end of the string: without
-- a blank it goes on behind it.
unfoldable pub before_space : Text → Option Text
before_space [] = none
before_space (c ∷ s) =
    if c == b' '
    then some []
    else (elim (before_space s) [ none ↦ none | some name ↦ some (c ∷ name) ])

-- `++vfptr->jseq`
abbrev pub next_seq : Vars → Vars
next_seq v = record v { jseq = (v.jseq + 1) % 2 ^ 16 }

abbrev pub defined : Option Text → M Text
defined none w = (undefined, w)
defined (some s) w = (done s, w)

-- The variables in the branch where they are found.
abbrev pub read_vars : M Vars
read_vars w = (done w.vars, w)

abbrev pub msg_entry : ℕ → Text → Text
msg_entry pid msg =
    codes "Msg| "
    ++ (decimal pid
        ++ (codes " | " ++ ((if length msg == 0 then codes "?" else msg) ++ b'\n' ∷ [])))

abbrev pub set_jasrt : Text → Vars → Vars
set_jasrt name v = next_seq (record v { jasrt = name })

abbrev pub exit_status : ℕ → ℕ
exit_status status = (status / 2 ^ 8) % 2 ^ 8

-- main of stf_jnl_testcase_end.c: a status of the shell up to 127 goes where wait() has it.
abbrev pub shell_status : ℕ → ℕ
shell_status status = if leb status 127 then status * 2 ^ 8 else status

abbrev pub set_jsubid : Text → Vars → Vars
set_jsubid subid v = record v { jsubid = subid; jblk = 0; jseq = 0 }

abbrev pub asrt_of : Option Vars → Text
asrt_of none = []
asrt_of (some v) = v.jasrt

abbrev pub subid_of : Option Vars → Text
subid_of none = []
subid_of (some v) = v.jsubid

abbrev pub argid_of : Option Vars → Text
argid_of none = []
argid_of (some v) = v.jargid

abbrev pub act_of : Option Vars → Option ℕ
act_of none = none
act_of (some v) = some v.jact

module _ (sys : System) where
  -- Each function opens the journal first and closes it at its end.
  abbrev pub with_journal : (ℕ → M (Unit {0})) → M (Unit {0})
  with_journal body = do fd ← stf_jnl_open sys; body fd; stf_jnl_close sys fd

  abbrev pub under_lock : M (Unit {0}) → M (Unit {0})
  under_lock body = do mutex_lock sys; body; mutex_unlock sys

  unfoldable pub stf_jnl_msg_pid : ℕ → Text → M (Unit {0})
  stf_jnl_msg_pid pid msg = with_journal (print_entry (msg_entry pid msg))

  -- strcpy into 256 characters is defined for at most 255.
  unfoldable pub start_vars : Text → Bool → M (Option ℕ)
  start_vars name false = return none
  start_vars name true = do
    v ← read_vars
    under_lock (require (ltb (length name) 256) >> update (set_jasrt name))
    return (some v.jact)

  abbrev pub start_entry : ℕ → Text → Option ℕ → Text
  start_entry pid line activity =
      codes "Test_Case_Start| "
      ++ (decimal pid
          ++ (b' ' ∷ line
              ++ (codes " | " ++ (sys.time ++ (b' ' ∷ activity_text activity ++ codes " |\n")))))

  unfoldable pub testcase_start_body : ℕ → Text → ℕ → M (Unit {0})
  unfolding start_vars
  testcase_start_body pid line fd = do
    require (ltb (length line) maxchar)
    name ← defined (before_space line)
    found ← vfile_mmap sys
    activity ← start_vars name found
    print_entry (start_entry pid line activity) fd

  unfoldable pub stf_jnl_testcase_start_pid : ℕ → Text → M (Unit {0})
  unfolding testcase_start_body
  stf_jnl_testcase_start_pid pid line = with_journal (testcase_start_body pid line)

  -- The words for a status of wait(): the result, and the signal if there is one.
  unfoldable pub result_words : ℕ → Text
  result_words status =
      let code = exit_status status in
      let name = get_status_name (pos code) in
      let with_code = name ++ (b'_' ∷ decimal code) in
      let with_signal = b' ' ∷ decimal (sys.signal status) in
      if sys.signalled status
      then (if code == timed_out
          then name ++ with_signal
          else if ltb code other
          then name_at result_tbl noresult ++ with_signal
          else with_code ++ with_signal)
      else if ltb code other
      then name
      else with_code

  unfoldable pub end_vars : Bool → M (Option ℕ)
  end_vars false = return none
  end_vars true = do v ← read_vars; under_lock (update next_seq); return (some v.jact)

  abbrev pub end_entry : ℕ → Text → ℕ → Option ℕ → Text
  end_entry child_pid name status activity =
      codes "Test_Case_End| "
      ++ (int_text child_pid
          ++ (b' ' ∷ name
              ++ (codes " | "
                  ++ (result_words status
                      ++ (codes " | "
                          ++ (sys.time ++ (b' ' ∷ int_activity_text activity ++ codes " |\n")))))))

  -- The name may be NULL, which `%s` does not define.
  unfoldable pub testcase_end_body : Option Text → ℕ → ℕ → ℕ → M (Unit {0})
  unfolding end_vars result_words
  testcase_end_body name child_pid status fd = do
    found ← vfile_mmap sys
    activity ← end_vars found
    written ← defined name
    print_entry (end_entry child_pid written status activity) fd

  -- The result goes to stdout as well.
  unfoldable pub stf_jnl_testcase_end : Option Text → ℕ → ℕ → M (Unit {0})
  unfolding testcase_end_body
  stf_jnl_testcase_end name child_pid status = do
    with_journal (testcase_end_body name child_pid status)
    write 1 (get_status_name (pos (exit_status status)) ++ b'\n' ∷ [])

  unfoldable pub testcase_end_main : ℕ → Text → ℕ → M (Unit {0})
  unfolding stf_jnl_testcase_end
  testcase_end_main parent assertion status =
      stf_jnl_testcase_end (some assertion) parent (shell_status status)

  unfoldable pub assert_start_vars : Text → Bool → M (Option Vars)
  assert_start_vars subid false = return none
  assert_start_vars subid true = do
    under_lock (require (ltb (length subid) 256) >> update (set_jsubid subid))
    v ← read_vars
    return (some v)

  abbrev pub assert_start_entry : ℕ → Text → Option Vars → Text
  assert_start_entry pid subid v =
      codes "Assertion_Start| "
      ++ (decimal pid
          ++ (b' ' ∷ asrt_of v
              ++ (build_id subid (argid_of v)
                  ++ (codes " | "
                      ++ (sys.time ++ (b' ' ∷ activity_text (act_of v) ++ codes " |\n"))))))

  unfoldable pub assert_start_body : ℕ → Text → ℕ → M (Unit {0})
  unfolding assert_start_vars build_id
  assert_start_body pid subid fd = do
    found ← vfile_mmap sys
    v ← assert_start_vars subid found
    print_entry (assert_start_entry pid subid v) fd

  unfoldable pub stf_jnl_assert_start_pid : ℕ → Text → M (Unit {0})
  unfolding assert_start_body
  stf_jnl_assert_start_pid pid subid = with_journal (assert_start_body pid subid)

  unfoldable pub peek_vars : Bool → M (Option Vars)
  peek_vars false = return none
  peek_vars true = do v ← read_vars; return (some v)

  abbrev pub assert_end_entry : ℕ → ℤ → Option Vars → Text
  assert_end_entry pid result v =
      codes "Assertion_End| "
      ++ (decimal pid
          ++ (b' ' ∷ asrt_of v
              ++ (build_id (subid_of v) (argid_of v)
                  ++ (codes " | "
                      ++ (get_status_name result
                          ++ (codes " | "
                              ++ (sys.time
                                  ++ (b' ' ∷ activity_text (act_of v) ++ codes " |\n"))))))))

  unfoldable pub assert_end_body : ℕ → ℤ → ℕ → M (Unit {0})
  unfolding peek_vars build_id
  assert_end_body pid result fd = do
    found ← vfile_mmap sys
    v ← peek_vars found
    print_entry (assert_end_entry pid result v) fd

  unfoldable pub stf_jnl_assert_end_pid : ℕ → ℤ → M (Unit {0})
  unfolding assert_end_body
  stf_jnl_assert_end_pid pid result = with_journal (assert_end_body pid result)
