-- ===== src/Tests/Framework.antt =====
-- The theorems on the journal and on the other libraries of the framework, applied where their
-- hypotheses hold.
use zfstest.Prelude.{
  ℕ, zero, suc, ◌+◌, ◌<◌, ◌≡◌, refl, Bool, true, false, ◌==◌, if◌then◌else◌, Bool-cases, inl, inr,
  List, [], ◌∷◌, ◌++◌, map, length, none, some, pos, arith,
}
use zfstest.Hashtable.Hash.{hash_loop, hash_bytes, bcmp}
use zfstest.Stf.Number.{Text, codes}
use zfstest.Stf.Decimal.{decimal}
use zfstest.Stf.Context.{
  State, out, err, initial, maxchar, reset, stdout_tag, stderr_tag, warning, write_pipe,
}
use zfstest.Stf.Context.Fits.{IsFit, held, initial-IsFit, write_pipe-IsFit}
use zfstest.Stf.Context.Copy.{Round, quiet, child, pipes, copy}
use zfstest.Stf.Context.Copy.Laws.{chunks, closed, copy-joined}
use zfstest.Stf.Context.Mixed.{joined, write_pipe-full, write_pipe-interrupted}
use zfstest.Stf.Jnl.Buffers.{Memory, all_there}
use zfstest.Stf.Jnl.Message.{Messages, vformat_message}
use zfstest.Stf.Jnl.Message.Laws.{vformat_message-kept}
use zfstest.Stf.Jnl.Buffers
use zfstest.Stf.Jnl.Probe.Scan.{scan}
use zfstest.Stf.Jnl.Levels.{assertion, progress, later_levels, compare_levels, description_fetch}
use zfstest.Stf.Jnl.Levels.Laws.{description_fetch-scan}
use zfstest.Stf.Jnl.Log.{blank, sent, vlog}
use zfstest.Stf.Jnl.Log.Laws.{OneLine, vlog-unlines}
use zfstest.Stf.Journal.{
  System, World, mapped, done, undefined, print_entry, stf_jnl_open, stf_jnl_close, vfile_mmap,
  mutex_lock, mutex_unlock,
}
use zfstest.Stf.Journal.Entry.{
  msg_entry, stf_jnl_msg_pid, stf_jnl_testcase_start_pid, stf_jnl_assert_start_pid,
}
use zfstest.Stf.Journal.Words.{msg_line, testcase_start-undefined, write_pipe-msg_entry}
use zfstest.Stf.Journal.Session.{Call, msg, assert_start, assert_end, perform_all}
use zfstest.Stf.Journal.Session.Laws.{perform_all-opened, assert_start-assert_end}
use zfstest.Stf.Logapi.{
  Action, log_assert, log_must, log_note, left, stf_fail, message, error, note, run,
}
use zfstest.Stf.Logapi.Laws.{lines_of, run-must}
use zfstest.Stf.Mstf.{Net, Read, eintr, hangs, mstf_sync, find_server}
use zfstest.Stf.Mstf.Laws.{mstf_sync-hangs}
use zfstest.Tests.Tables.{key, vacant, no_resize, chained-IsIdle}

-- Two lines and a rest, in chunks that do not follow the lines.
abbrev two_rounds : List Round
two_rounds =
    quiet
    ∷ pipes (record { pollerr = false; readable = true; pollhup = false; chunk = codes "ab\nc" })
        (record { pollerr = false; readable = false; pollhup = false; chunk = [] })
    ∷ child false
    ∷ pipes (record { pollerr = false; readable = true; pollhup = true; chunk = codes "d\n" })
        (record { pollerr = false; readable = false; pollhup = false; chunk = [] })
    ∷ []

copy-joined_example :
    copy two_rounds (codes "e" ∷ []) [] initial
    ≡ some (joined stdout_tag (codes "ab" ∷ codes "cd" ∷ []) ++ closed (codes "e"))
unfolding chunks
copy-joined_example =
    copy-joined two_rounds (codes "ab\nc" ∷ codes "d\n" ∷ []) (codes "e" ∷ [])
      (codes "ab" ∷ codes "cd" ∷ []) (codes "e") refl refl
      (
        (refl, refl, (refl, refl, tt)),
        omega arith,
        ((refl, refl, (refl, refl, tt)), omega arith, tt),
      )
      (refl, refl, tt) (omega arith)

write_pipe-interrupted_example :
    let s₁ = (write_pipe out (codes "a") initial).1 in
    let s₂ = (write_pipe err (codes "e" ++ b'\n' ∷ []) s₁).1 in
    ((write_pipe out (codes "a") initial).0 ≡ [])
    × ((write_pipe err (codes "e" ++ b'\n' ∷ []) s₁).0 ≡ stderr_tag ++ (codes "e" ++ b'\n' ∷ []))
    × ((write_pipe out (codes "b" ++ b'\n' ∷ []) s₂).0
        ≡ (held initial ++ codes "a") ++ (codes "b" ++ b'\n' ∷ []))
write_pipe-interrupted_example =
    write_pipe-interrupted (codes "a") (codes "e") (codes "b") initial initial-IsFit refl
      (refl, refl, tt) (refl, refl, tt) (refl, refl, tt) (omega arith)

write_pipe-IsFit_example :
    IsFit (write_pipe out (codes "ab") initial).1
    × ((write_pipe out (codes "ab") initial).1.p_out < maxchar + 8)
write_pipe-IsFit_example = write_pipe-IsFit out (codes "ab") initial initial-IsFit

-- The tag and 8191 characters.
filled : ℕ → Text
filled zero = []
filled (suc n) = b'x' ∷ filled n

length-filled : (n : ℕ) → length (filled n) ≡ n
unfolding filled
length-filled zero = refl
length-filled (suc n) = omega (arith, length-filled n)

abbrev almost_full : State
almost_full = record initial {
  out_tagged = true;
  outcount = 8191;
  outbuf = filled 8199;
  p_out = 8199;
}

almost_full-IsFit : IsFit almost_full
almost_full-IsFit = record {
  at_end = omega (arith, length-filled 8199);
  counted = omega (arith, length-filled 8199);
  short = omega arith;
  untagged = λ h. absurd (cc);
}

write_pipe-full_example :
    write_pipe out (codes "y") almost_full
    ≡ ((held almost_full ++ codes "y") ++ warning, record (reset almost_full) { cr_needed = false })
write_pipe-full_example =
    write_pipe-full b'y' [] almost_full almost_full-IsFit refl (refl, refl, tt) refl

abbrev memory : Memory
memory = record { group = 50; buffers = λ i. 60 + i }

abbrev no_groups : Buffers.State
no_groups = record { toc = vacant; groups = λ p. record { thread_id = []; buffer = λ i. 0 } }

abbrev no_messages : Messages
no_messages = record { buffers = no_groups; text = λ p. [] }

vformat_message-kept_example :
    (m₁ m₂ : Messages) × (vformat_message 6 no_resize memory
        (key 2)
        some
        0
        (codes "open")
        no_messages
      ≡ some (60, m₁))
    × (vformat_message 6 no_resize memory (key 2) some 2 (codes "no file") m₁ ≡ some (62, m₂))
    × (m₂.text 60 ≡ codes "Operation:\n- open")
    × (m₂.text 62 ≡ codes "Error:\n- no file")
unfolding hash_bytes hash_loop bcmp all_there
vformat_message-kept_example =
    vformat_message-kept 5 no_resize memory memory (key 2) 0 2 no_messages (omega arith)
      (omega arith) refl chained-IsIdle refl refl refl (omega arith) (omega arith) refl
      (omega arith) (omega arith) (omega arith) some some (codes "open") (codes "no file")
      (codes "Operation:\n- open") (codes "Error:\n- no file") refl refl

description_fetch-scan_example :
    description_fetch 15 5 ≡ some (scan (λ d. compare_levels 5 d.level) (assertion ∷ later_levels))
description_fetch-scan_example = description_fetch-scan 5 15 (omega arith)

no_newline : Text → Bool
no_newline [] = true
no_newline (c ∷ s) = if c == b'\n' then false else no_newline s

no_newline-OneLine : (s : Text) → no_newline s ≡ true → OneLine s
unfolding no_newline
no_newline-OneLine [] _ = tt
no_newline-OneLine (c ∷ s) h = elim (Bool-cases (c == b'\n')) [
  | inl e ↦ absurd (ground arith)
  | inr e ↦ (e, no_newline-OneLine s (ground arith))
]

vlog-unlines_example :
    vlog 15 progress.level
      (λ t. some (t ++ b'\n' ∷ []))
      (codes "t.c")
      12
      progress.level
      (codes "hi")
    ≡ some (
      pos 0,
      map sent (codes "[ - Progress (file: t.c, line: 12) - ]" ∷ codes "hi" ∷ []) ++ blank ∷ [],
    )
unfolding no_newline decimal
vlog-unlines_example =
    vlog-unlines 15 progress.level progress.level 12 (λ t. some (t ++ b'\n' ∷ [])) (codes "t.c")
      (codes "hi") (codes "[ - Progress (file: t.c, line: 12) - ]" ∷ codes "hi" ∷ []) (omega arith)
      (omega arith)
      (
        no_newline-OneLine (codes "[ - Progress (file: t.c, line: 12) - ]") refl,
        (no_newline-OneLine (codes "hi") refl, tt),
      )
      (omega arith) refl

-- A journal file that can be opened, variables that are mapped, and a mutex that works.
abbrev sys : System
sys = record {
  journal_set = true;
  journal_opens = true;
  fd = 3;
  varfile_set = true;
  varfile_opens = true;
  mmap_works = true;
  lock_works = true;
  unlock_works = true;
  time = codes "12:00:00 1";
  signalled = λ status. false;
  signal = λ status. 0;
}

abbrev idle : World
idle = record {
  mapping = mapped;
  vars = record {
    jasrt = codes "t";
    jsubid = [];
    jargid = [];
    jseq = 4;
    jblk = 0;
    jact = 0;
    jsubcnt = 0;
  };
  locked = false;
  opened = 0;
  written = [];
  unlinked = false;
}

abbrev calls : List Call
calls = msg 5 (codes "x") ∷ assert_start 5 (codes "a") ∷ []

perform_all-opened_example :
    ((perform_all sys calls idle).1.opened ≡ 0) × ((perform_all sys calls idle).1.locked ≡ false)
unfolding perform_all stf_jnl_msg_pid stf_jnl_assert_start_pid print_entry stf_jnl_open
    stf_jnl_close vfile_mmap mutex_lock mutex_unlock
perform_all-opened_example =
    perform_all-opened sys (omega arith) calls idle (perform_all sys calls idle).1 refl refl

assert_start-assert_end_example :
    perform_all sys (assert_start 5 (codes "a") ∷ assert_end 5 (pos 0) ∷ []) idle ≡ (
      done tt,
      record idle {
        vars = record idle.vars { jsubid = codes "a"; jblk = 0; jseq = 0 };
        written =
            (3, codes "Assertion_Start| 5 t:a | 12:00:00 1 0 |\n")
            ∷ (3, codes "Assertion_End| 5 t:a | PASS | 12:00:00 1 0 |\n")
            ∷ [];
      },
    )
unfolding decimal
assert_start-assert_end_example =
    assert_start-assert_end sys (omega arith) refl refl refl refl 5 (codes "a") (pos 0) idle refl
      refl (omega arith)

testcase_start-undefined_example :
    (stf_jnl_testcase_start_pid sys 5 (codes "cmd") idle).0 ≡ undefined
unfolding stf_jnl_open
testcase_start-undefined_example =
    testcase_start-undefined sys idle (record idle { opened = 1 }) 5 3 (codes "cmd") refl refl

write_pipe-msg_entry_example :
    write_pipe out (msg_entry 5 (codes "hi")) initial
    ≡ (stdout_tag ++ (msg_line 5 (codes "hi") ++ b'\n' ∷ []), initial)
unfolding decimal
write_pipe-msg_entry_example =
    write_pipe-msg_entry 5 (codes "hi") (refl, refl, (refl, refl, tt)) (omega arith) (omega arith)

abbrev bodies : ℕ → List Action
bodies k = log_note (codes "bye") ∷ []

run-must_example :
    run 1 bodies (some 0) (log_assert (codes "a") ∷ log_must 1 (codes "m") ∷ [])
    ≡ some (
      lines_of (log_assert (codes "a") ∷ [])
          ++ (message error (codes "m")
              ∷ (message note (codes "Performing local cleanup") ∷ lines_of (bodies 0))),
      left stf_fail,
    )
run-must_example =
    run-must 0 bodies 0 (tt, tt) (log_assert (codes "a") ∷ []) [] 1 (codes "m") (tt, tt)
      (omega arith)

-- The first read is interrupted.
abbrev replies : ℕ → Read
replies zero = record { line = none; error = some eintr }
replies (suc n) = record { line = some (codes "go"); error = none }

abbrev net : Net
net = record {
  serv_set = true;
  malloc_works = true;
  resolves = true;
  socket_works = true;
  connects = true;
  fdopen_works = true;
  write_error = none;
  reads = replies;
  exit_on_error = false;
  junk = [];
}

mstf_sync-hangs_example : (mstf_sync net 9 (record { cached = true; streams = 0 })).0 ≡ hangs
unfolding find_server
mstf_sync-hangs_example =
    mstf_sync-hangs net (record { cached = true; streams = 0 }) refl refl 9 refl (λ i. refl)
