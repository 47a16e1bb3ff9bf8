-- ===== src/Stf/Journal/Words.antt =====
-- What stands in an entry: the words for a status, and the names that are read.
use mathlib.Core.List.{append_assoc}
use zfstest.Prelude.{
  has, ℕ, ◌<◌, ◌≡◌, refl, false, [], ◌∷◌, ◌++◌, ◌==◌, ltb, if◌then◌else◌, length, none, arith, ◌∙◌,
  ap, sym, Bool-cases, inl, inr, if_false,
}
use zfstest.Stf.Number.{Text, codes, word}
use zfstest.Stf.Number.Digits.{AllDigits}
use zfstest.Stf.Decimal.{decimal}
use zfstest.Stf.Decimal.Laws.{decimal-AllDigits}
use zfstest.Stf.Context.{maxchar, out, initial, reset, stdout_tag, write_pipe}
use zfstest.Stf.Context.Fits.{initial-IsFit}
use zfstest.Stf.Context.Lines.{Plain, write_pipe-line}
use zfstest.Stf.Results.{get_status_name}
use zfstest.Stf.Watch.Command.{mark_timed_out}
use zfstest.Stf.Watch.Command.Laws.{mark_timed_out-exit_status}
use zfstest.Stf.Journal.{System, World, done, undefined, stf_jnl_open}
use zfstest.Stf.Journal.Entry.{
  before_space, exit_status, shell_status, result_words, msg_entry, stf_jnl_testcase_start_pid,
  testcase_start_body,
}

-- The words for a status that stf_timeout has marked: TIMED_OUT, and the signal if there is one.
pub result_words-timed_out :
    (sys : System) (status : ℕ)
    → status < word
    → result_words sys (mark_timed_out status) ≡ (
        if sys.signalled (mark_timed_out status)
        then codes "TIMED_OUT" ++ (b' ' ∷ decimal (sys.signal (mark_timed_out status)))
        else codes "TIMED_OUT")
unfolding result_words get_status_name
result_words-timed_out sys status small = rw (mark_timed_out-exit_status status small).0 refl

-- stf_jnl_testcase_end reads back a status of the shell below 128, and 0 for one above.
pub exit_status-shell_status :
    (status : ℕ)
    → status < 256
    → exit_status (shell_status status) ≡ (if ltb status 128 then status else 0)
exit_status-shell_status status small = ground arith

before_space-none : (line : Text) → has b' ' line ≡ false → before_space line ≡ none
unfolding before_space
before_space-none [] _ = refl
before_space-none (c ∷ s) h = elim (Bool-cases (c == b' ')) [
  | inl e ↦ absurd (ground arith)
  | inr e ↦ rw (e, before_space-none s (ground arith)) refl
]

body-undefined :
    (sys : System) (pid fd : ℕ) (line : Text) (w : World)
    → has b' ' line ≡ false
    → testcase_start_body sys pid line fd w ≡ (undefined, w)
unfolding testcase_start_body
body-undefined sys pid fd line w h = elim (Bool-cases (ltb (length line) maxchar)) [
  | inl short ↦ rw (short, before_space-none line h) refl
  | inr long ↦ rw long refl
]

-- `stf_jnl_testcase_start_pid` of a line without a blank: if the journal can be opened, it reads
-- behind the end of the string, which C does not define.
pub testcase_start-undefined :
    (sys : System) (w v : World) (pid fd : ℕ) (line : Text)
    → stf_jnl_open sys w ≡ (done fd, v)
    → has b' ' line ≡ false
    → (stf_jnl_testcase_start_pid sys pid line w).0 ≡ undefined
unfolding stf_jnl_testcase_start_pid
testcase_start-undefined sys w v pid fd line opens h =
    rw (opens, body-undefined sys pid fd line v h) refl

-- Digits are neither NUL nor newline.
digits-Plain : (ds : Text) → AllDigits ds → Plain ds
digits-Plain [] _ = tt
digits-Plain (d ∷ ds) (p, h) = (ground arith, ground arith, digits-Plain ds h)

append-Plain : (a b : Text) → Plain a → Plain b → Plain (a ++ b)
append-Plain [] b _ h = h
append-Plain (c ∷ a) b (p, q, r) h = (p, q, append-Plain a b r h)

-- The text of a message in its entry.
abbrev pub msg_line : ℕ → Text → Text
msg_line pid msg = codes "Msg| " ++ (decimal pid ++ (codes " | " ++ msg))

-- the entry that `stf_jnl_msg_pid` makes of a message that is not empty and has no NUL and no
-- newline, given to `write_pipe` of stf_jnl_context as standard output in its first state: if the
-- entry is shorter than 8192, it comes out as a line of output, with the tag for standard output in
-- front.
pub write_pipe-msg_entry :
    (pid : ℕ) (msg : Text)
    → Plain msg
    → 0 < length msg
    → length (msg_line pid msg) < maxchar
    → write_pipe out (msg_entry pid msg) initial
      ≡ (stdout_tag ++ (msg_line pid msg ++ b'\n' ∷ []), initial)
write_pipe-msg_entry pid msg plain some_text short =
    ap (λ t. write_pipe out t initial) entry_line
    ∙ write_pipe-line (msg_line pid msg) initial initial-IsFit refl line_plain (omega arith)
    ∙ ap (λ t. (stdout_tag ++ (msg_line pid msg ++ b'\n' ∷ []), t)) reset_initial
  where
    reset_initial : record (reset initial) { cr_needed = false } ≡ initial
    reset_initial = unfold reset in refl

    line_plain : Plain (msg_line pid msg)
    line_plain =
        append-Plain (codes "Msg| ") _
          (refl, refl, (refl, refl, (refl, refl, (refl, refl, (refl, refl, tt)))))
          (append-Plain (decimal pid) _ (digits-Plain (decimal pid) (decimal-AllDigits pid))
            (append-Plain (codes " | ") msg (refl, refl, (refl, refl, (refl, refl, tt))) plain))

    entry_line : msg_entry pid msg ≡ msg_line pid msg ++ b'\n' ∷ []
    entry_line =
        ap (λ t. codes "Msg| " ++ (decimal pid ++ (codes " | " ++ (t ++ b'\n' ∷ []))))
          (if_false (length msg == 0) _ _ (ground arith))
        ∙ ap (λ t. codes "Msg| " ++ (decimal pid ++ t))
            (sym (append_assoc (codes " | ") msg (b'\n' ∷ [])))
        ∙ ap (λ t. codes "Msg| " ++ t)
            (sym (append_assoc (decimal pid) (codes " | " ++ msg) (b'\n' ∷ [])))
