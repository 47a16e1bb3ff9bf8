-- ===== src/Stf/Watch/Command.antt =====
-- main of stf_timeout.c, with the options as getopt returns them.
pub mod Laws
use mathlib.Core.List.{foldl}
use zfstest.Prelude.{
  ℕ, ◌+◌, ◌-◌, ◌*◌, ◌/◌, ◌%◌, ◌^◌, Bool, true, false, List, [], ◌∷◌, ◌++◌, ltb, if◌then◌else◌,
  Option, none, some,
}
use zfstest.Stf.Number.{Text, word, int_max}
use zfstest.Stf.Timeout.{Units, Complaint, Limit, parse_timeout}
use zfstest.Stf.Watch.{
  Call, testcase_end, wait_child, hr_word, nanosec, Round, Outcome, poll_process,
}

-- `-s`, `-q`, `-n name`, and a letter that getopt refuses.
pub data Letter : Type 0 where
  suspend_letter quiet_letter : Letter
  name_letter : Text → Letter
  bad_letter : Letter

-- `name` is set where `nflag` is 1.
pub record Setup : Type 0 where
  pub suspend : Bool
  pub quiet : Bool
  pub name : Option Text

unfoldable pub read_letter : Setup → Letter → Setup
read_letter u suspend_letter = record u { suspend = true }
read_letter u quiet_letter = record u { quiet = true }
read_letter u (name_letter name) = record u { name = some name }
read_letter u bad_letter = u

-- What the process finds when it asks the system.
pub record System : Type 0 where
  -- STF_SUSPEND is in the environment
  pub suspend_set : Bool
  pub stale : Units
  pub clock : ℕ
  -- the process of the child, `none` if fork1 fails
  pub forked : Option ℕ
  pub proc_opens : Bool
  pub rounds : ℕ → Round
  pub reaped : ℕ → Bool
  -- what waitpid returns and stores, 32 bits each
  pub waited_pid : ℕ
  pub waited_status : ℕ

abbrev pub setup : System → List Letter → Setup
setup sys = foldl read_letter (record { suspend = sys.suspend_set; quiet = false; name = none })

pub record Finished : Type 0 where
  pub code : ℕ
  pub calls : List Call
  pub complaints : List Complaint

pub data Run : Type 0 where
  -- the argument list has no limit: a NULL pointer is read
  crashed : Run
  -- the fuel of poll_process ran out
  running : Run
  finished : Finished → Run

-- WEXITSTATUS
abbrev pub exit_status : ℕ → ℕ
exit_status status = (status / 2 ^ 8) % 2 ^ 8

abbrev pub timed_out_index : ℕ
timed_out_index = 9

-- (status & 0xffff00ff) | (TIMED_OUT_INDEX << 8)
abbrev pub mark_timed_out : ℕ → ℕ
mark_timed_out status = (status / 2 ^ 16) * 2 ^ 16 + status % 2 ^ 8 + timed_out_index * 2 ^ 8

-- gethrtime() + duration * NANOSEC; the duration is a signed word.
abbrev pub deadline : ℕ → ℕ → ℕ
deadline clock duration =
    if ltb int_max duration
    then (clock + hr_word - (word - duration) * nanosec) % hr_word
    else (clock + duration * nanosec) % hr_word

abbrev failure : List Complaint → Run
failure complaints = finished (record { code = 1; calls = []; complaints = complaints })

unfoldable pub report : Setup → System → Outcome → List Complaint → Finished
report u sys o complaints =
    let status = if o.timed_out then mark_timed_out sys.waited_status else sys.waited_status in
    let calls = o.calls ++ wait_child ∷ [] in
    if o.exits then record { code = 1; calls = o.calls; complaints = complaints } else record {
      code = exit_status status;
      calls = if u.quiet then calls else calls ++ testcase_end u.name sys.waited_pid status ∷ [];
      complaints = complaints;
    }

abbrev watched : Setup → System → List Complaint → Option Outcome → Run
watched u sys complaints none = running
watched u sys complaints (some o) = finished (report u sys o complaints)

unfoldable pub watch : ℕ → Setup → System → Limit → Option ℕ → Run
unfolding report
watch fuel u sys limit none = failure limit.complaints
watch fuel u sys limit (some child) =
    if sys.proc_opens
    then watched u sys limit.complaints (
        poll_process (deadline sys.clock limit.duration) u.suspend sys.reaped child fuel sys.rounds)
    else failure limit.complaints

unfoldable pub on_operands : ℕ → Setup → System → List Text → Run
unfolding watch
on_operands fuel u sys [] = crashed
on_operands fuel u sys (limit ∷ []) = failure (parse_timeout sys.stale limit).complaints
on_operands fuel u sys (limit ∷ _ ∷ _) = watch fuel u sys (parse_timeout sys.stale limit) sys.forked

-- The usage text ends a run with fewer than two arguments; the letters are read from the left.
unfoldable pub main : ℕ → System → ℕ → List Letter → List Text → Run
unfolding on_operands
main fuel sys argc letters operands =
    if ltb argc 2 then failure [] else on_operands fuel (setup sys letters) sys operands

-- The `end_time` of a run.
abbrev pub end_time : System → Text → ℕ
end_time sys limit = deadline sys.clock (parse_timeout sys.stale limit).duration
