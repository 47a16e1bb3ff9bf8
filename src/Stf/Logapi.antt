-- ===== src/Stf/Logapi.antt =====
-- The test programs' log, contrib/logapi/lib/liblogapi.c. A test is the list of its calls; the
-- functions that it may register as cleanup are such lists too. Lines have no time in front.
pub mod Laws
use zfstest.Prelude.{
  ℕ, zero, suc, ◌-◌, Bool, true, false, not, List, [], ◌∷◌, ◌++◌, ◌==◌, if◌then◌else◌, take, Option,
  none, some,
}
use zfstest.Stf.Number.{Text, codes}

abbrev pub max_msgsize : ℕ
max_msgsize = 256

pub data Label : Type 0 where
  assertion note error success : Label

abbrev pub label_text : Label → Text
label_text assertion = codes "ASSERTION: "
label_text note = codes "NOTE: "
label_text error = codes "ERROR: "
label_text success = codes "SUCCESS: "

-- The line of printmsg: strlcat stops before the last place of the buffer.
abbrev pub message : Label → Text → Text
message label msg = take (max_msgsize - 1) (label_text label ++ msg)

-- `onexit` has the number of a cleanup function; `finish` is log_pass, log_fail and the others by
-- their result code.
pub data Action : Type 0 where
  log_assert log_note : Text → Action
  log_pos log_neg log_must log_mustnot : ℕ → Text → Action
  log_onexit : Option ℕ → Action
  finish : ℕ → Option Text → Action

abbrev pub stf_fail : ℕ
stf_fail = 1

-- Whether a run goes on, with the cleanup function that is set, or has left by exit(code).
pub data Ending : Type 0 where
  goes_on : Option ℕ → Ending
  left : ℕ → Ending

-- `none` means that the fuel ran out.
abbrev pub Log : Type 0
Log = Option (List Text × Ending)

abbrev pub msg_lines : Option Text → List Text
msg_lines none = []
msg_lines (some msg) = msg ∷ []

abbrev pub before : List Text → Log → Log
before lines none = none
before lines (some (more, ending)) = some (lines ++ more, ending)

abbrev pub after_cleanup : ℕ → Option Text → Log → Log
after_cleanup code msg none = none
after_cleanup code msg (some (lines, goes_on _)) = some (lines ++ msg_lines msg, left code)
after_cleanup code msg (some (lines, left c)) = some (lines, left c)

abbrev pub checked : Bool → Text → Text
checked ok text = message (if ok then success else error) text

-- endlog, with the run of a cleanup function as a parameter
abbrev pub endlog : (ℕ → Log) → Option ℕ → ℕ → Option Text → Log
endlog run_cleanup none code msg = some (msg_lines msg, left code)
endlog run_cleanup (some k) code msg =
    before (message note (codes "Performing local cleanup") ∷ [])
      (after_cleanup code msg (run_cleanup k))

-- The calls of a test, one after the other, until one of them leaves.
unfoldable pub run_with : (ℕ → Log) → Option ℕ → List Action → Log
run_with rc c [] = some ([], goes_on c)
run_with rc c (log_assert text ∷ rest) = before (message assertion text ∷ []) (run_with rc c rest)
run_with rc c (log_note text ∷ rest) = before (message note text ∷ []) (run_with rc c rest)
run_with rc c (log_pos status text ∷ rest) =
    before (checked (status == 0) text ∷ []) (run_with rc c rest)
run_with rc c (log_neg status text ∷ rest) =
    before (checked (not (status == 0)) text ∷ []) (run_with rc c rest)
run_with rc c (log_must status text ∷ rest) =
    let on = run_with rc c rest in
    before (checked (status == 0) text ∷ []) (if status == 0 then on else endlog rc c stf_fail none)
run_with rc c (log_mustnot status text ∷ rest) =
    let on = run_with rc c rest in
    before (checked (not (status == 0)) text ∷ [])
      (if status == 0 then endlog rc c stf_fail none else on)
run_with rc c (log_onexit d ∷ rest) = run_with rc d rest
run_with rc c (finish code msg ∷ rest) = endlog rc c code msg

-- A cleanup function runs with none set, so that it runs once; it may set another one.
unfoldable pub run : ℕ → (ℕ → List Action) → Option ℕ → List Action → Log
unfolding run_with
run zero bodies = run_with (λ k. none)
run (suc fuel) bodies = run_with (λ k. run fuel bodies none (bodies k))
