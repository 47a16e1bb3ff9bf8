-- ===== src/Stf/Jnl/Log.antt =====
-- jnl_vlog_, jnl_log_ and jnl_result_ of libjnl.c, as jnl_feature_test.h has them compiled, with the
-- file and the line of the call, and the macros of jnl_proto.h that call jnl_log_ with a level. The
-- messages that go to stf_jnl_msg are the result, but those of
-- jnl_internal_error, which has the addresses of the buffers in its text.
pub mod Laws
use zfstest.Prelude.{
  ℕ, zero, suc, ◌-◌, Bool, true, false, List, [], ◌∷◌, ◌++◌, ◌==◌, ltb, leb, if◌then◌else◌, take,
  Option, none, some, ℤ, pos, negsuc,
}
use zfstest.Stf.Number.{Text, codes}
use zfstest.Stf.Decimal.{decimal}
use zfstest.Stf.Jnl.Levels.{
  Description, assertion, progress, verbose, later_levels, result, diagnostic, dl_check,
  description_fetch,
}
use zfstest.Stf.Jnl.Probe.Scan.{entry}
use zfstest.Stf.Results.{result_tbl, name_at, max_results, other, noresult}

abbrev pub format_size : ℕ
format_size = 1024

abbrev pub log_size : ℕ
log_size = 4096

abbrev pub blank : Text
blank = codes " "

-- A line as it is sent: an empty one is a blank.
abbrev pub sent : Text → Text
sent [] = blank
sent (c ∷ s) = c ∷ s

-- The loop over the buffer, with the text from `p` up to `s` and the rest.
unfoldable pub send_lines : Text → Text → List Text
send_lines [] [] = []
send_lines (c ∷ line) [] = (c ∷ line) ∷ []
send_lines line (c ∷ rest) =
    if c == b'\n' then sent line ∷ send_lines [] rest else send_lines (line ++ c ∷ []) rest

abbrev pub header : Description → Text → ℕ → ℕ → Text → Text
header d file line level format =
    (if d.level == level then codes "[ - " else codes "[ - ~")
    ++ (d.description
        ++ (codes " (file: "
            ++ (file ++ (codes ", line: " ++ (decimal line ++ (codes ") - ]\n" ++ format))))))

-- What a call returns, and the messages that it sends.
abbrev pub Logged : Type 0
Logged = ℤ × List Text

-- `expand` is vsnprintf with the arguments of the call, without a limit; `none` if it fails.
unfoldable pub send : Option Text → Logged
unfolding send_lines
send none = (negsuc 0, [])
send (some text) = (pos 0, send_lines [] (take (log_size - 1) text) ++ blank ∷ [])

unfoldable pub describe : (Text → Option Text) → Text → ℕ → ℕ → Text → Option ℕ → Option Logged
unfolding send
describe expand file line level format none = none
describe expand file line level format (some k) = some (
    send (
      expand (
        take (format_size - 1)
          (header (entry assertion (assertion ∷ later_levels) k) file line level format))))

-- The fuel is that of the search, and `none` means that it ran out; `current` is the detail level.
unfoldable pub vlog : ℕ → ℕ → (Text → Option Text) → Text → ℕ → ℕ → Text → Option Logged
unfolding describe
vlog fuel current expand file line level format =
    if dl_check current level
    then describe expand file line level format (description_fetch fuel level)
    else some (pos 0, [])

-- jnl_log_, which makes a list of its arguments
abbrev pub jnl_log : ℕ → ℕ → (Text → Option Text) → Text → ℕ → ℕ → Text → Option Logged
jnl_log = vlog

abbrev pub with_other : ℕ → ℕ
with_other code = if leb max_results code then other else code

-- What a call adds to the messages of the one before it.
abbrev pub joined : List Text → Option Logged → Option Logged
joined first none = none
joined first (some (ret, more)) = some (negsuc 0, first ++ more)

-- jnl_result_ of a result code that is not negative: RESULT: and its name. `expand` has the name
-- as its first argument.
unfoldable pub result_of : ℕ → ℕ → (Text → Text → Option Text) → Text → ℕ → ℕ → Option Logged
result_of fuel current expand file line code =
    jnl_log fuel current (expand (name_at result_tbl (with_other code))) file line result.level
      (codes "RESULT: %s")

-- jnl_result_: a negative code is reported by jnl_DIAGNOSTIC, whose messages are `diagnosis`, and
-- NORESULT is logged in its place.
unfoldable pub jnl_result :
    ℕ → ℕ → (Text → Text → Option Text) → (ℤ → List Text) → Text → ℕ → ℤ → Option Logged
unfolding result_of
jnl_result fuel current expand diagnosis file line (pos code) =
    result_of fuel current expand file line code
jnl_result fuel current expand diagnosis file line (negsuc n) =
    joined (diagnosis (negsuc n)) (result_of fuel current expand file line noresult)

-- The macros jnl_PROGRESS and jnl_VERBOSE
abbrev pub jnl_progress : ℕ → ℕ → (Text → Option Text) → Text → ℕ → Text → Option Logged
jnl_progress fuel current expand file line format =
    jnl_log fuel current expand file line progress.level format

abbrev pub jnl_verbose : ℕ → ℕ → (Text → Option Text) → Text → ℕ → Text → Option Logged
jnl_verbose fuel current expand file line format =
    jnl_log fuel current expand file line verbose.level format
