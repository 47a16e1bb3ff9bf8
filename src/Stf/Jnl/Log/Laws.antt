-- ===== src/Stf/Jnl/Log/Laws.antt =====
-- Which messages jnl_vlog_ sends.
use mathlib.Core.List.{append_assoc, append-nil}
use zfstest.Prelude.{
  ℕ, ◌-◌, ◌≤◌, ◌<◌, ◌≡◌, ◌≢◌, refl, false, List, [], ◌∷◌, ◌++◌, map, ◌==◌, leb, if◌then◌else◌, take,
  length, Option, some, pos, arith, ◌∙◌, ap, Bool-cases, inl, inr, if_true, if_false, sym,
}
use zfstest.Stf.Number.{Text, codes}
use zfstest.Stf.Decimal.{decimal}
use zfstest.Stf.Jnl.Levels.{assertion, later_levels, compare_levels}
use zfstest.Stf.Jnl.Levels.Laws.{description_fetch-scan}
use zfstest.Stf.Jnl.Probe.Scan.{entry, scan}
use zfstest.Stf.Jnl.Log.{log_size, blank, sent, send_lines, send, describe, vlog}
use zfstest.Stf.Context.Fits.{take-all}

-- Text without a newline.
abbrev pub OneLine : Text → Type 0
OneLine [] = Unit
OneLine (c ∷ s) = ((c == b'\n') ≡ false) × OneLine s

abbrev pub OneLines : List Text → Type 0
OneLines [] = Unit
OneLines (l ∷ ls) = OneLine l × OneLines ls

abbrev pub unlines : List Text → Text
unlines [] = []
unlines (l ∷ ls) = l ++ b'\n' ∷ unlines ls

send_lines-line :
    (line l rest : Text)
    → OneLine l
    → send_lines line (l ++ b'\n' ∷ rest) ≡ sent (line ++ l) ∷ send_lines [] rest
unfolding send_lines
send_lines-line [] [] rest _ = refl
send_lines-line (d ∷ line) [] rest _ =
    ap (λ t. (d ∷ t) ∷ send_lines [] rest) (sym (append-nil line))
send_lines-line [] (c ∷ l) rest (p, one) = rw p (send_lines-line (c ∷ []) l rest one)
send_lines-line (d ∷ line) (c ∷ l) rest (p, one) = rw p (
    send_lines-line (d ∷ line ++ c ∷ []) l rest one
    ∙ ap (λ t. (d ∷ t) ∷ send_lines [] rest) (append_assoc line (c ∷ []) l))

-- Lines joined by newlines are sent one by one.
pub send_lines-unlines : (ls : List Text) → OneLines ls → send_lines [] (unlines ls) ≡ map sent ls
send_lines-unlines [] _ = unfold send_lines in refl
send_lines-unlines (l ∷ ls) (one, rest) =
    send_lines-line [] l (unlines ls) one ∙ ap (λ t. sent l ∷ t) (send_lines-unlines ls rest)

-- `jnl_vlog_` of a level that is at most the detail level, with a file name and a line number that
-- is not negative: if the fuel is 15 or more and the expansion of the format behind the header, cut
-- at 1023 characters in all, is a list of lines, shorter in all than 4096, where the header has the
-- description of the first level of the table that is not below the one asked for (or of the last),
-- marked with a tilde if it is another level, and the file and the line, then it returns 0 and
-- sends the lines in order, an empty one as a blank, and a blank at the end.
pub vlog-unlines :
    (fuel current level line : ℕ) (expand : Text → Option Text) (file format : Text)
    (ls : List Text)
    → 15 ≤ fuel
    → level ≤ current
    → OneLines ls
    → length (unlines ls) < 4096
    → (let d =
          entry assertion
            (assertion ∷ later_levels)
            (scan (λ d. compare_levels level d.level) (assertion ∷ later_levels)) in
        expand (
          take 1023 (
            (if d.level == level then codes "[ - " else codes "[ - ~")
            ++ (d.description
                ++ (codes " (file: "
                    ++ (file
                        ++ (codes ", line: " ++ (decimal line ++ (codes ") - ]\n" ++ format))))))))
        ≡ some (unlines ls))
    → vlog fuel current expand file line level format ≡ some (pos 0, map sent ls ++ blank ∷ [])
unfolding vlog describe send
vlog-unlines fuel current level line expand file format ls enough low one short e =
    if_true (leb level current) _ _ (ground arith)
    ∙ ap (describe expand file line level format) (description_fetch-scan level fuel enough)
    ∙ ap (λ t. some (send t)) e
    ∙ ap (λ t. some (pos 0, send_lines [] t ++ blank ∷ []))
        (take-all (log_size - 1) (unlines ls) (omega arith))
    ∙ ap (λ t. some (pos 0, t ++ blank ∷ [])) (send_lines-unlines ls one)

-- A level above the detail level sends nothing.
pub vlog-above :
    (fuel current level line : ℕ) (expand : Text → Option Text) (file format : Text)
    → current < level
    → vlog fuel current expand file line level format ≡ some (pos 0, [])
unfolding vlog
vlog-above fuel current level line expand file format high =
    if_false (leb level current) _ _ (ground arith)

-- Each message is one line that is not empty.
abbrev pub AllMessages : List Text → Type 0
AllMessages [] = Unit
AllMessages (m ∷ ms) = (m ≢ []) × OneLine m × AllMessages ms

OneLine-append : (a b : Text) → OneLine a → OneLine b → OneLine (a ++ b)
OneLine-append [] b _ h = h
OneLine-append (c ∷ a) b (p, q) h = (p, OneLine-append a b q h)

sent-message : (l : Text) → OneLine l → (sent l ≢ []) × OneLine (sent l)
sent-message [] _ = (λ e. cc, (refl, tt))
sent-message (c ∷ s) one = (λ e. cc, one)

-- Each message is not empty and is one line.
pub send_lines-AllMessages : (line rest : Text) → OneLine line → AllMessages (send_lines line rest)
unfolding send_lines
send_lines-AllMessages [] [] _ = tt
send_lines-AllMessages (c ∷ line) [] one = (λ e. cc, one, tt)
send_lines-AllMessages [] (c ∷ rest) one = elim (Bool-cases (c == b'\n')) [
  | inl e ↦ rw e ((sent-message [] tt).0, (sent-message [] tt).1, send_lines-AllMessages [] rest tt)
  | inr e ↦ rw e (send_lines-AllMessages (c ∷ []) rest (e, tt))
]
send_lines-AllMessages (d ∷ line) (c ∷ rest) one = elim (Bool-cases (c == b'\n')) [
  | inl e ↦ rw e ((sent-message (d ∷ line) one).0, one, send_lines-AllMessages [] rest tt)
  | inr e ↦ rw e (
      send_lines-AllMessages (d ∷ line ++ c ∷ []) rest
        (OneLine-append (d ∷ line) (c ∷ []) one (e, tt)))
]
