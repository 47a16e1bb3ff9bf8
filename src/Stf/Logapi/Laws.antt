-- ===== src/Stf/Logapi/Laws.antt =====
-- How a test ends, and what is printed.
use mathlib.Core.List.{append_assoc, append-nil}
use zfstest.Prelude.{
  ℕ, zero, suc, ◌≡◌, ◌≢◌, refl, not, List, [], ◌∷◌, ◌++◌, ◌==◌, Option, none, some, ap, sym, ◌∙◌,
  ==_of_ne,
}
use zfstest.Stf.Number.{Text, codes}
use zfstest.Stf.Logapi.{
  assertion, note, error, success, message, Action, log_assert, log_note, log_pos, log_neg,
  log_must, log_mustnot, log_onexit, finish, stf_fail, goes_on, left, Log, msg_lines, before,
  after_cleanup, checked, endlog, run_with, run,
}

-- A call whose check comes out well, and the line that it prints.
abbrev pub Passes : Action → Type 0
Passes (log_must status text) = status ≡ 0
Passes (log_mustnot status text) = status ≢ 0
Passes (log_onexit d) = ⊥
Passes (finish code msg) = ⊥
Passes _ = Unit

abbrev pub PassesAll : List Action → Type 0
PassesAll [] = Unit
PassesAll (a ∷ rest) = Passes a × PassesAll rest

abbrev pub line_of : Action → List Text
line_of (log_assert text) = message assertion text ∷ []
line_of (log_note text) = message note text ∷ []
line_of (log_pos status text) = checked (status == 0) text ∷ []
line_of (log_neg status text) = checked (not (status == 0)) text ∷ []
line_of (log_must status text) = message success text ∷ []
line_of (log_mustnot status text) = message success text ∷ []
line_of (log_onexit d) = []
line_of (finish code msg) = []

abbrev pub lines_of : List Action → List Text
lines_of [] = []
lines_of (a ∷ rest) = line_of a ++ lines_of rest

before-before : (a b : List Text) (l : Log) → before a (before b l) ≡ before (a ++ b) l
before-before a b none = refl
before-before a b (some (lines, e)) = ap (λ t. some (t, e)) (sym (append_assoc a b lines))

before-nil : (l : Log) → before [] l ≡ l
before-nil none = refl
before-nil (some (lines, e)) = refl

module _ (rc : ℕ → Log) (c : Option ℕ) where
  run_with-action :
      (a : Action) (rest : List Action)
      → Passes a
      → run_with rc c (a ∷ rest) ≡ before (line_of a) (run_with rc c rest)
  unfolding run_with
  run_with-action (log_assert text) rest _ = refl
  run_with-action (log_note text) rest _ = refl
  run_with-action (log_pos status text) rest _ = refl
  run_with-action (log_neg status text) rest _ = refl
  run_with-action (log_must status text) rest p = rw p refl
  run_with-action (log_mustnot status text) rest p = rw (==_of_ne status 0 p) refl
  run_with-action (log_onexit d) rest p = absurd p
  run_with-action (finish code msg) rest p = absurd p

  run_with-passes :
      (passing rest : List Action)
      → PassesAll passing
      → run_with rc c (passing ++ rest) ≡ before (lines_of passing) (run_with rc c rest)
  run_with-passes [] rest _ = sym (before-nil (run_with rc c rest))
  run_with-passes (a ∷ passing) rest (p, ps) =
      run_with-action a (passing ++ rest) p
      ∙ ap (before (line_of a)) (run_with-passes passing rest ps)
      ∙ before-before (line_of a) (lines_of passing) (run_with rc c rest)

  -- A check that fails: the error is printed, and the test leaves with FAIL.
  run_with-must :
      (status : ℕ) (text : Text) (rest : List Action)
      → status ≢ 0
      → run_with rc c (log_must status text ∷ rest)
        ≡ before (message error text ∷ []) (endlog rc c stf_fail none)
  unfolding run_with
  run_with-must status text rest h = rw (==_of_ne status 0 h) refl

-- A cleanup function that neither leaves nor sets another: its calls pass.
module _ (fuel : ℕ) (bodies : ℕ → List Action) (k : ℕ) (quiet : PassesAll (bodies k)) where
  cleanup-runs :
      (rc : ℕ → Log) → run_with rc none (bodies k) ≡ some (lines_of (bodies k), goes_on none)
  cleanup-runs rc =
      ap (run_with rc none) (sym (append-nil (bodies k)))
      ∙ run_with-passes rc none (bodies k) [] quiet
      ∙ ap (before (lines_of (bodies k))) run_with-nil
      ∙ ap (λ t. some (t, goes_on none)) (append-nil (lines_of (bodies k)))
    where
      run_with-nil : run_with rc none [] ≡ some ([], goes_on none)
      run_with-nil = unfold run_with in refl

  run-cleanup : (n : ℕ) → run n bodies none (bodies k) ≡ some (lines_of (bodies k), goes_on none)
  unfolding run
  run-cleanup zero = cleanup-runs (λ k. none)
  run-cleanup (suc n) = cleanup-runs (λ k. run n bodies none (bodies k))

  rc : ℕ → Log
  rc i = run fuel bodies none (bodies i)

  run-rc : (c : Option ℕ) (xs : List Action) → run (suc fuel) bodies c xs ≡ run_with rc c xs
  unfolding run rc
  run-rc c xs = refl

  endlog-cleanup :
      (code : ℕ) (msg : Option Text)
      → endlog rc (some k) code msg
        ≡ some (
          (message note (codes "Performing local cleanup") ∷ lines_of (bodies k)) ++ msg_lines msg,
          left code,
        )
  unfolding rc
  endlog-cleanup code msg =
      ap
        (λ l.
          before (message note (codes "Performing local cleanup") ∷ []) (after_cleanup code msg l))
        (run-cleanup fuel)

  -- A test whose calls pass up to a `log_must` of a status other than 0, with a cleanup function
  -- set whose calls pass and the fuel not 0: it prints the lines of its calls, the error, the
  -- note on the cleanup and the lines of the cleanup function, and leaves with FAIL; the calls
  -- behind it do not run.
  pub run-must :
      (passing rest : List Action) (status : ℕ) (text : Text)
      → PassesAll passing
      → status ≢ 0
      → run (suc fuel) bodies (some k) (passing ++ log_must status text ∷ rest)
        ≡ some (
          lines_of passing
              ++ (message error text
                  ∷ (message note (codes "Performing local cleanup") ∷ lines_of (bodies k))),
          left stf_fail,
        )
  run-must passing rest status text ps failed =
      run-rc (some k) (passing ++ log_must status text ∷ rest)
      ∙ run_with-passes rc (some k) passing (log_must status text ∷ rest) ps
      ∙ ap (before (lines_of passing)) (
          run_with-must rc (some k) status text rest failed
          ∙ ap (before (message error text ∷ []))
              (endlog-cleanup stf_fail none ∙ ap (λ t. some (t, left stf_fail)) (append-nil _)))

  -- A test that ends by a call such as log_pass: its lines, those of the cleanup, the message and the code.
  pub run-finish :
      (passing rest : List Action) (code : ℕ) (msg : Option Text)
      → PassesAll passing
      → run (suc fuel) bodies (some k) (passing ++ finish code msg ∷ rest)
        ≡ some (
          lines_of passing
              ++ ((message note (codes "Performing local cleanup") ∷ lines_of (bodies k))
                  ++ msg_lines msg),
          left code,
        )
  run-finish passing rest code msg ps =
      run-rc (some k) (passing ++ finish code msg ∷ rest)
      ∙ run_with-passes rc (some k) passing (finish code msg ∷ rest) ps
      ∙ ap (before (lines_of passing)) (run_with-finish ∙ endlog-cleanup code msg)
    where
      run_with-finish : run_with rc (some k) (finish code msg ∷ rest) ≡ endlog rc (some k) code msg
      run_with-finish = unfold run_with in refl
