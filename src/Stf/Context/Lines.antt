-- ===== src/Stf/Context/Lines.antt =====
-- What write_pipe makes of whole lines, journal entries and interleaved output.
use mathlib.Core.List.{append_assoc, append-nil}
use zfstest.Prelude.{
  ℕ, ◌+◌, ◌<◌, ◌≡◌, refl, true, false, [], ◌∷◌, ◌++◌, ◌==◌, arith, if◌then◌else◌, length, ◌∙◌, ap,
  sym, if_true, if_false,
}
use zfstest.Stf.Number.{Text}
use zfstest.Stf.Context.{
  maxchar, Pipe, out, err, State, reset, stderr_tag, on_nul, end_line, on_newline, add_char,
  on_char, write_byte, write_pipe,
}
use zfstest.Stf.Context.Fits.{
  IsFit, held, longer, flags-IsFit, longer-IsFit, end_line-out, add_char-out,
}

-- Text without NUL and newline.
abbrev pub Plain : Text → Type 0
Plain [] = Unit
Plain (c ∷ cs) = ((c == 0) ≡ false) × ((c == b'\n') ≡ false) × Plain cs

-- What write_pipe makes of a text does not depend on how the reads cut it up.
pub write_pipe-append :
    (pipe : Pipe) (a b : Text) (s : State)
    → write_pipe pipe (a ++ b) s ≡ (
      (write_pipe pipe a s).0 ++ (write_pipe pipe b (write_pipe pipe a s).1).0,
      (write_pipe pipe b (write_pipe pipe a s).1).1,
    )
unfolding write_pipe
write_pipe-append pipe [] b s = refl
write_pipe-append pipe (c ∷ a) b s = rw (write_pipe-append pipe a b (write_byte pipe c s).1) (
    ap (λ w. (w, (write_pipe pipe b (write_pipe pipe (c ∷ a) s).1).1))
      (sym (append_assoc (write_byte pipe c s).0 _ _)))

-- One byte, then the others.
pub write_pipe_step :
    (pipe : Pipe) (c : ℕ) (cs w ws : Text) (s s₁ s₂ : State)
    → write_byte pipe c s ≡ (w, s₁)
    → write_pipe pipe cs s₁ ≡ (ws, s₂)
    → write_pipe pipe (c ∷ cs) s ≡ (w ++ ws, s₂)
unfolding write_pipe
write_pipe_step pipe c cs w ws s s₁ s₂ e f = rw (e, f) refl

pub write_pipe-last :
    (pipe : Pipe) (c : ℕ) (w : Text) (s s₁ : State)
    → write_byte pipe c s ≡ (w, s₁)
    → write_pipe pipe (c ∷ []) s ≡ (w, s₁)
unfolding write_pipe
write_pipe-last pipe c w s s₁ e = rw e (ap (λ v. (v, s₁)) (append-nil w))

module _ (pipe : Pipe) (s : State) where
  pub write_byte-char :
      (c : ℕ) → (c == 0) ≡ false → (c == b'\n') ≡ false → write_byte pipe c s ≡ on_char pipe c s
  unfolding write_byte
  write_byte-char c p q = rw (p, q) refl

  write_byte-newline : write_byte pipe b'\n' s ≡ on_newline pipe s
  unfolding write_byte
  write_byte-newline = refl

  module _ (entry : s.jnl_entry ≡ true) where
    on_char-entry : (c : ℕ) → on_char pipe c s ≡ (c ∷ [], s)
    unfolding on_char
    on_char-entry c = if_true s.jnl_entry _ _ entry

    on_newline-entry :
        on_newline pipe s ≡ (b'\n' ∷ [], record s { cr_needed = false; jnl_entry = false })
    unfolding on_newline
    on_newline-entry = if_true s.jnl_entry _ _ entry

    -- Text in a journal entry goes out untagged, from either pipe, and a newline ends the entry.
    pub write_pipe-jnl_entry :
        (cs : Text)
        → Plain cs
        → write_pipe pipe (cs ++ b'\n' ∷ []) s
          ≡ (cs ++ b'\n' ∷ [], record s { jnl_entry = false; cr_needed = false })
    write_pipe-jnl_entry [] _ =
        write_pipe-last pipe b'\n' _ s _ (write_byte-newline ∙ on_newline-entry)
    write_pipe-jnl_entry (c ∷ cs) (p, q, rest) =
        write_pipe_step pipe c _ (c ∷ []) _ s s _ (write_byte-char c p q ∙ on_char-entry c)
          (write_pipe-jnl_entry cs rest)

  module _ (plain : s.jnl_entry ≡ false) where
    pub on_char-plain : (c : ℕ) → on_char pipe c s ≡ add_char pipe c s
    unfolding on_char
    on_char-plain c = if_false s.jnl_entry _ _ plain

    on_newline-plain : on_newline pipe s ≡ end_line pipe (record s { cr_needed = false })
    unfolding on_newline
    on_newline-plain = if_false s.jnl_entry _ _ plain

-- A journal entry in whole: a NUL, text and a newline.
pub write_pipe-entry :
    (cs : Text) (s : State)
    → Plain cs
    → write_pipe out (0 ∷ cs ++ b'\n' ∷ []) s ≡ (
      (if s.cr_needed then b'\n' ∷ [] else []) ++ (cs ++ b'\n' ∷ []),
      record s { jnl_entry = false; cr_needed = false },
    )
unfolding write_byte on_nul
write_pipe-entry cs s plain =
    write_pipe_step out 0 (cs ++ b'\n' ∷ []) _ _ s _ _ refl
      (write_pipe-jnl_entry out (record s { jnl_entry = true; cr_needed = false }) refl cs plain)

-- A line of standard error.
pub write_pipe-stderr :
    (cs : Text) (s : State)
    → s.jnl_entry ≡ false
    → Plain cs
    → write_pipe err (cs ++ b'\n' ∷ []) s ≡ (
      (if s.err_tagged then [] else stderr_tag) ++ (cs ++ b'\n' ∷ []),
      record s { err_tagged = false; cr_needed = false },
    )
unfolding end_line add_char
write_pipe-stderr [] s plain _ =
    write_pipe-last err b'\n' _ s _ (write_byte-newline err s ∙ on_newline-plain err s plain)
write_pipe-stderr (c ∷ cs) s plain (p, q, rest) =
    write_pipe_step err c (cs ++ b'\n' ∷ []) _ _ s _ _
      (write_byte-char err s c p q ∙ on_char-plain err s plain c)
      (write_pipe-stderr cs (record s { err_tagged = true; cr_needed = true }) plain rest)
    ∙ ap (λ w. (w, record s { err_tagged = false; cr_needed = false }))
        (append_assoc (if s.err_tagged then [] else stderr_tag) (c ∷ []) (cs ++ b'\n' ∷ []))

module _ (s : State) (fit : IsFit s) (plain : s.jnl_entry ≡ false) where
  end-out :
      write_pipe out (b'\n' ∷ []) s ≡ (held s ++ b'\n' ∷ [], record (reset s) { cr_needed = false })
  unfolding reset
  end-out = write_pipe-last out b'\n' _ s _ (
      write_byte-newline out s
      ∙ on_newline-plain out s plain
      ∙ end_line-out _ (flags-IsFit s fit s.jnl_entry s.err_tagged false))

  pub char-out :
      (c : ℕ)
      → (c == 0) ≡ false
      → (c == b'\n') ≡ false
      → s.outcount + 1 < maxchar
      → write_byte out c s ≡ ([], longer s c)
  char-out c p q small =
      write_byte-char out s c p q ∙ on_char-plain out s plain c ∙ add_char-out s fit c small

-- A line of standard output goes out whole, behind what is held of it.
pub write_pipe-line :
    (cs : Text) (s : State)
    → IsFit s
    → s.jnl_entry ≡ false
    → Plain cs
    → s.outcount + length cs < maxchar
    → write_pipe out (cs ++ b'\n' ∷ []) s
      ≡ (held s ++ (cs ++ b'\n' ∷ []), record (reset s) { cr_needed = false })
unfolding reset
write_pipe-line [] s fit plain _ _ = end-out s fit plain
write_pipe-line (c ∷ cs) s fit plain (p, q, rest) small =
    write_pipe_step out c (cs ++ b'\n' ∷ []) [] _ s (longer s c) _
      (char-out s fit plain c p q (omega arith))
      (write_pipe-line cs (longer s c) (longer-IsFit s fit c (omega arith)) plain rest
        (omega arith))
    ∙ ap (λ w. (w, record (reset s) { cr_needed = false }))
        (append_assoc (held s) (c ∷ []) (cs ++ b'\n' ∷ []))
