-- ===== src/Stf/Context/Mixed.antt =====
-- Lines of stdout that are cut off, interrupted or left without an end.
use mathlib.Core.List.{append_assoc, append-nil}
use zfstest.Prelude.{
  ℕ, ◌+◌, ◌<◌, ◌≡◌, refl, Bool, false, List, [], ◌∷◌, ◌++◌, ◌==◌, arith, if◌then◌else◌, length, ◌∙◌,
  ap, sym, if_false, if_true, Bool-cases, inl, inr,
}
use zfstest.Stf.Number.{Text}
use zfstest.Stf.Context.{
  maxchar, out, err, State, reset, stderr_tag, stdout_tag, warning, write_pipe, flush,
}
use zfstest.Stf.Context.Fits.{
  IsFit, held, longer, longer-IsFit, flags-IsFit, reset-IsFit, add_char-full,
}
use zfstest.Stf.Context.Lines.{
  Plain, write_byte-char, on_char-plain, write_pipe_step, write_pipe-last, char-out,
  write_pipe-line, write_pipe-append, write_pipe-stderr,
}

-- `write_pipe` of stf_jnl_context on a line of standard output that reaches 8192 characters: if the
-- state fits (the pointer into the buffer is at its end, the buffer holds the tag and the
-- characters counted, and these are below the limit), no journal entry is under way and the
-- characters (at least one, without NUL and newline) bring the count to 8192, then it writes what
-- was held, the characters and the warning, and starts with an empty buffer.
pub write_pipe-full :
    (c : ℕ) (cs : Text) (s : State)
    → IsFit s
    → s.jnl_entry ≡ false
    → Plain (c ∷ cs)
    → s.outcount + length (c ∷ cs) ≡ maxchar
    → write_pipe out (c ∷ cs) s
      ≡ ((held s ++ c ∷ cs) ++ warning, record (reset s) { cr_needed = false })
unfolding reset
write_pipe-full c [] s fit plain (p, q, _) full = write_pipe-last out c _ s _ (
    write_byte-char out s c p q ∙ on_char-plain out s plain c ∙ add_char-full s fit c (omega arith))
write_pipe-full c (d ∷ cs) s fit plain (p, q, rest) full =
    write_pipe_step out c (d ∷ cs) [] _ s (longer s c) _ (char-out s fit plain c p q (omega arith))
      (write_pipe-full d cs (longer s c) (longer-IsFit s fit c (omega arith)) plain rest
        (omega arith))
    ∙ ap (λ w. (w ++ warning, record (reset s) { cr_needed = false }))
        (append_assoc (held s) (c ∷ []) (d ∷ cs))

-- The flush where characters are in the buffer.
flush-counted :
    (s : State)
    → IsFit s
    → 0 < s.outcount
    → flush s ≡ (if s.cr_needed then b'\n' ∷ [] else []) ++ held s ++ b'\n' ∷ []
unfolding flush
flush-counted s fit some_text = elim (Bool-cases s.out_tagged) [
  | inr bare ↦ absurd (omega (arith, fit.untagged bare))
  | inl has_tag ↦
      if_false (s.p_out == 0) _ _ (ground (arith, fit.at_end, fit.counted))
      ∙ ap (λ h. (if s.cr_needed then b'\n' ∷ [] else []) ++ h ++ b'\n' ∷ [])
          (sym (if_true s.out_tagged s.outbuf _ has_tag))
]

-- The state behind characters of stdout.
abbrev pub grow : State → Text → State
grow s [] = s
grow s (c ∷ cs) = grow (longer s c) cs

record Grown (s : State) (cs : Text) (s₁ : State) : Type 0 where
  pub fit : IsFit s₁
  pub text : held s₁ ≡ held s ++ cs
  pub entry : s₁.jnl_entry ≡ s.jnl_entry
  pub tag : s₁.err_tagged ≡ s.err_tagged
  pub cr : s₁.cr_needed ≡ s.cr_needed
  pub count : s₁.outcount ≡ s.outcount + length cs

grow-Grown :
    (cs : Text) (s : State) → IsFit s → s.outcount + length cs < maxchar → Grown s cs (grow s cs)
grow-Grown [] s fit _ = record {
  fit = fit;
  text = sym (append-nil (held s));
  entry = refl;
  tag = refl;
  cr = refl;
  count = omega arith;
}
grow-Grown (c ∷ cs) s fit small =
    let g = grow-Grown cs (longer s c) (longer-IsFit s fit c (omega arith)) (omega arith) in
    record {
      fit = g.fit;
      text = g.text ∙ append_assoc (held s) (c ∷ []) cs;
      entry = g.entry;
      tag = g.tag;
      cr = g.cr;
      count = omega (arith, g.count);
    }

pub write_pipe-grow :
    (cs : Text) (s : State)
    → IsFit s
    → s.jnl_entry ≡ false
    → Plain cs
    → s.outcount + length cs < maxchar
    → write_pipe out cs s ≡ ([], grow s cs)
unfolding write_pipe
write_pipe-grow [] s _ _ _ _ = refl
write_pipe-grow (c ∷ cs) s fit plain (p, q, rest) small =
    write_pipe_step out c cs [] [] s (longer s c) _ (char-out s fit plain c p q (omega arith)) (
      write_pipe-grow cs (longer s c) (longer-IsFit s fit c (omega arith)) plain rest (omega arith))

-- `write_pipe` of stf_jnl_context when a line of standard error comes in the middle of a line of
-- standard output: if the state fits (the pointer into the buffer is at its end, the buffer holds
-- the tag and the characters counted, and these are below the limit), no journal entry is under
-- way, the three texts have no NUL and no newline, and what is held and the line of standard output
-- together stay below 8192 characters, then the first part writes nothing, the line of standard
-- error comes out whole (with its tag, if it has none yet), and the line of standard output comes
-- out whole behind what was held.
pub write_pipe-interrupted :
    (a e b : Text) (s : State)
    → IsFit s
    → s.jnl_entry ≡ false
    → Plain a
    → Plain e
    → Plain b
    → s.outcount + (length a + length b) < maxchar
    → let s₁ = (write_pipe out a s).1 in
      let s₂ = (write_pipe err (e ++ b'\n' ∷ []) s₁).1 in
      ((write_pipe out a s).0 ≡ [])
      × ((write_pipe err (e ++ b'\n' ∷ []) s₁).0
          ≡ (if s.err_tagged then [] else stderr_tag) ++ (e ++ b'\n' ∷ []))
      × ((write_pipe out (b ++ b'\n' ∷ []) s₂).0 ≡ (held s ++ a) ++ (b ++ b'\n' ∷ []))
write_pipe-interrupted a e b s fit plain pa pe pb small =
    let g = grow-Grown a s fit (omega arith) in
    let s₁ = grow s a in
    rw (write_pipe-grow a s fit plain pa (omega arith)) (
      rw (write_pipe-stderr e s₁ (g.entry ∙ plain) pe) (
        refl,
        ap (λ (t : Bool). (if t then [] else stderr_tag) ++ (e ++ b'\n' ∷ [])) g.tag,
        ap (λ (r : Text × State). r.0)
              (write_pipe-line b (record s₁ { err_tagged = false; cr_needed = false })
                (flags-IsFit s₁ g.fit s₁.jnl_entry false false) (g.entry ∙ plain) pb
                (omega (arith, g.count)))
            ∙ ap (λ h. h ++ (b ++ b'\n' ∷ [])) g.text,
      ))

-- At the end, a last line without a newline comes out with one.
pub flush-write_pipe :
    (c : ℕ) (cs : Text) (s : State)
    → IsFit s
    → s.jnl_entry ≡ false
    → Plain (c ∷ cs)
    → s.outcount + length (c ∷ cs) < maxchar
    → flush (write_pipe out (c ∷ cs) s).1
      ≡ (if s.cr_needed then b'\n' ∷ [] else []) ++ (held s ++ c ∷ cs) ++ b'\n' ∷ []
flush-write_pipe c cs s fit plain p small =
    let g = grow-Grown (c ∷ cs) s fit small in
    rw (write_pipe-grow (c ∷ cs) s fit plain p small) (
      flush-counted (grow s (c ∷ cs)) g.fit (omega (arith, g.count))
      ∙ ap (λ (r : Bool). (if r then b'\n' ∷ [] else []) ++ held (grow s (c ∷ cs)) ++ b'\n' ∷ [])
          g.cr
      ∙ ap (λ h. (if s.cr_needed then b'\n' ∷ [] else []) ++ h ++ b'\n' ∷ []) g.text)

-- The lines with their ends, and each with the tag in front.
abbrev pub joined : Text → List Text → Text
joined tag [] = []
joined tag (l ∷ ls) = (tag ++ (l ++ b'\n' ∷ [])) ++ joined tag ls

abbrev pub ShortLines : List Text → Type 0
ShortLines [] = Unit
ShortLines (l ∷ ls) = Plain l × (length l < maxchar) × ShortLines ls

held-bare : (s : State) → IsFit s → s.out_tagged ≡ false → held s ≡ stdout_tag
held-bare s fit bare =
    if_false s.out_tagged _ _ bare
    ∙ ap (λ t. t ++ stdout_tag) (length-nil s.outbuf (fit.counted ∙ if_false s.out_tagged _ _ bare))
  where
    length-nil : (t : Text) → length t ≡ 0 → t ≡ []
    length-nil [] _ = refl
    length-nil (x ∷ t) h = absurd (omega arith)

-- `write_pipe` of stf_jnl_context on whole lines of standard output: if the state fits (the pointer
-- into the buffer is at its end, the buffer holds the tag and the characters counted, and these are
-- below the limit), no journal entry and no line is under way, and the lines have no NUL and no
-- newline and are shorter than 8192, then what goes to the journal is each line with the tag for
-- standard output in front.
pub write_pipe-joined :
    (ls : List Text) (s : State)
    → IsFit s
    → s.jnl_entry ≡ false
    → s.out_tagged ≡ false
    → ShortLines ls
    → (write_pipe out (joined [] ls) s).0 ≡ joined stdout_tag ls
unfolding reset
write_pipe-joined [] s _ _ _ _ = unfold write_pipe in refl
write_pipe-joined (l ∷ ls) s fit plain bare (p, short, rest) =
    ap (λ (r : Text × State). r.0) (write_pipe-append out (l ++ b'\n' ∷ []) (joined [] ls) s)
    ∙ (rw
        (
          write_pipe-line l s fit plain p (omega (arith, fit.untagged bare)),
          write_pipe-joined ls (record (reset s) { cr_needed = false })
              (flags-IsFit (reset s) (reset-IsFit s) s.jnl_entry s.err_tagged false) plain refl
              rest,
          held-bare s fit bare,
        )
        refl)
