-- ===== src/Stf/Context/Fits.antt =====
-- The buffer of stdout never overruns: what snprintf would cut off is nothing.
use zfstest.Prelude.{
  ℕ, ◌+◌, ◌-◌, ◌≤◌, ◌<◌, ◌≡◌, refl, Bool, true, false, [], ◌∷◌, ◌++◌, arith, if◌then◌else◌, length,
  take, Bool-cases, inl, inr, ltb, ◌==◌, suc, zero, ap,
}
use zfstest.Stf.Number.{Text}
use zfstest.Stf.Context.{
  initial, maxchar, Pipe, out, err, State, put, tag_out, reset, on_nul, end_line, on_newline,
  add_char, on_char, write_byte, write_pipe, stdout_tag, warning,
}

-- The pointer stands at the end of the text, which is the tag and the characters counted.
pub record IsFit (s : State) : Type 0 where
  pub at_end : s.p_out ≡ length s.outbuf
  pub counted : length s.outbuf ≡ (if s.out_tagged then 8 + s.outcount else 0)
  pub short : s.outcount < maxchar
  pub untagged : s.out_tagged ≡ false → s.outcount ≡ 0

pub length-append : (xs ys : Text) → length (xs ++ ys) ≡ length xs + length ys
length-append [] ys = omega arith
length-append (x ∷ xs) ys = omega (arith, length-append xs ys)

pub take-all : (n : ℕ) (xs : Text) → length xs ≤ n → take n xs ≡ xs
take-all zero [] _ = refl
take-all zero (x ∷ xs) h = absurd (omega arith)
take-all (suc n) [] _ = refl
take-all (suc n) (x ∷ xs) h = ap (λ ys. x ∷ ys) (take-all n xs (omega arith))

-- Nothing is cut off while there is room.
put-room :
    (x : Text) (s : State)
    → s.p_out + length x ≤ maxchar + 11
    → put x s ≡ record s { outbuf = s.outbuf ++ x; p_out = s.p_out + length x }
unfolding put
put-room x s room = rw (take-all (maxchar + 11 - s.p_out) x (omega arith)) refl

-- The buffer with its tag.
abbrev pub held : State → Text
held s = if s.out_tagged then s.outbuf else s.outbuf ++ stdout_tag

abbrev pub tagged : State → State
tagged s = record s {
  out_tagged = true;
  outbuf = held s;
  p_out = if s.out_tagged then s.p_out else s.p_out + 8;
}

-- One more character of stdout.
abbrev pub longer : State → ℕ → State
longer s c = record (tagged s) {
  outbuf = held s ++ c ∷ [];
  p_out = (tagged s).p_out + 1;
  outcount = s.outcount + 1;
}

module _ (s : State) (fit : IsFit s) where
  pub tag_out-tagged : tag_out s ≡ tagged s
  unfolding tag_out
  tag_out-tagged = ground (arith, fit.at_end, fit.counted, put-room stdout_tag s)

  tagged-length :
      ((tagged s).p_out ≡ length (tagged s).outbuf)
      × (length (tagged s).outbuf ≡ 8 + s.outcount)
      × ((tagged s).outcount ≡ s.outcount)
      × ((tagged s).out_tagged ≡ true)
  tagged-length = elim (Bool-cases s.out_tagged) [
    | inl has_tag ↦ rw has_tag (ground (arith, fit.at_end, fit.counted))
    | inr bare ↦ rw bare (
        ground
          (arith, fit.at_end, fit.counted, fit.untagged bare, length-append s.outbuf stdout_tag))
  ]

  -- The room that is left for one more character.
  room : (tagged s).p_out + 1 ≤ maxchar + 11
  room = let (a, b, _, _) = tagged-length in omega (arith, fit.short)

  put-tagged :
      (c : ℕ)
      → put (c ∷ []) (tag_out s)
        ≡ record (tagged s) { outbuf = (tagged s).outbuf ++ c ∷ []; p_out = (tagged s).p_out + 1 }
  put-tagged c = rw tag_out-tagged (put-room (c ∷ []) (tagged s) room)

  pub end_line-out : end_line out s ≡ ((tagged s).outbuf ++ b'\n' ∷ [], reset s)
  unfolding end_line reset
  end_line-out = rw (put-tagged b'\n') refl

  pub add_char-out : (c : ℕ) → s.outcount + 1 < maxchar → add_char out c s ≡ ([], longer s c)
  unfolding add_char
  add_char-out c small = rw (put-tagged c) (ground arith)

  pub add_char-full :
      (c : ℕ)
      → s.outcount + 1 ≡ maxchar
      → add_char out c s
        ≡ ((tagged s).outbuf ++ c ∷ [] ++ warning, record (reset s) { cr_needed = false })
  unfolding add_char reset
  add_char-full c full = rw (put-tagged c) (ground arith)

  pub longer-IsFit : (c : ℕ) → s.outcount + 1 < maxchar → IsFit (longer s c)
  longer-IsFit c small =
      let (a, b, _, _) = tagged-length in
      record {
        at_end = omega (arith, length-append (held s) (c ∷ []));
        counted = omega (arith, length-append (held s) (c ∷ []));
        short = small;
        untagged = λ h. absurd (cc);
      }

  -- The other variables do not matter.
  pub flags-IsFit :
      (j e r : Bool) → IsFit (record s { jnl_entry = j; err_tagged = e; cr_needed = r })
  flags-IsFit j e r = record {
    at_end = fit.at_end;
    counted = fit.counted;
    short = fit.short;
    untagged = fit.untagged;
  }

pub reset-IsFit : (s : State) → IsFit (reset s)
unfolding reset
reset-IsFit s = record { at_end = refl; counted = refl; short = omega arith; untagged = λ _. refl }

end_line-IsFit : (pipe : Pipe) (s : State) → IsFit s → IsFit (end_line pipe s).1
end_line-IsFit out s fit = rw (end_line-out s fit) (reset-IsFit s)
end_line-IsFit err s fit = unfold end_line in flags-IsFit s fit s.jnl_entry false s.cr_needed

add_char-IsFit : (pipe : Pipe) (c : ℕ) (s : State) → IsFit s → IsFit (add_char pipe c s).1
unfolding reset
add_char-IsFit out c s fit = elim (Bool-cases (ltb (s.outcount + 1) maxchar)) [
  | inl small ↦ rw (add_char-out s fit c (ground arith)) (longer-IsFit s fit c (ground arith))
  | inr full ↦
      rw (add_char-full s fit c (ground (arith, fit.short)))
        (flags-IsFit (reset s) (reset-IsFit s) s.jnl_entry s.err_tagged false)
]
add_char-IsFit err c s fit = unfold add_char in flags-IsFit s fit s.jnl_entry true true

on_nul-IsFit : (pipe : Pipe) (s : State) → IsFit s → IsFit (on_nul pipe s).1
unfolding on_nul
on_nul-IsFit out s fit = flags-IsFit s fit true s.err_tagged false
on_nul-IsFit err s fit = flags-IsFit s fit s.jnl_entry s.err_tagged true

if_either : (b : Bool) (x y : Text × State) → IsFit x.1 → IsFit y.1 → IsFit (if b then x else y).1
if_either true x y hx _ = hx
if_either false x y _ hy = hy

on_newline-IsFit : (pipe : Pipe) (s : State) → IsFit s → IsFit (on_newline pipe s).1
unfolding on_newline
on_newline-IsFit pipe s fit =
    if_either s.jnl_entry _ _ (flags-IsFit s fit false s.err_tagged false)
      (end_line-IsFit pipe _ (flags-IsFit s fit s.jnl_entry s.err_tagged false))

on_char-IsFit : (pipe : Pipe) (c : ℕ) (s : State) → IsFit s → IsFit (on_char pipe c s).1
unfolding on_char
on_char-IsFit pipe c s fit = if_either s.jnl_entry _ _ fit (add_char-IsFit pipe c s fit)

pub write_byte-IsFit : (pipe : Pipe) (c : ℕ) (s : State) → IsFit s → IsFit (write_byte pipe c s).1
unfolding write_byte
write_byte-IsFit pipe c s fit =
    if_either (c == 0) _ _ (on_nul-IsFit pipe s fit)
      (if_either (c == b'\n') _ _ (on_newline-IsFit pipe s fit) (on_char-IsFit pipe c s fit))

pub initial-IsFit : IsFit initial
initial-IsFit = record { at_end = refl; counted = refl; short = omega arith; untagged = λ _. refl }

-- `write_pipe` of stf_jnl_context, on any characters from either pipe: if the state fits (the
-- pointer into the buffer is at its end, the buffer holds the tag and the characters counted, and
-- these are below the limit), then the state behind it fits again, and the pointer is below 8200,
-- so that the buffer of 8204 characters is not overrun.
pub write_pipe-IsFit :
    (pipe : Pipe) (cs : Text) (s : State)
    → IsFit s
    → IsFit (write_pipe pipe cs s).1 × ((write_pipe pipe cs s).1.p_out < maxchar + 8)
unfolding write_pipe
write_pipe-IsFit pipe [] s fit = (fit, ground (arith, fit.at_end, fit.counted, fit.short))
write_pipe-IsFit pipe (c ∷ cs) s fit =
    write_pipe-IsFit pipe cs (write_byte pipe c s).1 (write_byte-IsFit pipe c s fit)
