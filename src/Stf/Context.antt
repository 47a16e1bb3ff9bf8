-- ===== src/Stf/Context.antt =====
-- write_pipe of stf_jnl_context.c, which merges the output of a command into the journal, and the
-- flush at the end of main.
pub mod Fits
pub mod Lines
pub mod Mixed
pub mod Copy
use zfstest.Prelude.{
  ℕ, ◌+◌, ◌-◌, Bool, true, false, List, [], ◌∷◌, ◌++◌, ◌==◌, ltb, if◌then◌else◌, length, take,
}
use zfstest.Stf.Number.{Text, codes}

abbrev pub maxchar : ℕ
maxchar = 8192

-- The standard output of the command, which journal entries share, and its standard error.
pub data Pipe : Type 0 where
  out err : Pipe

-- The static variables. `outbuf` is the string in the buffer, `p_out` the offset of that pointer.
pub record State : Type 0 where
  pub jnl_entry : Bool
  pub out_tagged : Bool
  pub err_tagged : Bool
  pub cr_needed : Bool
  pub outcount : ℕ
  pub outbuf : Text
  pub p_out : ℕ

abbrev pub stdout_tag : Text
stdout_tag = codes "stdout| "

abbrev pub stderr_tag : Text
stderr_tag = codes "stderr| "

abbrev pub warning : Text
warning = codes "\nstderr| : Warning: buffer overflow, lines limited to 8192 bytes\n"

-- snprintf at `p_out`: what fits before the NUL is stored, and the pointer moves by the full length.
-- Behind the end of the buffer nothing is stored; the pointer does not get there (`Fits`).
unfoldable pub put : Text → State → State
put x s = record s {
  outbuf = s.outbuf ++ take (maxchar + 11 - s.p_out) x;
  p_out = s.p_out + length x;
}

unfoldable pub tag_out : State → State
tag_out s = if s.out_tagged then s else record (put stdout_tag s) { out_tagged = true }

-- `p_out = outbuf`
unfoldable pub reset : State → State
reset s = record s { outbuf = []; p_out = 0; outcount = 0; out_tagged = false }

unfoldable pub on_nul : Pipe → State → Text × State
on_nul out s =
    (if s.cr_needed then b'\n' ∷ [] else [], record s { jnl_entry = true; cr_needed = false })
on_nul err s = (0 ∷ [], record s { cr_needed = true })

unfoldable pub end_line : Pipe → State → Text × State
unfolding reset
end_line err s =
    ((if s.err_tagged then [] else stderr_tag) ++ b'\n' ∷ [], record s { err_tagged = false })
end_line out s = let s₁ = put (b'\n' ∷ []) (tag_out s) in (s₁.outbuf, reset s₁)

unfoldable pub on_newline : Pipe → State → Text × State
unfolding end_line
on_newline pipe s =
    if s.jnl_entry
    then (b'\n' ∷ [], record s { cr_needed = false; jnl_entry = false })
    else end_line pipe (record s { cr_needed = false })

-- The size of the buffer is checked behind each character of stdout.
unfoldable pub check_size : State → Text × State
unfolding reset
check_size s =
    if ltb (maxchar - 1) s.outcount
    then (s.outbuf ++ warning, record (reset s) { cr_needed = false })
    else ([], s)

unfoldable pub add_char : Pipe → ℕ → State → Text × State
unfolding check_size
add_char err c s = (
  (if s.err_tagged then [] else stderr_tag) ++ c ∷ [],
  record s { err_tagged = true; cr_needed = true },
)
add_char out c s =
    let s₁ = put (c ∷ []) (tag_out s) in check_size (record s₁ { outcount = s₁.outcount + 1 })

unfoldable pub on_char : Pipe → ℕ → State → Text × State
unfolding add_char
on_char pipe c s = if s.jnl_entry then (c ∷ [], s) else add_char pipe c s

unfoldable pub write_byte : Pipe → ℕ → State → Text × State
unfolding on_nul on_newline on_char
write_byte pipe c s =
    if c == 0 then on_nul pipe s else if c == b'\n' then on_newline pipe s else on_char pipe c s

-- What the call writes to the journal, and the state behind it.
unfoldable pub write_pipe : Pipe → Text → State → Text × State
unfolding write_byte
write_pipe pipe [] s = ([], s)
write_pipe pipe (c ∷ cs) s =
    let (w, s₁) = write_byte pipe c s in let (ws, s₂) = write_pipe pipe cs s₁ in (w ++ ws, s₂)

-- The end of main, when the pipes are empty.
unfoldable pub flush : State → Text
flush s =
    let newline = if s.cr_needed then b'\n' ∷ [] else [] in
    if s.p_out == 0 then newline else newline ++ s.outbuf ++ b'\n' ∷ []

abbrev pub initial : State
initial = record {
  jnl_entry = false;
  out_tagged = false;
  err_tagged = false;
  cr_needed = false;
  outcount = 0;
  outbuf = [];
  p_out = 0;
}
