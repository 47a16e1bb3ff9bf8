-- ===== src/Stf/Context/Copy.antt =====
-- read_pipe of stf_jnl_context.c, and what its main does with the pipes when the command has ended.
pub mod Laws
use zfstest.Prelude.{Bool, true, false, List, [], ◌∷◌, ◌++◌, if◌then◌else◌, Option, none, some}
use zfstest.Stf.Number.{Text}
use zfstest.Stf.Context.{Pipe, out, err, State, write_pipe, flush}

-- The events on one of the pipes, and what read gives: nothing at the end of the file or on an error.
pub record Events : Type 0 where
  pub pollerr : Bool
  pub readable : Bool
  pub pollhup : Bool
  pub chunk : Text

-- What poll answers in one round: a call fails, nobody has an event, only the child has one (which
-- is POLLERR or POLLHUP, or not), or the pipes have events.
pub data Round : Type 0 where
  poll_failed quiet : Round
  child : Bool → Round
  pipes : Events → Events → Round

-- What goes to the journal, the state behind it, and whether the loop returns.
unfoldable pub on_events : Pipe → Events → State → (Text × State) × Bool
on_events pipe e s =
    if e.pollerr
    then (([], s), true)
    else (if e.readable then write_pipe pipe e.chunk s else ([], s), e.pollhup)

unfoldable pub on_pipes : Events → Events → State → (Text × State) × Bool
unfolding on_events
on_pipes o e s =
    let first = on_events out o s in
    let second = on_events err e first.0.1 in
    if first.1 then first else ((first.0.0 ++ second.0.0, second.0.1), second.1)

unfoldable pub on_round : Round → State → (Text × State) × Bool
unfolding on_pipes
on_round poll_failed s = (([], s), true)
on_round quiet s = (([], s), false)
on_round (child ends) s = (([], s), ends)
on_round (pipes o e) s = on_pipes o e s

abbrev pub behind : Text → Option (Text × State) → Option (Text × State)
behind w none = none
behind w (some (v, s)) = some (w ++ v, s)

-- `none` means that the loop has not returned in these rounds.
unfoldable pub read_pipe : List Round → State → Option (Text × State)
unfolding on_round
read_pipe [] s = none
read_pipe (r ∷ rounds) s =
    let now = on_round r s in
    let rest = read_pipe rounds now.0.1 in if now.1 then some now.0 else behind now.0.0 rest

-- The last reads of a pipe, until one of them gives nothing.
unfoldable pub final_reads : Pipe → List Text → State → Text × State
final_reads pipe [] s = ([], s)
final_reads pipe (chunk ∷ chunks) s =
    let now = write_pipe pipe chunk s in
    let rest = final_reads pipe chunks now.1 in (now.0 ++ rest.0, rest.1)

unfoldable pub finish : List Text → List Text → State → Text
unfolding final_reads
finish outs errs s =
    let first = final_reads out outs s in
    let second = final_reads err errs first.1 in first.0 ++ (second.0 ++ flush second.1)

abbrev pub finished : List Text → List Text → Option (Text × State) → Option Text
finished outs errs none = none
finished outs errs (some (w, s)) = some (w ++ finish outs errs s)

-- What a run of main writes to the journal, with the last reads of both pipes.
unfoldable pub copy : List Round → List Text → List Text → State → Option Text
unfolding read_pipe finish
copy rounds outs errs s = finished outs errs (read_pipe rounds s)
