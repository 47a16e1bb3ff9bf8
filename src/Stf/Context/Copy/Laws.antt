-- ===== src/Stf/Context/Copy/Laws.antt =====
-- The journal of a command does not depend on how its output is cut up by the pipes and the loop.
use mathlib.Core.List.{append_assoc, append-nil}
use zfstest.Prelude.{
  ◌<◌, ◌≡◌, refl, Bool, true, false, List, [], ◌∷◌, ◌++◌, if◌then◌else◌, length, Option, none, some,
  ◌∙◌, ap, sym, Bool-cases, inl, inr, arith,
}
use zfstest.Stf.Number.{Text}
use zfstest.Stf.Context.{
  maxchar, Pipe, out, err, State, initial, reset, stdout_tag, write_pipe, flush,
}
use zfstest.Stf.Context.Fits.{initial-IsFit}
use zfstest.Stf.Context.Lines.{Plain, write_pipe-append, write_pipe-line}
use zfstest.Stf.Context.Mixed.{joined, ShortLines, flush-write_pipe, write_pipe-grow}
use zfstest.Stf.Context.Copy.{
  Events, Round, poll_failed, quiet, child, pipes, on_events, on_pipes, on_round, behind, read_pipe,
  final_reads, finish, copy,
}

-- The chunks that a round reads, in order, and whether it is the last one.
abbrev pub events_chunks : Pipe → Events → List (Pipe × Text) × Bool
events_chunks pipe e =
    if e.pollerr then ([], true) else (if e.readable then (pipe, e.chunk) ∷ [] else [], e.pollhup)

abbrev pub round_chunks : Round → List (Pipe × Text) × Bool
round_chunks poll_failed = ([], true)
round_chunks quiet = ([], false)
round_chunks (child ends) = ([], ends)
round_chunks (pipes o e) =
    let first = events_chunks out o in
    let second = events_chunks err e in if first.1 then first else (first.0 ++ second.0, second.1)

abbrev pub more_chunks :
    List (Pipe × Text) → Option (List (Pipe × Text)) → Option (List (Pipe × Text))
more_chunks cs none = none
more_chunks cs (some ds) = some (cs ++ ds)

-- The chunks of all rounds up to the last one, if there is a last one.
unfoldable pub chunks : List Round → Option (List (Pipe × Text))
chunks [] = none
chunks (r ∷ rounds) =
    let rest = chunks rounds in
    if (round_chunks r).1 then some (round_chunks r).0 else more_chunks (round_chunks r).0 rest

-- Chunks given to write_pipe one by one.
unfoldable pub feed : List (Pipe × Text) → State → Text × State
feed [] s = ([], s)
feed ((pipe, chunk) ∷ cs) s =
    let now = write_pipe pipe chunk s in let rest = feed cs now.1 in (now.0 ++ rest.0, rest.1)

feed_append :
    (cs ds : List (Pipe × Text)) (s : State)
    → feed (cs ++ ds) s ≡ ((feed cs s).0 ++ (feed ds (feed cs s).1).0, (feed ds (feed cs s).1).1)
unfolding feed
feed_append [] ds s = refl
feed_append ((pipe, chunk) ∷ cs) ds s = rw (feed_append cs ds (write_pipe pipe chunk s).1) (
    ap (λ w. (w, (feed ds (feed cs (write_pipe pipe chunk s).1).1).1))
      (sym (append_assoc (write_pipe pipe chunk s).0 _ _)))

feed_one :
    (pipe : Pipe) (chunk : Text) (s : State) → feed ((pipe, chunk) ∷ []) s ≡ write_pipe pipe chunk s
unfolding feed
feed_one pipe chunk s =
    ap (λ w. (w, (write_pipe pipe chunk s).1)) (append-nil (write_pipe pipe chunk s).0)

on_events-feed :
    (pipe : Pipe) (e : Events) (s : State)
    → on_events pipe e s ≡ (feed (events_chunks pipe e).0 s, (events_chunks pipe e).1)
unfolding on_events feed
on_events-feed pipe e s = elim (Bool-cases e.pollerr) [
  | inl bad ↦ rw bad refl
  | inr good ↦ elim (Bool-cases e.readable) [
    | inl ready ↦ rw (good, ready) (ap (λ r. (r, e.pollhup)) (sym (feed_one pipe e.chunk s)))
    | inr idle ↦ rw (good, idle) refl
  ]
]

on_round-feed :
    (r : Round) (s : State) → on_round r s ≡ (feed (round_chunks r).0 s, (round_chunks r).1)
unfolding on_round on_pipes feed
on_round-feed poll_failed s = refl
on_round-feed quiet s = refl
on_round-feed (child ends) s = refl
on_round-feed (pipes o e) s = elim (Bool-cases (events_chunks out o).1) [
  | inl last ↦
      rw (on_events-feed out o s, last) (ap (λ b. (feed (events_chunks out o).0 s, b)) (sym last))
  | inr more ↦
      rw
        (
          on_events-feed out o s,
          on_events-feed err e (feed (events_chunks out o).0 s).1,
          more,
          feed_append (events_chunks out o).0 (events_chunks err e).0 s,
        )
        refl
]

abbrev pub fed : State → Option (List (Pipe × Text)) → Option (Text × State)
fed s none = none
fed s (some cs) = some (feed cs s)

behind-fed :
    (cs : List (Pipe × Text)) (m : Option (List (Pipe × Text))) (s : State)
    → behind (feed cs s).0 (fed (feed cs s).1 m) ≡ fed s (more_chunks cs m)
behind-fed cs none s = refl
behind-fed cs (some ds) s = ap some (sym (feed_append cs ds s))

-- read_pipe gives each chunk to write_pipe once, in the order of the rounds.
pub read_pipe-fed : (rounds : List Round) (s : State) → read_pipe rounds s ≡ fed s (chunks rounds)
unfolding read_pipe chunks
read_pipe-fed [] s = refl
read_pipe-fed (r ∷ rounds) s = elim (Bool-cases (round_chunks r).1) [
  | inl last ↦ rw (on_round-feed r s, last) refl
  | inr more ↦
      rw (on_round-feed r s, more)
        (ap (behind (feed (round_chunks r).0 s).0)
            (read_pipe-fed rounds (feed (round_chunks r).0 s).1)
          ∙ behind-fed (round_chunks r).0 (chunks rounds) s)
]

-- All of the text that a list of chunks has.
abbrev pub text_of : List Text → Text
text_of [] = []
text_of (t ∷ ts) = t ++ text_of ts

abbrev pub from_out : List Text → List (Pipe × Text)
from_out [] = []
from_out (t ∷ ts) = (out, t) ∷ from_out ts

feed-from_out : (ts : List Text) (s : State) → feed (from_out ts) s ≡ write_pipe out (text_of ts) s
unfolding feed
feed-from_out [] s = unfold write_pipe in refl
feed-from_out (t ∷ ts) s =
    rw (feed-from_out ts (write_pipe out t s).1) (sym (write_pipe-append out t (text_of ts) s))

final_reads-text_of :
    (pipe : Pipe) (ts : List Text) (s : State)
    → final_reads pipe ts s ≡ write_pipe pipe (text_of ts) s
unfolding final_reads
final_reads-text_of pipe [] s = unfold write_pipe in refl
final_reads-text_of pipe (t ∷ ts) s =
    rw (final_reads-text_of pipe ts (write_pipe pipe t s).1)
      (sym (write_pipe-append pipe t (text_of ts) s))

-- Whole lines leave the first state as it was.
joined-initial :
    (ls : List Text)
    → ShortLines ls
    → write_pipe out (joined [] ls) initial ≡ (joined stdout_tag ls, initial)
unfolding reset
joined-initial [] _ = unfold write_pipe in refl
joined-initial (l ∷ ls) (p, short, rest) =
    write_pipe-append out (l ++ b'\n' ∷ []) (joined [] ls) initial
    ∙ rw (write_pipe-line l initial initial-IsFit refl p (omega arith), joined-initial ls rest) refl

-- A last line without its newline, and what becomes of it.
abbrev pub closed : Text → Text
closed [] = []
closed (c ∷ cs) = stdout_tag ++ (c ∷ cs) ++ b'\n' ∷ []

last-closed :
    (last : Text)
    → Plain last
    → length last < maxchar
    → (write_pipe out last initial).0 ++ flush (write_pipe out last initial).1 ≡ closed last
last-closed [] _ _ = unfold write_pipe flush in refl
last-closed (c ∷ cs) p short =
    ap (λ w. w.0 ++ flush (write_pipe out (c ∷ cs) initial).1)
      (write_pipe-grow (c ∷ cs) initial initial-IsFit refl p (omega arith))
    ∙ flush-write_pipe c cs initial initial-IsFit refl p (omega arith)

-- The last reads go on where the loop stopped.
finish-out :
    (a : Text) (outs : List Text) (s : State)
    → (write_pipe out a s).0 ++ finish outs [] (write_pipe out a s).1
      ≡ (write_pipe out (a ++ text_of outs) s).0 ++ flush (write_pipe out (a ++ text_of outs) s).1
unfolding finish final_reads
finish-out a outs s =
    rw
      (
        final_reads-text_of out outs (write_pipe out a s).1,
        write_pipe-append out a (text_of outs) s,
      )
      (sym (append_assoc (write_pipe out a s).0 _ _))

lines-closed :
    (ls : List Text) (last : Text)
    → ShortLines ls
    → Plain last
    → length last < maxchar
    → (write_pipe out (joined [] ls ++ last) initial).0
        ++ flush (write_pipe out (joined [] ls ++ last) initial).1
      ≡ joined stdout_tag ls ++ closed last
lines-closed ls last short plain small =
    rw (write_pipe-append out (joined [] ls) last initial, joined-initial ls short)
      (append_assoc (joined stdout_tag ls) _ _
        ∙ ap (λ t. joined stdout_tag ls ++ t) (last-closed last plain small))

-- `main` of stf_jnl_context on a command that writes only to standard output: if `read_pipe`
-- returns in the given rounds of poll, the chunks read in the rounds and those of the last reads
-- make up, however they are cut, lines and a last text without a newline, all of them without NUL
-- and shorter than 8192, and nothing is left on standard error, then what goes to the journal is
-- each line with the tag for standard output in front, and the last text, if there is one, in the
-- same way as a line of its own.
pub copy-joined :
    (rounds : List Round) (ts outs ls : List Text) (last : Text)
    → chunks rounds ≡ some (from_out ts)
    → text_of ts ++ text_of outs ≡ joined [] ls ++ last
    → ShortLines ls
    → Plain last
    → length last < maxchar
    → copy rounds outs [] initial ≡ some (joined stdout_tag ls ++ closed last)
unfolding copy
copy-joined rounds ts outs ls last ends whole short plain small =
    rw (read_pipe-fed rounds initial, ends, feed-from_out ts initial)
      (ap some
        (finish-out (text_of ts) outs initial ∙ rw whole (lines-closed ls last short plain small)))
