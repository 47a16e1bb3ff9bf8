-- ===== src/Stf/Mstf/Laws.antt =====
-- Replies, streams and interrupts.
use zfstest.Prelude.{
  ℕ, zero, suc, ◌+◌, ◌-◌, ◌<◌, ◌≡◌, ◌≢◌, refl, true, [], ◌∷◌, ◌++◌, ltb, if◌then◌else◌, take,
  length, none, some, arith, ap, ap₂, ◌∙◌, if_false, ==_of_ne,
}
use zfstest.Stf.Number.{Text, codes}
use zfstest.Stf.Context.Fits.{take-all, length-append}
use zfstest.Stf.Mstf.{
  Read, Net, State, stf_pass, stf_unresolved, eintr, Answer, returns, exits, hangs, connected,
  find_server, buffer_of, read_reply, buflen, starts, sync_reply, sync_write, on_found, mstf_sync,
  get_reply, get_write, mstf_getvar,
}

-- `errno` stays EINTR when the calls behind an interrupt succeed.
read_reply-stays :
    (fuel size : ℕ) (reads : ℕ → Read) (buffer : Text)
    → ((i : ℕ) → (reads i).error ≡ none)
    → read_reply fuel size reads eintr buffer ≡ none
unfolding read_reply
read_reply-stays zero size reads buffer ok = refl
read_reply-stays (suc fuel) size reads buffer ok =
    rw (ok 0) (read_reply-stays fuel size (λ i. reads (suc i)) _ (λ i. ok (suc i)))

read_reply-interrupted :
    (fuel size : ℕ) (reads : ℕ → Read) (buffer : Text)
    → (reads 0).error ≡ some eintr
    → ((i : ℕ) → (reads (suc i)).error ≡ none)
    → read_reply fuel size reads 0 buffer ≡ none
unfolding read_reply
read_reply-interrupted zero size reads buffer broken ok = refl
read_reply-interrupted (suc fuel) size reads buffer broken ok =
    rw broken (read_reply-stays fuel size (λ i. reads (suc i)) _ ok)

read_reply-first :
    (fuel size : ℕ) (reads : ℕ → Read) (buffer : Text)
    → (reads 0).error ≡ none
    → read_reply (suc fuel) size reads 0 buffer ≡ some (0, buffer_of size (reads 0).line buffer)
unfolding read_reply
read_reply-first fuel size reads buffer ok = rw ok refl

take-append : (v w : Text) → take (length v) (v ++ w) ≡ v
take-append [] w = refl
take-append (c ∷ v) w = ap (λ t. c ∷ t) (take-append v w)

module _ (net : Net) (s : State) where
  -- The server is found, and what is sent to it arrives.
  module _
      (found : find_server net s ≡ (connected, record s { cached = true; streams = s.streams + 1 }))
      (sent : net.write_error ≡ none) where
    -- `mstf_sync` when the server is found and the message is sent: if the first read fails
    -- with EINTR and all later ones succeed, it does not return with any fuel, because `errno`
    -- keeps EINTR.
    pub mstf_sync-hangs :
        (fuel : ℕ)
        → (net.reads 0).error ≡ some eintr
        → ((i : ℕ) → (net.reads (suc i)).error ≡ none)
        → (mstf_sync net fuel s).0 ≡ hangs
    unfolding mstf_sync sync_write sync_reply on_found
    mstf_sync-hangs fuel broken ok =
        rw (found, sent, read_reply-interrupted fuel buflen net.reads net.junk broken ok) refl

    -- A reply that comes at once decides the result, and the stream is closed.
    pub mstf_sync-go :
        (fuel : ℕ) (line : Text)
        → (net.reads 0).error ≡ none
        → (net.reads 0).line ≡ some line
        → length line < buflen
        → mstf_sync net (suc fuel) s ≡ (
          if starts (codes "go") line
              then returns stf_pass line
              else if net.exit_on_error
              then exits stf_unresolved
              else returns stf_unresolved line,
          record s { cached = true },
        )
    unfolding mstf_sync sync_write sync_reply on_found
    mstf_sync-go fuel line ok e short =
        rw
          (
            found,
            sent,
            read_reply-first fuel buflen net.reads net.junk ok,
            e,
            take-all (buflen - 1) line (omega arith),
          )
          (ground arith)

    -- A read that fails leaves the stream open.
    pub mstf_sync-leaks :
        (fuel error : ℕ)
        → (net.reads 0).error ≡ some error
        → error ≢ 0
        → error ≢ eintr
        → (mstf_sync net (suc fuel) s).1.streams ≡ s.streams + 1
    unfolding mstf_sync sync_write sync_reply on_found read_reply
    mstf_sync-leaks fuel error broken h h' =
        rw (found, sent, broken, ==_of_ne error eintr h', ==_of_ne error 0 h) refl

    -- The value is the reply without its last two characters.
    pub mstf_getvar-value :
        (fuel size : ℕ) (value buffer : Text)
        → (net.reads 0).error ≡ none
        → (net.reads 0).line ≡ some (value ++ 13 ∷ b'\n' ∷ [])
        → length value + 2 < size
        → mstf_getvar net (suc fuel) size buffer s
          ≡ (returns stf_pass value, record s { cached = true })
    unfolding mstf_getvar get_write get_reply on_found
    mstf_getvar-value fuel size value buffer ok e short =
        rw
          (
            found,
            sent,
            read_reply-first fuel size net.reads buffer ok,
            e,
            take-all (size - 1) (value ++ 13 ∷ b'\n' ∷ [])
                (omega (arith, length-append value (13 ∷ b'\n' ∷ []))),
            length-append value (13 ∷ b'\n' ∷ []),
          )
          (if_false (ltb (length value + 2) 2) _ _ (ground arith)
            ∙ ap₂ trimmed
                (ap (λ k. take k (value ++ 13 ∷ b'\n' ∷ [])) (omega arith)
                  ∙ take-append value (13 ∷ b'\n' ∷ []))
                (omega arith))
      where
        trimmed : Text → ℕ → Answer × State
        trimmed t n = (returns stf_pass t, record { cached = true; streams = n })
