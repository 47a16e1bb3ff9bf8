-- ===== src/Stf/Watch/Laws.antt =====
-- When poll_process returns.
use zfstest.Prelude.{
  ℕ, zero, suc, pos, if◌then◌else◌, ◌+◌, ◌*◌, ◌≤◌, ◌<◌, ◌≡◌, refl, true, false, Bool, some, arith,
  List, [], ◌∷◌, ap, Option-cases, Bool-cases, ◌∙◌, ltb, inl, inr,
}
use zfstest.Stf.Number.{int_max}
use zfstest.Stf.Watch.{
  Call, wait_child, sleep, wait_rounds, quiet_return, wake_up, clean_kill, nanosec, hr_sign, hr_sub,
  hr_positive, whole_seconds, Round, Outcome, PollResult, failed, expired, event, Revents,
  on_revents, one_round, on_poll, poll_process,
}

-- The tries of the wait that fail, a second apart.
abbrev pub tries : ℕ → List Call → List Call
tries zero rest = rest
tries (suc k) rest = wait_child ∷ sleep 1 ∷ tries k rest

pub wait_rounds-tries :
    (n k : ℕ) (reaped : ℕ → Bool)
    → k ≤ n
    → ((i : ℕ) → i < k → reaped i ≡ false)
    → (k < n → reaped k ≡ true)
    → wait_rounds n reaped ≡ tries k (if ltb k n then wait_child ∷ [] else [])
unfolding wait_rounds
wait_rounds-tries zero zero reaped _ _ _ = refl
wait_rounds-tries zero (suc k) reaped h _ _ = absurd (omega arith)
wait_rounds-tries (suc n) zero reaped _ _ found = rw (found (omega arith)) (ground arith)
wait_rounds-tries (suc n) (suc k) reaped h failing found = rw (failing 0 (omega arith)) (
    ap (λ t. wait_child ∷ sleep 1 ∷ t)
      (wait_rounds-tries n k (λ i. reaped (suc i)) (omega arith)
          (λ i b. failing (suc i) (omega arith)) (λ b. found (omega arith))
        ∙ ap (λ b. tries k (if b then wait_child ∷ [] else [])) (same_order k n)))
  where
    same_order : (k n : ℕ) → ltb k n ≡ ltb (suc k) (suc n)
    same_order k n = ground arith

-- A clock that is past `end`, and at most 2 ^ 31 seconds past.
overdue :
    (end now : ℕ)
    → end + nanosec ≤ now
    → now < hr_sign
    → now < end + int_max * nanosec
    → (ltb int_max (whole_seconds (hr_sub end now))) ≡ true
overdue end now late fits near = ground arith

-- The second reading of a clock that is past `end` is no reason to go on.
not_early : (end now : ℕ) → end ≤ now → now < hr_sign → hr_positive (hr_sub end now) ≡ false
not_early end now late fits = ground arith

early_positive : (end now : ℕ) → end < hr_sign → now < end → hr_positive (hr_sub end now) ≡ true
early_positive end now h early = ground arith

early_or_late :
    (end now : ℕ) → end < hr_sign → now < hr_sign → hr_positive (hr_sub end now) ≡ false → end ≤ now
early_or_late end now h fits late = ground arith

module _ (end : ℕ) (suspend : Bool) (reaped : ℕ → Bool) (child : ℕ) where
  -- A round that starts a second late, on a clock that does not run back, is the last one.
  one_round-late :
      (r : Round)
      → end + nanosec ≤ r.first_clock
      → r.first_clock < end + int_max * nanosec
      → r.first_clock < hr_sign
      → end ≤ r.second_clock
      → r.second_clock < hr_sign
      → (o : Outcome) × (one_round end suspend reaped child r ≡ some o)
  unfolding one_round
  one_round-late r late near fits stays fits' = (
    if suspend then quiet_return else wake_up end suspend reaped child,
    rw (overdue end r.first_clock late fits near, not_early end r.second_clock stays fits') refl,
  )

  -- The loop ends when the clock of a round is past the end.
  pub poll_process-ends :
      (n fuel : ℕ) (rounds : ℕ → Round)
      → n < fuel
      → end + nanosec ≤ (rounds n).first_clock
      → (rounds n).first_clock < end + int_max * nanosec
      → (rounds n).first_clock < hr_sign
      → end ≤ (rounds n).second_clock
      → (rounds n).second_clock < hr_sign
      → (o : Outcome) × (poll_process end suspend reaped child fuel rounds ≡ some o)
  unfolding poll_process
  poll_process-ends n zero rounds h _ _ _ _ _ = elim h [ ]
  poll_process-ends zero (suc fuel) rounds h late near fits stays fits' =
      let (o, e) = one_round-late (rounds 0) late near fits stays fits' in (o, rw e refl)
  poll_process-ends (suc n) (suc fuel) rounds h late near fits stays fits' =
      elim (Option-cases (one_round end suspend reaped child (rounds 0))) [
        | inr (o, e) ↦ (o, rw e refl)
        | inl e ↦
            let (o, e') =
              poll_process-ends n fuel (λ i. rounds (suc i)) (omega arith) late near fits stays
                fits' in
            (o, rw e e')
      ]

  one_round-expired :
      (r : Round)
      → r.poll ≡ expired
      → one_round end suspend reaped child r ≡ on_poll end suspend reaped child expired r
  unfolding one_round
  one_round-expired r e = rw e (ground arith)

  -- A child without an event: poll times out until the clock has reached the end.
  pub poll_process-expired :
      (n fuel : ℕ) (rounds : ℕ → Round)
      → n < fuel
      → end < hr_sign
      → suspend ≡ false
      → ((i : ℕ) → i < n → ((rounds i).poll ≡ expired) × ((rounds i).second_clock < end))
      → (rounds n).poll ≡ expired
      → end ≤ (rounds n).second_clock
      → (rounds n).second_clock < hr_sign
      → poll_process end suspend reaped child fuel rounds ≡ some (wake_up end suspend reaped child)
  unfolding poll_process on_poll
  poll_process-expired n zero rounds h _ _ _ _ _ _ = absurd (omega arith)
  poll_process-expired zero (suc fuel) rounds h near go _ e late fits =
      rw (one_round-expired (rounds 0) e, not_early end (rounds 0).second_clock late fits, go) refl
  poll_process-expired (suc n) (suc fuel) rounds h near go waits e late fits =
      let (e', early) = waits 0 (omega arith) in
      rw (one_round-expired (rounds 0) e', early_positive end (rounds 0).second_clock near early)
        (poll_process-expired n fuel (λ i. rounds (suc i)) (omega arith) near go
          (λ i b. waits (suc i) (omega arith)) e late fits)

  on_revents-timed_out :
      (r : Revents) (o : Outcome)
      → on_revents end suspend reaped child r ≡ some o
      → o.timed_out ≡ true
      → ⊥
  unfolding on_revents
  on_revents-timed_out r o e h = ground arith

  on_poll-timed_out :
      (v : PollResult) (r : Round) (o : Outcome)
      → end < hr_sign
      → r.second_clock < hr_sign
      → on_poll end suspend reaped child v r ≡ some o
      → o.timed_out ≡ true
      → (suspend ≡ false) × (end ≤ r.second_clock) × (o.calls ≡ clean_kill reaped (pos child))
  unfolding on_poll wake_up
  on_poll-timed_out failed r o _ _ e h = absurd (ground arith)
  on_poll-timed_out event r o _ _ e h = absurd (on_revents-timed_out r.revents o e h)
  on_poll-timed_out expired r o small fits e h =
      elim (Bool-cases (hr_positive (hr_sub end r.second_clock))) [
        | inl early ↦ absurd (let e' = rw early at e in cc)
        | inr past ↦
            let e' = rw past at e in
            (ground arith, early_or_late end r.second_clock small fits past, ground arith)
      ]

  -- `poll_process` of stf_timeout, when it returns with a timeout noted: if the end and the
  -- second readings of the clock in all rounds are below 2 ^ 63, then suspension was not asked
  -- for, some round read a clock that has reached the end, and the calls are those that kill the
  -- child.
  pub poll_process-timed_out :
      (fuel : ℕ) (rounds : ℕ → Round) (o : Outcome)
      → end < hr_sign
      → ((k : ℕ) → (rounds k).second_clock < hr_sign)
      → poll_process end suspend reaped child fuel rounds ≡ some o
      → o.timed_out ≡ true
      → (suspend ≡ false)
        × ((k : ℕ) × (end ≤ (rounds k).second_clock))
        × (o.calls ≡ clean_kill reaped (pos child))
  unfolding poll_process one_round
  poll_process-timed_out zero rounds o _ _ e h = absurd (ground arith)
  poll_process-timed_out (suc fuel) rounds o small fits e h =
      elim (Option-cases (one_round end suspend reaped child (rounds 0))) [
        | inr (o', here) ↦
            let e' = rw here at e in
            let (a, b, c) = on_poll-timed_out _ (rounds 0) o small (fits 0) (here ∙ e') h in
            (a, (0, b), c)
        | inl on ↦
            let e' = rw on at e in
            let (a, (k, b), c) =
              poll_process-timed_out fuel (λ i. rounds (suc i)) o small (λ k. fits (suc k)) e' h in
            (a, (suc k, b), c)
      ]
