-- ===== src/Stf/Watch/Command/Laws.antt =====
-- How a run of stf_timeout ends.
use mathlib.Core.List.{append_assoc}
use zfstest.Prelude.{
  ℕ, ◌+◌, ◌*◌, ◌/◌, ◌%◌, ◌^◌, ◌≤◌, ◌<◌, ◌≡◌, refl, zero, suc, pos, true, false, Bool, ap, ap₂, ◌∙◌,
  List, [], ◌∷◌, ◌++◌, arith, ltb, if◌then◌else◌, some,
}
use zfstest.Stf.Number.{Text, word, int_max}
use zfstest.Stf.Timeout.{parse_timeout}
use zfstest.Stf.Watch.{
  Call, expired, kill_group, sleep, clean_kill, wake_up, testcase_end, wait_child, hr_sign, nanosec,
  Outcome, poll_process,
}
use zfstest.Stf.Watch.Laws.{tries, wait_rounds-tries, poll_process-ends, poll_process-expired}
use zfstest.Stf.Watch.Command.{
  end_time, deadline, Letter, setup, System, Finished, finished, exit_status, mark_timed_out,
  report, main,
}

-- The mark changes the byte of the exit code only.
pub mark_timed_out-exit_status :
    (status : ℕ)
    → status < word
    → (exit_status (mark_timed_out status) ≡ 9)
      × (mark_timed_out status % 2 ^ 8 ≡ status % 2 ^ 8)
      × (mark_timed_out status / 2 ^ 16 ≡ status / 2 ^ 16)
      × (mark_timed_out status < word)
mark_timed_out-exit_status status h = omega arith

clean_kill-tries :
    (reaped : ℕ → Bool) (child k : ℕ)
    → 0 < child
    → k ≤ 10
    → ((i : ℕ) → i < k → reaped i ≡ false)
    → (k < 10 → reaped k ≡ true)
    → clean_kill reaped (pos child)
      ≡ kill_group child 1 ∷ tries k (if ltb k 10 then wait_child ∷ [] else [])
        ++ kill_group child 9 ∷ sleep 3 ∷ []
unfolding clean_kill
clean_kill-tries reaped zero k h _ _ _ = absurd (omega arith)
clean_kill-tries reaped (suc n) k h few failing found =
    ap (λ t. kill_group (suc n) 1 ∷ t ++ kill_group (suc n) 9 ∷ sleep 3 ∷ [])
      (wait_rounds-tries 10 k reaped few failing found)

append_optional :
    (quiet : Bool) (calls : List Call) (wait last : Call)
    → (if quiet then calls ++ wait ∷ [] else (calls ++ wait ∷ []) ++ last ∷ [])
      ≡ calls ++ wait ∷ (if quiet then [] else last ∷ [])
append_optional true calls wait last = refl
append_optional false calls wait last = append_assoc calls (wait ∷ []) (last ∷ [])

deadline-plain :
    (clock duration : ℕ)
    → duration ≤ int_max
    → clock + duration * 1000000000 < hr_sign
    → deadline clock duration ≡ clock + duration * 1000000000
deadline-plain clock duration short near = ground arith

-- The run has a command and a limit, and the child and its entry under /proc are there.
module _ (fuel : ℕ) (sys : System) (argc : ℕ) (letters : List Letter) (limit command : Text)
    (arguments : List Text) (child : ℕ) (enough : 2 ≤ argc) (forked : sys.forked ≡ some child)
    (opens : sys.proc_opens ≡ true) where
  main-report :
      (o : Outcome)
      → poll_process
          (end_time sys limit)
          (setup sys letters).suspend
          sys.reaped
          child
          fuel
          sys.rounds
        ≡ some o
      → main fuel sys argc letters (limit ∷ command ∷ arguments)
        ≡ finished (report (setup sys letters) sys o (parse_timeout sys.stale limit).complaints)
  unfolding main
  main-report o polled = rw (few, forked, opens, polled) refl
    where
      few : ltb argc 2 ≡ false
      few = ground arith

  -- `main` of stf_timeout with a limit and a command ends: if there are two arguments or more,
  -- the child can be started and watched, and in a round that the fuel reaches the first reading
  -- of the clock is a second past the end or more, less than 2 ^ 31 - 1 seconds past it and below
  -- 2 ^ 63, and the second reading is not before the end and below 2 ^ 63, then the run finishes,
  -- whatever poll answers in any round.
  pub main-ends :
      (n : ℕ)
      → n < fuel
      → end_time sys limit + nanosec ≤ (sys.rounds n).first_clock
      → (sys.rounds n).first_clock < end_time sys limit + int_max * nanosec
      → (sys.rounds n).first_clock < hr_sign
      → end_time sys limit ≤ (sys.rounds n).second_clock
      → (sys.rounds n).second_clock < hr_sign
      → (f : Finished) × (main fuel sys argc letters (limit ∷ command ∷ arguments) ≡ finished f)
  main-ends n h late near fits stays fits' =
      let (o, e) =
        poll_process-ends (end_time sys limit) (setup sys letters).suspend sys.reaped child n fuel
          sys.rounds h late near fits stays fits' in
      (_, main-report o e)

  -- `main` of stf_timeout with a limit and a command, whose child never has an event: if there
  -- are two arguments or more, the child, whose pid is not 0, can be started and watched,
  -- suspension is not asked for, the duration is at most INT_MAX, the end (the clock at the start
  -- and the duration in nanoseconds) is below 2 ^ 63, poll times out in every round up to one
  -- that the fuel reaches, the clock behind it is before the end in all rounds but the last, and
  -- in the last one at the end or later and below 2 ^ 63, and the status that waitpid stores has
  -- 32 bits, then the run finishes with code 9 and the complaints of the limit; where the first k
  -- tries to wait for the killed child fail and the next one does not, or k is ten, its calls are
  -- SIGHUP to the group of the child, the k tries with a sleep of 1 second behind each, the try
  -- that succeeds if k is below ten, SIGKILL to the group and a sleep of 3 seconds, the wait for
  -- the child and, unless `-q` is given, the end of the test case in the journal with the name of
  -- `-n` or NULL, the pid that waitpid returned, and a status that has 9 in the byte of the exit
  -- code and the signal byte and the upper half of the status stored.
  pub main-timed_out :
      (n end k : ℕ)
      → n < fuel
      → (setup sys letters).suspend ≡ false
      → 0 < child
      → sys.waited_status < word
      → (parse_timeout sys.stale limit).duration ≤ int_max
      → sys.clock + (parse_timeout sys.stale limit).duration * 1000000000 ≡ end
      → end < hr_sign
      → ((i : ℕ) → i < n → ((sys.rounds i).poll ≡ expired) × ((sys.rounds i).second_clock < end))
      → (sys.rounds n).poll ≡ expired
      → end ≤ (sys.rounds n).second_clock
      → (sys.rounds n).second_clock < hr_sign
      → k ≤ 10
      → ((i : ℕ) → i < k → sys.reaped i ≡ false)
      → (k < 10 → sys.reaped k ≡ true)
      → (status : ℕ) × (status % 2 ^ 8 ≡ sys.waited_status % 2 ^ 8)
        × ((status / 2 ^ 8) % 2 ^ 8 ≡ 9)
        × (status / 2 ^ 16 ≡ sys.waited_status / 2 ^ 16)
        × (main fuel sys argc letters (limit ∷ command ∷ arguments)
            ≡ finished (record {
              code = 9;
              calls =
                  (kill_group child 1 ∷ tries k (if ltb k 10 then wait_child ∷ [] else [])
                    ++ kill_group child 9 ∷ sleep 3 ∷ [])
                  ++ wait_child
                    ∷ (if (setup sys letters).quiet
                        then []
                        else testcase_end (setup sys letters).name sys.waited_pid status ∷ []);
              complaints = (parse_timeout sys.stale limit).complaints;
            }))
  unfolding report wake_up
  main-timed_out n end k h go positive small short from near waits e late fits tried failing found =
      let ends : end_time sys limit ≡ end =
        deadline-plain sys.clock (parse_timeout sys.stale limit).duration short (omega arith)
        ∙ from in
      let polled =
        poll_process-expired end (setup sys letters).suspend sys.reaped child n fuel sys.rounds h
          near go waits e late fits in
      let (nine, low, high, _) = mark_timed_out-exit_status sys.waited_status small in
      let o = wake_up end (setup sys letters).suspend sys.reaped child in
      let calls = clean_kill-tries sys.reaped child k positive tried failing found in
      let rest : List Call =
        if (setup sys letters).quiet
        then []
        else testcase_end (setup sys letters).name sys.waited_pid (mark_timed_out sys.waited_status)
          ∷ [] in
      (
        mark_timed_out sys.waited_status,
        low,
        nine,
        high,
        main-report o (
              ap (λ t. poll_process t (setup sys letters).suspend sys.reaped child fuel sys.rounds)
                ends
              ∙ polled)
            ∙ ap₂
                (λ c k. finished (record {
                  code = c;
                  calls = k;
                  complaints = (parse_timeout sys.stale limit).complaints;
                }))
                nine
                (append_optional (setup sys letters).quiet (clean_kill sys.reaped (pos child))
                    wait_child _
                  ∙ ap (λ t. t ++ wait_child ∷ rest) calls),
      )
