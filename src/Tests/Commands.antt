-- ===== src/Tests/Commands.antt =====
-- The theorems on stf_timeout, applied where their hypotheses hold.
use zfstest.Prelude.{
  ℕ, ◌/◌, ◌%◌, ◌^◌, ◌==◌, if◌then◌else◌, ◌≤◌, ◌≡◌, refl, true, false, [], ◌∷◌, none, some, pos,
  arith,
}
use zfstest.Stf.Number.{codes, strtol}
use zfstest.Stf.Timeout.{garbage, minutes, parse_timeout}
use zfstest.Stf.Timeout.Limits.{accepted}
use zfstest.Stf.Timeout.Printed.{printed, parse_timeout-printed}
use zfstest.Stf.Timeout.Stale.{stale_limit, parse_timeout-stale}
use zfstest.Stf.Watch.{
  Round, expired, other, Outcome, clean_kill, poll_process, testcase_end, wait_child, kill_group,
  sleep,
}
use zfstest.Stf.Watch.Laws.{poll_process-timed_out}
use zfstest.Stf.Watch.Command.{System, Finished, finished, main, end_time}
use zfstest.Stf.Watch.Command.Laws.{main-ends, main-timed_out}

parse_timeout-printed_example :
    parse_timeout garbage (printed (some 1) (some 2) none (some 3)) ≡ accepted 3723
parse_timeout-printed_example =
    parse_timeout-printed garbage (some 1) (some 2) none (some 3) (omega arith)

parse_timeout-stale_example : parse_timeout minutes (codes "5x") ≡ stale_limit minutes 5 b'x'
parse_timeout-stale_example =
    parse_timeout-stale b'x' [] (refl, refl, refl, refl) refl refl refl minutes (codes "5")
      (refl, tt) (omega arith)

-- The clock is past the end by two seconds.
abbrev late : ℕ → Round
late i = record {
  first_clock = 9000000000;
  poll = expired;
  revents = other;
  second_clock = 9000000001;
}

abbrev woken : Outcome
woken = record { exits = false; timed_out = true; calls = clean_kill (λ i. true) (pos 7) }

poll_process-timed_out_example :
    (false ≡ false)
    × ((k : ℕ) × (7000000000 ≤ (late k).second_clock))
    × (woken.calls ≡ clean_kill (λ i. true) (pos 7))
unfolding poll_process
poll_process-timed_out_example =
    poll_process-timed_out 7000000000 false (λ i. true) 7 1 late woken (omega arith)
      (λ k. omega arith) refl refl

-- The run starts at 2 seconds with a limit of 5.
abbrev sys : System
sys = record {
  suspend_set = false;
  stale = garbage;
  clock = 2000000000;
  forked = some 7;
  proc_opens = true;
  rounds = late;
  reaped = λ i. true;
  waited_pid = 7;
  waited_status = 9;
}

ends : end_time sys (codes "5") ≡ 7000000000
unfolding parse_timeout strtol
ends = refl

main-ends_example : (f : Finished) × (main 1 sys 3 [] (codes "5" ∷ codes "sleep" ∷ []) ≡ finished f)
unfolding parse_timeout strtol
main-ends_example =
    main-ends 1 sys 3 [] (codes "5") (codes "sleep") [] 7 (omega arith) refl refl 0 (omega arith)
      (omega arith) (omega arith) (omega arith) (omega arith) (omega arith)

-- Two rounds without an event, before and behind the end.
abbrev quiet_rounds : ℕ → Round
quiet_rounds i = record {
  first_clock = 3000000000;
  poll = expired;
  revents = other;
  second_clock = if i == 0 then 6900000000 else 7000000000;
}

abbrev patient : System
patient = record sys { rounds = quiet_rounds; reaped = λ i. i == 1 }

main-timed_out_example :
    (status : ℕ) × (status % 2 ^ 8 ≡ 9)
    × ((status / 2 ^ 8) % 2 ^ 8 ≡ 9)
    × (status / 2 ^ 16 ≡ 0)
    × (main 2 patient 3 [] (codes "5" ∷ codes "sleep" ∷ [])
        ≡ finished (record {
          code = 9;
          calls =
              kill_group 7 1
              ∷ wait_child
              ∷ sleep 1
              ∷ wait_child
              ∷ kill_group 7 9
              ∷ sleep 3
              ∷ wait_child
              ∷ testcase_end none 7 status
              ∷ [];
          complaints = [];
        }))
unfolding parse_timeout strtol
main-timed_out_example =
    main-timed_out 2 patient 3 [] (codes "5") (codes "sleep") [] 7 (omega arith) refl refl 1
      7000000000 1 (omega arith) refl (omega arith) (omega arith) (omega arith) refl (omega arith)
      (λ i h. ground arith) refl (omega arith) (omega arith) (omega arith) (λ i h. ground arith)
      (λ h. refl)
