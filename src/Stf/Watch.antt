-- ===== src/Stf/Watch.antt =====
-- The rest of stf_timeout.c: clean_kill, wake_up, poll_process and main. What the system answers is
-- an argument; the calls that act on processes and on the journal are listed in the result.
pub mod Laws
pub mod Command
use zfstest.Prelude.{
  ℕ, zero, suc, ◌+◌, ◌-◌, ◌*◌, ◌/◌, ◌%◌, ◌^◌, Bool, true, false, not, ◌&&◌, ◌||◌, List, [], ◌∷◌,
  ◌++◌, ◌==◌, ltb, leb, if◌then◌else◌, Option, none, some, ℤ, pos, negsuc,
}
use zfstest.Stf.Number.{Text, word, int_max}
use zfstest.Stf.Timeout.{Units, Limit, parse_timeout}

pub data Call : Type 0 where
  -- kill(-pid, signal)
  kill_group : ℕ → ℕ → Call
  wait_child : Call
  sleep : ℕ → Call
  -- stf_jnl_testcase_end(name, pid, status); the name may be NULL
  testcase_end : Option Text → ℕ → ℕ → Call

abbrev pub sighup : ℕ
sighup = 1

abbrev pub sigkill : ℕ
sigkill = 9

-- The loop of clean_kill, with the rounds left: `reaped i` says whether waitpid returns the child.
unfoldable pub wait_rounds : ℕ → (ℕ → Bool) → List Call
wait_rounds zero reaped = []
wait_rounds (suc n) reaped =
    let rest = wait_rounds n (λ i. reaped (suc i)) in
    if reaped 0 then wait_child ∷ [] else wait_child ∷ sleep 1 ∷ rest

unfoldable pub clean_kill : (ℕ → Bool) → ℤ → List Call
unfolding wait_rounds
clean_kill reaped (pos (suc n)) =
    kill_group (suc n) sighup ∷ wait_rounds 10 reaped ++ kill_group (suc n) sigkill ∷ sleep 3 ∷ []
clean_kill reaped _ = []

-- hrtime_t has 64 bits; a value is its bits.
abbrev pub hr_word : ℕ
hr_word = 2 ^ 64

abbrev pub hr_sign : ℕ
hr_sign = 2 ^ 63

abbrev pub nanosec : ℕ
nanosec = 1000000000

abbrev pub hr_sub : ℕ → ℕ → ℕ
hr_sub a b = (a + hr_word - b) % hr_word

abbrev pub hr_positive : ℕ → Bool
hr_positive d = ltb 0 d && ltb d hr_sign

-- (int)(d / NANOSEC), which truncates towards 0
abbrev pub whole_seconds : ℕ → ℕ
whole_seconds d =
    if ltb d hr_sign then (d / nanosec) % word else (word - ((hr_word - d) / nanosec) % word) % word

pub data PollResult : Type 0 where
  failed expired event : PollResult

pub data Revents : Type 0 where
  pollpri pollerr pollhup pollnval other : Revents

-- What the system answers in one round of the loop: two readings of the clock, and poll.
pub record Round : Type 0 where
  pub first_clock : ℕ
  pub poll : PollResult
  pub revents : Revents
  pub second_clock : ℕ

pub record Outcome : Type 0 where
  pub exits : Bool
  pub timed_out : Bool
  pub calls : List Call

abbrev pub quiet_return : Outcome
quiet_return = record { exits = false; timed_out = false; calls = [] }

abbrev pub orelse : Option Outcome → Option Outcome → Option Outcome
orelse none rest = rest
orelse (some o) rest = some o

module _ (end : ℕ) (suspend : Bool) (reaped : ℕ → Bool) (child : ℕ) where
  unfoldable pub wake_up : Outcome
  wake_up = record { exits = false; timed_out = true; calls = clean_kill reaped (pos child) }

  -- `none` goes on with the next round.
  unfoldable pub on_revents : Revents → Option Outcome
  on_revents pollhup = some (record quiet_return { calls = kill_group child sigkill ∷ [] })
  on_revents other = none
  on_revents _ = some quiet_return

  unfoldable pub on_poll : PollResult → Round → Option Outcome
  unfolding wake_up on_revents
  on_poll failed r = some (record quiet_return { exits = true })
  on_poll expired r =
      if hr_positive (hr_sub end r.second_clock)
      then none
      else some (if suspend then quiet_return else wake_up)
  on_poll event r = on_revents r.revents

  unfoldable pub one_round : Round → Option Outcome
  unfolding on_poll
  one_round r =
      on_poll (if ltb int_max (whole_seconds (hr_sub end r.first_clock)) then expired else r.poll) r

  -- `for (;;)` with fuel; `none` means that the fuel ran out.
  unfoldable pub poll_process : ℕ → (ℕ → Round) → Option Outcome
  unfolding one_round
  poll_process zero rounds = none
  poll_process (suc fuel) rounds =
      let rest = poll_process fuel (λ i. rounds (suc i)) in orelse (one_round (rounds 0)) rest
