-- ===== src/Delay.antt =====
-- `run_delay` of lib/fencing.py.py: the wait before a node is fenced.
pub mod Bounds
mod Tests
use Prim.Native.Nat.{suc, zero}
use fence_agents.Base.{
  ℕ, ◌+◌, ◌-◌, ◌*◌, String, Bool, true, false, not, ◌&&◌, ◌||◌, ltb, if◌then◌else◌,
}
use fence_agents.Base.Int.{ℤ, pos, negsuc, pos_part, neg_part, ◌+ℤ◌}
use fence_agents.Exec.{Exec, pure, gets, modify, ◌>>=◌, ◌>>◌}
use fence_agents.State.{State, option, int_option}
use fence_agents.Power.{is_text}

-- The clock of the machine counts in equal parts of a second. It is read by `time.time`, and
-- `time.sleep` takes it further.
pub record Clock (W : Type 0) : Type 0 where
  pub per_second : ℕ
  pub now : W → ℕ
  pub rest : ℕ → W → W

abbrev pub is_zero : ℤ → Bool
is_zero (pos zero) = true
is_zero n = false

abbrev pub is_negative : ℤ → Bool
is_negative (pos n) = false
is_negative (negsuc n) = true

module _ {W : Type 0} (clock : Clock W) where
  -- time_left, 0 where it is not positive
  unfoldable pub time_left : ℕ → ℤ → ℤ → W → ℕ
  unfolding ◌+ℤ◌
  time_left start delay reserve w =
      let limit = pos 1 +ℤ delay in
      pos_part limit * clock.per_second
      + start
      - (clock.now w + neg_part limit * clock.per_second + pos_part reserve * clock.per_second)

  unfoldable pub wait_left : ℕ → ℤ → Exec (State W) (Unit {0})
  unfolding ◌>>=◌ int_option time_left
  wait_left start reserve = do
    delay ← int_option "--delay"
    left ← gets (λ s. time_left start delay reserve s.world)
    if ltb 0 left then modify (λ s. record s { world = clock.rest left s.world }) else pure tt

  -- run_delay(options, reserve, result), with `run_delay.time_start` as the first argument
  unfoldable pub run_delay : ℕ → ℤ → ℤ → Exec (State W) (Unit {0})
  unfolding ◌>>=◌ option wait_left
  run_delay start reserve result = do
    action ← option "--action"
    if not (is_text action "off" || is_text action "reboot") then pure tt else do
      delay ← option "--delay"
      if not (is_text delay "0") && is_zero result && not (is_negative reserve)
          then wait_left start reserve
          else pure tt
