-- ===== src/Delay/Bounds.antt =====
-- How long `run_delay` of lib/fencing.py.py waits.
use Prim.Native.Nat.{suc, zero}
use fence_agents.Base.{
  ℕ, ◌+◌, ◌-◌, ◌*◌, ◌≤◌, ◌⊎◌, inl, inr, ◌≡◌, refl, ◌∙◌, true, false, not, ◌&&◌, ◌||◌, arith, ltb,
  Bool-cases, some, string_eq, if◌then◌else◌,
}
use fence_agents.Base.Int.{pos, ◌+ℤ◌}
use fence_agents.Exec.{ok, pure, modify}
use fence_agents.Exec.Rules.{bind_of_ok, run_then, run_else}
use fence_agents.State.{State, Value, int_value, option, int_option}
use fence_agents.State.Entries.{HasEntry, option_of_HasEntry, int_option_of_HasEntry}
use fence_agents.Power.{is_text}
use fence_agents.Delay.{Clock, time_left, wait_left, run_delay}

module _ {W : Type 0} (clock : Clock W)
    (rests : (n : ℕ) (w : W) → clock.now (clock.rest n w) ≡ clock.now w + n) where
  -- The clock shows the end of the delay or a later time, and has moved no further than to that end.
  pub record Waited (ends reserved : ℕ) (before after : W) : Type 0 where
    pub reached : ends ≤ clock.now after + reserved
    pub no_longer : (clock.now after ≡ clock.now before) ⊎ (clock.now after + reserved ≡ ends)

  limit_pos : (delay : ℕ) → (pos 1 +ℤ pos delay) ≡ pos (1 + delay)
  unfolding ◌+ℤ◌
  limit_pos delay = ground arith

  rest_for :
      (left : ℕ) (s : State W)
      → (after : W) × ((if ltb 0 left
              then modify (λ s. record s { world = clock.rest left s.world })
              else pure tt)
            s
          ≡ (ok tt, record s { world = after }))
        × (clock.now after ≡ clock.now s.world + left)
  rest_for zero s = (s.world, refl, omega arith)
  rest_for (suc n) s = (clock.rest (suc n) s.world, rests_on, rests (suc n) s.world)
    where
      rests_on :
          (if ltb 0 (suc n)
              then modify (λ s. record s { world = clock.rest (suc n) s.world })
              else pure tt)
            s
          ≡ (ok tt, record s { world = clock.rest (suc n) s.world })
      rests_on = ground arith

  time_left_pos :
      (start delay reserve : ℕ) (w : W)
      → time_left clock start (pos delay) (pos reserve) w
        ≡ (1 + delay) * clock.per_second + start - (clock.now w + reserve * clock.per_second)
  unfolding time_left
  time_left_pos start delay reserve w = rw (limit_pos delay) (omega arith)

  left-Waited :
      (ends reserved left : ℕ) (before after : W)
      → left ≡ ends - (clock.now before + reserved)
      → clock.now after ≡ clock.now before + left
      → Waited ends reserved before after
  left-Waited ends reserved left before after l a = record {
    reached = omega arith;
    no_longer = elim (Bool-cases (ltb 0 left)) [
      | inl more ↦ inr (ground (arith, more, l, a))
      | inr zero_left ↦ inl (ground (arith, zero_left, a))
    ];
  }

  wait_left-Waited :
      (start delay reserve : ℕ) (value : Value) (s : State W)
      → HasEntry "--delay" value s
      → int_value value ≡ some (pos delay)
      → (after : W) × (wait_left clock start (pos reserve) s ≡ (ok tt, record s { world = after }))
        × Waited ((1 + delay) * clock.per_second + start) (reserve * clock.per_second) s.world after
  unfolding wait_left
  wait_left-Waited start delay reserve value s entry reads =
      let left = time_left clock start (pos delay) (pos reserve) s.world in
      let (after, run, moved) = rest_for left s in
      (
        after,
        bind_of_ok (int_option "--delay") _ s
              (int_option_of_HasEntry "--delay" value (pos delay) s reads entry)
            ∙ run,
        left-Waited ((1 + delay) * clock.per_second + start) (reserve * clock.per_second) left
            s.world after (time_left_pos start delay reserve s.world) moved,
      )

  waits :
      (action : Value) (s : State W)
      → (is_text action "off" || is_text action "reboot") ≡ true
      → not (is_text action "off" || is_text action "reboot") ≡ false
  waits action s h = rw h refl

  -- Before "off" or "reboot" with a delay that is not "0", no failure and a time in reserve that is not
  -- negative, the wait goes on until one second more than the delay has passed since the start, less
  -- the reserve, and not longer. Nothing but the clock changes.
  pub run_delay-Waited :
      (start delay reserve : ℕ) (action value : Value) (s : State W)
      → HasEntry "--action" action s
      → (is_text action "off" || is_text action "reboot") ≡ true
      → HasEntry "--delay" value s
      → is_text value "0" ≡ false
      → int_value value ≡ some (pos delay)
      → (after : W) × (run_delay clock start (pos reserve) (pos 0) s
          ≡ (ok tt, record s { world = after }))
        × Waited ((1 + delay) * clock.per_second + start) (reserve * clock.per_second) s.world after
  unfolding run_delay
  run_delay-Waited start delay reserve action value s acted fences entry nonzero reads =
      let (after, run, waited) = wait_left-Waited start delay reserve value s entry reads in
      (
        after,
        bind_of_ok (option "--action") _ s (option_of_HasEntry "--action" action s acted)
            ∙ run_else (not (is_text action "off" || is_text action "reboot")) _ _ s
                (waits action s fences)
            ∙ bind_of_ok (option "--delay") _ s (option_of_HasEntry "--delay" value s entry)
            ∙ run_then (not (is_text value "0") && true && true) _ _ s (rw nonzero refl)
            ∙ run,
        waited,
      )
