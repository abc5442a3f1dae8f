-- ===== src/Delay/Tests.antt =====
-- A delay of two seconds, one of which is over when the wait begins.
use fence_agents.Base.{◌≡◌, refl, ℕ, ◌+◌, ◌*◌, none, [], ◌∷◌, string_eq}
use fence_agents.Base.Int.{pos}
use fence_agents.Dict.{get}
use fence_agents.Exec.{ok}
use fence_agents.State.{State, text, int_value}
use fence_agents.Text.Number.{int_of_text}
use fence_agents.Delay.{Clock, run_delay}
use fence_agents.Delay.Bounds.{Waited, run_delay-Waited}

-- a clock of milliseconds
abbrev clock : Clock ℕ
clock = record { per_second = 1000; now = λ w. w; rest = λ n w. w + n }

abbrev start : State ℕ
start = record {
  options = ("--action", text "off") ∷ ("--delay", text "2") ∷ [];
  device_opt = [];
  plugs = none;
  all_opt = [];
  printed = [];
  logged = [];
  world = 6000;
}

test_delay : (run_delay clock 5000 (pos 0) (pos 0) start).1.world ≡ 8000
unfolding run_delay get int_of_text string_eq
test_delay = refl

test_failed : (run_delay clock 5000 (pos 0) (pos 1) start).1.world ≡ 6000
unfolding run_delay get string_eq
test_failed = refl

run_delay-Waited_example :
    (after : ℕ) × (run_delay clock 5000 (pos 0) (pos 0) start
      ≡ (ok tt, record start { world = after }))
    × Waited clock (λ n w. refl) ((1 + 2) * 1000 + 5000) (0 * 1000) 6000 after
unfolding get int_value int_of_text string_eq
run_delay-Waited_example =
    run_delay-Waited clock (λ n w. refl) 5000 2 0 (text "off") (text "2") start refl refl refl refl
      refl
