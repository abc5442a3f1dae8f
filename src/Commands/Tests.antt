-- ===== src/Commands/Tests.antt =====
-- Three commands, of which the first two give 0 at once and the third never ends. The world is the time.
use fence_agents.Base.{
  ◌≡◌, ◌≢◌, refl, arith, Bool-cases, inl, inr, ℕ, ◌+◌, String, Option, none, some, [], ◌∷◌, ◌==◌,
  string_eq, nat_eq, if◌then◌else◌,
}
use fence_agents.Base.Int.{ℤ, pos}
use fence_agents.Dict.{Dict, get}
use fence_agents.Exec.{ok, exit, diverged}
use fence_agents.State.{State, Value, text, int_value}
use fence_agents.State.Entries.{HasEntry}
use fence_agents.Text.Decimal.{decimal_of_text}
use fence_agents.Commands.{Launcher, Spawned, negative_as_zero, started, no_program, run_commands}
use fence_agents.Commands.Quorate.{Answered, run_commands-Answered}
use fence_agents.Commands.Ending.{Forward, run_commands_ends}

abbrev spawn : String → ℕ → Spawned × ℕ
spawn command w =
    if command == "a"
    then (started 1, w)
    else if command == "b"
    then (started 2, w)
    else if command == "c"
    then (started 3, w)
    else (no_program, w)

-- The clock goes on by one part of a second where nothing is waited for.
abbrev wait : ℕ → ℕ → ℕ → Option ℤ × ℕ
wait pid most w = if pid == 3 then (none, w + most + 1) else (some (pos 0), w)

abbrev launcher : Launcher ℕ
launcher = record {
  clock = record { per_second = 10; now = λ w. w; rest = λ n w. w + n };
  spawn = spawn;
  wait = wait;
  read_out = λ pid w. ("x", w);
  read_err = λ pid w. ("", w);
  kill = λ pid w. w;
}

abbrev start : Dict Value → State ℕ
start options = record {
  options = options;
  device_opt = [];
  plugs = none;
  all_opt = [];
  printed = [];
  logged = [];
  world = 100;
}

-- Two of three are enough after five seconds.
test_majority :
    run_commands launcher 9 ("a" ∷ "b" ∷ "c" ∷ []) (start [])
    ≡ (ok (record { rc = pos 0; out = "xx"; err = "" }), record (start []) { world = 170 })
unfolding run_commands get nat_eq string_eq
test_majority = refl

-- One of two is not.
test_no_majority :
    (run_commands launcher 60
      ("a" ∷ "c" ∷ [])
      (start (("--power-timeout", text "20") ∷ []))).1.world
    ≡ 300
unfolding run_commands get nat_eq string_eq decimal_of_text
test_no_majority = refl

-- The number 0 is no limit, but the text "0" is one that has passed from the start.
test_zero :
    (run_commands launcher 60 ("c" ∷ []) (start (("--power-timeout", text "0") ∷ []))).0 ≡ exit 1
unfolding run_commands get nat_eq string_eq decimal_of_text int_value
test_zero = refl

majority_returns :
    run_commands launcher 9 ("a" ∷ "b" ∷ "c" ∷ []) (start [])
    ≡ (ok (record { rc = pos 0; out = "xx"; err = "" }), record (start []) { world = 170 })
unfolding run_commands get nat_eq string_eq
majority_returns = refl

run_commands-Answered_example :
    Answered launcher
      ("a" ∷ "b" ∷ "c" ∷ [])
      (start [])
      (record { rc = pos 0; out = "xx"; err = "" })
run_commands-Answered_example =
    run_commands-Answered launcher 9 ("a" ∷ "b" ∷ "c" ∷ []) (start []) majority_returns

spawn_same : (command : String) (w : ℕ) → (spawn command w).1 ≡ w
unfolding string_eq
spawn_same command w = elim (Bool-cases (command == "a")) [
  | inl a ↦ rw a refl
  | inr not_a ↦ elim (Bool-cases (command == "b")) [
    | inl b ↦ rw not_a (rw b refl)
    | inr not_b ↦ elim (Bool-cases (command == "c")) [
      | inl c ↦ rw not_a (rw not_b (rw c refl))
      | inr not_c ↦ rw not_a (rw not_b (rw not_c refl))
    ]
  ]
]

clock_forward : Forward launcher
clock_forward = record {
  starting = λ command w. omega (arith, spawn_same command w);
  waiting = λ pid most w. ground arith;
  in_vain = λ pid most w. ground arith;
}

two_entry : HasEntry "--power-timeout" (text "2") (start (("--power-timeout", text "2") ∷ []))
unfolding get string_eq
two_entry = refl

two_read : decimal_of_text "2" ≡ some (some (record { places = 0; digits = 2 }))
unfolding decimal_of_text
two_read = refl

run_commands_ends_example :
    (run_commands launcher 51 ("c" ∷ []) (start (("--power-timeout", text "2") ∷ []))).0 ≢ diverged
unfolding negative_as_zero
run_commands_ends_example =
    run_commands_ends launcher clock_forward 50 ("c" ∷ []) "2"
      (some (record { places = 0; digits = 2 })) (start (("--power-timeout", text "2") ∷ []))
      two_entry two_read (record { five = omega arith; whole_limit = omega arith })
