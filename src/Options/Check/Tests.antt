-- ===== src/Options/Check/Tests.antt =====
-- Runs of `check_input`, and the theorems on its parts at them.
use fence_agents.Base.{
  ◌≡◌, refl, String, true, false, not, ◌&&◌, some, List, [], ◌∷◌, contains, string_eq, nat_eq, ◌==◌,
  if◌then◌else◌,
}
use fence_agents.Dict.{get, put, has, remove}
use fence_agents.Exec.{ok, exit}
use fence_agents.State.{State, text, int_value}
use fence_agents.State.Entries.{HasEntry}
use fence_agents.Text.Number.{int_of_text}
use fence_agents.Failure.{generic_status, ec_ok}
use fence_agents.Device.{Switch, switch_system, start}
use fence_agents.Options.Table.{all_opt}
use fence_agents.Options.Dependency.{dependency_opt}
use fence_agents.Options.Actions.{get_available_actions}
use fence_agents.Options.Validate.{validate_input}
use fence_agents.Options.Check.{
  acceptable_actions, check_verbosity, run_checks, check_rest, check_input,
}
use fence_agents.Options.Check.Verbose.{HasLevel, expected_level, check_verbosity-HasLevel}
use fence_agents.Options.Check.Accept.{run_checks-outcome, check_rest-unacceptable}

-- an agent for ssh with a user name and an address, before its options are checked
abbrev entered : String → State Switch
entered action = record (start "off") {
  options =
      ("--action", text action)
      ∷ ("--ip", text "10.0.0.1")
      ∷ ("--ssh", text "1")
      ∷ ("--password", text "secret")
      ∷ ("--verbose-level", text "-3")
      ∷ ("--verbose", text "1")
      ∷ [];
  device_opt = "ipaddr" ∷ "passwd" ∷ "secure" ∷ [];
  all_opt = all_opt;
}

abbrev one_line : String → List String
one_line t = t ∷ []

abbrev checked : String → State Switch
checked action = (check_input switch_system one_line false (entered action)).1

test_returns : (check_input switch_system one_line false (entered "OFF")).0 ≡ ok tt
unfolding check_input all_opt dependency_opt get_available_actions get put has string_eq nat_eq
    int_of_text int_value remove
test_returns = refl

test_port : get (checked "OFF").options "--ipport" ≡ some (text "22")
unfolding check_input all_opt dependency_opt get_available_actions get put has string_eq nat_eq
    int_of_text int_value remove
test_port = refl

test_action : get (checked "OFF").options "--action" ≡ some (text "off")
unfolding check_input all_opt dependency_opt get_available_actions get put has string_eq nat_eq
    int_of_text int_value remove
test_action = refl

given_level : HasEntry "--verbose-level" (text "-3") (entered "off")
unfolding get string_eq
given_level = refl

check_verbosity-HasLevel_example :
    (t : State Switch) × (check_verbosity (entered "off") ≡ (ok tt, t))
    × HasLevel (expected_level (int_value (text "-3"))) t
check_verbosity-HasLevel_example = check_verbosity-HasLevel (text "-3") (entered "off") given_level

is_valid :
    validate_input switch_system false (entered "off")
    ≡ (ok true, (validate_input switch_system false (entered "off")).1)
unfolding validate_input all_opt get put has string_eq int_of_text int_value remove
is_valid = refl

abbrev validate_all : String
validate_all = "validate-all"

run_checks-outcome_example : (run_checks switch_system validate_all false (entered "off")).0 ≡ (
    if validate_all == "validate-all" && not false
    then exit (if true then ec_ok else generic_status)
    else (if true then ok tt else exit generic_status))
run_checks-outcome_example =
    run_checks-outcome switch_system validate_all false true (entered "off")
      (validate_input switch_system false (entered "off")).1 is_valid

unknown_action : contains (acceptable_actions (entered "off").device_opt) "explode" ≡ false
unfolding acceptable_actions string_eq nat_eq
unknown_action = refl

check_rest-unacceptable_example :
    ((check_rest switch_system false "explode" (entered "off")).0 ≡ exit generic_status)
    × ((check_rest switch_system false "explode" (entered "off")).1.world ≡ (entered "off").world)
check_rest-unacceptable_example =
    check_rest-unacceptable switch_system false "explode" (text "-3") (entered "off") given_level
      unknown_action
