-- ===== src/Options/Tests.antt =====
-- The theorems on the options at the options of concrete agents.
use fence_agents.Base.{
  ◌≡◌, refl, String, true, false, ==_iff, some, List, [], ◌∷◌, ◌++◌, ◌&&◌, ◌||◌, not, contains,
  ◌==◌, ◌≢◌, string_eq, arith,
}
use fence_agents.Dict.{get, has, put}
use fence_agents.Base.{◌⊎◌}
use fence_agents.Base.Int.{ℤ}
use fence_agents.Exec.{ok, exit}
use fence_agents.Failure.{generic_status}
use fence_agents.Text.Number.{int_of_text}
use fence_agents.Options.Validate.{is_numeric, validate_input}
use fence_agents.Options.Validate.Modes.{validate_input-stop}
use fence_agents.Options.Validate.Numbers.{validate_input-numbers}
use fence_agents.State.{State, text, int_option}
use fence_agents.State.Entries.{HasEntry}
use fence_agents.Device.{Switch, switch_system, start}
use fence_agents.Options.Spec.{Spec, marker}
use fence_agents.Options.Table.{all_opt}
use fence_agents.Options.Actions.{
  base_actions, get_available_actions, is_removed, contains-get_available_actions,
}
use fence_agents.Options.Dependency.{
  dependency_opt, is_present, add_dependency_options, is_needed, contains-add_dependency_options,
}
use fence_agents.Options.Closure.{add_dependency_options_closed}
use fence_agents.Options.Defaults.{set_default_values}
use fence_agents.Options.Defaults.Laws.{set_default_values-HasEntry}
use fence_agents.Options.Defaults.Filled.{set_default_values-filled}

-- the options of a fabric agent
abbrev fabric : List String
fabric = "port" ∷ "ipaddr" ∷ "no_status" ∷ "fabric_fencing" ∷ []

abbrev reboot : String
reboot = "reboot"

contains-get_available_actions_example : contains (get_available_actions fabric).0 reboot ≡ (
    (contains base_actions reboot && not (is_removed fabric reboot))
    || (contains fabric "diag" && reboot == "diag"))
contains-get_available_actions_example = contains-get_available_actions fabric reboot

abbrev separator : String
separator = "separator"

contains-add_dependency_options_example : contains (add_dependency_options fabric) separator ≡ (
    (is_needed (fabric ++ "default" ∷ []) separator && not (contains fabric separator))
    || ((not (is_present fabric "port")
          && not (is_present fabric "nodename")
          && is_present fabric "ipaddr")
        && separator == "port_as_ip"))
contains-add_dependency_options_example = contains-add_dependency_options fabric separator

fabric_needs :
    is_needed ((fabric ++ add_dependency_options fabric) ++ "default" ∷ []) "separator" ≡ true
unfolding add_dependency_options dependency_opt get string_eq
fabric_needs = refl

add_dependency_options_closed_example :
    contains (fabric ++ add_dependency_options fabric) "separator" ≡ true
add_dependency_options_closed_example =
    add_dependency_options_closed fabric "separator" fabric_needs

-- a telnet agent for which only the action was given
abbrev given : State Switch
given = record (start "off") {
  options = ("--action", text "off") ∷ [];
  device_opt = "ipaddr" ∷ "ipport" ∷ "telnet" ∷ "action" ∷ "retry_on" ∷ [];
  all_opt = all_opt;
}

given_action : HasEntry "--action" (text "off") given
unfolding get string_eq
given_action = refl

set_default_values-HasEntry_example : HasEntry "--action" (text "off") (set_default_values given).1
set_default_values-HasEntry_example =
    set_default_values-HasEntry "--action" (text "off") given given_action

filled : set_default_values given ≡ (ok tt, (set_default_values given).1)
unfolding set_default_values all_opt get put has string_eq
filled = refl

has_retry_on : contains given.device_opt "retry_on" ≡ true
unfolding string_eq
has_retry_on = refl

abbrev retry_name : String
retry_name = "retry_on"

abbrev retry_on : Spec
retry_on = record marker {
  getopt = ":";
  longopt = some "retry-on";
  help = "--retry-on=[attempts]          Count of attempts to retry power on";
  required = some "0";
  type = some "integer";
  default = some "1";
  order = 201;
}

spec_entry : get given.all_opt "retry_on" ≡ some retry_on
unfolding all_opt get string_eq
spec_entry = refl

abbrev ipport : String
ipport = "ipport"

no_port : (retry_name == ipport) ≡ false
unfolding string_eq
no_port = refl

is_other : retry_name ≢ ipport
is_other e = ground (arith, e, no_port, (==_iff retry_name ipport).1 e)

set_default_values-filled_example : has (set_default_values given).1.options "--retry-on" ≡ true
set_default_values-filled_example =
    set_default_values-filled given "retry_on" "retry-on" has_retry_on
      (record {
        spec = retry_on;
        default = "1";
        entry = spec_entry;
        defaulted = refl;
        named = refl;
        not_port = is_other;
      })
      filled

-- the same agent with all that it has to be given
abbrev complete : State Switch
complete = record given {
  options =
      ("--action", text "off")
      ∷ ("--ip", text "10.0.0.1")
      ∷ ("--password", text "secret")
      ∷ ("--retry-on", text "2")
      ∷ [];
}

complete_is_valid :
    validate_input switch_system false complete
    ≡ (ok true, (validate_input switch_system false complete).1)
unfolding validate_input all_opt get put has string_eq int_of_text fence_agents.State.int_value
complete_is_valid = refl

validate_input-stop_example :
    ((true ≡ true)
      × (validate_input switch_system true complete
          ≡ (ok true, (validate_input switch_system false complete).1)))
    ⊎ ((true ≡ false) × ((validate_input switch_system true complete).0 ≡ exit generic_status))
validate_input-stop_example =
    validate_input-stop switch_system complete true (validate_input switch_system false complete).1
      complete_is_valid

-- without an address
test_missing_address : (validate_input switch_system true given).0 ≡ exit generic_status
unfolding validate_input all_opt get put has string_eq int_of_text fence_agents.State.int_value
test_missing_address = refl

complete_entry :
    get (validate_input switch_system false complete).1.options "--retry-on" ≡ some (text "2")
unfolding validate_input all_opt get put has string_eq int_of_text fence_agents.State.int_value
complete_entry = refl

retry_is_numeric : is_numeric retry_on.type ≡ true
unfolding string_eq
retry_is_numeric = refl

validate_input-numbers_example :
    (n : ℤ) × (int_option "--retry-on" (validate_input switch_system false complete).1
      ≡ (ok n, (validate_input switch_system false complete).1))
validate_input-numbers_example =
    validate_input-numbers switch_system false "retry_on" "retry-on" retry_on (text "2") complete
      (validate_input switch_system false complete).1 complete_is_valid has_retry_on spec_entry
      retry_is_numeric refl complete_entry
