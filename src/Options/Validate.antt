-- ===== src/Options/Validate.antt =====
-- `_validate_input`, `_get_opts_with_invalid_choices` and `_get_opts_with_invalid_types` of
-- lib/fencing.py.py.
pub mod Modes
pub mod Kept
pub mod Types
pub mod Numbers
use fence_agents.Base.{
  String, ◌<>◌, Bool, true, false, not, ◌&&◌, ◌||◌, Option, none, some, List, [], ◌∷◌, map,
  contains, ◌==◌, string_eq, if◌then◌else◌,
}
use fence_agents.Dict
use fence_agents.Exec.{Exec, pure, raise, gets, key_error, type_error, ◌>>=◌, ◌>>◌}
use fence_agents.State.{
  State, System, Value, text, number, has_option, has_device_opt, put_option, option, int_value,
}
use fence_agents.Text.{upper, join}
use fence_agents.Failure.{fail_usage}
use fence_agents.Action.{as_text}
use fence_agents.Power.{is_text}
use fence_agents.Options.Spec.{Spec}
use fence_agents.Options.Defaults.{spec_of, longopt_of}

-- str(choices) of a list of texts without quotes and backslashes
unfoldable pub list_text : List String → String
unfolding join
list_text choices = "[" <> join ", " (map (λ choice. "'" <> choice <> "'") choices) <> "]"

-- spec["type"] in ["integer", "second"]
abbrev pub is_numeric : Option String → Bool
is_numeric none = false
is_numeric (some type) = type == "integer" || type == "second"

-- int(value) fails
abbrev pub is_no_number : Value → Bool
is_no_number value = elim (int_value value) [ none ↦ true | some n ↦ false ]

abbrev pub if_failed : Bool → String → List String → List String
if_failed failed opt opts = if failed then opt ∷ opts else opts

-- the choices and the type of an option, which are there when it failed
abbrev choices_of : Spec → List String
choices_of spec = elim spec.choices [ none ↦ [] | some choices ↦ choices ]

abbrev type_of : Spec → String
type_of spec = elim spec.type [ none ↦ "" | some type ↦ type ]

unfoldable pub choice_message : Spec → String → String
unfolding list_text
choice_message spec name =
    "Failed: You have to enter a valid choice for --"
    <> name
    <> " from the valid values: "
    <> list_text (choices_of spec)

unfoldable pub type_message : Spec → String → String
type_message spec name =
    "Failed: The value you have entered for --"
    <> name
    <> (if type_of spec == "second"
        then " is not a valid time in seconds"
        else " is not a valid " <> type_of spec)

-- the action is none of ["list", "list-status", "monitor"]
abbrev pub takes_plug : Value → Bool
takes_plug action =
    not (is_text action "list" || is_text action "list-status" || is_text action "monitor")

module _ {W : Type 0} where
  -- whether the option fails: it is given, and its value in upper case is no choice
  unfoldable pub fails_choice : Spec → Option (List String) → Exec (State W) Bool
  unfolding ◌>>=◌ longopt_of has_option option as_text put_option upper
  fails_choice spec none = pure false
  fails_choice spec (some choices) = do
    name ← longopt_of spec
    given ← has_option ("--" <> name)
    if not given then pure false else do
      value ← option ("--" <> name)
      chosen ← as_text value
      put_option ("--" <> name) (text (upper chosen))
      pure (not (contains (map upper choices) (upper chosen)))

  unfoldable pub invalid_choices : List String → Exec (State W) (List String)
  unfolding ◌>>=◌ spec_of fails_choice
  invalid_choices [] = pure []
  invalid_choices (opt ∷ opts) = do
    spec ← spec_of opt
    failed ← fails_choice spec spec.choices
    options_failed ← invalid_choices opts
    pure (if_failed failed opt options_failed)

  -- whether the option fails: it is given, and is no number though its type is one
  unfoldable pub fails_type : Spec → Option String → Exec (State W) Bool
  unfolding ◌>>=◌ longopt_of has_option option
  fails_type spec none = pure false
  fails_type spec (some type) = do
    name ← longopt_of spec
    given ← has_option ("--" <> name)
    if not (given && is_numeric (some type))
        then pure false
        else do value ← option ("--" <> name); pure (is_no_number value)

  unfoldable pub invalid_types : List String → Exec (State W) (List String)
  unfolding ◌>>=◌ spec_of fails_type
  invalid_types [] = pure []
  invalid_types (opt ∷ opts) = do
    spec ← spec_of opt
    failed ← fails_type spec spec.type
    options_failed ← invalid_types opts
    pure (if_failed failed opt options_failed)

  -- valid_input = False; fail_usage(message, stop)
  unfoldable pub reject : String → Bool → Exec (State W) Bool
  unfolding ◌>>=◌ fail_usage
  reject message stop = do fail_usage message stop; pure false

  -- Nothing happens unless the input is bad.
  unfoldable pub reject_if : Bool → String → Bool → Bool → Exec (State W) Bool
  unfolding reject
  reject_if bad message stop valid = if bad then reject message stop else pure valid

  -- What is wrong with the input, for each of the checks in front of the loops.
  unfoldable pub lacks_login : State W → Bool
  unfolding Dict.has
  lacks_login s =
      not (Dict.has s.options "--username")
      && contains s.device_opt "login"
      && not (contains s.device_opt "no_login")

  unfoldable pub lacks_address : State W → Bool
  unfolding Dict.has
  lacks_address s =
      contains s.device_opt "ipaddr"
      && not (Dict.has s.options "--ip")
      && not (Dict.has s.options "--managed")
      && not (Dict.has s.options "--target")

  unfoldable pub lacks_password : State W → Bool
  unfolding Dict.has
  lacks_password s =
      not (contains s.device_opt "no_password")
      && not (contains s.device_opt "identity_file")
      && not (Dict.has s.options "--password" || Dict.has s.options "--password-script")

  unfoldable pub lacks_identity : State W → Bool
  unfolding Dict.has
  lacks_identity s =
      not (contains s.device_opt "no_password")
      && contains s.device_opt "identity_file"
      && not (
          Dict.has s.options "--password"
          || Dict.has s.options "--password-script"
          || Dict.has s.options "--identity-file")

  unfoldable pub lacks_ssh : State W → Bool
  unfolding Dict.has
  lacks_ssh s = not (Dict.has s.options "--ssh") && Dict.has s.options "--identity-file"

  unfoldable pub lacks_plug : Value → State W → Bool
  unfolding Dict.has
  lacks_plug action s =
      takes_plug action
      && not (Dict.has s.options "--plug")
      && contains s.device_opt "port"
      && not (contains s.device_opt "no_port")
      && not (contains s.device_opt "port_as_ip")

  unfoldable pub identity_file_step : System W → Bool → Bool → Value → Exec (State W) Bool
  unfolding ◌>>=◌ reject_if
  identity_file_step system stop valid (number n) = raise type_error
  identity_file_step system stop valid (text path) = do
    present ← gets (λ s. system.is_file path s.world)
    reject_if (not present) ("Failed: Identity file " <> path <> " does not exist") stop valid

  unfoldable pub check_identity_file : System W → Bool → Bool → Exec (State W) Bool
  unfolding ◌>>=◌ has_option option identity_file_step
  check_identity_file system stop valid = do
    given ← has_option "--identity-file"
    if not given
        then pure valid
        else do value ← option "--identity-file"; identity_file_step system stop valid value

  unfoldable pub check_plug : Bool → Bool → Exec (State W) Bool
  unfolding ◌>>=◌ option lacks_plug reject_if
  check_plug stop valid = do
    action ← option "--action"
    bad ← gets (lacks_plug action)
    reject_if bad "Failed: You have to enter plug number or machine identification" stop valid

  -- A check that looks at the options alone.
  unfoldable pub check : (State W → Bool) → String → Bool → Bool → Exec (State W) Bool
  unfolding ◌>>=◌ reject_if
  check lacks message stop valid = do bad ← gets lacks; reject_if bad message stop valid

  unfoldable pub reject_all :
      (Spec → String → String) → List String → Bool → Bool → Exec (State W) Bool
  unfolding ◌>>=◌ spec_of longopt_of reject
  reject_all message [] stop valid = pure valid
  reject_all message (opt ∷ opts) stop valid = do
    spec ← spec_of opt
    name ← longopt_of spec
    rejected ← reject (message spec name) stop
    reject_all message opts stop rejected

  unfoldable pub check_choices : Bool → Bool → Exec (State W) Bool
  unfolding ◌>>=◌ invalid_choices reject_all choice_message
  check_choices stop valid = do
    device_opt ← gets (λ s. s.device_opt)
    failed ← invalid_choices device_opt
    reject_all choice_message failed stop valid

  unfoldable pub check_types : Bool → Bool → Exec (State W) Bool
  unfolding ◌>>=◌ invalid_types reject_all type_message
  check_types stop valid = do
    device_opt ← gets (λ s. s.device_opt)
    failed ← invalid_types device_opt
    reject_all type_message failed stop valid

  -- The checks in their order; the last argument is `valid_input`.
  unfoldable pub validate_from : System W → Bool → Bool → Exec (State W) Bool
  unfolding ◌>>=◌ check lacks_login lacks_address lacks_password lacks_identity lacks_ssh
      check_identity_file check_plug check_choices check_types
  validate_from system stop valid = do
    valid ← check lacks_login "Failed: You have to set login name" stop valid
    valid ← check lacks_address "Failed: You have to enter fence address" stop valid
    valid ← check lacks_password "Failed: You have to enter password or password script" stop valid
    valid ←
        check lacks_identity "Failed: You have to enter password, password script or identity file"
          stop valid
    valid ←
        check lacks_ssh "Failed: You have to use identity file together with ssh connection (-x)"
          stop valid
    valid ← check_identity_file system stop valid
    valid ← check_plug stop valid
    valid ← check_choices stop valid
    check_types stop valid

  unfoldable pub validate_input : System W → Bool → Exec (State W) Bool
  unfolding validate_from
  validate_input system stop = validate_from system stop true
