-- ===== src/Options/Check.antt =====
-- `check_input` of lib/fencing.py.py, without the log handlers that it installs.
pub mod Verbose
pub mod Accept
mod Tests
use Prim.Native.Nat.{suc}
use fence_agents.Base.{
  ℕ, String, ◌<>◌, Bool, true, false, not, ◌&&◌, ◌||◌, Option, none, some, List, [], ◌∷◌, ◌++◌,
  contains, count, ◌==◌, string_eq, nat_eq, if◌then◌else◌,
}
use fence_agents.Base.Int.{ℤ, pos, negsuc}
use fence_agents.Dict
use fence_agents.Exec.{Exec, pure, raise, leave, gets, modify, type_error, ◌>>=◌, ◌>>◌}
use fence_agents.State.{
  State, System, Value, text, number, has_option, option, put_option, int_value, log,
}
use fence_agents.Text.{lower, rstrip_by, is_space}
use fence_agents.Failure.{fail_usage, ec_ok}
use fence_agents.Power.{is_text}
use fence_agents.Action.{as_text}
use fence_agents.Options.Actions.{get_available_actions}
use fence_agents.Options.Defaults.{set_default_values}
use fence_agents.Options.Metadata.{extend_device_opt, update_metadata}
use fence_agents.Options.Validate.{validate_input}

-- int(options["--verbose-level"]), where a ValueError becomes -1
abbrev pub level_of : Value → ℤ
level_of value = elim (int_value value) [ none ↦ negsuc 0 | some n ↦ n ]

-- .lower() in ["1", "yes", "on", "true"]
abbrev pub is_yes : String → Bool
is_yes t = contains ("1" ∷ "yes" ∷ "on" ∷ "true" ∷ []) t

-- acceptable_actions
unfoldable pub acceptable_actions : List String → List String
unfolding get_available_actions nat_eq
acceptable_actions device_opt =
    let available = (get_available_actions device_opt).0 in
    if count "fabric_fencing" device_opt == 1
    then available ++ "enable" ∷ "disable" ∷ []
    else available

-- "enable" is "on" and "disable" is "off"
abbrev pub renamed : String → String
renamed action = if action == "enable" then "on" else if action == "disable" then "off" else action

module _ {W : Type 0} where
  -- options["--action"] = options["--action"].lower(), and "meta-data" is "metadata"
  unfoldable pub normalize_action : Exec (State W) String
  unfolding ◌>>=◌ option as_text put_option lower
  normalize_action = do
    value ← option "--action"
    given ← as_text value
    put_option "--action" (text (lower given))
    if lower given == "meta-data"
        then (do put_option "--action" (text "metadata"); pure "metadata")
        else pure (lower given)

  -- The special cases, in which nothing is checked.
  unfoldable pub is_special : String → State W → Bool
  unfolding Dict.has
  is_special action s =
      action == "metadata"
      || action == "manpage"
      || Dict.has s.options "--help"
      || Dict.has s.options "--version"

  -- logging.warning(...); del options["--verbose"]
  unfoldable pub drop_verbose : Exec (State W) (Unit {0})
  unfolding ◌>>=◌ log
  drop_verbose = do
    log "Parse error: Ignoring option 'verbose' because it conflicts with verbose_level=0"
    modify (λ s. record s { options = Dict.remove s.options "--verbose" })

  -- what follows from the number under "--verbose-level"
  unfoldable pub settle_level : ℤ → Exec (State W) (Unit {0})
  unfolding ◌>>=◌ has_option put_option drop_verbose
  settle_level (pos (suc n)) = put_option "--verbose" (number (pos 1))
  settle_level n = do
    verbose ← has_option "--verbose"
    if not verbose then pure tt else drop_verbose

  -- a negative level becomes 0
  unfoldable pub put_level : ℤ → Exec (State W) ℤ
  unfolding ◌>>=◌ put_option log
  put_level (pos n) = do put_option "--verbose-level" (number (pos n)); pure (pos n)
  put_level (negsuc n) = do
    put_option "--verbose-level" (number (negsuc n))
    log (
        "Parse error: Option 'verbose_level' must be an integer greater than or equal to 0. "
        <> "Setting verbose_level to 0.")
    put_option "--verbose-level" (number (pos 0))
    pure (pos 0)

  unfoldable pub check_verbosity : Exec (State W) (Unit {0})
  unfolding ◌>>=◌ option put_level settle_level
  check_verbosity = do
    value ← option "--verbose-level"
    level ← put_level (level_of value)
    settle_level level

  -- An action that is not acceptable ends the run.
  unfoldable pub accept_action : String → Exec (State W) (Unit {0})
  unfolding ◌>>=◌ acceptable_actions fail_usage
  accept_action action = do
    device_opt ← gets (λ s. s.device_opt)
    if contains (acceptable_actions device_opt) action
        then pure tt
        else fail_usage ("Failed: Unrecognised action '" <> action <> "'") true

  unfoldable pub rename_action : String → Exec (State W) (Unit {0})
  unfolding put_option
  rename_action action =
      if action == "enable" || action == "disable"
      then put_option "--action" (text (renamed action))
      else pure tt

  module _ (system : System W) where
    -- "validate-all" does nothing but the checks.
    unfoldable pub validate_only : Exec (State W) (Unit {0})
    unfolding ◌>>=◌ validate_input fail_usage
    validate_only = do
      valid ← validate_input system false
      if valid then pure tt else fail_usage "validate-all failed" true
      leave ec_ok

    unfoldable pub run_checks : String → Bool → Exec (State W) (Unit {0})
    unfolding ◌>>=◌ validate_input validate_only
    run_checks action other_conditions =
        if action == "validate-all" && not other_conditions
        then validate_only
        else (do validate_input system true; pure tt)

    open_debug_file : Value → Exec (State W) (Unit {0})
    unfolding ◌>>=◌ log fail_usage
    open_debug_file (number n) = raise type_error
    open_debug_file (text name) = do
      opened ← gets (λ s. system.open_log name s.world)
      modify (λ s. record s { world = opened.1 })
      if opened.0 then pure tt else do
        log ("Unable to create file " <> name)
        fail_usage ("Failed: Unable to create file " <> name) true

    unfoldable pub debug_file : Exec (State W) (Unit {0})
    unfolding ◌>>=◌ has_option option open_debug_file
    debug_file = do
      given ← has_option "--debug-file"
      if not given then pure tt else do name ← option "--debug-file"; open_debug_file name

    popen_into : String → Value → Exec (State W) (Unit {0})
    unfolding ◌>>=◌ put_option rstrip_by is_space
    popen_into key (number n) = raise type_error
    popen_into key (text command) = do
      answer ← gets (λ s. system.popen command s.world)
      modify (λ s. record s { world = answer.1 })
      put_option key (text (rstrip_by is_space answer.0))

    -- if script in options: options[key] = os.popen(options[script]).read().rstrip()
    unfoldable pub run_script : String → String → Exec (State W) (Unit {0})
    unfolding ◌>>=◌ has_option option popen_into
    run_script script key = do
      given ← has_option script
      if not given then pure tt else do command ← option script; popen_into key command

  unfoldable pub settle_ssl : Exec (State W) (Unit {0})
  unfolding ◌>>=◌ has_option put_option
  settle_ssl = do
    secure ← has_option "--ssl-secure"
    insecure ← has_option "--ssl-insecure"
    if secure || insecure then put_option "--ssl" (text "") else pure tt
    ssl ← has_option "--ssl"
    insecure ← has_option "--ssl-insecure"
    if ssl && not insecure then put_option "--ssl-secure" (text "") else pure tt

  -- options.get("--disable-timeout", "").lower() in ["1", "yes", "on", "true"]
  disables : Option Value → Exec (State W) Bool
  unfolding ◌>>=◌ as_text lower
  disables none = pure false
  disables (some value) = do given ← as_text value; pure (is_yes (lower given))

  unfoldable pub settle_timeouts : System W → Exec (State W) (Unit {0})
  unfolding ◌>>=◌ has_option put_option disables
  settle_timeouts system = do
    service ← gets (λ s. system.environ "PCMK_service" s.world)
    given ← has_option "--disable-timeout"
    if elim service [ none ↦ false | some name ↦ name == "pacemaker-fenced" ] && not given
        then put_option "--disable-timeout" (text "1")
        else pure tt
    value ← gets (λ s. Dict.get s.options "--disable-timeout")
    disabled ← disables value
    if not disabled then pure tt else do
      put_option "--power-timeout" (number (pos 0))
      put_option "--shell-timeout" (number (pos 0))
      put_option "--login-timeout" (number (pos 0))

  -- What follows the special cases.
  unfoldable pub check_rest : System W → Bool → String → Exec (State W) (Unit {0})
  unfolding ◌>>=◌ check_verbosity accept_action rename_action run_checks debug_file run_script
      settle_ssl settle_timeouts
  check_rest system other_conditions action = do
    check_verbosity
    accept_action action
    rename_action action
    run_checks system (renamed action) other_conditions
    debug_file system
    run_script system "--snmp-priv-passwd-script" "--snmp-priv-passwd"
    run_script system "--password-script" "--password"
    settle_ssl
    settle_timeouts system

  unfoldable pub check_input : System W → (String → List String) → Bool → Exec (State W) (Unit {0})
  unfolding ◌>>=◌ extend_device_opt update_metadata set_default_values normalize_action is_special
      check_rest
  check_input system wrap other_conditions = do
    extend_device_opt
    update_metadata wrap
    set_default_values
    action ← normalize_action
    special ← gets (is_special action)
    if special then pure tt else check_rest system other_conditions action
