-- ===== src/Action.antt =====
-- `fence_action` of lib/fencing.py.py. The proofs are in the modules below.
pub mod Entries
pub mod Plain
pub mod Confirm
pub mod Reboot
pub mod Ending
mod Tests
use Prim.Native.Nat.{suc, zero}
use fence_agents.Base.{
  ℕ, ◌+◌, String, ◌<>◌, Bool, true, false, not, ◌&&◌, ◌||◌, Option, none, some, List, [], ◌∷◌,
  contains, count, ◌==◌, string_eq, nat_eq, if◌then◌else◌,
}
use fence_agents.Base.Int.{ℤ, pos, ◌+ℤ◌, pos_part}
use fence_agents.Dict
use fence_agents.Exec.{
  Exec, Exception, Outcome, pure, raise, gets, modify, attempt, ◌>>=◌, ◌>>◌, eof, timeout,
  pycurl_error, socket_timeout, value_error, attribute_error, key_error, type_error, other_error,
}
use fence_agents.State.{
  State, System, Value, text, number, option, has_option, int_option, put_option, print, log,
}
use fence_agents.Text.{lower, upper, split}
use fence_agents.Text.Number.{text_of_int}
use fence_agents.Failure.{
  fail, ec_ok, ec_connection_lost, ec_timed_out, ec_waiting_on, ec_waiting_off, ec_status,
}
use fence_agents.Power.{Agent, is_text, get_multi_power, set_multi_power, multi_reboot_cycle}

-- Whether the outlets are asked for: `list`, `list-status`, or `monitor` on a device with ports.
abbrev pub wants_outlets : Value → List String → Bool
wants_outlets action device_opt =
    is_text action "list"
    || is_text action "list-status"
    || (is_text action "monitor"
        && count "port" device_opt == 1
        && not (contains device_opt "port_as_ip"))

-- `status` as it is printed
unfoldable pub outlet_status : Option String → String
unfolding upper
outlet_status none = "UNKNOWN"
outlet_status (some status) =
    if upper status == "ON" || upper status == "OFF" then status else "UNKNOWN"

-- `options["--action"] == status`
abbrev pub matches_status : Value → Option String → Bool
matches_status action none = false
matches_status action (some status) = is_text action status

-- str(ex); the texts of exceptions that carry none here are left out
unfoldable pub exception_text : Exception → String
exception_text (pycurl_error m) = m
exception_text (socket_timeout m) = m
exception_text (key_error m) = m
exception_text (other_error m) = m
exception_text _ = ""

-- a value in "{}".format
unfoldable pub format : Value → String
unfolding text_of_int
format (text t) = t
format (number n) = text_of_int n

module _ {W : Type 0} where
  -- a value where the code calls a method of `str` on it
  unfoldable pub as_text : Value → Exec (State W) String
  as_text (text t) = pure t
  as_text (number n) = raise attribute_error

  -- the argument of `split`, where another value is a TypeError
  unfoldable pub as_separator : Value → Exec (State W) String
  as_separator (text t) = pure t
  as_separator (number n) = raise type_error

  unfoldable pub split_plug : String → String → Exec (State W) (List String)
  split_plug plug separator = elim (split plug separator) [
    | none ↦ raise value_error
    | some plugs ↦ pure plugs
  ]

  -- options["--plugs"] = options["--plug"].split(options["--plug-separator"])
  unfoldable pub take_plugs : Exec (State W) (Unit {0})
  unfolding ◌>>=◌ has_option option as_text as_separator split_plug
  take_plugs = do
    present ← has_option "--plug"
    if not present then pure tt else do
      given ← option "--plug"
      plug ← as_text given
      given_separator ← option "--plug-separator"
      separator ← as_separator given_separator
      plugs ← split_plug plug separator
      modify (λ s. record s { plugs = some plugs })

  unfoldable pub print_outlets : List (String × String × Option String) → Exec (State W) (Unit {0})
  unfolding ◌>>=◌ option print format outlet_status
  print_outlets [] = pure tt
  print_outlets ((outlet_id, alias, status) ∷ outlets) = do
    action ← option "--action"
    if is_text action "list"
        then (do given ← option "--separator"; print (outlet_id <> format given <> alias))
        else if is_text action "list-status"
        then (do
          given ← option "--separator"
          print (outlet_id <> format given <> alias <> format given <> outlet_status status))
        else pure tt
    print_outlets outlets

  unfoldable pub list_outlets : Agent W → Exec (State W) (Unit {0})
  unfolding ◌>>=◌ option put_option print print_outlets
  list_outlets agent = do
    ports ← gets (λ s. contains s.device_opt "port")
    if not ports then print "N/A" else elim agent.get_outlet_list [
      | none ↦ print "NOTICE: List option is not working on this device yet"
      | some get_outlet_list ↦ do
        original ← option "--action"
        put_option "--original-action" original
        put_option "--action" (text "list")
        outlets ← get_outlet_list
        restored ← option "--original-action"
        put_option "--action" restored
        modify (λ s. record s { options = Dict.remove s.options "--original-action" })
        print_outlets outlets
    ]

  -- The status, or None where the device has none.
  unfoldable pub read_status : Agent W → Exec (State W) (Option String)
  unfolding ◌>>=◌ get_multi_power fail
  read_status agent = do
    blind ← gets (λ s. contains s.device_opt "no_status")
    if blind then pure none else do
      status ← get_multi_power agent.get_power
      if status == "on" || status == "off" then pure (some status) else fail ec_status

  -- except Exception as ex: logging.warning("%s", str(ex))
  unfoldable pub or_warn : Exec (State W) Bool → Exec (State W) Bool
  unfolding ◌>>=◌ attempt log exception_text
  or_warn m = attempt m (λ e. do log (exception_text e); pure false)

  -- options.get("--method", "").lower() == "cycle"
  unfoldable pub is_cycle : Exec (State W) Bool
  unfolding ◌>>=◌ as_text lower
  is_cycle s = elim (Dict.get s.options "--method") [
    | none ↦ pure false s
    | some value ↦ (do method ← as_text value; pure (lower method == "cycle")) s
  ]

  -- the `except` clauses; every other exception goes on
  unfoldable pub on_exception : Exception → Exec (State W) ℕ
  unfolding ◌>>=◌ fail log
  on_exception eof = fail ec_connection_lost
  on_exception timeout = fail ec_timed_out
  on_exception (pycurl_error message) = do log (message <> "\n\n"); fail ec_timed_out
  on_exception (socket_timeout message) = do log (message <> "\n\n"); fail ec_timed_out
  on_exception e = raise e

  module _ (system : System W) (agent : Agent W) (fuel : ℕ) where
    -- 1 + int(options["--retry-on"]) attempts
    unfoldable pub power_on : Exec (State W) ℕ
    unfolding ◌>>=◌ int_option set_multi_power print fail
    power_on = do
      retries ← int_option "--retry-on"
      done ← set_multi_power system agent fuel (pos_part (pos 1 +ℤ retries))
      if done then (do print "Success: Powered ON"; pure ec_ok) else fail ec_waiting_on

    unfoldable pub power_off : Exec (State W) ℕ
    unfolding ◌>>=◌ set_multi_power print fail
    power_off = do
      done ← set_multi_power system agent fuel 1
      if done then (do print "Success: Powered OFF"; pure ec_ok) else fail ec_waiting_off

    unfoldable pub reboot_by_cycle : Exec (State W) Bool → Exec (State W) Bool
    unfolding ◌>>=◌ int_option multi_reboot_cycle or_warn fail
    reboot_by_cycle reboot_cycle = do
      power_on ← or_warn (do
        retries ← int_option "--retry-on"
        multi_reboot_cycle system reboot_cycle (pos_part (pos 1 +ℤ retries)))
      if power_on then pure true else fail ec_timed_out

    unfoldable pub off_phase : Exec (State W) (Unit {0})
    unfolding ◌>>=◌ put_option set_multi_power fail
    off_phase = do
      put_option "--action" (text "off")
      done ← set_multi_power system agent fuel 1
      if done then pure tt else fail ec_waiting_off

    -- The off phase is left out where the status is "off" already.
    unfoldable pub reboot_off : Option String → Exec (State W) (Unit {0})
    unfolding off_phase
    reboot_off status = if matches_status (text "off") status then pure tt else off_phase

    -- The on phase; an exception in it is logged, and counts as a failure to power on.
    unfoldable pub reboot_on : Exec (State W) Bool
    unfolding ◌>>=◌ put_option int_option set_multi_power or_warn
    reboot_on = do
      put_option "--action" (text "on")
      power_on ← or_warn (do
        retries ← int_option "--retry-on"
        set_multi_power system agent fuel (pos_part retries))
      put_option "--action" (text "reboot")
      pure power_on

    unfoldable pub reboot_off_on : Option String → Exec (State W) Bool
    unfolding ◌>>=◌ reboot_off reboot_on
    reboot_off_on status = do reboot_off status; reboot_on

    unfoldable pub reboot_phases : Option String → Bool → Exec (State W) Bool
    unfolding reboot_by_cycle reboot_off_on
    reboot_phases status cycle = elim agent.reboot_cycle [
      | none ↦ reboot_off_on status
      | some reboot_cycle ↦ if cycle then reboot_by_cycle reboot_cycle else reboot_off_on status
    ]

    unfoldable pub reboot_end : Bool → Exec (State W) ℕ
    unfolding ◌>>=◌ print log
    reboot_end power_on = do
      if power_on then pure tt else log "Timed out waiting to power ON\n"
      print "Success: Rebooted"
      pure ec_ok

    unfoldable pub reboot : Option String → Exec (State W) ℕ
    unfolding ◌>>=◌ is_cycle reboot_phases reboot_end
    reboot status = do cycle ← is_cycle; power_on ← reboot_phases status cycle; reboot_end power_on

    unfoldable pub report_status : Option String → Exec (State W) ℕ
    unfolding ◌>>=◌ print upper
    report_status none = raise attribute_error
    report_status (some status) = do
      print ("Status: " <> upper status)
      pure (if upper status == "OFF" then 2 else ec_ok)

    unfoldable pub perform : Value → Option String → Exec (State W) ℕ
    unfolding power_on power_off reboot report_status
    perform action status =
        if is_text action "on"
        then power_on
        else if is_text action "off"
        then power_off
        else if is_text action "reboot"
        then reboot status
        else if is_text action "status"
        then report_status status
        else pure ec_ok

    unfoldable pub already : Option String → Exec (State W) ℕ
    unfolding ◌>>=◌ print upper
    already none = pure ec_ok
    already (some status) = do print ("Success: Already " <> upper status); pure ec_ok

    -- What follows the reading of the status.
    unfoldable pub act_on : Option String → Exec (State W) ℕ
    unfolding ◌>>=◌ option already perform
    act_on status = do
      action ← option "--action"
      forced ← gets (λ s. contains s.device_opt "force_on")
      if matches_status action status && not (matches_status (text "on") status && forced)
          then already status
          else perform action status

    -- the body of the `try` statement
    unfoldable pub fence_action_body : Exec (State W) ℕ
    unfolding ◌>>=◌ take_plugs option list_outlets read_status act_on
    fence_action_body = do
      take_plugs
      action ← option "--action"
      device_opt ← gets (λ s. s.device_opt)
      if wants_outlets action device_opt
          then (do list_outlets agent; pure ec_ok)
          else if is_text action "monitor"
              && not (contains device_opt "port")
              && contains device_opt "no_status"
          then pure ec_ok
          else (do status ← read_status agent; act_on status)

    unfoldable pub fence_action : Exec (State W) ℕ
    unfolding fence_action_body attempt on_exception
    fence_action = attempt fence_action_body on_exception
