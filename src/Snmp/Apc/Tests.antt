-- ===== src/Snmp/Apc/Tests.antt =====
-- A power switch with two outlets: the world says which of them are on.
use fence_agents.Base.{
  ◌≡◌, refl, Bool, true, false, String, none, some, [], ◌∷◌, ◌<>◌, string_eq, nat_eq, if◌then◌else◌,
}
use fence_agents.Base.Int.{pos}
use fence_agents.Dict.{get, put, has, remove}
use fence_agents.Exec.{ok}
use fence_agents.State.{State, System, text, int_value}
use fence_agents.Action.{fence_action}
use fence_agents.Text.{split, split_from, includes, begins_with, strip, lower}
use fence_agents.Text.Number.{int_of_text, text_of_int}
use fence_agents.Text.Uuid.{uuid_of_text}
use fence_agents.Snmp.{Shell, prepare_cmd}
use fence_agents.Snmp.Apc.{Globals, get_power_status, set_power_status, oid_for}
use fence_agents.Snmp.Quote.{quote_for_run}
use fence_agents.Snmp.Apc.Devices.{Device, apc_ms}
use fence_agents.Snmp.Apc.Pinned.{IsPort, IsEntry, with_plug, oid_for-IsPort}
use fence_agents.Snmp.Apc.Main.{apc_agent}

abbrev status : Bool → String
status true = "1"
status false = "2"

abbrev answer : String → Bool × Bool → String
answer command (one, two) =
    if includes "snmpget" command
    then (if includes "1.3.1'" command then ".1 " <> status one else ".1 " <> status two)
    else ""

abbrev changed : String → Bool × Bool → Bool × Bool
changed command (one, two) =
    if includes "1.3.1' i '2'" command
    then (false, two)
    else if includes "1.3.2' i '2'" command
    then (one, false)
    else (one, two)

abbrev shell : Shell (Bool × Bool)
shell = record {
  frun = λ command limit w. (some (answer command w, some (pos 0)), changed command w);
}

abbrev system : System (Globals (Bool × Bool))
system = record {
  pass = λ n w. w;
  is_file = λ path w. true;
  popen = λ command w. (command, w);
  environ = λ name w. none;
  open_log = λ path w. (true, w);
}

abbrev start : String → State (Globals (Bool × Bool))
start plug = record {
  options =
      ("--action", text "off")
      ∷ ("--plug", text plug)
      ∷ ("--ip", text "pdu")
      ∷ ("--snmp-version", text "1")
      ∷ ("--community", text "private")
      ∷ ("--switch", text "1")
      ∷ ("--snmpget-path", text "snmpget")
      ∷ ("--snmpset-path", text "snmpset")
      ∷ ("--snmpwalk-path", text "snmpwalk")
      ∷ ("--shell-timeout", text "3")
      ∷ ("--login-timeout", text "5")
      ∷ ("--plug-separator", text ",")
      ∷ ("--retry-on", text "1")
      ∷ ("--power-wait", text "0")
      ∷ ("--power-timeout", text "20")
      ∷ ("--stonith-status-sleep", text "1")
      ∷ [];
  device_opt = [];
  plugs = none;
  all_opt = [];
  printed = [];
  logged = [];
  world = record { device = none; port_id = none; switch_id = none; outside = (true, true) };
}

test_command :
    (prepare_cmd "snmpget" (start "2")).0 ≡ ok "snmpget -m '' -Oeqn  -v '1' -c 'private' 'pdu'"
unfolding prepare_cmd get put has quote_for_run string_eq nat_eq
test_command = refl

-- The second outlet by itself is powered off.
test_second :
    ((fence_action system (apc_agent shell) 30 (start "2")).0 ≡ ok 0)
    × ((fence_action system (apc_agent shell) 30 (start "2")).1.world.outside ≡ (true, false))
unfolding fence_action get put has remove split split_from includes begins_with strip lower
    int_value int_of_text uuid_of_text nat_eq string_eq quote_for_run get_power_status
    set_power_status
test_second = (refl, refl)

-- Of two outlets the first is, and the run succeeds.
test_both :
    ((fence_action system (apc_agent shell) 30 (start "1,2")).0 ≡ ok 0)
    × ((fence_action system (apc_agent shell) 30 (start "1,2")).1.world.outside ≡ (false, true))
unfolding fence_action get put has remove split split_from includes begins_with strip lower
    int_value int_of_text uuid_of_text nat_eq string_eq quote_for_run get_power_status
    set_power_status
test_both = (refl, refl)

-- The first outlet has been found.
abbrev found_first : State (Globals (Bool × Bool))
found_first = record (start "1") {
  world = record {
    device = some apc_ms;
    port_id = some (pos 1);
    switch_id = none;
    outside = (true, true);
  };
}

abbrev status_column : Device → String
status_column device = device.status_oid

oid_for-IsPort_example :
    (oid_for shell status_column (with_plug (text "2") found_first) ≡ (
      ok (apc_ms, status_column apc_ms <> text_of_int (pos 1)),
      with_plug (text "2") found_first,
    ))
    × IsPort (pos 1) (get_power_status shell (with_plug (text "2") found_first)).1
    × IsPort (pos 1) (set_power_status shell (with_plug (text "2") found_first)).1
oid_for-IsPort_example =
    oid_for-IsPort (pos 1) shell status_column (text "2") found_first refl (IsEntry.alone refl refl)
