-- ===== src/Snmp/Apc/Main.antt =====
-- `main` of agents/apc_snmp/fence_apc_snmp.py.

use fence_agents.Base.{
  String, ◌<>◌, false, not, ◌&&◌, none, some, List, [], ◌∷◌, string_eq, if◌then◌else◌,
}
use fence_agents.Base.Int.{pos}
use fence_agents.Dict
use fence_agents.Exec.{Exec, pure, leave, modify, ◌>>=◌, ◌>>◌}
use fence_agents.State.{State, text, option, has_option, put_option}
use fence_agents.Text.{includes, partition}
use fence_agents.Power.{Agent}
use fence_agents.Action.{as_text, fence_action}
use fence_agents.Options.Defaults.{spec_of}
use fence_agents.Options.CommandLine.{process_input}
use fence_agents.Options.Check.{check_input}
use fence_agents.Metadata.Document.{Docs}
use fence_agents.Metadata.Print.{show_docs}
use fence_agents.Delay.{run_delay}
use fence_agents.Process.{Process}
use fence_agents.Snmp.{Shell}
use fence_agents.Snmp.Apc.{
  Globals, is_digits, get_power_status, set_power_status, get_outlets_status,
}

abbrev pub apc_device_opt : List String
apc_device_opt =
    "ipaddr" ∷ "login" ∷ "passwd" ∷ "no_login" ∷ "no_password" ∷ "port" ∷ "snmp_version" ∷ "snmp"
    ∷ []

-- docs, for the program's name
unfoldable pub apc_docs : String → Docs
apc_docs program = record {
  shortdesc = "Fence agent for APC, Tripplite PDU over SNMP";
  longdesc =
      program
      <> " is a Power Fencing agent which can be used with the APC network power switch or Tripplite PDU devices.It logs into a device via SNMP and reboots a specified outlet. It supports SNMP v1, v2c, v3 with all combinations of  authenticity/privacy settings.";
  vendorurl = some "http://www.apc.com";
  symlinks = ("fence_tripplite_snmp", "Fence agent for Tripplife over SNMP") ∷ [];
  agent_name = some "fence_apc_snmp";
}

module _ {V : Type 0} where
  -- The functions that are handed to `fence_action`.
  abbrev pub apc_agent : Shell V → Agent (Globals V)
  apc_agent shell = record {
    set_power = some (set_power_status shell);
    get_power = some (get_power_status shell);
    get_outlet_list = some (get_outlets_status shell);
    reboot_cycle = none;
    sync_set_power = none;
  }

  unfoldable pub prepare_options : Exec (State (Globals V)) (Unit {0})
  unfolding ◌>>=◌ spec_of Dict.put
  prepare_options = do
    snmp_version ← spec_of "snmp_version"
    modify (λ s. record s {
      all_opt = Dict.put s.all_opt "snmp_version" (record snmp_version { default = some "1" });
    })
    community ← spec_of "community"
    modify (λ s. record s {
      all_opt = Dict.put s.all_opt "community" (record community { default = some "private" });
    })

  take_parts : String → String → Exec (State (Globals V)) (Unit {0})
  unfolding ◌>>=◌ is_digits put_option
  take_parts switch plug =
      if is_digits switch && is_digits plug
      then (do put_option "--switch" (text switch); put_option "--plug" (text plug))
      else pure tt

  -- [switch]:[plug] where both are numbers
  unfoldable pub split_switch : Exec (State (Globals V)) (Unit {0})
  unfolding ◌>>=◌ has_option option as_text includes partition take_parts
  split_switch = do
    given ← has_option "--plug"
    if not given then pure tt else do
      value ← option "--plug"
      both ← as_text value
      if includes ":" both
          then (let (switch, plug) = partition b':' both in take_parts switch plug)
          else pure tt

  unfoldable pub default_switch : Exec (State (Globals V)) (Unit {0})
  unfolding ◌>>=◌ has_option put_option
  default_switch = do
    given ← has_option "--switch"
    if given then pure tt else put_option "--switch" (text "1")

  -- FencingSnmp(options) waits for the delay.
  unfoldable pub main : Process (Globals V) → Shell V → Exec (State (Globals V)) (Unit {0})
  unfolding ◌>>=◌ prepare_options process_input check_input split_switch default_switch show_docs
      run_delay fence_action
  main process shell = do
    prepare_options
    modify (λ s. record s { device_opt = apc_device_opt })
    process_input process.gnu_getopt process.has_arguments process.lines
    check_input process.system process.wrap false
    split_switch
    default_switch
    show_docs process.program process.wrap (apc_docs process.program)
    run_delay process.clock process.started (pos 0) (pos 0)
    result ← fence_action process.system (apc_agent shell) process.fuel
    leave result
