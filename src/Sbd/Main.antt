-- ===== src/Sbd/Main.antt =====
-- `main` of agents/sbd/fence_sbd.py.
pub mod Fenced
use fence_agents.Base.{
  ℕ, String, ◌<>◌, Bool, true, false, not, ◌&&◌, ◌||◌, Option, none, some, List, [], ◌∷◌, ◌==◌,
  string_eq, nat_eq, if◌then◌else◌,
}
use fence_agents.Base.Int.{ℤ, pos, negsuc, ltb_ℤ}
use fence_agents.Dict
use fence_agents.Exec.{Exec, pure, leave, gets, modify, ◌>>=◌, ◌>>◌}
use fence_agents.State.{State, Value, text, option, has_option, int_option, put_option, log}
use fence_agents.Text.{join, split_from}
use fence_agents.Text.Number.{text_of_int}
use fence_agents.Failure.{fail_usage}
use fence_agents.Power.{Agent, is_text}
use fence_agents.Action.{format, fence_action}
use fence_agents.Options.Spec.{Spec}
use fence_agents.Options.Defaults.{spec_of}
use fence_agents.Options.CommandLine.{process_input}
use fence_agents.Options.Check.{check_input}
use fence_agents.Metadata.Document.{Docs}
use fence_agents.Metadata.Print.{show_docs}
use fence_agents.Delay.{run_delay}
use fence_agents.Process.{Process, exit_status}
use fence_agents.Sbd.{parse_sbd_devices, set_power_status, reboot_cycle}
use fence_agents.Sbd.Options.{sbd_device_opt, define_new_opts}
use fence_agents.Sbd.Device.{
  Node, device_init, path_not_exists, path_not_block, device_not_init, check_sbd_device,
  sbd_daemon_is_running,
}
use fence_agents.Sbd.Slots.{get_power_status, outlets}
use fence_agents.Sbd.Timeouts.{get_sbd_header_timeout, get_crashdump_timeout}

-- docs
unfoldable pub sbd_docs : Docs
sbd_docs = record {
  shortdesc = "Fence agent for sbd";
  longdesc =
      "fence_sbd is an I/O Fencing agent which can be used in environments where sbd can be used (shared storage).";
  vendorurl = some "";
  symlinks = [];
  agent_name = none;
}

abbrev same_int : ℤ → ℤ → Bool
same_int x y = not (ltb_ℤ x y) && not (ltb_ℤ y x)

module _ {W : Type 0} (node : Node W) where
  -- The functions that are handed to `fence_action`, which makes no use of what `set_power_status`
  -- returns.
  abbrev pub sbd_agent : ℕ → Agent W
  sbd_agent fuel = record {
    set_power = some (set_power_status node.launcher fuel >>= λ _. pure tt);
    get_power = some (get_power_status node.launcher fuel);
    get_outlet_list = some (outlets node.launcher fuel);
    reboot_cycle = some (reboot_cycle node.launcher fuel);
    sync_set_power = none;
  }

  -- The options of the agent, and what it changes of "method" and "power_timeout".
  unfoldable pub prepare_options : Exec (State W) (Unit {0})
  unfolding ◌>>=◌ define_new_opts spec_of Dict.put
  prepare_options = do
    modify (λ s. record s { all_opt = define_new_opts s.all_opt })
    method ← spec_of "method"
    modify (λ s. record s {
      all_opt = Dict.put s.all_opt "method" (record method {
        default = some "cycle";
        help = "-m, --method=[method]          Method to fence (onoff|cycle) (Default: cycle)";
      });
    })
    power_timeout ← spec_of "power_timeout"
    modify (λ s. record s {
      all_opt = Dict.put s.all_opt "power_timeout" (record power_timeout { default = some "30" });
    })

  abbrev no_devices_message : String
  no_devices_message =
      "No SBD devices specified.                     At least one SBD device is required."

  -- The devices of the environment, if the daemon runs.
  unfoldable pub devices_from : Option String → Exec (State W) (Unit {0})
  unfolding ◌>>=◌ sbd_daemon_is_running put_option fail_usage join split_from
  devices_from none = fail_usage no_devices_message true
  devices_from (some dev_list) = if dev_list == "" then fail_usage no_devices_message true else do
    running ← sbd_daemon_is_running node
    if running
        then put_option "--devices" (text (join "," (split_from ";" 0 dev_list)))
        else fail_usage no_devices_message true

  unfoldable pub log_device : String → ℤ → Exec (State W) (Unit {0})
  unfolding log
  log_device device_path code =
      if same_int code path_not_exists
      then log ("\"" <> device_path <> "\" does not exist")
      else if same_int code path_not_block
      then log ("\"" <> device_path <> "\" is not a valid block device")
      else if same_int code device_not_init
      then log ("\"" <> device_path <> "\" is not initialized")
      else if same_int code device_init
      then pure tt
      else log ("UNKNOWN error while checking \"" <> device_path <> "\"")

  -- The first device that is not as it should be ends the process.
  unfoldable pub check_devices : ℕ → List String → Exec (State W) (Unit {0})
  unfolding ◌>>=◌ check_sbd_device log_device
  check_devices fuel [] = pure tt
  check_devices fuel (device_path ∷ devices) = do
    code ← check_sbd_device node fuel device_path
    log_device device_path code
    if same_int code device_init then check_devices fuel devices else leave (exit_status code)

  abbrev is_left_to_sbd : Value → Bool
  is_left_to_sbd action = is_text action "reboot" || is_text action "off" || is_text action "list"

  -- options.get("--plug", "UNKNOWN") in a text
  shown_plug : Option Value → String
  unfolding format
  shown_plug none = "UNKNOWN"
  shown_plug (some value) = format value

  unfoldable pub log_crashdump : Option String → ℤ → Exec (State W) (Unit {0})
  unfolding ◌>>=◌ has_option option log shown_plug format get_crashdump_timeout text_of_int
  log_crashdump sbd_opts watchdog_timeout = do
    enabled ← has_option "--crashdump"
    action ← option "--action"
    if not (enabled && (is_text action "reboot" || is_text action "off")) then pure tt else do
      target_node ← gets (λ s. shown_plug (Dict.get s.options "--plug"))
      log (
          "crashdump option is enabled while doing action "
          <> format action
          <> " on node "
          <> target_node)
      log (
          "sbd watchdog timeout: "
          <> text_of_int watchdog_timeout
          <> ", crashdump timeout(compare to setting on target-node "
          <> target_node
          <> "): "
          <> text_of_int (get_crashdump_timeout sbd_opts))

  module _ (process : Process W) where
    unfoldable pub settle_devices : Exec (State W) (Unit {0})
    unfolding ◌>>=◌ has_option devices_from
    settle_devices = do
      given ← has_option "--devices"
      if given then pure tt else do
        dev_list ← gets (λ s. process.system.environ "SBD_DEVICE" s.world)
        devices_from dev_list

    unfoldable pub check_unless_left : Exec (State W) (Unit {0})
    unfolding ◌>>=◌ option parse_sbd_devices check_devices
    check_unless_left = do
      action ← option "--action"
      if is_left_to_sbd action
          then pure tt
          else (do devices ← parse_sbd_devices; check_devices process.fuel devices)

    -- The warnings on the time limits.
    unfoldable pub compare_timeouts : Exec (State W) (Unit {0})
    unfolding ◌>>=◌ int_option get_sbd_header_timeout log log_crashdump
    compare_timeouts = do
      power_timeout ← int_option "--power-timeout"
      timeouts ← get_sbd_header_timeout node.launcher process.fuel
      if ltb_ℤ (pos 0) power_timeout && not (ltb_ℤ timeouts.0 power_timeout)
          then log "power timeout needs to be                 greater then sbd message timeout"
          else pure tt
      sbd_opts ← gets (λ s. process.system.environ "SBD_OPTS" s.world)
      log_crashdump sbd_opts timeouts.1

    unfoldable pub main : Exec (State W) (Unit {0})
    unfolding ◌>>=◌ prepare_options process_input check_input show_docs settle_devices run_delay
        check_unless_left compare_timeouts fence_action
    main = do
      prepare_options
      modify (λ s. record s { device_opt = sbd_device_opt })
      process_input process.gnu_getopt process.has_arguments process.lines
      check_input process.system process.wrap false
      show_docs process.program process.wrap sbd_docs
      settle_devices
      run_delay process.clock process.started (pos 0) (pos 0)
      check_unless_left
      compare_timeouts
      result ← fence_action process.system (sbd_agent process.fuel) process.fuel
      leave result
