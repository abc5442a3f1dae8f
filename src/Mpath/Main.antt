-- ===== src/Mpath/Main.antt =====
-- `main` of agents/mpath/fence_mpath.py.
pub mod Key
pub mod Fenced
mod Tests
use fence_agents.Base.{
  ℕ, String, Bool, true, false, not, ◌&&◌, ◌||◌, Option, none, some, List, [], ◌∷◌, ◌==◌, string_eq,
  if◌then◌else◌,
}
use fence_agents.Base.Int.{ℤ, pos}
use fence_agents.Dict
use fence_agents.Exec.{Exec, pure, leave, gets, modify, ◌>>=◌, ◌>>◌}
use fence_agents.State.{State, Value, text, option, has_option, put_option}
use fence_agents.Failure.{fail_usage}
use fence_agents.Power.{Agent, is_text}
use fence_agents.Action.{as_text, fence_action}
use fence_agents.Options.Spec.{Spec}
use fence_agents.Options.Defaults.{spec_of}
use fence_agents.Metadata.Document.{Docs}
use fence_agents.Metadata.Print.{show_docs}
use fence_agents.Delay.{run_delay}
use fence_agents.Process.{Process, exit_status, device_names, read_options}
use fence_agents.Watchdog.{Machine}
use fence_agents.Scsi.{Host}
use fence_agents.Mpath.Status.{get_status, set_status}
use fence_agents.Mpath.Options.{mpath_device_opt, define_new_opts}
use fence_agents.Mpath.Check.{mpath_check}
use Key.{without_zeros}

-- docs
unfoldable pub mpath_docs : Docs
mpath_docs = record {
  shortdesc = "Fence agent for multipath persistent reservation";
  longdesc =
      "fence_mpath is an I/O Fencing agent that uses SCSI-3 persistent reservations to control access multipath devices. Underlying devices must support SCSI-3 persistent reservations (SPC-3 or greater) as well as the \"preempt-and-abort\" subcommand.\nThe fence_mpath agent works by having a unique key for each node that has to be set in /etc/multipath.conf. Once registered, a single node will become the reservation holder by creating a \"write exclusive, registrants only\" reservation on the device(s). The result is that only registered nodes may write to the device(s). When a node failure occurs, the fence_mpath agent will remove the key belonging to the failed node from the device(s). The failed node will no longer be able to write to the device(s). A manual reboot is required.\n.P\nWhen used as a watchdog device you can define e.g. retry=1, retry-sleep=2 and verbose=yes parameters in /etc/sysconfig/stonith if you have issues with it failing.";
  vendorurl = some "https://www.sourceware.org/dm/";
  symlinks = [];
  agent_name = none;
}

abbrev port_help : String
port_help = "-n, --plug=[key]               Key to use for the current operation"

abbrev port_shortdesc : String
port_shortdesc =
    "Key to use for the current operation. This key should be unique to a node and have to be written in /etc/multipath.conf. For the \"on\" action, the key specifies the key use to register the local node. For the \"off\" action, this key specifies the key to be removed from the device(s)."

module _ {W : Type 0} (host : Host W) where
  -- the functions that are handed to `fence_action`
  abbrev pub mpath_agent : List String → Agent W
  mpath_agent devices = record {
    set_power = some (set_status host devices);
    get_power = some (get_status host devices);
    get_outlet_list = none;
    reboot_cycle = none;
    sync_set_power = none;
  }

  -- The options of the agent, and what it changes of the option "port".
  unfoldable pub prepare_options : Exec (State W) (Unit {0})
  unfolding ◌>>=◌ define_new_opts spec_of Dict.put
  prepare_options = do
    modify (λ s. record s { all_opt = define_new_opts s.all_opt })
    port ← spec_of "port"
    modify (λ s. record s {
      all_opt =
          Dict.put s.all_opt "port" (record port {
            required = some "0";
            help = port_help;
            shortdesc = some port_shortdesc;
          });
    })

  -- the actions that need a plug
  abbrev needs_plug : Value → Bool
  needs_plug action =
      is_text action "off"
      || is_text action "on"
      || is_text action "reboot"
      || is_text action "status"
      || is_text action "validate-all"

  unfoldable pub require_plug : Exec (State W) (Unit {0})
  unfolding ◌>>=◌ has_option option fail_usage
  require_plug = do
    help ← has_option "--help"
    if help then pure tt else do
      action ← option "--action"
      if not (needs_plug action) then pure tt else do
        given ← has_option "--plug"
        if given
            then pure tt
            else fail_usage "Failed: You have to enter plug number or machine identification"
                (not (is_text action "validate-all"))

  -- The option "--key" is taken for "--plug".
  unfoldable pub key_as_plug : Exec (State W) (Unit {0})
  unfolding ◌>>=◌ has_option option put_option require_plug Dict.remove
  key_as_plug = do
    given ← has_option "--key"
    if given
        then (do
          key ← option "--key"
          put_option "--plug" key
          modify (λ s. record s { options = Dict.remove s.options "--key" }))
        else require_plug

  -- options["--devices"] if there is something in it
  unfoldable pub given_devices : Exec (State W) (List String)
  unfolding ◌>>=◌ has_option option as_text fail_usage device_names
  given_devices = do
    given ← has_option "--devices"
    if given then pure tt else fail_usage "Failed: No devices found" true
    value ← option "--devices"
    devices ← as_text value
    if devices == "" then fail_usage "Failed: No devices found" true else pure tt
    pure (device_names devices)

  plug_text : Option Value → Exec (State W) String
  unfolding as_text
  plug_text none = pure ""
  plug_text (some value) = as_text value

  -- options["--plug"] = re.sub(r"^0x0*|^0+", "", options.get("--plug", ""))
  unfoldable pub trim_plug : Exec (State W) (Unit {0})
  unfolding ◌>>=◌ plug_text put_option without_zeros
  trim_plug = do
    value ← gets (λ s. Dict.get s.options "--plug")
    plug ← plug_text value
    put_option "--plug" (text (without_zeros plug))

  module _ (process : Process W) (machine : Machine W) where
    -- The devices are known.
    unfoldable pub fence : List String → Exec (State W) (Unit {0})
    unfolding ◌>>=◌ trim_plug fence_action
    fence devices = do
      trim_plug
      result ← fence_action process.system (mpath_agent devices) process.fuel
      leave result

    unfoldable pub run_agent : Exec (State W) (Unit {0})
    unfolding ◌>>=◌ read_options key_as_plug show_docs run_delay option given_devices fence
    run_agent = do
      read_options process mpath_device_opt
      key_as_plug
      show_docs process.program process.wrap mpath_docs
      run_delay process.clock process.started (pos 0) (pos 0)
      action ← option "--action"
      if is_text action "validate-all" then leave 0 else pure tt
      devices ← given_devices
      fence devices

    check_and_leave : Bool → Exec (State W) (Unit {0})
    unfolding ◌>>=◌ mpath_check
    check_and_leave hardreboot = do
      status ← mpath_check host machine hardreboot process.argv
      leave (exit_status status)

    unfoldable pub main : Exec (State W) (Unit {0})
    unfolding ◌>>=◌ prepare_options check_and_leave run_agent
    main = do
      prepare_options
      if process.program == "fence_mpath_check"
          then check_and_leave false
          else if process.program == "fence_mpath_check_hardreboot"
          then check_and_leave true
          else run_agent
