-- ===== src/Scsi/Main.antt =====
-- `main` of agents/scsi/fence_scsi.py.
pub mod Zeros
mod Tests
use fence_agents.Base.{
  ℕ, String, ◌<>◌, Bool, true, false, not, ◌&&◌, ◌||◌, Option, none, some, List, [], ◌∷◌, ◌==◌,
  string_eq, nat_eq, if◌then◌else◌,
}
use fence_agents.Base.Int.{ℤ, pos}
use fence_agents.Dict
use fence_agents.Exec.{Exec, pure, leave, raise, type_error, gets, modify, ◌>>=◌, ◌>>◌}
use fence_agents.State.{State, Value, text, number, option, has_option, put_option}
use fence_agents.Text.{lstrip_by}
use fence_agents.Failure.{fail_usage}
use fence_agents.Power.{Agent, is_text}
use fence_agents.Action.{as_text, fence_action}
use fence_agents.Options.Spec.{Spec}
use fence_agents.Options.Defaults.{spec_of}
use fence_agents.Metadata.Document.{Docs}
use fence_agents.Metadata.Print.{show_docs}
use fence_agents.Delay.{run_delay}
use fence_agents.Process.{Process, exit_status, device_names, read_options}
use fence_agents.Watchdog.{Machine}
use fence_agents.Scsi.{Host}
use fence_agents.Scsi.Status.{get_status, set_status}
use fence_agents.Scsi.Options.{scsi_device_opt, define_new_opts}
use fence_agents.Scsi.Monitor.{do_action_monitor}
use fence_agents.Scsi.Check.{scsi_check}
use fence_agents.Scsi.Key.{generate_key, get_shared_devices}

-- docs
unfoldable pub scsi_docs : Docs
scsi_docs = record {
  shortdesc = "Fence agent for SCSI persistent reservation";
  longdesc =
      "fence_scsi is an I/O Fencing agent that uses SCSI-3 persistent reservations to control access to shared storage devices. These devices must support SCSI-3 persistent reservations (SPC-3 or greater) as well as the \"preempt-and-abort\" subcommand.\nThe fence_scsi agent works by having each node in the cluster register a unique key with the SCSI device(s). Reservation key is generated from \"node id\" (default) or from \"node name hash\" (RECOMMENDED) by adjusting \"key_value\" option. Using hash is recommended to prevent issues when removing nodes from cluster without full cluster restart. Once registered, a single node will become the reservation holder by creating a \"write exclusive, registrants only\" reservation on the device(s). The result is that only registered nodes may write to the device(s). When a node failure occurs, the fence_scsi agent will remove the key belonging to the failed node from the device(s). The failed node will no longer be able to write to the device(s). A manual reboot is required.\n.P\nWhen used as a watchdog device you can define e.g. retry=1, retry-sleep=2 and verbose=yes parameters in /etc/sysconfig/stonith if you have issues with it failing.";
  vendorurl = some "";
  symlinks = [];
  agent_name = none;
}

abbrev port_help : String
port_help = "-n, --plug=[nodename]          Name of the node to be fenced"

abbrev port_shortdesc : String
port_shortdesc =
    "Name of the node to be fenced. The node name is used to generate the key value used for the current operation. This option will be ignored when used with the -k option."

-- a value that counts as true
is_filled : Value → Bool
is_filled (text value) = not (value == "")
is_filled (number n) = true

module _ {W : Type 0} (host : Host W) where
  -- the functions that are handed to `fence_action`; `depth` bounds the depth of multipath devices
  abbrev pub scsi_agent : ℕ → List String → Agent W
  scsi_agent depth devices = record {
    set_power = some (set_status host depth devices);
    get_power = some (get_status host devices);
    get_outlet_list = none;
    reboot_cycle = none;
    sync_set_power = none;
  }

  -- The options of the agent, and what it changes of the options "delay" and "port".
  unfoldable pub prepare_options : Exec (State W) (Unit {0})
  unfolding ◌>>=◌ define_new_opts spec_of Dict.put
  prepare_options = do
    modify (λ s. record s { all_opt = define_new_opts s.all_opt })
    delay ← spec_of "delay"
    modify (λ s. record s { all_opt = Dict.put s.all_opt "delay" (record delay { getopt = "H:" }) })
    port ← spec_of "port"
    modify (λ s. record s {
      all_opt =
          Dict.put s.all_opt "port"
            (record port { help = port_help; shortdesc = some port_shortdesc });
    })

  -- key in options and options[key]
  unfoldable pub is_given : String → Exec (State W) Bool
  unfolding is_filled
  is_given key = gets (λ s. elim (Dict.get s.options key) [ none ↦ false | some v ↦ is_filled v ])

  -- The output goes to the log file from here on, if it can be opened.
  open_logfile : Process W → Value → Exec (State W) (Unit {0})
  unfolding ◌>>=◌ fail_usage
  open_logfile process (number n) = raise type_error
  open_logfile process (text name) = do
    opened ← gets (λ s. process.system.open_log name s.world)
    modify (λ s. record s { world = opened.1 })
    if opened.0 then pure tt else fail_usage ("Failed: Unable to create file " <> name) true

  unfoldable pub logfile : Process W → Exec (State W) (Unit {0})
  unfolding ◌>>=◌ has_option option open_logfile
  logfile process = do
    given ← has_option "--logfile"
    if not given then pure tt else do name ← option "--logfile"; open_logfile process name

  unfoldable pub nodename_as_plug : Exec (State W) (Unit {0})
  unfolding ◌>>=◌ is_given option put_option Dict.remove
  nodename_as_plug = do
    given ← is_given "--nodename"
    if not given then pure tt else do
      name ← option "--nodename"
      put_option "--plug" name
      modify (λ s. record s { options = Dict.remove s.options "--nodename" })

  unfoldable pub require_name : Bool → Exec (State W) (Unit {0})
  unfolding ◌>>=◌ is_given fail_usage
  require_name stop = do
    plug ← is_given "--plug"
    key ← is_given "--key"
    if plug || key then pure tt else fail_usage "Failed: nodename or key is required" stop

  module _ (hexdigest : String → String) where
    -- The key that was given, or one made for the node.
    unfoldable pub make_key : Exec (State W) (Unit {0})
    unfolding ◌>>=◌ generate_key put_option
    make_key = do key ← generate_key host hexdigest; put_option "--key" (text key)

    unfoldable pub fill_key : Exec (State W) (Unit {0})
    unfolding ◌>>=◌ is_given make_key
    fill_key = do given ← is_given "--key"; if given then pure tt else make_key

    -- The key is not 0.
    unfoldable pub refuse_zero : Bool → Exec (State W) (Unit {0})
    unfolding ◌>>=◌ is_given option fail_usage
    refuse_zero stop = do
      key ← option "--key"
      filled ← is_given "--key"
      if is_text key "0" || not filled then fail_usage "Failed: key cannot be 0" stop else pure tt

    unfoldable pub settle_key : Bool → Exec (State W) (Unit {0})
    unfolding ◌>>=◌ fill_key refuse_zero
    settle_key stop = do fill_key; refuse_zero stop

    is_method : Option Value → Bool
    is_method none = true
    is_method (some method) = is_text method "id" || is_text method "hash"

    unfoldable pub check_method : Bool → Exec (State W) (Unit {0})
    unfolding ◌>>=◌ is_method fail_usage
    check_method stop = do
      method ← gets (λ s. Dict.get s.options "--key-value")
      if is_method method
          then pure tt
          else fail_usage "Failed: key-value has to be 'id' or 'hash'" stop

    -- options["--key"] = options["--key"].lstrip('0')
    unfoldable pub trim_key : Exec (State W) (Unit {0})
    unfolding ◌>>=◌ option as_text put_option lstrip_by nat_eq
    trim_key = do
      value ← option "--key"
      key ← as_text value
      put_option "--key" (text (lstrip_by (λ c. c == b'0') key))

    devices_in : Option Value → Exec (State W) (List String)
    unfolding ◌>>=◌ as_text device_names
    devices_in none = pure []
    devices_in (some value) = do devices ← as_text value; pure (device_names devices)

    -- The devices that were given, or those of the shared volume groups.
    unfoldable pub settle_devices : Exec (State W) (List String)
    unfolding ◌>>=◌ devices_in get_shared_devices fail_usage
    settle_devices = do
      value ← gets (λ s. Dict.get s.options "--devices")
      given ← devices_in value
      devices ← elim given [
        | [] ↦ get_shared_devices host hexdigest
        | device ∷ rest ↦ pure (device ∷ rest)
      ]
      elim devices [ [] ↦ fail_usage "Failed: No devices found" true | device ∷ rest ↦ pure tt ]
      pure devices

    module _ (process : Process W) (machine : Machine W) (depth : ℕ) where
      unfoldable pub fence : List String → Exec (State W) (Unit {0})
      unfolding ◌>>=◌ fence_action
      fence devices = do
        result ← fence_action process.system (scsi_agent depth devices) process.fuel
        leave result

      unfoldable pub monitor : Exec (State W) (Unit {0})
      unfolding ◌>>=◌ do_action_monitor
      monitor = do result ← do_action_monitor host; leave result

      unfoldable pub control : Exec (State W) (Unit {0})
      unfolding ◌>>=◌ option monitor nodename_as_plug require_name settle_key check_method trim_key
          settle_devices fence
      control = do
        action ← option "--action"
        let validating = is_text action "validate-all" in
            do
              if is_text action "monitor" then monitor else pure tt
              nodename_as_plug
              require_name (not validating)
              if validating then pure tt else settle_key (not validating)
              check_method (not validating)
              if validating then leave 0 else pure tt
              trim_key
              devices ← settle_devices
              fence devices

      unfoldable pub run_agent : Exec (State W) (Unit {0})
      unfolding ◌>>=◌ read_options show_docs run_delay logfile put_option control
      run_agent = do
        read_options process scsi_device_opt
        show_docs process.program process.wrap scsi_docs
        run_delay process.clock process.started (pos 0) (pos 0)
        logfile process
        put_option "store_path" (text "@STORE_PATH@")
        control

      check_and_leave : Bool → Exec (State W) (Unit {0})
      unfolding ◌>>=◌ scsi_check
      check_and_leave hardreboot = do
        status ← scsi_check host machine hardreboot process.argv
        leave (exit_status status)

      unfoldable pub main : Exec (State W) (Unit {0})
      unfolding ◌>>=◌ prepare_options check_and_leave run_agent
      main = do
        prepare_options
        if process.program == "fence_scsi_check"
            then check_and_leave false
            else if process.program == "fence_scsi_check_hardreboot"
            then check_and_leave true
            else run_agent
