-- ===== src/Sbd/Entries.antt =====
-- The functions of agents/sbd/fence_sbd.py leave every entry of the options alone.
use fence_agents.Base.{ℕ, String, sym, subst, Option, none, some, List, string_eq}
use fence_agents.Dict.{Dict}
use fence_agents.Exec.Rules.{Keeps-pure, Keeps-raise, Keeps-bind, keeps_rules}
use fence_agents.State.{Value, text, number}
use fence_agents.State.Entries.{HasEntry, Keeps-option}
use fence_agents.Failure.Entries.{Safe, Safe-log}
use fence_agents.Scsi.{Ran}
use fence_agents.Commands.{Launcher}
use fence_agents.Commands.Entries.{run_commands-Safe}
use fence_agents.Sbd.{
  shown_option, devices_in, parse_sbd_devices, generate_sbd_command, or_crashdump, log_failure,
  send_sbd_message, send_for, set_power_status,
}
use fence_agents.Sbd.Slots.Latest.{add_slots-world}
use fence_agents.Sbd.Slots.{add_slots, unknown_node, get_node_list, get_power_status}

module _ {W : Type 0} (key : String) (value : Value) where
  shown_option-Safe : (name : String) → Safe {W = W} key value (shown_option name)
  unfolding shown_option
  shown_option-Safe name = search (keeps_rules, Keeps-option) depth 12

  devices_in-Safe : (v : Value) → Safe {W = W} key value (devices_in v)
  unfolding devices_in
  devices_in-Safe (text t) = Keeps-pure _
  devices_in-Safe (number n) = Keeps-raise _

  parse_sbd_devices-Safe : Safe {W = W} key value parse_sbd_devices
  unfolding parse_sbd_devices
  parse_sbd_devices-Safe = search (keeps_rules, Keeps-option, devices_in-Safe) depth 12

  generate_sbd_command-Safe :
      (command arguments : String) → Safe {W = W} key value (generate_sbd_command command arguments)
  unfolding generate_sbd_command
  generate_sbd_command-Safe command arguments =
      Keeps-bind (shown_option "--sbd-path") _ (shown_option-Safe "--sbd-path")
        λ path. Keeps-bind parse_sbd_devices _ parse_sbd_devices-Safe λ devices. Keeps-pure _

  or_crashdump-Safe : (message : String) → Safe {W = W} key value (or_crashdump message)
  unfolding or_crashdump
  or_crashdump-Safe message = search keeps_rules depth 12

  log_failure-Safe : (ran : Ran) → Safe {W = W} key value (log_failure ran)
  unfolding log_failure
  log_failure-Safe ran = search (keeps_rules, Safe-log) depth 12

  module _ (launcher : Launcher W) (fuel : ℕ) where
    send_sbd_message-Safe :
        (plug message : String) → Safe key value (send_sbd_message launcher fuel plug message)
    unfolding send_sbd_message
    send_sbd_message-Safe plug message =
        search (keeps_rules, generate_sbd_command-Safe, run_commands-Safe) depth 12

    send_for-Safe :
        (target_status : Value) (plug : String)
        → Safe key value (send_for launcher fuel target_status plug)
    unfolding send_for
    send_for-Safe target_status plug =
        search (keeps_rules, or_crashdump-Safe, send_sbd_message-Safe) depth 14

    pub set_power_status-Safe : Safe key value (set_power_status launcher fuel)
    unfolding set_power_status
    set_power_status-Safe =
        search (keeps_rules, Keeps-option, shown_option-Safe, send_for-Safe, log_failure-Safe) depth
          16

    add_slots-Safe :
        (lines : List String) (nodelist : Dict String)
        → Safe {W = W} key value (add_slots lines nodelist)
    add_slots-Safe lines nodelist = record {
      at = λ s h. subst (HasEntry key value) (sym (add_slots-world lines nodelist s)) h;
    }

    unknown_node-Safe :
        (plug : String) (known : Option String) → Safe {W = W} key value (unknown_node plug known)
    unfolding unknown_node
    unknown_node-Safe plug none = search (keeps_rules, Safe-log) depth 12
    unknown_node-Safe plug (some status) = Keeps-pure status

    get_node_list-Safe : Safe key value (get_node_list launcher fuel)
    unfolding get_node_list
    get_node_list-Safe =
        search (keeps_rules, generate_sbd_command-Safe, run_commands-Safe, add_slots-Safe) depth 12

    pub get_power_status-Safe : Safe key value (get_power_status launcher fuel)
    unfolding get_power_status
    get_power_status-Safe =
        search (keeps_rules, shown_option-Safe, get_node_list-Safe, unknown_node-Safe) depth 12
