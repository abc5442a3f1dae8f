-- ===== src/Mpath/Entries.antt =====
-- The functions of agents/mpath/fence_mpath.py leave every entry of the options alone, where the commands
-- of the machine do.
use Prim.Native.Nat.{suc, zero}
use fence_agents.Base.{
  ℕ, String, Bool, true, false, Option, none, some, List, [], ◌∷◌, contains, string_eq,
  if◌then◌else◌,
}
use fence_agents.Dict.{Dict, get}
use fence_agents.Exec.{Exec, pure, raise, modify, value_error, key_error, ◌>>=◌, ◌>>◌}
use fence_agents.Exec.Rules.{Keeps, Keeps-pure, Keeps-raise, Keeps-bind, keeps_rules}
use fence_agents.State.{State, Value, text, number, option}
use fence_agents.State.Entries.{HasEntry, Keeps-option}
use fence_agents.Failure.Entries.{Safe-leave, Safe-log, fail_usage-Safe}
use fence_agents.Action.{as_text}
use fence_agents.Scsi.{Host, text_option}
use fence_agents.Scsi.Status.{report_count}
use fence_agents.Mpath.{
  sudo_prefix, run_cmd, preempt_abort, register_dev, reserve_dev, get_reservation_key,
  get_registration_keys, is_block_device, append_entry, dev_write, entries, unreadable, dev_read,
}
use fence_agents.Mpath.Status.{
  read_status_of, get_status, key_of, remove_keys, verify_removed, set_off, has_reservation,
  register_devices, set_on, set_status,
}

module _ {W : Type 0} (key : String) (value : Value) where
  abbrev Safe : {A : Type 0} → Exec (State W) A → Type 0
  Safe m = Keeps (HasEntry key value) m

  as_text-Safe : (v : Value) → Safe (as_text v)
  unfolding as_text
  as_text-Safe (text t) = Keeps-pure t
  as_text-Safe (number n) = Keeps-raise _

  module _ (host : Host W) (commands : (command : String) → Safe (host.run_command command)) where
    text_option-Safe : (name : String) → Safe (text_option host name)
    unfolding text_option
    text_option-Safe name = Keeps-bind (option name) as_text (Keeps-option name) as_text-Safe

    sudo_prefix-Safe : Safe (sudo_prefix host)
    unfolding sudo_prefix
    sudo_prefix-Safe = search (keeps_rules, text_option-Safe) depth 12

    run_cmd-Safe : (cmd : String) → Safe (run_cmd host cmd)
    unfolding run_cmd
    run_cmd-Safe cmd = search (keeps_rules, sudo_prefix-Safe, commands) depth 12

    ruleset command_rules = (keeps_rules, text_option-Safe, run_cmd-Safe, fail_usage-Safe)

    preempt_abort-Safe : (host_key dev : String) → Safe (preempt_abort host host_key dev)
    unfolding preempt_abort
    preempt_abort-Safe host_key dev = search command_rules depth 12

    get_registration_keys-Safe :
        (dev : String) (stop : Bool) → Safe (get_registration_keys host dev stop)
    unfolding get_registration_keys
    get_registration_keys-Safe dev stop = search command_rules depth 12

    register_dev-Safe : (dev : String) → Safe (register_dev host dev)
    unfolding register_dev
    register_dev-Safe dev = search command_rules depth 12

    reserve_dev-Safe : (dev : String) → Safe (reserve_dev host dev)
    unfolding reserve_dev
    reserve_dev-Safe dev = search command_rules depth 12

    get_reservation_key-Safe : (dev : String) → Safe (get_reservation_key host dev)
    unfolding get_reservation_key
    get_reservation_key-Safe dev = search command_rules depth 12

    is_block_device-Safe : (dev : String) → Safe (is_block_device host dev)
    unfolding is_block_device
    is_block_device-Safe dev = search command_rules depth 12

    modify_world : (f : State W → W) → Safe (modify (λ s. record s { world = f s }))
    modify_world f = record { at = λ s h. h }

    append_entry-Safe :
        (file_path dev : String) (out : Option String) → Safe (append_entry host file_path dev out)
    unfolding append_entry
    append_entry-Safe file_path dev none = fail_usage-Safe key value _ true
    append_entry-Safe file_path dev (some out) = search (command_rules, modify_world) depth 12

    dev_write-Safe : (dev : String) → Safe (dev_write host dev)
    unfolding dev_write
    dev_write-Safe dev = search (command_rules, append_entry-Safe) depth 12

    raise_or_pure :
        (found : Option (Dict String))
        → Safe {A = Option (Dict String)} (elim found [
          | none ↦ raise value_error
          | some dev_key ↦ pure {S = State W} (some dev_key)
        ])
    raise_or_pure none = Keeps-raise value_error
    raise_or_pure (some dev_key) = Keeps-pure (some dev_key)

    entries-Safe : (content : String) → Safe (entries host content)
    unfolding entries
    entries-Safe content = raise_or_pure _

    unreadable-Safe : (file_path : String) (stop : Bool) → Safe (unreadable host file_path stop)
    unfolding unreadable
    unreadable-Safe file_path true = search command_rules depth 12
    unreadable-Safe file_path false = Keeps-pure none

    read-Safe :
        (file_path : String) (stop : Bool) (content : Option String)
        → Safe {A = Option (Dict String)} (elim content [
          | none ↦ unreadable host file_path stop
          | some lines ↦ entries host lines
        ])
    read-Safe file_path stop none = unreadable-Safe file_path stop
    read-Safe file_path stop (some lines) = entries-Safe lines

    dev_read-Safe : (stop : Bool) → Safe (dev_read host stop)
    unfolding dev_read
    dev_read-Safe stop = search (command_rules, read-Safe) depth 12

    read_status_of-Safe :
        (devices : List String) (status : String) → Safe (read_status_of host devices status)
    unfolding read_status_of
    read_status_of-Safe [] status = Keeps-pure status
    read_status_of-Safe (dev ∷ devices) status =
        search
          (
            command_rules,
            is_block_device-Safe,
            get_registration_keys-Safe,
            read_status_of-Safe devices,
          )
          depth 12

    pub get_status-Safe : (devices : List String) → Safe (get_status host devices)
    unfolding get_status
    get_status-Safe devices =
        search (command_rules, read_status_of-Safe, Keeps-option, dev_read-Safe) depth 12

    key_of-Safe : (dev_keys : Option (Dict String)) (dev : String) → Safe (key_of host dev_keys dev)
    unfolding key_of
    key_of-Safe none dev = Keeps-raise _
    key_of-Safe (some dev_keys) dev = found-Safe (get dev_keys dev)
      where
        found-Safe :
            (found : Option String)
            → Safe {A = String}
                (elim found [ none ↦ raise (key_error dev) | some own ↦ pure {S = State W} own ])
        found-Safe none = Keeps-raise (key_error dev)
        found-Safe (some own) = Keeps-pure own

    ruleset device_rules = (
      command_rules, is_block_device-Safe, get_registration_keys-Safe, get_reservation_key-Safe,
      preempt_abort-Safe, register_dev-Safe, reserve_dev-Safe, dev_write-Safe,
    )

    remove_one-Safe :
        (dev_keys : Option (Dict String)) (dev : String) (registered : Bool)
        → Safe (
            if registered
            then (do host_key ← key_of host dev_keys dev; preempt_abort host host_key dev; pure tt)
            else pure tt)
    remove_one-Safe dev_keys dev true =
        Keeps-bind (key_of host dev_keys dev) _ (key_of-Safe dev_keys dev) λ host_key.
          Keeps-bind (preempt_abort host host_key dev) (λ _. pure tt)
            (preempt_abort-Safe host_key dev) λ _. Keeps-pure tt
    remove_one-Safe dev_keys dev false = Keeps-pure tt

    remove_keys-Safe :
        (dev_keys : Option (Dict String)) (devices : List String)
        → Safe (remove_keys host dev_keys devices)
    unfolding remove_keys
    remove_keys-Safe dev_keys [] = Keeps-pure tt
    remove_keys-Safe dev_keys (dev ∷ devices) =
        Keeps-bind (is_block_device host dev) _ (is_block_device-Safe dev) λ _.
          Keeps-bind (text_option host "--plug") _ (text_option-Safe "--plug") λ own.
            Keeps-bind (get_registration_keys host dev true) _ (get_registration_keys-Safe dev true)
              λ keys.
                Keeps-bind
                  (if contains keys own
                    then (do
                      host_key ← key_of host dev_keys dev
                      preempt_abort host host_key dev
                      pure tt)
                    else pure tt)
                  (λ _. remove_keys host dev_keys devices)
                  (remove_one-Safe dev_keys dev (contains keys own))
                  λ _. remove_keys-Safe dev_keys devices

    verify_removed-Safe :
        (devices : List String) (count : ℕ) → Safe (verify_removed host devices count)
    unfolding verify_removed
    verify_removed-Safe [] count = Keeps-pure count
    verify_removed-Safe (dev ∷ devices) count =
        search (device_rules, verify_removed-Safe devices) depth 14

    report_count-Safe : (count : ℕ) → Safe (report_count host count)
    unfolding report_count
    report_count-Safe zero = Keeps-pure tt
    report_count-Safe (suc n) = search (keeps_rules, Safe-log, Safe-leave) depth 12

    has_reservation-Safe : (dev : String) → Safe (has_reservation host dev)
    unfolding has_reservation
    has_reservation-Safe dev = search device_rules depth 14

    register_devices-Safe :
        (devices : List String) (count : ℕ) → Safe (register_devices host devices count)
    unfolding register_devices
    register_devices-Safe [] count = Keeps-pure count
    register_devices-Safe (dev ∷ devices) count =
        search (device_rules, has_reservation-Safe, register_devices-Safe devices) depth 14

    pub set_status-Safe : (devices : List String) → Safe (set_status host devices)
    unfolding set_status set_on set_off
    set_status-Safe devices =
        search
          (
            keeps_rules, Keeps-option, dev_read-Safe, remove_keys-Safe, verify_removed-Safe,
            report_count-Safe, register_devices-Safe,
          )
          depth 14
