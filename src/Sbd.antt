-- ===== src/Sbd.antt =====
-- agents/sbd/fence_sbd.py: the commands for the devices, and the messages to a node. The slots of the
-- nodes are read in Sbd/Slots.
pub mod Options
pub mod Device
pub mod Slots
pub mod Timeouts
pub mod Main
pub mod Entries
mod Tests
use fence_agents.Base.{
  ℕ, String, ◌<>◌, Bool, true, false, not, ◌||◌, List, [], ◌∷◌, map, ◌==◌, string_eq, if◌then◌else◌,
}
use fence_agents.Base.Int.{ℤ, pos}
use fence_agents.Exec.{Exec, pure, raise, type_error, ◌>>=◌, ◌>>◌}
use fence_agents.State.{State, Value, text, number, option, has_option, log}
use fence_agents.Text.{strip, split_from}
use fence_agents.Text.Number.{text_of_int}
use fence_agents.Power.{is_text}
use fence_agents.Action.{format}
use fence_agents.Commands.{Launcher, run_commands}
use fence_agents.Delay.{is_zero}
use fence_agents.Scsi.{Ran}

-- " -d %s" for every device
unfoldable pub device_flags : List String → String
device_flags [] = ""
device_flags (device ∷ devices) = " -d " <> device <> device_flags devices

module _ {W : Type 0} where
  -- "%s" % options[key]
  unfoldable pub shown_option : String → Exec (State W) String
  unfolding ◌>>=◌ option format
  shown_option key = do value ← option key; pure (format value)

  devices_in : Value → Exec (State W) (List String)
  unfolding strip split_from
  devices_in (text devices) = pure (map strip (split_from "," 0 devices))
  devices_in (number n) = raise type_error

  unfoldable pub parse_sbd_devices : Exec (State W) (List String)
  unfolding ◌>>=◌ option devices_in
  parse_sbd_devices = do value ← option "--devices"; devices_in value

  -- The commands "list" and "dump" are given to each device by itself, and any other to all devices.
  unfoldable pub generate_sbd_command : String → String → Exec (State W) (List String)
  unfolding ◌>>=◌ shown_option parse_sbd_devices device_flags
  generate_sbd_command command arguments = do
    path ← shown_option "--sbd-path"
    devices ← parse_sbd_devices
    pure (
        if command == "list" || command == "dump"
        then map (λ device. path <> " -d " <> device <> " " <> command <> " " <> arguments) devices
        else (path <> device_flags devices <> " " <> command <> " " <> arguments) ∷ [])

  -- "crashdump" if enable_crashdump else message
  unfoldable pub or_crashdump : String → Exec (State W) String
  unfolding ◌>>=◌ has_option
  or_crashdump message = do
    enable_crashdump ← has_option "--crashdump"
    pure (if enable_crashdump then "crashdump" else message)

  -- logging.error of a message that could not be sent
  log_failure : Ran → Exec (State W) (Unit {0})
  unfolding ◌>>=◌ log text_of_int
  log_failure ran = do
    log (
        "sending message to sbd device(s)                 failed with return code "
        <> text_of_int ran.rc)
    log ("DETAIL: output on stdout was \"" <> ran.out <> "\"")
    log ("DETAIL: output on stderr was \"" <> ran.err <> "\"")

  module _ (launcher : Launcher W) (fuel : ℕ) where
    unfoldable pub send_sbd_message : String → String → Exec (State W) Ran
    unfolding ◌>>=◌ generate_sbd_command run_commands
    send_sbd_message plug message = do
      commands ← generate_sbd_command "message" (plug <> " " <> message)
      run_commands launcher fuel commands

    -- The message for the action; an action that has none counts as the return code 99.
    unfoldable pub send_for : Value → String → Exec (State W) Ran
    unfolding ◌>>=◌ send_sbd_message or_crashdump
    send_for target_status plug =
        if is_text target_status "on"
        then send_sbd_message plug "clear"
        else if is_text target_status "off"
        then (do message ← or_crashdump "off"; send_sbd_message plug message)
        else if is_text target_status "reboot"
        then (do message ← or_crashdump "reset"; send_sbd_message plug message)
        else pure (record { rc = pos 99; out = ""; err = "" })

    unfoldable pub set_power_status : Exec (State W) Bool
    unfolding ◌>>=◌ option shown_option send_for log_failure
    set_power_status = do
      target_status ← option "--action"
      plug ← shown_option "--plug"
      ran ← send_for target_status plug
      if is_zero ran.rc then pure tt else log_failure ran
      pure (is_zero ran.rc)

    unfoldable pub reboot_cycle : Exec (State W) Bool
    unfolding ◌>>=◌ shown_option or_crashdump send_sbd_message
    reboot_cycle = do
      plug ← shown_option "--plug"
      message ← or_crashdump "reset"
      ran ← send_sbd_message plug message
      pure (is_zero ran.rc)
