-- ===== src/Scsi/Check.antt =====
-- `scsi_check` of agents/scsi/fence_scsi.py.
pub mod Reset
mod Tests
use fence_agents.Base.{
  String, Bool, true, false, Option, none, some, List, [], ◌∷◌, map, ◌==◌, string_eq, if◌then◌else◌,
}
use fence_agents.Base.Int.{ℤ, pos}
use fence_agents.Exec.{Exec, pure, modify, ◌>>=◌, ◌>>◌}
use fence_agents.State.{State, Value, text, int_of_value, has_option, log}
use fence_agents.Dict.{Dict}
use fence_agents.Text.{lower, strip}
use fence_agents.Failure.{fail_usage}
use fence_agents.Scsi.{Host, get_registration_keys}
use fence_agents.Scsi.Monitor.{dev_read}
use fence_agents.Watchdog.{Machine, check_get_options, check_end, repair_status}

-- The options that the check starts with.
abbrev pub check_options : Dict Value
check_options =
    ("--sg_turs-path", text "@SG_TURS_PATH@")
    ∷ ("--sg_persist-path", text "@SG_PERSIST_PATH@")
    ∷ ("--power-timeout", text "5")
    ∷ ("retry", text "0")
    ∷ ("retry-sleep", text "1")
    ∷ []

module _ {W : Type 0} (host : Host W) (machine : Machine W) where
  -- get_key(fail=False)
  unfoldable pub read_key : Exec (State W) (Option String)
  unfolding ◌>>=◌ fail_usage strip lower
  read_key s = elim (host.key_line s.world) [
    | none ↦ (do fail_usage "Failed: Cannot open file \"@STORE_PATH@.key\"" false; pure none) s
    | some line ↦ pure (some (lower (strip line))) s
  ]

  check_key : Bool → List String → Option String → Exec (State W) ℤ
  unfolding ◌>>=◌ log check_end get_registration_keys
  check_key hardreboot devs none = do log "Key not found"; pure (pos 0)
  check_key hardreboot devs (some key) =
      if key == ""
      then (do log "Key not found"; pure (pos 0))
      else check_end machine (λ dev. get_registration_keys host dev false) hardreboot
          (map (λ dev. (dev, key)) devs)

  no_devices : Exec (State W) ℤ
  unfolding ◌>>=◌ has_option log
  no_devices = do
    suppressed ← has_option "--suppress-errors"
    if suppressed then pure tt else log "No devices found"
    pure (pos 0)

  unfoldable pub check_devices : Bool → Option (List String) → Exec (State W) ℤ
  unfolding ◌>>=◌ no_devices read_key check_key
  check_devices hardreboot none = no_devices
  check_devices hardreboot (some []) = no_devices
  check_devices hardreboot (some (dev ∷ devs)) = do
    key ← read_key
    check_key hardreboot (dev ∷ devs) key

  -- The check by the status to repair with, if there is one.
  unfoldable pub check_or_repair : Bool → Option String → Exec (State W) ℤ
  unfolding ◌>>=◌ check_get_options dev_read check_devices int_of_value
  check_or_repair hardreboot (some status) = int_of_value (text status)
  check_or_repair hardreboot none = do
    modify (λ s. record s { options = check_options })
    check_get_options machine
    devs ← dev_read host false true
    check_devices hardreboot devs

  -- scsi_check(hardreboot), with the arguments of the process
  unfoldable pub scsi_check : Bool → List String → Exec (State W) ℤ
  unfolding check_or_repair
  scsi_check hardreboot argv = check_or_repair hardreboot (repair_status argv)
