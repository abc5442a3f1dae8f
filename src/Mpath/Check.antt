-- ===== src/Mpath/Check.antt =====
-- `mpath_check` of agents/mpath/fence_mpath.py.
use fence_agents.Base.{String, Bool, false, Option, none, some, List, [], ◌∷◌, if◌then◌else◌}
use fence_agents.Base.Int.{ℤ, pos}
use fence_agents.Exec.{Exec, pure, modify, ◌>>=◌, ◌>>◌}
use fence_agents.State.{State, Value, text, int_of_value, has_option, log}
use fence_agents.Dict.{Dict}
use fence_agents.Scsi.{Host}
use fence_agents.Mpath.{get_registration_keys, dev_read}
use fence_agents.Watchdog.{Machine, check_get_options, check_end, repair_status}

-- The options that the check starts with.
abbrev pub check_options : Dict Value
check_options =
    ("--mpathpersist-path", text "/usr/sbin/mpathpersist")
    ∷ ("--store-path", text "@STORE_PATH@")
    ∷ ("--power-timeout", text "5")
    ∷ ("retry", text "0")
    ∷ ("retry-sleep", text "1")
    ∷ []

module _ {W : Type 0} (host : Host W) (machine : Machine W) where
  no_devices : Exec (State W) ℤ
  unfolding ◌>>=◌ has_option log
  no_devices = do
    suppressed ← has_option "--suppress-errors"
    if suppressed then pure tt else log "No devices found"
    pure (pos 0)

  unfoldable pub check_devices : Bool → Option (Dict String) → Exec (State W) ℤ
  unfolding no_devices check_end get_registration_keys
  check_devices hardreboot none = no_devices
  check_devices hardreboot (some []) = no_devices
  check_devices hardreboot (some (item ∷ items)) =
      check_end machine (λ dev. get_registration_keys host dev false) hardreboot (item ∷ items)

  -- The check by the status to repair with, if there is one.
  unfoldable pub check_or_repair : Bool → Option String → Exec (State W) ℤ
  unfolding ◌>>=◌ check_get_options dev_read check_devices int_of_value
  check_or_repair hardreboot (some status) = int_of_value (text status)
  check_or_repair hardreboot none = do
    modify (λ s. record s { options = check_options })
    check_get_options machine
    devs ← dev_read host false
    check_devices hardreboot devs

  -- mpath_check(hardreboot), with the arguments of the process
  unfoldable pub mpath_check : Bool → List String → Exec (State W) ℤ
  unfolding check_or_repair
  mpath_check hardreboot argv = check_or_repair hardreboot (repair_status argv)
