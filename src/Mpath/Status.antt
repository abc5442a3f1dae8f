-- ===== src/Mpath/Status.antt =====
-- `get_status` and `set_status` of agents/mpath/fence_mpath.py.
use fence_agents.Base.{
  ℕ, ◌+◌, String, Bool, true, not, Option, none, some, List, [], ◌∷◌, contains, string_eq,
  if◌then◌else◌,
}
use fence_agents.Dict
use fence_agents.Dict.{Dict}
use fence_agents.Exec.{Exec, pure, raise, type_error, key_error, ◌>>=◌, ◌>>◌}
use fence_agents.State.{State, option}
use fence_agents.Power.{is_text}
use fence_agents.Scsi.{Host, text_option}
use fence_agents.Scsi.Status.{is_missing, is_some, report_count}
use fence_agents.Mpath.{
  preempt_abort, register_dev, reserve_dev, get_reservation_key, get_registration_keys,
  is_block_device, dev_write, dev_read,
}

module _ {W : Type 0} (host : Host W) where
  unfoldable pub read_status_of : List String → String → Exec (State W) String
  unfolding ◌>>=◌ is_block_device text_option get_registration_keys
  read_status_of [] status = pure status
  read_status_of (dev ∷ devices) status = do
    is_block_device host dev
    key ← text_option host "--plug"
    keys ← get_registration_keys host dev true
    read_status_of devices (if contains keys key then "on" else status)

  -- get_status(conn, options), with options["devices"] as an argument
  unfoldable pub get_status : List String → Exec (State W) String
  unfolding ◌>>=◌ read_status_of option dev_read
  get_status devices = do
    status ← read_status_of devices "off"
    action ← option "--action"
    if is_text action "monitor" then (do dev_read host true; pure status) else pure status

  -- The key in the file for a device, of which `dev_read` gives no dictionary where it failed.
  unfoldable pub key_of : Option (Dict String) → String → Exec (State W) String
  unfolding Dict.get
  key_of none dev = raise type_error
  key_of (some dev_keys) dev = elim (Dict.get dev_keys dev) [
    | none ↦ raise (key_error dev)
    | some key ↦ pure key
  ]

  -- The first loop of the action "off".
  unfoldable pub remove_keys : Option (Dict String) → List String → Exec (State W) (Unit {0})
  unfolding ◌>>=◌ is_block_device text_option get_registration_keys key_of preempt_abort
  remove_keys dev_keys [] = pure tt
  remove_keys dev_keys (dev ∷ devices) = do
    is_block_device host dev
    key ← text_option host "--plug"
    keys ← get_registration_keys host dev true
    if contains keys key
        then (do host_key ← key_of dev_keys dev; preempt_abort host host_key dev; pure tt)
        else pure tt
    remove_keys dev_keys devices

  -- The second: how many devices keep the key, or have no reservation.
  unfoldable pub verify_removed : List String → ℕ → Exec (State W) ℕ
  unfolding ◌>>=◌ text_option get_registration_keys get_reservation_key
  verify_removed [] count = pure count
  verify_removed (dev ∷ devices) count = do
    key ← text_option host "--plug"
    keys ← get_registration_keys host dev true
    if contains keys key then verify_removed devices (count + 1) else do
      reservation ← get_reservation_key host dev
      verify_removed devices (if is_missing reservation then count + 1 else count)

  -- set_status(conn, options) for every action but "on"
  unfoldable pub set_off : List String → Exec (State W) (Unit {0})
  unfolding ◌>>=◌ dev_read remove_keys verify_removed report_count
  set_off devices = do
    dev_keys ← dev_read host true
    remove_keys dev_keys devices
    count ← verify_removed devices 0
    report_count host count

  -- Whether the device has a reservation, or one can be made, or another node has made one by then.
  unfoldable pub has_reservation : String → Exec (State W) Bool
  unfolding ◌>>=◌ get_reservation_key reserve_dev
  has_reservation dev = do
    before ← get_reservation_key host dev
    if is_some before then pure true else do
      reserved ← reserve_dev host dev
      if reserved then pure true else do after ← get_reservation_key host dev; pure (is_some after)

  -- The loop of the action "on": how many devices could not be registered or reserved.
  unfoldable pub register_devices : List String → ℕ → Exec (State W) ℕ
  unfolding ◌>>=◌ is_block_device register_dev text_option get_registration_keys dev_write
      has_reservation
  register_devices [] count = pure count
  register_devices (dev ∷ devices) count = do
    is_block_device host dev
    register_dev host dev
    key ← text_option host "--plug"
    keys ← get_registration_keys host dev true
    if not (contains keys key) then register_devices devices (count + 1) else do
      dev_write host dev
      reserved ← has_reservation dev
      register_devices devices (if reserved then count else count + 1)

  unfoldable pub set_on : List String → Exec (State W) (Unit {0})
  unfolding ◌>>=◌ register_devices report_count
  set_on devices = do count ← register_devices devices 0; report_count host count

  -- set_status(conn, options), with options["devices"] as the last argument
  unfoldable pub set_status : List String → Exec (State W) (Unit {0})
  unfolding ◌>>=◌ option set_on set_off
  set_status devices = do
    action ← option "--action"
    if is_text action "on" then set_on devices else set_off devices
