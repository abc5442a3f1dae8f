-- ===== src/Scsi/Status.antt =====
-- `get_status`, `set_status`, `get_key`, `set_key` and `dev_write` of agents/scsi/fence_scsi.py.
pub mod Removal
use Prim.Native.Nat.{suc, zero}
use Prim.Native.Char.{code}
use fence_agents.Base.{
  ℕ, ◌+◌, String, ◌<>◌, Bool, true, false, not, ◌&&◌, ◌||◌, Option, none, some, List, [], ◌∷◌,
  contains, ◌==◌, string_eq, nat_eq, if◌then◌else◌,
}
use fence_agents.Base.Int.{pos}
use fence_agents.Exec.{Exec, pure, gets, modify, leave, raise, other_error, ◌>>=◌, ◌>>◌}
use fence_agents.State.{State, option, log}
use fence_agents.Text.{lower, strip, begins_with, is_space, size}
use fence_agents.Text.Number.{text_of_int}
use fence_agents.Failure.{fail_usage}
use fence_agents.Power.{is_text}
use fence_agents.Scsi.{
  Host, text_option, reset_dev, preempt_abort, get_reservation_key, get_registration_keys,
  is_block_device, reserve_dev, register_dev,
}
use fence_agents.Scsi.Keys.{drop}

-- a text that begins with white space
abbrev starts_spaced : String → Bool
starts_spaced String.[] = false
starts_spaced (String.◌∷◌ c s) = is_space (code c)

-- re.search(r"^" + dev + r"\s+", out, flags=re.MULTILINE), for a device name that stands for itself;
-- the flag says that a line begins here
unfoldable pub has_device : String → Bool → String → Bool
unfolding begins_with drop size is_space nat_eq
has_device dev start String.[] = false
has_device dev start (String.◌∷◌ c s) =
    let later = has_device dev (code c == b'\n') s in
    (start && begins_with (String.◌∷◌ c s) dev && starts_spaced (drop (size dev) (String.◌∷◌ c s)))
    || later

-- not key
abbrev pub is_missing : Option String → Bool
is_missing none = true
is_missing (some key) = key == ""

-- key is not None
abbrev pub is_some : Option String → Bool
is_some none = false
is_some (some key) = true

module _ {W : Type 0} (host : Host W) where
  -- A status loop over the devices; a device without the key ends it where the action is "on".
  unfoldable pub read_status_of : List String → String → Exec (State W) String
  unfolding ◌>>=◌ is_block_device reset_dev text_option get_registration_keys option
  read_status_of [] status = pure status
  read_status_of (dev ∷ devices) status = do
    is_block_device host dev
    reset_dev host dev
    key ← text_option host "--key"
    keys ← get_registration_keys host dev true
    if contains keys key then read_status_of devices "on" else do
      action ← option "--action"
      if is_text action "on" then pure "off" else read_status_of devices status

  -- get_status(conn, options), with options["devices"] as an argument
  unfoldable pub get_status : List String → Exec (State W) String
  unfolding read_status_of
  get_status devices = read_status_of devices "off"

  -- get_key()
  unfoldable pub get_key : Exec (State W) String
  unfolding ◌>>=◌ fail_usage strip lower
  get_key s = elim (host.key_line s.world) [
    | none ↦
        (do
          fail_usage "Failed: Cannot open file \"@STORE_PATH@.key\"" true
          raise (other_error "f"))
          s
    | some line ↦ pure (lower (strip line)) s
  ]

  -- The last loop of the action "off": how many devices keep the key, or have no reservation.
  unfoldable pub verify_removed : List String → ℕ → Exec (State W) ℕ
  unfolding ◌>>=◌ text_option get_registration_keys get_reservation_key
  verify_removed [] count = pure count
  verify_removed (dev ∷ devices) count = do
    key ← text_option host "--key"
    keys ← get_registration_keys host dev true
    if contains keys key then verify_removed devices (count + 1) else do
      reservation ← get_reservation_key host dev true
      verify_removed devices (if is_missing reservation then count + 1 else count)

  -- The loop before it; the number bounds the depth of multipath devices.
  unfoldable pub remove_keys : ℕ → String → List String → Exec (State W) (Unit {0})
  unfolding ◌>>=◌ is_block_device register_dev text_option get_registration_keys preempt_abort
  remove_keys depth host_key [] = pure tt
  remove_keys depth host_key (dev ∷ devices) = do
    is_block_device host dev
    register_dev host depth host_key dev true
    key ← text_option host "--key"
    keys ← get_registration_keys host dev true
    if contains keys key then (do preempt_abort host host_key dev; pure tt) else pure tt
    remove_keys depth host_key devices

  -- if count: logging.error(...); sys.exit(1)
  unfoldable pub report_count : ℕ → Exec (State W) (Unit {0})
  unfolding ◌>>=◌ log text_of_int
  report_count zero = pure tt
  report_count (suc n) = do
    log ("Failed to verify " <> text_of_int (pos (suc n)) <> " device(s)")
    leave 1

  -- set_status(conn, options) for the action "off"
  unfoldable pub set_off : ℕ → List String → Exec (State W) (Unit {0})
  unfolding ◌>>=◌ get_key text_option lower fail_usage remove_keys verify_removed report_count
  set_off depth devices = do
    host_key ← get_key
    key ← text_option host "--key"
    if host_key == lower key
        then fail_usage "Failed: keys cannot be same. You can not fence yourself." true
        else pure tt
    remove_keys depth host_key devices
    count ← verify_removed devices 0
    report_count count

  -- set_key(options)
  unfoldable pub set_key : Exec (State W) (Unit {0})
  unfolding ◌>>=◌ text_option lower fail_usage
  set_key = do
    store_path ← text_option host "store_path"
    key ← text_option host "--key"
    written ← gets (λ s. host.write_file (store_path <> ".key") (lower key <> "\n") s.world)
    modify (λ s. record s { world = written.1 })
    if written.0
        then pure tt
        else fail_usage ("Failed: Cannot open file \"" <> store_path <> ".key\"") true

  append_device : String → String → Option String → Exec (State W) (Unit {0})
  unfolding fail_usage has_device
  append_device file_path dev none =
      fail_usage ("Failed: Cannot open file \"" <> file_path <> "\"") true
  append_device file_path dev (some out) =
      if has_device dev true out
      then pure tt
      else modify (λ s. record s { world = host.append_file file_path (dev <> "\n") s.world })

  -- dev_write(dev, options)
  unfoldable pub dev_write : String → Exec (State W) (Unit {0})
  unfolding ◌>>=◌ text_option append_device
  dev_write dev = do
    store_path ← text_option host "store_path"
    opened ← gets (λ s. host.open_append (store_path <> ".dev") s.world)
    modify (λ s. record s { world = opened.1 })
    append_device (store_path <> ".dev") dev opened.0

  -- Whether the device has a reservation, or one can be made, or another node has made one by then.
  unfoldable pub has_reservation : String → Exec (State W) Bool
  unfolding ◌>>=◌ get_reservation_key reserve_dev
  has_reservation dev = do
    before ← get_reservation_key host dev true
    if is_some before then pure true else do
      reserved ← reserve_dev host dev
      if reserved
          then pure true
          else do after ← get_reservation_key host dev true; pure (is_some after)

  -- The loop of the action "on": how many devices could not be registered or reserved.
  unfoldable pub register_devices : ℕ → List String → ℕ → Exec (State W) ℕ
  unfolding ◌>>=◌ is_block_device register_dev text_option get_registration_keys dev_write
      has_reservation
  register_devices depth [] count = pure count
  register_devices depth (dev ∷ devices) count = do
    is_block_device host dev
    key ← text_option host "--key"
    register_dev host depth key dev true
    keys ← get_registration_keys host dev true
    if not (contains keys key) then register_devices depth devices (count + 1) else do
      dev_write dev
      reserved ← has_reservation dev
      register_devices depth devices (if reserved then count else count + 1)

  unfoldable pub set_on : ℕ → List String → Exec (State W) (Unit {0})
  unfolding ◌>>=◌ set_key register_devices report_count
  set_on depth devices = do set_key; count ← register_devices depth devices 0; report_count count

  -- set_status(conn, options), with options["devices"] as the last argument
  unfoldable pub set_status : ℕ → List String → Exec (State W) (Unit {0})
  unfolding ◌>>=◌ option set_on set_off
  set_status depth devices = do
    action ← option "--action"
    if is_text action "on" then set_on depth devices else set_off depth devices
