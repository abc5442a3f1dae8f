-- ===== src/Mpath.antt =====
-- agents/mpath/fence_mpath.py: the commands for one device, and the file with the keys of the
-- devices. The loops over the devices are in Mpath/Status.
pub mod Keys
pub mod Status
pub mod Registry
pub mod Tool
pub mod Refinement
pub mod Fencing
pub mod Entries
pub mod Options
pub mod Check
pub mod Main
mod Tests
use Prim.Native.Char.{code}
use fence_agents.Base.{
  ℕ, String, ◌<>◌, Bool, true, false, not, Option, none, some, List, [], ◌∷◌, ◌==◌, string_eq,
  nat_eq, if◌then◌else◌,
}
use fence_agents.Exec.{Exec, pure, gets, modify, raise, value_error, ◌>>=◌, ◌>>◌}
use fence_agents.State.{State, has_option}
use fence_agents.Text.{split_from}
use fence_agents.Failure.{fail_usage}
use fence_agents.Scsi.{Host, Ran, is_failure, text_option}
use fence_agents.Scsi.Keys.{registration_keys}
use fence_agents.Dict.{Dict}
use Keys.{reservation_key, has_entry, entries_of}

module _ {W : Type 0} (host : Host W) where
  -- options["--sudo-path"] + " " if "--use-sudo" in options else ""
  unfoldable pub sudo_prefix : Exec (State W) String
  unfolding ◌>>=◌ has_option text_option
  sudo_prefix = do
    sudo ← has_option "--use-sudo"
    if sudo then (do path ← text_option host "--sudo-path"; pure (path <> " ")) else pure ""

  unfoldable pub run_cmd : String → Exec (State W) Ran
  unfolding ◌>>=◌ sudo_prefix
  run_cmd cmd = do prefix ← sudo_prefix; host.run_command (prefix <> cmd)

  unfoldable pub preempt_abort : String → String → Exec (State W) Bool
  unfolding ◌>>=◌ text_option run_cmd
  preempt_abort host_key dev = do
    path ← text_option host "--mpathpersist-path"
    key ← text_option host "--plug"
    ran ← run_cmd (
        path <> " -o --preempt-abort --prout-type=5 --param-rk=" <> host_key <> " --param-sark="
        <> key <> " -d " <> dev)
    pure (not (is_failure ran.rc))

  unfoldable pub register_dev : String → Exec (State W) Bool
  unfolding ◌>>=◌ text_option run_cmd
  register_dev dev = do
    path ← text_option host "--mpathpersist-path"
    key ← text_option host "--plug"
    ran ← run_cmd (path <> " -o --register --param-sark=" <> key <> " -d " <> dev)
    pure (not (is_failure ran.rc))

  unfoldable pub reserve_dev : String → Exec (State W) Bool
  unfolding ◌>>=◌ text_option run_cmd
  reserve_dev dev = do
    path ← text_option host "--mpathpersist-path"
    key ← text_option host "--plug"
    ran ← run_cmd (path <> " -o --reserve --prout-type=5 --param-rk=" <> key <> " -d " <> dev)
    pure (not (is_failure ran.rc))

  unfoldable pub get_reservation_key : String → Exec (State W) (Option String)
  unfolding ◌>>=◌ text_option run_cmd fail_usage reservation_key
  get_reservation_key dev = do
    path ← text_option host "--mpathpersist-path"
    ran ← run_cmd (path <> " -i -r -d " <> dev)
    if is_failure ran.rc
        then fail_usage ("Cannot get reservation key on device \"" <> dev <> "\": " <> ran.err) true
        else pure tt
    pure (reservation_key ran.out)

  unfoldable pub get_registration_keys : String → Bool → Exec (State W) (List String)
  unfolding ◌>>=◌ text_option run_cmd fail_usage registration_keys
  get_registration_keys dev stop = do
    path ← text_option host "--mpathpersist-path"
    ran ← run_cmd (path <> " -i -k -d " <> dev)
    if is_failure ran.rc
        then (do
          fail_usage ("Cannot get registration keys on device \"" <> dev <> "\": " <> ran.err) stop
          pure (if stop then registration_keys ran.out else []))
        else pure (registration_keys ran.out)

  unfoldable pub is_block_device : String → Exec (State W) (Unit {0})
  unfolding ◌>>=◌ fail_usage
  is_block_device dev = do
    exists ← gets (λ s. host.exists dev s.world)
    if exists then pure tt else fail_usage ("Failed: device \"" <> dev <> "\" does not exist") true
    is_block ← gets (λ s. host.is_block dev s.world)
    if is_block
        then pure tt
        else fail_usage ("Failed: device \"" <> dev <> "\" is not a block device") true

  append_entry : String → String → Option String → Exec (State W) (Unit {0})
  unfolding ◌>>=◌ text_option fail_usage has_entry
  append_entry file_path dev none =
      fail_usage ("Failed: Cannot open file \"" <> file_path <> "\"") true
  append_entry file_path dev (some out) = do
    key ← text_option host "--plug"
    if has_entry dev key true out
        then pure tt
        else modify (λ s. record s {
          world = host.append_file file_path (dev <> "\t" <> key <> "\n") s.world;
        })

  -- dev_write(options, dev)
  unfoldable pub dev_write : String → Exec (State W) (Unit {0})
  unfolding ◌>>=◌ text_option append_entry
  dev_write dev = do
    store_path ← text_option host "--store-path"
    opened ← gets (λ s. host.open_append (store_path <> "/mpath.devices") s.world)
    modify (λ s. record s { world = opened.1 })
    append_entry (store_path <> "/mpath.devices") dev opened.0

  -- The two names in a line that is not empty are a device and its key; another number of them is a
  -- ValueError.
  entries : String → Exec (State W) (Option (Dict String))
  unfolding split_from nat_eq entries_of
  entries content = elim (entries_of (split_from "\n" 0 content) []) [
    | none ↦ raise value_error
    | some dev_key ↦ pure (some dev_key)
  ]

  unreadable : String → Bool → Exec (State W) (Option (Dict String))
  unfolding ◌>>=◌ fail_usage
  unreadable file_path true = do
    fail_usage ("Failed: Cannot open file \"" <> file_path <> "\"") true
    pure none
  unreadable file_path false = pure none

  -- dev_read(options, fail)
  unfoldable pub dev_read : Bool → Exec (State W) (Option (Dict String))
  unfolding ◌>>=◌ text_option entries unreadable
  dev_read stop = do
    store_path ← text_option host "--store-path"
    content ← gets (λ s. host.read_file (store_path <> "/mpath.devices") s.world)
    elim content [
      | none ↦ unreadable (store_path <> "/mpath.devices") stop
      | some lines ↦ entries lines
    ]
