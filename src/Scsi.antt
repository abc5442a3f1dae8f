-- ===== src/Scsi.antt =====
-- agents/scsi/fence_scsi.py: the commands for one device. The loops over the devices are in
-- Scsi/Status.
pub mod Keys
pub mod Status
pub mod Options
pub mod Monitor
pub mod Check
pub mod Key
pub mod Main
mod Tests
use Prim.Native.Nat.{suc, zero}
use Prim.Native.Char.{code}
use fence_agents.Base.{
  ℕ, ◌+◌, String, ◌<>◌, Bool, true, false, not, ◌&&◌, ◌||◌, Option, none, some, List, [], ◌∷◌, map,
  contains, ltb, ◌==◌, string_eq, nat_eq, if◌then◌else◌,
}
use fence_agents.Base.Int.{ℤ, pos}
use fence_agents.Exec.{Exec, pure, gets, leave, diverge, raise, other_error, ◌>>=◌, ◌>>◌}
use fence_agents.State.{State, Value, text, option, has_option, log}
use fence_agents.Text.{lower, strip, begins_with}
use fence_agents.Text.Number.{text_of_int}
use fence_agents.Failure.{fail_usage}
use fence_agents.Power.{is_text}
use fence_agents.Action.{as_text}
use Keys.{reservation_key, registration_keys, drop}
use fence_agents.Dict

-- What a command gave: its exit code, its output and its error output.
pub record Ran : Type 0 where
  pub rc : ℤ
  pub out : String
  pub err : String

-- bool(rc)
abbrev pub is_failure : ℤ → Bool
is_failure (pos zero) = false
is_failure rc = true

-- What the agent takes from the machine: the commands that `run_command` runs, and its files, of
-- which `key_line` is the first line of the file with the key of the node, if it can be opened.
pub record Host (W : Type 0) : Type 0 where
  pub run_command : String → Exec (State W) Ran
  pub exists : String → W → Bool
  pub is_block : String → W → Bool
  pub key_line : W → Option String
  pub realpath : String → W → String
  pub listdir : String → W → Option (List String)
  -- Opens a file for writing, its directory made where it is missing, and writes the text.
  pub write_file : String → String → W → Bool × W
  -- What is in the file, if it can be opened for reading.
  pub read_file : String → W → Option String
  -- Opens a file for reading and appending, its directory and the file made where they are missing; what
  -- is in the file, if it can be opened.
  pub open_append : String → W → Option String × W
  pub append_file : String → String → W → W

-- [i for i in names if i[:1] != "."]
unfoldable pub visible : List String → List String
unfolding begins_with
visible [] = []
visible (name ∷ names) =
    let rest = visible names in if begins_with name "." then rest else name ∷ rest

module _ {W : Type 0} (host : Host W) where
  -- options[key], where the code adds it to a text
  unfoldable pub text_option : String → Exec (State W) String
  unfolding ◌>>=◌ option as_text
  text_option key = do value ← option key; as_text value

  unfoldable pub reset_dev : String → Exec (State W) ℤ
  unfolding ◌>>=◌ text_option
  reset_dev dev = do
    path ← text_option "--sg_turs-path"
    ran ← host.run_command (path <> " " <> dev)
    pure ran.rc

  -- whether `sg_persist` succeeds on the device with these arguments
  unfoldable pub persist : String → Exec (State W) Ran
  unfolding ◌>>=◌ text_option
  persist arguments = do
    path ← text_option "--sg_persist-path"
    host.run_command (path <> arguments)

  unfoldable pub preempt_abort : String → String → Exec (State W) Bool
  unfolding ◌>>=◌ reset_dev text_option persist
  preempt_abort host_key dev = do
    reset_dev dev
    key ← text_option "--key"
    ran ← persist (" -n -o -A -T 5 -K " <> host_key <> " -S " <> key <> " -d " <> dev)
    pure (not (is_failure ran.rc))

  -- "-y " if "--readonly" in options
  unfoldable pub readonly_flag : Exec (State W) String
  unfolding ◌>>=◌ has_option
  readonly_flag = do readonly ← has_option "--readonly"; pure (if readonly then "-y " else "")

  unfoldable pub get_reservation_key : String → Bool → Exec (State W) (Option String)
  unfolding ◌>>=◌ reset_dev readonly_flag persist fail_usage reservation_key
  get_reservation_key dev stop = do
    reset_dev dev
    opts ← readonly_flag
    ran ← persist (" -n -i " <> opts <> "-r -d " <> dev)
    if is_failure ran.rc && stop
        then fail_usage ("Cannot get reservation key on device \"" <> dev <> "\": " <> ran.err) true
        else pure tt
    pure (reservation_key ran.out)

  unfoldable pub get_registration_keys : String → Bool → Exec (State W) (List String)
  unfolding ◌>>=◌ reset_dev readonly_flag persist fail_usage registration_keys
  get_registration_keys dev stop = do
    reset_dev dev
    opts ← readonly_flag
    ran ← persist (" -n -i " <> opts <> "-k -d " <> dev)
    if is_failure ran.rc
        then (do
          fail_usage ("Cannot get registration keys on device \"" <> dev <> "\": " <> ran.err) stop
          pure (if stop then registration_keys ran.out else []))
        else pure (registration_keys ran.out)

  unfoldable pub is_block_device : String → Exec (State W) (Unit {0})
  unfolding ◌>>=◌ fail_usage
  is_block_device dev = do
    exists ← gets (λ s. host.exists dev s.world)
    if exists then pure tt else fail_usage ("Failed: device \"" <> dev <> "\" does not exist") true
    is_block ← gets (λ s. host.is_block dev s.world)
    if is_block
        then pure tt
        else fail_usage ("Failed: device \"" <> dev <> "\" is not a block device") true

  unfoldable pub preempt : String → String → String → Exec (State W) Bool
  unfolding ◌>>=◌ reset_dev persist
  preempt host_key dev key = do
    reset_dev dev
    ran ← persist (" -n -o -P -T 5 -K " <> host_key <> " -S " <> key <> " -d " <> dev)
    pure (not (is_failure ran.rc))

  unfoldable pub register_helper : String → String → Exec (State W) Bool
  unfolding ◌>>=◌ reset_dev has_option persist
  register_helper dev key = do
    reset_dev dev
    aptpl ← has_option "--aptpl"
    ran ← persist (" -n -o -I -S " <> key <> " -d " <> dev <> (if aptpl then " -Z" else ""))
    pure (not (is_failure ran.rc))

  unfoldable pub reserve_dev : String → Exec (State W) Bool
  unfolding ◌>>=◌ reset_dev text_option persist
  reserve_dev dev = do
    reset_dev dev
    key ← text_option "--key"
    ran ← persist (" -n -o -R -T 5 -K " <> key <> " -d " <> dev)
    pure (not (is_failure ran.rc))

  -- `register_dev` on a device that is not multipath, with `do_preempt` as the last argument
  unfoldable pub register_single : String → String → Bool → Exec (State W) Bool
  unfolding ◌>>=◌ get_registration_keys register_helper preempt get_reservation_key
  register_single dev key do_preempt = do
    keys ← get_registration_keys dev true
    registered ← register_helper dev key
    if not registered then pure false else if not (contains keys key) then pure true else do
      preempted ← (if do_preempt then preempt key dev key else pure true)
      if not preempted then pure false else do
        reservation ← get_reservation_key dev false
        if elim reservation [ none ↦ false | some reserved ↦ reserved == key ]
            then pure true
            else register_helper dev key

  -- options.get("--mpath-register-method") == "multi"
  abbrev is_multi : State W → Bool
  is_multi s = elim (Dict.get s.options "--mpath-register-method") [
    | none ↦ false
    | some value ↦ is_text value "multi"
  ]

  parts_of : (String → Exec (State W) (List String)) → List String → Exec (State W) (List String)
  unfolding begins_with
  parts_of again [] = raise (other_error "list index out of range")
  parts_of again (first ∷ names) =
      if begins_with first "dm" then again first else pure (map (λ x. "/dev/" <> x) (first ∷ names))

  -- get_mpath_slaves(dev); the number bounds the depth of the devices
  unfoldable pub get_mpath_slaves : ℕ → String → Exec (State W) (List String)
  unfolding ◌>>=◌ parts_of visible begins_with drop
  get_mpath_slaves zero dev = diverge
  get_mpath_slaves (suc depth) dev =
      let again = get_mpath_slaves depth in
      do
        let short = (if begins_with dev "/dev/" then drop 5 dev else dev) in
            do
              found ← gets (λ s. host.listdir ("/sys/block/" <> short <> "/slaves/") s.world)
              elim found [
                | none ↦ raise (other_error "no such directory")
                | some names ↦ parts_of again (visible names)
              ]

  register_parts : (String → Bool → Exec (State W) Bool) → Bool → List String → Exec (State W) Bool
  unfolding ◌>>=◌
  register_parts register do_preempt [] = pure true
  register_parts register do_preempt (dev ∷ devices) = do
    register dev do_preempt
    register_parts register false devices

  -- register_dev(options, dev, key, do_preempt); only the first part of a multipath device preempts
  unfoldable pub register_dev : ℕ → String → String → Bool → Exec (State W) Bool
  unfolding ◌>>=◌ get_mpath_slaves register_parts register_single begins_with drop
  register_dev zero key given do_preempt = diverge
  register_dev (suc depth) key given do_preempt =
      let register = register_dev depth key in
      do
        dev ← gets (λ s. host.realpath given s.world)
        multi ← gets is_multi
        if multi && begins_with (drop 5 dev) "dm"
            then (do devices ← get_mpath_slaves depth dev; register_parts register true devices)
            else register_single dev key do_preempt
