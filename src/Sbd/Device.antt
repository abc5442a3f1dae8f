-- ===== src/Sbd/Device.antt =====
-- The checks of agents/sbd/fence_sbd.py that a device is there and that the daemon runs.
use Prim.Native.Char.{code}
use fence_agents.Base.{
  ℕ, String, ◌<>◌, Bool, true, false, not, ◌||◌, Option, none, some, [], ◌∷◌, ◌++◌, any, ◌==◌,
  string_eq, nat_eq, if◌then◌else◌,
}
use fence_agents.Base.Int.{ℤ, pos, negsuc}
use fence_agents.Exec.{Exec, pure, gets, ◌>>=◌, ◌>>◌}
use fence_agents.State.{State, log}
use fence_agents.Text.{begins_with, ends_with_char, includes, rstrip_by, split_from}
use fence_agents.Text.Number.{int_of_text, text_of_int}
use fence_agents.Commands.{Launcher, run_commands}
use fence_agents.Sbd.{shown_option}

-- what `lstat` tells of a file
pub data FileKind : Type 0 where
  block_device symbolic_link other_kind : FileKind

-- What `os.kill(pid, 0)` does; any other exception than ProcessLookupError is `refused` with its text.
pub data Signalled : Type 0 where
  delivered no_process : Signalled
  refused : String → Signalled

-- What the agent takes from the machine: the processes, the files, and the content of the file with the
-- number of the daemon, if there is such a file. `none` inside is a file that cannot be read.
pub record Node (W : Type 0) : Type 0 where
  pub launcher : Launcher W
  pub exists : String → W → Bool
  pub lstat : String → W → Option FileKind
  pub readlink : String → W → String
  pub pid_file : W → Option (Option String)
  pub signal : ℤ → W → Signalled

abbrev pub device_init : ℤ
device_init = pos 1

abbrev pub path_not_exists : ℤ
path_not_exists = negsuc 0

abbrev pub path_not_block : ℤ
path_not_block = negsuc 1

abbrev pub device_not_init : ℤ
device_not_init = negsuc 2

-- `is_block_device` and `is_link`: a file that cannot be asked for is neither
unfoldable pub is_block_device : Option FileKind → Bool
is_block_device (some block_device) = true
is_block_device kind = false

unfoldable pub is_link : Option FileKind → Bool
is_link (some symbolic_link) = true
is_link kind = false

-- the text up to its last slash, if it has one
unfoldable pub up_to_slash : String → Option String
unfolding nat_eq
up_to_slash String.[] = none
up_to_slash (String.◌∷◌ c s) = elim (up_to_slash s) [
  | some head ↦ some (String.◌∷◌ c head)
  | none ↦ if code c == b'/' then some "/" else none
]

is_slash : ℕ → Bool
unfolding nat_eq
is_slash c = c == b'/'

without_slashes : String → String → String
unfolding string_eq
without_slashes head String.[] = head
without_slashes head (String.◌∷◌ c s) = String.◌∷◌ c s

-- os.path.dirname(p): slashes at the end go, unless there is nothing else
unfoldable pub dirname : String → String
unfolding up_to_slash rstrip_by is_slash without_slashes
dirname p = elim (up_to_slash p) [
  | none ↦ ""
  | some head ↦ without_slashes head (rstrip_by is_slash head)
]

-- os.path.join(a, b)
unfoldable pub path_join : String → String → String
unfolding begins_with ends_with_char
path_join a b =
    if begins_with b "/"
    then b
    else if a == "" || ends_with_char b'/' a
    then a <> b
    else a <> "/" <> b

module _ {W : Type 0} (node : Node W) where
  -- The path that a symbolic link stands for; one link is followed.
  unfoldable pub resolve : String → W → String
  unfolding is_link path_join dirname
  resolve device_path w =
      if is_link (node.lstat device_path w)
      then path_join (dirname device_path) (node.readlink device_path w)
      else device_path

  unfoldable pub check_sbd_device : ℕ → String → Exec (State W) ℤ
  unfolding ◌>>=◌ resolve is_block_device shown_option run_commands includes split_from
  check_sbd_device fuel given = do
    exists ← gets (λ s. node.exists given s.world)
    if not exists then pure path_not_exists else do
      device_path ← gets (λ s. resolve given s.world)
      is_block ← gets (λ s. is_block_device (node.lstat device_path s.world))
      if not is_block then pure path_not_block else do
        path ← shown_option "--sbd-path"
        ran ← run_commands node.launcher fuel ((path <> " -d " <> device_path <> " dump") ∷ [])
        pure (
            if any (includes "NOT dumped") (split_from "\n" 0 ran.out ++ split_from "\n" 0 ran.err)
            then device_not_init
            else device_init)

  alive : ℤ → Signalled → Exec (State W) Bool
  unfolding ◌>>=◌ log text_of_int
  alive pid delivered = pure true
  alive pid no_process = pure false
  alive pid (refused reason) = do
    log ("Failed to send signal 0 to PID " <> text_of_int pid <> ": " <> reason)
    pure false

  is_alive : Option ℤ → Exec (State W) Bool
  unfolding ◌>>=◌ log alive
  is_alive none = do log "Failed to read PID file @SBDPID_PATH@"; pure false
  is_alive (some pid) = do signalled ← gets (λ s. node.signal pid s.world); alive pid signalled

  pid_in : Option String → Option ℤ
  unfolding int_of_text
  pid_in none = none
  pid_in (some content) = int_of_text 10 content

  daemon_of : Option (Option String) → Exec (State W) Bool
  unfolding is_alive pid_in
  daemon_of none = pure false
  daemon_of (some content) = is_alive (pid_in content)

  unfoldable pub sbd_daemon_is_running : Exec (State W) Bool
  unfolding ◌>>=◌ daemon_of
  sbd_daemon_is_running = do content ← gets (λ s. node.pid_file s.world); daemon_of content
