-- ===== src/Scsi/Monitor.antt =====
-- `do_action_monitor` and `dev_read` of agents/scsi/fence_scsi.py.
use fence_agents.Base.{
  ℕ, String, ◌<>◌, Bool, true, false, not, Option, none, some, List, [], ◌∷◌, ◌==◌, string_eq,
  nat_eq, if◌then◌else◌,
}
use fence_agents.Exec.{Exec, pure, raise, type_error, other_error, ◌>>=◌, ◌>>◌}
use fence_agents.State.{State, has_option, log}
use fence_agents.Text.{strip, split_from}
use fence_agents.Failure.{fail_usage}
use fence_agents.Scsi.{Host, is_failure, text_option}
use fence_agents.Scsi.Status.{get_key}

-- [line.strip() for line in f if line.strip()]
unfoldable pub filled_lines : List String → List String
unfolding strip
filled_lines [] = []
filled_lines (line ∷ lines) =
    let rest = filled_lines lines in if strip line == "" then rest else strip line ∷ rest

module _ {W : Type 0} (host : Host W) where
  unreadable : String → Bool → Bool → Exec (State W) (Option (List String))
  unfolding ◌>>=◌ has_option fail_usage
  unreadable file_path stop false = raise type_error
  unreadable file_path stop true = do
    suppressed ← has_option "--suppress-errors"
    if suppressed
        then pure tt
        else fail_usage ("Failed: Cannot open file \"" <> file_path <> "\"") stop
    if stop then raise (other_error "f") else pure none

  -- dev_read(fail, opt); the second flag says that the options are handed over as `opt`, since the test
  -- for "--suppress-errors" raises a TypeError where they are not
  unfoldable pub dev_read : Bool → Bool → Exec (State W) (Option (List String))
  unfolding unreadable filled_lines split_from nat_eq
  dev_read stop has_opt s = elim (host.read_file "@STORE_PATH@.dev" s.world) [
    | none ↦ unreadable "@STORE_PATH@.dev" stop has_opt s
    | some content ↦ pure (some (filled_lines (split_from "\n" 0 content))) s
  ]

  -- whether the command under this option runs with this argument
  unfoldable pub can_run : String → String → Exec (State W) Bool
  unfolding ◌>>=◌ text_option log
  can_run option_name argument = do
    path ← text_option host option_name
    ran ← host.run_command (path <> argument)
    if is_failure ran.rc then (do log ("Unable to run " <> path); pure false) else pure true

  unfoldable pub read_files : Exec (State W) ℕ
  unfolding ◌>>=◌ get_key dev_read
  read_files = do get_key host; dev_read true false; pure 0

  -- do_action_monitor(options)
  unfoldable pub do_action_monitor : Exec (State W) ℕ
  unfolding ◌>>=◌ can_run has_option read_files
  do_action_monitor = do
    persist ← can_run "--sg_persist-path" " -V"
    if not persist then pure 1 else do
      turs ← can_run "--sg_turs-path" " -V"
      if not turs then pure 1 else do
        given ← has_option "--devices"
        vgs ← (if given then pure true else can_run "--vgs-path" " --version")
        if not vgs then pure 1 else read_files
