-- ===== src/Process.antt =====
-- What an agent's `main` has of its process and of the machine.
use fence_agents.Base.{
  ℕ, ◌-◌, ◌%◌, String, Bool, true, List, [], ◌∷◌, ◌==◌, string_eq, if◌then◌else◌,
}
use fence_agents.Base.Int.{ℤ, pos, negsuc}
use fence_agents.Exec.{Exec, modify, ◌>>=◌, ◌>>◌}
use fence_agents.State.{State, System}
use fence_agents.Text.{words, replace_char}
use fence_agents.Options.CommandLine.{Parsed, process_input}
use fence_agents.Options.Check.{check_input}
use fence_agents.Delay.{Clock}

-- The program is `os.path.basename(sys.argv[0])`, the clock's reading at the start is
-- `run_delay.time_start`, and `fuel` bounds the rounds of polling.
pub record Process (W : Type 0) : Type 0 where
  pub program : String
  pub argv : List String
  pub gnu_getopt : String → List String → Parsed
  pub has_arguments : Bool
  pub lines : List String
  pub wrap : String → List String
  pub system : System W
  pub clock : Clock W
  pub started : ℕ
  pub fuel : ℕ

-- the status of a process that calls `sys.exit` with this number
abbrev pub exit_status : ℤ → ℕ
exit_status (pos n) = n % 256
exit_status (negsuc n) = 255 - n % 256

-- [d for d in re.split(r"\s*,\s*|\s+", text.strip()) if d]: commas and white space are between the names
unfoldable pub device_names : String → List String
unfolding words replace_char
device_names text = words (replace_char b',' " " text)

-- [o for o in options if o != "separator"]
unfoldable pub without_separator : List String → List String
without_separator [] = []
without_separator (name ∷ names) =
    let rest = without_separator names in if name == "separator" then rest else name ∷ rest

module _ {W : Type 0} (process : Process W) where
  -- options = check_input(device_opt, process_input(device_opt), other_conditions=True), after which the
  -- list actions are taken away
  unfoldable pub read_options : List String → Exec (State W) (Unit {0})
  unfolding ◌>>=◌ process_input check_input without_separator
  read_options device_opt = do
    modify (λ s. record s { device_opt = device_opt })
    process_input process.gnu_getopt process.has_arguments process.lines
    check_input process.system process.wrap true
    modify (λ s. record s { device_opt = without_separator s.device_opt })
