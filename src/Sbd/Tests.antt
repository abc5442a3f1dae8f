-- ===== src/Sbd/Tests.antt =====
-- A device with one node "b", whose slot is the world.
use fence_agents.Base.{
  ◌≡◌, refl, true, false, String, none, some, List, [], ◌∷◌, ◌==◌, ◌<>◌, string_eq, nat_eq,
  if◌then◌else◌, ℕ,
}
use fence_agents.Base.Int.{pos, negsuc}
use fence_agents.Dict.{get, put, has, remove}
use fence_agents.Exec.{ok, exit}
use fence_agents.State.{State, System, text, int_value}
use fence_agents.State.Entries.{HasEntry}
use fence_agents.Action.{fence_action}
use fence_agents.Text.{split, split_from, includes, lower, strip, words, replace_char}
use fence_agents.Text.Number.{int_of_text}
use fence_agents.Text.Uuid.{uuid_of_text}
use fence_agents.Text.Decimal.{decimal_of_text}
use fence_agents.Options.Table.{all_opt}
use fence_agents.Options.Dependency.{dependency_opt}
use fence_agents.Options.CommandLine.{parsed}
use fence_agents.Process.{Process}
use fence_agents.Commands.{Launcher, Spawned, started, no_program, run_commands}
use fence_agents.Sbd.{set_power_status}
use fence_agents.Sbd.Options.{define_new_opts}
use fence_agents.Sbd.Device.{Node, block_device, delivered, dirname, path_join}
use fence_agents.Sbd.Slots.{translate_status, get_power_status}
use fence_agents.Sbd.Slots.Latest.{PowerRead, get_power_status-latest}
use fence_agents.Sbd.Timeouts.{get_sbd_header_timeout, get_crashdump_timeout}
use fence_agents.Sbd.Main.{main, sbd_agent}
use fence_agents.Sbd.Main.Fenced.{Fenced, fence_action-EndFor}

abbrev spawn : String → String → Spawned × String
spawn command slot =
    if command == "sbd -d /dev/s message b off"
    then (started 1, "off")
    else if command == "sbd -d /dev/s message b crashdump"
    then (started 1, "crashdump")
    else if command == "sbd -d /dev/s list None"
    then (started 2, slot)
    else if command == "sbd -d /dev/s dump None"
    then (started 3, slot)
    else (no_program, slot)

abbrev output : ℕ → String → String
output pid slot =
    if pid == 2
    then "0\ta\tclear\t\n1\tb\t" <> slot <> "\tn\n"
    else if pid == 3
    then "Timeout (watchdog) : 5\nTimeout (msgwait)  : 10\n"
    else ""

abbrev launcher : Launcher String
launcher = record {
  clock = record { per_second = 10; now = λ w. 0; rest = λ n w. w };
  spawn = spawn;
  wait = λ pid most w. (some (pos 0), w);
  read_out = λ pid w. (output pid w, w);
  read_err = λ pid w. ("", w);
  kill = λ pid w. w;
}

abbrev node : Node String
node = record {
  launcher = launcher;
  exists = λ path w. path == "/dev/s";
  lstat = λ path w. some block_device;
  readlink = λ path w. "s";
  pid_file = λ w. none;
  signal = λ pid w. delivered;
}

abbrev system : System String
system = record {
  pass = λ n w. w;
  is_file = λ path w. true;
  popen = λ command w. (command, w);
  environ = λ name w. none;
  open_log = λ path w. (true, w);
}

abbrev process : List String → Process String
process lines = record {
  program = "fence_sbd";
  argv = "fence_sbd" ∷ [];
  gnu_getopt = λ short long. parsed [] [];
  has_arguments = false;
  lines = lines;
  wrap = λ t. t ∷ [];
  system = system;
  clock = launcher.clock;
  started = 0;
  fuel = 30;
}

abbrev start : State String
start = record {
  options = [];
  device_opt = [];
  plugs = none;
  all_opt = all_opt;
  printed = [];
  logged = [];
  world = "clear";
}

abbrev fencing_off : State String
fencing_off = record start {
  options =
      ("--action", text "off")
      ∷ ("--plug", text "b")
      ∷ ("--devices", text "/dev/s")
      ∷ ("--sbd-path", text "sbd")
      ∷ ("--plug-separator", text ",")
      ∷ ("--retry-on", text "1")
      ∷ ("--power-wait", text "0")
      ∷ ("--power-timeout", text "20")
      ∷ ("--stonith-status-sleep", text "1")
      ∷ [];
}

test_paths :
    (dirname "/dev/disk/x" ≡ "/dev/disk")
    × (dirname "//x" ≡ "//")
    × (path_join "/dev" "../s" ≡ "/dev/../s")
unfolding dirname path_join
test_paths = (refl, refl, refl)

test_crashdump_timeout :
    (get_crashdump_timeout (some "-W -C 120 -v") ≡ pos 120)
    × (get_crashdump_timeout (some "-C x") ≡ negsuc 0)
unfolding get_crashdump_timeout int_of_text string_eq
test_crashdump_timeout = (refl, refl)

test_timeouts : ((get_sbd_header_timeout launcher 9 fencing_off).0 ≡ ok (pos 10, pos 5))
unfolding get_sbd_header_timeout get split_from includes int_of_text string_eq nat_eq
    decimal_of_text strip run_commands
test_timeouts = refl

-- A node that is to end by a crash dump has no status.
test_crashdump :
    (translate_status "crashdump" ≡ "UNKNOWN")
    × (translate_status "reset" ≡ "off")
    × (translate_status "clear" ≡ "on")
unfolding translate_status
test_crashdump = (refl, refl, refl)

test_off :
    ((main node
        (process ("action=off" ∷ "port=b" ∷ "devices=/dev/s" ∷ "sbd_path=sbd" ∷ []))
        start).0
      ≡ exit 0)
unfolding main all_opt dependency_opt define_new_opts get put has remove split split_from includes
    lower strip words replace_char int_value int_of_text uuid_of_text nat_eq string_eq
    get_power_status set_power_status run_commands decimal_of_text
test_off = refl

abbrev fenced_off : State String
fenced_off = (fence_action system (sbd_agent node 9) 30 fencing_off).1

off_returns : fence_action system (sbd_agent node 9) 30 fencing_off ≡ (ok 0, fenced_off)
unfolding fence_action get put has remove split split_from includes lower strip words int_value
    int_of_text uuid_of_text nat_eq string_eq get_power_status set_power_status run_commands
    decimal_of_text
off_returns = refl

off_entry : HasEntry "--action" (text "off") fencing_off
unfolding get string_eq
off_entry = refl

fence_action-EndFor_example : Fenced node 9 (process []) fencing_off 0 fenced_off
fence_action-EndFor_example =
    fence_action-EndFor node 9 (process []) fencing_off off_entry off_returns

status_read : get_power_status launcher 9 fencing_off ≡ (ok "on", fencing_off)
unfolding get put split_from includes strip words int_of_text nat_eq string_eq get_power_status
    run_commands decimal_of_text
status_read = refl

get_power_status-latest_example : PowerRead launcher 9 fencing_off "on" fencing_off
get_power_status-latest_example = get_power_status-latest launcher 9 fencing_off status_read
