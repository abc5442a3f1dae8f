-- ===== src/Mpath/Main/Tests.antt =====
-- The whole of `main` at the device of Mpath/Tests.
use fence_agents.Base.{
  ◌≡◌, refl, Bool, true, false, String, none, List, [], ◌∷◌, ◌==◌, string_eq, nat_eq,
}
use fence_agents.Dict.{get, put, has, remove}
use fence_agents.Exec.{ok, exit}
use fence_agents.State.{State, System, Value, text, int_value}
use fence_agents.State.Entries.{HasEntry}
use fence_agents.Exec.Rules.{Keeps, Keeps-if}
use fence_agents.Action.{fence_action}
use fence_agents.Text.{split, split_from, lower, strip, words, replace_char}
use fence_agents.Text.Number.{int_of_text}
use fence_agents.Text.Uuid.{uuid_of_text}
use fence_agents.Options.Table.{all_opt}
use fence_agents.Options.Dependency.{dependency_opt}
use fence_agents.Options.CommandLine.{parsed}
use fence_agents.Process.{Process}
use fence_agents.Watchdog.{Machine}
use fence_agents.Mpath.Tests.{
  preempt_command, preempting, reading_keys, reading_holder, doing_nothing, host,
}
use fence_agents.Mpath.Status.{get_status, set_status}
use fence_agents.Mpath.Options.{define_new_opts}
use fence_agents.Mpath.Main.{main, mpath_agent}
use fence_agents.Mpath.Main.Fenced.{Fenced, fence_action-Fenced}
use fence_agents.Mpath.Main.Key.{without_zeros}

test_zeros :
    (without_zeros "0x00ab" ≡ "ab") × (without_zeros "00x5" ≡ "x5") × (without_zeros "0" ≡ "")
unfolding without_zeros nat_eq
test_zeros = (refl, refl, refl)

abbrev system : System Bool
system = record {
  pass = λ n w. w;
  is_file = λ path w. true;
  popen = λ command w. (command, w);
  environ = λ name w. none;
  open_log = λ path w. (true, w);
}

abbrev process : List String → Process Bool
process lines = record {
  program = "fence_mpath";
  argv = "fence_mpath" ∷ [];
  gnu_getopt = λ short long. parsed [] [];
  has_arguments = false;
  lines = lines;
  wrap = λ t. t ∷ [];
  system = system;
  clock = record { per_second = 1; now = λ w. 0; rest = λ n w. w };
  started = 0;
  fuel = 30;
}

abbrev machine : Machine Bool
machine = record { pause = λ d w. w; reset = λ w. w; stonith = λ w. none }

abbrev start : State Bool
start = record {
  options = [];
  device_opt = [];
  plugs = none;
  all_opt = all_opt;
  printed = [];
  logged = [];
  world = true;
}

abbrev off_lines : List String
off_lines =
    "action=off" ∷ "port=0xb" ∷ "devices=/dev/m" ∷ "mpathpersist_path=mp" ∷ "store_path=run" ∷ []

test_off : ((main host (process off_lines) machine start).0 ≡ exit 0)
unfolding main all_opt dependency_opt define_new_opts get put has remove split_from lower strip
    words replace_char int_value int_of_text uuid_of_text nat_eq string_eq get_status set_status
test_off = refl

-- With the key 0 the run exits with 0 as well, and has removed nothing.
test_zero :
    ((main host
        (process (
          "action=off" ∷ "port=0" ∷ "devices=/dev/m" ∷ "mpathpersist_path=mp" ∷ "store_path=run"
          ∷ []))
        machine
        start).0
      ≡ exit 0)
    × ((main host
          (process (
            "action=off" ∷ "port=0" ∷ "devices=/dev/m" ∷ "mpathpersist_path=mp" ∷ "store_path=run"
            ∷ []))
          machine
          start).1.world
        ≡ true)
unfolding main all_opt dependency_opt define_new_opts get put has remove split_from lower strip
    words replace_char int_value int_of_text uuid_of_text nat_eq string_eq get_status set_status
test_zero = (refl, refl)

-- the same device after `trim_plug`
abbrev fencing_off : State Bool
fencing_off = record start {
  options =
      ("--action", text "off")
      ∷ ("--plug", text "b")
      ∷ ("--mpathpersist-path", text "mp")
      ∷ ("--store-path", text "run")
      ∷ ("--plug-separator", text ",")
      ∷ ("--retry-on", text "1")
      ∷ ("--power-wait", text "0")
      ∷ ("--power-timeout", text "20")
      ∷ ("--stonith-status-sleep", text "1")
      ∷ [];
}

abbrev fenced_off : State Bool
fenced_off = (fence_action system (mpath_agent host ("/dev/m" ∷ [])) 30 fencing_off).1

off_returns :
    fence_action system (mpath_agent host ("/dev/m" ∷ [])) 30 fencing_off ≡ (ok 0, fenced_off)
unfolding fence_action get put has remove split split_from lower strip words int_value int_of_text
    uuid_of_text nat_eq string_eq get_status set_status
off_returns = refl

commands_keep :
    (command : String) (value : Value)
    → Keeps (HasEntry "--action" value) (host.run_command command)
commands_keep command value =
    Keeps-if (command == preempt_command) preempting _ (record { at = λ s h. h })
      (Keeps-if (command == "mp -i -k -d /dev/m") reading_keys _ (record { at = λ s h. h })
        (Keeps-if (command == "mp -i -r -d /dev/m") reading_holder doing_nothing
          (record { at = λ s h. h }) (record { at = λ s h. h })))

off_entry : HasEntry "--action" (text "off") fencing_off
unfolding get string_eq
off_entry = refl

fence_action-Fenced_example : Fenced host (process []) ("/dev/m" ∷ []) fencing_off 0 fenced_off
fence_action-Fenced_example =
    fence_action-Fenced host commands_keep (process []) ("/dev/m" ∷ []) fencing_off off_entry
      off_returns
