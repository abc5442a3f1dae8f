-- ===== src/Scsi/Main/Tests.antt =====
-- Keys, shared devices and a whole run of `main` at the device of Scsi/Tests.
use fence_agents.Base.{◌≡◌, refl, true, false, String, none, some, List, [], ◌∷◌, string_eq, nat_eq}
use fence_agents.Base.Int.{pos}
use fence_agents.Dict.{get, put, has, remove}
use fence_agents.Exec.{ok, exit}
use fence_agents.State.{State, System, text, int_value}
use fence_agents.State.Entries.{HasEntry}
use fence_agents.Text.{split, split_from, lower, strip, words, replace_char}
use fence_agents.Text.Number.{int_of_text, text_of_int}
use fence_agents.Text.Uuid.{uuid_of_text}
use fence_agents.Options.Table.{all_opt}
use fence_agents.Options.Dependency.{dependency_opt}
use fence_agents.Options.CommandLine.{parsed}
use fence_agents.Process.{Process, device_names}
use fence_agents.Watchdog.{Machine}
use fence_agents.Scsi.Tests.{World, host}
use fence_agents.Scsi.Options.{define_new_opts}
use fence_agents.Scsi.Status.{get_status, set_status}
use fence_agents.Scsi.Key.Output.{cluster_name, node_id, pad, lines_of, is_shared}
use fence_agents.Scsi.Main.{main, settle_key, trim_key}
use fence_agents.Scsi.Main.Zeros.{settle_key_zeros}

test_output :
    (cluster_name "totem.cluster_name (str) = alpha\n" ≡ some "alpha")
    × (node_id "b" "nodelist.node.0.name (str) = a\nnodelist.node.12.name (str) = b\n" ≡ some "12")
    × (node_id "b" "nodelist.node.3.ring0_addr (str) = b\n" ≡ some "3")
    × (pad 4 (pos 12) ≡ "0012")
unfolding cluster_name node_id pad text_of_int nat_eq string_eq
test_output = (refl, refl, refl, refl)

test_shared :
    (lines_of "  wz--nc:/dev/sda\n" ≡ "  wz--nc:/dev/sda" ∷ [])
    × (is_shared "wz--nc" ≡ some true)
    × (is_shared "wz--n" ≡ none)
    × (device_names " /dev/sda , /dev/sdb /dev/sdc," ≡ "/dev/sda" ∷ "/dev/sdb" ∷ "/dev/sdc" ∷ [])
unfolding lines_of is_shared device_names split_from replace_char words nat_eq string_eq
test_shared = (refl, refl, refl, refl)

abbrev system : System World
system = record {
  pass = λ n w. w;
  is_file = λ path w. true;
  popen = λ command w. (command, w);
  environ = λ name w. none;
  open_log = λ path w. (true, w);
}

abbrev process : List String → Process World
process lines = record {
  program = "fence_scsi";
  argv = "fence_scsi" ∷ [];
  gnu_getopt = λ short long. parsed [] [];
  has_arguments = false;
  lines = lines;
  wrap = λ t. t ∷ [];
  system = system;
  clock = record { per_second = 1; now = λ w. 0; rest = λ n w. w };
  started = 0;
  fuel = 30;
}

abbrev machine : Machine World
machine = record { pause = λ d w. w; reset = λ w. w; stonith = λ w. none }

abbrev start : State World
start = record {
  options = [];
  device_opt = [];
  plugs = none;
  all_opt = all_opt;
  printed = [];
  logged = [];
  world = true;
}

abbrev lines : String → List String
lines key =
    "action=off" ∷ key ∷ "devices=/dev/sda" ∷ "sg_persist_path=persist" ∷ "sg_turs_path=turs" ∷ []

abbrev digest : String → String
digest content = "0123456789abcdef"

-- The key ab is removed from the device.
test_off :
    ((main host digest (process (lines "key=0ab")) machine 3 start).0 ≡ exit 0)
    × ((main host digest (process (lines "key=0ab")) machine 3 start).1.world ≡ false)
unfolding main all_opt dependency_opt define_new_opts get put has remove split split_from lower
    strip words replace_char int_value int_of_text uuid_of_text nat_eq string_eq get_status
    set_status
test_off = (refl, refl)

-- With the key 00 the run exits with 0 as well, and has removed nothing.
test_zeros :
    ((main host digest (process (lines "key=00")) machine 3 start).0 ≡ exit 0)
    × ((main host digest (process (lines "key=00")) machine 3 start).1.world ≡ true)
unfolding main all_opt dependency_opt define_new_opts get put has remove split split_from lower
    strip words replace_char int_value int_of_text uuid_of_text nat_eq string_eq get_status
    set_status
test_zeros = (refl, refl)

abbrev zeros : State World
zeros = record start { options = ("--key", text "00") ∷ [] }

settle_key_zeros_example :
    (settle_key host digest true zeros ≡ (ok tt, zeros))
    × HasEntry "--key" (text "") (trim_key host digest zeros).1
unfolding get nat_eq string_eq
settle_key_zeros_example = settle_key_zeros host digest true "00" zeros refl refl refl refl
