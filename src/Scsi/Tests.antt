-- ===== src/Scsi/Tests.antt =====
-- A device of two nodes, one of which is fenced.
use fence_agents.Base.{
  ◌≡◌, refl, Bool, true, false, String, some, none, List, [], ◌∷◌, ◌==◌, string_eq, nat_eq,
  if◌then◌else◌,
}
use fence_agents.Base.Int.{pos}
use fence_agents.Base.{◌++◌}
use fence_agents.Dict.{get, has, put}
use fence_agents.Options.Table.{all_opt}
use fence_agents.Options.Dependency.{dependency_opt, add_dependency_options}
use fence_agents.Options.CommandLine.{verify_unique_getopt}
use fence_agents.Scsi.Options.{scsi_device_opt, define_new_opts}
use fence_agents.Exec.{ok, exit, raised, type_error}
use fence_agents.Scsi.Monitor.{do_action_monitor}
use fence_agents.State.{State, text}
use fence_agents.State.Entries.{HasEntry}
use fence_agents.Text.{lower, strip, split_from}
use fence_agents.Failure.{generic_status}
use fence_agents.Scsi.{Host, Ran}
use fence_agents.Scsi.Keys.{registration_keys}
use fence_agents.Scsi.Status.{set_status, get_status}
use fence_agents.Scsi.Status.Removal.{Cleared, set_status-Cleared, set_status-own_key}

-- whether the key ab of the other node is registered
abbrev pub World : Type 0
World = Bool

abbrev success : String → Ran
success out = record { rc = pos 0; out = out; err = "" }

abbrev pub host : Host World
host = record {
  run_command = λ command s.
      if command == "persist -n -o -A -T 5 -K 1 -S ab -d /dev/sda"
      then (ok (success ""), record s { world = false })
      else if command == "persist -n -i -k -d /dev/sda"
      then (
        ok (
            success (
              if s.world
              then "  registered keys:\n    0x1\n    0xab\n"
              else "  registered keys:\n    0x1\n")),
        s,
      )
      else if command == "persist -n -i -r -d /dev/sda"
      then (ok (success "  Key=0x1\n  scope: LU_SCOPE\n"), s)
      else (ok (success ""), s);
  exists = λ path w. path == "/dev/sda";
  is_block = λ path w. path == "/dev/sda";
  key_line = λ w. some "1\n";
  realpath = λ path w. path;
  listdir = λ path w. none;
  write_file = λ path content w. (true, w);
  read_file = λ path w. some "";
  open_append = λ path w. (some "", w);
  append_file = λ path content w. w;
}

abbrev fencing : String → State World
fencing key = record {
  options =
      ("--action", text "off")
      ∷ ("--key", text key)
      ∷ ("--sg_turs-path", text "turs")
      ∷ ("--sg_persist-path", text "persist")
      ∷ [];
  device_opt = [];
  plugs = none;
  all_opt = [];
  printed = [];
  logged = [];
  world = true;
}

abbrev disks : List String
disks = "/dev/sda" ∷ []

test_keys : registration_keys "  registered keys:\n    0x1\n    0xab\n" ≡ "1" ∷ "ab" ∷ []
unfolding registration_keys split_from nat_eq string_eq
test_keys = refl

test_status : (get_status host disks (fencing "ab")).0 ≡ ok "on"
unfolding get_status get has split_from nat_eq string_eq
test_status = refl

fenced :
    set_status host 5 disks (fencing "ab") ≡ (ok tt, (set_status host 5 disks (fencing "ab")).1)
unfolding set_status get has split_from strip lower nat_eq string_eq
fenced = refl

test_fenced : (set_status host 5 disks (fencing "ab")).1.world ≡ false
unfolding set_status get has split_from strip lower nat_eq string_eq
test_fenced = refl

-- With a key in upper case nothing is removed, and the run returns all the same.
test_upper_case :
    ((set_status host 5 disks (fencing "AB")).0 ≡ ok tt)
    × ((set_status host 5 disks (fencing "AB")).1.world ≡ true)
unfolding set_status get has split_from strip lower nat_eq string_eq
test_upper_case = (refl, refl)

off_action : HasEntry "--action" (text "off") (fencing "ab")
unfolding get string_eq
off_action = refl

set_status-Cleared_example :
    (u : State World) × Cleared host disks u (set_status host 5 disks (fencing "ab")).1
set_status-Cleared_example = set_status-Cleared host 5 disks (fencing "ab") off_action fenced

own_action : HasEntry "--action" (text "off") (fencing "1")
unfolding get string_eq
own_action = refl

own_entry : HasEntry "--key" (text "1") (fencing "1")
unfolding get string_eq
own_entry = refl

is_own : (lower (strip "1\n") == lower "1") ≡ true
unfolding lower strip nat_eq string_eq
is_own = refl

set_status-own_key_example :
    ((set_status host 5 disks (fencing "1")).0 ≡ exit generic_status)
    × ((set_status host 5 disks (fencing "1")).1.world ≡ (fencing "1").world)
set_status-own_key_example =
    set_status-own_key host 5 disks "1\n" "1" (fencing "1") own_action own_entry refl is_own

-- The table of the agent gives every option of its device a short option of its own.
abbrev scsi_opts : List String
scsi_opts = scsi_device_opt ++ add_dependency_options scsi_device_opt

test_options :
    (verify_unique_getopt scsi_opts (record (fencing "1") { all_opt = define_new_opts all_opt })).0
    ≡ ok tt
unfolding verify_unique_getopt define_new_opts all_opt dependency_opt add_dependency_options get put
    nat_eq string_eq
test_options = refl

abbrev monitored : State World
monitored = record (fencing "ab") {
  options =
      ("--sg_turs-path", text "turs")
      ∷ ("--sg_persist-path", text "persist")
      ∷ ("--vgs-path", text "vgs")
      ∷ [];
}

test_monitor : (do_action_monitor host monitored).0 ≡ ok 0
unfolding do_action_monitor get has split_from strip lower nat_eq string_eq
test_monitor = refl

-- Without the file of the devices the monitor action ends in a TypeError.
test_monitor_unreadable :
    (do_action_monitor (record host { read_file = λ path w. none }) monitored).0 ≡ raised type_error
unfolding do_action_monitor get has split_from strip lower nat_eq string_eq
test_monitor_unreadable = refl
