-- ===== src/Scsi/Check/Tests.antt =====
-- The watchdog check of a node whose key is gone from its device, and of one whose key is there.
use fence_agents.Base.{
  ◌≡◌, refl, ℕ, ◌+◌, Bool, true, false, String, none, some, [], ◌∷◌, ◌==◌, string_eq, nat_eq,
  if◌then◌else◌,
}
use fence_agents.Base.Int.{pos}
use fence_agents.Dict.{get, put, has}
use fence_agents.Exec.{ok}
use fence_agents.State.{State}
use fence_agents.Text.{split_from, lower, strip}
use fence_agents.Text.Number.{int_of_text}
use fence_agents.Text.Decimal.{decimal_of_text}
use fence_agents.Scsi.{Host}
use fence_agents.Scsi.Check.{scsi_check}
use fence_agents.Scsi.Check.Reset.{Reset, scsi_check-Reset}
use fence_agents.Watchdog.{Machine}
use fence_agents.Watchdog.Settings.{settings}

-- how often the check slept, and whether it reset the node
abbrev World : Type 0
World = ℕ × Bool

abbrev host : String → Host World
host keys = record {
  run_command = λ command s. (
    ok (
        if command == "@SG_PERSIST_PATH@ -n -i -k -d /dev/sda"
        then record { rc = pos 0; out = keys; err = "" }
        else record { rc = pos 0; out = ""; err = "" }),
    s,
  );
  exists = λ path w. true;
  is_block = λ path w. true;
  key_line = λ w. some "AB\n";
  realpath = λ path w. path;
  listdir = λ path w. none;
  write_file = λ path content w. (true, w);
  read_file = λ path w. if path == "@STORE_PATH@.dev" then some "/dev/sda\n" else none;
  open_append = λ path w. (if path == "@STORE_PATH@.dev" then some "/dev/sda\n" else some "", w);
  append_file = λ path content w. w;
}

abbrev machine : Machine World
machine = record {
  pause = λ d w. (w.0 + 1, w.1);
  reset = λ w. (w.0, true);
  stonith = λ w. some "# settings\nRETRY=2\nretry-sleep = 0.5\n";
}

abbrev start : State World
start = record {
  options = [];
  device_opt = [];
  plugs = none;
  all_opt = [];
  printed = [];
  logged = [];
  world = (0, false);
}

test_settings :
    (settings "# settings\nRETRY=2\nretry-sleep = 0.5\n"
      ≡ ("RETRY", "2") ∷ ("retry-sleep", "0.5") ∷ [])
    × (settings "a=b=c\n" ≡ ("a=b", "c") ∷ [])
unfolding settings nat_eq
test_settings = (refl, refl)

-- An empty value takes the next line for itself.
test_empty_setting : settings "verbose=\nretry=3\n" ≡ ("verbose", "retry=3") ∷ []
unfolding settings nat_eq
test_empty_setting = refl

abbrev lost : String
lost = "  keys:\n    0x1\n"

abbrev after : State World
after = (scsi_check (host lost) machine true ("fence_scsi_check" ∷ []) start).1

check_run :
    scsi_check (host lost) machine true ("fence_scsi_check" ∷ []) start ≡ (ok (pos 2), after)
unfolding scsi_check settings decimal_of_text int_of_text get put has split_from lower strip nat_eq
    string_eq
check_run = refl

test_reset : after.world ≡ (2, true)
unfolding scsi_check settings decimal_of_text int_of_text get put has split_from lower strip nat_eq
    string_eq
test_reset = refl

test_registered :
    (scsi_check (host "  keys:\n    0xab\n") machine true ("fence_scsi_check" ∷ []) start).0
    ≡ ok (pos 0)
unfolding scsi_check settings decimal_of_text int_of_text get put has split_from lower strip nat_eq
    string_eq
test_registered = refl

scsi_check-Reset_example : Reset (host lost) machine true start after
unfolding string_eq
scsi_check-Reset_example =
    scsi_check-Reset (host lost) machine true ("fence_scsi_check" ∷ []) start refl check_run
