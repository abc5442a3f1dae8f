-- ===== src/Mpath/Tests.antt =====
-- A multipath device of two nodes, one of which is fenced.
use fence_agents.Base.{
  ◌≡◌, refl, ◌∙◌, String, Bool, true, false, Option, none, some, List, [], ◌∷◌, contains, outside,
  All, ◌==◌, string_eq, nat_eq, if◌then◌else◌,
}
use fence_agents.Base.Int.{pos}
use fence_agents.Dict.{Dict, get, has, put}
use fence_agents.Exec.{Exec, ok, exit}
use fence_agents.State.{State, text}
use fence_agents.State.Entries.{HasEntry}
use fence_agents.Text.{split_from, strip, words}
use fence_agents.Scsi.{Host, Ran}
use fence_agents.Scsi.Keys.{registration_keys}
use fence_agents.Mpath.{dev_read}
use fence_agents.Mpath.Keys.{reservation_key, has_entry, entries_of}
use fence_agents.Mpath.Status.{get_status, set_status}
use fence_agents.Mpath.Registry.{
  Registry, IsTool, Config, passed_on, preempted, fence_devices, unclear,
}
use fence_agents.Mpath.Refinement.{Attached, set_status_refines}
use fence_agents.Mpath.Fencing.{IsReady, set_status_succeeds}

-- whether the key b of the other node is registered
abbrev World : Type 0
World = Bool

abbrev success : String → Ran
success out = record { rc = pos 0; out = out; err = "" }

abbrev disk : String
disk = "/dev/m"

abbrev registered : Bool → String
registered true = "  keys:\n    0xa\n    0xb\n"
registered false = "  keys:\n    0xa\n"

abbrev reserved : Bool → String
reserved true = "  Key = 0xb\n  scope = LU_SCOPE\n"
reserved false = "  Key = 0xa\n  scope = LU_SCOPE\n"

abbrev pub preempt_command : String
preempt_command = "mp -o --preempt-abort --prout-type=5 --param-rk=a --param-sark=b -d /dev/m"

abbrev pub preempting : Exec (State World) Ran
preempting s = (ok (success ""), record s { world = false })

abbrev pub reading_keys : Exec (State World) Ran
reading_keys s = (ok (success (registered s.world)), s)

abbrev pub reading_holder : Exec (State World) Ran
reading_holder s = (ok (success (reserved s.world)), s)

abbrev pub doing_nothing : Exec (State World) Ran
doing_nothing s = (ok (success ""), s)

abbrev pub host : Host World
host = record {
  run_command = λ command.
      if command == preempt_command
      then preempting
      else if command == "mp -i -k -d /dev/m"
      then reading_keys
      else if command == "mp -i -r -d /dev/m"
      then reading_holder
      else doing_nothing;
  exists = λ path w. path == "/dev/m";
  is_block = λ path w. path == "/dev/m";
  key_line = λ w. none;
  realpath = λ path w. path;
  listdir = λ path w. none;
  write_file = λ path content w. (true, w);
  read_file = λ path w. if path == "run/mpath.devices" then some "/dev/m\ta\n" else none;
  open_append = λ path w. (if path == "run/mpath.devices" then some "/dev/m\ta\n" else some "", w);
  append_file = λ path content w. w;
}

abbrev registered_keys : Bool → List String
registered_keys true = "a" ∷ "b" ∷ []
registered_keys false = "a" ∷ []

abbrev holder : Bool → Option String
holder true = some "b"
holder false = some "a"

abbrev view : World → Registry
view w = record {
  keys = λ d. if d == "/dev/m" then registered_keys w else [];
  holder = λ d. if d == "/dev/m" then holder w else none;
}

abbrev fencing : State World
fencing = record {
  options =
      ("--action", text "off")
      ∷ ("--plug", text "b")
      ∷ ("--mpathpersist-path", text "mp")
      ∷ ("--store-path", text "run")
      ∷ [];
  device_opt = [];
  plugs = none;
  all_opt = [];
  printed = [];
  logged = [];
  world = true;
}

abbrev known : Dict String
known = (disk, "a") ∷ []

abbrev own : String → String
own dev = "a"

test_keys :
    (registration_keys (registered true) ≡ "a" ∷ "b" ∷ [])
    × (reservation_key "  key\n = 0Xb \n" ≡ some "b")
    × (reservation_key "\nkey=0xb" ≡ none)
unfolding registration_keys reservation_key split_from strip nat_eq string_eq
test_keys = (refl, refl, refl)

test_entries :
    (entries_of (" /dev/m \t a" ∷ "" ∷ "/dev/n b" ∷ []) []
      ≡ some ((disk, "a") ∷ ("/dev/n", "b") ∷ []))
    × (entries_of ("/dev/m" ∷ []) [] ≡ none)
    × (has_entry disk "a" true "/dev/n b\n/dev/m\ta\n" ≡ true)
    × (has_entry disk "a" true "/dev/m\tab\n" ≡ false)
unfolding entries_of has_entry words strip put nat_eq string_eq
test_entries = (refl, refl, refl, refl)

test_status : (get_status host (disk ∷ []) fencing).0 ≡ ok "on"
unfolding get_status get has split_from nat_eq string_eq
test_status = refl

keys_read : (w : Bool) → registration_keys (registered w) ≡ registered_keys w
unfolding registration_keys split_from nat_eq string_eq
keys_read true = refl
keys_read false = refl

holder_read : (w : Bool) → reservation_key (reserved w) ≡ holder w
unfolding reservation_key nat_eq string_eq
holder_read true = refl
holder_read false = refl

keys_after :
    (here w : Bool)
    → (if here then registered_keys false else []) ≡ (
        if here
        then outside ("b" ∷ []) (if here then registered_keys w else [])
        else if here
        then registered_keys w
        else [])
unfolding string_eq
keys_after true true = refl
keys_after true false = refl
keys_after false w = refl

holder_after :
    (here w : Bool)
    → (if here then holder false else none) ≡ (
        if here
        then passed_on "a" "b" (if here then holder w else none)
        else if here
        then holder w
        else none)
unfolding string_eq
holder_after true true = refl
holder_after true false = refl
holder_after false w = refl

abbrev after_preemption : Bool → Registry
after_preemption w = record {
  keys = λ d. if d == disk then outside ("b" ∷ []) ((view w).keys d) else (view w).keys d;
  holder = λ d. if d == disk then passed_on "a" "b" ((view w).holder d) else (view w).holder d;
}

view_after : (w : Bool) → view false ≡ after_preemption w
view_after w = λ i. record {
  keys = λ d. keys_after (d == disk) w i;
  holder = λ d. holder_after (d == disk) w i;
}

preempts : (w : Bool) → after_preemption w ≡ preempted "a" "b" disk (view w)
unfolding string_eq
preempts true = refl
preempts false = refl

tool : IsTool host view "mp" "b" "a" disk
unfolding string_eq
tool = record {
  exists = λ w. refl;
  is_block = λ w. refl;
  reads_keys = λ s. (registered s.world, refl, keys_read s.world);
  reads_holder = λ s. (reserved s.world, refl, holder_read s.world);
  preempts = λ s. (success "", false, refl, view_after s.world ∙ preempts s.world);
}

attached : All (Attached host view "mp" "b" own known) (disk ∷ [])
unfolding string_eq get
attached = (record { tool = tool; known_key = refl }, tt)

config : Config "mp" "b" fencing.options
unfolding string_eq get has
config = record { path_entry = refl; key_entry = refl; no_sudo = refl }

off_action : HasEntry "--action" (text "off") fencing
unfolding get string_eq
off_action = refl

file_read : dev_read host true fencing ≡ (ok (some known), fencing)
unfolding dev_read get put split_from strip words nat_eq string_eq
file_read = refl

set_status_refines_example :
    (view (set_status host (disk ∷ []) fencing).1.world
      ≡ fence_devices own "b" (disk ∷ []) (view true))
    × ((set_status host (disk ∷ []) fencing).0 ≡ (
        if unclear "b" (fence_devices own "b" (disk ∷ []) (view true)) (disk ∷ []) == 0
        then ok tt
        else exit 1))
set_status_refines_example =
    set_status_refines host view "mp" "b" own known (disk ∷ []) attached fencing config off_action
      file_read

ready : IsReady own "b" (view true) disk
unfolding string_eq
ready = record { registered = refl; other = refl; named = refl; reserved = refl }

set_status_succeeds_example :
    ((set_status host (disk ∷ []) fencing).0 ≡ ok tt)
    × All
        (λ dev.
          contains ((view (set_status host (disk ∷ []) fencing).1.world).keys dev) "b" ≡ false)
        (disk ∷ [])
    × ((dev k : String)
        → (k == "b") ≡ false
        → contains ((view (set_status host (disk ∷ []) fencing).1.world).keys dev) k
          ≡ contains ((view true).keys dev) k)
set_status_succeeds_example =
    set_status_succeeds own "b" host view "mp" known (disk ∷ []) attached fencing config off_action
      file_read (ready, tt)
