-- ===== src/Device.antt =====
-- A power switch for runs and witnesses: the outlets that are on, and how many more readings it
-- answers before a command takes effect. It is no code of the repository.
use fence_agents.Base.{
  ℕ, ◌+◌, String, Bool, none, some, List, [], ◌∷◌, contains, erase, ◌==◌, string_eq, if◌then◌else◌,
}
use fence_agents.Dict
use fence_agents.Exec.{Exec, ok, raised, eof}
use fence_agents.Exec.Rules.{Keeps, Ends}
use fence_agents.State.{State, System, Value, text}
use fence_agents.State.Entries.{HasEntry}
use fence_agents.Power.{Agent}

pub record Switch : Type 0 where
  pub powered : List String
  pub clock : ℕ

abbrev pub switch_system : System Switch
switch_system = record {
  pass = λ n w. record w { clock = w.clock + n };
  is_file = λ path w. path == "key";
  popen = λ command w. (command, w);
  environ = λ name w. none;
  open_log = λ path w. (path == "log", w);
}

-- the plug that `select` wrote
abbrev pub chosen : State Switch → String
chosen s = elim (Dict.get s.options "--plug") [
  | none ↦ ""
  | some (text plug) ↦ plug
  | some other ↦ ""
]

abbrev pub commanded : State Switch → String
commanded s = elim (Dict.get s.options "--action") [
  | none ↦ ""
  | some (text a) ↦ a
  | some other ↦ ""
]

abbrev pub switch_set : Exec (State Switch) (Unit {0})
switch_set s =
    let others = erase (chosen s) s.world.powered in
    (
      ok tt,
      record s {
        world = record s.world {
          powered = if commanded s == "on" then chosen s ∷ others else others;
        };
      },
    )

abbrev pub switch_get : Exec (State Switch) String
switch_get s = (ok (if contains s.world.powered (chosen s) then "on" else "off"), s)

abbrev pub switch_agent : Agent Switch
switch_agent = record {
  set_power = some switch_set;
  get_power = some switch_get;
  get_outlet_list = none;
  reboot_cycle = none;
  sync_set_power = none;
}

pub switch_set-Keeps : (key : String) (value : Value) → Keeps (HasEntry key value) switch_set
switch_set-Keeps key value = record { at = λ s h. h }

pub switch_get-Keeps : (key : String) (value : Value) → Keeps (HasEntry key value) switch_get
switch_get-Keeps key value = record { at = λ s h. h }

-- two plugs that are on, with the options that a run has
abbrev pub start : String → State Switch
start action = record {
  options =
      ("--action", text action)
      ∷ ("--plug", text "1,2")
      ∷ ("--plug-separator", text ",")
      ∷ ("--power-wait", text "0")
      ∷ ("--power-timeout", text "20")
      ∷ ("--stonith-status-sleep", text "1")
      ∷ ("--retry-on", text "1")
      ∷ [];
  device_opt = "port" ∷ "ipaddr" ∷ [];
  plugs = none;
  all_opt = [];
  printed = [];
  logged = [];
  world = record { powered = "1" ∷ "2" ∷ "3" ∷ []; clock = 0 };
}

-- an agent whose connection is closed when it is asked for the status
abbrev pub closed_agent : Agent Switch
closed_agent = record switch_agent { get_power = some (λ s. (raised eof, s)) }

-- a synchronous agent that reports success when the plug was on and turns it off
abbrev pub sync_off : Exec (State Switch) Bool
sync_off s = (
  ok (contains s.world.powered (chosen s)),
  record s { world = record s.world { powered = erase (chosen s) s.world.powered } },
)

pub switch_set-Ends : (P : State Switch → Type 0) → Ends P switch_set
switch_set-Ends P = record { at = λ s h e. cc }

pub switch_get-Ends : (P : State Switch → Type 0) → Ends P switch_get
switch_get-Ends P = record { at = λ s h e. cc }
