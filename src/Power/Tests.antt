-- ===== src/Power/Tests.antt =====
-- The theorems on the multi-plug functions at a switch with the plugs 1, 2 and 3.
use fence_agents.Base.{
  ◌≡◌, refl, ◌≢◌, ◌↔◌, String, true, false, List, [], ◌∷◌, some, All, arith, ◌==◌, string_eq,
  nat_eq, if◌then◌else◌,
}
use fence_agents.Base.Int.{pos}
use fence_agents.Dict.{get, put, has}
use fence_agents.Text.Uuid.{uuid_of_text}
use fence_agents.Text.Number.{int_of_text}
use fence_agents.Exec.{Exec, ok, diverged}
use fence_agents.State.{State, text, int_value}
use fence_agents.Device.{
  Switch, switch_system, switch_set, switch_get, switch_set-Keeps, switch_get-Keeps,
  switch_set-Ends, switch_get-Ends, sync_off, start,
}
use fence_agents.Power.Responsive.{
  Timing, Settles, now, later, passed, async_set_multi_power-responsive,
}
use fence_agents.Power.{
  command_plugs, plugs_of, get_multi_power, async_set_multi_power, sync_set_multi_power,
}
use fence_agents.Power.Status.{Reads, get_multi_power-off, get_multi_power-masked}
use fence_agents.Power.Confirm.{Confirmed, async_set_multi_power-Confirmed}
use fence_agents.Power.Sync.{AllTried, sync_set_multi_power-AllTried, sync_set_multi_power_zero}
use fence_agents.Power.Polling.{async_set_multi_power-Ends}

-- the plugs of a run, split already
abbrev ready : String → State Switch
ready action = record (start action) { plugs = some ("1" ∷ "2" ∷ []) }

abbrev dark : State Switch
dark = record (ready "off") { world = record { powered = "3" ∷ []; clock = 7 } }

get_multi_power-off_example :
    (get_multi_power (some switch_get) dark
      ≡ (ok "off", (get_multi_power (some switch_get) dark).1))
    ↔ ((statuses : List String) × Reads switch_get
          (plugs_of dark)
          dark
          statuses
          (get_multi_power (some switch_get) dark).1
        × All (λ r. r ≡ "off") statuses)
get_multi_power-off_example =
    get_multi_power-off switch_get dark (get_multi_power (some switch_get) dark).1

-- plug 1 is off, plug 2 is on
abbrev mixed : State Switch
mixed = record (ready "on") { world = record { powered = "2" ∷ []; clock = 0 } }

mixed-Reads :
    Reads switch_get
      (plugs_of mixed)
      mixed
      ("off" ∷ "on" ∷ [])
      (get_multi_power (some switch_get) mixed).1
unfolding get_multi_power string_eq nat_eq get put uuid_of_text
mixed-Reads = (_, refl, (_, refl, refl))

get_multi_power-masked_example :
    get_multi_power (some switch_get) mixed ≡ (ok "on", (get_multi_power (some switch_get) mixed).1)
get_multi_power-masked_example =
    get_multi_power-masked switch_get mixed (get_multi_power (some switch_get) mixed).1 ("off" ∷ [])
      mixed-Reads

async_returns :
    async_set_multi_power switch_system switch_set switch_get 20 1 (ready "off")
    ≡ (ok true, (async_set_multi_power switch_system switch_set switch_get 20 1 (ready "off")).1)
unfolding async_set_multi_power string_eq nat_eq get put has uuid_of_text
async_returns = refl

async_set_multi_power-Confirmed_example :
    Confirmed switch_get
      (async_set_multi_power switch_system switch_set switch_get 20 1 (ready "off")).1
async_set_multi_power-Confirmed_example =
    async_set_multi_power-Confirmed switch_system switch_get switch_set 20 1 (ready "off")
      (async_set_multi_power switch_system switch_set switch_get 20 1 (ready "off")).1 async_returns

reads_twenty : int_value (text "20") ≡ some (pos 20)
unfolding int_value int_of_text
reads_twenty = refl

has_timeout : get (ready "off").options "--power-timeout" ≡ some (text "20")
unfolding get string_eq
has_timeout = refl

async_set_multi_power-Ends_example :
    (async_set_multi_power switch_system switch_set switch_get 20 3 (ready "off")).0 ≢ diverged
async_set_multi_power-Ends_example =
    async_set_multi_power-Ends (text "20") (pos 20) reads_twenty switch_system switch_get
      (switch_get-Keeps "--power-timeout" (text "20")) (switch_get-Ends _) switch_set
      (switch_set-Keeps "--power-timeout" (text "20")) (switch_set-Ends _) (omega arith) 20
      (omega arith) 3 (ready "off") has_timeout

sync_returns :
    sync_set_multi_power switch_system sync_off 2 (ready "off")
    ≡ (ok true, (sync_set_multi_power switch_system sync_off 2 (ready "off")).1)
unfolding sync_set_multi_power string_eq nat_eq get put has uuid_of_text
sync_returns = refl

sync_set_multi_power-AllTried_example :
    AllTried switch_system sync_off 2
      (plugs_of (ready "off"))
      (ready "off")
      (sync_set_multi_power switch_system sync_off 2 (ready "off")).1
sync_set_multi_power-AllTried_example =
    sync_set_multi_power-AllTried switch_system sync_off 1 (ready "off")
      (sync_set_multi_power switch_system sync_off 2 (ready "off")).1 sync_returns

sync_set_multi_power_zero_example :
    (sync_set_multi_power switch_system sync_off 0 (ready "on")
      ≡ sync_set_multi_power switch_system (λ s. (ok false, s)) 0 (ready "on"))
    × ((sync_set_multi_power switch_system sync_off 0 (ready "on")).0 ≢ ok false)
sync_set_multi_power_zero_example =
    sync_set_multi_power_zero switch_system sync_off (λ s. (ok false, s)) (ready "on")

-- A switch that shows the old status until a second has passed.
abbrev slow_get : Exec (State Switch) String
slow_get s = if s.world.clock == 0 then (ok "on", s) else switch_get s

abbrev sent : State Switch
sent = (command_plugs switch_system switch_set ("1" ∷ "2" ∷ []) (ready "off")).1

abbrev slow_status : Exec (State Switch) String
slow_status = get_multi_power (some slow_get)

timing : Timing "off" 20 1 (slow_status sent).1
unfolding get_multi_power command_plugs get put uuid_of_text int_of_text int_value string_eq nat_eq
timing = record {
  action_entry = refl;
  limit_value = text "20";
  limit_entry = refl;
  limit_read = refl;
  pause_value = text "1";
  pause_entry = refl;
  pause_read = refl;
}

abbrev second : State Switch
second = passed switch_system "off" 20 1 slow_status (slow_status sent).1

late-Timing : Timing "off" 20 1 (slow_status second).1
unfolding get_multi_power command_plugs get put uuid_of_text int_of_text int_value string_eq nat_eq
late-Timing = record {
  action_entry = refl;
  limit_value = text "20";
  limit_entry = refl;
  limit_read = refl;
  pause_value = text "1";
  pause_entry = refl;
  pause_read = refl;
}

sent-Settles : Settles switch_system "off" 20 1 slow_status 1 sent
unfolding get_multi_power command_plugs get put uuid_of_text int_of_text int_value string_eq nat_eq
sent-Settles =
    later {n = 0} {r = "on"} {t = (slow_status sent).1} refl refl timing
      (now {t = (slow_status second).1} refl late-Timing)

commanded : command_plugs switch_system switch_set ("1" ∷ "2" ∷ []) (ready "off") ≡ (ok tt, sent)
unfolding command_plugs get put uuid_of_text int_of_text int_value string_eq nat_eq
commanded = refl

async_set_multi_power-responsive_example :
    (t : State Switch) × (async_set_multi_power switch_system switch_set slow_get 20 1 (ready "off")
      ≡ (ok true, t))
async_set_multi_power-responsive_example =
    async_set_multi_power-responsive switch_system "off" 20 1 switch_set slow_get 1 20 0
      (ready "off") sent (omega arith) (omega arith) commanded sent-Settles
