-- ===== src/Snmp/Apc.antt =====
-- agents/apc_snmp/fence_apc_snmp.py. Its global variables are a part of the world.
pub mod Devices
pub mod Main
pub mod Pinned
mod Tests
use Prim.Native.Char.{code}
use fence_agents.Base.{
  ℕ, String, ◌<>◌, Bool, true, false, not, ◌&&◌, ◌||◌, Option, none, some, List, [], ◌∷◌, leb, map,
  ◌==◌, string_eq, nat_eq, if◌then◌else◌,
}
use fence_agents.Base.Int.{ℤ, pos}
use fence_agents.Dict
use fence_agents.Exec.{
  Exec, pure, raise, gets, modify, value_error, attribute_error, type_error, other_error, ◌>>=◌,
  ◌>>◌,
}
use fence_agents.State.{State, Value, option}
use fence_agents.Text.{split_from, lstrip_by, rstrip_by}
use fence_agents.Text.Number.{int_of_text, text_of_int}
use fence_agents.Failure.{fail_usage}
use fence_agents.Power.{is_text}
use fence_agents.Action.{as_text}
use fence_agents.Snmp.{Shell, get, set, walk}
use Devices.{Device, agents_dir, device_or_oldest}

-- The global variables `device`, `port_id` and `switch_id`, and the rest of the world.
pub record Globals (V : Type 0) : Type 0 where
  pub device : Option Device
  pub port_id : Option ℤ
  pub switch_id : Option ℤ
  pub outside : V

all_digits : String → Bool
all_digits String.[] = true
all_digits (String.◌∷◌ c s) = leb b'0' (code c) && leb (code c) b'9' && all_digits s

-- s.isdigit()
unfoldable pub is_digits : String → Bool
unfolding all_digits string_eq
is_digits s = not (s == "") && all_digits s

is_quote : ℕ → Bool
unfolding nat_eq
is_quote c = c == b'"'

-- s.strip('"')
unfoldable pub strip_quotes : String → String
unfolding lstrip_by rstrip_by is_quote
strip_quotes s = rstrip_by is_quote (lstrip_by is_quote s)

-- the parts of an identifier, the last one first
reversed : List String → List String → List String
reversed [] done = done
reversed (part ∷ parts) done = reversed parts (part ∷ done)

unfoldable pub parts_from_end : String → List String
unfolding split_from reversed
parts_from_end oid = reversed (split_from "." 0 oid) []

two_back : List String → List String
two_back (last ∷ middle ∷ parts) = parts
two_back parts = []

module _ {V : Type 0} where
  abbrev pub lifted : Shell V → Shell (Globals V)
  lifted shell = record {
    frun = λ command limit w.
        let (result, v) = shell.frun command limit w.outside in (result, record w { outside = v });
  }

  abbrev index_error : {A : Type 0} → Exec (State (Globals V)) A
  index_error = raise (other_error "list index out of range")

  -- int(t[len(t)-1]), for the parts from the end
  int_at_end : List String → Exec (State (Globals V)) ℤ
  unfolding int_of_text
  int_at_end [] = index_error
  int_at_end (part ∷ parts) = elim (int_of_text 10 part) [
    | none ↦ raise value_error
    | some n ↦ pure n
  ]

  set_port : ℤ → Exec (State (Globals V)) (Unit {0})
  set_port n = modify (λ s. record s { world = record (s.world) { port_id = some n } })

  set_switch : ℤ → Exec (State (Globals V)) (Unit {0})
  set_switch n = modify (λ s. record s { world = record (s.world) { switch_id = some n } })

  -- the identifier of the port's entry
  unfoldable pub entry_oid : Device → String → Option ℤ → Option ℤ → Exec (State (Globals V)) String
  unfolding text_of_int
  entry_oid device oid switch_id none = raise type_error
  entry_oid device oid none (some port) =
      if device.has_switches then raise type_error else pure (oid <> text_of_int port)
  entry_oid device oid (some switch) (some port) = pure (
      if device.has_switches
      then oid <> text_of_int switch <> ".1." <> text_of_int port
      else oid <> text_of_int port)

  numbered_outlet : String → List String → Exec (State (Globals V)) String
  numbered_outlet port (middle ∷ switch ∷ parts) = pure (switch <> ":" <> port)
  numbered_outlet port few = index_error

  -- `device` where the code takes it as it is: None has no such attributes
  unfoldable pub found_device : Option Device → Exec (State (Globals V)) Device
  found_device none = raise attribute_error
  found_device (some device) = pure device

  module _ (shell : Shell V) where
    set_device : Option Device → Exec (State (Globals V)) (Unit {0})
    unfolding device_or_oldest
    set_device device =
        modify
          (λ s. record s { world = record (s.world) { device = some (device_or_oldest device) } })

    device_for : List (List String) → Exec (State (Globals V)) (Unit {0})
    unfolding Dict.get set_device
    device_for ((oid ∷ apc_type ∷ more) ∷ []) = set_device (Dict.get agents_dir apc_type)
    device_for (few ∷ []) = index_error
    device_for rows = set_device none

    unfoldable pub apc_set_device : Exec (State (Globals V)) (Unit {0})
    unfolding ◌>>=◌ walk device_for
    apc_set_device = do apc_type ← walk (lifted shell) ".1.3.6.1.2.1.1.2.0" 0; device_for apc_type

    known_device : Option Device → Exec (State (Globals V)) Device
    unfolding ◌>>=◌ apc_set_device
    known_device (some device) = pure device
    known_device none = do
      apc_set_device
      device ← gets (λ s. s.world.device)
      pure (device_or_oldest device)

    unfoldable pub the_device : Exec (State (Globals V)) Device
    unfolding ◌>>=◌ known_device
    the_device = do device ← gets (λ s. s.world.device); known_device device

    -- The numbers are taken from the entry with the name; a later one counts.
    take_row : Device → String → List String → Exec (State (Globals V)) (Unit {0})
    unfolding ◌>>=◌ strip_quotes parts_from_end int_at_end two_back set_port set_switch
    take_row device plug (oid ∷ name ∷ more) =
        if not (strip_quotes name == plug) then pure tt else do
          port ← int_at_end (parts_from_end oid)
          set_port port
          if device.has_switches
              then (do switch ← int_at_end (two_back (parts_from_end oid)); set_switch switch)
              else pure tt
    take_row device plug few = index_error

    unfoldable pub search_table :
        Device → String → List (List String) → Exec (State (Globals V)) (Unit {0})
    unfolding ◌>>=◌ take_row
    search_table device plug [] = pure tt
    search_table device plug (row ∷ table) = do
      take_row device plug row
      search_table device plug table

    text_of : String → Exec (State (Globals V)) String
    unfolding ◌>>=◌ option as_text
    text_of key = do value ← option key; as_text value

    -- whether plug and switch are numbers; the switch is looked at where there are some
    numbered : Device → String → Exec (State (Globals V)) Bool
    unfolding ◌>>=◌ is_digits text_of
    numbered device plug =
        if not (is_digits plug)
        then pure false
        else if not device.has_switches
        then pure true
        else (do switch ← text_of "--switch"; pure (is_digits switch))

    take_numbers : Device → String → Exec (State (Globals V)) (Unit {0})
    unfolding ◌>>=◌ int_at_end set_port set_switch text_of
    take_numbers device plug = do
      port ← int_at_end (plug ∷ [])
      set_port port
      if device.has_switches
          then (do
            switch ← text_of "--switch"
            number ← int_at_end (switch ∷ [])
            set_switch number)
          else pure tt

    require_port : String → Option ℤ → Exec (State (Globals V)) (Unit {0})
    unfolding fail_usage
    require_port plug none = fail_usage ("Can't find port with name " <> plug <> "!") true
    require_port plug (some port) = pure tt

    unfoldable pub apc_resolv_port_id : Exec (State (Globals V)) (Unit {0})
    unfolding ◌>>=◌ the_device text_of numbered take_numbers walk search_table require_port
    apc_resolv_port_id = do
      device ← the_device
      plug ← text_of "--plug"
      by_number ← numbered device plug
      if by_number then take_numbers device plug else (do
        table ← walk (lifted shell) device.outlet_table_oid 30
        search_table device plug table)
      port_id ← gets (λ s. s.world.port_id)
      require_port plug port_id

    -- if port_id == None: apc_resolv_port_id(conn, options)
    resolve_unless : Option ℤ → Exec (State (Globals V)) (Unit {0})
    unfolding apc_resolv_port_id
    resolve_unless none = apc_resolv_port_id
    resolve_unless (some port) = pure tt

    unfoldable pub oid_found : (Device → String) → Exec (State (Globals V)) (Device × String)
    unfolding ◌>>=◌ found_device entry_oid
    oid_found column = do
      known ← gets (λ s. s.world.device)
      device ← found_device known
      switch_id ← gets (λ s. s.world.switch_id)
      port_id ← gets (λ s. s.world.port_id)
      oid ← entry_oid device (column device) switch_id port_id
      pure (device, oid)

    -- The device and the identifier of the port's entry in a column.
    unfoldable pub oid_for : (Device → String) → Exec (State (Globals V)) (Device × String)
    unfolding ◌>>=◌ resolve_unless oid_found
    oid_for column = do known ← gets (λ s. s.world.port_id); resolve_unless known; oid_found column

    status_in : Device → List String → Exec (State (Globals V)) String
    unfolding text_of_int
    status_in device (oid ∷ status ∷ []) =
        pure (if status == text_of_int device.state_on then "on" else "off")
    status_in device fields = raise value_error

    unfoldable pub get_power_status : Exec (State (Globals V)) String
    unfolding ◌>>=◌ oid_for get status_in
    get_power_status = do
      found ← oid_for (λ device. device.status_oid)
      fields ← get (lifted shell) found.1 0
      status_in found.0 fields

    unfoldable pub set_power_status : Exec (State (Globals V)) (Unit {0})
    unfolding ◌>>=◌ oid_for set option
    set_power_status = do
      found ← oid_for (λ device. device.control_oid)
      action ← option "--action"
      set (lifted shell) found.1 (if is_text action "on" then found.0.turn_on else found.0.turn_off)
          0

    -- "%s:%s" % (switch, port), or the port alone
    outlet_number : Device → List String → Exec (State (Globals V)) String
    unfolding numbered_outlet
    outlet_number device [] = index_error
    outlet_number device (port ∷ parts) =
        if not device.has_switches then pure port else numbered_outlet port parts

    outlet_row : Device → List String → Exec (State (Globals V)) (String × String)
    unfolding ◌>>=◌ outlet_number strip_quotes parts_from_end
    outlet_row device (oid ∷ name ∷ more) = do
      number ← outlet_number device (parts_from_end oid)
      pure (number, strip_quotes name)
    outlet_row device few = index_error

    outlet_rows :
        Device → List (List String) → Dict.Dict String → Exec (State (Globals V)) (Dict.Dict String)
    unfolding ◌>>=◌ outlet_row Dict.put
    outlet_rows device [] result = pure result
    outlet_rows device (row ∷ rows) result = do
      outlet ← outlet_row device row
      outlet_rows device rows (Dict.put result outlet.0 outlet.1)

    -- The outlets with their names; the status of each is empty.
    unfoldable pub get_outlets_status :
        Exec (State (Globals V)) (List (String × String × Option String))
    unfolding ◌>>=◌ the_device walk outlet_rows
    get_outlets_status = do
      device ← the_device
      res_ports ← walk (lifted shell) device.outlet_table_oid 30
      result ← outlet_rows device res_ports []
      pure (map (λ outlet. (outlet.0, outlet.1, some "")) result)
