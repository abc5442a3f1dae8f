-- ===== src/Snmp/Apc/Pinned.antt =====
-- The port that agents/apc_snmp/fence_apc_snmp.py has found once.
use fence_agents.Base.{
  ℕ, String, ◌<>◌, ◌≡◌, refl, sym, ap, ◌∙◌, subst, Bool, true, false, Option, none, some, List, [],
  ◌∷◌,
}
use fence_agents.Base.Int.{ℤ}
use fence_agents.Dict
use fence_agents.Exec.{Exec, ok, pure, leave, ◌>>=◌}
use fence_agents.Exec.Rules.{Keeps, Keeps-pure, Keeps-raise, Keeps-bind, keeps_rules, bind_of_ok}
use fence_agents.State.{State, Value, text, number, put_option, log}
use fence_agents.State.Entries.{Keeps-option, Keeps-int_option}
use fence_agents.Text.Number.{text_of_int}
use fence_agents.Failure.{ErrorCode, fail, fail_usage}
use fence_agents.Snmp.{
  Shell, quoted, flag_for, flags_for, complete_missed_params, address, prepare_cmd, run_command,
  ran, run_shell, last_fields, get, set,
}
use fence_agents.Snmp.Apc.{
  Globals, lifted, found_device, entry_oid, resolve_unless, oid_found, oid_for, status_in,
  get_power_status, set_power_status,
}
use fence_agents.Snmp.Apc.Devices.{Device}

module _ {V : Type 0} where
  -- options["--plug"] = plug
  abbrev pub with_plug : Value → State (Globals V) → State (Globals V)
  with_plug plug s = record s { options = Dict.put s.options "--plug" plug }

  -- The identifier of the port in a column of the device that is known: the number of the port follows the
  -- text of the column, and on a device with switches the number of the switch comes before it.
  pub data IsEntry (port : ℤ) (column : Device → String) (globals : Globals V)
      : Device → String → Type 0 where
    alone :
        {device : Device}
        → globals.device ≡ some device
        → device.has_switches ≡ false
        → IsEntry port column globals device (column device <> text_of_int port)
    switched :
        {device : Device} {switch : ℤ}
        → globals.device ≡ some device
        → device.has_switches ≡ true
        → globals.switch_id ≡ some switch
        → IsEntry port column globals device
            (column device <> text_of_int switch <> ".1." <> text_of_int port)

module _ {V : Type 0} (port : ℤ) where
  abbrev pub IsPort : State (Globals V) → Type 0
  IsPort s = s.world.port_id ≡ some port

  abbrev Pins : {A : Type 0} → Exec (State (Globals V)) A → Type 0
  Pins m = Keeps IsPort m

  put_option-Pins : (key : String) (value : Value) → Pins (put_option key value)
  unfolding put_option
  put_option-Pins key value = record { at = λ s h. h }

  log-Pins : (line : String) → Pins (log line)
  unfolding log
  log-Pins line = record { at = λ s h. h }

  leave-Pins : {A : Type 0} (n : ℕ) → Pins (leave {A = A} n)
  leave-Pins n = record { at = λ s h. h }

  fail-Pins : {A : Type 0} (error_code : ErrorCode) → Pins (fail {A = A} error_code)
  unfolding fail
  fail-Pins error_code = search (keeps_rules, log-Pins, leave-Pins) depth 12

  fail_usage-Pins : (message : String) (stop : Bool) → Pins (fail_usage message stop)
  unfolding fail_usage
  fail_usage-Pins message stop = search (keeps_rules, log-Pins, leave-Pins) depth 12

  quoted-Pins : (value : Value) → Pins (quoted value)
  unfolding quoted
  quoted-Pins (text t) = Keeps-pure _
  quoted-Pins (number n) = Keeps-raise _

  flag_for-Pins : (key flag : String) → Pins (flag_for key flag)
  unfolding flag_for
  flag_for-Pins key flag = search (keeps_rules, Keeps-option, quoted-Pins) depth 12

  flags_for-Pins : (mapping : List (String × String)) → Pins (flags_for mapping)
  unfolding flags_for
  flags_for-Pins [] = Keeps-pure _
  flags_for-Pins ((key, flag) ∷ mapping) =
      Keeps-bind (flag_for key flag) _ (flag_for-Pins key flag) λ first.
        Keeps-bind (flags_for mapping) _ (flags_for-Pins mapping) λ rest. Keeps-pure (first <> rest)

  complete_missed_params-Pins : Pins complete_missed_params
  unfolding complete_missed_params
  complete_missed_params-Pins = search (keeps_rules, put_option-Pins) depth 14

  address-Pins : Pins address
  unfolding address
  address-Pins = search (keeps_rules, Keeps-option, quoted-Pins) depth 24

  prepare_cmd-Pins : (command : String) → Pins (prepare_cmd command)
  unfolding prepare_cmd
  prepare_cmd-Pins command =
      search (keeps_rules, complete_missed_params-Pins, flags_for-Pins, address-Pins) depth 20

  module _ (shell : Shell V) where
    run_shell-Pins : (command : String) (limit : ℤ) → Pins (run_shell (lifted shell) command limit)
    unfolding run_shell
    run_shell-Pins command limit = record { at = λ s h. h }

    ran-Pins :
        (command : String) (result : Option (String × Option ℤ))
        → Pins (ran (lifted shell) command result)
    unfolding ran
    ran-Pins command none = search (keeps_rules, fail_usage-Pins) depth 12
    ran-Pins command (some (output, none)) = fail-Pins _
    ran-Pins command (some (output, some res_code)) = search (keeps_rules, fail_usage-Pins) depth 12

    run_command-Pins :
        (command : String) (more : ℕ) → Pins (run_command (lifted shell) command more)
    unfolding run_command
    run_command-Pins command more =
        search (keeps_rules, Keeps-int_option, run_shell-Pins, ran-Pins) depth 14

    last_fields-Pins : (lines : List String) → Pins (last_fields lines)
    unfolding last_fields
    last_fields-Pins [] = Keeps-raise _
    last_fields-Pins (line ∷ []) = Keeps-pure _
    last_fields-Pins (line ∷ (next ∷ lines)) = last_fields-Pins (next ∷ lines)

    ruleset command_rules = (keeps_rules, Keeps-option, prepare_cmd-Pins, run_command-Pins)

    get-Pins : (oid : String) (more : ℕ) → Pins (get (lifted shell) oid more)
    unfolding get
    get-Pins oid more = search (command_rules, last_fields-Pins) depth 14

    set-Pins : (oid : String) (value : ℤ) (more : ℕ) → Pins (set (lifted shell) oid value more)
    unfolding set
    set-Pins oid value more = search command_rules depth 14

    found_device-Pins : (device : Option Device) → Pins (found_device device)
    unfolding found_device
    found_device-Pins none = Keeps-raise _
    found_device-Pins (some device) = Keeps-pure device

    entry_oid-Pins :
        (device : Device) (oid : String) (switch_id port_id : Option ℤ)
        → Pins (entry_oid device oid switch_id port_id)
    unfolding entry_oid
    entry_oid-Pins device oid switch_id none = Keeps-raise _
    entry_oid-Pins device oid none (some n) = search keeps_rules depth 12
    entry_oid-Pins device oid (some switch) (some n) = Keeps-pure _

    status_in-Pins : (device : Device) (fields : List String) → Pins (status_in shell device fields)
    unfolding status_in
    status_in-Pins device [] = Keeps-raise _
    status_in-Pins device (oid ∷ []) = Keeps-raise _
    status_in-Pins device (oid ∷ (status ∷ [])) = Keeps-pure _
    status_in-Pins device (oid ∷ (status ∷ (next ∷ fields))) = Keeps-raise _

    oid_found-Pins : (column : Device → String) → Pins (oid_found shell column)
    unfolding oid_found
    oid_found-Pins column = search (keeps_rules, found_device-Pins, entry_oid-Pins) depth 16

    -- With a known port nothing is looked up.
    oid_for_found :
        (column : Device → String) (s : State (Globals V))
        → IsPort s
        → oid_for shell column s ≡ oid_found shell column s
    unfolding oid_for resolve_unless ◌>>=◌
    oid_for_found column s h = rw h refl

    oid_for-Pins : (column : Device → String) → Pins (oid_for shell column)
    oid_for-Pins column = record {
      at = λ s h.
          subst (λ r. IsPort r.1) (sym (oid_for_found column s h)) ((oid_found-Pins column).at s h);
    }

    get_power_status-Pins : Pins (get_power_status shell)
    unfolding get_power_status
    get_power_status-Pins = search (keeps_rules, oid_for-Pins, get-Pins, status_in-Pins) depth 14

    set_power_status-Pins : Pins (set_power_status shell)
    unfolding set_power_status
    set_power_status-Pins = search (keeps_rules, Keeps-option, oid_for-Pins, set-Pins) depth 14

    entry_oid-alone :
        (device : Device) (oid : String) (switch_id : Option ℤ) (s : State (Globals V))
        → device.has_switches ≡ false
        → entry_oid device oid switch_id (some port) s ≡ (ok (oid <> text_of_int port), s)
    unfolding entry_oid
    entry_oid-alone device oid none s one = rw one refl
    entry_oid-alone device oid (some switch) s one = rw one refl

    entry_oid-switched :
        (device : Device) (oid : String) (switch : ℤ) (s : State (Globals V))
        → device.has_switches ≡ true
        → entry_oid device oid (some switch) (some port) s
          ≡ (ok (oid <> text_of_int switch <> ".1." <> text_of_int port), s)
    unfolding entry_oid
    entry_oid-switched device oid switch s many = rw many refl

    found_device-some :
        (found : Option Device) {device : Device} (s : State (Globals V))
        → found ≡ some device
        → found_device found s ≡ (ok device, s)
    unfolding found_device
    found_device-some found s h = rw h refl

    unfoldable entry_of : (Device → String) → Device → Exec (State (Globals V)) (Device × String)
    unfolding ◌>>=◌
    entry_of column device s =
        (entry_oid device (column device) s.world.switch_id s.world.port_id >>= λ oid.
        pure {A = Device × String} (device, oid))
          s

    oid_found-known :
        (column : Device → String) (s : State (Globals V)) {device : Device} {oid : String}
        → s.world.device ≡ some device
        → entry_oid device (column device) s.world.switch_id s.world.port_id s ≡ (ok oid, s)
        → oid_found shell column s ≡ (ok (device, oid), s)
    unfolding oid_found entry_of ◌>>=◌
    oid_found-known column s {device} known entry =
        bind_of_ok (found_device s.world.device) (entry_of column) s
          (found_device-some s.world.device s known)
        ∙ bind_of_ok (entry_oid device (column device) s.world.switch_id s.world.port_id)
            (λ oid. pure {S = State (Globals V)} {A = Device × String} (device, oid)) s entry

    -- The identifier is taken as it stands, without a look at the options.
    oid_found-IsEntry :
        (column : Device → String) (s : State (Globals V)) {device : Device} {oid : String}
        → IsPort s
        → IsEntry port column s.world device oid
        → oid_found shell column s ≡ (ok (device, oid), s)
    oid_found-IsEntry column s {device} h (alone known one) = oid_found-known column s known (
        ap (λ found. entry_oid device (column device) s.world.switch_id found s) h
        ∙ entry_oid-alone device (column device) s.world.switch_id s one)
    oid_found-IsEntry column s {device} h (switched {switch} known many at) =
        oid_found-known column s known (
          (λ i. entry_oid device (column device) (at i) (h i) s)
          ∙ entry_oid-switched device (column device) switch s many)

    -- Where the device and the port are known, and the switch if the device has switches, the identifier
    -- that is taken is that of this port, and on this switch, whatever plug the options name; and reading
    -- the status and setting the power keep the port.
    pub oid_for-IsPort :
        (column : Device → String) (plug : Value) (s : State (Globals V)) {device : Device}
        {oid : String}
        → IsPort s
        → IsEntry port column s.world device oid
        → (oid_for shell column (with_plug plug s) ≡ (ok (device, oid), with_plug plug s))
          × IsPort (get_power_status shell (with_plug plug s)).1
          × IsPort (set_power_status shell (with_plug plug s)).1
    oid_for-IsPort column plug s h entry = (
      oid_for_found column (with_plug plug s) h
          ∙ oid_found-IsEntry column (with_plug plug s) h entry,
      get_power_status-Pins.at _ h,
      set_power_status-Pins.at _ h,
    )
