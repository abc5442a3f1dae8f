-- ===== src/Scsi/Check/Reset.antt =====
-- When `scsi_check` of agents/scsi/fence_scsi.py asks for a reset of the node.
use fence_agents.Base.{
  String, ◌≡◌, refl, ◌∙◌, Bool, true, false, Option, none, some, List, [], ◌∷◌, map, arith,
  Bool-cases, inl, inr, ◌==◌, string_eq, if◌then◌else◌,
}
use fence_agents.Base.Int.{pos}
use fence_agents.Exec.{Exec, ok, pure}
use fence_agents.Exec.Rules.{on_ok, pure-ok}
use fence_agents.State.{State, has_option, log}
use fence_agents.Scsi.{Host, get_registration_keys}
use fence_agents.Scsi.Monitor.{dev_read}
use fence_agents.Scsi.Check.{
  check_options, read_key, check_key, no_devices, check_devices, check_or_repair, scsi_check,
}
use fence_agents.Watchdog.{Machine, check_get_options, repair_status}
use fence_agents.Watchdog.Missed.{Lost, check_end-Lost}

module _ {W : Type 0} (host : Host W) (machine : Machine W) where
  abbrev keys_of_device : String → Exec (State W) (List String)
  keys_of_device dev = get_registration_keys host dev false

  -- The key was lost on all of the devices.
  record LostKey (hardreboot : Bool) (devices : List String) (key : String) (s t : State W)
      : Type 0 where
    named : (key == "") ≡ false
    lost : Lost machine keys_of_device hardreboot (map (λ dev. (dev, key)) devices) s t

  -- The key that was read was lost on all of the devices.
  record KeyLost (hardreboot : Bool) (devices : List String) (key : Option String) (s t : State W)
      : Type 0 where
    name : String
    read : key ≡ some name
    rest : LostKey hardreboot devices name s t

  -- What the check went through, from the start to the end: the settings, the devices of the file, the key
  -- of the node, and the loop in which it was lost on all of them.
  pub record Reset (hardreboot : Bool) (s t : State W) : Type 0 where
    pub settled : State W
    pub set_up : check_get_options machine (record s { options = check_options }) ≡ (ok tt, settled)
    pub first : String
    pub devs : List String
    pub listed : State W
    pub file : dev_read host false true settled ≡ (ok (some (first ∷ devs)), listed)
    pub key : String
    pub before : State W
    pub own_key : read_key host machine listed ≡ (ok (some key), before)
    pub named : (key == "") ≡ false
    pub lost :
        Lost machine keys_of_device hardreboot (map (λ dev. (dev, key)) (first ∷ devs)) before t

  zero-ne-two : pos 0 ≡ pos 2 → ⊥
  zero-ne-two h = ground arith

  no_devices-ok : (s : State W) {t : State W} → no_devices host machine s ≡ (ok (pos 2), t) → ⊥
  unfolding no_devices
  no_devices-ok s h = on_ok (has_option "--suppress-errors") _ s h λ suppressed u e h.
      on_ok (if suppressed then pure tt else log "No devices found") (λ _. pure (pos 0)) u h
        λ one v e h. zero-ne-two (pure-ok (pos 0) v h).0

  check_key-Reset :
      (hardreboot : Bool) (first : String) (devs : List String) (key : Option String) (s : State W)
      {t : State W}
      → check_key host machine hardreboot (first ∷ devs) key s ≡ (ok (pos 2), t)
      → KeyLost hardreboot (first ∷ devs) key s t
  unfolding check_key
  check_key-Reset hardreboot first devs none s h =
      on_ok (log "Key not found") (λ _. pure (pos 0)) s h
        λ one v e h. absurd (zero-ne-two (pure-ok (pos 0) v h).0)
  check_key-Reset hardreboot first devs (some key) s h = elim (Bool-cases (key == "")) [
    | inl missing ↦
        on_ok (log "Key not found") (λ _. pure (pos 0)) s (rw missing at h)
          λ one v e h. absurd (zero-ne-two (pure-ok (pos 0) v h).0)
    | inr named ↦ record {
      name = key;
      read = refl;
      rest = record {
        named = named;
        lost =
            check_end-Lost machine keys_of_device hardreboot
              (map (λ dev. (dev, key)) (first ∷ devs)) s (rw named at h);
      };
    }
  ]

  -- The devices that were read, and what happened to the key on them.
  record DevicesLost (hardreboot : Bool) (found : Option (List String)) (s t : State W)
      : Type 0 where
    first : String
    devs : List String
    some_found : found ≡ some (first ∷ devs)
    key : String
    before : State W
    own_key : read_key host machine s ≡ (ok (some key), before)
    rest : LostKey hardreboot (first ∷ devs) key before t

  check_devices-Reset :
      (hardreboot : Bool) (found : Option (List String)) (s : State W) {t : State W}
      → check_devices host machine hardreboot found s ≡ (ok (pos 2), t)
      → DevicesLost hardreboot found s t
  unfolding check_devices
  check_devices-Reset hardreboot none s h = absurd (no_devices-ok s h)
  check_devices-Reset hardreboot (some []) s h = absurd (no_devices-ok s h)
  check_devices-Reset hardreboot (some (first ∷ devs)) s h =
      on_ok (read_key host machine) _ s h λ key u e h.
        let lost = check_key-Reset hardreboot first devs key u h in
        record {
          first = first;
          devs = devs;
          some_found = refl;
          key = lost.name;
          before = u;
          own_key = e ∙ (λ i. (ok (lost.read i), u));
          rest = lost.rest;
        }

  -- Unless it is called to repair, the watchdog check answers 2 only where, after its settings were read, the
  -- file names devices, the node has a key, and the key was in none of the registrations read from each of
  -- these devices, one reading more than the number of retries says and none where that is negative. It
  -- then ends in the state after the last reading, but for the reset of the node if that was asked for.
  pub scsi_check-Reset :
      (hardreboot : Bool) (argv : List String) (s : State W) {t : State W}
      → repair_status argv ≡ none
      → scsi_check host machine hardreboot argv s ≡ (ok (pos 2), t)
      → Reset hardreboot s t
  unfolding scsi_check check_or_repair
  scsi_check-Reset hardreboot argv s no_repair h =
      on_ok (check_get_options machine) _ (record s { options = check_options }) (rw no_repair at h)
        λ _ u e h. on_ok (dev_read host false true) _ u h λ found v e' h.
          let lost = check_devices-Reset hardreboot found v h in
          record {
            settled = u;
            set_up = e;
            first = lost.first;
            devs = lost.devs;
            listed = v;
            file = e' ∙ (λ i. (ok (lost.some_found i), v));
            key = lost.key;
            before = lost.before;
            own_key = lost.own_key;
            named = lost.rest.named;
            lost = lost.rest.lost;
          }
