-- ===== src/Mpath/Registry.antt =====
-- Persistent reservations as SPC-3 has them, and what `mpathpersist` does with them. This is the view
-- that agents/mpath/fence_mpath.py has of its devices.
use fence_agents.Base.{
  ℕ, ◌+◌, String, ◌<>◌, ◌≡◌, Bool, true, false, not, ◌&&◌, Option, none, some, List, [], ◌∷◌,
  contains, outside, ◌==◌, string_eq, if◌then◌else◌,
}
use fence_agents.Base.Int.{pos}
use fence_agents.Dict
use fence_agents.Dict.{Dict}
use fence_agents.Exec.{ok}
use fence_agents.State.{State, Value, text}
use fence_agents.Scsi.{Host, Ran}
use fence_agents.Scsi.Keys.{registration_keys}
use fence_agents.Scsi.Status.{is_missing}
use fence_agents.Mpath.Keys.{reservation_key}

-- For each device the keys that are registered with it, and the key that holds its reservation.
pub record Registry : Type 0 where
  pub keys : String → List String
  pub holder : String → Option String

-- the holder after a preemption: a reservation of the key that is removed passes on
abbrev pub passed_on : String → String → Option String → Option String
passed_on host_key key none = none
passed_on host_key key (some holder) = if holder == key then some host_key else some holder

-- PREEMPT AND ABORT of a key under another key, which has to be registered
abbrev pub preempted : String → String → String → Registry → Registry
preempted host_key key dev m =
    if contains (m.keys dev) host_key
    then record {
      keys = λ d. if d == dev then outside (key ∷ []) (m.keys d) else m.keys d;
      holder = λ d. if d == dev then passed_on host_key key (m.holder d) else m.holder d;
    }
    else m

module _ {W : Type 0} (host : Host W) (view : W → Registry) (path key : String) where
  -- The commands that `fence_mpath` runs for a device do what the registry says: two of them read it
  -- and succeed, and the third preempts the key under the key of the node.
  pub record IsTool (host_key dev : String) : Type 0 where
    pub exists : (w : W) → host.exists dev w ≡ true
    pub is_block : (w : W) → host.is_block dev w ≡ true
    pub reads_keys :
        (s : State W)
        → (out : String) × (host.run_command (path <> " -i -k -d " <> dev) s
            ≡ (ok (record { rc = pos 0; out = out; err = "" }), s))
          × (registration_keys out ≡ (view s.world).keys dev)
    pub reads_holder :
        (s : State W)
        → (out : String) × (host.run_command (path <> " -i -r -d " <> dev) s
            ≡ (ok (record { rc = pos 0; out = out; err = "" }), s))
          × (reservation_key out ≡ (view s.world).holder dev)
    pub preempts :
        (s : State W)
        → (ran : Ran) × (w : W) × (host.run_command
              (path <> " -o --preempt-abort --prout-type=5 --param-rk=" <> host_key
                <> " --param-sark=" <> key <> " -d " <> dev)
              s
            ≡ (ok ran, record s { world = w }))
          × (view w ≡ preempted host_key key dev (view s.world))

-- The options of a run that fences this key without sudo.
pub record Config (path key : String) (options : Dict Value) : Type 0 where
  pub path_entry : Dict.get options "--mpathpersist-path" ≡ some (text path)
  pub key_entry : Dict.get options "--plug" ≡ some (text key)
  pub no_sudo : Dict.has options "--use-sudo" ≡ false

-- What "off" has to do with one device, with all of them, and how many are not as they have to be then.
abbrev pub fence_device : (String → String) → String → String → Registry → Registry
fence_device own key dev m = if contains (m.keys dev) key then preempted (own dev) key dev m else m

abbrev pub fence_devices : (String → String) → String → List String → Registry → Registry
fence_devices own key [] m = m
fence_devices own key (dev ∷ devices) m = fence_devices own key devices (fence_device own key dev m)

abbrev pub is_clear : String → Registry → String → Bool
is_clear key m dev = not (contains (m.keys dev) key) && not (is_missing (m.holder dev))

abbrev pub unclear : String → Registry → List String → ℕ
unclear key m [] = 0
unclear key m (dev ∷ devices) = (if is_clear key m dev then 0 else 1) + unclear key m devices
