-- ===== src/Options/Defaults.antt =====
-- `_set_default_values` of lib/fencing.py.py.
pub mod Laws
pub mod Filled
use fence_agents.Base.{
  String, ◌<>◌, ◌≡◌, Bool, true, false, not, ◌&&◌, ◌||◌, Option, none, some, List, [], ◌∷◌,
  contains, ◌==◌, string_eq, if◌then◌else◌,
}
use fence_agents.Dict
use fence_agents.Exec.{Exec, pure, raise, gets, modify, key_error, ◌>>=◌, ◌>>◌}
use fence_agents.State.{State, Value, text, has_option, has_device_opt, put_option}
use fence_agents.Options.Spec.{Spec}

-- `.get("default", "0") == "1"`
abbrev pub is_one : Option String → Bool
is_one none = false
is_one (some default) = default == "1"

module _ {W : Type 0} where
  -- all_opt[opt]
  unfoldable pub spec_of : String → Exec (State W) Spec
  spec_of opt s = elim (Dict.get s.all_opt opt) [
    | none ↦ raise (key_error opt) s
    | some spec ↦ pure spec s
  ]

  -- spec["longopt"]
  unfoldable pub longopt_of : Spec → Exec (State W) String
  longopt_of spec = elim spec.longopt [ none ↦ raise (key_error "longopt") | some name ↦ pure name ]

  -- `flag in options or all_opt[opt].get("default", "0") == "1"`
  unfoldable pub given_or_default : String → String → Exec (State W) Bool
  unfolding ◌>>=◌ has_option spec_of
  given_or_default flag opt = do
    given ← has_option flag
    if given then pure true else do spec ← spec_of opt; pure (is_one spec.default)

  -- The port where `all_opt` has no default of its own; the flags are "community", "web" and "telnet".
  unfoldable pub port_by_protocol : Bool → Bool → Bool → Exec (State W) (Option String)
  unfolding ◌>>=◌ given_or_default
  port_by_protocol snmp web telnet = if snmp then pure (some "161") else do
    ssh ← given_or_default "--ssh" "secure"
    if ssh then pure (some "22") else do
      ssl ← given_or_default "--ssl" "ssl"
      if ssl then pure (some "443") else do
        secure ← given_or_default "--ssl-secure" "ssl_secure"
        if secure then pure (some "443") else do
          insecure ← given_or_default "--ssl-insecure" "ssl_insecure"
          if insecure
              then pure (some "443")
              else if web
              then pure (some "80")
              else pure (if telnet then some "23" else none)

  unfoldable pub own_or_by_protocol : Option String → Exec (State W) (Option String)
  unfolding ◌>>=◌ has_device_opt port_by_protocol
  own_or_by_protocol (some default) = pure (some default)
  own_or_by_protocol none = do
    snmp ← has_device_opt "community"
    web ← has_device_opt "web"
    telnet ← has_device_opt "telnet"
    port_by_protocol snmp web telnet

  -- The default port, if there is one.
  unfoldable pub default_port : Exec (State W) (Option String)
  unfolding ◌>>=◌ spec_of own_or_by_protocol
  default_port = do spec ← spec_of "ipport"; own_or_by_protocol spec.default

  -- all_opt["ipport"]["default"] = port
  unfoldable pub put_port_default : String → Exec (State W) (Unit {0})
  unfolding ◌>>=◌ spec_of
  put_port_default port = do
    spec ← spec_of "ipport"
    modify (λ s. record s {
      all_opt = Dict.put s.all_opt "ipport" (record spec { default = some port });
    })

  unfoldable pub put_port : Option String → Exec (State W) (Unit {0})
  unfolding ◌>>=◌ has_option put_option put_port_default
  put_port none = pure tt
  put_port (some port) = do put_option "--ipport" (text port); put_port_default port

  unfoldable pub set_default_port : Exec (State W) (Unit {0})
  unfolding ◌>>=◌ has_device_opt has_option default_port put_port
  set_default_port = do
    ported ← has_device_opt "ipport"
    given ← has_option "--ipport"
    if not ported || given then pure tt else do port ← default_port; put_port port

  -- if key not in options: options[key] = default
  unfoldable pub put_missing : String → String → Exec (State W) (Unit {0})
  unfolding ◌>>=◌ has_option put_option
  put_missing key default = do
    given ← has_option key
    if given then pure tt else put_option key (text default)

  unfoldable pub put_default : String → Spec → Option String → Exec (State W) (Unit {0})
  unfolding ◌>>=◌ longopt_of put_missing
  put_default opt spec none = pure tt
  put_default opt spec (some default) =
      if opt == "ipport"
      then pure tt
      else do name ← longopt_of spec; put_missing ("--" <> name) default

  unfoldable pub set_default : String → Exec (State W) (Unit {0})
  unfolding ◌>>=◌ spec_of put_default
  set_default opt = do spec ← spec_of opt; put_default opt spec spec.default

  unfoldable pub set_defaults : List String → Exec (State W) (Unit {0})
  unfolding ◌>>=◌ set_default
  set_defaults [] = pure tt
  set_defaults (opt ∷ opts) = do set_default opt; set_defaults opts

  unfoldable pub set_default_values : Exec (State W) (Unit {0})
  unfolding ◌>>=◌ set_default_port set_defaults
  set_default_values = do
    set_default_port
    device_opt ← gets (λ s. s.device_opt)
    set_defaults device_opt
