-- ===== src/Options/Defaults/Laws.antt =====
-- What `_set_default_values` leaves alone, and what it fills in.
use fence_agents.Base.{
  String, ◌<>◌, ◌≡◌, Bool, true, false, not, ◌||◌, Option, none, some, List, [], ◌∷◌, arith,
  contains, Bool-cases, inl, inr, ◌==◌, string_eq,
}
use fence_agents.Dict
use fence_agents.Dict.{get-put, has-put}
use fence_agents.Exec.{
  Exec, Outcome, ok, raised, exit, diverged, continue, pure, raise, gets, key_error,
}
use fence_agents.Exec.Rules.{
  Keeps, Keeps-pure, Keeps-raise, Keeps-gets, Keeps-if, Keeps-bind, keeps_rules,
}
use fence_agents.State.{State, Value, text, has_option, has_device_opt, put_option}
use fence_agents.State.Entries.{HasEntry, Keeps-has_option}
use fence_agents.Options.Spec.{Spec}
use fence_agents.Options.Defaults.{
  spec_of, longopt_of, is_one, port_by_protocol, own_or_by_protocol, put_default, given_or_default,
  default_port, put_port_default, put_port, set_default_port, put_missing, set_default,
  set_defaults, set_default_values,
}

or-right : (a b : Bool) → (a || b) ≡ false → b ≡ false
or-right a b h = ground arith

module _ {W : Type 0} {P : State W → Type 0} where
  pub Keeps-spec_of : (opt : String) → Keeps P (spec_of opt)
  unfolding spec_of
  Keeps-spec_of opt = record {
    at = λ s h.
        elim (Dict.get s.all_opt opt)
          as (λ found.
            P
              (elim found as (λ _. Outcome Spec × State W) [
                | none ↦ raise (key_error opt) s
                | some spec ↦ pure spec s
              ]).1) [ none ↦ h | some spec ↦ h ];
  }

  pub Keeps-longopt_of : (spec : Spec) → Keeps P (longopt_of spec)
  unfolding longopt_of
  Keeps-longopt_of spec =
      elim spec.longopt
        as (λ found. Keeps P (elim found as (λ _. Exec (State W) String) [
          | none ↦ raise (key_error "longopt")
          | some name ↦ pure name
        ])) [ none ↦ Keeps-raise (key_error "longopt") | some name ↦ Keeps-pure name ]

  pub Keeps-has_device_opt : (name : String) → Keeps P (has_device_opt name)
  unfolding has_device_opt
  Keeps-has_device_opt name = record { at = λ s h. h }

  Keeps-given_or_default : (flag opt : String) → Keeps P (given_or_default flag opt)
  unfolding given_or_default
  Keeps-given_or_default flag opt = Keeps-bind (has_option flag) _ (Keeps-has_option flag) λ given.
      Keeps-if given (pure true) _ (Keeps-pure true)
        (Keeps-bind (spec_of opt) _ (Keeps-spec_of opt) λ spec. Keeps-pure (is_one spec.default))

  Keeps-port_by_protocol : (snmp web telnet : Bool) → Keeps P (port_by_protocol snmp web telnet)
  unfolding port_by_protocol
  Keeps-port_by_protocol snmp web telnet = search (keeps_rules, Keeps-given_or_default) depth 12

  Keeps-own_or_by_protocol : (own : Option String) → Keeps P (own_or_by_protocol own)
  unfolding own_or_by_protocol
  Keeps-own_or_by_protocol (some default) = Keeps-pure (some default)
  Keeps-own_or_by_protocol none = search (keeps_rules, Keeps-port_by_protocol) depth 8

  pub Keeps-default_port : Keeps P default_port
  unfolding default_port
  Keeps-default_port =
      Keeps-bind (spec_of "ipport") _ (Keeps-spec_of "ipport")
        λ spec. Keeps-own_or_by_protocol spec.default

module _ {W : Type 0} (key : String) (value : Value) where
  -- An entry is written only where there is none.
  HasEntry-put_new :
      (name : String) (new : Value) (s : State W)
      → Dict.has s.options name ≡ false
      → HasEntry key value s
      → HasEntry key value (put_option name new s).1
  unfolding put_option Dict.has
  HasEntry-put_new name new s missing h = ground (arith, get-put s.options name new key)

  HasEntry-put_missing :
      (name default : String) → Keeps (HasEntry {W = W} key value) (put_missing name default)
  unfolding put_missing
  HasEntry-put_missing name default = record {
    at = λ s h. elim (Bool-cases (Dict.has s.options name)) [
      | inl old ↦ rw old h
      | inr new ↦ rw new (HasEntry-put_new name (text default) s new h)
    ];
  }

  HasEntry-put_default :
      (opt : String) (spec : Spec) (default : Option String)
      → Keeps (HasEntry {W = W} key value) (put_default opt spec default)
  unfolding put_default
  HasEntry-put_default opt spec none = Keeps-pure tt
  HasEntry-put_default opt spec (some default) =
      Keeps-if (opt == "ipport") (pure tt) _ (Keeps-pure tt) (
        Keeps-bind (longopt_of spec) _ (Keeps-longopt_of spec)
          λ name. HasEntry-put_missing ("--" <> name) default)

  HasEntry-set_defaults :
      (opts : List String) → Keeps (HasEntry {W = W} key value) (set_defaults opts)
  unfolding set_defaults
  HasEntry-set_defaults [] = Keeps-pure tt
  HasEntry-set_defaults (opt ∷ opts) =
      Keeps-bind (set_default opt) _
        (Keeps-bind (spec_of opt) _ (Keeps-spec_of opt)
          λ spec. HasEntry-put_default opt spec spec.default)
        λ _. HasEntry-set_defaults opts

  -- the port is written only where no port was given
  abbrev Portless : State W → Type 0
  Portless s = (Dict.has s.options "--ipport" ≡ false) × HasEntry key value s

  put_port_default-Keeps :
      (port : String) → Keeps (HasEntry {W = W} key value) (put_port_default port)
  unfolding put_port_default
  put_port_default-Keeps port =
      Keeps-bind (spec_of "ipport") _ (Keeps-spec_of "ipport") λ spec. record { at = λ s h. h }

  HasEntry-put_port :
      (port : Option String) (s : State W) → Portless s → HasEntry key value (put_port port s).1
  unfolding put_port
  HasEntry-put_port none s h = h.1
  HasEntry-put_port (some port) s h =
      (put_port_default-Keeps port).at (put_option "--ipport" (text port) s).1
        (HasEntry-put_new "--ipport" (text port) s h.0 h.1)

  HasEntry-continue :
      (r : Outcome (Option String)) (s : State W)
      → Portless s
      → HasEntry key value (continue r put_port s).1
  HasEntry-continue (ok port) s h = HasEntry-put_port port s h
  HasEntry-continue (raised e) s h = h.1
  HasEntry-continue (exit n) s h = h.1
  HasEntry-continue diverged s h = h.1

  HasEntry-set_default_port : Keeps (HasEntry {W = W} key value) set_default_port
  unfolding set_default_port
  HasEntry-set_default_port = record {
    at = λ s h.
        elim (Bool-cases (not (contains s.device_opt "ipport") || Dict.has s.options "--ipport")) [
          | inl settled ↦ rw settled h
          | inr open_port ↦ rw open_port (
              HasEntry-continue (default_port s).0 (default_port s).1
                ((Keeps-default_port {P = Portless}).at s (or-right _ _ open_port, h)))
        ];
  }

  -- An option that was given keeps its value, whether the defaults are all filled in or not.
  pub set_default_values-HasEntry :
      (s : State W) → HasEntry key value s → HasEntry key value (set_default_values s).1
  unfolding set_default_values
  set_default_values-HasEntry =
      (Keeps-bind set_default_port _ HasEntry-set_default_port λ _.
        Keeps-bind (gets (λ s. s.device_opt)) _ (Keeps-gets (λ s. s.device_opt))
          HasEntry-set_defaults).at
