-- ===== src/Options/Defaults/Filled.antt =====
-- Every option of the device that has a default ends with a value.
use fence_agents.Base.{
  String, ◌<>◌, ◌≡◌, ◌≢◌, refl, sym, ap, ◌∙◌, subst, ◌⊎◌, true, false, not, ◌||◌, Option, none,
  some, List, [], ◌∷◌, arith, contains, Bool-cases, inl, inr, ◌==◌, string_eq,
}
use fence_agents.Dict
use fence_agents.Dict.{Dict, get-put, has-put}
use fence_agents.Exec.{ok, pure}
use fence_agents.Exec.Rules.{Keeps, Keeps-pure, Keeps-if, Keeps-bind, on_ok, bind_of_ok}
use fence_agents.State.{State, text, put_option, has_option, has_device_opt}
use fence_agents.State.Entries.{Keeps-has_option}
use fence_agents.Options.Spec.{Spec}
use fence_agents.Options.Defaults.{
  put_port_default, put_port, default_port, spec_of, longopt_of, put_missing, put_default,
  set_default, set_defaults, set_default_port, set_default_values,
}
use fence_agents.Options.Defaults.Laws.{Keeps-spec_of, Keeps-has_device_opt, Keeps-default_port}

module _ {W : Type 0} where
  -- The second state has the same table, and an entry wherever the first has one.
  record Grows (s t : State W) : Type 0 where
    table : t.all_opt ≡ s.all_opt
    entries : (key : String) → Dict.has s.options key ≡ true → Dict.has t.options key ≡ true

  Grows-refl : {s t : State W} → s ≡ t → Grows s t
  Grows-refl {s} e = subst (Grows s) e (record { table = refl; entries = λ key h. h })

  Grows-trans : {s t u : State W} → Grows s t → Grows t u → Grows s u
  Grows-trans a b = record {
    table = b.table ∙ a.table;
    entries = λ key h. b.entries key (a.entries key h);
  }

  pub spec_of-ok :
      (opt : String) (s : State W) {spec : Spec} {t : State W}
      → spec_of opt s ≡ (ok spec, t)
      → (Dict.get s.all_opt opt ≡ some spec) × (s ≡ t)
  unfolding spec_of
  spec_of-ok opt s h = ground arith

  longopt_of-ok :
      (spec : Spec) (s : State W) {name : String} {t : State W}
      → longopt_of spec s ≡ (ok name, t)
      → (spec.longopt ≡ some name) × (s ≡ t)
  unfolding longopt_of
  longopt_of-ok spec s h = ground arith

  put_missing-ok :
      (key default : String) (s : State W) {one : Unit {0}} {t : State W}
      → put_missing key default s ≡ (ok one, t)
      → Grows s t × (Dict.has t.options key ≡ true)
  unfolding put_missing
  put_missing-ok key default s {t = t} h = elim (Bool-cases (Dict.has s.options key)) [
    | inl old ↦
        let e : s ≡ t = ap (λ x. x.1) (rw old at h) in
        (Grows-refl e, subst (λ (w : State W). Dict.has w.options key ≡ true) e old)
    | inr new ↦
        let e : (put_option key (text default) s).1 ≡ t = ap (λ x. x.1) (rw new at h) in
        subst (λ (w : State W). Grows s w × (Dict.has w.options key ≡ true)) e (grown s key default)
  ]
    where
      grown :
          (s : State W) (key default : String)
          → Grows s (put_option key (text default) s).1
            × (Dict.has (put_option key (text default) s).1.options key ≡ true)
      grown s key default =
          unfold put_option in
          (
            record {
              table = refl;
              entries = λ j h. has-put s.options key (text default) j ∙ ground (arith, h);
            },
            has-put s.options key (text default) key ∙ ground arith,
          )

  -- The option has a default under this name.
  pub record HasDefault (opt name : String) (s : State W) : Type 0 where
    pub spec : Spec
    pub default : String
    pub entry : Dict.get s.all_opt opt ≡ some spec
    pub defaulted : spec.default ≡ some default
    pub named : spec.longopt ≡ some name
    pub not_port : opt ≢ "ipport"

  put_default-ok :
      (opt : String) (spec : Spec) (default : Option String) (s : State W) {one : Unit {0}}
      {t : State W}
      → put_default opt spec default s ≡ (ok one, t)
      → Grows s t
  unfolding put_default
  put_default-ok opt spec none s h = Grows-refl (ap (λ x. x.1) h)
  put_default-ok opt spec (some default) s h = elim (Bool-cases (opt == "ipport")) [
    | inl port ↦ Grows-refl (ap (λ x. x.1) (rw port at h))
    | inr other ↦
        on_ok (longopt_of spec) (λ name. put_missing ("--" <> name) default) s (rw other at h)
          λ name u found h.
            Grows-trans (Grows-refl (longopt_of-ok spec s found).1)
              (put_missing-ok ("--" <> name) default u h).0
  ]

  put_default-filled :
      (opt : String) (spec : Spec) (name default : String) (s : State W) {one : Unit {0}}
      {t : State W}
      → spec.longopt ≡ some name
      → opt ≢ "ipport"
      → put_default opt spec (some default) s ≡ (ok one, t)
      → Dict.has t.options ("--" <> name) ≡ true
  unfolding put_default
  put_default-filled opt spec name default s {t = t} named other h =
      on_ok (longopt_of spec) (λ name. put_missing ("--" <> name) default) s
        (rw (not_equal opt other) at h)
        λ name' u found h.
          let same : name' ≡ name =
            some_inj name' name (sym (longopt_of-ok spec s found).0 ∙ named) in
          subst (λ n. Dict.has t.options ("--" <> n) ≡ true) same
            (put_missing-ok ("--" <> name') default u h).1
    where
      not_equal : (opt : String) → opt ≢ "ipport" → (opt == "ipport") ≡ false
      not_equal opt other = ground arith

      some_inj : (a b : String) → some a ≡ some b → a ≡ b
      some_inj a b h = ground arith

  set_default-ok :
      (opt : String) (s : State W) {one : Unit {0}} {t : State W}
      → set_default opt s ≡ (ok one, t)
      → Grows s t
  unfolding set_default
  set_default-ok opt s h =
      on_ok (spec_of opt) (λ spec. put_default opt spec spec.default) s h
        λ spec u found h.
          Grows-trans (Grows-refl (spec_of-ok opt s found).1)
            (put_default-ok opt spec spec.default u h)

  set_default-filled :
      (opt name : String) (s : State W) {one : Unit {0}} {t : State W}
      → HasDefault opt name s
      → set_default opt s ≡ (ok one, t)
      → Dict.has t.options ("--" <> name) ≡ true
  unfolding set_default
  set_default-filled opt name s {one} {t} d h =
      let found : spec_of opt s ≡ (ok d.spec, s) = spec_found opt s d in
      let h' : put_default opt d.spec d.spec.default s ≡ (ok one, t) =
        sym (bind_of_ok (spec_of opt) (λ spec. put_default opt spec spec.default) s found) ∙ h in
      put_default-filled opt d.spec name d.default s d.named d.not_port (rw d.defaulted at h')
    where
      spec_found :
          (opt : String) (s : State W) {name : String} (d : HasDefault opt name s)
          → spec_of opt s ≡ (ok d.spec, s)
      spec_found opt s d = unfold spec_of in (rw (d.entry, spec_of))

  HasDefault-Grows :
      (opt name : String) (s t : State W)
      → Grows s t
      → HasDefault opt name s
      → HasDefault opt name t
  HasDefault-Grows opt name s t g d = record {
    spec = d.spec;
    default = d.default;
    entry = ap (λ (a : Dict Spec). Dict.get a opt) g.table ∙ d.entry;
    defaulted = d.defaulted;
    named = d.named;
    not_port = d.not_port;
  }

  set_defaults-ok :
      (opts : List String) (s : State W) {one : Unit {0}} {t : State W}
      → set_defaults opts s ≡ (ok one, t)
      → Grows s t
  unfolding set_defaults
  set_defaults-ok [] s h = Grows-refl (ap (λ x. x.1) h)
  set_defaults-ok (opt ∷ opts) s h =
      on_ok (set_default opt) (λ _. set_defaults opts) s h
        λ _ u first h. Grows-trans (set_default-ok opt s first) (set_defaults-ok opts u h)

  set_defaults-filled :
      (opts : List String) (opt name : String) (s : State W) {one : Unit {0}} {t : State W}
      → contains opts opt ≡ true
      → HasDefault opt name s
      → set_defaults opts s ≡ (ok one, t)
      → Dict.has t.options ("--" <> name) ≡ true
  unfolding set_defaults
  set_defaults-filled [] opt name s c d h = absurd (cc)
  set_defaults-filled (o ∷ opts) opt name s {one} {t} c d h =
      on_ok (set_default o) (λ _. set_defaults opts) s h
        λ _ u first h. elim (member o opts opt c) [
          | inl here ↦
              (set_defaults-ok opts u h).entries ("--" <> name)
                (set_default-filled opt name s d (rw (sym here) at first))
          | inr later ↦
              set_defaults-filled opts opt name u later
                (HasDefault-Grows opt name s u (set_default-ok o s first) d) h
        ]
    where
      member :
          (o : String) (opts : List String) (opt : String)
          → contains (o ∷ opts) opt ≡ true
          → (opt ≡ o) ⊎ (contains opts opt ≡ true)
      member o opts opt c = ground arith

  -- what the default port leaves as it was
  abbrev Apart : State W → String → Spec → State W → Type 0
  Apart s opt spec t = (t.device_opt ≡ s.device_opt) × (Dict.get t.all_opt opt ≡ some spec)

  put_port_default-Apart :
      (s : State W) (opt : String) (spec : Spec)
      → opt ≢ "ipport"
      → (port : String) → Keeps (Apart s opt spec) (put_port_default port)
  unfolding put_port_default
  put_port_default-Apart s opt spec other port =
      Keeps-bind (spec_of "ipport") _ (Keeps-spec_of "ipport") λ old. record {
        at = λ t h. (
          h.0,
          get-put t.all_opt "ipport" (record old { default = some port }) opt ∙ ground (arith, h.1),
        );
      }

  put_port-Apart :
      (s : State W) (opt : String) (spec : Spec)
      → opt ≢ "ipport"
      → (port : Option String) → Keeps (Apart s opt spec) (put_port port)
  unfolding put_port
  put_port-Apart s opt spec other none = Keeps-pure tt
  put_port-Apart s opt spec other (some port) =
      Keeps-bind (put_option "--ipport" (text port)) _ (record { at = λ t h. h })
        λ _. put_port_default-Apart s opt spec other port

  set_default_port-Apart :
      (s : State W) (opt : String) (spec : Spec)
      → opt ≢ "ipport"
      → Keeps (Apart s opt spec) set_default_port
  unfolding set_default_port
  set_default_port-Apart s opt spec other =
      Keeps-bind (has_device_opt "ipport") _ (Keeps-has_device_opt "ipport") λ ported.
        Keeps-bind (has_option "--ipport") _ (Keeps-has_option "--ipport") λ given.
          Keeps-if (not ported || given) (pure tt) _ (Keeps-pure tt) (
            Keeps-bind default_port _ Keeps-default_port
              λ port. put_port-Apart s opt spec other port)

  -- Where the defaults are all filled in without an error, every option of the device that has a
  -- default and a long name, the port aside, has a value under that name.
  pub set_default_values-filled :
      (s : State W) {one : Unit {0}} {t : State W} (opt name : String)
      → contains s.device_opt opt ≡ true
      → HasDefault opt name s
      → set_default_values s ≡ (ok one, t)
      → Dict.has t.options ("--" <> name) ≡ true
  unfolding set_default_values
  set_default_values-filled s opt name c d h = on_ok set_default_port _ s h λ _ u ported h.
      let apart : Apart s opt d.spec u =
        subst (Apart s opt d.spec) (ap (λ x. x.1) ported)
          ((set_default_port-Apart s opt d.spec d.not_port).at s (refl, d.entry)) in
      set_defaults-filled u.device_opt opt name u (rw apart.0 c)
        (record {
          spec = d.spec;
          default = d.default;
          entry = apart.1;
          defaulted = d.defaulted;
          named = d.named;
          not_port = d.not_port;
        })
        h
