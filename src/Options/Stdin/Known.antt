-- ===== src/Options/Stdin/Known.antt =====
-- Which entries `_parse_input_stdin` writes.
use fence_agents.Base.{
  String, ◌<>◌, ◌≡◌, ◌⊎◌, refl, sym, ap, ◌∙◌, subst, true, some, List, [], ◌∷◌, arith, contains,
  Bool-cases, Option-cases, inl, inr, ◌==◌, string_eq, nat_eq, if◌then◌else◌,
}
use fence_agents.Dict
use fence_agents.Dict.{Dict, has-put}
use fence_agents.Exec.{Exec, pure, gets, ◌>>=◌}
use fence_agents.Exec.Rules.{Keeps, Keeps-pure, Keeps-gets, Keeps-if, Keeps-bind}
use fence_agents.State.{State, Value, text, has_option, put_option, log}
use fence_agents.State.Entries.{Keeps-has_option}
use fence_agents.Text.{rstrip_by, lower, strip, ends_with_char}
use fence_agents.Options.Spec.{Spec}
use fence_agents.Options.Defaults.{spec_of, longopt_of}
use fence_agents.Options.Defaults.Laws.{Keeps-spec_of}
use fence_agents.Options.Check.{is_yes}
use fence_agents.Options.Stdin.{
  is_no, is_skipped, name_and_value, option_name, longopt_names, put_flag, put_argument,
  parse_option, parse_entry, parse_lines, verbose_or_zero, default_level, parse_input_stdin,
}

put-cases :
    (d : Dict Value) (k : String) (v : Value) (j : String)
    → Dict.has (Dict.put d k v) j ≡ true
    → (j ≡ k) ⊎ (Dict.has d j ≡ true)
put-cases d k v j h = ground (arith, h, has-put d k v j)

module _ (avail_opt : List String) (table : Dict Spec) where
  -- The key belongs to an available option: it is its long name, colons at the end aside.
  pub record IsKnown (key : String) : Type 0 where
    pub opt : String
    pub spec : Spec
    pub longopt : String
    pub available : contains avail_opt opt ≡ true
    pub entry : Dict.get table opt ≡ some spec
    pub named : spec.longopt ≡ some longopt
    pub spelled : (key ≡ "--" <> longopt) ⊎ (key ≡ "--" <> rstrip_by (λ c. c == b':') longopt)

  IsKnown-named :
      (name : String) (spec : Spec)
      → contains avail_opt name ≡ true
      → Dict.get table name ≡ some spec
      → (longopt key : String) → spec.longopt ≡ some longopt
      → (key ≡ "--" <> longopt) ⊎ (key ≡ "--" <> rstrip_by (λ c. c == b':') longopt)
      → IsKnown key
  IsKnown-named name spec available entry longopt key named spelled = record {
    opt = name;
    spec = spec;
    longopt = longopt;
    available = available;
    entry = entry;
    named = named;
    spelled = spelled;
  }

module _ {W : Type 0} (avail_opt : List String) (table : Dict Spec) where
  -- The table is that one, and every option is known, but for the level of verbosity.
  pub record AllKnown (s : State W) : Type 0 where
    pub same_table : s.all_opt ≡ table
    pub known :
        (key : String)
        → Dict.has s.options key ≡ true
        → IsKnown avail_opt table key ⊎ (key ≡ "--verbose-level")

  AllKnown-log : (line : String) → Keeps AllKnown (log line)
  unfolding log
  AllKnown-log line = record { at = λ s h. record { same_table = h.same_table; known = h.known } }

  AllKnown-put_option :
      (key : String) (value : Value)
      → (IsKnown avail_opt table key ⊎ (key ≡ "--verbose-level"))
      → Keeps AllKnown (put_option key value)
  unfolding put_option
  AllKnown-put_option key value new = record {
    at = λ s h. record {
      same_table = h.same_table;
      known = λ j present. elim (put-cases s.options key value j present) [
        | inl same ↦ subst (λ k. IsKnown avail_opt table k ⊎ (k ≡ "--verbose-level")) (sym same) new
        | inr old ↦ h.known j old
      ];
    };
  }

  -- what the table and an entry give is known in the rest
  on_spec :
      {A : Type 0} (opt : String) (f : Spec → Exec (State W) A)
      → ((spec : Spec) → Dict.get table opt ≡ some spec → Keeps AllKnown (f spec))
      → Keeps AllKnown (spec_of opt >>= f)
  unfolding spec_of ◌>>=◌
  on_spec opt f k = record {
    at = λ s h. elim (Option-cases (Dict.get s.all_opt opt)) [
      | inl e ↦ rw (e, spec_of) h
      | inr (spec, e) ↦
          rw (e, spec_of)
            ((k spec (ap (λ (t : Dict Spec). Dict.get t opt) (sym h.same_table) ∙ e)).at s h)
    ];
  }

  on_longopt :
      {A : Type 0} (spec : Spec) (f : String → Exec (State W) A)
      → ((name : String) → spec.longopt ≡ some name → Keeps AllKnown (f name))
      → Keeps AllKnown (longopt_of spec >>= f)
  unfolding longopt_of ◌>>=◌
  on_longopt spec f k = record {
    at = λ s h. elim (Option-cases spec.longopt) [
      | inl e ↦ rw e h
      | inr (name, e) ↦ rw e ((k name e).at s h)
    ];
  }

  module _ (name : String) (available : contains avail_opt name ≡ true) (spec : Spec)
      (entry : Dict.get table name ≡ some spec) where
    put_long :
        (value : Value)
        → Keeps AllKnown (longopt_of spec >>= λ longopt. put_option ("--" <> longopt) value)
    put_long value =
        on_longopt spec (λ longopt. put_option ("--" <> longopt) value)
          λ longopt named. AllKnown-put_option ("--" <> longopt) value (
            inl
              (IsKnown-named avail_opt table name spec available entry longopt _ named (inl refl)))

    AllKnown-put_flag : (value : String) → Keeps AllKnown (put_flag name spec value)
    unfolding put_flag
    AllKnown-put_flag value =
        Keeps-if (is_yes (lower value)) _ _ (put_long (text "1"))
          (Keeps-if (is_no (lower value)) _ _ (put_long (text "0")) (AllKnown-log _))

    AllKnown-put_argument : (value : String) → Keeps AllKnown (put_argument spec value)
    unfolding put_argument
    AllKnown-put_argument value =
        on_longopt spec
          (λ longopt. put_option ("--" <> rstrip_by (λ c. c == b':') longopt) (text value))
          λ longopt named.
            AllKnown-put_option ("--" <> rstrip_by (λ c. c == b':') longopt) (text value) (
              inl (
                IsKnown-named avail_opt table name spec available entry longopt _ named (inr refl)))

  AllKnown-parse_option :
      (name value : String)
      → contains avail_opt name ≡ true
      → Keeps AllKnown (parse_option name value)
  unfolding parse_option
  AllKnown-parse_option name value available = on_spec name _ λ spec entry.
      Keeps-if (ends_with_char b':' spec.getopt) (put_argument spec value)
        (put_flag name spec value) (AllKnown-put_argument name available spec entry value)
        (AllKnown-put_flag name available spec entry value)

  AllKnown-parse_entry :
      (mapping : Dict String) (line : String) → Keeps AllKnown (parse_entry avail_opt mapping line)
  unfolding parse_entry
  AllKnown-parse_entry mapping line = record {
    at = λ s h.
        let name = option_name mapping (name_and_value line).0 in
        elim (Bool-cases (contains avail_opt name)) [
          | inl available ↦
              rw available ((AllKnown-parse_option name (name_and_value line).1 available).at s h)
          | inr other ↦
              rw other (
                (Keeps-if (name == "nodename") (pure tt) _ (Keeps-pure tt) (AllKnown-log _)).at s h)
        ];
  }

  AllKnown-parse_lines :
      (mapping : Dict String) (lines : List String)
      → Keeps AllKnown (parse_lines avail_opt mapping lines)
  unfolding parse_lines
  AllKnown-parse_lines mapping [] = Keeps-pure tt
  AllKnown-parse_lines mapping (line ∷ lines) =
      Keeps-bind
        (if is_skipped (strip line) then pure tt else parse_entry avail_opt mapping (strip line)) _
        (Keeps-if (is_skipped (strip line)) (pure tt) _ (Keeps-pure tt)
          (AllKnown-parse_entry mapping (strip line)))
        λ _. AllKnown-parse_lines mapping lines

  AllKnown-longopt_names :
      (opts : List String) (mapping : Dict String) → Keeps AllKnown (longopt_names opts mapping)
  unfolding longopt_names
  AllKnown-longopt_names [] mapping = Keeps-pure mapping
  AllKnown-longopt_names (opt ∷ opts) mapping =
      Keeps-bind (spec_of opt) _ (Keeps-spec_of opt) λ spec. AllKnown-longopt_names opts _

  AllKnown-default_level : Keeps AllKnown default_level
  unfolding default_level
  AllKnown-default_level =
      Keeps-bind (has_option "--verbose-level") _ (Keeps-has_option "--verbose-level") λ given.
        Keeps-bind (gets (λ s. Dict.get s.options "--verbose")) _
          (Keeps-gets (λ s. Dict.get s.options "--verbose"))
          λ verbose.
            Keeps-if given (pure tt) _ (Keeps-pure tt)
              (AllKnown-put_option "--verbose-level" (verbose_or_zero verbose) (inr refl))

  -- Where every option is the long name of an option that the agent has, or the level of verbosity, it
  -- is so after any standard input, however the reading ends.
  pub parse_input_stdin-AllKnown :
      (lines : List String) (s : State W)
      → AllKnown s
      → AllKnown (parse_input_stdin avail_opt lines s).1
  unfolding parse_input_stdin
  parse_input_stdin-AllKnown lines =
      (Keeps-bind (longopt_names avail_opt []) _ (AllKnown-longopt_names avail_opt []) λ mapping.
        Keeps-bind (parse_lines avail_opt mapping lines) _ (AllKnown-parse_lines mapping lines)
          λ _. AllKnown-default_level).at
