-- ===== src/Options/CommandLine/Unique.antt =====
-- `_verify_unique_getopt` against a test of the short options.
use fence_agents.Base.{
  String, ◌<>◌, ◌≡◌, refl, sym, ap, ◌∙◌, subst, Bool, true, not, ◌&&◌, ◌||◌, Option, none, some,
  List, [], ◌∷◌, map, arith, contains, Bool-cases, Option-cases, inl, inr, ◌==◌, string_eq,
  if◌then◌else◌,
}
use fence_agents.Dict
use fence_agents.Dict.{Dict}
use fence_agents.Exec.{Exec, ok, exit, ◌>>=◌}
use fence_agents.Exec.Rules.{bind_of_ok}
use fence_agents.State.{State}
use fence_agents.Failure.{fail_usage, generic_status}
use fence_agents.Options.Spec.{Spec}
use fence_agents.Options.Defaults.{spec_of}
use fence_agents.Options.Validate.Modes.{bind_of_exit}
use fence_agents.Options.Check.Accept.{fail_usage-exit}
use fence_agents.Options.CommandLine.{short_of, verify_unique, verify_unique_getopt}

-- the entries of the options, where all of them have one
abbrev pub specs_of : Dict Spec → List String → Option (List Spec)
specs_of table [] = some []
specs_of table (opt ∷ opts) =
    let rest = specs_of table opts in
    elim (Dict.get table opt) [
      | none ↦ none
      | some spec ↦ elim rest [ none ↦ none | some specs ↦ some (spec ∷ specs) ]
    ]

-- No short option but the empty one comes up again.
abbrev pub is_unique : List String → Bool
is_unique [] = true
is_unique (x ∷ xs) = (x == "" || not (contains xs x)) && is_unique xs

-- The same with the short options that were used before.
abbrev is_fresh : List String → List String → Bool
is_fresh used [] = true
is_fresh used (x ∷ xs) = not (not (x == "") && contains used x) && is_fresh (x ∷ used) xs

abbrev avoids : List String → List String → Bool
avoids used [] = true
avoids used (x ∷ xs) = (x == "" || not (contains used x)) && avoids used xs

avoids-more :
    (x : String) (used xs : List String)
    → avoids (x ∷ used) xs ≡ ((x == "" || not (contains xs x)) && avoids used xs)
avoids-more x used [] = ground arith
avoids-more x used (y ∷ xs) = ground (arith, avoids-more x used xs)

is_fresh-is_unique : (used xs : List String) → is_fresh used xs ≡ (avoids used xs && is_unique xs)
is_fresh-is_unique used [] = refl
is_fresh-is_unique used (x ∷ xs) =
    ground (arith, is_fresh-is_unique (x ∷ used) xs, avoids-more x used xs)

avoids-nothing : (xs : List String) → avoids [] xs ≡ true
avoids-nothing [] = refl
avoids-nothing (x ∷ xs) = ground (arith, avoids-nothing xs)

specs_of-cons :
    (table : Dict Spec) (opt : String) (opts : List String) (specs : List Spec)
    → specs_of table (opt ∷ opts) ≡ some specs
    → (spec : Spec) × (rest : List Spec) × (Dict.get table opt ≡ some spec)
      × (specs_of table opts ≡ some rest)
      × (specs ≡ spec ∷ rest)
specs_of-cons table opt opts specs h = elim (Option-cases (Dict.get table opt)) [
  | inl e ↦ absurd (cc (rw (e, specs_of) at h))
  | inr (spec, e) ↦ elim (Option-cases (specs_of table opts)) [
    | inl e' ↦ absurd (cc (rw (e, e', specs_of) at h))
    | inr (rest, e') ↦ (spec, rest, e, e', some_inj (sym (rw (e, e', specs_of) at h)))
  ]
]
  where
    some_inj : {a b : List Spec} → some a ≡ some b → a ≡ b
    some_inj h = ground arith

module _ {W : Type 0} where
  spec_of-found :
      (opt : String) (spec : Spec) (s : State W)
      → Dict.get s.all_opt opt ≡ some spec
      → spec_of opt s ≡ (ok spec, s)
  unfolding spec_of
  spec_of-found opt spec s h = ground (arith, h)

  -- what follows when the entry of the first option has been read
  abbrev verify_step : List String → String → List String → Spec → Exec (State W) (Unit {0})
  verify_step used opt opts spec =
      if not (short_of spec == "") && contains used (short_of spec)
      then fail_usage ("Short getopt for " <> opt <> " (-" <> short_of spec <> ") is not unique")
          true
        >>= (λ _. verify_unique used opts)
      else verify_unique (short_of spec ∷ used) opts

  verify_step-outcome :
      (used : List String) (opt : String) (opts : List String) (spec : Spec) (rest : List Spec)
      (s : State W)
      → (verify_unique (short_of spec ∷ used) opts s).0 ≡ (
          if is_fresh (short_of spec ∷ used) (map short_of rest)
          then ok tt
          else exit generic_status)
      → (verify_step used opt opts spec s).0
        ≡ (if is_fresh used (map short_of (spec ∷ rest)) then ok tt else exit generic_status)
  verify_step-outcome used opt opts spec rest s h =
      elim (Bool-cases (not (short_of spec == "") && contains used (short_of spec))) [
        | inl bad ↦ rw bad (
            bind_of_exit (fail_usage _ true) (λ _. verify_unique used opts) s generic_status
              (fail_usage-exit _ s))
        | inr good ↦ rw good h
      ]

  verify_unique-outcome :
      (used opts : List String) (specs : List Spec) (s : State W)
      → specs_of s.all_opt opts ≡ some specs
      → (verify_unique used opts s).0
        ≡ (if is_fresh used (map short_of specs) then ok tt else exit generic_status)
  unfolding verify_unique
  verify_unique-outcome used [] specs s h =
      subst (λ l. ok tt ≡ (if is_fresh used (map short_of l) then ok tt else exit generic_status))
        (some_inj h) refl
    where
      some_inj : {a b : List Spec} → some a ≡ some b → a ≡ b
      some_inj h = ground arith
  verify_unique-outcome used (opt ∷ opts) specs s h =
      let (spec, rest, e, e', same) = specs_of-cons s.all_opt opt opts specs h in
      ap (λ x. x.0) (bind_of_ok (spec_of opt) _ s (spec_of-found opt spec s e))
      ∙ subst
          (λ l.
            (verify_step used opt opts spec s).0
            ≡ (if is_fresh used (map short_of l) then ok tt else exit generic_status))
          (sym same)
          (verify_step-outcome used opt opts spec rest s
            (verify_unique-outcome (short_of spec ∷ used) opts rest s e'))

  -- Where all options of the agent are in the table, their short options are accepted exactly where
  -- none but the empty one comes up twice; otherwise the run exits with the generic status.
  pub verify_unique_getopt-outcome :
      (avail_opt : List String) (specs : List Spec) (s : State W)
      → specs_of s.all_opt avail_opt ≡ some specs
      → (verify_unique_getopt avail_opt s).0
        ≡ (if is_unique (map short_of specs) then ok tt else exit generic_status)
  unfolding verify_unique_getopt
  verify_unique_getopt-outcome avail_opt specs s h =
      verify_unique-outcome [] avail_opt specs s h
      ∙ ap (λ b. if b then ok tt else exit generic_status)
          (is_fresh-is_unique [] (map short_of specs)
            ∙ rw (avoids-nothing (map short_of specs)) refl)
