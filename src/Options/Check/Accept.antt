-- ===== src/Options/Check/Accept.antt =====
-- Which runs `check_input` ends, and with which status.
use Prim.Native.Nat.{suc, zero}
use fence_agents.Base.{
  ℕ, subst, String, ◌<>◌, ◌≡◌, refl, ap, ◌∙◌, Bool, true, false, not, ◌&&◌, contains, Bool-cases,
  inl, inr, ◌==◌, string_eq, if◌then◌else◌,
}
use fence_agents.Base.Int.{ℤ, pos, negsuc}
use fence_agents.Exec.{Exec, ok, exit, pure, leave, ◌>>=◌}
use fence_agents.Exec.Rules.{bind_of_ok, Keeps, Keeps-bind, Keeps-pure, Keeps-if, keeps_rules}
use fence_agents.State.{State, System, Value, number, has_option, option, put_option, log}
use fence_agents.State.Entries.{HasEntry, Keeps-has_option, Keeps-option}
use fence_agents.Options.Check.Verbose.{check_verbosity-HasLevel}
use fence_agents.Failure.{fail_usage, generic_status, ec_ok}
use fence_agents.Options.Validate.{validate_input}
use fence_agents.Options.Validate.Modes.{validate_input-stop, bind_of_exit}
use fence_agents.Options.Check.{
  acceptable_actions, accept_action, run_checks, level_of, put_level, drop_verbose, settle_level,
  validate_only, check_verbosity, check_rest,
}

module _ {W : Type 0} where
  pub fail_usage-exit :
      (message : String) (s : State W) → (fail_usage message true s).0 ≡ exit generic_status
  unfolding fail_usage
  fail_usage-exit message s = elim (Bool-cases (message == "")) [
    | inl e ↦ rw e refl
    | inr e ↦ rw e refl
  ]

  validate_only-exit :
      (system : System W) (valid : Bool) (s t : State W)
      → validate_input system false s ≡ (ok valid, t)
      → (validate_only system s).0 ≡ exit (if valid then ec_ok else generic_status)
  unfolding validate_only
  validate_only-exit system true s t h =
      ap (λ x. x.0) (bind_of_ok (validate_input system false) _ s h)
  validate_only-exit system false s t h =
      ap (λ x. x.0) (bind_of_ok (validate_input system false) _ s h)
      ∙ bind_of_exit (fail_usage "validate-all failed" true) _ t generic_status
          (fail_usage-exit "validate-all failed" t)

  validate-outcome :
      (system : System W) (valid : Bool) (s t : State W)
      → validate_input system false s ≡ (ok valid, t)
      → ((validate_input system true >>= λ _. pure tt) s).0
        ≡ (if valid then ok tt else exit generic_status)
  validate-outcome system valid s t h = elim (validate_input-stop system s valid t h) [
    | inl (good, e) ↦
        ap (λ x. x.0) (bind_of_ok (validate_input system true) (λ _. pure tt) s e) ∙ rw good refl
    | inr (bad, e) ↦
        bind_of_exit (validate_input system true) (λ _. pure tt) s generic_status e ∙ rw bad refl
  ]

  -- The outcome of the checks, where they answer without the flag `stop`, by that answer:
  -- "validate-all", unless the agent has conditions of its own, exits with 0 or the generic status, and
  -- every other action goes on after a valid input and exits with the generic status after another.
  pub run_checks-outcome :
      (system : System W) (action : String) (other_conditions valid : Bool) (s t : State W)
      → validate_input system false s ≡ (ok valid, t)
      → (run_checks system action other_conditions s).0 ≡ (
          if action == "validate-all" && not other_conditions
          then exit (if valid then ec_ok else generic_status)
          else (if valid then ok tt else exit generic_status))
  unfolding run_checks
  run_checks-outcome system action other valid s t h =
      elim (Bool-cases (action == "validate-all" && not other)) [
        | inl only ↦ rw only (validate_only-exit system valid s t h)
        | inr run ↦ rw run (validate-outcome system valid s t h)
      ]

  -- An exit ends the block, in the state of the exit.
  pub bind_exit :
      {A B : Type 0} (m : Exec (State W) A) (f : A → Exec (State W) B) (s : State W) {n : ℕ}
      → (m s).0 ≡ exit n
      → (m >>= f) s ≡ (exit n, (m s).1)
  unfolding ◌>>=◌
  bind_exit m f s h = rw h

  -- what the verbosity check and a usage message leave alone
  abbrev pub IsAt : State W → State W → Type 0
  IsAt s u = (u.device_opt ≡ s.device_opt) × (u.world ≡ s.world)

  module _ (s : State W) where
    IsAt-log : (line : String) → Keeps (IsAt s) (log line)
    unfolding log
    IsAt-log line = record { at = λ u h. h }

    IsAt-put_option : (key : String) (value : Value) → Keeps (IsAt s) (put_option key value)
    unfolding put_option
    IsAt-put_option key value = record { at = λ u h. h }

    IsAt-put_level : (level : ℤ) → Keeps (IsAt s) (put_level level)
    unfolding put_level
    IsAt-put_level (pos n) = search (keeps_rules, IsAt-put_option) depth 10
    IsAt-put_level (negsuc n) = search (keeps_rules, IsAt-put_option, IsAt-log) depth 10

    IsAt-drop_verbose : Keeps (IsAt s) drop_verbose
    unfolding drop_verbose log
    IsAt-drop_verbose = record { at = λ u h. h }

    IsAt-settle_zero : Keeps (IsAt s) (settle_level (pos 0))
    unfolding settle_level
    IsAt-settle_zero =
        Keeps-bind (has_option "--verbose")
          (λ verbose. if not verbose then pure tt else drop_verbose) (Keeps-has_option "--verbose")
          λ verbose. Keeps-if (not verbose) (pure tt) drop_verbose (Keeps-pure tt) IsAt-drop_verbose

    IsAt-settle_level : (level : ℤ) → Keeps (IsAt s) (settle_level level)
    unfolding settle_level
    IsAt-settle_level (pos zero) = IsAt-settle_zero
    IsAt-settle_level (pos (suc n)) = IsAt-put_option "--verbose" (number (pos 1))
    IsAt-settle_level (negsuc n) = record { at = λ u h. IsAt-settle_zero.at u h }

    IsAt-check_verbosity : Keeps (IsAt s) check_verbosity
    unfolding check_verbosity
    IsAt-check_verbosity =
        Keeps-bind (option "--verbose-level") _ (Keeps-option "--verbose-level") λ value.
          Keeps-bind (put_level (level_of value)) _ (IsAt-put_level (level_of value))
            IsAt-settle_level

    pub IsAt-fail_usage : (message : String) → Keeps (IsAt s) (fail_usage message true)
    unfolding fail_usage
    IsAt-fail_usage message =
        Keeps-bind (if message == "" then pure tt else log (message <> "\n"))
          (λ _. log "Please use '-h' for usage\n" >>= λ _. leave generic_status)
          (Keeps-if (message == "") (pure tt) (log (message <> "\n")) (Keeps-pure tt)
            (IsAt-log (message <> "\n")))
          λ _.
            Keeps-bind (log "Please use '-h' for usage\n") (λ _. leave generic_status)
              (IsAt-log "Please use '-h' for usage\n") λ _. record { at = λ u h. h }

  accept_action-exit :
      (action : String) (s u : State W)
      → IsAt s u
      → contains (acceptable_actions u.device_opt) action ≡ false
      → ((accept_action action u).0 ≡ exit generic_status) × IsAt s (accept_action action u).1
  unfolding accept_action
  accept_action-exit action s u at_s h = rw h (fail_usage-exit _ u, (IsAt-fail_usage s _).at u at_s)

  -- Where a level of verbosity is among the options, an action that the device does not accept ends the
  -- run with the generic status, before any check, any script and any file: the world is as it was.
  pub check_rest-unacceptable :
      (system : System W) (other_conditions : Bool) (action : String) (level : Value) (s : State W)
      → HasEntry "--verbose-level" level s
      → contains (acceptable_actions s.device_opt) action ≡ false
      → ((check_rest system other_conditions action s).0 ≡ exit generic_status)
        × ((check_rest system other_conditions action s).1.world ≡ s.world)
  unfolding check_rest
  check_rest-unacceptable system other action level s h unacceptable =
      let (t, e, _) = check_verbosity-HasLevel level s h in
      let at_t : IsAt s t =
        subst (IsAt s) (ap (λ x. x.1) e) ((IsAt-check_verbosity s).at s (refl, refl)) in
      let (left, kept) =
        accept_action-exit action s t at_t
          (ap (λ d. contains (acceptable_actions d) action) at_t.0 ∙ unacceptable) in
      let run = bind_of_ok check_verbosity _ s e ∙ bind_exit (accept_action action) _ t left in
      (ap (λ x. x.0) run, ap (λ x. x.1.world) run ∙ kept.1)
