-- ===== src/Options/Validate/Modes.antt =====
-- `_validate_input` with stop = True against stop = False.
use fence_agents.Base.{
  String, ◌<>◌, ◌≡◌, ◌⊎◌, refl, sym, ap, ◌∙◌, Bool, true, false, not, List, [], ◌∷◌, arith,
  Bool-cases, inl, inr, ◌==◌, string_eq, if◌then◌else◌,
}
use fence_agents.Exec.{
  Exec, Outcome, ok, raised, exit, diverged, continue, pure, raise, gets, ◌>>=◌,
}
use fence_agents.Exec.Rules.{on_ok, bind_of_ok}
use fence_agents.State.{State, System, Value, text, number, has_option, option}
use fence_agents.Failure.{generic_status}
use fence_agents.Options.Spec.{Spec}
use fence_agents.Options.Defaults.{spec_of, longopt_of}
use fence_agents.Options.Validate.{
  reject, reject_if, reject_all, check, check_identity_file, identity_file_step, check_plug,
  check_choices, check_types, invalid_choices, invalid_types, lacks_login, lacks_address,
  lacks_password, lacks_identity, lacks_ssh, lacks_plug, choice_message, type_message,
  validate_input, validate_from,
}

-- A step that the flag `stop` changes in one way only: where it turns the answer to false without
-- the flag, it exits with the flag, and an answer that is false already stays so.
record IsStep {S : Type 0} (step : Bool → Bool → Exec S Bool) : Type 0 where
  passes :
      (valid : Bool) (s t : S)
      → step false valid s ≡ (ok true, t)
      → (valid ≡ true) × (step true true s ≡ (ok true, t))
  fails : (s t : S) → step false true s ≡ (ok false, t) → (step true true s).0 ≡ exit generic_status

module _ {S : Type 0} where
  continue-exit :
      {A B : Type 0} (r : Outcome A) (f : A → Exec S B) (s : S) (n : _)
      → r ≡ exit n
      → (continue r f s).0 ≡ exit n
  continue-exit (ok a) f s n h = absurd (cc h)
  continue-exit (raised e) f s n h = absurd (cc h)
  continue-exit (exit m) f s n h = ground arith
  continue-exit diverged f s n h = absurd (cc h)

  pub bind_of_exit :
      {A B : Type 0} (m : Exec S A) (f : A → Exec S B) (s : S) (n : _)
      → (m s).0 ≡ exit n
      → ((m >>= f) s).0 ≡ exit n
  unfolding ◌>>=◌
  bind_of_exit m f s n h = continue-exit (m s).0 f (m s).1 n h

  -- steps in a row, each with the answer of the one before it
  IsStep-chain :
      (first second : Bool → Bool → Exec S Bool)
      → IsStep first
      → IsStep second
      → IsStep (λ stop valid. first stop valid >>= second stop)
  IsStep-chain first second one two = record {
    passes = λ valid s t h. on_ok (first false valid) (second false) s h λ v u e k.
        let (still, k') = two.passes v u t k in
        let (start, e') = one.passes valid s u (e ∙ ap (λ b. (ok b, u)) still) in
        (start, bind_of_ok (first true true) (second true) s e' ∙ k');
    fails = λ s t h. on_ok (first false true) (second false) s h λ v u e k. elim (Bool-cases v) [
      | inl good ↦
          let (start, e') = one.passes true s u (e ∙ ap (λ b. (ok b, u)) good) in
          ap (λ x. x.0) (bind_of_ok (first true true) (second true) s e')
          ∙ two.fails u t (rw (sym good) k)
      | inr bad ↦
          bind_of_exit (first true true) (second true) s generic_status
            (one.fails s u (e ∙ ap (λ b. (ok b, u)) bad))
    ];
  }

  -- a part in front of a step that does not look at the flag
  IsStep-after :
      {A : Type 0} (m : Exec S A) (step : A → Bool → Bool → Exec S Bool)
      → ((a : A) → IsStep (step a))
      → IsStep (λ stop valid. m >>= λ a. step a stop valid)
  IsStep-after m step steps = record {
    passes = λ valid s t h.
        on_ok m (λ a. step a false valid) s h
          λ a u e k.
            let (start, k') = (steps a).passes valid u t k in
            (start, bind_of_ok m (λ a. step a true true) s e ∙ k');
    fails = λ s t h.
        on_ok m (λ a. step a false true) s h
          λ a u e k.
            ap (λ x. x.0) (bind_of_ok m (λ a. step a true true) s e) ∙ (steps a).fails u t k;
  }

  IsStep-pure : IsStep (λ stop valid. pure {S = S} valid)
  IsStep-pure = record {
    passes = λ valid s t h. (ground arith, ground arith);
    fails = λ s t h. absurd (cc);
  }

  IsStep-raise : (e : _) → IsStep (λ stop valid. raise {S = S} e)
  IsStep-raise e = record { passes = λ valid s t h. absurd (cc); fails = λ s t h. absurd (cc) }

module _ {W : Type 0} where
  pub reject-goes_on : (message : String) (s : State W) → (reject message false s).0 ≡ ok false
  unfolding reject
  reject-goes_on message s = elim (Bool-cases (message == "")) [
    | inl e ↦ rw e refl
    | inr e ↦ rw e refl
  ]

  pub reject-stops :
      (message : String) (s : State W) → (reject message true s).0 ≡ exit generic_status
  unfolding reject
  reject-stops message s = elim (Bool-cases (message == "")) [
    | inl e ↦ rw e refl
    | inr e ↦ rw e refl
  ]

  IsStep-reject : (message : String) → IsStep (λ stop valid. reject {W = W} message stop)
  IsStep-reject message = record {
    passes = λ valid s t h. absurd (differ (sym (reject-goes_on message s) ∙ ap (λ x. x.0) h));
    fails = λ s t h. reject-stops message s;
  }
    where
      differ : ok false ≡ ok true → ⊥
      differ h = cc

  IsStep-reject_if : (bad : Bool) (message : String) → IsStep (reject_if {W = W} bad message)
  unfolding reject_if
  IsStep-reject_if true message = IsStep-reject message
  IsStep-reject_if false message = IsStep-pure

  IsStep-check : (lacks : State W → Bool) (message : String) → IsStep (check lacks message)
  unfolding check
  IsStep-check lacks message =
      IsStep-after (gets lacks) (λ bad. reject_if bad message) λ bad. IsStep-reject_if bad message

  IsStep-identity_file_step :
      (system : System W) (value : Value)
      → IsStep (λ stop valid. identity_file_step system stop valid value)
  unfolding identity_file_step
  IsStep-identity_file_step system (number n) = IsStep-raise _
  IsStep-identity_file_step system (text path) =
      IsStep-after (gets (λ s. system.is_file path s.world)) _ λ present.
        IsStep-reject_if (not present) ("Failed: Identity file " <> path <> " does not exist")

  IsStep-if :
      (b : Bool) (first second : Bool → Bool → Exec (State W) Bool)
      → IsStep first
      → IsStep second
      → IsStep (λ stop valid. if b then first stop valid else second stop valid)
  IsStep-if true first second one two = one
  IsStep-if false first second one two = two

  IsStep-check_identity_file : (system : System W) → IsStep (check_identity_file system)
  unfolding check_identity_file
  IsStep-check_identity_file system = IsStep-after (has_option "--identity-file") _ λ given.
      IsStep-if (not given) (λ stop valid. pure valid) _ IsStep-pure
        (IsStep-after (option "--identity-file") _ (IsStep-identity_file_step system))

  IsStep-check_plug : IsStep (check_plug {W = W})
  unfolding check_plug
  IsStep-check_plug = IsStep-after (option "--action") _ λ action.
      IsStep-after (gets (lacks_plug action)) _ λ bad.
        IsStep-reject_if bad "Failed: You have to enter plug number or machine identification"

  IsStep-reject_all :
      (message : Spec → String → String) (opts : List String)
      → IsStep (reject_all {W = W} message opts)
  unfolding reject_all
  IsStep-reject_all message [] = IsStep-pure
  IsStep-reject_all message (opt ∷ opts) = IsStep-after (spec_of opt) _ λ spec.
      IsStep-after (longopt_of spec) _ λ name.
        IsStep-chain (λ stop valid. reject (message spec name) stop) (reject_all message opts)
          (IsStep-reject (message spec name)) (IsStep-reject_all message opts)

  IsStep-check_choices : IsStep (check_choices {W = W})
  unfolding check_choices
  IsStep-check_choices = IsStep-after (gets (λ s. s.device_opt)) _ λ device_opt.
      IsStep-after (invalid_choices device_opt) _ λ failed. IsStep-reject_all choice_message failed

  IsStep-check_types : IsStep (check_types {W = W})
  unfolding check_types
  IsStep-check_types = IsStep-after (gets (λ s. s.device_opt)) _ λ device_opt.
      IsStep-after (invalid_types device_opt) _ λ failed. IsStep-reject_all type_message failed

  IsStep-validate_input : (system : System W) → IsStep (validate_from system)
  unfolding validate_from
  IsStep-validate_input system = IsStep-chain _ _ (IsStep-check lacks_login _) (
      IsStep-chain _ _ (IsStep-check lacks_address _) (
        IsStep-chain _ _ (IsStep-check lacks_password _) (
          IsStep-chain _ _ (IsStep-check lacks_identity _) (
            IsStep-chain _ _ (IsStep-check lacks_ssh _) (
              IsStep-chain _ _ (IsStep-check_identity_file system) (
                IsStep-chain _ _ IsStep-check_plug
                  (IsStep-chain _ _ IsStep-check_choices IsStep-check_types)))))))

  -- The flag `stop` decides only how a bad input is told: where the checks without it return true,
  -- they return true with it, in the same state, and where they return false, they exit with the
  -- generic status.
  pub validate_input-stop :
      (system : System W) (s : State W) (valid : Bool) (t : State W)
      → validate_input system false s ≡ (ok valid, t)
      → ((valid ≡ true) × (validate_input system true s ≡ (ok true, t)))
        ⊎ ((valid ≡ false) × ((validate_input system true s).0 ≡ exit generic_status))
  unfolding validate_input
  validate_input-stop system s true t h =
      inl (refl, ((IsStep-validate_input system).passes true s t h).1)
  validate_input-stop system s false t h = inr (refl, (IsStep-validate_input system).fails s t h)
