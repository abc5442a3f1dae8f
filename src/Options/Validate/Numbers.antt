-- ===== src/Options/Validate/Numbers.antt =====
-- What `_validate_input` promises on the options whose type is a number.
use fence_agents.Base.{
  String, ◌<>◌, ◌≡◌, refl, sym, ap, ◌∙◌, subst, Bool, true, false, some, List, contains, string_eq,
}
use fence_agents.Base.Int.{ℤ}
use fence_agents.Dict
use fence_agents.Exec.{Exec, ok, ◌>>=◌}
use fence_agents.Exec.Rules.{Keeps, on_ok}
use fence_agents.State.{State, System, Value, int_option}
use fence_agents.Dict.{Dict}
use fence_agents.Options.Validate.Kept.{
  HasTable, HasTable-check, HasTable-check_identity_file, HasTable-check_plug,
  HasTable-check_choices,
}
use fence_agents.State.Entries.{HasEntry, int_option_of_HasEntry}
use fence_agents.Options.Spec.{Spec}
use fence_agents.Options.Validate.{
  reject_all, check, check_identity_file, check_plug, check_choices, check_types, invalid_types,
  is_numeric, is_no_number, lacks_login, lacks_address, lacks_password, lacks_identity, lacks_ssh,
  type_message, validate_from, validate_input,
}
use fence_agents.Options.Validate.Types.{
  reject_all-true, fails_type-false, invalid_types-none, same, Keeps-invalid_types, value-number,
}

module _ {W : Type 0} where
  check_types-number :
      (stop valid : Bool) (opt name : String) (spec : Spec) (value : Value) (s : State W)
      {t : State W}
      → check_types stop valid s ≡ (ok true, t)
      → contains s.device_opt opt ≡ true
      → Dict.get s.all_opt opt ≡ some spec
      → is_numeric spec.type ≡ true
      → spec.longopt ≡ some name
      → HasEntry ("--" <> name) value t
      → is_no_number value ≡ false
  unfolding check_types
  check_types-number stop valid opt name spec value s h member entry numeric named given =
      on_ok (invalid_types s.device_opt) (λ failed. reject_all type_message failed stop valid) s h
        λ failed u e h.
          let (nobody, last) = reject_all-true type_message failed stop valid u h in
          let (v, passed) =
            invalid_types-none s.device_opt opt spec s u failed nobody e member entry in
          let at_u = same (invalid_types s.device_opt) s (Keeps-invalid_types s.device_opt) e in
          fails_type-false spec spec.type name value s numeric named
            (subst (HasEntry ("--" <> name) value) (sym (at_u ∙ last)) given) passed

  -- one check in front of the last one
  past :
      {C : Type 0} {device_opt : List String} {table : Dict Spec} (m : Exec (State W) Bool)
      (next : Bool → Exec (State W) Bool) (s : State W) {t : State W}
      → Keeps (HasTable device_opt table) m
      → HasTable device_opt table s
      → ((b : Bool) (u : State W) → HasTable device_opt table u → next b u ≡ (ok true, t) → C)
      → (m >>= next) s ≡ (ok true, t)
      → C
  past m next s k at_s c h =
      on_ok m next s h λ b u e h. c b u (subst (HasTable _ _) (ap (λ x. x.1) e) (k.at s at_s)) h

  -- Where the input is found valid, in either mode, every option of the device that was given and
  -- whose type is a number holds one, so that `int(options[...])` does not raise.
  pub validate_input-numbers :
      (system : System W) (stop : Bool) (opt name : String) (spec : Spec) (value : Value)
      (s t : State W)
      → validate_input system stop s ≡ (ok true, t)
      → contains s.device_opt opt ≡ true
      → Dict.get s.all_opt opt ≡ some spec
      → is_numeric spec.type ≡ true
      → spec.longopt ≡ some name
      → HasEntry ("--" <> name) value t
      → (n : ℤ) × (int_option ("--" <> name) t ≡ (ok n, t))
  unfolding validate_input validate_from
  validate_input-numbers system stop opt name spec value s t h member entry numeric named given =
      let d = s.device_opt in
      let a = s.all_opt in
      let no_number : is_no_number value ≡ false =
        past (check lacks_login _ stop true) _ s (HasTable-check d a _ _ stop true) (refl, refl)
          (λ b s k.
            past (check lacks_address _ stop b) _ s (HasTable-check d a _ _ stop b) k (λ b s k.
              past (check lacks_password _ stop b) _ s (HasTable-check d a _ _ stop b) k (λ b s k.
                past (check lacks_identity _ stop b) _ s (HasTable-check d a _ _ stop b) k (λ b s k.
                  past (check lacks_ssh _ stop b) _ s (HasTable-check d a _ _ stop b) k (λ b s k.
                    past (check_identity_file system stop b) _ s
                      (HasTable-check_identity_file d a system stop b) k
                      (λ b s k.
                        past (check_plug stop b) _ s (HasTable-check_plug d a stop b) k (λ b s k.
                          past (check_choices stop b) _ s (HasTable-check_choices d a stop b) k
                            (λ b s k h.
                              check_types-number stop b opt name spec value s h
                                (ap (λ l. contains l opt) k.0 ∙ member)
                                (ap (λ (l : Dict Spec). Dict.get l opt) k.1 ∙ entry) numeric named
                                given))))))))
          h in
      let (n, is_n) = value-number value no_number in
      (n, int_option_of_HasEntry ("--" <> name) value n t is_n given)
