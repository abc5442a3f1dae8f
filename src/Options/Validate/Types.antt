-- ===== src/Options/Validate/Types.antt =====
-- The check of the types by itself: it only reads, and it passes where no given option fails.
use fence_agents.Base.{
  String, ◌<>◌, ◌≡◌, ◌⊎◌, refl, sym, ap, ◌∙◌, subst, Bool, true, false, not, ◌&&◌, Option, none,
  some, List, [], ◌∷◌, arith, contains, Option-cases, inl, inr, string_eq, if◌then◌else◌,
}
use fence_agents.Base.Int.{ℤ}
use fence_agents.Dict
use fence_agents.Exec.{Exec, ok, exit, pure, ◌>>=◌}
use fence_agents.Exec.Rules.{Keeps, Keeps-pure, Keeps-if, Keeps-bind, on_ok, bind_of_ok}
use fence_agents.State.{State, Value, has_option, option, int_value}
use fence_agents.Options.Defaults.Filled.{spec_of-ok}
use fence_agents.Dict.{Dict}
use fence_agents.State.Entries.{HasEntry, option_of_HasEntry, Keeps-has_option, Keeps-option}
use fence_agents.Failure.{generic_status}
use fence_agents.Options.Spec.{Spec}
use fence_agents.Options.Defaults.{spec_of, longopt_of}
use fence_agents.Options.Defaults.Laws.{Keeps-spec_of, Keeps-longopt_of}
use fence_agents.Options.Validate.{
  reject, reject_all, fails_type, invalid_types, is_numeric, is_no_number, if_failed,
}
use fence_agents.Options.Validate.Modes.{reject-goes_on, reject-stops}

if_failed-none :
    (failed : Bool) (opt : String) (rest : List String)
    → if_failed failed opt rest ≡ []
    → (failed ≡ false) × (rest ≡ [])
if_failed-none true opt rest h = absurd (cc h)
if_failed-none false opt rest h = (refl, h)

member-cases :
    (o : String) (opts : List String) (opt : String)
    → contains (o ∷ opts) opt ≡ true
    → (opt ≡ o) ⊎ (contains opts opt ≡ true)
member-cases o opts opt c = ground arith

pub value-number :
    (value : Value) → is_no_number value ≡ false → (n : ℤ) × (int_value value ≡ some n)
value-number value h = elim (Option-cases (int_value value)) [
  | inl e ↦ absurd (cc (rw (e, is_no_number) at h))
  | inr (n, e) ↦ (n, e)
]

module _ {W : Type 0} where
  reject-false :
      (message : String) (stop : Bool) (s : State W) {b : Bool} {t : State W}
      → reject message stop s ≡ (ok b, t)
      → b ≡ false
  reject-false message true s h = absurd (differ (sym (reject-stops message s) ∙ ap (λ x. x.0) h))
    where
      differ : {b : Bool} → exit generic_status ≡ ok b → ⊥
      differ h = cc
  reject-false message false s h = ok_inj (sym (ap (λ x. x.0) h) ∙ reject-goes_on message s)
    where
      ok_inj : {a b : Bool} → ok a ≡ ok b → a ≡ b
      ok_inj h = ground arith

  -- An answer that is false stays false.
  reject_all-false :
      (message : Spec → String → String) (opts : List String) (stop : Bool) (s : State W)
      {t : State W}
      → reject_all message opts stop false s ≡ (ok true, t)
      → ⊥
  unfolding reject_all
  reject_all-false message [] stop s h = cc
  reject_all-false message (opt ∷ opts) stop s h = on_ok (spec_of opt) _ s h λ spec u e h.
      on_ok (longopt_of spec) _ u h λ name v e h.
        on_ok (reject (message spec name) stop) (reject_all message opts stop) v h λ b w e h.
          reject_all-false message opts stop w (rw (reject-false (message spec name) stop v e) at h)

  pub reject_all-true :
      (message : Spec → String → String) (opts : List String) (stop valid : Bool) (s : State W)
      {t : State W}
      → reject_all message opts stop valid s ≡ (ok true, t)
      → (opts ≡ []) × (s ≡ t)
  unfolding reject_all
  reject_all-true message [] stop valid s h = (refl, ap (λ x. x.1) h)
  reject_all-true message (opt ∷ opts) stop valid s h = absurd (
      on_ok (spec_of opt) _ s h λ spec u e h. on_ok (longopt_of spec) _ u h λ name v e h.
        on_ok (reject (message spec name) stop) (reject_all message opts stop) v h λ b w e h.
          reject_all-false message opts stop w
            (rw (reject-false (message spec name) stop v e) at h))

  -- The types are only looked at.
  module _ {P : State W → Type 0} where
    Keeps-fails_type : (spec : Spec) (type : Option String) → Keeps P (fails_type spec type)
    unfolding fails_type
    Keeps-fails_type spec none = Keeps-pure false
    Keeps-fails_type spec (some type) =
        Keeps-bind (longopt_of spec) _ (Keeps-longopt_of spec) λ name.
          Keeps-bind (has_option ("--" <> name)) _ (Keeps-has_option ("--" <> name)) λ given.
            Keeps-if (not (given && is_numeric (some type))) _ _ (Keeps-pure false) (
              Keeps-bind (option ("--" <> name)) _ (Keeps-option ("--" <> name))
                λ value. Keeps-pure (is_no_number value))

    pub Keeps-invalid_types : (opts : List String) → Keeps P (invalid_types opts)
    unfolding invalid_types
    Keeps-invalid_types [] = Keeps-pure []
    Keeps-invalid_types (opt ∷ opts) = Keeps-bind (spec_of opt) _ (Keeps-spec_of opt) λ spec.
        Keeps-bind (fails_type spec spec.type) _ (Keeps-fails_type spec spec.type) λ failed.
          Keeps-bind (invalid_types opts) _ (Keeps-invalid_types opts)
            λ rest. Keeps-pure (if_failed failed opt rest)

  pub same :
      {A : Type 0} (m : Exec (State W) A) (s : State W) {a : A} {t : State W}
      → Keeps (λ u. s ≡ u) m
      → m s ≡ (ok a, t)
      → s ≡ t
  same m s k h = k.at s refl ∙ ap (λ x. x.1) h

  longopt_of-some :
      (spec : Spec) (name : String) (s : State W)
      → spec.longopt ≡ some name
      → longopt_of spec s ≡ (ok name, s)
  unfolding longopt_of
  longopt_of-some spec name s h = rw h

  has_option-given :
      (key : String) (value : Value) (s : State W)
      → HasEntry key value s
      → has_option key s ≡ (ok true, s)
  unfolding has_option Dict.has
  has_option-given key value s h = ap (λ b. (ok b, s)) (rw (h, Dict.has) refl)

  read_number :
      (key type : String) (value : Value) (s : State W)
      → is_numeric (some type) ≡ true
      → HasEntry key value s
      → (has_option key >>= λ given.
            if not (given && is_numeric (some type))
            then pure false
            else (option key >>= λ value. pure (is_no_number value)))
          s
        ≡ (ok (is_no_number value), s)
  read_number key type value s numeric given =
      bind_of_ok (has_option key) _ s (has_option-given key value s given)
      ∙ rw numeric (
          bind_of_ok (option key) (λ value. pure (is_no_number value)) s
            (option_of_HasEntry key value s given))

  pub fails_type-false :
      (spec : Spec) (type : Option String) (name : String) (value : Value) (s : State W)
      {t : State W}
      → is_numeric type ≡ true
      → spec.longopt ≡ some name
      → HasEntry ("--" <> name) value s
      → fails_type spec type s ≡ (ok false, t)
      → is_no_number value ≡ false
  unfolding fails_type
  fails_type-false spec none name value s numeric named given h = absurd (cc numeric)
  fails_type-false spec (some type) name value s numeric named given h = ok_inj (
      ap (λ x. x.0)
        (sym (read_number ("--" <> name) type value s numeric given)
          ∙ sym (bind_of_ok (longopt_of spec) _ s (longopt_of-some spec name s named))
          ∙ h))
    where
      ok_inj : {a b : Bool} → ok a ≡ ok b → a ≡ b
      ok_inj h = ground arith

  -- Where no option fails, a given one does not.
  pub invalid_types-none :
      (opts : List String) (opt : String) (spec : Spec) (s t : State W) (failed : List String)
      → failed ≡ []
      → invalid_types opts s ≡ (ok failed, t)
      → contains opts opt ≡ true
      → Dict.get s.all_opt opt ≡ some spec
      → (u : State W) × (fails_type spec spec.type s ≡ (ok false, u))
  unfolding invalid_types
  invalid_types-none [] opt spec s t failed nobody h member entry = absurd (cc member)
  invalid_types-none (o ∷ opts) opt spec s t failed nobody h member entry =
      on_ok (spec_of o) _ s h λ found u e h.
        on_ok (fails_type found found.type) _ u h λ fails v e' h.
          on_ok (invalid_types opts) _ v h λ rest w e'' h.
            let (good, empty) = if_failed-none fails o rest (ok_inj (ap (λ x. x.0) h) ∙ nobody) in
            let (stands, at_s) = spec_of-ok o s e in
            let at_u =
              same (fails_type found found.type) u (Keeps-fails_type found found.type) e' in
            let back = sym (at_s ∙ at_u) in
            elim (member-cases o opts opt member) [
              | inl here ↦
                  let is_found : found ≡ spec = some_inj (sym stands ∙ rw here at entry) in
                  (
                    v,
                    subst (λ z. fails_type z z.type s ≡ (ok false, v)) is_found
                        (ap (fails_type found found.type) at_s ∙ e' ∙ ap (λ b. (ok b, v)) good),
                  )
              | inr later ↦
                  invalid_types-none opts opt spec s w rest empty
                    (ap (invalid_types opts) (sym back) ∙ e'') later entry
            ]
    where
      ok_inj : {a b : List String} → ok a ≡ ok b → a ≡ b
      ok_inj h = ground arith

      some_inj : {a b : Spec} → some a ≡ some b → a ≡ b
      some_inj h = ground arith
