-- ===== src/Options/Validate/Kept.antt =====
-- The checks in front of the last one leave the device options and the table alone.
use fence_agents.Base.{String, ◌≡◌, Bool, true, false, Option, none, some, List, [], ◌∷◌, string_eq}
use fence_agents.Dict.{Dict}
use fence_agents.Exec.{leave, gets, attribute_error, type_error}
use fence_agents.Exec.Rules.{Keeps, Keeps-pure, Keeps-raise, Keeps-gets, Keeps-bind, keeps_rules}
use fence_agents.State.{State, System, Value, text, number, put_option, log}
use fence_agents.State.Entries.{Keeps-option}
use fence_agents.Failure.{fail_usage, generic_status}
use fence_agents.Action.{as_text}
use fence_agents.Options.Spec.{Spec}
use fence_agents.Options.Defaults.{spec_of, longopt_of}
use fence_agents.Options.Defaults.Laws.{Keeps-spec_of, Keeps-longopt_of}
use fence_agents.Options.Validate.{
  reject, reject_if, reject_all, check, check_identity_file, identity_file_step, check_plug,
  check_choices, fails_choice, invalid_choices, if_failed,
}

module _ {W : Type 0} (device_opt : List String) (table : Dict Spec) where
  abbrev pub HasTable : State W → Type 0
  HasTable s = (s.device_opt ≡ device_opt) × (s.all_opt ≡ table)

  HasTable-log : (line : String) → Keeps HasTable (log line)
  unfolding log
  HasTable-log line = record { at = λ s h. h }

  HasTable-put_option : (key : String) (value : Value) → Keeps HasTable (put_option key value)
  unfolding put_option
  HasTable-put_option key value = record { at = λ s h. h }

  HasTable-leave : Keeps HasTable (leave {A = Unit {0}} generic_status)
  HasTable-leave = record { at = λ s h. h }

  HasTable-as_text : (value : Value) → Keeps HasTable (as_text value)
  unfolding as_text
  HasTable-as_text (text t) = Keeps-pure t
  HasTable-as_text (number n) = Keeps-raise attribute_error

  HasTable-fail_usage : (message : String) (stop : Bool) → Keeps HasTable (fail_usage message stop)
  unfolding fail_usage
  HasTable-fail_usage message stop = search (keeps_rules, HasTable-log, HasTable-leave) depth 10

  HasTable-reject : (message : String) (stop : Bool) → Keeps HasTable (reject message stop)
  unfolding reject
  HasTable-reject message stop =
      Keeps-bind (fail_usage message stop) _ (HasTable-fail_usage message stop)
        λ _. Keeps-pure false

  HasTable-reject_if :
      (bad : Bool) (message : String) (stop valid : Bool)
      → Keeps HasTable (reject_if bad message stop valid)
  unfolding reject_if
  HasTable-reject_if true message stop valid = HasTable-reject message stop
  HasTable-reject_if false message stop valid = Keeps-pure valid

  pub HasTable-check :
      (lacks : State W → Bool) (message : String) (stop valid : Bool)
      → Keeps HasTable (check lacks message stop valid)
  unfolding check
  HasTable-check lacks message stop valid =
      Keeps-bind (gets lacks) _ (Keeps-gets lacks) λ bad. HasTable-reject_if bad message stop valid

  HasTable-identity_file_step :
      (system : System W) (stop valid : Bool) (value : Value)
      → Keeps HasTable (identity_file_step system stop valid value)
  unfolding identity_file_step
  HasTable-identity_file_step system stop valid (number n) = Keeps-raise type_error
  HasTable-identity_file_step system stop valid (text path) =
      search (keeps_rules, HasTable-reject_if) depth 10

  pub HasTable-check_identity_file :
      (system : System W) (stop valid : Bool)
      → Keeps HasTable (check_identity_file system stop valid)
  unfolding check_identity_file
  HasTable-check_identity_file system stop valid =
      search (keeps_rules, Keeps-option, HasTable-identity_file_step) depth 10

  pub HasTable-check_plug : (stop valid : Bool) → Keeps HasTable (check_plug stop valid)
  unfolding check_plug
  HasTable-check_plug stop valid = search (keeps_rules, Keeps-option, HasTable-reject_if) depth 10

  HasTable-fails_choice :
      (spec : Spec) (choices : Option (List String)) → Keeps HasTable (fails_choice spec choices)
  unfolding fails_choice
  HasTable-fails_choice spec none = Keeps-pure false
  HasTable-fails_choice spec (some choices) =
      search (keeps_rules, Keeps-longopt_of, Keeps-option, HasTable-as_text, HasTable-put_option)
        depth 14

  HasTable-invalid_choices : (opts : List String) → Keeps HasTable (invalid_choices opts)
  unfolding invalid_choices
  HasTable-invalid_choices [] = Keeps-pure []
  HasTable-invalid_choices (opt ∷ opts) = Keeps-bind (spec_of opt) _ (Keeps-spec_of opt) λ spec.
      Keeps-bind (fails_choice spec spec.choices) _ (HasTable-fails_choice spec spec.choices)
        λ failed.
          Keeps-bind (invalid_choices opts) _ (HasTable-invalid_choices opts)
            λ rest. Keeps-pure (if_failed failed opt rest)

  HasTable-reject_all :
      (message : Spec → String → String) (opts : List String) (stop valid : Bool)
      → Keeps HasTable (reject_all message opts stop valid)
  unfolding reject_all
  HasTable-reject_all message [] stop valid = Keeps-pure valid
  HasTable-reject_all message (opt ∷ opts) stop valid =
      Keeps-bind (spec_of opt) _ (Keeps-spec_of opt) λ spec.
        Keeps-bind (longopt_of spec) _ (Keeps-longopt_of spec) λ name.
          Keeps-bind (reject (message spec name) stop) _ (HasTable-reject (message spec name) stop)
            λ b. HasTable-reject_all message opts stop b

  pub HasTable-check_choices : (stop valid : Bool) → Keeps HasTable (check_choices stop valid)
  unfolding check_choices
  HasTable-check_choices stop valid =
      search (keeps_rules, HasTable-invalid_choices, HasTable-reject_all) depth 10
