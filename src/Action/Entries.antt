-- ===== src/Action/Entries.antt =====
-- The steps of `fence_action` around the agent's functions leave an entry of `options` alone.
use fence_agents.Base.{String, not, none, some, List, string_eq}
use fence_agents.Exec.{Exec, pure, raise, modify, attribute_error, type_error, value_error}
use fence_agents.Exec.Rules.{Keeps, Keeps-pure, Keeps-raise, Keeps-if, Keeps-bind}
use fence_agents.State.{State, Value, text, number, option, has_option}
use fence_agents.State.Entries.{HasEntry, Keeps-option, Keeps-has_option}
use fence_agents.Text.{split}
use fence_agents.Action.{as_text, as_separator, split_plug, take_plugs}

module _ {W : Type 0} where
  as_text-Keeps : {P : State W → Type 0} (value : Value) → Keeps P (as_text value)
  unfolding as_text
  as_text-Keeps (text t) = Keeps-pure t
  as_text-Keeps (number n) = Keeps-raise attribute_error

  as_separator-Keeps : {P : State W → Type 0} (value : Value) → Keeps P (as_separator value)
  unfolding as_separator
  as_separator-Keeps (text t) = Keeps-pure t
  as_separator-Keeps (number n) = Keeps-raise type_error

  split_plug-Keeps :
      {P : State W → Type 0} (plug separator : String) → Keeps P (split_plug plug separator)
  unfolding split_plug
  split_plug-Keeps {P} plug separator =
      elim (split plug separator)
        as (λ found. Keeps P (elim found as (λ _. Exec (State W) (List String)) [
          | none ↦ raise value_error
          | some plugs ↦ pure plugs
        ])) [ none ↦ Keeps-raise value_error | some plugs ↦ Keeps-pure plugs ]

  modify-Keeps :
      {P : State W → Type 0} (f : State W → State W)
      → ((s : State W) → P s → P (f s))
      → Keeps P (modify f)
  modify-Keeps f k = record { at = k }

  pub take_plugs-Keeps :
      (key : String) (value : Value) → Keeps (HasEntry {W = W} key value) take_plugs
  unfolding take_plugs
  take_plugs-Keeps key value =
      Keeps-bind (has_option "--plug") _ (Keeps-has_option "--plug") λ present.
        Keeps-if (not present) (pure tt) _ (Keeps-pure tt) (
          Keeps-bind (option "--plug") _ (Keeps-option "--plug") λ given.
            Keeps-bind (as_text given) _ (as_text-Keeps given) λ plug.
              Keeps-bind (option "--plug-separator") _ (Keeps-option "--plug-separator") λ given.
                Keeps-bind (as_separator given) _ (as_separator-Keeps given) λ separator.
                  Keeps-bind (split_plug plug separator) _ (split_plug-Keeps plug separator)
                    λ plugs. modify-Keeps (λ s. record s { plugs = some plugs }) (λ s h. h))
