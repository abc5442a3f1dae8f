-- ===== src/State/Entries.antt =====
-- Which actions leave an entry of `options` alone.
use fence_agents.Base.{String, ◌≡◌, ◌∙◌, false, none, some, arith, ◌==◌, string_eq}
use fence_agents.Base.Int.{ℤ, pos, negsuc}
use fence_agents.Dict
use fence_agents.Dict.{get-put}
use fence_agents.Exec.{Outcome, ok, raise, pure, key_error, value_error}
use fence_agents.Exec.Rules.{Keeps, Keeps-raise, Keeps-pure, Keeps-bind, Ends, bind_of_ok}
use fence_agents.State.{
  State, System, Value, option, int_value, int_of_value, int_option, has_option, put_option, print,
  log, sleep,
}

module _ {W : Type 0} where
  -- options[key] is the value
  abbrev pub HasEntry : String → Value → State W → Type 0
  HasEntry key value s = Dict.get s.options key ≡ some value

  pub option_of_HasEntry :
      (key : String) (value : Value) (s : State W)
      → HasEntry key value s
      → option key s ≡ (ok value, s)
  unfolding option
  option_of_HasEntry key value s h = ground arith

  pub int_option_of_HasEntry :
      (key : String) (value : Value) (n : ℤ) (s : State W)
      → int_value value ≡ some n
      → HasEntry key value s
      → int_option key s ≡ (ok n, s)
  unfolding int_option
  int_option_of_HasEntry key value n s e h =
      bind_of_ok (option key) int_of_value s (option_of_HasEntry key value s h) ∙ ground arith

  -- Actions that only read keep everything.
  module _ {P : State W → Type 0} where
    pub Keeps-option : (key : String) → Keeps P (option key)
    unfolding option
    Keeps-option key = record {
      at = λ s h.
          elim (Dict.get s.options key)
            as (λ found.
              P
                (elim found as (λ _. Outcome Value × State W) [
                  | none ↦ raise (key_error key) s
                  | some value ↦ pure value s
                ]).1) [ none ↦ h | some value ↦ h ];
    }

    pub Keeps-int_of_value : (value : Value) → Keeps P (int_of_value value)
    unfolding int_of_value
    Keeps-int_of_value value =
        elim (int_value value)
          as (λ found.
            Keeps P (elim found [ none ↦ raise {S = State W} value_error | some n ↦ pure n ])) [
              | none ↦ Keeps-raise value_error
              | some n ↦ Keeps-pure n
            ]

    pub Keeps-int_option : (key : String) → Keeps P (int_option key)
    unfolding int_option
    Keeps-int_option key =
        Keeps-bind (option key) int_of_value (Keeps-option key) Keeps-int_of_value

    pub Keeps-has_option : (key : String) → Keeps P (has_option key)
    unfolding has_option
    Keeps-has_option key = record { at = λ s h. h }

    pub Ends-option : (key : String) → Ends P (option key)
    unfolding option
    Ends-option key = record { at = λ s h e. ground arith }

    pub Ends-int_option : (key : String) → Ends P (int_option key)
    unfolding int_option
    Ends-int_option key = record { at = λ s h e. ground arith }

  module _ (key : String) (value : Value) where
    pub HasEntry-sleep : (system : System W) (n : ℤ) → Keeps (HasEntry key value) (sleep system n)
    unfolding sleep
    HasEntry-sleep system (pos n) = record { at = λ s h. h }
    HasEntry-sleep system (negsuc n) = record { at = λ s h. h }

    pub HasEntry-print : (line : String) → Keeps (HasEntry key value) (print line)
    unfolding print
    HasEntry-print line = record { at = λ s h. h }

    pub HasEntry-log : (line : String) → Keeps (HasEntry key value) (log line)
    unfolding log
    HasEntry-log line = record { at = λ s h. h }

    pub HasEntry-put_option :
        (other : String) (new : Value)
        → (key == other) ≡ false
        → Keeps (HasEntry key value) (put_option other new)
    unfolding put_option
    HasEntry-put_option other new differ = record { at = λ s h. rw get-put (rw differ h) }

  pub Ends-sleep : {P : State W → Type 0} (system : System W) (n : ℤ) → Ends P (sleep system n)
  unfolding sleep
  Ends-sleep system (pos n) = record { at = λ s h e. cc }
  Ends-sleep system (negsuc n) = record { at = λ s h e. cc }
