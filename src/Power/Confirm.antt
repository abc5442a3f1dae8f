-- ===== src/Power/Confirm.antt =====
-- What a success of `set_multi_power` rests on: a reading of all plugs that agrees with the action,
-- or for synchronous agents an attempt on each plug that reported success.
use Prim.Native.Nat.{suc, zero}
use fence_agents.Base.{
  ℕ, ◌+◌, String, ◌≡◌, sym, ap, ◌∙◌, subst, Bool, true, ◌⊎◌, inl, inr, some, List, arith,
  Bool-cases, nat_eq, string_eq,
}
use fence_agents.Dict
use fence_agents.Exec.{Exec, ok}
use fence_agents.Exec.Rules.{on_ok}
use fence_agents.State.{State, System, Value, text, number, option, int_option, sleep}
use fence_agents.Power.{
  plugs_of, is_text, get_multi_power, command_plugs, expired, wait_more, wait_round, wait_for,
  set_attempts, async_set_multi_power,
}
use fence_agents.Power.Status.{overall, Reads, get_multi_power-Reads}

pub text_of_is_text : (v : Value) (r : String) → is_text v r ≡ true → v ≡ text r
text_of_is_text (text t) r h = ground arith
text_of_is_text (number n) r h = absurd (cc)

module _ {W : Type 0} where
  pub option-ok :
      (key : String) (s : State W) {v : Value} {t : State W}
      → option key s ≡ (ok v, t)
      → (Dict.get s.options key ≡ some v) × (s ≡ t)
  unfolding option
  option-ok key s h = ground arith

  -- The state ends a reading of all plugs that agrees with the action in its options.
  pub record Confirmed (get_power : Exec (State W) String) (t : State W) : Type 0 where
    pub before : State W
    pub statuses : List String
    pub reads : Reads get_power (plugs_of before) before statuses t
    pub agrees : Dict.get t.options "--action" ≡ some (text (overall statuses))

  module _ (system : System W) (get_power : Exec (State W) String) where
    confirm :
        (s : State W) (action : Value) (r : String) (u v : State W) {t : State W}
        → get_multi_power (some get_power) s ≡ (ok r, u)
        → option "--action" u ≡ (ok action, v)
        → is_text action r ≡ true
        → v ≡ t
        → Confirmed get_power t
    confirm s action r u v read found agrees end =
        let (statuses, reads, sum) = get_multi_power-Reads get_power s read in
        let (entry, same) = option-ok "--action" u found in
        record {
          before = s;
          statuses = statuses;
          reads = subst (λ w. Reads get_power (plugs_of s) s statuses w) (same ∙ end) reads;
          agrees =
              ap (λ (w : State W). Dict.get w.options "--action") (sym (same ∙ end))
              ∙ entry
              ∙ ap some (text_of_is_text action r agrees ∙ ap text sum);
        }

    wait_more-true :
        (round : ℕ) (again : Exec (State W) Bool) (s : State W) {t : State W}
        → wait_more system round again s ≡ (ok true, t)
        → (u : State W) × (again u ≡ (ok true, t))
    unfolding wait_more
    wait_more-true round again s {t} h =
        on_ok (int_option "--stonith-status-sleep") _ s h λ pause u _ h.
          on_ok (sleep system pause) _ u h λ _ u _ h.
            on_ok (int_option "--power-timeout") _ u h λ limit u _ h.
              elim (Bool-cases (expired limit round)) [
                | inl over ↦ absurd (cc (rw over at h))
                | inr more ↦ (u, rw more at h)
              ]

    -- A round that ends with `true` has confirmed the action itself, or a later round has.
    wait_round-true :
        (round : ℕ) (again : Exec (State W) Bool) (s : State W) {t : State W}
        → wait_round system (get_multi_power (some get_power)) round again s ≡ (ok true, t)
        → Confirmed get_power t ⊎ ((u : State W) × (again u ≡ (ok true, t)))
    unfolding wait_round
    wait_round-true round again s {t} h =
        on_ok (get_multi_power (some get_power)) _ s h λ r u read h.
          on_ok (option "--action") _ u h λ action v found h. elim (Bool-cases (is_text action r)) [
            | inl agrees ↦
                inl (confirm s action r u v read found agrees (ap (λ x. x.1) (rw agrees at h)))
            | inr differs ↦ inr (wait_more-true round again v (rw differs at h))
          ]

    wait_for-Confirmed :
        (fuel round : ℕ) (s : State W) {t : State W}
        → wait_for system (get_multi_power (some get_power)) fuel round s ≡ (ok true, t)
        → Confirmed get_power t
    unfolding wait_for
    wait_for-Confirmed zero round s h = absurd (cc)
    wait_for-Confirmed (suc fuel) round s h =
        elim (wait_round-true round
          (wait_for system (get_multi_power (some get_power)) fuel (round + 1)) s h) [
            | inl confirmed ↦ confirmed
            | inr (u, later) ↦ wait_for-Confirmed fuel (round + 1) u later
          ]

    set_attempts-Confirmed :
        (set_power : Exec (State W) (Unit {0})) (fuel : ℕ) (plugs : List String) (n : ℕ)
        (s : State W) {t : State W}
        → set_attempts system set_power (get_multi_power (some get_power)) fuel plugs n s
          ≡ (ok true, t)
        → Confirmed get_power t
    unfolding set_attempts
    set_attempts-Confirmed set_power fuel plugs zero s h = absurd (cc)
    set_attempts-Confirmed set_power fuel plugs (suc n) s h =
        on_ok (command_plugs system set_power plugs) _ s h λ _ u _ h.
          on_ok (wait_for system (get_multi_power (some get_power)) fuel 1) _ u h λ done v waited h.
            elim (Bool-cases done) [
              | inl true_done ↦
                  wait_for-Confirmed fuel 1 u
                    (waited ∙ (λ i. (ok (true_done i), (ap (λ x. x.1) (rw true_done at h)) i)))
              | inr false_done ↦
                  set_attempts-Confirmed set_power fuel plugs n v (rw false_done at h)
            ]

    -- An asynchronous agent reports success only in a state that ends a reading of all plugs whose
    -- common status is the action in the options.
    pub async_set_multi_power-Confirmed :
        (set_power : Exec (State W) (Unit {0})) (fuel attempts : ℕ) (s t : State W)
        → async_set_multi_power system set_power get_power fuel attempts s ≡ (ok true, t)
        → Confirmed get_power t
    unfolding async_set_multi_power
    async_set_multi_power-Confirmed set_power fuel attempts s t h =
        set_attempts-Confirmed set_power fuel (plugs_of s) attempts s h
