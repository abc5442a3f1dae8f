-- ===== src/Power/Polling.antt =====
-- The polling of `async_set_multi_power` ends: with a positive "--power-timeout" every attempt makes
-- at most that many rounds.
use Prim.Native.Nat.{suc, zero}
use fence_agents.Base.{
  ℕ, ◌+◌, ◌≤◌, ◌<◌, String, ◌≡◌, refl, sym, ap, ◌∙◌, ◌⊎◌, ◌≢◌, Bool, true, false, some, List, [],
  ◌∷◌, arith, Bool-cases, inl, inr, ◌==◌, string_eq, if◌then◌else◌,
}
use fence_agents.Base.Int.{ℤ, pos_part}
use fence_agents.Exec.{Exec, diverged, pure}
use fence_agents.Exec.Rules.{Keeps, Ends, Ends-pure, Ends-if, Ends-bind, bind_of_ok}
use fence_agents.State.{State, System, Value, int_value, option, int_option, sleep}
use fence_agents.State.Entries.{
  HasEntry, Keeps-option, Keeps-int_option, HasEntry-sleep, Ends-option, Ends-int_option,
  Ends-sleep, int_option_of_HasEntry,
}
use fence_agents.Power.{
  select, poll_plugs, get_multi_power, command_plugs, expired, is_text, wait_more, wait_for,
  set_attempts, async_set_multi_power, plugs_of,
}
use fence_agents.Power.Entries.{
  IsApart, select-Keeps, get_multi_power-Keeps, wait_for-Keeps, command_plugs-Keeps,
}

timeout-IsApart : IsApart "--power-timeout"
unfolding string_eq
timeout-IsApart = record { not_uuid = refl; not_plug = refl }

module _ {W : Type 0} (value : Value) (limit : ℤ) (reads : int_value value ≡ some limit) where
  abbrev Timed : State W → Type 0
  Timed s = HasEntry "--power-timeout" value s

  module _ (system : System W) where
    wait_more-Ends :
        (round : ℕ) (again : Exec (State W) Bool)
        → (expired limit round ≡ true) ⊎ Ends Timed again
        → Ends Timed (wait_more system round again)
    unfolding wait_more
    wait_more-Ends round again next =
        Ends-bind (int_option "--stonith-status-sleep") _
          (Keeps-int_option "--stonith-status-sleep") (Ends-int_option "--stonith-status-sleep")
          λ pause.
            Ends-bind (sleep system pause) _ (HasEntry-sleep "--power-timeout" value system pause)
              (Ends-sleep system pause)
              λ _. record {
                at = λ s h e.
                    last s
                      (ap (λ x. x.0)
                          (sym (
                            bind_of_ok (int_option "--power-timeout") _ s
                              (int_option_of_HasEntry "--power-timeout" value limit s reads h)))
                        ∙ e)
                      h next;
              }
      where
        last :
            (s : State W)
            → ((if expired limit round then pure false else again) s).0 ≡ diverged
            → Timed s
            → (expired limit round ≡ true) ⊎ Ends Timed again
            → ⊥
        last s e h (inl over) = cc (rw over at e)
        last s e h (inr ends) = elim (Bool-cases (expired limit round)) [
          | inl over ↦ cc (rw over at e)
          | inr more ↦ ends.at s h (rw more at e)
        ]

    -- with `limit - round` rounds and one more left, the polling ends
    wait_for-Ends :
        (status : Exec (State W) String)
        → Keeps Timed status
        → Ends Timed status
        → 0 < pos_part limit
        → (fuel round : ℕ) → 0 < fuel
        → pos_part limit < fuel + round
        → Ends Timed (wait_for system status fuel round)
    unfolding wait_for
    wait_for-Ends status ks es positive zero round some_fuel enough = absurd (omega arith)
    wait_for-Ends status ks es positive (suc fuel) round some_fuel enough =
        Ends-bind status _ ks es λ r.
          Ends-bind (option "--action") _ (Keeps-option "--action") (Ends-option "--action")
            λ action. Ends-if (is_text action r) (pure true) _ (Ends-pure true) (
              wait_more-Ends round _ (elim (Bool-cases (expired limit round)) [
                | inl over ↦ inl over
                | inr more ↦ inr (
                    wait_for-Ends status ks es positive fuel (round + 1) (ground (arith, more))
                      (omega arith))
              ]))

    select-Ends : (plug : String) → Ends Timed (select plug)
    unfolding select
    select-Ends plug = record { at = λ s h e. ground arith }

    module _ (get_power : Exec (State W) String) (kg : Keeps Timed get_power)
        (eg : Ends Timed get_power) where
      poll_plugs-Ends :
          (plugs : List String) (status : String)
          → Ends Timed (poll_plugs (some get_power) plugs status)
      unfolding poll_plugs
      poll_plugs-Ends [] status = Ends-pure status
      poll_plugs-Ends (plug ∷ plugs) status =
          Ends-bind (select plug) _ (select-Keeps "--power-timeout" value timeout-IsApart plug)
            (select-Ends plug)
            λ _.
              Ends-bind get_power _ kg eg
                λ r. poll_plugs-Ends plugs (if r == "off" then status else r)

      get_multi_power-Ends : Ends Timed (get_multi_power (some get_power))
      unfolding get_multi_power
      get_multi_power-Ends = record { at = λ s. (poll_plugs-Ends (plugs_of s) "off").at s }

      module _ (set_power : Exec (State W) (Unit {0})) (ks : Keeps Timed set_power)
          (es : Ends Timed set_power) where
        command_plugs-Ends :
            (plugs : List String) → Ends Timed (command_plugs system set_power plugs)
        unfolding command_plugs
        command_plugs-Ends [] = Ends-pure tt
        command_plugs-Ends (plug ∷ plugs) =
            Ends-bind (select plug) _ (select-Keeps "--power-timeout" value timeout-IsApart plug)
              (select-Ends plug)
              λ _. Ends-bind set_power _ ks es λ _.
                Ends-bind (int_option "--power-wait") _ (Keeps-int_option "--power-wait")
                  (Ends-int_option "--power-wait")
                  λ wait.
                    Ends-bind (sleep system wait) _
                      (HasEntry-sleep "--power-timeout" value system wait) (Ends-sleep system wait)
                      λ _. command_plugs-Ends plugs

        set_attempts-Ends :
            0 < pos_part limit
            → (fuel : ℕ) → pos_part limit ≤ fuel
            → (plugs : List String) (n : ℕ)
            → Ends Timed
                (set_attempts system set_power (get_multi_power (some get_power)) fuel plugs n)
        unfolding set_attempts
        set_attempts-Ends positive fuel enough plugs zero = Ends-pure false
        set_attempts-Ends positive fuel enough plugs (suc n) =
            Ends-bind (command_plugs system set_power plugs) _
              (command_plugs-Keeps "--power-timeout" value timeout-IsApart system set_power ks
                plugs)
              (command_plugs-Ends plugs)
              λ _.
                Ends-bind (wait_for system (get_multi_power (some get_power)) fuel 1) _
                  (wait_for-Keeps "--power-timeout" value timeout-IsApart system _
                    (get_multi_power-Keeps "--power-timeout" value timeout-IsApart get_power kg)
                    fuel 1)
                  (wait_for-Ends _
                    (get_multi_power-Keeps "--power-timeout" value timeout-IsApart get_power kg)
                    get_multi_power-Ends positive fuel 1 (omega arith) (omega arith))
                  λ done.
                    Ends-if done (pure true) _ (Ends-pure true)
                      (set_attempts-Ends positive fuel enough plugs n)

        -- Where the entry "--power-timeout" is a positive number, the agent's functions leave it alone,
        -- and they return or raise, the command and its polling end, with at most "--power-timeout"
        -- rounds of polling for each attempt.
        pub async_set_multi_power-Ends :
            0 < pos_part limit
            → (fuel : ℕ) → pos_part limit ≤ fuel
            → (attempts : ℕ) (s : State W) → HasEntry "--power-timeout" value s
            → (async_set_multi_power system set_power get_power fuel attempts s).0 ≢ diverged
        unfolding async_set_multi_power
        async_set_multi_power-Ends positive fuel enough attempts s h =
            (set_attempts-Ends positive fuel enough (plugs_of s) attempts).at s h
