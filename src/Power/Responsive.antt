-- ===== src/Power/Responsive.antt =====
-- A device that answers in time: the command of `async_set_multi_power` in lib/fencing.py.py succeeds.
use Prim.Native.Nat.{suc, zero}
use fence_agents.Base.{
  ℕ, ◌+◌, ◌≤◌, ◌<◌, String, ◌≡◌, ◌∙◌, Bool, true, false, some, arith, ==_refl, ◌==◌, string_eq,
}
use fence_agents.Base.Int.{pos}
use fence_agents.Exec.{Exec, ok, pure}
use fence_agents.Exec.Rules.{bind_of_ok, run_then, run_else}
use fence_agents.State.{State, System, Value, text, int_value, option, int_option, sleep}
use fence_agents.State.Entries.{HasEntry, option_of_HasEntry, int_option_of_HasEntry}
use fence_agents.Power.{
  get_multi_power, command_plugs, expired, is_text, wait_more, wait_round, wait_for, set_round,
  set_attempts, async_set_multi_power, plugs_of,
}

-- What the command needs of the options: the action, the limit of the polling and the pause in it.
pub record Timing {W : Type 0} (action : String) (limit pause : ℕ) (s : State W) : Type 0 where
  pub action_entry : HasEntry "--action" (text action) s
  pub limit_value : Value
  pub limit_entry : HasEntry "--power-timeout" limit_value s
  pub limit_read : int_value limit_value ≡ some (pos limit)
  pub pause_value : Value
  pub pause_entry : HasEntry "--stonith-status-sleep" pause_value s
  pub pause_read : int_value pause_value ≡ some (pos pause)

module _ {W : Type 0} (system : System W) (action : String) (limit pause : ℕ)
    (status : Exec (State W) String) where
  abbrev pub passed : State W → State W
  passed s = record s { world = system.pass pause s.world }

  -- From the state, a reading of all plugs gives the action after this many readings that give something
  -- else, with a pause after each of them.
  pub data Settles : ℕ → State W → Type 0 where
    now : {s t : State W} → status s ≡ (ok action, t) → Timing action limit pause t → Settles 0 s
    later :
        {n : ℕ} {r : String} {s t : State W}
        → status s ≡ (ok r, t)
        → (action == r) ≡ false
        → Timing action limit pause t
        → Settles n (passed t)
        → Settles (suc n) s

  agrees : is_text (text action) action ≡ true
  agrees = ==_refl action

  differs : (r : String) → (action == r) ≡ false → is_text (text action) r ≡ false
  differs r h = h

  pause-ok :
      (round : ℕ) (again : Exec (State W) Bool) (t : State W)
      → Timing action limit pause t
      → expired (pos limit) round ≡ false
      → wait_more system round again t ≡ again (passed t)
  unfolding wait_more sleep
  pause-ok round again t timing more =
      bind_of_ok (int_option "--stonith-status-sleep") _ t (
        int_option_of_HasEntry "--stonith-status-sleep" timing.pause_value (pos pause) t
          timing.pause_read timing.pause_entry)
      ∙ bind_of_ok (int_option "--power-timeout") _ (passed t) (
          int_option_of_HasEntry "--power-timeout" timing.limit_value (pos limit) (passed t)
            timing.limit_read timing.limit_entry)
      ∙ run_else (expired (pos limit) round) (pure false) again (passed t) more

  within : (round n : ℕ) → round + suc n ≤ limit → expired (pos limit) round ≡ false
  within round n h = ground arith

  wait_for-Settles :
      (n fuel round : ℕ) (s : State W)
      → n < fuel
      → round + n ≤ limit
      → Settles n s
      → (t : State W) × (wait_for system status fuel round s ≡ (ok true, t))
  unfolding wait_for wait_round
  wait_for-Settles n zero round s enough small settles = absurd (omega arith)
  wait_for-Settles zero (suc fuel) round s enough small (now {t = t} read timing) = (
    t,
    bind_of_ok status _ s read
        ∙ bind_of_ok (option "--action") _ t
            (option_of_HasEntry "--action" (text action) t timing.action_entry)
        ∙ run_then (is_text (text action) action) _ _ t agrees,
  )
  wait_for-Settles (suc n) (suc fuel) round s enough small
        (later {r = r} {t = t} read differ timing settles) =
      let (last, rest) =
        wait_for-Settles n fuel (round + 1) (passed t) (omega arith) (omega arith) settles in
      (
        last,
        bind_of_ok status _ s read
            ∙ bind_of_ok (option "--action") _ t
                (option_of_HasEntry "--action" (text action) t timing.action_entry)
            ∙ run_else (is_text (text action) r) _ _ t (differs r differ)
            ∙ pause-ok round _ t timing (within round n small)
            ∙ rest,
      )

module _ {W : Type 0} (system : System W) (action : String) (limit pause : ℕ)
    (set_power : Exec (State W) (Unit {0})) (get_power : Exec (State W) String) where
  -- Where the command goes out to all plugs, and the common status of the plugs becomes the action after
  -- fewer readings than "--power-timeout" allows, the command reports success.
  pub async_set_multi_power-responsive :
      (n fuel attempts : ℕ) (s sent : State W)
      → n < limit
      → limit ≤ fuel
      → command_plugs system set_power (plugs_of s) s ≡ (ok tt, sent)
      → Settles system action limit pause (get_multi_power (some get_power)) n sent
      → (t : State W) × (async_set_multi_power system set_power get_power fuel (suc attempts) s
          ≡ (ok true, t))
  unfolding async_set_multi_power set_attempts set_round
  async_set_multi_power-responsive n fuel attempts s sent early enough command settles =
      let (t, waited) =
        wait_for-Settles system action limit pause (get_multi_power (some get_power)) n fuel 1 sent
          (omega arith) (omega arith) settles in
      (
        t,
        bind_of_ok (command_plugs system set_power (plugs_of s)) _ s command
            ∙ bind_of_ok (wait_for system (get_multi_power (some get_power)) fuel 1) _ sent waited,
      )
