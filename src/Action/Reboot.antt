-- ===== src/Action/Reboot.antt =====
-- The action "reboot" of `fence_action` by an off and an on phase.
use fence_agents.Base.{
  ℕ, String, ◌≡◌, refl, sym, ap, ◌∙◌, subst, ◌⊎◌, inl, inr, Bool, true, false, Option, none, some,
  arith, Bool-cases, string_eq, if◌then◌else◌,
}
use fence_agents.Dict
use fence_agents.Dict.{get-put}
use fence_agents.Exec.{Exec, ok, pure, ◌>>=◌}
use fence_agents.Exec.Rules.{on_ok, bind_of_ok}
use fence_agents.State.{State, System, text, put_option}
use fence_agents.State.Entries.{HasEntry}
use fence_agents.Failure.{fail, ec_ok, ec_waiting_off}
use fence_agents.Power.{Agent, get_multi_power, set_multi_power}
use fence_agents.Action.{
  matches_status, read_status, is_cycle, off_phase, reboot_off, reboot_on, reboot_off_on,
  reboot_end, reboot, perform, act_on, fence_action,
}
use fence_agents.Action.Plain.{reboot-IsPlain, act_on-perform, on_plain_run}
use fence_agents.Action.Confirm.{
  KeepsAction, ReadOff, status_of_matches, fail-ok, fence_action-ok, read_status-ok,
  read_status-facts, set_off-ReadOff,
}

not_matching :
    (status : Option String)
    → (status ≡ none) ⊎ ((r : String) × (status ≡ some r) × ((r ≡ "on") ⊎ (r ≡ "off")))
    → matches_status (text "reboot") status ≡ false
unfolding string_eq
not_matching status (inl e) = rw e
not_matching status (inr (r, e, inl on)) = rw (e, on)
not_matching status (inr (r, e, inr off)) = rw (e, off)

module _ {W : Type 0} where
  is_cycle-ok : (s : State W) {b : Bool} {t : State W} → is_cycle s ≡ (ok b, t) → s ≡ t
  unfolding is_cycle
  is_cycle-ok s h = ground arith

module _ {W : Type 0} (system : System W) (agent : Agent W) (fuel : ℕ)
    (get_power : Exec (State W) String) where
  -- The run went through a state in which a reading of all plugs as off had just ended, from there
  -- through the on phase, and returned 0.
  pub record Rebooted (n : ℕ) (t : State W) : Type 0 where
    pub status : n ≡ ec_ok
    pub middle : State W
    pub read : ReadOff get_power middle
    pub rest : (reboot_on system agent fuel >>= reboot_end system agent fuel) middle ≡ (ok n, t)

  reboot_end-ok :
      (b : Bool) (s : State W) {n : ℕ} {t : State W}
      → reboot_end system agent fuel b s ≡ (ok n, t)
      → n ≡ ec_ok
  unfolding reboot_end
  reboot_end-ok true s h = ground arith
  reboot_end-ok false s h = ground arith

  module _ (set_power : Exec (State W) (Unit {0})) (sets : agent.set_power ≡ some set_power)
      (gets_status : agent.get_power ≡ some get_power) (ks : KeepsAction set_power)
      (kg : KeepsAction get_power) where
    off_phase-ReadOff :
        (s : State W) {t : State W} {one : Unit {0}}
        → off_phase system agent fuel s ≡ (ok one, t)
        → ReadOff get_power t
    unfolding off_phase
    off_phase-ReadOff s {t} h = on_ok (put_option "--action" (text "off")) _ s h λ _ u written h.
        on_ok (set_multi_power system agent fuel 1)
          (λ done. if done then pure tt else fail ec_waiting_off) u h
          λ done v ran h. elim (Bool-cases done) [
            | inl yes_done ↦
                set_off-ReadOff system agent fuel set_power get_power sets gets_status ks kg 1 u t
                  (has_off s u (ap (λ x. x.1) written))
                  (ran ∙ (λ i. (ok (yes_done i), ap (λ x. x.1) (rw yes_done at h) i)))
            | inr no_done ↦ absurd (fail-ok ec_waiting_off v t tt (rw no_done at h))
          ]
      where
        has_off :
            (s u : State W)
            → record s { options = Dict.put s.options "--action" (text "off") } ≡ u
            → HasEntry "--action" (text "off") u
        has_off s u e = subst (HasEntry "--action" (text "off")) e (rw get-put (ground arith))

    reboot_off-ReadOff :
        (status : Option String) (s : State W) {t : State W} {one : Unit {0}}
        → (status ≡ some "off" → ReadOff get_power s)
        → reboot_off system agent fuel status s ≡ (ok one, t)
        → ReadOff get_power t
    unfolding reboot_off
    reboot_off-ReadOff status s read h = elim (Bool-cases (matches_status (text "off") status)) [
      | inl same ↦
          subst (ReadOff get_power) (ap (λ x. x.1) (rw same at h))
            (read (status_of_matches status same))
      | inr other ↦ off_phase-ReadOff s (rw other at h)
    ]

    module _ (no_cycle : agent.reboot_cycle ≡ none) where
      reboot-Rebooted :
          (status : Option String) (s : State W) {n : ℕ} {t : State W}
          → (status ≡ some "off" → ReadOff get_power s)
          → reboot system agent fuel status s ≡ (ok n, t)
          → Rebooted n t
      unfolding reboot
      reboot-Rebooted status s {n} {t} read h = on_ok is_cycle _ s h λ cycle u asked h.
          let plain : (reboot_off_on system agent fuel status >>= reboot_end system agent fuel) u
              ≡ (ok n, t) =
            rw no_cycle at h in
          let read' : status ≡ some "off" → ReadOff get_power u =
            λ e. subst (ReadOff get_power) (is_cycle-ok s asked) (read e) in
          phases u read' plain
        where
          phases :
              (u : State W)
              → (status ≡ some "off" → ReadOff get_power u)
              → (reboot_off_on system agent fuel status >>= reboot_end system agent fuel) u
                ≡ (ok n, t)
              → Rebooted n t
          phases u read h =
              on_ok (reboot_off_on system agent fuel status) (reboot_end system agent fuel) u h
                λ b v ran h'.
                  on_ok (reboot_off system agent fuel status) (λ _. reboot_on system agent fuel) u
                    ran
                    λ _ w off_ran on_ran. record {
                      status = reboot_end-ok b v h';
                      middle = w;
                      read = reboot_off-ReadOff status u read off_ran;
                      rest =
                          bind_of_ok (reboot_on system agent fuel) (reboot_end system agent fuel) w
                            on_ran
                          ∙ h';
                    }

      perform-reboot :
          (status : Option String)
          → perform system agent fuel (text "reboot") status ≡ reboot system agent fuel status
      unfolding perform string_eq
      perform-reboot status = refl

      status_cases :
          (status : Option String) (u v : State W)
          → ((status ≡ none) × (v ≡ u))
            ⊎ ((r : String) × (status ≡ some r)
                × (get_multi_power (some get_power) u ≡ (ok r, v))
                × ((r ≡ "on") ⊎ (r ≡ "off")))
          → (status ≡ none) ⊎ ((r : String) × (status ≡ some r) × ((r ≡ "on") ⊎ (r ≡ "off")))
      status_cases status u v (inl (blind, _)) = inl blind
      status_cases status u v (inr (r, found, _, good)) = inr (r, found, good)

      -- A run of the action "reboot" without a cycle function: if it returns, it returns 0, and it
      -- went through a state in which every plug in turn had just been read as off.
      pub fence_action_reboot :
          (s : State W) {n : ℕ} {t : State W}
          → HasEntry "--action" (text "reboot") s
          → fence_action system agent fuel s ≡ (ok n, t)
          → Rebooted n t
      fence_action_reboot s {n} {t} h e =
          on_plain_run system agent fuel "reboot" reboot-IsPlain s h
            (fence_action-ok system agent fuel s t e)
            λ u taken h e.
              on_ok (read_status agent) (act_on system agent fuel) u e λ status v read e.
                let (h', off) =
                  read_status-facts system agent fuel set_power get_power sets gets_status ks kg
                    (text "reboot") u v status h read in
                let differ = not_matching status (
                  status_cases status u v
                    (read_status-ok agent get_power gets_status u status v read)) in
                reboot-Rebooted status v off (
                  (λ i. sym (perform-reboot status) i v)
                  ∙ sym
                      (act_on-perform system agent fuel "reboot" reboot-IsPlain status v h' differ)
                  ∙ e)
