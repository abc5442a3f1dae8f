-- ===== src/Action/Plain.antt =====
-- `fence_action` for an action that is neither a listing nor a monitoring one: it reads the status
-- and acts on it.
use fence_agents.Base.{String, List, ◌≡◌, refl, sym, ap, ◌∙◌, subst, false, string_eq, ℕ, Option}
use fence_agents.Exec.{ok, ◌>>=◌}
use fence_agents.Exec.Rules.{on_ok, bind_of_ok}
use fence_agents.State.{State, System, text, option}
use fence_agents.State.Entries.{HasEntry, option_of_HasEntry}
use fence_agents.Power.{Agent, is_text}
use fence_agents.Action.{
  matches_status, perform, wants_outlets, take_plugs, read_status, act_on, fence_action_body,
}
use fence_agents.Action.Entries.{take_plugs-Keeps}

-- an action that `fence_action` hands on to the agent
pub record IsPlain (action : String) : Type 0 where
  pub not_list : (device_opt : List String) → wants_outlets (text action) device_opt ≡ false
  pub not_monitor : is_text (text action) "monitor" ≡ false

pub off-IsPlain : IsPlain "off"
unfolding string_eq
off-IsPlain = record { not_list = λ d. refl; not_monitor = refl }

pub on-IsPlain : IsPlain "on"
unfolding string_eq
on-IsPlain = record { not_list = λ d. refl; not_monitor = refl }

pub reboot-IsPlain : IsPlain "reboot"
unfolding string_eq
reboot-IsPlain = record { not_list = λ d. refl; not_monitor = refl }

pub status-IsPlain : IsPlain "status"
unfolding string_eq
status-IsPlain = record { not_list = λ d. refl; not_monitor = refl }

module _ {W : Type 0} (system : System W) (agent : Agent W) (fuel : ℕ) (action : String)
    (plain : IsPlain action) where
  pub fence_action_body-plain :
      (s u : State W)
      → HasEntry "--action" (text action) u
      → take_plugs s ≡ (ok tt, u)
      → fence_action_body system agent fuel s ≡ (read_status agent >>= act_on system agent fuel) u
  unfolding fence_action_body
  fence_action_body-plain s u h taken =
      bind_of_ok take_plugs _ s taken
      ∙ bind_of_ok (option "--action") _ u (option_of_HasEntry "--action" (text action) u h)
      ∙ rw (plain.not_list u.device_opt, plain.not_monitor)

  -- The parts of a run that returned: the plugs were taken, the status was read and acted on.
  pub on_plain_run {ℓ} :
      {C : Type ℓ} (s : State W) {n : ℕ} {t : State W}
      → HasEntry "--action" (text action) s
      → fence_action_body system agent fuel s ≡ (ok n, t)
      → ((u : State W)
          → take_plugs s ≡ (ok tt, u)
          → HasEntry "--action" (text action) u
          → (read_status agent >>= act_on system agent fuel) u ≡ (ok n, t)
          → C)
      → C
  unfolding fence_action_body
  on_plain_run s h e c = on_ok take_plugs _ s e λ _ u taken _.
      let h' : HasEntry "--action" (text action) u =
        subst (HasEntry "--action" (text action)) (ap (λ x. x.1) taken)
          ((take_plugs-Keeps "--action" (text action)).at s h) in
      c u taken h' (sym (fence_action_body-plain s u h' taken) ∙ e)

  -- Where the status is not the action already, the action is performed.
  pub act_on-perform :
      (status : Option String) (s : State W)
      → HasEntry "--action" (text action) s
      → matches_status (text action) status ≡ false
      → act_on system agent fuel status s ≡ perform system agent fuel (text action) status s
  unfolding act_on
  act_on-perform status s h differ =
      bind_of_ok (option "--action") _ s (option_of_HasEntry "--action" (text action) s h)
      ∙ rw differ
