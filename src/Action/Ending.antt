-- ===== src/Action/Ending.antt =====
-- How `fence_action` ends for the action "status".
use fence_agents.Base.{
  ℕ, String, ◌<>◌, ◌≡◌, refl, sym, ap, ◌∙◌, subst, ◌⊎◌, inl, inr, Option, none, some, List, ◌==◌,
  string_eq, if◌then◌else◌,
}
use fence_agents.Exec.{Exec, ok, raised, attribute_error}
use fence_agents.Exec.Rules.{pure-ok, on_ok}
use fence_agents.State.{State, System, text, print}
use fence_agents.State.Entries.{HasEntry}
use fence_agents.Failure.{ec_ok}
use fence_agents.Text.{upper}
use fence_agents.Power.{Agent, plugs_of, get_multi_power}
use fence_agents.Power.Status.{overall, Reads, get_multi_power-Reads}
use fence_agents.Power.Entries.{get_multi_power-Keeps}
use fence_agents.Action.{take_plugs, read_status, report_status, perform, act_on, fence_action}
use fence_agents.Action.Plain.{status-IsPlain, on_plain_run, act_on-perform}
use fence_agents.Action.Confirm.{
  action-IsApart, KeepsAction, printed_only, fence_action-ok, read_status-ok,
}

module _ {W : Type 0} where
  -- The plugs were taken from the options, and all of them were read; the exit status is 0 where they count as on, 2 where they count as off.
  -- Nothing was done after the reading but printing.
  pub record Reported (get_power : Exec (State W) String) (s : State W) (n : ℕ) (t : State W)
      : Type 0 where
    pub before : State W
    pub taken : take_plugs s ≡ (ok tt, before)
    pub statuses : List String
    pub last : State W
    pub reads : Reads get_power (plugs_of before) before statuses last
    pub status : ((n ≡ 0) × (overall statuses ≡ "on")) ⊎ ((n ≡ 2) × (overall statuses ≡ "off"))
    pub only_printed : t ≡ record last { printed = t.printed }

module _ {W : Type 0} (system : System W) (agent : Agent W) (fuel : ℕ) where
  module _ (get_power : Exec (State W) String) (gets_status : agent.get_power ≡ some get_power)
      (kg : KeepsAction get_power) where
    report_status-ok :
        (r : String) (s : State W) {n : ℕ} {t : State W}
        → report_status system agent fuel (some r) s ≡ (ok n, t)
        → (n ≡ (if upper r == "OFF" then 2 else ec_ok)) × (t ≡ record s { printed = t.printed })
    unfolding report_status
    report_status-ok r s h =
        let (a, b) =
          pure-ok (if upper r == "OFF" then 2 else ec_ok) (print ("Status: " <> upper r) s).1 h in
        (sym a, printed_only s b)

    status_code :
        (r sum : String)
        → r ≡ sum
        → (r ≡ "on") ⊎ (r ≡ "off")
        → (((if upper r == "OFF" then 2 else ec_ok) ≡ 0) × (sum ≡ "on"))
          ⊎ (((if upper r == "OFF" then 2 else ec_ok) ≡ 2) × (sum ≡ "off"))
    unfolding upper string_eq
    status_code r sum e (inl on) = inl (rw on, sym e ∙ on)
    status_code r sum e (inr off) = inr (rw off, sym e ∙ off)

    perform-status :
        (r : String) (s : State W)
        → HasEntry "--action" (text "status") s
        → (r ≡ "on") ⊎ (r ≡ "off")
        → act_on system agent fuel (some r) s ≡ report_status system agent fuel (some r) s
    unfolding perform string_eq
    perform-status r s h (inl on) =
        act_on-perform system agent fuel "status" status-IsPlain (some r) s h (rw on)
    perform-status r s h (inr off) =
        act_on-perform system agent fuel "status" status-IsPlain (some r) s h (rw off)

    perform_blind :
        (s : State W)
        → perform system agent fuel (text "status") none s ≡ (raised attribute_error, s)
    unfolding perform string_eq
    perform_blind s = refl

    perform-no_status :
        (s : State W) {n : ℕ} {t : State W}
        → HasEntry "--action" (text "status") s
        → act_on system agent fuel none s ≡ (ok n, t)
        → ⊥
    perform-no_status s {n} {t} h e =
        cc (
          perform_blind s,
          act_on-perform system agent fuel "status" status-IsPlain none s h refl,
          e,
        )

    report-Reported :
        (s u v : State W) (status : Option String) {n : ℕ} {t : State W}
        → take_plugs s ≡ (ok tt, u)
        → HasEntry "--action" (text "status") v
        → ((status ≡ none) × (v ≡ u))
          ⊎ ((r : String) × (status ≡ some r)
              × (get_multi_power (some get_power) u ≡ (ok r, v))
              × ((r ≡ "on") ⊎ (r ≡ "off")))
        → act_on system agent fuel status v ≡ (ok n, t)
        → Reported get_power s n t
    report-Reported s u v status taken h (inl (blind, same)) e =
        absurd (perform-no_status v h (rw blind at e))
    report-Reported s u v status {n} taken h (inr (r, found, polled, good)) e =
        let (statuses, reads, sum) = get_multi_power-Reads get_power u polled in
        let (a, b) = report_status-ok r v (sym (perform-status r v h good) ∙ (rw found at e)) in
        record {
          before = u;
          taken = taken;
          statuses = statuses;
          last = v;
          reads = reads;
          status = rw a (status_code r (overall statuses) sum good);
          only_printed = b;
        }

    -- A run of the action "status": if it returns, every plug of the options was read in turn, the exit status is
    -- 0 where their common status is "on" and 2 where it is "off", and nothing was done after the reading
    -- but printing.
    pub fence_action_status :
        (s : State W) {n : ℕ} {t : State W}
        → HasEntry "--action" (text "status") s
        → fence_action system agent fuel s ≡ (ok n, t)
        → Reported get_power s n t
    fence_action_status s {n} {t} h e =
        on_plain_run system agent fuel "status" status-IsPlain s h
          (fence_action-ok system agent fuel s t e)
          λ u taken h e. on_ok (read_status agent) (act_on system agent fuel) u e λ status v read e.
            let facts = read_status-ok agent get_power gets_status u status v read in
            report-Reported s u v status taken (kept u v status h facts) facts e
      where
        kept :
            (u v : State W) (status : Option String)
            → HasEntry "--action" (text "status") u
            → ((status ≡ none) × (v ≡ u))
              ⊎ ((r : String) × (status ≡ some r)
                  × (get_multi_power (some get_power) u ≡ (ok r, v))
                  × ((r ≡ "on") ⊎ (r ≡ "off")))
            → HasEntry "--action" (text "status") v
        kept u v status h (inl (_, same)) = subst (HasEntry "--action" (text "status")) (sym same) h
        kept u v status h (inr (r, _, polled, _)) =
            subst (HasEntry "--action" (text "status")) (ap (λ x. x.1) polled) (
              (get_multi_power-Keeps "--action" (text "status") action-IsApart get_power
                  (kg (text "status"))).at
                u h)
