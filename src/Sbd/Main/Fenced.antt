-- ===== src/Sbd/Main/Fenced.antt =====
-- A run of `fence_action` with the functions of agents/sbd/fence_sbd.py for the action "off".
use fence_agents.Base.{
  ℕ, String, ◌≡◌, refl, sym, ap, ◌∙◌, subst, Bool, true, ◌||◌, Option, none, some, List, [], ◌∷◌,
  All, Bool-cases, inl, inr, string_eq,
}
use fence_agents.Exec.{ok, pure, ◌>>=◌}
use fence_agents.Exec.Rules.{Keeps-bind, Keeps-pure}
use fence_agents.State.{State, text}
use fence_agents.State.Entries.{HasEntry}
use fence_agents.Power.{plugs_of}
use fence_agents.Power.Status.{Reads, selected}
use fence_agents.Action.{fence_action}
use fence_agents.Action.Confirm.{PoweredOff, fence_action_off}
use fence_agents.Process.{Process}
use fence_agents.Text.{includes, split_from}
use fence_agents.Sbd.{set_power_status}
use fence_agents.Sbd.Device.{Node}
use fence_agents.Sbd.Slots.{translate_status, get_power_status}
use fence_agents.Sbd.Slots.Latest.{PowerRead, latest, reported, get_power_status-latest}
use fence_agents.Sbd.Entries.{set_power_status-Safe, get_power_status-Safe}
use fence_agents.Sbd.Main.{sbd_agent}

-- A message that ends a node is in its slot.
abbrev pub ends_node : String → Bool
ends_node sbd_status = includes "reset" sbd_status || includes "off" sbd_status

translated_off :
    (sbd_status : String) → translate_status sbd_status ≡ "off" → ends_node sbd_status ≡ true
unfolding translate_status
translated_off sbd_status h = elim (Bool-cases (ends_node sbd_status)) [
  | inl ends ↦ ends
  | inr other ↦ elim (Bool-cases (includes "clear" sbd_status)) [
    | inl clear ↦ absurd (cc (rw clear at rw other at h))
    | inr unclear ↦ absurd (cc (rw unclear at rw other at h))
  ]
]

reported_off :
    (slot : Option String)
    → reported slot ≡ "off"
    → (sbd_status : String) × (slot ≡ some sbd_status) × (ends_node sbd_status ≡ true)
reported_off none h = absurd (cc h)
reported_off (some sbd_status) h = (sbd_status, refl, translated_off sbd_status h)

module _ {W : Type 0} (node : Node W) (fuel : ℕ) where
  -- A listing of the devices whose last line for the node shows a message that ends it.
  pub record EndsIn (s t : State W) : Type 0 where
    pub read : PowerRead node.launcher fuel s "off" t
    pub sbd_status : String
    pub shown : latest read.plug (split_from "\n" 0 read.ran.out) ≡ some sbd_status
    pub ends : ends_node sbd_status ≡ true

  get_power_status-off :
      (s : State W) {t : State W}
      → get_power_status node.launcher fuel s ≡ (ok "off", t)
      → EndsIn s t
  get_power_status-off s h =
      let read = get_power_status-latest node.launcher fuel s h in
      let (sbd_status, shown, ends) = reported_off _ (sym read.last) in
      record { read = read; sbd_status = sbd_status; shown = shown; ends = ends }

  -- The same for each plug in turn, which stands under "--plug" then.
  pub data EndFor : List String → State W → State W → Type 0 where
    no_plugs : {s : State W} → EndFor [] s s
    plug :
        {plugs : List String} {name : String} {s u v : State W}
        → EndsIn (selected name s) u
        → EndFor plugs u v
        → EndFor (name ∷ plugs) s v

  Reads-EndFor :
      (plugs statuses : List String) (s t : State W)
      → Reads (get_power_status node.launcher fuel) plugs s statuses t
      → All (λ r. r ≡ "off") statuses
      → EndFor plugs s t
  Reads-EndFor [] [] s t same off = subst (EndFor [] s) same no_plugs
  Reads-EndFor [] (r ∷ rs) s t reads off = elim reads [ ]
  Reads-EndFor (name ∷ plugs) [] s t reads off = elim reads [ ]
  Reads-EndFor (name ∷ plugs) (r ∷ rs) s t (u, read, rest) (here, off) =
      plug (get_power_status-off (selected name s) (read ∙ ap (λ r. (ok r, u)) here))
        (Reads-EndFor plugs rs u t rest off)

  -- The run powered off, and its last reading was one of the slots for every plug.
  pub record Fenced (process : Process W) (s : State W) (n : ℕ) (t : State W) : Type 0 where
    pub powered :
        PoweredOff process.system
          (sbd_agent node fuel)
          process.fuel
          (get_power_status node.launcher fuel)
          s
          n
          t
    pub end_for :
        EndFor (plugs_of powered.ended.read.before) powered.ended.read.before powered.ended.last

  -- A run of `fence_action` for "off" with the functions of fence_sbd that returns gives the exit status 0,
  -- and ends in the state in which a listing of the devices for every plug in turn ended, in which the last
  -- line for the plug shows the message "reset" or "off"; after the listing it only printed.
  pub fence_action-EndFor :
      (process : Process W) (s : State W) {n : ℕ} {t : State W}
      → HasEntry "--action" (text "off") s
      → fence_action process.system (sbd_agent node fuel) process.fuel s ≡ (ok n, t)
      → Fenced process s n t
  fence_action-EndFor process s action run =
      let powered =
        fence_action_off process.system (sbd_agent node fuel) process.fuel
          (set_power_status node.launcher fuel >>= λ _. pure tt)
          (get_power_status node.launcher fuel) refl refl
          (λ value.
            Keeps-bind (set_power_status node.launcher fuel) (λ _. pure tt)
              (set_power_status-Safe "--action" value node.launcher fuel) (λ _. Keeps-pure tt))
          (λ value. get_power_status-Safe "--action" value node.launcher fuel) s action run in
      record {
        powered = powered;
        end_for =
            Reads-EndFor (plugs_of powered.ended.read.before) powered.ended.read.statuses
              powered.ended.read.before powered.ended.last powered.ended.read.reads
              powered.ended.read.off;
      }
