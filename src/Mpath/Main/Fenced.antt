-- ===== src/Mpath/Main/Fenced.antt =====
-- A run of `fence_action` with the functions of agents/mpath/fence_mpath.py for the action "off".
use fence_agents.Base.{
  ℕ, String, ◌≡◌, refl, sym, ap, ◌∙◌, subst, Bool, true, false, List, [], ◌∷◌, contains, All,
  Bool-cases, inl, inr, string_eq, if◌then◌else◌,
}
use fence_agents.Exec.{ok, pure, ◌>>=◌}
use fence_agents.Exec.Rules.{Keeps, on_ok, pure-ok}
use fence_agents.State.{State, Value, text, option}
use fence_agents.State.Entries.{HasEntry}
use fence_agents.Power.{is_text, plugs_of}
use fence_agents.Power.Status.{Reads, selected}
use fence_agents.Action.{fence_action}
use fence_agents.Action.Confirm.{PoweredOff, fence_action_off}
use fence_agents.Scsi.{Host, text_option}
use fence_agents.Mpath.{is_block_device, get_registration_keys, dev_read}
use fence_agents.Mpath.Status.{get_status, set_status, read_status_of}
use fence_agents.Mpath.Entries.{get_status-Safe, set_status-Safe}
use fence_agents.Mpath.Main.{mpath_agent}
use fence_agents.Process.{Process}

abbrev on_status : String
on_status = "on"

module _ {W : Type 0} (host : Host W) where
  -- For each device in turn, the registrations were read and the key was not among them.
  pub data Absent : List String → State W → State W → Type 0 where
    no_devices : {s : State W} → Absent [] s s
    absent :
        {dev key : String} {devices keys : List String} {s t u v w : State W}
        → is_block_device host dev s ≡ (ok tt, t)
        → text_option host "--plug" t ≡ (ok key, u)
        → get_registration_keys host dev true u ≡ (ok keys, v)
        → contains keys key ≡ false
        → Absent devices v w
        → Absent (dev ∷ devices) s w

  -- A status that is "on" stays so.
  read_on :
      (devices : List String) (s : State W) {r : String} {t : State W}
      → read_status_of host devices "on" s ≡ (ok r, t)
      → r ≡ "on"
  unfolding read_status_of
  read_on [] s h = sym (pure-ok "on" s h).0
  read_on (dev ∷ devices) s h = on_ok (is_block_device host dev) _ s h λ _ t e h.
      on_ok (text_option host "--plug") _ t h λ key u e h.
        on_ok (get_registration_keys host dev true)
          (λ keys. read_status_of host devices (if contains keys key then "on" else "on")) u h
          λ keys v e h.
            read_on devices v
              (ap (λ m. m v) (ap (read_status_of host devices) (same (contains keys key))) ∙ h)
    where
      same : (b : Bool) → on_status ≡ (if b then "on" else on_status)
      same true = refl
      same false = refl

  on-ne-off : {r : String} → r ≡ "on" → r ≡ "off" → ⊥
  on-ne-off h e = differ (sym h ∙ e)
    where
      differ : on_status ≡ "off" → ⊥
      differ p = cc

  read_off :
      (devices : List String) (s : State W) {t : State W}
      → read_status_of host devices "off" s ≡ (ok "off", t)
      → Absent devices s t
  unfolding read_status_of
  read_off [] s h = subst (Absent [] s) (pure-ok "off" s h).1 no_devices
  read_off (dev ∷ devices) s h = on_ok (is_block_device host dev) _ s h λ _ t e0 h.
      on_ok (text_option host "--plug") _ t h λ key u e1 h.
        on_ok (get_registration_keys host dev true)
          (λ keys. read_status_of host devices (if contains keys key then "on" else "off")) u h
          λ keys v e2 h. elim (Bool-cases (contains keys key)) [
            | inl found ↦ absurd (on-ne-off (read_on devices v (rw found at h)) refl)
            | inr gone ↦ absent e0 e1 e2 gone (read_off devices v (rw gone at h))
          ]

  get_status-off :
      (devices : List String) (s : State W) {t : State W}
      → get_status host devices s ≡ (ok "off", t)
      → (u : State W) × Absent devices s u
  unfolding get_status
  get_status-off devices s h = on_ok (read_status_of host devices "off") _ s h λ status t e h.
      on_ok (option "--action") _ t h λ action u e' h.
        (t, read_off devices s (e ∙ ap (λ r. (ok r, t)) (status-off status action u h)))
    where
      status-off :
          (status : String) (action : Value) (u : State W) {v : State W}
          → (if is_text action "monitor"
                then dev_read host true >>= (λ _. pure status)
                else pure status)
              u
            ≡ (ok "off", v)
          → status ≡ "off"
      status-off status action u h = elim (Bool-cases (is_text action "monitor")) [
        | inl monitor ↦
            on_ok (dev_read host true) (λ _. pure status) u (rw monitor at h)
              λ _ w e h. (pure-ok status w h).0
        | inr other ↦ (pure-ok status u (rw other at h)).0
      ]

  -- For each plug in turn, the key that stands under "--plug" for it is absent from all devices.
  pub data AbsentFor (devices : List String) : List String → State W → State W → Type 0 where
    no_plugs : {s : State W} → AbsentFor devices [] s s
    plug :
        {plugs : List String} {name : String} {s t u v : State W}
        → get_status host devices (selected name s) ≡ (ok "off", u)
        → Absent devices (selected name s) t
        → AbsentFor devices plugs u v
        → AbsentFor devices (name ∷ plugs) s v

  Reads-AbsentFor :
      (devices plugs statuses : List String) (s t : State W)
      → Reads (get_status host devices) plugs s statuses t
      → All (λ r. r ≡ "off") statuses
      → AbsentFor devices plugs s t
  Reads-AbsentFor devices [] [] s t same off = subst (AbsentFor devices [] s) same no_plugs
  Reads-AbsentFor devices [] (r ∷ rs) s t reads off = elim reads [ ]
  Reads-AbsentFor devices (name ∷ plugs) [] s t reads off = elim reads [ ]
  Reads-AbsentFor devices (name ∷ plugs) (r ∷ rs) s t (u, read, rest) (here, off) =
      let read_off = read ∙ ap (λ r. (ok r, u)) here in
      plug read_off (get_status-off devices (selected name s) read_off).1
        (Reads-AbsentFor devices plugs rs u t rest off)

  -- The run powered off, and its last reading was one of all devices for every plug.
  pub record Fenced (process : Process W) (devices : List String) (s : State W) (n : ℕ)
      (t : State W) : Type 0 where
    pub powered :
        PoweredOff process.system
          (mpath_agent host devices)
          process.fuel
          (get_status host devices)
          s
          n
          t
    pub absent_for :
        AbsentFor devices
          (plugs_of powered.ended.read.before)
          powered.ended.read.before
          powered.ended.last

  -- Where the commands leave "--action" alone, a run of `fence_action` for "off" with the functions of
  -- fence_mpath that returns gives the exit status 0, and ends in the state in which a reading of
  -- every device for every plug in turn ended, in which the key of the plug was not registered with any
  -- device; after the reading it only printed.
  pub fence_action-Fenced :
      ((command : String) (value : Value)
        → Keeps (HasEntry "--action" value) (host.run_command command))
      → (process : Process W) (devices : List String) (s : State W) {n : ℕ} {t : State W}
      → HasEntry "--action" (text "off") s
      → fence_action process.system (mpath_agent host devices) process.fuel s ≡ (ok n, t)
      → Fenced process devices s n t
  fence_action-Fenced commands process devices s action run =
      let powered =
        fence_action_off process.system (mpath_agent host devices) process.fuel
          (set_status host devices) (get_status host devices) refl refl
          (λ value.
            set_status-Safe "--action" value host (λ command. commands command value) devices)
          (λ value.
            get_status-Safe "--action" value host (λ command. commands command value) devices)
          s action run in
      record {
        powered = powered;
        absent_for =
            Reads-AbsentFor devices (plugs_of powered.ended.read.before) powered.ended.read.statuses
              powered.ended.read.before powered.ended.last powered.ended.read.reads
              powered.ended.read.off;
      }
