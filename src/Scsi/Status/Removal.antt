-- ===== src/Scsi/Status/Removal.antt =====
-- What the action "off" of agents/scsi/fence_scsi.py promises.
use Prim.Native.Nat.{suc, zero}
use fence_agents.Base.{
  ℕ, ◌+◌, String, ◌≡◌, refl, sym, ap, ◌∙◌, subst, Bool, true, false, Option, some, List, [], ◌∷◌,
  arith, contains, Bool-cases, inl, inr, ◌==◌, string_eq, if◌then◌else◌,
}
use fence_agents.Exec.{ok, exit, pure}
use fence_agents.Exec.Rules.{on_ok, bind_of_ok}
use fence_agents.State.{State, text, option}
use fence_agents.State.Entries.{HasEntry, option_of_HasEntry}
use fence_agents.Text.{lower, strip}
use fence_agents.Failure.{fail_usage, generic_status}
use fence_agents.Power.{is_text}
use fence_agents.Action.{as_text}
use fence_agents.Options.Check.Accept.{fail_usage-exit, bind_exit, IsAt-fail_usage}
use fence_agents.Scsi.{Host, text_option, get_registration_keys, get_reservation_key}
use fence_agents.Scsi.Status.{
  is_missing, get_key, verify_removed, remove_keys, report_count, set_on, set_off, set_status,
}

abbrev own_message : String
own_message = "Failed: keys cannot be same. You can not fence yourself."

module _ {W : Type 0} (host : Host W) where
  -- For each device in turn, the key was not among the registrations that were read, and a
  -- reservation was.
  pub data Cleared : List String → State W → State W → Type 0 where
    done : {s : State W} → Cleared [] s s
    next :
        {dev key : String} {reservation : Option String} {devices keys : List String}
        {s t u v w : State W}
        → text_option host "--key" s ≡ (ok key, u)
        → get_registration_keys host dev true u ≡ (ok keys, v)
        → contains keys key ≡ false
        → get_reservation_key host dev true v ≡ (ok reservation, w)
        → is_missing reservation ≡ false
        → Cleared devices w t
        → Cleared (dev ∷ devices) s t

  counted :
      (b : Bool) (count : ℕ) → (if b then count + 1 else count) ≡ 0 → (b ≡ false) × (count ≡ 0)
  counted b count h = ground (arith, h)

  -- A count of zero means that every device is clear.
  verify_removed-Cleared :
      (devices : List String) (count : ℕ) (s : State W) {n : ℕ} {t : State W}
      → n ≡ 0
      → verify_removed host devices count s ≡ (ok n, t)
      → (count ≡ 0) × Cleared devices s t
  unfolding verify_removed
  verify_removed-Cleared [] count s z h =
      (ok_inj (ap (λ x. x.0) h) ∙ z, subst (λ u. Cleared [] s u) (ap (λ x. x.1) h) done)
    where
      ok_inj : {a b : ℕ} → ok a ≡ ok b → a ≡ b
      ok_inj h = ground arith
  verify_removed-Cleared (dev ∷ devices) count s {n} {t} z h =
      on_ok (text_option host "--key") _ s h λ key u e h.
        on_ok (get_registration_keys host dev true) _ u h λ keys v e' h.
          elim (Bool-cases (contains keys key)) [
            | inl kept ↦ absurd (
                suc-ne-zero count (verify_removed-Cleared devices (count + 1) v z (rw kept at h)).0)
            | inr gone ↦
                on_ok (get_reservation_key host dev true)
                  (λ reservation.
                    verify_removed host devices
                      (if is_missing reservation then count + 1 else count))
                  v (rw gone at h)
                  λ reservation w e'' h.
                    let (zero_count, rest) =
                      verify_removed-Cleared devices
                        (if is_missing reservation then count + 1 else count) w z h in
                    let (there, at_zero) = counted (is_missing reservation) count zero_count in
                    (at_zero, next e e' gone e'' there rest)
          ]
    where
      suc-ne-zero : (count : ℕ) → count + 1 ≡ 0 → ⊥
      suc-ne-zero count h = ground arith

  report_count-zero :
      (count : ℕ) (s : State W) {one : Unit {0}} {t : State W}
      → report_count host count s ≡ (ok one, t)
      → (count ≡ 0) × (s ≡ t)
  unfolding report_count
  report_count-zero zero s h = (refl, ap (λ x. x.1) h)
  report_count-zero (suc n) s h = absurd (cc)

  set_off-Cleared :
      (depth : ℕ) (devices : List String) (s : State W) {one : Unit {0}} {t : State W}
      → set_off host depth devices s ≡ (ok one, t)
      → (u : State W) × Cleared devices u t
  unfolding set_off
  set_off-Cleared depth devices s h = on_ok (get_key host) _ s h λ host_key s h0 h.
      on_ok (text_option host "--key") _ s h λ key s h1 h.
        on_ok
          (if host_key == lower key
            then fail_usage "Failed: keys cannot be same. You can not fence yourself." true
            else pure tt)
          _ s h
          λ _ s h2 h. on_ok (remove_keys host depth host_key devices) _ s h λ _ u h3 h.
            on_ok (verify_removed host devices 0) (report_count host) u h λ count v e h.
              let (none_left, at_v) = report_count-zero count v h in
              (
                u,
                subst (λ w. Cleared devices u w) at_v
                    (verify_removed-Cleared devices 0 u none_left e).1,
              )

  set_status-off :
      (depth : ℕ) (devices : List String) (s : State W)
      → HasEntry "--action" (text "off") s
      → set_status host depth devices s ≡ set_off host depth devices s
  unfolding set_status
  set_status-off depth devices s action =
      bind_of_ok (option "--action")
        (λ action.
          if is_text action "on" then set_on host depth devices else set_off host depth devices)
        s (option_of_HasEntry "--action" (text "off") s action)
      ∙ ap (λ b. (if b then set_on host depth devices else set_off host depth devices) s) is_off
    where
      is_off : is_text (text "off") "on" ≡ false
      is_off = unfold string_eq in refl

  get_key-ok :
      (line : String) (s : State W)
      → host.key_line s.world ≡ some line
      → get_key host s ≡ (ok (lower (strip line)), s)
  unfolding get_key
  get_key-ok line s h = rw (h, get_key) refl

  text_option-ok :
      (name value : String) (s : State W)
      → HasEntry name (text value) s
      → text_option host name s ≡ (ok value, s)
  unfolding text_option as_text
  text_option-ok name value s h =
      bind_of_ok (option name) as_text s (option_of_HasEntry name (text value) s h)

  set_off-own_key :
      (depth : ℕ) (devices : List String) (line key : String) (s : State W)
      → HasEntry "--key" (text key) s
      → host.key_line s.world ≡ some line
      → (lower (strip line) == lower key) ≡ true
      → set_off host depth devices s ≡ (exit generic_status, (fail_usage own_message true s).1)
  unfolding set_off
  set_off-own_key depth devices line key s keyed own same =
      bind_of_ok (get_key host) _ s (get_key-ok line s own)
      ∙ bind_of_ok (text_option host "--key") _ s (text_option-ok "--key" key s keyed)
      ∙ rw same (bind_exit (fail_usage own_message true) _ s (fail_usage-exit own_message s))

  -- A fencing with the action "off" that returns ends as a check of all devices left it, in which the
  -- key was registered with none of them and each had a reservation.
  pub set_status-Cleared :
      (depth : ℕ) (devices : List String) (s : State W) {one : Unit {0}} {t : State W}
      → HasEntry "--action" (text "off") s
      → set_status host depth devices s ≡ (ok one, t)
      → (u : State W) × Cleared devices u t
  unfolding set_status
  set_status-Cleared depth devices s action h =
      set_off-Cleared depth devices s (sym (set_status-off depth devices s action) ∙ h)

  -- A node does not fence itself: where the key is that of the node, whatever the case of its letters,
  -- the run exits with the generic status before any command, and the world is as it was.
  pub set_status-own_key :
      (depth : ℕ) (devices : List String) (line key : String) (s : State W)
      → HasEntry "--action" (text "off") s
      → HasEntry "--key" (text key) s
      → host.key_line s.world ≡ some line
      → (lower (strip line) == lower key) ≡ true
      → ((set_status host depth devices s).0 ≡ exit generic_status)
        × ((set_status host depth devices s).1.world ≡ s.world)
  set_status-own_key depth devices line key s action keyed own same =
      let run =
        set_status-off depth devices s action
        ∙ set_off-own_key depth devices line key s keyed own same in
      (
        ap (λ x. x.0) run,
        ap (λ x. x.1.world) run ∙ ((IsAt-fail_usage s own_message).at s (refl, refl)).1,
      )
