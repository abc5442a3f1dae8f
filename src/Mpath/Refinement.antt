-- ===== src/Mpath/Refinement.antt =====
-- The action "off" of agents/mpath/fence_mpath.py against the registry.
use Prim.Native.Nat.{suc, zero}
use fence_agents.Base.{
  ℕ, ◌+◌, String, ◌≡◌, refl, sym, ap, ◌∙◌, Bool, true, false, not, ◌&&◌, some, List, [], ◌∷◌, arith,
  contains, All, ◌==◌, string_eq, nat_eq, if◌then◌else◌,
}
use fence_agents.Dict
use fence_agents.Dict.{Dict}
use fence_agents.Exec.{Exec, ok, exit, pure, ◌>>=◌, ◌>>◌}
use fence_agents.Exec.Rules.{bind_of_ok}
use fence_agents.State.{State, text, option}
use fence_agents.State.Entries.{HasEntry, option_of_HasEntry}
use fence_agents.Scsi.{Host, text_option}
use fence_agents.Scsi.Status.{is_missing, report_count}
use fence_agents.Mpath.{
  is_block_device, get_registration_keys, get_reservation_key, preempt_abort, dev_read,
}
use fence_agents.Mpath.Status.{key_of, remove_keys, verify_removed, set_off, set_status}
use fence_agents.Mpath.Registry.{Registry, IsTool, Config, preempted, fence_devices, unclear}
use fence_agents.Mpath.Tool.{
  text_option-ok, is_block_device-ok, get_registration_keys-ok, get_reservation_key-ok,
  preempt_abort-ok,
}

module _ {W : Type 0} (host : Host W) (view : W → Registry) (path key : String) where
  module _ (own : String → String) (known : Dict String) where
    -- A device on which `mpathpersist` works, with the key of the node in the file.
    pub record Attached (dev : String) : Type 0 where
      pub tool : IsTool host view path key (own dev) dev
      pub known_key : Dict.get known dev ≡ some (own dev)

    -- The action leads to a state that differs in the world only, of which this is the view.
    pub record Reaches (m : Exec (State W) (Unit {0})) (s : State W) (r : Registry) : Type 0 where
      pub after : W
      pub ends : m s ≡ (ok tt, record s { world = after })
      pub viewed : view after ≡ r

    key_of-ok :
        (dev : String) (s : State W)
        → Dict.get known dev ≡ some (own dev)
        → key_of host (some known) dev s ≡ (ok (own dev), s)
    unfolding key_of
    key_of-ok dev s h = rw (h, key_of) refl

    abbrev remove_one : String → Bool → Exec (State W) (Unit {0})
    remove_one dev registered =
        if registered
        then (do host_key ← key_of host (some known) dev; preempt_abort host host_key dev; pure tt)
        else pure tt

    remove_one-Reaches :
        (dev : String)
        → Attached dev
        → (s : State W) → Config path key s.options
        → (registered : Bool)
        → Reaches
            (remove_one dev registered)
            s
            (if registered then preempted (own dev) key dev (view s.world) else view s.world)
    remove_one-Reaches dev at s config true =
        let (done, w, e, viewed) =
          preempt_abort-ok host view path key (own dev) dev at.tool s config in
        record {
          after = w;
          ends =
              bind_of_ok (key_of host (some known) dev) _ s (key_of-ok dev s at.known_key)
              ∙ bind_of_ok (preempt_abort host (own dev) dev) _ s e;
          viewed = viewed;
        }
    remove_one-Reaches dev at s config false = record {
      after = s.world;
      ends = refl;
      viewed = refl;
    }

    remove_keys-Reaches :
        (devices : List String)
        → All Attached devices
        → (s : State W) → Config path key s.options
        → Reaches
            (remove_keys host (some known) devices)
            s
            (fence_devices own key devices (view s.world))
    unfolding remove_keys
    remove_keys-Reaches [] at s config = record { after = s.world; ends = refl; viewed = refl }
    remove_keys-Reaches (dev ∷ devices) (at, others) s config =
        let here = remove_one-Reaches dev at s config (contains ((view s.world).keys dev) key) in
        let there = remove_keys-Reaches devices others (record s { world = here.after }) config in
        record {
          after = there.after;
          ends =
              bind_of_ok (is_block_device host dev) _ s
                (is_block_device-ok host view path key (own dev) dev at.tool s config)
              ∙ bind_of_ok (text_option host "--plug") _ s
                  (text_option-ok host "--plug" key s config.key_entry)
              ∙ bind_of_ok (get_registration_keys host dev true) _ s
                  (get_registration_keys-ok host view path key (own dev) dev at.tool s config)
              ∙ bind_of_ok (remove_one dev (contains ((view s.world).keys dev) key)) _ s here.ends
              ∙ there.ends;
          viewed = there.viewed ∙ ap (fence_devices own key devices) here.viewed;
        }

    module _ (dev : String) (at : Attached dev) (s : State W) (config : Config path key s.options)
        (count left : ℕ) (rest : ℕ → Exec (State W) ℕ)
        (counts : (n : ℕ) → rest n s ≡ (ok (n + left), s)) where
      count_missing :
          (missing : Bool)
          → rest (if missing then count + 1 else count) s
            ≡ (ok (count + ((if not missing then 0 else 1) + left)), s)
      count_missing true = counts (count + 1) ∙ ap (λ n. (ok n, s)) (omega arith)
      count_missing false = counts count ∙ ap (λ n. (ok n, s)) (omega arith)

      count_device :
          (registered : Bool)
          → (if registered then rest (count + 1) else (do
            reservation ← get_reservation_key host dev
            rest (if is_missing reservation then count + 1 else count)))
              s
            ≡ (
              ok (
                  count
                  + ((if not registered && not (is_missing ((view s.world).holder dev))
                        then 0
                        else 1)
                      + left)),
              s,
            )
      count_device true = counts (count + 1) ∙ ap (λ n. (ok n, s)) (omega arith)
      count_device false =
          bind_of_ok (get_reservation_key host dev) _ s
            (get_reservation_key-ok host view path key (own dev) dev at.tool s config)
          ∙ count_missing (is_missing ((view s.world).holder dev))

    verify_removed-ok :
        (devices : List String)
        → All Attached devices
        → (s : State W) → Config path key s.options
        → (count : ℕ)
        → verify_removed host devices count s ≡ (ok (count + unclear key (view s.world) devices), s)
    unfolding verify_removed
    verify_removed-ok [] at s config count = ap (λ n. (ok n, s)) (omega arith)
    verify_removed-ok (dev ∷ devices) (at, others) s config count =
        bind_of_ok (text_option host "--plug") _ s
          (text_option-ok host "--plug" key s config.key_entry)
        ∙ bind_of_ok (get_registration_keys host dev true) _ s
            (get_registration_keys-ok host view path key (own dev) dev at.tool s config)
        ∙ count_device dev at s config count (unclear key (view s.world) devices)
            (verify_removed host devices) (verify_removed-ok devices others s config)
            (contains ((view s.world).keys dev) key)

    suc-ne-zero : (n : ℕ) → (suc n == 0) ≡ false
    suc-ne-zero n = ground arith

    report_count-outcome :
        (count : ℕ) (s : State W)
        → ((report_count host count s).0 ≡ (if count == 0 then ok tt else exit 1))
          × ((report_count host count s).1.world ≡ s.world)
    unfolding report_count nat_eq
    report_count-outcome zero s = (refl, refl)
    report_count-outcome (suc n) s =
        (ap (λ b. if b then ok tt else exit 1) (sym (suc-ne-zero n)), refl)

    set_off-run :
        (devices : List String)
        → All Attached devices
        → (s : State W) → Config path key s.options
        → dev_read host true s ≡ (ok (some known), s)
        → (after : W) × (set_off host devices s
            ≡ report_count host (unclear key (view after) devices) (record s { world = after }))
          × (view after ≡ fence_devices own key devices (view s.world))
    unfolding set_off
    set_off-run devices at s config read =
        let removed = remove_keys-Reaches devices at s config in
        (
          removed.after,
          bind_of_ok (dev_read host true) _ s read
              ∙ bind_of_ok (remove_keys host (some known) devices) _ s removed.ends
              ∙ bind_of_ok (verify_removed host devices 0) _ (record s { world = removed.after })
                  (verify_removed-ok devices at (record s { world = removed.after }) config 0)
              ∙ ap (λ n. report_count host n (record s { world = removed.after })) (omega arith),
          removed.viewed,
        )

    set_status-off :
        (devices : List String) (s : State W)
        → HasEntry "--action" (text "off") s
        → set_status host devices s ≡ set_off host devices s
    unfolding set_status string_eq
    set_status-off devices s action =
        bind_of_ok (option "--action") _ s (option_of_HasEntry "--action" (text "off") s action)

    -- Where `mpathpersist` does what the registry says on every device, and the file names the key of
    -- the node for each of them, the action "off" of fence_mpath leads to the registry in which the key
    -- has been preempted on each device in turn, and returns exactly where the key is then registered
    -- with none of the devices and each has a reservation; otherwise it exits with 1.
    pub set_status_refines :
        (devices : List String)
        → All Attached devices
        → (s : State W) → Config path key s.options
        → HasEntry "--action" (text "off") s
        → dev_read host true s ≡ (ok (some known), s)
        → (view (set_status host devices s).1.world ≡ fence_devices own key devices (view s.world))
          × ((set_status host devices s).0 ≡ (
              if unclear key (fence_devices own key devices (view s.world)) devices == 0
              then ok tt
              else exit 1))
    set_status_refines devices at s config action read =
        let (after, run, viewed) = set_off-run devices at s config read in
        let whole = set_status-off devices s action ∙ run in
        let (outcome, same) =
          report_count-outcome (unclear key (view after) devices) (record s { world = after }) in
        (
          ap (λ x. view x.1.world) whole ∙ ap view same ∙ viewed,
          ap (λ x. x.0) whole
              ∙ outcome
              ∙ ap (λ m. if unclear key m devices == 0 then ok tt else exit 1) viewed,
        )
