-- ===== src/Mpath/Fencing.antt =====
-- What the action "off" of agents/mpath/fence_mpath.py does to the registry, and when it succeeds.
use fence_agents.Base.{
  String, ◌≡◌, refl, sym, ap, ◌∙◌, subst, true, false, Option, none, some, List, [], ◌∷◌, arith,
  contains, outside, contains-outside, All, ◌==◌, string_eq, nat_eq, if◌then◌else◌,
}
use fence_agents.Dict.{Dict}
use fence_agents.Exec.{ok, exit}
use fence_agents.State.{State, text}
use fence_agents.State.Entries.{HasEntry}
use fence_agents.Scsi.{Host}
use fence_agents.Scsi.Status.{is_missing}
use fence_agents.Mpath.{dev_read}
use fence_agents.Mpath.Status.{set_status}
use fence_agents.Mpath.Registry.{
  Registry, Config, passed_on, fence_device, fence_devices, is_clear, unclear,
}
use fence_agents.Mpath.Refinement.{Attached, set_status_refines}

module _ (own : String → String) (key : String) where
  -- The node is registered with the device under a key that is not the one to fence, and the device has
  -- a reservation.
  pub record IsReady (m : Registry) (dev : String) : Type 0 where
    pub registered : contains (m.keys dev) (own dev) ≡ true
    pub other : (own dev == key) ≡ false
    pub named : is_missing (some (own dev)) ≡ false
    pub reserved : is_missing (m.holder dev) ≡ false

  outside-key :
      (keys : List String) (k : String)
      → (k == key) ≡ false
      → contains (outside (key ∷ []) keys) k ≡ contains keys k
  outside-key keys k differ = ground (arith, contains-outside (key ∷ []) keys k)

  without_key : (keys : List String) → contains (outside (key ∷ []) keys) key ≡ false
  without_key keys = ground (arith, contains-outside (key ∷ []) keys key)

  -- No other registration is touched.
  keys_of_fence_device :
      (m : Registry) (dev d k : String)
      → (k == key) ≡ false
      → contains ((fence_device own key dev m).keys d) k ≡ contains (m.keys d) k
  keys_of_fence_device m dev d k differ = ground (arith, outside-key (m.keys d) k differ)

  missing_passed_on :
      (host_key : String) (holder : Option String)
      → is_missing (some host_key) ≡ false
      → is_missing holder ≡ false
      → is_missing (passed_on host_key key holder) ≡ false
  missing_passed_on host_key none named h = h
  missing_passed_on host_key (some holder) named h = ground arith

  fence_device-reserved :
      (m : Registry) (dev d : String)
      → is_missing (some (own dev)) ≡ false
      → is_missing (m.holder d) ≡ false
      → is_missing ((fence_device own key dev m).holder d) ≡ false
  fence_device-reserved m dev d named h =
      ground (arith, missing_passed_on (own dev) (m.holder d) named h)

  fence_device-IsReady :
      (m : Registry) (dev d : String)
      → IsReady m dev
      → IsReady m d
      → IsReady (fence_device own key dev m) d
  fence_device-IsReady m dev d here ready = record {
    registered = keys_of_fence_device m dev d (own d) ready.other ∙ ready.registered;
    other = ready.other;
    named = ready.named;
    reserved = fence_device-reserved m dev d here.named ready.reserved;
  }

  fence_device-gone :
      (m : Registry) (dev : String)
      → IsReady m dev
      → contains ((fence_device own key dev m).keys dev) key ≡ false
  fence_device-gone m dev ready =
      let registered = ready.registered in ground (arith, without_key (m.keys dev))

  fence_device-still_gone :
      (m : Registry) (dev d : String)
      → contains (m.keys d) key ≡ false
      → contains ((fence_device own key dev m).keys d) key ≡ false
  fence_device-still_gone m dev d gone = ground (arith, without_key (m.keys d))

  is_clear_of :
      (m : Registry) (dev : String)
      → contains (m.keys dev) key ≡ false
      → is_missing (m.holder dev) ≡ false
      → is_clear key m dev ≡ true
  is_clear_of m dev gone reserved = ground arith

  -- what the devices that are still to come are for the registry after one of them
  ready_after :
      (m : Registry) (dev : String) (devices : List String)
      → IsReady m dev
      → All (IsReady m) devices
      → All (IsReady (fence_device own key dev m)) devices
  ready_after m dev [] here ready = tt
  ready_after m dev (d ∷ devices) here (first, others) =
      (fence_device-IsReady m dev d here first, ready_after m dev devices here others)

  stays_clear :
      (devices : List String) (m : Registry) (d : String)
      → All (IsReady m) devices
      → contains (m.keys d) key ≡ false
      → is_missing (m.holder d) ≡ false
      → is_clear key (fence_devices own key devices m) d ≡ true
  stays_clear [] m d ready gone reserved = is_clear_of m d gone reserved
  stays_clear (dev ∷ devices) m d (here, others) gone reserved =
      stays_clear devices (fence_device own key dev m) d (ready_after m dev devices here others)
        (fence_device-still_gone m dev d gone) (fence_device-reserved m dev d here.named reserved)

  devices_clear :
      (devices : List String) (m : Registry)
      → All (IsReady m) devices
      → All (λ d. is_clear key (fence_devices own key devices m) d ≡ true) devices
  devices_clear [] m ready = tt
  devices_clear (dev ∷ devices) m (here, others) =
      let after = fence_device own key dev m in
      let still = ready_after m dev devices here others in
      (
        stays_clear devices after dev still (fence_device-gone m dev here)
            (fence_device-IsReady m dev dev here here).reserved,
        devices_clear devices after still,
      )

  unclear_zero :
      (devices : List String) (m : Registry)
      → All (λ d. is_clear key m d ≡ true) devices
      → unclear key m devices ≡ 0
  unclear_zero [] m clear = refl
  unclear_zero (dev ∷ devices) m (here, others) = ground (arith, unclear_zero devices m others)

  gone_of_clear :
      (devices : List String) (m : Registry)
      → All (λ d. is_clear key m d ≡ true) devices
      → All (λ d. contains (m.keys d) key ≡ false) devices
  gone_of_clear [] m clear = tt
  gone_of_clear (dev ∷ devices) m (here, others) = (ground arith, gone_of_clear devices m others)

  keys_of_fence_devices :
      (devices : List String) (m : Registry) (d k : String)
      → (k == key) ≡ false
      → contains ((fence_devices own key devices m).keys d) k ≡ contains (m.keys d) k
  keys_of_fence_devices [] m d k differ = refl
  keys_of_fence_devices (dev ∷ devices) m d k differ =
      keys_of_fence_devices devices (fence_device own key dev m) d k differ
      ∙ keys_of_fence_device m dev d k differ

  module _ {W : Type 0} (host : Host W) (view : W → Registry) (path : String)
      (known : Dict String) where
    -- Where moreover the node is registered with every device under its own key, which is not the one to
    -- fence, and every device has a reservation, the action "off" of fence_mpath returns. The key is then
    -- registered with none of the devices, and every other registration is as it was.
    pub set_status_succeeds :
        (devices : List String)
        → All (Attached host view path key own known) devices
        → (s : State W) → Config path key s.options
        → HasEntry "--action" (text "off") s
        → dev_read host true s ≡ (ok (some known), s)
        → All (IsReady (view s.world)) devices
        → ((set_status host devices s).0 ≡ ok tt)
          × All
              (λ dev. contains ((view (set_status host devices s).1.world).keys dev) key ≡ false)
              devices
          × ((dev k : String)
              → (k == key) ≡ false
              → contains ((view (set_status host devices s).1.world).keys dev) k
                ≡ contains ((view s.world).keys dev) k)
    set_status_succeeds devices at s config action read ready =
        let (viewed, outcome) =
          set_status_refines host view path key own known devices at s config action read in
        let clear = devices_clear devices (view s.world) ready in
        let final = fence_devices own key devices (view s.world) in
        (
          outcome
              ∙ ap (λ n. if n == 0 then ok tt else exit 1) (unclear_zero devices final clear)
              ∙ unfold nat_eq in refl,
          subst (λ m. All (λ dev. contains (m.keys dev) key ≡ false) devices) (sym viewed)
              (gone_of_clear devices final clear),
          λ dev k differ.
              ap (λ m. contains (m.keys dev) k) viewed
              ∙ keys_of_fence_devices devices (view s.world) dev k differ,
        )
