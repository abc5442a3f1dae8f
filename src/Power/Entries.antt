-- ===== src/Power/Entries.antt =====
-- The multi-plug functions leave an entry of `options` alone if the agent's functions do, and if it
-- is neither "--plug" nor "--uuid".
use Prim.Native.Nat.{suc, zero}
use fence_agents.Base.{
  ℕ, ◌+◌, String, ◌≡◌, Bool, true, false, ◌&&◌, none, some, List, [], ◌∷◌, ◌==◌, string_eq, nat_eq,
  if◌then◌else◌,
}
use fence_agents.Text.Uuid.{uuid_of_text}
use fence_agents.Exec.{Exec, pure, gets}
use fence_agents.Exec.Rules.{Keeps, Keeps-pure, Keeps-if, Keeps-bind, Keeps-gets}
use fence_agents.State.{State, System, Value, text, option, int_option, put_option, sleep}
use fence_agents.State.Entries.{
  HasEntry, Keeps-option, Keeps-int_option, HasEntry-sleep, HasEntry-put_option,
}
use fence_agents.Power.{
  select, call, poll_plugs, get_multi_power, command_plugs, expired, is_text, wait_more, wait_for,
  set_attempts, async_set_multi_power, try_plug, try_plugs, sync_set_multi_power, plugs_of,
}

-- an entry that `select` does not write
pub record IsApart (key : String) : Type 0 where
  pub not_uuid : ◌==◌ {A = String} key "--uuid" ≡ false
  pub not_plug : ◌==◌ {A = String} key "--plug" ≡ false

module _ {W : Type 0} (key : String) (value : Value) (apart : IsApart key) where
  abbrev Safe : {A : Type 0} → Exec (State W) A → Type 0
  Safe m = Keeps (HasEntry key value) m

  pub select-Keeps : (plug : String) → Keeps (HasEntry {W = W} key value) (select plug)
  unfolding select
  select-Keeps plug =
      Keeps-bind
        (elim (uuid_of_text plug) [ none ↦ pure tt | some uuid ↦ put_option "--uuid" (text uuid) ])
        _
        (elim (uuid_of_text plug)
          as (λ found.
            Safe (elim found [ none ↦ pure tt | some uuid ↦ put_option "--uuid" (text uuid) ])) [
              | none ↦ Keeps-pure tt
              | some uuid ↦ HasEntry-put_option key value "--uuid" (text uuid) apart.not_uuid
            ])
        (λ _. HasEntry-put_option key value "--plug" (text plug) apart.not_plug)

  call-Keeps : {A : Type 0} (m : Exec (State W) A) → Safe m → Safe (call (some m))
  unfolding call
  call-Keeps m k = k

  module _ (get_power : Exec (State W) String) (kept : Safe get_power) where
    poll_plugs-Keeps :
        (plugs : List String) (status : String) → Safe (poll_plugs (some get_power) plugs status)
    unfolding poll_plugs
    poll_plugs-Keeps [] status = Keeps-pure status
    poll_plugs-Keeps (plug ∷ plugs) status = Keeps-bind (select plug) _ (select-Keeps plug) λ _.
        Keeps-bind (call (some get_power)) _ (call-Keeps get_power kept)
          λ r. poll_plugs-Keeps plugs (if r == "off" then status else r)

    pub get_multi_power-Keeps : Safe (get_multi_power (some get_power))
    unfolding get_multi_power
    get_multi_power-Keeps =
        Keeps-bind (gets plugs_of) _ (Keeps-gets plugs_of) λ plugs. poll_plugs-Keeps plugs "off"

  module _ (system : System W) where
    pub command_plugs-Keeps :
        (set_power : Exec (State W) (Unit {0}))
        → Safe set_power
        → (plugs : List String) → Safe (command_plugs system set_power plugs)
    unfolding command_plugs
    command_plugs-Keeps set_power kept [] = Keeps-pure tt
    command_plugs-Keeps set_power kept (plug ∷ plugs) =
        Keeps-bind (select plug) _ (select-Keeps plug) λ _. Keeps-bind set_power _ kept λ _.
          Keeps-bind (int_option "--power-wait") _ (Keeps-int_option "--power-wait") λ wait.
            Keeps-bind (sleep system wait) _ (HasEntry-sleep key value system wait)
              λ _. command_plugs-Keeps set_power kept plugs

    wait_more-Keeps :
        (round : ℕ) (again : Exec (State W) Bool) → Safe again → Safe (wait_more system round again)
    unfolding wait_more
    wait_more-Keeps round again kept =
        Keeps-bind (int_option "--stonith-status-sleep") _
          (Keeps-int_option "--stonith-status-sleep")
          λ pause. Keeps-bind (sleep system pause) _ (HasEntry-sleep key value system pause) λ _.
            Keeps-bind (int_option "--power-timeout") _ (Keeps-int_option "--power-timeout")
              λ limit. Keeps-if (expired limit round) (pure false) again (Keeps-pure false) kept

    pub wait_for-Keeps :
        (status : Exec (State W) String)
        → Safe status
        → (fuel round : ℕ) → Safe (wait_for system status fuel round)
    unfolding wait_for
    wait_for-Keeps status kept zero round = record { at = λ s h. h }
    wait_for-Keeps status kept (suc fuel) round = Keeps-bind status _ kept λ r.
        Keeps-bind (option "--action") _ (Keeps-option "--action") λ action.
          Keeps-if (is_text action r) (pure true) _ (Keeps-pure true)
            (wait_more-Keeps round _ (wait_for-Keeps status kept fuel (round + 1)))

    set_attempts-Keeps :
        (set_power : Exec (State W) (Unit {0})) (status : Exec (State W) String)
        → Safe set_power
        → Safe status
        → (fuel : ℕ) (plugs : List String) (n : ℕ)
        → Safe (set_attempts system set_power status fuel plugs n)
    unfolding set_attempts
    set_attempts-Keeps set_power status ks kg fuel plugs zero = Keeps-pure false
    set_attempts-Keeps set_power status ks kg fuel plugs (suc n) =
        Keeps-bind (command_plugs system set_power plugs) _ (command_plugs-Keeps set_power ks plugs)
          λ _.
            Keeps-bind (wait_for system status fuel 1) _ (wait_for-Keeps status kg fuel 1) λ done.
              Keeps-if done (pure true) _ (Keeps-pure true)
                (set_attempts-Keeps set_power status ks kg fuel plugs n)

    try_plug-Keeps :
        (action : Exec (State W) Bool) → Safe action → (n : ℕ) → Safe (try_plug action n)
    unfolding try_plug
    try_plug-Keeps action kept zero = Keeps-pure true
    try_plug-Keeps action kept (suc n) = Keeps-bind action _ kept λ done.
        Keeps-if done (pure true) _ (Keeps-pure true)
          (Keeps-if (n == 0) (pure false) _ (Keeps-pure false) (try_plug-Keeps action kept n))

    try_plugs-Keeps :
        (action : Exec (State W) Bool)
        → Safe action
        → (n : ℕ) (plugs : List String) (success : Bool)
        → Safe (try_plugs system action n plugs success)
    unfolding try_plugs
    try_plugs-Keeps action kept n [] success = Keeps-pure success
    try_plugs-Keeps action kept n (plug ∷ plugs) success =
        Keeps-bind (select plug) _ (select-Keeps plug) λ _.
          Keeps-bind (try_plug action n) _ (try_plug-Keeps action kept n) λ done.
            Keeps-bind (int_option "--power-wait") _ (Keeps-int_option "--power-wait") λ wait.
              Keeps-bind (sleep system wait) _ (HasEntry-sleep key value system wait)
                λ _. try_plugs-Keeps action kept n plugs (success && done)

    pub sync_set_multi_power-Keeps :
        (action : Exec (State W) Bool)
        → Safe action
        → (n : ℕ) → Safe (sync_set_multi_power system action n)
    unfolding sync_set_multi_power
    sync_set_multi_power-Keeps action kept n =
        Keeps-bind (gets plugs_of) _ (Keeps-gets plugs_of)
          λ plugs. try_plugs-Keeps action kept n plugs true

    pub async_set_multi_power-Keeps :
        (set_power : Exec (State W) (Unit {0})) (get_power : Exec (State W) String)
        → Safe set_power
        → Safe get_power
        → (fuel n : ℕ) → Safe (async_set_multi_power system set_power get_power fuel n)
    unfolding async_set_multi_power
    async_set_multi_power-Keeps set_power get_power ks kg fuel n =
        Keeps-bind (gets plugs_of) _ (Keeps-gets plugs_of) λ plugs.
          set_attempts-Keeps set_power _ ks (get_multi_power-Keeps get_power kg) fuel plugs n
