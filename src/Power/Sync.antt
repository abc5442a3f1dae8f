-- ===== src/Power/Sync.antt =====
-- Synchronous agents and reboot cycles: what the success of `sync_set_multi_power` says of each plug.
use Prim.Native.Nat.{suc, zero}
use fence_agents.Base.{
  ℕ, String, ◌≡◌, refl, sym, ap, fun_ext, ◌≢◌, ◌∙◌, subst, Bool, true, false, ◌&&◌, inl, inr, List,
  [], ◌∷◌, arith, Bool-cases, ◌==◌, nat_eq,
}
use fence_agents.Base.Int.{ℤ}
use fence_agents.Exec.{Exec, ok, ◌>>=◌}
use fence_agents.Exec.Rules.{pure-ok, on_ok}
use fence_agents.State.{State, System, int_option, sleep}
use fence_agents.Power.{plugs_of, select, try_plug, try_plugs, sync_set_multi_power}
use fence_agents.Power.Status.{selected, select-bind}

suc-ne-zero : (n : ℕ) → (suc n == 0) ≡ false
suc-ne-zero n = ground arith

module _ {W : Type 0} where
  -- Among at most so many calls of the action in a row, the last reported success and those before
  -- it failure.
  pub data Tried (action : Exec (State W) Bool) : ℕ → State W → State W → Type 0 where
    first : {n : ℕ} {s t : State W} → action s ≡ (ok true, t) → Tried action (suc n) s t
    later :
        {n : ℕ} {s t u : State W}
        → action s ≡ (ok false, u)
        → Tried action n u t
        → Tried action (suc n) s t

  module _ (system : System W) (action : Exec (State W) Bool) (attempts : ℕ) where
    -- the pause of "--power-wait" seconds behind each plug
    pub data Waited : State W → State W → Type 0 where
      waited :
          {s t u : State W} (wait : ℤ)
          → int_option "--power-wait" s ≡ (ok wait, u)
          → sleep system wait u ≡ (ok tt, t)
          → Waited s t

    -- Each plug in turn was selected, acted on with success, and waited for.
    pub data AllTried : List String → State W → State W → Type 0 where
      done : {s : State W} → AllTried [] s s
      next :
          {plug : String} {plugs : List String} {s t u v : State W}
          → Tried action attempts (selected plug s) u
          → Waited u v
          → AllTried plugs v t
          → AllTried (plug ∷ plugs) s t

  try_plug-Tried :
      (action : Exec (State W) Bool) (n : ℕ) (s : State W) {b : Bool} {t : State W}
      → b ≡ true
      → try_plug action (suc n) s ≡ (ok b, t)
      → Tried action (suc n) s t
  unfolding try_plug
  try_plug-Tried action zero s p h = on_ok action _ s h λ done u called h. elim (Bool-cases done) [
    | inl yes_done ↦ first (called ∙ (λ i. (ok (yes_done i), ap (λ x. x.1) (rw yes_done at h) i)))
    | inr no_done ↦ absurd (cc (p, rw no_done at h))
  ]
  try_plug-Tried action (suc n) s p h = on_ok action _ s h λ done u called h.
      elim (Bool-cases done) [
        | inl yes_done ↦
            first (called ∙ (λ i. (ok (yes_done i), ap (λ x. x.1) (rw yes_done at h) i)))
        | inr no_done ↦
            later (called ∙ (λ i. (ok (no_done i), u)))
              (try_plug-Tried action n u p (rw (suc-ne-zero n) at (rw no_done at h)))
      ]

  module _ (system : System W) (action : Exec (State W) Bool) (n : ℕ) where
    try_plugs-AllTried :
        (plugs : List String) (success : Bool) (s : State W) {b : Bool} {t : State W}
        → b ≡ true
        → try_plugs system action (suc n) plugs success s ≡ (ok b, t)
        → (success ≡ true) × AllTried system action (suc n) plugs s t
    unfolding try_plugs
    try_plugs-AllTried [] success s {t = t} p h =
        (cc, subst (λ w. AllTried system action (suc n) [] s w) (ap (λ x. x.1) h) done)
    try_plugs-AllTried (plug ∷ plugs) success s p h =
        on_ok (try_plug action (suc n)) _ (selected plug s) (sym (select-bind plug _ s) ∙ h)
          λ done u tried h. on_ok (int_option "--power-wait") _ u h λ wait v found h.
            on_ok (sleep system wait) _ v h λ _ w slept h.
              let (both, rest) = try_plugs-AllTried plugs (success && done) w p h in
              (
                ground arith,
                next (try_plug-Tried action n (selected plug s) (ground arith) tried)
                    (waited wait found slept) rest,
              )

    -- With at least one attempt, success means that every plug in turn had an attempt that reported
    -- success, among at most that many.
    pub sync_set_multi_power-AllTried :
        (s t : State W)
        → sync_set_multi_power system action (suc n) s ≡ (ok true, t)
        → AllTried system action (suc n) (plugs_of s) s t
    unfolding sync_set_multi_power
    sync_set_multi_power-AllTried s t h = (try_plugs-AllTried (plugs_of s) true s refl h).1

  -- With no attempt at all the function is not called and success is reported.
  module _ (system : System W) (action other : Exec (State W) Bool) where
    try_plugs_zero :
        (plugs : List String) (success : Bool)
        → try_plugs system action 0 plugs success ≡ try_plugs system other 0 plugs success
    unfolding try_plugs
    try_plugs_zero [] success = refl
    try_plugs_zero (plug ∷ plugs) success =
        ap
          (λ (rest : Bool → Exec (State W) Bool). select plug >>= λ _. try_plug action 0 >>= λ done.
            int_option "--power-wait" >>= λ wait. sleep system wait >>= λ _. rest (success && done))
          (fun_ext λ b. try_plugs_zero plugs b)

    try_plugs_zero-ok :
        (plugs : List String) (s : State W) {b : Bool} {t : State W}
        → try_plugs system action 0 plugs true s ≡ (ok b, t)
        → b ≡ true
    unfolding try_plugs
    try_plugs_zero-ok [] s h = sym (pure-ok true s h).0
    try_plugs_zero-ok (plug ∷ plugs) s {b} {t} h = on_ok (select plug) _ s h λ _ u _ h.
        on_ok (try_plug action 0) _ u h λ done v tried h.
          on_ok (int_option "--power-wait") _ v h λ wait v _ h.
            on_ok (sleep system wait) _ v h λ _ v _ h. try_plugs_zero-ok plugs v (
              subst (λ d. try_plugs system action 0 plugs d v ≡ (ok b, t))
                (sym (pure-ok true u tried).0) h)

    -- With no attempt the action is never called, since any other in its place gives the same run, and
    -- a run that returns reports success.
    pub sync_set_multi_power_zero :
        (s : State W)
        → (sync_set_multi_power system action 0 s ≡ sync_set_multi_power system other 0 s)
          × ((sync_set_multi_power system action 0 s).0 ≢ ok false)
    unfolding sync_set_multi_power
    sync_set_multi_power_zero s = (
      (λ i. try_plugs_zero (plugs_of s) true i s),
      λ h. cc (
          try_plugs_zero-ok (plugs_of s) s
            (λ i. (h i, (sync_set_multi_power system action 0 s).1))),
    )
