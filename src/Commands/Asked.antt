-- ===== src/Commands/Asked.antt =====
-- The polling of `run_commands` in lib/fencing.py.py, by what the waits for the processes answer.
use fence_agents.Base.{
  ℕ, ◌+◌, ◌≡◌, refl, ap, ◌∙◌, subst, arith, Option, none, some, List, [], ◌∷◌, length,
  if◌then◌else◌,
}
use fence_agents.Base.Int.{ℤ}
use fence_agents.Exec.{ok, gets}
use fence_agents.Exec.Rules.{on_ok, pure-ok}
use fence_agents.State.{State}
use fence_agents.Text.Decimal.{Decimal}
use fence_agents.Commands.{Launcher, Gone, is_late, check_gone, sort_out, poll}

module _ {W : Type 0} (launcher : Launcher W) where
  -- Each of the processes was waited for in turn, for some time. Those that had ended then are gone with
  -- their codes, and the others are left.
  pub data Asked : List ℕ → W → Gone → List ℕ → W → Type 0 where
    all_asked : {w : W} → Asked [] w [] [] w
    ended :
        {pid most : ℕ} {code : ℤ} {alive left : List ℕ} {gone : Gone} {u v w : W}
        → launcher.wait pid most u ≡ (some code, v)
        → Asked alive v gone left w
        → Asked (pid ∷ alive) u ((pid, code) ∷ gone) left w
    running :
        {pid most : ℕ} {alive left : List ℕ} {gone : Gone} {u v w : W}
        → launcher.wait pid most u ≡ (none, v)
        → Asked alive v gone left w
        → Asked (pid ∷ alive) u gone (pid ∷ left) w

  sort_out-Asked :
      (pid most : ℕ) (code : Option ℤ) {alive : List ℕ} (parts : Gone × List ℕ) {u v w : W}
      → launcher.wait pid most u ≡ (code, v)
      → Asked alive v parts.0 parts.1 w
      → Asked (pid ∷ alive) u (sort_out pid code parts).0 (sort_out pid code parts).1 w
  sort_out-Asked pid most none (gone, left) one rest = running one rest
  sort_out-Asked pid most (some code) (gone, left) one rest = ended one rest

  check_gone-wait :
      (pid most : ℕ) (s : State W) {code : Option ℤ} {t : State W}
      → check_gone launcher pid most s ≡ (ok code, t)
      → launcher.wait pid most s.world ≡ (code, t.world)
  unfolding check_gone
  check_gone-wait pid most s h =
      let waited = launcher.wait pid most s.world in
      let (same, after) = pure-ok waited.0 (record s { world = waited.1 }) h in
      λ i. (same i, (after i).world)

  pub poll-Asked :
      (start : ℕ) (limit : Option Decimal) (most : ℕ) (alive : List ℕ) (s : State W)
      {r : Gone × List ℕ} {t : State W}
      → poll launcher start limit most alive s ≡ (ok r, t)
      → Asked alive s.world r.0 r.1 t.world
  unfolding poll
  poll-Asked start limit most [] s h =
      let (same, after) = pure-ok ([], []) s h in
      subst (λ (x : (Gone × List ℕ) × State W). Asked [] s.world x.0.0 x.0.1 x.1.world)
        (λ i. (same i, after i)) all_asked
  poll-Asked start limit most (pid ∷ alive) s h =
      on_ok (gets (λ s. is_late launcher start limit s.world)) _ s h λ late u e h.
        on_ok (check_gone launcher pid (if late then 0 else most)) _ u h λ code v one h.
          on_ok (poll launcher start limit (if late then 0 else most) alive) _ v h λ parts w rest h.
            let (same, after) = pure-ok (sort_out pid code parts) w h in
            let here = (pure-ok (is_late launcher start limit s.world) s e).1 in
            subst
              (λ (x : (Gone × List ℕ) × State W). Asked (pid ∷ alive) s.world x.0.0 x.0.1 x.1.world)
              (λ i. (same i, after i))
              (sort_out-Asked pid (if late then 0 else most) code parts
                (ap (λ (u : State W). launcher.wait pid (if late then 0 else most) u.world) here
                  ∙ check_gone-wait pid (if late then 0 else most) u one)
                (poll-Asked start limit (if late then 0 else most) alive v rest))

  pub Asked-length :
      {alive left : List ℕ} {gone : Gone} {u w : W}
      → Asked alive u gone left w
      → length gone + length left ≡ length alive
  Asked-length all_asked = refl
  Asked-length (ended one rest) = omega (arith, Asked-length rest)
  Asked-length (running one rest) = omega (arith, Asked-length rest)
