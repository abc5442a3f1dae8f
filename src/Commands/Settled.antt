-- ===== src/Commands/Settled.antt =====
-- When the loop of `run_commands` in lib/fencing.py.py stops waiting.
use Prim.Native.Nat.{suc, zero}
use fence_agents.Base.{
  ℕ, ◌+◌, ◌*◌, ◌/◌, ◌^◌, ◌≤◌, ◌<◌, ◌≡◌, refl, sym, ap, subst, arith, true, false, Option, none,
  some, List, [], ◌∷◌, ◌++◌, length, Bool-cases, ◌⊎◌, inl, inr,
}
use fence_agents.Base.Int.{pos, negsuc}
use fence_agents.Exec.{Exec, ok, pure, ◌>>=◌}
use fence_agents.Exec.Rules.{on_ok, pure-ok}
use fence_agents.State.{State}
use fence_agents.Text.Decimal.{Decimal}
use fence_agents.Commands.Asked.{Asked, poll-Asked, Asked-length}
use fence_agents.Commands.{
  Launcher, Gone, good_count, is_late, poll, is_early, is_quorate, after_round, next_round,
  wait_all,
}

-- how many of the codes are 0
abbrev pub zeros : Gone → ℕ
zeros [] = 0
zeros ((pid, pos zero) ∷ gone) = suc (zeros gone)
zeros ((pid, pos (suc n)) ∷ gone) = zeros gone
zeros ((pid, negsuc n) ∷ gone) = zeros gone

good_count-zeros : (gone : Gone) → good_count gone ≡ zeros gone
unfolding good_count
good_count-zeros [] = refl
good_count-zeros ((pid, pos zero) ∷ gone) = ground (arith, good_count-zeros gone)
good_count-zeros ((pid, pos (suc n)) ∷ gone) = ground (arith, good_count-zeros gone)
good_count-zeros ((pid, negsuc n) ∷ gone) = ground (arith, good_count-zeros gone)

zeros-length : (gone : Gone) → zeros gone ≤ length gone
zeros-length [] = omega arith
zeros-length ((pid, pos zero) ∷ gone) = omega (arith, zeros-length gone)
zeros-length ((pid, pos (suc n)) ∷ gone) = omega (arith, zeros-length gone)
zeros-length ((pid, negsuc n) ∷ gone) = omega (arith, zeros-length gone)

length-append : (gone new : Gone) → length (gone ++ new) ≡ length gone + length new
length-append [] new = omega arith
length-append (p ∷ gone) new = omega (arith, length-append gone new)

module _ {W : Type 0} (launcher : Launcher W) where
  module _ (start : ℕ) (limit : Option Decimal) where
    -- Five seconds have passed since the start.
    abbrev pub HaveFivePassed : W → Type 0
    HaveFivePassed w = start + 5 * launcher.clock.per_second ≤ launcher.clock.now w

    -- The limit has passed since the start; without a limit it never has.
    abbrev pub HasLimitPassed : Option Decimal → W → Type 0
    HasLimitPassed none w = ⊥
    HasLimitPassed (some limit) w =
        start * 10 ^ limit.places + limit.digits * launcher.clock.per_second
        ≤ launcher.clock.now w * 10 ^ limit.places

    -- Why the waiting is over: no process is left, or five seconds have passed and more than half of all
    -- processes gave 0, or five seconds and the limit have passed.
    pub data Settled (gone : Gone) (alive : List ℕ) (w : W) : Type 0 where
      nothing_left : alive ≡ [] → Settled gone alive w
      majority :
          HaveFivePassed w → length gone + length alive < 2 * zeros gone → Settled gone alive w
      limit_passed : HaveFivePassed w → HasLimitPassed limit w → Settled gone alive w

    -- Round after round the processes that are left are asked, up to the first round after which the
    -- waiting is over.
    pub data Rounds : Gone → List ℕ → W → Gone → List ℕ → W → Type 0 where
      last :
          {gone new : Gone} {alive left : List ℕ} {u v : W}
          → Asked launcher alive u new left v
          → Settled (gone ++ new) left v
          → Rounds gone alive u (gone ++ new) left v
      more :
          {gone new at_end : Gone} {alive left at_last : List ℕ} {u v w : W}
          → Asked launcher alive u new left v
          → (Settled (gone ++ new) left v → ⊥)
          → Rounds (gone ++ new) left v at_end at_last w
          → Rounds gone alive u at_end at_last w

    late_passed :
        (limit : Option Decimal) (w : W)
        → is_late launcher start limit w ≡ true
        → HasLimitPassed limit w
    unfolding is_late
    late_passed none w h = absurd (cc h)
    late_passed (some limit) w h = ground (arith, h)

    soon_passed :
        (limit : Option Decimal) (w : W)
        → is_late launcher start limit w ≡ false
        → HasLimitPassed limit w
        → ⊥
    unfolding is_late
    soon_passed none w h over = over
    soon_passed (some limit) w h over = ground (arith, h, over)

    early_unsettled :
        (gone : Gone) (pid : ℕ) (alive : List ℕ) (w : W)
        → is_early launcher start w ≡ true
        → Settled gone (pid ∷ alive) w
        → ⊥
    early_unsettled gone pid alive w early (nothing_left e) = cc e
    early_unsettled gone pid alive w early (majority five half) = ground (arith, early, five)
    early_unsettled gone pid alive w early (limit_passed five over) = ground (arith, early, five)

    soon_unsettled :
        (gone : Gone) (pid : ℕ) (alive : List ℕ) (total : ℕ) (w : W)
        → length gone + length (pid ∷ alive) ≡ total
        → is_quorate total gone (pid ∷ alive) ≡ false
        → is_late launcher start limit w ≡ false
        → Settled gone (pid ∷ alive) w
        → ⊥
    soon_unsettled gone pid alive total w sum short soon (nothing_left e) = cc e
    soon_unsettled gone pid alive total w sum short soon (majority five half) =
        ground (arith, sum, short, half, good_count-zeros gone, zeros-length gone)
    soon_unsettled gone pid alive total w sum short soon (limit_passed five over) =
        soon_passed limit w soon over

    -- What follows a round: the waiting is over, or it is not and goes on.
    abbrev Follows : Gone → List ℕ → W → Gone × List ℕ → W → Type 0
    Follows gone alive v r w =
        (Settled gone alive v × (r ≡ (gone, alive)) × (w ≡ v))
        ⊎ ((Settled gone alive v → ⊥) × Rounds gone alive v r.0 r.1 w)

    -- What the later rounds do with what they are given.
    abbrev GoesOn : ℕ → (Gone → List ℕ → Exec (State W) (Gone × List ℕ)) → Type 0
    GoesOn total again =
        (gone : Gone) (alive : List ℕ) (s : State W) (r : Gone × List ℕ) (t : State W)
        → length gone + length alive ≡ total
        → again gone alive s ≡ (ok r, t)
        → Rounds gone alive s.world r.0 r.1 t.world

    stopped :
        (gone : Gone) (alive : List ℕ) (s : State W) (r : Gone × List ℕ) (t : State W)
        → Settled gone alive s.world
        → pure (gone, alive) s ≡ (ok r, t)
        → Follows gone alive s.world r t.world
    stopped gone alive s r t settled h =
        let (same, after) = pure-ok (gone, alive) s h in
        inl (settled, sym same, ap (λ (u : State W). u.world) (sym after))

    after_round-Follows :
        (total : ℕ) (again : Gone → List ℕ → Exec (State W) (Gone × List ℕ))
        → GoesOn total again
        → (gone : Gone) (alive : List ℕ) (s : State W) (r : Gone × List ℕ) (t : State W)
        → length gone + length alive ≡ total
        → after_round launcher start limit total again gone alive s ≡ (ok r, t)
        → Follows gone alive s.world r t.world
    unfolding after_round ◌>>=◌
    after_round-Follows total again later gone [] s r t sum h =
        stopped gone [] s r t (nothing_left refl) h
    after_round-Follows total again later gone (pid ∷ alive) s r t sum h =
        elim (Bool-cases (is_early launcher start s.world)) [
          | inl early ↦ inr (
            early_unsettled gone pid alive s.world early,
            later gone (pid ∷ alive) s r t sum (rw early at h),
          )
          | inr five ↦ elim (Bool-cases (is_quorate total gone (pid ∷ alive))) [
            | inl quorate ↦
                stopped gone (pid ∷ alive) s r t
                  (majority (ground (arith, five))
                    (ground (arith, sum, quorate, good_count-zeros gone)))
                  (rw quorate at rw five at h)
            | inr short ↦ elim (Bool-cases (is_late launcher start limit s.world)) [
              | inl late ↦
                  stopped gone (pid ∷ alive) s r t
                    (limit_passed (ground (arith, five)) (late_passed limit s.world late))
                    (rw late at rw short at rw five at h)
              | inr soon ↦ inr (
                soon_unsettled gone pid alive total s.world sum short soon,
                later gone (pid ∷ alive) s r t sum (rw soon at rw short at rw five at h),
              )
            ]
          ]
        ]

    Follows-Rounds :
        (gone new : Gone) (alive left : List ℕ) (u v w : W) (r : Gone × List ℕ)
        → Asked launcher alive u new left v
        → Follows (gone ++ new) left v r w
        → Rounds gone alive u r.0 r.1 w
    Follows-Rounds gone new alive left u v w r asked (inl (settled, same, after)) =
        subst (λ (x : (Gone × List ℕ) × W). Rounds gone alive u x.0.0 x.0.1 x.1)
          (λ i. (sym same i, sym after i)) (last asked settled)
    Follows-Rounds gone new alive left u v w r asked (inr (unsettled, rounds)) =
        more asked unsettled rounds

    pub wait_all-Rounds : (total fuel : ℕ) → GoesOn total (wait_all launcher start limit total fuel)
    unfolding wait_all next_round
    wait_all-Rounds total zero gone alive s r t sum h = absurd (cc h)
    wait_all-Rounds total (suc fuel) gone alive s r t sum h =
        on_ok (poll launcher start limit (2 * launcher.clock.per_second / length alive) alive) _ s h
          λ polled u e h.
            let asked =
              poll-Asked launcher start limit (2 * launcher.clock.per_second / length alive) alive s
                e in
            Follows-Rounds gone polled.0 alive polled.1 s.world u.world t.world r asked (
              after_round-Follows total (wait_all launcher start limit total fuel)
                (wait_all-Rounds total fuel) (gone ++ polled.0) polled.1 u r t
                (omega (arith, sum, Asked-length launcher asked, length-append gone polled.0)) h)
