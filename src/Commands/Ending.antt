-- ===== src/Commands/Ending.antt =====
-- `run_commands` of lib/fencing.py.py comes to an end, if it is given a limit and time goes on.
use Prim.Native.Nat.{suc, zero}
use fence_agents.Base.{
  ℕ, ◌+◌, ◌*◌, ◌/◌, ◌^◌, ◌≤◌, ◌<◌, ◌≡◌, ◌≢◌, refl, sym, ap, ◌∙◌, subst, arith, true, false, Option,
  none, some, List, [], ◌∷◌, ◌++◌, length, String, Bool-cases, ◌⊎◌, inl, inr, dec_lt, if◌then◌else◌,
}
use fence_agents.Base.Int.{ℤ}
use fence_agents.Dict
use fence_agents.Exec.{Exec, Outcome, ok, diverged, gets, ◌>>=◌}
use fence_agents.Exec.Rules.{on_end, bind_of_ok, pure-ok}
use fence_agents.State.{State, Value, text}
use fence_agents.State.Entries.{HasEntry}
use fence_agents.Text.Decimal.{Decimal, decimal_of_text}
use fence_agents.Commands.Parts.{spawn_all-Ending, spawn_all_forward, hand_over-Ending}
use fence_agents.Commands.{
  Launcher, Gone, negative_as_zero, limit_of, is_late, check_gone, sort_out, poll, is_early,
  is_quorate, after_round, next_round, wait_all, spawn_all, hand_over, run_processes, run_within,
  run_commands,
}

limit_of-ok :
    {W : Type 0} (given : String) (limit : Option Decimal) (found : Option Value) (s : State W)
    → decimal_of_text given ≡ some limit
    → found ≡ some (text given)
    → limit_of found s ≡ (ok (some (negative_as_zero limit)), s)
unfolding limit_of
limit_of-ok given limit found s read same = rw same (rw (read, limit_of) refl)

module _ {W : Type 0} (launcher : Launcher W) where
  run_commands-within :
      (fuel : ℕ) (commands : List String) (given : String) (limit : Option Decimal) (s : State W)
      → HasEntry "--power-timeout" (text given) s
      → decimal_of_text given ≡ some limit
      → run_commands launcher fuel commands s
        ≡ run_within launcher fuel commands (some (negative_as_zero limit)) s
  unfolding run_commands
  run_commands-within fuel commands given limit s entry read =
      bind_of_ok (gets (λ s. Dict.get s.options "--power-timeout"))
        (λ found. limit_of found >>= run_within launcher fuel commands) s refl
      ∙ bind_of_ok (limit_of (Dict.get s.options "--power-timeout"))
          (run_within launcher fuel commands) s
          (limit_of-ok given limit (Dict.get s.options "--power-timeout") s read entry)

  abbrev clock_at : W → ℕ
  clock_at w = launcher.clock.now w

  -- The clock is never put back, and goes on with every wait for a process that does not end.
  pub record Forward : Type 0 where
    pub starting : (command : String) (w : W) → clock_at w ≤ clock_at (launcher.spawn command w).1
    pub waiting : (pid most : ℕ) (w : W) → clock_at w ≤ clock_at (launcher.wait pid most w).1
    pub in_vain :
        (pid most : ℕ) (w : W)
        → (launcher.wait pid most w).0 ≡ none
        → clock_at w < clock_at (launcher.wait pid most w).1

  -- What a round of polling does: it returns, and time has passed if a process is left.
  record Polled (m : Outcome (Gone × List ℕ) × State W) (before : ℕ) : Type 0 where
    parts : Gone × List ℕ
    after : State W
    returned : m ≡ (ok parts, after)
    forward : before ≤ clock_at after.world
    left : (parts.1 ≡ []) ⊎ (before < clock_at after.world)

  module _ (clock : Forward) where
    sort_out-Polled :
        (pid : ℕ) (code : Option ℤ) (parts : Gone × List ℕ) (before between after : ℕ)
        → before ≤ between
        → (code ≡ none → before < between)
        → between ≤ after
        → (parts.1 ≡ []) ⊎ (between < after)
        → ((sort_out pid code parts).1 ≡ []) ⊎ (before < after)
    sort_out-Polled pid none parts before between after one vain two left =
        inr (omega (arith, vain refl, two))
    sort_out-Polled pid (some code) parts before between after one vain two (inl nothing) =
        inl nothing
    sort_out-Polled pid (some code) parts before between after one vain two (inr later) =
        inr (omega (arith, one, later))

    poll-Polled :
        (start : ℕ) (limit : Option Decimal) (most : ℕ) (alive : List ℕ) (s : State W)
        → Polled (poll launcher start limit most alive s) (clock_at s.world)
    unfolding poll ◌>>=◌ check_gone
    poll-Polled start limit most [] s = record {
      parts = ([], []);
      after = s;
      returned = refl;
      forward = omega arith;
      left = inl refl;
    }
    poll-Polled start limit most (pid ∷ alive) s =
        let most' = if is_late launcher start limit s.world then 0 else most in
        let waited = launcher.wait pid most' s.world in
        let rest = poll-Polled start limit most' alive (record s { world = waited.1 }) in
        record {
          parts = sort_out pid waited.0 rest.parts;
          after = rest.after;
          returned = rw rest.returned refl;
          forward = omega (arith, clock.waiting pid most' s.world, rest.forward);
          left =
              sort_out-Polled pid waited.0 rest.parts (clock_at s.world) (clock_at waited.1)
                (clock_at rest.after.world) (clock.waiting pid most' s.world)
                (clock.in_vain pid most' s.world) rest.forward rest.left;
        }

    -- This many parts of a second are not less than five seconds, and not less than the limit.
    pub record IsEnough (limit : Decimal) (ticks : ℕ) : Type 0 where
      pub five : 5 * launcher.clock.per_second ≤ ticks
      pub whole_limit : limit.digits * launcher.clock.per_second ≤ ticks * 10 ^ limit.places

    scaled :
        (scale start ticks time : ℕ)
        → start + ticks ≤ time
        → start * scale + ticks * scale ≤ time * scale
    scaled zero start ticks time h = omega arith
    scaled (suc k) start ticks time h = omega (arith, h, scaled k start ticks time h)

    is_late_lem :
        (start : ℕ) (limit : Decimal) (ticks : ℕ) (w : W)
        → IsEnough limit ticks
        → start + ticks ≤ clock_at w
        → (is_early launcher start w ≡ false) × (is_late launcher start (some limit) w ≡ true)
    unfolding is_late
    is_late_lem start limit ticks w e h = (
      ground (arith, h, e.five),
      ground (arith, scaled (10 ^ limit.places) start ticks (clock_at w) h, e.whole_limit),
    )

    -- Nothing happens after the bound but the end.
    after_round_ends :
        (start : ℕ) (limit : Decimal) (ticks : ℕ) (e : IsEnough limit ticks) (total : ℕ)
        (again : Gone → List ℕ → Exec (State W) (Gone × List ℕ)) (gone : Gone) (alive : List ℕ)
        (s : State W)
        → ((alive ≡ [] → ⊥)
            → clock_at s.world < start + ticks
            → (again gone alive s).0 ≡ diverged
            → ⊥)
        → (after_round launcher start (some limit) total again gone alive s).0 ≡ diverged
        → ⊥
    unfolding after_round ◌>>=◌
    after_round_ends start limit ticks e total again gone [] s later h = cc h
    after_round_ends start limit ticks e total again gone (pid ∷ alive) s later h =
        elim (dec_lt (clock_at s.world) (start + ticks)) [
          | yes before ↦ elim (Bool-cases (is_early launcher start s.world)) [
            | inl early ↦ later (λ e. cc e) before (rw early at h)
            | inr five ↦ elim (Bool-cases (is_quorate total gone (pid ∷ alive))) [
              | inl quorate ↦ cc (rw quorate at rw five at h)
              | inr short ↦ elim (Bool-cases (is_late launcher start (some limit) s.world)) [
                | inl late ↦ cc (rw late at rw short at rw five at h)
                | inr soon ↦ later (λ e. cc e) before (rw soon at rw short at rw five at h)
              ]
            ]
          ]
          | no after ↦
              let (five, late) = is_late_lem start limit ticks s.world e (omega (arith, after)) in
              elim (Bool-cases (is_quorate total gone (pid ∷ alive))) [
                | inl quorate ↦ cc (rw quorate at rw five at h)
                | inr short ↦ cc (rw late at rw short at rw five at h)
              ]
        ]

    poll_ends :
        (start : ℕ) (limit : Option Decimal) (most : ℕ) (alive : List ℕ) (s : State W)
        → (poll launcher start limit most alive s).0 ≡ diverged
        → ⊥
    poll_ends start limit most alive s d = cc ((poll-Polled start limit most alive s).returned, d)

    poll_moves :
        (start : ℕ) (limit : Option Decimal) (most : ℕ) (alive : List ℕ) (s : State W)
        {parts : Gone × List ℕ} {t : State W}
        → poll launcher start limit most alive s ≡ (ok parts, t)
        → (parts.1 ≡ [] → ⊥)
        → clock_at s.world < clock_at t.world
    poll_moves start limit most alive s e some_left =
        let polled = poll-Polled start limit most alive s in
        let (same, at_end) = pure-ok polled.parts polled.after (sym polled.returned ∙ e) in
        elim polled.left [
          | inl nothing ↦ absurd (some_left (ap (λ p. p.1) (sym same) ∙ nothing))
          | inr later ↦ subst (λ u. clock_at s.world < clock_at u.world) at_end later
        ]

    -- As many rounds are enough as there are parts of a second up to the bound.
    wait_all_ends :
        (start : ℕ) (limit : Decimal) (ticks : ℕ) (least : IsEnough limit ticks) (total fuel : ℕ)
        (gone : Gone) (alive : List ℕ) (s : State W)
        → start + ticks ≤ clock_at s.world + fuel
        → (wait_all launcher start (some limit) total (suc fuel) gone alive s).0 ≡ diverged
        → ⊥
    unfolding wait_all next_round
    wait_all_ends start limit ticks least total zero gone alive s enough h =
        on_end
          (poll launcher start (some limit) (2 * launcher.clock.per_second / length alive) alive) _
          s (poll_ends start (some limit) _ alive s)
          (λ parts t e d.
            after_round_ends start limit ticks least total
              (wait_all launcher start (some limit) total 0) (gone ++ parts.0) parts.1 t
              (λ some_left before again.
                omega (arith, poll_moves start (some limit) _ alive s e some_left, before, enough))
              d)
          h
    wait_all_ends start limit ticks least total (suc fuel) gone alive s enough h =
        on_end
          (poll launcher start (some limit) (2 * launcher.clock.per_second / length alive) alive) _
          s (poll_ends start (some limit) _ alive s)
          (λ parts t e d.
            after_round_ends start limit ticks least total
              (wait_all launcher start (some limit) total (suc fuel)) (gone ++ parts.0) parts.1 t
              (λ some_left before again.
                wait_all_ends start limit ticks least total fuel (gone ++ parts.0) parts.1 t
                  (omega (arith, poll_moves start (some limit) _ alive s e some_left, enough))
                  again)
              d)
          h

    run_processes_ends :
        (fuel start : ℕ) (limit : Decimal) (ticks : ℕ) (least : IsEnough limit ticks)
        (pids : List ℕ) (s : State W)
        → start + ticks ≤ clock_at s.world + fuel
        → (run_processes launcher (suc fuel) (some limit) start pids s).0 ≡ diverged
        → ⊥
    unfolding run_processes
    run_processes_ends fuel start limit ticks least pids s enough h =
        on_end (wait_all launcher start (some limit) (length pids) (suc fuel) [] pids)
          (λ ended. hand_over launcher ended.0 ended.1) s
          (wait_all_ends start limit ticks least (length pids) fuel [] pids s enough)
          (λ ended t e. hand_over-Ending launcher ended.0 ended.1 t) h

    run_within_ends :
        (fuel : ℕ) (commands : List String) (limit : Decimal) (s : State W)
        → IsEnough limit fuel
        → (run_within launcher (suc fuel) commands (some limit) s).0 ≡ diverged
        → ⊥
    unfolding run_within ◌>>=◌
    run_within_ends fuel commands limit s enough h =
        on_end (spawn_all launcher commands)
          (run_processes launcher (suc fuel) (some limit) (clock_at s.world)) s
          (spawn_all-Ending launcher commands s)
          (λ pids t e.
            run_processes_ends fuel (clock_at s.world) limit fuel enough pids t
              (omega (arith, spawn_all_forward launcher clock.starting commands s e)))
          h

    -- With a limit from the options the commands come to an end within one round more than there are parts
    -- of a second, rounded up, in the longer of five seconds and the limit, if the clock is never put back
    -- and goes on with every wait in vain.
    pub run_commands_ends :
        (fuel : ℕ) (commands : List String) (given : String) (limit : Option Decimal) (s : State W)
        → HasEntry "--power-timeout" (text given) s
        → decimal_of_text given ≡ some limit
        → IsEnough (negative_as_zero limit) fuel
        → (run_commands launcher (suc fuel) commands s).0 ≢ diverged
    unfolding run_commands
    run_commands_ends fuel commands given limit s entry read enough h =
        run_within_ends fuel commands (negative_as_zero limit) s enough (
          sym (ap (λ p. p.0) (run_commands-within (suc fuel) commands given limit s entry read))
          ∙ h)
