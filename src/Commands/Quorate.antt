-- ===== src/Commands/Quorate.antt =====
-- When `run_commands` of lib/fencing.py.py stops waiting, and where its exit code comes from.
use Prim.Native.Nat.{suc, zero}
use fence_agents.Base.{
  ℕ, ◌≡◌, ◌<◌, refl, sym, ap, ◌∙◌, arith, Option, none, some, List, [], ◌∷◌, length, String,
  Bool-cases, ◌⊎◌, inl, inr,
}
use fence_agents.Base.Int.{ℤ, pos, negsuc, ltb_ℤ}
use fence_agents.Dict
use fence_agents.Exec.{Outcome, ok, gets, ◌>>=◌}
use fence_agents.Exec.Rules.{on_ok, pure-ok}
use fence_agents.State.{State, log}
use fence_agents.Text.Decimal.{Decimal}
use fence_agents.Scsi.{Ran}
use fence_agents.Failure.{fail}
use fence_agents.Commands.{
  Launcher, Gone, status_of, limit_of, retries, retried, timed_out, spawn_all, wait_all, read_all,
  kill_all, answer, hand_over, run_processes, run_within, run_commands,
}
use fence_agents.Commands.Settled.{zeros, Rounds, wait_all-Rounds}

-- An exit code of 0 stands for at least one code of 0.
abbrev pub IsZeroFor : Gone → ℤ → Type 0
IsZeroFor gone rc = (rc ≡ pos 0 → 0 < zeros gone) × (0 < zeros gone → rc ≡ pos 0)

differ : pos 5 ≡ pos 0 → ⊥
differ h = cc

zeros_front :
    (pid : ℕ) (code : ℤ) (gone : Gone)
    → (0 < zeros ((pid, code) ∷ gone) → (code ≡ pos 0) ⊎ (0 < zeros gone))
      × ((code ≡ pos 0) ⊎ (0 < zeros gone) → 0 < zeros ((pid, code) ∷ gone))
zeros_front pid (pos zero) gone = (λ h. inl refl, λ h. omega arith)
zeros_front pid (pos (suc n)) gone = (λ h. inr h, nonzero)
  where
    nonzero : (pos (suc n) ≡ pos 0) ⊎ (0 < zeros gone) → 0 < zeros gone
    nonzero (inl h) = absurd (cc h)
    nonzero (inr h) = h
zeros_front pid (negsuc n) gone = (λ h. inr h, nonzero)
  where
    nonzero : (negsuc n ≡ pos 0) ⊎ (0 < zeros gone) → 0 < zeros gone
    nonzero (inl h) = absurd (cc h)
    nonzero (inr h) = h

-- A code other than 0 gives way to the next one.
next_code :
    {status rc : ℤ} (pid : ℕ) (code : ℤ) (gone : Gone)
    → (status ≡ pos 0 → ⊥)
    → (rc ≡ pos 0 → (code ≡ pos 0) ⊎ (0 < zeros gone))
      × ((code ≡ pos 0) ⊎ (0 < zeros gone) → rc ≡ pos 0)
    → (rc ≡ pos 0 → (status ≡ pos 0) ⊎ (0 < zeros ((pid, code) ∷ gone)))
      × ((status ≡ pos 0) ⊎ (0 < zeros ((pid, code) ∷ gone)) → rc ≡ pos 0)
next_code {status} {rc} pid code gone nonzero (to, from) =
    (λ e. inr ((zeros_front pid code gone).1 (to e)), back)
  where
    back : (status ≡ pos 0) ⊎ (0 < zeros ((pid, code) ∷ gone)) → rc ≡ pos 0
    back (inl e) = absurd (nonzero e)
    back (inr e) = from ((zeros_front pid code gone).0 e)

-- The code that is handed over is 0 where the first one or a later one is.
zero_code :
    (status : ℤ) (gone : Gone) {rc : ℤ}
    → status_of (some status) gone ≡ some rc
    → (rc ≡ pos 0 → (status ≡ pos 0) ⊎ (0 < zeros gone))
      × ((status ≡ pos 0) ⊎ (0 < zeros gone) → rc ≡ pos 0)
unfolding status_of
zero_code status [] {rc} h = (λ e. inl (some_inj (h ∙ ap some e)), back)
  where
    some_inj : {a b : ℤ} → some a ≡ some b → a ≡ b
    some_inj e = ground arith

    back : (status ≡ pos 0) ⊎ (0 < 0) → rc ≡ pos 0
    back (inl e) = some_inj (sym h ∙ ap some e)
    back (inr e) = absurd (omega (arith, e))
zero_code (pos zero) ((pid, code) ∷ gone) h =
    (λ e. inl refl, λ e. (zero_code (pos zero) gone h).1 (inl refl))
zero_code (pos (suc n)) ((pid, code) ∷ gone) h =
    next_code pid code gone (λ e. cc e) (zero_code code gone h)
zero_code (negsuc n) ((pid, code) ∷ gone) h =
    next_code pid code gone (λ e. cc e) (zero_code code gone h)

status_of-IsZeroFor : (gone : Gone) {rc : ℤ} → status_of none gone ≡ some rc → IsZeroFor gone rc
unfolding status_of
status_of-IsZeroFor [] h = absurd (cc h)
status_of-IsZeroFor ((pid, code) ∷ gone) h =
    let (to, from) = zero_code code gone h in
    let (down, up) = zeros_front pid code gone in (λ e. up (to e), λ e. from (down e))

status_of-none : (status : ℤ) (gone : Gone) → status_of (some status) gone ≡ none → ⊥
unfolding status_of
status_of-none status [] h = cc h
status_of-none (pos zero) ((pid, code) ∷ gone) h = status_of-none (pos zero) gone h
status_of-none (pos (suc n)) ((pid, code) ∷ gone) h = status_of-none code gone h
status_of-none (negsuc n) ((pid, code) ∷ gone) h = status_of-none code gone h

no_status_zeros : (gone : Gone) → status_of none gone ≡ none → 0 < zeros gone → ⊥
unfolding status_of
no_status_zeros [] h e = omega (arith, e)
no_status_zeros ((pid, code) ∷ gone) h e = status_of-none code gone h

module _ {W : Type 0} (launcher : Launcher W) where
  -- What a run of the commands that returned went through: the limit was read from the options, the clock
  -- was read, all commands were started, and the processes were asked in rounds up to the first after which
  -- the waiting was over. The exit code is 0 exactly where one of those that are gone then gave 0.
  pub record Answered (commands : List String) (s : State W) (ran : Ran) : Type 0 where
    pub limit : Option Decimal
    pub settled : State W
    pub limited : limit_of (Dict.get s.options "--power-timeout") s ≡ (ok limit, settled)
    pub pids : List ℕ
    pub begun : State W
    pub spawned : spawn_all launcher commands settled ≡ (ok pids, begun)
    pub gone : Gone
    pub left : List ℕ
    pub after : W
    pub rounds :
        Rounds launcher (launcher.clock.now settled.world) limit [] pids begun.world gone left after
    pub rc : IsZeroFor gone ran.rc

  code_of : Outcome Ran → ℤ
  code_of (ok ran) = ran.rc
  code_of r = pos 0

  retried_nonzero :
      (retry : ℤ) (s : State W) {ran : Ran} {t : State W}
      → retried retry s ≡ (ok ran, t)
      → ran.rc ≡ pos 0
      → ⊥
  unfolding retried code_of fail ◌>>=◌ log
  retried_nonzero retry s h zero_code = elim (Bool-cases (ltb_ℤ retry (pos 1))) [
    | inl few ↦ absurd (cc (rw few at h))
    | inr many ↦ absurd (differ (ap code_of (ap (λ r. r.0) (rw many at h)) ∙ zero_code))
  ]

  timed_out_nonzero :
      (s : State W) {ran : Ran} {t : State W} → timed_out s ≡ (ok ran, t) → ran.rc ≡ pos 0 → ⊥
  unfolding timed_out
  timed_out_nonzero s h zero_code =
      on_ok (gets (λ s. Dict.get s.options "retry")) _ s h λ given u e h.
        on_ok (retries given) retried u h λ retry v e h. retried_nonzero retry v h zero_code

  answer-IsZeroFor :
      (gone : Gone) (status : Option ℤ) (pipes : String × String) (s : State W) {ran : Ran}
      {t : State W}
      → status_of none gone ≡ status
      → answer launcher status pipes s ≡ (ok ran, t)
      → IsZeroFor gone ran.rc
  unfolding answer
  answer-IsZeroFor gone none pipes s e h = (
    λ zero_rc. absurd (timed_out_nonzero s h zero_rc),
    λ some_zero. absurd (no_status_zeros gone e some_zero),
  )
  answer-IsZeroFor gone (some status) (out, err) s e h = status_of-IsZeroFor gone (
      e
      ∙ ap (λ (r : Ran). some r.rc) (pure-ok (record { rc = status; out = out; err = err }) s h).0)

  hand_over-IsZeroFor :
      (gone : Gone) (alive : List ℕ) (s : State W) {ran : Ran} {t : State W}
      → hand_over launcher gone alive s ≡ (ok ran, t)
      → IsZeroFor gone ran.rc
  unfolding hand_over
  hand_over-IsZeroFor gone alive s h = on_ok (read_all launcher gone) _ s h λ pipes u e h.
      on_ok (kill_all launcher alive) _ u h
        λ _ v e h. answer-IsZeroFor gone (status_of none gone) pipes v refl h

  -- Where the commands return, the processes were asked round after round, up to the first after which none
  -- was left, or five seconds had passed since before the start of the commands and more than half of all
  -- had given 0 or the limit of the options had passed too. The exit code is 0 exactly where one of the
  -- processes that were gone then had given 0.
  pub run_commands-Answered :
      (fuel : ℕ) (commands : List String) (s : State W) {ran : Ran} {t : State W}
      → run_commands launcher fuel commands s ≡ (ok ran, t)
      → Answered commands s ran
  unfolding run_commands run_within run_processes ◌>>=◌
  run_commands-Answered fuel commands s h =
      on_ok (limit_of (Dict.get s.options "--power-timeout")) (run_within launcher fuel commands) s
        h
        λ limit v e h.
          on_ok (spawn_all launcher commands)
            (run_processes launcher fuel limit (launcher.clock.now v.world)) v h
            λ pids x e' h.
              on_ok
                (wait_all launcher (launcher.clock.now v.world) limit (length pids) fuel [] pids)
                (λ ended. hand_over launcher ended.0 ended.1) x h
                λ ended y w h. record {
                  limit = limit;
                  settled = v;
                  limited = e;
                  pids = pids;
                  begun = x;
                  spawned = e';
                  gone = ended.0;
                  left = ended.1;
                  after = y.world;
                  rounds =
                      wait_all-Rounds launcher (launcher.clock.now v.world) limit (length pids) fuel
                        [] pids x ended y (omega arith) w;
                  rc = hand_over-IsZeroFor ended.0 ended.1 y h;
                }
