-- ===== src/Commands/Parts.antt =====
-- The parts of `run_commands` in lib/fencing.py.py around its loop come to an end.
use fence_agents.Base.{
  ℕ, ◌≤◌, ◌≡◌, sym, ap, ◌∙◌, subst, arith, Bool, true, false, Option, none, some, List, [], ◌∷◌,
  String, ◌==◌, string_eq, ◌<>◌, Bool-cases, inl, inr, if◌then◌else◌,
}
use fence_agents.Base.Int.{ℤ, pos, ltb_ℤ}
use fence_agents.Dict
use fence_agents.Exec.{
  Exec, ok, diverged, pure, gets, modify, leave, raise, other_error, value_error, ◌>>=◌, ◌>>◌,
}
use fence_agents.Exec.Rules.{on_ok, on_end, pure-ok}
use fence_agents.State.{State, Value, log, int_of_value, int_value}
use fence_agents.Failure.{fail, fail_usage}
use fence_agents.Commands.{
  Launcher, Gone, Spawned, started, no_program, bad_quoting, retries, retried, timed_out, spawned,
  start_process, spawn, spawn_all, read_from, read_all, kill_all, answer, hand_over,
}

module _ {W : Type 0} where
  -- It returns or leaves.
  abbrev pub Ending : {A : Type 0} → Exec (State W) A → Type 0
  Ending m = (s : State W) → (m s).0 ≡ diverged → ⊥

  Ending-bind :
      {A B : Type 0} (m : Exec (State W) A) (f : A → Exec (State W) B)
      → Ending m
      → ((a : A) → Ending (f a))
      → Ending (m >>= f)
  Ending-bind m f one more s = on_end m f s (one s) (λ a t e. more a t)

  Ending-if :
      {A : Type 0} (b : Bool) (m n : Exec (State W) A)
      → Ending m
      → Ending n
      → Ending (if b then m else n)
  Ending-if true m n one two = one
  Ending-if false m n one two = two

  Ending-pure : {A : Type 0} (a : A) → Ending (pure a)
  Ending-pure a s h = cc h

  Ending-log : (line : String) → Ending (log line)
  unfolding log
  Ending-log line s h = cc h

  ruleset ending_rules = (Ending-bind, Ending-if, Ending-pure, Ending-log)

  fail_usage-Ending : (message : String) (stop : Bool) → Ending (fail_usage message stop)
  unfolding fail_usage
  fail_usage-Ending message stop =
      Ending-bind (if message == "" then pure tt else log (message <> "\n")) _
        (Ending-if (message == "") (pure tt) (log (message <> "\n")) (Ending-pure tt)
          (Ending-log (message <> "\n")))
        λ _.
          Ending-if stop (log "Please use '-h' for usage\n" >> leave 1) (pure tt)
            (Ending-bind (log "Please use '-h' for usage\n") (λ _. leave 1)
              (Ending-log "Please use '-h' for usage\n") λ _ s h. cc h)
            (Ending-pure tt)

  raise_or :
      (found : Option ℤ)
      → Ending (elim found [ none ↦ raise {A = ℤ} value_error | some n ↦ pure {S = State W} n ])
  raise_or none = λ s h. cc h
  raise_or (some n) = Ending-pure n

  int_of_value-Ending : (value : Value) → Ending (int_of_value value)
  unfolding int_of_value
  int_of_value-Ending value = raise_or (int_value value)

  retries-Ending : (given : Option Value) → Ending (retries given)
  unfolding retries
  retries-Ending none = λ s h. cc h
  retries-Ending (some value) = int_of_value-Ending value

  retried-Ending : (retry : ℤ) → Ending (retried retry)
  unfolding retried fail ◌>>=◌ log
  retried-Ending retry s h = elim (Bool-cases (ltb_ℤ retry (pos 1))) [
    | inl few ↦ cc (rw few at h)
    | inr many ↦ cc (rw many at h)
  ]

  timed_out-Ending : Ending timed_out
  unfolding timed_out
  timed_out-Ending =
      Ending-bind (gets (λ s. Dict.get s.options "retry")) (λ given. retries given >>= retried)
        (λ s h. cc h)
        λ given. Ending-bind (retries given) retried (retries-Ending given) retried-Ending

module _ {W : Type 0} (launcher : Launcher W) where
  spawned-Ending : (command : String) (result : Spawned) → Ending (spawned launcher command result)
  unfolding spawned
  spawned-Ending command (started pid) = λ s h. cc h
  spawned-Ending command no_program =
      Ending-bind (fail_usage ("Unable to run " <> command <> "\n") true)
        (λ _. raise (other_error "process"))
        (fail_usage-Ending ("Unable to run " <> command <> "\n") true) λ _ s h. cc h
  spawned-Ending command bad_quoting = λ s h. cc h

  start_process-Ending : (command : String) → Ending (start_process launcher command)
  unfolding start_process
  start_process-Ending command s h = cc h

  spawn-Ending : (command : String) → Ending (spawn launcher command)
  unfolding spawn
  spawn-Ending command =
      Ending-bind (start_process launcher command) (spawned launcher command)
        (start_process-Ending command) (spawned-Ending command)

  pub spawn_all-Ending : (commands : List String) → Ending (spawn_all launcher commands)
  unfolding spawn_all
  spawn_all-Ending [] = λ s h. cc h
  spawn_all-Ending (command ∷ commands) =
      Ending-bind (spawn launcher command) _ (spawn-Ending command) λ pid.
        Ending-bind (spawn_all launcher commands) _ (spawn_all-Ending commands) λ pids s h. cc h

  read_from-Ending : (reader : W → String × W) → Ending (read_from launcher reader)
  unfolding read_from
  read_from-Ending reader s h = cc h

  read_all-Ending : (gone : Gone) → Ending (read_all launcher gone)
  unfolding read_all
  read_all-Ending [] = λ s h. cc h
  read_all-Ending ((pid, code) ∷ gone) =
      Ending-bind (read_from launcher (launcher.read_out pid))
        (λ out. read_from launcher (launcher.read_err pid) >>= λ err.
          read_all launcher gone >>= λ rest. pure (out <> rest.0, err <> rest.1))
        (read_from-Ending (launcher.read_out pid))
        λ out.
          Ending-bind (read_from launcher (launcher.read_err pid))
            (λ err. read_all launcher gone >>= λ rest. pure (out <> rest.0, err <> rest.1))
            (read_from-Ending (launcher.read_err pid))
            λ err.
              Ending-bind (read_all launcher gone) (λ rest. pure (out <> rest.0, err <> rest.1))
                (read_all-Ending gone) λ rest. Ending-pure (out <> rest.0, err <> rest.1)

  kill_all-Ending : (alive : List ℕ) → Ending (kill_all launcher alive)
  unfolding kill_all
  kill_all-Ending [] = λ s h. cc h
  kill_all-Ending (pid ∷ alive) =
      Ending-bind (modify (λ s. record s { world = launcher.kill pid s.world }))
        (λ _. kill_all launcher alive) (λ s h. cc h) λ _. kill_all-Ending alive

  answer-Ending :
      (status : Option ℤ) (pipes : String × String) → Ending (answer launcher status pipes)
  unfolding answer
  answer-Ending none pipes = timed_out-Ending
  answer-Ending (some status) (out, err) = λ s h. cc h

  pub hand_over-Ending : (gone : Gone) (alive : List ℕ) → Ending (hand_over launcher gone alive)
  unfolding hand_over
  hand_over-Ending gone alive =
      Ending-bind (read_all launcher gone) _ (read_all-Ending gone) λ pipes.
        Ending-bind (kill_all launcher alive) _ (kill_all-Ending alive) λ _. answer-Ending _ pipes

  -- The clock is not put back while processes are started.
  started_forward :
      (command : String) (result : Spawned) (s : State W) {pid : ℕ} {t : State W}
      → spawned launcher command result s ≡ (ok pid, t)
      → t.world ≡ s.world
  unfolding spawned
  started_forward command (started pid) s h = ap (λ p. p.1.world) (sym h)
  started_forward command no_program s h =
      on_ok (fail_usage ("Unable to run " <> command <> "\n") true)
        (λ _. raise (other_error "process")) s h λ _ t e d. absurd (cc d)
  started_forward command bad_quoting s h = absurd (cc h)

  module _
      (forward : (command : String) (w : W)
        → launcher.clock.now w ≤ launcher.clock.now (launcher.spawn command w).1) where
    spawn_forward :
        (command : String) (s : State W) {pid : ℕ} {t : State W}
        → spawn launcher command s ≡ (ok pid, t)
        → launcher.clock.now s.world ≤ launcher.clock.now t.world
    unfolding spawn start_process
    spawn_forward command s h =
        on_ok (start_process launcher command) (spawned launcher command) s h λ result u e h.
          subst (λ w. launcher.clock.now s.world ≤ launcher.clock.now w)
            (ap (λ p. p.1.world) e ∙ sym (started_forward command result u h))
            (forward command s.world)

    pub spawn_all_forward :
        (commands : List String) (s : State W) {pids : List ℕ} {t : State W}
        → spawn_all launcher commands s ≡ (ok pids, t)
        → launcher.clock.now s.world ≤ launcher.clock.now t.world
    unfolding spawn_all
    spawn_all_forward [] s h =
        subst (λ u. launcher.clock.now s.world ≤ launcher.clock.now u.world) (pure-ok [] s h).1
          (omega arith)
    spawn_all_forward (command ∷ commands) s h = on_ok (spawn launcher command) _ s h λ pid t one h.
        on_ok (spawn_all launcher commands) _ t h λ pids u rest h.
          subst (λ v. launcher.clock.now s.world ≤ launcher.clock.now v.world)
            (pure-ok (pid ∷ pids) u h).1
            (omega (arith, spawn_forward command s one, spawn_all_forward commands t rest))
