-- ===== src/Commands/Entries.antt =====
-- `run_commands` of lib/fencing.py.py leaves every entry of the options alone.
use Prim.Native.Nat.{suc, zero}
use fence_agents.Base.{ℕ, String, ◌<>◌, Option, none, some, List, [], ◌∷◌}
use fence_agents.Base.Int.{ℤ, pos, negsuc}
use fence_agents.Exec.{Exec, pure, raise, value_error, modify}
use fence_agents.Exec.Rules.{Keeps-pure, Keeps-raise, Keeps-bind, keeps_rules}
use fence_agents.State.{State, Value, text, number}
use fence_agents.State.Entries.{Keeps-int_of_value}
use fence_agents.Failure.Entries.{Safe, Safe-log, fail-Safe, fail_usage-Safe}
use fence_agents.Text.Decimal.{Decimal, decimal_of_text}
use fence_agents.Commands.{
  Launcher, Gone, Spawned, started, no_program, bad_quoting, limit_of, retries, negative_as_zero,
  retried, timed_out, start_process, spawned, spawn, spawn_all, check_gone, poll, after_round,
  next_round, wait_all, read_from, read_all, kill_all, answer, hand_over, run_processes, run_within,
  run_commands,
}

module _ {W : Type 0} (key : String) (value : Value) where
  retries-Safe : (given : Option Value) → Safe {W = W} key value (retries given)
  unfolding retries
  retries-Safe none = Keeps-pure _
  retries-Safe (some v) = Keeps-int_of_value v

  read-Safe :
      (found : Option (Option Decimal))
      → Safe {W = W} key value (elim found [
        | none ↦ raise {A = Option Decimal} value_error
        | some d ↦ pure {S = State W} (some (negative_as_zero d))
      ])
  read-Safe none = Keeps-raise value_error
  read-Safe (some d) = Keeps-pure _

  limit_of-Safe : (given : Option Value) → Safe {W = W} key value (limit_of given)
  unfolding limit_of
  limit_of-Safe none = Keeps-pure _
  limit_of-Safe (some (number (pos n))) = Keeps-pure _
  limit_of-Safe (some (number (negsuc n))) = Keeps-pure _
  limit_of-Safe (some (text t)) = read-Safe (decimal_of_text t)

  retried-Safe : (retry : ℤ) → Safe {W = W} key value (retried retry)
  unfolding retried
  retried-Safe retry = search (keeps_rules, Safe-log, fail-Safe) depth 12

  timed_out-Safe : Safe {W = W} key value timed_out
  unfolding timed_out
  timed_out-Safe = search (keeps_rules, retries-Safe, retried-Safe) depth 12

  module _ (launcher : Launcher W) where
    spawned-Safe :
        (command : String) (result : Spawned) → Safe key value (spawned launcher command result)
    unfolding spawned
    spawned-Safe command (started pid) = Keeps-pure pid
    spawned-Safe command no_program = search (keeps_rules, fail_usage-Safe) depth 12
    spawned-Safe command bad_quoting = Keeps-raise _

    start_process-Safe : (command : String) → Safe key value (start_process launcher command)
    unfolding start_process
    start_process-Safe command = record { at = λ s h. h }

    spawn-Safe : (command : String) → Safe key value (spawn launcher command)
    unfolding spawn
    spawn-Safe command = search (keeps_rules, start_process-Safe, spawned-Safe) depth 12

    spawn_all-Safe : (commands : List String) → Safe key value (spawn_all launcher commands)
    unfolding spawn_all
    spawn_all-Safe [] = Keeps-pure []
    spawn_all-Safe (command ∷ commands) =
        Keeps-bind (spawn launcher command) _ (spawn-Safe command) λ pid.
          Keeps-bind (spawn_all launcher commands) _ (spawn_all-Safe commands)
            λ pids. Keeps-pure (pid ∷ pids)

    check_gone-Safe : (pid most : ℕ) → Safe key value (check_gone launcher pid most)
    unfolding check_gone
    check_gone-Safe pid most = record { at = λ s h. h }

    poll-Safe :
        (start : ℕ) (limit : Option Decimal) (most : ℕ) (alive : List ℕ)
        → Safe key value (poll launcher start limit most alive)
    unfolding poll
    poll-Safe start limit most [] = Keeps-pure _
    poll-Safe start limit most (pid ∷ alive) =
        search (keeps_rules, check_gone-Safe, (λ (most : ℕ). poll-Safe start limit most alive))
          depth 12

    after_round-Safe :
        (start : ℕ) (limit : Option Decimal) (total : ℕ)
        (again : Gone → List ℕ → Exec (State W) (Gone × List ℕ))
        → ((gone : Gone) (alive : List ℕ) → Safe key value (again gone alive))
        → (gone : Gone) (alive : List ℕ)
        → Safe key value (after_round launcher start limit total again gone alive)
    unfolding after_round
    after_round-Safe start limit total again later gone [] = Keeps-pure _
    after_round-Safe start limit total again later gone (pid ∷ alive) =
        search (keeps_rules, later) depth 12

    wait_all-Safe :
        (start : ℕ) (limit : Option Decimal) (total fuel : ℕ) (gone : Gone) (alive : List ℕ)
        → Safe key value (wait_all launcher start limit total fuel gone alive)
    unfolding wait_all next_round
    wait_all-Safe start limit total zero gone alive = record { at = λ s h. h }
    wait_all-Safe start limit total (suc fuel) gone alive =
        search (keeps_rules, poll-Safe, after_round-Safe, wait_all-Safe start limit total fuel)
          depth 12

    read_from-Safe : (reader : W → String × W) → Safe key value (read_from launcher reader)
    unfolding read_from
    read_from-Safe reader = record { at = λ s h. h }

    read_all-Safe : (gone : Gone) → Safe key value (read_all launcher gone)
    unfolding read_all
    read_all-Safe [] = Keeps-pure _
    read_all-Safe ((pid, code) ∷ gone) =
        Keeps-bind (read_from launcher (launcher.read_out pid)) _
          (read_from-Safe (launcher.read_out pid))
          λ out.
            Keeps-bind (read_from launcher (launcher.read_err pid)) _
              (read_from-Safe (launcher.read_err pid))
              λ err.
                Keeps-bind (read_all launcher gone) _ (read_all-Safe gone)
                  λ rest. Keeps-pure (out <> rest.0, err <> rest.1)

    kill-Safe :
        (pid : ℕ) → Safe key value (modify (λ s. record s { world = launcher.kill pid s.world }))
    kill-Safe pid = record { at = λ s h. h }

    kill_all-Safe : (alive : List ℕ) → Safe key value (kill_all launcher alive)
    unfolding kill_all
    kill_all-Safe [] = Keeps-pure tt
    kill_all-Safe (pid ∷ alive) =
        Keeps-bind (modify (λ s. record s { world = launcher.kill pid s.world }))
          (λ _. kill_all launcher alive) (kill-Safe pid) λ _. kill_all-Safe alive

    answer-Safe :
        (status : Option ℤ) (pipes : String × String)
        → Safe key value (answer launcher status pipes)
    unfolding answer
    answer-Safe none pipes = timed_out-Safe
    answer-Safe (some status) (out, err) = Keeps-pure _

    hand_over-Safe : (gone : Gone) (alive : List ℕ) → Safe key value (hand_over launcher gone alive)
    unfolding hand_over
    hand_over-Safe gone alive =
        search (keeps_rules, read_all-Safe, kill_all-Safe, answer-Safe) depth 12

    pub run_commands-Safe :
        (fuel : ℕ) (commands : List String) → Safe key value (run_commands launcher fuel commands)
    unfolding run_commands run_within run_processes
    run_commands-Safe fuel commands =
        search (keeps_rules, limit_of-Safe, spawn_all-Safe, wait_all-Safe, hand_over-Safe) depth 16
