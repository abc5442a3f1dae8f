-- ===== src/Failure/Entries.antt =====
-- `fail` and `fail_usage` of lib/fencing.py.py leave every entry of the options alone.
use fence_agents.Base.{ℕ, String, Bool}
use fence_agents.Exec.{Exec, leave}
use fence_agents.Exec.Rules.{Keeps, keeps_rules}
use fence_agents.State.{State, Value, log}
use fence_agents.State.Entries.{HasEntry, HasEntry-log}
use fence_agents.Failure.{ErrorCode, fail, fail_usage}

module _ {W : Type 0} (key : String) (value : Value) where
  abbrev pub Safe : {A : Type 0} → Exec (State W) A → Type 0
  Safe m = Keeps (HasEntry key value) m

  pub Safe-leave : {A : Type 0} (n : ℕ) → Safe (leave {A = A} n)
  Safe-leave n = record { at = λ s h. h }

  pub Safe-log : (line : String) → Safe (log line)
  Safe-log line = HasEntry-log key value line

  pub fail-Safe : {A : Type 0} (code : ErrorCode) → Safe (fail {A = A} code)
  unfolding fail
  fail-Safe code = search (keeps_rules, Safe-log, Safe-leave) depth 12

  pub fail_usage-Safe : (message : String) (stop : Bool) → Safe (fail_usage message stop)
  unfolding fail_usage
  fail_usage-Safe message stop = search (keeps_rules, Safe-log, Safe-leave) depth 12
