-- ===== src/Commands.antt =====
-- `run_commands` of lib/fencing.py.py: several commands run at the same time, and the answer of most of
-- them counts.
mod Asked
pub mod Settled
pub mod Quorate
pub mod Entries
mod Parts
pub mod Ending
mod Tests
use Prim.Native.Nat.{suc, zero}
use fence_agents.Base.{
  ℕ, ◌+◌, ◌*◌, ◌/◌, ◌^◌, String, ◌<>◌, Bool, true, false, not, ◌&&◌, Option, none, some, List, [],
  ◌∷◌, ◌++◌, length, leb, ltb, ◌==◌, nat_eq, if◌then◌else◌,
}
use fence_agents.Base.Int.{ℤ, pos, negsuc, ltb_ℤ}
use fence_agents.Dict
use fence_agents.Exec.{
  Exec, ok, pure, raise, diverge, gets, modify, value_error, other_error, ◌>>=◌, ◌>>◌,
}
use fence_agents.State.{State, Value, text, number, int_of_value, log}
use fence_agents.Failure.{fail, fail_usage, failure_message, ec_timed_out}
use fence_agents.Text.Decimal.{Decimal, decimal_of_text}
use fence_agents.Delay.{Clock, is_zero}
use fence_agents.Scsi.{Ran}

-- What starting a command gives: a process, an OSError, or the ValueError of `shlex.split`.
pub data Spawned : Type 0 where
  started : ℕ → Spawned
  no_program bad_quoting : Spawned

-- What the operating system does with processes. `wait` is given the time for which it waits at most,
-- in parts of a second, and gives nothing if the process is still there.
pub record Launcher (W : Type 0) : Type 0 where
  pub clock : Clock W
  pub spawn : String → W → Spawned × W
  pub wait : ℕ → ℕ → W → Option ℤ × W
  pub read_out : ℕ → W → String × W
  pub read_err : ℕ → W → String × W
  pub kill : ℕ → W → W

-- A process that is gone, and its exit code. The sets of the source are lists, in the order in which the
-- processes are started or found to be gone.
abbrev pub Gone : Type 0
Gone = List (ℕ × ℤ)

-- the number of processes that gave 0
unfoldable pub good_count : Gone → ℕ
good_count [] = 0
good_count ((pid, code) ∷ gone) = if is_zero code then suc (good_count gone) else good_count gone

-- the exit code that is handed over: 0 if there is one
unfoldable pub status_of : Option ℤ → Gone → Option ℤ
status_of status [] = status
status_of none ((pid, code) ∷ gone) = status_of (some code) gone
status_of (some status) ((pid, code) ∷ gone) =
    status_of (some (if is_zero status then status else code)) gone

-- A process goes to one side or the other.
abbrev pub sort_out : ℕ → Option ℤ → Gone × List ℕ → Gone × List ℕ
sort_out pid none (gone, alive) = (gone, pid ∷ alive)
sort_out pid (some code) (gone, alive) = ((pid, code) ∷ gone, alive)

-- More than half of `total` processes gave 0.
abbrev pub is_quorate : ℕ → Gone → List ℕ → Bool
is_quorate total gone alive = ltb (length alive) (length gone) && ltb total (2 * good_count gone)

abbrev pub whole : ℕ → Decimal
whole n = record { places = 0; digits = n }

-- A negative limit is passed from the start, as 0 is.
unfoldable pub negative_as_zero : Option Decimal → Decimal
negative_as_zero none = whole 0
negative_as_zero (some d) = d

module _ {W : Type 0} where
  -- float(timeout), and None for the number 0
  unfoldable pub limit_of : Option Value → Exec (State W) (Option Decimal)
  unfolding decimal_of_text negative_as_zero nat_eq
  limit_of none = pure none
  limit_of (some (number (pos n))) = pure (if n == 0 then none else some (whole n))
  limit_of (some (number (negsuc n))) = pure (some (whole 0))
  limit_of (some (text t)) = elim (decimal_of_text t) [
    | none ↦ raise value_error
    | some d ↦ pure (some (negative_as_zero d))
  ]

  -- int(options.get("retry", 0))
  retries : Option Value → Exec (State W) ℤ
  unfolding int_of_value
  retries none = pure (pos 0)
  retries (some value) = int_of_value value

  -- the limit is over, and so many attempts are left
  unfoldable pub retried : ℤ → Exec (State W) Ran
  unfolding ◌>>=◌ fail log failure_message
  retried retry = if ltb_ℤ retry (pos 1) then fail ec_timed_out else do
    log (failure_message ec_timed_out <> "\n\n")
    pure (record { rc = pos 5; out = ""; err = "timed out" })

  -- No process is gone.
  unfoldable pub timed_out : Exec (State W) Ran
  unfolding ◌>>=◌ retries retried
  timed_out = do
    given ← gets (λ s. Dict.get s.options "retry")
    retry ← retries given
    retried retry

module _ {W : Type 0} (launcher : Launcher W) where
  spawned : String → Spawned → Exec (State W) ℕ
  unfolding ◌>>=◌ fail_usage
  spawned command (started pid) = pure pid
  spawned command no_program = do
    fail_usage ("Unable to run " <> command <> "\n") true
    raise (other_error "process")
  spawned command bad_quoting = raise value_error

  start_process : String → Exec (State W) Spawned
  start_process command s =
      let (result, w) = launcher.spawn command s.world in (ok result, record s { world = w })

  -- subprocess.Popen(shlex.split(command), ...)
  unfoldable pub spawn : String → Exec (State W) ℕ
  unfolding ◌>>=◌ start_process spawned
  spawn command = do result ← start_process command; spawned command result

  unfoldable pub spawn_all : List String → Exec (State W) (List ℕ)
  unfolding ◌>>=◌ spawn
  spawn_all [] = pure []
  spawn_all (command ∷ commands) = do
    pid ← spawn command
    pids ← spawn_all commands
    pure (pid ∷ pids)

  -- `timeout is not None and time.time() - time_start >= timeout`
  unfoldable pub is_late : ℕ → Option Decimal → W → Bool
  is_late start none w = false
  is_late start (some limit) w =
      leb (start * 10 ^ limit.places + limit.digits * launcher.clock.per_second)
        (launcher.clock.now w * 10 ^ limit.places)

  -- check_gone(proc, timeout)
  unfoldable pub check_gone : ℕ → ℕ → Exec (State W) (Option ℤ)
  check_gone pid most s =
      let (code, w) = launcher.wait pid most s.world in (ok code, record s { world = w })

  -- for proc in alive: the processes that are gone now, and the others
  unfoldable pub poll : ℕ → Option Decimal → ℕ → List ℕ → Exec (State W) (Gone × List ℕ)
  unfolding ◌>>=◌ is_late check_gone
  poll start limit most [] = pure ([], [])
  poll start limit most (pid ∷ alive) = do
    late ← gets (λ s. is_late start limit s.world)
    code ← check_gone pid (if late then 0 else most)
    polled ← poll start limit (if late then 0 else most) alive
    pure (sort_out pid code polled)

  -- `time.time() - time_start < 5.0`
  abbrev pub is_early : ℕ → W → Bool
  is_early start w = ltb (launcher.clock.now w) (start + 5 * launcher.clock.per_second)

  -- What follows a round of polling; `again` goes through the later rounds.
  unfoldable pub after_round :
      ℕ
      → Option Decimal
      → ℕ
      → (Gone → List ℕ → Exec (State W) (Gone × List ℕ))
      → Gone
      → List ℕ
      → Exec (State W) (Gone × List ℕ)
  unfolding ◌>>=◌ good_count is_late
  after_round start limit total again gone [] = pure (gone, [])
  after_round start limit total again gone (pid ∷ alive) = do
    early ← gets (λ s. is_early start s.world)
    if early then again gone (pid ∷ alive) else do
      if is_quorate total gone (pid ∷ alive) then pure (gone, pid ∷ alive) else do
        late ← gets (λ s. is_late start limit s.world)
        if late then pure (gone, pid ∷ alive) else again gone (pid ∷ alive)

  unfoldable pub next_round :
      ℕ
      → Option Decimal
      → ℕ
      → (Gone → List ℕ → Exec (State W) (Gone × List ℕ))
      → Gone
      → List ℕ
      → Exec (State W) (Gone × List ℕ)
  unfolding ◌>>=◌ poll after_round
  next_round start limit total again gone alive = do
    polled ← poll start limit (2 * launcher.clock.per_second / length alive) alive
    after_round start limit total again (gone ++ polled.0) polled.1

  -- while True, for as many rounds as the fifth number says
  unfoldable pub wait_all :
      ℕ → Option Decimal → ℕ → ℕ → Gone → List ℕ → Exec (State W) (Gone × List ℕ)
  unfolding next_round
  wait_all start limit total zero gone alive = diverge
  wait_all start limit total (suc fuel) gone alive =
      next_round start limit total (wait_all start limit total fuel) gone alive

  read_from : (W → String × W) → Exec (State W) String
  read_from reader s = let (t, w) = reader s.world in (ok t, record s { world = w })

  -- What the processes that are gone have written.
  unfoldable pub read_all : Gone → Exec (State W) (String × String)
  unfolding ◌>>=◌ read_from
  read_all [] = pure ("", "")
  read_all ((pid, code) ∷ gone) = do
    out ← read_from (launcher.read_out pid)
    err ← read_from (launcher.read_err pid)
    rest ← read_all gone
    pure (out <> rest.0, err <> rest.1)

  kill_all : List ℕ → Exec (State W) (Unit {0})
  unfolding ◌>>=◌
  kill_all [] = pure tt
  kill_all (pid ∷ alive) = do
    modify (λ s. record s { world = launcher.kill pid s.world })
    kill_all alive

  unfoldable pub answer : Option ℤ → String × String → Exec (State W) Ran
  unfolding timed_out
  answer none pipes = timed_out
  answer (some status) (out, err) = pure (record { rc = status; out = out; err = err })

  -- What follows the loop.
  unfoldable pub hand_over : Gone → List ℕ → Exec (State W) Ran
  unfolding ◌>>=◌ read_all kill_all status_of answer
  hand_over gone alive = do
    pipes ← read_all gone
    kill_all alive
    answer (status_of none gone) pipes

  -- The waiting for processes, and what follows it.
  unfoldable pub run_processes : ℕ → Option Decimal → ℕ → List ℕ → Exec (State W) Ran
  unfolding ◌>>=◌ wait_all hand_over
  run_processes fuel limit start pids = do
    ended ← wait_all start limit (length pids) fuel [] pids
    hand_over ended.0 ended.1

  unfoldable pub run_within : ℕ → List String → Option Decimal → Exec (State W) Ran
  unfolding ◌>>=◌ spawn_all run_processes
  run_within fuel commands limit = do
    start ← gets (λ s. launcher.clock.now s.world)
    pids ← spawn_all commands
    run_processes fuel limit start pids

  -- run_commands(options, commands), without a limit of its own
  unfoldable pub run_commands : ℕ → List String → Exec (State W) Ran
  unfolding ◌>>=◌ limit_of run_within
  run_commands fuel commands = do
    given ← gets (λ s. Dict.get s.options "--power-timeout")
    limit ← limit_of given
    run_within fuel commands limit
