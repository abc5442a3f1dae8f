-- ===== src/Power.antt =====
-- The functions of lib/fencing.py.py that run an agent's own functions over every plug:
-- get_multi_power_fn, async_set_multi_power_fn, sync_set_multi_power_fn, set_multi_power_fn and
-- multi_reboot_cycle_fn. The proofs are in the modules below.
pub mod Status
pub mod Confirm
pub mod Sync
pub mod Entries
pub mod Polling
pub mod Responsive
mod Tests
use Prim.Native.Nat.{suc, zero}
use fence_agents.Base.{
  ℕ, ◌+◌, String, Bool, true, false, ◌&&◌, Option, none, some, List, [], ◌∷◌, leb, ltb, ◌==◌,
  string_eq, nat_eq, if◌then◌else◌,
}
use fence_agents.Base.Int.{ℤ, pos, negsuc, pos_part}
use fence_agents.Dict
use fence_agents.Exec.{Exec, pure, raise, gets, modify, diverge, ◌>>=◌, ◌>>◌, type_error}
use fence_agents.State.{State, System, Value, text, number, option, int_option, put_option, sleep}
use fence_agents.Text.Uuid.{uuid_of_text}

-- What an agent hands to `fence_action`. A function that it does not hand over is `None`.
-- An outlet is its id, its alias and its status.
pub record Agent (W : Type 0) : Type 0 where
  pub set_power : Option (Exec (State W) (Unit {0}))
  pub get_power : Option (Exec (State W) String)
  pub get_outlet_list : Option (Exec (State W) (List (String × String × Option String)))
  pub reboot_cycle : Option (Exec (State W) Bool)
  pub sync_set_power : Option (Exec (State W) Bool)

-- `value == status`
abbrev pub is_text : Value → String → Bool
is_text (text t) status = t == status
is_text (number n) status = false

-- The test that ends the polling: `int(...) > 0 and _ >= int(...)`.
abbrev pub expired : ℤ → ℕ → Bool
expired limit round = ltb 0 (pos_part limit) && leb (pos_part limit) round

module _ {W : Type 0} where
  -- options["--plugs"] if "--plugs" in options else [""]
  abbrev pub plugs_of : State W → List String
  plugs_of s = elim s.plugs [ none ↦ "" ∷ [] | some plugs ↦ plugs ]

  -- "--uuid" is set for a plug that is one, and "--plug" for every plug.
  unfoldable pub select : String → Exec (State W) (Unit {0})
  unfolding ◌>>=◌ put_option
  select plug = do
    elim (uuid_of_text plug) [ none ↦ pure tt | some uuid ↦ put_option "--uuid" (text uuid) ]
    put_option "--plug" (text plug)

  -- get_power_fn(connection, options), where calling None is a TypeError
  unfoldable pub call : {A : Type 0} → Option (Exec (State W) A) → Exec (State W) A
  call none = raise type_error
  call (some m) = m

  module _ (get_power : Option (Exec (State W) String)) where
    unfoldable pub poll_plugs : List String → String → Exec (State W) String
    unfolding ◌>>=◌ select call
    poll_plugs [] status = pure status
    poll_plugs (plug ∷ plugs) status = do
      select plug
      plug_status ← call get_power
      poll_plugs plugs (if plug_status == "off" then status else plug_status)

    unfoldable pub get_multi_power : Exec (State W) String
    unfolding poll_plugs
    get_multi_power = do plugs ← gets plugs_of; poll_plugs plugs "off"

  -- for retry in range(retry_attempts), for one plug: whether `success` may stay
  unfoldable pub try_plug : Exec (State W) Bool → ℕ → Exec (State W) Bool
  unfolding ◌>>=◌ nat_eq
  try_plug action zero = pure true
  try_plug action (suc n) =
      let again = try_plug action n in
      do done ← action; if done then pure true else if n == 0 then pure false else again

  module _ (system : System W) where
    unfoldable pub command_plugs :
        Exec (State W) (Unit {0}) → List String → Exec (State W) (Unit {0})
    unfolding ◌>>=◌ select int_option sleep
    command_plugs set_power [] = pure tt
    command_plugs set_power (plug ∷ plugs) = do
      select plug
      set_power
      wait ← int_option "--power-wait"
      sleep system wait
      command_plugs set_power plugs

    -- The end of a round in which the status did not agree; `again` stands for the later rounds.
    unfoldable pub wait_more : ℕ → Exec (State W) Bool → Exec (State W) Bool
    unfolding ◌>>=◌ int_option sleep
    wait_more round again = do
      pause ← int_option "--stonith-status-sleep"
      sleep system pause
      limit ← int_option "--power-timeout"
      if expired limit round then pure false else again

    unfoldable pub wait_round :
        Exec (State W) String → ℕ → Exec (State W) Bool → Exec (State W) Bool
    unfolding ◌>>=◌ option wait_more
    wait_round status round again = do
      plug_status ← status
      action ← option "--action"
      if is_text action plug_status then pure true else wait_more round again

    -- for _ in itertools.count(1): the first number bounds the rounds, the second is `_`
    unfoldable pub wait_for : Exec (State W) String → ℕ → ℕ → Exec (State W) Bool
    unfolding wait_round
    wait_for status zero round = diverge
    wait_for status (suc fuel) round =
        let again = wait_for status fuel (round + 1) in wait_round status round again

    -- One attempt: the command goes to every plug, and then the status is awaited.
    unfoldable pub set_round :
        Exec (State W) (Unit {0})
        → Exec (State W) String
        → ℕ
        → List String
        → Exec (State W) Bool
        → Exec (State W) Bool
    unfolding ◌>>=◌ command_plugs wait_for
    set_round set_power status fuel plugs again = do
      command_plugs set_power plugs
      done ← wait_for status fuel 1
      if done then pure true else again

    -- for _ in range(retry_attempts)
    unfoldable pub set_attempts :
        Exec (State W) (Unit {0})
        → Exec (State W) String
        → ℕ
        → List String
        → ℕ
        → Exec (State W) Bool
    unfolding set_round
    set_attempts set_power status fuel plugs zero = pure false
    set_attempts set_power status fuel plugs (suc n) =
        let again = set_attempts set_power status fuel plugs n in
        set_round set_power status fuel plugs again

    unfoldable pub async_set_multi_power :
        Exec (State W) (Unit {0}) → Exec (State W) String → ℕ → ℕ → Exec (State W) Bool
    unfolding ◌>>=◌ set_attempts get_multi_power
    async_set_multi_power set_power get_power fuel retry_attempts = do
      plugs ← gets plugs_of
      set_attempts set_power (get_multi_power (some get_power)) fuel plugs retry_attempts

    unfoldable pub try_plugs : Exec (State W) Bool → ℕ → List String → Bool → Exec (State W) Bool
    unfolding ◌>>=◌ select try_plug int_option sleep
    try_plugs action retry_attempts [] success = pure success
    try_plugs action retry_attempts (plug ∷ plugs) success = do
      select plug
      done ← try_plug action retry_attempts
      wait ← int_option "--power-wait"
      sleep system wait
      try_plugs action retry_attempts plugs (success && done)

    -- sync_set_multi_power_fn; multi_reboot_cycle_fn has the same body
    unfoldable pub sync_set_multi_power : Exec (State W) Bool → ℕ → Exec (State W) Bool
    unfolding ◌>>=◌ try_plugs
    sync_set_multi_power action retry_attempts = do
      plugs ← gets plugs_of
      try_plugs action retry_attempts plugs true

    unfoldable pub multi_reboot_cycle : Exec (State W) Bool → ℕ → Exec (State W) Bool
    unfolding sync_set_multi_power
    multi_reboot_cycle = sync_set_multi_power

    unfoldable pub set_multi_power : Agent W → ℕ → ℕ → Exec (State W) Bool
    unfolding async_set_multi_power sync_set_multi_power
    set_multi_power agent fuel retry_attempts = elim agent.set_power [
      | some set_power ↦ elim agent.get_power [
        | some get_power ↦ async_set_multi_power set_power get_power fuel retry_attempts
        | none ↦ pure false
      ]
      | none ↦ elim agent.sync_set_power [
        | some sync_set_power ↦ sync_set_multi_power sync_set_power retry_attempts
        | none ↦ pure false
      ]
    ]
