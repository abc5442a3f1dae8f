-- ===== src/Watchdog.antt =====
-- The loop of `scsi_check` in agents/scsi/fence_scsi.py and of `mpath_check` in
-- agents/mpath/fence_mpath.py, which the watchdog of a node runs to see whether its key is still
-- registered.
pub mod Settings
pub mod Missed
use Prim.Native.Nat.{suc, zero}
use fence_agents.Base.{
  ℕ, ◌+◌, String, Bool, true, false, Option, none, some, List, [], ◌∷◌, contains, ◌==◌, string_eq,
  if◌then◌else◌,
}
use fence_agents.Base.Int.{ℤ, pos, pos_part, ltb_ℤ, ◌+ℤ◌}
use fence_agents.Exec.{Exec, pure, raise, gets, modify, value_error, type_error, ◌>>=◌, ◌>>◌}
use fence_agents.State.{State, Value, text, number, option, int_option, put_option}
use fence_agents.Text.{lower}
use fence_agents.Text.Decimal.{Decimal, decimal_of_text}
use fence_agents.Action.{as_text}
use Settings.{settings}

-- What the check takes from the machine: `time.sleep`, the reset by `reboot(0x1234567)`, and the content
-- of /etc/sysconfig/stonith if it can be opened.
pub record Machine (W : Type 0) : Type 0 where
  pub pause : Decimal → W → W
  pub reset : W → W
  pub stonith : W → Option String

module _ {W : Type 0} (machine : Machine W) where
  pause_for : Option (Option Decimal) → Exec (State W) (Unit {0})
  pause_for none = raise value_error
  pause_for (some none) = raise value_error
  pause_for (some (some d)) = modify (λ s. record s { world = machine.pause d s.world })

  -- time.sleep(float(options["retry-sleep"]))
  unfoldable pub retry_sleep : Exec (State W) (Unit {0})
  unfolding ◌>>=◌ option as_text pause_for decimal_of_text
  retry_sleep = do
    value ← option "retry-sleep"
    seconds ← as_text value
    pause_for (decimal_of_text seconds)

  unfoldable pub put_settings : List (String × String) → Exec (State W) (Unit {0})
  unfolding ◌>>=◌ put_option lower
  put_settings [] = pure tt
  put_settings ((name, value) ∷ rest) = do
    put_option (lower name) (text (lower value))
    put_settings rest

  -- scsi_check_get_options(options), which mpath_check_get_options repeats
  unfoldable pub check_get_options : Exec (State W) (Unit {0})
  unfolding ◌>>=◌ put_settings settings
  check_get_options = do
    content ← gets (λ s. machine.stonith s.world)
    elim content [ none ↦ pure tt | some lines ↦ put_settings (settings lines) ]

  module _ (registration_keys : String → Exec (State W) (List String)) where
    -- The rounds that are left for one device, and the number of the next one: whether the key is found.
    unfoldable pub try_rounds : String → String → ℕ → ℕ → Exec (State W) Bool
    unfolding ◌>>=◌ int_option retry_sleep
    try_rounds dev key zero round = pure false
    try_rounds dev key (suc left) round =
        let again = try_rounds dev key left (round + 1) in
        do
          keys ← registration_keys dev
          if contains keys key then pure true else do
            retry ← int_option "retry"
            if ltb_ℤ (pos round) retry then retry_sleep else pure tt
            again

    -- for dev, key in items: for n in range(int(options["retry"]) + 1)
    unfoldable pub check_items : List (String × String) → Exec (State W) Bool
    unfolding ◌>>=◌ int_option try_rounds ◌+ℤ◌
    check_items [] = pure false
    check_items ((dev, key) ∷ items) = do
      retry ← int_option "retry"
      found ← try_rounds dev key (pos_part (retry +ℤ pos 1)) 0
      if found then pure true else check_items items

    -- The end of the check: 0 where a key is found, and otherwise 2, after a reset if one is asked for.
    unfoldable pub check_end : Bool → List (String × String) → Exec (State W) ℤ
    unfolding ◌>>=◌ check_items
    check_end hardreboot items = do
      found ← check_items items
      if found then pure (pos 0) else do
        if hardreboot then modify (λ s. record s { world = machine.reset s.world }) else pure tt
        pure (pos 2)

-- int(sys.argv[2]) where the check is called to repair
abbrev pub repair_status : List String → Option String
repair_status (program ∷ command ∷ status ∷ rest) =
    if command == "repair" then some status else none
repair_status argv = none
