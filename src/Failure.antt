-- ===== src/Failure.antt =====
-- The error codes of lib/fencing.py.py, `fail` and `fail_usage`.
pub mod Entries
use fence_agents.Base.{ℕ, String, ◌<>◌, Bool, if◌then◌else◌, ◌==◌, string_eq}
use fence_agents.Exec.{Exec, leave, pure, ◌>>=◌, ◌>>◌}
use fence_agents.State.{State, log}

pub data ErrorCode : Type 0 where
  ec_generic_error ec_login_denied ec_connection_lost ec_timed_out ec_waiting_on ec_waiting_off
        ec_status ec_status_hmc ec_password_missing ec_invalid_privileges ec_fetch_vm_uuid :
      ErrorCode

abbrev pub ec_ok : ℕ
ec_ok = 0

-- The exit status of every failure: `EC_GENERIC_ERROR`.
abbrev pub generic_status : ℕ
generic_status = 1

unfoldable pub failure_message : ErrorCode → String
failure_message ec_generic_error = "Failed: Generic error"
failure_message ec_login_denied = "Unable to connect/login to fencing device"
failure_message ec_connection_lost = "Connection lost"
failure_message ec_timed_out = "Connection timed out"
failure_message ec_waiting_on = "Failed: Timed out waiting to power ON"
failure_message ec_waiting_off = "Failed: Timed out waiting to power OFF"
failure_message ec_status = "Failed: Unable to obtain correct plug status or plug is not available"
failure_message ec_status_hmc =
    "Failed: Either unable to obtain correct plug status, "
    <> "partition is not available or incorrect HMC version used"
failure_message ec_password_missing = "Failed: You have to set login password"
failure_message ec_invalid_privileges =
    "Failed: The user does not have the correct privileges to do the requested action."
failure_message ec_fetch_vm_uuid =
    "Failed: Can not find VM UUID by its VM name given in the <plug> parameter."

module _ {W A : Type 0} where
  -- fail(error_code)
  unfoldable pub fail : ErrorCode → Exec (State W) A
  unfolding ◌>>=◌ log
  fail code = do log (failure_message code <> "\n\n"); leave generic_status

module _ {W : Type 0} where
  -- fail_usage(message, stop)
  unfoldable pub fail_usage : String → Bool → Exec (State W) (Unit {0})
  unfolding ◌>>=◌ log
  fail_usage message stop = do
    if message == "" then pure tt else log (message <> "\n")
    if stop then (do log "Please use '-h' for usage\n"; leave generic_status) else pure tt
