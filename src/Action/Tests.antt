-- ===== src/Action/Tests.antt =====
-- Runs of `fence_action` on a switch, and the theorems at them.
use fence_agents.Base.{◌≡◌, refl, [], ◌∷◌, some, string_eq, nat_eq}
use fence_agents.Dict.{get, put, has}
use fence_agents.Exec.{ok, exit}
use fence_agents.Failure.{generic_status}
use fence_agents.State.{text}
use fence_agents.Text.{split}
use fence_agents.Text.Uuid.{uuid_of_text}
use fence_agents.Device.{
  switch_system, switch_agent, closed_agent, switch_set, switch_get, switch_set-Keeps,
  switch_get-Keeps, start,
}
use fence_agents.Action.{fence_action}
use fence_agents.Action.Confirm.{fence_action_off, PoweredOff}
use fence_agents.Action.Reboot.{fence_action_reboot, Rebooted}
use fence_agents.Action.Ending.{fence_action_status, Reported}

test_off : (fence_action switch_system switch_agent 20 (start "off")).1.world.powered ≡ "3" ∷ []
unfolding fence_action string_eq nat_eq get put has split uuid_of_text
test_off = refl

-- A connection that is closed is no traceback, but the generic exit status.
test_closed : (fence_action switch_system closed_agent 20 (start "off")).0 ≡ exit generic_status
unfolding fence_action string_eq nat_eq get put has split uuid_of_text
test_closed = refl

off_returns :
    fence_action switch_system switch_agent 20 (start "off")
    ≡ (ok 0, (fence_action switch_system switch_agent 20 (start "off")).1)
unfolding fence_action string_eq nat_eq get put has split uuid_of_text
off_returns = refl

start_off : get (start "off").options "--action" ≡ some (text "off")
unfolding get string_eq
start_off = refl

fence_action_off_example :
    PoweredOff switch_system switch_agent 20 switch_get
      (start "off")
      0
      (fence_action switch_system switch_agent 20 (start "off")).1
fence_action_off_example =
    fence_action_off switch_system switch_agent 20 switch_set switch_get refl refl
      (switch_set-Keeps "--action") (switch_get-Keeps "--action") (start "off") start_off
      off_returns

reboot_returns :
    fence_action switch_system switch_agent 20 (start "reboot")
    ≡ (ok 0, (fence_action switch_system switch_agent 20 (start "reboot")).1)
unfolding fence_action string_eq nat_eq get put has split uuid_of_text
reboot_returns = refl

start_reboot : get (start "reboot").options "--action" ≡ some (text "reboot")
unfolding get string_eq
start_reboot = refl

fence_action_reboot_example :
    Rebooted switch_system switch_agent 20 switch_get 0
      (fence_action switch_system switch_agent 20 (start "reboot")).1
fence_action_reboot_example =
    fence_action_reboot switch_system switch_agent 20 switch_get switch_set refl refl
      (switch_set-Keeps "--action") (switch_get-Keeps "--action") refl (start "reboot") start_reboot
      reboot_returns

status_returns :
    fence_action switch_system switch_agent 20 (start "status")
    ≡ (ok 0, (fence_action switch_system switch_agent 20 (start "status")).1)
unfolding fence_action string_eq nat_eq get put has split uuid_of_text
status_returns = refl

start_status : get (start "status").options "--action" ≡ some (text "status")
unfolding get string_eq
start_status = refl

fence_action_status_example :
    Reported switch_get
      (start "status")
      0
      (fence_action switch_system switch_agent 20 (start "status")).1
fence_action_status_example =
    fence_action_status switch_system switch_agent 20 switch_get refl (switch_get-Keeps "--action")
      (start "status") start_status status_returns
