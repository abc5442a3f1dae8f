-- ===== src/Sbd/Slots.antt =====
-- What agents/sbd/fence_sbd.py reads from the slots of the nodes on the devices.
pub mod Latest
use fence_agents.Base.{
  ℕ, String, ◌<>◌, Bool, true, false, ◌||◌, Option, none, some, List, [], ◌∷◌, map, ◌==◌, string_eq,
  if◌then◌else◌,
}
use fence_agents.Dict
use fence_agents.Dict.{Dict}
use fence_agents.Exec.{Exec, pure, raise, other_error, ◌>>=◌, ◌>>◌}
use fence_agents.State.{State, log}
use fence_agents.Text.{includes, split_from, words}
use fence_agents.Commands.{Launcher, run_commands}
use fence_agents.Sbd.{generate_sbd_command, shown_option}

unfoldable pub translate_status : String → String
unfolding includes
translate_status sbd_status =
    if includes "reset" sbd_status || includes "off" sbd_status
    then "off"
    else if includes "clear" sbd_status
    then "on"
    else "UNKNOWN"

-- words[1] and words[2]
unfoldable pub slot_of : List String → Option (String × String)
slot_of (slot ∷ port ∷ sbd_status ∷ more) = some (port, sbd_status)
slot_of few = none

module _ {W : Type 0} where
  -- The rest of the lines, with the status of each node so far.
  unfoldable pub add_slots : List String → Dict String → Exec (State W) (Dict String)
  unfolding includes translate_status slot_of words
  add_slots [] nodelist = pure nodelist
  add_slots (line ∷ lines) nodelist =
      if line == ""
      then add_slots lines nodelist
      else if includes "NOT dumped" line
      then pure nodelist
      else elim (slot_of (words line)) [
        | none ↦ raise (other_error "list index out of range")
        | some (port, sbd_status) ↦
            add_slots lines (Dict.put nodelist port (translate_status sbd_status))
      ]

  unfoldable pub unknown_node : String → Option String → Exec (State W) String
  unfolding ◌>>=◌ log
  unknown_node plug none = do
    log ("node \"" <> plug <> "\" not found in node list")
    pure "UNKWNOWN"
  unknown_node plug (some status) = pure status

  module _ (launcher : Launcher W) (fuel : ℕ) where
    unfoldable pub get_node_list : Exec (State W) (Dict String)
    unfolding ◌>>=◌ generate_sbd_command run_commands add_slots split_from
    get_node_list = do
      commands ← generate_sbd_command "list" "None"
      ran ← run_commands launcher fuel commands
      add_slots (split_from "\n" 0 ran.out) []

    unfoldable pub get_power_status : Exec (State W) String
    unfolding ◌>>=◌ shown_option get_node_list unknown_node
    get_power_status = do
      plug ← shown_option "--plug"
      nodelist ← get_node_list
      unknown_node plug (Dict.get nodelist plug)

    -- the node list as `fence_action` takes it: the name, the name again, and the status
    unfoldable pub outlets : Exec (State W) (List (String × String × Option String))
    unfolding ◌>>=◌ get_node_list
    outlets = do
      nodelist ← get_node_list
      pure (map (λ node. (node.0, node.0, some node.1)) nodelist)
