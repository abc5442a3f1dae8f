-- ===== src/Scsi/Key.antt =====
-- `generate_key` and `get_shared_devices` of agents/scsi/fence_scsi.py, and what they call.
pub mod Output
use fence_agents.Base.{
  ℕ, ◌+◌, ◌-◌, String, ◌<>◌, Bool, true, false, not, ◌&&◌, Option, none, some, List, [], ◌∷◌, ◌++◌,
  ltb, ◌==◌, string_eq, nat_eq, if◌then◌else◌,
}
use fence_agents.Base.Int.{ℤ, pos, negsuc}
use fence_agents.Exec.{Exec, pure, raise, value_error, other_error, ◌>>=◌, ◌>>◌}
use fence_agents.State.{State, text, option, int_of_value}
use fence_agents.Text.{size, strip, split_from}
use fence_agents.Text.Number.{text_of_int}
use fence_agents.Failure.{fail_usage}
use fence_agents.Power.{is_text}
use fence_agents.Scsi.{Host, is_failure, text_option}
use Output.{cluster_name, node_id, take, pad, lines_of, is_shared}

module _ {W : Type 0} (host : Host W) (hexdigest : String → String) where
  -- `hexdigest` is that of the MD5 hash
  unfoldable pub get_cluster_id : Exec (State W) String
  unfolding ◌>>=◌ text_option fail_usage cluster_name
  get_cluster_id = do
    path ← text_option host "--corosync-cmap-path"
    ran ← host.run_command (path <> " totem.cluster_name")
    elim (cluster_name ran.out) [
      | none ↦ (do fail_usage "Failed: cannot get cluster name" true; raise (other_error "match"))
      | some name ↦ pure (hexdigest name)
    ]

  unfoldable pub get_node_id : Exec (State W) String
  unfolding ◌>>=◌ text_option fail_usage node_id
  get_node_id = do
    path ← text_option host "--corosync-cmap-path"
    ran ← host.run_command (path <> " nodelist")
    plug ← text_option host "--plug"
    elim (node_id plug ran.out) [
      | none ↦ (do
        fail_usage "Failed: unable to parse output of corosync-cmapctl or node does not exist" true
        raise (other_error "match"))
      | some id ↦ pure id
    ]

  unfoldable pub get_node_hash : Exec (State W) String
  unfolding ◌>>=◌ text_option
  get_node_hash = do plug ← text_option host "--plug"; pure (hexdigest plug)

  unfoldable pub generate_key : Exec (State W) String
  unfolding ◌>>=◌ option get_cluster_id get_node_hash get_node_id int_of_value take pad
  generate_key = do
    method ← option "--key-value"
    cluster ← get_cluster_id
    if is_text method "hash"
        then (do node ← get_node_hash; pure (take 4 cluster <> take 4 node))
        else (do id ← get_node_id; n ← int_of_value (text id); pure (take 4 cluster <> pad 4 n))

  -- One line of the output of vgs: the attributes of a volume group and the name of its device.
  shared_device : List String → Exec (State W) (List String)
  unfolding is_shared
  shared_device (vg_attr ∷ pv_name ∷ []) = elim (is_shared vg_attr) [
    | none ↦ raise (other_error "string index out of range")
    | some shared ↦ pure (if shared then pv_name ∷ [] else [])
  ]
  shared_device pieces = raise value_error

  unfoldable pub shared_devices : List String → Exec (State W) (List String)
  unfolding ◌>>=◌ shared_device strip split_from nat_eq
  shared_devices [] = pure []
  shared_devices (line ∷ lines) = do
    here ← shared_device (split_from ":" 0 (strip line))
    rest ← shared_devices lines
    pure (here ++ rest)

  unfoldable pub get_shared_devices : Exec (State W) (List String)
  unfolding ◌>>=◌ text_option fail_usage shared_devices lines_of
  get_shared_devices = do
    path ← text_option host "--vgs-path"
    ran ← host.run_command (
        path
        <> " --noheadings --separator : --sort pv_uuid --options vg_attr,pv_name --config 'global { locking_type = 0 } devices { preferred_names = [ \"^/dev/dm\" ] }'")
    if is_failure ran.rc then fail_usage "Failed: Cannot get shared devices" true else pure tt
    shared_devices (lines_of ran.out)
