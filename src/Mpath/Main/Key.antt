-- ===== src/Mpath/Main/Key.antt =====
-- The form in which `main` of agents/mpath/fence_mpath.py takes the key.
use fence_agents.Base.{String, ◌==◌, nat_eq, if◌then◌else◌}
use fence_agents.Text.{begins_with, lstrip_by}
use fence_agents.Scsi.Keys.{drop}

-- re.sub(r"^0x0*|^0+", "", key)
unfoldable pub without_zeros : String → String
unfolding begins_with lstrip_by drop nat_eq
without_zeros key = lstrip_by (λ c. c == b'0') (if begins_with key "0x" then drop 2 key else key)
