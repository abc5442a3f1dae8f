-- ===== src/Options/Table.antt =====
-- `all_opt` of lib/fencing.py.py, in five parts.
mod General
mod Login
mod Snmp
mod Timing
mod Path
use General.{general_options}
use Login.{login_options}
use Snmp.{snmp_options}
use Timing.{timing_options}
use Path.{path_options}
use fence_agents.Base.{◌++◌}
use fence_agents.Dict.{Dict}
use fence_agents.Options.Spec.{Spec}

unfoldable pub all_opt : Dict Spec
unfolding general_options login_options snmp_options timing_options path_options
all_opt = general_options ++ login_options ++ snmp_options ++ timing_options ++ path_options
