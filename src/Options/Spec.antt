-- ===== src/Options/Spec.antt =====
-- One entry of `all_opt` in lib/fencing.py.py. Keys that an entry may lack are optional.
use fence_agents.Base.{ℕ, String, List, Option, none}

pub record Spec : Type 0 where
  pub getopt : String
  pub longopt : Option String
  pub help : String
  pub required : Option String
  pub shortdesc : Option String
  pub type : Option String
  pub default : Option String
  pub choices : Option (List String)
  pub order : ℕ

-- The entry with no more than `"getopt" : ""`, `"help" : ""` and `"order" : 1`, which most of the
-- device options are.
abbrev pub marker : Spec
marker = record {
  getopt = "";
  longopt = none;
  help = "";
  required = none;
  shortdesc = none;
  type = none;
  default = none;
  choices = none;
  order = 1;
}
