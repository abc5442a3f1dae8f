-- ===== src/Metadata/Document/Parameters.antt =====
-- Which parameters `metadata` of lib/fencing.py.py lists, and in which order.
use fence_agents.Base.{String, [], ◌∷◌, string_eq, nat_eq}
use fence_agents.Dict
use fence_agents.Dict.{Dict, has-put}
use fence_agents.Options.Spec.{Spec}
use fence_agents.Metadata.Document.Names.{IsBefore}

-- The entries come in the order of their numbers and, among equal ones, of their names.
pub data IsOrdered : Dict Spec → Type 0 where
  nil : IsOrdered []
  one : (entry : String × Spec) → IsOrdered (entry ∷ [])
  more :
      (entry next : String × Spec) (entries : Dict Spec)
      → IsBefore entry next
      → IsOrdered (next ∷ entries)
      → IsOrdered (entry ∷ next ∷ entries)
