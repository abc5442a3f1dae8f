-- ===== src/Metadata/Document.antt =====
-- `metadata` and `show_docs` of lib/fencing.py.py: the XML that describes an agent, line by line. The
-- regular expressions that it takes the help texts apart with are in Metadata/Help.
pub mod Help
pub mod Listed
pub mod Names
pub mod Parameters
use Prim.Native.Char.{code}
use Prim.Native.Nat.{suc, zero}
use fence_agents.Base.{
  ℕ, ◌+◌, String, ◌<>◌, Bool, true, false, not, ◌&&◌, ◌||◌, Option, none, some, List, [], ◌∷◌, ◌++◌,
  contains, count, erase, leb, ltb, ◌==◌, string_eq, nat_eq, if◌then◌else◌,
}
use fence_agents.Base.Int.{pos}
use fence_agents.Dict
use fence_agents.Dict.{Dict}
use fence_agents.Exec.{Exec, pure, raise, leave, gets, modify, key_error, value_error, ◌>>=◌, ◌>>◌}
use fence_agents.State.{State, has_option, print}
use fence_agents.Text.{replace_char}
use fence_agents.Text.Number.{text_of_int}
use fence_agents.Power.{is_text}
use fence_agents.Options.Spec.{Spec}
use fence_agents.Options.Actions.{get_available_actions}
use fence_agents.Options.Defaults.{spec_of}
use fence_agents.Metadata.{encode_html_entities, usage}
use Help.{without_markup, option_part, short_help, has_colon}

-- `docs`, with the keys that it may lack as optional
pub record Docs : Type 0 where
  pub shortdesc : String
  pub longdesc : String
  pub vendorurl : Option String
  pub symlinks : List (String × String)
  pub agent_name : Option String

-- list(set(keys)), in one of the orders that it may have
unfoldable pub distinct : List String → List String
distinct [] = []
distinct (key ∷ keys) = let rest = distinct keys in if contains rest key then rest else key ∷ rest

-- opt["longopt"].replace("-", "_")
unfoldable pub long_name : String → String
unfolding replace_char nat_eq
long_name longopt = replace_char b'-' "_" longopt

unfoldable pub push_named : String → Spec → Option String → Dict Spec → Dict Spec
push_named key spec none entries = entries
push_named key spec (some longopt) entries = (key, spec) ∷ entries

unfoldable pub add_named : String → Option Spec → Option (Dict Spec) → Option (Dict Spec)
unfolding push_named
add_named key none rest = none
add_named key (some spec) none = none
add_named key (some spec) (some entries) = some (push_named key spec spec.longopt entries)

-- [(key, all_opt[key]) for key in keys if "longopt" in all_opt[key]]; a missing key is a KeyError
unfoldable pub named_entries : Dict Spec → List String → Option (Dict Spec)
unfolding Dict.get add_named
named_entries table [] = some []
named_entries table (key ∷ keys) = add_named key (Dict.get table key) (named_entries table keys)

-- The dictionary from the names that replace inconsistent ones to the keys, and the entries under those
-- names.
unfoldable pub put_name : String → Option String → Dict String → Dict String
unfolding long_name Dict.put
put_name key none names = names
put_name key (some longopt) names =
    if key == long_name longopt then names else Dict.put names (long_name longopt) key

unfoldable pub mapping : Dict Spec → Dict String
unfolding put_name
mapping [] = []
mapping ((key, spec) ∷ entries) = put_name key spec.longopt (mapping entries)

unfoldable pub renamed_entries : Dict Spec → Dict String → Dict Spec
unfolding Dict.get
renamed_entries table [] = []
renamed_entries table ((name, key) ∷ names) =
    let rest = renamed_entries table names in
    elim (Dict.get table key) [ none ↦ rest | some spec ↦ (name, spec) ∷ rest ]

-- a ≤ b, character by character
unfoldable pub text_leb : String → String → Bool
unfolding nat_eq
text_leb String.[] t = true
text_leb (String.◌∷◌ c s) String.[] = false
text_leb (String.◌∷◌ c s) (String.◌∷◌ d t) =
    let rest = text_leb s t in ltb (code c) (code d) || (code c == code d && rest)

-- the comparison by `lambda x: (x[1]["order"], x[0])`
unfoldable pub entry_leb : String × Spec → String × Spec → Bool
unfolding text_leb nat_eq
entry_leb (key, spec) (name, other) =
    ltb spec.order other.order || (spec.order == other.order && text_leb key name)

unfoldable pub insert_entry : String × Spec → Dict Spec → Dict Spec
insert_entry entry [] = entry ∷ []
insert_entry entry (next ∷ entries) =
    let later = insert_entry entry entries in
    if entry_leb entry next then entry ∷ next ∷ entries else next ∷ later

unfoldable pub sort_entries : Dict Spec → Dict Spec
unfolding insert_entry
sort_entries [] = []
sort_entries (entry ∷ entries) = insert_entry entry (sort_entries entries)

-- `sorted_list`, and the mapping
unfoldable pub parameters : Dict Spec → List String → Option (Dict Spec × Dict String)
unfolding distinct named_entries mapping renamed_entries sort_entries
parameters table avail_opt = elim (named_entries table (distinct avail_opt)) [
  | none ↦ none
  | some entries ↦
      some (sort_entries (entries ++ renamed_entries table (mapping entries)), mapping entries)
]

-- `info` of a parameter
unfoldable pub parameter_info : Dict Spec → Dict String → String → String
unfolding Dict.get long_name
parameter_info table names key = elim (Dict.get table key) [
  | some spec ↦ elim spec.longopt [
    | none ↦ if key == long_name key then "" else "deprecated=\"1\""
    | some longopt ↦ if key == long_name longopt then "" else "deprecated=\"1\""
  ]
  | none ↦
      "obsoletes=\"" <> elim (Dict.get names key) [ none ↦ "None" | some other ↦ other ] <> "\""
]
