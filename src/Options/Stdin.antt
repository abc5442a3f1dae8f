-- ===== src/Options/Stdin.antt =====
-- `_parse_input_stdin` of lib/fencing.py.py. The dictionary `opt` that it fills is the `options` of
-- the state.
pub mod Known
use Prim.Native.Char.{Char, code}
use fence_agents.Base.{
  String, ◌<>◌, Bool, true, false, not, ◌&&◌, ◌||◌, Option, none, some, List, [], ◌∷◌, contains,
  ◌==◌, string_eq, nat_eq, if◌then◌else◌,
}
use fence_agents.Base.Int.{pos}
use fence_agents.Dict
use fence_agents.Dict.{Dict}
use fence_agents.Exec.{Exec, pure, gets, ◌>>=◌, ◌>>◌}
use fence_agents.State.{State, Value, text, number, has_option, put_option, log}
use fence_agents.Text.{
  strip, begins_with, ends_with_char, partition, replace_char, rstrip_by, lower,
}
use fence_agents.Options.Spec.{Spec}
use fence_agents.Options.Defaults.{spec_of, longopt_of}
use fence_agents.Options.Check.{is_yes}

-- s[:-1]
unfoldable pub drop_last : String → String
drop_last String.[] = ""
drop_last (String.◌∷◌ c String.[]) = ""
drop_last (String.◌∷◌ c (String.◌∷◌ d s)) = String.◌∷◌ c (drop_last (String.◌∷◌ d s))

-- re.sub(r"^\"(.*)\"$", r"\1", value), for a value without newlines
unfoldable pub unquote : String → String
unfolding ends_with_char drop_last nat_eq
unquote String.[] = ""
unquote (String.◌∷◌ c s) =
    if code c == b'"' && ends_with_char b'"' s then drop_last s else String.◌∷◌ c s

-- (name, value) = (line + "=").split("=", 1), and what is made of the value
unfoldable pub name_and_value : String → String × String
unfolding partition drop_last unquote
name_and_value line =
    let (name, rest) = partition b'=' (line <> "=") in (name, unquote (drop_last rest))

-- .lower() in ["0", "no", "off", "false"]
abbrev pub is_no : String → Bool
is_no t = contains ("0" ∷ "no" ∷ "off" ∷ "false" ∷ []) t

-- a comment or an empty line
abbrev pub is_skipped : String → Bool
is_skipped line = begins_with line "#" || line == ""

-- mapping_longopt_names looked up under both spellings of the name
unfoldable pub option_name : Dict String → String → String
unfolding replace_char
option_name mapping name = elim (Dict.get mapping (replace_char b'-' "_" name)) [
  | some opt ↦ opt
  | none ↦ elim (Dict.get mapping (replace_char b'_' "-" name)) [ some opt ↦ opt | none ↦ name ]
]

abbrev add_name : Option String → String → Dict String → Dict String
add_name none opt mapping = mapping
add_name (some name) opt mapping = Dict.put mapping name opt

-- opt.get("--verbose", 0)
abbrev pub verbose_or_zero : Option Value → Value
verbose_or_zero none = number (pos 0)
verbose_or_zero (some value) = value

module _ {W : Type 0} where
  -- dict([(all_opt[o].get("longopt"), o) for o in avail_opt]); None is never looked up
  unfoldable pub longopt_names : List String → Dict String → Exec (State W) (Dict String)
  unfolding ◌>>=◌ spec_of
  longopt_names [] mapping = pure mapping
  longopt_names (opt ∷ opts) mapping = do
    spec ← spec_of opt
    longopt_names opts (add_name spec.longopt opt mapping)

  -- What a line writes for an option without an argument.
  unfoldable pub put_flag : String → Spec → String → Exec (State W) (Unit {0})
  unfolding ◌>>=◌ longopt_of put_option log lower
  put_flag name spec value =
      if is_yes (lower value)
      then (do longopt ← longopt_of spec; put_option ("--" <> longopt) (text "1"))
      else if is_no (lower value)
      then (do longopt ← longopt_of spec; put_option ("--" <> longopt) (text "0"))
      else log ("Parse error: Ignoring option '" <> name <> "' because it does not have value\n")

  unfoldable pub put_argument : Spec → String → Exec (State W) (Unit {0})
  unfolding ◌>>=◌ longopt_of put_option rstrip_by nat_eq
  put_argument spec value = do
    longopt ← longopt_of spec
    put_option ("--" <> rstrip_by (λ c. c == b':') longopt) (text value)

  unfoldable pub parse_option : String → String → Exec (State W) (Unit {0})
  unfolding ◌>>=◌ spec_of ends_with_char put_argument put_flag
  parse_option name value = do
    spec ← spec_of name
    if ends_with_char b':' spec.getopt then put_argument spec value else put_flag name spec value

  -- A stripped line that is neither empty nor a comment.
  unfoldable pub parse_entry : List String → Dict String → String → Exec (State W) (Unit {0})
  unfolding ◌>>=◌ name_and_value option_name parse_option log
  parse_entry avail_opt mapping line =
      let name = option_name mapping (name_and_value line).0 in
      if contains avail_opt name
      then parse_option name (name_and_value line).1
      else if name == "nodename"
      then pure tt
      else log ("Parse error: Ignoring unknown option '" <> line <> "'\n")

  unfoldable pub parse_lines : List String → Dict String → List String → Exec (State W) (Unit {0})
  unfolding ◌>>=◌ strip begins_with parse_entry
  parse_lines avail_opt mapping [] = pure tt
  parse_lines avail_opt mapping (line ∷ lines) = do
    if is_skipped (strip line) then pure tt else parse_entry avail_opt mapping (strip line)
    parse_lines avail_opt mapping lines

  -- opt.setdefault("--verbose-level", opt.get("--verbose", 0))
  unfoldable pub default_level : Exec (State W) (Unit {0})
  unfolding ◌>>=◌ has_option put_option
  default_level = do
    given ← has_option "--verbose-level"
    verbose ← gets (λ s. Dict.get s.options "--verbose")
    if given then pure tt else put_option "--verbose-level" (verbose_or_zero verbose)

  unfoldable pub parse_input_stdin : List String → List String → Exec (State W) (Unit {0})
  unfolding ◌>>=◌ longopt_names parse_lines default_level
  parse_input_stdin avail_opt lines = do
    mapping ← longopt_names avail_opt []
    parse_lines avail_opt mapping lines
    default_level
