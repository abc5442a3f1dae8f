-- ===== src/Options/Metadata.antt =====
-- `_update_metadata`, `_join2`, `_join_wrap` and the help text of `_add_dependency_options` in
-- lib/fencing.py.py.
use fence_agents.Base.{
  String, ◌<>◌, not, ◌&&◌, Option, none, some, List, [], ◌∷◌, ◌++◌, map, contains, ◌==◌, string_eq,
  nat_eq, if◌then◌else◌,
}
use fence_agents.Dict
use fence_agents.Exec.{Exec, pure, raise, gets, modify, other_error, ◌>>=◌, ◌>>◌}
use fence_agents.State.{State}
use fence_agents.Text.{join, lstrip_by, rstrip_by, is_space}
use fence_agents.Options.Spec.{Spec}
use fence_agents.Options.Actions.{get_available_actions}
use fence_agents.Options.Dependency.{add_dependency_options, takes_port_as_ip, extend}
use fence_agents.Options.Defaults.{spec_of}

-- words[:-1] and words[-1] of a list that begins with `word`
abbrev pub init : String → List String → List String
init word [] = []
init word (next ∷ words) = word ∷ init next words

abbrev pub last : String → List String → String
last word [] = word
last word (next ∷ words) = last next words

-- _join2(words, normal_separator, last_separator)
unfoldable pub join2 : String → String → List String → String
unfolding join
join2 normal final [] = ""
join2 normal final (word ∷ []) = word
join2 normal final (word ∷ next ∷ words) =
    join normal (init word (next ∷ words)) <> final <> last word (next ∷ words)

-- the lines with a newline behind each
abbrev lines_text : List String → String
lines_text [] = ""
lines_text (line ∷ lines) = line <> "\n" <> lines_text lines

-- _join_wrap; the argument is the `wrap` method of the TextWrapper that the code sets up
unfoldable pub join_wrap : (String → List String) → String → String → List String → String
unfolding join2 lstrip_by rstrip_by is_space nat_eq
join_wrap wrap normal final words =
    rstrip_by (λ c. c == b'\n') (lstrip_by is_space (lines_text (wrap (join2 normal final words))))

-- x if not x == default else x + " (default)"
abbrev mark_default : String → String → String
mark_default default x = if x == default then x <> " (default)" else x

-- [x for x in ["community", "secure", "ssl", "web", "telnet"] if device_opt.count(x)][0], as its port
unfoldable pub protocol_port : List String → Option String
protocol_port device_opt =
    if contains device_opt "community"
    then some "161"
    else if contains device_opt "secure"
    then some "22"
    else if contains device_opt "ssl"
    then some "443"
    else if contains device_opt "web"
    then some "80"
    else if contains device_opt "telnet"
    then some "23"
    else none

-- " " * 40
abbrev indent : String
indent = "                                        "

unfoldable pub port_help_default : String → String
port_help_default port =
    "-u, --ipport=[port]            TCP/UDP port to use (default " <> port <> ")"

unfoldable pub port_help_choice : String → String
port_help_choice default_string =
    "-u, --ipport=[port]            TCP/UDP port to use\n" <> indent <> default_string

-- The help text of "ipport"; `none` is an IndexError.
unfoldable pub port_help : List String → Option String → Option String
unfolding protocol_port port_help_default port_help_choice
port_help device_opt (some default) = some (port_help_default default)
port_help device_opt none =
    if contains device_opt "web" && contains device_opt "ssl"
    then some (port_help_choice "(default 80, 443 if --ssl option is used)")
    else if contains device_opt "telnet" && contains device_opt "secure"
    then some (port_help_choice "(default 23, 22 if --ssh option is used)")
    else elim (protocol_port device_opt) [ none ↦ none | some port ↦ some (port_help_default port) ]

module _ {W : Type 0} where
  -- all_opt[opt][...] = ...
  unfoldable pub change_spec : String → (Spec → Spec) → Exec (State W) (Unit {0})
  unfolding ◌>>=◌ spec_of
  change_spec opt f = do
    spec ← spec_of opt
    modify (λ s. record s { all_opt = Dict.put s.all_opt opt (f spec) })

  -- device_opt.extend(_add_dependency_options(device_opt))
  unfoldable pub extend_device_opt : Exec (State W) (Unit {0})
  unfolding ◌>>=◌ add_dependency_options change_spec
  extend_device_opt = do
    options ← gets (λ s. s.device_opt)
    if takes_port_as_ip (options ++ extend options (options ++ "default" ∷ []))
        then change_spec "port" (λ spec. record spec {
          help =
              "-n, --plug=[ip]                IP address or hostname of fencing device "
              <> "(together with --port-as-ip)";
        })
        else pure tt
    modify (λ s. record s { device_opt = options ++ add_dependency_options options })

  unfoldable pub require : String → String → Exec (State W) (Unit {0})
  unfolding change_spec
  require opt flag = change_spec opt (λ spec. record spec { required = some flag })

  unfoldable pub update_port_help : Exec (State W) (Unit {0})
  unfolding ◌>>=◌ spec_of change_spec port_help
  update_port_help = do
    device_opt ← gets (λ s. s.device_opt)
    if not (contains device_opt "ipport") then pure tt else do
      spec ← spec_of "ipport"
      elim (port_help device_opt spec.default) [
        | none ↦ raise (other_error "list index out of range")
        | some help ↦ change_spec "ipport" (λ spec. record spec { help = help })
      ]

  unfoldable pub update_metadata : (String → List String) → Exec (State W) (Unit {0})
  unfolding ◌>>=◌ require change_spec get_available_actions join_wrap update_port_help
  update_metadata wrap = do
    device_opt ← gets (λ s. s.device_opt)
    require "login"
        (if contains device_opt "login" && not (contains device_opt "no_login") then "1" else "0")
    if contains device_opt "port_as_ip"
        then (do require "ipaddr" "0"; require "port" "0")
        else pure tt
    let default = (get_available_actions device_opt).1 in
        do
          change_spec "action" (λ spec. record spec { default = some default })
          change_spec "action" (λ spec. record spec {
            help =
                "-o, --action=[action]          Action: "
                <> join_wrap wrap ", " " or "
                    (map (mark_default default) (get_available_actions device_opt).0);
          })
          update_port_help
