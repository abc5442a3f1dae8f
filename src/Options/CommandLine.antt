-- ===== src/Options/CommandLine.antt =====
-- `_verify_unique_getopt`, `_prepare_getopt_args`, `_parse_input_cmdline` and `process_input` of
-- lib/fencing.py.py.
pub mod Unique
mod Tests
use Prim.Native.Nat.{suc}
use fence_agents.Base.{
  ℕ, ◌+◌, String, ◌<>◌, Bool, true, false, not, ◌&&◌, ◌||◌, Option, none, some, List, [], ◌∷◌, ◌++◌,
  contains, ◌==◌, string_eq, nat_eq, if◌then◌else◌,
}
use fence_agents.Base.Int.{pos}
use fence_agents.Dict
use fence_agents.Dict.{Dict}
use fence_agents.Exec.{Exec, pure, raise, gets, modify, other_error, ◌>>=◌, ◌>>◌}
use fence_agents.State.{State, Value, text, number, has_option, put_option, option, log}
use fence_agents.Text.{ends_with_char, rstrip_by}
use fence_agents.Failure.{fail_usage}
use fence_agents.Options.Spec.{Spec}
use fence_agents.Options.Defaults.{spec_of, longopt_of}
use fence_agents.Options.Metadata.{extend_device_opt}
use fence_agents.Options.Validate.{list_text}
use fence_agents.Options.Stdin.{parse_input_stdin}

-- spec["getopt"].rstrip(":")
unfoldable pub short_of : Spec → String
unfolding rstrip_by nat_eq
short_of spec = rstrip_by (λ c. c == b':') spec.getopt

-- What `getopt.gnu_getopt` makes of the arguments: the options that it met, with their values, and
-- the arguments left over, or the message of its error.
pub data Parsed : Type 0 where
  parsed : List (String × String) → List String → Parsed
  refused : String → Parsed

-- dict(entered_opt)[arg_name], for a name among them
abbrev pub last_value : List (String × String) → String → String → String
last_value [] name value = value
last_value ((k, v) ∷ entered) name value = last_value entered name (if k == name then v else value)

-- "--" + value.get("longopt", "") == arg_name or "-" + value["getopt"].rstrip(":") == arg_name
unfoldable pub is_named : Spec → String → Bool
unfolding short_of
is_named spec arg_name =
    "--" <> (elim spec.longopt [ none ↦ "" | some longopt ↦ longopt ]) == arg_name
    || "-" <> short_of spec == arg_name

abbrev long_argument : Spec → List String → List String
long_argument spec rest = elim spec.longopt [
  | none ↦ rest
  | some longopt ↦ (if ends_with_char b':' spec.getopt then longopt <> "=" else longopt) ∷ rest
]

abbrev short_argument : Spec → String → String
short_argument spec rest = if spec.getopt == ":" then rest else spec.getopt <> rest

module _ {W : Type 0} where
  unfoldable pub verify_unique : List String → List String → Exec (State W) (Unit {0})
  unfolding ◌>>=◌ spec_of short_of fail_usage
  verify_unique used [] = pure tt
  verify_unique used (opt ∷ opts) = do
    spec ← spec_of opt
    if not (short_of spec == "") && contains used (short_of spec)
        then (do
          fail_usage ("Short getopt for " <> opt <> " (-" <> short_of spec <> ") is not unique")
              true
          verify_unique used opts)
        else verify_unique (short_of spec ∷ used) opts

  -- used_getopt = set()
  unfoldable pub verify_unique_getopt : List String → Exec (State W) (Unit {0})
  unfolding verify_unique
  verify_unique_getopt avail_opt = verify_unique [] avail_opt

  -- The short options and the long ones for `getopt`; an unknown option ends the run.
  unfoldable pub prepare_getopt_args : List String → Exec (State W) (String × List String)
  unfolding ◌>>=◌ ends_with_char fail_usage
  prepare_getopt_args [] = pure ("", [])
  prepare_getopt_args (k ∷ options) = do
    found ← gets (λ s. Dict.get s.all_opt k)
    elim found [
      | none ↦ (do
        fail_usage ("Parse error: unknown option '" <> k <> "'") true
        prepare_getopt_args options)
      | some spec ↦ (do
        rest ← prepare_getopt_args options
        pure (short_argument spec rest.0, long_argument spec rest.1))
    ]

  -- The first available option that goes by this name; there is none for an IndexError.
  unfoldable pub find_option : List String → String → Exec (State W) String
  unfolding ◌>>=◌ spec_of is_named
  find_option [] arg_name = raise (other_error "list index out of range")
  find_option (opt ∷ opts) arg_name = do
    spec ← spec_of opt
    if is_named spec arg_name then pure opt else find_option opts arg_name

  -- One round of the loop over the entered options; the number is `verbose_count`.
  unfoldable pub take_option : List String → List (String × String) → String → ℕ → Exec (State W) ℕ
  unfolding ◌>>=◌ find_option spec_of longopt_of put_option
  take_option avail_opt entered arg_name verbose_count = do
    all_key ← find_option avail_opt arg_name
    spec ← spec_of all_key
    longopt ← longopt_of spec
    put_option ("--" <> longopt) (text (last_value entered arg_name ""))
    pure (if all_key == "verbose" then suc verbose_count else verbose_count)

  unfoldable pub take_options :
      List String → List (String × String) → List (String × String) → ℕ → Exec (State W) ℕ
  unfolding ◌>>=◌ take_option
  take_options avail_opt entered [] verbose_count = pure verbose_count
  take_options avail_opt entered ((arg_name, value) ∷ rest) verbose_count = do
    counted ← take_option avail_opt entered arg_name verbose_count
    take_options avail_opt entered rest counted

  unfoldable pub warn_unused : List String → Exec (State W) (Unit {0})
  unfolding log list_text
  warn_unused [] = pure tt
  warn_unused (argument ∷ left) =
      log ("Unused arguments on command line: " <> list_text (argument ∷ left))

  unfoldable pub take_parsed : List String → Parsed → Exec (State W) (Unit {0})
  unfolding ◌>>=◌ warn_unused take_options has_option put_option fail_usage
  take_parsed avail_opt (refused message) = do fail_usage ("Parse error: " <> message) true
  take_parsed avail_opt (parsed entered left) = do
    warn_unused left
    verbose_count ← take_options avail_opt entered entered 0
    given ← has_option "--verbose-level"
    if given then pure tt else put_option "--verbose-level" (number (pos verbose_count))
    port_as_ip ← has_option "--port-as-ip"
    plug ← has_option "--plug"
    if contains avail_opt "port_as_ip" && not port_as_ip && plug
        then fail_usage "Parser error: option -n/--plug is not recognized" true
        else pure tt

  -- The argument is `getopt.gnu_getopt` on the arguments of the process.
  unfoldable pub parse_input_cmdline :
      (String → List String → Parsed) → List String → Exec (State W) (Unit {0})
  unfolding ◌>>=◌ verify_unique_getopt prepare_getopt_args take_parsed
  parse_input_cmdline gnu_getopt avail_opt = do
    verify_unique_getopt avail_opt
    accepted ← prepare_getopt_args avail_opt
    take_parsed avail_opt (gnu_getopt accepted.0 accepted.1)

  -- if "--port-as-ip" in opt and "--plug" in opt: opt["--ip"] = opt["--plug"]
  unfoldable pub plug_as_ip : Exec (State W) (Unit {0})
  unfolding ◌>>=◌ has_option option put_option
  plug_as_ip = do
    port_as_ip ← has_option "--port-as-ip"
    plug ← has_option "--plug"
    if port_as_ip && plug then (do value ← option "--plug"; put_option "--ip" value) else pure tt

  -- The arguments are `getopt`, whether the process has arguments, and the lines of its input.
  unfoldable pub process_input :
      (String → List String → Parsed) → Bool → List String → Exec (State W) (Unit {0})
  unfolding ◌>>=◌ extend_device_opt parse_input_cmdline parse_input_stdin plug_as_ip
  process_input gnu_getopt has_arguments lines = do
    extend_device_opt
    modify (λ s. record s {
      device_opt =
          if contains s.device_opt "port_as_ip" then s.device_opt ++ "port" ∷ [] else s.device_opt;
    })
    avail_opt ← gets (λ s. s.device_opt)
    if has_arguments
        then parse_input_cmdline gnu_getopt avail_opt
        else parse_input_stdin avail_opt lines
    plug_as_ip
