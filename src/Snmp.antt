-- ===== src/Snmp.antt =====
-- lib/fencing_snmp.py.py: the commands of net-snmp that the SNMP agents run.
pub mod Quote
pub mod Apc
mod Tests
use Prim.Native.Nat.{suc, zero}
use Prim.Native.Char.{code}
use fence_agents.Base.{
  ℕ, String, ◌<>◌, Bool, true, false, not, ◌&&◌, ◌||◌, Option, none, some, List, [], ◌∷◌, ◌==◌,
  string_eq, nat_eq, if◌then◌else◌,
}
use fence_agents.Base.Int.{ℤ, pos, ◌+ℤ◌}
use fence_agents.Dict
use fence_agents.Exec.{
  Exec, ok, pure, raise, gets, attribute_error, value_error, other_error, ◌>>=◌, ◌>>◌,
}
use fence_agents.State.{State, Value, text, number, option, has_option, int_option, put_option}
use fence_agents.Text.{begins_with, is_space, lstrip_by, size, split_from}
use fence_agents.Text.Number.{text_of_int}
use fence_agents.Failure.{fail, fail_usage, generic_status, ec_timed_out}
use fence_agents.Power.{is_text}
use fence_agents.Action.{format}
use Quote.{quote_for_run}

-- What `frun` gives: the exit code is missing if the time was over. `none` is an ExceptionPexpect.
pub record Shell (W : Type 0) : Type 0 where
  pub frun : String → ℤ → W → Option (String × Option ℤ) × W

-- A line begins with "Error ".
unfoldable pub has_error_line : List String → Bool
unfolding begins_with
has_error_line [] = false
has_error_line (line ∷ lines) = begins_with line "Error " || has_error_line lines

-- the lines of s.splitlines(), for lines that end with a line feed or with "\r\n"
drop_return : String → String
unfolding nat_eq
drop_return String.[] = ""
drop_return (String.◌∷◌ c String.[]) = if code c == b'\r' then "" else String.◌∷◌ c ""
drop_return (String.◌∷◌ c (String.◌∷◌ d s)) = String.◌∷◌ c (drop_return (String.◌∷◌ d s))

lines_of : List String → List String
unfolding string_eq drop_return
lines_of [] = []
lines_of (line ∷ []) = if line == "" then [] else line ∷ []
lines_of (line ∷ (next ∷ lines)) = drop_return line ∷ lines_of (next ∷ lines)

unfoldable pub splitlines : String → List String
unfolding split_from lines_of
splitlines s = lines_of (split_from "\n" 0 s)

abbrev version_flags : List (String × String)
version_flags = ("--snmp-version", "v") ∷ ("--community", "c") ∷ []

abbrev third_version_flags : List (String × String)
third_version_flags =
    ("--snmp-auth-prot", "a")
    ∷ ("--snmp-sec-level", "l")
    ∷ ("--snmp-priv-prot", "x")
    ∷ ("--snmp-priv-passwd", "X")
    ∷ ("--password", "A")
    ∷ ("--username", "u")
    ∷ []

is_third : Option Value → Bool
is_third none = false
is_third (some value) = is_text value "3"

is_bad : ℤ → String → Bool
unfolding has_error_line split_from
is_bad (pos zero) output = has_error_line (split_from "\n" 0 output)
is_bad res_code output = true

-- the text in front of the first white space, and what is behind that white space
cut_word : String → String × String
unfolding is_space lstrip_by
cut_word String.[] = ("", "")
cut_word (String.◌∷◌ c s) =
    let (word, rest) = cut_word s in
    if is_space (code c) then ("", lstrip_by is_space s) else (String.◌∷◌ c word, rest)

fields_of : String × String → List String
unfolding string_eq
fields_of (word, rest) =
    if word == "" then [] else if rest == "" then word ∷ [] else word ∷ rest ∷ []

-- s.split(None, 1)
unfoldable pub split_once : String → List String
unfolding cut_word fields_of lstrip_by is_space
split_once s = fields_of (cut_word (lstrip_by is_space s))

-- [x.split(None, 1) for x in output if x.startswith(".")]
unfoldable pub dotted_fields : List String → List (List String)
unfolding begins_with split_once
dotted_fields [] = []
dotted_fields (line ∷ lines) =
    if begins_with line "." then split_once line ∷ dotted_fields lines else dotted_fields lines

module _ {W : Type 0} where
  -- output[len(output) - 1].split(None, 1)
  unfoldable pub last_fields : List String → Exec (State W) (List String)
  unfolding split_once
  last_fields [] = raise (other_error "list index out of range")
  last_fields (line ∷ []) = pure (split_once line)
  last_fields (line ∷ (next ∷ lines)) = last_fields (next ∷ lines)

  -- self.options[key] as a text with its quotes made harmless
  unfoldable pub quoted : Value → Exec (State W) String
  unfolding quote_for_run
  quoted (text t) = pure (quote_for_run t)
  quoted (number n) = raise attribute_error

  -- " -flag 'value'" if the option is there
  unfoldable pub flag_for : String → String → Exec (State W) String
  unfolding ◌>>=◌ has_option option quoted
  flag_for key flag = do
    given ← has_option key
    if given
        then (do
          value ← option key
          argument ← quoted value
          pure (" -" <> flag <> " '" <> argument <> "'"))
        else pure ""

  unfoldable pub flags_for : List (String × String) → Exec (State W) String
  unfolding ◌>>=◌ flag_for
  flags_for [] = pure ""
  flags_for ((key, flag) ∷ mapping) = do
    first ← flag_for key flag
    rest ← flags_for mapping
    pure (first <> rest)

  -- The options that make up for missing ones. What was put in by the first rule is seen by the second.
  unfoldable pub complete_missed_params : Exec (State W) (Unit {0})
  unfolding ◌>>=◌ put_option Dict.has
  complete_missed_params = do
    private ← gets (λ s.
        Dict.has s.options "--snmp-priv-passwd"
        && Dict.has s.options "--password"
        && not (Dict.has s.options "--snmp-sec-level"))
    if private then put_option "--snmp-sec-level" (text "authPriv") else pure tt
    community ← gets (λ s.
        not (Dict.has s.options "--snmp-version")
        && Dict.has s.options "--community"
        && not (Dict.has s.options "--username")
        && not (Dict.has s.options "--snmp-priv-passwd")
        && not (Dict.has s.options "--password"))
    if community then put_option "--snmp-version" (text "2c") else pure tt

  -- the address and, behind a colon, the port
  unfoldable pub address : Exec (State W) String
  unfolding ◌>>=◌ has_option option quoted format quote_for_run
  address = do
    six ← has_option "--inet6-only"
    four ← has_option "--inet4-only"
    value ← option "--ip"
    ip ← quoted value
    has_port ← has_option "--ipport"
    port ← if has_port then (do value ← option "--ipport"; pure (":" <> format value)) else pure ""
    pure ((if four then "udp:" else if six then "udp6:" else "") <> ip <> quote_for_run port)

  unfoldable pub prepare_cmd : String → Exec (State W) String
  unfolding ◌>>=◌ complete_missed_params flags_for is_third address Dict.get
  prepare_cmd command = do
    complete_missed_params
    version ← flags_for version_flags
    third ← gets (λ s. is_third (Dict.get s.options "--snmp-version"))
    more ← if third then flags_for third_version_flags else pure ""
    ip ← address
    pure (command <> " -m '' -Oeqn " <> version <> more <> " '" <> ip <> "'")

  module _ (shell : Shell W) where
    ran : String → Option (String × Option ℤ) → Exec (State W) String
    unfolding ◌>>=◌ fail fail_usage is_bad text_of_int
    ran command none = do
      fail_usage ("Cannot run command " <> command) true
      raise (other_error "res_output")
    ran command (some (output, none)) = fail ec_timed_out
    ran command (some (output, some res_code)) = do
      if is_bad res_code output
          then fail_usage ("Returned " <> text_of_int res_code <> ": " <> output) true
          else pure tt
      pure output

    run_shell : String → ℤ → Exec (State W) (Option (String × Option ℤ))
    run_shell command limit s =
        let (result, w) = shell.frun command limit s.world in (ok result, record s { world = w })

    unfoldable pub run_command : String → ℕ → Exec (State W) String
    unfolding ◌>>=◌ int_option run_shell ran ◌+ℤ◌
    run_command command additional_timeout = do
      shell_timeout ← int_option "--shell-timeout"
      login_timeout ← int_option "--login-timeout"
      result ← run_shell command (shell_timeout +ℤ login_timeout +ℤ pos additional_timeout)
      ran command result

    unfoldable pub get : String → ℕ → Exec (State W) (List String)
    unfolding ◌>>=◌ option format prepare_cmd run_command quote_for_run splitlines last_fields
    get oid additional_timeout = do
      path ← option "--snmpget-path"
      cmd ← prepare_cmd (format path)
      output ← run_command (cmd <> " '" <> quote_for_run oid <> "'") additional_timeout
      last_fields (splitlines output)

    -- set(oid, value) for a value that is an int
    unfoldable pub set : String → ℤ → ℕ → Exec (State W) (Unit {0})
    unfolding ◌>>=◌ option format prepare_cmd run_command quote_for_run text_of_int
    set oid value additional_timeout = do
      path ← option "--snmpset-path"
      cmd ← prepare_cmd (format path)
      run_command
          (cmd <> " '" <> quote_for_run oid <> "' i '" <> quote_for_run (text_of_int value) <> "'")
          additional_timeout
      pure tt

    unfoldable pub walk : String → ℕ → Exec (State W) (List (List String))
    unfolding ◌>>=◌ option format prepare_cmd run_command quote_for_run splitlines dotted_fields
    walk oid additional_timeout = do
      path ← option "--snmpwalk-path"
      cmd ← prepare_cmd (format path)
      output ← run_command (cmd <> " '" <> quote_for_run oid <> "'") additional_timeout
      pure (dotted_fields (splitlines output))
