-- ===== src/Sbd/Timeouts.antt =====
-- The time limits that agents/sbd/fence_sbd.py reads, and what it says of them.
use Prim.Native.Char.{code}
use fence_agents.Base.{
  ℕ, String, Bool, not, ◌&&◌, Option, none, some, List, [], ◌∷◌, ◌++◌, leb, ◌==◌, string_eq, nat_eq,
  if◌then◌else◌,
}
use fence_agents.Base.Int.{ℤ, negsuc, ltb_ℤ}
use fence_agents.Exec.{Exec, pure, raise, value_error, other_error, ◌>>=◌, ◌>>◌}
use fence_agents.State.{State, log}
use fence_agents.Text.{begins_with, includes, is_space, lstrip_by, split_from}
use fence_agents.Text.Number.{int_of_text}
use fence_agents.Commands.{Launcher, run_commands}
use fence_agents.Sbd.{generate_sbd_command}

abbrev pub no_timeout : ℤ
no_timeout = negsuc 0

-- max(a, b)
abbrev pub max_int : ℤ → ℤ → ℤ
max_int a b = if ltb_ℤ a b then b else a

-- -1 != a and b != a
abbrev pub differs_from : ℤ → ℤ → Bool
differs_from a b = not (same a no_timeout) && not (same b a)
  where
    same : ℤ → ℤ → Bool
    same x y = not (ltb_ℤ x y) && not (ltb_ℤ y x)

module _ {W : Type 0} where
  -- int(line.split(':')[1])
  unfoldable pub number_in : List String → Exec (State W) ℤ
  unfolding int_of_text
  number_in (name ∷ value ∷ more) = elim (int_of_text 10 value) [
    | none ↦ raise value_error
    | some n ↦ pure n
  ]
  number_in few = raise (other_error "list index out of range")

  -- The timeout so far and the one of another line.
  unfoldable pub raise_timeout : String → ℤ → String → Exec (State W) ℤ
  unfolding ◌>>=◌ number_in split_from log
  raise_timeout message timeout line = do
    other ← number_in (split_from ":" 0 line)
    if differs_from timeout other then log message else pure tt
    pure (max_int timeout other)

  unfoldable pub read_timeouts : List String → ℤ × ℤ → Exec (State W) (ℤ × ℤ)
  unfolding ◌>>=◌ includes raise_timeout
  read_timeouts [] timeouts = pure timeouts
  read_timeouts (line ∷ lines) (msg_timeout, watchdog_timeout) =
      if includes "msgwait" line
      then (do
        higher ← raise_timeout "sbd message timeouts differ in different devices" msg_timeout line
        read_timeouts lines (higher, watchdog_timeout))
      else if includes "watchdog" line
      then (do
        higher ←
            raise_timeout "sbd watchdog timeouts differ in different devices" watchdog_timeout line
        read_timeouts lines (msg_timeout, higher))
      else read_timeouts lines (msg_timeout, watchdog_timeout)

  unfoldable pub get_sbd_header_timeout : Launcher W → ℕ → Exec (State W) (ℤ × ℤ)
  unfolding ◌>>=◌ generate_sbd_command run_commands read_timeouts split_from
  get_sbd_header_timeout launcher fuel = do
    commands ← generate_sbd_command "dump" "None"
    ran ← run_commands launcher fuel commands
    read_timeouts (split_from "\n" 0 ran.out ++ split_from "\n" 0 ran.err) (no_timeout, no_timeout)

is_digit : ℕ → Bool
is_digit c = leb b'0' c && leb c b'9'

-- the digits at the front
unfoldable pub digits_of : String → String
unfolding is_digit
digits_of String.[] = ""
digits_of (String.◌∷◌ c s) =
    let rest = digits_of s in if is_digit (code c) then String.◌∷◌ c rest else ""

spaced_digits : String → String
unfolding is_space lstrip_by digits_of
spaced_digits String.[] = ""
spaced_digits (String.◌∷◌ c s) = if is_space (code c) then digits_of (lstrip_by is_space s) else ""

behind_flag : String → String
behind_flag (String.◌∷◌ c (String.◌∷◌ d s)) = s
behind_flag s = ""

-- re.search(r'-C\s+(\d+)', sbd_opts), "" if nothing is found
unfoldable pub crashdump_digits : String → String
unfolding begins_with spaced_digits behind_flag
crashdump_digits String.[] = ""
crashdump_digits (String.◌∷◌ c s) =
    let found =
      if begins_with (String.◌∷◌ c s) "-C"
      then spaced_digits (behind_flag (String.◌∷◌ c s))
      else "" in
    let later = crashdump_digits s in if found == "" then later else found

-- get_crashdump_timeout(), from the value of SBD_OPTS
unfoldable pub get_crashdump_timeout : Option String → ℤ
unfolding crashdump_digits int_of_text
get_crashdump_timeout none = no_timeout
get_crashdump_timeout (some sbd_opts) = elim (int_of_text 10 (crashdump_digits sbd_opts)) [
  | none ↦ no_timeout
  | some n ↦ n
]
