-- ===== src/Options/CommandLine/Tests.antt =====
-- Options read from standard input and from the command line.
use fence_agents.Base.{
  ◌≡◌, ◌⊎◌, inl, inr, refl, sym, String, Bool, true, false, not, some, List, [], ◌∷◌, map,
  string_eq, nat_eq, if◌then◌else◌,
}
use fence_agents.Dict.{get, put, has}
use fence_agents.Exec.{ok, exit}
use fence_agents.State.{State, text, number}
use fence_agents.Text.{strip}
use fence_agents.Failure.{generic_status}
use fence_agents.Device.{Switch, start}
use fence_agents.Options.Spec.{Spec}
use fence_agents.Options.Table.{all_opt}
use fence_agents.Options.Dependency.{dependency_opt}
use fence_agents.Options.Stdin.{parse_input_stdin}
use fence_agents.Options.Stdin.Known.{AllKnown, parse_input_stdin-AllKnown}
use fence_agents.Options.CommandLine.{Parsed, parsed, short_of, verify_unique_getopt, process_input}
use fence_agents.Options.CommandLine.Unique.{is_unique, specs_of, verify_unique_getopt-outcome}

-- a run before anything is read
abbrev empty : State Switch
empty = record (start "off") {
  options = [];
  device_opt = "ipaddr" ∷ "passwd" ∷ "port" ∷ "secure" ∷ [];
  all_opt = all_opt;
}

abbrev input : List String
input =
    "# comment" ∷ " ipaddr=\"10.0.0.1\" " ∷ "secure=yes" ∷ "nodename=a" ∷ "colour=red"
    ∷ "ip=10.0.0.2=x" ∷ []

abbrev avail : List String
avail = "ipaddr" ∷ "passwd" ∷ "secure" ∷ []

abbrev after : State Switch
after = (parse_input_stdin avail input empty).1

test_input :
    after.options
    ≡ ("--ip", text "10.0.0.2=x")
      ∷ ("--ssh", text "1")
      ∷ ("--verbose-level", number (fence_agents.Base.Int.pos 0))
      ∷ []
unfolding parse_input_stdin all_opt get put has string_eq nat_eq strip
test_input = refl

parse_input_stdin-AllKnown_example : AllKnown avail all_opt after
parse_input_stdin-AllKnown_example =
    parse_input_stdin-AllKnown avail all_opt input empty
      (record { same_table = refl; known = λ key h. absurd (nothing key h) })
  where
    nothing : (key : String) → has empty.options key ≡ true → ⊥
    nothing key h = unfold has get in cc

abbrev specs : List Spec
specs = elim (specs_of all_opt avail) [ fence_agents.Base.none ↦ [] | some found ↦ found ]

have_specs : specs_of empty.all_opt avail ≡ some specs
unfolding all_opt get string_eq
have_specs = refl

verify_unique_getopt-outcome_example :
    (verify_unique_getopt avail empty).0
    ≡ (if is_unique (map short_of specs) then ok tt else exit generic_status)
verify_unique_getopt-outcome_example = verify_unique_getopt-outcome avail specs empty have_specs

-- "cmd_prompt" and "community" both have the short option c
test_double : (verify_unique_getopt ("cmd_prompt" ∷ "community" ∷ []) empty).0 ≡ exit generic_status
unfolding verify_unique_getopt all_opt get string_eq nat_eq
test_double = refl

-- getopt for the arguments -a 10.0.0.1 -v -v
abbrev gnu_getopt : String → List String → Parsed
gnu_getopt shorts longs = parsed (("-a", "10.0.0.1") ∷ ("-v", "") ∷ ("-v", "") ∷ []) []

test_command_line :
    (process_input gnu_getopt true [] empty).1.options
    ≡ ("--ip", text "10.0.0.1")
      ∷ ("--verbose", text "")
      ∷ ("--verbose-level", number (fence_agents.Base.Int.pos 2))
      ∷ []
unfolding process_input all_opt dependency_opt get put has string_eq nat_eq strip
test_command_line = refl
