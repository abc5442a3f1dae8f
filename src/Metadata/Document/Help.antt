-- ===== src/Metadata/Document/Help.antt =====
-- The regular expressions of `metadata` in lib/fencing.py.py.
use Prim.Native.Char.{code}
use Prim.Native.Nat.{suc, zero}
use fence_agents.Base.{
  ℕ, ◌-◌, String, ◌<>◌, Bool, false, not, ◌&&◌, ◌||◌, Option, none, some, ltb, ◌==◌, string_eq,
  nat_eq, if◌then◌else◌,
}
use fence_agents.Text.{begins_with, is_space, lstrip_by, size}
use fence_agents.Scsi.Keys.{token, drop}

-- the length of the markup with which a text begins, 0 where it begins with none
markup : String → ℕ
unfolding begins_with
markup s =
    if begins_with s "\\fB" || begins_with s "\\fP" || begins_with s "\\fI" || begins_with s "\\fR"
    then 3
    else if begins_with s ".P"
    then 2
    else if begins_with s ".TP"
    then 3
    else if begins_with s ".br\n"
    then 4
    else 0

-- re.sub(r"\\f[BPIR]|\.P|\.TP|\.br\n", r"", text); the number counts the characters of a match that are
-- still to be left out
without_markup_from : ℕ → String → String
unfolding markup nat_eq
without_markup_from skip String.[] = String.[]
without_markup_from (suc skip) (String.◌∷◌ c s) = without_markup_from skip s
without_markup_from zero (String.◌∷◌ c s) =
    let n = markup (String.◌∷◌ c s) in
    let rest = without_markup_from (n - 1) s in if n == 0 then String.◌∷◌ c rest else rest

unfoldable pub without_markup : String → String
unfolding without_markup_from
without_markup text = without_markup_from 0 text

push_char : Prim.Native.Char.Char → Option String → Option String
push_char c none = none
push_char c (some s) = some (String.◌∷◌ c s)

-- re.compile(r"^(.*?--\S+)\s+", re.S).search(text), the group of it
unfoldable pub option_part : String → Option String
unfolding token drop begins_with push_char
option_part String.[] = none
option_part (String.◌∷◌ c s) =
    let later = option_part s in
    let (word, rest) = token (drop 2 (String.◌∷◌ c s)) in
    if begins_with (String.◌∷◌ c s) "--" && not (word == "") && not (rest == "")
    then some ("--" <> word)
    else push_char c later

one_more : Option ℕ → Option ℕ
one_more none = none
one_more (some n) = some (suc n)

-- the length of the white space in front, if there are two characters of it or more
gap : String → Option ℕ
unfolding size lstrip_by is_space
gap s = let n = size s - size (lstrip_by is_space s) in if ltb 1 n then some n else none

-- The length of a match of r".*\s\s+" at the beginning of the text: the last gap of the line ends it.
last_gap : String → Option ℕ
unfolding one_more gap nat_eq
last_gap String.[] = none
last_gap (String.◌∷◌ c s) =
    let later = (if code c == b'\n' then none else one_more (last_gap s)) in
    elim later [ some n ↦ some n | none ↦ gap (String.◌∷◌ c s) ]

-- re.sub(r".*\s\s+", r"", text)
without_gaps : ℕ → String → String
unfolding last_gap
without_gaps skip String.[] = String.[]
without_gaps (suc skip) (String.◌∷◌ c s) = without_gaps skip s
without_gaps zero (String.◌∷◌ c s) =
    let found = last_gap (String.◌∷◌ c s) in
    let rest = without_gaps (elim found [ none ↦ 0 | some n ↦ n - 1 ]) s in
    elim found [ none ↦ String.◌∷◌ c rest | some n ↦ rest ]

-- re.sub(r".*\s\s+", r"", help[31:])
unfoldable pub short_help : String → String
unfolding drop without_gaps
short_help text = without_gaps 0 (drop 31 text)

-- text.count(":") > 0
unfoldable pub has_colon : String → Bool
unfolding nat_eq
has_colon String.[] = false
has_colon (String.◌∷◌ c s) = code c == b':' || has_colon s
