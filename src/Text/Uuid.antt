-- ===== src/Text/Uuid.antt =====
-- `str(uuid.UUID(text))` of the standard library, which the multi-plug functions of
-- lib/fencing.py.py try on each plug.
use Prim.Native.Nat.{suc, zero}
use fence_agents.Base.{
  ℕ, ◌/◌, ◌%◌, ◌^◌, String, ◌<>◌, Bool, ◌||◌, Option, none, some, ◌==◌, nat_eq, string_eq,
  if◌then◌else◌,
}
use fence_agents.Base.Int.{pos, negsuc}
use fence_agents.Text.{replace_char, lstrip_by, rstrip_by, split, join, size}
use fence_agents.Text.Number.{int_of_text}

-- s.replace(part, "")
without : String → String → String
without part s = elim (split s part) [ none ↦ s | some pieces ↦ join "" pieces ]

is_brace : ℕ → Bool
is_brace c = c == b'{' || c == b'}'

hex_digit : ℕ → String
hex_digit n =
    if n == 0
    then "0"
    else if n == 1
    then "1"
    else if n == 2
    then "2"
    else if n == 3
    then "3"
    else if n == 4
    then "4"
    else if n == 5
    then "5"
    else if n == 6
    then "6"
    else if n == 7
    then "7"
    else if n == 8
    then "8"
    else if n == 9
    then "9"
    else if n == 10
    then "a"
    else if n == 11
    then "b"
    else if n == 12
    then "c"
    else if n == 13
    then "d"
    else if n == 14
    then "e"
    else "f"

-- the last hexadecimal digits of `n`, as many as the first argument says, and then the rest
hex : ℕ → ℕ → String → String
unfolding hex_digit nat_eq
hex zero n rest = rest
hex (suc k) n rest = hex k (n / 16) (hex_digit (n % 16) <> rest)

-- '%032x' with the four dashes, from the last field to the first
dashed : ℕ → String
unfolding hex
dashed n = hex 8 (n / 16 ^ 24) (
    "-"
    <> hex 4 (n / 16 ^ 20)
        ("-" <> hex 4 (n / 16 ^ 16) ("-" <> hex 4 (n / 16 ^ 12) ("-" <> hex 12 n ""))))

-- `none` is a ValueError
unfoldable pub uuid_of_text : String → Option String
unfolding without dashed is_brace int_of_text replace_char lstrip_by rstrip_by split join size
    string_eq nat_eq
uuid_of_text s =
    let bare = without "uuid:" (without "urn:" s) in
    let digits = replace_char b'-' "" (rstrip_by is_brace (lstrip_by is_brace bare)) in
    if size digits == 32
    then elim (int_of_text 16 digits) [
      | none ↦ none
      | some (pos n) ↦ some (dashed n)
      | some (negsuc n) ↦ none
    ]
    else none
