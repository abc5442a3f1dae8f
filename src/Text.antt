-- ===== src/Text.antt =====
-- The operations of Python's `str` that lib/fencing.py.py uses, on ASCII texts. Numbers and UUIDs
-- are read in the children.
pub mod Number
pub mod Decimal
pub mod Uuid
mod Tests
use Prim.Native.Nat.{suc, zero}
use Prim.Native.Char.{Char, code}
use fence_agents.Base.{
  ℕ, ◌-◌, String, ◌<>◌, Bool, true, false, ◌&&◌, ◌||◌, List, [], ◌∷◌, Option, none, some, leb, ◌==◌,
  nat_eq, if◌then◌else◌,
}

-- the character of the second table at the place where the first has `c`
unfoldable pub translate_char : String → String → Char → Char
unfolding nat_eq
translate_char String.[] to c = c
translate_char (String.◌∷◌ x from) String.[] c = c
translate_char (String.◌∷◌ x from) (String.◌∷◌ y to) c =
    let rest = translate_char from to c in if code c == code x then y else rest

unfoldable pub translate : String → String → String → String
unfolding translate_char
translate from to String.[] = String.[]
translate from to (String.◌∷◌ c s) = String.◌∷◌ (translate_char from to c) (translate from to s)

abbrev pub uppercase : String
uppercase = "ABCDEFGHIJKLMNOPQRSTUVWXYZ"

abbrev pub lowercase : String
lowercase = "abcdefghijklmnopqrstuvwxyz"

-- s.lower()
unfoldable pub lower : String → String
unfolding translate
lower s = translate uppercase lowercase s

-- s.upper()
unfoldable pub upper : String → String
unfolding translate
upper s = translate lowercase uppercase s

-- s.replace(c, r), for a text of the one character with the code `c`
unfoldable pub replace_char : ℕ → String → String → String
unfolding nat_eq
replace_char c r String.[] = String.[]
replace_char c r (String.◌∷◌ x s) =
    let rest = replace_char c r s in if code x == c then r <> rest else String.◌∷◌ x rest

-- white space, as `str.strip` sees it
unfoldable pub is_space : ℕ → Bool
unfolding nat_eq
is_space c = c == 32 || (leb 9 c && leb c 13) || (leb 28 c && leb c 31)

unfoldable pub lstrip_by : (ℕ → Bool) → String → String
lstrip_by p String.[] = String.[]
lstrip_by p (String.◌∷◌ c s) =
    let rest = lstrip_by p s in if p (code c) then rest else String.◌∷◌ c s

-- a character is kept if it fails the test or something after it is kept
keep_char : Bool → Char → String → String
keep_char true c String.[] = String.[]
keep_char true c (String.◌∷◌ d s) = String.◌∷◌ c (String.◌∷◌ d s)
keep_char false c s = String.◌∷◌ c s

unfoldable pub rstrip_by : (ℕ → Bool) → String → String
unfolding keep_char
rstrip_by p String.[] = String.[]
rstrip_by p (String.◌∷◌ c s) = keep_char (p (code c)) c (rstrip_by p s)

-- s.strip()
unfoldable pub strip : String → String
unfolding lstrip_by rstrip_by is_space
strip s = rstrip_by is_space (lstrip_by is_space s)

-- s.startswith(p)
unfoldable pub begins_with : String → String → Bool
unfolding nat_eq
begins_with s String.[] = true
begins_with String.[] (String.◌∷◌ x p) = false
begins_with (String.◌∷◌ c s) (String.◌∷◌ x p) = code c == code x && begins_with s p

-- p in s, for a part that is not empty
unfoldable pub includes : String → String → Bool
unfolding begins_with
includes part String.[] = false
includes part (String.◌∷◌ c s) = begins_with (String.◌∷◌ c s) part || includes part s

-- s.endswith(c), for a text of the one character with the code `c`
unfoldable pub ends_with_char : ℕ → String → Bool
unfolding nat_eq
ends_with_char c String.[] = false
ends_with_char c (String.◌∷◌ x String.[]) = code x == c
ends_with_char c (String.◌∷◌ x (String.◌∷◌ y s)) = ends_with_char c (String.◌∷◌ y s)

-- len(s)
unfoldable pub size : String → ℕ
size String.[] = 0
size (String.◌∷◌ c s) = suc (size s)

abbrev onto_first : Char → List String → List String
onto_first c [] = String.◌∷◌ c String.[] ∷ []
onto_first c (piece ∷ pieces) = String.◌∷◌ c piece ∷ pieces

-- The pieces of a text between the occurrences of `sep`; the number counts the characters of an
-- occurrence that are still to be passed over.
unfoldable pub split_from : String → ℕ → String → List String
unfolding begins_with size
split_from sep skip String.[] = "" ∷ []
split_from sep (suc skip) (String.◌∷◌ c s) = split_from sep skip s
split_from sep zero (String.◌∷◌ c s) =
    let hit = begins_with (String.◌∷◌ c s) sep in
    let rest = split_from sep (if hit then size sep - 1 else 0) s in
    if hit then "" ∷ rest else onto_first c rest

-- s.split(sep); an empty separator raises a ValueError
unfoldable pub split : String → String → Option (List String)
unfolding split_from
split s String.[] = none
split s (String.◌∷◌ x sep) = some (split_from (String.◌∷◌ x sep) 0 s)

-- the text before the first character with the code `c`, and the text behind it
unfoldable pub partition : ℕ → String → String × String
unfolding nat_eq
partition c String.[] = ("", "")
partition c (String.◌∷◌ x s) =
    let (before, after) = partition c s in
    if code x == c then ("", s) else (String.◌∷◌ x before, after)

-- sep.join(words)
unfoldable pub join : String → List String → String
join sep [] = ""
join sep (w ∷ []) = w
join sep (w ∷ v ∷ words) = w <> sep <> join sep (v ∷ words)

add_piece : String → List String → List String
add_piece String.[] later = later
add_piece (String.◌∷◌ c s) later = String.◌∷◌ c s ∷ later

-- the piece in front of the first white space, and the pieces behind it
pieces : String → String × List String
unfolding is_space add_piece
pieces String.[] = ("", [])
pieces (String.◌∷◌ c s) =
    let (piece, later) = pieces s in
    if is_space (code c) then ("", add_piece piece later) else (String.◌∷◌ c piece, later)

-- s.split()
unfoldable pub words : String → List String
unfolding pieces add_piece
words s = let (piece, later) = pieces s in add_piece piece later
