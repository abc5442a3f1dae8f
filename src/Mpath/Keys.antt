-- ===== src/Mpath/Keys.antt =====
-- The regular expressions of agents/mpath/fence_mpath.py, and the lines of its file of devices.
use Prim.Native.Char.{code}
use fence_agents.Base.{
  String, Bool, true, false, ◌&&◌, ◌||◌, Option, none, some, List, [], ◌∷◌, ◌==◌, string_eq, nat_eq,
  if◌then◌else◌,
}
use fence_agents.Dict
use fence_agents.Dict.{Dict}
use fence_agents.Text.{begins_with, is_space, lower, size, strip, lstrip_by, words}
use fence_agents.Scsi.Keys.{token, drop}

-- What is behind "key", an equals sign with white space on both sides, and "0x", in any case of the
-- letters.
behind_key : String → Option String
unfolding begins_with lower drop lstrip_by is_space
behind_key s =
    let after = lstrip_by is_space (drop 3 s) in
    let value = lstrip_by is_space (drop 1 after) in
    if begins_with (lower s) "key" && begins_with after "=" && begins_with (lower value) "0x"
    then some (drop 2 value)
    else none

-- a piece that is not empty, if white space is behind it
piece_of : Option String → Option String
unfolding token
piece_of none = none
piece_of (some s) =
    let (piece, rest) = token s in if piece == "" || rest == "" then none else some piece

-- re.search(r"\s+key\s*=\s*0x(\S+)\s+", out, re.IGNORECASE); the flag says that white space is in front
unfoldable pub search_reservation : Bool → String → Option String
unfolding behind_key piece_of is_space
search_reservation spaced String.[] = none
search_reservation spaced (String.◌∷◌ c s) =
    let later = search_reservation (is_space (code c)) s in
    if spaced
    then elim (piece_of (behind_key (String.◌∷◌ c s))) [ none ↦ later | some key ↦ some key ]
    else later

unfoldable pub reservation_key : String → Option String
unfolding search_reservation
reservation_key out = search_reservation false out

-- the end of the text or of a line
ends_line : String → Bool
unfolding nat_eq
ends_line String.[] = true
ends_line (String.◌∷◌ c s) = code c == b'\n'

-- White space, the key and the end of a line; the flag says that white space is in front.
spaces_then : String → Bool → String → Bool
unfolding begins_with drop size is_space ends_line
spaces_then key spaced String.[] = spaced && size key == 0
spaces_then key spaced (String.◌∷◌ c s) =
    let later = spaces_then key true s in
    (spaced && begins_with (String.◌∷◌ c s) key && ends_line (drop (size key) (String.◌∷◌ c s)))
    || (is_space (code c) && later)

-- re.search(r"^{}\s+{}$".format(dev, key), out, flags=re.MULTILINE), for a name and a key that stand
-- for themselves; the flag says that a line begins here
unfoldable pub has_entry : String → String → Bool → String → Bool
unfolding begins_with drop size spaces_then nat_eq
has_entry dev key start String.[] = false
has_entry dev key start (String.◌∷◌ c s) =
    let later = has_entry dev key (code c == b'\n') s in
    (start
      && begins_with (String.◌∷◌ c s) dev
      && spaces_then key false (drop (size dev) (String.◌∷◌ c s)))
    || later

add_entry : List String → Dict String → Option (Dict String)
unfolding Dict.put
add_entry (device ∷ key ∷ []) dev_key = some (Dict.put dev_key device key)
add_entry names dev_key = none

-- The devices and keys of the lines that are not empty.
unfoldable pub entries_of : List String → Dict String → Option (Dict String)
unfolding strip words add_entry
entries_of [] dev_key = some dev_key
entries_of (line ∷ lines) dev_key =
    if strip line == ""
    then entries_of lines dev_key
    else elim (add_entry (words line) dev_key) [ none ↦ none | some added ↦ entries_of lines added ]
