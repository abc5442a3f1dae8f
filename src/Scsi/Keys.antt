-- ===== src/Scsi/Keys.antt =====
-- The regular expressions with which agents/scsi/fence_scsi.py reads the output of sg_persist.
use Prim.Native.Nat.{suc, zero}
use Prim.Native.Char.{code}
use fence_agents.Base.{
  ℕ, String, Bool, false, not, ◌&&◌, Option, none, some, List, [], ◌∷◌, ◌==◌, string_eq,
  if◌then◌else◌,
}
use fence_agents.Text.{begins_with, is_space, lower, split_from}

-- the longest piece in front that has no white space, and the rest
unfoldable pub token : String → String × String
unfolding is_space
token String.[] = ("", "")
token (String.◌∷◌ c s) =
    let (piece, rest) = token s in
    if is_space (code c) then ("", String.◌∷◌ c s) else (String.◌∷◌ c piece, rest)

unfoldable pub drop : ℕ → String → String
drop zero s = s
drop (suc n) String.[] = ""
drop (suc n) (String.◌∷◌ c s) = drop n s

-- re.search(r"\s+key=0x(\S+)\s+", out, re.IGNORECASE); the flag says that white space is in front
unfoldable pub search_reservation : Bool → String → Option String
unfolding token drop begins_with lower is_space
search_reservation spaced String.[] = none
search_reservation spaced (String.◌∷◌ c s) =
    let later = search_reservation (is_space (code c)) s in
    let found = token (drop 6 (String.◌∷◌ c s)) in
    if spaced
      && begins_with (lower (String.◌∷◌ c s)) "key=0x"
      && not (found.0 == "")
      && not (found.1 == "")
    then some found.0
    else later

unfoldable pub reservation_key : String → Option String
unfolding search_reservation
reservation_key out = search_reservation false out

-- re.search(r"\s+0x(\S+)\s*", line)
unfoldable pub search_key : Bool → String → Option String
unfolding token drop begins_with is_space
search_key spaced String.[] = none
search_key spaced (String.◌∷◌ c s) =
    let later = search_key (is_space (code c)) s in
    let found = token (drop 2 (String.◌∷◌ c s)) in
    if spaced && begins_with (String.◌∷◌ c s) "0x" && not (found.0 == "")
    then some found.0
    else later

keys_of : List String → List String
unfolding search_key
keys_of [] = []
keys_of (line ∷ lines) =
    let rest = keys_of lines in elim (search_key false line) [ none ↦ rest | some key ↦ key ∷ rest ]

-- the key of every line that has one
unfoldable pub registration_keys : String → List String
unfolding keys_of split_from
registration_keys out = keys_of (split_from "\n" 0 out)
