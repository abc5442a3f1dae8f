-- ===== src/Scsi/Key/Output.antt =====
-- How agents/scsi/fence_scsi.py reads the output of corosync-cmapctl and vgs, and the formats of the key.
-- The name of a node stands for itself where the code uses it as a regular expression.
use Prim.Native.Nat.{suc, zero}
use Prim.Native.Char.{code}
use fence_agents.Base.{
  ℕ, ◌-◌, String, ◌<>◌, Bool, false, not, ◌&&◌, ◌||◌, Option, none, some, List, [], ◌∷◌, leb, ◌==◌,
  string_eq, nat_eq, if◌then◌else◌,
}
use fence_agents.Base.Int.{ℤ, pos, negsuc}
use fence_agents.Text.{begins_with, split_from, size}
use fence_agents.Text.Number.{text_of_int}
use fence_agents.Scsi.Keys.{token, drop}

-- re.search(r"\(str\) = (\S+)\n", out)
unfoldable pub cluster_name : String → Option String
unfolding begins_with token drop
cluster_name String.[] = none
cluster_name (String.◌∷◌ c s) =
    let later = cluster_name s in
    let (name, rest) = token (drop 8 (String.◌∷◌ c s)) in
    if begins_with (String.◌∷◌ c s) "(str) = " && not (name == "") && begins_with rest "\n"
    then some name
    else later

-- a character that is no newline, and what is behind it
any_char : String → Option String
unfolding nat_eq
any_char String.[] = none
any_char (String.◌∷◌ c s) = if code c == b'\n' then none else some s

-- r".name \(str\) = plug\n", and the old format r".ring._addr \(str\) = plug\n"
ends_new : String → String → Bool
unfolding any_char begins_with
ends_new plug s = elim (any_char s) [
  | none ↦ false
  | some rest ↦ begins_with rest ("name (str) = " <> plug <> "\n")
]

ends_old : String → String → Bool
unfolding any_char begins_with drop
ends_old plug s = elim (any_char s) [
  | none ↦ false
  | some rest ↦ begins_with rest "ring" && elim (any_char (drop 4 rest)) [
    | none ↦ false
    | some behind ↦ begins_with behind ("_addr (str) = " <> plug <> "\n")
  ]
]

-- as many digits as there can be in front of such an end
digits_before : (String → Bool) → String → Option String
digits_before ends String.[] = none
digits_before ends (String.◌∷◌ c s) =
    let more = digits_before ends s in
    if leb b'0' (code c) && leb (code c) b'9'
    then elim more [
      | some digits ↦ some (String.◌∷◌ c digits)
      | none ↦ if ends s then some (String.◌∷◌ c "") else none
    ]
    else none

search_id : (String → Bool) → String → Option String
unfolding digits_before nat_eq
search_id ends String.[] = none
search_id ends (String.◌∷◌ c s) =
    let later = search_id ends s in
    elim (if code c == b'\n' then none else digits_before ends s) [
      | none ↦ later
      | some id ↦ some id
    ]

unfoldable pub node_id : String → String → Option String
unfolding search_id ends_new ends_old
node_id plug out = elim (search_id (ends_new plug) out) [
  | some id ↦ some id
  | none ↦ search_id (ends_old plug) out
]

-- "%.4s" for n = 4
unfoldable pub take : ℕ → String → String
take zero s = ""
take (suc n) String.[] = ""
take (suc n) (String.◌∷◌ c s) = String.◌∷◌ c (take n s)

zeros : ℕ → String
zeros zero = ""
zeros (suc n) = "0" <> zeros n

-- "%.4d" for n = 4: at least that many digits
unfoldable pub pad : ℕ → ℤ → String
unfolding zeros size text_of_int drop
pad n (pos i) = zeros (n - size (text_of_int (pos i))) <> text_of_int (pos i)
pad n (negsuc i) =
    "-" <> zeros (n - (size (text_of_int (negsuc i)) - 1)) <> drop 1 (text_of_int (negsuc i))

drop_empty : List String → List String
drop_empty [] = []
drop_empty (piece ∷ []) = if piece == "" then [] else piece ∷ []
drop_empty (piece ∷ next ∷ pieces) = piece ∷ drop_empty (next ∷ pieces)

-- out.splitlines(), for lines that end by a newline
unfoldable pub lines_of : String → List String
unfolding drop_empty split_from nat_eq
lines_of out = drop_empty (split_from "\n" 0 out)

-- vg_attr[5] in "cs"; `none` is an IndexError
unfoldable pub is_shared : String → Option Bool
unfolding drop begins_with
is_shared vg_attr =
    if drop 5 vg_attr == ""
    then none
    else some (begins_with (drop 5 vg_attr) "c" || begins_with (drop 5 vg_attr) "s")
