-- ===== src/Watchdog/Settings.antt =====
-- The settings that the watchdog checks of agents/scsi/fence_scsi.py and agents/mpath/fence_mpath.py
-- read from /etc/sysconfig/stonith.
use Prim.Native.Nat.{suc, zero}
use Prim.Native.Char.{code}
use fence_agents.Base.{
  ℕ, ◌-◌, String, ◌<>◌, Bool, true, false, Option, none, some, List, [], ◌∷◌, ◌==◌, nat_eq,
  if◌then◌else◌,
}
use fence_agents.Text.{begins_with, is_space, lstrip_by, size}
use fence_agents.Scsi.Keys.{token, drop}

-- What is before and behind the last equals sign.
split_last : String → Option (String × String)
unfolding nat_eq
split_last String.[] = none
split_last (String.◌∷◌ c s) = elim (split_last s) [
  | some (before, behind) ↦ some (String.◌∷◌ c before, behind)
  | none ↦ if code c == b'=' then some ("", s) else none
]

-- The name, and what is behind the equals sign. The name is as long as it can be: an equals sign behind
-- the piece comes first, then the last one in it.
name_at : String → Option (String × String)
unfolding token begins_with lstrip_by is_space drop split_last
name_at s =
    let (piece, rest) = token (lstrip_by is_space s) in
    let behind = lstrip_by is_space rest in
    if begins_with behind "="
    then some (piece, drop 1 behind)
    else elim (split_last piece) [ none ↦ none | some (name, value) ↦ some (name, value <> rest) ]

-- r"^\s*(\S*)\s*=\s*(\S*)\s*" at the beginning of the text: the name, the value, and the text behind
setting_at : String → Option (String × String × String)
unfolding name_at token lstrip_by is_space
setting_at s = elim (name_at s) [
  | none ↦ none
  | some (name, behind) ↦
      let (value, rest) = token (lstrip_by is_space behind) in
      some (name, value, lstrip_by is_space rest)
]

setting_from : Bool → String → Option (String × String × String)
unfolding setting_at
setting_from true s = setting_at s
setting_from false s = none

-- The findall with re.MULTILINE; the number counts the characters of a match that are still to be passed
-- over, and the flag says that a line begins here.
unfoldable pub settings_from : ℕ → Bool → String → List (String × String)
unfolding setting_from size nat_eq
settings_from skip start String.[] = []
settings_from (suc skip) start (String.◌∷◌ c s) = settings_from skip (code c == b'\n') s
settings_from zero start (String.◌∷◌ c s) =
    let found = setting_from start (String.◌∷◌ c s) in
    let rest =
      settings_from
        (elim found [
          | none ↦ 0
          | some (name, value, behind) ↦ size (String.◌∷◌ c s) - size behind - 1
        ])
        (code c == b'\n') s in
    elim found [ none ↦ rest | some (name, value, behind) ↦ (name, value) ∷ rest ]

unfoldable pub settings : String → List (String × String)
unfolding settings_from
settings content = settings_from 0 true content
