-- ===== src/Text/Number.antt =====
-- Python's `int(text, base)` for the bases 10 and 16.
use Prim.Native.Nat.{suc, zero}
use Prim.Native.String.{slice}
use Prim.Native.Char.{code}
use fence_agents.Base.{
  ℕ, ◌+◌, ◌-◌, ◌*◌, ◌/◌, ◌%◌, String, ◌<>◌, Bool, true, false, ◌&&◌, ◌||◌, Option, none, some, leb,
  ltb, ◌==◌, nat_eq, if◌then◌else◌,
}
use fence_agents.Base.Int.{ℤ, pos, negsuc}
use fence_agents.Text.{strip}

digit : ℕ → Option ℕ
digit c =
    if leb b'0' c && leb c b'9'
    then some (c - 48)
    else if leb b'a' c && leb c b'z'
    then some (c - 87)
    else if leb b'A' c && leb c b'Z'
    then some (c - 55)
    else none

-- The digits with single underscores between them. The first flag says whether an underscore may
-- stand here, the second whether the number may end here.
digits : ℕ → ℕ → Bool → Bool → String → Option ℕ
unfolding digit nat_eq
digits base acc gap end String.[] = if end then some acc else none
digits base acc gap end (String.◌∷◌ c s) =
    let skipped = digits base acc false false s in
    if code c == b'_' then (if gap then skipped else none) else elim (digit (code c)) [
      | none ↦ none
      | some d ↦
          let rest = digits base (acc * base + d) true true s in if ltb d base then rest else none
    ]

-- base 16 allows the prefix `0x`
prefixed : ℕ → String → Option ℕ
unfolding digits
prefixed base (String.◌∷◌ z (String.◌∷◌ x s)) =
    if base == 16 && code z == b'0' && (code x == b'x' || code x == b'X')
    then digits base 0 true false s
    else digits base 0 false false (String.◌∷◌ z (String.◌∷◌ x s))
prefixed base s = digits base 0 false false s

negate : ℕ → ℤ
negate zero = pos 0
negate (suc n) = negsuc n

signed : ℕ → String → Option ℤ
unfolding prefixed negate
signed base String.[] = none
signed base (String.◌∷◌ c s) =
    if code c == b'-'
    then elim (prefixed base s) [ none ↦ none | some n ↦ some (negate n) ]
    else if code c == b'+'
    then elim (prefixed base s) [ none ↦ none | some n ↦ some (pos n) ]
    else elim (prefixed base (String.◌∷◌ c s)) [ none ↦ none | some n ↦ some (pos n) ]

-- int(s, base); `none` is a ValueError
unfoldable pub int_of_text : ℕ → String → Option ℤ
unfolding signed strip
int_of_text base s = signed base (strip s)

-- the decimal digits of `n` before `rest`; as many rounds as `n` has digits are enough
decimal : ℕ → ℕ → String → String
decimal zero n rest = rest
decimal (suc fuel) n rest =
    let shown = slice "0123456789" (n % 10) (n % 10 + 1) <> rest in
    let more = decimal fuel (n / 10) shown in if ltb n 10 then shown else more

-- str(n)
unfoldable pub text_of_int : ℤ → String
unfolding decimal
text_of_int (pos n) = decimal (n + 1) n ""
text_of_int (negsuc n) = "-" <> decimal (n + 2) (n + 1) ""
