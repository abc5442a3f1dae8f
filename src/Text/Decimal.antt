-- ===== src/Text/Decimal.antt =====
-- `float` on the texts of digits with a decimal point or without: the value is exact, where Python takes
-- the nearest float. Exponents, "inf" and "nan" are not read.
use Prim.Native.Char.{code}
use fence_agents.Base.{
  ℕ, ◌+◌, ◌-◌, ◌*◌, String, ◌<>◌, ◌&&◌, Option, none, some, leb, ◌==◌, string_eq, nat_eq,
  if◌then◌else◌,
}
use fence_agents.Text.{strip, partition, size}

-- A number of digits behind the decimal point, and the digits as one number.
pub record Decimal : Type 0 where
  pub places : ℕ
  pub digits : ℕ

digits_onto : ℕ → String → Option ℕ
digits_onto n String.[] = some n
digits_onto n (String.◌∷◌ c s) =
    let rest = digits_onto (10 * n + (code c - b'0')) s in
    if leb b'0' (code c) && leb (code c) b'9' then rest else none

unsigned : String → Option Decimal
unfolding digits_onto partition size nat_eq
unsigned t =
    let (whole, fraction) = partition b'.' t in
    if size (whole <> fraction) == 0 then none else elim (digits_onto 0 (whole <> fraction)) [
      | none ↦ none
      | some n ↦ some (record { places = size fraction; digits = n })
    ]

-- A negative number is `some none`.
signed : String → Option (Option Decimal)
unfolding unsigned nat_eq
signed String.[] = none
signed (String.◌∷◌ c s) =
    if code c == b'-'
    then elim (unsigned s) [ none ↦ none | some d ↦ some (if d.digits == 0 then some d else none) ]
    else if code c == b'+'
    then elim (unsigned s) [ none ↦ none | some d ↦ some (some d) ]
    else elim (unsigned (String.◌∷◌ c s)) [ none ↦ none | some d ↦ some (some d) ]

unfoldable pub decimal_of_text : String → Option (Option Decimal)
unfolding signed strip
decimal_of_text t = signed (strip t)
