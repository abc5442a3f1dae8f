-- ===== src/Metadata/Document/Names.antt =====
-- What the long names in the metadata of lib/fencing.py.py are, and the order of names and of entries,
-- described without the functions of the code.
use Prim.Native.Char.{Char, code}
use Prim.Native.String.append
use text.Mathlib.TextEquality.{Char-path}
use fence_agents.Base.{
  String, ◌<>◌, ◌≡◌, ◌<◌, refl, sym, ap, ◌∙◌, subst, inl, inr, Bool, true, false, ◌&&◌, ◌⊎◌, arith,
  Bool-cases, ◌==◌, string_eq, nat_eq, if◌then◌else◌,
}
use fence_agents.Text.{replace_char}
use fence_agents.Options.Spec.{Spec}
use fence_agents.Metadata.Document.{long_name, text_leb, entry_leb}

-- The first text is the second one with an underscore for every dash, character by character.
abbrev pub is_underscored : String → String → Bool
is_underscored String.[] String.[] = true
is_underscored String.[] (String.◌∷◌ d t) = false
is_underscored (String.◌∷◌ c s) String.[] = false
is_underscored (String.◌∷◌ c s) (String.◌∷◌ d t) =
    let rest = is_underscored s t in
    (if code d == b'-' then code c == b'_' else code c == code d) && rest

underscore_front : (t : String) → "_" <> t ≡ String.◌∷◌ (Char.char b'_' tt) t
underscore_front t =
    append.cons (Char.char b'_' tt) String.[] t ∙ ap (String.◌∷◌ (Char.char b'_' tt)) (append.nil t)

replaced_dash : (c : Char) {s t : String} → code c ≡ b'_' → s ≡ t → String.◌∷◌ c s ≡ "_" <> t
replaced_dash c {s} {t} h e =
    (λ i. String.◌∷◌ (Char-path c (Char.char b'_' tt) h i) (e i)) ∙ sym (underscore_front t)

is_underscored-replace : (s t : String) → is_underscored s t ≡ true → s ≡ replace_char b'-' "_" t
unfolding replace_char
is_underscored-replace String.[] String.[] h = refl
is_underscored-replace String.[] (String.◌∷◌ d t) h = absurd (cc h)
is_underscored-replace (String.◌∷◌ c s) String.[] h = absurd (cc h)
is_underscored-replace (String.◌∷◌ c s) (String.◌∷◌ d t) h = elim (Bool-cases (code d == b'-')) [
  | inl dash ↦ rw dash (
      replaced_dash c (ground (arith, dash, h))
        (is_underscored-replace s t (ground (arith, dash, h))))
  | inr other ↦ rw other λ i.
      String.◌∷◌ (Char-path c d (ground (arith, other, h)) i)
        (is_underscored-replace s t (ground (arith, other, h)) i)
]

dash_front :
    (d : Char) (s t : String)
    → (code d == b'-') ≡ true
    → is_underscored s t ≡ true
    → is_underscored (String.◌∷◌ (Char.char b'_' tt) s) (String.◌∷◌ d t) ≡ true
unfolding nat_eq
dash_front d s t dash h = rw dash h

replace-is_underscored : (t : String) → is_underscored (replace_char b'-' "_" t) t ≡ true
unfolding replace_char nat_eq
replace-is_underscored String.[] = refl
replace-is_underscored (String.◌∷◌ d t) = elim (Bool-cases (code d == b'-')) [
  | inl dash ↦ rw dash (
      ap (λ s. is_underscored s (String.◌∷◌ d t)) (underscore_front (replace_char b'-' "_" t))
      ∙ dash_front d (replace_char b'-' "_" t) t dash (replace-is_underscored t))
  | inr other ↦ rw other (ground (arith, replace-is_underscored t))
]

-- The test of the code for the long name.
pub long_name-is_underscored :
    (name longopt : String) → (name == long_name longopt) ≡ is_underscored name longopt
unfolding long_name
long_name-is_underscored name longopt = elim (Bool-cases (is_underscored name longopt)) [
  | inl same ↦ ground (arith, same, is_underscored-replace name longopt same)
  | inr differ ↦ elim (Bool-cases (name == replace_char b'-' "_" longopt)) [
    | inl found ↦ absurd (apart found differ)
    | inr other ↦ other ∙ sym differ
  ]
]
  where
    apart : (name == replace_char b'-' "_" longopt) ≡ true → is_underscored name longopt ≡ false → ⊥
    apart found differ =
        let same : name ≡ replace_char b'-' "_" longopt = ground (arith, found) in
        cc (
          subst (λ s. is_underscored s longopt ≡ true) (sym same) (replace-is_underscored longopt),
          differ,
        )

-- The first text is the beginning of the second one, or its character is the smaller one where they differ
-- for the first time.
pub data IsUpTo : String → String → Type 0 where
  beginning : {t : String} → IsUpTo String.[] t
  same_front :
      {c d : Char} {s t : String}
      → code c ≡ code d
      → IsUpTo s t
      → IsUpTo (String.◌∷◌ c s) (String.◌∷◌ d t)
  smaller : {c d : Char} {s t : String} → code c < code d → IsUpTo (String.◌∷◌ c s) (String.◌∷◌ d t)

-- A smaller number in the order, or the same one and not a greater name.
abbrev pub IsBefore : String × Spec → String × Spec → Type 0
IsBefore (name, spec) (other, next) =
    (spec.order < next.order) ⊎ ((spec.order ≡ next.order) × IsUpTo name other)

text_leb-IsUpTo : (s t : String) → text_leb s t ≡ true → IsUpTo s t
unfolding text_leb
text_leb-IsUpTo String.[] t h = beginning
text_leb-IsUpTo (String.◌∷◌ c s) String.[] h = absurd (cc h)
text_leb-IsUpTo (String.◌∷◌ c s) (String.◌∷◌ d t) h = elim (Bool-cases (code c == code d)) [
  | inl same ↦ same_front (ground (arith, same)) (text_leb-IsUpTo s t (ground (arith, same, h)))
  | inr apart ↦ smaller (ground (arith, apart, h))
]

pub entry_leb-IsBefore : (x y : String × Spec) → entry_leb x y ≡ true → IsBefore x y
unfolding entry_leb
entry_leb-IsBefore (name, spec) (other, next) h = elim (Bool-cases (spec.order == next.order)) [
  | inl same ↦ inr (ground (arith, same), text_leb-IsUpTo name other (ground (arith, same, h)))
  | inr apart ↦ inl (ground (arith, apart, h))
]
