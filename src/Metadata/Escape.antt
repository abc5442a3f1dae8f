-- ===== src/Metadata/Escape.antt =====
-- `_encode_html_entities` replaces character by character, and can be undone.
use Prim.Native.Nat.{suc, zero}
use Prim.Native.Char.{Char, code}
use Prim.Native.String.append
use text.Mathlib.TextLemmas.{append-nil, append_assoc}
use fence_agents.Base.{
  ℕ, String, ◌<>◌, ◌≡◌, refl, sym, ap, ◌∙◌, true, false, List, [], ◌∷◌, Bool-cases, inl, inr, ◌==◌,
  ==_iff, nat_eq, if◌then◌else◌,
}
use fence_agents.Text.{replace_char, begins_with}
use fence_agents.Metadata.{encode_html_entities}

-- the text of one character
abbrev single : Char → String
single c = String.◌∷◌ c String.[]

-- the entity of a character that has one, the character itself otherwise
abbrev pub entity : Char → String
entity c =
    if code c == b'&'
    then "&amp;"
    else if code c == b'"'
    then "&quot;"
    else if code c == b'<'
    then "&lt;"
    else if code c == b'>'
    then "&gt;"
    else if code c == b'\''
    then "&apos;"
    else single c

-- every character by its entity
abbrev pub escape : String → String
escape String.[] = ""
escape (String.◌∷◌ c s) = entity c <> escape s

module _ (c : ℕ) (r : String) where
  replace_char-append :
      (s t : String) → replace_char c r (s <> t) ≡ replace_char c r s <> replace_char c r t
  unfolding replace_char
  replace_char-append String.[] t =
      ap (replace_char c r) (append.nil t) ∙ sym (append.nil (replace_char c r t))
  replace_char-append (String.◌∷◌ x s) t =
      ap (replace_char c r) (append.cons x s t) ∙ elim (Bool-cases (code x == c)) [
        | inl hit ↦ rw hit (
            ap (λ u. r <> u) (replace_char-append s t)
            ∙ sym (append_assoc r (replace_char c r s) (replace_char c r t)))
        | inr miss ↦ rw miss (
            ap (String.◌∷◌ x) (replace_char-append s t)
            ∙ sym (append.cons x (replace_char c r s) (replace_char c r t)))
      ]

-- the replacements of all but the first character
abbrev after_amp : String → String
after_amp u =
    replace_char b'\'' "&apos;"
      (replace_char b'>' "&gt;" (replace_char b'<' "&lt;" (replace_char b'"' "&quot;" u)))

after_amp-append : (s t : String) → after_amp (s <> t) ≡ after_amp s <> after_amp t
after_amp-append s t =
    ap (λ u. replace_char b'\'' "&apos;" (replace_char b'>' "&gt;" (replace_char b'<' "&lt;" u)))
      (replace_char-append b'"' "&quot;" s t)
    ∙ ap (λ u. replace_char b'\'' "&apos;" (replace_char b'>' "&gt;" u))
        (replace_char-append b'<' "&lt;" s2 t2)
    ∙ ap (λ u. replace_char b'\'' "&apos;" u)
        (replace_char-append b'>' "&gt;" (replace_char b'<' "&lt;" s2)
          (replace_char b'<' "&lt;" t2))
    ∙ replace_char-append b'\'' "&apos;" (replace_char b'>' "&gt;" (replace_char b'<' "&lt;" s2))
        (replace_char b'>' "&gt;" (replace_char b'<' "&lt;" t2))
  where
    s2 : String
    s2 = replace_char b'"' "&quot;" s

    t2 : String
    t2 = replace_char b'"' "&quot;" t

module _ (c : ℕ) (r : String) (x : Char) where
  replace_hit : (code x == c) ≡ true → replace_char c r (single x) ≡ r
  unfolding replace_char
  replace_hit h = rw h (append-nil r)

  replace_miss : (code x == c) ≡ false → replace_char c r (single x) ≡ single x
  unfolding replace_char
  replace_miss h = rw h refl

encode-single : (x : Char) → encode_html_entities (single x) ≡ entity x
unfolding encode_html_entities nat_eq
encode-single x = elim (Bool-cases (code x == b'&')) [
  | inl h ↦ ap after_amp (replace_hit b'&' "&amp;" x h) ∙ rw h refl
  | inr a ↦ ap after_amp (replace_miss b'&' "&amp;" x a) ∙ elim (Bool-cases (code x == b'"')) [
    | inl h ↦
        ap
          (λ u. replace_char b'\'' "&apos;" (replace_char b'>' "&gt;" (replace_char b'<' "&lt;" u)))
          (replace_hit b'"' "&quot;" x h)
        ∙ rw (a, h) refl
    | inr b ↦
        ap
          (λ u. replace_char b'\'' "&apos;" (replace_char b'>' "&gt;" (replace_char b'<' "&lt;" u)))
          (replace_miss b'"' "&quot;" x b)
        ∙ elim (Bool-cases (code x == b'<')) [
          | inl h ↦
              ap (λ u. replace_char b'\'' "&apos;" (replace_char b'>' "&gt;" u))
                (replace_hit b'<' "&lt;" x h)
              ∙ rw (a, b, h) refl
          | inr d ↦
              ap (λ u. replace_char b'\'' "&apos;" (replace_char b'>' "&gt;" u))
                (replace_miss b'<' "&lt;" x d)
              ∙ elim (Bool-cases (code x == b'>')) [
                | inl h ↦
                    ap (replace_char b'\'' "&apos;") (replace_hit b'>' "&gt;" x h)
                    ∙ rw (a, b, d, h) refl
                | inr e ↦
                    ap (replace_char b'\'' "&apos;") (replace_miss b'>' "&gt;" x e)
                    ∙ elim (Bool-cases (code x == b'\'')) [
                      | inl h ↦ replace_hit b'\'' "&apos;" x h ∙ rw (a, b, d, e, h) refl
                      | inr f ↦ replace_miss b'\'' "&apos;" x f ∙ rw (a, b, d, e, f) refl
                    ]
              ]
        ]
  ]
]

encode-append :
    (s t : String)
    → encode_html_entities (s <> t) ≡ encode_html_entities s <> encode_html_entities t
unfolding encode_html_entities
encode-append s t =
    ap after_amp (replace_char-append b'&' "&amp;" s t)
    ∙ after_amp-append (replace_char b'&' "&amp;" s) (replace_char b'&' "&amp;" t)

cons-single : (x : Char) (s : String) → String.◌∷◌ x s ≡ single x <> s
cons-single x s = sym (append.cons x String.[] s ∙ ap (String.◌∷◌ x) (append.nil s))

encode-escape : (s : String) → encode_html_entities s ≡ escape s
encode-escape String.[] = unfold encode_html_entities replace_char in refl
encode-escape (String.◌∷◌ x s) =
    ap encode_html_entities (cons-single x s)
    ∙ encode-append (single x) s
    ∙ ap (λ u. u <> encode_html_entities s) (encode-single x)
    ∙ ap (λ u. entity x <> u) (encode-escape s)

-- The code of the character that a text begins with, an entity read as what it stands for, and how
-- many more characters belong to it.
abbrev read_entity : ℕ → String → ℕ × ℕ
read_entity c text =
    if begins_with text "&amp;"
    then (b'&', 4)
    else if begins_with text "&quot;"
    then (b'"', 5)
    else if begins_with text "&lt;"
    then (b'<', 3)
    else if begins_with text "&gt;"
    then (b'>', 3)
    else if begins_with text "&apos;"
    then (b'\'', 5)
    else (c, 0)

-- The codes of the characters that an XML text stands for; the number counts the characters that
-- are still to be passed over.
abbrev pub decode : ℕ → String → List ℕ
decode skip String.[] = []
decode (suc skip) (String.◌∷◌ c s) = decode skip s
decode zero (String.◌∷◌ c s) =
    let found = read_entity (code c) (String.◌∷◌ c s) in
    let rest = decode found.1 s in found.0 ∷ rest

abbrev pub codes : String → List ℕ
codes String.[] = []
codes (String.◌∷◌ c s) = code c ∷ codes s

-- `◌<>◌` by clauses
abbrev onto : String → String → String
onto String.[] t = t
onto (String.◌∷◌ c s) t = String.◌∷◌ c (onto s t)

append-onto : (s t : String) → s <> t ≡ onto s t
append-onto String.[] t = append.nil t
append-onto (String.◌∷◌ c s) t = append.cons c s t ∙ ap (String.◌∷◌ c) (append-onto s t)

same_code : (c n : ℕ) (s : String) → (c == n) ≡ true → n ∷ decode 0 s ≡ c ∷ decode 0 s
same_code c n s h = ap (λ k. k ∷ decode 0 s) (sym ((==_iff c n).0 h))

decode-plain :
    (c : Char) (s : String)
    → (code c == b'&') ≡ false
    → decode 0 (String.◌∷◌ c s) ≡ code c ∷ decode 0 s
unfolding begins_with
decode-plain c s h = rw h refl

decode-entity : (c : Char) (s : String) → decode 0 (onto (entity c) s) ≡ code c ∷ decode 0 s
unfolding begins_with nat_eq
decode-entity c s = elim (Bool-cases (code c == b'&')) [
  | inl h ↦ rw h (same_code (code c) b'&' s h)
  | inr a ↦ elim (Bool-cases (code c == b'"')) [
    | inl h ↦ rw (a, h) (same_code (code c) b'"' s h)
    | inr b ↦ elim (Bool-cases (code c == b'<')) [
      | inl h ↦ rw (a, b, h) (same_code (code c) b'<' s h)
      | inr d ↦ elim (Bool-cases (code c == b'>')) [
        | inl h ↦ rw (a, b, d, h) (same_code (code c) b'>' s h)
        | inr e ↦ elim (Bool-cases (code c == b'\'')) [
          | inl h ↦ rw (a, b, d, e, h) (same_code (code c) b'\'' s h)
          | inr f ↦ rw (a, b, d, e, f) (decode-plain c s a)
        ]
      ]
    ]
  ]
]

-- Decoding what was encoded gives the text back, character by character.
pub decode-encode_html_entities :
    (text : String) → decode 0 (encode_html_entities text) ≡ codes text
decode-encode_html_entities text = ap (decode 0) (encode-escape text) ∙ decode-escape text
  where
    decode-escape : (s : String) → decode 0 (escape s) ≡ codes s
    decode-escape String.[] = refl
    decode-escape (String.◌∷◌ c s) =
        ap (decode 0) (append-onto (entity c) (escape s))
        ∙ decode-entity c (escape s)
        ∙ ap (λ l. code c ∷ l) (decode-escape s)
