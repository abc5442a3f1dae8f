-- ===== src/Snmp/Quote.antt =====
-- `quote_for_run` of lib/fencing_snmp.py.py, and the text that is read from what it gives.
use Prim.Native.Char.{Char, code}
use Prim.Native.String.append
use text.Mathlib.TextEquality.{Char-path}
use fence_agents.Base.{
  String, ◌<>◌, ◌≡◌, refl, sym, ap, ◌∙◌, true, Option, none, some, Bool-cases, inl, inr, ==_iff,
  ◌==◌, nat_eq, if◌then◌else◌,
}
use fence_agents.Text.{replace_char}

-- string.replace(r"'", "'\\''")
unfoldable pub quote_for_run : String → String
unfolding replace_char
quote_for_run string = replace_char b'\'' "'\\''" string

abbrev pub onto : Char → Option String → Option String
onto c none = none
onto c (some word) = some (String.◌∷◌ c word)

-- How a command line is read: what stands between single quotes is taken as it is, and outside of them a
-- backslash makes the next character stand for itself. A quote or a backslash without an end gives nothing.
pub data Mode : Type 0 where
  bare inside escaped : Mode

abbrev pub read_word : Mode → String → Option String
read_word bare String.[] = some ""
read_word inside String.[] = none
read_word escaped String.[] = none
read_word escaped (String.◌∷◌ c s) = onto c (read_word bare s)
read_word inside (String.◌∷◌ c s) =
    let later = read_word inside s in
    let outside = read_word bare s in if code c == b'\'' then outside else onto c later
read_word bare (String.◌∷◌ c s) =
    let later = read_word bare s in
    let quoted = read_word inside s in
    let next = read_word escaped s in
    if code c == b'\'' then quoted else if code c == b'\\' then next else onto c later

append-four :
    (a b c d : Char) (r t : String)
    → (String.◌∷◌ a (String.◌∷◌ b (String.◌∷◌ c (String.◌∷◌ d String.[]))) <> r) <> t
      ≡ String.◌∷◌ a (String.◌∷◌ b (String.◌∷◌ c (String.◌∷◌ d (r <> t))))
append-four a b c d r t =
    ap (λ s. s <> t)
      (append.cons a (String.◌∷◌ b (String.◌∷◌ c (String.◌∷◌ d String.[]))) r
        ∙ ap (String.◌∷◌ a) (
            append.cons b (String.◌∷◌ c (String.◌∷◌ d String.[])) r
            ∙ ap (String.◌∷◌ b) (
                append.cons c (String.◌∷◌ d String.[]) r
                ∙ ap (String.◌∷◌ c)
                    (append.cons d String.[] r ∙ ap (String.◌∷◌ d) (append.nil r)))))
    ∙ append.cons a (String.◌∷◌ b (String.◌∷◌ c (String.◌∷◌ d r))) t
    ∙ ap (String.◌∷◌ a) (
        append.cons b (String.◌∷◌ c (String.◌∷◌ d r)) t
        ∙ ap (String.◌∷◌ b)
            (append.cons c (String.◌∷◌ d r) t ∙ ap (String.◌∷◌ c) (append.cons d r t)))

abbrev mark : String
mark = "'"

head_of : String → Char → Char
head_of String.[] c = c
head_of (String.◌∷◌ d s) c = d

-- the quote itself
abbrev quote : Char → Char
quote c = head_of mark c

read_quoted : (string : String) → read_word inside (quote_for_run string <> "'") ≡ some string
unfolding quote_for_run replace_char nat_eq head_of
read_quoted String.[] = ap (read_word inside) (append.nil "'")
read_quoted (String.◌∷◌ c string) = elim (Bool-cases (code c == b'\'')) [
  | inl same ↦ rw same (
      ap (read_word inside) (append-four _ _ _ _ (replace_char b'\'' "'\\''" string) "'")
      ∙ ap (onto (quote c)) (read_quoted string)
      ∙ ap (λ d. some (String.◌∷◌ d string))
          (Char-path (quote c) c (sym ((==_iff (code c) b'\'').0 same))))
  | inr other ↦ rw other (
      ap (read_word inside) (append.cons c (replace_char b'\'' "'\\''" string) "'")
      ∙ rw other (ap (onto c) (read_quoted string)))
]

read_open :
    (c : Char) (word : String)
    → (code c == b'\'') ≡ true
    → read_word bare (String.◌∷◌ c String.[] <> word) ≡ read_word inside word
read_open c word h =
    ap (read_word bare) (append.cons c String.[] word ∙ ap (String.◌∷◌ c) (append.nil word))
    ∙ rw h refl

-- Between single quotes, a quoted text is read as itself.
pub read_word-quote_for_run :
    (string : String) → read_word bare ("'" <> (quote_for_run string <> "'")) ≡ some string
unfolding nat_eq
read_word-quote_for_run string = read_open _ (quote_for_run string <> "'") refl ∙ read_quoted string
