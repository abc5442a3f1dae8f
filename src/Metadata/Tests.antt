-- ===== src/Metadata/Tests.antt =====
-- The escaping of a text with every character that has an entity.
use fence_agents.Base.{◌≡◌, refl, String, none, some, List, [], ◌∷◌, map, string_eq, nat_eq}
use fence_agents.Dict.{Dict, get, put}
use fence_agents.Options.Spec.{Spec}
use fence_agents.Options.Table.{all_opt}
use fence_agents.Metadata.Document.{parameters, entry_leb}
use fence_agents.Metadata.Document.Help.{option_part, short_help, without_markup}
use fence_agents.Metadata.{encode_html_entities}
use fence_agents.Metadata.Escape.{decode, codes, decode-encode_html_entities}

abbrev markup : String
markup = "<a b=\"c\">d & 'e'</a>"

test_markup :
    encode_html_entities markup ≡ "&lt;a b=&quot;c&quot;&gt;d &amp; &apos;e&apos;&lt;/a&gt;"
unfolding encode_html_entities nat_eq
test_markup = refl

decode-encode_html_entities_example : decode 0 (encode_html_entities markup) ≡ codes markup
decode-encode_html_entities_example = decode-encode_html_entities markup

test_help :
    (option_part "-a, --ip=[ip]   IP address" ≡ some "-a, --ip=[ip]")
    × (option_part "no option" ≡ none)
    × (short_help "-o, --action=[action]          Action: status   (default)" ≡ "(default)")
    × (without_markup "a\\fBb.P.TPc.br\n" ≡ "abc")
unfolding option_part short_help without_markup string_eq nat_eq
test_help = (refl, refl, refl, refl)

abbrev keys : List String
keys = "ipaddr" ∷ "passwd" ∷ "ipaddr" ∷ "no_login" ∷ []

abbrev listed : Dict Spec × Dict String
listed = elim (parameters all_opt keys) [ none ↦ ([], []) | some found ↦ found ]

test_listed : map (λ entry. entry.0) listed.0 ≡ "ip" ∷ "ipaddr" ∷ "passwd" ∷ "password" ∷ []
unfolding parameters entry_leb all_opt get put string_eq nat_eq
test_listed = refl
