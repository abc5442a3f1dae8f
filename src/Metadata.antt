-- ===== src/Metadata.antt =====
-- `_encode_html_entities`, which the XML of the metadata goes through, and `usage`, both of
-- lib/fencing.py.py.
pub mod Escape
pub mod Document
pub mod Print
mod Tests
use fence_agents.Base.{String, ◌<>◌, List, [], ◌∷◌, leb, string_eq, ◌==◌, nat_eq, if◌then◌else◌}
use fence_agents.Exec.{Exec, pure, ◌>>=◌, ◌>>◌}
use fence_agents.State.{State, print}
use fence_agents.Text.{replace_char}
use fence_agents.Options.Spec.{Spec}
use fence_agents.Options.Defaults.{spec_of}
use fence_agents.Options.Metadata.{join_wrap}

unfoldable pub encode_html_entities : String → String
unfolding replace_char
encode_html_entities text = replace_char b'\'' "&apos;" (
    replace_char b'>' "&gt;"
      (replace_char b'<' "&lt;" (replace_char b'"' "&quot;" (replace_char b'&' "&amp;" text))))

-- sorted_list.sort(key=lambda x: x[1]["order"]), which keeps the order of equal ones
unfoldable pub insert_by_order : Spec → List Spec → List Spec
insert_by_order spec [] = spec ∷ []
insert_by_order spec (next ∷ specs) =
    let later = insert_by_order spec specs in
    if leb spec.order next.order then spec ∷ next ∷ specs else next ∷ later

unfoldable pub sort_by_order : List Spec → List Spec
unfolding insert_by_order
sort_by_order [] = []
sort_by_order (spec ∷ specs) = insert_by_order spec (sort_by_order specs)

module _ {W : Type 0} where
  unfoldable pub specs_at : List String → Exec (State W) (List Spec)
  unfolding ◌>>=◌ spec_of
  specs_at [] = pure []
  specs_at (key ∷ keys) = do spec ← spec_of key; specs ← specs_at keys; pure (spec ∷ specs)

  unfoldable pub print_help : (String → List String) → List Spec → Exec (State W) (Unit {0})
  unfolding ◌>>=◌ print join_wrap
  print_help wrap [] = pure tt
  print_help wrap (spec ∷ specs) = do
    if spec.help == ""
        then pure tt
        else print ("   " <> join_wrap wrap ", " " and " (spec.help ∷ []))
    print_help wrap specs

  -- usage(avail_opt), with the name of the program and the `wrap` method of the TextWrapper
  unfoldable pub usage : String → (String → List String) → List String → Exec (State W) (Unit {0})
  unfolding ◌>>=◌ print specs_at sort_by_order print_help
  usage program wrap avail_opt = do
    print "Usage:"
    print ("\t" <> program <> " [options]")
    print "Options:"
    specs ← specs_at avail_opt
    print_help wrap (sort_by_order specs)
