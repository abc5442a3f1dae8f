-- ===== src/Metadata/Print.antt =====
-- The lines that `metadata` of lib/fencing.py.py prints, and `show_docs`.
use fence_agents.Base.{
  String, ◌<>◌, Bool, false, not, ◌||◌, Option, none, some, List, [], ◌∷◌, contains, count, erase,
  ◌==◌, string_eq, nat_eq, if◌then◌else◌,
}
use fence_agents.Base.Int.{pos}
use fence_agents.Dict
use fence_agents.Dict.{Dict}
use fence_agents.Exec.{Exec, pure, raise, leave, gets, modify, key_error, value_error, ◌>>=◌, ◌>>◌}
use fence_agents.State.{State, option, has_option, print}
use fence_agents.Text.Number.{text_of_int}
use fence_agents.Power.{is_text}
use fence_agents.Options.Spec.{Spec}
use fence_agents.Options.Actions.{get_available_actions}
use fence_agents.Metadata.{encode_html_entities, usage}
use fence_agents.Metadata.Document.{Docs, parameters, parameter_info}
use fence_agents.Metadata.Document.Help.{without_markup, option_part, short_help, has_colon}

abbrev default_text : Option String → String
default_text none = ""
default_text (some value) = "default=\"" <> encode_html_entities value <> "\" "

-- the option part of the help text, or all of it
mixed_help : String → String
unfolding encode_html_entities option_part
mixed_help help = elim (option_part help) [
  | none ↦ encode_html_entities help
  | some part ↦ encode_html_entities part
]

shortdesc_of : Spec → String
unfolding short_help
shortdesc_of spec = elim spec.shortdesc [ none ↦ short_help spec.help | some text ↦ text ]

content_type : Spec → String
content_type spec = elim spec.type [ none ↦ "string" | some type ↦ type ]

module _ {W : Type 0} where
  -- d[key], for a key that a record may lack
  unfoldable pub given : String → Option String → Exec (State W) String
  given key none = raise (key_error key)
  given key (some value) = pure value

  unfoldable pub print_choices : List String → Exec (State W) (Unit {0})
  unfolding ◌>>=◌ print
  print_choices [] = pure tt
  print_choices (choice ∷ choices) = do
    print ("\t\t\t<option value=\"" <> choice <> "\" />")
    print_choices choices

  unfoldable pub print_content : Spec → Exec (State W) (Unit {0})
  unfolding ◌>>=◌ print print_choices has_colon content_type encode_html_entities
  print_content spec =
      let default = default_text spec.default in
      elim spec.choices [
        | some choices ↦ (do
          print ("\t\t<content type=\"select\" " <> default <> " >")
          print_choices choices
          print "\t\t</content>")
        | none ↦
            if has_colon spec.getopt
            then print ("\t\t<content type=\"" <> content_type spec <> "\" " <> default <> " />")
            else print ("\t\t<content type=\"boolean\" " <> default <> " />")
      ]

  unfoldable pub print_parameter : String → Spec → String → Exec (State W) (Unit {0})
  unfolding ◌>>=◌ given print print_content mixed_help shortdesc_of
  print_parameter key spec info = if spec.help == "" then pure tt else do
    required ← given "required" spec.required
    print (
        "\t<parameter name=\""
        <> key
        <> "\" unique=\"0\" required=\""
        <> required
        <> "\""
        <> (if info == "" then "" else " " <> info)
        <> ">")
    print ("\t\t<getopt mixed=\"" <> mixed_help spec.help <> "\" />")
    print_content spec
    print ("\t\t<shortdesc lang=\"en\">" <> shortdesc_of spec <> "</shortdesc>")
    print "\t</parameter>"

  unfoldable pub print_parameters : Dict Spec → Dict String → Dict Spec → Exec (State W) (Unit {0})
  unfolding ◌>>=◌ print_parameter parameter_info
  print_parameters table names [] = pure tt
  print_parameters table names ((key, spec) ∷ entries) = do
    print_parameter key spec (parameter_info table names key)
    print_parameters table names entries

  unfoldable pub print_actions : List String → Exec (State W) (Unit {0})
  unfolding ◌>>=◌ print
  print_actions [] = pure tt
  print_actions (action ∷ actions) = do
    print ("\t<action name=\"" <> action <> "\" />")
    print_actions actions

  -- The actions that are available, "on" with its attributes in front.
  unfoldable pub print_available : List String → Exec (State W) (Unit {0})
  unfolding ◌>>=◌ print print_actions get_available_actions text_of_int
  print_available avail_opt = do
    let available = (get_available_actions avail_opt).0 in
        do
          if contains available "on"
              then print (
                  "\t<action name=\"on\""
                  <> (if contains avail_opt "on_target" then " on_target=\"1\"" else "")
                  <> " automatic=\""
                  <> text_of_int (pos (count "fabric_fencing" avail_opt))
                  <> "\"/>")
              else pure tt
          print_actions (erase "on" available)

  unfoldable pub print_symlinks : List (String × String) → Exec (State W) (Unit {0})
  unfolding ◌>>=◌ print
  print_symlinks [] = pure tt
  print_symlinks ((symlink, desc) ∷ symlinks) = do
    print ("<symlink name=\"" <> symlink <> "\" shortdesc=\"" <> desc <> "\"/>")
    print_symlinks symlinks

  parameters_of : Option (Dict Spec × Dict String) → Exec (State W) (Dict Spec × Dict String)
  parameters_of none = raise (key_error "option")
  parameters_of (some found) = pure found

  -- metadata(options, avail_opt, docs, agent_name)
  unfoldable pub metadata : List String → Docs → String → Exec (State W) (Unit {0})
  unfolding ◌>>=◌ parameters parameters_of option without_markup print given print_symlinks
      print_parameters print_available
  metadata avail_opt docs agent_name = do
    found ← gets (λ s. parameters s.all_opt avail_opt)
    entries ← parameters_of found
    action ← option "--action"
    print "<?xml version=\"1.0\" ?>"
    print ("<resource-agent name=\"" <> agent_name <> "\" shortdesc=\"" <> docs.shortdesc <> "\" >")
    print_symlinks docs.symlinks
    print (
        "<longdesc>"
        <> (if is_text action "metadata" then without_markup docs.longdesc else docs.longdesc)
        <> "</longdesc>")
    vendorurl ← given "vendorurl" docs.vendorurl
    print ("<vendor-url>" <> vendorurl <> "</vendor-url>")
    print "<parameters>"
    table ← gets (λ s. s.all_opt)
    print_parameters table entries.1 entries.0
    print "</parameters>"
    print "<actions>"
    print_available avail_opt
    print "</actions>"
    print "</resource-agent>"

  -- options.get("--action", "") == action
  abbrev pub has_action : String → State W → Bool
  has_action action s = elim (Dict.get s.options "--action") [
    | none ↦ false
    | some value ↦ is_text value action
  ]

  unfoldable pub agent_name_of : String → Docs → State W → String
  agent_name_of program docs s =
      if has_action "metadata" s
      then program
      else elim docs.agent_name [ none ↦ program | some name ↦ name ]

  -- device_opt.remove("separator") for a device whose port is its address
  unfoldable pub drop_separator : Exec (State W) (Unit {0})
  unfolding ◌>>=◌
  drop_separator = do
    device_opt ← gets (λ s. s.device_opt)
    if not (contains device_opt "port_as_ip")
        then pure tt
        else if contains device_opt "separator"
        then modify (λ s. record s { device_opt = erase "separator" s.device_opt })
        else raise value_error

  unfoldable pub show_metadata : String → Docs → Exec (State W) (Unit {0})
  unfolding ◌>>=◌ agent_name_of drop_separator metadata
  show_metadata program docs = do
    agent_name ← gets (agent_name_of program docs)
    drop_separator
    device_opt ← gets (λ s. s.device_opt)
    metadata device_opt docs agent_name
    leave 0

  -- show_docs(options, docs), with the name of the program and the `wrap` method of the TextWrapper
  unfoldable pub show_docs : String → (String → List String) → Docs → Exec (State W) (Unit {0})
  unfolding ◌>>=◌ has_option usage show_metadata print
  show_docs program wrap docs = do
    help ← has_option "--help"
    device_opt ← gets (λ s. s.device_opt)
    if help then (do usage program wrap device_opt; leave 0) else pure tt
    described ← gets (λ s. has_action "metadata" s || has_action "manpage" s)
    if described then show_metadata program docs else pure tt
    version ← has_option "--version"
    if version then (do print "@RELEASE_VERSION@"; leave 0) else pure tt
