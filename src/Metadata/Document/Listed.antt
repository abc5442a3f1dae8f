-- ===== src/Metadata/Document/Listed.antt =====
-- Which names the parameters of `metadata` in lib/fencing.py.py have.
use fence_agents.Base.{
  String, ◌≡◌, refl, sym, ap, ◌∙◌, subst, inl, inr, Bool, true, false, not, ◌&&◌, ◌||◌, Option,
  none, some, List, [], ◌∷◌, ◌++◌, arith, contains, any, Bool-cases, ◌==◌, string_eq, nat_eq,
}
use fence_agents.Dict
use fence_agents.Dict.{Dict, has-put}
use fence_agents.Options.Spec.{Spec}
use fence_agents.Metadata.Document.Names.{is_underscored, long_name-is_underscored}
use fence_agents.Metadata.Document.{
  distinct, long_name, named_entries, mapping, renamed_entries, insert_entry, sort_entries,
  put_name, push_named, add_named,
}

-- An option with a long name, whose parameter has the name of the option.
abbrev pub has_longopt : Option Spec → Bool
has_longopt none = false
has_longopt (some spec) = elim spec.longopt [ none ↦ false | some longopt ↦ true ]

-- The long name, if there is one, is this name and not the key, but for its dashes.
abbrev names_apart : String → String → Option String → Bool
names_apart name key none = false
names_apart name key (some longopt) =
    not (is_underscored key longopt) && is_underscored name longopt

-- The option's long name is this one, and the option is called otherwise.
abbrev pub is_long_name : Dict Spec → String → String → Bool
is_long_name table name key = elim (Dict.get table key) [
  | none ↦ false
  | some spec ↦ names_apart name key spec.longopt
]

absorbed :
    (p : String → Bool) (keys : List String) (key : String)
    → contains keys key ≡ true
    → any p keys ≡ (p key || any p keys)
absorbed p [] key h = absurd (cc h)
absorbed p (other ∷ keys) key h = ground (arith, absorbed p keys key)

any-distinct : (p : String → Bool) (keys : List String) → any p (distinct keys) ≡ any p keys
unfolding distinct
any-distinct p [] = refl
any-distinct p (key ∷ keys) = ground (arith, any-distinct p keys, absorbed p (distinct keys) key)

any-or :
    (p q : String → Bool) (keys : List String)
    → (any p keys || any q keys) ≡ any (λ key. p key || q key) keys
any-or p q [] = refl
any-or p q (key ∷ keys) = ground (arith, any-or p q keys)

has-append :
    (d e : Dict Spec) (name : String)
    → Dict.has (d ++ e) name ≡ (Dict.has d name || Dict.has e name)
unfolding Dict.has Dict.get
has-append [] e name = refl
has-append ((key, spec) ∷ d) e name = ground (arith, has-append d e name)

has-insert_entry :
    (key : String) (spec : Spec) (d : Dict Spec) (name : String)
    → Dict.has (insert_entry (key, spec) d) name ≡ (name == key || Dict.has d name)
unfolding Dict.has Dict.get insert_entry
has-insert_entry key spec [] name = ground arith
has-insert_entry key spec ((other, next) ∷ d) name =
    ground (arith, has-insert_entry key spec d name)

has-sort_entries :
    (d : Dict Spec) (name : String) → Dict.has (sort_entries d) name ≡ Dict.has d name
unfolding Dict.has Dict.get sort_entries
has-sort_entries [] name = refl
has-sort_entries ((key, spec) ∷ d) name =
    has-insert_entry key spec (sort_entries d) name ∙ ground (arith, has-sort_entries d name)

abbrev is_renamed : String → String × Spec → Bool
is_renamed name (key, spec) = names_apart name key spec.longopt

abbrev any_entry : (String × Spec → Bool) → Dict Spec → Bool
any_entry p [] = false
any_entry p (entry ∷ entries) = p entry || any_entry p entries

has-put_name :
    (key : String) (longopt : Option String) (names : Dict String) (name : String)
    → Dict.has (put_name key longopt names) name
      ≡ (names_apart name key longopt || Dict.has names name)
unfolding put_name
has-put_name key none names name = refl
has-put_name key (some longopt) names name = ground (
  arith,
  has-put names (long_name longopt) key name,
  long_name-is_underscored key longopt,
  long_name-is_underscored name longopt,
)

has-mapping :
    (entries : Dict Spec) (name : String)
    → Dict.has (mapping entries) name ≡ any_entry (is_renamed name) entries
unfolding mapping
has-mapping [] name = unfold Dict.has Dict.get in refl
has-mapping ((key, spec) ∷ entries) name =
    has-put_name key spec.longopt (mapping entries) name ∙ ground (arith, has-mapping entries name)

-- Every entry is one of the table, and every key of the mapping is in it.
abbrev IsFrom : Dict Spec → Dict Spec → Type 0
IsFrom table [] = Unit
IsFrom table ((key, spec) ∷ entries) = (Dict.get table key ≡ some spec) × IsFrom table entries

abbrev IsWithin : Dict Spec → Dict String → Type 0
IsWithin table [] = Unit
IsWithin table ((name, key) ∷ names) = (Dict.has table key ≡ true) × IsWithin table names

put-IsWithin :
    (table : Dict Spec) (names : Dict String) (name key : String)
    → Dict.has table key ≡ true
    → IsWithin table names
    → IsWithin table (Dict.put names name key)
unfolding Dict.put
put-IsWithin table [] name key h within = (h, tt)
put-IsWithin table ((other, value) ∷ names) name key h (here, rest) =
    ground (arith, put-IsWithin table names name key h rest)

put_name-IsWithin :
    (table : Dict Spec) (key : String) (longopt : Option String) (names : Dict String)
    → Dict.has table key ≡ true
    → IsWithin table names
    → IsWithin table (put_name key longopt names)
unfolding put_name
put_name-IsWithin table key none names h within = within
put_name-IsWithin table key (some longopt) names h within =
    elim (Bool-cases (key == long_name longopt)) [
      | inl same ↦ rw same within
      | inr apart ↦ rw apart (put-IsWithin table names (long_name longopt) key h within)
    ]

has_of_get :
    (table : Dict Spec) (key : String) (spec : Spec)
    → Dict.get table key ≡ some spec
    → Dict.has table key ≡ true
unfolding Dict.has
has_of_get table key spec h = rw (h, Dict.has) refl

mapping-IsWithin :
    (table entries : Dict Spec) → IsFrom table entries → IsWithin table (mapping entries)
unfolding mapping
mapping-IsWithin table [] from = tt
mapping-IsWithin table ((key, spec) ∷ entries) (here, from) =
    put_name-IsWithin table key spec.longopt (mapping entries) (has_of_get table key spec here)
      (mapping-IsWithin table entries from)

has-renamed_entries :
    (table : Dict Spec) (names : Dict String) (name : String)
    → IsWithin table names
    → Dict.has (renamed_entries table names) name ≡ Dict.has names name
unfolding renamed_entries Dict.has Dict.get
has-renamed_entries table [] name within = refl
has-renamed_entries table ((other, key) ∷ names) name (here, rest) =
    ground (arith, has-renamed_entries table names name rest)

-- What the entries of the options with a long name are, when none is missing from the table.
pub record Named (table : Dict Spec) (keys : List String) (entries : Dict Spec) : Type 0 where
  pub from : IsFrom table entries
  pub own_names :
      (name : String)
      → Dict.has entries name ≡ any (λ key. name == key && has_longopt (Dict.get table key)) keys
  pub long_names :
      (name : String) → any_entry (is_renamed name) entries ≡ any (is_long_name table name) keys

some_inj : {d e : Dict Spec} → some d ≡ some e → d ≡ e
some_inj h = ground arith

long_name_at :
    (table : Dict Spec) (key : String) (spec : Spec)
    → Dict.get table key ≡ some spec
    → (longopt : Option String) → spec.longopt ≡ longopt
    → (name : String) → is_long_name table name key ≡ names_apart name key longopt
long_name_at table key spec found longopt h name =
    rw (found, is_long_name) (ap (names_apart name key) h)

has_front :
    (key : String) (spec : Spec) (entries : Dict Spec) (name : String)
    → Dict.has ((key, spec) ∷ entries) name ≡ (name == key || Dict.has entries name)
unfolding Dict.has Dict.get
has_front key spec entries name = ground arith

and_true_or : (a : Bool) {b c d : Bool} → c ≡ true → b ≡ d → (a || b) ≡ (a && c || d)
and_true_or a h e = ground (arith, h, e)

longopt_at :
    (table : Dict Spec) (key : String) (spec : Spec)
    → Dict.get table key ≡ some spec
    → (longopt : String) → spec.longopt ≡ some longopt
    → has_longopt (Dict.get table key) ≡ true
longopt_at table key spec found longopt h = rw (found, has_longopt) (rw h refl)

and_false_or : (a b : Bool) → b ≡ (a && false || b)
and_false_or true b = refl
and_false_or false b = refl

push_named-Named :
    (table : Dict Spec) (key : String) (spec : Spec)
    → Dict.get table key ≡ some spec
    → (longopt : Option String) → spec.longopt ≡ longopt
    → (keys : List String) (entries : Dict Spec) → Named table keys entries
    → Named table (key ∷ keys) (push_named key spec longopt entries)
unfolding push_named
push_named-Named table key spec found none h keys entries named = record {
  from = named.from;
  own_names = λ name. rw found (rw h (named.own_names name ∙ and_false_or (name == key) _));
  long_names = λ name. named.long_names name ∙ λ i.
      (sym (long_name_at table key spec found none h name) i || any (is_long_name table name) keys);
}
push_named-Named table key spec found (some longopt) h keys entries named = record {
  from = (found, named.from);
  own_names = λ name.
      has_front key spec entries name
      ∙ and_true_or (name == key) (longopt_at table key spec found longopt h)
          (named.own_names name);
  long_names = λ name i.
      (ap (names_apart name key) h ∙ sym (long_name_at table key spec found (some longopt) h name))
        i
      || named.long_names name i;
}

add_named-Named :
    (table : Dict Spec) (key : String) (keys : List String) (o : Option Spec)
    → Dict.get table key ≡ o
    → (rest : Option (Dict Spec))
    → ((found : Dict Spec) → rest ≡ some found → Named table keys found)
    → {entries : Dict Spec} → add_named key o rest ≡ some entries
    → Named table (key ∷ keys) entries
unfolding add_named
add_named-Named table key keys none found rest ih h = absurd (cc h)
add_named-Named table key keys (some spec) found none ih h = absurd (cc h)
add_named-Named table key keys (some spec) found (some entries) ih h =
    subst (Named table (key ∷ keys)) (some_inj h)
      (push_named-Named table key spec found spec.longopt refl keys entries (ih entries refl))

pub named_entries-Named :
    (table : Dict Spec) (keys : List String) {entries : Dict Spec}
    → named_entries table keys ≡ some entries
    → Named table keys entries
unfolding named_entries
named_entries-Named table [] h = subst (Named table []) (some_inj h) (record {
  from = tt;
  own_names = λ name. unfold Dict.has Dict.get in refl;
  long_names = λ name. refl;
})
named_entries-Named table (key ∷ keys) h =
    add_named-Named table key keys (Dict.get table key) refl (named_entries table keys)
      (λ found e. named_entries-Named table keys e) h

pub names_listed :
    (table entries : Dict Spec) (avail_opt : List String) (name : String)
    → Named table (distinct avail_opt) entries
    → Dict.has (sort_entries (entries ++ renamed_entries table (mapping entries))) name
      ≡ any
          (λ key. (name == key && has_longopt (Dict.get table key)) || is_long_name table name key)
          avail_opt
names_listed table entries avail_opt name named =
    has-sort_entries (entries ++ renamed_entries table (mapping entries)) name
    ∙ has-append entries (renamed_entries table (mapping entries)) name
    ∙ (λ i.
        named.own_names name i
        || (has-renamed_entries table (mapping entries) name
                (mapping-IsWithin table entries named.from)
              ∙ has-mapping entries name
              ∙ named.long_names name)
            i)
    ∙ any-or (λ key. name == key && has_longopt (Dict.get table key)) (is_long_name table name)
        (distinct avail_opt)
    ∙ any-distinct _ avail_opt
