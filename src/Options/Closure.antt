-- ===== src/Options/Closure.antt =====
-- One call of `_add_dependency_options` is enough: what it adds depends on nothing more.
use fence_agents.Base.{
  String, ◌≡◌, refl, ◌∙◌, Bool, true, false, not, some, List, [], ◌∷◌, ◌++◌, arith, all, contains,
  contains-append, outside, Option-cases, inl, inr, string_eq, if◌then◌else◌,
}
use fence_agents.Dict
use fence_agents.Dict.{Dict}
use fence_agents.Options.Dependency.{
  dependency_opt, dependencies, extend, takes_port_as_ip, add_dependency_options, is_needed,
  contains-add_dependency_options, is_needed-append,
}

-- no option of the list has dependencies of its own
abbrev are_leaves : List String → Bool
are_leaves = all (λ y. not (Dict.has dependency_opt y))

get-all :
    {V : Type 0} (p : V → Bool) (d : Dict V) (k : String) (v : V)
    → all (λ (e : String × V). p e.1) d ≡ true
    → Dict.get d k ≡ some v
    → p v ≡ true
unfolding Dict.get
get-all p [] k v h e = absurd (cc)
get-all p ((j, w) ∷ d) k v h e = ground (arith, get-all p d k v)

dependencies-are_leaves : (opt : String) → are_leaves (dependencies opt) ≡ true
unfolding dependencies
dependencies-are_leaves opt = elim (Option-cases (Dict.get dependency_opt opt)) [
  | inl missing ↦ rw (missing, dependencies)
  | inr (opts, found) ↦
      rw (found, dependencies) (get-all are_leaves dependency_opt opt opts table found)
]
  where
    table : all (λ (e : String × List String). are_leaves e.1) dependency_opt ≡ true
    table = unfold dependency_opt Dict.has Dict.get string_eq in refl

are_leaves-append :
    (xs ys : List String)
    → are_leaves xs ≡ true
    → are_leaves ys ≡ true
    → are_leaves (xs ++ ys) ≡ true
are_leaves-append [] ys hx hy = hy
are_leaves-append (x ∷ xs) ys hx hy = ground (arith, are_leaves-append xs ys)

outside-are_leaves :
    (ys xs : List String) → are_leaves xs ≡ true → are_leaves (outside ys xs) ≡ true
outside-are_leaves ys [] h = refl
outside-are_leaves ys (x ∷ xs) h = ground (arith, outside-are_leaves ys xs)

extend-are_leaves : (options opts : List String) → are_leaves (extend options opts) ≡ true
unfolding extend
extend-are_leaves options [] = refl
extend-are_leaves options (opt ∷ opts) =
    are_leaves-append (outside options (dependencies opt)) (extend options opts)
      (outside-are_leaves options (dependencies opt) (dependencies-are_leaves opt))
      (extend-are_leaves options opts)

added-are_leaves : (options : List String) → are_leaves (add_dependency_options options) ≡ true
unfolding add_dependency_options
added-are_leaves options =
    last (takes_port_as_ip (options ++ extend options (options ++ "default" ∷ [])))
      (extend options (options ++ "default" ∷ []))
      (extend-are_leaves options (options ++ "default" ∷ []))
  where
    leaf : are_leaves ("port_as_ip" ∷ []) ≡ true
    leaf = unfold dependency_opt Dict.has Dict.get string_eq in refl

    last :
        (flag : Bool) (xs : List String)
        → are_leaves xs ≡ true
        → are_leaves (if flag then xs ++ "port_as_ip" ∷ [] else xs) ≡ true
    last true xs h = are_leaves-append xs ("port_as_ip" ∷ []) h leaf
    last false xs h = h

is_needed_of_leaves :
    (xs : List String) (a : String) → are_leaves xs ≡ true → is_needed xs a ≡ false
unfolding dependencies Dict.has
is_needed_of_leaves [] a h = refl
is_needed_of_leaves (x ∷ xs) a h = ground (arith, is_needed_of_leaves xs a)

-- With what one call adds, the dependencies of all options and of "default" are among the options.
pub add_dependency_options_closed :
    (options : List String) (a : String)
    → is_needed ((options ++ add_dependency_options options) ++ "default" ∷ []) a ≡ true
    → contains (options ++ add_dependency_options options) a ≡ true
add_dependency_options_closed options a h =
    contains-append options (add_dependency_options options) a
    ∙ ground (
      arith,
      h,
      contains-add_dependency_options options a,
      is_needed-append (options ++ add_dependency_options options) ("default" ∷ []) a,
      is_needed-append options (add_dependency_options options) a,
      is_needed-append options ("default" ∷ []) a,
      is_needed_of_leaves (add_dependency_options options) a (added-are_leaves options),
    )
