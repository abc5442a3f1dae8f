-- ===== src/Options/Actions.antt =====
-- `_get_available_actions` of lib/fencing.py.py.
use fence_agents.Base.{
  String, ◌≡◌, refl, ◌∙◌, ap, Bool, true, false, not, ◌&&◌, ◌||◌, List, [], ◌∷◌, ◌++◌, arith,
  contains, erase, contains-append, Distinct, contains-erase, erase-Distinct, ◌==◌, string_eq,
  if◌then◌else◌,
}

abbrev pub base_actions : List String
base_actions =
    "on" ∷ "off" ∷ "reboot" ∷ "status" ∷ "list" ∷ "list-status" ∷ "monitor" ∷ "metadata" ∷ "manpage"
    ∷ "validate-all" ∷ []

-- if flag: available_actions.remove(action)
unfoldable pub remove_if : Bool → String → List String → List String
remove_if flag action actions = if flag then erase action actions else actions

-- The available actions and the default one.
unfoldable pub get_available_actions : List String → List String × String
unfolding remove_if
get_available_actions device_opt =
    let fabric = contains device_opt "fabric_fencing" in
    let available = remove_if fabric "reboot" base_actions in
    let available = remove_if (contains device_opt "no_status") "status" available in
    let available = remove_if (contains device_opt "no_on") "on" available in
    let available = remove_if (contains device_opt "no_off") "off" available in
    let lists = contains device_opt "separator" in
    let available = remove_if (not lists) "list" available in
    let available = remove_if (not lists) "list-status" available in
    (
      if contains device_opt "diag" then available ++ "diag" ∷ [] else available,
      if fabric then "off" else "reboot",
    )

base-Distinct : Distinct base_actions
unfolding string_eq
base-Distinct = (refl, (refl, (refl, (refl, (refl, (refl, (refl, (refl, (refl, (refl, tt))))))))))

-- `action` is taken away by a flag of the device
abbrev pub is_removed : List String → String → Bool
is_removed device_opt action =
    (contains device_opt "fabric_fencing" && action == "reboot")
    || (contains device_opt "no_status" && action == "status")
    || (contains device_opt "no_on" && action == "on")
    || (contains device_opt "no_off" && action == "off")
    || (not (contains device_opt "separator") && action == "list")
    || (not (contains device_opt "separator") && action == "list-status")

-- the removals, one after another
remove_all : List (Bool × String) → List String → List String
remove_all [] actions = actions
remove_all ((flag, action) ∷ removals) actions = remove_all removals (remove_if flag action actions)

abbrev is_hit : List (Bool × String) → String → Bool
is_hit [] a = false
is_hit ((flag, x) ∷ removals) a = (flag && a == x) || is_hit removals a

contains-remove_all :
    (removals : List (Bool × String)) (xs : List String) (a : String)
    → Distinct xs
    → contains (remove_all removals xs) a ≡ (contains xs a && not (is_hit removals a))
unfolding remove_all remove_if
contains-remove_all [] xs a h = ground arith
contains-remove_all ((true, x) ∷ removals) xs a h =
    contains-remove_all removals (erase x xs) a (erase-Distinct x xs h)
    ∙ rw (contains-erase x xs a h) (and_assoc (contains xs a) (a == x) (is_hit removals a))
  where
    and_assoc : (p q r : Bool) → ((p && not q) && not r) ≡ (p && not ((true && q) || r))
    and_assoc p q r = ground arith
contains-remove_all ((false, x) ∷ removals) xs a h = contains-remove_all removals xs a h

abbrev removals_of : List String → List (Bool × String)
removals_of d =
    (contains d "fabric_fencing", "reboot")
    ∷ (contains d "no_status", "status")
    ∷ (contains d "no_on", "on")
    ∷ (contains d "no_off", "off")
    ∷ (not (contains d "separator"), "list")
    ∷ (not (contains d "separator"), "list-status")
    ∷ []

available_of : Bool → List String → List String
available_of diag xs = if diag then xs ++ "diag" ∷ [] else xs

contains-available_of :
    (diag : Bool) (xs : List String) (a : String)
    → contains (available_of diag xs) a ≡ (contains xs a || (diag && a == "diag"))
unfolding available_of
contains-available_of true xs a = rw (contains-append xs ("diag" ∷ []) a) (ground arith)
contains-available_of false xs a = ground arith

or_false :
    (p q r s t u : Bool)
    → (p || (q || (r || (s || (t || (u || false)))))) ≡ (p || q || r || s || t || u)
or_false p q r s t u = ground arith

-- An action is available exactly when it is a base action that no flag of the device takes away, or
-- "diag" on a device that has it.
pub contains-get_available_actions :
    (device_opt : List String) (action : String)
    → contains (get_available_actions device_opt).0 action ≡ (
        (contains base_actions action && not (is_removed device_opt action))
        || (contains device_opt "diag" && action == "diag"))
unfolding get_available_actions remove_all available_of
contains-get_available_actions d a =
    contains-available_of (contains d "diag") (remove_all (removals_of d) base_actions) a
    ∙ ap (λ p. p || (contains d "diag" && a == "diag"))
        (contains-remove_all (removals_of d) base_actions a base-Distinct
          ∙ ap (λ p. contains base_actions a && not p)
              (or_false (contains d "fabric_fencing" && a == "reboot")
                (contains d "no_status" && a == "status") (contains d "no_on" && a == "on")
                (contains d "no_off" && a == "off") (not (contains d "separator") && a == "list")
                (not (contains d "separator") && a == "list-status")))
