-- ===== src/Base/Lists.antt =====
-- Python's `in`, `count`, `remove` and `len` on lists, over the Boolean tests.
use Prim.Native.Nat.{ℕ, suc}
use mathlib.Core.Path.{◌≡◌, refl}
use mathlib.Core.Bool.{Bool, true, false, not, ◌&&◌, ◌||◌}
use mathlib.Core.List.{List, [], ◌∷◌, ◌++◌}
use native.Mathlib.Omega.{arith}
use fence_agents.Base.Tests.{Eq, ◌==◌, if◌then◌else◌}

module _ {ℓ} {A : Type ℓ} where
  abbrev pub length : List A → ℕ
  length [] = 0
  length (x ∷ xs) = suc (length xs)

  abbrev pub any : (A → Bool) → List A → Bool
  any p [] = false
  any p (x ∷ xs) = p x || any p xs

  abbrev pub all : (A → Bool) → List A → Bool
  all p [] = true
  all p (x ∷ xs) = p x && all p xs

  abbrev pub All {κ} : (A → Type κ) → List A → Type κ
  All P [] = Unit
  All P (x ∷ xs) = P x × All P xs

module _ {ℓ} {A : Type ℓ} ⦃e : Eq A⦄ where
  -- `a in xs`
  abbrev pub contains : List A → A → Bool
  contains [] a = false
  contains (x ∷ xs) a = a == x || contains xs a

  -- `xs.count(a)`
  abbrev pub count : A → List A → ℕ
  count a [] = 0
  count a (x ∷ xs) = if a == x then suc (count a xs) else count a xs

  -- `xs.remove(a)`: the first occurrence goes
  abbrev pub erase : A → List A → List A
  erase a [] = []
  erase a (x ∷ xs) = if a == x then xs else x ∷ erase a xs

  -- `[y for y in xs if ys.count(y) == 0]`
  abbrev pub outside : List A → List A → List A
  outside ys [] = []
  outside ys (x ∷ xs) = let rest = outside ys xs in if contains ys x then rest else x ∷ rest

  pub contains-append :
      (xs ys : List A) (a : A) → contains (xs ++ ys) a ≡ (contains xs a || contains ys a)
  contains-append [] ys a = refl
  contains-append (x ∷ xs) ys a = ground (arith, contains-append xs ys a)

  pub contains-outside :
      (ys xs : List A) (a : A) → contains (outside ys xs) a ≡ (contains xs a && not (contains ys a))
  contains-outside ys [] a = refl
  contains-outside ys (x ∷ xs) a = ground (arith, contains-outside ys xs a)

  -- no value twice
  abbrev pub Distinct : List A → Type 0
  Distinct [] = Unit
  Distinct (x ∷ xs) = (contains xs x ≡ false) × Distinct xs

  pub contains-erase :
      (x : A) (xs : List A) (a : A)
      → Distinct xs
      → contains (erase x xs) a ≡ (contains xs a && not (a == x))
  contains-erase x [] a h = refl
  contains-erase x (y ∷ ys) a h = ground (arith, contains-erase x ys a h.1, h.0)

  pub erase-Distinct : (x : A) (xs : List A) → Distinct xs → Distinct (erase x xs)
  erase-Distinct x [] h = tt
  erase-Distinct x (y ∷ ys) h =
      ground (arith, contains-erase x ys y h.1, erase-Distinct x ys h.1, h.0, h.1)
