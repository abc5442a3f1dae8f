-- ===== src/Dict.antt =====
-- Python's `dict` with text keys, in insertion order: `options`, `all_opt` and the parsed options of
-- lib/fencing.py.py. An assignment to a present key keeps its place.
use fence_agents.Base.{
  String, ◌≡◌, refl, Bool, true, false, Option, none, some, List, [], ◌∷◌, arith, ◌==◌, string_eq,
  if◌then◌else◌,
}

abbrev pub Dict {ℓ} : Type ℓ → Type ℓ
Dict V = List (String × V)

module _ {ℓ} {V : Type ℓ} where
  -- d.get(k)
  unfoldable pub get : Dict V → String → Option V
  get [] k = none
  get ((j, v) ∷ d) k = if k == j then some v else get d k

  -- d[k] = v
  unfoldable pub put : Dict V → String → V → Dict V
  put [] k v = (k, v) ∷ []
  put ((j, w) ∷ d) k v = if k == j then (j, v) ∷ d else (j, w) ∷ put d k v

  -- del d[k]
  unfoldable pub remove : Dict V → String → Dict V
  remove [] k = []
  remove ((j, w) ∷ d) k = let rest = remove d k in if k == j then rest else (j, w) ∷ rest

  -- k in d
  unfoldable pub has : Dict V → String → Bool
  has d k = elim (get d k) [ none ↦ false | some v ↦ true ]

  pub get-put :
      (d : Dict V) (k : String) (v : V) (j : String)
      → get (put d k v) j ≡ (if j == k then some v else get d j)
  unfolding get put
  get-put [] k v j = refl
  get-put ((i, w) ∷ d) k v j = ground (arith, get-put d k v j)

  pub get-remove :
      (d : Dict V) (k j : String) → get (remove d k) j ≡ (if j == k then none else get d j)
  unfolding get remove
  get-remove [] k j = ground arith
  get-remove ((i, w) ∷ d) k j = ground (arith, get-remove d k j)

  pub has-put :
      (d : Dict V) (k : String) (v : V) (j : String)
      → has (put d k v) j ≡ (if j == k then true else has d j)
  unfolding has
  has-put d k v j = ground (arith, get-put d k v j)

pub ruleset dict_laws = (get-put, get-remove, has-put)
