-- ===== src/Dict.antt =====
-- A Go map with string keys. Reading a missing key, writing, deleting and ranging over the keys are
-- what the program does with one. `keys` gives the keys in the order of insertion; Go's `range`
-- visits them in any order, so code that ranges over a map takes the order of its visit as an
-- argument.
pub mod Laws
use traffic_analysis.Base.{
  Bool, true, false, String, Option, none, some, List, [], ◌∷◌, map, ◌==◌, if◌then◌else◌, ◌≡◌, refl,
}

abbrev pub Dict {ℓ} : Type ℓ → Type ℓ
Dict V = List (String × V)

module _ {ℓ} {V : Type ℓ} where
  -- v, ok := m[k]
  unfoldable pub get : Dict V → String → Option V
  get [] k = none
  get ((j, v) ∷ m) k = if j == k then some v else get m k

  -- m[k] = v
  unfoldable pub put : Dict V → String → V → Dict V
  put [] k v = (k, v) ∷ []
  put ((j, w) ∷ m) k v = if j == k then (k, v) ∷ m else (j, w) ∷ put m k v

  -- delete(m, k)
  unfoldable pub delete : Dict V → String → Dict V
  delete [] k = []
  delete ((j, w) ∷ m) k = let rest = delete m k in if j == k then rest else (j, w) ∷ rest

  unfoldable pub keys : Dict V → List String
  keys [] = []
  keys ((j, w) ∷ m) = j ∷ keys m

  -- m[k] with the zero value for a missing key
  abbrev pub get_or : V → Option V → V
  get_or d none = d
  get_or d (some v) = v

  abbrev pub is_some : Option V → Bool
  is_some none = false
  is_some (some v) = true
