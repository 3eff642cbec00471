-- ===== src/Dict/Laws.antt =====
-- The laws of a map, by key.
use traffic_analysis.Base.{
  Bool, true, false, String, Option, none, some, List, [], ◌∷◌, ◌==◌, if◌then◌else◌, ◌≡◌, refl,
  arith, eq_iff, eq_refl, ◌≢◌, ◌⊎◌,
}
use traffic_analysis.Dict.{Dict, get, put, delete, is_some}

module _ {ℓ} {V : Type ℓ} where
  pub get-put :
      (m : Dict V) (k j : String) (v : V) → get (put m k v) j ≡ (if k == j then some v else get m j)
  unfolding get put
  get-put [] k j v = refl
  get-put ((i, w) ∷ m) k j v = ground (arith, eq_iff k j, eq_iff i k, eq_iff i j, get-put m k j v)

  pub get-delete :
      (m : Dict V) (k j : String) → get (delete m k) j ≡ (if k == j then none else get m j)
  unfolding get delete
  get-delete [] k j = ground arith
  get-delete ((i, w) ∷ m) k j = ground (arith, eq_iff k j, eq_iff i k, eq_iff i j, get-delete m k j)

  pub get-put_self : (m : Dict V) (k : String) (v : V) → get (put m k v) k ≡ some v
  get-put_self m k v = simp (get-put, eq_refl)

  pub get-put_ne : (m : Dict V) (k j : String) (v : V) → k ≢ j → get (put m k v) j ≡ get m j
  get-put_ne m k j v h = ground (arith, get-put m k j v, eq_iff k j)

  pub get-delete_self : (m : Dict V) (k : String) → get (delete m k) k ≡ none
  get-delete_self m k = simp (get-delete, eq_refl)

  pub get-delete_ne : (m : Dict V) (k j : String) → k ≢ j → get (delete m k) j ≡ get m j
  get-delete_ne m k j h = ground (arith, get-delete m k j, eq_iff k j)

  -- What a read after a write can have found.
  pub get-put-some :
      (m : Dict V) (k j : String) (v w : V)
      → get (put m k v) j ≡ some w
      → ((k ≡ j) × (v ≡ w)) ⊎ ((k ≢ j) × (get m j ≡ some w))
  get-put-some m k j v w h = ground (arith, get-put m k j v, eq_iff k j)

  pub get-delete-some :
      (m : Dict V) (k j : String) (w : V)
      → get (delete m k) j ≡ some w
      → (k ≢ j) × (get m j ≡ some w)
  get-delete-some m k j w h = ground (arith, get-delete m k j, eq_iff k j)

  -- A write keeps every key, and adds its own.
  pub is_some-get-put :
      (m : Dict V) (k j : String) (v : V)
      → is_some (get m j) ≡ true
      → is_some (get (put m k v) j) ≡ true
  is_some-get-put m k j v h = ground (arith, get-put m k j v)

pub ruleset dict_laws = (get-put, get-delete, eq_refl)
