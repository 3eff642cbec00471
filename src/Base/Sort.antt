-- ===== src/Base/Sort.antt =====
-- sort.Slice, as insertion: what it gives is determined up to the order of elements of which
-- neither is less than the other.
use mathlib.Core.List.{Perm}
use mathlib.Core.List.Perm
use mathlib.Core.List.{List, [], ◌∷◌}
use mathlib.Core.Path.{◌≡◌, refl}
use mathlib.Core.Bool.{Bool, true, false}
use native.Mathlib.Omega.{arith}
use traffic_analysis.Base.Tests.{if◌then◌else◌, Bool-cases}
use mathlib.Core.Logic.{inl, inr}

module _ {ℓ} {A : Type ℓ} (less : A → A → Bool) where
  unfoldable pub insert_by : A → List A → List A
  insert_by x [] = x ∷ []
  insert_by x (y ∷ ys) = let rest = insert_by x ys in if less y x then y ∷ rest else x ∷ y ∷ ys

  unfoldable pub sort_by : List A → List A
  unfolding insert_by
  sort_by [] = []
  sort_by (x ∷ xs) = insert_by x (sort_by xs)

  -- No element is less than the one before it.
  abbrev pub Ordered : List A → Type 0
  Ordered [] = Unit
  Ordered (x ∷ []) = Unit
  Ordered (x ∷ y ∷ ys) = (less y x ≡ false) × Ordered (y ∷ ys)

  insert_by-perm : (x : A) (l : List A) → Perm (insert_by x l) (x ∷ l)
  unfolding insert_by
  insert_by-perm x [] = Perm.refl (x ∷ [])
  insert_by-perm x (y ∷ ys) = elim (Bool-cases (less y x)) [
    | inl e ↦ rw e (Perm.trans (Perm.cons y (insert_by-perm x ys)) (Perm.swap x y ys))
    | inr e ↦ rw e (Perm.refl (x ∷ y ∷ ys))
  ]

  pub sort_by-perm : (l : List A) → Perm (sort_by l) l
  unfolding sort_by
  sort_by-perm [] = Perm.refl []
  sort_by-perm (x ∷ xs) = Perm.trans (insert_by-perm x (sort_by xs)) (Perm.cons x (sort_by-perm xs))

  -- A list in order is left as it is.
  pub sort_by_fixed : (l : List A) → Ordered l → sort_by l ≡ l
  unfolding sort_by
  sort_by_fixed [] h = refl
  sort_by_fixed (x ∷ []) h = refl
  sort_by_fixed (x ∷ y ∷ ys) h = rw (sort_by_fixed (y ∷ ys) h.1, h.0, insert_by)

  module _ (asym : (x y : A) → less x y ≡ true → less y x ≡ false) where
    insert_by-Ordered : (x : A) (l : List A) → Ordered l → Ordered (insert_by x l)
    unfolding insert_by
    insert_by-Ordered x [] h = tt
    insert_by-Ordered x (y ∷ []) h = ground (arith, asym y x)
    insert_by-Ordered x (y ∷ z ∷ zs) h =
        ground (arith, asym y x, asym z x, insert_by-Ordered x (z ∷ zs) h.1)

    pub sort_by-Ordered : (l : List A) → Ordered (sort_by l)
    unfolding sort_by
    sort_by-Ordered [] = tt
    sort_by-Ordered (x ∷ xs) = insert_by-Ordered x (sort_by xs) (sort_by-Ordered xs)
