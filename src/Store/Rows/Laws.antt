-- ===== src/Store/Rows/Laws.antt =====
-- The rows of an event, by key: appending, and the two loops that change one row.
use traffic_analysis.Base.{
  Option-cases, Bool, true, false, String, Option, none, some, List, [], ◌∷◌, ◌++◌, if◌then◌else◌,
  ◌==◌, ◌≡◌, refl, ap, arith, All, inl, inr, ◌⊎◌, Bool-cases,
}
use mathlib.Core.Path.{subst}
use mathlib.Core.Option.{some-injective}
use traffic_analysis.Dict.{Dict, put}
use traffic_analysis.Dict.Laws.{get-put}
use traffic_analysis.Store.Rows.{rows_of, append_row, update_rows, update_visit}

module _ {ℓ} {A : Type ℓ} where
  pub rows_of-append_row :
      (m : Dict (List A)) (e k : String) (row : A)
      → rows_of (append_row m e row) k ≡ (if e == k then rows_of m e ++ row ∷ [] else rows_of m k)
  unfolding rows_of append_row
  rows_of-append_row m e k row = ground (arith, get-put m e k (rows_of m e ++ row ∷ []))

  module _ (matches : A → Bool) (change : A → A) where
    abbrev pub NoMatch : List A → Type 0
    NoMatch rows = All (λ r. matches r ≡ false) rows

    -- The first row that matches, and only that one, is changed.
    pub data ChangesFirst : List A → List A → A → Type ℓ where
      here :
          {r : A} {rows : List A}
          → matches r ≡ true
          → ChangesFirst (r ∷ rows) (change r ∷ rows) (change r)
      later :
          {r x : A} {rows rows' : List A}
          → matches r ≡ false
          → ChangesFirst rows rows' x
          → ChangesFirst (r ∷ rows) (r ∷ rows') x

    abbrev pub RowsCases : List A → Type ℓ
    RowsCases rows =
        ((update_rows matches change rows ≡ none) × NoMatch rows)
        ⊎ ((rows' : List A) × (x : A) × (update_rows matches change rows ≡ some (rows', x))
            × ChangesFirst rows rows' x)

    update_rows-cons :
        (r : A) (rows : List A) → matches r ≡ false → RowsCases rows → RowsCases (r ∷ rows)
    unfolding update_rows
    update_rows-cons r rows miss (inl (e, h)) = inl (rw (miss, e), (miss, h))
    update_rows-cons r rows miss (inr (rows', x, e, h)) =
        inr (r ∷ rows', x, rw (miss, e), later miss h)

    -- What the inner loop does.
    pub update_rows-cases : (rows : List A) → RowsCases rows
    unfolding update_rows
    update_rows-cases [] = inl (refl, tt)
    update_rows-cases (r ∷ rows) = elim (Bool-cases (matches r)) [
      | inl hit ↦ inr (change r ∷ rows, change r, rw hit, here hit)
      | inr miss ↦ update_rows-cons r rows miss (update_rows-cases rows)
    ]

    -- What the outer loop does: the first event of the visit that has a row that matches gets its
    -- rows changed; if there is none the map stays as it is.
    pub data Visits (m : Dict (List A)) : List String → Dict (List A) → Option A → Type ℓ where
      found :
          {e : String} {visit : List String} {rows : List A} {x : A}
          → ChangesFirst (rows_of m e) rows x
          → Visits m (e ∷ visit) (put m e rows) (some x)
      passed :
          {e : String} {visit : List String} {m' : Dict (List A)} {o : Option A}
          → NoMatch (rows_of m e)
          → Visits m visit m' o
          → Visits m (e ∷ visit) m' o
      exhausted : Visits m [] m none

    pub update_visit-Visits :
        (visit : List String) (m : Dict (List A))
        → Visits m visit
            (update_visit matches change visit m).0
            (update_visit matches change visit m).1
    unfolding update_visit
    update_visit-Visits [] m = exhausted
    update_visit-Visits (e ∷ visit) m = elim (update_rows-cases (rows_of m e)) [
      | inl (none_of, miss) ↦ rw (none_of, update_visit) (passed miss (update_visit-Visits visit m))
      | inr (rows, x, some_of, hit) ↦ rw (some_of, update_visit) (found hit)
    ]

    -- A visit that finds nothing: no event in it has a row that matches, and the map is as it was.
    Visits-none-All :
        {m m' : Dict (List A)} {visit : List String} {o : Option A}
        → Visits m visit m' o
        → o ≡ none
        → All (λ e. NoMatch (rows_of m e)) visit × (m' ≡ m)
    Visits-none-All (found c) h = cc
    Visits-none-All (passed miss rest) h =
        let (all, same) = Visits-none-All rest h in ((miss, all), same)
    Visits-none-All exhausted h = (tt, refl)

    -- A visit that finds a row: it is in the first event of the visit that has a row that matches,
    -- it is the first such row of that event, and nothing else of the map changed.
    pub record Changed (m : Dict (List A)) (visit : List String) (m' : Dict (List A)) (x : A)
        : Type ℓ where
      pub before : List String
      pub event : String
      pub after : List String
      pub visited : visit ≡ before ++ event ∷ after
      pub missed : All (λ e. NoMatch (rows_of m e)) before
      pub rows : List A
      pub first : ChangesFirst (rows_of m event) rows x
      pub written : m' ≡ put m event rows

    Changed-passed :
        {m m' : Dict (List A)} {visit : List String} {x : A} (e : String)
        → NoMatch (rows_of m e)
        → Changed m visit m' x
        → Changed m (e ∷ visit) m' x
    Changed-passed e miss c = record {
      before = e ∷ c.before;
      event = c.event;
      after = c.after;
      visited = ap (◌∷◌ e) c.visited;
      missed = (miss, c.missed);
      rows = c.rows;
      first = c.first;
      written = c.written;
    }

    Visits-Changed :
        {m m' : Dict (List A)} {visit : List String} {o : Option A} {x : A}
        → Visits m visit m' o
        → o ≡ some x
        → Changed m visit m' x
    Visits-Changed {m} {x = y} (found {e} {visit} {rows} {x} c) h = record {
      before = [];
      event = e;
      after = visit;
      visited = refl;
      missed = tt;
      rows = rows;
      first = subst (ChangesFirst (rows_of m e) rows) (some-injective x y h) c;
      written = refl;
    }
    Visits-Changed (passed {e} miss rest) h = Changed-passed e miss (Visits-Changed rest h)
    Visits-Changed exhausted h = cc

    -- What the two loops do together, whatever the order of the visit.
    pub data Outcome (m : Dict (List A)) (visit : List String)
        : Dict (List A) → Option A → Type ℓ where
      nothing :
          All (λ e. NoMatch (rows_of m e)) visit
          → {m' : Dict (List A)} {o : Option A} → m' ≡ m
          → o ≡ none
          → Outcome m visit m' o
      one :
          {m' : Dict (List A)} {o : Option A} (x : A)
          → o ≡ some x
          → Changed m visit m' x
          → Outcome m visit m' o

    pub update_visit-Outcome :
        (visit : List String) (m : Dict (List A))
        → Outcome m visit
            (update_visit matches change visit m).0
            (update_visit matches change visit m).1
    update_visit-Outcome visit m =
        let v = update_visit-Visits visit m in
        elim (Option-cases (update_visit matches change visit m).1) [
          | inl e ↦ let (all, same) = Visits-none-All v e in nothing all same e
          | inr (x, e) ↦ one x e (Visits-Changed v e)
        ]
