-- ===== src/Store/Rows.antt =====
-- The lists of rows that MemoryStore keeps for each event: `append` to one, and the two loops of
-- UpdateTask, UpdateAction and UpdateCommand.
pub mod Laws
pub mod Linked
use traffic_analysis.Base.{
  Bool, true, false, String, Option, none, some, List, [], ◌∷◌, ◌++◌, if◌then◌else◌,
}
use traffic_analysis.Dict.{Dict, get, put, get_or}

module _ {ℓ} {A : Type ℓ} where
  -- m[event_id], nil if there is none.
  unfoldable pub rows_of : Dict (List A) → String → List A
  rows_of m event_id = get_or [] (get m event_id)

  -- m[event_id] = append(m[event_id], row)
  unfoldable pub append_row : Dict (List A) → String → A → Dict (List A)
  unfolding rows_of
  append_row m event_id row = put m event_id (rows_of m event_id ++ row ∷ [])

  cons_row : A → Option (List A × A) → Option (List A × A)
  cons_row row none = none
  cons_row row (some (rows, changed)) = some (row ∷ rows, changed)

  -- The inner loop: the first row that matches is changed.
  unfoldable pub update_rows : (A → Bool) → (A → A) → List A → Option (List A × A)
  unfolding cons_row
  update_rows matches change [] = none
  update_rows matches change (row ∷ rows) =
      let rest = update_rows matches change rows in
      if matches row then some (change row ∷ rows, change row) else cons_row row rest

  -- The outer loop, over the events in the order of the visit.
  unfoldable pub update_visit :
      (A → Bool) → (A → A) → List String → Dict (List A) → Dict (List A) × Option A
  update_visit matches change [] m = (m, none)
  update_visit matches change (event_id ∷ visit) m =
      let rest = update_visit matches change visit m in
      elim (update_rows matches change (rows_of m event_id)) [
        | none ↦ rest
        | some (rows, changed) ↦ (put m event_id rows, some changed)
      ]
