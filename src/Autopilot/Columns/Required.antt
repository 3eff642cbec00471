-- ===== src/Autopilot/Columns/Required.antt =====
-- internal/autopilot/autopilot.go: insertCompat against what a table asks of an insert.
use traffic_analysis.Base.{
  ℕ, ◌+◌, Bool, true, false, ◌||◌, String, Option, none, some, List, [], ◌∷◌, ◌++◌, ◌==◌, ◌≡◌, refl,
  arith, append_two, eq_refl, if-true, if-false, ◌&&◌,
}
use traffic_analysis.Base.Search.{equal_fold}
use traffic_analysis.Value.{Value, Fields}
use traffic_analysis.Store.{ok}
use traffic_analysis.Autopilot.{Column, Pilot, Flown, allowed_table, execute}
use traffic_analysis.Autopilot.Columns.{
  lookup, given_or_default, column_value, keep, taken_columns, insert_taken, with_columns,
  insert_compat, columns_query, insert_statement,
}

-- Whether an insert gives a value to the column.
abbrev pub gives : String → List (String × Value) → Bool
gives name [] = false
gives name ((n, v) ∷ rest) = n == name || gives name rest

gives-keep :
    (name other : String) (found : Option Value) (rest : List (String × Value))
    → gives name rest ≡ true
    → gives name (keep other found rest) ≡ true
unfolding keep
gives-keep name other none rest h = h
gives-keep name other (some v) rest h = ground arith

module _ (p : Pilot) (values : Fields) (c : Column) (asks : c.is_nullable ≡ false)
    (bare : c.has_default ≡ false) where
  gives-keep_own :
      (now : Value) (found : Option Value) (rest : List (String × Value))
      → gives c.name (keep c.name (given_or_default p found now c values) rest) ≡ true
  unfolding keep given_or_default
  gives-keep_own now (some v) rest = rw (eq_refl c.name) refl
  gives-keep_own now none rest = rw (asks, bare, eq_refl c.name) refl

  column_value-own :
      (now : Value)
      → column_value p now c values ≡ given_or_default p (lookup values c.name) now c values
  unfolding column_value
  column_value-own now =
      if-false none (given_or_default p (lookup values c.name) now c values)
        {b = equal_fold c.name "id" && c.has_default} (ground arith)

  gives-taken_columns :
      (calls n : ℕ) (before after : List Column)
      → gives c.name (taken_columns p calls n values (before ++ c ∷ after)) ≡ true
  unfolding taken_columns
  gives-taken_columns calls n [] after = rw (column_value-own (p.clock calls n)) (
      gives-keep_own (p.clock calls n) (lookup values c.name)
        (taken_columns p calls (n + 1) values after))
  gives-taken_columns calls n (d ∷ before) after =
      gives-keep c.name d.name (column_value p (p.clock calls n) d values) _
        (gives-taken_columns calls (n + 1) before after)

  insert_taken-sent :
      (table : String) (taken : List (String × Value)) (w : Flown)
      → gives c.name taken ≡ true
      → (insert_taken p table taken w).0.issued ≡ w.issued ++ insert_statement table taken ∷ []
  unfolding insert_taken execute
  insert_taken-sent table [] w h = absurd (ground arith)
  insert_taken-sent table (e ∷ rest) w h = refl

  -- Into a table that it knows, insertCompat sends the query of the columns and one insert; where the
  -- database answers with columns among which there is one that is neither nullable nor has a
  -- default, the insert gives a value to that column.
  pub insert_compat-gives :
      (table : String) (w : Flown) (before after : List Column)
      → allowed_table table ≡ true
      → p.query_columns w.calls (columns_query table) ≡ ok (before ++ c ∷ after)
      → let taken = taken_columns p (w.calls + 1) 0 values (before ++ c ∷ after) in
        ((insert_compat p table values w).0.issued
          ≡ w.issued ++ columns_query table ∷ insert_statement table taken ∷ [])
        × (gives c.name taken ≡ true)
  unfolding insert_compat with_columns
  insert_compat-gives table w before after known found =
      let given = gives-taken_columns (w.calls + 1) 0 before after in
      (
        rw
            (
              if-true _ _ {b = allowed_table table} known,
              found,
              insert_taken-sent table (taken_columns p (w.calls + 1) 0 values (before ++ c ∷ after))
                  _ given,
            )
            (append_two w.issued _ _),
        given,
      )
