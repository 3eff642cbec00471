-- ===== src/Value.antt =====
-- Go's `any` as the program meets it: values that encoding/json decodes, and values that the
-- program puts into a map itself. A number carries the text that fmt.Sprint prints for it, and a
-- time.Time its instant and its String().
use Prim.Native.String.{◌++◌ as append, compare}
use text.Mathlib.Text.{is_le}
use traffic_analysis.Base.{ℕ, Bool, true, false, String, List, [], ◌∷◌, ◌==◌, if◌then◌else◌}

mutual
  pub data Value : Type 0 where
    nil : Value
    str : String → Value
    boolean : Bool → Value
    number : String → Value
    time : ℕ → String → Value
    obj : Fields → Value
    arr : Items → Value

  -- map[string]any
  pub data Fields : Type 0 where
    end : Fields
    field : String → Value → Fields → Fields

  -- []any
  pub data Items : Type 0 where
    done : Items
    item : Value → Items → Items

-- m[key], which is nil for a missing key.
unfoldable pub at : Fields → String → Value
at end key = nil
at (field k v m) key = if k == key then v else at m key

insert_sorted : String × String → List (String × String) → List (String × String)
insert_sorted e [] = e ∷ []
insert_sorted (k, t) ((k', t') ∷ l) =
    let rest = insert_sorted (k, t) l in
    if is_le (compare k k') then (k, t) ∷ (k', t') ∷ l else (k', t') ∷ rest

sort_entries : List (String × String) → List (String × String)
unfolding insert_sorted
sort_entries [] = []
sort_entries (e ∷ l) = insert_sorted e (sort_entries l)

join_space : List String → String
join_space [] = ""
join_space (t ∷ []) = t
join_space (t ∷ t' ∷ l) = append t (append " " (join_space (t' ∷ l)))

entry_texts : List (String × String) → List String
entry_texts [] = []
entry_texts ((k, t) ∷ l) = append k (append ":" t) ∷ entry_texts l

-- fmt.Sprint: a map is printed with its keys in order.
unfoldable mutual
  unfolding sort_entries join_space entry_texts

  pub sprint : Value → String
  sprint nil = "<nil>"
  sprint (str s) = s
  sprint (boolean true) = "true"
  sprint (boolean false) = "false"
  sprint (number t) = t
  sprint (time t s) = s
  sprint (obj m) = append "map[" (append (join_space (entry_texts (sort_entries (entries m)))) "]")
  sprint (arr l) = append "[" (append (join_space (sprint_items l)) "]")

  pub entries : Fields → List (String × String)
  entries end = []
  entries (field k v m) = (k, sprint v) ∷ entries m

  pub sprint_items : Items → List String
  sprint_items done = []
  sprint_items (item v l) = sprint v ∷ sprint_items l

-- asString
unfoldable pub as_string : Value → String
as_string nil = ""
as_string (str s) = s
as_string (boolean b) = sprint (boolean b)
as_string (number t) = sprint (number t)
as_string (time t s) = s
as_string (obj m) = sprint (obj m)
as_string (arr l) = sprint (arr l)

-- firstNonEmpty of internal/service/services.go
unfoldable pub first_non_empty : List String → String
first_non_empty [] = ""
first_non_empty (v ∷ vs) = let rest = first_non_empty vs in if v == "" then rest else v
