-- ===== src/Store/Rows/Linked.antt =====
-- Rows that belong to an event of the store, under the key that they name.
use traffic_analysis.Base.{
  Bool, true, String, Option, some, List, [], ◌∷◌, ◌≡◌, ◌∙◌, All, All-append, ap, inl, inr,
  Option-cases,
}
use traffic_analysis.Dict.{Dict, get, put, get_or, is_some}
use traffic_analysis.Dict.Laws.{get-put-some}
use traffic_analysis.Domain.{Event}
use traffic_analysis.Store.Rows.{rows_of, append_row, update_visit}
use traffic_analysis.Store.Rows.Laws.{
  ChangesFirst, here, later, Visits, found, passed, exhausted, update_visit-Visits,
}

module _ {A : Type 0} (event_id : A → String) where
  -- The rows kept under a key name it as their event, and that event is there.
  pub record IsLinked (events : Dict Event) (m : Dict (List A)) : Type 0 where
    pub known : (k : String) (rows : List A) → get m k ≡ some rows → is_some (get events k) ≡ true
    pub own : (k : String) (rows : List A) → get m k ≡ some rows → All (λ r. event_id r ≡ k) rows

  own-rows_of :
      {events : Dict Event} {m : Dict (List A)}
      → IsLinked events m
      → (k : String) → All (λ r. event_id r ≡ k) (rows_of m k)
  unfolding rows_of
  own-rows_of {m} v k = elim (Option-cases (get m k)) [
    | inl e ↦ rw e tt
    | inr (rows, e) ↦ rw e (v.own k rows e)
  ]

  put-IsLinked :
      {events : Dict Event} {m : Dict (List A)} (e : String) (rows : List A)
      → IsLinked events m
      → is_some (get events e) ≡ true
      → All (λ r. event_id r ≡ e) rows
      → IsLinked events (put m e rows)
  put-IsLinked {events} {m} e rows v there all = record {
    known = λ k rows' h. elim (get-put-some m e k rows rows' h) [
      | inl (same, _) ↦ rw (← same) there
      | inr (_, old) ↦ v.known k rows' old
    ];
    own = λ k rows' h. elim (get-put-some m e k rows rows' h) [
      | inl (same, new) ↦ rw (← same, ← new) all
      | inr (_, old) ↦ v.own k rows' old
    ];
  }

  pub append_row-IsLinked :
      {events : Dict Event} {m : Dict (List A)} (e : String) (r : A)
      → IsLinked events m
      → is_some (get events e) ≡ true
      → event_id r ≡ e
      → IsLinked events (append_row m e r)
  unfolding append_row
  append_row-IsLinked {m} e r v there own =
      put-IsLinked e _ v there
        (All-append (λ x. event_id x ≡ e) (rows_of m e) (r ∷ []) (own-rows_of v e) (own, tt))

  pub IsLinked-grow :
      {events events' : Dict Event} {m : Dict (List A)}
      → ((k : String) → is_some (get events k) ≡ true → is_some (get events' k) ≡ true)
      → IsLinked events m
      → IsLinked events' m
  IsLinked-grow grow v = record { known = λ k rows h. grow k (v.known k rows h); own = v.own }

  module _ (matches : A → Bool) (change : A → A)
      (keeps : (r : A) → event_id (change r) ≡ event_id r) where
    ChangesFirst-own :
        {rows rows' : List A} {x : A} (k : String)
        → ChangesFirst matches change rows rows' x
        → All (λ r. event_id r ≡ k) rows
        → All (λ r. event_id r ≡ k) rows'
    ChangesFirst-own k (here {r} hit) h = (keeps r ∙ h.0, h.1)
    ChangesFirst-own k (later miss c) h = (h.0, ChangesFirst-own k c h.1)

    ChangesFirst-ne-nil :
        {rows rows' : List A} {x : A} → ChangesFirst matches change rows rows' x → rows ≡ [] → ⊥
    ChangesFirst-ne-nil (here hit) e = cc
    ChangesFirst-ne-nil (later miss c) e = cc

    ChangesFirst-known :
        {events : Dict Event} {m : Dict (List A)} {rows' : List A} {x : A} (e : String)
        → IsLinked events m
        → ChangesFirst matches change (rows_of m e) rows' x
        → is_some (get events e) ≡ true
    unfolding rows_of
    ChangesFirst-known {m} e v c = elim (Option-cases (get m e)) [
      | inl missing ↦ absurd (ChangesFirst-ne-nil c (ap (get_or []) missing))
      | inr (rows, there) ↦ v.known e rows there
    ]

    Visits-IsLinked :
        {events : Dict Event} {m m' : Dict (List A)} {visit : List String} {o : Option A}
        → IsLinked events m
        → Visits matches change m visit m' o
        → IsLinked events m'
    Visits-IsLinked {m} v (found {e} {rows} c) =
        put-IsLinked e rows v (ChangesFirst-known e v c) (ChangesFirst-own e c (own-rows_of v e))
    Visits-IsLinked v (passed miss rest) = Visits-IsLinked v rest
    Visits-IsLinked v exhausted = v

    pub update_visit-IsLinked :
        {events : Dict Event} {m : Dict (List A)} (visit : List String)
        → IsLinked events m
        → IsLinked events (update_visit matches change visit m).0
    update_visit-IsLinked {m} visit v =
        Visits-IsLinked v (update_visit-Visits matches change visit m)
