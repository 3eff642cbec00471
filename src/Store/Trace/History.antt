-- ===== src/Store/Trace/History.antt =====
-- What holds along every history of a store: events stay, a fingerprint is reserved once, and an
-- event that was pushed stays pushed.
use traffic_analysis.Base.{
  ℕ, ◌+◌, ◌≤◌, inl, inr, ◌⊎◌, Bool, true, String, some, List, [], ◌∷◌, ◌≡◌, ◌∙◌, ap, refl, arith,
  if◌then◌else◌, ◌==◌, eq_iff,
}
use traffic_analysis.Dict.{get, is_some}
use traffic_analysis.Dict.Laws.{get-put_self, is_some-get-put}
use traffic_analysis.Domain.{Event}
use traffic_analysis.Store.{MemoryStore}
use traffic_analysis.Store.Events.Laws.{
  IsSameEvent-refl, IsSameEvent-trans, Keeps, create_event-Keeps, update_event-Keeps,
}
use traffic_analysis.Store.Sync.{
  reserved, reserve_fingerprint, bind_event_map, save_pushed_event, already_pushed,
}
use traffic_analysis.Store.Trace.{
  Op, step, run, creates_event, updates_event, reserves, binds, saves_pushed,
}
use traffic_analysis.Store.Trace.Frame.{events-step, event_maps-step, pushed-step}

pub step-Keeps :
    (op : Op) (s : MemoryStore) (key : String) (e : Event)
    → get s.events key ≡ some e
    → Keeps (step op s) key e
unfolding step
step-Keeps (creates_event now fresh f) s key e h = create_event-Keeps now fresh f s key e h
step-Keeps (updates_event now id patch) s key e h = update_event-Keeps now id patch s key e h
step-Keeps op s key e h = (e, ap (λ m. get m key) (events-step op s refl) ∙ h, IsSameEvent-refl e)

-- An event stays, with its number, id, title, source, category, round, observables and time of
-- creation, whatever calls follow.
pub run-Keeps :
    (ops : List Op) (s : MemoryStore) (key : String) (e : Event)
    → get s.events key ≡ some e
    → Keeps (run ops s) key e
unfolding run
run-Keeps [] s key e h = (e, h, IsSameEvent-refl e)
run-Keeps (op ∷ ops) s key e h =
    let (f, at_key, same) = step-Keeps op s key e h in
    let (g, at_key', same') = run-Keeps ops (step op s) key f at_key in
    (g, at_key', IsSameEvent-trans same same')

-- Whether a call is a successful reservation of `fp`.
abbrev wins : String → Op → MemoryStore → ℕ
wins fp (reserves now fp') s =
    if fp' == fp then (if (reserve_fingerprint now fp' s).1 then 1 else 0) else 0
wins fp _ s = 0

-- The successful reservations of `fp` in a history.
abbrev pub reservations : String → List Op → MemoryStore → ℕ
reservations fp [] s = 0
reservations fp (op ∷ ops) s = wins fp op s + reservations fp ops (step op s)

abbrev known : String → MemoryStore → Bool
known fp s = is_some (get s.event_maps fp)

known-reserve_fingerprint :
    (fp fp' : String) (now : ℕ) (s : MemoryStore)
    → known fp s ≡ true
    → known fp (reserve_fingerprint now fp' s).0 ≡ true
unfolding reserve_fingerprint
known-reserve_fingerprint fp fp' now s h =
    ground (arith, is_some-get-put s.event_maps fp' fp (reserved now fp') h)

known-step :
    (fp : String) (op : Op) (s : MemoryStore) → known fp s ≡ true → known fp (step op s) ≡ true
unfolding step bind_event_map
known-step fp (reserves now fp') s h = known-reserve_fingerprint fp fp' now s h
known-step fp (binds now fp' ly_id deepsoc_id) s h = is_some-get-put s.event_maps fp' fp _ h
known-step fp op s h = ap (λ m. is_some (get m fp)) (event_maps-step op s refl) ∙ h

-- A reservation that succeeds finds the fingerprint unknown and leaves it known; a known one is
-- refused.
wins-known :
    (fp : String) (op : Op) (s : MemoryStore)
    → ((wins fp op s ≡ 0) ⊎ ((wins fp op s ≡ 1) × (known fp (step op s) ≡ true)))
unfolding step reserve_fingerprint
wins-known fp (reserves now fp') s =
    ground (arith, eq_iff fp' fp, get-put_self s.event_maps fp' (reserved now fp'))
wins-known fp op s = inl refl

wins_known-zero : (fp : String) (op : Op) (s : MemoryStore) → known fp s ≡ true → wins fp op s ≡ 0
unfolding reserve_fingerprint
wins_known-zero fp (reserves now fp') s h = ground (arith, eq_iff fp' fp)
wins_known-zero fp op s h = refl

reservations_known-zero :
    (fp : String) (ops : List Op) (s : MemoryStore) → known fp s ≡ true → reservations fp ops s ≡ 0
reservations_known-zero fp [] s h = refl
reservations_known-zero fp (op ∷ ops) s h = omega (
  arith,
  wins_known-zero fp op s h,
  reservations_known-zero fp ops (step op s) (known-step fp op s h),
)

-- In any history at most one reservation of a fingerprint succeeds.
pub reservations-le-one :
    (fp : String) (ops : List Op) (s : MemoryStore) → reservations fp ops s ≤ 1
reservations-le-one fp [] s = omega arith
reservations-le-one fp (op ∷ ops) s = elim (wins-known fp op s) [
  | inl lost ↦ omega (arith, lost, reservations-le-one fp ops (step op s))
  | inr (won, after) ↦ omega (arith, won, reservations_known-zero fp ops (step op s) after)
]

already_pushed-step :
    (id : String) (op : Op) (s : MemoryStore)
    → already_pushed s id ≡ true
    → already_pushed (step op s) id ≡ true
unfolding step already_pushed save_pushed_event
already_pushed-step id (saves_pushed now pe) s h = is_some-get-put s.pushed pe.ly_event_id id _ h
already_pushed-step id op s h = ap (λ m. is_some (get m id)) (pushed-step op s refl) ∙ h

-- A record that is there as pushed stays so, whatever calls follow.
already_pushed-run :
    (id : String) (ops : List Op) (s : MemoryStore)
    → already_pushed s id ≡ true
    → already_pushed (run ops s) id ≡ true
unfolding run
already_pushed-run id [] s h = h
already_pushed-run id (op ∷ ops) s h =
    already_pushed-run id ops (step op s) (already_pushed-step id op s h)
