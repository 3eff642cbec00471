-- ===== src/Store/Events/Laws.antt =====
-- internal/store/memory.go: what the methods on events give, and what they leave alone.
use traffic_analysis.Base.{
  ℕ, String, none, some, ◌≡◌, ◌≢◌, arith, ap, ◌∙◌, sym, Option-cases, inl, inr, inc64, decide_eq,
}
use mathlib.Core.Path.{subst}
use mathlib.Core.Option.{some-injective}
use traffic_analysis.Dict.{get, put}
use traffic_analysis.Dict.Laws.{get-put_self, get-put_ne}
use traffic_analysis.Value.{Fields}
use traffic_analysis.Domain.{Event}
use traffic_analysis.Store.{MemoryStore, ok, err, default_text}
use traffic_analysis.Store.Events.{
  created_event, insert_event, create_event, get_event, patched_event, update_event,
}

-- What no call changes in an event.
pub record IsSameEvent (e e' : Event) : Type 0 where
  pub id : e'.id ≡ e.id
  pub event_id : e'.event_id ≡ e.event_id
  pub title : e'.title ≡ e.title
  pub source : e'.source ≡ e.source
  pub category : e'.category ≡ e.category
  pub current_round : e'.current_round ≡ e.current_round
  pub observables : e'.observables ≡ e.observables
  pub created_at : e'.created_at ≡ e.created_at

pub IsSameEvent-refl : (e : Event) → IsSameEvent e e
IsSameEvent-refl e = ground arith

pub IsSameEvent-trans : {e f g : Event} → IsSameEvent e f → IsSameEvent f g → IsSameEvent e g
IsSameEvent-trans a b = ground arith

-- The event with a key in a store is that event, or a later state of it.
abbrev pub Keeps : MemoryStore → String → Event → Type 0
Keeps s key e = (e' : Event) × (get s.events key ≡ some e') × IsSameEvent e e'

module _ (now : ℕ) (fresh : String) (e : Event) (s : MemoryStore) where
  abbrev pub key : String
  key = default_text e.event_id fresh

  abbrev pub stored : Event
  stored = created_event now key (inc64 s.event_seq) e

  pub create_event_taken :
      {other : Event}
      → get s.events key ≡ some other
      → create_event now fresh e s ≡ (s, err "event already exists")
  unfolding create_event
  create_event_taken h = rw (h, create_event)

  pub create_event_free :
      get s.events key ≡ none
      → create_event now fresh e s ≡ (insert_event s (inc64 s.event_seq) stored, ok stored)
  unfolding create_event
  create_event_free h = rw (h, create_event)

  -- CreateEvent with a free id stores an event that is found under its id.
  pub get_event-create_event :
      get s.events key ≡ none
      → get_event (create_event now fresh e s).0 stored.event_id ≡ some stored
  unfolding get_event insert_event
  get_event-create_event free =
      rw (create_event_free free) (get-put_self s.events stored.event_id stored)

  pub create_event-Keeps :
      (k : String) (f : Event) → get s.events k ≡ some f → Keeps (create_event now fresh e s).0 k f
  unfolding insert_event created_event
  create_event-Keeps k f h = elim (Option-cases (get s.events key)) [
    | inl free ↦
        let other : key ≢ k = λ i. cc (ap (get s.events) i) in
        rw (create_event_free free)
          (f, get-put_ne s.events key k stored other ∙ h, IsSameEvent-refl f)
    | inr (g, taken) ↦ rw (create_event_taken taken) (f, h, IsSameEvent-refl f)
  ]

module _ (now : ℕ) (id : String) (patch : Fields) (s : MemoryStore) where
  pub update_event_missing : get s.events id ≡ none → update_event now id patch s ≡ (s, none)
  unfolding update_event
  update_event_missing h = rw (h, update_event)

  pub update_event_found :
      {e : Event}
      → get s.events id ≡ some e
      → update_event now id patch s ≡ (
        record s { events = put s.events id (patched_event now patch e) },
        some (patched_event now patch e),
      )
  unfolding update_event
  update_event_found h = rw (h, update_event)

  patched-IsSameEvent : (e : Event) → IsSameEvent e (patched_event now patch e)
  unfolding patched_event
  patched-IsSameEvent e = ground arith

  pub update_event-Keeps :
      (k : String) (f : Event) → get s.events k ≡ some f → Keeps (update_event now id patch s).0 k f
  update_event-Keeps k f h = elim (Option-cases (get s.events id)) [
    | inl missing ↦ rw (update_event_missing missing) (f, h, IsSameEvent-refl f)
    | inr (e, found) ↦
        let e' = patched_event now patch e in
        rw (update_event_found found) (elim (decide_eq id k) [
          | inl same ↦
              let h' : some f ≡ some e = sym h ∙ ap (get s.events) (sym same) ∙ found in
              (
                e',
                ap (get (put s.events id e')) (sym same) ∙ get-put_self s.events id e',
                subst (λ g. IsSameEvent g e') (some-injective e f (sym h')) (patched-IsSameEvent e),
              )
          | inr other ↦ (f, get-put_ne s.events id k e' other ∙ h, IsSameEvent-refl f)
        ])
  ]
