-- ===== src/Service/Sync/Rounds.antt =====
-- internal/service/services.go: the rounds of a sync together.
use traffic_analysis.Base.{
  ℕ, ◌+◌, ◌≤◌, Bool, true, String, Option, none, some, List, [], ◌∷◌, ◌≡◌, refl, arith, ap, ◌∙◌,
  inl, inr, Bool-cases, All, length,
}
use traffic_analysis.Value.{Fields}
use traffic_analysis.Domain.{PushedEvent}
use traffic_analysis.Store.Sync.{already_pushed}
use traffic_analysis.Service.{Outside, World}
use traffic_analysis.Service.Sync.{Progress, record_id_of, settle, sync_item, sync_items}
use traffic_analysis.Service.Sync.Laws.{
  sync_item_done, sync_item_new, sync_item-pushed, tried, moved,
}

module _ (o : Outside) (retries : ℕ) where
  abbrev pub is_recorded : World → Fields → Bool
  is_recorded w ev = already_pushed w.store (record_id_of o ev)

  abbrev pub after : List Fields → World → Progress → World
  after items w p = (sync_items o retries items (w, p)).0

  abbrev pub report : List Fields → World → Progress → Progress
  report items w p = (sync_items o retries items (w, p)).1

  sync_items-grow :
      (items : List Fields) (w : World) (p : Progress) (id : String)
      → already_pushed w.store id ≡ true
      → already_pushed (after items w p).store id ≡ true
  unfolding sync_items
  sync_items-grow [] w p id h = h
  sync_items-grow (ev ∷ items) w p id h =
      let (w', p') = sync_item o retries ev (w, p) in
      sync_items-grow items w' p' id ((sync_item-pushed o retries ev w p).1 id h)

  -- After the rounds every event that was fetched is recorded.
  pub sync_items-recorded :
      (items : List Fields) (w : World) (p : Progress)
      → All (λ ev. is_recorded (after items w p) ev ≡ true) items
  unfolding sync_items
  sync_items-recorded [] w p = tt
  sync_items-recorded (ev ∷ items) w p =
      let (w', p') = sync_item o retries ev (w, p) in
      (
        sync_items-grow items w' p' (record_id_of o ev) (sync_item-pushed o retries ev w p).0,
        sync_items-recorded items w' p',
      )

  -- Rounds over events that are all recorded change neither the store nor the counts.
  pub sync_items_recorded :
      (items : List Fields) (w : World) (p : Progress)
      → All (λ ev. is_recorded w ev ≡ true) items
      → (after items w p ≡ w)
        × ((report items w p).pushed ≡ p.pushed)
        × ((report items w p).failed ≡ p.failed)
  unfolding sync_items
  sync_items_recorded [] w p h = (refl, refl, refl)
  sync_items_recorded (ev ∷ items) w p h =
      let done = sync_item_done o retries ev w p h.0 in
      let (world, pushed, failed) = sync_items_recorded items w (moved o retries ev w p) h.1 in
      (
        ap (λ (st : World × Progress). (sync_items o retries items st).0) done ∙ world,
        ap (λ (st : World × Progress). (sync_items o retries items st).1.pushed) done ∙ pushed,
        ap (λ (st : World × Progress). (sync_items o retries items st).1.failed) done ∙ failed,
      )

  -- A second pass over the same events changes nothing in the world and counts nothing.
  pub sync_items-twice :
      (items : List Fields) (w : World) (p q : Progress)
      → (after items (after items w p) q ≡ after items w p)
        × ((report items (after items w p) q).pushed ≡ q.pushed)
        × ((report items (after items w p) q).failed ≡ q.failed)
  sync_items-twice items w p q =
      sync_items_recorded items (after items w p) q (sync_items-recorded items w p)

  settle-count :
      (pe : PushedEvent) (last : Option String) (w : World) (p : Progress)
      → (settle o pe last w p).1.pushed + (settle o pe last w p).1.failed ≡ p.pushed + p.failed + 1
  unfolding settle
  settle-count pe none w p = omega arith
  settle-count pe (some e) w p = omega arith

  sync_item-count :
      (ev : Fields) (w : World) (p : Progress)
      → (sync_item o retries ev (w, p)).1.pushed + (sync_item o retries ev (w, p)).1.failed
        ≤ p.pushed + p.failed + 1
  sync_item-count ev w p = elim (Bool-cases (is_recorded w ev)) [
    | inl h ↦ rw (sync_item_done o retries ev w p h) (omega arith)
    | inr h ↦
        let (_, pe, last) = tried o retries ev w p in
        rw (sync_item_new o retries ev w p h)
          (omega (arith, settle-count pe last (tried o retries ev w p).0 (moved o retries ev w p)))
  ]

  -- A pass adds to its two counts together at most the number of events that were fetched.
  pub sync_items-count :
      (items : List Fields) (w : World) (p : Progress)
      → (report items w p).pushed + (report items w p).failed ≤ p.pushed + p.failed + length items
  unfolding sync_items
  sync_items-count [] w p = omega arith
  sync_items-count (ev ∷ items) w p =
      let (w', p') = sync_item o retries ev (w, p) in
      omega (arith, sync_items-count items w' p', sync_item-count ev w p)
