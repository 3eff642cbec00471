-- ===== src/Store/Trace/Messages.antt =====
-- Along every history the messages of an event stay numbered in the order in which they were
-- added, and in normal form; so ListMessages gives the visible ones, oldest first.
use traffic_analysis.Base.{
  ap, eq_iff, ◌∙◌, ℕ, suc, ◌+◌, ◌≤◌, ◌<◌, ◌^◌, String, some, List, [], ◌∷◌, ◌++◌, ◌≡◌, refl, arith,
  All, All-append, inc64, keep_if, if◌then◌else◌, ◌==◌, inl, inr, Option-cases, length, eq_iff,
  if-elim, ◌&&◌,
}
use native.Mathlib.Nat.{add-zero, zero-add}
use traffic_analysis.Dict.{get}
use traffic_analysis.Domain.{Message, Event}
use traffic_analysis.Domain.Roles.Normal.{IsNormal}
use traffic_analysis.Store.{MemoryStore, new_memory_store, ok, Result}
use traffic_analysis.Store.Rows.{rows_of, append_row}
use traffic_analysis.Store.Rows.Laws.{rows_of-append_row}
use traffic_analysis.Store.Messages.{added_message, add_message, list_messages}
use traffic_analysis.Store.Messages.Laws.{
  Numbered, Numbered-append, Numbered-weaken, is_visible, list_messages-rows_of, keep_if-append,
  id-added_message, event_id-added_message, added_message-IsNormal,
}
use traffic_analysis.Store.Trace.{Op, step, run, adds_message}
use traffic_analysis.Store.Trace.Frame.{messages_by_event-step, message_seq-step}

-- After at most `n` calls.
pub record IsOrderly (n : ℕ) (s : MemoryStore) : Type 0 where
  pub bounded : s.message_seq ≤ n
  pub numbered : (k : String) → Numbered 0 (rows_of s.messages_by_event k) s.message_seq
  pub normal : (k : String) → All IsNormal (rows_of s.messages_by_event k)

inc64-small : (n : ℕ) → n < 2 ^ 63 → inc64 n ≡ n + 1
unfolding inc64
inc64-small n h = omega arith

module _ (now : ℕ) (fresh : String) (m : Message) (s : MemoryStore) where
  abbrev pub stored : Message
  stored = added_message now fresh (inc64 s.message_seq) m

  pub add_message_there :
      {e : Event}
      → get s.events m.event_id ≡ some e
      → add_message now fresh m s ≡ (
        record s {
          message_seq = inc64 s.message_seq;
          messages_by_event = append_row s.messages_by_event stored.event_id stored;
        },
        ok stored,
      )
  unfolding add_message
  add_message_there there = rw (there, add_message)

  rows_of-add_message :
      {e : Event}
      → get s.events m.event_id ≡ some e
      → (k : String)
      → rows_of (add_message now fresh m s).0.messages_by_event k ≡ (
          if m.event_id == k
          then rows_of s.messages_by_event k ++ stored ∷ []
          else rows_of s.messages_by_event k)
  rows_of-add_message there k =
      ap (λ (r : MemoryStore × Result Message). rows_of r.0.messages_by_event k)
        (add_message_there there)
      ∙ rows_of-append_row s.messages_by_event stored.event_id k stored
      ∙ rw (event_id-added_message now fresh (inc64 s.message_seq) m)
          (ground (arith, eq_iff m.event_id k))

  Numbered-append_row :
      (k : String)
      → s.message_seq < 2 ^ 63
      → ((j : String) → Numbered 0 (rows_of s.messages_by_event j) s.message_seq)
      → Numbered 0
          (rows_of (append_row s.messages_by_event stored.event_id stored) k)
          (inc64 s.message_seq)
  Numbered-append_row k bound h =
      rw (rows_of-append_row s.messages_by_event stored.event_id k stored) (
        rw (inc64-small s.message_seq bound) (
          if-elim (λ rows. Numbered 0 rows (s.message_seq + 1)) (row.event_id == k) _ _
            (λ _.
              Numbered-append 0 s.message_seq _ row (h row.event_id)
                (id-added_message now fresh (s.message_seq + 1) m))
            (λ _. Numbered-weaken 0 s.message_seq _ (h k))))
    where
      row : Message
      row = added_message now fresh (s.message_seq + 1) m

  IsNormal-append_row :
      (k : String)
      → ((j : String) → All IsNormal (rows_of s.messages_by_event j))
      → All IsNormal (rows_of (append_row s.messages_by_event stored.event_id stored) k)
  IsNormal-append_row k h = rw (rows_of-append_row s.messages_by_event stored.event_id k stored) (
      if-elim (λ rows. All IsNormal rows) (stored.event_id == k) _ _
        (λ _.
          All-append IsNormal _ (stored ∷ []) (h stored.event_id)
            (added_message-IsNormal now fresh (inc64 s.message_seq) m, tt))
        (λ _. h k))

  add_message-IsOrderly :
      (n : ℕ) → n < 2 ^ 63 → IsOrderly n s → IsOrderly (n + 1) (add_message now fresh m s).0
  unfolding add_message
  add_message-IsOrderly n bound v = elim (Option-cases (get s.events m.event_id)) [
    | inl missing ↦
        rw (missing, add_message)
          (record { bounded = omega arith; numbered = v.numbered; normal = v.normal })
    | inr (e, there) ↦
        rw (there, add_message)
          (record {
            bounded = omega (arith, inc64-small s.message_seq (omega arith));
            numbered = λ k. Numbered-append_row k (omega arith) v.numbered;
            normal = λ k. IsNormal-append_row k v.normal;
          })
  ]

shift : (n k : ℕ) → n + suc k ≡ n + 1 + k
shift n k = omega arith

step-IsOrderly :
    (op : Op) (s : MemoryStore) (n : ℕ) → n < 2 ^ 63 → IsOrderly n s → IsOrderly (n + 1) (step op s)
unfolding step
step-IsOrderly (adds_message now fresh m) s n bound v =
    add_message-IsOrderly now fresh m s n bound v
step-IsOrderly op s n bound v =
    let same = messages_by_event-step op s refl in
    let same_seq = message_seq-step op s refl in
    record {
      bounded = omega (arith, same_seq, v.bounded);
      numbered = λ k. rw (same, same_seq) (v.numbered k);
      normal = λ k. rw same (v.normal k);
    }

run-IsOrderly :
    (ops : List Op) (s : MemoryStore) (n : ℕ)
    → n + length ops < 2 ^ 63
    → IsOrderly n s
    → IsOrderly (n + length ops) (run ops s)
unfolding run
run-IsOrderly [] s n bound v = rw (add-zero n) v
run-IsOrderly (op ∷ ops) s n bound v =
    rw (shift n (length ops))
      (run-IsOrderly ops (step op s) (n + 1) (omega arith) (step-IsOrderly op s n (omega arith) v))

new_memory_store-IsOrderly : (now : ℕ) → IsOrderly 0 (new_memory_store now)
unfolding new_memory_store rows_of get
new_memory_store-IsOrderly now = record {
  bounded = omega arith;
  numbered = λ k. omega arith;
  normal = λ k. tt;
}

module _ (start : ℕ) (ops : List Op) (bound : length ops + 1 < 2 ^ 63) where
  abbrev reached : MemoryStore
  reached = run ops (new_memory_store start)

  reached-IsOrderly : IsOrderly (length ops) reached
  reached-IsOrderly = rw (← zero-add (length ops)) (
      run-IsOrderly ops (new_memory_store start) 0 (omega arith) (new_memory_store-IsOrderly start))

  list_messages-reached :
      (k : String)
      → list_messages k reached ≡ keep_if is_visible (rows_of reached.messages_by_event k)
  list_messages-reached k =
      list_messages-rows_of k reached (omega (arith, reached-IsOrderly.bounded))
        (reached-IsOrderly.numbered k) (reached-IsOrderly.normal k)

  module _ (now : ℕ) (fresh : String) (m : Message) {e : Event}
      (there : get reached.events m.event_id ≡ some e) (k : String) where
    abbrev after : MemoryStore
    after = (add_message now fresh m reached).0

    abbrev pub row : Message
    row = stored now fresh m reached

    rows_of-after : rows_of after.messages_by_event k ≡ (
        if m.event_id == k
        then rows_of reached.messages_by_event k ++ row ∷ []
        else rows_of reached.messages_by_event k)
    rows_of-after = rows_of-add_message now fresh m reached there k

    list_messages-after :
        list_messages k after ≡ keep_if is_visible (rows_of after.messages_by_event k)
    list_messages-after =
        let v =
          add_message-IsOrderly now fresh m reached (length ops) (omega arith) reached-IsOrderly in
        list_messages-rows_of k after (omega (arith, v.bounded)) (v.numbered k) (v.normal k)

    -- In a store reached by fewer than 2^63 - 1 calls, AddMessage to an event that is there puts
    -- the stored message at the end of what ListMessages gives for that event, unless it is an
    -- internal one, and leaves what it gives for every other event alone.
    pub list_messages-add_message : list_messages k after ≡ (
        if m.event_id == k && is_visible row
        then list_messages k reached ++ row ∷ []
        else list_messages k reached)
    list_messages-add_message =
        rw (list_messages-after, list_messages-reached k, rows_of-after)
          (ground (arith, keep_if-append is_visible (rows_of reached.messages_by_event k) row))
