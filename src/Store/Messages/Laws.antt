-- ===== src/Store/Messages/Laws.antt =====
-- internal/store/memory.go: the order of an event's messages, and what ListMessages gives.
use traffic_analysis.Base.{
  ℕ, ◌+◌, ◌≤◌, ◌<◌, ◌^◌, Bool, false, not, String, List, [], ◌∷◌, ◌++◌, map, ◌≡◌, refl, arith, All,
  less64, keep_if, if◌then◌else◌,
}
use traffic_analysis.Base.Sort.{Ordered, sort_by_fixed}
use traffic_analysis.Domain.{Message}
use traffic_analysis.Domain.Roles.{normalize_message, is_internal_message}
use traffic_analysis.Domain.Roles.Normal.{
  IsNormal, normalize_message_fixed, normalize_message-IsNormal,
}
use traffic_analysis.Store.{MemoryStore}
use traffic_analysis.Store.Rows.{rows_of}
use traffic_analysis.Store.Messages.{added_message, message_before, list_messages}

-- The numbers rise from above `lo`, and stay within `hi`.
abbrev pub Numbered : ℕ → List Message → ℕ → Type 0
Numbered lo [] hi = lo ≤ hi
Numbered lo (m ∷ ms) hi = (lo < m.id) × Numbered m.id ms hi

pub Numbered-le : (lo hi : ℕ) (ms : List Message) → Numbered lo ms hi → lo ≤ hi
Numbered-le lo hi [] h = h
Numbered-le lo hi (m ∷ ms) h = omega (arith, Numbered-le m.id hi ms h.1)

pub Numbered-append :
    (lo hi : ℕ) (ms : List Message) (m : Message)
    → Numbered lo ms hi
    → m.id ≡ hi + 1
    → Numbered lo (ms ++ m ∷ []) (hi + 1)
Numbered-append lo hi [] m h e = (omega arith, omega arith)
Numbered-append lo hi (x ∷ ms) m h e = (h.0, Numbered-append x.id hi ms m h.1 e)

pub Numbered-weaken : (lo hi : ℕ) (ms : List Message) → Numbered lo ms hi → Numbered lo ms (hi + 1)
Numbered-weaken lo hi [] h = omega arith
Numbered-weaken lo hi (x ∷ ms) h = (h.0, Numbered-weaken x.id hi ms h.1)

less64-false : (a b : ℕ) → a < b → b < 2 ^ 63 → less64 b a ≡ false
unfolding less64
less64-false a b h k = ground arith

Numbered-Ordered :
    (lo hi : ℕ) (ms : List Message) → hi < 2 ^ 63 → Numbered lo ms hi → Ordered message_before ms
unfolding message_before
Numbered-Ordered lo hi [] bound h = tt
Numbered-Ordered lo hi (x ∷ []) bound h = tt
Numbered-Ordered lo hi (x ∷ y ∷ ms) bound h = (
  less64-false x.id y.id h.1.0 (omega (arith, Numbered-le y.id hi ms h.1.1)),
  Numbered-Ordered x.id hi (y ∷ ms) bound h.1,
)

map-normalize_message_fixed : (ms : List Message) → All IsNormal ms → map normalize_message ms ≡ ms
map-normalize_message_fixed [] h = refl
map-normalize_message_fixed (m ∷ ms) h =
    cc (normalize_message_fixed m h.0, map-normalize_message_fixed ms h.1)

abbrev pub is_visible : Message → Bool
is_visible m = not (is_internal_message m)

-- Where the messages of an event are numbered in order and normal, ListMessages gives the visible
-- ones as they are.
pub list_messages-rows_of :
    (k : String) (s : MemoryStore) {hi : ℕ}
    → hi < 2 ^ 63
    → Numbered 0 (rows_of s.messages_by_event k) hi
    → All IsNormal (rows_of s.messages_by_event k)
    → list_messages k s ≡ keep_if is_visible (rows_of s.messages_by_event k)
unfolding list_messages
list_messages-rows_of k s {hi} bound numbered normal =
    let rows = rows_of s.messages_by_event k in
    rw (sort_by_fixed message_before rows (Numbered-Ordered 0 hi rows bound numbered))
      (rw (map-normalize_message_fixed rows normal))

pub keep_if-append {ℓ} :
    {A : Type ℓ} (test : A → Bool) (xs : List A) (x : A)
    → keep_if test (xs ++ x ∷ []) ≡ (if test x then keep_if test xs ++ x ∷ [] else keep_if test xs)
unfolding keep_if
keep_if-append test [] x = refl
keep_if-append test (y ∷ ys) x = ground (arith, keep_if-append test ys x)

module _ (now : ℕ) (fresh : String) (seq : ℕ) (m : Message) where
  pub id-added_message : (added_message now fresh seq m).id ≡ seq
  unfolding added_message normalize_message
  id-added_message = ground arith

  pub event_id-added_message : (added_message now fresh seq m).event_id ≡ m.event_id
  unfolding added_message normalize_message
  event_id-added_message = ground arith

  pub added_message-IsNormal : IsNormal (added_message now fresh seq m)
  unfolding added_message
  added_message-IsNormal = normalize_message-IsNormal _
