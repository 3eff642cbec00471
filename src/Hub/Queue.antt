-- ===== src/Hub/Queue.antt =====
-- internal/socketio/hub.go: the queue of a session, and drainPackets.
use traffic_analysis.Base.{
  ℕ, zero, suc, ◌≤◌, Bool, true, false, List, [], ◌∷◌, ◌++◌, ◌≡◌, ◌≢◌, refl, arith, length, ap,
  take, drop, if◌then◌else◌,
}
use traffic_analysis.Hub.{Packet}

-- The loop that takes what is there, while the batch has room for `room` more.
unfoldable pub drain_more : ℕ → List Packet → List Packet × List Packet
drain_more zero queue = ([], queue)
drain_more (suc room) [] = ([], [])
drain_more (suc room) (p ∷ queue) =
    let (packets, rest) = drain_more room queue in (p ∷ packets, rest)

-- drainPackets on a queue: the packets that it returns and the queue that it leaves. `late` says
-- that its first select took the timeout, as it must on an empty queue that nobody fills.
unfoldable pub drain : Bool → List Packet → List Packet × List Packet
unfolding drain_more
drain true queue = ([], queue)
drain false [] = ([], [])
drain false (p ∷ queue) = let (packets, rest) = drain_more 15 queue in (p ∷ packets, rest)

drain_more-split :
    (room : ℕ) (queue : List Packet)
    → ((drain_more room queue).0 ++ (drain_more room queue).1 ≡ queue)
      × (length (drain_more room queue).0 ≤ room)
unfolding drain_more
drain_more-split zero queue = (refl, omega arith)
drain_more-split (suc room) [] = (refl, omega arith)
drain_more-split (suc room) (p ∷ queue) =
    let (split, bound) = drain_more-split room queue in (ap (◌∷◌ p) split, omega arith)

drain_more-take :
    (room : ℕ) (queue : List Packet) → drain_more room queue ≡ (take room queue, drop room queue)
unfolding drain_more
drain_more-take zero queue = refl
drain_more-take (suc room) [] = refl
drain_more-take (suc room) (p ∷ queue) = rw (drain_more-take room queue) refl

-- The loop of drainPackets takes the first sixteen packets of the queue and leaves the others, unless
-- it times out: then it takes nothing.
pub drain-take :
    (late : Bool) (queue : List Packet)
    → drain late queue ≡ (if late then ([], queue) else (take 16 queue, drop 16 queue))
unfolding drain
drain-take true queue = refl
drain-take false [] = refl
drain-take false (p ∷ queue) = rw (drain_more-take 15 queue) refl

-- What a poll takes and what it leaves, in this order, are the queue; it takes sixteen packets at
-- most, and one at least from a queue that has one unless it times out.
pub drain-split :
    (late : Bool) (queue : List Packet)
    → ((drain late queue).0 ++ (drain late queue).1 ≡ queue)
      × (length (drain late queue).0 ≤ 16)
      × (late ≡ false → queue ≢ [] → (drain late queue).0 ≢ [])
unfolding drain
drain-split true queue = (refl, omega arith, λ e. cc)
drain-split false [] = (refl, omega arith, λ e h. absurd (h refl))
drain-split false (p ∷ queue) =
    let (split, bound) = drain_more-split 15 queue in (ap (◌∷◌ p) split, omega arith, λ e h k. cc)
