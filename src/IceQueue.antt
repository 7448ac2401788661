-- ===== src/IceQueue.antt =====
-- src/api/webrtc/pendingIceCandidates.ts: candidates that arrive before the session of their edge is
-- described, the oldest first. A candidate is opaque; `normalizeIceCandidate` copies its fields.
pub mod Bounds
pub mod Taking
mod Examples
use p2party_js.Base.{
  ℕ, zero, suc, ◌+◌, ◌-◌, Bool, true, false, ◌&&◌, Option, none, some, List, [], ◌∷◌, ◌++◌, length,
  take, drop, get_elem?, leb, if◌then◌else◌,
}
use p2party_js.Maps.{Key, string_key}
use Prim.Native.String.{String}

abbrev pub max_pending_ice_per_edge : ℕ
max_pending_ice_per_edge = 64

abbrev pub max_pending_ice_total : ℕ
max_pending_ice_total = 1024

abbrev pub same_text : String → String → Bool
same_text = string_key.same

-- `queue.splice(i, 1)`.
unfoldable pub splice {ℓ} : {A : Type ℓ} → ℕ → List A → List A
splice i queue = take i queue ++ drop (suc i) queue

-- `while (queue.length >= limit) queue.shift()`, for a positive limit.
abbrev pub shift_below {ℓ} : {A : Type ℓ} → ℕ → List A → List A
shift_below limit queue = drop (length queue - (limit - 1)) queue

-- An `IRTCIceCandidate`: `C` stands for the fields of an `RTCIceCandidateInit`.
pub record IceCandidate (C : Type 0) : Type 0 where
  pub candidate : C
  pub room_id : String
  pub with_peer_id : String

module _ {C : Type 0} (room_id peer_id : String) where
  unfoldable pub is_edge : IceCandidate C → Bool
  is_edge c = same_text c.room_id room_id && same_text c.with_peer_id peer_id

  -- The test at an index of the loops, which are all in bounds.
  abbrev pub at_edge : Option (IceCandidate C) → Bool
  at_edge none = false
  at_edge (some c) = is_edge c

  -- The loop from the index below `n` down to 0, with the candidates of the edge met so far.
  unfoldable pub drop_excess : ℕ → ℕ → List (IceCandidate C) → List (IceCandidate C)
  unfolding is_edge splice
  drop_excess zero edge_count queue = queue
  drop_excess (suc i) edge_count queue = elim (at_edge (get_elem? queue i)) [
    | false ↦ drop_excess i edge_count queue
    | true ↦
        let rest = drop_excess i (edge_count + 1) queue in
        if leb max_pending_ice_per_edge (edge_count + 1) then splice i queue else rest
  ]

  unfoldable pub enqueue_pending_ice_candidate : List (IceCandidate C) → C → List (IceCandidate C)
  unfolding drop_excess
  enqueue_pending_ice_candidate queue candidate =
      let kept = shift_below max_pending_ice_total (drop_excess (length queue) 0 queue) in
      kept ++ record { candidate = candidate; room_id = room_id; with_peer_id = peer_id } ∷ []

  abbrev pub taken : Option (IceCandidate C) → List C → List C
  taken none selected = selected
  taken (some c) selected = c.candidate ∷ selected

  -- The queue that is left, and the candidates taken. A caller reads the fields of a candidate.
  unfoldable pub take_from : ℕ → List (IceCandidate C) → List C → List (IceCandidate C) × List C
  unfolding is_edge splice
  take_from zero queue selected = (queue, selected)
  take_from (suc i) queue selected = elim (at_edge (get_elem? queue i)) [
    | false ↦ take_from i queue selected
    | true ↦ take_from i (splice i queue) (taken (get_elem? queue i) selected)
  ]

  unfoldable pub take_pending_ice_candidates :
      List (IceCandidate C) → List (IceCandidate C) × List C
  unfolding take_from
  take_pending_ice_candidates queue = take_from (length queue) queue []

  unfoldable pub discard_from : ℕ → List (IceCandidate C) → List (IceCandidate C)
  unfolding is_edge splice
  discard_from zero queue = queue
  discard_from (suc i) queue =
      discard_from i (if at_edge (get_elem? queue i) then splice i queue else queue)

  unfoldable pub discard_pending_ice_candidates : List (IceCandidate C) → List (IceCandidate C)
  unfolding discard_from
  discard_pending_ice_candidates queue = discard_from (length queue) queue

  -- The queue of the connection, then the pending one.
  unfoldable pub discard_ice_candidates_for_attempt :
      List C → List (IceCandidate C) → List C × List (IceCandidate C)
  unfolding discard_pending_ice_candidates
  discard_ice_candidates_for_attempt connection_queue pending_queue =
      ([], discard_pending_ice_candidates pending_queue)

-- The queue of one connection.
unfoldable pub enqueue_connection_ice_candidate : {C : Type 0} → List C → C → List C
enqueue_connection_ice_candidate queue candidate =
    shift_below max_pending_ice_per_edge queue ++ candidate ∷ []
