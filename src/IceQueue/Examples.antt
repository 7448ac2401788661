-- ===== src/IceQueue/Examples.antt =====
-- The queue of early candidates on a concrete room.
use p2party_js.Base.{ℕ, ◌≤◌, ◌≡◌, List, [], ◌∷◌, arith}
use p2party_js.IceQueue.{
  IceCandidate, is_edge, enqueue_pending_ice_candidate, take_pending_ice_candidates,
}
use p2party_js.IceQueue.Bounds.{IsBounded, count, enqueue_pending_ice_candidate-IsBounded}
use p2party_js.IceQueue.Taking.{others, carried, take_pending_ice_candidates-eq}

abbrev from : ℕ → IceCandidate ℕ
from n = record { candidate = n; room_id = "room"; with_peer_id = "ann" }

abbrev other : IceCandidate ℕ
other = record { candidate = 7; room_id = "room"; with_peer_id = "bob" }

abbrev queue : List (IceCandidate ℕ)
queue = from 1 ∷ other ∷ from 2 ∷ []

few : (p : IceCandidate ℕ → _) → count p queue ≤ 3
few p = ground arith

queue-IsBounded : IsBounded queue
queue-IsBounded = record {
  total = omega arith;
  per_edge = λ room_id peer_id. omega (arith, few (is_edge room_id peer_id));
}

enqueue_pending_ice_candidate-IsBounded_example :
    IsBounded (enqueue_pending_ice_candidate "room" "ann" queue 3)
enqueue_pending_ice_candidate-IsBounded_example =
    enqueue_pending_ice_candidate-IsBounded "room" "ann" queue 3 queue-IsBounded

take_pending_ice_candidates-eq_example :
    take_pending_ice_candidates "room" "ann" queue
    ≡ (others (is_edge "room" "ann") queue, carried (is_edge "room" "ann") queue)
take_pending_ice_candidates-eq_example = take_pending_ice_candidates-eq "room" "ann" queue
