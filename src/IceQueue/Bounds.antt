-- ===== src/IceQueue/Bounds.antt =====
-- Candidates held by src/api/webrtc/pendingIceCandidates.ts: at most 64 for an edge, 1024 in all.
use mathlib.Core.Path.{subst}
use p2party_js.Base.{
  ℕ, zero, suc, ◌+◌, ◌-◌, ◌≤◌, ◌<◌, ◌≡◌, refl, ap, ◌⊎◌, inl, inr, Bool, true, false, Bool-cases,
  some, List, [], ◌∷◌, ◌++◌, length, take, drop, get_elem?, leb, if◌then◌else◌, arith,
  length-append, length-drop, take-append-drop, drop_of_get,
}
use p2party_js.Maps.{string_key}
use p2party_js.IceQueue.{
  IceCandidate, is_edge, splice, drop_excess, enqueue_pending_ice_candidate,
  enqueue_connection_ice_candidate, max_pending_ice_per_edge, max_pending_ice_total, same_text,
}
use native.Mathlib.Nat.{le_trans}
use Prim.Native.String.{String}

-- How many elements pass a test.
abbrev pub count : {A : Type 0} → (A → Bool) → List A → ℕ
count p [] = 0
count p (x ∷ xs) = (if p x then 1 else 0) + count p xs

module _ {A : Type 0} (p : A → Bool) where
  pub count-append : (xs ys : List A) → count p (xs ++ ys) ≡ count p xs + count p ys
  count-append [] ys = omega arith
  count-append (x ∷ xs) ys = omega (arith, count-append xs ys)

  count-drop : (n : ℕ) (xs : List A) → count p (drop n xs) ≤ count p xs
  count-drop zero xs = omega arith
  count-drop (suc n) [] = omega arith
  count-drop (suc n) (x ∷ xs) = omega (arith, count-drop n xs)

  -- The element that a splice takes out.
  count-splice :
      (i : ℕ) (xs : List A) (x : A)
      → get_elem? xs i ≡ some x
      → count p (splice i xs) + (if p x then 1 else 0) ≡ count p xs
  unfolding splice
  count-splice i xs x e = omega (
    arith,
    count-append (take i xs) (drop (suc i) xs),
    count-append (take i xs) (drop i xs),
    ap (count p) (take-append-drop i xs),
    ap (count p) (drop_of_get xs i e),
  )

  count-take :
      (i : ℕ) (xs : List A) (x : A)
      → get_elem? xs i ≡ some x
      → count p (take (suc i) xs) ≡ count p (take i xs) + (if p x then 1 else 0)
  count-take zero [] x e = cc
  count-take zero (y ∷ xs) x e = let same : y ≡ x = cc in rw same (omega arith)
  count-take (suc i) [] x e = cc
  count-take (suc i) (y ∷ xs) x e = omega (arith, count-take i xs x e)

pub get_of_lt :
    {A : Type 0} (xs : List A) (i : ℕ) → i < length xs → (x : A) × (get_elem? xs i ≡ some x)
get_of_lt [] i h = absurd (omega arith)
get_of_lt (x ∷ xs) zero h = (x, refl)
get_of_lt (x ∷ xs) (suc i) h = get_of_lt xs i (omega arith)

module _ {C : Type 0} (room_id peer_id : String) where
  drop_excess-other :
      (i k : ℕ) (queue : List (IceCandidate C)) (c : IceCandidate C)
      → get_elem? queue i ≡ some c
      → is_edge room_id peer_id c ≡ false
      → drop_excess room_id peer_id (suc i) k queue ≡ drop_excess room_id peer_id i k queue
  unfolding drop_excess
  drop_excess-other i k queue c e f = rw (e, f, drop_excess)

  drop_excess-full :
      (i k : ℕ) (queue : List (IceCandidate C)) (c : IceCandidate C)
      → get_elem? queue i ≡ some c
      → is_edge room_id peer_id c ≡ true
      → leb 64 (k + 1) ≡ true
      → drop_excess room_id peer_id (suc i) k queue ≡ splice i queue
  unfolding drop_excess
  drop_excess-full i k queue c e f full = rw (e, f, full, drop_excess)

  drop_excess-more :
      (i k : ℕ) (queue : List (IceCandidate C)) (c : IceCandidate C)
      → get_elem? queue i ≡ some c
      → is_edge room_id peer_id c ≡ true
      → leb 64 (k + 1) ≡ false
      → drop_excess room_id peer_id (suc i) k queue ≡ drop_excess room_id peer_id i (k + 1) queue
  unfolding drop_excess
  drop_excess-more i k queue c e f more = rw (e, f, more, drop_excess)

  -- The loop takes nothing away but, at most, one candidate: no count grows.
  count-drop_excess :
      (p : IceCandidate C → Bool) (n k : ℕ) (queue : List (IceCandidate C))
      → n ≤ length queue
      → count p (drop_excess room_id peer_id n k queue) ≤ count p queue
  unfolding drop_excess
  count-drop_excess p zero k queue h = omega arith
  count-drop_excess p (suc i) k queue h =
      let (c, e) = get_of_lt queue i (omega arith) in
      elim (Bool-cases (is_edge room_id peer_id c)) [
        | inr f ↦
            rw (drop_excess-other i k queue c e f) (count-drop_excess p i k queue (omega arith))
        | inl f ↦ elim (Bool-cases (leb 64 (k + 1))) [
          | inl full ↦
              rw (drop_excess-full i k queue c e f full) (omega (arith, count-splice p i queue c e))
          | inr more ↦
              rw (drop_excess-more i k queue c e f more)
                (count-drop_excess p i (k + 1) queue (omega arith))
        ]
      ]

  -- Behind the loop the edge has room for one more.
  room-drop_excess :
      (n k : ℕ) (queue : List (IceCandidate C))
      → n ≤ length queue
      → k ≤ 63
      → k + count (is_edge room_id peer_id) (take n queue) ≡ count (is_edge room_id peer_id) queue
      → count (is_edge room_id peer_id) queue ≤ 64
      → count (is_edge room_id peer_id) (drop_excess room_id peer_id n k queue) ≤ 63
  unfolding drop_excess
  room-drop_excess zero k queue h hk e le = omega arith
  room-drop_excess (suc i) k queue h hk total le =
      let (c, e) = get_of_lt queue i (omega arith) in
      let step = count-take (is_edge room_id peer_id) i queue c e in
      elim (Bool-cases (is_edge room_id peer_id c)) [
        | inr f ↦
            rw (drop_excess-other i k queue c e f)
              (room-drop_excess i k queue (omega arith) hk (omega (arith, rw f at step, total)) le)
        | inl f ↦
            let one : count (is_edge room_id peer_id) (take (suc i) queue)
                ≡ count (is_edge room_id peer_id) (take i queue) + 1 =
              rw f at step in
            elim (Bool-cases (leb 64 (k + 1))) [
              | inl full ↦
                  let less = count-splice (is_edge room_id peer_id) i queue c e in
                  let fewer : count (is_edge room_id peer_id) (splice i queue) + 1
                      ≡ count (is_edge room_id peer_id) queue =
                    rw f at less in
                  rw (drop_excess-full i k queue c e f full) (omega arith)
              | inr more ↦
                  rw (drop_excess-more i k queue c e f more)
                    (room-drop_excess i (k + 1) queue (omega arith) (ground arith) (omega arith) le)
            ]
      ]

-- At most 1024 candidates, and 64 for each edge.
pub record IsBounded {C : Type 0} (queue : List (IceCandidate C)) : Type 0 where
  pub total : length queue ≤ max_pending_ice_total
  pub per_edge :
      (room_id peer_id : String) → count (is_edge room_id peer_id) queue ≤ max_pending_ice_per_edge

pub take_all : {A : Type 0} (xs : List A) → take (length xs) xs ≡ xs
take_all [] = refl
take_all (x ∷ xs) = ap (◌∷◌ x) (take_all xs)

-- The candidate of an edge counts for that edge only.
counts_once :
    {C : Type 0} (r q r' q' : String) (c : C)
    → (r ≡ r') × (q ≡ q')
      ⊎ (is_edge r' q' (record { candidate = c; room_id = r; with_peer_id = q }) ≡ false)
unfolding is_edge
counts_once r q r' q' c = elim (Bool-cases (same_text r r')) [
  | inr e ↦ inr (rw e refl)
  | inl e ↦ elim (Bool-cases (same_text q q')) [
    | inr f ↦ inr (rw (e, f) refl)
    | inl f ↦ inl ((string_key.same_iff r r').0 e, (string_key.same_iff q q').0 f)
  ]
]

-- A candidate that is queued leaves at most 1024 candidates in all and 64 for each edge, if there
-- were no more before.
pub enqueue_pending_ice_candidate-IsBounded :
    {C : Type 0} (room_id peer_id : String) (queue : List (IceCandidate C)) (candidate : C)
    → IsBounded queue
    → IsBounded (enqueue_pending_ice_candidate room_id peer_id queue candidate)
unfolding enqueue_pending_ice_candidate
enqueue_pending_ice_candidate-IsBounded {C} room_id peer_id queue candidate b = record {
  total = omega (arith, length-append kept (new ∷ []), length-drop excess rest);
  per_edge = λ r' q'. elim (counts_once room_id peer_id r' q' candidate) [
    | inr other ↦
        let none_more : count (is_edge r' q') (new ∷ []) ≡ 0 = rw other refl in
        omega (
          arith,
          count-append (is_edge r' q') kept (new ∷ []),
          fewer (is_edge r' q'),
          b.per_edge r' q',
        )
    | inl (same_room, same_peer) ↦
        subst (λ r. count (is_edge r q') (kept ++ new ∷ []) ≤ 64) same_room
          (subst (λ q. count (is_edge room_id q) (kept ++ new ∷ []) ≤ 64) same_peer
            (omega (
              arith,
              count-append (is_edge room_id peer_id) kept (new ∷ []),
              count-drop (is_edge room_id peer_id) excess rest,
              at_most_one (is_edge room_id peer_id new),
              has_room,
            )))
  ];
}
  where
    new : IceCandidate C
    new = record { candidate = candidate; room_id = room_id; with_peer_id = peer_id }

    rest : List (IceCandidate C)
    rest = drop_excess room_id peer_id (length queue) 0 queue

    excess : ℕ
    excess = length rest - 1023

    kept : List (IceCandidate C)
    kept = drop excess rest

    at_most_one : (t : Bool) → (if t then 1 else 0) ≤ 1
    at_most_one true = omega arith
    at_most_one false = omega arith

    fewer : (p : IceCandidate C → Bool) → count p kept ≤ count p queue
    fewer p =
        le_trans (count-drop p excess rest)
          (count-drop_excess room_id peer_id p (length queue) 0 queue (omega arith))

    whole : take (length queue) queue ≡ queue
    whole = take_all queue

    has_room : count (is_edge room_id peer_id) rest ≤ 63
    has_room =
        room-drop_excess room_id peer_id (length queue) 0 queue (omega arith) (omega arith)
          (omega (arith, ap (count (is_edge room_id peer_id)) whole)) (b.per_edge room_id peer_id)

-- The queue of a connection holds at most 64 candidates, whatever it held before, the new one last.
pub length-enqueue_connection_ice_candidate :
    {C : Type 0} (queue : List C) (candidate : C)
    → length (enqueue_connection_ice_candidate queue candidate) ≤ max_pending_ice_per_edge
unfolding enqueue_connection_ice_candidate
length-enqueue_connection_ice_candidate queue candidate = omega (
  arith,
  length-append (drop (length queue - 63) queue) (candidate ∷ []),
  length-drop (length queue - 63) queue,
)
