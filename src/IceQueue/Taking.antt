-- ===== src/IceQueue/Taking.antt =====
-- What src/api/webrtc/pendingIceCandidates.ts takes and discards: the candidates of one edge, in
-- their order, and no others.
use mathlib.Core.List.{append-nil, append_assoc}
use p2party_js.Base.{
  ℕ, zero, suc, ◌≤◌, ◌≡◌, refl, sym, ap, ◌∙◌, inl, inr, Bool, true, false, Bool-cases, some, List,
  [], ◌∷◌, ◌++◌, length, take, drop, get_elem?, if◌then◌else◌, arith, length-append, drop_of_get,
  length-take, take-append_of_length, drop-append_of_length,
}
use p2party_js.IceQueue.{
  IceCandidate, is_edge, taken, splice, take_from, take_pending_ice_candidates, discard_from,
  discard_pending_ice_candidates, discard_ice_candidates_for_attempt,
}
use p2party_js.IceQueue.Bounds.{get_of_lt, take_all}
use Prim.Native.String.{String}

module _ {C : Type 0} (p : IceCandidate C → Bool) where
  -- What the candidates that pass the test carry.
  abbrev pub carried : List (IceCandidate C) → List C
  carried [] = []
  carried (c ∷ cs) = if p c then c.candidate ∷ carried cs else carried cs

  -- The candidates that do not pass.
  abbrev pub others : List (IceCandidate C) → List (IceCandidate C)
  others [] = []
  others (c ∷ cs) = if p c then others cs else c ∷ others cs

  carried-append : (xs ys : List (IceCandidate C)) → carried (xs ++ ys) ≡ carried xs ++ carried ys
  carried-append [] ys = refl
  carried-append (c ∷ xs) ys = elim (Bool-cases (p c)) [
    | inl e ↦ rw e (ap (◌∷◌ c.candidate) (carried-append xs ys))
    | inr e ↦ rw e (carried-append xs ys)
  ]

  others-append : (xs ys : List (IceCandidate C)) → others (xs ++ ys) ≡ others xs ++ others ys
  others-append [] ys = refl
  others-append (c ∷ xs) ys = elim (Bool-cases (p c)) [
    | inl e ↦ rw e (others-append xs ys)
    | inr e ↦ rw e (ap (◌∷◌ c) (others-append xs ys))
  ]

  module _ (xs : List (IceCandidate C)) (c : IceCandidate C) where
    others-hit : p c ≡ true → others (xs ++ c ∷ []) ≡ others xs
    others-hit f = others-append xs (c ∷ []) ∙ rw f (append-nil (others xs))

    others-miss : p c ≡ false → others (xs ++ c ∷ []) ≡ others xs ++ c ∷ []
    others-miss f = others-append xs (c ∷ []) ∙ rw f refl

    carried-hit : p c ≡ true → carried (xs ++ c ∷ []) ≡ carried xs ++ c.candidate ∷ []
    carried-hit f = carried-append xs (c ∷ []) ∙ rw f refl

    carried-miss : p c ≡ false → carried (xs ++ c ∷ []) ≡ carried xs
    carried-miss f = carried-append xs (c ∷ []) ∙ rw f (append-nil (carried xs))

take_of_get :
    {A : Type 0} (xs : List A) (i : ℕ) (x : A)
    → get_elem? xs i ≡ some x
    → take (suc i) xs ≡ take i xs ++ x ∷ []
take_of_get [] i x e = cc
take_of_get (y ∷ xs) zero x e = let same : y ≡ x = cc in ap (λ z. z ∷ []) same
take_of_get (y ∷ xs) (suc i) x e = ap (◌∷◌ y) (take_of_get xs i x e)

drop_all : {A : Type 0} (xs : List A) → drop (length xs) xs ≡ []
drop_all [] = refl
drop_all (x ∷ xs) = drop_all xs

module _ {A : Type 0} (xs : List A) (i : ℕ) (h : i ≤ length xs) where
  take-splice : take i (splice i xs) ≡ take i xs
  unfolding splice
  take-splice = take-append_of_length (take i xs) (drop (suc i) xs) i (length-take i xs h)

  le-length-splice : i ≤ length (splice i xs)
  unfolding splice
  le-length-splice = omega (arith, length-append (take i xs) (drop (suc i) xs), length-take i xs h)

  drop-splice : drop i (splice i xs) ≡ drop (suc i) xs
  unfolding splice
  drop-splice = drop-append_of_length (take i xs) (drop (suc i) xs) i (length-take i xs h)

module _ {C : Type 0} (room_id peer_id : String) where
  take_from-hit :
      (i : ℕ) (queue : List (IceCandidate C)) (selected : List C) (c : IceCandidate C)
      → get_elem? queue i ≡ some c
      → is_edge room_id peer_id c ≡ true
      → take_from room_id peer_id (suc i) queue selected
        ≡ take_from room_id peer_id i (splice i queue) (c.candidate ∷ selected)
  unfolding take_from
  take_from-hit i queue selected c e f =
      rw (e, f, take_from)
        (ap (λ o. take_from room_id peer_id i (splice i queue) (taken room_id peer_id o selected))
          e)

  take_from-miss :
      (i : ℕ) (queue : List (IceCandidate C)) (selected : List C) (c : IceCandidate C)
      → get_elem? queue i ≡ some c
      → is_edge room_id peer_id c ≡ false
      → take_from room_id peer_id (suc i) queue selected
        ≡ take_from room_id peer_id i queue selected
  unfolding take_from
  take_from-miss i queue selected c e f = rw (e, f, take_from)

  -- The loop over the first `n`.
  take_from-eq :
      (n : ℕ) (queue : List (IceCandidate C)) (selected : List C)
      → n ≤ length queue
      → take_from room_id peer_id n queue selected ≡ (
        others (is_edge room_id peer_id) (take n queue) ++ drop n queue,
        carried (is_edge room_id peer_id) (take n queue) ++ selected,
      )
  unfolding take_from
  take_from-eq zero queue selected h = refl
  take_from-eq (suc i) queue selected h =
      let p = is_edge room_id peer_id in
      let (c, e) = get_of_lt queue i (omega arith) in
      let front = take_of_get queue i c e in
      elim (Bool-cases (is_edge room_id peer_id c)) [
        | inr f ↦
            let left = ap (others p) front ∙ others-miss p (take i queue) c f in
            let right = ap (carried p) front ∙ carried-miss p (take i queue) c f in
            let rest : others p (take i queue) ++ drop i queue
                ≡ others p (take (suc i) queue) ++ drop (suc i) queue =
              ap (◌++◌ (others p (take i queue))) (drop_of_get queue i e)
              ∙ sym (append_assoc (others p (take i queue)) (c ∷ []) (drop (suc i) queue))
              ∙ ap (λ t. t ++ drop (suc i) queue) (sym left) in
            take_from-miss i queue selected c e f
            ∙ take_from-eq i queue selected (omega arith)
            ∙ (λ j. (rest j, sym right j ++ selected))
        | inl f ↦
            let left = ap (others p) front ∙ others-hit p (take i queue) c f in
            let right = ap (carried p) front ∙ carried-hit p (take i queue) c f in
            let some_more : carried p (take i queue) ++ c.candidate ∷ selected
                ≡ carried p (take (suc i) queue) ++ selected =
              sym (append_assoc (carried p (take i queue)) (c.candidate ∷ []) selected)
              ∙ ap (λ t. t ++ selected) (sym right) in
            take_from-hit i queue selected c e f
            ∙ take_from-eq i (splice i queue) (c.candidate ∷ selected)
                (le-length-splice queue i (omega arith))
            ∙ (λ j. (
              others p (take-splice queue i (omega arith) j) ++ drop-splice queue i (omega arith) j,
              carried p (take-splice queue i (omega arith) j) ++ c.candidate ∷ selected,
            ))
            ∙ (λ j. (sym left j ++ drop (suc i) queue, some_more j))
      ]

  -- Taking the candidates of an edge leaves those of the others, in their order, and returns what
  -- those of the edge carry, in their order.
  pub take_pending_ice_candidates-eq :
      (queue : List (IceCandidate C))
      → take_pending_ice_candidates room_id peer_id queue
        ≡ (others (is_edge room_id peer_id) queue, carried (is_edge room_id peer_id) queue)
  unfolding take_pending_ice_candidates
  take_pending_ice_candidates-eq queue =
      let p = is_edge room_id peer_id in
      take_from-eq (length queue) queue [] (omega arith)
      ∙ (λ j. (
        others p (take_all queue j) ++ drop_all queue j,
        append-nil (carried p (take_all queue j)) j,
      ))
      ∙ ap (λ t. (t, carried p queue)) (append-nil (others p queue))

  discard_from-take_from :
      (n : ℕ) (queue : List (IceCandidate C)) (selected : List C)
      → n ≤ length queue
      → discard_from room_id peer_id n queue ≡ (take_from room_id peer_id n queue selected).0
  unfolding discard_from take_from
  discard_from-take_from zero queue selected h = refl
  discard_from-take_from (suc i) queue selected h =
      let (c, e) = get_of_lt queue i (omega arith) in
      elim (Bool-cases (is_edge room_id peer_id c)) [
        | inr f ↦
            rw (e, f) (discard_from-take_from i queue selected (omega arith))
            ∙ ap (λ o. o.0) (sym (take_from-miss i queue selected c e f))
        | inl f ↦
            rw (e, f)
              (discard_from-take_from i (splice i queue) (c.candidate ∷ selected)
                (le-length-splice queue i (omega arith)))
            ∙ ap (λ o. o.0) (sym (take_from-hit i queue selected c e f))
      ]

  -- Abandoning an attempt empties the queue of the connection, and leaves of the pending one just the
  -- candidates of other edges, in their order.
  pub discard_ice_candidates_for_attempt-eq :
      (connection_queue : List C) (pending_queue : List (IceCandidate C))
      → discard_ice_candidates_for_attempt room_id peer_id connection_queue pending_queue
        ≡ ([], others (is_edge room_id peer_id) pending_queue)
  unfolding discard_ice_candidates_for_attempt discard_pending_ice_candidates
      take_pending_ice_candidates
  discard_ice_candidates_for_attempt-eq connection_queue pending_queue =
      ap (λ t. ([], t))
        (discard_from-take_from (length pending_queue) pending_queue [] (omega arith)
          ∙ ap (λ o. o.0) (take_pending_ice_candidates-eq pending_queue))
