-- ===== src/RatchetGate/Leases.antt =====
-- A lease of src/handlers/ratchetGate.ts that a reset replaced has no power over the new gate.
use Prim.Native.String.{String}
use p2party_js.Base.{
  ℕ, ◌+◌, ◌<◌, ◌≡◌, refl, ap, ◌∙◌, true, false, none, some, inl, inr, arith, ==_refl, ==_of_ne,
  Option-cases, Bool-cases,
}
use p2party_js.Maps.{map_get, map_set, map_delete, IsUnique, string_key}
use p2party_js.Maps.Laws.{map_get-map_set, map_get-map_delete, map_set-IsUnique}
use p2party_js.RatchetGate.{
  Gate, Gates, new_gate, ensure, settle_gate, claim_ratchet_gate, is_current_ratchet_gate_lease,
  is_ratchet_gate_open, open_ratchet_gate, reject_ratchet_gate, reject_pending, reset_ratchet_gate,
}

-- Rejecting the pending gate keeps one gate for each edge and draws no number.
reject_pending-keeps :
    (edge : String) (s : Gates)
    → IsUnique s.gates
    → IsUnique (reject_pending edge s).gates × ((reject_pending edge s).next ≡ s.next)
unfolding reject_pending settle_gate
reject_pending-keeps edge s u = elim (Option-cases (map_get edge s.gates)) [
  | inl h ↦ rw (h, reject_pending) (u, refl)
  | inr (gate, h) ↦ elim (Bool-cases gate.settled) [
    | inl e ↦ rw (h, e, reject_pending) (u, refl)
    | inr e ↦ rw (h, e, reject_pending) (map_set-IsUnique edge _ s.gates u, refl)
  ]
]

claim-absent :
    (edge : String) (s : Gates)
    → map_get edge s.gates ≡ none
    → claim_ratchet_gate edge s
      ≡ (record s { gates = map_set edge (new_gate s.next) s.gates; next = s.next + 1 }, s.next)
unfolding claim_ratchet_gate ensure
claim-absent edge s h = rw (h, claim_ratchet_gate, ensure) refl

-- Behind a reset the edge has a new gate, and its lease is returned.
reset-gate :
    (edge : String) (s : Gates)
    → IsUnique s.gates
    → (map_get edge (reset_ratchet_gate edge s).0.gates ≡ some (new_gate s.next))
      × ((reset_ratchet_gate edge s).1 ≡ s.next)
unfolding reset_ratchet_gate
reset-gate edge s u =
    let (u', same) = reject_pending-keeps edge s u in
    let rejected = reject_pending edge s in
    let e =
      claim-absent edge (record rejected { gates = map_delete edge rejected.gates })
        (map_get-map_delete edge rejected.gates u') in
    (
      ap (λ (r : Gates × ℕ). map_get edge r.0.gates) e
          ∙ map_get-map_set edge (new_gate rejected.next) _
          ∙ ap (λ n. some (new_gate n)) same,
      ap (λ (r : Gates × ℕ). r.1) e ∙ same,
    )

ensure-present :
    (edge : String) (s : Gates) (gate : Gate)
    → map_get edge s.gates ≡ some gate
    → ensure edge s ≡ (s, gate)
unfolding ensure
ensure-present edge s gate h = rw (h, ensure) refl

-- Take one gate for each edge and a lease drawn before. Behind a reset of an edge that lease neither
-- opens nor rejects its gate: both calls return false and change nothing, and it is not current. The
-- gate is not open; the lease that the reset returned opens it.
pub reset_ratchet_gate-supersedes :
    (edge : String) (s : Gates) (old : ℕ)
    → IsUnique s.gates
    → old < s.next
    → (open_ratchet_gate edge old (reset_ratchet_gate edge s).0
        ≡ ((reset_ratchet_gate edge s).0, false))
      × (reject_ratchet_gate edge (some old) (reset_ratchet_gate edge s).0
          ≡ ((reset_ratchet_gate edge s).0, false))
      × (is_current_ratchet_gate_lease edge old (reset_ratchet_gate edge s).0 ≡ false)
      × (is_ratchet_gate_open edge none (reset_ratchet_gate edge s).0 ≡ false)
      × (is_ratchet_gate_open edge none
            (open_ratchet_gate edge (reset_ratchet_gate edge s).1 (reset_ratchet_gate edge s).0).0
          ≡ true)
unfolding open_ratchet_gate reject_ratchet_gate is_current_ratchet_gate_lease is_ratchet_gate_open
    settle_gate
reset_ratchet_gate-supersedes edge s old u drawn =
    let (gate, lease) = reset-gate edge s u in
    let found = ensure-present edge (reset_ratchet_gate edge s).0 (new_gate s.next) gate in
    let other = ==_of_ne s.next old (λ h. omega (arith, h, drawn)) in
    (
      rw (found, other) refl,
      rw (found, other) refl,
      rw (gate, other, is_current_ratchet_gate_lease) refl,
      rw (gate, is_ratchet_gate_open) refl,
      rw (found, lease, ==_refl s.next, map_get-map_set edge, is_ratchet_gate_open) refl,
    )
