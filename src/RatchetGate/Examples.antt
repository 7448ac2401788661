-- ===== src/RatchetGate/Examples.antt =====
-- An edge whose first lease outlives a reset.
use p2party_js.RatchetGate.Settling.{IsSound}
use p2party_js.RatchetGate.Runs.{
  Call, claims, opens, resets, rejects, no_gates, perform_all, perform_all-IsSound,
}
use p2party_js.Base.{List, ◌≡◌, refl, true, false, none, some, [], ◌∷◌, arith}
use p2party_js.Maps.{IsUnique, map_get}
use p2party_js.RatchetGate.{
  Gates, new_gate, reset_ratchet_gate, open_ratchet_gate, reject_ratchet_gate,
  is_current_ratchet_gate_lease, is_ratchet_gate_open,
}
use p2party_js.RatchetGate.Leases.{reset_ratchet_gate-supersedes}

abbrev one_edge : Gates
one_edge = record { gates = ("edge", new_gate 0) ∷ []; next = 1; settlements = [] }

reset_ratchet_gate-supersedes_example :
    (open_ratchet_gate "edge" 0 (reset_ratchet_gate "edge" one_edge).0
      ≡ ((reset_ratchet_gate "edge" one_edge).0, false))
    × (reject_ratchet_gate "edge" (some 0) (reset_ratchet_gate "edge" one_edge).0
        ≡ ((reset_ratchet_gate "edge" one_edge).0, false))
    × (is_current_ratchet_gate_lease "edge" 0 (reset_ratchet_gate "edge" one_edge).0 ≡ false)
    × (is_ratchet_gate_open "edge" none (reset_ratchet_gate "edge" one_edge).0 ≡ false)
    × (is_ratchet_gate_open "edge" none
          (open_ratchet_gate "edge"
            (reset_ratchet_gate "edge" one_edge).1
            (reset_ratchet_gate "edge" one_edge).0).0
        ≡ true)
unfolding IsUnique map_get
reset_ratchet_gate-supersedes_example =
    reset_ratchet_gate-supersedes "edge" one_edge 0 (refl, tt) (omega arith)

-- The second opening, by the same lease, and the one by the replaced lease settle nothing.
abbrev two_transports : List Call
two_transports =
    claims "edge"
    ∷ opens "edge" 0
    ∷ opens "edge" 0
    ∷ resets "edge"
    ∷ opens "edge" 0
    ∷ rejects "edge" (some 1)
    ∷ []

perform_all-IsSound_example : IsSound (perform_all two_transports no_gates)
perform_all-IsSound_example = perform_all-IsSound two_transports
