-- ===== src/RatchetGate.antt =====
-- src/handlers/ratchetGate.ts: the gates that a handshake opens. An edge is the string that `gateKey`
-- makes of a room and a peer. A gate's promise and lease are made together and have one number; to
-- settle a promise is to list it among those settled.
pub mod Leases
pub mod Settling
pub mod Runs
mod Examples
use Prim.Native.String.{String}
use p2party_js.Base.{
  ℕ, ◌+◌, Bool, true, false, not, ◌&&◌, ◌||◌, ◌==◌, Option, none, some, List, [], ◌∷◌, ◌++◌,
  if◌then◌else◌,
}
use p2party_js.Maps.{map_get, map_set, map_delete, string_key}

pub data Outcome : Type 0 where
  pending opened rejected : Outcome

pub record Gate : Type 0 where
  pub lease : ℕ
  pub settled : Bool
  pub outcome : Outcome

-- The gates, the number of the next one, and the promises settled, in order, with how.
pub record Gates : Type 0 where
  pub gates : List (String × Gate)
  pub next : ℕ
  pub settlements : List (ℕ × Outcome)

abbrev pub is_open : Outcome → Bool
is_open opened = true
is_open _ = false

abbrev pub new_gate : ℕ → Gate
new_gate lease = record { lease = lease; settled = false; outcome = pending }

unfoldable pub ensure : String → Gates → Gates × Gate
ensure edge s = elim (map_get edge s.gates) [
  | some gate ↦ (s, gate)
  | none ↦ (
    record s { gates = map_set edge (new_gate s.next) s.gates; next = s.next + 1 },
    new_gate s.next,
  )
]

-- The promise of the gate, and its lease.
unfoldable pub get_ratchet_gate : String → Gates → Gates × ℕ
unfolding ensure
get_ratchet_gate edge s = let (s', gate) = ensure edge s in (s', gate.lease)

unfoldable pub claim_ratchet_gate : String → Gates → Gates × ℕ
unfolding ensure
claim_ratchet_gate edge s = let (s', gate) = ensure edge s in (s', gate.lease)

unfoldable pub is_current_ratchet_gate_lease : String → ℕ → Gates → Bool
is_current_ratchet_gate_lease edge lease s = elim (map_get edge s.gates) [
  | none ↦ false
  | some gate ↦ gate.lease == lease
]

-- `lease === undefined || gate.lease === lease`.
abbrev pub may_pass : Option ℕ → Gate → Bool
may_pass none gate = true
may_pass (some lease) gate = gate.lease == lease

unfoldable pub is_ratchet_gate_open : String → Option ℕ → Gates → Bool
is_ratchet_gate_open edge lease s = elim (map_get edge s.gates) [
  | none ↦ false
  | some gate ↦ is_open gate.outcome && may_pass lease gate
]

-- A gate is settled, and its promise resolved or rejected.
unfoldable pub settle_gate : String → Gate → Outcome → Gates → Gates
settle_gate edge gate outcome s = record s {
  gates = map_set edge (record gate { settled = true; outcome = outcome }) s.gates;
  settlements = s.settlements ++ (gate.lease, outcome) ∷ [];
}

unfoldable pub open_ratchet_gate : String → ℕ → Gates → Gates × Bool
unfolding ensure settle_gate
open_ratchet_gate edge lease s =
    let (s', gate) = ensure edge s in
    if not (gate.lease == lease) || gate.settled
    then (s', false)
    else (settle_gate edge gate opened s', true)

-- Without a lease the gate of a transport that goes down is rejected.
unfoldable pub reject_ratchet_gate : String → Option ℕ → Gates → Gates × Bool
unfolding ensure settle_gate
reject_ratchet_gate edge lease s =
    let (s', gate) = ensure edge s in
    if not (may_pass lease gate)
    then (s', false)
    else if gate.settled
    then (s', true)
    else (settle_gate edge gate rejected s', true)

-- The pending gate of a transport that is replaced is rejected.
unfoldable pub reject_pending : String → Gates → Gates
unfolding settle_gate
reject_pending edge s = elim (map_get edge s.gates) [
  | none ↦ s
  | some gate ↦ if gate.settled then s else settle_gate edge gate rejected s
]

unfoldable pub reset_ratchet_gate : String → Gates → Gates × ℕ
unfolding reject_pending claim_ratchet_gate
reset_ratchet_gate edge s =
    let s' = reject_pending edge s in
    claim_ratchet_gate edge (record s' { gates = map_delete edge s'.gates })
