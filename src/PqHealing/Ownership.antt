-- ===== src/PqHealing/Ownership.antt =====
-- src/cryptography/pqHealing.ts: terminal cleanup, adoption of a successor and wiping of checkpoints.
-- The buffers that leave a machine with its phase are wiped in the source; here they are gone.
use p2party_js.Base.{
  ℕ, Bool, true, not, ◌||◌, Option, none, some, List, ◌==◌, if◌then◌else◌, ok, err, ◌>>◌, fail_if,
}
use p2party_js.Bytes.{wipe, zeros, bytes_equal}
use p2party_js.PqHealing.Record.{Healing, invalid_state, pq_healing_root_bytes}
use p2party_js.PqHealing.Machine.{Machine, Phase, assert_synchronous}
use p2party_js.PqHealing.Snapshot.{Snapshot, SnapshotPhase}

unfoldable pub destroy : Machine → Machine
destroy m = if m.is_destroyed then m else record m {
  binding = wipe m.binding;
  root_key = wipe m.root_key;
  phase = Phase.idle;
  last_inbound_offer = none;
  last_inbound_advance = none;
  is_destroyed = true;
}

-- The machine that gave its state away.
unfoldable pub consumed : Machine → Machine
consumed next = record next {
  binding = wipe next.binding;
  root_key = zeros pq_healing_root_bytes;
  phase = Phase.idle;
  last_inbound_offer = none;
  last_inbound_advance = none;
  is_destroyed = true;
}

-- The live machine with the state of its successor; suite, binding and flags are its own.
unfoldable pub successor : Machine → Machine → Machine
successor live next = record live {
  root_key = next.root_key;
  epoch = next.epoch;
  local_counter = next.local_counter;
  remote_counter = next.remote_counter;
  next_offerer = next.next_offerer;
  phase = next.phase;
  last_inbound_offer = next.last_inbound_offer;
  last_inbound_advance = next.last_inbound_advance;
}

unfoldable pub check_adopt : Bool → Machine → Machine → Healing (Unit {0})
unfolding assert_synchronous
check_adopt same live next = do
  assert_synchronous live
  assert_synchronous next
  fail_if same invalid_state
  fail_if
      (not (live.suite.parameter_set == next.suite.parameter_set)
        || not (bytes_equal live.binding next.binding))
      invalid_state

-- `adopt`; `same` says that both are one object. The live machine, its successor and the result.
unfoldable pub adopt : Bool → Machine → Machine → Machine × Machine × Healing (Unit {0})
unfolding check_adopt successor consumed
adopt same live next = elim (check_adopt same live next) [
  | err e ↦ (live, next, err e)
  | ok _ ↦ (successor live next, consumed next, ok tt)
]

abbrev pub wipe_option : Option (List ℕ) → Option (List ℕ)
wipe_option none = none
wipe_option (some bytes) = some (wipe bytes)

unfoldable pub wipe_snapshot_phase : SnapshotPhase → SnapshotPhase
wipe_snapshot_phase SnapshotPhase.idle = SnapshotPhase.idle
wipe_snapshot_phase (SnapshotPhase.outbound_offer_prepared offer secret_key) =
    SnapshotPhase.outbound_offer_prepared (wipe offer) (wipe secret_key)
wipe_snapshot_phase (SnapshotPhase.outbound_offer_dispatched offer secret_key) =
    SnapshotPhase.outbound_offer_dispatched (wipe offer) (wipe secret_key)
wipe_snapshot_phase (SnapshotPhase.inbound_offer offer) = SnapshotPhase.inbound_offer (wipe offer)
wipe_snapshot_phase (SnapshotPhase.outbound_advance_prepared advance next_root) =
    SnapshotPhase.outbound_advance_prepared (wipe advance) (wipe next_root)
wipe_snapshot_phase (SnapshotPhase.outbound_advance_awaiting_ack advance) =
    SnapshotPhase.outbound_advance_awaiting_ack (wipe advance)
wipe_snapshot_phase (SnapshotPhase.inbound_advance_prepared advance secret_key next_root) =
    SnapshotPhase.inbound_advance_prepared (wipe advance) (wipe secret_key) (wipe next_root)
wipe_snapshot_phase (SnapshotPhase.inbound_advance_awaiting_ack_dispatch advance) =
    SnapshotPhase.inbound_advance_awaiting_ack_dispatch (wipe advance)

unfoldable pub wipe_pq_healing_snapshot : Snapshot → Snapshot
unfolding wipe_snapshot_phase
wipe_pq_healing_snapshot value = record value {
  binding = wipe value.binding;
  root_key = wipe value.root_key;
  phase = wipe_snapshot_phase value.phase;
  last_inbound_offer = wipe_option value.last_inbound_offer;
  last_inbound_advance = wipe_option value.last_inbound_advance;
}
