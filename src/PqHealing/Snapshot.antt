-- ===== src/PqHealing/Snapshot.antt =====
-- src/cryptography/pqHealing.ts: checkpoints of a machine. A snapshot is a typed record here: the
-- tests that a value is a plain object with exactly its fields (`requirePlainRecord`,
-- `readSnapshotPhaseKind`) are what the types say.
use p2party_js.Base.{
  ℕ, ◌+◌, Bool, true, false, not, ◌&&◌, Option, none, some, List, leb, ltb, ◌==◌, ok, ◌>>=◌, ◌>>◌,
  fail_if,
}
use p2party_js.Bytes.{bytes_equal}
use p2party_js.MlKem.{MlKemSuiteDescriptor}
use p2party_js.PqHealing.Record.{
  Healing, binding_mismatch, invalid_record, suite_mismatch, assert_same_suite, require_bytes,
  require_u64, offer_length, advance_length, pq_healing_binding_bytes, pq_healing_root_bytes,
  pq_healing_snapshot_format_version,
}
use p2party_js.PqHealing.Codec.{DecodedOffer, DecodedAdvance, decode_offer, decode_advance}
use p2party_js.PqHealing.Machine.{
  Machine, Phase, Turn, is_local, make_owned_key_pair, assert_synchronous, new_machine,
}

-- `PqHealingSnapshotPhase`.
pub data SnapshotPhase : Type 0 where
  idle : SnapshotPhase
  outbound_offer_prepared outbound_offer_dispatched : List ℕ → List ℕ → SnapshotPhase
  inbound_offer : List ℕ → SnapshotPhase
  outbound_advance_prepared : List ℕ → List ℕ → SnapshotPhase
  outbound_advance_awaiting_ack : List ℕ → SnapshotPhase
  inbound_advance_prepared : List ℕ → List ℕ → List ℕ → SnapshotPhase
  inbound_advance_awaiting_ack_dispatch : List ℕ → SnapshotPhase

-- `PqHealingSnapshot`.
pub record Snapshot : Type 0 where
  pub snapshot_format : ℕ
  pub parameter_set : ℕ
  pub binding : List ℕ
  pub root_key : List ℕ
  pub epoch : ℕ
  pub local_counter : ℕ
  pub remote_counter : ℕ
  pub next_offerer : Turn
  pub phase : SnapshotPhase
  pub last_inbound_offer : Option (List ℕ)
  pub last_inbound_advance : Option (List ℕ)

unfoldable pub snapshot_phase : Phase → SnapshotPhase
snapshot_phase Phase.idle = SnapshotPhase.idle
snapshot_phase (Phase.outbound_offer true offer kp) =
    SnapshotPhase.outbound_offer_dispatched offer.bytes kp.secret_key
snapshot_phase (Phase.outbound_offer false offer kp) =
    SnapshotPhase.outbound_offer_prepared offer.bytes kp.secret_key
snapshot_phase (Phase.inbound_offer offer) = SnapshotPhase.inbound_offer offer.bytes
snapshot_phase (Phase.outbound_advance_prepared offer advance root) =
    SnapshotPhase.outbound_advance_prepared advance.bytes root
snapshot_phase (Phase.outbound_advance_awaiting_ack offer advance) =
    SnapshotPhase.outbound_advance_awaiting_ack advance.bytes
snapshot_phase (Phase.inbound_advance_prepared offer advance kp root) =
    SnapshotPhase.inbound_advance_prepared advance.bytes kp.secret_key root
snapshot_phase (Phase.inbound_advance_awaiting_ack_dispatch advance) =
    SnapshotPhase.inbound_advance_awaiting_ack_dispatch advance.bytes

abbrev pub offer_bytes_of : Option DecodedOffer → Option (List ℕ)
offer_bytes_of none = none
offer_bytes_of (some offer) = some offer.bytes

abbrev pub advance_bytes_of : Option DecodedAdvance → Option (List ℕ)
advance_bytes_of none = none
advance_bytes_of (some advance) = some advance.bytes

unfoldable pub snapshot : Machine → Healing Snapshot
unfolding assert_synchronous snapshot_phase
snapshot m = do
  assert_synchronous m
  ok (record {
    snapshot_format = pq_healing_snapshot_format_version;
    parameter_set = m.suite.parameter_set;
    binding = m.binding;
    root_key = m.root_key;
    epoch = m.epoch;
    local_counter = m.local_counter;
    remote_counter = m.remote_counter;
    next_offerer = m.next_offerer;
    phase = snapshot_phase m.phase;
    last_inbound_offer = offer_bytes_of m.last_inbound_offer;
    last_inbound_advance = advance_bytes_of m.last_inbound_advance;
  })

-- `decodeOffer` and `decodeAdvance` behind their length test.
unfoldable pub snapshot_offer : List ℕ → MlKemSuiteDescriptor → List ℕ → Healing DecodedOffer
unfolding require_bytes
snapshot_offer bytes suite binding = do
  require_bytes bytes (offer_length suite)
  decode_offer bytes suite (some binding)

unfoldable pub snapshot_advance : List ℕ → MlKemSuiteDescriptor → List ℕ → Healing DecodedAdvance
unfolding require_bytes
snapshot_advance bytes suite binding = do
  require_bytes bytes (advance_length suite)
  decode_advance bytes suite (some binding)

unfoldable pub decode_snapshot_phase : SnapshotPhase → MlKemSuiteDescriptor → List ℕ → Healing Phase
unfolding require_bytes make_owned_key_pair
decode_snapshot_phase SnapshotPhase.idle suite binding = ok Phase.idle
decode_snapshot_phase (SnapshotPhase.outbound_offer_prepared bytes secret_key) suite binding = do
  offer ← snapshot_offer bytes suite binding
  require_bytes secret_key suite.secret_key_bytes
  ok (Phase.outbound_offer false offer (make_owned_key_pair offer.public_key secret_key))
decode_snapshot_phase (SnapshotPhase.outbound_offer_dispatched bytes secret_key) suite binding = do
  offer ← snapshot_offer bytes suite binding
  require_bytes secret_key suite.secret_key_bytes
  ok (Phase.outbound_offer true offer (make_owned_key_pair offer.public_key secret_key))
decode_snapshot_phase (SnapshotPhase.inbound_offer bytes) suite binding = do
  offer ← snapshot_offer bytes suite binding
  ok (Phase.inbound_offer offer)
decode_snapshot_phase (SnapshotPhase.outbound_advance_prepared bytes next_root) suite binding = do
  advance ← snapshot_advance bytes suite binding
  require_bytes next_root pq_healing_root_bytes
  ok (Phase.outbound_advance_prepared advance.offer advance next_root)
decode_snapshot_phase (SnapshotPhase.outbound_advance_awaiting_ack bytes) suite binding = do
  advance ← snapshot_advance bytes suite binding
  ok (Phase.outbound_advance_awaiting_ack advance.offer advance)
decode_snapshot_phase (SnapshotPhase.inbound_advance_prepared bytes secret_key next_root) suite
      binding =
    do
      advance ← snapshot_advance bytes suite binding
      require_bytes secret_key suite.secret_key_bytes
      require_bytes next_root pq_healing_root_bytes
      let key_pair = make_owned_key_pair advance.offer.public_key secret_key
      ok (Phase.inbound_advance_prepared advance.offer advance key_pair next_root)
decode_snapshot_phase (SnapshotPhase.inbound_advance_awaiting_ack_dispatch bytes) suite binding = do
  advance ← snapshot_advance bytes suite binding
  ok (Phase.inbound_advance_awaiting_ack_dispatch advance)

abbrev pub snapshot_invariant : Bool → Healing (Unit {0})
snapshot_invariant condition = fail_if (not condition) invalid_record

-- `ValidatedPqHealingSnapshot`.
pub record ValidatedSnapshot : Type 0 where
  pub root_key : List ℕ
  pub epoch : ℕ
  pub local_counter : ℕ
  pub remote_counter : ℕ
  pub next_offerer : Turn
  pub phase : Phase
  pub last_inbound_offer : Option DecodedOffer
  pub last_inbound_advance : Option DecodedAdvance

unfoldable pub validate_last_offer : Option DecodedOffer → ℕ → ℕ → Healing (Unit {0})
validate_last_offer none epoch remote_counter = ok tt
validate_last_offer (some offer) epoch remote_counter = do
  snapshot_invariant (leb offer.to_epoch epoch)
  snapshot_invariant (ltb offer.sender_counter remote_counter)

unfoldable pub validate_last_advance : Option DecodedAdvance → ℕ → ℕ → Healing (Unit {0})
validate_last_advance none epoch remote_counter = ok tt
validate_last_advance (some advance) epoch remote_counter = do
  snapshot_invariant (leb advance.to_epoch epoch)
  snapshot_invariant (ltb advance.sender_counter remote_counter)

-- `last !== null && bytesEqual(last.bytes, bytes)`.
abbrev pub is_last : Option (List ℕ) → List ℕ → Bool
is_last none bytes = false
is_last (some last) bytes = bytes_equal last bytes

unfoldable pub validate_phase : Phase → ValidatedSnapshot → Healing (Unit {0})
validate_phase Phase.idle s = ok tt
validate_phase (Phase.outbound_offer dispatched offer kp) s = snapshot_invariant (
    is_local s.next_offerer
    && offer.sender_counter == s.local_counter
    && offer.from_epoch == s.epoch)
validate_phase (Phase.inbound_offer offer) s = snapshot_invariant (
    not (is_local s.next_offerer)
    && offer.sender_counter == s.remote_counter
    && offer.from_epoch == s.epoch)
validate_phase (Phase.outbound_advance_prepared offer advance root) s = snapshot_invariant (
    not (is_local s.next_offerer)
    && advance.sender_counter == s.local_counter
    && offer.sender_counter == s.remote_counter
    && advance.from_epoch == s.epoch)
validate_phase (Phase.outbound_advance_awaiting_ack offer advance) s = do
  snapshot_invariant (
      is_local s.next_offerer
      && advance.sender_counter + 1 == s.local_counter
      && offer.sender_counter + 1 == s.remote_counter
      && advance.to_epoch == s.epoch)
  snapshot_invariant (is_last (offer_bytes_of s.last_inbound_offer) offer.bytes)
validate_phase (Phase.inbound_advance_prepared offer advance kp root) s = snapshot_invariant (
    is_local s.next_offerer
    && advance.sender_counter == s.remote_counter
    && offer.sender_counter == s.local_counter
    && advance.from_epoch == s.epoch)
validate_phase (Phase.inbound_advance_awaiting_ack_dispatch advance) s = do
  snapshot_invariant (
      not (is_local s.next_offerer)
      && advance.sender_counter + 1 == s.remote_counter
      && advance.offer.sender_counter + 1 == s.local_counter
      && advance.to_epoch == s.epoch)
  snapshot_invariant (is_last (advance_bytes_of s.last_inbound_advance) advance.bytes)

unfoldable pub validate_snapshot_state : ValidatedSnapshot → Healing (Unit {0})
unfolding validate_last_offer validate_last_advance validate_phase
validate_snapshot_state s = do
  validate_last_offer s.last_inbound_offer s.epoch s.remote_counter
  validate_last_advance s.last_inbound_advance s.epoch s.remote_counter
  validate_phase s.phase s

-- `PqHealingRestoreOptions`.
pub record RestoreOptions : Type 0 where
  pub backend_suite : MlKemSuiteDescriptor
  pub suite : MlKemSuiteDescriptor
  pub binding : List ℕ

unfoldable pub decode_last_offer :
    Option (List ℕ) → MlKemSuiteDescriptor → List ℕ → Healing (Option DecodedOffer)
unfolding snapshot_offer
decode_last_offer none suite binding = ok none
decode_last_offer (some bytes) suite binding = do
  offer ← snapshot_offer bytes suite binding
  ok (some offer)

unfoldable pub decode_last_advance :
    Option (List ℕ) → MlKemSuiteDescriptor → List ℕ → Healing (Option DecodedAdvance)
unfolding snapshot_advance
decode_last_advance none suite binding = ok none
decode_last_advance (some bytes) suite binding = do
  advance ← snapshot_advance bytes suite binding
  ok (some advance)

unfoldable pub decode_pq_healing_snapshot : Snapshot → RestoreOptions → Healing ValidatedSnapshot
unfolding require_bytes require_u64
decode_pq_healing_snapshot value options = do
  assert_same_suite options.suite options.backend_suite
  require_bytes options.binding pq_healing_binding_bytes
  fail_if (not (value.snapshot_format == pq_healing_snapshot_format_version)) invalid_record
  fail_if (not (value.parameter_set == options.suite.parameter_set)) suite_mismatch
  require_bytes value.binding pq_healing_binding_bytes
  fail_if (not (bytes_equal value.binding options.binding)) binding_mismatch
  require_bytes value.root_key pq_healing_root_bytes
  require_u64 value.epoch
  require_u64 value.local_counter
  require_u64 value.remote_counter
  phase ← decode_snapshot_phase value.phase options.suite options.binding
  last_offer ← decode_last_offer value.last_inbound_offer options.suite options.binding
  last_advance ← decode_last_advance value.last_inbound_advance options.suite options.binding
  let state : ValidatedSnapshot = record {
    root_key = value.root_key;
    epoch = value.epoch;
    local_counter = value.local_counter;
    remote_counter = value.remote_counter;
    next_offerer = value.next_offerer;
    phase = phase;
    last_inbound_offer = last_offer;
    last_inbound_advance = last_advance;
  }
  validate_snapshot_state state
  ok state

-- `PqHealingMachine.restore`.
unfoldable pub restore : Snapshot → RestoreOptions → Healing Machine
restore value options = do
  state ← decode_pq_healing_snapshot value options
  machine ← new_machine (record {
    backend_suite = options.backend_suite;
    suite = options.suite;
    binding = options.binding;
    root_key = state.root_key;
    next_offerer = state.next_offerer;
    epoch = some state.epoch;
    local_counter = some state.local_counter;
    remote_counter = some state.remote_counter;
  })
  ok (record machine {
    phase = state.phase;
    last_inbound_offer = state.last_inbound_offer;
    last_inbound_advance = state.last_inbound_advance;
  })

-- `clone`: a machine's backend has the machine's suite.
unfoldable pub clone : Machine → Healing Machine
clone m = do
  value ← snapshot m
  restore value (record { backend_suite = m.suite; suite = m.suite; binding = m.binding })
