-- ===== src/PqHealing/Machine.antt =====
-- src/cryptography/pqHealing.ts: the state of `PqHealingMachine`, its phases and its guards. The
-- WebAssembly module and the ML-KEM backend, fixed by the constructor, are arguments of the
-- operations that call them.
use p2party_js.Base.{
  ℕ, Bool, true, false, not, ◌&&◌, ◌||◌, Option, none, some, List, ltb, ◌==◌, if◌then◌else◌, ok,
  err, ◌>>◌, fail_if,
}
use p2party_js.Bytes.{wipe, bytes_equal}
use p2party_js.MlKem.{MlKemSuiteDescriptor}
use p2party_js.PqHealing.Record.{
  Healing, PqHealingError, counter_gap, epoch_gap, fork, invalid_state, replay, backend_rejected,
  require_bytes, require_u64, require_incrementable_u64, assert_same_suite,
  pq_healing_binding_bytes, pq_healing_root_bytes,
}
use p2party_js.PqHealing.Codec.{DecodedOffer, DecodedAdvance}

-- `PqHealingTurn`.
pub data Turn : Type 0 where
  local remote : Turn

-- `MlKemKeyPair`: the object that a phase owns.
pub record KeyPair : Type 0 where
  pub public_key : List ℕ
  pub secret_key : List ℕ
  pub wiped : Bool

-- `MlKemEncapsulation`.
pub record Encapsulation : Type 0 where
  pub ciphertext : List ℕ
  pub shared_secret : List ℕ

-- `makeOwnedKeyPair`, and the `destroy` of its result.
unfoldable pub make_owned_key_pair : List ℕ → List ℕ → KeyPair
make_owned_key_pair public_key secret_key = record {
  public_key = public_key;
  secret_key = secret_key;
  wiped = false;
}

unfoldable pub destroy_key_pair : KeyPair → KeyPair
destroy_key_pair kp =
    if kp.wiped then kp else record kp { secret_key = wipe kp.secret_key; wiped = true }

-- `InternalPhase`.
pub data Phase : Type 0 where
  idle : Phase
  outbound_offer : Bool → DecodedOffer → KeyPair → Phase
  inbound_offer : DecodedOffer → Phase
  outbound_advance_prepared : DecodedOffer → DecodedAdvance → List ℕ → Phase
  outbound_advance_awaiting_ack : DecodedOffer → DecodedAdvance → Phase
  inbound_advance_prepared : DecodedOffer → DecodedAdvance → KeyPair → List ℕ → Phase
  inbound_advance_awaiting_ack_dispatch : DecodedAdvance → Phase

-- `PqHealingPhase`.
pub data PhaseName : Type 0 where
  idle outbound_offer_prepared outbound_offer_dispatched inbound_offer : PhaseName
  outbound_advance_prepared outbound_advance_awaiting_ack inbound_advance_prepared : PhaseName
  inbound_advance_awaiting_ack_dispatch destroyed : PhaseName

pub record Machine : Type 0 where
  pub suite : MlKemSuiteDescriptor
  pub binding : List ℕ
  pub root_key : List ℕ
  pub epoch : ℕ
  pub local_counter : ℕ
  pub remote_counter : ℕ
  pub next_offerer : Turn
  pub phase : Phase
  pub last_inbound_offer : Option DecodedOffer
  pub last_inbound_advance : Option DecodedAdvance
  pub busy : Bool
  pub is_destroyed : Bool

-- `PqHealingMachineOptions`, with the suite of its backend.
pub record MachineOptions : Type 0 where
  pub backend_suite : MlKemSuiteDescriptor
  pub suite : MlKemSuiteDescriptor
  pub binding : List ℕ
  pub root_key : List ℕ
  pub next_offerer : Turn
  pub epoch : Option ℕ
  pub local_counter : Option ℕ
  pub remote_counter : Option ℕ

abbrev pub or_zero : Option ℕ → ℕ
or_zero none = 0
or_zero (some n) = n

-- The constructor.
unfoldable pub new_machine : MachineOptions → Healing Machine
unfolding require_bytes require_u64
new_machine options = do
  assert_same_suite options.suite options.backend_suite
  require_bytes options.binding pq_healing_binding_bytes
  require_bytes options.root_key pq_healing_root_bytes
  require_u64 (or_zero options.epoch)
  require_u64 (or_zero options.local_counter)
  require_u64 (or_zero options.remote_counter)
  ok (record {
    suite = options.suite;
    binding = options.binding;
    root_key = options.root_key;
    epoch = or_zero options.epoch;
    local_counter = or_zero options.local_counter;
    remote_counter = or_zero options.remote_counter;
    next_offerer = options.next_offerer;
    phase = Phase.idle;
    last_inbound_offer = none;
    last_inbound_advance = none;
    busy = false;
    is_destroyed = false;
  })

-- A call of a method: the machine afterwards, and what is returned or thrown.
abbrev pub Outcome : Type 0 → Type 0
Outcome A = Machine × Healing A

-- A body that writes the machine only when nothing was thrown.
abbrev pub settle : {A : Type 0} → Machine → Healing (Machine × A) → Outcome A
settle m (ok (m', a)) = (m', ok a)
settle m (err e) = (m, err e)

-- `finally { this.#endAsyncOperation(); }`.
abbrev pub end_async_operation : {A : Type 0} → Outcome A → Outcome A
end_async_operation (m, r) = (record m { busy = false }, r)

-- An awaited promise: `none` is a rejection.
abbrev pub awaited : {A : Type 0} → Option A → Healing A
awaited none = err backend_rejected
awaited (some a) = ok a

abbrev pub is_local : Turn → Bool
is_local local = true
is_local remote = false

abbrev pub is_idle : Phase → Bool
is_idle Phase.idle = true
is_idle _ = false

unfoldable pub phase_name : Phase → PhaseName
phase_name Phase.idle = PhaseName.idle
phase_name (Phase.outbound_offer true offer kp) = PhaseName.outbound_offer_dispatched
phase_name (Phase.outbound_offer false offer kp) = PhaseName.outbound_offer_prepared
phase_name (Phase.inbound_offer offer) = PhaseName.inbound_offer
phase_name (Phase.outbound_advance_prepared offer advance root) =
    PhaseName.outbound_advance_prepared
phase_name (Phase.outbound_advance_awaiting_ack offer advance) =
    PhaseName.outbound_advance_awaiting_ack
phase_name (Phase.inbound_advance_prepared offer advance kp root) =
    PhaseName.inbound_advance_prepared
phase_name (Phase.inbound_advance_awaiting_ack_dispatch advance) =
    PhaseName.inbound_advance_awaiting_ack_dispatch

-- The getter `phase`.
unfoldable pub phase_of : Machine → PhaseName
unfolding phase_name
phase_of m = if m.is_destroyed then PhaseName.destroyed else phase_name m.phase

-- The getter `trafficBlocked`.
unfoldable pub traffic_blocked : Machine → Bool
traffic_blocked m = m.is_destroyed || not (is_idle m.phase)

unfoldable pub assert_active : Machine → Healing (Unit {0})
assert_active m = fail_if m.is_destroyed PqHealingError.destroyed

unfoldable pub assert_synchronous : Machine → Healing (Unit {0})
unfolding assert_active
assert_synchronous m = do assert_active m; fail_if m.busy invalid_state

-- The getter `epoch`, and `copyRootKey`.
unfoldable pub epoch_of : Machine → Healing ℕ
unfolding assert_active
epoch_of m = do assert_active m; ok m.epoch

unfoldable pub copy_root_key : Machine → Healing (List ℕ)
unfolding assert_active
copy_root_key m = do assert_active m; ok m.root_key

unfoldable pub assert_can_start_exchange : Machine → Healing (Unit {0})
unfolding require_incrementable_u64
assert_can_start_exchange m = do
  require_incrementable_u64 m.epoch
  require_incrementable_u64 m.local_counter
  require_incrementable_u64 m.remote_counter

unfoldable pub require_expected_counter : ℕ → Machine → Healing (Unit {0})
require_expected_counter counter m = do
  fail_if (ltb counter m.remote_counter) replay
  fail_if (ltb m.remote_counter counter) counter_gap

unfoldable pub require_expected_epoch : ℕ → Machine → Healing (Unit {0})
require_expected_epoch from_epoch m = do
  fail_if (ltb from_epoch m.epoch) replay
  fail_if (ltb m.epoch from_epoch) epoch_gap

unfoldable pub same_offer_slot : DecodedOffer → DecodedOffer → Bool
same_offer_slot left right =
    left.sender_counter == right.sender_counter
    && left.from_epoch == right.from_epoch
    && left.to_epoch == right.to_epoch

unfoldable pub same_advance_slot : DecodedAdvance → DecodedAdvance → Bool
same_advance_slot left right =
    left.sender_counter == right.sender_counter
    && left.from_epoch == right.from_epoch
    && left.to_epoch == right.to_epoch

-- The OFFER against which an inbound one is compared: that of the phase, or the last one.
unfoldable pub known_offer : Phase → Option DecodedOffer → Option DecodedOffer
known_offer (Phase.inbound_offer offer) last = some offer
known_offer (Phase.outbound_advance_prepared offer advance root) last = some offer
known_offer (Phase.outbound_advance_awaiting_ack offer advance) last = some offer
known_offer _ last = last

unfoldable pub known_advance : Phase → Option DecodedAdvance → Option DecodedAdvance
known_advance (Phase.inbound_advance_prepared offer advance kp root) last = some advance
known_advance (Phase.inbound_advance_awaiting_ack_dispatch advance) last = some advance
known_advance _ last = last

unfoldable pub reject_offer : DecodedOffer → Option DecodedOffer → Healing (Unit {0})
unfolding same_offer_slot
reject_offer offer none = ok tt
reject_offer offer (some known) =
    if not (same_offer_slot offer known)
    then ok tt
    else if bytes_equal offer.bytes known.bytes
    then err replay
    else err fork

unfoldable pub reject_advance : DecodedAdvance → Option DecodedAdvance → Healing (Unit {0})
unfolding same_advance_slot
reject_advance advance none = ok tt
reject_advance advance (some known) =
    if not (same_advance_slot advance known)
    then ok tt
    else if bytes_equal advance.bytes known.bytes
    then err replay
    else err fork

unfoldable pub reject_known_offer_replay_or_fork : DecodedOffer → Machine → Healing (Unit {0})
unfolding known_offer reject_offer
reject_known_offer_replay_or_fork offer m =
    reject_offer offer (known_offer m.phase m.last_inbound_offer)

unfoldable pub reject_known_advance_replay_or_fork : DecodedAdvance → Machine → Healing (Unit {0})
unfolding known_advance reject_advance
reject_known_advance_replay_or_fork advance m =
    reject_advance advance (known_advance m.phase m.last_inbound_advance)

unfoldable pub commit_root : List ℕ → Machine → Healing Machine
unfolding require_bytes
commit_root next_root m = do
  require_bytes next_root pq_healing_root_bytes
  ok (record m { root_key = next_root })
