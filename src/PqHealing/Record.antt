-- ===== src/PqHealing/Record.antt =====
-- src/cryptography/pqHealing.ts: constants, error codes, guards, suite checks and the 64-byte header
-- that OFFER and ADVANCE records share. A `bigint` is a natural number: the sign test of
-- `requireU64` always passes here. Messages of errors are left out.
pub mod Header
use p2party_js.Base.{
  ℕ, ◌+◌, ◌-◌, ◌^◌, ◌≡◌, Bool, true, false, not, ◌&&◌, ◌||◌, Option, none, some, List, [], ◌∷◌,
  length, get_elem?, ltb, leb, ◌==◌, if◌then◌else◌, Result, ok, err, ◌>>=◌, ◌>>◌, fail_if,
}
use p2party_js.Bytes.{zeros, set_at, slice, set_u64, get_u64, bytes_equal}
use p2party_js.LibCrypto.{HkdfError}
use p2party_js.MlKem.{MlKemSuiteDescriptor, get_ml_kem_suite, same_descriptor}

abbrev pub pq_healing_binding_bytes : ℕ
pq_healing_binding_bytes = 32

abbrev pub pq_healing_root_bytes : ℕ
pq_healing_root_bytes = 32

abbrev pub pq_healing_record_header_bytes : ℕ
pq_healing_record_header_bytes = 64

abbrev pub pq_healing_ack_bytes : ℕ
pq_healing_ack_bytes = 64

abbrev pub pq_healing_snapshot_format_version : ℕ
pq_healing_snapshot_format_version = 1

-- "P2QH".
abbrev pub magic : List ℕ
magic = 0x50 ∷ 0x32 ∷ 0x51 ∷ 0x48 ∷ []

abbrev pub format_version : ℕ
format_version = 1

abbrev pub offer_type : ℕ
offer_type = 1

abbrev pub advance_type : ℕ
advance_type = 2

abbrev pub ack_type : ℕ
ack_type = 3

abbrev pub reserved_flags : ℕ
reserved_flags = 0

abbrev pub max_u64 : ℕ
max_u64 = 2 ^ 64 - 1

abbrev pub magic_offset : ℕ
magic_offset = 0

abbrev pub version_offset : ℕ
version_offset = 4

abbrev pub type_offset : ℕ
type_offset = 5

abbrev pub suite_offset : ℕ
suite_offset = 6

abbrev pub flags_offset : ℕ
flags_offset = 7

abbrev pub binding_offset : ℕ
binding_offset = 8

abbrev pub counter_offset : ℕ
counter_offset = 40

abbrev pub from_epoch_offset : ℕ
from_epoch_offset = 48

abbrev pub to_epoch_offset : ℕ
to_epoch_offset = 56

abbrev pub ack_epoch_offset : ℕ
ack_epoch_offset = 48

abbrev pub ack_reserved_offset : ℕ
ack_reserved_offset = 56

-- `PqHealingErrorCode`, then the errors that callees throw through this module: the RangeError of
-- `getMlKemSuite`, a failed HKDF and a rejected promise of the ML-KEM backend.
pub data PqHealingError : Type 0 where
  binding_mismatch counter_gap destroyed epoch_gap fork invalid_record : PqHealingError
  invalid_state overflow replay suite_mismatch wrong_turn : PqHealingError
  range_error : PqHealingError
  hkdf_failed : HkdfError → PqHealingError
  backend_rejected : PqHealingError

abbrev pub Healing : Type 0 → Type 0
Healing A = Result PqHealingError A

unfoldable pub require_bytes : List ℕ → ℕ → Healing (Unit {0})
require_bytes value expected_length = fail_if (not (length value == expected_length)) invalid_record

unfoldable pub require_u64 : ℕ → Healing (Unit {0})
require_u64 value = fail_if (ltb max_u64 value) overflow

unfoldable pub require_incrementable_u64 : ℕ → Healing (Unit {0})
unfolding require_u64
require_incrementable_u64 value = do require_u64 value; fail_if (value == max_u64) overflow

unfoldable pub parameter_set_to_tag : ℕ → Healing ℕ
parameter_set_to_tag parameter_set =
    if parameter_set == 768
    then ok 1
    else if parameter_set == 512
    then ok 2
    else if parameter_set == 1024
    then ok 3
    else err suite_mismatch

-- `bytes[index]`; `none` is `undefined`.
abbrev pub byte_at : List ℕ → ℕ → Option ℕ
byte_at = get_elem?

abbrev pub is_byte : Option ℕ → ℕ → Bool
is_byte none value = false
is_byte (some b) value = b == value

unfoldable pub tag_to_parameter_set : Option ℕ → Healing ℕ
tag_to_parameter_set tag =
    if is_byte tag 1
    then ok 768
    else if is_byte tag 2
    then ok 512
    else if is_byte tag 3
    then ok 1024
    else err invalid_record

unfoldable pub assert_canonical_suite : MlKemSuiteDescriptor → Healing (Unit {0})
assert_canonical_suite suite = elim (get_ml_kem_suite suite.parameter_set) [
  | none ↦ err range_error
  | some canonical ↦ fail_if (not (same_descriptor suite canonical)) suite_mismatch
]

unfoldable pub assert_same_suite : MlKemSuiteDescriptor → MlKemSuiteDescriptor → Healing (Unit {0})
unfolding assert_canonical_suite
assert_same_suite selected backend = do
  assert_canonical_suite selected
  assert_canonical_suite backend
  fail_if
      (not (selected.parameter_set == backend.parameter_set)
        || not (selected.public_key_bytes == backend.public_key_bytes)
        || not (selected.secret_key_bytes == backend.secret_key_bytes)
        || not (selected.ciphertext_bytes == backend.ciphertext_bytes))
      suite_mismatch

unfoldable pub offer_length : MlKemSuiteDescriptor → ℕ
offer_length suite = pq_healing_record_header_bytes + suite.public_key_bytes

unfoldable pub advance_length : MlKemSuiteDescriptor → ℕ
unfolding offer_length
advance_length suite = pq_healing_record_header_bytes + offer_length suite + suite.ciphertext_bytes

-- `getPqHealingRecordLengths`: the OFFER's and the ADVANCE's.
unfoldable pub get_pq_healing_record_lengths : MlKemSuiteDescriptor → Healing (ℕ × ℕ)
unfolding assert_canonical_suite offer_length advance_length
get_pq_healing_record_lengths suite = do
  assert_canonical_suite suite
  ok (offer_length suite, advance_length suite)

pub record DecodedHeader : Type 0 where
  pub sender_counter : ℕ
  pub from_epoch : ℕ
  pub to_epoch : ℕ

-- The writes that every record begins with: magic, version, type, suite, flags, binding.
unfoldable pub write_prefix : ℕ → ℕ → List ℕ → List ℕ → List ℕ
write_prefix type tag binding buffer =
    let b0 = set_at magic_offset magic buffer in
    let b1 = set_at version_offset (format_version ∷ []) b0 in
    let b2 = set_at type_offset (type ∷ []) b1 in
    let b3 = set_at suite_offset (tag ∷ []) b2 in
    let b4 = set_at flags_offset (reserved_flags ∷ []) b3 in set_at binding_offset binding b4

-- The three words that follow in an OFFER and an ADVANCE.
unfoldable pub write_words : ℕ → ℕ → ℕ → List ℕ → List ℕ
write_words sender_counter from_epoch to_epoch buffer =
    let b1 = set_u64 counter_offset sender_counter buffer in
    let b2 = set_u64 from_epoch_offset from_epoch b1 in set_u64 to_epoch_offset to_epoch b2

unfoldable pub encode_header : ℕ → MlKemSuiteDescriptor → List ℕ → ℕ → ℕ → ℕ → ℕ → Healing (List ℕ)
unfolding require_bytes require_u64 parameter_set_to_tag write_prefix write_words
encode_header type suite binding sender_counter from_epoch to_epoch total_length = do
  require_bytes binding pq_healing_binding_bytes
  require_u64 sender_counter
  require_u64 from_epoch
  require_u64 to_epoch
  fail_if (from_epoch == max_u64 || not (to_epoch == from_epoch + 1)) invalid_record
  tag ← parameter_set_to_tag suite.parameter_set
  let buffer = write_prefix type tag binding (zeros total_length)
  ok (write_words sender_counter from_epoch to_epoch buffer)

-- `binding !== undefined && !bytesEqual(recordBinding, binding)`.
unfoldable pub differs_from : List ℕ → Option (List ℕ) → Bool
differs_from record_binding none = false
differs_from record_binding (some binding) = not (bytes_equal record_binding binding)

unfoldable pub decode_header :
    List ℕ → ℕ → MlKemSuiteDescriptor → Option (List ℕ) → Healing DecodedHeader
unfolding tag_to_parameter_set differs_from
decode_header rec expected_type suite binding = do
  fail_if (ltb (length rec) pq_healing_record_header_bytes) invalid_record
  fail_if (not (bytes_equal (slice magic_offset version_offset rec) magic)) invalid_record
  fail_if (not (is_byte (byte_at rec version_offset) format_version)) invalid_record
  fail_if (not (is_byte (byte_at rec type_offset) expected_type)) invalid_record
  fail_if (not (is_byte (byte_at rec flags_offset) reserved_flags)) invalid_record
  record_parameter_set ← tag_to_parameter_set (byte_at rec suite_offset)
  fail_if (not (record_parameter_set == suite.parameter_set)) suite_mismatch
  let record_binding = slice binding_offset (binding_offset + pq_healing_binding_bytes) rec
  fail_if (differs_from record_binding binding) binding_mismatch
  let sender_counter = get_u64 counter_offset rec
  let from_epoch = get_u64 from_epoch_offset rec
  let to_epoch = get_u64 to_epoch_offset rec
  fail_if (from_epoch == max_u64 || not (to_epoch == from_epoch + 1)) invalid_record
  ok (record { sender_counter = sender_counter; from_epoch = from_epoch; to_epoch = to_epoch })
