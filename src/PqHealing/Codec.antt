-- ===== src/PqHealing/Codec.antt =====
-- src/cryptography/pqHealing.ts: the canonical OFFER, ADVANCE and ACK records and the derivation of
-- the next root. `Uint8Array.from` copies have no effect on values.
pub mod Header
pub mod Offer
pub mod Advance
pub mod Ack
use p2party_js.Base.{
  ℕ, ◌+◌, Bool, true, false, not, ◌||◌, Option, none, some, List, [], ◌∷◌, ◌++◌, drop, length, ltb,
  ◌==◌, if◌then◌else◌, Result, ok, err, ◌>>=◌, ◌>>◌, fail_if, map_err,
}
use p2party_js.Bytes.{zeros, set_at, slice, set_u64, get_u64, bytes_equal}
use p2party_js.LibCrypto.{LibCrypto, hkdf_extract, hkdf_expand}
use p2party_js.MlKem.{MlKemSuiteDescriptor}
use p2party_js.PqHealing.Record.{
  Healing, invalid_record, suite_mismatch, binding_mismatch, fork, hkdf_failed, DecodedHeader,
  pq_healing_binding_bytes, pq_healing_root_bytes, pq_healing_record_header_bytes,
  pq_healing_ack_bytes, magic, magic_offset, version_offset, type_offset, suite_offset,
  flags_offset, binding_offset, counter_offset, ack_epoch_offset, ack_reserved_offset,
  format_version, reserved_flags, offer_type, advance_type, ack_type, byte_at, is_byte,
  require_bytes, require_u64, parameter_set_to_tag, tag_to_parameter_set, assert_canonical_suite,
  offer_length, advance_length, write_prefix, encode_header, decode_header,
}

-- `PqHealingAdvanceAcknowledgement`.
pub record Acknowledgement : Type 0 where
  pub epoch : ℕ
  pub advance_counter : ℕ

pub record DecodedOffer : Type 0 where
  pub sender_counter : ℕ
  pub from_epoch : ℕ
  pub to_epoch : ℕ
  pub bytes : List ℕ
  pub public_key : List ℕ

pub record DecodedAdvance : Type 0 where
  pub sender_counter : ℕ
  pub from_epoch : ℕ
  pub to_epoch : ℕ
  pub bytes : List ℕ
  pub offer : DecodedOffer
  pub ciphertext : List ℕ

-- The range checks of `requireAcknowledgement`; the type stands for its tests of the shape.
unfoldable pub require_acknowledgement : Acknowledgement → Healing Acknowledgement
unfolding require_u64
require_acknowledgement ack = do require_u64 ack.epoch; require_u64 ack.advance_counter; ok ack

unfoldable pub encode_pq_healing_ack :
    Acknowledgement → MlKemSuiteDescriptor → List ℕ → Healing (List ℕ)
encode_pq_healing_ack acknowledgement suite binding = do
  assert_canonical_suite suite
  require_bytes binding pq_healing_binding_bytes
  ack ← require_acknowledgement acknowledgement
  tag ← parameter_set_to_tag suite.parameter_set
  let buffer = write_prefix ack_type tag binding (zeros pq_healing_ack_bytes)
  ok (set_u64 ack_epoch_offset ack.epoch (set_u64 counter_offset ack.advance_counter buffer))

unfoldable pub decode_pq_healing_ack :
    List ℕ → MlKemSuiteDescriptor → List ℕ → Healing Acknowledgement
decode_pq_healing_ack rec suite binding = do
  assert_canonical_suite suite
  require_bytes binding pq_healing_binding_bytes
  require_bytes rec pq_healing_ack_bytes
  fail_if (not (bytes_equal (slice magic_offset version_offset rec) magic)) invalid_record
  fail_if (not (is_byte (byte_at rec version_offset) format_version)) invalid_record
  fail_if (not (is_byte (byte_at rec type_offset) ack_type)) invalid_record
  fail_if (not (is_byte (byte_at rec flags_offset) reserved_flags)) invalid_record
  record_parameter_set ← tag_to_parameter_set (byte_at rec suite_offset)
  fail_if (not (record_parameter_set == suite.parameter_set)) suite_mismatch
  let record_binding = slice binding_offset (binding_offset + pq_healing_binding_bytes) rec
  fail_if (not (bytes_equal record_binding binding)) binding_mismatch
  fail_if (not (get_u64 ack_reserved_offset rec == 0)) invalid_record
  ok (record { epoch = get_u64 ack_epoch_offset rec; advance_counter = get_u64 counter_offset rec })

unfoldable pub decode_offer : List ℕ → MlKemSuiteDescriptor → Option (List ℕ) → Healing DecodedOffer
decode_offer rec suite binding = do
  header ← decode_header rec offer_type suite binding
  fail_if (not (length rec == offer_length suite)) invalid_record
  ok (record {
    sender_counter = header.sender_counter;
    from_epoch = header.from_epoch;
    to_epoch = header.to_epoch;
    bytes = rec;
    public_key = drop pq_healing_record_header_bytes rec;
  })

unfoldable pub decode_advance :
    List ℕ → MlKemSuiteDescriptor → Option (List ℕ) → Healing DecodedAdvance
decode_advance rec suite binding = do
  header ← decode_header rec advance_type suite binding
  fail_if (not (length rec == advance_length suite)) invalid_record
  let nested_offer_length = offer_length suite
  let offer_end = pq_healing_record_header_bytes + nested_offer_length
  let offer_bytes = slice pq_healing_record_header_bytes offer_end rec
  offer ← decode_offer offer_bytes suite binding
  fail_if (not (offer.from_epoch == header.from_epoch) || not (offer.to_epoch == header.to_epoch))
      fork
  ok (record {
    sender_counter = header.sender_counter;
    from_epoch = header.from_epoch;
    to_epoch = header.to_epoch;
    bytes = rec;
    offer = offer;
    ciphertext = drop offer_end rec;
  })

-- `PqHealingOfferRecord` and `PqHealingAdvanceRecord`.
pub record OfferRecord : Type 0 where
  pub parameter_set : ℕ
  pub binding : List ℕ
  pub sender_counter : ℕ
  pub from_epoch : ℕ
  pub to_epoch : ℕ
  pub public_key : List ℕ

pub record AdvanceRecord : Type 0 where
  pub parameter_set : ℕ
  pub binding : List ℕ
  pub sender_counter : ℕ
  pub from_epoch : ℕ
  pub to_epoch : ℕ
  pub offer_bytes : List ℕ
  pub offer : OfferRecord
  pub ciphertext : List ℕ

pub data PqHealingRecord : Type 0 where
  offer : OfferRecord → PqHealingRecord
  advance : AdvanceRecord → PqHealingRecord

-- The binding that a record carries.
abbrev pub record_binding : List ℕ → List ℕ
record_binding = slice binding_offset (binding_offset + pq_healing_binding_bytes)

unfoldable pub offer_record : ℕ → DecodedOffer → OfferRecord
offer_record parameter_set o = record {
  parameter_set = parameter_set;
  binding = record_binding o.bytes;
  sender_counter = o.sender_counter;
  from_epoch = o.from_epoch;
  to_epoch = o.to_epoch;
  public_key = o.public_key;
}

unfoldable pub advance_record : ℕ → DecodedAdvance → AdvanceRecord
unfolding offer_record
advance_record parameter_set a = record {
  parameter_set = parameter_set;
  binding = record_binding a.bytes;
  sender_counter = a.sender_counter;
  from_epoch = a.from_epoch;
  to_epoch = a.to_epoch;
  offer_bytes = a.offer.bytes;
  offer = offer_record parameter_set a.offer;
  ciphertext = a.ciphertext;
}

unfoldable pub inspect_pq_healing_record : List ℕ → MlKemSuiteDescriptor → Healing PqHealingRecord
inspect_pq_healing_record rec suite = do
  assert_canonical_suite suite
  fail_if (ltb (length rec) pq_healing_record_header_bytes) invalid_record
  let as_offer : Healing PqHealingRecord = decode_offer rec suite none >>= λ o.
      ok (PqHealingRecord.offer (offer_record suite.parameter_set o))
  let as_advance : Healing PqHealingRecord = decode_advance rec suite none >>= λ a.
      ok (PqHealingRecord.advance (advance_record suite.parameter_set a))
  if is_byte (byte_at rec type_offset) offer_type
      then as_offer
      else if is_byte (byte_at rec type_offset) advance_type
      then as_advance
      else err invalid_record

unfoldable pub encode_offer : MlKemSuiteDescriptor → List ℕ → ℕ → ℕ → List ℕ → Healing (List ℕ)
encode_offer suite binding sender_counter from_epoch public_key = do
  require_bytes public_key suite.public_key_bytes
  rec ←
      encode_header offer_type suite binding sender_counter from_epoch (from_epoch + 1)
        (offer_length suite)
  ok (set_at pq_healing_record_header_bytes public_key rec)

unfoldable pub encode_advance :
    MlKemSuiteDescriptor → List ℕ → ℕ → DecodedOffer → List ℕ → Healing (List ℕ)
encode_advance suite binding sender_counter o ciphertext = do
  require_bytes ciphertext suite.ciphertext_bytes
  rec ←
      encode_header advance_type suite binding sender_counter o.from_epoch o.to_epoch
        (advance_length suite)
  let with_offer = set_at pq_healing_record_header_bytes o.bytes rec
  ok (set_at (pq_healing_record_header_bytes + length o.bytes) ciphertext with_offer)

-- The UTF-8 bytes of "p2party/pq-healing/root/v1" and a zero.
abbrev pub kdf_domain : List ℕ
kdf_domain =
    0x70 ∷ 0x32 ∷ 0x70 ∷ 0x61 ∷ 0x72 ∷ 0x74 ∷ 0x79 ∷ 0x2f ∷ 0x70 ∷ 0x71 ∷ 0x2d ∷ 0x68 ∷ 0x65 ∷ 0x61
    ∷ 0x6c ∷ 0x69 ∷ 0x6e ∷ 0x67 ∷ 0x2f ∷ 0x72 ∷ 0x6f ∷ 0x6f ∷ 0x74 ∷ 0x2f ∷ 0x76 ∷ 0x31 ∷ 0x00 ∷ []

unfoldable pub derive_next_root : List ℕ → List ℕ → List ℕ → LibCrypto → Healing (List ℕ)
derive_next_root current_root shared_secret advance_bytes m = do
  require_bytes current_root pq_healing_root_bytes
  prk ← map_err hkdf_failed (hkdf_extract current_root shared_secret m)
  map_err hkdf_failed (hkdf_expand prk (kdf_domain ++ advance_bytes) pq_healing_root_bytes m)
