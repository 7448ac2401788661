-- ===== src/Cells/PqControl.antt =====
-- src/cryptography/pqHealingFrame.ts: the cells that carry the records of PQ healing. The nonce, which
-- `crypto.getRandomValues` draws, is an argument. A direction is of its type, so the test for others
-- has no counterpart.
pub mod Inspection
pub mod RoundTrip
use p2party_js.Base.{
  ℕ, ◌+◌, ◌-◌, true, false, not, ◌||◌, ◌==◌, ltb, none, some, List, [], ◌∷◌, ◌++◌, length, drop,
  if◌then◌else◌, Result, ok, err, ◌>>=◌, ◌>>◌, fail_if, map_err,
}
use p2party_js.Bytes.{be_bytes, set_at, slice, set_u32, get_u32, get_u64, bytes_equal}
use p2party_js.LibCrypto.{LibCrypto, Aead, HkdfError, hkdf_extract, hkdf_expand}
use p2party_js.MlKem.{MlKemSuiteDescriptor, get_ml_kem_suite, same_descriptor}
use p2party_js.PqHealing.Record.{
  PqHealingError, pq_healing_ack_bytes, pq_healing_binding_bytes, pq_healing_root_bytes, max_u64,
}
use p2party_js.PqHealing.Codec.{PqHealingRecord, decode_pq_healing_ack, inspect_pq_healing_record}
use p2party_js.Cells.{
  is_type, Direction, direction_tag, seal_or, open_or, wire_chunk_frame_len, header_bytes,
  plaintext_bytes, blank, cell_header, cell_frame, nonzero_padding,
}

-- `FRAME_TYPE_PQ_CONTROL`.
abbrev pub frame_type_pq_control : ℕ
frame_type_pq_control = 5

abbrev pub record_length_bytes : ℕ
record_length_bytes = 4

abbrev pub key_domain : List ℕ
key_domain =
    0x70 ∷ 0x32 ∷ 0x70 ∷ 0x61 ∷ 0x72 ∷ 0x74 ∷ 0x79 ∷ 0x2f ∷ 0x70 ∷ 0x71 ∷ 0x2d ∷ 0x63 ∷ 0x6f ∷ 0x6e
    ∷ 0x74 ∷ 0x72 ∷ 0x6f ∷ 0x6c ∷ 0x2d ∷ 0x66 ∷ 0x72 ∷ 0x61 ∷ 0x6d ∷ 0x65 ∷ 0x2f ∷ 0x6b ∷ 0x65
    ∷ 0x79 ∷ 0x2f ∷ 0x76 ∷ 0x31 ∷ 0x00 ∷ []

pub data PqControlFrameError : Type 0 where
  authentication_failed binding_mismatch epoch_mismatch invalid_frame : PqControlFrameError
  invalid_padding record_mismatch range_error : PqControlFrameError
  healing_failed : PqHealingError → PqControlFrameError
  hkdf_failed : HkdfError → PqControlFrameError

unfoldable pub require_bytes : List ℕ → ℕ → Result PqControlFrameError (Unit {0})
require_bytes value n = fail_if (not (length value == n)) invalid_frame

unfoldable pub require_u64 : ℕ → Result PqControlFrameError (Unit {0})
require_u64 value = fail_if (ltb max_u64 value) invalid_frame

unfoldable pub suite_tag : MlKemSuiteDescriptor → Result PqControlFrameError ℕ
suite_tag suite = elim (get_ml_kem_suite suite.parameter_set) [
  | none ↦ err range_error
  | some canonical ↦
      if not (same_descriptor suite canonical)
      then err invalid_frame
      else if suite.parameter_set == 768
      then ok 1
      else if suite.parameter_set == 512
      then ok 2
      else if suite.parameter_set == 1024
      then ok 3
      else err invalid_frame
]

unfoldable pub derive_frame_key :
    LibCrypto
    → MlKemSuiteDescriptor
    → List ℕ
    → List ℕ
    → Direction
    → ℕ
    → Result PqControlFrameError (List ℕ)
derive_frame_key m suite root_key binding direction key_epoch = do
  require_bytes root_key pq_healing_root_bytes
  require_bytes binding pq_healing_binding_bytes
  require_u64 key_epoch
  tag ← suite_tag suite
  let tags = tag ∷ direction_tag direction ∷ []
  prk ← map_err hkdf_failed (hkdf_extract root_key binding m)
  map_err hkdf_failed
      (hkdf_expand prk (key_domain ++ (tags ++ (binding ++ be_bytes 8 key_epoch))) 32 m)

pub record InspectedControlRecord : Type 0 where
  pub counter : ℕ
  pub key_epoch : ℕ

-- The fields that `PqHealingOfferRecord` and `PqHealingAdvanceRecord` share.
abbrev pub binding_of : PqHealingRecord → List ℕ
binding_of (PqHealingRecord.offer o) = o.binding
binding_of (PqHealingRecord.advance a) = a.binding

abbrev pub inspected_of : PqHealingRecord → InspectedControlRecord
inspected_of (PqHealingRecord.offer o) = record {
  counter = o.sender_counter;
  key_epoch = o.from_epoch;
}
inspected_of (PqHealingRecord.advance a) = record {
  counter = a.sender_counter;
  key_epoch = a.from_epoch;
}

unfoldable pub inspect_control_record :
    List ℕ → MlKemSuiteDescriptor → List ℕ → Result PqControlFrameError InspectedControlRecord
inspect_control_record rec suite binding =
    let as_ack : Result PqControlFrameError InspectedControlRecord =
      map_err healing_failed (decode_pq_healing_ack rec suite binding) >>= λ ack.
      ok (record { counter = ack.advance_counter; key_epoch = ack.epoch }) in
    let as_record : Result PqControlFrameError InspectedControlRecord =
      map_err healing_failed (inspect_pq_healing_record rec suite) >>= λ inspected.
      fail_if (not (bytes_equal (binding_of inspected) binding)) binding_mismatch
      >> ok (inspected_of inspected) in
    if length rec == pq_healing_ack_bytes then as_ack else as_record

abbrev pub aead_seal :
    Aead → List ℕ → List ℕ → List ℕ → List ℕ → Result PqControlFrameError (List ℕ)
aead_seal = seal_or invalid_frame

abbrev pub aead_open :
    Aead → List ℕ → List ℕ → List ℕ → List ℕ → Result PqControlFrameError (List ℕ)
aead_open = open_or authentication_failed

pub record SealPqControlFrameOptions : Type 0 where
  pub suite : MlKemSuiteDescriptor
  pub root_key : List ℕ
  pub binding : List ℕ
  pub direction : Direction
  pub key_epoch : ℕ
  pub control_record : List ℕ

pub record OpenPqControlFrameOptions : Type 0 where
  pub suite : MlKemSuiteDescriptor
  pub root_key : List ℕ
  pub binding : List ℕ
  pub direction : Direction
  pub key_epoch : ℕ
  pub frame : List ℕ

-- The length of a record, the record and zeros.
unfoldable pub control_plaintext : ℕ → List ℕ → List ℕ
control_plaintext n rec = set_at record_length_bytes rec (set_u32 0 (length rec) (blank n))

unfoldable pub seal_pq_control_frame :
    LibCrypto → Aead → SealPqControlFrameOptions → List ℕ → Result PqControlFrameError (List ℕ)
seal_pq_control_frame m aead o nonce = do
  require_bytes o.binding pq_healing_binding_bytes
  require_u64 o.key_epoch
  inspected ← inspect_control_record o.control_record o.suite o.binding
  fail_if (not (inspected.key_epoch == o.key_epoch)) epoch_mismatch
  fail_if (ltb (plaintext_bytes - record_length_bytes) (length o.control_record)) invalid_frame
  let header = cell_header frame_type_pq_control o.binding inspected.counter o.key_epoch nonce
  key ← derive_frame_key m o.suite o.root_key o.binding o.direction o.key_epoch
  ciphertext ← aead_seal aead key nonce (control_plaintext plaintext_bytes o.control_record) header
  ok (cell_frame header ciphertext)

-- What `openPqControlFrame` does with an authenticated plaintext.
unfoldable pub read_control :
    List ℕ → ℕ → OpenPqControlFrameOptions → Result PqControlFrameError (List ℕ)
read_control plaintext header_counter o = do
  let record_length = get_u32 0 plaintext
  fail_if (record_length == 0 || ltb (plaintext_bytes - record_length_bytes) record_length)
      invalid_padding
  let padding_offset = record_length_bytes + record_length
  fail_if (not (nonzero_padding 0 (drop padding_offset plaintext) == 0)) invalid_padding
  let rec = slice record_length_bytes padding_offset plaintext
  inspected ← inspect_control_record rec o.suite o.binding
  fail_if (not (inspected.key_epoch == o.key_epoch)) epoch_mismatch
  fail_if (not (inspected.counter == header_counter)) record_mismatch
  ok rec

unfoldable pub open_pq_control_frame :
    LibCrypto → Aead → OpenPqControlFrameOptions → Result PqControlFrameError (List ℕ)
open_pq_control_frame m aead o = do
  require_bytes o.frame wire_chunk_frame_len
  require_bytes o.binding pq_healing_binding_bytes
  require_u64 o.key_epoch
  fail_if (not (is_type frame_type_pq_control o.frame)) invalid_frame
  fail_if (not (bytes_equal (slice 1 33 o.frame) o.binding)) binding_mismatch
  fail_if (not (get_u64 41 o.frame == 0)) invalid_frame
  fail_if (not (get_u64 49 o.frame == o.key_epoch)) epoch_mismatch
  key ← derive_frame_key m o.suite o.root_key o.binding o.direction o.key_epoch
  plaintext ←
      aead_open aead key (slice 57 69 o.frame) (drop header_bytes o.frame)
        (slice 0 header_bytes o.frame)
  read_control plaintext (get_u64 33 o.frame) o
