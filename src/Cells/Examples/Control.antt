-- ===== src/Cells/Examples/Control.antt =====
-- A frame that carries an acknowledgement, sealed and opened over toy primitives.
use p2party_js.Base.{ℕ, ◌≡◌, refl, List, ◌++◌, replicate, ok, arith, length}
use p2party_js.Bytes.{IsBytes, set_at, be_bytes}
use p2party_js.LibCrypto.{hkdf_extract, hkdf_expand}
use p2party_js.MlKem.{ml_kem_512_suite, get_ml_kem_suite, same_descriptor}
use p2party_js.PqHealing.Record as R
use p2party_js.PqHealing.Codec.{
  encode_pq_healing_ack, decode_pq_healing_ack, require_acknowledgement,
}
use p2party_js.PqHealing.Codec.Ack.{decode_ack-AckFacts, decode_pq_healing_ack-encode}
use p2party_js.PqHealing.Examples.Records.{value_of}
use p2party_js.Cells.{initiator_to_responder, seal_or, plaintext_bytes, cell_header, cell_frame}
use p2party_js.Cells.Examples.{toy, toy_aead, nonce}
use p2party_js.Cells.PqControl.{
  SealPqControlFrameOptions, require_bytes, require_u64, suite_tag, derive_frame_key,
  inspect_control_record, control_plaintext, seal_pq_control_frame, open_pq_control_frame,
}
use p2party_js.Cells.PqControl.RoundTrip.{opening, open_pq_control_frame-seal}

-- The acknowledgement of the ADVANCE 9 in epoch 3.
abbrev ack_bytes : List ℕ
ack_bytes = value_of (
    encode_pq_healing_ack (record { epoch = 3; advance_counter = 9 }) ml_kem_512_suite
      (replicate 32 2))

ack_encodes :
    encode_pq_healing_ack
      (record { epoch = 3; advance_counter = 9 })
      ml_kem_512_suite
      (replicate 32 2)
    ≡ ok ack_bytes
unfolding encode_pq_healing_ack R.require_bytes R.assert_canonical_suite get_ml_kem_suite
    same_descriptor require_acknowledgement R.parameter_set_to_tag
ack_encodes = refl

abbrev control_options : SealPqControlFrameOptions
control_options = record {
  suite = ml_kem_512_suite;
  root_key = replicate 32 1;
  binding = replicate 32 2;
  direction = initiator_to_responder;
  key_epoch = 3;
  control_record = ack_bytes;
}

abbrev sealed_control : List ℕ
sealed_control =
    cell_frame (cell_header 5 (replicate 32 2) 9 3 nonce)
      (control_plaintext plaintext_bytes ack_bytes ++ replicate 16 0)

ack_IsBytes : IsBytes ack_bytes
unfolding encode_pq_healing_ack R.require_bytes R.assert_canonical_suite get_ml_kem_suite
    same_descriptor require_acknowledgement R.parameter_set_to_tag R.write_prefix set_at be_bytes
ack_IsBytes = omega arith

ack_decodes :
    decode_pq_healing_ack ack_bytes ml_kem_512_suite (replicate 32 2)
    ≡ ok (record { epoch = 3; advance_counter = 9 })
ack_decodes =
    decode_pq_healing_ack-encode (record { epoch = 3; advance_counter = 9 }) ml_kem_512_suite
      (replicate 32 2) ack_bytes ack_encodes

ack_long : length ack_bytes ≡ 64
ack_long = (decode_ack-AckFacts ack_bytes ml_kem_512_suite (replicate 32 2) _ ack_decodes).long

inspects :
    inspect_control_record ack_bytes ml_kem_512_suite (replicate 32 2)
    ≡ ok (record { counter = 9; key_epoch = 3 })
unfolding inspect_control_record
inspects = rw (ack_long, ack_decodes) refl

seals : seal_pq_control_frame toy toy_aead control_options nonce ≡ ok sealed_control
unfolding seal_pq_control_frame require_bytes require_u64 suite_tag derive_frame_key hkdf_extract
    hkdf_expand seal_or get_ml_kem_suite same_descriptor
seals = rw (inspects, ack_long) refl

open_pq_control_frame-seal_example :
    open_pq_control_frame toy toy_aead (opening control_options sealed_control) ≡ ok ack_bytes
open_pq_control_frame-seal_example =
    open_pq_control_frame-seal toy toy_aead control_options nonce sealed_control ack_IsBytes refl
      seals
