-- ===== src/PqHealing/Examples/Records.antt =====
-- Concrete records of an ML-KEM-512 edge, through the theorems on the codecs.
use p2party_js.Base.{ℕ, ◌≡◌, refl, List, [], some, replicate, ok, err, arith}
use p2party_js.Bytes.{IsBytes, set_at, be_bytes}
use p2party_js.MlKem.{ml_kem_512_suite, get_ml_kem_suite, same_descriptor}
use p2party_js.PqHealing.Codec.{
  Acknowledgement, DecodedOffer, DecodedAdvance, encode_offer, decode_offer, encode_advance,
  decode_advance, encode_pq_healing_ack, decode_pq_healing_ack, require_acknowledgement,
}
use p2party_js.PqHealing.Codec.Offer.{decode_offer-encode_offer, encode_offer-decode_offer}
use p2party_js.PqHealing.Codec.Advance.{
  decode_advance-encode_advance, encode_advance-decode_advance,
}
use p2party_js.PqHealing.Codec.Ack.{decode_pq_healing_ack-encode, encode-decode_pq_healing_ack}
use p2party_js.PqHealing.Record.{
  Healing, require_bytes, encode_header, offer_length, advance_length, assert_canonical_suite,
  parameter_set_to_tag, write_prefix,
}

abbrev pub value_of : Healing (List ℕ) → List ℕ
value_of (ok bytes) = bytes
value_of (err e) = []

abbrev pub edge : List ℕ
edge = replicate 32 7

abbrev pub offer_bytes : List ℕ
offer_bytes = value_of (encode_offer ml_kem_512_suite edge 3 5 (replicate 800 9))

abbrev pub sample_offer : DecodedOffer
sample_offer = record {
  sender_counter = 3;
  from_epoch = 5;
  to_epoch = 6;
  bytes = offer_bytes;
  public_key = replicate 800 9;
}

pub encoded : encode_offer ml_kem_512_suite edge 3 5 (replicate 800 9) ≡ ok offer_bytes
unfolding encode_offer require_bytes encode_header
encoded = refl

pub offer_decodes : decode_offer offer_bytes ml_kem_512_suite (some edge) ≡ ok sample_offer
offer_decodes =
    decode_offer-encode_offer ml_kem_512_suite edge 3 5 (replicate 800 9) offer_bytes encoded

decode_offer-encode_offer_example :
    decode_offer offer_bytes ml_kem_512_suite (some edge) ≡ ok sample_offer
decode_offer-encode_offer_example =
    decode_offer-encode_offer ml_kem_512_suite edge 3 5 (replicate 800 9) offer_bytes encoded

offer_IsBytes : IsBytes offer_bytes
unfolding encode_offer require_bytes encode_header set_at be_bytes offer_length
offer_IsBytes = omega arith

encode_offer-decode_offer_example :
    encode_offer ml_kem_512_suite edge 3 5 (replicate 800 9) ≡ ok offer_bytes
encode_offer-decode_offer_example =
    encode_offer-decode_offer ml_kem_512_suite edge offer_bytes sample_offer offer_IsBytes
      offer_decodes

-- An ADVANCE with counter 8 that answers it.
abbrev pub advance_bytes : List ℕ
advance_bytes = value_of (encode_advance ml_kem_512_suite edge 8 sample_offer (replicate 768 4))

abbrev pub sample_advance : DecodedAdvance
sample_advance = record {
  sender_counter = 8;
  from_epoch = 5;
  to_epoch = 6;
  bytes = advance_bytes;
  offer = sample_offer;
  ciphertext = replicate 768 4;
}

pub advance_encoded :
    encode_advance ml_kem_512_suite edge 8 sample_offer (replicate 768 4) ≡ ok advance_bytes
unfolding encode_advance require_bytes encode_header
advance_encoded = refl

pub advance_decodes : decode_advance advance_bytes ml_kem_512_suite (some edge) ≡ ok sample_advance
advance_decodes =
    decode_advance-encode_advance ml_kem_512_suite edge 8 sample_offer (replicate 768 4)
      advance_bytes offer_decodes advance_encoded

decode_advance-encode_advance_example :
    decode_advance advance_bytes ml_kem_512_suite (some edge) ≡ ok sample_advance
decode_advance-encode_advance_example =
    decode_advance-encode_advance ml_kem_512_suite edge 8 sample_offer (replicate 768 4)
      advance_bytes offer_decodes advance_encoded

advance_IsBytes : IsBytes advance_bytes
unfolding encode_advance encode_offer require_bytes encode_header set_at be_bytes offer_length
    advance_length
advance_IsBytes = omega arith

encode_advance-decode_advance_example :
    encode_advance ml_kem_512_suite edge 8 sample_offer (replicate 768 4) ≡ ok advance_bytes
encode_advance-decode_advance_example =
    encode_advance-decode_advance ml_kem_512_suite edge advance_bytes sample_advance advance_IsBytes
      advance_decodes

abbrev ack : Acknowledgement
ack = record { epoch = 6; advance_counter = 8 }

abbrev ack_bytes : List ℕ
ack_bytes = value_of (encode_pq_healing_ack ack ml_kem_512_suite edge)

ack_encoded : encode_pq_healing_ack ack ml_kem_512_suite edge ≡ ok ack_bytes
unfolding encode_pq_healing_ack require_bytes assert_canonical_suite get_ml_kem_suite
    same_descriptor require_acknowledgement parameter_set_to_tag
ack_encoded = refl

decode_pq_healing_ack-encode_example :
    decode_pq_healing_ack ack_bytes ml_kem_512_suite edge ≡ ok ack
decode_pq_healing_ack-encode_example =
    decode_pq_healing_ack-encode ack ml_kem_512_suite edge ack_bytes ack_encoded

ack_IsBytes : IsBytes ack_bytes
unfolding encode_pq_healing_ack require_bytes set_at be_bytes assert_canonical_suite
    get_ml_kem_suite same_descriptor require_acknowledgement parameter_set_to_tag write_prefix
ack_IsBytes = omega arith

encode-decode_pq_healing_ack_example :
    encode_pq_healing_ack ack ml_kem_512_suite edge ≡ ok ack_bytes
encode-decode_pq_healing_ack_example =
    encode-decode_pq_healing_ack ml_kem_512_suite edge ack_bytes ack ack_IsBytes
      (decode_pq_healing_ack-encode ack ml_kem_512_suite edge ack_bytes ack_encoded)
