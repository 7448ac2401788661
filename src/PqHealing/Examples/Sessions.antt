-- ===== src/PqHealing/Examples/Sessions.antt =====
-- A session of an ML-KEM-512 edge, with a stand-in for HKDF that always succeeds.
use p2party_js.Base.{
  ℕ, ◌≡◌, ◌↔◌, true, false, refl, sym, ap, ◌∙◌, List, Option, some, none, length, replicate, ok,
}
use p2party_js.Bytes.{bytes_equal}
use p2party_js.Bytes.Laws.{length-zeros, bytes_equal_iff}
use p2party_js.LibCrypto.{LibCrypto}
use p2party_js.MlKem.{ml_kem_512_suite, get_ml_kem_suite, same_descriptor, IsCanonical}
use p2party_js.MlKem.Canonical.{assert_canonical_suite_iff}
use p2party_js.PqHealing.Record.{
  assert_canonical_suite, assert_same_suite, require_bytes, require_u64,
}
use p2party_js.PqHealing.Machine.{Machine, MachineOptions, Phase, local, new_machine}
use p2party_js.PqHealing.Examples.Records.{edge}

pub some-injective : {xs ys : List ℕ} → ◌≡◌ {A = Option (List ℕ)} (some xs) (some ys) → xs ≡ ys
some-injective h = cc

unfoldable pub toy_crypto : LibCrypto
toy_crypto = record {
  hkdf_sha512_extract = λ salt ikm. some (replicate 64 1);
  hkdf_sha512_expand = λ prk info n. some (replicate n 0);
  x25519_dh = λ secret_key public_key. some (replicate 32 9);
  length-expand = λ prk info n out e. ap length (some-injective (sym e)) ∙ length-zeros n;
}

abbrev pub options : MachineOptions
options = record {
  backend_suite = ml_kem_512_suite;
  suite = ml_kem_512_suite;
  binding = edge;
  root_key = replicate 32 1;
  next_offerer = local;
  epoch = some 5;
  local_counter = some 3;
  remote_counter = some 8;
}

abbrev pub fresh : Machine
fresh = record {
  suite = ml_kem_512_suite;
  binding = edge;
  root_key = replicate 32 1;
  epoch = 5;
  local_counter = 3;
  remote_counter = 8;
  next_offerer = local;
  phase = Phase.idle;
  last_inbound_offer = none;
  last_inbound_advance = none;
  busy = false;
  is_destroyed = false;
}

pub fresh_is_new : new_machine options ≡ ok fresh
unfolding new_machine assert_same_suite assert_canonical_suite get_ml_kem_suite same_descriptor
    require_bytes require_u64
fresh_is_new = refl

assert_canonical_suite_iff_example :
    (assert_canonical_suite ml_kem_512_suite ≡ ok tt) ↔ IsCanonical ml_kem_512_suite
assert_canonical_suite_iff_example = assert_canonical_suite_iff ml_kem_512_suite

abbrev other_edge : List ℕ
other_edge = replicate 32 8

bytes_equal_iff_example : (bytes_equal edge other_edge ≡ true) ↔ (edge ≡ other_edge)
bytes_equal_iff_example = bytes_equal_iff edge other_edge
