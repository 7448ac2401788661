-- ===== src/MlKem.antt =====
-- src/cryptography/mlkem.ts: the FIPS 203 parameter sets and their descriptors. The KEM itself is
-- compiled C behind WebAssembly and a parameter of the machines that use it. A descriptor also names
-- the entry points of the compiled code, which no check compares.
pub mod Canonical
use Prim.Native.String.{String}
use text.Mathlib.Text.{◌==◌ as ◌==ₛ◌}
use p2party_js.Base.{
  ℕ, ◌≡◌, refl, ◌⊎◌, inl, inr, Bool, true, false, ◌&&◌, Option, none, some, arith, ◌==◌,
  if◌then◌else◌,
}

pub record WasmExports : Type 0 where
  pub keypair : String
  pub encaps : String
  pub decaps : String

pub record MlKemSuiteDescriptor : Type 0 where
  pub parameter_set : ℕ
  pub standard_name : String
  pub public_key_bytes : ℕ
  pub secret_key_bytes : ℕ
  pub ciphertext_bytes : ℕ
  pub shared_secret_bytes : ℕ
  pub key_pair_random_bytes : ℕ
  pub encaps_random_bytes : ℕ
  pub wasm_exports : WasmExports

abbrev pub ml_kem_512_suite : MlKemSuiteDescriptor
ml_kem_512_suite = record {
  parameter_set = 512;
  standard_name = "ML-KEM-512";
  public_key_bytes = 800;
  secret_key_bytes = 1632;
  ciphertext_bytes = 768;
  shared_secret_bytes = 32;
  key_pair_random_bytes = 64;
  encaps_random_bytes = 32;
  wasm_exports = record {
    keypair = "_mlkem512_keypair";
    encaps = "_mlkem512_encaps";
    decaps = "_mlkem512_decaps";
  };
}

abbrev pub ml_kem_768_suite : MlKemSuiteDescriptor
ml_kem_768_suite = record {
  parameter_set = 768;
  standard_name = "ML-KEM-768";
  public_key_bytes = 1184;
  secret_key_bytes = 2400;
  ciphertext_bytes = 1088;
  shared_secret_bytes = 32;
  key_pair_random_bytes = 64;
  encaps_random_bytes = 32;
  wasm_exports = record {
    keypair = "_mlkem768_keypair";
    encaps = "_mlkem768_encaps";
    decaps = "_mlkem768_decaps";
  };
}

abbrev pub ml_kem_1024_suite : MlKemSuiteDescriptor
ml_kem_1024_suite = record {
  parameter_set = 1024;
  standard_name = "ML-KEM-1024";
  public_key_bytes = 1568;
  secret_key_bytes = 3168;
  ciphertext_bytes = 1568;
  shared_secret_bytes = 32;
  key_pair_random_bytes = 64;
  encaps_random_bytes = 32;
  wasm_exports = record {
    keypair = "_mlkem1024_keypair";
    encaps = "_mlkem1024_encaps";
    decaps = "_mlkem1024_decaps";
  };
}

-- `getMlKemSuite`; `none` is the RangeError for an unsupported parameter set.
unfoldable pub get_ml_kem_suite : ℕ → Option MlKemSuiteDescriptor
get_ml_kem_suite parameter_set =
    if parameter_set == 512
    then some ml_kem_512_suite
    else if parameter_set == 768
    then some ml_kem_768_suite
    else if parameter_set == 1024
    then some ml_kem_1024_suite
    else none

-- The fields that every caller compares with the canonical descriptor.
unfoldable pub same_descriptor : MlKemSuiteDescriptor → MlKemSuiteDescriptor → Bool
same_descriptor suite canonical =
    suite.standard_name ==ₛ canonical.standard_name
    && suite.public_key_bytes == canonical.public_key_bytes
    && suite.secret_key_bytes == canonical.secret_key_bytes
    && suite.ciphertext_bytes == canonical.ciphertext_bytes
    && suite.shared_secret_bytes == canonical.shared_secret_bytes
    && suite.key_pair_random_bytes == canonical.key_pair_random_bytes
    && suite.encaps_random_bytes == canonical.encaps_random_bytes

-- One of the three descriptors of the table, with any names of entry points.
pub data IsCanonical : MlKemSuiteDescriptor → Type 0 where
  canonical_512 : (w : WasmExports) → IsCanonical (record ml_kem_512_suite { wasm_exports = w })
  canonical_768 : (w : WasmExports) → IsCanonical (record ml_kem_768_suite { wasm_exports = w })
  canonical_1024 : (w : WasmExports) → IsCanonical (record ml_kem_1024_suite { wasm_exports = w })
