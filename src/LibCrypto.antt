-- ===== src/LibCrypto.antt =====
-- src/cryptography/hkdf.ts over the WebAssembly module: HKDF-SHA512 is compiled C, so its two
-- entry points are a parameter. Memory management of the module (`_malloc`, `_free`, wiping of
-- the staged copies) has no result and is left out.
use p2party_js.Base.{ℕ, ◌+◌, ◌≡◌, List, Option, none, some, length, Result, ok, err}

-- `_hkdf_sha512_extract` and `_hkdf_sha512_expand`; `none` is a nonzero return code. They fill
-- output buffers of 64 and of `outLen` bytes. `_x25519_dh` fails on a point of small order.
pub record LibCrypto : Type 0 where
  pub hkdf_sha512_extract : List ℕ → List ℕ → Option (List ℕ)
  pub hkdf_sha512_expand : List ℕ → List ℕ → ℕ → Option (List ℕ)
  pub x25519_dh : List ℕ → List ℕ → Option (List ℕ)
  pub length-expand :
      (prk info : List ℕ) (out_len : ℕ) (out : List ℕ)
      → hkdf_sha512_expand prk info out_len ≡ some out
      → length out ≡ out_len

pub data HkdfError : Type 0 where
  hkdf_sha512_extract_failed hkdf_sha512_expand_failed : HkdfError

unfoldable pub hkdf_extract : List ℕ → List ℕ → LibCrypto → Result HkdfError (List ℕ)
hkdf_extract salt ikm m = elim (m.hkdf_sha512_extract salt ikm) [
  | none ↦ err hkdf_sha512_extract_failed
  | some prk ↦ ok prk
]

unfoldable pub hkdf_expand : List ℕ → List ℕ → ℕ → LibCrypto → Result HkdfError (List ℕ)
hkdf_expand prk info out_len m = elim (m.hkdf_sha512_expand prk info out_len) [
  | none ↦ err hkdf_sha512_expand_failed
  | some okm ↦ ok okm
]

-- src/cryptography/x25519.ts: the secret key, then the public key of the peer.
pub data DhError : Type 0 where
  x25519_dh_failed : DhError

unfoldable pub x25519_dh_of : List ℕ → List ℕ → LibCrypto → Result DhError (List ℕ)
x25519_dh_of secret_key public_key m = elim (m.x25519_dh secret_key public_key) [
  | none ↦ err x25519_dh_failed
  | some shared ↦ ok shared
]

-- `_encrypt_chachapoly_symmetric` and `_decrypt_chachapoly_symmetric`: key, nonce, text, header;
-- `none` is a nonzero return code. The ciphertext has 16 bytes more than the plaintext, and opens under
-- the same key, nonce and header.
pub record Aead : Type 0 where
  pub seal : List ℕ → List ℕ → List ℕ → List ℕ → Option (List ℕ)
  pub open_sealed : List ℕ → List ℕ → List ℕ → List ℕ → Option (List ℕ)
  pub length-seal :
      (key nonce plaintext aad ciphertext : List ℕ)
      → seal key nonce plaintext aad ≡ some ciphertext
      → length ciphertext ≡ length plaintext + 16
  pub open-seal :
      (key nonce plaintext aad ciphertext : List ℕ)
      → seal key nonce plaintext aad ≡ some ciphertext
      → open_sealed key nonce ciphertext aad ≡ some plaintext
