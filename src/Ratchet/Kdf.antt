-- ===== src/Ratchet/Kdf.antt =====
-- src/cryptography/ratchet.ts: the two key derivations. The transient outputs that are wiped before
-- these functions return do not outlive them here either.
use p2party_js.Base.{ℕ, List, [], ◌∷◌, Result, ok, ◌>>=◌, map_err}
use p2party_js.Bytes.{slice}
use p2party_js.LibCrypto.{LibCrypto, HkdfError, DhError, hkdf_extract, hkdf_expand}

-- What the functions of the module throw, or their callees; `null_key` is the TypeError of a key
-- that is null where the code asserts that it is not.
pub data RatchetError : Type 0 where
  hkdf_failed : HkdfError → RatchetError
  dh_failed : DhError → RatchetError
  initiator_requires_remote_dh_pub no_sending_chain max_skip_exceeded : RatchetError
  invalid_initiator_dh_public_key requires_pristine_state : RatchetError
  message_key_already_consumed different_root_suite null_key : RatchetError

-- The UTF-8 bytes of "p2party-rk-v1", "p2party-ck-v1" and "p2party-mk-v1".
abbrev pub rk_info : List ℕ
rk_info =
    0x70 ∷ 0x32 ∷ 0x70 ∷ 0x61 ∷ 0x72 ∷ 0x74 ∷ 0x79 ∷ 0x2d ∷ 0x72 ∷ 0x6b ∷ 0x2d ∷ 0x76 ∷ 0x31 ∷ []

abbrev pub ck_info : List ℕ
ck_info =
    0x70 ∷ 0x32 ∷ 0x70 ∷ 0x61 ∷ 0x72 ∷ 0x74 ∷ 0x79 ∷ 0x2d ∷ 0x63 ∷ 0x6b ∷ 0x2d ∷ 0x76 ∷ 0x31 ∷ []

abbrev pub mk_info : List ℕ
mk_info =
    0x70 ∷ 0x32 ∷ 0x70 ∷ 0x61 ∷ 0x72 ∷ 0x74 ∷ 0x79 ∷ 0x2d ∷ 0x6d ∷ 0x6b ∷ 0x2d ∷ 0x76 ∷ 0x31 ∷ []

pub record RootStep : Type 0 where
  pub root_key : List ℕ
  pub chain_key : List ℕ

unfoldable pub kdf_rk : List ℕ → List ℕ → LibCrypto → Result RatchetError RootStep
kdf_rk root_key dh_out m = do
  prk ← map_err hkdf_failed (hkdf_extract root_key dh_out m)
  okm ← map_err hkdf_failed (hkdf_expand prk rk_info 64 m)
  ok (record { root_key = slice 0 32 okm; chain_key = slice 32 64 okm })

pub record ChainStep : Type 0 where
  pub chain_key : List ℕ
  pub message_key : List ℕ

unfoldable pub kdf_ck : List ℕ → LibCrypto → Result RatchetError ChainStep
kdf_ck chain_key m = do
  mk_full ← map_err hkdf_failed (hkdf_extract chain_key mk_info m)
  ck_full ← map_err hkdf_failed (hkdf_extract chain_key ck_info m)
  ok (record { chain_key = slice 0 32 ck_full; message_key = slice 0 32 mk_full })
