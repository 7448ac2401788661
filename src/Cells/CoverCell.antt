-- ===== src/Cells/CoverCell.antt =====
-- src/cryptography/coverCell.ts: the cells that a cover lane sends. The nonce, which
-- `crypto.getRandomValues` draws, is an argument. A root suite and a direction are of their type, so
-- the tests for others have no counterpart.
pub mod RoundTrip
pub mod Replay
use p2party_js.Base.{
  ℕ, ◌+◌, ◌-◌, ◌^◌, Bool, true, false, not, ◌==◌, ltb, leb, Option, none, some, List, [], ◌∷◌, ◌++◌,
  length, take, drop, if◌then◌else◌, Result, ok, err, ◌>>=◌, ◌>>◌, fail_if, map_err,
}
use p2party_js.Bytes.{be_bytes, set_at, slice, set_u32, get_u32, get_u64, bytes_equal}
use p2party_js.LibCrypto.{LibCrypto, Aead, HkdfError, hkdf_extract, hkdf_expand}
use p2party_js.Ratchet.State.{RatchetRootSuite, mlkem512, mlkem768, mlkem1024}
use p2party_js.Cells.{
  is_type, Direction, direction_tag, seal_or, open_or, wire_chunk_frame_len, header_bytes,
  plaintext_bytes, blank, cell_header, cell_frame, nonzero_padding,
}

-- `FRAME_TYPE_COVER`.
abbrev pub frame_type_cover : ℕ
frame_type_cover = 4

abbrev pub cover_cell_token_bytes : ℕ
cover_cell_token_bytes = 64

abbrev pub cover_cell_max_payload_bytes : ℕ
cover_cell_max_payload_bytes = plaintext_bytes - 1 - 4

abbrev pub max_u64 : ℕ
max_u64 = 2 ^ 64 - 1

abbrev pub key_domain : List ℕ
key_domain =
    0x70 ∷ 0x32 ∷ 0x70 ∷ 0x61 ∷ 0x72 ∷ 0x74 ∷ 0x79 ∷ 0x2f ∷ 0x63 ∷ 0x6f ∷ 0x76 ∷ 0x65 ∷ 0x72 ∷ 0x2d
    ∷ 0x63 ∷ 0x65 ∷ 0x6c ∷ 0x6c ∷ 0x2f ∷ 0x6b ∷ 0x65 ∷ 0x79 ∷ 0x2f ∷ 0x76 ∷ 0x31 ∷ 0x00 ∷ []

pub data CoverCellContent : Type 0 where
  dummy : CoverCellContent
  cancel : List ℕ → CoverCellContent
  receipt : List ℕ → List ℕ → CoverCellContent

pub data CoverCellError : Type 0 where
  authentication_failed binding_mismatch epoch_mismatch invalid_cell : CoverCellError
  invalid_padding replayed_counter : CoverCellError
  hkdf_failed : HkdfError → CoverCellError

unfoldable pub require_bytes : List ℕ → ℕ → Result CoverCellError (Unit {0})
require_bytes value n = fail_if (not (length value == n)) invalid_cell

unfoldable pub require_u64 : ℕ → Result CoverCellError (Unit {0})
require_u64 value = fail_if (ltb max_u64 value) invalid_cell

abbrev pub suite_tag : RatchetRootSuite → ℕ
suite_tag mlkem768 = 1
suite_tag mlkem512 = 2
suite_tag mlkem1024 = 3

abbrev pub subtype_tag : CoverCellContent → ℕ
subtype_tag dummy = 1
subtype_tag (cancel _) = 2
subtype_tag (receipt _ _) = 3

unfoldable pub derive_cell_key :
    LibCrypto → RatchetRootSuite → List ℕ → List ℕ → Direction → ℕ → Result CoverCellError (List ℕ)
derive_cell_key m root_suite root_key binding direction key_epoch = do
  require_bytes root_key 32
  require_bytes binding 32
  require_u64 key_epoch
  let tags = suite_tag root_suite ∷ direction_tag direction ∷ []
  prk ← map_err hkdf_failed (hkdf_extract root_key binding m)
  map_err hkdf_failed
      (hkdf_expand prk (key_domain ++ (tags ++ (binding ++ be_bytes 8 key_epoch))) 32 m)

unfoldable pub encode_content : CoverCellContent → Result CoverCellError (List ℕ)
encode_content dummy = ok []
encode_content (cancel merkle_root) = do
  require_bytes merkle_root cover_cell_token_bytes
  ok merkle_root
encode_content (receipt merkle_root token) = do
  require_bytes merkle_root cover_cell_token_bytes
  require_bytes token cover_cell_token_bytes
  ok (merkle_root ++ token)

unfoldable pub decode_content : ℕ → List ℕ → Result CoverCellError CoverCellContent
decode_content subtype payload =
    if subtype == 1
    then (do fail_if (not (length payload == 0)) invalid_cell; ok dummy)
    else if subtype == 2
    then (do
      fail_if (not (length payload == cover_cell_token_bytes)) invalid_cell
      ok (cancel payload))
    else if subtype == 3
    then (do
      fail_if (not (length payload == cover_cell_token_bytes + cover_cell_token_bytes)) invalid_cell
      ok (receipt (take cover_cell_token_bytes payload) (drop cover_cell_token_bytes payload)))
    else err invalid_cell

abbrev pub aead_seal : Aead → List ℕ → List ℕ → List ℕ → List ℕ → Result CoverCellError (List ℕ)
aead_seal = seal_or invalid_cell

abbrev pub aead_open : Aead → List ℕ → List ℕ → List ℕ → List ℕ → Result CoverCellError (List ℕ)
aead_open = open_or authentication_failed

pub record SealCoverCellOptions : Type 0 where
  pub root_suite : RatchetRootSuite
  pub root_key : List ℕ
  pub binding : List ℕ
  pub direction : Direction
  pub key_epoch : ℕ
  pub counter : ℕ
  pub content : CoverCellContent

pub record OpenCoverCellOptions : Type 0 where
  pub root_suite : RatchetRootSuite
  pub root_key : List ℕ
  pub binding : List ℕ
  pub direction : Direction
  pub key_epoch : ℕ
  pub counter_above : Option ℕ
  pub frame : List ℕ

pub record OpenedCoverCell : Type 0 where
  pub content : CoverCellContent
  pub counter : ℕ

-- The plaintext of a subtype and a payload: subtype, length, payload, zeros.
unfoldable pub cell_plaintext : ℕ → ℕ → List ℕ → List ℕ
cell_plaintext n subtype payload =
    set_at 5 payload (set_u32 1 (length payload) (set_at 0 (subtype ∷ []) (blank n)))

unfoldable pub seal_cover_cell :
    LibCrypto → Aead → SealCoverCellOptions → List ℕ → Result CoverCellError (List ℕ)
seal_cover_cell m aead o nonce = do
  require_bytes o.binding 32
  require_u64 o.key_epoch
  require_u64 o.counter
  payload ← encode_content o.content
  fail_if (ltb cover_cell_max_payload_bytes (length payload)) invalid_cell
  let header = cell_header frame_type_cover o.binding o.counter o.key_epoch nonce
  key ← derive_cell_key m o.root_suite o.root_key o.binding o.direction o.key_epoch
  ciphertext ←
      aead_seal aead key nonce (cell_plaintext plaintext_bytes (subtype_tag o.content) payload)
        header
  ok (cell_frame header ciphertext)

-- The test of the counter against the highest one accepted.
unfoldable pub check_newer : ℕ → Option ℕ → Result CoverCellError (Unit {0})
check_newer counter none = ok tt
check_newer counter (some above) = do
  require_u64 above
  fail_if (leb counter above) replayed_counter

-- `plaintext[0]`, which a plaintext of fixed size has.
abbrev pub first_byte : List ℕ → ℕ
first_byte [] = 0
first_byte (b ∷ _) = b

-- What `openCoverCell` does with an authenticated plaintext.
unfoldable pub read_plaintext : List ℕ → Result CoverCellError CoverCellContent
read_plaintext plaintext = do
  let payload_length = get_u32 1 plaintext
  fail_if (ltb cover_cell_max_payload_bytes payload_length) invalid_padding
  fail_if (not (nonzero_padding 0 (drop (5 + payload_length) plaintext) == 0)) invalid_padding
  decode_content (first_byte plaintext) (slice 5 (5 + payload_length) plaintext)

unfoldable pub open_cover_cell :
    LibCrypto → Aead → OpenCoverCellOptions → Result CoverCellError OpenedCoverCell
open_cover_cell m aead o = do
  require_bytes o.frame wire_chunk_frame_len
  require_bytes o.binding 32
  require_u64 o.key_epoch
  fail_if (not (is_type frame_type_cover o.frame)) invalid_cell
  fail_if (not (bytes_equal (slice 1 33 o.frame) o.binding)) binding_mismatch
  fail_if (not (get_u64 41 o.frame == 0)) invalid_cell
  fail_if (not (get_u64 49 o.frame == o.key_epoch)) epoch_mismatch
  check_newer (get_u64 33 o.frame) o.counter_above
  key ← derive_cell_key m o.root_suite o.root_key o.binding o.direction o.key_epoch
  plaintext ←
      aead_open aead key (slice 57 69 o.frame) (drop header_bytes o.frame)
        (slice 0 header_bytes o.frame)
  content ← read_plaintext plaintext
  ok (record { content = content; counter = get_u64 33 o.frame })
