-- ===== src/Cells.antt =====
-- The uniform cell of protocol version 4, which src/cryptography/pqHealingFrame.ts and
-- src/cryptography/coverCell.ts build alike: type, binding, counter, a reserved word, epoch and nonce
-- in the clear, and a sealed plaintext padded with zeros.
pub mod Layout
pub mod Payload
pub mod CoverCell
mod Examples
pub mod PqControl
use Prim.Native.Nat.{bit_or}
use p2party_js.Base.{ℕ, ◌+◌, ◌-◌, ◌==◌, Bool, false, none, some, List, [], ◌∷◌, Result, ok, err}
use p2party_js.LibCrypto.{Aead}
use p2party_js.Bytes.{zeros, set_at, slice, set_u64, set_u32}

-- `WIRE_CHUNK_FRAME_LEN`.
abbrev pub wire_chunk_frame_len : ℕ
wire_chunk_frame_len = 65490

abbrev pub header_bytes : ℕ
header_bytes = 69

abbrev pub plaintext_bytes : ℕ
plaintext_bytes = wire_chunk_frame_len - header_bytes - 16

-- `new Uint8Array(n)` for a buffer too long to write out.
unfoldable pub blank : ℕ → List ℕ
blank n = zeros n

unfoldable pub cell_header : ℕ → List ℕ → ℕ → ℕ → List ℕ → List ℕ
cell_header type binding counter key_epoch nonce = set_at 57 nonce (
    set_u64 49 key_epoch
      (set_u64 33 counter (set_at 1 binding (set_at 0 (type ∷ []) (zeros header_bytes)))))

-- A frame of a header and a ciphertext.
unfoldable pub cell_frame : List ℕ → List ℕ → List ℕ
unfolding blank
cell_frame header ciphertext =
    set_at header_bytes ciphertext (set_at 0 header (blank wire_chunk_frame_len))

-- `nonzeroPadding |= plaintext[index]` from an index on.
unfoldable pub nonzero_padding : ℕ → List ℕ → ℕ
nonzero_padding found [] = found
nonzero_padding found (b ∷ bytes) = nonzero_padding (bit_or found b) bytes

-- `frame[0] === type`.
abbrev pub is_type : ℕ → List ℕ → Bool
is_type type [] = false
is_type type (b ∷ _) = b == type

-- `PqControlDirection` and `CoverCellDirection`.
pub data Direction : Type 0 where
  initiator_to_responder responder_to_initiator : Direction

abbrev pub direction_tag : Direction → ℕ
direction_tag initiator_to_responder = 1
direction_tag responder_to_initiator = 2

-- `aeadSeal` and `aeadOpen`, with the error of a nonzero return code.
unfoldable pub seal_or :
    {E : Type 0} → E → Aead → List ℕ → List ℕ → List ℕ → List ℕ → Result E (List ℕ)
seal_or e aead key nonce plaintext aad = elim (aead.seal key nonce plaintext aad) [
  | none ↦ err e
  | some ciphertext ↦ ok ciphertext
]

unfoldable pub open_or :
    {E : Type 0} → E → Aead → List ℕ → List ℕ → List ℕ → List ℕ → Result E (List ℕ)
open_or e aead key nonce ciphertext aad = elim (aead.open_sealed key nonce ciphertext aad) [
  | none ↦ err e
  | some plaintext ↦ ok plaintext
]
