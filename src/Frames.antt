-- ===== src/Frames.antt =====
-- src/handlers/frameType.ts and the geometry of frames in src/utils/constants.ts: the first byte of
-- a frame of the data channel is its type.
pub mod Chunk
pub mod Receipt
mod Examples
use p2party_js.Base.{
  ℕ, ◌+◌, Bool, true, false, not, ◌&&◌, ◌==◌, Option, none, some, List, [], ◌∷◌, length, drop,
  if◌then◌else◌,
}

abbrev pub frame_type_len : ℕ
frame_type_len = 1

abbrev pub frame_type_chunk : ℕ
frame_type_chunk = 2

abbrev pub frame_type_receipt : ℕ
frame_type_receipt = 3

abbrev pub receipt_token_len : ℕ
receipt_token_len = 64

abbrev pub wire_receipt_frame_len : ℕ
wire_receipt_frame_len = frame_type_len + receipt_token_len

-- `type` is `none` where the source says -1.
pub record ClassifiedFrame : Type 0 where
  pub type : Option ℕ
  pub payload : List ℕ

-- `data[0]` of a frame that is not empty.
abbrev pub candidate_type : List ℕ → Option ℕ
candidate_type [] = none
candidate_type (b ∷ bytes) = some b

abbrev pub is_receipt : Option ℕ → Bool
is_receipt none = false
is_receipt (some type) = type == frame_type_receipt

abbrev pub payload_of : Option ℕ → List ℕ → List ℕ
payload_of none bytes = []
payload_of (some type) bytes = drop frame_type_len bytes

unfoldable pub classify_frame : List ℕ → ClassifiedFrame
classify_frame bytes =
    let candidate = candidate_type bytes in
    let type : Option ℕ =
      if is_receipt candidate && not (length bytes == wire_receipt_frame_len)
      then none
      else candidate in
    record { type = type; payload = payload_of type bytes }
