-- ===== src/Frames/Chunk.antt =====
-- src/handlers/chunkFrame.ts: the clear header of a chunk frame. Views of a buffer are its bytes.
pub mod RoundTrip
use p2party_js.Base.{
  ℕ, ◌+◌, ◌-◌, ◌^◌, Bool, true, false, not, ◌==◌, ltb, Option, none, some, List, [], ◌∷◌, length,
  drop, Result, ok, err, ◌>>=◌, ◌>>◌, fail_if,
}
use p2party_js.Bytes.{zeros, set_at, slice, set_u64, get_u64}
use p2party_js.Frames.{frame_type_len, frame_type_chunk, candidate_type}
use p2party_js.Ratchet.State.{RatchetHeader}

abbrev pub dh_pub_off : ℕ
dh_pub_off = frame_type_len

abbrev pub n_off : ℕ
n_off = dh_pub_off + 32

abbrev pub pn_off : ℕ
pn_off = n_off + 8

abbrev pub pq_epoch_off : ℕ
pq_epoch_off = pn_off + 8

abbrev pub nonce_off : ℕ
nonce_off = pq_epoch_off + 8

abbrev pub chunk_frame_header_len : ℕ
chunk_frame_header_len = nonce_off + 12

-- `Number.MAX_SAFE_INTEGER` and the greatest unsigned 64-bit number.
abbrev pub max_safe_integer : ℕ
max_safe_integer = 2 ^ 53 - 1

abbrev pub max_epoch : ℕ
max_epoch = 2 ^ 64 - 1

pub data ChunkFrameError : Type 0 where
  dh_pub_length nonce_length counter_out_of_range epoch_out_of_range : ChunkFrameError
  frame_too_short not_a_chunk counter_exceeds_range : ChunkFrameError

unfoldable pub write_u64_be : List ℕ → ℕ → ℕ → Result ChunkFrameError (List ℕ)
write_u64_be out offset value = do
  fail_if (ltb max_safe_integer value) counter_out_of_range
  ok (set_u64 offset value out)

unfoldable pub read_u64_be : List ℕ → ℕ → Result ChunkFrameError ℕ
read_u64_be buf offset = do
  fail_if (ltb max_safe_integer (get_u64 offset buf)) counter_exceeds_range
  ok (get_u64 offset buf)

unfoldable pub write_epoch_u64_be : List ℕ → ℕ → ℕ → Result ChunkFrameError (List ℕ)
write_epoch_u64_be out offset value = do
  fail_if (ltb max_epoch value) epoch_out_of_range
  ok (set_u64 offset value out)

unfoldable pub pack_chunk_frame_header :
    RatchetHeader → List ℕ → ℕ → Result ChunkFrameError (List ℕ)
unfolding write_u64_be write_epoch_u64_be
pack_chunk_frame_header header nonce pq_epoch = do
  fail_if (not (length header.dh_pub == 32)) dh_pub_length
  fail_if (not (length nonce == 12)) nonce_length
  let blank = set_at 0 (frame_type_chunk ∷ []) (zeros chunk_frame_header_len)
  let keyed = set_at dh_pub_off header.dh_pub blank
  numbered ← write_u64_be keyed n_off header.n
  counted ← write_u64_be numbered pn_off header.pn
  aged ← write_epoch_u64_be counted pq_epoch_off pq_epoch
  ok (set_at nonce_off nonce aged)

pub record ParsedChunkFrame : Type 0 where
  pub header : RatchetHeader
  pub pq_epoch : ℕ
  pub nonce : List ℕ
  pub ciphertext : List ℕ

abbrev pub is_chunk : Option ℕ → Bool
is_chunk none = false
is_chunk (some type) = type == frame_type_chunk

unfoldable pub parse_chunk_frame_header : List ℕ → Result ChunkFrameError ParsedChunkFrame
unfolding read_u64_be
parse_chunk_frame_header frame = do
  fail_if (ltb (length frame) chunk_frame_header_len) frame_too_short
  fail_if (not (is_chunk (candidate_type frame))) not_a_chunk
  n ← read_u64_be frame n_off
  pn ← read_u64_be frame pn_off
  ok (record {
    header = record { dh_pub = slice dh_pub_off (dh_pub_off + 32) frame; n = n; pn = pn };
    pq_epoch = get_u64 pq_epoch_off frame;
    nonce = slice nonce_off (nonce_off + 12) frame;
    ciphertext = drop chunk_frame_header_len frame;
  })
