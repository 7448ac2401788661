-- ===== src/Frames/Examples.antt =====
-- The codecs of chunk and receipt frames on concrete bytes.
use p2party_js.Base.{ℕ, ◌≡◌, ◌↔◌, refl, List, [], ◌∷◌, ◌++◌, some, ok, arith, replicate}
use p2party_js.Bytes.{set_at, be_bytes, be_from}
use p2party_js.Frames.{frame_type_receipt, classify_frame}
use p2party_js.Frames.Receipt.{encode_receipt_frame, decode_receipt_frame, decode_receipt_frame_iff}
use p2party_js.Frames.Chunk.{ParsedChunkFrame, pack_chunk_frame_header, parse_chunk_frame_header}
use p2party_js.Frames.Chunk.RoundTrip.{parse_chunk_frame_header-pack, pack-parse_chunk_frame_header}
use p2party_js.Ratchet.State.{RatchetHeader}

abbrev header : RatchetHeader
header = record { dh_pub = replicate 32 7; n = 258; pn = 3 }

abbrev zeros7 : List ℕ
zeros7 = replicate 7 0

abbrev packed : List ℕ
packed =
    (2 ∷ replicate 32 7)
    ++ (replicate 6 0 ++ 1 ∷ 2 ∷ [])
    ++ (zeros7 ++ 3 ∷ [])
    ++ (zeros7 ++ 9 ∷ [])
    ++ replicate 12 5

abbrev parsed : ParsedChunkFrame
parsed = record { header = header; pq_epoch = 9; nonce = replicate 12 5; ciphertext = 1 ∷ 2 ∷ [] }

parse_chunk_frame_header-pack_example : parse_chunk_frame_header (packed ++ 1 ∷ 2 ∷ []) ≡ ok parsed
unfolding pack_chunk_frame_header set_at be_bytes
parse_chunk_frame_header-pack_example =
    parse_chunk_frame_header-pack header (replicate 12 5) 9 packed (1 ∷ 2 ∷ []) refl

pack-parse_chunk_frame_header_example :
    (head : List ℕ) × (pack_chunk_frame_header header (replicate 12 5) 9 ≡ ok head)
    × (head ++ 1 ∷ 2 ∷ [] ≡ packed ++ 1 ∷ 2 ∷ [])
unfolding parse_chunk_frame_header be_from
pack-parse_chunk_frame_header_example =
    pack-parse_chunk_frame_header (packed ++ 1 ∷ 2 ∷ []) parsed (omega arith) refl

abbrev token : List ℕ
token = replicate 64 8

decode_receipt_frame_iff_example :
    ((decode_receipt_frame (3 ∷ token) ≡ some token)
      ↔ (encode_receipt_frame token ≡ ok (3 ∷ token)))
    × ((classify_frame (3 ∷ token) ≡ record { type = some frame_type_receipt; payload = token })
        ↔ (decode_receipt_frame (3 ∷ token) ≡ some token))
decode_receipt_frame_iff_example = decode_receipt_frame_iff (3 ∷ token) token
