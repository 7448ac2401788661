-- ===== src/Frames/Chunk/RoundTrip.antt =====
-- The header of src/handlers/chunkFrame.ts packs and parses back, in both directions.
use mathlib.Core.Path.{subst}
use mathlib.Core.List.{append-nil, append_assoc}
use p2party_js.Base.{
  ℕ, ◌^◌, ◌≤◌, ◌<◌, ◌≡◌, refl, sym, ap, ◌∙◌, true, not, ◌==◌, ltb, List, [], ◌∷◌, ◌++◌, length,
  take, drop, ok, past_guard, >>=-eq_ok, ok-injective, not-==, eq_of_not, of_not, ltb_of_le,
  le_of_ltb, arith, length-append, length-take, length-drop, drop-drop, take-append-drop, ==_iff,
  take-append_of_length, drop-append_of_length,
}
use p2party_js.Bytes.{zeros, be_bytes, set_at, slice, set_u64, get_u64, IsBytes}
use p2party_js.Bytes.Words.{be_from-lt}
use p2party_js.Bytes.Laws.{IsBytes-take, IsBytes-drop, set_at_block, set_at_here}
use p2party_js.Bytes.Fields.{
  words-append, words, set_words-zeros, get_u64-words, length-words, drop-append_words,
  set_at-append_words, drop-word,
}
use p2party_js.Frames.{candidate_type}
use p2party_js.Ratchet.State.{RatchetHeader}
use p2party_js.Frames.Chunk.{
  dh_pub_length, nonce_length, counter_out_of_range, epoch_out_of_range, frame_too_short,
  not_a_chunk, counter_exceeds_range, max_safe_integer, max_epoch, write_u64_be, read_u64_be,
  write_epoch_u64_be, pack_chunk_frame_header, parse_chunk_frame_header, ParsedChunkFrame, is_chunk,
}

-- The header as a concatenation.
abbrev layout : RatchetHeader → List ℕ → ℕ → List ℕ
layout header nonce pq_epoch = (2 ∷ header.dh_pub) ++ words header.n header.pn pq_epoch nonce

-- What the guards of the packing ask.
record Fits (header : RatchetHeader) (nonce : List ℕ) (pq_epoch : ℕ) : Type 0 where
  keyed : length header.dh_pub ≡ 32
  fresh : length nonce ≡ 12
  n_safe : header.n ≤ max_safe_integer
  pn_safe : header.pn ≤ max_safe_integer
  epoch_fits : pq_epoch ≤ max_epoch

written :
    (header : RatchetHeader) (nonce : List ℕ) (pq_epoch : ℕ)
    → length header.dh_pub ≡ 32
    → length nonce ≡ 12
    → set_at 57 nonce (
        set_u64 49 pq_epoch
          (set_u64 41 header.pn (set_u64 33 header.n (set_at 1 header.dh_pub (2 ∷ zeros 68)))))
      ≡ layout header nonce pq_epoch
written header nonce pq_epoch hd hn =
    ap (λ b. set_at 57 nonce (set_u64 49 pq_epoch (set_u64 41 header.pn (set_u64 33 header.n b))))
      (set_at_block 1 (2 ∷ []) header.dh_pub (zeros 32) (zeros 36) refl (sym hd))
    ∙ ap (set_at 57 nonce) (
        set_words-zeros 33 41 49 (2 ∷ header.dh_pub) header.n header.pn pq_epoch (zeros 12)
          (omega (arith, hd)) refl refl)
    ∙ set_at-append_words 33 57 0 (2 ∷ header.dh_pub) header.n header.pn pq_epoch nonce (zeros 12)
        (omega (arith, hd)) refl
    ∙ ap (λ b. (2 ∷ header.dh_pub) ++ words header.n header.pn pq_epoch b)
        (set_at_here nonce (zeros 12) [] (sym hn) ∙ append-nil nonce)

tagged : set_at 0 (2 ∷ []) (zeros 69) ≡ 2 ∷ zeros 68
unfolding set_at
tagged = refl

pack-eq :
    (header : RatchetHeader) (nonce : List ℕ) (pq_epoch : ℕ)
    → Fits header nonce pq_epoch
    → pack_chunk_frame_header header nonce pq_epoch ≡ ok (layout header nonce pq_epoch)
unfolding pack_chunk_frame_header write_u64_be write_epoch_u64_be
pack-eq header nonce pq_epoch f =
    simp
      (
        not-== (length header.dh_pub) 32 f.keyed,
        not-== (length nonce) 12 f.fresh,
        ltb_of_le max_safe_integer header.n f.n_safe,
        ltb_of_le max_safe_integer header.pn f.pn_safe,
        ltb_of_le max_epoch pq_epoch f.epoch_fits,
        tagged,
      )
      (ap ok (written header nonce pq_epoch f.keyed f.fresh))

pack-Fits :
    (header : RatchetHeader) (nonce : List ℕ) (pq_epoch : ℕ) (out : List ℕ)
    → pack_chunk_frame_header header nonce pq_epoch ≡ ok out
    → Fits header nonce pq_epoch
unfolding pack_chunk_frame_header write_u64_be write_epoch_u64_be
pack-Fits header nonce pq_epoch out e =
    let (g1, e1) = past_guard (not (length header.dh_pub == 32)) dh_pub_length e in
    let (g2, e2) = past_guard (not (length nonce == 12)) nonce_length e1 in
    let (b3, f3, e3) = >>=-eq_ok (write_u64_be _ 33 header.n) _ e2 in
    let (b4, f4, e4) = >>=-eq_ok (write_u64_be b3 41 header.pn) _ e3 in
    let (b5, f5, e5) = >>=-eq_ok (write_epoch_u64_be b4 49 pq_epoch) _ e4 in
    record {
      keyed = eq_of_not _ 32 g1;
      fresh = eq_of_not _ 12 g2;
      n_safe =
          le_of_ltb max_safe_integer header.n
            (past_guard (ltb max_safe_integer header.n) counter_out_of_range f3).0;
      pn_safe =
          le_of_ltb max_safe_integer header.pn
            (past_guard (ltb max_safe_integer header.pn) counter_out_of_range f4).0;
      epoch_fits =
          le_of_ltb max_epoch pq_epoch
            (past_guard (ltb max_epoch pq_epoch) epoch_out_of_range f5).0;
    }

-- A frame with the header in front.
abbrev framed : RatchetHeader → List ℕ → ℕ → List ℕ → List ℕ
framed header nonce pq_epoch ciphertext =
    (2 ∷ header.dh_pub) ++ words header.n header.pn pq_epoch (nonce ++ ciphertext)

-- What a frame that passes the guards is read as.
abbrev read : List ℕ → ParsedChunkFrame
read frame = record {
  header = record { dh_pub = slice 1 33 frame; n = get_u64 33 frame; pn = get_u64 41 frame };
  pq_epoch = get_u64 49 frame;
  nonce = slice 57 69 frame;
  ciphertext = drop 69 frame;
}

-- The guards of the parser.
record Passes (frame : List ℕ) : Type 0 where
  long : 69 ≤ length frame
  chunk : is_chunk (candidate_type frame) ≡ true
  n_safe : get_u64 33 frame ≤ max_safe_integer
  pn_safe : get_u64 41 frame ≤ max_safe_integer

parse-eq : (frame : List ℕ) → Passes frame → parse_chunk_frame_header frame ≡ ok (read frame)
unfolding parse_chunk_frame_header read_u64_be
parse-eq frame f = simp (
  ltb_of_le (length frame) 69 f.long,
  f.chunk,
  ltb_of_le max_safe_integer (get_u64 33 frame) f.n_safe,
  ltb_of_le max_safe_integer (get_u64 41 frame) f.pn_safe,
)

parse-Passes :
    (frame : List ℕ) (p : ParsedChunkFrame)
    → parse_chunk_frame_header frame ≡ ok p
    → Passes frame × (read frame ≡ p)
unfolding parse_chunk_frame_header read_u64_be
parse-Passes frame p e =
    let (g1, e1) = past_guard (ltb (length frame) 69) frame_too_short e in
    let (g2, e2) = past_guard (not (is_chunk (candidate_type frame))) not_a_chunk e1 in
    let (n, f3, e3) = >>=-eq_ok (read_u64_be frame 33) _ e2 in
    let (pn, f4, e4) = >>=-eq_ok (read_u64_be frame 41) _ e3 in
    let (g5, h5) = past_guard (ltb max_safe_integer (get_u64 33 frame)) counter_exceeds_range f3 in
    let (g6, h6) = past_guard (ltb max_safe_integer (get_u64 41 frame)) counter_exceeds_range f4 in
    let passes : Passes frame = record {
      long = le_of_ltb (length frame) 69 g1;
      chunk = of_not _ g2;
      n_safe = le_of_ltb max_safe_integer (get_u64 33 frame) g5;
      pn_safe = le_of_ltb max_safe_integer (get_u64 41 frame) g6;
    } in
    (passes, ok-injective (sym (parse-eq frame passes) ∙ e))

parse-framed :
    (header : RatchetHeader) (nonce : List ℕ) (pq_epoch : ℕ) (ciphertext : List ℕ)
    → Fits header nonce pq_epoch
    → parse_chunk_frame_header (framed header nonce pq_epoch ciphertext)
      ≡ ok (record { header = header; pq_epoch = pq_epoch; nonce = nonce; ciphertext = ciphertext })
parse-framed header nonce pq_epoch ciphertext f =
    let frame = framed header nonce pq_epoch ciphertext in
    let front : length (2 ∷ header.dh_pub) ≡ 33 = omega (arith, f.keyed) in
    let (n, pn, epoch) =
      get_u64-words 33 41 49 (2 ∷ header.dh_pub) header.n header.pn pq_epoch (nonce ++ ciphertext)
        front refl refl (omega (arith, f.n_safe)) (omega (arith, f.pn_safe))
        (omega (arith, f.epoch_fits)) in
    let behind =
      drop-append_words 33 57 (2 ∷ header.dh_pub) header.n header.pn pq_epoch (nonce ++ ciphertext)
        front refl in
    let long : 69 ≤ length frame = omega (
      arith,
      length-append (2 ∷ header.dh_pub) (words header.n header.pn pq_epoch (nonce ++ ciphertext)),
      length-words header.n header.pn pq_epoch (nonce ++ ciphertext),
      length-append nonce ciphertext,
      f.keyed,
      f.fresh,
    ) in
    let dh : slice 1 33 frame ≡ header.dh_pub = take-append_of_length header.dh_pub _ 32 f.keyed in
    let fresh : slice 57 69 frame ≡ nonce =
      ap (take 12) behind ∙ take-append_of_length nonce ciphertext 12 f.fresh in
    let rest : drop 69 frame ≡ ciphertext =
      sym (drop-drop 57 12 69 frame refl)
      ∙ ap (drop 12) behind
      ∙ drop-append_of_length nonce ciphertext 12 f.fresh in
    parse-eq frame
      (record { long = long; chunk = refl; n_safe = rw n f.n_safe; pn_safe = rw pn f.pn_safe })
    ∙ (λ i. ok (record {
      header = record { dh_pub = dh i; n = n i; pn = pn i };
      pq_epoch = epoch i;
      nonce = fresh i;
      ciphertext = rest i;
    }))

-- A header that packs, with any ciphertext behind it, parses back to its fields, nonce and epoch,
-- and to that ciphertext.
pub parse_chunk_frame_header-pack :
    (header : RatchetHeader) (nonce : List ℕ) (pq_epoch : ℕ) (head ciphertext : List ℕ)
    → pack_chunk_frame_header header nonce pq_epoch ≡ ok head
    → parse_chunk_frame_header (head ++ ciphertext)
      ≡ ok (record { header = header; pq_epoch = pq_epoch; nonce = nonce; ciphertext = ciphertext })
parse_chunk_frame_header-pack header nonce pq_epoch head ciphertext e =
    let fits = pack-Fits header nonce pq_epoch head e in
    let same : layout header nonce pq_epoch ≡ head =
      ok-injective (sym (pack-eq header nonce pq_epoch fits) ∙ e) in
    let front : layout header nonce pq_epoch ++ ciphertext
        ≡ framed header nonce pq_epoch ciphertext =
      append_assoc (2 ∷ header.dh_pub) _ ciphertext
      ∙ ap (◌++◌ (2 ∷ header.dh_pub)) (words-append header.n header.pn pq_epoch nonce ciphertext) in
    ap (λ b. parse_chunk_frame_header (b ++ ciphertext)) (sym same)
    ∙ ap parse_chunk_frame_header front
    ∙ parse-framed header nonce pq_epoch ciphertext fits

first_is_type :
    (frame : List ℕ)
    → is_chunk (candidate_type frame) ≡ true
    → (bytes : List ℕ) × (frame ≡ 2 ∷ bytes)
first_is_type [] h = cc
first_is_type (b ∷ bytes) h = (bytes, ap (λ t. t ∷ bytes) ((==_iff b 2).0 h))

read-Fits :
    (frame : List ℕ)
    → IsBytes frame
    → Passes frame
    → Fits (read frame).header (read frame).nonce (read frame).pq_epoch
read-Fits frame bytes f =
    let eight = length-take 8 (drop 49 frame) (omega (arith, length-drop 49 frame, f.long)) in
    let below =
      be_from-lt (take 8 (drop 49 frame)) (IsBytes-take 8 _ (IsBytes-drop 49 frame bytes)) in
    let fits : get_u64 49 frame < 256 ^ 8 = rw eight at below in
    record {
      keyed = length-take 32 (drop 1 frame) (omega (arith, length-drop 1 frame, f.long));
      fresh = length-take 12 (drop 57 frame) (omega (arith, length-drop 57 frame, f.long));
      n_safe = f.n_safe;
      pn_safe = f.pn_safe;
      epoch_fits = omega arith;
    }

framed-read :
    (frame : List ℕ)
    → IsBytes frame
    → Passes frame
    → framed (read frame).header (read frame).nonce (read frame).pq_epoch (read frame).ciphertext
      ≡ frame
framed-read frame bytes f =
    let (rest, tagged) = first_is_type frame f.chunk in
    let behind : slice 57 69 frame ++ drop 69 frame ≡ drop 57 frame =
      ap (◌++◌ (slice 57 69 frame)) (sym (drop-drop 57 12 69 frame refl))
      ∙ take-append-drop 12 (drop 57 frame) in
    let counted : words (get_u64 33 frame) (get_u64 41 frame) (get_u64 49 frame) (drop 57 frame)
        ≡ drop 33 frame =
      sym (
        drop-word frame 33 41 bytes refl (omega (arith, f.long))
        ∙ ap (◌++◌ (be_bytes 8 (get_u64 33 frame))) (
            drop-word frame 41 49 bytes refl (omega (arith, f.long))
            ∙ ap (◌++◌ (be_bytes 8 (get_u64 41 frame)))
                (drop-word frame 49 57 bytes refl (omega (arith, f.long))))) in
    ap
      (λ b.
        (2 ∷ slice 1 33 frame) ++ words (get_u64 33 frame) (get_u64 41 frame) (get_u64 49 frame) b)
      behind
    ∙ ap (◌++◌ (2 ∷ slice 1 33 frame)) (counted ∙ sym (drop-drop 1 32 33 frame refl))
    ∙ ap (◌∷◌ 2) (take-append-drop 32 (drop 1 frame) ∙ ap (drop 1) tagged)
    ∙ sym tagged

-- A frame of bytes that parses is, in front of its ciphertext, what its header, nonce and epoch pack
-- to: there is one encoding.
pub pack-parse_chunk_frame_header :
    (frame : List ℕ) (p : ParsedChunkFrame)
    → IsBytes frame
    → parse_chunk_frame_header frame ≡ ok p
    → (head : List ℕ) × (pack_chunk_frame_header p.header p.nonce p.pq_epoch ≡ ok head)
      × (head ++ p.ciphertext ≡ frame)
pack-parse_chunk_frame_header frame p bytes e =
    let (passes, is_p) = parse-Passes frame p e in
    let h = (read frame).header in
    let head = layout h (read frame).nonce (read frame).pq_epoch in
    let packed =
      pack-eq (read frame).header (read frame).nonce (read frame).pq_epoch
        (read-Fits frame bytes passes) in
    let whole =
      append_assoc (2 ∷ h.dh_pub) _ (read frame).ciphertext
      ∙ ap (◌++◌ (2 ∷ h.dh_pub))
          (words-append h.n h.pn (read frame).pq_epoch (read frame).nonce (read frame).ciphertext)
      ∙ framed-read frame bytes passes in
    (
      head,
      subst (λ q. pack_chunk_frame_header q.header q.nonce q.pq_epoch ≡ ok head) is_p packed,
      subst (λ q. head ++ q.ciphertext ≡ frame) is_p whole,
    )
