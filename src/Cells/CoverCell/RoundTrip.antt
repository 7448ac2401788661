-- ===== src/Cells/CoverCell/RoundTrip.antt =====
-- A cell of src/cryptography/coverCell.ts that is sealed opens to what was sealed.
use p2party_js.Base.{
  ℕ, ◌+◌, ◌-◌, ◌<◌, ◌≤◌, ◌≡◌, refl, sym, ap, ◌∙◌, Option, none, some, false, not, ◌==◌, ltb, leb,
  List, [], ◌∷◌, ◌++◌, arith, length, length-append, take-append_of_length, drop-append_of_length,
  ok, past_guard, >>=-eq_ok, ok-injective, eq_of_not, le_of_ltb, ltb_of_le, ==_refl,
}
use p2party_js.Bytes.{set_at, set_u32}
use p2party_js.Bytes.Laws.{set_at-zeros, bytes_equal_refl}
use p2party_js.LibCrypto.{LibCrypto, Aead}
use p2party_js.Cells.{plaintext_bytes, blank, cell_header, cell_frame}
use p2party_js.Cells.Layout.{is_type-take, cell_frame-Reads}
use p2party_js.Cells.Payload.{
  seal_or-some, open_or-some, body, body-zeros, body-Reads, length-body, nonzero_padding-zeros,
}
use p2party_js.Cells.CoverCell.{
  cover_cell_max_payload_bytes, max_u64, CoverCellContent, dummy, cancel, receipt, invalid_cell,
  require_bytes, require_u64, subtype_tag, derive_cell_key, encode_content, decode_content,
  aead_seal, SealCoverCellOptions, OpenCoverCellOptions, cell_plaintext, seal_cover_cell,
  authentication_failed, check_newer, read_plaintext, open_cover_cell,
}

cell_plaintext-eq :
    (n k subtype : ℕ) (payload : List ℕ)
    → n ≡ 5 + length payload + k
    → cell_plaintext n subtype payload ≡ subtype ∷ body payload k
unfolding cell_plaintext blank
cell_plaintext-eq n k subtype payload h =
    ap (λ b. set_at 5 payload (set_u32 1 (length payload) b))
      (set_at-zeros (subtype ∷ []) n (4 + length payload + k) (omega (arith, h)))
    ∙ body-zeros (subtype ∷ []) payload 1 5 (4 + length payload + k) k refl refl refl

length-cell_plaintext :
    (n k subtype : ℕ) (payload : List ℕ)
    → n ≡ 5 + length payload + k
    → length (cell_plaintext n subtype payload) ≡ n
length-cell_plaintext n k subtype payload h =
    ap length (cell_plaintext-eq n k subtype payload h) ∙ omega (arith, h, length-body payload k)

-- An authenticated plaintext of this shape is read back.
read_plaintext-body :
    (k subtype : ℕ) (payload : List ℕ)
    → length payload ≤ cover_cell_max_payload_bytes
    → read_plaintext (subtype ∷ body payload k) ≡ decode_content subtype payload
unfolding read_plaintext
read_plaintext-body k subtype payload h =
    let (size, behind, inside) =
      body-Reads (subtype ∷ []) payload 1 5 (5 + length payload) k refl refl refl
        (omega (arith, h)) in
    rw
      (
        size,
        ltb_of_le cover_cell_max_payload_bytes (length payload) h,
        behind,
        nonzero_padding-zeros k,
        inside,
      )
      refl

decode_content-encode :
    (content : CoverCellContent) (payload : List ℕ)
    → encode_content content ≡ ok payload
    → (decode_content (subtype_tag content) payload ≡ ok content) × (length payload ≤ 128)
unfolding encode_content decode_content require_bytes
decode_content-encode dummy payload e =
    let same = ok-injective e in (rw (← same) refl, rw (← same) (omega arith))
decode_content-encode (cancel merkle_root) payload e =
    let (g, e1) = past_guard (not (length merkle_root == 64)) invalid_cell e in
    let long = eq_of_not (length merkle_root) 64 g in
    let same = ok-injective e1 in (rw (← same, long) refl, rw (← same) (omega (arith, long)))
decode_content-encode (receipt merkle_root token) payload e =
    let (g1, e1) = past_guard (not (length merkle_root == 64)) invalid_cell e in
    let (g2, e2) = past_guard (not (length token == 64)) invalid_cell e1 in
    let same = ok-injective e2 in
    let h1 = eq_of_not (length merkle_root) 64 g1 in
    let h2 = eq_of_not (length token) 64 g2 in
    let long : length (merkle_root ++ token) ≡ 128 =
      omega (arith, h1, h2, length-append merkle_root token) in
    (
      rw
          (
            ← same,
            long,
            take-append_of_length merkle_root token 64 h1,
            drop-append_of_length merkle_root token 64 h1,
          )
          refl,
      rw (← same) (omega (arith, long)),
    )

-- What a call of sealCoverCell that returns has tested and made.
record Sealed (m : LibCrypto) (aead : Aead) (o : SealCoverCellOptions) (nonce frame : List ℕ)
    : Type 0 where
  payload : List ℕ
  key : List ℕ
  ciphertext : List ℕ
  bound : length o.binding ≡ 32
  epoch_fits : o.key_epoch ≤ max_u64
  counter_fits : o.counter ≤ max_u64
  encoded : encode_content o.content ≡ ok payload
  keyed : derive_cell_key m o.root_suite o.root_key o.binding o.direction o.key_epoch ≡ ok key
  sealed :
      aead.seal key nonce
        (cell_plaintext plaintext_bytes (subtype_tag o.content) payload)
        (cell_header 4 o.binding o.counter o.key_epoch nonce)
      ≡ some ciphertext
  framed : frame ≡ cell_frame (cell_header 4 o.binding o.counter o.key_epoch nonce) ciphertext

seal_cover_cell-Sealed :
    (m : LibCrypto) (aead : Aead) (o : SealCoverCellOptions) (nonce frame : List ℕ)
    → seal_cover_cell m aead o nonce ≡ ok frame
    → Sealed m aead o nonce frame
unfolding seal_cover_cell require_bytes require_u64
seal_cover_cell-Sealed m aead o nonce frame e =
    let (g1, e1) = past_guard (not (length o.binding == 32)) invalid_cell e in
    let (g2, e2) = past_guard (ltb max_u64 o.key_epoch) invalid_cell e1 in
    let (g3, e3) = past_guard (ltb max_u64 o.counter) invalid_cell e2 in
    let (payload, encoded, e4) = >>=-eq_ok (encode_content o.content) _ e3 in
    let (g5, e5) = past_guard (ltb cover_cell_max_payload_bytes (length payload)) invalid_cell e4 in
    let (key, keyed, e6) =
      >>=-eq_ok (derive_cell_key m o.root_suite o.root_key o.binding o.direction o.key_epoch) _
        e5 in
    let (ciphertext, sealed, e7) = >>=-eq_ok (aead_seal aead key nonce _ _) _ e6 in
    record {
      payload = payload;
      key = key;
      ciphertext = ciphertext;
      bound = eq_of_not (length o.binding) 32 g1;
      epoch_fits = le_of_ltb max_u64 o.key_epoch g2;
      counter_fits = le_of_ltb max_u64 o.counter g3;
      encoded = encoded;
      keyed = keyed;
      sealed = seal_or-some invalid_cell aead key nonce _ _ ciphertext sealed;
      framed = sym (ok-injective e7);
    }

-- A counter above the one given, if one is given.
abbrev pub IsNewer : ℕ → Option ℕ → Type 0
IsNewer counter none = Unit
IsNewer counter (some above) = above < counter

leb_of_lt : (a b : ℕ) → b < a → leb a b ≡ false
leb_of_lt a b h = ground arith

check_newer-ok :
    (counter : ℕ) (above : Option ℕ)
    → counter ≤ max_u64
    → IsNewer counter above
    → check_newer counter above ≡ ok tt
unfolding check_newer require_u64
check_newer-ok counter none h n = refl
check_newer-ok counter (some above) h n =
    rw (ltb_of_le max_u64 above (omega (arith, h, n)), leb_of_lt counter above n) refl

-- The options that open what these options seal.
abbrev pub opening : SealCoverCellOptions → Option ℕ → List ℕ → OpenCoverCellOptions
opening o above frame = record {
  root_suite = o.root_suite;
  root_key = o.root_key;
  binding = o.binding;
  direction = o.direction;
  key_epoch = o.key_epoch;
  counter_above = above;
  frame = frame;
}

-- A cell that is sealed with a nonce of 12 bytes opens, under the same suite, root, binding, direction
-- and epoch, to the content and the counter that were sealed, if no counter as high was accepted.
pub open_cover_cell-seal :
    (m : LibCrypto) (aead : Aead) (o : SealCoverCellOptions) (nonce frame : List ℕ)
    (above : Option ℕ)
    → length nonce ≡ 12
    → seal_cover_cell m aead o nonce ≡ ok frame
    → IsNewer o.counter above
    → open_cover_cell m aead (opening o above frame)
      ≡ ok (record { content = o.content; counter = o.counter })
unfolding open_cover_cell require_bytes require_u64
open_cover_cell-seal m aead o nonce frame above hn e newer =
    let s = seal_cover_cell-Sealed m aead o nonce frame e in
    let (decoded, small) = decode_content-encode o.content s.payload s.encoded in
    let k = 65400 - length s.payload in
    let fills : 65405 ≡ 5 + length s.payload + k = omega (arith, small) in
    let subtype = subtype_tag o.content in
    let long = length-cell_plaintext 65405 k subtype s.payload fills in
    let reads =
      cell_frame-Reads 4 o.binding o.counter o.key_epoch nonce s.ciphertext s.bound hn
        (omega (arith, s.counter_fits)) (omega (arith, s.epoch_fits))
        (aead.length-seal s.key nonce _ _ s.ciphertext s.sealed ∙ omega (arith, long)) in
    let opened =
      open_or-some authentication_failed aead s.key nonce s.ciphertext _ _
        (aead.open-seal s.key nonce _ _ s.ciphertext s.sealed) in
    let back : read_plaintext (cell_plaintext 65405 subtype s.payload) ≡ ok o.content =
      ap read_plaintext (cell_plaintext-eq 65405 k subtype s.payload fills)
      ∙ read_plaintext-body k subtype s.payload (omega (arith, small))
      ∙ decoded in
    rw
      (
        s.framed,
        reads.long,
        s.bound,
        ltb_of_le max_u64 o.key_epoch s.epoch_fits,
        is_type-take 4 _ reads.tag,
        reads.edge,
        bytes_equal_refl o.binding,
        reads.reserved,
        reads.epoch,
        ==_refl o.key_epoch,
        reads.number,
        check_newer-ok o.counter above s.counter_fits newer,
        s.keyed,
        reads.fresh,
        reads.sealed,
        reads.clear,
        opened,
        back,
      )
      refl
