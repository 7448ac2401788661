-- ===== src/Frames/Receipt.antt =====
-- src/handlers/receiptFrame.ts: the codec of receipts. Sending them at a pace is I/O and left out.
use p2party_js.Base.{
  ℕ, ◌≡◌, refl, sym, ap, ◌∙◌, not, ◌&&◌, ◌==◌, eq_of_not, not-==, ◌↔◌, Option, none, some, List, [],
  ◌∷◌, length, drop, Result, ok, ◌>>◌, fail_if, past_guard, ok-injective, if◌then◌else◌, arith,
}
use mathlib.Core.List.{append-nil}
use mathlib.Core.Path.{ap₂}
use p2party_js.Bytes.{zeros, set_at}
use p2party_js.Bytes.Laws.{set_at_block}
use p2party_js.Frames.{
  frame_type_receipt, receipt_token_len, wire_receipt_frame_len, candidate_type, is_receipt,
  classify_frame, ClassifiedFrame,
}

pub data ReceiptError : Type 0 where
  receipt_token_length : ReceiptError

unfoldable pub encode_receipt_frame : List ℕ → Result ReceiptError (List ℕ)
encode_receipt_frame token = do
  fail_if (not (length token == receipt_token_len)) receipt_token_length
  let frame = set_at 0 (frame_type_receipt ∷ []) (zeros wire_receipt_frame_len)
  ok (set_at 1 token frame)

unfoldable pub decode_receipt_frame : List ℕ → Option (List ℕ)
decode_receipt_frame frame =
    if length frame == wire_receipt_frame_len && is_receipt (candidate_type frame)
    then some (drop 1 frame)
    else none

framed :
    (token : List ℕ)
    → length token ≡ 64
    → set_at 1 token (frame_type_receipt ∷ zeros 64) ≡ frame_type_receipt ∷ token
framed token h =
    set_at_block 1 (frame_type_receipt ∷ []) token (zeros 64) [] refl (sym h)
    ∙ ap (◌∷◌ frame_type_receipt) (append-nil token)

encode_receipt_frame-eq :
    (token : List ℕ)
    → length token ≡ 64
    → encode_receipt_frame token ≡ ok (frame_type_receipt ∷ token)
unfolding encode_receipt_frame
encode_receipt_frame-eq token h =
    rw (not-== (length token) receipt_token_len h) (ap ok (unfold set_at in framed token h))

encode_receipt_frame-eq_ok :
    (token frame : List ℕ)
    → encode_receipt_frame token ≡ ok frame
    → (length token ≡ 64) × (frame_type_receipt ∷ token ≡ frame)
unfolding encode_receipt_frame
encode_receipt_frame-eq_ok token frame e =
    let (g, e') = past_guard (not (length token == receipt_token_len)) receipt_token_length e in
    let long = eq_of_not (length token) receipt_token_len g in
    let opened : set_at 1 token (frame_type_receipt ∷ zeros 64) ≡ frame =
      unfold set_at in ok-injective e' in
    (long, sym (framed token long) ∙ opened)

decode_receipt_frame-cons :
    (b : ℕ) (bytes token : List ℕ)
    → decode_receipt_frame (b ∷ bytes) ≡ some token
    → (b ≡ 3) × (length bytes ≡ 64) × (bytes ≡ token)
unfolding decode_receipt_frame
decode_receipt_frame-cons b bytes token e = ground arith

decode-encode_iff :
    (frame token : List ℕ)
    → (decode_receipt_frame frame ≡ some token) ↔ (encode_receipt_frame token ≡ ok frame)
unfolding decode_receipt_frame
decode-encode_iff frame token = (onto frame, from)
  where
    onto :
        (frame : List ℕ)
        → decode_receipt_frame frame ≡ some token
        → encode_receipt_frame token ≡ ok frame
    onto [] e = cc
    onto (b ∷ bytes) e =
        let (is_3, long, same) = decode_receipt_frame-cons b bytes token e in
        encode_receipt_frame-eq token (ap length (sym same) ∙ long)
        ∙ ap ok (ap₂ ◌∷◌ (sym is_3) (sym same))

    decodes : (token : List ℕ) → length token ≡ 64 → decode_receipt_frame (3 ∷ token) ≡ some token
    decodes token h = ground arith

    from : encode_receipt_frame token ≡ ok frame → decode_receipt_frame frame ≡ some token
    from e =
        let (long, same) = encode_receipt_frame-eq_ok token frame e in
        ap decode_receipt_frame (sym same) ∙ decodes token long

classify_frame-decode_iff :
    (frame token : List ℕ)
    → (classify_frame frame ≡ record { type = some frame_type_receipt; payload = token })
      ↔ (decode_receipt_frame frame ≡ some token)
unfolding classify_frame decode_receipt_frame
classify_frame-decode_iff [] token = (λ e. cc (ap (λ (c : ClassifiedFrame). c.type) e), λ e. cc)
classify_frame-decode_iff (b ∷ bytes) token = (
  λ e.
      ground
        (arith, ap (λ (c : ClassifiedFrame). c.type) e, ap (λ (c : ClassifiedFrame). c.payload) e),
  λ e. ground arith,
)

-- Bytes decode as a receipt with a token exactly when they are what the token encodes to, and exactly
-- when they are classified as a receipt with the token as payload.
pub decode_receipt_frame_iff :
    (frame token : List ℕ)
    → ((decode_receipt_frame frame ≡ some token) ↔ (encode_receipt_frame token ≡ ok frame))
      × ((classify_frame frame ≡ record { type = some frame_type_receipt; payload = token })
          ↔ (decode_receipt_frame frame ≡ some token))
decode_receipt_frame_iff frame token =
    (decode-encode_iff frame token, classify_frame-decode_iff frame token)
