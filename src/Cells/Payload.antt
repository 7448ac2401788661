-- ===== src/Cells/Payload.antt =====
-- The plaintext of a cell of src/cryptography/pqHealingFrame.ts and coverCell.ts: a payload behind its
-- length, padded with zeros; and the two calls that seal and open it.
use p2party_js.Base.{
  Option-cases, inl, inr, ok-injective, ok, some, ◌-◌, drop-append_add, replicate-add, ℕ, zero, suc,
  ◌+◌, ◌^◌, ◌<◌, ◌≡◌, refl, sym, ap, ◌∙◌, List, ◌++◌, arith, length, take, drop, length-append,
  take-append_of_length, drop-append_of_length,
}
use p2party_js.Bytes.{set_u32, get_u32, be_from, zeros, set_at, slice, be_bytes}
use p2party_js.Bytes.Bits.{zero-bit_or}
use p2party_js.Bytes.Laws.{set_at_skip, set_at_block, length-zeros}
use p2party_js.Bytes.Words.{length-be_bytes, be_from-be_bytes}
use p2party_js.LibCrypto.{Aead}
use p2party_js.Cells.{seal_or, open_or, nonzero_padding}

pub nonzero_padding-zeros : (n : ℕ) → nonzero_padding 0 (zeros n) ≡ 0
unfolding nonzero_padding
nonzero_padding-zeros zero = refl
nonzero_padding-zeros (suc n) = rw (zero-bit_or 0) (nonzero_padding-zeros n)

-- A payload behind its length, and zeros behind it.
abbrev pub body : List ℕ → ℕ → List ℕ
body payload k = be_bytes 4 (length payload) ++ (payload ++ zeros k)

-- A length and a payload written into zeros behind a front.
pub body-zeros :
    (front payload : List ℕ) (i j n k : ℕ)
    → length front ≡ i
    → j ≡ i + 4
    → n ≡ 4 + length payload + k
    → set_at j payload (set_u32 i (length payload) (front ++ zeros n)) ≡ front ++ body payload k
body-zeros front payload i j n k hi hj hn =
    ap (λ z. set_at j payload (set_u32 i (length payload) (front ++ z)))
      (ap zeros {y = 4 + (length payload + k)} (omega (arith, hn))
        ∙ replicate-add 4 (length payload + k) 0
        ∙ ap (λ z. zeros 4 ++ z) (replicate-add (length payload) k 0))
    ∙ ap (set_at j payload) (
        set_at_block i front (be_bytes 4 (length payload)) (zeros 4)
          (zeros (length payload) ++ zeros k) hi (sym (length-be_bytes 4 (length payload))))
    ∙ set_at_skip j 4 front payload _ (omega (arith, hi, hj))
    ∙ ap (◌++◌ front) (
        set_at_block 4 (be_bytes 4 (length payload)) payload (zeros (length payload)) (zeros k)
          (length-be_bytes 4 (length payload)) (length-zeros (length payload)))

-- What is read behind a front: the length, the zeros, the payload.
pub body-Reads :
    (front payload : List ℕ) (i j to k : ℕ)
    → length front ≡ i
    → j ≡ i + 4
    → to ≡ j + length payload
    → length payload < 2 ^ 32
    → (get_u32 i (front ++ body payload k) ≡ length payload)
      × (drop to (front ++ body payload k) ≡ zeros k)
      × (slice j to (front ++ body payload k) ≡ payload)
body-Reads front payload i j to k hi hj ht small = (
  ap (λ b. be_from 0 (take 4 b)) (drop-append_of_length front (body payload k) i hi)
      ∙ ap (be_from 0) (take-append_of_length (be_bytes 4 (length payload)) _ 4 four)
      ∙ be_from-be_bytes 4 (length payload) (omega (arith, small)),
  drop-append_add front (body payload k) to (4 + length payload) (omega (arith, hi, hj, ht))
      ∙ drop-append_add (be_bytes 4 (length payload)) _ (4 + length payload) (length payload)
          (omega (arith, four))
      ∙ drop-append_of_length payload (zeros k) (length payload) refl,
  ap (take (to - j)) (
        drop-append_add front (body payload k) j 4 (omega (arith, hi, hj))
        ∙ drop-append_of_length (be_bytes 4 (length payload)) _ 4 four)
      ∙ take-append_of_length payload (zeros k) (to - j) (omega (arith, ht)),
)
  where
    four : length (be_bytes 4 (length payload)) ≡ 4
    four = length-be_bytes 4 (length payload)

pub length-body : (payload : List ℕ) (k : ℕ) → length (body payload k) ≡ 4 + length payload + k
length-body payload k = omega (
  arith,
  length-append (be_bytes 4 (length payload)) (payload ++ zeros k),
  length-append payload (zeros k),
  length-be_bytes 4 (length payload),
  length-zeros k,
)

pub seal_or-some :
    {E : Type 0} (failure : E) (aead : Aead) (key nonce plaintext aad ciphertext : List ℕ)
    → seal_or failure aead key nonce plaintext aad ≡ ok ciphertext
    → aead.seal key nonce plaintext aad ≡ some ciphertext
unfolding seal_or
seal_or-some failure aead key nonce plaintext aad ciphertext e =
    elim (Option-cases (aead.seal key nonce plaintext aad)) [
      | inl h ↦ let refused = rw (h, seal_or) at e in cc
      | inr (c, h) ↦ h ∙ ap some (ok-injective (rw (h, seal_or) at e))
    ]

pub open_or-some :
    {E : Type 0} (failure : E) (aead : Aead) (key nonce ciphertext aad plaintext : List ℕ)
    → aead.open_sealed key nonce ciphertext aad ≡ some plaintext
    → open_or failure aead key nonce ciphertext aad ≡ ok plaintext
unfolding open_or
open_or-some failure aead key nonce ciphertext aad plaintext e = rw (e, open_or) refl
