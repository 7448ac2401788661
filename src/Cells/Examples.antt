-- ===== src/Cells/Examples.antt =====
-- A cell that carries a receipt, sealed and opened over toy primitives.
mod Control
use p2party_js.Base.{
  ℕ, ◌-◌, ◌≡◌, refl, sym, ap, ◌∙◌, arith, some, none, List, ◌++◌, replicate, length, take,
  length-append, take-append_of_length, length-replicate, ok, err,
}
use p2party_js.LibCrypto.{LibCrypto, Aead, hkdf_extract, hkdf_expand}
use p2party_js.Ratchet.State.{mlkem768}
use p2party_js.Cells.{initiator_to_responder, seal_or, plaintext_bytes, cell_header, cell_frame}
use p2party_js.Cells.CoverCell.{
  receipt, SealCoverCellOptions, replayed_counter, require_bytes, require_u64, derive_cell_key,
  encode_content, cell_plaintext, seal_cover_cell, open_cover_cell,
}
use p2party_js.Cells.CoverCell.RoundTrip.{opening, open_cover_cell-seal}
use p2party_js.Cells.CoverCell.Replay.{open_cover_cell-replay}

pub some-injective : {x y : List ℕ} → some x ≡ some y → x ≡ y
some-injective h = cc

abbrev pub toy : LibCrypto
toy = record {
  hkdf_sha512_extract = λ salt ikm. some ikm;
  hkdf_sha512_expand = λ prk info n. some (replicate n 7);
  x25519_dh = λ secret_key public_key. some secret_key;
  length-expand = λ prk info n out e. ap length (some-injective (sym e)) ∙ length-replicate n 7;
}

-- The tag is sixteen zeros.
abbrev pub toy_aead : Aead
toy_aead = record {
  seal = λ key nonce plaintext aad. some (plaintext ++ replicate 16 0);
  open_sealed = λ key nonce ciphertext aad. some (take (length ciphertext - 16) ciphertext);
  length-seal = λ key nonce plaintext aad ciphertext e.
      ap length (some-injective (sym e)) ∙ length-append plaintext (replicate 16 0);
  open-seal = λ key nonce plaintext aad ciphertext e.
      ap (λ c. some (take (length c - 16) c)) (some-injective (sym e))
      ∙ ap some (
          take-append_of_length plaintext (replicate 16 0)
            (length (plaintext ++ replicate 16 0) - 16)
            (omega (arith, length-append plaintext (replicate 16 0))));
}

abbrev cell_options : SealCoverCellOptions
cell_options = record {
  root_suite = mlkem768;
  root_key = replicate 32 1;
  binding = replicate 32 2;
  direction = initiator_to_responder;
  key_epoch = 3;
  counter = 9;
  content = receipt (replicate 64 4) (replicate 64 5);
}

abbrev pub nonce : List ℕ
nonce = replicate 12 6

abbrev sealed_cell : List ℕ
sealed_cell =
    cell_frame (cell_header 4 (replicate 32 2) 9 3 nonce)
      (cell_plaintext plaintext_bytes 3 (replicate 64 4 ++ replicate 64 5) ++ replicate 16 0)

seals : seal_cover_cell toy toy_aead cell_options nonce ≡ ok sealed_cell
unfolding seal_cover_cell require_bytes require_u64 encode_content derive_cell_key hkdf_extract
    hkdf_expand seal_or
seals = refl

open_cover_cell-seal_example :
    open_cover_cell toy toy_aead (opening cell_options (some 8) sealed_cell)
    ≡ ok (record { content = receipt (replicate 64 4) (replicate 64 5); counter = 9 })
open_cover_cell-seal_example =
    open_cover_cell-seal toy toy_aead cell_options nonce sealed_cell (some 8) refl seals
      (omega arith)

opens :
    open_cover_cell toy toy_aead (opening cell_options none sealed_cell)
    ≡ ok (record { content = receipt (replicate 64 4) (replicate 64 5); counter = 9 })
opens = open_cover_cell-seal toy toy_aead cell_options nonce sealed_cell none refl seals tt

open_cover_cell-replay_example :
    open_cover_cell toy toy_aead (opening cell_options (some 9) sealed_cell) ≡ err replayed_counter
open_cover_cell-replay_example =
    open_cover_cell-replay toy toy_aead (opening cell_options none sealed_cell)
      (record { content = receipt (replicate 64 4) (replicate 64 5); counter = 9 }) 9 opens
      (omega arith) (omega arith)
