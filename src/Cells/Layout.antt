-- ===== src/Cells/Layout.antt =====
-- What the cells of src/cryptography/pqHealingFrame.ts and coverCell.ts hold at which place.
use mathlib.Core.List.{append-nil, append_assoc}
use p2party_js.Base.{
  ==_iff, true, ℕ, ◌+◌, ◌^◌, ◌<◌, ◌≡◌, refl, sym, ap, ◌∙◌, List, [], ◌∷◌, ◌++◌, arith, length, take,
  drop, length-append, take-append_of_length, drop-append_of_length,
}
use p2party_js.Bytes.{zeros, set_at, slice, set_u64, get_u64, be_bytes}
use p2party_js.Bytes.Laws.{set_at_block, set_at_here, set_at-zeros, length-zeros}
use p2party_js.Bytes.Words.{length-be_bytes}
use p2party_js.Bytes.Fields.{
  words, set_u64-zeros, set_u64-skip, set_at-append_words, get_u64-words, length-words,
  drop-append_words, words-append,
}
use p2party_js.Cells.{is_type, plaintext_bytes, blank, cell_header, cell_frame}

pub length-blank : (n : ℕ) → length (blank n) ≡ n
unfolding blank
length-blank n = length-zeros n

zero_word : zeros 8 ≡ be_bytes 8 0
unfolding be_bytes
zero_word = refl

tagged : (type : ℕ) → set_at 0 (type ∷ []) (zeros 69) ≡ type ∷ zeros 68
unfolding set_at
tagged type = refl

-- The header: type and binding, three words, the nonce.
cell_header-eq :
    (type : ℕ) (binding : List ℕ) (counter key_epoch : ℕ) (nonce : List ℕ)
    → length binding ≡ 32
    → length nonce ≡ 12
    → cell_header type binding counter key_epoch nonce
      ≡ (type ∷ binding) ++ words counter 0 key_epoch nonce
unfolding cell_header
cell_header-eq type binding counter key_epoch nonce hb hn =
    ap (λ b. set_at 57 nonce (set_u64 49 key_epoch (set_u64 33 counter (set_at 1 binding b))))
      (tagged type)
    ∙ ap (λ b. set_at 57 nonce (set_u64 49 key_epoch (set_u64 33 counter b)))
        (set_at_block 1 (type ∷ []) binding (zeros 32) (zeros 36) refl (sym hb))
    ∙ ap (λ b. set_at 57 nonce (set_u64 49 key_epoch b))
        (set_u64-zeros 33 counter (type ∷ binding) (zeros 28) (omega (arith, hb)))
    ∙ ap (set_at 57 nonce) (
        set_u64-skip 49 16 key_epoch (type ∷ binding) _ _ (omega (arith, hb)) (
          set_u64-skip 16 8 key_epoch (be_bytes 8 counter) _ _
            (omega (arith, length-be_bytes 8 counter))
            (set_u64-zeros 8 key_epoch (zeros 8) (zeros 12) refl))
        ∙ ap
            (λ z.
              (type ∷ binding) ++ (be_bytes 8 counter ++ (z ++ (be_bytes 8 key_epoch ++ zeros 12))))
            zero_word)
    ∙ set_at-append_words 33 57 0 (type ∷ binding) counter 0 key_epoch nonce (zeros 12)
        (omega (arith, hb)) refl
    ∙ ap (λ b. (type ∷ binding) ++ words counter 0 key_epoch b)
        (set_at_here nonce (zeros 12) [] (sym hn) ∙ append-nil nonce)

length-cell_header :
    (type : ℕ) (binding : List ℕ) (counter key_epoch : ℕ) (nonce : List ℕ)
    → length binding ≡ 32
    → length nonce ≡ 12
    → length (cell_header type binding counter key_epoch nonce) ≡ 69
length-cell_header type binding counter key_epoch nonce hb hn =
    ap length (cell_header-eq type binding counter key_epoch nonce hb hn)
    ∙ omega (
      arith,
      length-append (type ∷ binding) (words counter 0 key_epoch nonce),
      length-words counter 0 key_epoch nonce,
      hb,
      hn,
    )

-- Two blocks written into a blank buffer that they fill.
filled :
    (n k m : ℕ) (header ciphertext : List ℕ)
    → length header ≡ k
    → length ciphertext ≡ m
    → n ≡ k + m
    → set_at k ciphertext (set_at 0 header (blank n)) ≡ header ++ ciphertext
unfolding blank
filled n k m header ciphertext hk hm hn =
    ap (set_at k ciphertext) (set_at-zeros header n m (omega arith))
    ∙ ap (λ z. set_at k ciphertext (header ++ z)) (sym (append-nil (zeros m)))
    ∙ set_at_block k header ciphertext (zeros m) [] hk (length-zeros m ∙ sym hm)
    ∙ ap (◌++◌ header) (append-nil ciphertext)

cell_frame-eq :
    (header ciphertext : List ℕ)
    → length header ≡ 69
    → length ciphertext ≡ plaintext_bytes + 16
    → cell_frame header ciphertext ≡ header ++ ciphertext
unfolding cell_frame
cell_frame-eq header ciphertext hh hc = filled 65490 69 65421 header ciphertext hh hc (omega arith)

-- What a frame of a header and a ciphertext is read as.
pub record Reads (frame header ciphertext : List ℕ) (type : ℕ) (binding : List ℕ)
    (counter key_epoch : ℕ) (nonce : List ℕ) : Type 0 where
  pub long : length frame ≡ 65490
  pub tag : take 1 frame ≡ type ∷ []
  pub edge : slice 1 33 frame ≡ binding
  pub number : get_u64 33 frame ≡ counter
  pub reserved : get_u64 41 frame ≡ 0
  pub epoch : get_u64 49 frame ≡ key_epoch
  pub fresh : slice 57 69 frame ≡ nonce
  pub clear : slice 0 69 frame ≡ header
  pub sealed : drop 69 frame ≡ ciphertext

pub cell_frame-Reads :
    (type : ℕ) (binding : List ℕ) (counter key_epoch : ℕ) (nonce ciphertext : List ℕ)
    → length binding ≡ 32
    → length nonce ≡ 12
    → counter < 2 ^ 64
    → key_epoch < 2 ^ 64
    → length ciphertext ≡ plaintext_bytes + 16
    → Reads
        (cell_frame (cell_header type binding counter key_epoch nonce) ciphertext)
        (cell_header type binding counter key_epoch nonce)
        ciphertext
        type
        binding
        counter
        key_epoch
        nonce
cell_frame-Reads type binding counter key_epoch nonce ciphertext hb hn hc he hl =
    rw (cell_frame-eq header ciphertext hh hl) (record {
      long = omega (arith, length-append header ciphertext, hh, hl);
      tag = ap (take 1) shape;
      edge = ap (slice 1 33) shape ∙ take-append_of_length binding _ 32 hb;
      number = ap (get_u64 33) shape ∙ fields.0;
      reserved = ap (get_u64 41) shape ∙ fields.1;
      epoch = ap (get_u64 49) shape ∙ fields.2;
      fresh =
          ap (slice 57 69) shape
          ∙ ap (take 12) (
              drop-append_words 33 57 (type ∷ binding) counter 0 key_epoch (nonce ++ ciphertext)
                front refl)
          ∙ take-append_of_length nonce ciphertext 12 hn;
      clear = take-append_of_length header ciphertext 69 hh;
      sealed = drop-append_of_length header ciphertext 69 hh;
    })
  where
    header : List ℕ
    header = cell_header type binding counter key_epoch nonce

    hh : length header ≡ 69
    hh = length-cell_header type binding counter key_epoch nonce hb hn

    front : length (type ∷ binding) ≡ 33
    front = omega (arith, hb)

    shape :
        header ++ ciphertext ≡ (type ∷ binding) ++ words counter 0 key_epoch (nonce ++ ciphertext)
    shape =
        ap (λ h. h ++ ciphertext) (cell_header-eq type binding counter key_epoch nonce hb hn)
        ∙ append_assoc (type ∷ binding) (words counter 0 key_epoch nonce) ciphertext
        ∙ ap (◌++◌ (type ∷ binding)) (words-append counter 0 key_epoch nonce ciphertext)

    fields :
        (get_u64 33 ((type ∷ binding) ++ words counter 0 key_epoch (nonce ++ ciphertext)) ≡ counter)
        × (get_u64 41 ((type ∷ binding) ++ words counter 0 key_epoch (nonce ++ ciphertext)) ≡ 0)
        × (get_u64 49 ((type ∷ binding) ++ words counter 0 key_epoch (nonce ++ ciphertext))
            ≡ key_epoch)
    fields =
        get_u64-words 33 41 49 (type ∷ binding) counter 0 key_epoch (nonce ++ ciphertext) front refl
          refl hc (omega arith) he

pub is_type-take :
    (type : ℕ) (frame : List ℕ) → take 1 frame ≡ type ∷ [] → is_type type frame ≡ true
is_type-take type [] h = cc
is_type-take type (b ∷ frame) h = (==_iff b type).1 (ap (first_or type) h)
  where
    first_or : ℕ → List ℕ → ℕ
    first_or d [] = d
    first_or d (x ∷ xs) = x
