-- ===== src/PqHealing/Record/Header.antt =====
-- The layout of the 64-byte header of src/cryptography/pqHealing.ts as a concatenation of blocks.
use p2party_js.Base.{
  ℕ, ◌+◌, ◌^◌, ◌<◌, ◌≤◌, ◌≡◌, refl, sym, ap, ◌∙◌, List, [], ◌∷◌, ◌++◌, arith, length, drop,
  replicate-add,
}
use p2party_js.Bytes.{zeros, set_at, get_u64, be_bytes, IsBytes}
use p2party_js.Bytes.Laws.{set_at_block}
use p2party_js.Bytes.Fields.{
  words, set_words-zeros, get_u64-words, drop-append_words, set_at-append_words, drop-word,
}
use p2party_js.PqHealing.Record.{write_prefix, write_words}

-- The first 40 bytes.
abbrev pub prefix : ℕ → ℕ → List ℕ → List ℕ
prefix type tag binding = 0x50 ∷ 0x32 ∷ 0x51 ∷ 0x48 ∷ 1 ∷ type ∷ tag ∷ 0 ∷ binding

pub write_prefix-zeros :
    (type tag k : ℕ) (binding : List ℕ)
    → length binding ≡ 32
    → write_prefix type tag binding (zeros (64 + k))
      ≡ prefix type tag binding ++ (zeros 24 ++ zeros k)
unfolding write_prefix
write_prefix-zeros type tag k binding h = rw (replicate-add {A = ℕ} 64 k 0) (
    unfold set_at in
    set_at_block 8 (0x50 ∷ 0x32 ∷ 0x51 ∷ 0x48 ∷ 1 ∷ type ∷ tag ∷ 0 ∷ []) binding (zeros 32)
      (zeros 24 ++ zeros k) refl (sym h))

pub write_words-zeros :
    (front : List ℕ) (w1 w2 w3 : ℕ) (rest : List ℕ)
    → length front ≡ 40
    → write_words w1 w2 w3 (front ++ (zeros 24 ++ rest)) ≡ front ++ words w1 w2 w3 rest
unfolding write_words
write_words-zeros front w1 w2 w3 rest h = set_words-zeros 40 48 56 front w1 w2 w3 rest h refl refl

-- The three words are read back.
pub get_words :
    (front : List ℕ) (w1 w2 w3 : ℕ) (rest : List ℕ)
    → length front ≡ 40
    → w1 < 2 ^ 64
    → w2 < 2 ^ 64
    → w3 < 2 ^ 64
    → (get_u64 40 (front ++ words w1 w2 w3 rest) ≡ w1)
      × (get_u64 48 (front ++ words w1 w2 w3 rest) ≡ w2)
      × (get_u64 56 (front ++ words w1 w2 w3 rest) ≡ w3)
get_words front w1 w2 w3 rest h h1 h2 h3 =
    get_u64-words 40 48 56 front w1 w2 w3 rest h refl refl h1 h2 h3

-- What stands behind the header.
pub drop-words :
    (front : List ℕ) (w1 w2 w3 : ℕ) (rest : List ℕ)
    → length front ≡ 40
    → drop 64 (front ++ words w1 w2 w3 rest) ≡ rest
drop-words front w1 w2 w3 rest h = drop-append_words 40 64 front w1 w2 w3 rest h refl

-- Three words and what follows, written back.
pub words-get :
    (rec : List ℕ)
    → 64 ≤ length rec
    → IsBytes rec
    → drop 40 rec ≡ words (get_u64 40 rec) (get_u64 48 rec) (get_u64 56 rec) (drop 64 rec)
words-get rec long h =
    drop-word rec 40 48 h refl (omega arith)
    ∙ ap (◌++◌ (be_bytes 8 (get_u64 40 rec))) (
        drop-word rec 48 56 h refl (omega arith)
        ∙ ap (◌++◌ (be_bytes 8 (get_u64 48 rec))) (drop-word rec 56 64 h refl (omega arith)))

-- A write behind the header.
pub set_at-words :
    (offset k : ℕ) (front : List ℕ) (w1 w2 w3 : ℕ) (source rest : List ℕ)
    → length front ≡ 40
    → offset ≡ 64 + k
    → set_at offset source (front ++ words w1 w2 w3 rest)
      ≡ front ++ words w1 w2 w3 (set_at k source rest)
set_at-words offset k front w1 w2 w3 source rest h e =
    set_at-append_words 40 offset k front w1 w2 w3 source rest h (omega arith)
