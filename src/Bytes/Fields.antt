-- ===== src/Bytes/Fields.antt =====
-- Big-endian words inside byte strings: what writes over zeros leave, and what is read back.
use mathlib.Core.List.{append_assoc}
use p2party_js.Base.{
  take-append-drop, length-take, length-drop, drop-drop, ℕ, ◌+◌, ◌^◌, ◌<◌, ◌≤◌, ◌≡◌, sym, ap, ◌∙◌,
  List, ◌++◌, arith, length, length-append, take, drop, take-append_of_length, drop-append_add,
  drop-append_of_length,
}
use p2party_js.Bytes.{zeros, set_at, set_u64, get_u64, be_bytes, be_from, IsBytes}
use p2party_js.Bytes.Laws.{set_at_skip, set_at_block, IsBytes-take, IsBytes-drop}
use p2party_js.Bytes.Words.{length-be_bytes, be_from-be_bytes, be_bytes-be_from}

-- Three big-endian words.
abbrev pub words : ℕ → ℕ → ℕ → List ℕ → List ℕ
words w1 w2 w3 rest = be_bytes 8 w1 ++ (be_bytes 8 w2 ++ (be_bytes 8 w3 ++ rest))

-- One word, written behind a front of known length, over zeros.
pub set_u64-zeros :
    (offset w : ℕ) (front rest : List ℕ)
    → length front ≡ offset
    → set_u64 offset w (front ++ (zeros 8 ++ rest)) ≡ front ++ (be_bytes 8 w ++ rest)
set_u64-zeros offset w front rest h =
    set_at_block offset front (be_bytes 8 w) (zeros 8) rest h (sym (length-be_bytes 8 w))

pub set_u64-skip :
    (offset k w : ℕ) (front rest rest' : List ℕ)
    → offset ≡ length front + k
    → set_u64 k w rest ≡ rest'
    → set_u64 offset w (front ++ rest) ≡ front ++ rest'
set_u64-skip offset k w front rest rest' h e =
    set_at_skip offset k front (be_bytes 8 w) rest h ∙ ap (◌++◌ front) e

-- Three words, written one behind the other.
pub set_words-zeros :
    (i j k : ℕ) (front : List ℕ) (w1 w2 w3 : ℕ) (rest : List ℕ)
    → length front ≡ i
    → j ≡ i + 8
    → k ≡ i + 16
    → set_u64 k w3 (set_u64 j w2 (set_u64 i w1 (front ++ (zeros 24 ++ rest))))
      ≡ front ++ words w1 w2 w3 rest
set_words-zeros i j k front w1 w2 w3 rest h hj hk =
    ap (λ b. set_u64 k w3 (set_u64 j w2 b)) (set_u64-zeros i w1 front (zeros 16 ++ rest) h)
    ∙ ap (set_u64 k w3) (
        set_u64-skip j 8 w2 front _ _ (omega arith)
          (set_u64-zeros 8 w2 (be_bytes 8 w1) (zeros 8 ++ rest) (length-be_bytes 8 w1)))
    ∙ set_u64-skip k 16 w3 front _ _ (omega arith) (
        set_u64-skip 16 8 w3 (be_bytes 8 w1) _ _ (omega (arith, length-be_bytes 8 w1))
          (set_u64-zeros 8 w3 (be_bytes 8 w2) rest (length-be_bytes 8 w2)))

-- The word that stands behind a front of known length.
pub get_u64-behind :
    (offset w : ℕ) (front rest : List ℕ)
    → length front ≡ offset
    → w < 2 ^ 64
    → get_u64 offset (front ++ (be_bytes 8 w ++ rest)) ≡ w
get_u64-behind offset w front rest h hw =
    ap (λ b. be_from 0 (take 8 b)) (drop-append_of_length front _ offset h)
    ∙ ap (be_from 0) (take-append_of_length (be_bytes 8 w) rest 8 (length-be_bytes 8 w))
    ∙ be_from-be_bytes 8 w hw

pub get_u64-skip :
    (offset k : ℕ) (front rest : List ℕ)
    → offset ≡ length front + k
    → get_u64 offset (front ++ rest) ≡ get_u64 k rest
get_u64-skip offset k front rest h =
    ap (λ b. be_from 0 (take 8 b)) (drop-append_add front rest offset k h)

-- The three words are read back.
pub get_u64-words :
    (i j k : ℕ) (front : List ℕ) (w1 w2 w3 : ℕ) (rest : List ℕ)
    → length front ≡ i
    → j ≡ i + 8
    → k ≡ i + 16
    → w1 < 2 ^ 64
    → w2 < 2 ^ 64
    → w3 < 2 ^ 64
    → (get_u64 i (front ++ words w1 w2 w3 rest) ≡ w1)
      × (get_u64 j (front ++ words w1 w2 w3 rest) ≡ w2)
      × (get_u64 k (front ++ words w1 w2 w3 rest) ≡ w3)
get_u64-words i j k front w1 w2 w3 rest h hj hk h1 h2 h3 = (
  get_u64-behind i w1 front _ h h1,
  get_u64-skip j 8 front _ (omega arith)
      ∙ get_u64-behind 8 w2 (be_bytes 8 w1) _ (length-be_bytes 8 w1) h2,
  get_u64-skip k 16 front _ (omega arith)
      ∙ get_u64-skip 16 8 (be_bytes 8 w1) _ (omega (arith, length-be_bytes 8 w1))
      ∙ get_u64-behind 8 w3 (be_bytes 8 w2) _ (length-be_bytes 8 w2) h3,
)

pub length-words : (w1 w2 w3 : ℕ) (rest : List ℕ) → length (words w1 w2 w3 rest) ≡ 24 + length rest
length-words w1 w2 w3 rest = omega (
  arith,
  length-append (be_bytes 8 w1) (be_bytes 8 w2 ++ (be_bytes 8 w3 ++ rest)),
  length-append (be_bytes 8 w2) (be_bytes 8 w3 ++ rest),
  length-append (be_bytes 8 w3) rest,
  length-be_bytes 8 w1,
  length-be_bytes 8 w2,
  length-be_bytes 8 w3,
)

-- What stands behind three words.
pub drop-append_words :
    (i k : ℕ) (front : List ℕ) (w1 w2 w3 : ℕ) (rest : List ℕ)
    → length front ≡ i
    → k ≡ i + 24
    → drop k (front ++ words w1 w2 w3 rest) ≡ rest
drop-append_words i k front w1 w2 w3 rest h hk =
    drop-append_add front _ k 24 (omega arith)
    ∙ drop-append_add (be_bytes 8 w1) _ 24 16 (omega (arith, length-be_bytes 8 w1))
    ∙ drop-append_add (be_bytes 8 w2) _ 16 8 (omega (arith, length-be_bytes 8 w2))
    ∙ drop-append_of_length (be_bytes 8 w3) rest 8 (length-be_bytes 8 w3)

-- The word that begins a byte string, written back.
pub be_bytes-get :
    (xs : List ℕ) → 8 ≤ length xs → IsBytes xs → xs ≡ be_bytes 8 (get_u64 0 xs) ++ drop 8 xs
be_bytes-get xs long h =
    sym (take-append-drop 8 xs)
    ∙ ap (λ b. b ++ drop 8 xs)
        (sym (be_bytes-be_from (take 8 xs) (IsBytes-take 8 xs h))
          ∙ ap (λ n. be_bytes n (get_u64 0 xs)) (length-take 8 xs long))

-- A word and what follows, written back.
pub drop-word :
    (rec : List ℕ) (i j : ℕ)
    → IsBytes rec
    → j ≡ i + 8
    → j ≤ length rec
    → drop i rec ≡ be_bytes 8 (get_u64 i rec) ++ drop j rec
drop-word rec i j h e hj =
    be_bytes-get (drop i rec) (omega (arith, length-drop i rec)) (IsBytes-drop i rec h)
    ∙ ap (◌++◌ (be_bytes 8 (get_u64 i rec))) (drop-drop i 8 j rec e)

-- A write behind three words.
pub set_at-append_words :
    (i offset k : ℕ) (front : List ℕ) (w1 w2 w3 : ℕ) (source rest : List ℕ)
    → length front ≡ i
    → offset ≡ i + 24 + k
    → set_at offset source (front ++ words w1 w2 w3 rest)
      ≡ front ++ words w1 w2 w3 (set_at k source rest)
set_at-append_words i offset k front w1 w2 w3 source rest h e =
    set_at_skip offset (24 + k) front source _ (omega arith)
    ∙ ap (◌++◌ front) (
        set_at_skip (24 + k) (16 + k) (be_bytes 8 w1) source _ (omega (arith, length-be_bytes 8 w1))
        ∙ ap (◌++◌ (be_bytes 8 w1)) (
            set_at_skip (16 + k) (8 + k) (be_bytes 8 w2) source _
              (omega (arith, length-be_bytes 8 w2))
            ∙ ap (◌++◌ (be_bytes 8 w2)) (
                set_at_skip (8 + k) k (be_bytes 8 w3) source rest
                  (omega (arith, length-be_bytes 8 w3)))))

-- Bytes behind three words.
pub words-append :
    (w1 w2 w3 : ℕ) (rest bytes : List ℕ)
    → words w1 w2 w3 rest ++ bytes ≡ words w1 w2 w3 (rest ++ bytes)
words-append w1 w2 w3 rest bytes =
    append_assoc (be_bytes 8 w1) _ bytes
    ∙ ap (◌++◌ (be_bytes 8 w1)) (
        append_assoc (be_bytes 8 w2) _ bytes
        ∙ ap (◌++◌ (be_bytes 8 w2)) (append_assoc (be_bytes 8 w3) rest bytes))
