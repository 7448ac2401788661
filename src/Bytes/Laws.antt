-- ===== src/Bytes/Laws.antt =====
-- Blocks inside byte strings: what a write leaves, what a slice of a concatenation is, and equality.
use mathlib.Core.List.{append_assoc}
use mathlib.Core.List.{append_assoc}
use p2party_js.Base.{
  replicate-add, length-replicate, take-append_add, drop-append_add, ℕ, zero, suc, ◌+◌, ◌-◌, ◌≡◌,
  refl, sym, ap, ◌∙◌, ◌↔◌, true, List, [], ◌∷◌, ◌++◌, arith, length, take, drop, replicate-add,
  length-replicate, take-append_of_length, drop-append_of_length, drop-drop, ==_refl, ==_iff, ◌==◌,
  Bool-cases, inl, inr,
}
use p2party_js.Bytes.{zeros, set_at, slice, difference_from, bytes_equal, IsBytes}
use p2party_js.Bytes.Bits.{bit_xor-eq_zero, bit_xor_self, bit_or-eq_zero, zero-bit_or}
use mathlib.Core.Path.{ap₂}
use mathlib.Core.Bool.{false≢true}
use Prim.Native.Nat.{bit_or, bit_xor}

difference_from-eq_zero :
    (acc : ℕ) (xs ys : List ℕ)
    → length xs ≡ length ys
    → difference_from acc xs ys ≡ 0
    → (acc ≡ 0) × (xs ≡ ys)
unfolding difference_from
difference_from-eq_zero acc [] [] n h = (h, refl)
difference_from-eq_zero acc [] (y ∷ ys) n h = absurd (omega arith)
difference_from-eq_zero acc (x ∷ xs) [] n h = absurd (omega arith)
difference_from-eq_zero acc (x ∷ xs) (y ∷ ys) n h =
    let (none_yet, rest) =
      difference_from-eq_zero (bit_or acc (bit_xor x y)) xs ys (omega arith) h in
    let (before, here) = bit_or-eq_zero acc (bit_xor x y) none_yet in
    (before, ap₂ ◌∷◌ (bit_xor-eq_zero x y here) rest)

difference_from_self : (xs : List ℕ) → difference_from 0 xs xs ≡ 0
unfolding difference_from
difference_from_self [] = refl
difference_from_self (x ∷ xs) = rw (bit_xor_self x, zero-bit_or 0) (difference_from_self xs)

-- The constant-time comparison decides equality of byte strings.
pub bytes_equal_iff : (xs ys : List ℕ) → (bytes_equal xs ys ≡ true) ↔ (xs ≡ ys)
unfolding bytes_equal
bytes_equal_iff xs ys = (sound, complete)
  where
    sound : bytes_equal xs ys ≡ true → xs ≡ ys
    sound h = elim (Bool-cases (length xs == length ys)) [
      | inl same ↦
          (difference_from-eq_zero 0 xs ys ((==_iff _ _).0 same) ((==_iff _ _).0 (rw same at h))).1
      | inr other ↦ absurd (false≢true (rw other at h))
    ]

    complete : xs ≡ ys → bytes_equal xs ys ≡ true
    complete e = rw (← e) (rw (==_refl (length xs), difference_from_self xs))

pub bytes_equal_refl : (xs : List ℕ) → bytes_equal xs xs ≡ true
bytes_equal_refl xs = (bytes_equal_iff xs xs).1 refl

-- A write over a block of its own length, behind a prefix of known length, replaces that block.
pub set_at_block :
    (offset : ℕ) (front source block rest : List ℕ)
    → length front ≡ offset
    → length block ≡ length source
    → set_at offset source (front ++ (block ++ rest)) ≡ front ++ (source ++ rest)
unfolding set_at
set_at_block offset front source block rest hf hb =
    rw (take-append_of_length front (block ++ rest) offset hf)
      (ap (λ t. front ++ (source ++ t)) tail)
  where
    tail : drop (offset + length source) (front ++ (block ++ rest)) ≡ rest
    tail =
        sym (drop-drop offset (length source) _ (front ++ (block ++ rest)) refl)
        ∙ ap (drop (length source)) (drop-append_of_length front (block ++ rest) offset hf)
        ∙ drop-append_of_length block rest (length source) hb

-- A write behind a prefix is a write into the rest.
pub set_at_skip :
    (offset k : ℕ) (front source rest : List ℕ)
    → offset ≡ length front + k
    → set_at offset source (front ++ rest) ≡ front ++ set_at k source rest
unfolding set_at
set_at_skip offset k front source rest h =
    rw
      (
        take-append_add front rest offset k h,
        drop-append_add front rest (offset + length source) (k + length source) (omega arith),
      )
      (append_assoc front (take k rest) (source ++ drop (k + length source) rest))

-- A write over the first block.
pub set_at_here :
    (source block rest : List ℕ)
    → length block ≡ length source
    → set_at 0 source (block ++ rest) ≡ source ++ rest
set_at_here source block rest h = set_at_block 0 [] source block rest refl h

pub length-zeros : (n : ℕ) → length (zeros n) ≡ n
length-zeros n = length-replicate n 0

-- A write that fills zeros.
pub set_at-zeros :
    (source : List ℕ) (n k : ℕ)
    → n ≡ length source + k
    → set_at 0 source (zeros n) ≡ source ++ zeros k
set_at-zeros source n k h =
    ap (λ j. set_at 0 source (zeros j)) h
    ∙ ap (set_at 0 source) (replicate-add (length source) k 0)
    ∙ set_at_here source (zeros (length source)) (zeros k) (length-replicate (length source) 0)

-- The slice of a concatenation that one of its blocks occupies.
pub slice_block :
    (from to : ℕ) (front block rest : List ℕ)
    → length front ≡ from
    → length front + length block ≡ to
    → slice from to (front ++ (block ++ rest)) ≡ block
slice_block from to front block rest hf ht =
    rw (drop-append_of_length front (block ++ rest) from hf)
      (take-append_of_length block rest (to - from) (omega arith))

pub IsBytes-append : (xs ys : List ℕ) → IsBytes xs → IsBytes ys → IsBytes (xs ++ ys)
IsBytes-append [] ys hx hy = hy
IsBytes-append (x ∷ xs) ys hx hy = (hx.0, IsBytes-append xs ys hx.1 hy)

pub IsBytes-take : (n : ℕ) (xs : List ℕ) → IsBytes xs → IsBytes (take n xs)
IsBytes-take zero xs h = tt
IsBytes-take (suc n) [] h = tt
IsBytes-take (suc n) (x ∷ xs) h = (h.0, IsBytes-take n xs h.1)

pub IsBytes-drop : (n : ℕ) (xs : List ℕ) → IsBytes xs → IsBytes (drop n xs)
IsBytes-drop zero xs h = h
IsBytes-drop (suc n) [] h = tt
IsBytes-drop (suc n) (x ∷ xs) h = IsBytes-drop n xs h.1
