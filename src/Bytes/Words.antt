-- ===== src/Bytes/Words.antt =====
-- Big-endian words and their bytes.
use mathlib.Core.Path.{ap₂}
use mathlib.Core.List.{append-nil, append_assoc}
use p2party_js.Base.{
  ℕ, zero, suc, ◌+◌, ◌*◌, ◌/◌, ◌%◌, ◌^◌, ◌<◌, ◌≤◌, ◌≡◌, refl, ap, List, [], ◌∷◌, ◌++◌, arith,
  length, length-append, sym, ◌∙◌,
}
use native.Mathlib.Nat.{pow-suc}
use p2party_js.Bytes.{be_bytes, be_from, IsBytes}
use p2party_js.Bytes.Laws.{IsBytes-append}

pub length-be_bytes : (count value : ℕ) → length (be_bytes count value) ≡ count
unfolding be_bytes
length-be_bytes zero value = refl
length-be_bytes (suc count) value = omega (
  arith,
  length-append (be_bytes count (value / 256)) ((value % 256) ∷ []),
  length-be_bytes count (value / 256),
)

be_from-append : (acc : ℕ) (xs ys : List ℕ) → be_from acc (xs ++ ys) ≡ be_from (be_from acc xs) ys
unfolding be_from
be_from-append acc [] ys = refl
be_from-append acc (x ∷ xs) ys = be_from-append (acc * 256 + x) xs ys

be_from-snoc :
    (count value : ℕ)
    → be_from 0 (be_bytes (suc count) value)
      ≡ be_from 0 (be_bytes count (value / 256)) * 256 + value % 256
unfolding be_bytes be_from
be_from-snoc count value = be_from-append 0 (be_bytes count (value / 256)) ((value % 256) ∷ [])

-- A number that fits is read back.
pub be_from-be_bytes :
    (count value : ℕ) → value < 256 ^ count → be_from 0 (be_bytes count value) ≡ value
be_from-be_bytes zero value h = unfold be_bytes be_from in omega arith
be_from-be_bytes (suc count) value h = omega (
  arith,
  be_from-snoc count value,
  pow-suc 256 count,
  be_from-be_bytes count (value / 256) (omega (arith, pow-suc 256 count)),
)

be_bytes-snoc :
    (k acc x : ℕ) (xs : List ℕ)
    → x < 256
    → be_bytes (suc k) (acc * 256 + x) ++ xs ≡ be_bytes k acc ++ x ∷ xs
unfolding be_bytes
be_bytes-snoc k acc x xs hx =
    append_assoc (be_bytes k ((acc * 256 + x) / 256)) (((acc * 256 + x) % 256) ∷ []) xs
    ∙ ap₂ (λ q r. be_bytes k q ++ r ∷ xs) quotient remainder
  where
    quotient : (acc * 256 + x) / 256 ≡ acc
    quotient = omega arith

    remainder : (acc * 256 + x) % 256 ≡ x
    remainder = omega arith

be_bytes-be_from_acc :
    (k n acc : ℕ) (xs : List ℕ)
    → n ≡ k + length xs
    → IsBytes xs
    → be_bytes n (be_from acc xs) ≡ be_bytes k acc ++ xs
unfolding be_from
be_bytes-be_from_acc k n acc [] e h =
    ap (λ j. be_bytes j acc) (omega arith) ∙ sym (append-nil (be_bytes k acc))
be_bytes-be_from_acc k n acc (x ∷ xs) e (hx, h) =
    be_bytes-be_from_acc (suc k) n (acc * 256 + x) xs (omega arith) h ∙ shift
  where
    shift : be_bytes (suc k) (acc * 256 + x) ++ xs ≡ be_bytes k acc ++ x ∷ xs
    shift = be_bytes-snoc k acc x xs hx

-- Bytes are written back.
pub be_bytes-be_from : (xs : List ℕ) → IsBytes xs → be_bytes (length xs) (be_from 0 xs) ≡ xs
unfolding be_bytes
be_bytes-be_from xs h = be_bytes-be_from_acc 0 (length xs) 0 xs (omega arith) h

pub IsBytes-be_bytes : (count value : ℕ) → IsBytes (be_bytes count value)
unfolding be_bytes
IsBytes-be_bytes zero value = tt
IsBytes-be_bytes (suc count) value =
    IsBytes-append (be_bytes count (value / 256)) ((value % 256) ∷ [])
      (IsBytes-be_bytes count (value / 256)) (omega arith)

mul_mono : (a b p : ℕ) → a ≤ b → a * p ≤ b * p
mul_mono a b p h = grind arith

-- A word read from bytes fits its width.
be_from-lt_acc : (acc : ℕ) (xs : List ℕ) → IsBytes xs → be_from acc xs < suc acc * 256 ^ length xs
unfolding be_from
be_from-lt_acc acc [] h = omega arith
be_from-lt_acc acc (x ∷ xs) (hx, h) = omega (
  arith,
  be_from-lt_acc (acc * 256 + x) xs h,
  pow-suc 256 (length xs),
  ap (λ (t : ℕ). suc acc * t) (pow-suc 256 (length xs)),
  mul_mono (suc (acc * 256 + x)) (suc acc * 256) (256 ^ length xs) (omega arith),
)

pub be_from-lt : (xs : List ℕ) → IsBytes xs → be_from 0 xs < 256 ^ length xs
be_from-lt xs h = omega (arith, be_from-lt_acc 0 xs h)
