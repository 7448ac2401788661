-- ===== src/Bytes.antt =====
-- Byte strings: a `Uint8Array` is a list of numbers. `Uint8Array.set`, `subarray`, `fill` and the
-- big-endian accessors of `DataView`, as the source calls them.
pub mod Bits
pub mod Laws
pub mod Words
pub mod Fields
use Prim.Native.Nat.{bit_or, bit_xor}
use p2party_js.Base.{
  ℕ, zero, suc, ◌+◌, ◌-◌, ◌*◌, ◌/◌, ◌%◌, ◌<◌, Bool, true, false, ◌&&◌, List, [], ◌∷◌, ◌++◌, take,
  drop, length, replicate, ◌==◌, if◌then◌else◌,
}

-- `new Uint8Array(n)`.
abbrev pub zeros : ℕ → List ℕ
zeros n = replicate n 0

-- `bytes.fill(0)`.
abbrev pub wipe : List ℕ → List ℕ
wipe bytes = zeros (length bytes)

-- `target.set(source, offset)`, for a source that fits.
unfoldable pub set_at : ℕ → List ℕ → List ℕ → List ℕ
set_at offset source target = take offset target ++ (source ++ drop (offset + length source) target)

-- `bytes.subarray(from, to)` and `bytes.slice(from, to)`.
abbrev pub slice : ℕ → ℕ → List ℕ → List ℕ
slice from to bytes = take (to - from) (drop from bytes)

-- The `count` low bytes of a number, the highest first.
unfoldable pub be_bytes : ℕ → ℕ → List ℕ
be_bytes zero value = []
be_bytes (suc count) value = be_bytes count (value / 256) ++ (value % 256) ∷ []

-- The number that bytes stand for, the highest first, below an accumulator.
unfoldable pub be_from : ℕ → List ℕ → ℕ
be_from acc [] = acc
be_from acc (b ∷ bs) = be_from (acc * 256 + b) bs

-- `view.setBigUint64(offset, value, false)` and `view.getBigUint64(offset, false)`.
abbrev pub set_u64 : ℕ → ℕ → List ℕ → List ℕ
set_u64 offset value target = set_at offset (be_bytes 8 value) target

abbrev pub get_u64 : ℕ → List ℕ → ℕ
get_u64 offset bytes = be_from 0 (take 8 (drop offset bytes))

-- `view.setUint32(offset, value, false)` and `view.getUint32(offset, false)`.
abbrev pub set_u32 : ℕ → ℕ → List ℕ → List ℕ
set_u32 offset value target = set_at offset (be_bytes 4 value) target

abbrev pub get_u32 : ℕ → List ℕ → ℕ
get_u32 offset bytes = be_from 0 (take 4 (drop offset bytes))

-- `difference |= left[index] ^ right[index]` over all positions.
unfoldable pub difference_from : ℕ → List ℕ → List ℕ → ℕ
difference_from difference [] ys = difference
difference_from difference (x ∷ xs) [] = difference
difference_from difference (x ∷ xs) (y ∷ ys) =
    difference_from (bit_or difference (bit_xor x y)) xs ys

-- `bytesEqual`: unequal lengths fail at once; otherwise every position is read.
unfoldable pub bytes_equal : List ℕ → List ℕ → Bool
unfolding difference_from
bytes_equal left right =
    if length left == length right then difference_from 0 left right == 0 else false

-- Every element is a byte.
abbrev pub IsBytes : List ℕ → Type 0
IsBytes [] = Unit
IsBytes (b ∷ bs) = (b < 256) × IsBytes bs
