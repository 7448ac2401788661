-- ===== src/Ratchet/SlotKeys.antt =====
-- src/cryptography/ratchet.ts: the strings that are keys of the `skipped` map, as lists of character
-- codes. They are printed as `toHex`, a colon and a decimal index, and read back from the last colon.
use p2party_js.Base.{
  ℕ, zero, suc, ◌+◌, ◌-◌, ◌*◌, ◌/◌, ◌%◌, ◌<◌, ◌≡◌, refl, ap, sym, Option-cases, ltb_of_le, ◌∙◌,
  List, [], ◌∷◌, false, true, ◌++◌, Option, none, some, length, take, drop, ltb, ◌==◌, Bool,
  if◌then◌else◌, arith, Bool-cases, inl, inr, ==_of_ne, le_of_ltb, take-append_of_length,
}
use p2party_js.Ratchet.State.{Slot}

-- The codes of `0` to `9` and of `a` to `f`.
abbrev hex_digit : ℕ → ℕ
hex_digit d = if ltb d 10 then 48 + d else 87 + d

abbrev digit_value : ℕ → ℕ
digit_value c = if ltb c 97 then c - 48 else c - 87

-- A byte has two digits, the first of which may be the padding.
unfoldable pub to_hex : List ℕ → List ℕ
to_hex [] = []
to_hex (b ∷ bytes) = hex_digit (b / 16) ∷ hex_digit (b % 16) ∷ to_hex bytes

-- Of digits of `to_hex`; an odd one out is dropped.
unfoldable pub from_hex : List ℕ → List ℕ
from_hex [] = []
from_hex (c ∷ []) = []
from_hex (c ∷ d ∷ hex) = (digit_value c * 16 + digit_value d) ∷ from_hex hex

abbrev print : ℕ → ℕ → List ℕ
print zero n = []
print (suc fuel) n =
    let rest = print fuel (n / 10) in if ltb n 10 then (48 + n) ∷ [] else rest ++ (48 + n % 10) ∷ []

-- A whole number in a template string. It has no more digits than it is large, plus one.
unfoldable pub decimal : ℕ → List ℕ
decimal n = print (suc n) n

abbrev number_from : ℕ → List ℕ → ℕ
number_from acc [] = acc
number_from acc (c ∷ digits) = number_from (acc * 10 + (c - 48)) digits

-- `Number`, of decimal digits.
unfoldable pub number : List ℕ → ℕ
number digits = number_from 0 digits

-- Where a character stands last, by whether it is the first and where it stands last after that.
abbrev or_first : Bool → Option ℕ → Option ℕ
or_first first (some i) = some (suc i)
or_first first none = if first then some 0 else none

-- `lastIndexOf`; `none` for -1.
unfoldable pub last_index_of : ℕ → List ℕ → Option ℕ
last_index_of c [] = none
last_index_of c (d ∷ s) = or_first (d == c) (last_index_of c s)

unfoldable pub skipped_key : Slot → List ℕ
unfolding to_hex decimal
skipped_key (dh_pub, n) = to_hex dh_pub ++ 58 ∷ decimal n

-- `slice(0, idx)` and `slice(idx + 1)` of a key; with an index of -1 the first stops before the end.
abbrev slot_from : List ℕ → Option ℕ → Slot
slot_from key (some i) = (from_hex (take i key), number (drop (i + 1) key))
slot_from key none = (from_hex (take (length key - 1) key), number key)

unfoldable pub read_key : List ℕ → Slot
unfolding from_hex number last_index_of
read_key key = slot_from key (last_index_of 58 key)

lt_of_ltb : (a b : ℕ) → ltb a b ≡ true → a < b
lt_of_ltb a b h = ground arith

ltb_of_lt : (a b : ℕ) → a < b → ltb a b ≡ true
ltb_of_lt a b h = ground arith

digit_value-hex_digit : (d : ℕ) → digit_value (hex_digit d) ≡ d
digit_value-hex_digit d = elim (Bool-cases (ltb d 10)) [
  | inl low ↦ rw (low, ltb_of_lt (48 + d) 97 (omega (arith, lt_of_ltb d 10 low))) (omega arith)
  | inr high ↦ rw (high, ltb_of_le (87 + d) 97 (omega (arith, le_of_ltb d 10 high))) (omega arith)
]

from_hex-to_hex : (dh_pub : List ℕ) → from_hex (to_hex dh_pub) ≡ dh_pub
unfolding from_hex to_hex
from_hex-to_hex [] = refl
from_hex-to_hex (b ∷ bytes) =
    rw (digit_value-hex_digit (b / 16), digit_value-hex_digit (b % 16), from_hex-to_hex bytes)
      (ap (λ c. c ∷ bytes) (omega arith))

number_from-append :
    (acc c : ℕ) (s : List ℕ) → number_from acc (s ++ c ∷ []) ≡ number_from acc s * 10 + (c - 48)
number_from-append acc c [] = refl
number_from-append acc c (d ∷ s) = number_from-append (acc * 10 + (d - 48)) c s

number-print : (fuel n : ℕ) → n < fuel → number_from 0 (print fuel n) ≡ n
number-print zero n h = absurd (omega arith)
number-print (suc fuel) n h = elim (Bool-cases (ltb n 10)) [
  | inl one ↦ rw one (omega (arith, lt_of_ltb n 10 one))
  | inr more ↦
      rw
        (
          more,
          number_from-append 0 (48 + n % 10) (print fuel (n / 10)),
          number-print fuel (n / 10) (omega (arith, le_of_ltb n 10 more)),
        )
        (omega arith)
]

some_is_not-none : {i : ℕ} → ¬ (◌≡◌ {A = Option ℕ} (some i) none)
some_is_not-none h = cc

last_index_of-append_none :
    (c d : ℕ) (s : List ℕ)
    → last_index_of c s ≡ none
    → (d == c) ≡ false
    → last_index_of c (s ++ d ∷ []) ≡ none
unfolding last_index_of
last_index_of-append_none c d [] h e = rw e
last_index_of-append_none c d (b ∷ s) h e = elim (Option-cases (last_index_of c s)) [
  | inr (i, f) ↦ absurd (some_is_not-none {i = suc i} (sym (rw f) ∙ h))
  | inl f ↦ rw (last_index_of-append_none c d s f e) (elim (Bool-cases (b == c)) [
    | inl same ↦ absurd (some_is_not-none {i = 0} (sym (rw (f, same)) ∙ h))
    | inr other ↦ rw other
  ])
]

no_colon : (fuel n : ℕ) → last_index_of 58 (print fuel n) ≡ none
unfolding last_index_of
no_colon zero n = refl
no_colon (suc fuel) n = elim (Bool-cases (ltb n 10)) [
  | inl one ↦ rw (one, ==_of_ne (48 + n) 58 (omega (arith, lt_of_ltb n 10 one)))
  | inr more ↦ rw more (
      last_index_of-append_none 58 (48 + n % 10) (print fuel (n / 10)) (no_colon fuel (n / 10))
        (==_of_ne (48 + n % 10) 58 (omega arith)))
]

last_index_of-append :
    (c i : ℕ) (s t : List ℕ)
    → last_index_of c t ≡ some i
    → last_index_of c (s ++ t) ≡ some (length s + i)
unfolding last_index_of
last_index_of-append c i [] t h = h ∙ ap some (omega arith)
last_index_of-append c i (d ∷ s) t h = rw (last_index_of-append c i s t h) (ap some (omega arith))

no_colon-decimal : (n : ℕ) → last_index_of 58 (decimal n) ≡ none
unfolding decimal
no_colon-decimal n = no_colon (suc n) n

colon-found : (n : ℕ) → last_index_of 58 (58 ∷ decimal n) ≡ some 0
unfolding last_index_of
colon-found n = rw (no_colon-decimal n)

number-decimal : (n : ℕ) → number (decimal n) ≡ n
unfolding number decimal
number-decimal n = number-print (suc n) n (omega arith)

drop-next : (c : ℕ) (s t : List ℕ) (i : ℕ) → i ≡ length s + 1 → drop i (s ++ c ∷ t) ≡ t
drop-next c [] t zero e = absurd (omega arith)
drop-next c [] t (suc i) e = let start : i ≡ 0 = omega arith in ap (λ j. drop j t) start
drop-next c (d ∷ s) t zero e = absurd (omega arith)
drop-next c (d ∷ s) t (suc i) e = drop-next c s t i (omega arith)

read_key-at :
    (key : List ℕ) (i : ℕ)
    → last_index_of 58 key ≡ some i
    → read_key key ≡ (from_hex (take i key), number (drop (i + 1) key))
unfolding read_key
read_key-at key i h = ap (slot_from key) h

-- What is printed for a slot is read back.
pub read_key-skipped_key : (slot : Slot) → read_key (skipped_key slot) ≡ slot
unfolding skipped_key
read_key-skipped_key (dh_pub, n) =
    let here : last_index_of 58 (to_hex dh_pub ++ 58 ∷ decimal n)
        ≡ some (length (to_hex dh_pub) + 0) =
      last_index_of-append 58 0 (to_hex dh_pub) (58 ∷ decimal n) (colon-found n) in
    read_key-at (to_hex dh_pub ++ 58 ∷ decimal n) (length (to_hex dh_pub) + 0) here
    ∙ rw (
      take-append_of_length (to_hex dh_pub) (58 ∷ decimal n) (length (to_hex dh_pub) + 0)
          (omega arith),
      from_hex-to_hex dh_pub,
      drop-next 58 (to_hex dh_pub) (decimal n) (length (to_hex dh_pub) + 0 + 1) (omega arith),
      number-decimal n,
    )

pub skipped_key-injective : (a b : Slot) → skipped_key a ≡ skipped_key b → a ≡ b
skipped_key-injective a b e = sym (read_key-skipped_key a) ∙ ap read_key e ∙ read_key-skipped_key b
