-- ===== src/Double.antt =====
-- The doubles of JavaScript that the times of src/handlers/coverScheduler.ts pass through: whole
-- numbers rounded to 53 bits, and `Math.floor` of a rounded quotient.
use p2party_js.Base.{
  ℕ, zero, suc, ◌+◌, ◌-◌, ◌*◌, ◌/◌, ◌%◌, ◌^◌, ◌≤◌, ◌<◌, ◌≡◌, refl, Bool, ◌&&◌, ◌||◌, ltb, ◌==◌,
  if◌then◌else◌, arith, Bool-cases, inl, inr, ap, ◌∙◌, ==_iff, ==_of_ne, le_of_ltb, ne_of_==,
  ltb_of_le,
}

-- The number of binary digits, at most the fuel.
abbrev digits : ℕ → ℕ → ℕ
digits zero n = 0
digits (suc fuel) n = let rest = digits fuel (n / 2) in if n == 0 then 0 else suc rest

-- A number below 2^128 has at most 128.
unfoldable pub bits : ℕ → ℕ
bits n = digits 128 n

abbrev even : ℕ → Bool
even n = n % 2 == 0

-- The multiple of `unit` that is nearest to `n`, of two that are equally near the even one.
abbrev nearest : ℕ → ℕ → ℕ
nearest n unit =
    if ltb (2 * (n % unit)) unit || (2 * (n % unit) == unit && even (n / unit))
    then n / unit * unit
    else (n / unit + 1) * unit

-- The double nearest to a whole number.
unfoldable pub round_double : ℕ → ℕ
round_double n = if ltb n (2 ^ 53) then n else nearest n (2 ^ (bits n - 53))

-- `Math.floor(a / b)` for a quotient below 2^53. Doubles with this whole part are 2^(bits - 53) apart;
-- what is left to the next whole number is (next * b - a) / b, and at no more than half of that
-- distance the quotient is rounded up to it.
unfoldable pub floor_quotient : ℕ → ℕ → ℕ
floor_quotient a b =
    let whole = a / b in
    let next = whole + 1 in
    let left = (next * b - a) * 2 ^ 54 in
    let half = b * 2 ^ bits whole in
    if ltb left half || (left == half && (ltb (bits whole) 53 || even next)) then next else whole

-- Below 2^53 nothing is rounded.
pub round_double-eq : (n : ℕ) → n < 2 ^ 53 → round_double n ≡ n
unfolding round_double
round_double-eq n h = elim (Bool-cases (ltb n (2 ^ 53))) [
  | inl small ↦ rw small
  | inr large ↦ absurd (omega (arith, le_of_ltb n (2 ^ 53) large))
]

pow_suc : (n : ℕ) → 2 ^ suc n ≡ 2 * 2 ^ n
pow_suc n = omega arith

digits_zero : (fuel : ℕ) → digits fuel 0 ≡ 0
digits_zero zero = refl
digits_zero (suc fuel) = refl

digits_low : (fuel n : ℕ) → 0 < n → 2 ^ digits fuel n ≤ 2 * n
digits_low zero n h = omega arith
digits_low (suc fuel) n h = elim (Bool-cases (n == 0)) [
  | inl none_left ↦ absurd (omega (arith, (==_iff n 0).0 none_left))
  | inr some_left ↦ rw some_left (elim (Bool-cases (n / 2 == 0)) [
    | inl last ↦
        let half : n / 2 ≡ 0 = (==_iff (n / 2) 0).0 last in
        omega (arith, ap (λ k. 2 ^ suc k) (ap (digits fuel) half ∙ digits_zero fuel))
    | inr more ↦ omega (
      arith,
      pow_suc (digits fuel (n / 2)),
      digits_low fuel (n / 2) (omega (arith, ne_of_== (n / 2) 0 more)),
    )
  ])
]

bits_low : (n : ℕ) → 0 < n → 2 ^ bits n ≤ 2 * n
unfolding bits
bits_low n h = digits_low 128 n h

bits_zero : bits 0 ≡ 0
unfolding bits
bits_zero = refl

-- A power of two times a positive number is at least the power.
spread : (r : ℕ) → 0 < r → 2 ^ 54 ≤ r * 2 ^ 54
spread r h = omega arith

high : (a b : ℕ) → 0 < b → a < (a / b + 1) * b
high a b h = omega arith

low_product : (a b : ℕ) → 0 < b → a / b * b ≤ a
low_product a b h = omega arith

left_over : (a b : ℕ) → 0 < b → 0 < (a / b + 1) * b - a
left_over a b h = omega arith

mul_le : (b x y : ℕ) → x ≤ y → b * x ≤ b * y
mul_le b x y h = grind arith

times : (b x y : ℕ) → x ≤ 2 * y → b * x ≤ 2 * (y * b)
times b x y h = omega (arith, mul_le b x (2 * y) h)

-- What is left of the quotient is far from the next whole number.
half_high : (a b : ℕ) → 0 < b → a < 2 ^ 53 → b * 2 ^ bits (a / b) < ((a / b + 1) * b - a) * 2 ^ 54
half_high a b p h = elim (Bool-cases (a / b == 0)) [
  | inl small ↦ near (a / b) ((==_iff (a / b) 0).0 small) (high a b p)
  | inr large ↦
      let whole : 0 < a / b = omega (arith, ne_of_== (a / b) 0 large) in
      omega (
        arith,
        times b (2 ^ bits (a / b)) (a / b) (bits_low (a / b) whole),
        low_product a b p,
        spread ((a / b + 1) * b - a) (left_over a b p),
      )
]
  where
    near : (q : ℕ) → q ≡ 0 → a < (q + 1) * b → b * 2 ^ bits q < ((q + 1) * b - a) * 2 ^ 54
    near q e l = rw (e, bits_zero) (omega (arith, ap (λ n. (n + 1) * b) e))

-- A whole number below 2^53 has the floor of its quotient.
pub floor_quotient-eq : (a b : ℕ) → 0 < b → a < 2 ^ 53 → floor_quotient a b ≡ a / b
unfolding floor_quotient
floor_quotient-eq a b p h =
    let far = half_high a b p h in
    let left = ((a / b + 1) * b - a) * 2 ^ 54 in
    let half = b * 2 ^ bits (a / b) in
    rw (ltb_of_le left half (omega (arith, far)), ==_of_ne left half (omega (arith, far)))
