-- ===== src/Bytes/Bits.antt =====
-- The bit operations of the constant-time comparison: when `^` and `|` give zero.
use Prim.Native.Nat.{bit_or, bit_xor, bit_or-bitwise, bit_xor-bitwise, digits, differ, max}
use p2party_js.Base.{ℕ, zero, suc, ◌/◌, ◌%◌, ◌≤◌, ◌<◌, ◌≡◌, refl, arith, sym, ◌∙◌}

differ-eq_zero : (x y : ℕ) → x < 2 → y < 2 → differ x y ≡ 0 → x ≡ y
differ-eq_zero zero zero hx hy h = refl
differ-eq_zero zero (suc zero) hx hy h = omega arith
differ-eq_zero (suc zero) zero hx hy h = omega arith
differ-eq_zero (suc zero) (suc zero) hx hy h = refl
differ-eq_zero (suc (suc x)) y hx hy h = absurd (omega arith)
differ-eq_zero zero (suc (suc y)) hx hy h = absurd (omega arith)
differ-eq_zero (suc zero) (suc (suc y)) hx hy h = absurd (omega arith)

xor_digits-eq_zero : (n a b : ℕ) → a ≤ n → digits (λ y. y) differ n a b ≡ 0 → a ≡ b
xor_digits-eq_zero zero zero b h e = sym e
xor_digits-eq_zero zero (suc a) b h e = absurd (omega arith)
xor_digits-eq_zero (suc n) zero b h e = sym e
xor_digits-eq_zero (suc n) (suc a) b h e =
    let halves = xor_digits-eq_zero n (suc a / 2) (b / 2) (omega arith) (omega arith) in
    let digit = differ-eq_zero (suc a % 2) (b % 2) (omega arith) (omega arith) (omega arith) in
    omega arith

differ_self : (x : ℕ) → x < 2 → differ x x ≡ 0
differ_self zero h = refl
differ_self (suc zero) h = refl
differ_self (suc (suc x)) h = absurd (omega arith)

xor_digits_self : (n a : ℕ) → a ≤ n → digits (λ y. y) differ n a a ≡ 0
xor_digits_self zero zero h = refl
xor_digits_self zero (suc a) h = absurd (omega arith)
xor_digits_self (suc n) zero h = refl
xor_digits_self (suc n) (suc a) h =
    let halves = xor_digits_self n (suc a / 2) (omega arith) in
    let digit = differ_self (suc a % 2) (omega arith) in omega arith

pub bit_xor-eq_zero : (a b : ℕ) → bit_xor a b ≡ 0 → a ≡ b
bit_xor-eq_zero a b h = xor_digits-eq_zero a a b (omega arith) (sym (bit_xor-bitwise a b) ∙ h)

pub bit_xor_self : (a : ℕ) → bit_xor a a ≡ 0
bit_xor_self a = bit_xor-bitwise a a ∙ xor_digits_self a a (omega arith)

or_digits-eq_zero : (n a b : ℕ) → a ≤ n → digits (λ y. y) max n a b ≡ 0 → (a ≡ 0) × (b ≡ 0)
or_digits-eq_zero zero zero b h e = (refl, e)
or_digits-eq_zero zero (suc a) b h e = absurd (omega arith)
or_digits-eq_zero (suc n) zero b h e = (refl, e)
or_digits-eq_zero (suc n) (suc a) b h e =
    let halves = or_digits-eq_zero n (suc a / 2) (b / 2) (omega arith) (omega arith) in omega arith

pub bit_or-eq_zero : (a b : ℕ) → bit_or a b ≡ 0 → (a ≡ 0) × (b ≡ 0)
bit_or-eq_zero a b h = or_digits-eq_zero a a b (omega arith) (sym (bit_or-bitwise a b) ∙ h)

pub zero-bit_or : (b : ℕ) → bit_or 0 b ≡ b
zero-bit_or b = bit_or-bitwise 0 b
