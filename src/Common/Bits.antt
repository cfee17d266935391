-- ===== src/Common/Bits.antt =====
-- The laws of `&` and `|` with masks 2 ^ k - 1 and shifted words: the C code's `x & (n - 1)` is
-- `x % n`, and `|` of words that share no bit is their sum.
use Prim.Native.Nat.{bit_and, bit_or, digits, bit_and-bitwise, bit_or-bitwise, min, max}
use native.Mathlib.Nat.{div-div-eq-div-mul, pow-suc, mod-eq_of_lt, mul-add-mod_self_left}
use skynet_sy.Common.{
  ℕ, zero, suc, ◌+◌, ◌-◌, ◌*◌, ◌/◌, ◌%◌, ◌^◌, ◌≤◌, ◌<◌, ◌≡◌, refl, sym, ◌∙◌, ap, arith,
}

-- The fuel of the digit recursion does not matter where it is enough.
digits_fuel :
    (left : ℕ → ℕ) (op : ℕ → ℕ → ℕ) (n m a b : ℕ)
    → a ≤ n
    → a ≤ m
    → digits left op n a b ≡ digits left op m a b
digits_fuel left op zero zero a b p q = refl
digits_fuel left op zero (suc m) zero b p q = refl
digits_fuel left op zero (suc m) (suc a) b p q = absurd (omega arith)
digits_fuel left op (suc n) zero zero b p q = refl
digits_fuel left op (suc n) zero (suc a) b p q = absurd (omega arith)
digits_fuel left op (suc n) (suc m) zero b p q = refl
digits_fuel left op (suc n) (suc m) (suc a) b p q =
    ap (λ t. t * 2 + op (suc a % 2) (b % 2))
      (digits_fuel left op n m (suc a / 2) (b / 2) (omega arith) (omega arith))

bit_and_zero : (b : ℕ) → bit_and 0 b ≡ 0
bit_and_zero b = bit_and-bitwise 0 b

bit_or_zero : (b : ℕ) → bit_or 0 b ≡ b
bit_or_zero b = bit_or-bitwise 0 b

pub bit_and_digit : (a b : ℕ) → bit_and a b ≡ bit_and (a / 2) (b / 2) * 2 + min (a % 2) (b % 2)
bit_and_digit zero b = omega (arith, bit_and_zero b, bit_and_zero (b / 2))
bit_and_digit (suc a) b =
    bit_and-bitwise (suc a) b
    ∙ ap (λ t. t * 2 + min (suc a % 2) (b % 2))
        (digits_fuel (λ t. 0) min a (suc a / 2) (suc a / 2) (b / 2) (omega arith) (omega arith)
          ∙ sym (bit_and-bitwise (suc a / 2) (b / 2)))

pub bit_or_digit : (a b : ℕ) → bit_or a b ≡ bit_or (a / 2) (b / 2) * 2 + max (a % 2) (b % 2)
bit_or_digit zero b = omega (arith, bit_or_zero b, bit_or_zero (b / 2))
bit_or_digit (suc a) b =
    bit_or-bitwise (suc a) b
    ∙ ap (λ t. t * 2 + max (suc a % 2) (b % 2))
        (digits_fuel (λ t. t) max a (suc a / 2) (suc a / 2) (b / 2) (omega arith) (omega arith)
          ∙ sym (bit_or-bitwise (suc a / 2) (b / 2)))

pub pow_pos : (k : ℕ) → 0 < 2 ^ k
pow_pos zero = omega arith
pow_pos (suc k) = omega (arith, pow-suc 2 k, pow_pos k)

mod_double : (x n : ℕ) → 0 < n → x % (n * 2) ≡ (x / 2 % n) * 2 + x % 2
mod_double x n h =
    let r = x / 2 % n * 2 + x % 2 in
    ap (λ t. t % (n * 2)) (omega arith)
    ∙ mul-add-mod_self_left (n * 2) (x / 2 / n) r
    ∙ mod-eq_of_lt {n = r} {m = n * 2} (omega arith)

digits-min_zero : (n a : ℕ) → digits (λ t. 0) min n a 0 ≡ 0
digits-min_zero zero a = refl
digits-min_zero (suc n) zero = refl
digits-min_zero (suc n) (suc a) = omega (arith, digits-min_zero n (suc a / 2))

-- x & (2 ^ k - 1) is x % 2 ^ k
pub bit_and_mask : (k x : ℕ) → bit_and x (2 ^ k - 1) ≡ x % 2 ^ k
bit_and_mask zero x = bit_and-bitwise x 0 ∙ digits-min_zero x x ∙ omega arith
bit_and_mask (suc k) x =
    let n = 2 ^ k in
    let half : (n * 2 - 1) / 2 ≡ n - 1 = omega (arith, pow_pos k) in
    let odd : (n * 2 - 1) % 2 ≡ 1 = omega (arith, pow_pos k) in
    rw (pow-suc 2 k) (
      bit_and_digit x (n * 2 - 1)
      ∙ rw (half, odd, bit_and_mask k (x / 2), mod_double x n (pow_pos k)) (omega arith))

-- (a * 2 ^ k) | b is the sum, for b below 2 ^ k
pub bit_or_shifted : (k a b : ℕ) → b < 2 ^ k → bit_or b (a * 2 ^ k) ≡ a * 2 ^ k + b
bit_or_shifted zero a b h = let e : b ≡ 0 = omega arith in rw e (bit_or_zero (a * 1) ∙ omega arith)
bit_or_shifted (suc k) a b h =
    let below : b / 2 < 2 ^ k = omega (arith, pow-suc 2 k) in
    let half : a * (2 ^ k * 2) / 2 ≡ a * 2 ^ k = omega arith in
    let even : a * (2 ^ k * 2) % 2 ≡ 0 = omega arith in
    rw (pow-suc 2 k) (
      bit_or_digit b (a * (2 ^ k * 2))
      ∙ rw (half, even, bit_or_shifted k a (b / 2) below) (omega arith))

digits-max_zero : (n a : ℕ) → a ≤ n → digits (λ t. t) max n a 0 ≡ a
digits-max_zero zero a h = omega arith
digits-max_zero (suc n) zero h = refl
digits-max_zero (suc n) (suc a) h = omega (arith, digits-max_zero n (suc a / 2) (omega arith))

-- x | (2 ^ k - 1) keeps the bits from k on.
pub bit_or_mask : (k x : ℕ) → bit_or x (2 ^ k - 1) ≡ x / 2 ^ k * 2 ^ k + (2 ^ k - 1)
bit_or_mask zero x = bit_or-bitwise x 0 ∙ digits-max_zero x x (omega arith) ∙ omega arith
bit_or_mask (suc k) x =
    let n = 2 ^ k in
    let half : (n * 2 - 1) / 2 ≡ n - 1 = omega (arith, pow_pos k) in
    let odd : (n * 2 - 1) % 2 ≡ 1 = omega (arith, pow_pos k) in
    let high : x / (n * 2) ≡ x / 2 / n =
      ap (λ t. x / t) (omega arith) ∙ sym (div-div-eq-div-mul x 2 n) in
    rw (pow-suc 2 k) (
      bit_or_digit x (n * 2 - 1)
      ∙ rw (half, odd, bit_or_mask k (x / 2), high) (omega (arith, pow_pos k)))

bit_or_comm_up_to : (n a b : ℕ) → a + b ≤ n → bit_or a b ≡ bit_or b a
bit_or_comm_up_to zero a b h =
    let a0 : a ≡ 0 = omega (arith, h) in let b0 : b ≡ 0 = omega (arith, h) in rw (a0, b0) refl
bit_or_comm_up_to (suc n) zero zero h = refl
bit_or_comm_up_to (suc n) (suc a) b h =
    bit_or_digit (suc a) b
    ∙ omega (arith, bit_or_comm_up_to n (suc a / 2) (b / 2) (omega (arith, h)))
    ∙ sym (bit_or_digit b (suc a))
bit_or_comm_up_to (suc n) zero (suc b) h =
    bit_or_digit 0 (suc b)
    ∙ omega (arith, bit_or_comm_up_to n 0 (suc b / 2) (omega (arith, h)))
    ∙ sym (bit_or_digit (suc b) 0)

pub bit_or_comm : (a b : ℕ) → bit_or a b ≡ bit_or b a
bit_or_comm a b = bit_or_comm_up_to (a + b) a b (omega arith)
