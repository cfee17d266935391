-- ===== src/Timer/Place.antt =====
-- Where the wheel keeps a node, by the blocks of time that its expiry shares with the present.
use Prim.Native.Nat.{bit_or}
use native.Mathlib.Nat.{eq_of_mul-eq-mul_right}
use native.Mathlib.Decide.{ℕ_discrete}
use skynet_sy.Common.{
  ℕ, ◌+◌, ◌-◌, ◌*◌, ◌/◌, ◌%◌, ◌^◌, ◌≤◌, ◌<◌, ◌≡◌, refl, arith, true, not, Option, none, some, ◌==◌,
  if◌then◌else◌, ◌↔◌, ==_refl, ==_ne,
}
use skynet_sy.Common.Bits.{bit_and_mask, bit_or_mask, pow_pos}
use skynet_sy.Timer.Wheel.{Place, near, level, place}

-- The first block that the two times share decides.
abbrev pub block_place : ℕ → ℕ → Place
block_place e c =
    if e / 2 ^ 8 == c / 2 ^ 8
    then near (e % 2 ^ 8)
    else if e / 2 ^ 14 == c / 2 ^ 14
    then level 0 (e / 2 ^ 8 % 2 ^ 6)
    else if e / 2 ^ 20 == c / 2 ^ 20
    then level 1 (e / 2 ^ 14 % 2 ^ 6)
    else if e / 2 ^ 26 == c / 2 ^ 26
    then level 2 (e / 2 ^ 20 % 2 ^ 6)
    else level 3 (e / 2 ^ 26 % 2 ^ 6)

-- x | (2 ^ k - 1) tells the block of 2 ^ k ticks apart.
mask_block : (k a b : ℕ) → (bit_or a (2 ^ k - 1) == bit_or b (2 ^ k - 1)) ≡ (a / 2 ^ k == b / 2 ^ k)
mask_block k a b =
    rw (bit_or_mask k a, bit_or_mask k b)
      (elim (ℕ_discrete (a / 2 ^ k) (b / 2 ^ k)) [
        | yes same ↦ rw (same, ==_refl (b / 2 ^ k)) (==_refl (b / 2 ^ k * 2 ^ k + (2 ^ k - 1)))
        | no apart ↦ rw (==_ne (a / 2 ^ k) (b / 2 ^ k) apart) (
            ==_ne (a / 2 ^ k * 2 ^ k + (2 ^ k - 1)) (b / 2 ^ k * 2 ^ k + (2 ^ k - 1))
              (λ q. apart (cancel q)))
      ])
  where
    cancel :
        a / 2 ^ k * 2 ^ k + (2 ^ k - 1) ≡ b / 2 ^ k * 2 ^ k + (2 ^ k - 1) → a / 2 ^ k ≡ b / 2 ^ k
    cancel q = eq_of_mul-eq-mul_right (2 ^ k) (pow_pos k) (a / 2 ^ k) (b / 2 ^ k) (omega arith)

-- The place that the masks of add_node give is the one that comparing quotients of the two times
-- gives: the first block of 2^8, 2^14, 2^20 or 2^26 ticks that the times share decides.
pub place_lem : (e c : ℕ) → place e c ≡ block_place e c
unfolding place
place_lem e c =
    rw (mask_block 8 e c, mask_block 14 e c, mask_block 20 e c, mask_block 26 e c, bit_and_mask 8 e)
      (ground (
        arith,
        bit_and_mask 6 (e / 2 ^ 8),
        bit_and_mask 6 (e / 2 ^ 14),
        bit_and_mask 6 (e / 2 ^ 20),
        bit_and_mask 6 (e / 2 ^ 26),
      ))

-- The expiry lies ahead of the present; a node of the last level is in another block of 2 ^ 26.
abbrev pub IsAhead : ℕ → ℕ → Type 0
IsAhead c e = e / 2 ^ 26 ≡ c / 2 ^ 26 → c < e

abbrev pub IsDue : ℕ → ℕ → Type 0
IsDue c e = e / 2 ^ 26 ≡ c / 2 ^ 26 → c ≤ e

abbrev pub tick : ℕ → ℕ
tick c = (c + 1) % 2 ^ 32

-- The list that `timer_shift` takes apart at the time `ct`, if any.
abbrev pub moved : ℕ → Option Place
moved ct =
    if ct == 0
    then some (level 3 0)
    else if not (ct % 2 ^ 8 == 0)
    then none
    else if not (ct / 2 ^ 8 % 2 ^ 6 == 0)
    then some (level 0 (ct / 2 ^ 8 % 2 ^ 6))
    else if not (ct / 2 ^ 14 % 2 ^ 6 == 0)
    then some (level 1 (ct / 2 ^ 14 % 2 ^ 6))
    else if not (ct / 2 ^ 20 % 2 ^ 6 == 0)
    then some (level 2 (ct / 2 ^ 20 % 2 ^ 6))
    else some (level 3 (ct / 2 ^ 26 % 2 ^ 6))

-- A node stands in the list of the present tick exactly when it expires now.
pub place-now : (e c : ℕ) → (place e c ≡ near (c % 2 ^ 8)) ↔ (e ≡ c)
place-now e c = rw (place_lem e c) (λ h. ground arith, λ h. ground arith)

pub IsAhead-IsDue : (e c : ℕ) → e < 2 ^ 32 → c < 2 ^ 32 → IsAhead c e → IsDue (tick c) e
IsAhead-IsDue e c he hc h q = elim (ℕ_discrete (e / 2 ^ 26) (c / 2 ^ 26)) [
  | yes same ↦ omega (arith, h same)
  | no apart ↦ omega arith
]

pub ==_zero : (n : ℕ) → n ≡ 0 → (n == 0) ≡ true
==_zero n h = rw h refl
