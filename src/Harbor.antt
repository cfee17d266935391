-- ===== src/Harbor.antt =====
-- skynet-1.2.0/skynet-src/skynet_harbor.c: which handles belong to another node. The functions that
-- hold on to the context of the harbor service are not here.
mod Examples
use Prim.Native.Nat.{bit_and}
use native.Mathlib.Nat.{pow-suc, div-div-eq-div-mul}
use native.Mathlib.Decide.{ℕ_discrete}
use skynet_sy.Common.{
  ℕ, zero, suc, ◌+◌, ◌-◌, ◌*◌, ◌/◌, ◌%◌, ◌^◌, ◌<◌, ◌≡◌, ◌≢◌, refl, sym, ◌∙◌, ap, arith, Bool, true,
  false, not, ◌&&◌, Option, none, some, ◌==◌, if◌then◌else◌, ◌>>◌, assert, ==_refl, ==_ne,
}
use skynet_sy.Common.Bits.{bit_and_mask, bit_and_digit}
use skynet_sy.Handle.Slots.{handle_mask, handle_remote_shift}

-- (unsigned int)harbor << HANDLE_REMOTE_SHIFT
unfoldable pub harbor_init : ℕ → ℕ
harbor_init harbor = harbor * 2 ^ handle_remote_shift % 2 ^ 32

-- `own` is HARBOR, ~0 before `skynet_harbor_init`
unfoldable pub harbor_message_isremote : ℕ → ℕ → Option Bool
harbor_message_isremote own handle =
    let h = bit_and handle (2 ^ 32 - 1 - handle_mask) in
    assert (not (own == 2 ^ 32 - 1)) >> some (not (h == own) && not (h == 0))

double : (a p : ℕ) → a * (p * 2) ≡ a * p * 2
double a p = omega arith

scale : (a k : ℕ) → a * 2 ^ suc k ≡ a * 2 ^ k * 2
scale a k = ap (λ p. a * p) (pow-suc 2 k) ∙ double a (2 ^ k)

-- A mask of `j` ones above `k` zeros.
bit_and_high : (k j x : ℕ) → bit_and x ((2 ^ j - 1) * 2 ^ k) ≡ x / 2 ^ k % 2 ^ j * 2 ^ k
bit_and_high zero j x = ap (bit_and x) (omega arith) ∙ bit_and_mask j x ∙ whole
  where
    one : x ≡ x / 1
    one = omega arith

    whole : x % 2 ^ j ≡ x / 1 % 2 ^ j * 1
    whole = ap (λ t. t % 2 ^ j) one ∙ omega arith
bit_and_high (suc k) j x =
    let m = (2 ^ j - 1) * 2 ^ k in
    let twice : (2 ^ j - 1) * 2 ^ suc k ≡ m * 2 = scale (2 ^ j - 1) k in
    let half : m * 2 / 2 ≡ m = omega arith in
    let even : m * 2 % 2 ≡ 0 = omega arith in
    let high : x / 2 ^ suc k ≡ x / 2 / 2 ^ k =
      ap (λ t. x / t) (omega (arith, pow-suc 2 k)) ∙ sym (div-div-eq-div-mul x 2 (2 ^ k)) in
    rw (twice, high)
      (bit_and_digit x (m * 2)
        ∙ rw (half, even, bit_and_high k j (x / 2))
            (omega arith ∙ sym (scale (x / 2 / 2 ^ k % 2 ^ j) k)))

-- On a node with an id below 256, a handle of 8 bits of harbor and 24 local bits passes the assert
-- and is remote exactly if its harbor is neither the id of the node nor 0.
pub harbor_message_isremote_lem :
    (own harbor local : ℕ)
    → own < 256
    → harbor < 256
    → local < 2 ^ 24
    → harbor_message_isremote (harbor_init own) (harbor * 2 ^ 24 + local)
      ≡ some (not (harbor == own) && not (harbor == 0))
unfolding harbor_message_isremote harbor_init
harbor_message_isremote_lem own harbor local a b c =
    let high : bit_and (harbor * 2 ^ 24 + local) 4278190080 ≡ harbor * 2 ^ 24 =
      bit_and_high 24 8 (harbor * 2 ^ 24 + local) ∙ omega (arith, b, c) in
    let mine : own * 2 ^ 24 % 2 ^ 32 ≡ own * 2 ^ 24 = omega (arith, a) in
    rw (high, mine) (ground (arith, a, b))
