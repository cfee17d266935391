-- ===== src/HashId/Fresh.antt =====
-- `hashid_init`: an empty map.
use native.Mathlib.Decide.{dec_lt}
use skynet_sy.Common.{
  ℕ, zero, suc, ◌+◌, ◌-◌, ◌*◌, ◌^◌, ◌<◌, ◌≤◌, ◌≡◌, ◌≢◌, refl, sym, arith, Option, none, some, [],
  get_elem?, replicate, length-replicate, lt→ltb, le→ltb_false,
}
use skynet_sy.HashId.Table.{HashId, hashid_init, hashcap_loop}
use skynet_sy.HashId.Slots.{used}
use skynet_sy.HashId.Map.{IsMap}

-- No node of a fresh array is used.
pub fresh_free : (k n x : ℕ) → get_elem? (replicate {A = Option ℕ} k none) n ≢ some (some x)
fresh_free zero n x e = cc e
fresh_free (suc k) zero x e = cc e
fresh_free (suc k) (suc n) x e = fresh_free k n x e

used_fresh : (k : ℕ) → used (replicate k none) ≡ 0
used_fresh zero = refl
used_fresh (suc k) = used_fresh k

pub fresh-IsMap :
    (last cap : ℕ)
    → IsMap
        (record { hashmod = last; cap = cap; count = 0; id = replicate cap none; hash = λ h. [] })
fresh-IsMap last cap = record {
  width = length-replicate cap none;
  filed = λ n x e. absurd (fresh_free cap n x e);
  sound = λ b n h. cc h;
  distinct = λ b. tt;
  unique = λ n m x e e'. absurd (fresh_free cap n x e);
  counted = sym (used_fresh cap);
}

-- The loop of `hashid_init` ends below 2 ^ 31.
hashcap_loop_lem :
    (fuel hashcap max : ℕ)
    → 0 < fuel
    → 0 < hashcap
    → max < hashcap + fuel
    → max ≤ 2 ^ 29
    → (c : ℕ) × (hashcap_loop fuel hashcap max ≡ some c)
unfolding hashcap_loop
hashcap_loop_lem zero hashcap max some_fuel pos l small = absurd (omega (arith, some_fuel))
hashcap_loop_lem (suc fuel) hashcap max some_fuel pos l small = elim (dec_lt hashcap max) [
  | yes below ↦
      let (c, run) =
        hashcap_loop_lem fuel (hashcap * 2) max (omega (arith, below, l)) (omega (arith, pos))
          (omega (arith, pos, l)) small in
      (
        c,
        rw
            (
              hashcap_loop,
              lt→ltb hashcap max below,
              lt→ltb (hashcap * 2) (2 ^ 31) (omega (arith, below, small)),
            )
            run,
      )
  | no above ↦ (hashcap, rw (hashcap_loop, le→ltb_false hashcap max (omega (arith, above))) refl)
]

pub hashid_init-IsMap :
    (max : ℕ)
    → max ≤ 2 ^ 29
    → (hi : HashId) × (hashid_init max ≡ some hi) × IsMap hi × (hi.cap ≡ max) × (hi.count ≡ 0)
unfolding hashid_init
hashid_init-IsMap max small =
    let (c, run) =
      hashcap_loop_lem (suc max) 16 max (omega arith) (omega arith) (omega arith) small in
    (
      record { hashmod = c - 1; cap = max; count = 0; id = replicate max none; hash = λ h. [] },
      rw run refl,
      fresh-IsMap (c - 1) max,
      refl,
      refl,
    )
