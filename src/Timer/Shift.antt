-- ===== src/Timer/Shift.antt =====
-- `timer_shift` takes apart one list at most: that of the block that the new time enters.
use native.Mathlib.Decide.{ℕ_discrete}
use skynet_sy.Common.{
  ℕ, suc, ◌+◌, ◌*◌, ◌/◌, ◌%◌, ◌^◌, ◌<◌, ◌≡◌, ◌≢◌, ◌∙◌, ap, arith, Option, none, some, [], ==_ne,
}
use skynet_sy.Common.Bits.{bit_and_mask}
use skynet_sy.Timer.Wheel.{
  Place, level, Timer, set_list, add_nodes, move_list, shift_loop, timer_shift,
}
use skynet_sy.Timer.Place.{tick, moved, ==_zero}

-- The nodes of the list `s` linked anew.
abbrev pub relink : Timer → Place → Timer
relink t s = add_nodes (set_list t s []) (t.lists s)

abbrev pub relink_if : Timer → Option Place → Timer
relink_if t none = t
relink_if t (some s) = relink t s

-- The rounds of the loop, with the tests read as arithmetic.
shift_stop :
    (fuel : ℕ) (t : Timer) (ct k time i : ℕ)
    → ct % 2 ^ k ≢ 0
    → shift_loop (suc fuel) t ct (2 ^ k) time i ≡ some t
unfolding shift_loop
shift_stop fuel t ct k time i h = simp (bit_and_mask k ct, ==_ne (ct % 2 ^ k) 0 h)

shift_move :
    (fuel : ℕ) (t : Timer) (ct k time i : ℕ)
    → ct % 2 ^ k ≡ 0
    → time % 2 ^ 6 ≢ 0
    → shift_loop (suc fuel) t ct (2 ^ k) time i ≡ some (relink t (level i (time % 2 ^ 6)))
unfolding shift_loop move_list
shift_move fuel t ct k time i z h =
    simp (bit_and_mask k ct, bit_and_mask 6 time, ==_zero (ct % 2 ^ k) z, ==_ne (time % 2 ^ 6) 0 h)

shift_on :
    (fuel : ℕ) (t : Timer) (ct k time i : ℕ)
    → ct % 2 ^ k ≡ 0
    → time % 2 ^ 6 ≡ 0
    → shift_loop (suc fuel) t ct (2 ^ k) time i
      ≡ shift_loop fuel t ct (2 ^ k * 2 ^ 6) (time / 2 ^ 6) (i + 1)
unfolding shift_loop
shift_on fuel t ct k time i z h =
    simp (bit_and_mask k ct, bit_and_mask 6 time, ==_zero (ct % 2 ^ k) z, ==_zero (time % 2 ^ 6) h)

module _ (t : Timer) (ct : ℕ) (low : ct < 2 ^ 32) (positive : ct ≢ 0) where
  from_26 :
      ct % 2 ^ 26 ≡ 0 → shift_loop 1 t ct (2 ^ 26) (ct / 2 ^ 26) 3 ≡ some (relink_if t (moved ct))
  from_26 z =
      shift_move 0 t ct 26 (ct / 2 ^ 26) 3 z (omega arith)
      ∙ simp (
        ==_ne ct 0 positive,
        ==_zero (ct % 2 ^ 8) (omega arith),
        ==_zero (ct / 2 ^ 8 % 2 ^ 6) (omega arith),
        ==_zero (ct / 2 ^ 14 % 2 ^ 6) (omega arith),
        ==_zero (ct / 2 ^ 20 % 2 ^ 6) (omega arith),
      )

  from_20 :
      ct % 2 ^ 20 ≡ 0 → shift_loop 2 t ct (2 ^ 20) (ct / 2 ^ 20) 2 ≡ some (relink_if t (moved ct))
  from_20 z = elim (ℕ_discrete (ct / 2 ^ 20 % 2 ^ 6) 0) [
    | no d ↦
        shift_move 1 t ct 20 (ct / 2 ^ 20) 2 z d
        ∙ simp (
          ==_ne ct 0 positive,
          ==_zero (ct % 2 ^ 8) (omega arith),
          ==_zero (ct / 2 ^ 8 % 2 ^ 6) (omega arith),
          ==_zero (ct / 2 ^ 14 % 2 ^ 6) (omega arith),
          ==_ne (ct / 2 ^ 20 % 2 ^ 6) 0 d,
        )
    | yes e ↦
        shift_on 1 t ct 20 (ct / 2 ^ 20) 2 z e
        ∙ ap (λ x. shift_loop 1 t ct (2 ^ 26) x 3) (omega arith)
        ∙ from_26 (omega arith)
  ]

  from_14 :
      ct % 2 ^ 14 ≡ 0 → shift_loop 3 t ct (2 ^ 14) (ct / 2 ^ 14) 1 ≡ some (relink_if t (moved ct))
  from_14 z = elim (ℕ_discrete (ct / 2 ^ 14 % 2 ^ 6) 0) [
    | no d ↦
        shift_move 2 t ct 14 (ct / 2 ^ 14) 1 z d
        ∙ simp (
          ==_ne ct 0 positive,
          ==_zero (ct % 2 ^ 8) (omega arith),
          ==_zero (ct / 2 ^ 8 % 2 ^ 6) (omega arith),
          ==_ne (ct / 2 ^ 14 % 2 ^ 6) 0 d,
        )
    | yes e ↦
        shift_on 2 t ct 14 (ct / 2 ^ 14) 1 z e
        ∙ ap (λ x. shift_loop 2 t ct (2 ^ 20) x 2) (omega arith)
        ∙ from_20 (omega arith)
  ]

  loop_lem : shift_loop 4 t ct (2 ^ 8) (ct / 2 ^ 8) 0 ≡ some (relink_if t (moved ct))
  loop_lem = elim (ℕ_discrete (ct % 2 ^ 8) 0) [
    | no d8 ↦
        shift_stop 3 t ct 8 (ct / 2 ^ 8) 0 d8 ∙ simp (==_ne ct 0 positive, ==_ne (ct % 2 ^ 8) 0 d8)
    | yes z8 ↦ elim (ℕ_discrete (ct / 2 ^ 8 % 2 ^ 6) 0) [
      | no d14 ↦
          shift_move 3 t ct 8 (ct / 2 ^ 8) 0 z8 d14
          ∙ simp (==_ne ct 0 positive, ==_zero (ct % 2 ^ 8) z8, ==_ne (ct / 2 ^ 8 % 2 ^ 6) 0 d14)
      | yes z14 ↦
          shift_on 3 t ct 8 (ct / 2 ^ 8) 0 z8 z14
          ∙ ap (λ x. shift_loop 3 t ct (2 ^ 14) x 1) (omega arith)
          ∙ from_14 (omega arith)
    ]
  ]

-- For a time below 2^32, the shift ends within four levels, moves the time by one tick, and takes
-- apart the one list, if any, of the block of time that begins.
pub timer_shift_lem :
    (t : Timer)
    → t.time < 2 ^ 32
    → timer_shift t ≡ some (relink_if (record t { time = tick t.time }) (moved (tick t.time)))
unfolding timer_shift
timer_shift_lem t low = elim (ℕ_discrete (tick t.time) 0) [
  | yes zero ↦ simp (==_zero (tick t.time) zero)
  | no positive ↦ rw (==_ne (tick t.time) 0 positive) (
      loop_lem (record t { time = tick t.time }) (tick t.time) (omega arith) positive
      ∙ ap (λ o. some (relink_if (record t { time = tick t.time }) o))
          (simp (==_ne (tick t.time) 0 positive)))
]
