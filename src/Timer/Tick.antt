-- ===== src/Timer/Tick.antt =====
-- A tick of the wheel: what stays where it is, and what the tick must move.
use native.Mathlib.Decide.{ℕ_discrete}
use skynet_sy.Common.{
  ℕ, ◌+◌, ◌/◌, ◌%◌, ◌^◌, ◌<◌, ◌≡◌, ◌≢◌, sym, ◌∙◌, ap, arith, some, ==_ne, ==_iff,
}
use skynet_sy.Timer.Wheel.{near, level, place}
use skynet_sy.Timer.Place.{block_place, place_lem, IsAhead, tick, moved, ==_zero}

-- A tick into a block that `e` is in takes apart the list that `e` stands in.
enters_0 :
    (e c : ℕ)
    → c < 2 ^ 32
    → e < 2 ^ 32
    → c < e
    → e / 2 ^ 8 ≢ c / 2 ^ 8
    → e / 2 ^ 14 ≡ c / 2 ^ 14
    → e / 2 ^ 8 ≡ tick c / 2 ^ 8
    → moved (tick c) ≡ some (level 0 (e / 2 ^ 8 % 2 ^ 6))
enters_0 e c hc he lt a b d =
    let next : tick c ≡ c + 1 = omega arith in
    let whole : tick c % 2 ^ 8 ≡ 0 = omega arith in
    let positive : tick c ≢ 0 = omega arith in
    let inside : tick c / 2 ^ 8 % 2 ^ 6 ≢ 0 = omega arith in
    rw d (
      simp (
        ==_ne (tick c) 0 positive,
        ==_zero (tick c % 2 ^ 8) (omega arith),
        ==_ne (tick c / 2 ^ 8 % 2 ^ 6) 0 inside,
      ))

enters_1 :
    (e c : ℕ)
    → c < 2 ^ 32
    → e < 2 ^ 32
    → c < e
    → e / 2 ^ 14 ≢ c / 2 ^ 14
    → e / 2 ^ 20 ≡ c / 2 ^ 20
    → e / 2 ^ 14 ≡ tick c / 2 ^ 14
    → moved (tick c) ≡ some (level 1 (e / 2 ^ 14 % 2 ^ 6))
enters_1 e c hc he lt a b d =
    let next : tick c ≡ c + 1 = omega arith in
    let whole : tick c % 2 ^ 14 ≡ 0 = omega arith in
    let positive : tick c ≢ 0 = omega arith in
    let inside : tick c / 2 ^ 14 % 2 ^ 6 ≢ 0 = omega arith in
    rw d (
      simp (
        ==_ne (tick c) 0 positive,
        ==_zero (tick c % 2 ^ 8) (omega arith),
        ==_zero (tick c / 2 ^ 8 % 2 ^ 6) (omega arith),
        ==_ne (tick c / 2 ^ 14 % 2 ^ 6) 0 inside,
      ))

enters_2 :
    (e c : ℕ)
    → c < 2 ^ 32
    → e < 2 ^ 32
    → c < e
    → e / 2 ^ 20 ≢ c / 2 ^ 20
    → e / 2 ^ 26 ≡ c / 2 ^ 26
    → e / 2 ^ 20 ≡ tick c / 2 ^ 20
    → moved (tick c) ≡ some (level 2 (e / 2 ^ 20 % 2 ^ 6))
enters_2 e c hc he lt a b d =
    let next : tick c ≡ c + 1 = omega arith in
    let whole : tick c % 2 ^ 20 ≡ 0 = omega arith in
    let positive : tick c ≢ 0 = omega arith in
    let inside : tick c / 2 ^ 20 % 2 ^ 6 ≢ 0 = omega arith in
    rw d (
      simp (
        ==_ne (tick c) 0 positive,
        ==_zero (tick c % 2 ^ 8) (omega arith),
        ==_zero (tick c / 2 ^ 8 % 2 ^ 6) (omega arith),
        ==_zero (tick c / 2 ^ 14 % 2 ^ 6) (omega arith),
        ==_ne (tick c / 2 ^ 20 % 2 ^ 6) 0 inside,
      ))

-- The place by the first block that is shared.
in_block_near : (e c : ℕ) → e / 2 ^ 8 ≡ c / 2 ^ 8 → block_place e c ≡ near (e % 2 ^ 8)
in_block_near e c q = simp ((==_iff (e / 2 ^ 8) (c / 2 ^ 8)).1 q)

in_block_0 :
    (e c : ℕ)
    → e / 2 ^ 8 ≢ c / 2 ^ 8
    → e / 2 ^ 14 ≡ c / 2 ^ 14
    → block_place e c ≡ level 0 (e / 2 ^ 8 % 2 ^ 6)
in_block_0 e c h8 q =
    simp (==_ne (e / 2 ^ 8) (c / 2 ^ 8) h8, (==_iff (e / 2 ^ 14) (c / 2 ^ 14)).1 q)

in_block_1 :
    (e c : ℕ)
    → e / 2 ^ 8 ≢ c / 2 ^ 8
    → e / 2 ^ 14 ≢ c / 2 ^ 14
    → e / 2 ^ 20 ≡ c / 2 ^ 20
    → block_place e c ≡ level 1 (e / 2 ^ 14 % 2 ^ 6)
in_block_1 e c h8 h14 q = simp (
  ==_ne (e / 2 ^ 8) (c / 2 ^ 8) h8,
  ==_ne (e / 2 ^ 14) (c / 2 ^ 14) h14,
  (==_iff (e / 2 ^ 20) (c / 2 ^ 20)).1 q,
)

in_block_2 :
    (e c : ℕ)
    → e / 2 ^ 8 ≢ c / 2 ^ 8
    → e / 2 ^ 14 ≢ c / 2 ^ 14
    → e / 2 ^ 20 ≢ c / 2 ^ 20
    → e / 2 ^ 26 ≡ c / 2 ^ 26
    → block_place e c ≡ level 2 (e / 2 ^ 20 % 2 ^ 6)
in_block_2 e c h8 h14 h20 q = simp (
  ==_ne (e / 2 ^ 8) (c / 2 ^ 8) h8,
  ==_ne (e / 2 ^ 14) (c / 2 ^ 14) h14,
  ==_ne (e / 2 ^ 20) (c / 2 ^ 20) h20,
  (==_iff (e / 2 ^ 26) (c / 2 ^ 26)).1 q,
)

in_block_3 :
    (e c : ℕ)
    → e / 2 ^ 8 ≢ c / 2 ^ 8
    → e / 2 ^ 14 ≢ c / 2 ^ 14
    → e / 2 ^ 20 ≢ c / 2 ^ 20
    → e / 2 ^ 26 ≢ c / 2 ^ 26
    → block_place e c ≡ level 3 (e / 2 ^ 26 % 2 ^ 6)
in_block_3 e c h8 h14 h20 h26 = simp (
  ==_ne (e / 2 ^ 8) (c / 2 ^ 8) h8,
  ==_ne (e / 2 ^ 14) (c / 2 ^ 14) h14,
  ==_ne (e / 2 ^ 20) (c / 2 ^ 20) h20,
  ==_ne (e / 2 ^ 26) (c / 2 ^ 26) h26,
)

-- The last level: its lists are told apart by the top six bits.
enters_3 :
    (e c : ℕ)
    → c < 2 ^ 32
    → e < 2 ^ 32
    → e / 2 ^ 26 ≢ c / 2 ^ 26
    → e / 2 ^ 26 ≡ tick c / 2 ^ 26
    → moved (tick c) ≡ some (level 3 (e / 2 ^ 26 % 2 ^ 6))
enters_3 e c hc he a d = elim (ℕ_discrete (tick c) 0) [
  | yes wrapped ↦
      let top : e / 2 ^ 26 % 2 ^ 6 ≡ 0 = omega arith in rw top (simp (==_zero (tick c) wrapped))
  | no positive ↦
      let next : tick c ≡ c + 1 = omega arith in
      let whole : tick c % 2 ^ 26 ≡ 0 = omega arith in
      rw d (
        simp (
          ==_ne (tick c) 0 positive,
          ==_zero (tick c % 2 ^ 8) (omega arith),
          ==_zero (tick c / 2 ^ 8 % 2 ^ 6) (omega arith),
          ==_zero (tick c / 2 ^ 14 % 2 ^ 6) (omega arith),
          ==_zero (tick c / 2 ^ 20 % 2 ^ 6) (omega arith),
        ))
]

module _ (e c : ℕ) (he : e < 2 ^ 32) (hc : c < 2 ^ 32) where
  -- Below the last level the node is ahead in the numbers.
  stays_near : c < e → e / 2 ^ 8 ≡ c / 2 ^ 8 → block_place e (tick c) ≡ block_place e c
  stays_near lt q = in_block_near e (tick c) (omega arith) ∙ sym (in_block_near e c q)

  stays_0 :
      c < e
      → e / 2 ^ 8 ≢ c / 2 ^ 8
      → e / 2 ^ 14 ≡ c / 2 ^ 14
      → moved (tick c) ≢ some (block_place e c)
      → block_place e (tick c) ≡ block_place e c
  stays_0 lt a q stays =
      in_block_0 e (tick c)
        (λ d. stays (enters_0 e c hc he lt a q d ∙ ap some (sym (in_block_0 e c a q))))
        (omega arith)
      ∙ sym (in_block_0 e c a q)

  stays_1 :
      c < e
      → e / 2 ^ 14 ≢ c / 2 ^ 14
      → e / 2 ^ 20 ≡ c / 2 ^ 20
      → moved (tick c) ≢ some (block_place e c)
      → block_place e (tick c) ≡ block_place e c
  stays_1 lt a q stays =
      let here = in_block_1 e c (omega arith) a q in
      let away = λ (d : e / 2 ^ 14 ≡ tick c / 2 ^ 14).
        stays (enters_1 e c hc he lt a q d ∙ ap some (sym here)) in
      in_block_1 e (tick c) (λ d. away (omega arith)) away (omega arith) ∙ sym here

  stays_2 :
      c < e
      → e / 2 ^ 20 ≢ c / 2 ^ 20
      → e / 2 ^ 26 ≡ c / 2 ^ 26
      → moved (tick c) ≢ some (block_place e c)
      → block_place e (tick c) ≡ block_place e c
  stays_2 lt a q stays =
      let here = in_block_2 e c (omega arith) (omega arith) a q in
      let away = λ (d : e / 2 ^ 20 ≡ tick c / 2 ^ 20).
        stays (enters_2 e c hc he lt a q d ∙ ap some (sym here)) in
      in_block_2 e (tick c) (λ d. away (omega arith)) (λ d. away (omega arith)) away (omega arith)
      ∙ sym here

  stays_3 :
      e / 2 ^ 26 ≢ c / 2 ^ 26
      → moved (tick c) ≢ some (block_place e c)
      → block_place e (tick c) ≡ block_place e c
  stays_3 a stays =
      let here = in_block_3 e c (omega arith) (omega arith) (omega arith) a in
      let away =
        λ (d : e / 2 ^ 26 ≡ tick c / 2 ^ 26). stays (enters_3 e c hc he a d ∙ ap some (sym here)) in
      in_block_3 e (tick c) (λ d. away (omega arith)) (λ d. away (omega arith))
        (λ d. away (omega arith)) away
      ∙ sym here

  block_place-tick :
      IsAhead c e
      → moved (tick c) ≢ some (block_place e c)
      → block_place e (tick c) ≡ block_place e c
  block_place-tick h stays = elim (ℕ_discrete (e / 2 ^ 26) (c / 2 ^ 26)) [
    | no d26 ↦ stays_3 d26 stays
    | yes s26 ↦ elim (ℕ_discrete (e / 2 ^ 20) (c / 2 ^ 20)) [
      | no d20 ↦ stays_2 (h s26) d20 s26 stays
      | yes s20 ↦ elim (ℕ_discrete (e / 2 ^ 14) (c / 2 ^ 14)) [
        | no d14 ↦ stays_1 (h s26) d14 s20 stays
        | yes s14 ↦ elim (ℕ_discrete (e / 2 ^ 8) (c / 2 ^ 8)) [
          | no d8 ↦ stays_0 (h s26) d8 s14 stays
          | yes s8 ↦ stays_near (h s26) s8
        ]
      ]
    ]
  ]

  -- A node that is not in the list taken apart keeps its place over a tick.
  pub place-tick : IsAhead c e → moved (tick c) ≢ some (place e c) → place e (tick c) ≡ place e c
  place-tick h stays =
      place_lem e (tick c)
      ∙ block_place-tick h (λ q. stays (q ∙ ap some (sym (place_lem e c))))
      ∙ sym (place_lem e c)
