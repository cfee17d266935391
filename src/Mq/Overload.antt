-- ===== src/Mq/Overload.antt =====
-- The loop of `skynet_mq_pop` that doubles the threshold of the overload warning.
use skynet_sy.Common.{
  ℕ, zero, suc, ◌+◌, ◌*◌, ◌^◌, ◌≤◌, ◌<◌, ◌≡◌, refl, arith, some, ltb, true, false, Bool-cases, inl,
  inr, if◌then◌else◌, ltb→lt, Bool, ◌∙◌,
}
use skynet_sy.Mq.Queue.{MessageQueue, overload_loop}

overload_round :
    (fuel len : ℕ) (q : MessageQueue)
    → q.overload_threshold < len
    → len < 2 ^ 30
    → overload_loop (suc fuel) len q
      ≡ overload_loop fuel len
          (record q { overload = len; overload_threshold = q.overload_threshold * 2 })
unfolding overload_loop
overload_round fuel len q h l = ground arith

overload_stop :
    (fuel len : ℕ) (q : MessageQueue)
    → ltb q.overload_threshold len ≡ false
    → overload_loop (suc fuel) len q ≡ some q
unfolding overload_loop
overload_stop fuel len q h = ground arith

-- With fuel above the gap the loop ends, the product never overflows, and the threshold has
-- reached the length.
pub overload_loop_lem :
    (fuel len : ℕ) (q : MessageQueue)
    → 0 < q.overload_threshold
    → 0 < fuel
    → len < fuel + q.overload_threshold
    → len < 2 ^ 30
    → (t : ℕ) × (overload_loop fuel len q
        ≡ some (record q {
          overload = if ltb q.overload_threshold len then len else q.overload;
          overload_threshold = t;
        }))
      × (len ≤ t)
      × (0 < t)
unfolding overload_loop
overload_loop_lem zero len q p nz f l = elim nz [ ]
overload_loop_lem (suc fuel) len q p nz f l = elim (Bool-cases (ltb q.overload_threshold len)) [
  | inl e ↦
      let below : q.overload_threshold < len = ltb→lt _ _ e in
      let (t, run, reach, pos) =
        overload_loop_lem fuel len
          (record q { overload = len; overload_threshold = q.overload_threshold * 2 }) (omega arith)
          (omega arith) (omega arith) l in
      (
        t,
        overload_round fuel len q below l
            ∙ run
            ∙ rw e (same_overload (ltb (q.overload_threshold * 2) len)),
        reach,
        pos,
      )
  | inr e ↦ (q.overload_threshold, overload_stop fuel len q e ∙ rw e refl, ground arith, p)
]
  where
    same_overload :
        (b : Bool) {t : ℕ}
        → some (record q { overload = if b then len else len; overload_threshold = t })
          ≡ some (record q { overload = len; overload_threshold = t })
    same_overload true = refl
    same_overload false = refl
