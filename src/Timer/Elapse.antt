-- ===== src/Timer/Elapse.antt =====
-- `skynet_updatetime`: the updates of a span of time.
use skynet_sy.Common.{
  ℕ, zero, suc, ◌+◌, ◌-◌, ◌%◌, ◌^◌, ◌<◌, ◌≤◌, ◌≡◌, refl, sym, ◌∙◌, ap, subst, arith, true, false,
  some, lt→ltb, List, [], ◌∷◌, ==_ne, ltb,
}
use skynet_sy.Timer.Wheel.{
  Timer, TimerNode, TimerEvent, add_node, link, timer_add, timer_update, update_loop,
  skynet_updatetime,
}
use skynet_sy.Timer.Place.{tick}
use skynet_sy.Timer.Nodes.{All, Member, In}
use skynet_sy.Timer.Update.{IsWheel, Ticked, timer_update_lem, timer_add_lem}

-- Every node dispatched expires at the tick of its update; the first update follows the time `c`.
abbrev pub OnTime : ℕ → List (List TimerNode) → Type 0
OnTime c [] = Unit
OnTime c (sent ∷ rest) = All (λ n. n.expire ≡ tick c) sent × OnTime (tick c) rest

-- The node is among those of the update number `d`, from 0.
abbrev pub SentAt : ℕ → TimerNode → List (List TimerNode) → Type 0
SentAt d n [] = ⊥
SentAt zero n (sent ∷ rest) = Member n sent
SentAt (suc d) n (sent ∷ rest) = SentAt d n rest

pub record Elapsed (k : ℕ) (t t' : Timer) (sent : List (List TimerNode)) : Type 0 where
  pub wheel : IsWheel t'
  pub time : t'.time ≡ (t.time + k) % 2 ^ 32
  pub on_time : OnTime t.time sent
  pub sent_at :
      (d : ℕ) (n : TimerNode)
      → d < k
      → In t n
      → n.expire ≡ (t.time + (d + 1)) % 2 ^ 32
      → SentAt d n sent

update_loop_round :
    (k : ℕ) (t t1 t2 : Timer) (sent : List TimerNode) (rest : List (List TimerNode))
    → timer_update t ≡ some (sent, t1)
    → update_loop k t1 ≡ some (rest, t2)
    → update_loop (suc k) t ≡ some (sent ∷ rest, t2)
unfolding update_loop
update_loop_round k t t1 t2 sent rest a b = rw (update_loop, a, b) refl

Elapsed-suc :
    (k : ℕ) (t t1 t2 : Timer) (sent : List TimerNode) (rest : List (List TimerNode))
    → suc k < 2 ^ 32
    → t.time < 2 ^ 32
    → Ticked t t1 sent
    → Elapsed k t1 t2 rest
    → Elapsed (suc k) t t2 (sent ∷ rest)
Elapsed-suc k t t1 t2 sent rest low fits a b = record {
  wheel = b.wheel;
  time = b.time ∙ ap (λ (x : ℕ). (x + k) % 2 ^ 32) a.time ∙ omega arith;
  on_time = (a.due, subst (λ c. OnTime c rest) a.time b.on_time);
  sent_at = at;
}
  where
    at :
        (d : ℕ) (n : TimerNode)
        → d < suc k
        → In t n
        → n.expire ≡ (t.time + (d + 1)) % 2 ^ 32
        → SentAt d n (sent ∷ rest)
    at zero n h i e = a.sent_all n i e
    at (suc d) n h i e =
        b.sent_at d n (omega (arith, h))
          (a.kept n i (λ q. absurd (omega (arith, e, q, h, low, fits))))
          (e ∙ omega arith ∙ ap (λ (x : ℕ). (x + (d + 1)) % 2 ^ 32) (sym a.time))

-- From a wheel where every node waits in its place, any number of updates below 2^31 succeeds,
-- moves the time by that number, dispatches nodes only at the tick of their expiry, dispatches
-- each node that expires in that span at the update of its expiry, and keeps the wheel in order.
pub update_loop_lem :
    (k : ℕ) (t : Timer)
    → k < 2 ^ 31
    → IsWheel t
    → (sent : List (List TimerNode)) × (t' : Timer) × (update_loop k t ≡ some (sent, t'))
      × Elapsed k t t' sent
unfolding update_loop
update_loop_lem zero t low w = (
  [],
  t,
  refl,
  record {
    wheel = w;
    time = omega (arith, w.time_fits);
    on_time = tt;
    sent_at = λ d n h. absurd (omega (arith, h));
  },
)
update_loop_lem (suc k) t low w =
    let (sent, t1, run, a) = timer_update_lem t w in
    let (rest, t2, run', b) = update_loop_lem k t1 (omega (arith, low)) a.wheel in
    (
      sent ∷ rest,
      t2,
      update_loop_round k t t1 t2 sent rest run run',
      Elapsed-suc k t t1 t2 sent rest (omega (arith, low)) w.time_fits a b,
    )

-- The clock moved to `cp`, before the updates.
abbrev pub at_point : ℕ → Timer → Timer
at_point cp t = record t {
  current_point = cp;
  current = (t.current + (cp - t.current_point) % 2 ^ 32) % 2 ^ 64;
}

updatetime_run :
    (cp : ℕ) (t : Timer)
    → t.current_point < cp
    → cp < t.current_point + 2 ^ 31
    → skynet_updatetime cp t ≡ update_loop ((cp - t.current_point) % 2 ^ 32) (at_point cp t)
unfolding skynet_updatetime
updatetime_run cp t later near =
    rw (skynet_updatetime, test, span, ==_ne cp t.current_point (omega (arith, later))) refl
  where
    test : ltb cp t.current_point ≡ false
    test = ground (arith, later)

    span : ltb ((cp - t.current_point) % 2 ^ 32) (2 ^ 31) ≡ true
    span = lt→ltb _ _ (omega (arith, near))

add_keeps : (t : Timer) (event : TimerEvent) (delay : ℕ) → (timer_add t event delay).time ≡ t.time
unfolding timer_add add_node link
add_keeps t event delay = refl

add_keeps_point :
    (t : Timer) (event : TimerEvent) (delay : ℕ)
    → (timer_add t event delay).current_point ≡ t.current_point
unfolding timer_add add_node link
add_keeps_point t event delay = refl

abbrev pub timeout_node : Timer → TimerEvent → ℕ → TimerNode
timeout_node t event delay = record { expire = (t.time + delay) % 2 ^ 32; event = event }

-- In a wheel where every node waits in its place, a timeout of a positive delay, added and
-- followed by one update of the clock over at least that delay and less than 2^31 ticks, is
-- dispatched by the timer update whose number is the delay; no node is dispatched at another tick
-- than that of its expiry, and the wheel is in order afterwards.
pub timeout_lem :
    (t : Timer) (event : TimerEvent) (delay cp : ℕ)
    → IsWheel t
    → 0 < delay
    → t.current_point + delay ≤ cp
    → cp < t.current_point + 2 ^ 31
    → (sent : List (List TimerNode)) × (t' : Timer) × (skynet_updatetime cp
          (timer_add t event delay)
        ≡ some (sent, t'))
      × SentAt (delay - 1) (timeout_node t event delay) sent
      × OnTime t.time sent
      × IsWheel t'
timeout_lem t event delay cp w pos reached small =
    let added : Timer = timer_add t event delay in
    let (w1, here, old) = timer_add_lem t event delay w pos (omega (arith, reached, small)) in
    let point = add_keeps_point t event delay in
    let time = add_keeps t event delay in
    let (sent, t', run, e) =
      update_loop_lem ((cp - added.current_point) % 2 ^ 32) (at_point cp added)
        (omega (arith, point, small, reached))
        (record { time_fits = w1.time_fits; waiting = w1.waiting }) in
    (
      sent,
      t',
      updatetime_run cp added (omega (arith, point, pos, reached)) (omega (arith, point, small))
          ∙ run,
      e.sent_at (delay - 1) (timeout_node t event delay) (omega (arith, point, pos, reached, small))
          here (omega (arith, time, pos)),
      subst (λ c. OnTime c sent) time e.on_time,
      e.wheel,
    )
