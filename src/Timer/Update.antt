-- ===== src/Timer/Update.antt =====
-- `timer_update` and `timer_add`: a node is dispatched at the tick at which it expires, and not before.
use mathlib.Core.Option.{some-injective}
use skynet_sy.Common.{
  ℕ, ◌+◌, ◌/◌, ◌%◌, ◌^◌, ◌<◌, ◌≤◌, ◌≡◌, ◌≢◌, refl, sym, ◌∙◌, ap, subst, arith, Option, none, some,
  List, [], ◌∷◌, ◌++◌, Bool-cases, inl, inr,
}
use skynet_sy.Common.Bits.{bit_and_mask}
use skynet_sy.Timer.Wheel.{
  Place, near, Timer, TimerNode, TimerEvent, same_place, set_list, link_clear, add_node, place,
  timer_add, timer_execute, timer_shift, timer_update,
}
use skynet_sy.Timer.Place.{IsAhead, IsDue, tick, moved, place-now, IsAhead-IsDue}
use skynet_sy.Timer.Tick.{place-tick}
use skynet_sy.Timer.Nodes.{
  All, Member, All-map, All-member, Everywhere, In, set_list-Everywhere, add_node-Everywhere,
  add_nodes-Everywhere, time-add_nodes, add_nodes-In_old, add_nodes-In_new, same_place_eq,
  add_node-In_new, add_node-In_old,
}
use skynet_sy.Timer.Shift.{relink_if, timer_shift_lem}

-- A node stands where its expiry belongs, which is at time `c` still to come, or due.
abbrev pub Waits : ℕ → Place → TimerNode → Type 0
Waits c s n = (n.expire < 2 ^ 32) × (place n.expire c ≡ s) × IsAhead c n.expire

abbrev pub Due : ℕ → Place → TimerNode → Type 0
Due c s n = (n.expire < 2 ^ 32) × (place n.expire c ≡ s) × IsDue c n.expire

-- Between updates every node waits in its place.
pub record IsWheel (t : Timer) : Type 0 where
  pub time_fits : t.time < 2 ^ 32
  pub waiting : Everywhere (Waits t.time) t

abbrev pub now_place : ℕ → Place
now_place c = near (c % 2 ^ 8)

execute_lem :
    (t : Timer) → timer_execute t ≡ (t.lists (now_place t.time), set_list t (now_place t.time) [])
unfolding timer_execute link_clear
execute_lem t = rw (bit_and_mask 8 t.time) refl

execute_at :
    (t : Timer) (c : ℕ)
    → t.time ≡ c
    → timer_execute t ≡ (t.lists (now_place c), set_list t (now_place c) [])
execute_at t c e = execute_lem t ∙ ap (λ x. (t.lists (now_place x), set_list t (now_place x) [])) e

-- An update, from what its steps give.
update_steps :
    (t t1 t2 t3 : Timer) (early late : List TimerNode)
    → timer_execute t ≡ (early, t1)
    → timer_shift t1 ≡ some t2
    → timer_execute t2 ≡ (late, t3)
    → timer_update t ≡ some (early ++ late, t3)
unfolding timer_update
update_steps t t1 t2 t3 early late a b c =
    rw (timer_update, a, b, c) (ap (λ p. some (p.0 ++ late, t3)) a)

-- No node expires at the present, so the list of the present tick is empty.
nothing_now : (c : ℕ) (ns : List TimerNode) → All (Waits c (now_place c)) ns → ns ≡ []
nothing_now c [] a = refl
nothing_now c (n ∷ ns) a =
    let (_, at_now, ahead) = a.0 in
    let now : n.expire ≡ c = (place-now n.expire c).0 at_now in
    absurd (omega (arith, ahead (ap (λ e. e / 2 ^ 26) now)))

-- A tick: the nodes that stay keep their places.
stay :
    (c : ℕ) (s : Place) (n : TimerNode)
    → c < 2 ^ 32
    → moved (tick c) ≢ some s
    → Waits c s n
    → Due (tick c) s n
stay c s n hc apart (fits, here, ahead) = (
  fits,
  place-tick n.expire c fits hc ahead (λ q. apart (q ∙ ap some here)) ∙ here,
  IsAhead-IsDue n.expire c fits hc ahead,
)

-- After the shift every node is due in its place.
relink-Due :
    (t : Timer) (o : Option Place)
    → t.time < 2 ^ 32
    → Everywhere (Waits t.time) t
    → moved (tick t.time) ≡ o
    → Everywhere (Due (tick t.time)) (relink_if (record t { time = tick t.time }) o)
relink-Due t none low w m = λ s.
    All-map (Waits t.time s) (Due (tick t.time) s) (t.lists s)
      (λ n. stay t.time s n low (λ q. cc (sym m ∙ q))) (w s)
relink-Due t (some p) low w m =
    add_nodes-Everywhere (Due (tick t.time)) (set_list (record t { time = tick t.time }) p [])
      (t.lists p)
      (All-map (Waits t.time p) _ (t.lists p)
        (λ n h. (h.0, refl, IsAhead-IsDue n.expire t.time h.0 low h.2)) (w p))
      (set_list-Everywhere (Due (tick t.time)) (record t { time = tick t.time }) p [] tt
        (λ s other.
          All-map (Waits t.time s) (Due (tick t.time) s) (t.lists s)
            (λ n. stay t.time s n low (λ q. other (some-injective _ _ (sym q ∙ m)))) (w s)))

relink-In : (t : Timer) (o : Option Place) (n : TimerNode) → In t n → In (relink_if t o) n
relink-In t none n h = h
relink-In t (some p) n (s, m) = elim (Bool-cases (same_place s p)) [
  | inl same ↦
      add_nodes-In_new (set_list t p []) (t.lists p) n
        (subst (λ z. Member n (t.lists z)) (same_place_eq s p same) m)
  | inr other ↦ add_nodes-In_old (set_list t p []) (t.lists p) n (s, rw other m)
]

time-relink : (t : Timer) (o : Option Place) → (relink_if t o).time ≡ t.time
time-relink t none = refl
time-relink t (some p) = time-add_nodes (set_list t p []) (t.lists p)

-- The addition of a timeout with a delay from 1 to 2^31 - 1 keeps every node of a wheel in the
-- wheel and the wheel in order, each node in its place, and puts a node that expires after the
-- delay into it.
pub timer_add_lem :
    (t : Timer) (event : TimerEvent) (delay : ℕ)
    → IsWheel t
    → 0 < delay
    → delay < 2 ^ 31
    → IsWheel (timer_add t event delay)
      × In (timer_add t event delay) (record { expire = (t.time + delay) % 2 ^ 32; event = event })
      × ((m : TimerNode) → In t m → In (timer_add t event delay) m)
unfolding timer_add
timer_add_lem t event delay w pos small =
    let n : TimerNode = record { expire = (delay + t.time) % 2 ^ 32; event = event } in
    (
      record {
        time_fits = w.time_fits;
        waiting =
            add_node-Everywhere (Waits t.time) t n (omega arith, refl, λ q. later q) w.waiting;
      },
      subst (λ (e : ℕ). In (add_node t n) (record { expire = e % 2 ^ 32; event = event }))
          (omega arith) (add_node-In_new t n),
      add_node-In_old t n,
    )
  where
    later :
        (delay + t.time) % 2 ^ 32 / 2 ^ 26 ≡ t.time / 2 ^ 26 → t.time < (delay + t.time) % 2 ^ 32
    later q = omega (arith, w.time_fits)

-- The nodes that leave the wheel at a tick: those that expire at the new time, and no others.
pub record Ticked (t t' : Timer) (sent : List TimerNode) : Type 0 where
  pub time : t'.time ≡ tick t.time
  pub wheel : IsWheel t'
  pub due : All (λ n. n.expire ≡ tick t.time) sent
  pub sent_all : (n : TimerNode) → In t n → n.expire ≡ tick t.time → Member n sent
  pub kept : (n : TimerNode) → In t n → n.expire ≢ tick t.time → In t' n

-- A node that is due, outside the list of the present, is still to come.
Due-Waits : (c : ℕ) (s : Place) (n : TimerNode) → s ≢ now_place c → Due c s n → Waits c s n
Due-Waits c s n other (fits, here, due) =
    (fits, here, λ q. strict (due q) (λ e. other (sym here ∙ (place-now n.expire c).1 e)))
  where
    strict : c ≤ n.expire → n.expire ≢ c → c < n.expire
    strict le ne = omega (arith, le, ne)

-- The list in which a node that is due stands, at the tick at which it expires and otherwise.
Due-now : (c : ℕ) (s : Place) (n : TimerNode) → Due c s n → n.expire ≡ c → s ≡ now_place c
Due-now c s n d now = sym d.1 ∙ (place-now n.expire c).1 now

Due-not_now : (c : ℕ) (s : Place) (n : TimerNode) → Due c s n → s ≡ now_place c → n.expire ≡ c
Due-not_now c s n d here = (place-now n.expire c).0 (d.1 ∙ here)

module _ (t : Timer) (w : IsWheel t) where
  abbrev cleared : Timer
  cleared = set_list t (now_place t.time) []

  abbrev shifted : Timer
  shifted = relink_if (record cleared { time = tick t.time }) (moved (tick t.time))

  abbrev sent_now : List TimerNode
  sent_now = shifted.lists (now_place (tick t.time))

  abbrev after : Timer
  after = set_list shifted (now_place (tick t.time)) []

  cleared-waiting : Everywhere (Waits t.time) cleared
  cleared-waiting =
      set_list-Everywhere (Waits t.time) t (now_place t.time) [] tt (λ s other. w.waiting s)

  shifted-Due : Everywhere (Due (tick t.time)) shifted
  shifted-Due = relink-Due cleared (moved (tick t.time)) w.time_fits cleared-waiting refl

  shifted-In : (n : TimerNode) → In t n → In shifted n
  shifted-In n (s, m) =
      relink-In (record cleared { time = tick t.time }) (moved (tick t.time)) n
        (
          s,
          elim (Bool-cases (same_place s (now_place t.time))) [
            | inl same ↦ absurd (
                none_now
                  (subst (λ z. Member n (t.lists z)) (same_place_eq s (now_place t.time) same) m))
            | inr other ↦ rw other m
          ],
        )
    where
      none_now : Member n (t.lists (now_place t.time)) → ⊥
      none_now m = subst (Member n) (nothing_now t.time _ (w.waiting (now_place t.time))) m

  late_time : shifted.time ≡ tick t.time
  late_time = time-relink (record cleared { time = tick t.time }) (moved (tick t.time))

  update_run : timer_update t ≡ some (sent_now, after)
  update_run =
      update_steps t cleared shifted after (t.lists (now_place t.time)) sent_now (execute_lem t)
        (timer_shift_lem cleared w.time_fits) (execute_at shifted (tick t.time) late_time)
      ∙ ap (λ l. some (l ++ sent_now, after)) (nothing_now t.time _ (w.waiting (now_place t.time)))

  after-waiting : Everywhere (Waits (tick t.time)) after
  after-waiting =
      set_list-Everywhere (Waits (tick t.time)) shifted (now_place (tick t.time)) [] tt (λ s other.
        All-map (Due (tick t.time) s) (Waits (tick t.time) s) (shifted.lists s)
          (λ n. Due-Waits (tick t.time) s n other) (shifted-Due s))

  sent-In : (n : TimerNode) → In shifted n → n.expire ≡ tick t.time → Member n sent_now
  sent-In n (s, m) now =
      subst (λ z. Member n (shifted.lists z))
        (Due-now (tick t.time) s n (All-member _ (shifted.lists s) n (shifted-Due s) m) now) m

  kept-In : (n : TimerNode) → In shifted n → n.expire ≢ tick t.time → In after n
  kept-In n (s, m) other = (
    s,
    elim (Bool-cases (same_place s (now_place (tick t.time)))) [
      | inl same ↦ absurd (
          other (
            Due-not_now (tick t.time) s n (All-member _ (shifted.lists s) n (shifted-Due s) m)
              (same_place_eq s _ same)))
      | inr apart ↦ rw apart m
    ],
  )

  -- In a wheel where every node waits in its place, an update succeeds, moves the time by one
  -- tick, dispatches exactly the nodes that expire at the new time, and keeps all the others, each
  -- waiting in its place.
  pub timer_update_lem :
      (sent : List TimerNode) × (t' : Timer) × (timer_update t ≡ some (sent, t')) × Ticked t t' sent
  timer_update_lem = (
    sent_now,
    after,
    update_run,
    record {
      time = late_time;
      wheel = record {
        time_fits = subst (λ (c : ℕ). c < 2 ^ 32) (sym late_time) (omega arith);
        waiting = subst (λ c. Everywhere (Waits c) after) (sym late_time) after-waiting;
      };
      due =
          All-map (Due (tick t.time) (now_place (tick t.time))) (λ n. n.expire ≡ tick t.time)
            sent_now (λ n d. (place-now n.expire (tick t.time)).0 d.1)
            (shifted-Due (now_place (tick t.time)));
      sent_all = λ n i. sent-In n (shifted-In n i);
      kept = λ n i. kept-In n (shifted-In n i);
    },
  )
