-- ===== src/Timer/Wheel.antt =====
-- skynet-1.2.0/skynet-src/skynet_timer.c: `struct timer` and its functions. The spin lock is held by
-- each function; what other threads do while `timer_execute` has released it is not modelled.
use Prim.Native.Nat.{bit_and, bit_or}
use skynet_sy.Common.{
  ℕ, zero, suc, ◌+◌, ◌-◌, ◌*◌, ◌/◌, ◌%◌, ◌^◌, Bool, false, not, ◌&&◌, Option, none, some, List, [],
  ◌∷◌, ◌++◌, ◌==◌, if◌then◌else◌, ◌>>=◌, ◌>>◌, assert, ltb,
}

abbrev pub time_near_shift : ℕ
time_near_shift = 8

abbrev pub time_near : ℕ
time_near = 2 ^ time_near_shift

abbrev pub time_level_shift : ℕ
time_level_shift = 6

abbrev pub time_level : ℕ
time_level = 2 ^ time_level_shift

abbrev pub time_near_mask : ℕ
time_near_mask = time_near - 1

abbrev pub time_level_mask : ℕ
time_level_mask = time_level - 1

-- `struct timer_event`
pub record TimerEvent : Type 0 where
  pub handle : ℕ
  pub session : ℕ

-- `struct timer_node` with the event that follows it in memory
pub record TimerNode : Type 0 where
  pub expire : ℕ
  pub event : TimerEvent

-- A place of `near` or of `t`. A `struct link_list` is the list of its nodes, in order.
pub data Place : Type 0 where
  near : ℕ → Place
  level : ℕ → ℕ → Place

abbrev pub same_place : Place → Place → Bool
same_place (near a) (near b) = a == b
same_place (near a) (level i b) = false
same_place (level i a) (near b) = false
same_place (level i a) (level j b) = i == j && a == b

-- `struct timer`: `lists` are the arrays `near` and `t`.
pub record Timer : Type 0 where
  pub lists : Place → List TimerNode
  pub time : ℕ
  pub starttime : ℕ
  pub current : ℕ
  pub current_point : ℕ

-- The list at `s` replaced.
abbrev pub set_list : Timer → Place → List TimerNode → Timer
set_list t s nodes = record t { lists = λ x. if same_place x s then nodes else t.lists x }

-- The nodes of the list, and the timer with the list cleared.
unfoldable pub link_clear : Timer → Place → List TimerNode × Timer
link_clear t s = (t.lists s, set_list t s [])

unfoldable pub link : Timer → Place → TimerNode → Timer
link t s node = set_list t s (t.lists s ++ node ∷ [])

-- for (i = 0; i < 3; i++): `n` rounds are left
abbrev pub level_loop : ℕ → ℕ → ℕ → ℕ → ℕ → ℕ
level_loop zero i mask time current_time = i
level_loop (suc n) i mask time current_time =
    let rest = level_loop n (i + 1) (mask * 2 ^ time_level_shift) time current_time in
    if bit_or time (mask - 1) == bit_or current_time (mask - 1) then i else rest

-- where `add_node` links a node
unfoldable pub place : ℕ → ℕ → Place
place time current_time =
    if bit_or time time_near_mask == bit_or current_time time_near_mask
    then near (bit_and time time_near_mask)
    else let i = level_loop 3 0 (time_near * 2 ^ time_level_shift) time current_time in
      level i (bit_and (time / 2 ^ (time_near_shift + i * time_level_shift)) time_level_mask)

unfoldable pub add_node : Timer → TimerNode → Timer
unfolding place link
add_node t node = link t (place node.expire t.time) node

-- `time` is a positive `int`, added as an unsigned number.
unfoldable pub timer_add : Timer → TimerEvent → ℕ → Timer
unfolding add_node
timer_add t event time = add_node t (record { expire = (time + t.time) % 2 ^ 32; event = event })

-- while (current) { … add_node(T, current); … }
unfoldable pub add_nodes : Timer → List TimerNode → Timer
unfolding add_node
add_nodes t [] = t
add_nodes t (node ∷ nodes) = add_nodes (add_node t node) nodes

unfoldable pub move_list : Timer → ℕ → ℕ → Timer
unfolding link_clear add_nodes
move_list t i idx = let (nodes, t') = link_clear t (level i idx) in add_nodes t' nodes

-- while ((ct & (mask - 1)) == 0) { … }, with fuel for its rounds; `none` is a fifth level
unfoldable pub shift_loop : ℕ → Timer → ℕ → ℕ → ℕ → ℕ → Option Timer
unfolding move_list
shift_loop zero t ct mask time i = none
shift_loop (suc fuel) t ct mask time i =
    let moved = some (move_list t i (bit_and time time_level_mask)) in
    let rest =
      shift_loop fuel t ct (mask * 2 ^ time_level_shift) (time / 2 ^ time_level_shift) (i + 1) in
    if bit_and ct (mask - 1) == 0
    then (if not (bit_and time time_level_mask == 0) then moved else rest)
    else some t

unfoldable pub timer_shift : Timer → Option Timer
unfolding shift_loop
timer_shift t =
    let ct = (t.time + 1) % 2 ^ 32 in
    let t' = record t { time = ct } in
    if ct == 0
    then some (move_list t' 3 0)
    else shift_loop 4 t' ct time_near (ct / 2 ^ time_near_shift) 0

-- while (T->near[idx].head.next) { … }: the nodes that `dispatch_list` gets, in order. The list is
-- empty after one round.
unfoldable pub timer_execute : Timer → List TimerNode × Timer
unfolding link_clear
timer_execute t = link_clear t (near (bit_and t.time time_near_mask))

-- the nodes dispatched, in order, and the timer
unfoldable pub timer_update : Timer → Option (List TimerNode × Timer)
timer_update t =
    let (early, t1) = timer_execute t in
    elim (timer_shift t1) [
      | none ↦ none
      | some t2 ↦ let (late, t3) = timer_execute t2 in some (early ++ late, t3)
    ]

unfoldable pub timer_create_timer : Timer
timer_create_timer = record {
  lists = λ s. [];
  time = 0;
  starttime = 0;
  current = 0;
  current_point = 0;
}

-- for (i = 0; i < diff; i++) { timer_update(TI); }: the nodes dispatched, by update. The `int` i
-- overflows unless `diff` is below 2 ^ 31, which `skynet_updatetime` tests.
unfoldable pub update_loop : ℕ → Timer → Option (List (List TimerNode) × Timer)
update_loop zero t = some ([], t)
update_loop (suc n) t = do
  (sent, t1) ← timer_update t
  (rest, t2) ← update_loop n t1
  some (sent ∷ rest, t2)

-- `cp` is what `gettime` gives.
unfoldable pub skynet_updatetime : ℕ → Timer → Option (List (List TimerNode) × Timer)
unfolding update_loop
skynet_updatetime cp t =
    let diff = (cp - t.current_point) % 2 ^ 32 in
    let later =
      assert (ltb diff (2 ^ 31))
      >> update_loop diff
          (record t { current_point = cp; current = (t.current + diff) % 2 ^ 64 }) in
    if ltb cp t.current_point
    then some ([], record t { current_point = cp })
    else if not (cp == t.current_point)
    then later
    else some ([], t)
