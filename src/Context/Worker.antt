-- ===== src/Context/Worker.antt =====
-- skynet-1.2.0/skynet-src/skynet_server.c: what a worker does with a queue. The callbacks of the
-- services, the log that hears of an overload and `drop_message` are parameters: any changes of the
-- state. `weight` is none where it is negative.
use skynet_sy.Common.{
  ℕ, zero, suc, ◌+◌, ◌/◌, ◌%◌, ◌^◌, Bool, true, false, Option, none, some, ◌==◌, ltb, if◌then◌else◌,
  ◌>>=◌, ◌>>◌, assert,
}
use skynet_sy.Mq.Queue.{Message, MessageQueue, mq_length, mq_overload_take}
use skynet_sy.Mq.Global.{World, put, globalmq_push, globalmq_pop, mq_pop_at, mq_release}
use skynet_sy.Monitor.{Monitor, monitor_trigger}
use skynet_sy.Context.Server.{Server, put_context, context_release, handle_grab}

abbrev pub message_type_shift : ℕ
message_type_shift = 56

module _ {S : Type 0} (cb : ℕ → ℕ → ℕ → Message → Server S → Option (Server S))
    (report : ℕ → ℕ → Server S → Option (Server S)) (drop_func : ℕ → Message → World → World) where
  unfoldable pub dispatch_message : Server S → ℕ → Message → Option (Server S)
  dispatch_message s c m = do
    ctx ← s.contexts c
    assert ctx.init
    cb c (m.sz / 2 ^ message_type_shift) (m.sz % 2 ^ message_type_shift) m
        (put_context s c (some (record ctx { message_count = ctx.message_count + 1 })))

  -- `skynet_mq_overload`, and the report of it
  unfoldable pub note_overload : Server S → ℕ → ℕ → Option (Server S)
  note_overload s c p = do
    q ← s.world.queues p
    let taken = mq_overload_take q
    let s' = record s { world = put s.world p taken.1 }
    if taken.0 == 0 then some s' else report c taken.0 s'

  -- the rest of a round, for the message popped
  unfoldable pub serve : Server S → Monitor → ℕ → ℕ → ℕ → Message → Option (Server S × Monitor)
  serve s sm c handle p m = do
    s1 ← note_overload s c p
    ctx ← s1.contexts c
    s2 ← if ctx.cb then dispatch_message s1 c m else some s1
    some (s2, monitor_trigger (monitor_trigger sm m.source handle) 0 0)

  -- n = skynet_mq_length(q) >> weight, in the round 0
  abbrev pub rounds : Option ℕ → ℕ → ℕ → MessageQueue → ℕ
  rounds none i n q = n
  rounds (some weight) i n q = if i == 0 then mq_length q / 2 ^ weight else n

  -- for (i=0;i<n;i++), on fuel: whether the queue was found empty, and the state
  unfoldable pub dispatch_loop :
      ℕ → Option ℕ → ℕ → ℕ → Server S → Monitor → ℕ → ℕ → ℕ → Option (Bool × (Server S × Monitor))
  dispatch_loop zero weight i n s sm c handle p = none
  dispatch_loop (suc fuel) weight i n s sm c handle p =
      let round = mq_pop_at s.world p >>= λ r.
      elim r.0 as (λ _. Option (Bool × (Server S × Monitor))) [
        | none ↦ some (true, (record s { world = r.1 }, sm))
        | some m ↦ do
          q ← r.1.queues p
          next ← serve (record s { world = r.1 }) sm c handle p m
          dispatch_loop fuel weight (i + 1) (rounds weight i n q) next.0 next.1 c handle p
      ] in
      if ltb i n then round else some (false, (s, sm))

  -- skynet_globalmq_pop()
  abbrev pub next_queue : Server S → Monitor → Option (Option ℕ × (Server S × Monitor))
  next_queue s sm = globalmq_pop s.world >>= λ r. some (r.0, (record s { world = r.1 }, sm))

  -- After the loop: the queue goes back if another waits.
  unfoldable pub hand_over : Server S → Monitor → ℕ → ℕ → Option (Option ℕ × (Server S × Monitor))
  hand_over s sm c p = do
    ctx ← s.contexts c
    assert (p == ctx.queue)
    nq ← globalmq_pop s.world
    elim nq.0 as (λ _. Option (Option ℕ × (Server S × Monitor))) [
      | none ↦ context_release (record s { world = nq.1 }) c >>= λ released.
          some (some p, (released.1, sm))
      | some x ↦ do
        w ← globalmq_push nq.1 p
        released ← context_release (record s { world = w }) c
        some (some x, (released.1, sm))
    ]

  -- The queue `p` of a context that is there.
  unfoldable pub dispatch_queue :
      Server S → Monitor → Option ℕ → ℕ → ℕ → ℕ → Option (Option ℕ × (Server S × Monitor))
  dispatch_queue s sm weight c handle p = do
    q ← s.world.queues p
    r ← dispatch_loop (suc (suc (mq_length q))) weight 0 1 s sm c handle p
    if r.0
        then (context_release r.1.0 c >>= λ released. next_queue released.1 r.1.1)
        else hand_over r.1.0 r.1.1 c p

  -- `fuel` is for the messages that `skynet_mq_release` drops.
  unfoldable pub dispatch_at :
      ℕ → Server S → Monitor → Option ℕ → ℕ → Option (Option ℕ × (Server S × Monitor))
  dispatch_at fuel s sm weight p = do
    q ← s.world.queues p
    r ← handle_grab s q.handle
    elim r.0 as (λ _. Option (Option ℕ × (Server S × Monitor))) [
      | none ↦ mq_release (drop_func q.handle) fuel r.1.world p >>= λ w.
          next_queue (record r.1 { world = w }) sm
      | some c ↦ dispatch_queue r.1 sm weight c q.handle p
    ]

  -- The queue for the next call, if there is one.
  unfoldable pub message_dispatch :
      ℕ → Server S → Monitor → Option ℕ → Option ℕ → Option (Option ℕ × (Server S × Monitor))
  message_dispatch fuel s sm weight (some p) = dispatch_at fuel s sm weight p
  message_dispatch fuel s sm weight none = globalmq_pop s.world >>= λ r.
      elim r.0 as (λ _. Option (Option ℕ × (Server S × Monitor))) [
        | none ↦ some (none, (record s { world = r.1 }, sm))
        | some p ↦ dispatch_at fuel (record s { world = r.1 }) sm weight p
      ]
