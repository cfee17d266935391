-- ===== src/Context/Idle.antt =====
-- `skynet_context_message_dispatch` on a queue that is empty.
use skynet_sy.Common.{ℕ, ◌<◌, ◌≡◌, refl, ◌∙◌, false, Option, some, List, []}
use skynet_sy.Mq.Queue.{Message, MessageQueue}
use skynet_sy.Mq.Global.{World}
use skynet_sy.Mq.Chain.{member, first}
use skynet_sy.Mq.Service.{Running}
use skynet_sy.Mq.Mark.{mq_pop_at_empty}
use skynet_sy.Mq.Rotate.{rest_of, same_flag, take_next_lem}
use skynet_sy.Monitor.{Monitor}
use skynet_sy.Handle.Slots.{handle_find}
use skynet_sy.Context.Server.{Context, Server, handle_of}
use skynet_sy.Context.Worker.{dispatch_loop, dispatch_queue, dispatch_at, message_dispatch}
use skynet_sy.Context.Count.{grabbed_find, release-grabbed}

module _ {S : Type 0} (cb : ℕ → ℕ → ℕ → Message → Server S → Option (Server S))
    (report : ℕ → ℕ → Server S → Option (Server S)) (drop_func : ℕ → Message → World → World) where
  -- In a running world, where a worker holds an empty queue that is not in the global queue and
  -- whose handle finds a live context, the dispatch calls no service and keeps what all queues
  -- hold and the contexts with their counts; it clears the flag in_global of the queue, so that
  -- the next push puts it into the global queue, and gives the first queue that waits, taken out
  -- of the global queue, or none.
  pub message_dispatch_idle :
      {ids : List ℕ} {held : ℕ → List Message} (s : Server S) (sm : Monitor) (weight : Option ℕ)
      (fuel p c : ℕ) (q : MessageQueue) (ctx : Context)
      → Running s.world ids held
      → s.world.queues p ≡ some q
      → member ids p ≡ false
      → held p ≡ []
      → handle_find (handle_of s) s.storage q.handle ≡ some (some c)
      → s.contexts c ≡ some ctx
      → 0 < ctx.ref
      → (w : World) × (message_dispatch cb report drop_func fuel s sm weight (some p)
          ≡ some (first ids, (record s { world = w }, sm)))
        × Running w (rest_of ids) held
        × ((q' : MessageQueue) × (w.queues p ≡ some q') × (q'.in_global ≡ 0))
  unfolding message_dispatch dispatch_at dispatch_queue dispatch_loop
  message_dispatch_idle {ids} s sm weight fuel p c q ctx v at_q taken h found e alive =
      let (w1, popped, running, (q1, e1, cleared)) = mq_pop_at_empty p q v at_q h taken in
      let (w2, next, after, links) = take_next_lem ids running in
      let (q2, e2, flag) = same_flag w1 w2 p q1 links e1 in
      (
        w2,
        rw
            (
              at_q,
              grabbed_find s c ctx e q.handle found,
              at_q,
              popped,
              release-grabbed (record s { world = w1 }) c ctx e alive,
              next,
            )
            refl,
        after,
        (q2, e2, flag ∙ cleared),
      )
