-- ===== src/Mq/Release.antt =====
-- The end of a queue: `skynet_mq_mark_release`, and `skynet_mq_release` with its loop.
use mathlib.Core.Path.{fun_ext}
use skynet_sy.Common.{
  ℕ, zero, suc, ◌<◌, ◌≡◌, ◌≢◌, ap, subst, arith, none, some, List, [], ◌∷◌, ==_refl, length,
}
use skynet_sy.Mq.Queue.{Message, MessageQueue, mq_overload}
use skynet_sy.Mq.Ring.{Models}
use skynet_sy.Mq.Fifo.{mq_pop_lem, mq_pop_empty, popped}
use skynet_sy.Mq.Global.{World, update, put, mq_pop_at, release_queue, drop_queue, mq_release}

-- Two writes at one place.
put-put : (w : World) (p : ℕ) (q r : MessageQueue) → put (put w p q) p r ≡ put w p r
put-put w p q r i = record {
  queues = fun_ext (λ x. twice x) i;
  global_head = w.global_head;
  global_tail = w.global_tail;
}
  where
    twice :
        (x : ℕ) → update (update w.queues p (some q)) p (some r) x ≡ update w.queues p (some r) x
    twice x = ground arith

put_same : (w : World) (p : ℕ) (q : MessageQueue) → w.queues p ≡ some q → put w p q ≡ w
put_same w p q e i = record {
  queues = fun_ext (λ x. same x) i;
  global_head = w.global_head;
  global_tail = w.global_tail;
}
  where
    same : (x : ℕ) → update w.queues p (some q) x ≡ w.queues x
    same x = ground arith

-- the heap without the queue at `p`
abbrev pub freed : World → ℕ → World
freed w p = record w { queues = update w.queues p none }

freed-put : (w : World) (p : ℕ) (q : MessageQueue) → freed (put w p q) p ≡ freed w p
freed-put w p q i = record {
  queues = fun_ext (λ x. gone x) i;
  global_head = w.global_head;
  global_tail = w.global_tail;
}
  where
    gone : (x : ℕ) → update (update w.queues p (some q)) p none x ≡ update w.queues p none x
    gone x = ground arith

release_put :
    (w : World) (p : ℕ) (q : MessageQueue)
    → q.next ≡ none
    → release_queue (put w p q) p ≡ some (freed w p)
unfolding release_queue
release_put w p q n = rw (==_refl p) (simp n (ap some (freed-put w p q)))

module _ (drop_func : Message → World → World) where
  -- `drop_func` on each message, in order
  abbrev pub drop_all : List Message → World → World
  drop_all [] w = w
  drop_all (m ∷ ms) w = drop_all ms (drop_func m w)

  module _ (p : ℕ)
      (apart : (m : Message) (w : World) (q : MessageQueue)
        → w.global_tail ≢ some p
        → drop_func m (put w p q) ≡ put (drop_func m w) p q)
      (away : (m : Message) (w : World)
        → w.global_tail ≢ some p
        → (drop_func m w).global_tail ≢ some p) where
    drop_queue-put :
        (fuel : ℕ) (ms : List Message) (w : World) (q : MessageQueue)
        → Models q ms
        → q.next ≡ none
        → length ms < fuel
        → w.global_tail ≢ some p
        → drop_queue drop_func fuel (put w p q) p ≡ some (freed (drop_all ms w) p)
    unfolding drop_queue mq_pop_at
    drop_queue-put zero ms w q v n l out = elim l [ ]
    drop_queue-put (suc fuel) [] w q v n l out = rw (==_refl p) (
        rw (mq_pop_empty v) rw
          (put-put w p q (record q { in_global = 0; overload_threshold = mq_overload }))
          (release_put w p (record q { in_global = 0; overload_threshold = mq_overload }) n))
    drop_queue-put (suc fuel) (m ∷ ms) w q v n l out =
        let (t, run, _, v') = mq_pop_lem m ms v in
        rw (==_refl p) (
          rw run rw (put-put w p q (popped q (length ms) t), apart m w (popped q (length ms) t) out)
            (drop_queue-put fuel ms (drop_func m w) (popped q (length ms) t) v' n (omega arith)
              (away m w out)))

    -- For a callback that, in a world whose global queue does not end in this queue, does the same
    -- whatever stands in the queue and leaves it alone, and does not make it the end of the global
    -- queue, as a push to another queue does: the release of a marked queue that is not linked and
    -- not the end of the global queue, with more fuel than it has messages, hands every message to
    -- the callback, oldest first, and frees the queue.
    pub mq_release_lem :
        (fuel : ℕ) (ms : List Message) (w : World) (q : MessageQueue)
        → w.queues p ≡ some q
        → Models q ms
        → q.next ≡ none
        → q.release ≡ 1
        → length ms < fuel
        → w.global_tail ≢ some p
        → mq_release drop_func fuel w p ≡ some (freed (drop_all ms w) p)
    unfolding mq_release
    mq_release_lem fuel ms w q e v n marked l out =
        rw (e, marked)
          (subst (λ x. drop_queue drop_func fuel x p ≡ some (freed (drop_all ms w) p))
            (put_same w p q e) (drop_queue-put fuel ms w q v n l out))
