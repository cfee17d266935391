-- ===== src/Mq/Fifo.antt =====
-- `skynet_mq_pop` and `skynet_mq_push` on a ring that holds the messages `ms`: a FIFO.
use skynet_sy.Common.{
  ℕ, suc, ◌+◌, ◌-◌, ◌*◌, ◌%◌, ◌^◌, ◌≤◌, ◌<◌, ◌≡◌, refl, sym, ◌∙◌, ap, arith, none, some, List, [],
  ◌∷◌, ◌++◌, length, set, replicate, Cell, length-set, length-replicate, length-append,
  get_elem?-set_self, ==_refl, store_lem, ltb, ◌==◌, ==_ne, ==_iff, if◌then◌else◌,
}
use skynet_sy.Common.Ring.{
  Window, step-mod, add-mod-ne, add-mod_self, Window-set, Window-snoc, next_index, distance,
  cells_of, length-cells_of, Window-cells_of,
}
use native.Mathlib.Decide.{dec_lt}
use native.Mathlib.Nat.{mod-add-mod, mod-lt, mod-eq_of_lt, add-zero}
use skynet_sy.Mq.Queue.{
  Message, MessageQueue, mq_create, mq_length, mq_pop, expand_queue, enqueue, overload_loop,
  mq_overload,
}
use skynet_sy.Mq.Expand.{expand_queue_lem}
use skynet_sy.Mq.Ring.{Models, Models-nonempty}
use skynet_sy.Mq.Overload.{overload_loop_lem}

-- On a ring that holds a sequence of messages, the length is that of the sequence.
pub mq_length-eq-length :
    {q : MessageQueue} (ms : List Message) → Models q ms → mq_length q ≡ length ms
unfolding mq_length
mq_length-eq-length {q} ms v =
    rw v.tail_at (ground (arith, distance q.cap q.head (length ms) v.head_in v.room))

-- A fresh queue is empty.
pub mq_create-Models : (handle : ℕ) → Models (mq_create handle) []
unfolding mq_create
mq_create-Models handle = omega arith

-- On an empty ring `skynet_mq_pop` returns 1, takes the queue out of the global queue and resets
-- the threshold.
pub mq_pop_empty :
    {q : MessageQueue}
    → Models q []
    → mq_pop q ≡ some (none, record q { overload_threshold = mq_overload; in_global = 0 })
unfolding mq_pop
mq_pop_empty {q} v =
    let e : q.tail ≡ q.head =
      v.tail_at ∙ ap (λ k. k % q.cap) (add-zero q.head) ∙ mod-eq_of_lt v.head_in in
    rw (e, ==_refl q.head)

-- the index of the head after a pop
abbrev pub after : MessageQueue → ℕ
after q = (q.head + 1) % q.cap

-- the queue that `skynet_mq_pop` leaves behind, by the messages that stay and the new threshold
abbrev pub popped : MessageQueue → ℕ → ℕ → MessageQueue
popped q len t = record q {
  head = after q;
  overload = if ltb q.overload_threshold len then len else q.overload;
  overload_threshold = t;
}

-- The run of `skynet_mq_pop` on a ring that is not empty, up to its loop.
mq_pop_run :
    {q q' : MessageQueue} (m : Message) (ms : List Message)
    → Models q (m ∷ ms)
    → overload_loop (suc (length ms)) (length ms) (record q { head = after q }) ≡ some q'
    → mq_pop q ≡ some (some m, q')
unfolding mq_pop
mq_pop_run {q} m ms v run =
    let n = length ms in
    let gap : (if ltb q.tail (after q) then q.tail + q.cap - after q else q.tail - after q) ≡ n =
      rw (v.tail_at ∙ sym (step-mod q.cap q.head n))
        (distance q.cap (after q) n (omega arith) (omega arith)) in
    rw (Models-nonempty m ms v, v.window.0, next_index q.cap q.head v.head_in, gap) (rw run refl)

-- On a ring that holds a message and then a sequence, a pop succeeds, returns that message, and
-- gives a ring that holds the sequence; the overload threshold reached is not below the number of
-- messages left.
pub mq_pop_lem :
    {q : MessageQueue} (m : Message) (ms : List Message)
    → Models q (m ∷ ms)
    → (t : ℕ) × (mq_pop q ≡ some (some m, popped q (length ms) t))
      × (length ms ≤ t)
      × Models (popped q (length ms) t) ms
mq_pop_lem {q} m ms v =
    let n = length ms in
    let (t, run, reach, pos) =
      overload_loop_lem (suc n) n (record q { head = after q }) v.threshold (omega arith)
        (omega arith) (omega arith) in
    (
      t,
      mq_pop_run m ms v run,
      reach,
      record {
        width = v.width;
        small = v.small;
        head_in = omega arith;
        room = omega arith;
        tail_at = v.tail_at ∙ sym (step-mod q.cap q.head n);
        window = v.window.1;
        threshold = pos;
      },
    )

-- The fields that a push leaves alone.
abbrev pub SameMarks : MessageQueue → MessageQueue → Type 0
SameMarks q q' =
    (q'.handle ≡ q.handle)
    × (q'.release ≡ q.release)
    × (q'.in_global ≡ q.in_global)
    × (q'.overload ≡ q.overload)
    × (q'.overload_threshold ≡ q.overload_threshold)
    × (q'.next ≡ q.next)

module _ {q : MessageQueue} (m : Message) (ms : List Message) (v : Models q ms) where
  tail_in : q.tail < q.cap
  tail_in = rw v.tail_at (mod-lt (q.head + length ms) (omega arith))

  abbrev written : MessageQueue
  written = record q { queue = set q.queue q.tail (some m); tail = (q.tail + 1) % q.cap }

  written-Window : Window written.queue q.cap q.head (ms ++ m ∷ [])
  written-Window =
      Window-snoc _ q.cap q.head q.tail m ms v.head_in v.tail_at
        (get_elem?-set_self q.queue q.tail (some m) (omega (arith, tail_in)))
        (Window-set q.queue q.cap q.head q.tail (some m) ms v.head_in v.tail_at v.room v.window)

  next_tail : (q.tail + 1) % q.cap ≡ (q.head + suc (length ms)) % q.cap
  next_tail =
      rw v.tail_at (mod-add-mod (q.head + length ms) q.cap 1 ∙ ap (λ t. t % q.cap) (omega arith))

  enqueue_step :
      enqueue q m ≡ (if q.head == (q.tail + 1) % q.cap then expand_queue written else some written)
  unfolding enqueue
  enqueue_step =
      simp (
        store_lem q.queue q.tail (some m) (omega (arith, tail_in)),
        next_index q.cap q.tail tail_in,
      )

  enqueue_room :
      suc (length ms) < q.cap → Models written (ms ++ m ∷ []) × (enqueue q m ≡ some written)
  enqueue_room room = (
    record {
      width = length-set q.queue q.tail (some m) ∙ v.width;
      small = v.small;
      head_in = v.head_in;
      room = omega (arith, length-append ms (m ∷ []));
      tail_at =
          next_tail ∙ ap (λ k. (q.head + k) % q.cap) (omega (arith, length-append ms (m ∷ [])));
      window = written-Window;
      threshold = v.threshold;
    },
    enqueue_step
        ∙ rw (
            ==_ne q.head ((q.tail + 1) % q.cap)
              (λ e. add-mod-ne q.cap q.head (length ms) v.head_in room (sym next_tail ∙ sym e))),
  )

  enqueue_full :
      suc (length ms) ≡ q.cap
      → q.cap ≤ 2 ^ 29
      → enqueue q m
        ≡ some (record written {
          head = 0;
          tail = q.cap;
          cap = q.cap * 2;
          queue = cells_of (ms ++ m ∷ []) ++ replicate q.cap none;
        })
  enqueue_full full small =
      let meets : q.head ≡ (q.tail + 1) % q.cap =
        sym
          (next_tail ∙ ap (λ k. (q.head + k) % q.cap) full ∙ add-mod_self q.cap q.head v.head_in) in
      enqueue_step
      ∙ rw ((==_iff q.head ((q.tail + 1) % q.cap)).1 meets) (
          expand_queue_lem written (ms ++ m ∷ []) (omega (arith, length-append ms (m ∷ [])))
            (omega arith) v.head_in written-Window)

  full-Models :
      suc (length ms) ≡ q.cap
      → q.cap ≤ 2 ^ 29
      → Models
          (record written {
            head = 0;
            tail = q.cap;
            cap = q.cap * 2;
            queue = cells_of (ms ++ m ∷ []) ++ replicate q.cap none;
          })
          (ms ++ m ∷ [])
  full-Models full small = record {
    width = omega (
      arith,
      length-append (cells_of (ms ++ m ∷ [])) (replicate q.cap none),
      length-cells_of (ms ++ m ∷ []),
      length-append ms (m ∷ []),
      length-replicate {0} {A = Cell Message} q.cap none,
    );
    small = omega arith;
    head_in = omega arith;
    room = omega (arith, length-append ms (m ∷ []));
    tail_at =
        sym (mod-eq_of_lt {n = q.cap} {m = q.cap * 2} (omega arith))
        ∙ ap (λ k. k % (q.cap * 2)) (omega (arith, length-append ms (m ∷ [])));
    window = rw (mod-eq_of_lt {n = 0} {m = q.cap * 2} (omega arith)) at (
        Window-cells_of (ms ++ m ∷ []) [] (replicate q.cap none) (q.cap * 2)
          (omega (arith, length-append ms (m ∷ []))));
    threshold = v.threshold;
  }

  -- On a ring that holds a sequence of fewer than 2^29 messages, the enqueueing of a message
  -- succeeds and gives a ring that holds the sequence with the message at its end, with the same
  -- marks.
  pub enqueue_lem :
      length ms < 2 ^ 29
      → (q' : MessageQueue) × (enqueue q m ≡ some q') × Models q' (ms ++ m ∷ []) × SameMarks q q'
  enqueue_lem few = elim (dec_lt (suc (length ms)) q.cap) [
    | yes room ↦
        (_, (enqueue_room room).1, (enqueue_room room).0, (refl, refl, refl, refl, refl, refl))
    | no full ↦ (
      _,
      enqueue_full (omega arith) (omega arith),
      full-Models (omega arith) (omega arith),
      (refl, refl, refl, refl, refl, refl),
    )
  ]
