-- ===== src/Mq/Queue.antt =====
-- skynet-1.2.0/skynet-src/skynet_mq.c: `struct message_queue` and what its functions do to the
-- ring of messages. The functions that also touch the global queue call these (`Mq.Global`).
use skynet_sy.Common.{
  ℕ, zero, suc, ◌+◌, ◌-◌, true, false, not, Option, none, some, List, ltb, leb, ◌==◌, if◌then◌else◌,
  replicate, ◌>>=◌, Cell, load, store, mul_int,
}
use skynet_sy.Common.Ring.{copy_ring}

abbrev pub default_queue_size : ℕ
default_queue_size = 64

abbrev pub mq_in_global : ℕ
mq_in_global = 1

abbrev pub mq_overload : ℕ
mq_overload = 1024

-- `struct skynet_message`. The pointer and the numbers are only moved.
pub record Message : Type 0 where
  pub source : ℕ
  pub session : ℕ
  pub message_data : ℕ
  pub sz : ℕ

-- `struct message_queue`, without the spin lock. A pointer to a queue is a number (`Mq.Global`).
pub record MessageQueue : Type 0 where
  pub handle : ℕ
  pub cap : ℕ
  pub head : ℕ
  pub tail : ℕ
  pub release : ℕ
  pub in_global : ℕ
  pub overload : ℕ
  pub overload_threshold : ℕ
  pub queue : List (Cell Message)
  pub next : Option ℕ

unfoldable pub mq_create : ℕ → MessageQueue
mq_create handle = record {
  handle = handle;
  cap = default_queue_size;
  head = 0;
  tail = 0;
  release = 0;
  in_global = mq_in_global;
  overload = 0;
  overload_threshold = mq_overload;
  queue = replicate default_queue_size none;
  next = none;
}

unfoldable pub mq_length : MessageQueue → ℕ
mq_length q = if leb q.head q.tail then q.tail - q.head else q.tail + q.cap - q.head

-- The number returned, and the queue with the mark cleared.
unfoldable pub mq_overload_take : MessageQueue → ℕ × MessageQueue
mq_overload_take q =
    if not (q.overload == 0) then (q.overload, record q { overload = 0 }) else (0, q)

-- while (length > q->overload_threshold) { … }, on fuel
unfoldable pub overload_loop : ℕ → ℕ → MessageQueue → Option MessageQueue
overload_loop zero len q = none
overload_loop (suc fuel) len q = elim (ltb q.overload_threshold len) [
  | true ↦ mul_int q.overload_threshold 2 >>= λ t.
      overload_loop fuel len (record q { overload = len; overload_threshold = t })
  | false ↦ some q
]

-- `some m` is the result 0 with `*message` = m, `none` the result 1.
-- `head` and `len` are the locals of the C function; `cap` is added where `tail - head` is negative.
unfoldable pub mq_pop : MessageQueue → Option (Option Message × MessageQueue)
mq_pop q =
    if not (q.head == q.tail)
    then (do
      m ← load q.queue q.head
      let head = if leb q.cap (q.head + 1) then 0 else q.head + 1
      let len = if ltb q.tail head then q.tail + q.cap - head else q.tail - head
      q' ← overload_loop (suc len) len (record q { head = head })
      some (some m, q'))
    else some (none, record q { overload_threshold = mq_overload; in_global = 0 })

unfoldable pub expand_queue : MessageQueue → Option MessageQueue
unfolding copy_ring
expand_queue q = do
  cap2 ← mul_int q.cap 2
  new ← copy_ring q.cap 0 q.queue q.head q.cap (replicate cap2 none)
  some (record q { head = 0; tail = q.cap; cap = cap2; queue = new })

-- `skynet_mq_push` up to the test of `in_global`
unfoldable pub enqueue : MessageQueue → Message → Option MessageQueue
unfolding expand_queue
enqueue q m = do
  cells ← store q.queue q.tail (some m)
  let tail = if leb q.cap (q.tail + 1) then 0 else q.tail + 1
  let q' = record q { queue = cells; tail = tail }
  if q'.head == q'.tail then expand_queue q' else some q'
