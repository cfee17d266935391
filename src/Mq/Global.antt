-- ===== src/Mq/Global.antt =====
-- skynet-1.2.0/skynet-src/skynet_mq.c: the global queue, a list linked through the field `next` of
-- the message queues, and the functions that use it. A pointer is a number, and the heap maps it to
-- a queue; `none` there is memory that is not, or no longer, a queue. The calls are sequential: each
-- function holds its spin locks while it works.
use skynet_sy.Common.{
  ℕ, zero, suc, Bool, false, not, ◌||◌, Option, none, some, ◌==◌, if◌then◌else◌, ◌>>=◌, ◌>>◌,
  assert, is_null,
}
use skynet_sy.Mq.Queue.{Message, MessageQueue, mq_in_global, mq_pop, enqueue}

-- The heap of queues, and `struct global_queue`.
pub record World : Type 0 where
  pub queues : ℕ → Option MessageQueue
  pub global_head : Option ℕ
  pub global_tail : Option ℕ

abbrev pub update : (ℕ → Option MessageQueue) → ℕ → Option MessageQueue → ℕ → Option MessageQueue
update f p v x = if x == p then v else f x

-- *p = q
abbrev pub put : World → ℕ → MessageQueue → World
put w p q = record w { queues = update w.queues p (some q) }

-- p == q for pointers that may be null
abbrev pub same_pointer : Option ℕ → ℕ → Bool
same_pointer none p = false
same_pointer (some t) p = t == p

unfoldable pub mq_init : World → World
mq_init w = record w { global_head = none; global_tail = none }

unfoldable pub globalmq_push : World → ℕ → Option World
globalmq_push w p = do
  q ← w.queues p
  assert (is_null q.next)
  elim w.global_tail [
    | some t ↦ w.queues t >>= λ last.
        some (record (put w t (record last { next = some p })) { global_tail = some p })
    | none ↦ some (record w { global_head = some p; global_tail = some p })
  ]

-- The queue taken from the front, if there is one.
unfoldable pub globalmq_pop : World → Option (Option ℕ × World)
globalmq_pop w = elim w.global_head [
  | none ↦ some (none, w)
  | some p ↦ do
    q ← w.queues p
    assert (not (is_null q.next) || same_pointer w.global_tail p)
    let tail = if is_null q.next then none else w.global_tail
    some (
      some p,
      record (put w p (record q { next = none })) { global_head = q.next; global_tail = tail },
    )
]

unfoldable pub mq_push : World → ℕ → Message → Option World
mq_push w p m = do
  q ← w.queues p
  q' ← enqueue q m
  if q'.in_global == 0
      then globalmq_push (put w p (record q' { in_global = mq_in_global })) p
      else some (put w p q')

unfoldable pub mq_pop_at : World → ℕ → Option (Option Message × World)
mq_pop_at w p = do q ← w.queues p; r ← mq_pop q; some (r.0, put w p r.1)

unfoldable pub mq_mark_release : World → ℕ → Option World
mq_mark_release w p = do
  q ← w.queues p
  assert (q.release == 0)
  let q' = record q { release = 1 }
  if not (q'.in_global == mq_in_global) then globalmq_push (put w p q') p else some (put w p q')

-- `_release`: the memory is freed.
unfoldable pub release_queue : World → ℕ → Option World
release_queue w p = do
  q ← w.queues p
  assert (is_null q.next)
  some (record w { queues = update w.queues p none })

-- What `drop_func(&msg, ud)` does is a parameter: it may change the heap and the global queue.
module _ (drop_func : Message → World → World) where
  -- `_drop_queue`, with fuel for its loop
  unfoldable pub drop_queue : ℕ → World → ℕ → Option World
  drop_queue zero w p = none
  drop_queue (suc fuel) w p = mq_pop_at w p >>= λ r. elim r.0 [
    | some m ↦ drop_queue fuel (drop_func m r.1) p
    | none ↦ release_queue r.1 p
  ]

  unfoldable pub mq_release : ℕ → World → ℕ → Option World
  unfolding drop_queue
  mq_release fuel w p = do
    q ← w.queues p
    if not (q.release == 0) then drop_queue fuel w p else globalmq_push w p
