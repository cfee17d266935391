-- ===== src/Mq/Expand.antt =====
-- `expand_queue` copies a full ring into the front of an array of twice the size.
use native.Mathlib.Nat.{mod-eq_of_lt, add-zero}
use skynet_sy.Common.{
  ℕ, ◌+◌, ◌*◌, ◌%◌, ◌^◌, ◌<◌, ◌≡◌, refl, ◌∙◌, ap, arith, subst, none, some, List, [], ◌++◌, length,
  replicate, Cell, ltb, true, lt→ltb,
}
use skynet_sy.Common.Ring.{Window, copy_ring, cells_of, copy_ring_lem}
use skynet_sy.Mq.Queue.{Message, MessageQueue, expand_queue}

copy_full :
    (ms : List Message) (old : List (Cell Message)) (h : ℕ)
    → h < length ms
    → Window old (length ms) h ms
    → copy_ring (length ms) 0 old h (length ms) (replicate (length ms * 2) none)
      ≡ some (cells_of ms ++ replicate (length ms) none)
copy_full ms old h inside w =
    let n = length ms in
    let start : (h + 0) % n ≡ h = ap (λ t. t % n) (add-zero h) ∙ mod-eq_of_lt inside in
    let twice : n * 2 ≡ n + n = omega arith in rw twice (copy_ring_lem ms [] old h n n (rw start w))

-- On a full ring `expand_queue` doubles the capacity and moves the messages to the front, in order.
pub expand_queue_lem :
    (q : MessageQueue) (ms : List Message)
    → length ms ≡ q.cap
    → q.cap < 2 ^ 30
    → q.head < q.cap
    → Window q.queue q.cap q.head ms
    → expand_queue q
      ≡ some (record q {
        head = 0;
        tail = q.cap;
        cap = q.cap * 2;
        queue = cells_of ms ++ replicate q.cap none;
      })
unfolding expand_queue
expand_queue_lem q ms full small inside w =
    let fits : ltb (q.cap * 2) (2 ^ 31) ≡ true = lt→ltb _ _ (omega arith) in
    let run =
      subst
        (λ n.
          q.head < n
          → Window q.queue n q.head ms
          → copy_ring n 0 q.queue q.head n (replicate (n * 2) none)
            ≡ some (cells_of ms ++ replicate n none))
        full (copy_full ms q.queue q.head) inside w in
    rw fits (rw run refl)
