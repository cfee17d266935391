-- ===== src/Mq/Ring.antt =====
-- The ring of `struct message_queue` holds a sequence of messages, oldest first.
use skynet_sy.Common.{
  ◌+◌, ◌%◌, ◌^◌, ◌≤◌, ◌<◌, ◌≡◌, refl, sym, ◌∙◌, List, [], ◌∷◌, length, true, false, ◌==◌, ==_ne,
  ==_iff,
}
use skynet_sy.Common.Ring.{Window, add-mod-ne}
use skynet_sy.Mq.Queue.{Message, MessageQueue}

-- What `struct message_queue` keeps true between calls: `ms` are the messages of the ring.
pub record Models (q : MessageQueue) (ms : List Message) : Type 0 where
  pub width : length q.queue ≡ q.cap
  pub small : q.cap ≤ 2 ^ 30
  pub head_in : q.head < q.cap
  pub room : length ms < q.cap
  pub tail_at : q.tail ≡ (q.head + length ms) % q.cap
  pub window : Window q.queue q.cap q.head ms
  pub threshold : 0 < q.overload_threshold

-- Equal indices mean an empty ring, and no others do.
pub Models-empty :
    {q : MessageQueue} (ms : List Message) → Models q ms → (q.head == q.tail) ≡ true → ms ≡ []
Models-empty [] v h = refl
Models-empty {q} (m ∷ ms) v h =
    absurd (
      add-mod-ne q.cap q.head (length ms) v.head_in v.room (sym v.tail_at ∙ sym ((==_iff _ _).0 h)))

pub Models-nonempty :
    {q : MessageQueue} (m : Message) (ms : List Message)
    → Models q (m ∷ ms)
    → (q.head == q.tail) ≡ false
Models-nonempty {q} m ms v =
    ==_ne _ _ (λ e. add-mod-ne q.cap q.head (length ms) v.head_in v.room (sym v.tail_at ∙ sym e))
