-- ===== src/Mq/Examples.antt =====
-- Runs of the message queue on concrete inputs, and the theorems at such inputs.
use skynet_sy.Common.{
  ◌*◌, ◌^◌, ℕ, ◌≤◌, ◌≡◌, refl, arith, none, some, List, [], ◌∷◌, ◌==◌, if◌then◌else◌,
}
use skynet_sy.Mq.Queue.{Message, MessageQueue, mq_pop, enqueue, overload_loop}
use skynet_sy.Mq.Ring.{Models}
use skynet_sy.Mq.Global.{World, put, globalmq_push, globalmq_pop, mq_push, mq_pop_at, mq_release}
use skynet_sy.Mq.Fair.{Linked, SameQueues, globalmq_push_lem, globalmq_pop_lem}
use skynet_sy.Mq.Service.{Running, Keeps, of_Keeps, put_cases, push_at, mq_push_lem}
use skynet_sy.Mq.Fifo.{popped}
use skynet_sy.Mq.Mark.{set_at, mq_pop_at_lem}
use skynet_sy.Mq.Apart.{push_into, push_into-put, push_into-away}
use skynet_sy.Mq.Release.{drop_all, freed, mq_release_lem}

abbrev hello : Message
hello = record { source = 1; session = 5; message_data = 100; sz = 3 }

abbrev bye : Message
bye = record { source = 2; session = 6; message_data = 200; sz = 4 }

-- a ring of two cells that holds `hello`, at the end of the array
abbrev one_waiting : MessageQueue
one_waiting = record {
  handle = 9;
  cap = 2;
  head = 1;
  tail = 0;
  release = 0;
  in_global = 1;
  overload = 0;
  overload_threshold = 1024;
  queue = none ∷ some hello ∷ [];
  next = none;
}

one_waiting-Models : Models one_waiting (hello ∷ [])
one_waiting-Models = record {
  width = refl;
  small = omega arith;
  head_in = omega arith;
  room = omega arith;
  tail_at = refl;
  window = (refl, tt);
  threshold = omega arith;
}

abbrev idle_queue : MessageQueue
idle_queue = record one_waiting { head = 0; in_global = 0; queue = none ∷ none ∷ [] }

idle_queue-Models : Models idle_queue []
idle_queue-Models = record {
  width = refl;
  small = omega arith;
  head_in = omega arith;
  room = omega arith;
  tail_at = refl;
  window = tt;
  threshold = omega arith;
}

-- The second message fills the ring, which doubles.
push_expands :
    enqueue one_waiting bye
    ≡ some (record one_waiting {
      cap = 4;
      head = 0;
      tail = 2;
      queue = some hello ∷ some bye ∷ none ∷ none ∷ [];
    })
unfolding enqueue
push_expands = refl

pop_wraps : mq_pop one_waiting ≡ some (some hello, record one_waiting { head = 0 })
unfolding mq_pop overload_loop
pop_wraps = refl

overload_doubles :
    overload_loop 5 5000 one_waiting
    ≡ some (record one_waiting { overload = 5000; overload_threshold = 8192 })
unfolding overload_loop
overload_doubles = refl

abbrev nowhere : World
nowhere = record { queues = λ x. none; global_head = none; global_tail = none }

abbrev nothing : ℕ → List Message
nothing x = []

-- one queue, at 7
abbrev alone : MessageQueue → World
alone q = put nowhere 7 q

abbrev holding : List Message → ℕ → List Message
holding ms x = if x == 7 then ms else []

alone-Linked : (q : MessageQueue) → q.next ≡ none → Linked (alone q) []
alone-Linked q n = record {
  at_front = refl;
  at_back = refl;
  distinct = tt;
  live = λ x h. cc;
  links = put_cases (λ x y. y.next ≡ none) nowhere 7 q n (λ x y ne e. cc);
}

alone-Running :
    (q : MessageQueue) (ms : List Message)
    → q.next ≡ none
    → Models q ms
    → q.in_global ≤ 1
    → Running (alone q) [] (holding ms)
alone-Running q ms n v g =
    of_Keeps (alone-Linked q n)
      (put_cases (Keeps (holding ms) []) nowhere 7 q (v, g, λ r h. cc) (λ x y ne e. cc))

one-Running : Running (alone one_waiting) [] (holding (hello ∷ []))
one-Running = alone-Running one_waiting (hello ∷ []) refl one_waiting-Models (omega arith)

idle-Running : Running (alone idle_queue) [] (holding [])
idle-Running = alone-Running idle_queue [] refl idle_queue-Models (omega arith)

mq_push_lem_example :
    (w' : World) × (mq_push (alone idle_queue) 7 bye ≡ some w')
    × Running w' (7 ∷ []) (push_at (holding []) 7 bye)
mq_push_lem_example = mq_push_lem 7 idle_queue idle-Running refl bye refl (omega arith)

mq_pop_at_lem_example :
    (t : ℕ) × (mq_pop_at (alone one_waiting) 7
      ≡ some (some hello, put (alone one_waiting) 7 (popped one_waiting 0 t)))
    × (0 ≤ t)
    × Running
        (put (alone one_waiting) 7 (popped one_waiting 0 t))
        []
        (set_at (holding (hello ∷ [])) 7 [])
mq_pop_at_lem_example = mq_pop_at_lem 7 one_waiting one-Running refl hello [] refl

-- a `drop_func` that answers each message with an error to the queue 9
abbrev answer : Message → World → World
answer m w = push_into 9 (record m { message_data = 0; sz = 7 * 2 ^ 56 }) w

-- the queue 7 marked, and the queue 9 that waits for nothing
abbrev leaving : World
leaving = put (alone (record one_waiting { release = 1 })) 9 (record idle_queue { handle = 9 })

mq_release_lem_example :
    mq_release answer 2 leaving 7 ≡ some (freed (drop_all answer (hello ∷ []) leaving) 7)
mq_release_lem_example =
    mq_release_lem answer 7
      (λ m w q.
        push_into-put 7 9 (λ e. omega (arith, e)) (record m { message_data = 0; sz = 7 * 2 ^ 56 }) w
          q)
      (λ m w.
        push_into-away 7 9 (λ e. omega (arith, e)) idle_queue
          (record m { message_data = 0; sz = 7 * 2 ^ 56 }) w)
      2 (hello ∷ []) leaving (record one_waiting { release = 1 }) refl
      (record {
        width = refl;
        small = omega arith;
        head_in = omega arith;
        room = omega arith;
        tail_at = refl;
        window = (refl, tt);
        threshold = omega arith;
      })
      refl refl (omega arith) (λ e. cc)

globalmq_push_lem_example :
    (w' : World) × (globalmq_push (alone one_waiting) 7 ≡ some w')
    × Linked w' (7 ∷ [])
    × SameQueues (alone one_waiting) w'
globalmq_push_lem_example =
    globalmq_push_lem [] 7 one_waiting (alone-Linked one_waiting refl) refl refl

-- 7 alone in the global queue
abbrev listed : World
listed = record (alone one_waiting) { global_head = some 7; global_tail = some 7 }

listed-Linked : Linked listed (7 ∷ [])
listed-Linked = record {
  at_front = refl;
  at_back = refl;
  distinct = (refl, tt);
  live = λ x h. ground arith;
  links =
      put_cases (λ x y. y.next ≡ (if 7 == x then none else none)) nowhere 7 one_waiting refl
        (λ x y ne e. cc);
}

globalmq_pop_lem_example :
    (w' : World) × (globalmq_pop listed ≡ some (some 7, w')) × Linked w' [] × SameQueues listed w'
globalmq_pop_lem_example = globalmq_pop_lem 7 [] listed-Linked
