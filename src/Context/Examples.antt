-- ===== src/Context/Examples.antt =====
-- The theorems on contexts at concrete inputs.
use skynet_sy.Common.{
  ℕ, ◌≡◌, refl, arith, true, false, Option, none, some, List, [], ◌∷◌, ◌++◌, ◌==◌, if◌then◌else◌,
}
use skynet_sy.Mq.Queue.{Message, MessageQueue}
use skynet_sy.Mq.Ring.{Models}
use skynet_sy.Mq.Global.{World, put}
use skynet_sy.Mq.Service.{Running, Keeps, of_Keeps, put_cases, push_at}
use skynet_sy.Monitor.{Monitor, monitor_new}
use skynet_sy.Handle.Slots.{handle_init, handle_find}
use skynet_sy.Context.Server.{Context, Server, handle_of, context_push}
use skynet_sy.Context.Worker.{message_dispatch}
use skynet_sy.Context.Count.{context_push_lem}
use skynet_sy.Context.Idle.{message_dispatch_idle}

abbrev ping : Message
ping = record { source = 1; session = 5; message_data = 100; sz = 3 }

abbrev pong : Message
pong = record { source = 2; session = 6; message_data = 200; sz = 4 }

-- a ring of four cells, of the handle 9
abbrev three_waiting : MessageQueue
three_waiting = record {
  handle = 9;
  cap = 4;
  head = 3;
  tail = 2;
  release = 0;
  in_global = 1;
  overload = 0;
  overload_threshold = 1024;
  queue = some pong ∷ some ping ∷ none ∷ some ping ∷ [];
  next = none;
}

abbrev waiting : ℕ → List Message
waiting x = if x == 7 then ping ∷ pong ∷ ping ∷ [] else []

three_waiting-Models : Models three_waiting (ping ∷ pong ∷ ping ∷ [])
three_waiting-Models = record {
  width = refl;
  small = omega arith;
  head_in = omega arith;
  room = omega arith;
  tail_at = refl;
  window = (refl, (refl, (refl, tt)));
  threshold = omega arith;
}

abbrev nowhere : World
nowhere = record { queues = λ x. none; global_head = none; global_tail = none }

abbrev busy : World
busy = put nowhere 7 three_waiting

busy-Running : Running busy [] waiting
busy-Running =
    of_Keeps
      (record {
        at_front = refl;
        at_back = refl;
        distinct = tt;
        live = λ x h. cc;
        links = put_cases (λ x y. y.next ≡ none) nowhere 7 three_waiting refl (λ x y ne e. cc);
      })
      (put_cases (Keeps waiting []) nowhere 7 three_waiting
        (three_waiting-Models, omega arith, λ r h. cc) (λ x y ne e. cc))

abbrev service : Context
service = record {
  handle = 9;
  queue = 7;
  session_id = 0;
  ref = 1;
  message_count = 0;
  init = true;
  endless = false;
  cb = true;
}

-- one service, at 3; `user` is what it has got
abbrev server : Server (List Message)
server = record {
  contexts = λ x. if x == 3 then some service else none;
  total = 1;
  storage = record (handle_init 0) { slot = none ∷ some 3 ∷ none ∷ none ∷ []; slot_size = 4 };
  world = busy;
  user = [];
}

abbrev keep : ℕ → ℕ → ℕ → Message → Server (List Message) → Option (Server (List Message))
keep c type sz m s = some (record s { user = s.user ++ m ∷ [] })

abbrev log : ℕ → ℕ → Server (List Message) → Option (Server (List Message))
log c n s = some s

abbrev drop_nothing : ℕ → Message → World → World
drop_nothing handle m w = w

abbrev all : List Message → List Message
all ms = ms

server_find : handle_find (handle_of server) server.storage 9 ≡ some (some 3)
unfolding handle_find
server_find = refl

context_push_lem_example :
    (w : World) × (context_push server 9 ping ≡ some (true, record server { world = w }))
    × Running w [] (push_at waiting 7 ping)
context_push_lem_example =
    context_push_lem server 9 3 service three_waiting ping server_find refl (omega arith)
      busy-Running refl refl (omega arith)

abbrev nothing_waits : MessageQueue
nothing_waits = record three_waiting { tail = 3 }

abbrev quiet_world : World
quiet_world = put nowhere 7 nothing_waits

quiet-Running : Running quiet_world [] (λ x. [])
quiet-Running =
    of_Keeps
      (record {
        at_front = refl;
        at_back = refl;
        distinct = tt;
        live = λ x h. cc;
        links = put_cases (λ x y. y.next ≡ none) nowhere 7 nothing_waits refl (λ x y ne e. cc);
      })
      (put_cases (Keeps (λ x. []) []) nowhere 7 nothing_waits
        (
          record {
            width = refl;
            small = omega arith;
            head_in = omega arith;
            room = omega arith;
            tail_at = refl;
            window = tt;
            threshold = omega arith;
          },
          omega arith,
          λ r h. cc,
        )
        (λ x y ne e. cc))

abbrev idle_server : Server (List Message)
idle_server = record server { world = quiet_world }

idle_find : handle_find (handle_of idle_server) idle_server.storage 9 ≡ some (some 3)
unfolding handle_find
idle_find = refl

message_dispatch_idle_example :
    (w : World) × (message_dispatch keep log drop_nothing 5 idle_server monitor_new none (some 7)
      ≡ some (none, (record idle_server { world = w }, monitor_new)))
    × Running w [] (λ x. [])
    × ((q' : MessageQueue) × (w.queues 7 ≡ some q') × (q'.in_global ≡ 0))
message_dispatch_idle_example =
    message_dispatch_idle keep log drop_nothing idle_server monitor_new none 5 7 3 nothing_waits
      service quiet-Running refl refl refl idle_find refl (omega arith)
