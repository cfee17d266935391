-- ===== src/Socket/Examples.antt =====
-- The theorems about sockets at concrete lines and slots, and tests.
use skynet_sy.Common.{
  ◌⊎◌, ℕ, ◌+◌, ◌≡◌, refl, arith, true, false, Option, none, some, List, [], ◌∷◌, ◌++◌, inl,
}
use skynet_sy.Common.Bytes.{concat}
use skynet_sy.Socket.State.{
  reserve, invalid, connected, tcp, WriteBuffer, DirectWrite, Socket, WriteOutcome, wrote,
  interrupted, again,
}
use skynet_sy.Socket.Send.{send_buffer}
use skynet_sy.Socket.Submit.{close_socket, direct, socket_server_send}
use skynet_sy.Socket.Close.{Closes, close_socket_lem}
use skynet_sy.Socket.Line.{Line, line_send, Shows}
use skynet_sy.Socket.Drained.{Drained}
use skynet_sy.Socket.Drain.{send_buffer_lem}
use skynet_sy.Socket.Accept.{Accepted, line_ctrl_lem}
use skynet_sy.Socket.Give.{Given, line_send_lem}
use skynet_sy.Socket.Run.{Run, start, sent, run_bytes, run_complete}
use skynet_sy.Socket.Server.{SocketServer, at, put_slot, made, open_socket, Report, failed}
use skynet_sy.Socket.Queued.{Sending}
use skynet_sy.Socket.Fresh.{line_of, open_socket_lem}
use skynet_sy.Socket.Slots.{put_slot-IsValid, IsValid, ReservesId, reserve_id_lem}

-- the socket of id 65537, in slot 1
abbrev socket : Option DirectWrite → List WriteBuffer → List WriteBuffer → ℕ → ℕ → Socket
socket dw high low n waiting = record {
  opaque = 9;
  high = high;
  low = low;
  wb_size = n;
  written = 0;
  sending = 65536 + waiting;
  fd = 7;
  id = 65537;
  protocol = tcp;
  socket_type = connected;
  udpconnecting = 0;
  warn_size = 0;
  p_size = 64;
  dw = dw;
  write_event = false;
}

abbrev quiet : Line
quiet = record { socket = socket none [] [] 0 0; pipe = []; wire = [] }

quiet-Shows : Shows quiet [] 0 [] []
quiet-Shows = record {
  waiting = refl;
  waiting_low = refl;
  size = refl;
  partial = refl;
  count = (refl, refl);
  room = omega arith;
  bytes = refl;
}

abbrev buffered : List ℕ → ℕ → ℕ → WriteBuffer
buffered x k n = record { buffer = x; ptr = k; sz = n }

-- One package is partly written, one waits with high priority and one with low.
abbrev busy : Line
busy = record {
  socket =
      socket (some (record { dw_buffer = 10 ∷ 20 ∷ 30 ∷ []; dw_offset = 1 }))
        (buffered (40 ∷ []) 0 1 ∷ []) (buffered (50 ∷ 60 ∷ []) 0 2 ∷ []) 3 0;
  pipe = [];
  wire = 10 ∷ [];
}

abbrev busy_items : List (List ℕ)
busy_items = (10 ∷ 20 ∷ 30 ∷ []) ∷ (40 ∷ []) ∷ []

abbrev busy_low : List (List ℕ)
busy_low = (50 ∷ 60 ∷ []) ∷ []

busy-Shows : Shows busy [] 1 busy_items busy_low
busy-Shows = record {
  waiting = refl;
  waiting_low = refl;
  size = refl;
  partial = omega arith;
  count = (refl, refl);
  room = omega arith;
  bytes = refl;
}

abbrev answers : List WriteOutcome
answers = wrote 2 ∷ interrupted ∷ wrote 1 ∷ wrote 1 ∷ again ∷ []

send_buffer_lem_example :
    Drained busy (send_buffer true answers busy.socket) answers [] 1 busy_items busy_low
send_buffer_lem_example =
    send_buffer_lem true answers busy [] 1 busy_items busy_low busy-Shows tt refl

line_send_lem_example :
    Given (line_send true (wrote 2) quiet (1 ∷ 2 ∷ 3 ∷ [])) quiet (true, 1 ∷ 2 ∷ 3 ∷ []) [] 0 [] []
line_send_lem_example =
    line_send_lem true (wrote 2) quiet (1 ∷ 2 ∷ 3 ∷ []) [] 0 [] [] quiet-Shows refl (omega arith)

abbrev asked : Line
asked = record { socket = socket none [] [] 0 1; pipe = (false, 4 ∷ 5 ∷ []) ∷ []; wire = [] }

asked-Shows : Shows asked [] 0 [] []
asked-Shows = record {
  waiting = refl;
  waiting_low = refl;
  size = refl;
  partial = refl;
  count = (refl, refl);
  room = omega arith;
  bytes = refl;
}

line_ctrl_lem_example : Accepted asked [] 0 [] []
line_ctrl_lem_example = line_ctrl_lem asked [] 0 [] [] asked-Shows (inl refl) (omega arith)

abbrev sent_two : Line
sent_two = record {
  socket = record (socket none [] [] 0 0) { written = 2 };
  pipe = [];
  wire = 1 ∷ 2 ∷ [];
}

one_run : Run quiet ((1 ∷ 2 ∷ []) ∷ []) sent_two
unfolding line_send socket_server_send
one_run =
    sent [] quiet sent_two true (wrote 2) (1 ∷ 2 ∷ []) (direct (1 ∷ 2 ∷ [])) start refl
      (omega arith) refl

run_bytes_example : (rest : List ℕ) × (sent_two.wire ++ rest ≡ concat ((1 ∷ 2 ∷ []) ∷ []))
run_bytes_example = run_bytes quiet ((1 ∷ 2 ∷ []) ∷ []) sent_two quiet-Shows refl one_run

run_complete_example : sent_two.wire ≡ concat ((1 ∷ 2 ∷ []) ∷ [])
run_complete_example = run_complete quiet ((1 ∷ 2 ∷ []) ∷ []) sent_two quiet-Shows refl one_run refl

abbrev first_server : SocketServer
first_server = record {
  alloc_id = 0;
  slot = λ h. record (socket none [] [] 0 0) { socket_type = invalid };
}

first_server-IsValid : IsValid first_server
first_server-IsValid = record { slots = λ h n. (refl, refl); next = omega arith }

reserve_id_lem_example : ReservesId first_server
reserve_id_lem_example = reserve_id_lem first_server first_server-IsValid

abbrev reserved_server : SocketServer
reserved_server =
    put_slot first_server 65537 (record (socket none [] [] 0 0) { socket_type = reserve })

reserved_server-IsValid : IsValid reserved_server
reserved_server-IsValid =
    put_slot-IsValid first_server 65537 _ first_server-IsValid ((refl, omega arith), (refl, refl))

open_socket_lem_example :
    (r : Report) × (ss' : SocketServer) × (open_socket (made 7 false) true reserved_server 65537 9
      ≡ some (r, ss'))
    × IsValid ss'
    × ((r ≡ failed) × ((at ss' 65537).socket_type ≡ invalid)
        ⊎ Sending (at ss' 65537).socket_type × Shows (line_of (at ss' 65537)) [] 0 [] [])
open_socket_lem_example =
    open_socket_lem reserved_server reserved_server-IsValid 65537 (omega arith) refl (made 7 false)
      true 9

close_socket_lem_example :
    Closes busy
      (close_socket true answers busy.socket 65537 false)
      answers
      false
      []
      1
      busy_items
      busy_low
close_socket_lem_example =
    close_socket_lem busy answers false [] 1 busy_items busy_low true busy-Shows tt refl refl
