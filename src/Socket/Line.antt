-- ===== src/Socket/Line.antt =====
-- skynet-1.2.0/skynet-src/socket_server.c: one TCP socket with the requests on their way to the socket
-- thread and the bytes written to its descriptor so far.
use skynet_sy.Common.{
  ℕ, ◌+◌, ◌*◌, ◌^◌, ◌<◌, ◌≡◌, Bool, true, false, Option, none, some, List, [], ◌∷◌, ◌++◌, length,
  ◌>>=◌,
}
use skynet_sy.Common.Bytes.{concat}
use skynet_sy.Socket.State.{tcp, id_tag16, Socket, WriteOutcome, Result}
use skynet_sy.Socket.Send.{dw_list, send_buffer, send_socket}
use skynet_sy.Socket.Submit.{
  dec_sending_ref, Submitted, refused, direct, requested, socket_server_send,
  socket_server_send_lowpriority,
}
use skynet_sy.Socket.Flow.{part, Partial}
use skynet_sy.Socket.Shape.{shape, total}

pub record Line : Type 0 where
  pub socket : Socket
  pub pipe : List (Bool × List ℕ)
  pub wire : List ℕ

abbrev pub submitted : Submitted → Bool → List ℕ → Line → Line
submitted refused high data' l = l
submitted (direct w) high data' l = record l { wire = l.wire ++ w }
submitted requested high data' l = record l { pipe = l.pipe ++ (high, data') ∷ [] }

unfoldable pub line_send : Bool → WriteOutcome → Line → List ℕ → Option (Submitted × Line)
line_send lock o l data' = socket_server_send lock o l.socket l.socket.id data' >>= λ r.
    some (r.0, submitted r.0 true data' (record l { socket = r.1 }))

unfoldable pub line_send_low : Line → List ℕ → Option (Submitted × Line)
line_send_low l data' = socket_server_send_lowpriority l.socket l.socket.id data' >>= λ r.
    some (r.0, submitted r.0 false data' (record l { socket = r.1 }))

-- the requests 'D' and 'P' of `ctrl_cmd`
unfoldable pub ctrl_send : Socket → ℕ → Bool → List ℕ → Option (Result × Socket)
ctrl_send s id high data' =
    let r = send_socket s id high data' in dec_sending_ref r.1 id >>= λ s'. some (r.0, s')

-- The socket thread waits where the pipe is empty.
unfoldable pub line_ctrl : Line → Option (Result × Line)
line_ctrl l = elim l.pipe as (λ _. Option (Result × Line)) [
  | [] ↦ none
  | p ∷ ps ↦ ctrl_send l.socket l.socket.id p.0 p.1 >>= λ r.
      some (r.0, record l { socket = r.1; pipe = ps })
]

unfoldable pub line_write : Bool → List WriteOutcome → Line → Option (Result × Line)
line_write lock os l = send_buffer lock os l.socket >>= λ r.
    some (r.0, record l { socket = r.1.0; wire = l.wire ++ r.1.1 })

-- The socket is one of TCP, and `sending` has the tag of its id and the number of requests.
abbrev pub Counts : Line → Type 0
Counts l =
    (l.socket.protocol ≡ tcp) × (l.socket.sending ≡ id_tag16 l.socket.id * 2 ^ 16 + length l.pipe)

-- What the line keeps: all of `out` is written and `k` bytes of the first of `items`, which wait with
-- high priority, `low` with low priority, and `sending` counts the requests.
pub record Shows (l : Line) (out : List (List ℕ)) (k : ℕ) (items low : List (List ℕ)) : Type 0 where
  pub waiting : dw_list l.socket.dw ++ l.socket.high ≡ shape k items
  pub waiting_low : l.socket.low ≡ shape 0 low
  pub size : l.socket.wb_size ≡ total l.socket.high + total l.socket.low
  pub partial : Partial k items
  pub count : Counts l
  pub room : length l.pipe < 2 ^ 16
  pub bytes : l.wire ≡ concat out ++ part k items
