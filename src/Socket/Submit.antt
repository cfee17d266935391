-- ===== src/Socket/Submit.antt =====
-- skynet-1.2.0/skynet-src/socket_server.c: `close_socket`, `socket_server_send` and the count of requests on the way.
use skynet_sy.Common.{
  ℕ, ◌+◌, ◌-◌, ◌%◌, ◌/◌, ◌^◌, min, Bool, true, not, ◌&&◌, ◌||◌, Option, none, some, List, [], ◌==◌,
  if◌then◌else◌, ◌>>=◌, ◌>>◌, assert, length, is_null,
}
use skynet_sy.Common.Bytes.{take}
use skynet_sy.Socket.State.{
  is_tcp, invalid, connected, halfclose, is_type, id_tag16, Socket, WriteOutcome, wrote,
  interrupted, again, broken, Result, nothing, closed, warned,
}
use skynet_sy.Socket.Send.{force_close, send_buffer_empty, send_buffer}

abbrev pub nomore_sending_data : Socket → Bool
nomore_sending_data s = send_buffer_empty s && is_null s.dw && s.sending % 2 ^ 16 == 0

-- after the test of the id
unfoldable pub close_socket :
    Bool → List WriteOutcome → Socket → ℕ → Bool → Option (Result × (Socket × List ℕ))
close_socket lock os s id shutdown =
    let finish = λ (s1 : Socket) (wire : List ℕ).
      if shutdown || nomore_sending_data s1
      then (force_close s1 >>= λ s2. some (closed, (s2, wire)))
      else some (nothing, (record s1 { socket_type = halfclose }, wire)) in
    if is_type s.socket_type invalid || not (s.id == id)
    then some (closed, (s, []))
    else if nomore_sending_data s
    then finish s []
    else (send_buffer lock os s >>= λ r. elim r.0 as (λ _. Option (Result × (Socket × List ℕ))) [
      | closed ↦ some r
      | nothing ↦ finish r.1.0 r.1.1
      | warned ↦ finish r.1.0 r.1.1
    ])

-- `none` waits for the socket thread
unfoldable pub inc_sending_ref : Socket → ℕ → Option Socket
inc_sending_ref s id =
    if not (is_tcp s.protocol)
    then some s
    else if s.sending / 2 ^ 16 == id_tag16 id
    then (if s.sending % 2 ^ 16 == 0xffff
        then none
        else some (record s { sending = s.sending + 1 }))
    else some s

unfoldable pub dec_sending_ref : Socket → ℕ → Option Socket
dec_sending_ref s id =
    if s.id == id && is_tcp s.protocol
    then (assert (not (s.sending % 2 ^ 16 == 0)) >> some (record s { sending = s.sending - 1 }))
    else some s

abbrev pub can_direct_write : Socket → ℕ → Bool
can_direct_write s id =
    s.id == id && nomore_sending_data s && is_type s.socket_type connected && s.udpconnecting == 0

-- an error of the direct write is ignored
abbrev pub bytes_taken : WriteOutcome → ℕ → ℕ
bytes_taken (wrote n) sz = min n sz
bytes_taken interrupted sz = 0
bytes_taken again sz = 0
bytes_taken broken sz = 0

-- -1, a direct write with its bytes, and the request 'D' or 'P' to the socket thread
pub data Submitted : Type 0 where
  refused : Submitted
  direct : List ℕ → Submitted
  requested : Submitted

unfoldable pub socket_server_send :
    Bool → WriteOutcome → Socket → ℕ → List ℕ → Option (Submitted × Socket)
socket_server_send lock o s id data' =
    let n = bytes_taken o (length data') in
    let s1 = record s { written = s.written + n } in
    if not (s.id == id) || is_type s.socket_type invalid
    then some (refused, s)
    else if can_direct_write s id && lock
    then (if n == length data'
        then some (direct data', s1)
        else some (
          direct (take n data'),
          record s1 { dw = some (record { dw_buffer = data'; dw_offset = n }); write_event = true },
        ))
    else (inc_sending_ref s id >>= λ s'. some (requested, s'))

unfoldable pub socket_server_send_lowpriority : Socket → ℕ → List ℕ → Option (Submitted × Socket)
socket_server_send_lowpriority s id data' =
    if not (s.id == id) || is_type s.socket_type invalid
    then some (refused, s)
    else (inc_sending_ref s id >>= λ s'. some (requested, s'))
