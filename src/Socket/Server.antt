-- ===== src/Socket/Server.antt =====
-- skynet-1.2.0/skynet-src/socket_server.c: the slots of the sockets and how a TCP socket comes into
-- use. What the system answers is an argument: whether `sp_add` succeeds, the descriptors, the errors.
use skynet_sy.Common.{
  ℕ, zero, suc, ◌+◌, ◌-◌, ◌*◌, ◌%◌, ◌/◌, ◌^◌, Bool, true, false, not, ◌&&◌, ◌||◌, Option, none,
  some, List, ◌==◌, ltb, if◌then◌else◌, ◌>>=◌, ◌>>◌, assert, length,
}
use skynet_sy.Socket.State.{
  Protocol, tcp, unknown, SocketType, invalid, reserve, plisten, listen, connecting, connected,
  halfclose, paccept, bound, is_type, max_socket, min_read_buffer, hash_id, id_tag16, Socket,
}
use skynet_sy.Socket.Send.{is_empty, force_close}
use skynet_sy.Socket.Submit.{nomore_sending_data}

pub record SocketServer : Type 0 where
  pub alloc_id : ℕ
  pub slot : ℕ → Socket

abbrev pub at : SocketServer → ℕ → Socket
at ss id = ss.slot (hash_id id)

-- The socket in the slot of an id changes.
abbrev pub put_slot : SocketServer → ℕ → Socket → SocketServer
put_slot ss id s = record ss { slot = λ h. if h == hash_id id then s else ss.slot h }

-- ATOM_INC of an `int`, with the sign taken off
abbrev pub next_id : ℕ → ℕ
next_id alloc = (alloc + 1) % 2 ^ 31

-- the loop with `n` rounds left; -1 is 2 ^ 32 - 1
unfoldable pub reserve_loop : ℕ → SocketServer → Option ℕ × SocketServer
reserve_loop zero ss = (none, ss)
reserve_loop (suc n) ss =
    let id = next_id ss.alloc_id in
    let ss1 = record ss { alloc_id = id } in
    let on = reserve_loop n ss1 in
    if is_type (at ss id).socket_type invalid
    then (
      some id,
      put_slot ss1 id (record (at ss id) {
        socket_type = reserve;
        protocol = unknown;
        id = id;
        udpconnecting = 0;
        fd = 2 ^ 32 - 1;
      }),
    )
    else on

abbrev pub reserve_id : SocketServer → Option ℕ × SocketServer
reserve_id ss = reserve_loop max_socket ss

-- `added` is whether `sp_add` succeeds, where it is asked to; the `Bool` whether there is a socket.
unfoldable pub new_fd : Bool → SocketServer → ℕ → ℕ → Protocol → ℕ → Option (Bool × SocketServer)
new_fd added ss id fd protocol opaque =
    let s = at ss id in
    assert (is_type s.socket_type reserve)
    >> (if not added
        then some (false, put_slot ss id (record s { socket_type = invalid }))
        else (assert (is_empty s.high && is_empty s.low)
            >> some (
              true,
              put_slot ss id (record s {
                id = id;
                fd = fd;
                sending = id_tag16 id * 2 ^ 16;
                protocol = protocol;
                p_size = min_read_buffer;
                opaque = opaque;
                wb_size = 0;
                warn_size = 0;
                dw = none;
                written = 0;
              }),
            )))

-- The message that a call reports: none, SOCKET_OPEN, SOCKET_ERR, SOCKET_CLOSE, SOCKET_ACCEPT with
-- the id of the new socket, or SOCKET_DATA
pub data Report : Type 0 where
  silent opened failed shut : Report
  joined : ℕ → Report
  received : List ℕ → Report

abbrev pub set_type : SocketServer → ℕ → SocketType → SocketServer
set_type ss id t = put_slot ss id (record (at ss id) { socket_type = t })

unfoldable pub listen_socket : SocketServer → ℕ → ℕ → ℕ → Option (Report × SocketServer)
listen_socket ss id fd opaque = new_fd true ss id fd tcp opaque >>= λ r.
    if r.0 then some (silent, set_type r.1 id plisten) else some (failed, set_type r.1 id invalid)

unfoldable pub bind_socket : Bool → SocketServer → ℕ → ℕ → ℕ → Option (Report × SocketServer)
bind_socket added ss id fd opaque = new_fd added ss id fd tcp opaque >>= λ r.
    if r.0 then some (opened, set_type r.1 id bound) else some (failed, r.1)

-- What the lookup of the host and `connect` give: an error, or a descriptor that is connected now
-- or later
pub data ConnectResult : Type 0 where
  unreachable : ConnectResult
  made : ℕ → Bool → ConnectResult

unfoldable pub open_socket :
    ConnectResult → Bool → SocketServer → ℕ → ℕ → Option (Report × SocketServer)
open_socket unreachable added ss id opaque = some (failed, set_type ss id invalid)
open_socket (made fd now) added ss id opaque = new_fd added ss id fd tcp opaque >>= λ r.
    if not r.0
    then some (failed, set_type r.1 id invalid)
    else if now
    then some (opened, set_type r.1 id connected)
    else some (
      silent,
      put_slot r.1 id (record (at r.1 id) { socket_type = connecting; write_event = true }),
    )

unfoldable pub start_socket : Bool → SocketServer → ℕ → ℕ → Option (Report × SocketServer)
start_socket added ss id opaque =
    let s = at ss id in
    if is_type s.socket_type invalid || not (s.id == id)
    then some (failed, ss)
    else if is_type s.socket_type paccept || is_type s.socket_type plisten
    then (if not added
        then (force_close s >>= λ s'. some (failed, put_slot ss id s'))
        else some (
          opened,
          put_slot ss id (record s {
            socket_type = if is_type s.socket_type paccept then connected else listen;
            opaque = opaque;
          }),
        ))
    else if is_type s.socket_type connected
    then some (opened, put_slot ss id (record s { opaque = opaque }))
    else some (silent, ss)

-- What `accept` returns: EMFILE or ENFILE, another error, or a descriptor
pub data Client : Type 0 where
  too_many no_client : Client
  client : ℕ → Client

-- `s` is the listening socket.
unfoldable pub report_accept : Client → SocketServer → Socket → Option (Report × SocketServer)
report_accept too_many ss s = some (failed, ss)
report_accept no_client ss s = some (silent, ss)
report_accept (client fd) ss s =
    let reserved = reserve_id ss in
    elim reserved.0 as (λ _. Option (Report × SocketServer)) [
      | none ↦ some (silent, reserved.1)
      | some id ↦ new_fd true reserved.1 id fd tcp s.opaque >>= λ r.
          if r.0 then some (joined id, set_type r.1 id paccept) else some (silent, r.1)
    ]

unfoldable pub report_connect : Bool → Socket → Option (Report × Socket)
report_connect error s =
    let s1 = record s { socket_type = connected } in
    if error
    then (force_close s >>= λ s'. some (failed, s'))
    else some (opened, if nomore_sending_data s1 then record s1 { write_event = false } else s1)

-- What `read` returns: bytes, or none at the end of the stream, an error, or EINTR and EAGAIN
pub data ReadResult : Type 0 where
  bytes_read : List ℕ → ReadResult
  read_error read_again : ReadResult

-- the next size of the read buffer, where `n` bytes came
abbrev pub next_size : ℕ → ℕ → ℕ
next_size sz n =
    if n == sz then sz * 2 else if ltb min_read_buffer sz && ltb (n * 2) sz then sz / 2 else sz

unfoldable pub forward_message_tcp : ReadResult → Socket → Option (Report × Socket)
forward_message_tcp read_error s = force_close s >>= λ s'. some (failed, s')
forward_message_tcp read_again s = some (silent, s)
forward_message_tcp (bytes_read bs) s =
    if length bs == 0
    then (force_close s >>= λ s'. some (shut, s'))
    else if is_type s.socket_type halfclose
    then some (silent, s)
    else some (received bs, record s { p_size = next_size s.p_size (length bs) })
