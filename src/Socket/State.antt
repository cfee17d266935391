-- ===== src/Socket/State.antt =====
-- skynet-1.2.0/skynet-src/socket_server.c: `struct socket` for TCP, and the answers of `write`.
use skynet_sy.Common.{ℕ, ◌*◌, ◌%◌, ◌/◌, ◌^◌, Bool, true, false, Option, List, ◌==◌}

-- SOCKET_TYPE_INVALID and the others
pub data SocketType : Type 0 where
  invalid reserve plisten listen connecting connected halfclose paccept bound : SocketType

-- the value of the macro
abbrev pub code : SocketType → ℕ
code invalid = 0
code reserve = 1
code plisten = 2
code listen = 3
code connecting = 4
code connected = 5
code halfclose = 6
code paccept = 7
code bound = 8

abbrev pub is_type : SocketType → SocketType → Bool
is_type s t = code s == code t

abbrev pub max_socket : ℕ
max_socket = 2 ^ 16

abbrev pub min_read_buffer : ℕ
min_read_buffer = 64

abbrev pub warning_size : ℕ
warning_size = 1024 * 1024

-- HASH_ID and ID_TAG16
abbrev pub hash_id : ℕ → ℕ
hash_id id = id % max_socket

abbrev pub id_tag16 : ℕ → ℕ
id_tag16 id = id / max_socket % 2 ^ 16

-- PROTOCOL_TCP and the others
pub data Protocol : Type 0 where
  tcp udp udpv6 unknown : Protocol

abbrev pub is_tcp : Protocol → Bool
is_tcp tcp = true
is_tcp udp = false
is_tcp udpv6 = false
is_tcp unknown = false

-- `ptr` is its distance from `buffer`.
pub record WriteBuffer : Type 0 where
  pub buffer : List ℕ
  pub ptr : ℕ
  pub sz : ℕ

-- `dw_buffer` with `dw_offset`
pub record DirectWrite : Type 0 where
  pub dw_buffer : List ℕ
  pub dw_offset : ℕ

-- `write_event` is the argument of the last `sp_write`, `written` is `stat.write`.
pub record Socket : Type 0 where
  pub opaque : ℕ
  pub high : List WriteBuffer
  pub low : List WriteBuffer
  pub wb_size : ℕ
  pub written : ℕ
  pub sending : ℕ
  pub fd : ℕ
  pub id : ℕ
  pub protocol : Protocol
  pub socket_type : SocketType
  pub udpconnecting : ℕ
  pub warn_size : ℕ
  pub p_size : ℕ
  pub dw : Option DirectWrite
  pub write_event : Bool

-- What `write` returns: a number of bytes, EINTR, EAGAIN or another error
pub data WriteOutcome : Type 0 where
  wrote : ℕ → WriteOutcome
  interrupted again broken : WriteOutcome

-- -1, SOCKET_CLOSE and SOCKET_WARNING
pub data Result : Type 0 where
  nothing closed warned : Result
