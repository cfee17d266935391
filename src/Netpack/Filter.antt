-- ===== src/Netpack/Filter.antt =====
-- skynet-1.2.0/lualib-src/lua-netpack.c: `lfilter` and what it calls. `none` is a read out of bounds
-- or a failed assert. The bytes of a buffer are a list; its length is the size.
use Prim.Native.Nat.{bit_or}
use skynet_sy.Common.{
  ℕ, zero, suc, ◌+◌, ◌-◌, ◌*◌, ◌^◌, Option, none, some, List, [], ◌∷◌, ◌++◌, ◌==◌, if◌then◌else◌,
  ◌>>=◌, ltb, length,
}
use skynet_sy.Common.Bytes.{take, drop}
use skynet_sy.Netpack.Queue.{
  Uncomplete, PackQueue, find_uncomplete, push_data, save_uncomplete, hash_fd, set_chain,
}

-- An entry that has its first byte only, and one with a part of its data.
abbrev pub header_only : ℕ → ℕ → Uncomplete
header_only fd b = record {
  pack = record { id = fd; size = 0; buffer = [] };
  read = none;
  header = b;
}

abbrev pub part : ℕ → ℕ → List ℕ → Uncomplete
part fd size bytes = record {
  pack = record { id = fd; size = size; buffer = bytes };
  read = some (length bytes);
  header = 0;
}

unfoldable pub read_size : ℕ → ℕ → ℕ
read_size a b = bit_or (a * 2 ^ 8) b

-- Each call on the rest of the bytes takes a unit of fuel.
unfoldable pub push_more : ℕ → Option PackQueue → ℕ → List ℕ → Option PackQueue
push_more zero q fd bytes = none
push_more (suc fuel) q fd [] = none
push_more (suc fuel) q fd (b ∷ []) = some (save_uncomplete q (header_only fd b))
push_more (suc fuel) q fd (a ∷ b ∷ bytes) =
    let pack_size = read_size a b in
    let on = push_data q fd (take pack_size bytes) >>= λ q'.
    if ltb 0 (length bytes - pack_size)
    then push_more fuel (some q') fd (drop pack_size bytes)
    else some q' in
    if ltb (length bytes) pack_size then some (save_uncomplete q (part fd pack_size bytes)) else on

unfoldable pub close_uncomplete : Option PackQueue → ℕ → Option PackQueue
close_uncomplete q fd = elim (find_uncomplete q fd) [ none ↦ q | some r ↦ some r.1 ]

-- what Lua gets beside the queue
pub data Event : Type 0 where
  nothing : Event
  one_pack : ℕ → List ℕ → Event
  more : Event
  error : ℕ → List ℕ → Event
  opened : ℕ → List ℕ → Event
  closed : ℕ → Event
  warning : ℕ → ℕ → Event

-- a package and more data
unfoldable pub more_data :
    Option PackQueue → ℕ → List ℕ → List ℕ → Option (Event × Option PackQueue)
more_data q fd bytes rest = do
  q1 ← push_data q fd bytes
  q2 ← push_more (length rest) (some q1) fd rest
  some (more, some q2)

-- The bytes that the entry waits for, and what follows; `bytes` is not empty.
unfoldable pub fill_uncomplete :
    PackQueue → ℕ → Uncomplete → ℕ → ℕ → List ℕ → Option (Event × Option PackQueue)
fill_uncomplete q fd uc size read bytes =
    let need = size - read in
    let filled = uc.pack.buffer ++ take need bytes in
    let rest = drop need bytes in
    if ltb (length bytes) need
    then (let uc' : Uncomplete = record uc {
      pack = record uc.pack { size = size; buffer = uc.pack.buffer ++ bytes };
      read = some (read + length bytes);
    } in
        some (nothing, some (set_chain q (hash_fd fd) (uc' ∷ q.hash (hash_fd fd)))))
    else if length rest == 0
    then some (one_pack fd filled, some q)
    else more_data (some q) fd filled rest

-- no entry waits
unfoldable pub filter_fresh : Option PackQueue → ℕ → List ℕ → Option (Event × Option PackQueue)
filter_fresh q fd [] = none
filter_fresh q fd (b ∷ []) = some (nothing, some (save_uncomplete q (header_only fd b)))
filter_fresh q fd (a ∷ b ∷ bytes) =
    let pack_size = read_size a b in
    let rest = drop pack_size bytes in
    if ltb (length bytes) pack_size
    then some (nothing, some (save_uncomplete q (part fd pack_size bytes)))
    else if length bytes == pack_size
    then some (one_pack fd bytes, q)
    else more_data q fd (take pack_size bytes) rest

-- the first byte completes the length of an entry that waits for it
unfoldable pub filter_waiting :
    PackQueue → ℕ → Uncomplete → Option ℕ → List ℕ → Option (Event × Option PackQueue)
filter_waiting q fd uc (some read) bytes = fill_uncomplete q fd uc uc.pack.size read bytes
filter_waiting q fd uc none [] = none
filter_waiting q fd uc none (b ∷ bytes) =
    fill_uncomplete q fd uc (bit_or b (uc.header * 2 ^ 8)) 0 bytes

unfoldable pub filter_data : Option PackQueue → ℕ → List ℕ → Option (Event × Option PackQueue)
filter_data q fd bytes = elim (find_uncomplete q fd) [
  | none ↦ filter_fresh q fd bytes
  | some r ↦ filter_waiting r.1 fd r.0 r.0.read bytes
]

-- `struct skynet_socket_message`, by its type; the text of an accept or an error is padding
pub data SocketMessage : Type 0 where
  received : ℕ → List ℕ → SocketMessage
  connected : ℕ → SocketMessage
  closing : ℕ → SocketMessage
  accepted : ℕ → ℕ → List ℕ → SocketMessage
  failed : ℕ → List ℕ → SocketMessage
  warned : ℕ → ℕ → SocketMessage

unfoldable pub lfilter : Option PackQueue → SocketMessage → Option (Event × Option PackQueue)
lfilter q (received id bytes) = filter_data q id bytes
lfilter q (connected id) = some (nothing, q)
lfilter q (closing id) = some (closed id, close_uncomplete q id)
lfilter q (accepted id ud text) = some (opened ud text, q)
lfilter q (failed id text) = some (error id text, close_uncomplete q id)
lfilter q (warned id ud) = some (warning id ud, q)
