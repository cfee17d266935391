-- ===== src/Gate/Service.antt =====
-- skynet-1.2.0/service-src/service_gate.c: the gate and its answers to messages of the sockets. What it
-- does to other services, to sockets and to the log is a list of actions, in order.
use Prim.Native.Nat.{bit_or}
use skynet_sy.Common.{
  ℕ, zero, suc, ◌-◌, Bool, true, false, not, Option, none, some, List, [], ◌∷◌, ◌++◌, ◌==◌, leb,
  if◌then◌else◌, ◌>>=◌, ◌>>◌, assert, length, get_elem?, set,
}
use skynet_sy.Common.Bytes.{take, drop, from_le}
use skynet_sy.DataBuffer.Chunks.{
  DataBuffer, MessagePool, databuffer_push, databuffer_read, databuffer_readheader,
  databuffer_reset, databuffer_clear,
}
use skynet_sy.HashId.Table.{HashId, hashid_lookup, hashid_insert, hashid_remove, hashid_full}

-- `id` is none where C has -1.
pub record Connection : Type 0 where
  pub id : Option ℕ
  pub agent : ℕ
  pub client : ℕ
  pub remote_name : List ℕ
  pub buffer : DataBuffer

pub record Gate : Type 0 where
  pub listen_id : Option ℕ
  pub watchdog : ℕ
  pub broker : ℕ
  pub client_tag : ℕ
  pub header_size : ℕ
  pub hash : HashId
  pub conn : List Connection
  pub mp : MessagePool

abbrev pub ptype_text : ℕ
ptype_text = 0

abbrev pub dontcopy : ℕ
dontcopy = 0x10000

-- `skynet_send` with its source, destination, type, session and bytes; `skynet_socket_close`,
-- `skynet_socket_send`, and a line of the log
pub data Action : Type 0 where
  send : ℕ → ℕ → ℕ → ℕ → List ℕ → Action
  close : ℕ → Action
  socket_send : ℕ → List ℕ → Action
  log : Action

-- A connection after the actions
abbrev pub Served : Type 0
Served = List Action × (Connection × MessagePool)

-- The payload is read and sent.
abbrev pub read_to : Connection → MessagePool → ℕ → (List ℕ → Action) → Option Served
read_to c mp size to =
    databuffer_read c.buffer mp size >>= λ r. some (to r.0 ∷ [], (record c { buffer = r.1 }, r.2))

-- `_forward` with the descriptor of the connection; `title` is the text "%d data " with it.
unfoldable pub forward_to :
    (ℕ → List ℕ) → Gate → MessagePool → Connection → ℕ → Option ℕ → Option Served
forward_to title g mp c size none = some ([], (c, mp))
forward_to title g mp c size (some fd) =
    if fd == 0
    then some ([], (c, mp))
    else if not (g.broker == 0)
    then read_to c mp size (send 0 g.broker (bit_or g.client_tag dontcopy) fd)
    else if not (c.agent == 0)
    then read_to c mp size (send c.client c.agent (bit_or g.client_tag dontcopy) fd)
    else if not (g.watchdog == 0)
    then read_to c mp size
        (λ bytes. send 0 g.watchdog (bit_or ptype_text dontcopy) fd (title fd ++ bytes))
    else some ([], (c, mp))

abbrev pub forward : (ℕ → List ℕ) → Gate → MessagePool → Connection → ℕ → Option Served
forward title g mp c size = forward_to title g mp c size c.id

abbrev pub after_actions : List Action → Option Served → Option Served
after_actions done none = none
after_actions done (some r) = some (done ++ r.0, r.1)

-- for (;;)
unfoldable pub dispatch_loop :
    ℕ → (ℕ → List ℕ) → Gate → MessagePool → Connection → ℕ → Option Served
dispatch_loop zero title g mp c id = none
dispatch_loop (suc fuel) title g mp c id = databuffer_readheader c.buffer mp g.header_size >>= λ r.
    let c1 = record c { buffer = r.1 } in
    elim r.0 as (λ _. Option Served) [
      | none ↦ some ([], (c1, r.2))
      | some size ↦ elim (size == 0) as (λ _. Option Served) [
        | true ↦ dispatch_loop fuel title g r.2 c1 id
        | false ↦ elim (leb 0x1000000 size) as (λ _. Option Served) [
          | true ↦ databuffer_clear c1.buffer r.2 >>= λ d.
              some (close id ∷ log ∷ [], (record c1 { buffer = d.0 }, d.1))
          | false ↦ forward title g r.2 c1 size >>= λ f. after_actions f.0 (
              dispatch_loop fuel title g f.1.1
                (record f.1.0 { buffer = databuffer_reset f.1.0.buffer }) id)
        ]
      ]
    ]

-- A round that goes on takes a header off the buffer, but for the first.
unfoldable pub dispatch_message : (ℕ → List ℕ) → Gate → Connection → ℕ → List ℕ → Option Served
dispatch_message title g c id bytes =
    let pushed = databuffer_push c.buffer g.mp bytes in
    dispatch_loop (suc (suc pushed.0.size)) title g pushed.1 (record c { buffer = pushed.0 }) id

-- The types of messages of `struct skynet_socket_message`: `ud` of an accept is the new id.
pub data SocketEvent : Type 0 where
  received : List ℕ → SocketEvent
  connect closed failed warning : SocketEvent
  accept : ℕ → List ℕ → SocketEvent

-- `_report` with the text that it prints
abbrev pub report : Gate → List ℕ → List Action
report g text = if g.watchdog == 0 then [] else send 0 g.watchdog ptype_text 0 text ∷ []

-- -1 for an id that equals none
abbrev pub has_id : Option ℕ → ℕ → Bool
has_id none id = false
has_id (some x) id = x == id

-- A connection that `memset` cleared
abbrev pub no_connection : Connection
no_connection = record {
  id = none;
  agent = 0;
  client = 0;
  remote_name = [];
  buffer = record { header = 0; offset = 0; size = 0; chain = [] };
}

unfoldable pub drop_connection : (ℕ → List ℕ) → Gate → ℕ → Option (List Action × Gate)
drop_connection close_text g id = hashid_remove g.hash id >>= λ r.
    elim r.0 as (λ _. Option (List Action × Gate)) [
      | none ↦ some ([], record g { hash = r.1 })
      | some i ↦ get_elem? g.conn i >>= λ c. databuffer_clear c.buffer g.mp >>= λ d. some (
        report g (close_text id),
        record g { hash = r.1; conn = set g.conn i no_connection; mp = d.1 },
      )
    ]

unfoldable pub accept_connection :
    (ℕ → List ℕ → List ℕ) → Gate → ℕ → ℕ → List ℕ → Option (List Action × Gate)
accept_connection open_text g id ud name =
    assert (has_id g.listen_id id)
    >> (if hashid_full g.hash
        then some (close ud ∷ [], g)
        else (hashid_insert g.hash ud >>= λ r. get_elem? g.conn r.0 >>= λ c. some (
          report g (open_text ud (take 31 name)) ++ log ∷ [],
          record g {
            hash = r.1;
            conn = set g.conn r.0 (record c { id = some ud; remote_name = take 31 name });
          },
        )))

-- The texts "%d data ", "%d close" and "%d open %d %s:0" are arguments.
unfoldable pub dispatch_socket_message :
    (ℕ → List ℕ)
    → (ℕ → List ℕ)
    → (ℕ → List ℕ → List ℕ)
    → Gate
    → ℕ
    → SocketEvent
    → Option (List Action × Gate)
dispatch_socket_message title close_text open_text g id (received bytes) =
    hashid_lookup g.hash id >>= λ found. elim found as (λ _. Option (List Action × Gate)) [
      | none ↦ some (log ∷ close id ∷ [], g)
      | some i ↦ get_elem? g.conn i >>= λ c. dispatch_message title g c id bytes >>= λ r.
          some (r.0, record g { conn = set g.conn i r.1.0; mp = r.1.1 })
    ]
dispatch_socket_message title close_text open_text g id connect =
    if has_id g.listen_id id
    then some ([], g)
    else (hashid_lookup g.hash id >>= λ found. elim found as (λ _. Option (List Action × Gate)) [
      | none ↦ some (log ∷ close id ∷ [], g)
      | some i ↦ some ([], g)
    ])
dispatch_socket_message title close_text open_text g id closed = drop_connection close_text g id
dispatch_socket_message title close_text open_text g id failed = drop_connection close_text g id
dispatch_socket_message title close_text open_text g id (accept ud name) =
    accept_connection open_text g id ud name
dispatch_socket_message title close_text open_text g id warning = some (log ∷ [], g)

-- `_forward_agent`
unfoldable pub forward_agent : Gate → ℕ → ℕ → ℕ → Option Gate
forward_agent g fd agentaddr clientaddr = hashid_lookup g.hash fd >>= λ found.
    elim found as (λ _. Option Gate) [
      | none ↦ some g
      | some i ↦ get_elem? g.conn i >>= λ c.
          some
            (record g { conn = set g.conn i (record c { agent = agentaddr; client = clientaddr }) })
    ]

-- PTYPE_CLIENT of `_cb`: the last four bytes are the id of the socket, lowest first.
unfoldable pub client_message : Gate → List ℕ → Option (List Action)
client_message g msg =
    let uid = from_le (drop (length msg - 4) msg) in
    if leb (length msg) 4
    then some (log ∷ [])
    else (hashid_lookup g.hash uid >>= λ found. elim found as (λ _. Option (List Action)) [
      | none ↦ some (log ∷ [])
      | some i ↦ some (socket_send uid (take (length msg - 4) msg) ∷ [])
    ])

abbrev pub close_id : Option ℕ → List Action
close_id none = []
close_id (some id) = close id ∷ []

abbrev pub close_all : List Connection → List Action
close_all [] = []
close_all (c ∷ cs) = close_id c.id ++ close_all cs

-- The sockets that `gate_release` closes; it frees the rest.
unfoldable pub gate_release : Gate → List Action
gate_release g = close_all g.conn ++ close_id g.listen_id
