-- ===== src/Socket/Send.antt =====
-- skynet-1.2.0/skynet-src/socket_server.c: the two lists of write buffers of a TCP socket. The answers
-- of `write` are a list; a run that needs one more gives no result, like a failed assert. What the
-- calls write is given in order.
use skynet_sy.Common.{
  ℕ, ◌+◌, ◌-◌, ◌*◌, min, Bool, true, false, not, ◌&&◌, ◌||◌, Option, none, some, List, [], ◌∷◌,
  ◌++◌, ◌==◌, ltb, leb, if◌then◌else◌, ◌>>=◌, ◌>>◌, assert, length,
}
use skynet_sy.Common.Bytes.{take, drop}
use skynet_sy.Socket.State.{
  invalid, reserve, plisten, listen, connected, halfclose, paccept, is_type, warning_size,
  WriteBuffer, DirectWrite, Socket, WriteOutcome, wrote, interrupted, again, broken, Result,
  nothing, closed, warned,
}

abbrev pub is_empty {ℓ} : {A : Type ℓ} → List A → Bool
is_empty [] = true
is_empty (x ∷ xs) = false

-- The memory and the descriptor are freed.
unfoldable pub force_close : Socket → Option Socket
force_close s =
    if is_type s.socket_type invalid
    then some s
    else (assert (not (is_type s.socket_type reserve))
        >> some (record s { high = []; low = []; socket_type = invalid; dw = none }))

-- What `send_list_tcp` leaves: whether the socket lives, the socket, the list, the bytes written and
-- the answers that are left.
pub record Sent : Type 0 where
  pub alive : Bool
  pub socket : Socket
  pub list : List WriteBuffer
  pub wire : List ℕ
  pub rest : List WriteOutcome

abbrev pub after_piece : List ℕ → Option Sent → Option Sent
after_piece piece none = none
after_piece piece (some r) = some (record r { wire = piece ++ r.wire })

-- `write` takes at most the bytes given.
unfoldable pub send_list_tcp : List WriteOutcome → Socket → List WriteBuffer → Option Sent
send_list_tcp os s [] = some (record { alive = true; socket = s; list = []; wire = []; rest = os })
send_list_tcp [] s (tmp ∷ list) = none
send_list_tcp (interrupted ∷ os) s (tmp ∷ list) = send_list_tcp os s (tmp ∷ list)
send_list_tcp (again ∷ os) s (tmp ∷ list) =
    some (record { alive = true; socket = s; list = tmp ∷ list; wire = []; rest = os })
send_list_tcp (broken ∷ os) s (tmp ∷ list) = force_close s >>= λ s'.
    some (record { alive = false; socket = s'; list = []; wire = []; rest = os })
send_list_tcp (wrote n ∷ os) s (tmp ∷ list) =
    let sz = min n tmp.sz in
    let piece = take sz (drop tmp.ptr tmp.buffer) in
    let s1 = record s { written = s.written + sz; wb_size = s.wb_size - sz } in
    let on = send_list_tcp os s1 list in
    if not (sz == tmp.sz)
    then some (record {
      alive = true;
      socket = s1;
      list = record tmp { ptr = tmp.ptr + sz; sz = tmp.sz - sz } ∷ list;
      wire = piece;
      rest = os;
    })
    else after_piece piece on

abbrev pub list_uncomplete : List WriteBuffer → Bool
list_uncomplete [] = false
list_uncomplete (wb ∷ list) = not (wb.ptr == 0)

unfoldable pub raise_uncomplete : Socket → Option Socket
raise_uncomplete s = elim s.low as (λ _. Option Socket) [
  | [] ↦ none
  | tmp ∷ low ↦ assert (is_empty s.high) >> some (record s { high = tmp ∷ []; low = low })
]

abbrev pub send_buffer_empty : Socket → Bool
send_buffer_empty s = is_empty s.high && is_empty s.low

-- step 4
unfoldable pub check_close : Socket → Option (Result × Socket)
check_close s =
    assert (send_buffer_empty s && s.wb_size == 0)
    >> (let s1 = record s { write_event = false } in
        if is_type s.socket_type halfclose
        then (force_close s1 >>= λ s2. some (closed, s2))
        else if ltb 0 s.warn_size
        then some (warned, record s1 { warn_size = 0 })
        else some (nothing, s1))

-- steps 2 and 3, and the bytes written in step 1
unfoldable pub send_low : List WriteOutcome → Socket → List ℕ → Option (Result × (Socket × List ℕ))
send_low os s wire =
    if is_empty s.low
    then (check_close s >>= λ r. some (r.0, (r.1, wire)))
    else (send_list_tcp os s s.low >>= λ r.
        let s1 = record r.socket { low = r.list } in
        if not r.alive
        then some (closed, (s1, wire ++ r.wire))
        else if list_uncomplete s1.low
        then (raise_uncomplete s1 >>= λ s2. some (nothing, (s2, wire ++ r.wire)))
        else if not (is_empty s1.low)
        then some (nothing, (s1, wire ++ r.wire))
        else (check_close s1 >>= λ x. some (x.0, (x.1, wire ++ r.wire))))

-- `send_buffer_`: the result, the socket and the bytes written
unfoldable pub send_buffers : List WriteOutcome → Socket → Option (Result × (Socket × List ℕ))
send_buffers os s =
    assert (not (list_uncomplete s.low))
    >> (send_list_tcp os s s.high >>= λ r.
        let s1 = record r.socket { high = r.list } in
        if not r.alive
        then some (closed, (s1, r.wire))
        else if is_empty s1.high
        then send_low r.rest s1 r.wire
        else some (nothing, (s1, r.wire)))

-- The direct write buffer goes before the list of high priority.
abbrev pub dw_list : Option DirectWrite → List WriteBuffer
dw_list none = []
dw_list (some d) =
    record { buffer = d.dw_buffer; ptr = d.dw_offset; sz = length d.dw_buffer - d.dw_offset } ∷ []

abbrev pub dw_left : Option DirectWrite → ℕ
dw_left none = 0
dw_left (some d) = length d.dw_buffer - d.dw_offset

-- `lock` tells whether `socket_trylock` succeeds.
unfoldable pub send_buffer : Bool → List WriteOutcome → Socket → Option (Result × (Socket × List ℕ))
send_buffer lock os s =
    if not lock
    then some (nothing, (s, []))
    else send_buffers os
        (record s { high = dw_list s.dw ++ s.high; wb_size = s.wb_size + dw_left s.dw; dw = none })

abbrev pub append_sendbuffer : Socket → List ℕ → Socket
append_sendbuffer s data' = record s {
  high = s.high ++ record { buffer = data'; ptr = 0; sz = length data' } ∷ [];
  wb_size = s.wb_size + length data';
}

abbrev pub append_sendbuffer_low : Socket → List ℕ → Socket
append_sendbuffer_low s data' = record s {
  low = s.low ++ record { buffer = data'; ptr = 0; sz = length data' } ∷ [];
  wb_size = s.wb_size + length data';
}

-- the warning at the end of `send_socket`
abbrev pub warn_at : Socket → Result × Socket
warn_at s =
    if leb warning_size s.wb_size && leb s.warn_size s.wb_size
    then (
      warned,
      record s { warn_size = if s.warn_size == 0 then warning_size * 2 else s.warn_size * 2 },
    )
    else (nothing, s)

-- `high` is for PRIORITY_HIGH.
unfoldable pub send_socket : Socket → ℕ → Bool → List ℕ → Result × Socket
send_socket s id high data' =
    if is_type s.socket_type invalid
      || not (s.id == id)
      || is_type s.socket_type halfclose
      || is_type s.socket_type paccept
    then (nothing, s)
    else if is_type s.socket_type plisten || is_type s.socket_type listen
    then (nothing, s)
    else if send_buffer_empty s && is_type s.socket_type connected
    then warn_at (record (append_sendbuffer s data') { write_event = true })
    else warn_at (if high then append_sendbuffer s data' else append_sendbuffer_low s data')
