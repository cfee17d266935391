-- ===== src/Socket/Drain.antt =====
-- skynet-1.2.0/skynet-src/socket_server.c: `send_buffer` implements the flow of packages.
use skynet_sy.Common.{
  ℕ, zero, suc, ◌+◌, ◌^◌, ◌<◌, ◌≡◌, refl, sym, ◌∙◌, ap, subst, arith, Bool, true, false, not,
  Option, none, some, List, [], ◌∷◌, ◌++◌, length, inl, if◌then◌else◌, ◌>>=◌,
}
use skynet_sy.Common.Bytes.{append_nil, concat}
use skynet_sy.Socket.State.{reserve, is_type, DirectWrite, WriteOutcome, nothing, closed}
use skynet_sy.Socket.Send.{
  is_empty, send_list_tcp, send_low, send_buffers, dw_list, dw_left, send_buffer,
}
use skynet_sy.Socket.Flow.{◌⟶*◌, here, part, Partial, flow, write_high}
use skynet_sy.Socket.Shape.{shape, total, Stops, Progress, Sends, stays, dies, total-append}
use skynet_sy.Socket.Written.{send_list_lem}
use skynet_sy.Socket.Line.{Counts, Line, Shows}
use skynet_sy.Socket.Drained.{with_buffers, Drained, flows, ends, fresh_complete, bytes_on, prepend}
use skynet_sy.Socket.DrainLow.{send_low_end}

module _ (l : Line) (count : Counts l) (room : length l.pipe < 2 ^ 16) where
  -- Both lists
  send_buffers_end :
      (os : List WriteOutcome) (a b : ℕ) (out : List (List ℕ)) (k : ℕ) (items low : List (List ℕ))
      → Stops os
      → is_type l.socket.socket_type reserve ≡ false
      → Partial k items
      → b ≡ total (shape k items) + total (shape 0 low)
      → l.wire ≡ concat out ++ part k items
      → Drained l
          (send_buffers os (with_buffers l a b (shape k items) (shape 0 low)))
          os
          out
          k
          items
          low
  unfolding send_buffers
  send_buffers_end os a b out k items low stop live v size bytes = rw (fresh_complete low) (
      after (
        send_list_lem os (with_buffers l a b (shape k items) (shape 0 low)) (total (shape 0 low)) k
          items stop v live size))
    where
      moved :
          (done : List (List ℕ)) (k' : ℕ) (items' : List (List ℕ)) (wire : List ℕ)
          → Progress k items wire done k' items'
          → flow out k items low l.pipe ⟶* flow (out ++ done) k' items' low l.pipe
      moved done k' items' wire p =
          subst (λ z. flow out k z low l.pipe ⟶* flow (out ++ done) k' items' low l.pipe)
            (sym p.split) (write_high low l.pipe done k k' out items' p.partial p.grows)

      given :
          (done : List (List ℕ)) (k' : ℕ) (items' : List (List ℕ)) (wire : List ℕ)
          → Progress k items wire done k' items'
          → l.wire ++ wire ≡ concat (out ++ done) ++ part k' items'
      given done k' items' wire p =
          bytes_on l count room [] wire out k items done k' items' (append_nil l.wire ∙ bytes) p

      after :
          Sends os (with_buffers l a b (shape k items) (shape 0 low)) (total (shape 0 low)) k items
          → Drained l
              (send_list_tcp os (with_buffers l a b (shape k items) (shape 0 low)) (shape k items)
                >>= λ r.
                    let s1 = record r.socket { high = r.list } in
                    if not r.alive
                    then some (closed, (s1, r.wire))
                    else if is_empty s1.high
                    then send_low r.rest s1 r.wire
                    else some (nothing, (s1, r.wire)))
              os
              out
              k
              items
              low
      after (dies done k' items' wire rest s' run p dead fails) =
          ends (record s' { high = [] }) wire (out ++ done) k' items' low (rw run refl)
            (moved done k' items' wire p) (given done k' items' wire p) dead (inl fails)
      after (stays done zero [] wire rest a' b' run p size' on fails) = rw run (
          prepend l count room (moved done 0 [] wire p) fails (
            send_low_end l count room rest wire a' b' (out ++ done) low (on refl) live
              (omega (arith, size')) (given done 0 [] wire p)))
      after (stays done (suc k') [] wire rest a' b' run p size' on fails) =
          absurd (ground (arith, p.partial))
      after (stays done k' (y ∷ ys) wire rest a' b' run p size' on fails) =
          flows nothing (with_buffers l a' b' (shape k' (y ∷ ys)) (shape 0 low)) wire (out ++ done)
            k' (y ∷ ys) low (rw run refl) refl refl (moved done k' (y ∷ ys) wire p)
            (record {
              waiting = refl;
              waiting_low = refl;
              size = size';
              partial = p.partial;
              count = count;
              room = room;
              bytes = given done k' (y ∷ ys) wire p;
            })

dw_total : (d : Option DirectWrite) → total (dw_list d) ≡ dw_left d
dw_total none = refl
dw_total (some d) = omega arith

send_locked :
    (os : List WriteOutcome) (l : Line) (out : List (List ℕ)) (k : ℕ) (items low : List (List ℕ))
    → Shows l out k items low
    → Stops os
    → is_type l.socket.socket_type reserve ≡ false
    → Drained l (send_buffer true os l.socket) os out k items low
unfolding send_buffer
send_locked os l out k items low h stop live =
    subst (λ z. Drained l (send_buffers os z) os out k items low) buffers
      (send_buffers_end l h.count h.room os l.socket.written
        (l.socket.wb_size + dw_left l.socket.dw) out k items low stop live h.partial sizes h.bytes)
  where
    sizes : l.socket.wb_size + dw_left l.socket.dw ≡ total (shape k items) + total (shape 0 low)
    sizes = omega (
      arith,
      h.size,
      dw_total l.socket.dw,
      total-append (dw_list l.socket.dw) l.socket.high,
      ap total h.waiting,
      ap total h.waiting_low,
    )

    buffers :
        with_buffers l l.socket.written
          (l.socket.wb_size + dw_left l.socket.dw)
          (shape k items)
          (shape 0 low)
        ≡ record l.socket {
          high = dw_list l.socket.dw ++ l.socket.high;
          wb_size = l.socket.wb_size + dw_left l.socket.dw;
          dw = none;
        }
    buffers = λ i. record l.socket {
      high = sym h.waiting i;
      low = sym h.waiting_low i;
      wb_size = l.socket.wb_size + dw_left l.socket.dw;
      dw = none;
    }

-- On a line, a TCP socket with the requests on their way and the bytes written, that shows a flow
-- of packages with k bytes of the first written, where the answers of write end in EAGAIN or a
-- failure and the socket is not only reserved: a run of send_buffer faults nowhere. Either it does
-- not close the socket, whose type stays, and by steps of the flow, in which packages are written
-- whole and those of low priority only where no other waits, the line shows the flow again; or it
-- closes the socket, the bytes written are those of a flow reached by such steps, and there was a
-- failure, or the socket was half closed and no package waits in its lists.
pub send_buffer_lem :
    (lock : Bool) (os : List WriteOutcome) (l : Line) (out : List (List ℕ)) (k : ℕ)
    (items low : List (List ℕ))
    → Shows l out k items low
    → Stops os
    → is_type l.socket.socket_type reserve ≡ false
    → Drained l (send_buffer lock os l.socket) os out k items low
unfolding send_buffer
send_buffer_lem true os l out k items low h stop live = send_locked os l out k items low h stop live
send_buffer_lem false os l out k items low h stop live =
    flows nothing l.socket [] out k items low refl refl refl here (record {
      waiting = h.waiting;
      waiting_low = h.waiting_low;
      size = h.size;
      partial = h.partial;
      count = h.count;
      room = h.room;
      bytes = append_nil l.wire ∙ h.bytes;
    })
