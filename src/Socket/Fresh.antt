-- ===== src/Socket/Fresh.antt =====
-- skynet-1.2.0/skynet-src/socket_server.c: a socket that is opened for a reserved id.
use skynet_sy.Common.{
  ℕ, ◌*◌, ◌^◌, ◌<◌, ◌≡◌, refl, sym, ap, subst, arith, Bool, true, false, none, some, [], ==_refl,
  inl, inr, ◌⊎◌,
}
use skynet_sy.Socket.State.{
  tcp, SocketType, invalid, reserve, connected, connecting, is_type, hash_id, id_tag16,
  min_read_buffer, Socket,
}
use skynet_sy.Socket.Send.{is_empty}
use skynet_sy.Socket.Line.{Line, Shows}
use skynet_sy.Socket.Shape.{total}
use skynet_sy.Socket.Queued.{Sending}
use skynet_sy.Socket.Server.{
  SocketServer, at, put_slot, set_type, new_fd, ConnectResult, unreachable, made, open_socket,
  Report, opened, failed, silent,
}
use skynet_sy.Socket.Slots.{IsValid, SlotOk, Unused, put_slot-IsValid}

abbrev pub line_of : Socket → Line
line_of s = record { socket = s; pipe = []; wire = [] }

at-put_slot : (ss : SocketServer) (id : ℕ) (s : Socket) → at (put_slot ss id s) id ≡ s
at-put_slot ss id s = rw (==_refl (hash_id id)) refl

module _ (ss : SocketServer) (v : IsValid ss) (id : ℕ) (small : id < 2 ^ 31)
    (is_reserved : (at ss id).socket_type ≡ reserve) where
  unused : Unused (at ss id)
  unused =
      (subst (λ t. SlotOk t (hash_id id) (at ss id)) is_reserved
        (v.slots (hash_id id) (omega arith))).1

  -- the socket that `new_fd` makes
  fresh_socket : ℕ → ℕ → Socket
  fresh_socket fd opaque = record (at ss id) {
    id = id;
    fd = fd;
    sending = id_tag16 id * 2 ^ 16;
    protocol = tcp;
    p_size = min_read_buffer;
    opaque = opaque;
    wb_size = 0;
    warn_size = 0;
    dw = none;
    written = 0;
  }

  fresh-Shows :
      (fd opaque : ℕ) (t : SocketType) (e : Bool)
      → Shows
          (line_of (record (fresh_socket fd opaque) { socket_type = t; write_event = e }))
          []
          0
          []
          []
  unfolding fresh_socket
  fresh-Shows fd opaque t e = record {
    waiting = unused.0;
    waiting_low = unused.1;
    size = omega (arith, ap total unused.0, ap total unused.1);
    partial = refl;
    count = (refl, omega arith);
    room = omega arith;
    bytes = refl;
  }

  new_fd_made :
      (fd opaque : ℕ)
      → new_fd true ss id fd tcp opaque ≡ some (true, put_slot ss id (fresh_socket fd opaque))
  unfolding new_fd fresh_socket
  new_fd_made fd opaque =
      rw (ap (λ t. is_type t reserve) is_reserved, ap is_empty unused.0, ap is_empty unused.1) refl

  new_fd_refused :
      (fd opaque : ℕ) → new_fd false ss id fd tcp opaque ≡ some (false, set_type ss id invalid)
  unfolding new_fd
  new_fd_refused fd opaque = rw (ap (λ t. is_type t reserve) is_reserved) refl

  fresh-IsValid : (fd opaque : ℕ) → IsValid (put_slot ss id (fresh_socket fd opaque))
  unfolding fresh_socket
  fresh-IsValid fd opaque = put_slot-IsValid ss id (fresh_socket fd opaque) v (
      subst (λ t. SlotOk t (hash_id id) (fresh_socket fd opaque)) (sym is_reserved)
        ((refl, small), unused))

  -- Where the slots are in order and the slot of an id below 2^31 is reserved for it: the opening
  -- of a connection ends without a failed assert and keeps the slots in order. Either it fails and
  -- the slot is free again, or the socket is connected or connecting and shows the flow with no
  -- package, nothing written and no request on the way.
  pub open_socket_lem :
      (conn : ConnectResult) (added : Bool) (opaque : ℕ)
      → (r : Report) × (ss' : SocketServer) × (open_socket conn added ss id opaque ≡ some (r, ss'))
        × IsValid ss'
        × ((r ≡ failed) × ((at ss' id).socket_type ≡ invalid)
            ⊎ Sending (at ss' id).socket_type × Shows (line_of (at ss' id)) [] 0 [] [])
  unfolding open_socket fresh_socket
  open_socket_lem unreachable added opaque = (
    failed,
    set_type ss id invalid,
    refl,
    put_slot-IsValid ss id _ v unused,
    inl (refl, rw (==_refl (hash_id id)) refl),
  )
  open_socket_lem (made fd now) false opaque =
      let gone : Socket = record (at ss id) { socket_type = invalid } in
      let once : SocketServer = put_slot ss id gone in
      (
        failed,
        put_slot once id gone,
        rw (new_fd_refused fd opaque) (
            ap (λ s. some (failed, put_slot once id (record s { socket_type = invalid })))
              (at-put_slot ss id gone)),
        put_slot-IsValid once id gone (put_slot-IsValid ss id gone v unused) unused,
        inl (refl, ap (λ s. s.socket_type) (at-put_slot once id gone)),
      )
  open_socket_lem (made fd true) true opaque =
      let s : Socket = record (fresh_socket fd opaque) { socket_type = connected } in
      let once : SocketServer = put_slot ss id (fresh_socket fd opaque) in
      (
        opened,
        put_slot once id s,
        rw (new_fd_made fd opaque) (
            ap (λ s0. some (opened, put_slot once id (record s0 { socket_type = connected })))
              (at-put_slot ss id (fresh_socket fd opaque))),
        put_slot-IsValid once id s (fresh-IsValid fd opaque) ((refl, small), omega arith),
        inr (
            subst (λ s1. Sending s1.socket_type × Shows (line_of s1) [] 0 [] [])
              (sym (at-put_slot once id s))
              (inl refl, fresh-Shows fd opaque connected (at ss id).write_event)),
      )
  open_socket_lem (made fd false) true opaque =
      let s : Socket = record (fresh_socket fd opaque) {
        socket_type = connecting;
        write_event = true;
      } in
      let once : SocketServer = put_slot ss id (fresh_socket fd opaque) in
      (
        silent,
        put_slot once id s,
        rw (new_fd_made fd opaque) (
            ap
              (λ s0. some (
                silent,
                put_slot once id (record s0 { socket_type = connecting; write_event = true }),
              ))
              (at-put_slot ss id (fresh_socket fd opaque))),
        put_slot-IsValid once id s (fresh-IsValid fd opaque) ((refl, small), omega arith),
        inr (
            subst (λ s1. Sending s1.socket_type × Shows (line_of s1) [] 0 [] [])
              (sym (at-put_slot once id s)) (inr refl, fresh-Shows fd opaque connecting true)),
      )
