-- ===== src/Socket/Close.antt =====
-- skynet-1.2.0/skynet-src/socket_server.c: `close_socket` closes a socket at once only if nothing waits,
-- on a shutdown, or after a failure.
use skynet_sy.Common.{
  ℕ, ◌≡◌, refl, sym, ◌∙◌, ap, subst, Bool, true, false, ◌||◌, Option, some, List, [], ◌++◌, ==_refl,
  Bool-cases, inl, inr, ◌⊎◌, if◌then◌else◌, ◌>>=◌,
}
use skynet_sy.Common.Bytes.{append_nil, concat}
use skynet_sy.Socket.State.{
  invalid, reserve, halfclose, is_type, Socket, WriteOutcome, Result, nothing, closed, warned,
}
use skynet_sy.Socket.Send.{force_close, send_buffer}
use skynet_sy.Socket.Submit.{nomore_sending_data, close_socket}
use skynet_sy.Socket.Flow.{◌⟶*◌, here, flow, part}
use skynet_sy.Socket.Shape.{Stops, Fails, force_close_lem}
use skynet_sy.Socket.Line.{Line, Shows}
use skynet_sy.Socket.Drained.{Drained, flows, ends}
use skynet_sy.Socket.Drain.{send_buffer_lem}
use skynet_sy.Socket.Waits.{nothing_waits, left_nomore}

-- The end of `close_socket`
abbrev pub finish : ℕ → Bool → Socket → List ℕ → Option (Result × (Socket × List ℕ))
finish id shutdown s1 wire =
    if shutdown || nomore_sending_data s1
    then (force_close s1 >>= λ s2. some (closed, (s2, wire)))
    else some (nothing, (record s1 { socket_type = halfclose }, wire))

abbrev pub after_write : ℕ → Bool → Result × (Socket × List ℕ) → Option (Result × (Socket × List ℕ))
after_write id shutdown r = elim r.0 as (λ _. Option (Result × (Socket × List ℕ))) [
  | closed ↦ some r
  | nothing ↦ finish id shutdown r.1.0 r.1.1
  | warned ↦ finish id shutdown r.1.0 r.1.1
]

-- Every package that was given has left.
abbrev pub Left : List (List ℕ) → List (List ℕ) → List (Bool × List ℕ) → Type 0
Left items low pipe = (items ≡ []) × (low ≡ []) × (pipe ≡ [])

pub data Closes (l : Line) (run : Option (Result × (Socket × List ℕ))) (os : List WriteOutcome)
    (shutdown : Bool) (out : List (List ℕ)) (k : ℕ) (items low : List (List ℕ)) : Type 0 where
  half_closed :
      (s' : Socket) (w : List ℕ) (out' : List (List ℕ)) (k' : ℕ) (items' low' : List (List ℕ))
      → run ≡ some (nothing, (s', w))
      → s'.socket_type ≡ halfclose
      → shutdown ≡ false
      → ¬ Left items' low' l.pipe
      → flow out k items low l.pipe ⟶* flow out' k' items' low' l.pipe
      → Shows (record l { socket = s'; wire = l.wire ++ w }) out' k' items' low'
      → Closes l run os shutdown out k items low
  is_done :
      (s' : Socket) (w : List ℕ) (out' : List (List ℕ)) (k' : ℕ) (items' low' : List (List ℕ))
      → run ≡ some (closed, (s', w))
      → flow out k items low l.pipe ⟶* flow out' k' items' low' l.pipe
      → l.wire ++ w ≡ concat out' ++ part k' items'
      → is_type s'.socket_type invalid ≡ true
      → (shutdown ≡ true)
        ⊎ (Fails os
            ⊎ (Left items' low' l.pipe
                ⊎ (items' ≡ []) × (low' ≡ []) × (is_type l.socket.socket_type halfclose ≡ true)))
      → Closes l run os shutdown out k items low

or_true : (a b : Bool) → (a || b) ≡ true → (a ≡ true) ⊎ (b ≡ true)
or_true true b e = inl refl
or_true false b e = inr e

or_false : (a b : Bool) → (a || b) ≡ false → (a ≡ false) × (b ≡ false)
or_false true b e = cc
or_false false b e = (refl, e)

module _ (l : Line) (os : List WriteOutcome) (shutdown : Bool) (out : List (List ℕ)) (k : ℕ)
    (items low : List (List ℕ)) where
  finish-Closes :
      (s' : Socket) (w : List ℕ) (out' : List (List ℕ)) (k' : ℕ) (items' low' : List (List ℕ))
      → is_type s'.socket_type reserve ≡ false
      → flow out k items low l.pipe ⟶* flow out' k' items' low' l.pipe
      → Shows (record l { socket = s'; wire = l.wire ++ w }) out' k' items' low'
      → Closes l (finish l.socket.id shutdown s' w) os shutdown out k items low
  finish-Closes s' w out' k' items' low' live steps h =
      elim (Bool-cases (shutdown || nomore_sending_data s')) [
        | inl e ↦
            let c = force_close_lem s' live in
            is_done c.0 w out' k' items' low' (rw (e, c.1) refl) steps h.bytes c.2
              (elim (or_true shutdown (nomore_sending_data s') e) [
                | inl a ↦ inl a
                | inr n ↦
                    let z =
                      nothing_waits (record l { socket = s'; wire = l.wire ++ w }) out' k' items'
                        low' h n in
                    inr (inr (inl (z.1, z.2, z.3)))
              ])
        | inr e ↦
            half_closed (record s' { socket_type = halfclose }) w out' k' items' low' (rw e refl)
              refl (or_false shutdown (nomore_sending_data s') e).0
              (λ gone. cc (
                sym (or_false shutdown (nomore_sending_data s') e).1
                ∙ left_nomore (record { socket = s'; pipe = l.pipe; wire = l.wire ++ w }) out' k'
                    items' low' h gone.0 gone.1 gone.2))
              steps
              (record {
                waiting = h.waiting;
                waiting_low = h.waiting_low;
                size = h.size;
                partial = h.partial;
                count = h.count;
                room = h.room;
                bytes = h.bytes;
              })
      ]

  close_now :
      (lock : Bool)
      → is_type l.socket.socket_type invalid ≡ false
      → nomore_sending_data l.socket ≡ true
      → close_socket lock os l.socket l.socket.id shutdown ≡ finish l.socket.id shutdown l.socket []
  unfolding close_socket
  close_now lock used e = rw (used, ==_refl l.socket.id, e) refl

  close_later :
      (lock : Bool)
      → is_type l.socket.socket_type invalid ≡ false
      → nomore_sending_data l.socket ≡ false
      → close_socket lock os l.socket l.socket.id shutdown
        ≡ (send_buffer lock os l.socket >>= after_write l.socket.id shutdown)
  unfolding close_socket
  close_later lock used e = rw (used, ==_refl l.socket.id, e) refl

  written-Closes :
      (run : Option (Result × (Socket × List ℕ)))
      → is_type l.socket.socket_type reserve ≡ false
      → Drained l run os out k items low
      → Closes l (run >>= after_write l.socket.id shutdown) os shutdown out k items low
  written-Closes run live (flows nothing s' w out' k' items' low' e ok same steps h) =
      rw e
        (finish-Closes s' w out' k' items' low' (ap (λ t. is_type t reserve) same ∙ live) steps h)
  written-Closes run live (flows warned s' w out' k' items' low' e ok same steps h) =
      rw e
        (finish-Closes s' w out' k' items' low' (ap (λ t. is_type t reserve) same ∙ live) steps h)
  written-Closes run live (flows closed s' w out' k' items' low' e ok same steps h) = cc
  written-Closes run live (ends s' w out' k' items' low' e steps bytes dead (inl f)) =
      is_done s' w out' k' items' low' (rw e refl) steps bytes dead (inr (inl f))
  written-Closes run live (ends s' w out' k' items' low' e steps bytes dead (inr z)) =
      is_done s' w out' k' items' low' (rw e refl) steps bytes dead (inr (inr (inr z)))

  -- On a line that shows a flow of packages, whose socket is in use and not only reserved, where
  -- the answers of write end in EAGAIN or a failure: close_socket faults nowhere. Either there is
  -- no shutdown, some package is still to be written or on its way as a request, the socket is
  -- half closed and, by steps of the flow, its line shows the flow again; or it is closed, the
  -- bytes written are those of a flow reached by such steps, and there was a shutdown, or a
  -- failure, or no package is left in the lists and none on its way as a request, or none is left
  -- in the lists of a socket that was half closed before.
  pub close_socket_lem :
      (lock : Bool)
      → Shows l out k items low
      → Stops os
      → is_type l.socket.socket_type invalid ≡ false
      → is_type l.socket.socket_type reserve ≡ false
      → Closes l (close_socket lock os l.socket l.socket.id shutdown) os shutdown out k items low
  close_socket_lem lock h stop used live = elim (Bool-cases (nomore_sending_data l.socket)) [
    | inl e ↦
        subst (λ z. Closes l z os shutdown out k items low) (sym (close_now lock used e))
          (finish-Closes l.socket [] out k items low live here (record {
            waiting = h.waiting;
            waiting_low = h.waiting_low;
            size = h.size;
            partial = h.partial;
            count = h.count;
            room = h.room;
            bytes = append_nil l.wire ∙ h.bytes;
          }))
    | inr e ↦
        subst (λ z. Closes l z os shutdown out k items low) (sym (close_later lock used e))
          (written-Closes (send_buffer lock os l.socket) live
            (send_buffer_lem lock os l out k items low h stop live))
  ]
