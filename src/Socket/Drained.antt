-- ===== src/Socket/Drained.antt =====
-- skynet-1.2.0/skynet-src/socket_server.c: what a run of `send_buffer` does to the flow of packages.
use skynet_sy.Common.{
  ℕ, ◌^◌, ◌<◌, ◌≡◌, refl, sym, ◌∙◌, ap, arith, Bool, true, false, ◌&&◌, Option, none, some, List,
  [], ◌∷◌, ◌++◌, length, ◌==◌, Bool-cases, inl, inr, ◌⊎◌, ◌>>=◌, ltb,
}
use skynet_sy.Common.Bytes.{append_assoc, concat, concat-append}
use skynet_sy.Socket.State.{
  SocketType, invalid, reserve, halfclose, is_type, WriteBuffer, Socket, WriteOutcome, Result,
  nothing, closed, warned,
}
use skynet_sy.Socket.Send.{list_uncomplete, send_buffer_empty, check_close}
use skynet_sy.Socket.Flow.{◌⟶*◌, here, part, Partial, flow, ⟶*-trans}
use skynet_sy.Socket.Shape.{shape, Fails, Progress, force_close_lem}
use skynet_sy.Socket.Line.{Counts, Line, Shows}

abbrev pub is_closed : Result → Bool
is_closed nothing = false
is_closed closed = true
is_closed warned = false

-- What step 4 gives where nothing waits
data Checked (s : Socket) : Type 0 where
  open_on :
      (r : Result) (w : ℕ)
      → check_close s ≡ some (r, record s { write_event = false; warn_size = w })
      → is_closed r ≡ false
      → Checked s
  shut :
      (s' : Socket)
      → check_close s ≡ some (closed, s')
      → is_type s'.socket_type invalid ≡ true
      → is_type s.socket_type halfclose ≡ true
      → Checked s

halfclose_live : (t : SocketType) → is_type t halfclose ≡ true → is_type t reserve ≡ false
halfclose_live t h = ground arith

check_close_lem : (s : Socket) → (send_buffer_empty s && s.wb_size == 0) ≡ true → Checked s
unfolding check_close
check_close_lem s e = elim (Bool-cases (is_type s.socket_type halfclose)) [
  | inl h ↦
      let c = force_close_lem (record s { write_event = false }) (halfclose_live s.socket_type h) in
      shut c.0 (rw (e, h, c.1) refl) c.2 h
  | inr h ↦ elim (Bool-cases (ltb 0 s.warn_size)) [
    | inl w ↦ open_on warned 0 (rw (e, h, w) refl) refl
    | inr w ↦ open_on nothing s.warn_size (rw (e, h, w) refl) refl
  ]
]

-- The socket of the line with these buffers
abbrev pub with_buffers : Line → ℕ → ℕ → List WriteBuffer → List WriteBuffer → Socket
with_buffers l a b high low = record l.socket {
  written = a;
  wb_size = b;
  high = high;
  low = low;
  dw = none;
}

-- What a run of the loop does to the flow: the socket stays open and shows it, or closes for a
-- failure, or closes after a half close when nothing waits.
pub data Drained (l : Line) (run : Option (Result × (Socket × List ℕ))) (os : List WriteOutcome)
    (out : List (List ℕ)) (k : ℕ) (items low : List (List ℕ)) : Type 0 where
  flows :
      (r : Result) (s' : Socket) (w : List ℕ) (out' : List (List ℕ)) (k' : ℕ)
      (items' low' : List (List ℕ))
      → run ≡ some (r, (s', w))
      → is_closed r ≡ false
      → s'.socket_type ≡ l.socket.socket_type
      → flow out k items low l.pipe ⟶* flow out' k' items' low' l.pipe
      → Shows (record l { socket = s'; wire = l.wire ++ w }) out' k' items' low'
      → Drained l run os out k items low
  ends :
      (s' : Socket) (w : List ℕ) (out' : List (List ℕ)) (k' : ℕ) (items' low' : List (List ℕ))
      → run ≡ some (closed, (s', w))
      → flow out k items low l.pipe ⟶* flow out' k' items' low' l.pipe
      → l.wire ++ w ≡ concat out' ++ part k' items'
      → is_type s'.socket_type invalid ≡ true
      → Fails os ⊎ ((items' ≡ []) × (low' ≡ []) × (is_type l.socket.socket_type halfclose ≡ true))
      → Drained l run os out k items low

Partial-nil : (k : ℕ) → Partial k [] → k ≡ 0
Partial-nil k v = v

pub fresh_complete : (low : List (List ℕ)) → list_uncomplete (shape 0 low) ≡ false
fresh_complete [] = refl
fresh_complete (x ∷ low) = refl

module _ (l : Line) (count : Counts l) (room : length l.pipe < 2 ^ 16) where
  -- The bytes after the packages `done`
  pub bytes_on :
      (w0 w : List ℕ) (out : List (List ℕ)) (k : ℕ) (items done : List (List ℕ)) (k' : ℕ)
      (items' : List (List ℕ))
      → l.wire ++ w0 ≡ concat out ++ part k items
      → Progress k items w done k' items'
      → l.wire ++ (w0 ++ w) ≡ concat (out ++ done) ++ part k' items'
  bytes_on w0 w out k items done k' items' e p =
      sym (append_assoc l.wire w0 w)
      ∙ ap (λ z. z ++ w) e
      ∙ append_assoc (concat out) (part k items) w
      ∙ ap (λ z. concat out ++ z) p.bytes
      ∙ sym (append_assoc (concat out) (concat done) (part k' items'))
      ∙ ap (λ z. z ++ part k' items') (sym (concat-append out done))

  -- Nothing waits.
  pub check_close_end :
      (os : List WriteOutcome) (w : List ℕ) (a b : ℕ) (out : List (List ℕ))
      → b ≡ 0
      → l.wire ++ w ≡ concat out ++ []
      → Drained l
          (check_close (with_buffers l a b [] []) >>= λ r. some (r.0, (r.1, w)))
          os
          out
          0
          []
          []
  check_close_end os w a b out e bytes =
      elim (check_close_lem (with_buffers l a b [] []) (ground (arith, e))) [
        | open_on r m run live ↦
            flows r (record (with_buffers l a b [] []) { write_event = false; warn_size = m }) w out
              0 [] [] (rw run refl) live refl here
              (record {
                waiting = refl;
                waiting_low = refl;
                size = e;
                partial = refl;
                count = count;
                room = room;
                bytes = bytes;
              })
        | shut s' run dead half ↦
            ends s' w out 0 [] [] (rw run refl) here bytes dead (inr (refl, refl, half))
      ]

  pub prepend :
      {run : Option (Result × (Socket × List ℕ))} {os os' : List WriteOutcome}
      {out out' : List (List ℕ)} {k k' : ℕ} {items items' low low' : List (List ℕ)}
      → flow out k items low l.pipe ⟶* flow out' k' items' low' l.pipe
      → (Fails os' → Fails os)
      → Drained l run os' out' k' items' low'
      → Drained l run os out k items low
  prepend steps fails (flows r s' w out2 k2 items2 low2 run live same on shows) =
      flows r s' w out2 k2 items2 low2 run live same (⟶*-trans steps on) shows
  prepend steps fails (ends s' w out2 k2 items2 low2 run on bytes dead (inl f)) =
      ends s' w out2 k2 items2 low2 run (⟶*-trans steps on) bytes dead (inl (fails f))
  prepend steps fails (ends s' w out2 k2 items2 low2 run on bytes dead (inr e)) =
      ends s' w out2 k2 items2 low2 run (⟶*-trans steps on) bytes dead (inr e)
