-- ===== src/Socket/Waits.antt =====
-- skynet-1.2.0/skynet-src/socket_server.c: where nothing waits, every package that was given has left.
use skynet_sy.Common.{
  ℕ, ◌%◌, ◌^◌, ◌≤◌, ◌≡◌, refl, sym, ◌∙◌, ap, arith, Bool, true, Option, none, some, List, [], ◌∷◌,
  ◌++◌, length, is_null,
}
use skynet_sy.Socket.State.{
  DirectWrite, WriteBuffer, Socket, WriteOutcome, wrote, interrupted, again, broken,
}
use skynet_sy.Socket.Send.{is_empty, dw_list}
use skynet_sy.Socket.Submit.{nomore_sending_data, can_direct_write, bytes_taken}
use skynet_sy.Socket.Flow.{Partial}
use skynet_sy.Socket.Shape.{shape}
use skynet_sy.Socket.Line.{Line, Shows}
use skynet_sy.Socket.Queued.{empty_lem}
use skynet_sy.Socket.Accept.{shape_nil}

nomore_lem :
    (s : Socket)
    → nomore_sending_data s ≡ true
    → (is_empty s.high ≡ true)
      × (is_empty s.low ≡ true)
      × (is_null s.dw ≡ true)
      × (s.sending % 2 ^ 16 ≡ 0)
nomore_lem s e = ground arith

pub direct-nomore : (s : Socket) → can_direct_write s s.id ≡ true → nomore_sending_data s ≡ true
direct-nomore s e = ground arith

null_lem : (d : Option DirectWrite) → is_null d ≡ true → d ≡ none
null_lem none e = refl
null_lem (some d) e = cc

pipe_nil : (ps : List (Bool × List ℕ)) → length ps ≡ 0 → ps ≡ []
pipe_nil [] e = refl
pipe_nil (p ∷ ps) e = absurd (omega (arith, e))

pub taken_le : (o : WriteOutcome) (n : ℕ) → bytes_taken o n ≤ n
taken_le (wrote m) n = omega arith
taken_le interrupted n = omega arith
taken_le again n = omega arith
taken_le broken n = omega arith

null_left :
    (d : Option DirectWrite) (hs : List WriteBuffer) → dw_list d ++ hs ≡ [] → (d ≡ none) × (hs ≡ [])
null_left none hs e = (refl, e)
null_left (some d) hs e = cc

pub left_nomore :
    (l : Line) (out : List (List ℕ)) (k : ℕ) (items low : List (List ℕ))
    → Shows l out k items low
    → items ≡ []
    → low ≡ []
    → l.pipe ≡ []
    → nomore_sending_data l.socket ≡ true
left_nomore l out k items low h none_high none_low none_asked =
    let top = null_left l.socket.dw l.socket.high (h.waiting ∙ ap (shape k) none_high) in
    let counted : l.socket.sending % 2 ^ 16 ≡ 0 = omega (arith, h.count.1, ap length none_asked) in
    rw
      (
        ap is_empty top.1,
        ap is_empty (h.waiting_low ∙ ap (shape 0) none_low),
        ap is_null top.0,
        counted,
      )
      refl

pub nothing_waits :
    (l : Line) (out : List (List ℕ)) (k : ℕ) (items low : List (List ℕ))
    → Shows l out k items low
    → nomore_sending_data l.socket ≡ true
    → (k ≡ 0) × (items ≡ []) × (low ≡ []) × (l.pipe ≡ []) × (l.socket.high ≡ [])
nothing_waits l out k items low h e = (
  zero_k items h.partial none_left,
  none_left,
  shape_nil 0 low (sym h.waiting_low ∙ empty_lem l.socket.low f.1),
  pipe_nil l.pipe (omega (arith, f.3, h.count.1, h.room)),
  empty_lem l.socket.high f.0,
)
  where
    f :
        (is_empty l.socket.high ≡ true)
        × (is_empty l.socket.low ≡ true)
        × (is_null l.socket.dw ≡ true)
        × (l.socket.sending % 2 ^ 16 ≡ 0)
    f = nomore_lem l.socket e

    none_left : items ≡ []
    none_left = shape_nil k items (
        sym h.waiting
        ∙ (λ i. dw_list (null_lem l.socket.dw f.2 i) ++ empty_lem l.socket.high f.0 i))

    zero_k : (items' : List (List ℕ)) → Partial k items' → items' ≡ [] → k ≡ 0
    zero_k [] v z = v
    zero_k (y ∷ ys) v z = cc
