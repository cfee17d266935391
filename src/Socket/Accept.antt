-- ===== src/Socket/Accept.antt =====
-- skynet-1.2.0/skynet-src/socket_server.c: the requests 'D' and 'P' implement the flow of packages.
use skynet_sy.Common.{
  ℕ, suc, ◌+◌, ◌-◌, ◌*◌, ◌%◌, ◌^◌, ◌<◌, ◌≡◌, refl, sym, ◌∙◌, ap, subst, arith, Bool, true, false,
  some, List, [], ◌∷◌, ◌++◌, length, ==_ne, ==_refl,
}
use mathlib.Core.List.{append_assoc as buffers_assoc}
use skynet_sy.Common.Bytes.{concat}
use skynet_sy.Socket.State.{id_tag16, is_tcp, tcp, Socket, Result}
use skynet_sy.Socket.Send.{dw_list}
use skynet_sy.Socket.Submit.{dec_sending_ref}
use skynet_sy.Socket.Flow.{◌⟶*◌, flow, take_high, take_first, take_low}
use skynet_sy.Socket.Shape.{shape, Partial-fresh, total-append}
use skynet_sy.Socket.Line.{Line, ctrl_send, line_ctrl, Shows}
use skynet_sy.Socket.Queued.{
  fresh, part-snoc, Partial-snoc, shape-snoc, Sending, with_high, with_low, Queued, queued_high,
  queued_first, queued_low, send_socket_lem,
}

-- What a request does to the flow
pub data Accepted (l : Line) (out : List (List ℕ)) (k : ℕ) (items low : List (List ℕ))
    : Type 0 where
  accepted :
      (r : Result) (l' : Line) (items' low' : List (List ℕ))
      → line_ctrl l ≡ some (r, l')
      → flow out k items low l.pipe ⟶* flow out k items' low' l'.pipe
      → Shows l' out k items' low'
      → l'.wire ≡ l.wire
      → Accepted l out k items low

pub shape_nil : (k : ℕ) (items : List (List ℕ)) → shape k items ≡ [] → items ≡ []
shape_nil k [] e = refl
shape_nil k (x ∷ items) e = cc

dec_lem :
    (s : Socket) (t n : ℕ)
    → (s.protocol ≡ tcp) × (s.sending ≡ t * 2 ^ 16 + suc n)
    → suc n < 2 ^ 16
    → (dec_sending_ref s s.id ≡ some (record s { sending = s.sending - 1 }))
      × (s.sending - 1 ≡ t * 2 ^ 16 + n)
unfolding dec_sending_ref
dec_lem s t n e h = (
  rw (==_refl s.id, ap is_tcp e.0, ==_ne (s.sending % 2 ^ 16) 0 (λ z. omega (arith, e.1, h, z)))
      refl,
  omega (arith, e.1),
)

module _ (s : Socket) (w : List ℕ) (out : List (List ℕ)) (k : ℕ) (items low : List (List ℕ))
    (p : Bool × List ℕ) (ps : List (Bool × List ℕ))
    (h : Shows (record { socket = s; pipe = p ∷ ps; wire = w }) out k items low) where
  one_less : s.sending - 1 ≡ id_tag16 s.id * 2 ^ 16 + length ps
  one_less = omega (arith, h.count.1)

  Shows-high :
      (m : ℕ) (e : Bool)
      → Shows
          (record {
            socket = record (with_high s p.1 m e) { sending = s.sending - 1 };
            pipe = ps;
            wire = w;
          })
          out
          k
          (items ++ p.1 ∷ [])
          low
  Shows-high m e = record {
    waiting =
        sym (buffers_assoc (dw_list s.dw) s.high (fresh p.1 ∷ []))
        ∙ ap (λ l. l ++ fresh p.1 ∷ []) h.waiting
        ∙ sym (shape-snoc k items p.1 h.partial);
    waiting_low = h.waiting_low;
    size = omega (arith, h.size, total-append s.high (fresh p.1 ∷ []));
    partial = Partial-snoc k items p.1 h.partial;
    count = (h.count.0, one_less);
    room = omega (arith, h.room);
    bytes = h.bytes ∙ ap (λ z. concat out ++ z) (sym (part-snoc k items p.1 h.partial));
  }

  Shows-low :
      (m : ℕ)
      → Shows
          (record {
            socket = record (with_low s p.1 m) { sending = s.sending - 1 };
            pipe = ps;
            wire = w;
          })
          out
          k
          items
          (low ++ p.1 ∷ [])
  Shows-low m = record {
    waiting = h.waiting;
    waiting_low =
        ap (λ l. l ++ fresh p.1 ∷ []) h.waiting_low
        ∙ sym (shape-snoc 0 low p.1 (Partial-fresh low));
    size = omega (arith, h.size, total-append s.low (fresh p.1 ∷ []));
    partial = h.partial;
    count = (h.count.0, one_less);
    room = omega (arith, h.room);
    bytes = h.bytes;
  }

module _ (s : Socket) (w : List ℕ) (out : List (List ℕ)) (k : ℕ) (items low : List (List ℕ))
    (x : List ℕ) (ps : List (Bool × List ℕ)) where
  accept :
      (b : Bool)
      → Shows (record { socket = s; pipe = (b, x) ∷ ps; wire = w }) out k items low
      → Queued s x b
      → Accepted (record { socket = s; pipe = (b, x) ∷ ps; wire = w }) out k items low
  unfolding line_ctrl ctrl_send
  accept true h (queued_high r m e run) =
      accepted r
        (record {
          socket = record (with_high s x m e) { sending = s.sending - 1 };
          pipe = ps;
          wire = w;
        })
        (items ++ x ∷ []) low
        (rw (run, (dec_lem (with_high s x m e) (id_tag16 s.id) (length ps) h.count h.room).0) refl)
        (take_high out x ps k items low h.partial)
        (Shows-high s w out k items low (true, x) ps h m e) refl
  accept false h (queued_first r m e empty run) =
      accepted r
        (record {
          socket = record (with_high s x m e) { sending = s.sending - 1 };
          pipe = ps;
          wire = w;
        })
        (items ++ x ∷ []) low
        (rw (run, (dec_lem (with_high s x m e) (id_tag16 s.id) (length ps) h.count h.room).0) refl)
        (subst (λ z. flow out k items z ((false, x) ∷ ps) ⟶* flow out k (items ++ x ∷ []) z ps)
          (sym (shape_nil 0 low (sym h.waiting_low ∙ empty)))
          (take_first out x ps k items h.partial))
        (Shows-high s w out k items low (false, x) ps h m e) refl
  accept false h (queued_low r m run) =
      accepted r
        (record {
          socket = record (with_low s x m) { sending = s.sending - 1 };
          pipe = ps;
          wire = w;
        })
        items (low ++ x ∷ [])
        (rw (run, (dec_lem (with_low s x m) (id_tag16 s.id) (length ps) h.count h.room).0) refl)
        (take_low out x ps k items low) (Shows-low s w out k items low (false, x) ps h m) refl

line_ctrl_cons :
    (s : Socket) (p : Bool × List ℕ) (ps : List (Bool × List ℕ)) (w : List ℕ) (out : List (List ℕ))
    (k : ℕ) (items low : List (List ℕ))
    → Shows (record { socket = s; pipe = p ∷ ps; wire = w }) out k items low
    → Sending s.socket_type
    → Accepted (record { socket = s; pipe = p ∷ ps; wire = w }) out k items low
line_ctrl_cons s p ps w out k items low h o =
    accept s w out k items low p.1 ps p.0 h (send_socket_lem s p.0 p.1 o)

line_ctrl_on :
    (s : Socket) (ps : List (Bool × List ℕ)) (w : List ℕ) (out : List (List ℕ)) (k : ℕ)
    (items low : List (List ℕ))
    → Shows (record { socket = s; pipe = ps; wire = w }) out k items low
    → Sending s.socket_type
    → 0 < length ps
    → Accepted (record { socket = s; pipe = ps; wire = w }) out k items low
line_ctrl_on s [] w out k items low h o n = absurd (omega (arith, n))
line_ctrl_on s (p ∷ ps) w out k items low h o n = line_ctrl_cons s p ps w out k items low h o

-- On a line that shows a flow of packages, whose socket is connected or connecting and has a
-- request on the way, the request is served without a failed assert: by steps of the flow, which
-- put the package of the request at the end of a list, the line shows the flow again, and nothing
-- is written.
pub line_ctrl_lem :
    (l : Line) (out : List (List ℕ)) (k : ℕ) (items low : List (List ℕ))
    → Shows l out k items low
    → Sending l.socket.socket_type
    → 0 < length l.pipe
    → Accepted l out k items low
line_ctrl_lem l out k items low h o n = line_ctrl_on l.socket l.pipe l.wire out k items low h o n

pub ctrl_waiting : (l : Line) (r : Result × Line) → line_ctrl l ≡ some r → 0 < length l.pipe
unfolding line_ctrl
ctrl_waiting l r e = on l.socket l.pipe l.wire e
  where
    on :
        (s : Socket) (ps : List (Bool × List ℕ)) (w : List ℕ)
        → line_ctrl (record { socket = s; pipe = ps; wire = w }) ≡ some r
        → 0 < length ps
    on s [] w e' = cc
    on s (p ∷ ps) w e' = omega arith
