-- ===== src/Socket/Give.antt =====
-- skynet-1.2.0/skynet-src/socket_server.c: `socket_server_send` implements the flow of packages.
use native.Mathlib.Decide.{ℕ_discrete}
use skynet_sy.Common.{
  ℕ, ◌+◌, ◌-◌, ◌*◌, ◌/◌, ◌%◌, ◌^◌, ◌<◌, ◌≡◌, ◌≢◌, refl, sym, ◌∙◌, ap, subst, arith, Bool, true,
  false, ◌&&◌, Option, some, List, [], ◌∷◌, ◌++◌, length, ==_ne, ==_refl, Bool-cases, inl, inr,
}
use skynet_sy.Common.Bytes.{take, append_nil, concat, concat-snoc}
use skynet_sy.Socket.State.{invalid, is_type, id_tag16, tcp, is_tcp, Socket, WriteOutcome}
use skynet_sy.Socket.Submit.{
  inc_sending_ref, can_direct_write, bytes_taken, Submitted, refused, direct, requested,
  socket_server_send, socket_server_send_lowpriority,
}
use skynet_sy.Socket.Flow.{
  Flow, Gives, ◌⟶*◌, here, flow, put, put_direct, write_direct, write_whole,
}
use skynet_sy.Socket.Shape.{Partial-intro}
use skynet_sy.Socket.Line.{Line, line_send, line_send_low, Shows}
use skynet_sy.Socket.Waits.{direct-nomore, taken_le, nothing_waits}

abbrev pub is_refused : Submitted → Bool
is_refused refused = true
is_refused (direct w) = false
is_refused requested = false

-- What the flow does with a package that is given
pub data Given (run : Option (Submitted × Line)) (l : Line) (p : Bool × List ℕ)
    (out : List (List ℕ)) (k : ℕ) (items low : List (List ℕ)) : Type 0 where
  given :
      (r : Submitted) (l' : Line) (b : Flow) (out' : List (List ℕ)) (k' : ℕ)
      (items' : List (List ℕ))
      → run ≡ some (r, l')
      → is_refused r ≡ false
      → Gives p (flow out k items low l.pipe) b
      → b ⟶* flow out' k' items' low l'.pipe
      → Shows l' out' k' items' low
      → Given run l p out k items low

inc_lem :
    (s : Socket) (n : ℕ)
    → (s.protocol ≡ tcp) × (s.sending ≡ id_tag16 s.id * 2 ^ 16 + n)
    → n < 2 ^ 16 - 1
    → inc_sending_ref s s.id ≡ some (record s { sending = s.sending + 1 })
unfolding inc_sending_ref
inc_lem s n e h =
    rw
      (
        ap is_tcp e.0,
        tag,
        ==_refl (id_tag16 s.id),
        ==_ne (s.sending % 2 ^ 16) 0xffff (λ z. omega (arith, e.1, h, z)),
      )
      refl
  where
    tag : s.sending / 2 ^ 16 ≡ id_tag16 s.id
    tag = omega (arith, e.1, h)

length-snoc :
    (ps : List (Bool × List ℕ)) (p : Bool × List ℕ) → length (ps ++ p ∷ []) ≡ length ps + 1
length-snoc [] p = refl
length-snoc (q ∷ ps) p = omega (arith, length-snoc ps p)

-- A request is put in the pipe.
Shows-put :
    (l : Line) (p : Bool × List ℕ) (out : List (List ℕ)) (k : ℕ) (items low : List (List ℕ))
    → Shows l out k items low
    → length l.pipe < 2 ^ 16 - 1
    → Shows
        (record l {
          socket = record l.socket { sending = l.socket.sending + 1 };
          pipe = l.pipe ++ p ∷ [];
        })
        out
        k
        items
        low
Shows-put l p out k items low h n = record {
  waiting = h.waiting;
  waiting_low = h.waiting_low;
  size = h.size;
  partial = h.partial;
  count = (h.count.0, omega (arith, h.count.1, length-snoc l.pipe p));
  room = omega (arith, n, length-snoc l.pipe p);
  bytes = h.bytes;
}

pub line_send_low_lem :
    (l : Line) (x : List ℕ) (out : List (List ℕ)) (k : ℕ) (items low : List (List ℕ))
    → Shows l out k items low
    → is_type l.socket.socket_type invalid ≡ false
    → length l.pipe < 2 ^ 16 - 1
    → Given (line_send_low l x) l (false, x) out k items low
unfolding line_send_low socket_server_send_lowpriority
line_send_low_lem l x out k items low h live n =
    given requested
      (record l {
        socket = record l.socket { sending = l.socket.sending + 1 };
        pipe = l.pipe ++ (false, x) ∷ [];
      })
      _ out k items
      (rw (==_refl l.socket.id, live, inc_lem l.socket (length l.pipe) h.count n) refl) refl
      (put out k items low l.pipe (false, x)) here (Shows-put l (false, x) out k items low h n)

-- A direct write, where nothing waits
module _ (l : Line) (x : List ℕ) (out : List (List ℕ)) (h : Shows l out 0 [] [])
    (live : is_type l.socket.socket_type invalid ≡ false)
    (e : can_direct_write l.socket l.socket.id ≡ true) where
  none_before : (l.pipe ≡ []) × (l.socket.high ≡ [])
  none_before = let z = nothing_waits l out 0 [] [] h (direct-nomore l.socket e) in (z.3, z.4)

  whole_direct :
      (o : WriteOutcome)
      → bytes_taken o (length x) ≡ length x
      → Given (line_send true o l x) l (true, x) out 0 [] []
  unfolding line_send socket_server_send
  whole_direct o n =
      given (direct x)
        (record l {
          socket = record l.socket { written = l.socket.written + length x };
          wire = l.wire ++ x;
        })
        _ (out ++ x ∷ []) 0 [] (rw (e, ==_refl l.socket.id, live, n, ==_refl (length x)) refl) refl
        (put_direct out x l.pipe none_before.0) (write_whole out x l.pipe)
        (record {
          waiting = h.waiting;
          waiting_low = h.waiting_low;
          size = h.size;
          partial = refl;
          count = h.count;
          room = h.room;
          bytes =
              ap (λ z. z ++ x) (h.bytes ∙ append_nil (concat out))
              ∙ sym (concat-snoc out x)
              ∙ sym (append_nil (concat (out ++ x ∷ [])));
        })

  part_direct :
      (o : WriteOutcome)
      → bytes_taken o (length x) ≢ length x
      → Given (line_send true o l x) l (true, x) out 0 [] []
  unfolding line_send socket_server_send
  part_direct o n =
      let k = bytes_taken o (length x) in
      given (direct (take k x))
        (record l {
          socket = record l.socket {
            written = l.socket.written + k;
            dw = some (record { dw_buffer = x; dw_offset = k });
            write_event = true;
          };
          wire = l.wire ++ take k x;
        })
        _ out k (x ∷ []) (rw (e, ==_refl l.socket.id, live, ==_ne _ _ n) refl) refl
        (put_direct out x l.pipe none_before.0) (write_direct out x l.pipe k)
        (record {
          waiting = ap (λ z. record { buffer = x; ptr = k; sz = length x - k } ∷ z) none_before.1;
          waiting_low = h.waiting_low;
          size = h.size;
          partial = Partial-intro k x [] (omega (arith, n, taken_le o (length x)));
          count = h.count;
          room = h.room;
          bytes = ap (λ z. z ++ take k x) (h.bytes ∙ append_nil (concat out));
        })

and_true : (a b : Bool) → (a && b) ≡ true → (a ≡ true) × (b ≡ true)
and_true true b e = (refl, e)
and_true false b e = cc

send_directly :
    (o : WriteOutcome) (l : Line) (x : List ℕ) (out : List (List ℕ)) (k : ℕ)
    (items low : List (List ℕ))
    → Shows l out k items low
    → is_type l.socket.socket_type invalid ≡ false
    → can_direct_write l.socket l.socket.id ≡ true
    → Given (line_send true o l x) l (true, x) out k items low
send_directly o l x out k items low h live can =
    let z = nothing_waits l out k items low h (direct-nomore l.socket can) in
    subst (λ v. Given (line_send true o l x) l (true, x) out k items v) (sym z.2)
      (subst (λ v. Given (line_send true o l x) l (true, x) out k v []) (sym z.1)
        (subst (λ v. Given (line_send true o l x) l (true, x) out v [] []) (sym z.0) at_nothing))
  where
    empty : Shows l out 0 [] []
    empty =
        let z = nothing_waits l out k items low h (direct-nomore l.socket can) in
        subst (λ v. Shows l out v [] []) z.0
          (subst (λ v. Shows l out k v []) z.1 (subst (λ v. Shows l out k items v) z.2 h))

    at_nothing : Given (line_send true o l x) l (true, x) out 0 [] []
    at_nothing = elim (ℕ_discrete (bytes_taken o (length x)) (length x)) [
      | yes e ↦ whole_direct l x out empty live can o e
      | no n ↦ part_direct l x out empty live can o n
    ]

-- On a line that shows a flow of packages, whose socket, one of TCP, is in use and has fewer than
-- 2^16 - 1 requests on the way, socket_server_send succeeds: the flow is given the package, as the
-- last request or, where nothing else is on its way, as the package to write next, and by steps of
-- the flow the line shows it again.
pub line_send_lem :
    (lock : Bool) (o : WriteOutcome) (l : Line) (x : List ℕ) (out : List (List ℕ)) (k : ℕ)
    (items low : List (List ℕ))
    → Shows l out k items low
    → is_type l.socket.socket_type invalid ≡ false
    → length l.pipe < 2 ^ 16 - 1
    → Given (line_send lock o l x) l (true, x) out k items low
unfolding line_send socket_server_send
line_send_lem lock o l x out k items low h live n =
    elim (Bool-cases (can_direct_write l.socket l.socket.id && lock)) [
      | inl e ↦
          let b = and_true _ _ e in
          subst (λ v. Given (line_send v o l x) l (true, x) out k items low) (sym b.1)
            (send_directly o l x out k items low h live b.0)
      | inr e ↦
          given requested
            (record l {
              socket = record l.socket { sending = l.socket.sending + 1 };
              pipe = l.pipe ++ (true, x) ∷ [];
            })
            _ out k items
            (rw (e, ==_refl l.socket.id, live, inc_lem l.socket (length l.pipe) h.count n) refl)
            refl (put out k items low l.pipe (true, x)) here
            (Shows-put l (true, x) out k items low h n)
    ]
