-- ===== src/Socket/DrainLow.antt =====
-- skynet-1.2.0/skynet-src/socket_server.c: `send_buffer` with the list of low priority.
use skynet_sy.Common.{
  ℕ, zero, suc, ◌+◌, ◌^◌, ◌<◌, ◌≡◌, refl, sym, ◌∙◌, ap, subst, arith, false, List, [], ◌∷◌, ◌++◌,
  length, ==_ne, inl,
}
use skynet_sy.Common.Bytes.{concat}
use skynet_sy.Socket.State.{reserve, is_type, WriteOutcome, nothing}
use skynet_sy.Socket.Send.{raise_uncomplete, send_low}
use skynet_sy.Socket.Flow.{begin_low, ◌⟶*◌, here, next, part, Partial, flow, write_low, ⟶*-trans}
use skynet_sy.Socket.Shape.{shape, total, Stops, Progress, Sends, stays, dies, Partial-fresh}
use skynet_sy.Socket.Written.{send_list_lem}
use skynet_sy.Socket.Line.{Counts, Line}
use skynet_sy.Socket.Drained.{
  with_buffers, Drained, flows, ends, bytes_on, check_close_end, prepend,
}

module _ (l : Line) (count : Counts l) (room : length l.pipe < 2 ^ 16) where
  -- The first package that is left of the list of low priority, where some of it is written, is raised.
  raised : (k : ℕ) (items : List (List ℕ)) → List (List ℕ) × List (List ℕ)
  raised zero items = ([], items)
  raised (suc k) [] = ([], [])
  raised (suc k) (x ∷ items) = (x ∷ [], items)

  raise_flow :
      (out : List (List ℕ)) (k : ℕ) (items : List (List ℕ))
      → Partial k items
      → (flow out 0 [] items l.pipe ⟶* flow out k (raised k items).0 (raised k items).1 l.pipe)
        × (part k items ≡ part k (raised k items).0)
  unfolding raised
  raise_flow out zero [] v = (here, refl)
  raise_flow out zero (x ∷ items) v = (here, refl)
  raise_flow out (suc k) [] v = absurd (omega (arith, v))
  raise_flow out (suc k) (x ∷ items) v =
      (next (begin_low (flow out 0 [] (x ∷ items) l.pipe) x items refl refl refl) here, refl)

  -- The packages of low priority
  pub send_low_end :
      (os : List WriteOutcome) (w : List ℕ) (a b : ℕ) (out low : List (List ℕ))
      → Stops os
      → is_type l.socket.socket_type reserve ≡ false
      → b ≡ total (shape 0 low) + 0
      → l.wire ++ w ≡ concat out ++ []
      → Drained l (send_low os (with_buffers l a b [] (shape 0 low)) w) os out 0 [] low
  unfolding send_low raise_uncomplete raised
  send_low_end os w a b out [] stop live size bytes =
      check_close_end l count room os w a b out (omega (arith, size)) bytes
  send_low_end os w a b out (x ∷ xs) stop live size bytes = after (
      send_list_lem os (with_buffers l a b [] (shape 0 (x ∷ xs))) 0 0 (x ∷ xs) stop
        (Partial-fresh (x ∷ xs)) live size)
    where
      moved :
          (done : List (List ℕ)) (k : ℕ) (items : List (List ℕ)) (wire : List ℕ)
          → Progress 0 (x ∷ xs) wire done k items
          → flow out 0 [] (x ∷ xs) l.pipe
            ⟶* flow (out ++ done) k (raised k items).0 (raised k items).1 l.pipe
      moved done k items wire p =
          ⟶*-trans
            (subst (λ z. flow out 0 [] z l.pipe ⟶* flow (out ++ done) 0 [] items l.pipe)
              (sym p.split) (write_low [] l.pipe done out items))
            (raise_flow (out ++ done) k items p.partial).0

      given :
          (done : List (List ℕ)) (k : ℕ) (items : List (List ℕ)) (wire : List ℕ)
          → Progress 0 (x ∷ xs) wire done k items
          → l.wire ++ (w ++ wire) ≡ concat (out ++ done) ++ part k (raised k items).0
      given done k items wire p =
          bytes_on l count room w wire out 0 (x ∷ xs) done k items bytes p
          ∙ ap (λ z. concat (out ++ done) ++ z) (raise_flow (out ++ done) k items p.partial).1

      after :
          Sends os (with_buffers l a b [] (shape 0 (x ∷ xs))) 0 0 (x ∷ xs)
          → Drained l
              (send_low os (with_buffers l a b [] (shape 0 (x ∷ xs))) w)
              os
              out
              0
              []
              (x ∷ xs)
      after (dies done k items wire rest s' run p dead fails) =
          ends (record s' { low = [] }) (w ++ wire) (out ++ done) k (raised k items).0
            (raised k items).1 (rw run refl) (moved done k items wire p) (given done k items wire p)
            dead (inl fails)
      after (stays done zero [] wire rest a' b' run p size' on fails) = rw run (
          prepend l count room (moved done 0 [] wire p) fails (
            check_close_end l count room rest (w ++ wire) a' b' (out ++ done) (omega (arith, size'))
              (given done 0 [] wire p)))
      after (stays done (suc k) [] wire rest a' b' run p size' on fails) =
          absurd (ground (arith, p.partial))
      after (stays done zero (y ∷ ys) wire rest a' b' run p size' on fails) =
          flows nothing (with_buffers l a' b' [] (shape 0 (y ∷ ys))) (w ++ wire) (out ++ done) 0 []
            (y ∷ ys) (rw run refl) refl refl (moved done 0 (y ∷ ys) wire p)
            (record {
              waiting = refl;
              waiting_low = refl;
              size = omega (arith, size');
              partial = refl;
              count = count;
              room = room;
              bytes = given done 0 (y ∷ ys) wire p;
            })
      after (stays done (suc k) (y ∷ ys) wire rest a' b' run p size' on fails) =
          flows nothing (with_buffers l a' b' (shape (suc k) (y ∷ [])) (shape 0 ys)) (w ++ wire)
            (out ++ done) (suc k) (y ∷ []) ys
            (rw (run, ==_ne (suc k) 0 (λ e. omega (arith, e))) refl) refl refl
            (moved done (suc k) (y ∷ ys) wire p)
            (record {
              waiting = refl;
              waiting_low = refl;
              size = omega (arith, size');
              partial = p.partial;
              count = count;
              room = room;
              bytes = given done (suc k) (y ∷ ys) wire p;
            })
