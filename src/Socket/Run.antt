-- ===== src/Socket/Run.antt =====
-- skynet-1.2.0/skynet-src/socket_server.c: a TCP socket from its first package on, where all packages
-- are given with high priority.
use mathlib.Core.List.{append_assoc}
use skynet_sy.Common.{
  ℕ, ◌-◌, ◌^◌, ◌<◌, ◌≡◌, refl, sym, ◌∙◌, ap, subst, Bool, true, false, Option, some, List, [], ◌∷◌,
  ◌++◌, length,
}
use skynet_sy.Common.Bytes.{take, drop, take-append-drop, concat, concat-append}
use skynet_sy.Socket.State.{invalid, reserve, is_type, Socket, WriteOutcome, Result, closed}
use skynet_sy.Socket.Send.{send_buffer}
use skynet_sy.Socket.Submit.{nomore_sending_data, Submitted}
use skynet_sy.Socket.Flow.{part, flow}
use skynet_sy.Socket.Shape.{Stops}
use skynet_sy.Socket.Line.{Line, line_send, line_ctrl, line_write, Shows}
use skynet_sy.Socket.Drained.{is_closed, Drained, flows, ends}
use skynet_sy.Socket.Drain.{send_buffer_lem}
use skynet_sy.Socket.Queued.{Sending}
use skynet_sy.Socket.Accept.{Accepted, accepted, line_ctrl_lem, ctrl_waiting}
use skynet_sy.Socket.Waits.{nothing_waits}
use skynet_sy.Socket.Give.{Given, given, line_send_lem}
use skynet_sy.Socket.Order.{
  Highs, pending, order, AllHigh, steps-order, gives-order, order-flow, flow-AllHigh, AllHigh-flow,
}

-- The socket has been given the packages in order.
pub data Run (l0 : Line) : List (List ℕ) → Line → Type 0 where
  start : Run l0 [] l0
  sent :
      (xs : List (List ℕ)) (l l' : Line) (lock : Bool) (o : WriteOutcome) (x : List ℕ)
      (r : Submitted)
      → Run l0 xs l
      → is_type l.socket.socket_type invalid ≡ false
      → length l.pipe < 2 ^ 16 - 1
      → line_send lock o l x ≡ some (r, l')
      → Run l0 (xs ++ x ∷ []) l'
  served :
      (xs : List (List ℕ)) (l l' : Line) (r : Result)
      → Run l0 xs l
      → Sending l.socket.socket_type
      → line_ctrl l ≡ some (r, l')
      → Run l0 xs l'
  written :
      (xs : List (List ℕ)) (l l' : Line) (lock : Bool) (os : List WriteOutcome) (r : Result)
      → Run l0 xs l
      → is_type l.socket.socket_type reserve ≡ false
      → Stops os
      → line_write lock os l ≡ some (r, l')
      → is_closed r ≡ false
      → Run l0 xs l'

-- What the socket keeps of the packages given
record Keeps (l : Line) (xs : List (List ℕ)) : Type 0 where
  pub out : List (List ℕ)
  pub k : ℕ
  pub items : List (List ℕ)
  pub shows : Shows l out k items []
  pub highs : Highs l.pipe
  pub all : order (flow out k items [] l.pipe) ≡ xs

same_result :
    {A : Type 0} (m : Option (A × Line)) (r r' : A) (l l' : Line)
    → m ≡ some (r, l)
    → m ≡ some (r', l')
    → (r ≡ r') × (l ≡ l')
same_result m r r' l l' p q = (cc, cc)

write_run :
    (lock : Bool) (os : List WriteOutcome) (l : Line) (r : Result) (s : Socket) (w : List ℕ)
    → send_buffer lock os l.socket ≡ some (r, (s, w))
    → line_write lock os l ≡ some (r, record l { socket = s; wire = l.wire ++ w })
unfolding line_write
write_run lock os l r s w e = rw e refl

moved_on :
    (l : Line) (xs out : List (List ℕ)) (k : ℕ) (items low : List (List ℕ))
    → AllHigh (flow out k items low l.pipe)
    → order (flow out k items low l.pipe) ≡ xs
    → Shows l out k items low
    → Keeps l xs
moved_on l xs out k items low h e s =
    let z = AllHigh-flow out low l.pipe k items h in
    record {
      out = out;
      k = k;
      items = items;
      shows = subst (λ v. Shows l out k items v) z.0 s;
      highs = z.1;
      all = subst (λ v. order (flow out k items v l.pipe) ≡ xs) z.0 e;
    }

module _ (l : Line) (xs : List (List ℕ)) (kept : Keeps l xs) where
  all_high : AllHigh (flow kept.out kept.k kept.items [] l.pipe)
  all_high = flow-AllHigh kept.out [] l.pipe kept.k kept.items refl kept.highs

  sent_on :
      (run : Option (Submitted × Line)) (l' : Line) (x : List ℕ) (r : Submitted)
      → run ≡ some (r, l')
      → Given run l (true, x) kept.out kept.k kept.items []
      → Keeps l' (xs ++ x ∷ [])
  sent_on run l' x r e (given r2 l2 b out k items e2 ok gives steps shows) =
      let g = gives-order gives all_high in
      let t = steps-order steps g.0 in
      subst (λ z. Keeps z (xs ++ x ∷ [])) (same_result run r2 r l2 l' e2 e).1
        (moved_on l2 (xs ++ x ∷ []) out k items [] t.0 (t.1 ∙ g.1 ∙ ap (λ z. z ++ x ∷ []) kept.all)
          shows)

  served_on :
      (l' : Line) (r : Result)
      → line_ctrl l ≡ some (r, l')
      → Accepted l kept.out kept.k kept.items []
      → Keeps l' xs
  served_on l' r e (accepted r2 l2 items low e2 steps shows w) =
      let t = steps-order steps all_high in
      subst (λ z. Keeps z xs) (same_result (line_ctrl l) r2 r l2 l' e2 e).1
        (moved_on l2 xs kept.out kept.k items low t.0 (t.1 ∙ kept.all) shows)

  written_on :
      (lock : Bool) (os : List WriteOutcome) (l' : Line) (r : Result)
      → line_write lock os l ≡ some (r, l')
      → is_closed r ≡ false
      → Drained l (send_buffer lock os l.socket) os kept.out kept.k kept.items []
      → Keeps l' xs
  written_on lock os l' r e live (flows r2 s w out k items low run ok same steps shows) =
      let t = steps-order steps all_high in
      subst (λ z. Keeps z xs)
        (same_result (line_write lock os l) r2 r _ l' (write_run lock os l r2 s w run) e).1
        (moved_on (record l { socket = s; wire = l.wire ++ w }) xs out k items low t.0
          (t.1 ∙ kept.all) shows)
  written_on lock os l' r e live (ends s w out k items low run steps bytes dead why) =
      let z =
        same_result (line_write lock os l) closed r _ l' (write_run lock os l closed s w run) e in
      let f : true ≡ false = ap is_closed z.0 ∙ live in cc

run-Keeps :
    (l0 : Line) (xs : List (List ℕ)) (l : Line)
    → Shows l0 [] 0 [] []
    → l0.pipe ≡ []
    → Run l0 xs l
    → Keeps l xs
run-Keeps l0 xs l h e start = record {
  out = [];
  k = 0;
  items = [];
  shows = h;
  highs = subst Highs (sym e) tt;
  all = subst (λ z. pending z ≡ []) (sym e) refl;
}
run-Keeps l0 xs l h e (sent ys l1 l2 lock o x r before live n run) =
    let kept = run-Keeps l0 ys l1 h e before in
    sent_on l1 ys kept _ l x r run
      (line_send_lem lock o l1 x kept.out kept.k kept.items [] kept.shows live n)
run-Keeps l0 xs l h e (served ys l1 l2 r before live run) =
    let kept = run-Keeps l0 ys l1 h e before in
    served_on l1 ys kept l r run
      (line_ctrl_lem l1 kept.out kept.k kept.items [] kept.shows live (ctrl_waiting l1 (r, l) run))
run-Keeps l0 xs l h e (written ys l1 l2 lock os r before live stop run ok) =
    let kept = run-Keeps l0 ys l1 h e before in
    written_on l1 ys kept lock os l r run ok
      (send_buffer_lem lock os l1 kept.out kept.k kept.items [] kept.shows stop live)

-- What is left of the packages
left_of : ℕ → List (List ℕ) → List ℕ
left_of k [] = []
left_of k (x ∷ xs) = drop k x ++ concat xs

part-left : (k : ℕ) (items : List (List ℕ)) → part k items ++ left_of k items ≡ concat items
unfolding left_of
part-left k [] = refl
part-left k (x ∷ xs) =
    sym (append_assoc (take k x) (drop k x) (concat xs))
    ∙ ap (λ z. z ++ concat xs) (take-append-drop k x)

-- For a TCP connection on which nothing waits, on which nothing has been written and whose
-- requests are none, after any sequence of packages given with socket_server_send, requests taken
-- from the pipe and runs of send_buffer, in which the socket is in use, each run of send_buffer
-- meets a full buffer of the system or a failure at last, and none closes the socket: the bytes
-- written are a prefix of the packages given, one after the other in the order in which they were
-- given.
pub run_bytes :
    (l0 : Line) (xs : List (List ℕ)) (l : Line)
    → Shows l0 [] 0 [] []
    → l0.pipe ≡ []
    → Run l0 xs l
    → (rest : List ℕ) × (l.wire ++ rest ≡ concat xs)
run_bytes l0 xs l h e run =
    let kept = run-Keeps l0 xs l h e run in
    (
      left_of kept.k kept.items ++ concat (pending l.pipe),
      ap (λ z. z ++ (left_of kept.k kept.items ++ concat (pending l.pipe))) kept.shows.bytes
          ∙ regroup (concat kept.out) (part kept.k kept.items) (left_of kept.k kept.items)
              (concat (pending l.pipe))
          ∙ ap (λ z. concat kept.out ++ (z ++ concat (pending l.pipe)))
              (part-left kept.k kept.items)
          ∙ ap (λ z. concat kept.out ++ z) (sym (concat-append kept.items (pending l.pipe)))
          ∙ sym (concat-append kept.out (kept.items ++ pending l.pipe))
          ∙ ap concat
              (sym (order-flow kept.out kept.k kept.items [] l.pipe kept.shows.partial) ∙ kept.all),
    )
  where
    regroup : (a b c d : List ℕ) → (a ++ b) ++ (c ++ d) ≡ a ++ ((b ++ c) ++ d)
    regroup a b c d = simp (append_assoc)

-- After a sequence as in the safety of what is written, if nomore_sending_data holds of the
-- socket, then the bytes written are all the packages given, one after the other.
pub run_complete :
    (l0 : Line) (xs : List (List ℕ)) (l : Line)
    → Shows l0 [] 0 [] []
    → l0.pipe ≡ []
    → Run l0 xs l
    → nomore_sending_data l.socket ≡ true
    → l.wire ≡ concat xs
run_complete l0 xs l h e run done =
    let kept = run-Keeps l0 xs l h e run in
    let z = nothing_waits l kept.out kept.k kept.items [] kept.shows done in
    kept.shows.bytes
    ∙ ap (λ v. concat kept.out ++ part kept.k v) z.1
    ∙ sym (concat-append kept.out [])
    ∙ ap concat (
        sym (λ i. kept.out ++ (z.1 i ++ pending (z.3 i)))
        ∙ sym (order-flow kept.out kept.k kept.items [] l.pipe kept.shows.partial)
        ∙ kept.all)
