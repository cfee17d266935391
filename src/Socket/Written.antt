-- ===== src/Socket/Written.antt =====
-- skynet-1.2.0/skynet-src/socket_server.c: what `send_list_tcp` writes of the packages in a list.
use skynet_sy.Common.{
  ℕ, ◌+◌, ◌-◌, ◌<◌, min, ◌≡◌, ◌≢◌, refl, sym, ◌∙◌, ap, subst, arith, false, List, [], ◌∷◌, ◌++◌,
  length, ==_refl, ==_ne,
}
use skynet_sy.Common.Bytes.{
  take, drop, append_assoc, append_nil, concat, take-append-drop, length-drop,
}
use native.Mathlib.Decide.{ℕ_discrete}
use skynet_sy.Socket.State.{
  reserve, is_type, Socket, WriteOutcome, wrote, interrupted, again, broken,
}
use skynet_sy.Socket.Send.{send_list_tcp}
use skynet_sy.Socket.Flow.{part, Partial}
use skynet_sy.Socket.Shape.{
  shape, total, Stops, Progress, Sends, stays, dies, take-add, take_whole, Partial-bound,
  Partial-intro, Partial-fresh, part_fresh, force_close_lem,
}

module _ (k : ℕ) where
  none_done :
      (x : List ℕ) (xs : List (List ℕ)) → Partial k (x ∷ xs) → Progress k (x ∷ xs) [] [] k (x ∷ xs)
  none_done x xs v = record {
    split = refl;
    bytes = append_nil (take k x);
    partial = v;
    grows = λ e. omega arith;
  }

  -- The first package is written, and what follows.
  one_done :
      (x : List ℕ) (xs : List (List ℕ)) (done : List (List ℕ)) (k' : ℕ) (items' : List (List ℕ))
      (wire : List ℕ)
      → Progress 0 xs wire done k' items'
      → Progress k (x ∷ xs) (drop k x ++ wire) (x ∷ done) k' items'
  one_done x xs done k' items' wire p = record {
    split = ap (λ l. x ∷ l) p.split;
    bytes =
        sym (append_assoc (take k x) (drop k x) wire)
        ∙ ap (λ l. l ++ wire) (take-append-drop k x)
        ∙ ap (λ l. x ++ l)
            (subst (λ l. l ++ wire ≡ concat done ++ part k' items') (part_fresh xs) p.bytes)
        ∙ sym (append_assoc x (concat done) (part k' items'));
    partial = p.partial;
    grows = λ e. cc;
  }

  some_done :
      (n : ℕ) (x : List ℕ) (xs : List (List ℕ))
      → k + n < length x
      → Progress k (x ∷ xs) (take n (drop k x)) [] (k + n) (x ∷ xs)
  some_done n x xs h = record {
    split = refl;
    bytes = sym (take-add k n x);
    partial = Partial-intro (k + n) x xs h;
    grows = λ e. omega arith;
  }

module _ (os : List WriteOutcome) (s : Socket) (c k : ℕ) (x : List ℕ) (xs : List (List ℕ)) where
  add_piece :
      (n : ℕ)
      → min n (length x - k) ≡ length x - k
      → Partial k (x ∷ xs)
      → Sends os
          (record s { written = s.written + (length x - k); wb_size = s.wb_size - (length x - k) })
          c
          0
          xs
      → Sends (wrote n ∷ os) s c k (x ∷ xs)
  unfolding send_list_tcp
  add_piece n e v (stays done k' items' wire rest a b run p size on fails) =
      stays (x ∷ done) k' items' (drop k x ++ wire) rest a b (rw (e, ==_refl, run, whole) refl)
        (one_done k x xs done k' items' wire p) size on fails
    where
      whole : take (length x - k) (drop k x) ≡ drop k x
      whole = take_whole (length x - k) (drop k x) (length-drop k x)
  add_piece n e v (dies done k' items' wire rest s' run p type fails) =
      dies (x ∷ done) k' items' (drop k x ++ wire) rest s' (rw (e, ==_refl, run, whole) refl)
        (one_done k x xs done k' items' wire p) type fails
    where
      whole : take (length x - k) (drop k x) ≡ drop k x
      whole = take_whole (length x - k) (drop k x) (length-drop k x)

  short_piece :
      (n : ℕ)
      → min n (length x - k) ≢ length x - k
      → Stops os
      → Partial k (x ∷ xs)
      → s.wb_size ≡ total (shape k (x ∷ xs)) + c
      → Sends (wrote n ∷ os) s c k (x ∷ xs)
  unfolding send_list_tcp
  short_piece n e stop v size =
      stays [] (k + min n (length x - k)) (x ∷ xs) (take (min n (length x - k)) (drop k x)) os
        (s.written + min n (length x - k)) (s.wb_size - min n (length x - k))
        (rw (==_ne _ _ e, left) refl)
        (some_done k (min n (length x - k)) x xs (ground (arith, Partial-bound k x xs v)))
        (ground (arith, size)) (λ e. cc) (λ f. f)
    where
      left : length x - k - min n (length x - k) ≡ length x - (k + min n (length x - k))
      left = omega arith

-- The call returns, and each package before the one where it stops is written whole, in order.
pub send_list_lem :
    (os : List WriteOutcome) (s : Socket) (c k : ℕ) (items : List (List ℕ))
    → Stops os
    → Partial k items
    → is_type s.socket_type reserve ≡ false
    → s.wb_size ≡ total (shape k items) + c
    → Sends os s c k items
unfolding send_list_tcp
send_list_lem os s c k [] stop v live size =
    stays [] k [] [] os s.written s.wb_size refl
      (record { split = refl; bytes = refl; partial = v; grows = λ e. omega arith }) size
      (λ e. stop) (λ f. f)
send_list_lem [] s c k (x ∷ xs) stop v live size = absurd stop
send_list_lem (interrupted ∷ os) s c k (x ∷ xs) stop v live size =
    elim (send_list_lem os s c k (x ∷ xs) stop v live size) [
      | stays done k' items' wire rest a b run p size' on fails ↦
          stays done k' items' wire rest a b run p size' on fails
      | dies done k' items' wire rest s' run p type fails ↦
          dies done k' items' wire rest s' run p type fails
    ]
send_list_lem (again ∷ os) s c k (x ∷ xs) stop v live size =
    stays [] k (x ∷ xs) [] os s.written s.wb_size refl (none_done k x xs v) size (λ e. cc) (λ f. f)
send_list_lem (broken ∷ os) s c k (x ∷ xs) stop v live size =
    let closed = force_close_lem s live in
    dies [] k (x ∷ xs) [] os closed.0 (rw (closed.1) refl) (none_done k x xs v) closed.2 tt
send_list_lem (wrote n ∷ os) s c k (x ∷ xs) stop v live size =
    elim (ℕ_discrete (min n (length x - k)) (length x - k)) [
      | yes e ↦ add_piece os s c k x xs n e v (
          send_list_lem os
            (record s {
              written = s.written + (length x - k);
              wb_size = s.wb_size - (length x - k);
            })
            c 0 xs stop (Partial-fresh xs) live (omega (arith, size)))
      | no ne ↦ short_piece os s c k x xs n ne stop v size
    ]
