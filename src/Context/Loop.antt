-- ===== src/Context/Loop.antt =====
-- The loop of `skynet_context_message_dispatch`: how many messages are dispatched, by the weight of
-- the worker.
use native.Mathlib.Nat.{add-zero}
use skynet_sy.Common.{
  ℕ, zero, suc, ◌+◌, ◌-◌, ◌/◌, ◌^◌, ◌<◌, ◌≡◌, refl, sym, ◌∙◌, ap, subst, arith, true, false, Option,
  none, some, List, [], ◌∷◌, ◌++◌, le→ltb_false, ==_ne, length, length-append,
}
use skynet_sy.Mq.Queue.{Message, mq_length}
use skynet_sy.Mq.Global.{World}
use skynet_sy.Mq.Fifo.{mq_length-eq-length}
use skynet_sy.Mq.Ring.{Models}
use skynet_sy.Monitor.{Monitor, monitor_trigger}
use skynet_sy.Context.Server.{Context, Server}
use skynet_sy.Context.Worker.{dispatch_loop}
use skynet_sy.Context.Rounds.{Serving, Served, counted, Quiet, next_n, round_lem}

-- the messages after the first that a worker of this weight dispatches
abbrev pub extra : Option ℕ → ℕ → ℕ
extra none len = 0
extra (some weight) len = len / 2 ^ weight - 1

counted_zero : (ctx : Context) → counted ctx 0 ≡ ctx
counted_zero ctx i = record ctx { message_count = add-zero ctx.message_count i }

counted_more : (ctx : Context) (k : ℕ) → counted (counted ctx 1) k ≡ counted ctx (suc k)
counted_more ctx k = ap (λ n. record ctx { message_count = n }) (omega arith)

module _ {S : Type 0} {seen : S → List Message} where
  Served-none :
      {c p : ℕ} {s : Server S} {held : ℕ → List Message} → Served seen s s c p held held []
  Served-none {c} {p} {s} = record {
    got = nil_right (seen s.user);
    others = λ x ne. refl;
    queues = λ x ne. refl;
    same_storage = refl;
  }
    where
      nil_right : (ms : List Message) → ms ≡ ms ++ []
      nil_right [] = refl
      nil_right (m ∷ ms) = ap (λ l. m ∷ l) (nil_right ms)

  pub Served-cons :
      {c p : ℕ} {s s1 s2 : Server S} {held held1 held2 : ℕ → List Message} (m : Message)
      (ms : List Message)
      → Served seen s s1 c p held held1 (m ∷ [])
      → Served seen s1 s2 c p held1 held2 ms
      → Served seen s s2 c p held held2 (m ∷ ms)
  Served-cons {s = s} m ms a b = record {
    got = b.got ∙ ap (λ l. l ++ ms) a.got ∙ joined (seen s.user);
    others = λ x ne. b.others x ne ∙ a.others x ne;
    queues = λ x ne. b.queues x ne ∙ a.queues x ne;
    same_storage = b.same_storage ∙ a.same_storage;
  }
    where
      joined : (l : List Message) → (l ++ m ∷ []) ++ ms ≡ l ++ m ∷ ms
      joined [] = refl
      joined (x ∷ l) = ap (λ r. x ∷ r) (joined l)

module _ {S : Type 0} (cb : ℕ → ℕ → ℕ → Message → Server S → Option (Server S))
    (report : ℕ → ℕ → Server S → Option (Server S)) (drop_func : ℕ → Message → World → World)
    (seen : S → List Message) (step : Message → S → S)
    (quiet : Quiet cb report drop_func seen step) where
  later_n : (weight : Option ℕ) (i n len : ℕ) → 0 < i → next_n weight i n len ≡ n
  later_n none i n len h = refl
  later_n (some weight) i n len h = rw (==_ne i 0 (omega (arith, h))) refl

  -- The rounds after the first.
  loop_lem :
      (xs ys : List Message) {held : ℕ → List Message} {ids : List ℕ} (s : Server S) (ctx : Context)
      (sm : Monitor) (weight : Option ℕ) (fuel i n c h p : ℕ)
      → Serving s c p ctx ids held (xs ++ ys)
      → ctx.init ≡ true
      → ctx.cb ≡ true
      → 0 < i
      → length xs ≡ n - i
      → length xs < fuel
      → (s' : Server S) × (sm' : Monitor) × (held' : ℕ → List Message) × (dispatch_loop cb report
            drop_func fuel weight i n s sm c h p
          ≡ some (false, (s', sm')))
        × Serving s' c p (counted ctx (length xs)) ids held' ys
        × Served seen s s' c p held held' xs
  unfolding dispatch_loop
  loop_lem xs ys s ctx sm weight zero i n c h p v ready has pos count l = absurd (omega (arith, l))
  loop_lem [] ys {held} {ids} s ctx sm weight (suc fuel) i n c h p v ready has pos count l = (
    s,
    sm,
    held,
    rw (le→ltb_false i n (omega (arith, count))) refl,
    subst (λ z. Serving s c p z ids held ys) (sym (counted_zero ctx)) v,
    Served-none,
  )
  loop_lem (m ∷ xs) ys {ids = ids} s ctx sm weight (suc fuel) i n c h p v ready has pos count l =
      let (s1, held1, run, v1, one) =
        round_lem cb report drop_func seen step quiet sm c h p m (xs ++ ys) v ready has in
      let (s2, sm2, held2, runs, v2, more) =
        loop_lem xs ys s1 (counted ctx 1) (monitor_trigger (monitor_trigger sm m.source h) 0 0)
          weight fuel (i + 1) n c h p v1 ready has (omega (arith, pos)) (omega (arith, count))
          (omega (arith, l)) in
      (
        s2,
        sm2,
        held2,
        run fuel weight i n (omega (arith, count))
            ∙ rw (later_n weight i n (length (xs ++ ys)) pos) runs,
        subst (λ z. Serving s2 c p z ids held2 ys) (counted_more ctx (length xs)) v2,
        Served-cons m xs one more,
      )

  -- the number of rounds, less the first
  after_first : (weight : Option ℕ) (len : ℕ) → next_n weight 0 1 len - 1 ≡ extra weight len
  after_first none len = refl
  after_first (some weight) len = refl

  module _ {held : ℕ → List Message} {ids : List ℕ} (m : Message) (xs ys : List Message)
      (s : Server S) (ctx : Context) (sm : Monitor) (weight : Option ℕ) (c h p : ℕ)
      (v : Serving s c p ctx ids held (m ∷ (xs ++ ys))) (ready : ctx.init ≡ true)
      (has : ctx.cb ≡ true) (count : length xs ≡ extra weight (length (xs ++ ys))) where
    pub batch_lem :
        (s' : Server S) × (sm' : Monitor) × (held' : ℕ → List Message) × (dispatch_loop cb report
            drop_func
            (suc (suc (mq_length v.q)))
            weight
            0
            1
            s
            sm
            c
            h
            p
          ≡ some (false, (s', sm')))
        × Serving s' c p (counted ctx (suc (length xs))) ids held' ys
        × Served seen s s' c p held held' (m ∷ xs)
    batch_lem =
        let (s1, held1, run, v1, one) =
          round_lem cb report drop_func seen step quiet sm c h p m (xs ++ ys) v ready has in
        let long : mq_length v.q ≡ suc (length (xs ++ ys)) =
          mq_length-eq-length (m ∷ (xs ++ ys))
            (subst (Models v.q) v.holds (v.running.holds p v.q v.at_q)) in
        let n = next_n weight 0 1 (length (xs ++ ys)) in
        let (s2, sm2, held2, runs, v2, more) =
          loop_lem xs ys s1 (counted ctx 1) (monitor_trigger (monitor_trigger sm m.source h) 0 0)
            weight (suc (mq_length v.q)) 1 n c h p v1 ready has (omega arith)
            (count ∙ sym (after_first weight (length (xs ++ ys))))
            (omega (arith, long, length-append xs ys)) in
        (
          s2,
          sm2,
          held2,
          run (suc (mq_length v.q)) weight 0 1 (omega arith) ∙ runs,
          subst (λ z. Serving s2 c p z ids held2 ys) (counted_more ctx (length xs)) v2,
          Served-cons m xs one more,
        )
