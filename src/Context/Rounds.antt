-- ===== src/Context/Rounds.antt =====
-- The rounds of `skynet_context_message_dispatch` for services that leave the queues alone.
use skynet_sy.Common.{
  ℕ, suc, ◌+◌, ◌/◌, ◌%◌, ◌^◌, ◌<◌, ◌≡◌, ◌≢◌, refl, ◌∙◌, ap, subst, Bool, true, Option, none, some,
  List, [], ◌∷◌, ◌++◌, ◌==◌, if◌then◌else◌, ◌>>=◌, ◌>>◌, assert, lt→ltb, le→ltb_false, arith, ◌≤◌,
  ==_iff, ==_refl, ==_ne, length,
}
use skynet_sy.Mq.Queue.{Message, MessageQueue, mq_length, mq_overload_take}
use skynet_sy.Mq.Global.{World, put}
use skynet_sy.Mq.Ring.{Models}
use skynet_sy.Mq.Fifo.{mq_length-eq-length, popped}
use skynet_sy.Mq.Service.{Running}
use skynet_sy.Mq.Mark.{set_at, put-Running, mq_pop_at_lem}
use skynet_sy.Monitor.{Monitor, monitor_trigger}
use skynet_sy.Context.Server.{Context, Server, put_context}
use skynet_sy.Context.Worker.{
  message_type_shift, dispatch_message, note_overload, serve, dispatch_loop, rounds,
}

-- The worker has taken the queue at `p`, of the context at `c`, out of the global queue, and the queue
-- is not overloaded.
pub record Serving {S : Type 0} (s : Server S) (c p : ℕ) (ctx : Context) (ids : List ℕ)
    (held : ℕ → List Message) (ms : List Message) : Type 0 where
  pub running : Running s.world ids held
  pub holds : held p ≡ ms
  pub context : s.contexts c ≡ some ctx
  pub q : MessageQueue
  pub at_q : s.world.queues p ≡ some q
  pub flagged : q.in_global ≡ 1
  pub calm : q.overload ≡ 0
  pub low : length ms ≤ suc q.overload_threshold

abbrev pub counted : Context → ℕ → Context
counted ctx k = record ctx { message_count = ctx.message_count + k }

-- `seen` is what the services have got, in order.
pub record Served {S : Type 0} (seen : S → List Message) (s s' : Server S) (c p : ℕ)
    (held held' : ℕ → List Message) (done : List Message) : Type 0 where
  pub got : seen s'.user ≡ seen s.user ++ done
  pub others : (x : ℕ) → x ≢ c → s'.contexts x ≡ s.contexts x
  pub queues : (x : ℕ) → x ≢ p → held' x ≡ held x
  pub same_storage : s'.storage ≡ s.storage

-- the number of rounds after the round `i`
abbrev pub next_n : Option ℕ → ℕ → ℕ → ℕ → ℕ
next_n none i n len = n
next_n (some weight) i n len = if i == 0 then len / 2 ^ weight else n

module _ {S : Type 0} (cb : ℕ → ℕ → ℕ → Message → Server S → Option (Server S))
    (report : ℕ → ℕ → Server S → Option (Server S)) (drop_func : ℕ → Message → World → World)
    (seen : S → List Message) (step : Message → S → S) where
  -- Services change what they keep, and nothing else.
  pub record Quiet : Type 0 where
    pub calls :
        (c t z : ℕ) (m : Message) (s : Server S)
        → cb c t z m s ≡ some (record s { user = step m s.user })
    pub gets : (m : Message) (u : S) → seen (step m u) ≡ seen u ++ m ∷ []

  module _ (quiet : Quiet) where
    note_overload_lem :
        {s : Server S} {ctx : Context} {ids : List ℕ} {held : ℕ → List Message} {ms : List Message}
        (c p : ℕ)
        → Serving s c p ctx ids held ms
        → (s' : Server S) × (note_overload cb report drop_func s c p ≡ some s')
          × Serving s' c p ctx ids (set_at held p ms) ms
          × (s'.contexts ≡ s.contexts)
          × (s'.storage ≡ s.storage)
          × (seen s'.user ≡ seen s.user)
    unfolding note_overload mq_overload_take
    note_overload_lem {s} {ctx} {ids} {held} {ms} c p v = (
      record s { world = put s.world p v.q },
      rw (v.at_q, (==_iff v.q.overload 0).1 v.calm) refl,
      record {
        running =
            put-Running p v.q v.running v.at_q v.q ms
              (subst (Models v.q) v.holds (v.running.holds p v.q v.at_q)) refl
              (v.running.flag p v.q v.at_q) (v.running.scheduled p v.q v.at_q);
        holds = rw (==_refl p) refl;
        context = v.context;
        q = v.q;
        at_q = rw (==_refl p) refl;
        flagged = v.flagged;
        calm = v.calm;
        low = v.low;
      },
      refl,
      refl,
      refl,
    )

    dispatch_message_lem :
        (s : Server S) (c : ℕ) (ctx : Context) (m : Message)
        → s.contexts c ≡ some ctx
        → ctx.init ≡ true
        → dispatch_message cb report drop_func s c m
          ≡ some (record (put_context s c (some (counted ctx 1))) { user = step m s.user })
    unfolding dispatch_message
    dispatch_message_lem s c ctx m e ready =
        let s2 = put_context s c (some (counted ctx 1)) in
        rw e (
          ap
            (λ (b : Bool).
              assert b >> cb c (m.sz / 2 ^ message_type_shift) (m.sz % 2 ^ message_type_shift) m s2)
            ready
          ∙ quiet.calls c _ _ m s2)

    -- The service gets the message.
    serve_lem :
        {s : Server S} {ctx : Context} {ids : List ℕ} {held : ℕ → List Message} {ms : List Message}
        (sm : Monitor) (c h p : ℕ) (m : Message)
        → Serving s c p ctx ids held ms
        → ctx.init ≡ true
        → ctx.cb ≡ true
        → (s' : Server S) × (serve cb report drop_func s sm c h p m
            ≡ some (s', monitor_trigger (monitor_trigger sm m.source h) 0 0))
          × Serving s' c p (counted ctx 1) ids (set_at held p ms) ms
          × Served seen s s' c p held (set_at held p ms) (m ∷ [])
    unfolding serve
    serve_lem {s} {ctx} {ids} {held} {ms} sm c h p m v ready has =
        let (s1, run, v1, same, store, heard) = note_overload_lem c p v in
        let told = monitor_trigger (monitor_trigger sm m.source h) 0 0 in
        let s2 = put_context s1 c (some (counted ctx 1)) in
        (
          record s2 { user = step m s2.user },
          rw (run, v1.context)
              (ap
                  (λ (b : Bool).
                    (if b then dispatch_message cb report drop_func s1 c m else some s1) >>= λ z.
                    some (z, told))
                  has
                ∙ ap (λ (o : Option (Server S)). o >>= λ z. some (z, told))
                    (dispatch_message_lem s1 c ctx m v1.context ready)),
          record {
            running = v1.running;
            holds = v1.holds;
            context = rw (==_refl c) refl;
            q = v1.q;
            at_q = v1.at_q;
            flagged = v1.flagged;
            calm = v1.calm;
            low = v1.low;
          },
          record {
            got = quiet.gets m s1.user ∙ ap (λ z. z ++ m ∷ []) heard;
            others = λ x ne. rw (==_ne x c ne) (ap (λ f. f x) same);
            queues = λ x ne. rw (==_ne x p ne) refl;
            same_storage = store;
          },
        )

    rounds_lem :
        (weight : Option ℕ) (i n : ℕ) (q : MessageQueue) (len : ℕ)
        → mq_length q ≡ len
        → rounds cb report drop_func weight i n q ≡ next_n weight i n len
    rounds_lem none i n q len e = refl
    rounds_lem (some weight) i n q len e = ap (λ l. if i == 0 then l / 2 ^ weight else n) e

    -- One round, and the rest of the loop
    pub round_lem :
        {s : Server S} {ctx : Context} {ids : List ℕ} {held : ℕ → List Message} (sm : Monitor)
        (c h p : ℕ) (m : Message) (ms : List Message)
        → Serving s c p ctx ids held (m ∷ ms)
        → ctx.init ≡ true
        → ctx.cb ≡ true
        → (s' : Server S) × (held' : ℕ → List Message) × ((fuel : ℕ) (weight : Option ℕ) (i n : ℕ)
            → i < n
            → dispatch_loop cb report drop_func (suc fuel) weight i n s sm c h p
              ≡ dispatch_loop cb report drop_func fuel weight
                  (i + 1)
                  (next_n weight i n (length ms))
                  s'
                  (monitor_trigger (monitor_trigger sm m.source h) 0 0)
                  c
                  h
                  p)
          × Serving s' c p (counted ctx 1) ids held' ms
          × Served seen s s' c p held held' (m ∷ [])
    unfolding dispatch_loop
    round_lem {s} {ctx} {ids} {held} sm c h p m ms v ready has =
        let (t, run, reach, running) = mq_pop_at_lem p v.q v.running v.at_q m ms v.holds in
        let q' = popped v.q (length ms) t in
        let w = put s.world p q' in
        let v1 : Serving (record s { world = w }) c p ctx ids (set_at held p ms) ms = record {
          running = running;
          holds = rw (==_refl p) refl;
          context = v.context;
          q = q';
          at_q = rw (==_refl p) refl;
          flagged = v.flagged;
          calm = rw (le→ltb_false v.q.overload_threshold (length ms) (omega (arith, v.low))) v.calm;
          low = omega (arith, reach);
        } in
        let (s', served, v', got) = serve_lem sm c h p m v1 ready has in
        let len : mq_length q' ≡ length ms =
          mq_length-eq-length ms (subst (Models q') v1.holds (running.holds p q' v1.at_q)) in
        (
          s',
          set_at (set_at held p ms) p ms,
          λ fuel weight i n l.
              rw (lt→ltb i n l, run, ==_refl p, served)
                (ap
                  (λ k.
                    dispatch_loop cb report drop_func fuel weight (i + 1) k s'
                      (monitor_trigger (monitor_trigger sm m.source h) 0 0) c h p)
                  (rounds_lem weight i n q' (length ms) len)),
          v',
          record {
            got = got.got;
            others = got.others;
            queues = λ x ne. got.queues x ne ∙ rw (==_ne x p ne) refl;
            same_storage = got.same_storage;
          },
        )
