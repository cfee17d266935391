-- ===== src/Context/Count.antt =====
-- References of contexts: `skynet_context_grab` and `_release`, and the calls that hold one for a while.
use mathlib.Core.Path.{fun_ext}
use native.Mathlib.Decide.{ℕ_discrete}
use skynet_sy.Common.{
  ℕ, ◌+◌, ◌-◌, ◌^◌, ◌<◌, ◌≡◌, refl, sym, ◌∙◌, ap, arith, true, false, Option, none, some, List, [],
  ◌∷◌, ◌++◌, ◌==◌, if◌then◌else◌, ==_refl, ==_ne, length,
}
use skynet_sy.Mq.Queue.{Message, MessageQueue}
use skynet_sy.Mq.Global.{World}
use skynet_sy.Mq.Service.{Running, push_at, mq_push_lem}
use skynet_sy.Handle.Slots.{handle_find}
use skynet_sy.Context.Server.{
  Context, Server, put_context, handle_of, context_grab, context_release, handle_grab, context_push,
}

module _ {S : Type 0} where
  -- Two writes at one place.
  pub put_context-put_context :
      (s : Server S) (c : ℕ) (x y : Option Context)
      → put_context (put_context s c x) c y ≡ put_context s c y
  put_context-put_context s c x y i = record (put_context s c y) {
    contexts = fun_ext (λ z. twice z) i;
  }
    where
      twice :
          (z : ℕ)
          → (put_context (put_context s c x) c y).contexts z ≡ (put_context s c y).contexts z
      twice z = ground arith

  pub put_context_same :
      (s : Server S) (c : ℕ) (x : Option Context) → s.contexts c ≡ x → put_context s c x ≡ s
  put_context_same s c x e i = record s { contexts = fun_ext (λ z. same z) i }
    where
      same : (z : ℕ) → (put_context s c x).contexts z ≡ s.contexts z
      same z = elim (ℕ_discrete z c) [
        | yes p ↦ rw (p, ==_refl c) (sym e)
        | no p ↦ rw (==_ne z c p) refl
      ]

  -- the state with one reference more
  abbrev pub grabbed : Server S → ℕ → Context → Server S
  grabbed s c ctx = put_context s c (some (record ctx { ref = ctx.ref + 1 }))

  module _ (s : Server S) (c : ℕ) (ctx : Context) (e : s.contexts c ≡ some ctx) where
    -- A release that is not the last one
    pub release_shared :
        1 < ctx.ref
        → context_release s c
          ≡ some (some c, put_context s c (some (record ctx { ref = ctx.ref - 1 })))
    unfolding context_release
    release_shared more =
        rw (e, ==_ne ctx.ref 0 (omega (arith, more)), ==_ne (ctx.ref - 1) 0 (omega (arith, more)))
          refl

    pub grab_lem : context_grab s c ≡ some (grabbed s c ctx)
    unfolding context_grab
    grab_lem = rw e refl

    pub grabbed_find :
        (h : ℕ)
        → handle_find (handle_of s) s.storage h ≡ some (some c)
        → handle_grab s h ≡ some (some c, grabbed s c ctx)
    unfolding handle_grab
    grabbed_find h found = rw (found, grab_lem) refl

  -- The release of what was grabbed gives the state back.
  pub release-grabbed :
      (s : Server S) (c : ℕ) (ctx : Context)
      → s.contexts c ≡ some ctx
      → 0 < ctx.ref
      → context_release (grabbed s c ctx) c ≡ some (some c, s)
  release-grabbed s c ctx e pos =
      let back : ctx.ref + 1 - 1 ≡ ctx.ref = omega arith in
      release_shared (grabbed s c ctx) c (record ctx { ref = ctx.ref + 1 }) (rw (==_refl c) refl)
        (omega (arith, pos))
      ∙ ap (λ n. some (some c, put_context (grabbed s c ctx) c (some (record ctx { ref = n }))))
          back
      ∙ ap (λ z. some (some c, z))
          (put_context-put_context s c _ (some ctx) ∙ put_context_same s c (some ctx) e)

  -- In a running world, where a handle finds a live context whose queue is not marked for release
  -- and holds fewer than 2^29 messages, a push by the handle succeeds, appends the message to that
  -- queue, puts the queue into the global queue exactly if its flag in_global was 0, and leaves
  -- the contexts and their counts as they were.
  pub context_push_lem :
      {ids : List ℕ} {held : ℕ → List Message} (s : Server S) (h c : ℕ) (ctx : Context)
      (q : MessageQueue) (m : Message)
      → handle_find (handle_of s) s.storage h ≡ some (some c)
      → s.contexts c ≡ some ctx
      → 0 < ctx.ref
      → Running s.world ids held
      → s.world.queues ctx.queue ≡ some q
      → q.release ≡ 0
      → length (held ctx.queue) < 2 ^ 29
      → (w : World) × (context_push s h m ≡ some (true, record s { world = w }))
        × Running w
            (if q.in_global == 0 then ids ++ ctx.queue ∷ [] else ids)
            (push_at held ctx.queue m)
  unfolding context_push
  context_push_lem s h c ctx q m found e pos v at_q alive few =
      let (w, run, running) = mq_push_lem ctx.queue q v at_q m alive few in
      (
        w,
        rw
            (
              grabbed_find s c ctx e h found,
              ==_refl c,
              run,
              release-grabbed (record s { world = w }) c ctx e pos,
            )
            refl,
        running,
      )

  -- A push to a handle that no context has.
  pub context_push_missing :
      (s : Server S) (h : ℕ) (m : Message)
      → handle_find (handle_of s) s.storage h ≡ some none
      → context_push s h m ≡ some (false, s)
  unfolding context_push handle_grab
  context_push_missing s h m gone = rw gone refl
