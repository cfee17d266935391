-- ===== src/Mq/Mark.antt =====
-- What a worker does with a queue that it took from the global queue, and the mark for release.
use mathlib.Core.Option.{some-injective}
use native.Mathlib.Decide.{ℕ_discrete}
use skynet_sy.Common.{
  ℕ, ◌≤◌, ◌≡◌, ◌≢◌, refl, sym, ◌∙◌, ap, subst, arith, true, false, none, some, List, [], ◌∷◌, ◌++◌,
  ◌==◌, if◌then◌else◌, Bool-cases, Option-cases, inl, inr, ==_iff, ==_refl, ==_ne, length,
}
use skynet_sy.Mq.Queue.{Message, MessageQueue, mq_overload}
use skynet_sy.Mq.Ring.{Models}
use skynet_sy.Mq.Fifo.{mq_pop_lem, mq_pop_empty, popped}
use skynet_sy.Mq.Chain.{member, member-snoc}
use skynet_sy.Mq.Fair.{globalmq_push_lem}
use skynet_sy.Mq.Global.{World, put, mq_pop_at, mq_mark_release}
use skynet_sy.Mq.Service.{
  Running, Keeps, Keeps-link, of_Keeps, put_cases, put-Linked, mark-Models, along_links,
}

-- the messages when those of `p` are `ms`
abbrev pub set_at : (ℕ → List Message) → ℕ → List Message → ℕ → List Message
set_at held p ms x = if x == p then ms else held x

reset-Models :
    (q : MessageQueue) (ms : List Message)
    → Models q ms
    → Models (record q { overload_threshold = mq_overload; in_global = 0 }) ms
reset-Models q ms v = record {
  width = v.width;
  small = v.small;
  head_in = v.head_in;
  room = v.room;
  tail_at = v.tail_at;
  window = v.window;
  threshold = omega arith;
}

module _ {w : World} {ids : List ℕ} {held : ℕ → List Message} (p : ℕ) (q : MessageQueue)
    (v : Running w ids held) (e : w.queues p ≡ some q) where
  -- A new state of the queue at `p`, with its messages.
  pub put-Running :
      (q' : MessageQueue) (ms : List Message)
      → Models q' ms
      → q'.next ≡ q.next
      → q'.in_global ≤ 1
      → (q'.release ≡ 0 → member ids p ≡ true → q'.in_global ≡ 1)
      → Running (put w p q') ids (set_at held p ms)
  put-Running q' ms models link flag listed = of_Keeps (put-Linked p q q' v.linked e link) (
      put_cases (Keeps (set_at held p ms) ids) w p q' (rw (==_refl p) (models, flag, listed))
        (λ x y ne ey. rw (==_ne x p ne) (v.holds x y ey, v.flag x y ey, v.scheduled x y ey)))

  -- In a running world, a pop from a queue that holds messages succeeds and returns the oldest. It
  -- changes no other queue and not the ends of the global queue; in its queue it moves the head by
  -- one cell, notes an overload where the messages left are more than the threshold, and leaves a
  -- threshold that they do not pass and every other field. The world stays running with the same
  -- global queue, and the queue holds the other messages in order.
  pub mq_pop_at_lem :
      (m : Message) (ms : List Message)
      → held p ≡ m ∷ ms
      → (t : ℕ) × (mq_pop_at w p ≡ some (some m, put w p (popped q (length ms) t)))
        × (length ms ≤ t)
        × Running (put w p (popped q (length ms) t)) ids (set_at held p ms)
  unfolding mq_pop_at
  mq_pop_at_lem m ms h =
      let (t, run, reach, models) = mq_pop_lem m ms (subst (Models q) h (v.holds p q e)) in
      let q' = popped q (length ms) t in
      (
        t,
        rw e (rw run refl),
        reach,
        put-Running q' ms models refl (v.flag p q e) (v.scheduled p q e),
      )

  -- In a running world, a pop from an empty queue that is not in the global queue returns no
  -- message, keeps the world running with what its queues hold, and clears the flag in_global.
  pub mq_pop_at_empty :
      held p ≡ []
      → member ids p ≡ false
      → (w' : World) × (mq_pop_at w p ≡ some (none, w'))
        × Running w' ids held
        × ((q' : MessageQueue) × (w'.queues p ≡ some q') × (q'.in_global ≡ 0))
  unfolding mq_pop_at
  mq_pop_at_empty h taken =
      let q' = record q { overload_threshold = mq_overload; in_global = 0 } in
      let models = subst (Models q) h (v.holds p q e) in
      (
        put w p q',
        rw e (rw (mq_pop_empty models) refl),
        of_Keeps (put-Linked p q q' v.linked e refl) (
            put_cases (Keeps held ids) w p q'
              (reset-Models q (held p) (v.holds p q e), omega arith, λ r i. cc)
              (λ x y ne ey. (v.holds x y ey, v.flag x y ey, v.scheduled x y ey))),
        (q', rw (==_refl p), refl),
      )

  abbrev marked : MessageQueue
  marked = record q { release = 1 }

  marked-Keeps :
      (ids' : List ℕ)
      → ((x : ℕ) → x ≢ p → member ids' x ≡ member ids x)
      → (x : ℕ) (y : MessageQueue) → (put w p marked).queues x ≡ some y
      → Keeps held ids' x y
  marked-Keeps ids' same =
      put_cases (Keeps held ids') w p marked
        (
          mark-Models q q.in_global 1 q.next (held p) (v.holds p q e),
          v.flag p q e,
          λ r i. absurd (omega arith),
        )
        (λ x y ne ey.
          (v.holds x y ey, v.flag x y ey, λ r i. v.scheduled x y ey r (sym (same x ne) ∙ i)))

  after_mark : (y : MessageQueue) → (put w p marked).queues p ≡ some y → y.release ≡ 1
  after_mark y h =
      let same : some marked ≡ some y = sym (rw (==_refl p)) ∙ h in
      ap (λ z. z.release) (sym (some-injective _ _ same))

  member_others : (x : ℕ) → x ≢ p → member (ids ++ p ∷ []) x ≡ member ids x
  member_others x ne = member-snoc ids p x ∙ ground arith

  member_self : member (ids ++ p ∷ []) p ≡ true
  member_self = member-snoc ids p p ∙ ground arith

  mark_idle :
      q.in_global ≢ 1
      → q.release ≡ 0
      → (w' : World) × (mq_mark_release w p ≡ some w')
        × Running w' (ids ++ p ∷ []) held
        × ((q' : MessageQueue) × (w'.queues p ≡ some q') × (q'.release ≡ 1))
  unfolding mq_mark_release
  mark_idle idle alive =
      let absent : member ids p ≡ false = free idle alive in
      let (w', pushed, linked, links) =
        globalmq_push_lem ids p marked (put-Linked p q marked v.linked e refl) (rw (==_refl p))
          absent in
      let kept = λ (x : ℕ).
        along_links (Keeps held (ids ++ p ∷ []) x) (Keeps-link held (ids ++ p ∷ []) x)
          (put w p marked) w' links x (marked-Keeps (ids ++ p ∷ []) member_others x) in
      let flagged =
        along_links (λ y. y.release ≡ 1) (λ y n h. h) (put w p marked) w' links p after_mark in
      (
        w',
        rw (e, alive, ==_ne q.in_global 1 idle) pushed,
        of_Keeps linked kept,
        found w' (linked.live p member_self) flagged,
      )
    where
      free : q.in_global ≢ 1 → q.release ≡ 0 → member ids p ≡ false
      free idle alive = elim (Bool-cases (member ids p)) [
        | inl listed ↦ absurd (idle (v.scheduled p q e alive listed))
        | inr away ↦ away
      ]

      found :
          (w' : World)
          → w'.queues p ≢ none
          → ((q' : MessageQueue) → w'.queues p ≡ some q' → q'.release ≡ 1)
          → (q' : MessageQueue) × (w'.queues p ≡ some q') × (q'.release ≡ 1)
      found w' there flagged = elim (Option-cases (w'.queues p)) [
        | inl gone ↦ absurd (there gone)
        | inr (q', e') ↦ (q', e', flagged q' e')
      ]

  -- In a running world, the mark for release of a queue that has none succeeds, keeps the messages
  -- of all queues and the world running, sets the mark, and appends the queue to the global queue
  -- exactly if its flag in_global was not 1.
  pub mq_mark_release_lem :
      q.release ≡ 0
      → (w' : World) × (mq_mark_release w p ≡ some w')
        × Running w' (if q.in_global == 1 then ids else ids ++ p ∷ []) held
        × ((q' : MessageQueue) × (w'.queues p ≡ some q') × (q'.release ≡ 1))
  unfolding mq_mark_release
  mq_mark_release_lem alive = elim (ℕ_discrete q.in_global 1) [
    | yes busy ↦ (
      put w p marked,
      rw (e, alive, busy) refl,
      subst (λ b. Running (put w p marked) (if b then ids else ids ++ p ∷ []) held)
          (sym ((==_iff q.in_global 1).1 busy))
          (of_Keeps (put-Linked p q marked v.linked e refl) (marked-Keeps ids (λ x ne. refl))),
      (marked, rw (==_refl p), refl),
    )
    | no idle ↦ rw (==_ne q.in_global 1 idle) (mark_idle idle alive)
  ]
