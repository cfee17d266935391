-- ===== src/Mq/Service.antt =====
-- Queues in use: each holds its messages, and the global queue lists those that wait for a worker.
use mathlib.Core.Option.{some-injective}
use native.Mathlib.Decide.{ℕ_discrete}
use skynet_sy.Common.{
  ℕ, ◌<◌, ◌≤◌, ◌^◌, ◌≡◌, ◌≢◌, refl, sym, ◌∙◌, ap, subst, arith, true, false, Option, none, some,
  List, [], ◌∷◌, ◌++◌, ◌==◌, if◌then◌else◌, Bool-cases, Option-cases, inl, inr, ==_refl, ==_ne,
  length,
}
use skynet_sy.Mq.Queue.{Message, MessageQueue, enqueue}
use skynet_sy.Mq.Ring.{Models}
use skynet_sy.Mq.Fifo.{SameMarks, enqueue_lem}
use skynet_sy.Mq.Chain.{member, member-snoc}
use skynet_sy.Mq.Global.{World, put, mq_push}
use skynet_sy.Mq.Fair.{Linked, SameQueues, unlinked, globalmq_push_lem}

-- `held p` are the messages of the queue at `p`.
pub record Running (w : World) (ids : List ℕ) (held : ℕ → List Message) : Type 0 where
  pub linked : Linked w ids
  pub holds : (p : ℕ) (q : MessageQueue) → w.queues p ≡ some q → Models q (held p)
  pub flag : (p : ℕ) (q : MessageQueue) → w.queues p ≡ some q → q.in_global ≤ 1
  pub scheduled :
      (p : ℕ) (q : MessageQueue)
      → w.queues p ≡ some q
      → q.release ≡ 0
      → member ids p ≡ true
      → q.in_global ≡ 1

-- the messages after one more was pushed to `p`
abbrev pub push_at : (ℕ → List Message) → ℕ → Message → ℕ → List Message
push_at held p m x = if x == p then held x ++ m ∷ [] else held x

-- The fields of the global queue do not matter to the ring.
pub mark-Models :
    (q : MessageQueue) (g r : ℕ) (n : Option ℕ) (ms : List Message)
    → Models q ms
    → Models (record q { in_global = g; release = r; next = n }) ms
mark-Models q g r n ms v = record {
  width = v.width;
  small = v.small;
  head_in = v.head_in;
  room = v.room;
  tail_at = v.tail_at;
  window = v.window;
  threshold = v.threshold;
}

-- A change of links keeps a property of the other fields.
pub along_links {κ} :
    (P : MessageQueue → Type κ)
    → ((q : MessageQueue) (n : Option ℕ) → P q → P (record q { next = n }))
    → (w w' : World) → SameQueues w w'
    → (x : ℕ) → ((q : MessageQueue) → w.queues x ≡ some q → P q)
    → (q : MessageQueue) → w'.queues x ≡ some q
    → P q
along_links P keep w w' same x h q e = elim (Option-cases (w.queues x)) [
  | inl gone ↦ cc (ap unlinked (sym gone) ∙ sym (same x) ∙ ap unlinked e)
  | inr (old, eo) ↦
      let bare : (record old { next = none }) ≡ (record q { next = none }) =
        some-injective _ _ (ap unlinked (sym eo) ∙ sym (same x) ∙ ap unlinked e) in
      keep (record q { next = none }) q.next (subst P bare (keep old none (h old eo)))
]

-- A write that keeps the link keeps the chain.
pub put-Linked :
    {w : World} {ids : List ℕ} (p : ℕ) (q q' : MessageQueue)
    → Linked w ids
    → w.queues p ≡ some q
    → q'.next ≡ q.next
    → Linked (put w p q') ids
put-Linked p q q' v e n = record {
  at_front = v.at_front;
  at_back = v.at_back;
  distinct = v.distinct;
  live = λ x h. ground (arith, v.live x);
  links = λ x y h. ground (arith, v.links x y, v.links p q e);
}

-- What a `World` promises of the queue at `x`, whichever list it is in.
abbrev pub Keeps : (held : ℕ → List Message) → (ids : List ℕ) → ℕ → MessageQueue → Type 0
Keeps held ids x q =
    Models q (held x) × (q.in_global ≤ 1) × (q.release ≡ 0 → member ids x ≡ true → q.in_global ≡ 1)

pub Keeps-link :
    (held : ℕ → List Message) (ids : List ℕ) (x : ℕ) (q : MessageQueue) (n : Option ℕ)
    → Keeps held ids x q
    → Keeps held ids x (record q { next = n })
Keeps-link held ids x q n k = (mark-Models q q.in_global q.release n (held x) k.0, k.1, k.2)

pub of_Keeps :
    {w : World} {ids : List ℕ} {held : ℕ → List Message}
    → Linked w ids
    → ((x : ℕ) (q : MessageQueue) → w.queues x ≡ some q → Keeps held ids x q)
    → Running w ids held
of_Keeps v k = record {
  linked = v;
  holds = λ x q e. (k x q e).0;
  flag = λ x q e. (k x q e).1;
  scheduled = λ x q e. (k x q e).2;
}

-- A fact about every queue, after a write at `p`.
pub put_cases {κ} :
    (P : ℕ → MessageQueue → Type κ) (w : World) (p : ℕ) (q' : MessageQueue)
    → P p q'
    → ((x : ℕ) (y : MessageQueue) → x ≢ p → w.queues x ≡ some y → P x y)
    → (x : ℕ) (y : MessageQueue) → (put w p q').queues x ≡ some y
    → P x y
put_cases P w p q' at_p others x y h = elim (ℕ_discrete x p) [
  | yes same ↦
      let written : some q' ≡ some y = sym (rw (same, ==_refl p)) ∙ h in
      subst (λ z. P z y) (sym same) (subst (P p) (some-injective _ _ written) at_p)
  | no other ↦ others x y other (sym (rw (==_ne x p other)) ∙ h)
]

module _ {w : World} {ids : List ℕ} {held : ℕ → List Message} (p : ℕ) (q : MessageQueue)
    (v : Running w ids held) (e : w.queues p ≡ some q) (m : Message) where
  -- After the message is stored: `ids'` may have `p` as well.
  stored :
      (q' : MessageQueue) (ids' : List ℕ)
      → Models q' (held p ++ m ∷ [])
      → q'.in_global ≡ 1
      → ((x : ℕ) → x ≢ p → member ids' x ≡ member ids x)
      → (x : ℕ) (y : MessageQueue) → (put w p q').queues x ≡ some y
      → Keeps (push_at held p m) ids' x y
  stored q' ids' models marked same =
      put_cases (Keeps (push_at held p m) ids') w p q'
        (rw (==_refl p) (models, omega arith, λ r i. marked))
        (λ x y ne ey.
          rw (==_ne x p ne, same x ne) (v.holds x y ey, v.flag x y ey, v.scheduled x y ey))

  -- A push to a queue that is in the global queue, or that a worker holds.
  push_marked :
      (q' : MessageQueue)
      → enqueue q m ≡ some q'
      → Models q' (held p ++ m ∷ [])
      → SameMarks q q'
      → q.in_global ≡ 1
      → (mq_push w p m ≡ some (put w p q')) × Running (put w p q') ids (push_at held p m)
  unfolding mq_push
  push_marked q' run models same marked = (
    rw (e, run, same.2 ∙ marked) refl,
    of_Keeps (put-Linked p q q' v.linked e same.5)
        (stored q' ids models (same.2 ∙ marked) (λ x ne. refl)),
  )

  absent : q.in_global ≡ 0 → q.release ≡ 0 → member ids p ≡ false
  absent idle alive = elim (Bool-cases (member ids p)) [
    | inl listed ↦ absurd (omega (arith, v.scheduled p q e alive listed))
    | inr free ↦ free
  ]

  there : (q' : MessageQueue) → (put w p q').queues p ≡ some q'
  there q' = rw (==_refl p)

  others : (x : ℕ) → x ≢ p → member (ids ++ p ∷ []) x ≡ member ids x
  others x ne = member-snoc ids p x ∙ ground arith

  -- A push to an idle queue puts it into the global queue.
  push_idle :
      (q' : MessageQueue)
      → enqueue q m ≡ some q'
      → Models q' (held p ++ m ∷ [])
      → SameMarks q q'
      → q.in_global ≡ 0
      → q.release ≡ 0
      → (w' : World) × (mq_push w p m ≡ some w') × Running w' (ids ++ p ∷ []) (push_at held p m)
  unfolding mq_push
  push_idle q' run models same idle alive =
      let marked = record q' { in_global = 1 } in
      let (w', pushed, linked, links) =
        globalmq_push_lem ids p marked (put-Linked p q marked v.linked e same.5) (there marked)
          (absent idle alive) in
      (
        w',
        rw (e, run, same.2 ∙ idle) pushed,
        of_Keeps linked (λ x.
            along_links (Keeps (push_at held p m) (ids ++ p ∷ []) x)
              (Keeps-link (push_at held p m) (ids ++ p ∷ []) x) (put w p marked) w' links x
              (stored marked (ids ++ p ∷ [])
                (mark-Models q' 1 q'.release q'.next (held p ++ m ∷ []) models) refl others x)),
      )

  -- In a running world, whose rings hold their messages and whose global queue links exactly the
  -- queues in it, a push to a queue that is not marked for release and holds fewer than 2^29
  -- messages succeeds, appends the message to that queue and no other, keeps the world running,
  -- and appends the queue to the global queue exactly if its flag in_global was 0.
  pub mq_push_lem :
      q.release ≡ 0
      → length (held p) < 2 ^ 29
      → (w' : World) × (mq_push w p m ≡ some w')
        × Running w' (if q.in_global == 0 then ids ++ p ∷ [] else ids) (push_at held p m)
  mq_push_lem alive few =
      let (q', run, models, same) = enqueue_lem m (held p) (v.holds p q e) few in
      elim (ℕ_discrete q.in_global 0) [
        | yes idle ↦ rw idle (push_idle q' run models same idle alive)
        | no busy ↦
            let (done, running) = push_marked q' run models same (omega (arith, v.flag p q e)) in
            (put w p q', done, rw (==_ne q.in_global 0 busy) running)
      ]
