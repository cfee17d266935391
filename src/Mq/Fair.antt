-- ===== src/Mq/Fair.antt =====
-- The linked global queue refines a sequence of queues: a push appends, and a pop takes the first.
use skynet_sy.Common.{
  ℕ, ◌≡◌, ◌≢◌, refl, sym, ◌∙◌, ap, arith, true, false, Option, none, some, List, [], ◌∷◌, ◌++◌,
  Option-cases, inl, inr, ==_refl,
}
use skynet_sy.Mq.Queue.{MessageQueue}
use skynet_sy.Mq.Chain.{
  first, last, member, Distinct, successor, successor_absent, last-snoc, last-cons, member-snoc,
  Distinct-snoc, successor-snoc, last-member,
}
use skynet_sy.Mq.Global.{World, put, globalmq_push, globalmq_pop}

-- The queues `ids`, front first, are linked through `next`; every other queue has a null `next`.
pub record Linked (w : World) (ids : List ℕ) : Type 0 where
  pub at_front : w.global_head ≡ first ids
  pub at_back : w.global_tail ≡ last ids
  pub distinct : Distinct ids
  pub live : (p : ℕ) → member ids p ≡ true → w.queues p ≢ none
  pub links : (p : ℕ) (q : MessageQueue) → w.queues p ≡ some q → q.next ≡ successor ids p

last-none : (ids : List ℕ) → last ids ≡ none → ids ≡ []
last-none [] e = refl
last-none (a ∷ ids) e = cc (last-cons a ids).1

-- a queue without its link
abbrev pub unlinked : Option MessageQueue → Option MessageQueue
unlinked none = none
unlinked (some q) = some (record q { next = none })

-- Two heaps with the same queues, but for the links.
abbrev pub SameQueues : World → World → Type 0
SameQueues w w' = (x : ℕ) → unlinked (w'.queues x) ≡ unlinked (w.queues x)

-- What `skynet_globalmq_push` leaves: the old last queue, if there is one, points to `p`.
abbrev pub pushed : World → Option (ℕ × MessageQueue) → ℕ → World
pushed w none p = record w { global_head = some p; global_tail = some p }
pushed w (some (t, back)) p = record (put w t (record back { next = some p })) {
  global_tail = some p;
}

front : (ids : List ℕ) (t p : ℕ) → last ids ≡ some t → first ids ≡ first (ids ++ p ∷ [])
front [] t p e = cc
front (a ∷ ids) t p e = refl

module _ {w : World} (ids : List ℕ) (p : ℕ) (q : MessageQueue) (v : Linked w ids)
    (e : w.queues p ≡ some q) (absent : member ids p ≡ false) where
  null : q.next ≡ none
  null = v.links p q e ∙ successor_absent ids p absent

  only_member : (x : ℕ) → member (p ∷ []) x ≡ true → p ≡ x
  only_member x h = ground arith

  first_push :
      ids ≡ [] → (globalmq_push w p ≡ some (pushed w none p)) × Linked (pushed w none p) (p ∷ [])
  unfolding globalmq_push
  first_push empty = (
    rw (e, null, v.at_back, empty) refl,
    record {
      at_front = refl;
      at_back = refl;
      distinct = (refl, tt);
      live = λ x h. λ n. cc (sym e ∙ ap w.queues (only_member x h) ∙ n);
      links = λ x y h. v.links x y h ∙ rw empty (ground arith);
    },
  )

  later_push :
      (t : ℕ) (back : MessageQueue)
      → last ids ≡ some t
      → w.queues t ≡ some back
      → (globalmq_push w p ≡ some (pushed w (some (t, back)) p))
        × Linked (pushed w (some (t, back)) p) (ids ++ p ∷ [])
  unfolding globalmq_push
  later_push t back l et = (
    rw (e, null, v.at_back, l, et) refl,
    record {
      at_front = v.at_front ∙ front ids t p l;
      at_back = sym (last-snoc ids p);
      distinct = Distinct-snoc ids p v.distinct absent;
      live = λ x h. ground (arith, v.live x, member-snoc ids p x);
      links =
          λ x y h. rw (successor-snoc ids t p x v.distinct l absent) (ground (arith, v.links x y));
    },
  )

  SameQueues-pushed :
      (t : ℕ) (back : MessageQueue)
      → w.queues t ≡ some back
      → SameQueues w (pushed w (some (t, back)) p)
  SameQueues-pushed t back et x = ground arith

  -- Where the global queue links a sequence of queues, a push of a queue that exists and is not
  -- linked succeeds, links the sequence with that queue at its end, and changes only links.
  pub globalmq_push_lem :
      (w' : World) × (globalmq_push w p ≡ some w') × Linked w' (ids ++ p ∷ []) × SameQueues w w'
  globalmq_push_lem = push_by_last (last ids) refl
    where
      push_by_last :
          (o : Option ℕ)
          → last ids ≡ o
          → (w' : World) × (globalmq_push w p ≡ some w')
            × Linked w' (ids ++ p ∷ [])
            × SameQueues w w'
      push_by_last none l =
          let none_left = last-none ids l in
          (_, (first_push none_left).0, rw none_left (first_push none_left).1, λ x. refl)
      push_by_last (some t) l = elim (Option-cases (w.queues t)) [
        | inl dead ↦ absurd (v.live t (last-member ids t l) dead)
        | inr (back, et) ↦
            (_, (later_push t back l et).0, (later_push t back l et).1, SameQueues-pushed t back et)
      ]

-- What `skynet_globalmq_pop` leaves: `p` is unlinked.
abbrev pub popped : World → ℕ → MessageQueue → List ℕ → World
popped w p q ids = record (put w p (record q { next = none })) {
  global_head = first ids;
  global_tail = last ids;
}

module _ {w : World} (p : ℕ) (q : MessageQueue) where
  next_of_first : (ids : List ℕ) → Linked w (p ∷ ids) → w.queues p ≡ some q → q.next ≡ first ids
  next_of_first ids v e = v.links p q e ∙ rw (==_refl p)

  pop_run :
      (ids : List ℕ)
      → Linked w (p ∷ ids)
      → w.queues p ≡ some q
      → globalmq_pop w ≡ some (some p, popped w p q ids)
  unfolding globalmq_pop
  pop_run [] v e = rw (v.at_front, e, next_of_first [] v e, v.at_back, ==_refl p)
  pop_run (a ∷ ids) v e = rw (v.at_front, e, next_of_first (a ∷ ids) v e, v.at_back)

  popped-Linked :
      (ids : List ℕ) → Linked w (p ∷ ids) → w.queues p ≡ some q → Linked (popped w p q ids) ids
  popped-Linked ids v e = record {
    at_front = refl;
    at_back = refl;
    distinct = v.distinct.1;
    live = λ x h. ground (arith, v.live x);
    links = λ x y h. ground (arith, v.links x y, successor_absent ids p v.distinct.0);
  }

-- Where the global queue links a sequence of queues that is not empty, a pop succeeds, returns the
-- first, links the others in their order, and changes only links.
pub globalmq_pop_lem :
    {w : World} (p : ℕ) (ids : List ℕ)
    → Linked w (p ∷ ids)
    → (w' : World) × (globalmq_pop w ≡ some (some p, w')) × Linked w' ids × SameQueues w w'
globalmq_pop_lem {w} p ids v = elim (Option-cases (w.queues p)) [
  | inl dead ↦ absurd (v.live p (ground arith) dead)
  | inr (q, e) ↦
      (popped w p q ids, pop_run p q ids v e, popped-Linked p q ids v e, λ x. ground arith)
]

-- On an empty global queue it returns a null pointer and changes nothing.
pub globalmq_pop_empty : {w : World} → Linked w [] → globalmq_pop w ≡ some (none, w)
unfolding globalmq_pop
globalmq_pop_empty {w} v = rw v.at_front
