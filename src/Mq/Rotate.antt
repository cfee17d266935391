-- ===== src/Mq/Rotate.antt =====
-- A worker takes the next queue from the global queue and puts its own at the end.
use mathlib.Core.Option.{some-injective}
use native.Mathlib.Decide.{ℕ_discrete}
use skynet_sy.Common.{
  ℕ, ◌≡◌, refl, sym, ◌∙◌, ap, arith, false, some, List, [], ◌∷◌, ◌++◌, Option-cases, inl, inr,
}
use skynet_sy.Mq.Queue.{Message, MessageQueue}
use skynet_sy.Mq.Chain.{first, member, member-snoc}
use skynet_sy.Mq.Global.{World, globalmq_push, globalmq_pop}
use skynet_sy.Mq.Fair.{
  globalmq_pop_empty, SameQueues, unlinked, globalmq_push_lem, globalmq_pop_lem,
}
use skynet_sy.Mq.Service.{Running, Keeps, Keeps-link, of_Keeps, along_links}

-- A change of links keeps the flag of a queue.
pub same_flag :
    (w w1 : World) (p : ℕ) (q : MessageQueue)
    → SameQueues w w1
    → w.queues p ≡ some q
    → (q1 : MessageQueue) × (w1.queues p ≡ some q1) × (q1.in_global ≡ q.in_global)
same_flag w w1 p q same e = elim (Option-cases (w1.queues p)) [
  | inl gone ↦ cc (ap unlinked (sym gone) ∙ same p ∙ ap unlinked e)
  | inr (q1, e1) ↦ (
    q1,
    e1,
    ap (λ r. r.in_global) (some-injective _ _ (ap unlinked (sym e1) ∙ same p ∙ ap unlinked e)),
  )
]

module _ {w : World} {ids : List ℕ} {held : ℕ → List Message} (x p : ℕ) (q : MessageQueue)
    (v : Running w (x ∷ ids) held) (e : w.queues p ≡ some q) (flagged : q.in_global ≡ 1)
    (taken : member (x ∷ ids) p ≡ false) where
  kept : (z : ℕ) (y : MessageQueue) → w.queues z ≡ some y → Keeps held (ids ++ p ∷ []) z y
  kept z y ey = (
    v.holds z y ey,
    v.flag z y ey,
    λ alive listed. elim (ℕ_discrete z p) [
      | yes same ↦
          let there : some q ≡ some y = sym e ∙ ap w.queues (sym same) ∙ ey in
          ap (λ r. r.in_global) (sym (some-injective _ _ there)) ∙ flagged
      | no other ↦ v.scheduled z y ey alive (ground (arith, listed, other, member-snoc ids p z))
    ],
  )

  pub rotate_lem :
      (w1 : World) × (w2 : World) × (globalmq_pop w ≡ some (some x, w1))
      × (globalmq_push w1 p ≡ some w2)
      × Running w2 (ids ++ p ∷ []) held
  rotate_lem =
      let (w1, popped, linked, links) = globalmq_pop_lem x ids v.linked in
      let (q1, e1, _) = same_flag w w1 p q links e in
      let (w2, pushed, linked2, links2) =
        globalmq_push_lem ids p q1 linked e1 (ground (arith, taken)) in
      (
        w1,
        w2,
        popped,
        pushed,
        of_Keeps linked2 (λ z.
            along_links (Keeps held (ids ++ p ∷ []) z) (Keeps-link held (ids ++ p ∷ []) z) w w2
              (λ u. links2 u ∙ links u) z (kept z)),
      )

-- what follows the first
abbrev pub rest_of : List ℕ → List ℕ
rest_of [] = []
rest_of (x ∷ ids) = ids

-- A worker takes the next queue, if there is one.
pub take_next_lem :
    {w : World} {held : ℕ → List Message} (ids : List ℕ)
    → Running w ids held
    → (w1 : World) × (globalmq_pop w ≡ some (first ids, w1))
      × Running w1 (rest_of ids) held
      × SameQueues w w1
take_next_lem {w} [] v = (w, globalmq_pop_empty v.linked, v, λ x. refl)
take_next_lem {w} {held} (x ∷ ids) v =
    let (w1, popped, linked, links) = globalmq_pop_lem x ids v.linked in
    (
      w1,
      popped,
      of_Keeps linked (λ z.
          along_links (Keeps held ids z) (Keeps-link held ids z) w w1 links z (λ y ey. (
            v.holds z y ey,
            v.flag z y ey,
            λ alive listed. v.scheduled z y ey alive (ground (arith, listed)),
          ))),
      links,
    )
