-- ===== src/Mq/Apart.antt =====
-- A push to one queue, and another queue that is not in the global queue: the push commutes with
-- what is written there.
use mathlib.Core.Path.{fun_ext}
use mathlib.Core.Option.{some-injective}
use skynet_sy.Common.{
  ℕ, ◌≡◌, ◌≢◌, refl, ◌∙◌, ap, arith, Option, none, some, ◌==◌, ◌>>=◌, ==_ne, is_null, Bool-cases,
  Option-cases, inl, inr,
}
use skynet_sy.Mq.Queue.{Message, MessageQueue, mq_in_global, enqueue}
use skynet_sy.Mq.Global.{World, update, put, globalmq_push, mq_push}

put-swap :
    (w : World) (p d : ℕ) (q r : MessageQueue) → d ≢ p → put (put w p q) d r ≡ put (put w d r) p q
put-swap w p d q r ne i = record {
  queues = fun_ext (λ x. swapped x) i;
  global_head = w.global_head;
  global_tail = w.global_tail;
}
  where
    swapped :
        (x : ℕ)
        → update (update w.queues p (some q)) d (some r) x
          ≡ update (update w.queues d (some r)) p (some q) x
    swapped x = ground arith

-- with `q` at `p`
abbrev with_at : ℕ → MessageQueue → Option World → Option World
with_at p q r = r >>= λ w. some (put w p q)

-- The tail of the global queue is not `p`.
abbrev TailAway : ℕ → Option World → Type 0
TailAway p none = Unit
TailAway p (some w) = w.global_tail ≢ some p

module _ (p d : ℕ) (q : MessageQueue) (ne : d ≢ p) where
  linked-put :
      (w : World)
      → w.global_tail ≢ some p
      → (globalmq_push (put w p q) d ≡ with_at p q (globalmq_push w d))
        × TailAway p (globalmq_push w d)
  unfolding globalmq_push
  linked-put w away = elim (Option-cases (w.queues d)) [
    | inl gone ↦ rw (==_ne d p ne, gone) (refl, tt)
    | inr (y, at_d) ↦ elim (Bool-cases (is_null y.next)) [
      | inr linked ↦ rw (==_ne d p ne, at_d, linked) (refl, tt)
      | inl free ↦ elim (Option-cases w.global_tail) [
        | inl first ↦ rw (==_ne d p ne, at_d, free, first) (refl, λ e. ne (some-injective _ _ e))
        | inr (t, last) ↦
            let apart : t ≢ p = λ e. away (last ∙ ap some e) in
            elim (Option-cases (w.queues t)) [
              | inl gone ↦ rw (==_ne d p ne, at_d, free, last, ==_ne t p apart, gone) (refl, tt)
              | inr (z, at_t) ↦
                  rw (==_ne d p ne, at_d, free, last, ==_ne t p apart, at_t)
                    (
                      ap (λ (v : World). some (record v { global_tail = some d }))
                          (put-swap w p t q (record z { next = some d }) apart),
                      λ e. ne (some-injective _ _ e),
                    )
            ]
      ]
    ]
  ]

  pub push-put :
      (w : World) (m : Message)
      → w.global_tail ≢ some p
      → (mq_push (put w p q) d m ≡ with_at p q (mq_push w d m)) × TailAway p (mq_push w d m)
  unfolding mq_push
  push-put w m away = elim (Option-cases (w.queues d)) [
    | inl gone ↦ rw (==_ne d p ne, gone) (refl, tt)
    | inr (y, at_d) ↦ elim (Option-cases (enqueue y m)) [
      | inl full ↦ rw (==_ne d p ne, at_d, full) (refl, tt)
      | inr (y', took) ↦ elim (Bool-cases (y'.in_global == 0)) [
        | inl idle ↦
            let q1 = record y' { in_global = mq_in_global } in
            let (same, out) = linked-put (put w d q1) away in
            rw (==_ne d p ne, at_d, took, idle)
              (ap (λ z. globalmq_push z d) (put-swap w p d q q1 ne) ∙ same, out)
        | inr busy ↦ rw (==_ne d p ne, at_d, took, busy) (ap some (put-swap w p d q y' ne), away)
      ]
    ]
  ]

abbrev otherwise : World → Option World → World
otherwise w none = w
otherwise w (some w') = w'

-- A push to the queue at `d`, without effect where it faults.
abbrev pub push_into : ℕ → Message → World → World
push_into d m w = otherwise w (mq_push w d m)

module _ (p d : ℕ) (ne : d ≢ p) where
  pub push_into-put :
      (m : Message) (w : World) (q : MessageQueue)
      → w.global_tail ≢ some p
      → push_into d m (put w p q) ≡ put (push_into d m w) p q
  push_into-put m w q away =
      ap (otherwise (put w p q)) (push-put p d q ne w m away).0 ∙ both (mq_push w d m)
    where
      both : (r : Option World) → otherwise (put w p q) (with_at p q r) ≡ put (otherwise w r) p q
      both none = refl
      both (some w') = refl

  pub push_into-away :
      (q : MessageQueue) (m : Message) (w : World)
      → w.global_tail ≢ some p
      → (push_into d m w).global_tail ≢ some p
  push_into-away q m w away = out (mq_push w d m) (push-put p d q ne w m away).1
    where
      out : (r : Option World) → TailAway p r → (otherwise w r).global_tail ≢ some p
      out none t = away
      out (some w') t = t
