-- ===== src/Socket/Order.antt =====
-- The order of packages on a TCP connection that are all given with high priority.
use mathlib.Core.List.{append_assoc, append-nil}
use skynet_sy.Common.{
  ℕ, zero, suc, ◌≡◌, refl, sym, ◌∙◌, ap, subst, Bool, true, false, Option, none, some, List, [],
  ◌∷◌, ◌++◌,
}
use skynet_sy.Socket.Flow.{
  Flow, ◌⟶◌, accept_high, accept_low, accept_first, begin_high, begin_low, finish, Gives, submit,
  direct_write, ◌⟶*◌, here, next, Partial, flow,
}

abbrev pub Highs : List (Bool × List ℕ) → Type 0
Highs [] = Unit
Highs (p ∷ ps) = (p.0 ≡ true) × Highs ps

abbrev pub pending : List (Bool × List ℕ) → List (List ℕ)
pending [] = []
pending (p ∷ ps) = p.1 ∷ pending ps

abbrev pub current : Option (List ℕ) → List (List ℕ)
current none = []
current (some x) = x ∷ []

-- The packages in the order in which they leave
abbrev pub order : Flow → List (List ℕ)
order a = a.out ++ (current a.cur ++ (a.high ++ pending a.pipe))

abbrev pub AllHigh : Flow → Type 0
AllHigh a = (a.low ≡ []) × Highs a.pipe

step-order : {a b : Flow} → a ⟶ b → AllHigh a → AllHigh b × (order b ≡ order a)
step-order (accept_high a x ps e) h = (
  (h.0, (subst Highs e h.1).1),
  ap (λ z. a.out ++ (current a.cur ++ z))
      (append_assoc a.high (x ∷ []) (pending ps) ∙ ap (λ z. a.high ++ pending z) (sym e)),
)
step-order (accept_low a x ps e) h = let z : false ≡ true = (subst Highs e h.1).0 in cc
step-order (accept_first a x ps e l) h = let z : false ≡ true = (subst Highs e h.1).0 in cc
step-order (begin_high a x xs n e) h =
    (h, λ i. a.out ++ (current (sym n i) ++ (sym e i ++ pending a.pipe)))
step-order (begin_low a x xs n e l) h = let z : x ∷ xs ≡ [] = sym l ∙ h.0 in cc
step-order (finish a x e) h = (
  h,
  append_assoc a.out (x ∷ []) (a.high ++ pending a.pipe)
      ∙ ap (λ z. a.out ++ (current z ++ (a.high ++ pending a.pipe))) (sym e),
)

pub steps-order : {a b : Flow} → a ⟶* b → AllHigh a → AllHigh b × (order b ≡ order a)
steps-order here h = (h, refl)
steps-order (next s r) h =
    let one = step-order s h in let rest = steps-order r one.0 in (rest.0, rest.1 ∙ one.1)

Highs-snoc : (ps : List (Bool × List ℕ)) (x : List ℕ) → Highs ps → Highs (ps ++ (true, x) ∷ [])
Highs-snoc [] x h = (refl, tt)
Highs-snoc (p ∷ ps) x h = (h.0, Highs-snoc ps x h.1)

given-snoc :
    (ps : List (Bool × List ℕ)) (x : List ℕ) → pending (ps ++ (true, x) ∷ []) ≡ pending ps ++ x ∷ []
given-snoc [] x = refl
given-snoc (p ∷ ps) x = ap (λ z. p.1 ∷ z) (given-snoc ps x)

regroup {ℓ} :
    {A : Type ℓ} (hs bs cs ds es : List A)
    → hs ++ (bs ++ (cs ++ (ds ++ es))) ≡ (hs ++ (bs ++ (cs ++ ds))) ++ es
regroup hs bs cs ds es = simp (append_assoc)

pub gives-order :
    {a b : Flow} {x : List ℕ}
    → Gives (true, x) a b
    → AllHigh a
    → AllHigh b × (order b ≡ order a ++ x ∷ [])
gives-order {x = x} (submit a) h = (
  (h.0, Highs-snoc a.pipe x h.1),
  ap (λ z. a.out ++ (current a.cur ++ (a.high ++ z))) (given-snoc a.pipe x)
      ∙ regroup a.out (current a.cur) a.high (pending a.pipe) (x ∷ []),
)
gives-order {x = x} (direct_write a c hi lo p t) h = (
  h,
  (λ i. a.out ++ (current (c i) ++ (x ∷ pending (p i))))
      ∙ ap (λ z. z ++ x ∷ []) (sym (append-nil a.out))
      ∙ (λ i. (a.out ++ (current (sym c i) ++ (sym hi i ++ pending (sym p i)))) ++ x ∷ []),
)

-- The order of what the line holds
pub order-flow :
    (out : List (List ℕ)) (k : ℕ) (items low : List (List ℕ)) (pipe : List (Bool × List ℕ))
    → Partial k items
    → order (flow out k items low pipe) ≡ out ++ (items ++ pending pipe)
order-flow out zero items low pipe v = refl
order-flow out (suc k) [] low pipe v = refl
order-flow out (suc k) (x ∷ items) low pipe v = refl

module _ (out : List (List ℕ)) (low : List (List ℕ)) (pipe : List (Bool × List ℕ)) where
  pub flow-AllHigh :
      (k : ℕ) (items : List (List ℕ)) → low ≡ [] → Highs pipe → AllHigh (flow out k items low pipe)
  flow-AllHigh zero items l h = (l, h)
  flow-AllHigh (suc k) [] l h = (l, h)
  flow-AllHigh (suc k) (x ∷ items) l h = (l, h)

  pub AllHigh-flow :
      (k : ℕ) (items : List (List ℕ))
      → AllHigh (flow out k items low pipe)
      → (low ≡ []) × Highs pipe
  AllHigh-flow zero items h = h
  AllHigh-flow (suc k) [] h = h
  AllHigh-flow (suc k) (x ∷ items) h = h
