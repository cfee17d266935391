-- ===== src/Timer/Nodes.antt =====
-- Facts about every node of the wheel, and membership, through `link`, `add_node` and `move_list`.
use skynet_sy.Common.{
  ◌≡◌, ◌≢◌, refl, sym, ◌∙◌, ap, subst, arith, true, List, [], ◌∷◌, ◌++◌, Bool-cases, inl, inr, ◌⊎◌,
}
use skynet_sy.Timer.Wheel.{
  Place, near, level, same_place, place, TimerNode, Timer, set_list, add_node, add_nodes,
}

abbrev pub All {κ} : (TimerNode → Type κ) → List TimerNode → Type κ
All P [] = Unit
All P (n ∷ ns) = P n × All P ns

abbrev pub Member : TimerNode → List TimerNode → Type 0
Member n [] = ⊥
Member n (m ∷ ms) = (m ≡ n) ⊎ Member n ms

pub All-append {κ} :
    (P : TimerNode → Type κ) (xs ys : List TimerNode) → All P xs → All P ys → All P (xs ++ ys)
All-append P [] ys a b = b
All-append P (x ∷ xs) ys a b = (a.0, All-append P xs ys a.1 b)

pub All-map {κ λ'} :
    (P : TimerNode → Type κ) (Q : TimerNode → Type λ') (xs : List TimerNode)
    → ((n : TimerNode) → P n → Q n)
    → All P xs
    → All Q xs
All-map P Q [] f a = tt
All-map P Q (x ∷ xs) f a = (f x a.0, All-map P Q xs f a.1)

pub All-member {κ} :
    (P : TimerNode → Type κ) (xs : List TimerNode) (n : TimerNode) → All P xs → Member n xs → P n
All-member P [] n a m = absurd m
All-member P (x ∷ xs) n a (inl e) = subst P e a.0
All-member P (x ∷ xs) n a (inr m) = All-member P xs n a.1 m

pub Member-append_left :
    (xs ys : List TimerNode) (n : TimerNode) → Member n xs → Member n (xs ++ ys)
Member-append_left [] ys n m = absurd m
Member-append_left (x ∷ xs) ys n (inl e) = inl e
Member-append_left (x ∷ xs) ys n (inr m) = inr (Member-append_left xs ys n m)

pub Member-snoc : (xs : List TimerNode) (n : TimerNode) → Member n (xs ++ n ∷ [])
Member-snoc [] n = inl refl
Member-snoc (x ∷ xs) n = inr (Member-snoc xs n)

pub same_place_eq : (a b : Place) → same_place a b ≡ true → a ≡ b
same_place_eq (near a) (near b) h = ground arith
same_place_eq (near a) (level j b) h = cc
same_place_eq (level i a) (near b) h = cc
same_place_eq (level i a) (level j b) h = ground arith

pub same_place_refl : (a : Place) → same_place a a ≡ true
same_place_refl (near a) = ground arith
same_place_refl (level i a) = ground arith

-- `P s n` for each node `n` of each list `s`
abbrev pub Everywhere {κ} : (Place → TimerNode → Type κ) → Timer → Type κ
Everywhere P t = (s : Place) → All (P s) (t.lists s)

-- a node of the wheel
abbrev pub In : Timer → TimerNode → Type 0
In t n = (s : Place) × Member n (t.lists s)

pub set_list-Everywhere {κ} :
    (P : Place → TimerNode → Type κ) (t : Timer) (s : Place) (nodes : List TimerNode)
    → All (P s) nodes
    → ((x : Place) → x ≢ s → All (P x) (t.lists x))
    → Everywhere P (set_list t s nodes)
set_list-Everywhere P t s nodes a e x = elim (Bool-cases (same_place x s)) [
  | inl same ↦ rw same (subst (λ z. All (P z) nodes) (sym (same_place_eq x s same)) a)
  | inr other ↦
      rw other (e x (λ q. cc (sym other ∙ ap (λ z. same_place z s) q ∙ same_place_refl s)))
]

pub add_node-Everywhere {κ} :
    (P : Place → TimerNode → Type κ) (t : Timer) (n : TimerNode)
    → P (place n.expire t.time) n
    → Everywhere P t
    → Everywhere P (add_node t n)
unfolding add_node
add_node-Everywhere P t n p e =
    let s = place n.expire t.time in
    set_list-Everywhere P t s (t.lists s ++ n ∷ [])
      (All-append (P s) (t.lists s) (n ∷ []) (e s) (p, tt)) (λ x q. e x)

pub add_node-In_old : (t : Timer) (n m : TimerNode) → In t m → In (add_node t n) m
unfolding add_node
add_node-In_old t n m (x, h) = (
  x,
  elim (Bool-cases (same_place x (place n.expire t.time))) [
    | inl same ↦ rw same (
        Member-append_left _ (n ∷ []) m
          (subst (λ z. Member m (t.lists z)) (same_place_eq x _ same) h))
    | inr other ↦ rw other h
  ],
)

pub add_node-In_new : (t : Timer) (n : TimerNode) → In (add_node t n) n
unfolding add_node
add_node-In_new t n =
    let s = place n.expire t.time in (s, rw (same_place_refl s) (Member-snoc (t.lists s) n))

pub add_nodes-Everywhere {κ} :
    (P : Place → TimerNode → Type κ) (t : Timer) (ns : List TimerNode)
    → All (λ n. P (place n.expire t.time) n) ns
    → Everywhere P t
    → Everywhere P (add_nodes t ns)
unfolding add_nodes
add_nodes-Everywhere P t [] a e = e
add_nodes-Everywhere P t (n ∷ ns) a e =
    add_nodes-Everywhere P (add_node t n) ns a.1 (add_node-Everywhere P t n a.0 e)

pub time-add_nodes : (t : Timer) (ns : List TimerNode) → (add_nodes t ns).time ≡ t.time
unfolding add_nodes
time-add_nodes t [] = refl
time-add_nodes t (n ∷ ns) = time-add_nodes (add_node t n) ns

pub add_nodes-In_old :
    (t : Timer) (ns : List TimerNode) (m : TimerNode) → In t m → In (add_nodes t ns) m
unfolding add_nodes
add_nodes-In_old t [] m h = h
add_nodes-In_old t (n ∷ ns) m h = add_nodes-In_old (add_node t n) ns m (add_node-In_old t n m h)

pub add_nodes-In_new :
    (t : Timer) (ns : List TimerNode) (m : TimerNode) → Member m ns → In (add_nodes t ns) m
unfolding add_nodes
add_nodes-In_new t [] m h = absurd h
add_nodes-In_new t (n ∷ ns) m (inl e) =
    add_nodes-In_old (add_node t n) ns m (subst (In (add_node t n)) e (add_node-In_new t n))
add_nodes-In_new t (n ∷ ns) m (inr h) = add_nodes-In_new (add_node t n) ns m h
