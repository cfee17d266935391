-- ===== src/HashId/Chain.antt =====
-- A chain of nodes: the search for an id, and the removal of its node.
use native.Mathlib.Decide.{ℕ_discrete}
use skynet_sy.Common.{
  ℕ, ◌≡◌, ◌≢◌, refl, sym, ◌∙◌, ap, arith, true, false, ◌||◌, Option, none, some, List, [], ◌∷◌,
  ◌==◌, get_elem?, ==_refl, ==_ne,
}
use skynet_sy.Mq.Chain.{member, Distinct}
use skynet_sy.HashId.Table.{lookup_chain, remove_chain}

-- Every node of the chain has an id.
abbrev pub Sound : List (Option ℕ) → List ℕ → Type 0
Sound ids chain = (n : ℕ) → member chain n ≡ true → (x : ℕ) × (get_elem? ids n ≡ some (some x))

abbrev pub Absent : List (Option ℕ) → ℕ → List ℕ → Type 0
Absent ids id chain = (n : ℕ) → member chain n ≡ true → get_elem? ids n ≢ some (some id)

pub member_head : (c : ℕ) (chain : List ℕ) → member (c ∷ chain) c ≡ true
member_head c chain = rw (==_refl c) refl

pub member_tail : (c n : ℕ) (chain : List ℕ) → member chain n ≡ true → member (c ∷ chain) n ≡ true
member_tail c n chain h = ground (arith, h)

differs :
    (ids : List (Option ℕ)) (c x id : ℕ)
    → get_elem? ids c ≡ some (some x)
    → get_elem? ids c ≢ some (some id)
    → x ≢ id
differs ids c x id e ne same = ne (e ∙ ap (λ y. some (some y)) same)

pub lookup_chain-Absent :
    (ids : List (Option ℕ)) (id : ℕ) (chain : List ℕ)
    → Sound ids chain
    → Absent ids id chain
    → lookup_chain ids id chain ≡ some none
unfolding lookup_chain
lookup_chain-Absent ids id [] sound gone = refl
lookup_chain-Absent ids id (c ∷ chain) sound gone =
    let (x, e) = sound c (member_head c chain) in
    rw (e, ==_ne x id (differs ids c x id e (gone c (member_head c chain))))
      (lookup_chain-Absent ids id chain (λ n h. sound n (member_tail c n chain h))
        (λ n h. gone n (member_tail c n chain h)))

pub remove_chain-Absent :
    (ids : List (Option ℕ)) (id : ℕ) (chain : List ℕ)
    → Sound ids chain
    → Absent ids id chain
    → remove_chain ids id chain ≡ some none
unfolding remove_chain
remove_chain-Absent ids id [] sound gone = refl
remove_chain-Absent ids id (c ∷ chain) sound gone =
    let (x, e) = sound c (member_head c chain) in
    let rest =
      remove_chain-Absent ids id chain (λ n h. sound n (member_tail c n chain h))
        (λ n h. gone n (member_tail c n chain h)) in
    rw (e, ==_ne x id (differs ids c x id e (gone c (member_head c chain))), rest) refl

-- `n` is the only node with the id.
module _ (ids : List (Option ℕ)) (id n : ℕ) (at_n : get_elem? ids n ≡ some (some id))
    (only : (m : ℕ) → get_elem? ids m ≡ some (some id) → m ≡ n) where
  other_id : (c x : ℕ) → get_elem? ids c ≡ some (some x) → c ≢ n → x ≢ id
  other_id c x e ne same = ne (only c (e ∙ ap (λ y. some (some y)) same))

  in_tail : (c : ℕ) (chain : List ℕ) → c ≢ n → member (c ∷ chain) n ≡ true → member chain n ≡ true
  in_tail c chain ne h = rw (==_ne c n ne) at h

  pub lookup_chain_lem :
      (chain : List ℕ)
      → Sound ids chain
      → member chain n ≡ true
      → lookup_chain ids id chain ≡ some (some n)
  unfolding lookup_chain
  lookup_chain_lem [] sound h = cc h
  lookup_chain_lem (c ∷ chain) sound h = elim (ℕ_discrete c n) [
    | yes same ↦ rw (same, at_n, ==_refl id) refl
    | no ne ↦
        let (x, e) = sound c (member_head c chain) in
        rw (e, ==_ne x id (other_id c x e ne))
          (lookup_chain_lem chain (λ m k. sound m (member_tail c m chain k)) (in_tail c chain ne h))
  ]

  pub remove_chain_lem :
      (chain : List ℕ)
      → Sound ids chain
      → Distinct chain
      → member chain n ≡ true
      → (rest : List ℕ) × (remove_chain ids id chain ≡ some (some (n, rest)))
        × ((m : ℕ) → m ≢ n → member rest m ≡ member chain m)
        × (member rest n ≡ false)
        × Distinct rest
  unfolding remove_chain
  remove_chain_lem [] sound d h = cc h
  remove_chain_lem (c ∷ chain) sound d h = elim (ℕ_discrete c n) [
    | yes same ↦ (
      chain,
      rw (same, at_n, ==_refl id) refl,
      λ m ne. rw (==_ne c m (λ z. ne (sym z ∙ same))) refl,
      ap (member chain) (sym same) ∙ d.0,
      d.1,
    )
    | no ne ↦
        let (x, e) = sound c (member_head c chain) in
        let (rest, run, keeps, gone, d') =
          remove_chain_lem chain (λ m k. sound m (member_tail c m chain k)) d.1
            (in_tail c chain ne h) in
        (
          c ∷ rest,
          rw (e, ==_ne x id (other_id c x e ne), run) refl,
          λ m other. ap (λ b. c == m || b) (keeps m other),
          rw (==_ne c n ne) gone,
          (keeps c ne ∙ d.0, d'),
        )
  ]
