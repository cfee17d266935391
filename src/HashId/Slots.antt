-- ===== src/HashId/Slots.antt =====
-- The array of nodes: which are used, and the search for a free one.
use native.Mathlib.Decide.{dec_lt}
use native.Mathlib.Nat.{mod-lt, mod-eq_of_lt, mod-eq-sub-mod, mod-add-mod, add_comm}
use skynet_sy.Common.{
  ℕ, zero, suc, ◌+◌, ◌-◌, ◌%◌, ◌<◌, ◌≤◌, ◌≡◌, ◌≢◌, refl, sym, ◌∙◌, ap, arith, Option, none, some,
  List, [], ◌∷◌, get_elem?, set, length, get_elem?-some, add_int_lem, ◌^◌,
}
use skynet_sy.HashId.Table.{find_free}

abbrev pub used : List (Option ℕ) → ℕ
used [] = 0
used (none ∷ ids) = used ids
used (some x ∷ ids) = suc (used ids)

pub used-le : (ids : List (Option ℕ)) → used ids ≤ length ids
used-le [] = omega arith
used-le (none ∷ ids) = omega (arith, used-le ids)
used-le (some x ∷ ids) = omega (arith, used-le ids)

pub used-set_filled :
    (ids : List (Option ℕ)) (n x : ℕ)
    → get_elem? ids n ≡ some none
    → used (set ids n (some x)) ≡ suc (used ids)
used-set_filled [] n x e = cc e
used-set_filled (none ∷ ids) zero x e = refl
used-set_filled (some y ∷ ids) zero x e = cc e
used-set_filled (none ∷ ids) (suc n) x e = used-set_filled ids n x e
used-set_filled (some y ∷ ids) (suc n) x e = ap suc (used-set_filled ids n x e)

pub used-set_freed :
    (ids : List (Option ℕ)) (n x : ℕ)
    → get_elem? ids n ≡ some (some x)
    → suc (used (set ids n none)) ≡ used ids
used-set_freed [] n x e = cc e
used-set_freed (none ∷ ids) zero x e = cc e
used-set_freed (some y ∷ ids) zero x e = refl
used-set_freed (none ∷ ids) (suc n) x e = used-set_freed ids n x e
used-set_freed (some y ∷ ids) (suc n) x e = ap suc (used-set_freed ids n x e)

-- Where not all are used, one is free.
free_slot :
    (ids : List (Option ℕ))
    → used ids < length ids
    → (j : ℕ) × (j < length ids) × (get_elem? ids j ≡ some none)
free_slot [] l = absurd (omega (arith, l))
free_slot (none ∷ ids) l = (0, omega arith, refl)
free_slot (some x ∷ ids) l =
    let (j, inside, e) = free_slot ids (omega (arith, l)) in (suc j, omega (arith, inside), e)

-- The search looks at every index.
covers : (cap id j : ℕ) → j < cap → (k : ℕ) × (k < cap) × ((k + id) % cap ≡ j)
covers cap id j h =
    let low = mod-lt id {m = cap} (omega (arith, h)) in
    elim (dec_lt j (id % cap)) [
      | yes below ↦ (
        j + cap - id % cap,
        omega (arith, below, low),
        from_rest (j + cap - id % cap)
            ∙ ap (λ t. t % cap) (omega (arith, low))
            ∙ mod-eq-sub-mod {n = j + cap} {m = cap} (omega arith)
            ∙ ap (λ t. t % cap) (omega arith)
            ∙ mod-eq_of_lt h,
      )
      | no above ↦ (
        j - id % cap,
        omega (arith, h),
        from_rest (j - id % cap) ∙ ap (λ t. t % cap) (omega (arith, above)) ∙ mod-eq_of_lt h,
      )
    ]
  where
    from_rest : (k : ℕ) → (k + id) % cap ≡ (k + id % cap) % cap
    from_rest k =
        ap (λ t. t % cap) (add_comm k id)
        ∙ sym (mod-add-mod id cap k)
        ∙ ap (λ t. t % cap) (add_comm (id % cap) k)

-- The search ends at a free node if there is one from `i` on.
find_free_from :
    (n i : ℕ) (ids : List (Option ℕ)) (cap id : ℕ)
    → length ids ≡ cap
    → 0 < cap
    → i + n + id ≤ 2 ^ 31
    → (k : ℕ) → i ≤ k
    → k < i + n
    → get_elem? ids ((k + id) % cap) ≡ some none
    → (j : ℕ) × (find_free n i ids cap id ≡ some (some j)) × (get_elem? ids j ≡ some none)
unfolding find_free
find_free_from zero i ids cap id w pos small k low high e = absurd (omega (arith, low, high))
find_free_from (suc n) i ids cap id w pos small k low high e =
    let (cell, at_i) =
      get_elem?-some ids ((i + id) % cap) (omega (arith, w, mod-lt (i + id) pos)) in
    by_cell cell at_i (λ ne.
      find_free_from n (i + 1) ids cap id w pos (omega (arith, small)) k (omega (arith, low, ne))
        (omega (arith, high)) e)
  where
    Found : ℕ → ℕ → Type 0
    Found n i = (j : ℕ) × (find_free n i ids cap id ≡ some (some j)) × (get_elem? ids j ≡ some none)

    by_cell :
        (cell : Option ℕ)
        → get_elem? ids ((i + id) % cap) ≡ some cell
        → (i ≢ k → Found n (i + 1))
        → Found (suc n) i
    by_cell none at_i later =
        ((i + id) % cap, rw (add_int_lem i id (omega (arith, small)), at_i) refl, at_i)
    by_cell (some x) at_i later =
        let (j, run, free) =
          later (λ same. cc (sym at_i ∙ ap (λ t. get_elem? ids ((t + id) % cap)) same ∙ e)) in
        (j, rw (add_int_lem i id (omega (arith, small)), at_i) run, free)

pub find_free_lem :
    (ids : List (Option ℕ)) (cap id : ℕ)
    → length ids ≡ cap
    → used ids < cap
    → id + cap ≤ 2 ^ 31
    → (j : ℕ) × (find_free cap 0 ids cap id ≡ some (some j)) × (get_elem? ids j ≡ some none)
find_free_lem ids cap id w room small =
    let (j, inside, e) = free_slot ids (omega (arith, w, room)) in
    let (k, low, at_j) = covers cap id j (omega (arith, w, inside)) in
    find_free_from cap 0 ids cap id w (omega (arith, room)) (omega (arith, small)) k (omega arith)
      (omega (arith, low)) (ap (get_elem? ids) at_j ∙ e)
