-- ===== src/Handle/Rehash.antt =====
-- The loop of `skynet_handle_register` that moves every context to a table of twice the size.
use native.Mathlib.Decide.{ℕ_discrete}
use mathlib.Core.Option.{some-injective}
use native.Mathlib.Nat.{mod-mod_of_dvd, dvd-mul_right, mod-lt}
use skynet_sy.Common.{
  get_elem?-some, ℕ, zero, suc, ◌+◌, ◌*◌, ◌%◌, ◌^◌, ◌<◌, ◌≡◌, ◌≢◌, refl, sym, ◌∙◌, ap, subst, arith,
  Option, none, some, List, [], ◌∷◌, get_elem?, set, inl, inr, ◌⊎◌, store_lem, length-set,
  get_elem?-set_self, get_elem?-set_ne, length,
}
use skynet_sy.Common.Bits.{pow_pos}
use skynet_sy.Handle.Slots.{rehash}
use skynet_sy.Handle.Scan.{hash_double}

-- A residue of the doubled size gives that of the size.
pub mod_half : (n h : ℕ) → h % (n * 2) % n ≡ h % n
mod_half n h = mod-mod_of_dvd n h (dvd-mul_right n 2)

-- An entry of an updated table is the new one or an old one.
pub set_entry :
    (new : List (Option ℕ)) (p x c c' : ℕ)
    → p < length new
    → get_elem? (set new p (some c)) x ≡ some (some c')
    → ((x ≡ p) × (c ≡ c')) ⊎ ((x ≢ p) × (get_elem? new x ≡ some (some c')))
set_entry new p x c c' lt e = elim (ℕ_discrete x p) [
  | yes here ↦ inl (
    here,
    some-injective _ _ (
        some-injective _ _ (
          sym (get_elem?-set_self new p (some c) lt)
          ∙ ap (get_elem? (set new p (some c))) (sym here)
          ∙ e)),
  )
  | no away ↦ inr (away, sym (get_elem?-set_ne new p x (some c) (λ q. away (sym q))) ∙ e)
]

module _ (handle_of : ℕ → Option ℕ) (k : ℕ) where
  -- All slots from `i` on hold contexts that belong there.
  abbrev pub Suffix : ℕ → List (Option ℕ) → Type 0
  Suffix i [] = Unit
  Suffix i (cell ∷ slots) =
      ((c : ℕ) × (h : ℕ) × (cell ≡ some c) × (handle_of c ≡ some h) × (h % 2 ^ k ≡ i))
      × Suffix (suc i) slots

  -- The new table holds contexts that come from below `i`, each in its place.
  pub record Filled (i : ℕ) (new : List (Option ℕ)) : Type 0 where
    pub width : length new ≡ 2 ^ k * 2
    pub placed :
        (x c : ℕ)
        → get_elem? new x ≡ some (some c)
        → (h : ℕ) × (handle_of c ≡ some h) × (h % (2 ^ k * 2) ≡ x) × (h % 2 ^ k < i)

  -- `slots` have all gone to the table `after`, and nothing else.
  pub record Moved (slots new after : List (Option ℕ)) : Type 0 where
    pub keeps : (x c : ℕ) → get_elem? new x ≡ some (some c) → get_elem? after x ≡ some (some c)
    pub adds :
        (j c h : ℕ)
        → get_elem? slots j ≡ some (some c)
        → handle_of c ≡ some h
        → get_elem? after (h % (2 ^ k * 2)) ≡ some (some c)
    pub only :
        (x c : ℕ)
        → get_elem? after x ≡ some (some c)
        → (get_elem? new x ≡ some (some c)) ⊎ ((j : ℕ) × (get_elem? slots j ≡ some (some c)))

  -- The assert on the new slot: two contexts that differ modulo the size do not meet.
  free_place :
      (i h : ℕ) (new : List (Option ℕ)) (cell : Option ℕ)
      → Filled i new
      → h % 2 ^ k ≡ i
      → get_elem? new (h % (2 ^ k * 2)) ≡ some cell
      → cell ≡ none
  free_place i h new none f at_i e = refl
  free_place i h new (some c) f at_i e =
      let (h', _, same, below) = f.placed _ c e in
      absurd
        (omega (arith, sym (mod_half (2 ^ k) h') ∙ ap (λ t. t % 2 ^ k) same ∙ mod_half (2 ^ k) h))

  rehash_round :
      (i c h : ℕ) (slots new : List (Option ℕ))
      → Filled i new
      → handle_of c ≡ some h
      → h % 2 ^ k ≡ i
      → rehash handle_of (2 ^ k) (some c ∷ slots) new
        ≡ rehash handle_of (2 ^ k) slots (set new (h % (2 ^ k * 2)) (some c))
  unfolding rehash
  rehash_round i c h slots new f e at_i =
      let lt : h % (2 ^ k * 2) < length new = rw f.width (mod-lt h (omega (arith, pow_pos k))) in
      let (cell, there) = get_elem?-some new (h % (2 ^ k * 2)) lt in
      let empty : get_elem? new (h % (2 ^ k * 2)) ≡ some none =
        there ∙ ap some (free_place i h new cell f at_i there) in
      simp (e, hash_double k h, empty, store_lem new (h % (2 ^ k * 2)) (some c) lt)

  in_table : (i h : ℕ) (new : List (Option ℕ)) → Filled i new → h % (2 ^ k * 2) < length new
  in_table i h new f = rw f.width (mod-lt h (omega (arith, pow_pos k)))

  set-Filled :
      (i c h : ℕ) (new : List (Option ℕ))
      → Filled i new
      → handle_of c ≡ some h
      → h % 2 ^ k ≡ i
      → Filled (suc i) (set new (h % (2 ^ k * 2)) (some c))
  set-Filled i c h new f e at_i = record {
    width = length-set new _ (some c) ∙ f.width;
    placed = λ x c' ex.
        placed_after x c' (set_entry new (h % (2 ^ k * 2)) x c c' (in_table i h new f) ex);
  }
    where
      placed_after :
          (x c' : ℕ)
          → ((x ≡ h % (2 ^ k * 2)) × (c ≡ c'))
            ⊎ ((x ≢ h % (2 ^ k * 2)) × (get_elem? new x ≡ some (some c')))
          → (h' : ℕ) × (handle_of c' ≡ some h') × (h' % (2 ^ k * 2) ≡ x) × (h' % 2 ^ k < suc i)
      placed_after x c' (inl (here, same)) = (h, ap handle_of (sym same) ∙ e, sym here, omega arith)
      placed_after x c' (inr (_, old)) =
          let (h', o, r, b) = f.placed x c' old in (h', o, r, omega arith)

  set-keeps :
      (i c h : ℕ) (new : List (Option ℕ))
      → Filled i new
      → h % 2 ^ k ≡ i
      → (x c' : ℕ) → get_elem? new x ≡ some (some c')
      → get_elem? (set new (h % (2 ^ k * 2)) (some c)) x ≡ some (some c')
  set-keeps i c h new f at_i x c' ex = elim (ℕ_discrete (h % (2 ^ k * 2)) x) [
    | yes here ↦ cc (free_place i h new (some c') f at_i (ap (get_elem? new) here ∙ ex))
    | no away ↦ get_elem?-set_ne new (h % (2 ^ k * 2)) x (some c) away ∙ ex
  ]

  -- The loop dereferences no null pointer, its assert holds, and every context arrives.
  pub rehash_lem :
      (i : ℕ) (slots new : List (Option ℕ))
      → Suffix i slots
      → Filled i new
      → (after : List (Option ℕ)) × (rehash handle_of (2 ^ k) slots new ≡ some after)
        × Filled (i + length slots) after
        × Moved slots new after
  unfolding rehash
  rehash_lem i [] new s f = (
    new,
    refl,
    subst (λ n. Filled n new) (omega arith) f,
    record { keeps = λ x c e. e; adds = λ j c h e. cc; only = λ x c e. inl e },
  )
  rehash_lem i (cell ∷ slots) new ((c, h, is_c, e, at_i), s) f =
      let (after, run, filled, moved) =
        rehash_lem (suc i) slots _ s (set-Filled i c h new f e at_i) in
      (
        after,
        rw is_c (rehash_round i c h slots new f e at_i ∙ run),
        subst (λ n. Filled n after) (omega arith) filled,
        record {
          keeps = λ x c' ex. moved.keeps x c' (set-keeps i c h new f at_i x c' ex);
          adds = arrives after moved;
          only = comes_from after moved;
        },
      )
    where
      arrives :
          (after : List (Option ℕ))
          → Moved slots (set new (h % (2 ^ k * 2)) (some c)) after
          → (j c' h' : ℕ) → get_elem? (cell ∷ slots) j ≡ some (some c')
          → handle_of c' ≡ some h'
          → get_elem? after (h' % (2 ^ k * 2)) ≡ some (some c')
      arrives after moved zero c' h' ej eh =
          let same : c ≡ c' = some-injective _ _ (sym is_c ∙ some-injective _ _ ej) in
          let handle : h ≡ h' = some-injective _ _ (sym e ∙ ap handle_of same ∙ eh) in
          subst (λ z. get_elem? after (z % (2 ^ k * 2)) ≡ some (some c')) handle
            (moved.keeps (h % (2 ^ k * 2)) c' (
              get_elem?-set_self new _ (some c) (in_table i h new f)
              ∙ ap (λ z. some (some z)) same))
      arrives after moved (suc j) c' h' ej eh = moved.adds j c' h' ej eh

      comes_from :
          (after : List (Option ℕ))
          → Moved slots (set new (h % (2 ^ k * 2)) (some c)) after
          → (x c' : ℕ) → get_elem? after x ≡ some (some c')
          → (get_elem? new x ≡ some (some c'))
            ⊎ ((j : ℕ) × (get_elem? (cell ∷ slots) j ≡ some (some c')))
      comes_from after moved x c' ex = origin (moved.only x c' ex)
        where
          origin :
              (get_elem? (set new (h % (2 ^ k * 2)) (some c)) x ≡ some (some c'))
                ⊎ ((j : ℕ) × (get_elem? slots j ≡ some (some c')))
              → (get_elem? new x ≡ some (some c'))
                ⊎ ((j : ℕ) × (get_elem? (cell ∷ slots) j ≡ some (some c')))
          origin (inr (j, ej)) = inr (suc j, ej)
          origin (inl now) = was (set_entry new (h % (2 ^ k * 2)) x c c' (in_table i h new f) now)
            where
              was :
                  ((x ≡ h % (2 ^ k * 2)) × (c ≡ c'))
                    ⊎ ((x ≢ h % (2 ^ k * 2)) × (get_elem? new x ≡ some (some c')))
                  → (get_elem? new x ≡ some (some c'))
                    ⊎ ((j : ℕ) × (get_elem? (cell ∷ slots) j ≡ some (some c')))
              was (inl (_, same)) = inr (0, ap some (is_c ∙ ap some same))
              was (inr (_, old)) = inl old
