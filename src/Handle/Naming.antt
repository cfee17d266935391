-- ===== src/Handle/Naming.antt =====
-- `skynet_handle_findname` and `skynet_handle_namehandle` on a sorted table: a map from names to
-- handles in which the first binding of a name stays.
use mathlib.Core.Option.{some-injective}
use native.Mathlib.Decide.{dec_lt}
use skynet_sy.Common.{
  get_elem?-lt, ℕ, zero, suc, ◌*◌, ◌^◌, ◌≤◌, ◌<◌, ◌≡◌, ◌≢◌, refl, sym, ◌∙◌, ap, arith, Bool, true,
  false, some, List, [], ◌∷◌, get_elem?, Option-cases, inl, inr, ◌⊎◌, ◌↔◌, length,
}
use skynet_sy.Handle.Names.{
  Sign, negative, equal, Name, HandleName, NameTable, Found, at_entry, at_gap, search_name,
  handle_findname, handle_namehandle, insert_at, insert_name_before,
}
use skynet_sy.Handle.Search.{IsOrder, IsSorted, Below, Above, Outcome, search_name_lem}

module _ {A : Type 0} where
  insert_at_total :
      (xs : List A) (g : ℕ) (v : A)
      → g ≤ length xs
      → (ys : List A) × (insert_at xs g v ≡ some ys) × (length ys ≡ suc (length xs))
  insert_at_total xs zero v h = (v ∷ xs, refl, refl)
  insert_at_total [] (suc g) v h = absurd (omega arith)
  insert_at_total (x ∷ xs) (suc g) v h =
      let (ys, run, l) = insert_at_total xs g v (omega arith) in (x ∷ ys, rw run refl, ap suc l)

  -- Where an entry of the longer array comes from.
  abbrev pub Origin : List A → ℕ → A → ℕ → A → Type 0
  Origin xs g v i a =
      ((i < g) × (get_elem? xs i ≡ some a))
      ⊎ (((i ≡ g) × (v ≡ a)) ⊎ ((k : ℕ) × (i ≡ suc k) × (g ≤ k) × (get_elem? xs k ≡ some a)))

  Origin-cons :
      (x : A) (xs : List A) (g i : ℕ) (v a : A)
      → Origin xs g v i a
      → Origin (x ∷ xs) (suc g) v (suc i) a
  Origin-cons x xs g i v a (inl (h, e)) = inl (omega arith, e)
  Origin-cons x xs g i v a (inr (inl (h, e))) = inr (inl (ap suc h, e))
  Origin-cons x xs g i v a (inr (inr (k, h, le, e))) = inr (inr (suc k, ap suc h, omega arith, e))

  insert_at-cons :
      (x : A) (xs ys : List A) (g : ℕ) (v : A)
      → insert_at (x ∷ xs) (suc g) v ≡ some ys
      → (zs : List A) × (insert_at xs g v ≡ some zs) × (x ∷ zs ≡ ys)
  insert_at-cons x xs ys g v e = elim (Option-cases (insert_at xs g v)) [
    | inl n ↦ cc (e, n)
    | inr (zs, e') ↦ (zs, e', some-injective _ _ (cons_eq zs e'))
  ]
    where
      cons_eq : (zs : List A) → insert_at xs g v ≡ some zs → some (x ∷ zs) ≡ some ys
      cons_eq zs e' = rw e' at e

  insert_at-Origin :
      (xs ys : List A) (g i : ℕ) (v a : A)
      → insert_at xs g v ≡ some ys
      → get_elem? ys i ≡ some a
      → Origin xs g v i a
  insert_at-Origin xs ys zero zero v a e h =
      inr (inl (refl, some-injective _ _ (ap (λ z. get_elem? z 0) (some-injective _ _ e) ∙ h)))
  insert_at-Origin xs ys zero (suc i) v a e h =
      inr (inr (i, refl, omega arith, ap (λ z. get_elem? z (suc i)) (some-injective _ _ e) ∙ h))
  insert_at-Origin [] ys (suc g) i v a e h = cc
  insert_at-Origin (x ∷ xs) ys (suc g) zero v a e h =
      let (zs, e', same) = insert_at-cons x xs ys g v e in
      inl (omega arith, ap (λ z. get_elem? z 0) same ∙ h)
  insert_at-Origin (x ∷ xs) ys (suc g) (suc i) v a e h =
      let (zs, e', same) = insert_at-cons x xs ys g v e in
      Origin-cons x xs g i v a
        (insert_at-Origin xs zs g i v a e' (ap (λ z. get_elem? z (suc i)) same ∙ h))

  insert_at-get_self :
      (xs ys : List A) (g : ℕ) (v : A) → insert_at xs g v ≡ some ys → get_elem? ys g ≡ some v
  insert_at-get_self xs ys zero v e = ap (λ z. get_elem? z 0) (sym (some-injective _ _ e))
  insert_at-get_self [] ys (suc g) v e = cc
  insert_at-get_self (x ∷ xs) ys (suc g) v e =
      let (zs, e', same) = insert_at-cons x xs ys g v e in
      ap (λ z. get_elem? z (suc g)) (sym same) ∙ insert_at-get_self xs zs g v e'

  insert_at-old :
      (xs ys : List A) (g k : ℕ) (v a : A)
      → insert_at xs g v ≡ some ys
      → get_elem? xs k ≡ some a
      → (i : ℕ) × (get_elem? ys i ≡ some a)
  insert_at-old xs ys zero k v a e h =
      (suc k, ap (λ z. get_elem? z (suc k)) (sym (some-injective _ _ e)) ∙ h)
  insert_at-old [] ys (suc g) k v a e h = cc
  insert_at-old (x ∷ xs) ys (suc g) zero v a e h =
      let (zs, e', same) = insert_at-cons x xs ys g v e in
      (0, ap (λ z. get_elem? z 0) (sym same) ∙ h)
  insert_at-old (x ∷ xs) ys (suc g) (suc k) v a e h =
      let (zs, e', same) = insert_at-cons x xs ys g v e in
      let (i, at_i) = insert_at-old xs zs g k v a e' h in
      (suc i, ap (λ z. get_elem? z (suc i)) (sym same) ∙ at_i)

module _ (strcmp : Name → Name → Sign) (order : IsOrder strcmp) where
  -- A table that the searches can use: sorted, and below the bound on its capacity.
  pub record IsNameTable (t : NameTable) : Type 0 where
    pub sorted : IsSorted strcmp order t.entries
    pub fits : length t.entries ≤ t.name_cap
    pub room : 0 < t.name_cap

  -- `name` stands in the table with `handle`.
  abbrev pub Named : NameTable → Name → ℕ → Type 0
  Named t name handle =
      (i : ℕ) × (get_elem? t.entries i ≡ some (record { name = name; handle = handle }))

  abbrev pub Unnamed : NameTable → Name → Type 0
  Unnamed t name = (i : ℕ) (n : HandleName) → get_elem? t.entries i ≡ some n → n.name ≢ name

  -- The second table has the names of the first and this one, with their handles, and no others.
  abbrev pub NamesAdded : NameTable → NameTable → Name → ℕ → Type 0
  NamesAdded t t' name handle =
      (other : Name) (h : ℕ)
      → Named t' other h ↔ (Named t other h ⊎ ((other ≡ name) × (h ≡ handle)))

  gap_Unnamed :
      (t : NameTable) (name : Name) (g : ℕ)
      → Below strcmp order t.entries name g
      → Above strcmp order t.entries name g
      → Unnamed t name
  gap_Unnamed t name g below above i n e same =
      let eq : strcmp n.name name ≡ equal = (order.equal_iff n.name name).1 same in
      elim (dec_lt i g) [
        | yes lt ↦ cc (sym eq ∙ below i n lt e)
        | no ge ↦ cc (sym eq ∙ above i n (omega arith) e)
      ]

  -- For an order of names and a sorted table, the search for a name ends and gives the handle of
  -- an entry with that name, or 0 where no entry has it.
  pub handle_findname_lem :
      (t : NameTable) (name : Name)
      → IsNameTable t
      → (h : ℕ) × (handle_findname strcmp t name ≡ some h)
        × (Named t name h ⊎ ((h ≡ 0) × Unnamed t name))
  unfolding handle_findname
  handle_findname_lem t name v =
      let n = length t.entries in
      let (r, run, o) =
        search_name_lem strcmp order t.entries name v.sorted (suc n) 0 n (omega arith) (omega arith)
          (omega arith) (λ j a h e. absurd (omega arith))
          (λ j a h e. absurd (omega (arith, get_elem?-lt t.entries j a e))) in
      by_outcome r run o
    where
      by_outcome :
          (r : Found)
          → search_name strcmp (suc (length t.entries)) t.entries name 0 (length t.entries) ≡ some r
          → Outcome strcmp order t.entries name r
          → (h : ℕ) × (handle_findname strcmp t name ≡ some h)
            × (Named t name h ⊎ ((h ≡ 0) × Unnamed t name))
      by_outcome (at_entry e) run ((i, at_i), same) = (
        e.handle,
        rw run refl,
        inl (i, at_i ∙ ap (λ z. some (record { name = z; handle = e.handle })) same),
      )
      by_outcome (at_gap g) run (_, below, above) =
          (0, rw run refl, inr (refl, gap_Unnamed t name g below above))

  module _ (t : NameTable) (handle : ℕ) (name : Name) (v : IsNameTable t) where
    abbrev entry : HandleName
    entry = record { name = name; handle = handle }

    inserted-IsSorted :
        (g : ℕ) (ys : List HandleName)
        → Below strcmp order t.entries name g
        → Above strcmp order t.entries name g
        → insert_at t.entries g entry ≡ some ys
        → IsSorted strcmp order ys
    inserted-IsSorted g ys below above run i j a b lt ea eb =
        pair (insert_at-Origin t.entries ys g i entry a run ea)
          (insert_at-Origin t.entries ys g j entry b run eb)
      where
        pair :
            Origin t.entries g entry i a
            → Origin t.entries g entry j b
            → strcmp a.name b.name ≡ negative
        pair (inl (_, oa)) (inl (_, ob)) = v.sorted i j a b lt oa ob
        pair (inl (ia, oa)) (inr (inl (_, ob))) =
            ap (λ z. strcmp a.name z.name) (sym ob) ∙ below i a ia oa
        pair (inl (ia, oa)) (inr (inr (k, jk, le, ob))) = v.sorted i k a b (omega arith) oa ob
        pair (inr (inl (ig, oa))) (inl (jg, ob)) = absurd (omega arith)
        pair (inr (inl (ig, oa))) (inr (inl (jg, ob))) = absurd (omega arith)
        pair (inr (inl (ig, oa))) (inr (inr (k, jk, le, ob))) =
            ap (λ z. strcmp z.name b.name) (sym oa) ∙ (order.flip name b.name).1 (above k b le ob)
        pair (inr (inr (k, ik, le, oa))) (inl (jg, ob)) = absurd (omega arith)
        pair (inr (inr (k, ik, le, oa))) (inr (inl (jg, ob))) = absurd (omega arith)
        pair (inr (inr (k, ik, le, oa))) (inr (inr (l, jl, le', ob))) =
            v.sorted k l a b (omega arith) oa ob

    -- The array is doubled when it is full, and stays below MAX_SLOT_SIZE.
    insert_name_before_lem :
        (g : ℕ) (ys : List HandleName)
        → insert_at t.entries g entry ≡ some ys
        → length t.entries < 2 ^ 29
        → (size : ℕ) × (insert_name_before t name handle g
            ≡ some (record { name_cap = size; entries = ys }))
          × (length t.entries < size)
    unfolding insert_name_before
    insert_name_before_lem g ys run few = elim (dec_lt (length t.entries) t.name_cap) [
      | yes space ↦ (t.name_cap, ground (arith, run), space)
      | no full ↦ (t.name_cap * 2, ground (arith, run), omega (arith, v.fits, v.room))
    ]

    taken :
        (e : HandleName) (i : ℕ)
        → get_elem? t.entries i ≡ some e
        → e.name ≡ name
        → Named t name e.handle
    taken e i at_i same = (i, at_i ∙ ap (λ z. some (record { name = z; handle = e.handle })) same)

    inserted_names :
        (g : ℕ) (ys : List HandleName) (cap' : ℕ)
        → insert_at t.entries g entry ≡ some ys
        → NamesAdded t (record { name_cap = cap'; entries = ys }) name handle
    inserted_names g ys cap' run other h = (
      λ p. from_old (insert_at-Origin t.entries ys g p.0 entry _ run p.1),
      λ p. elim p [
        | inl q ↦ insert_at-old t.entries ys g q.0 entry _ run q.1
        | inr (same, same_handle) ↦ (
          g,
          insert_at-get_self t.entries ys g entry run
              ∙ (λ i. some (record { name = sym same i; handle = sym same_handle i })),
        )
      ],
    )
      where
        from_old :
            {i : ℕ}
            → Origin t.entries g entry i (record { name = other; handle = h })
            → Named t other h ⊎ ((other ≡ name) × (h ≡ handle))
        from_old {i} (inl (_, e)) = inl (i, e)
        from_old (inr (inl (_, e))) = inr (ap (λ n. n.name) (sym e), ap (λ n. n.handle) (sym e))
        from_old (inr (inr (k, _, _, e))) = inl (k, e)

    -- For an order of names and a sorted table of fewer than 2^29 names, the naming of a handle
    -- succeeds and gives a sorted table: either the name is taken and the table as it was, or the
    -- name is new, and the table has the names it had, with their handles, and the new name with
    -- this handle, and no others.
    pub handle_namehandle_lem :
        length t.entries < 2 ^ 29
        → (done : Bool) × (t' : NameTable) × (handle_namehandle strcmp t handle name
            ≡ some (done, t'))
          × IsNameTable t'
          × (((done ≡ false) × (t' ≡ t) × ((h : ℕ) × Named t name h))
              ⊎ ((done ≡ true) × Unnamed t name × NamesAdded t t' name handle))
    unfolding handle_namehandle
    handle_namehandle_lem few =
        let n = length t.entries in
        let (r, run, o) =
          search_name_lem strcmp order t.entries name v.sorted (suc n) 0 n (omega arith)
            (omega arith) (omega arith) (λ j a h e. absurd (omega arith))
            (λ j a h e. absurd (omega (arith, get_elem?-lt t.entries j a e))) in
        by_outcome r run o
      where
        by_outcome :
            (r : Found)
            → search_name strcmp (suc (length t.entries)) t.entries name 0 (length t.entries)
              ≡ some r
            → Outcome strcmp order t.entries name r
            → (done : Bool) × (t' : NameTable) × (handle_namehandle strcmp t handle name
                ≡ some (done, t'))
              × IsNameTable t'
              × (((done ≡ false) × (t' ≡ t) × ((h : ℕ) × Named t name h))
                  ⊎ ((done ≡ true) × Unnamed t name × NamesAdded t t' name handle))
        by_outcome (at_entry e) run ((i, at_i), same) =
            (false, t, rw run refl, v, inl (refl, refl, (e.handle, taken e i at_i same)))
        by_outcome (at_gap g) run (inside, below, above) =
            let (ys, ins, size) = insert_at_total t.entries g entry inside in
            let (cap', grown, room) = insert_name_before_lem g ys ins few in
            (
              true,
              record { name_cap = cap'; entries = ys },
              rw run (rw grown refl),
              record {
                sorted = inserted-IsSorted g ys below above ins;
                fits = omega arith;
                room = omega arith;
              },
              inr (refl, gap_Unnamed t name g below above, inserted_names g ys cap' ins),
            )
