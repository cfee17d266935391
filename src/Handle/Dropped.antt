-- ===== src/Handle/Dropped.antt =====
-- The loop of `skynet_handle_retire` that takes the names of a handle out of the sorted table.
use mathlib.Core.Option.{some-injective}
use native.Mathlib.Decide.{ℕ_discrete}
use skynet_sy.Common.{
  ℕ, zero, suc, ◌≤◌, ◌<◌, ◌≡◌, ◌≢◌, refl, sym, subst, arith, some, List, [], ◌∷◌, get_elem?, inl,
  inr, ◌↔◌, length, ◌==◌, ==_ne, ==_iff, Bool-cases,
}
use skynet_sy.Handle.Names.{Sign, Name, HandleName, NameTable, drop_names}
use skynet_sy.Handle.Search.{IsOrder}
use skynet_sy.Handle.Naming.{IsNameTable, Named}

-- The head of a list of names goes or stays.
gone_eq :
    (handle : ℕ) (m : HandleName) (ns : List HandleName)
    → m.handle ≡ handle
    → drop_names handle (m ∷ ns) ≡ drop_names handle ns
unfolding drop_names
gone_eq handle m ns same = rw ((==_iff m.handle handle).1 same) refl

stays_eq :
    (handle : ℕ) (m : HandleName) (ns : List HandleName)
    → m.handle ≢ handle
    → drop_names handle (m ∷ ns) ≡ m ∷ drop_names handle ns
unfolding drop_names
stays_eq handle m ns apart = rw (==_ne m.handle handle apart) refl

-- Where an entry that stays was.
abbrev From : ℕ → List HandleName → HandleName → Type 0
From handle ns n = (j : ℕ) × (get_elem? ns j ≡ some n) × (n.handle ≢ handle)

entry_at :
    (handle : ℕ) (m : HandleName) (ns kept : List HandleName) (i : ℕ) (n : HandleName)
    → ((i : ℕ) → get_elem? kept i ≡ some n → From handle ns n)
    → m.handle ≢ handle
    → get_elem? (m ∷ kept) i ≡ some n
    → From handle (m ∷ ns) n
entry_at handle m ns kept zero n ih stays e =
    (0, e, subst (λ (z : HandleName). z.handle ≢ handle) (some-injective _ _ e) stays)
entry_at handle m ns kept (suc i) n ih stays e = let (j, ej, ne) = ih i e in (suc j, ej, ne)

drop_names-entry :
    (handle : ℕ) (ns : List HandleName) (i : ℕ) (n : HandleName)
    → get_elem? (drop_names handle ns) i ≡ some n
    → From handle ns n
unfolding drop_names
drop_names-entry handle [] i n e = cc
drop_names-entry handle (m ∷ ns) i n e =
    let ih = λ (i : ℕ). drop_names-entry handle ns i n in
    elim (ℕ_discrete m.handle handle) [
      | yes gone ↦
          let (j, ej, ne) =
            ih i (subst (λ l. get_elem? l i ≡ some n) (gone_eq handle m ns gone) e) in
          (suc j, ej, ne)
      | no stays ↦
          entry_at handle m ns (drop_names handle ns) i n ih stays
            (subst (λ l. get_elem? l i ≡ some n) (stays_eq handle m ns stays) e)
    ]

-- Two entries in their order.
abbrev Pair : List HandleName → HandleName → HandleName → Type 0
Pair ns a b = (i : ℕ) × (j : ℕ) × (i < j) × (get_elem? ns i ≡ some a) × (get_elem? ns j ≡ some b)

Pair-at :
    (m : HandleName) (ns kept : List HandleName) (i j : ℕ) (a b : HandleName)
    → ((i j : ℕ) → i < j → get_elem? kept i ≡ some a → get_elem? kept j ≡ some b → Pair ns a b)
    → ((j : ℕ) → get_elem? kept j ≡ some b → (j' : ℕ) × (get_elem? ns j' ≡ some b))
    → i < j
    → get_elem? (m ∷ kept) i ≡ some a
    → get_elem? (m ∷ kept) j ≡ some b
    → Pair (m ∷ ns) a b
Pair-at m ns kept i zero a b ih one l ea eb = absurd (omega (arith, l))
Pair-at m ns kept zero (suc j) a b ih one l ea eb =
    let (j', ej) = one j eb in (0, suc j', omega arith, ea, ej)
Pair-at m ns kept (suc i) (suc j) a b ih one l ea eb =
    let (i', j', l', ei, ej) = ih i j (omega (arith, l)) ea eb in
    (suc i', suc j', omega (arith, l'), ei, ej)

drop_names-Pair :
    (handle : ℕ) (ns : List HandleName) (i j : ℕ) (a b : HandleName)
    → i < j
    → get_elem? (drop_names handle ns) i ≡ some a
    → get_elem? (drop_names handle ns) j ≡ some b
    → Pair ns a b
unfolding drop_names
drop_names-Pair handle [] i j a b l ea eb = cc
drop_names-Pair handle (m ∷ ns) i j a b l ea eb =
    let ih = λ (i j : ℕ). drop_names-Pair handle ns i j a b in
    elim (ℕ_discrete m.handle handle) [
      | yes gone ↦
          let eq = gone_eq handle m ns gone in
          let (i', j', l', ei, ej) =
            ih i j l (subst (λ s. get_elem? s i ≡ some a) eq ea)
              (subst (λ s. get_elem? s j ≡ some b) eq eb) in
          (suc i', suc j', omega (arith, l'), ei, ej)
      | no stays ↦
          let eq = stays_eq handle m ns stays in
          Pair-at m ns (drop_names handle ns) i j a b ih
            (λ j e. let r = drop_names-entry handle ns j b e in (r.0, r.1)) l
            (subst (λ s. get_elem? s i ≡ some a) eq ea) (subst (λ s. get_elem? s j ≡ some b) eq eb)
    ]

drop_names-back :
    (handle : ℕ) (ns : List HandleName) (j : ℕ) (n : HandleName)
    → get_elem? ns j ≡ some n
    → n.handle ≢ handle
    → (i : ℕ) × (get_elem? (drop_names handle ns) i ≡ some n)
unfolding drop_names
drop_names-back handle [] j n e ne = cc
drop_names-back handle (m ∷ ns) zero n e ne = (
  0,
  rw
      (==_ne m.handle handle
        (subst (λ (z : HandleName). z.handle ≢ handle) (sym (some-injective _ _ e)) ne))
      e,
)
drop_names-back handle (m ∷ ns) (suc j) n e ne =
    let (i, ei) = drop_names-back handle ns j n e ne in
    elim (Bool-cases (m.handle == handle)) [
      | inl gone ↦ (i, rw gone ei)
      | inr stays ↦ (suc i, rw stays ei)
    ]

drop_names-length : (handle : ℕ) (ns : List HandleName) → length (drop_names handle ns) ≤ length ns
unfolding drop_names
drop_names-length handle [] = omega arith
drop_names-length handle (m ∷ ns) = let ih = drop_names-length handle ns in ground (arith, ih)

-- The table of names that a retirement leaves.
abbrev pub retired_names : ℕ → NameTable → NameTable
retired_names handle t = record t { entries = drop_names handle t.entries }

module _ (strcmp : Name → Name → Sign) (order : IsOrder strcmp) where
  -- For an order of names, the loop that drops the names of a handle keeps a sorted table sorted
  -- and within its bounds, and leaves exactly the names of the other handles.
  pub drop_names_lem :
      (t : NameTable) (handle : ℕ)
      → IsNameTable strcmp order t
      → IsNameTable strcmp order (retired_names handle t)
        × ((name : Name) (h : ℕ)
            → Named strcmp order (retired_names handle t) name h
              ↔ (Named strcmp order t name h × (h ≢ handle)))
  drop_names_lem t handle v = (
    record {
      sorted = λ i j a b l ea eb.
          let (i', j', l', ei, ej) = drop_names-Pair handle t.entries i j a b l ea eb in
          v.sorted i' j' a b l' ei ej;
      fits = let short = drop_names-length handle t.entries in omega (arith, short, v.fits);
      room = v.room;
    },
    λ name h. (
      λ p. let (j, ej, ne) = drop_names-entry handle t.entries p.0 _ p.1 in ((j, ej), ne),
      λ p. drop_names-back handle t.entries p.0.0 _ p.0.1 p.1,
    ),
  )
