-- ===== src/Handle/Search.antt =====
-- The binary search of `skynet_handle_findname` and `_insert_name` on a sorted array of names.
use mathlib.Core.Option.{some-injective}
use native.Mathlib.Decide.{ℕ_discrete}
use skynet_sy.Common.{
  get_elem?-some, ℕ, zero, suc, ◌+◌, ◌-◌, ◌/◌, ◌≤◌, ◌<◌, ◌≡◌, refl, sym, ◌∙◌, ap, arith, true,
  false, some, List, get_elem?, ltb, Bool-cases, inl, inr, ◌⊎◌, ◌↔◌, length, ltb→lt,
}
use skynet_sy.Handle.Names.{
  Sign, negative, equal, positive, Name, HandleName, Found, at_entry, at_gap, search_name,
}

-- What C promises of `strcmp`: a strict total order.
pub record IsOrder (strcmp : Name → Name → Sign) : Type 0 where
  pub equal_iff : (a b : Name) → (strcmp a b ≡ equal) ↔ (a ≡ b)
  pub flip : (a b : Name) → (strcmp a b ≡ negative) ↔ (strcmp b a ≡ positive)
  pub trans : (a b c : Name) → strcmp a b ≡ negative → strcmp b c ≡ negative → strcmp a c ≡ negative

pub Sign-cases : (s : Sign) → (s ≡ negative) ⊎ ((s ≡ equal) ⊎ (s ≡ positive))
Sign-cases negative = inl refl
Sign-cases equal = inr (inl refl)
Sign-cases positive = inr (inr refl)

module _ (strcmp : Name → Name → Sign) (order : IsOrder strcmp) where
  -- Earlier entries have smaller names.
  abbrev pub IsSorted : List HandleName → Type 0
  IsSorted ns =
      (i j : ℕ) (a b : HandleName)
      → i < j
      → get_elem? ns i ≡ some a
      → get_elem? ns j ≡ some b
      → strcmp a.name b.name ≡ negative

  -- The entries before `i` are below `name`; those from `i` on are above it.
  abbrev pub Below : List HandleName → Name → ℕ → Type 0
  Below ns name i =
      (j : ℕ) (a : HandleName) → j < i → get_elem? ns j ≡ some a → strcmp a.name name ≡ negative

  abbrev pub Above : List HandleName → Name → ℕ → Type 0
  Above ns name i =
      (j : ℕ) (a : HandleName) → i ≤ j → get_elem? ns j ≡ some a → strcmp a.name name ≡ positive

  abbrev pub Outcome : List HandleName → Name → Found → Type 0
  Outcome ns name (at_entry n) = ((i : ℕ) × (get_elem? ns i ≡ some n)) × (n.name ≡ name)
  Outcome ns name (at_gap g) = (g ≤ length ns) × Below ns name g × Above ns name g

  above_of_above :
      (a b c : Name) → strcmp a b ≡ negative → strcmp a c ≡ positive → strcmp b c ≡ positive
  above_of_above a b c ab ac = (order.flip c b).0 (order.trans c a b ((order.flip c a).1 ac) ab)

  module _ (ns : List HandleName) (name : Name) (sorted : IsSorted ns) where
    Below-mid :
        (mid : ℕ) (n : HandleName)
        → get_elem? ns mid ≡ some n
        → strcmp n.name name ≡ negative
        → Below ns name (mid + 1)
    Below-mid mid n e neg j a h ej = elim (ℕ_discrete j mid) [
      | yes same ↦
          ap (λ z. strcmp z.name name) (some-injective _ _ (sym ej ∙ ap (get_elem? ns) same ∙ e))
          ∙ neg
      | no other ↦ order.trans a.name n.name name (sorted j mid a n (omega arith) ej e) neg
    ]

    Above-mid :
        (mid : ℕ) (n : HandleName)
        → get_elem? ns mid ≡ some n
        → strcmp n.name name ≡ positive
        → Above ns name mid
    Above-mid mid n e pos j a h ej = elim (ℕ_discrete j mid) [
      | yes same ↦
          ap (λ z. strcmp z.name name) (some-injective _ _ (sym ej ∙ ap (get_elem? ns) same ∙ e))
          ∙ pos
      | no other ↦ above_of_above n.name a.name name (sorted mid j n a (omega arith) e ej) pos
    ]

    stop_round :
        (fuel begin stop : ℕ)
        → ltb begin stop ≡ false
        → search_name strcmp (suc fuel) ns name begin stop ≡ some (at_gap begin)
    unfolding search_name
    stop_round fuel begin stop done = rw (done, search_name)

    round :
        (fuel begin stop : ℕ) (n : HandleName)
        → ltb begin stop ≡ true
        → get_elem? ns ((begin + (stop - 1)) / 2) ≡ some n
        → search_name strcmp (suc fuel) ns name begin stop ≡ elim (strcmp n.name name) [
          | equal ↦ some (at_entry n)
          | negative ↦ search_name strcmp fuel ns name ((begin + (stop - 1)) / 2 + 1) stop
          | positive ↦ search_name strcmp fuel ns name begin ((begin + (stop - 1)) / 2)
        ]
    unfolding search_name
    round fuel begin stop n more e = rw (more, search_name) (rw e refl)

    -- The search ends within the fuel, and never reads outside the array.
    pub search_name_lem :
        (fuel begin stop : ℕ)
        → stop ≤ length ns
        → begin ≤ stop
        → stop < fuel + begin
        → Below ns name begin
        → Above ns name stop
        → (r : Found) × (search_name strcmp fuel ns name begin stop ≡ some r) × Outcome ns name r
    unfolding search_name
    search_name_lem zero begin stop inside le f below above = absurd (omega arith)
    search_name_lem (suc fuel) begin stop inside le f below above =
        elim (Bool-cases (ltb begin stop)) [
          | inr done ↦ (
            at_gap begin,
            stop_round fuel begin stop done,
            (omega arith, below, λ j a h. above j a (ground arith)),
          )
          | inl more ↦
              let mid = (begin + (stop - 1)) / 2 in
              let lt : begin < stop = ltb→lt _ _ more in
              let (n, e) = get_elem?-some ns mid (omega arith) in
              elim (Sign-cases (strcmp n.name name)) [
                | inl neg ↦
                    let (r, run, o) =
                      search_name_lem fuel (mid + 1) stop inside (omega arith) (omega arith)
                        (Below-mid mid n e neg) above in
                    (r, round fuel begin stop n more e ∙ rw neg run, o)
                | inr (inl eq) ↦ (
                  at_entry n,
                  round fuel begin stop n more e ∙ rw eq,
                  ((mid, e), (order.equal_iff n.name name).0 eq),
                )
                | inr (inr pos) ↦
                    let (r, run, o) =
                      search_name_lem fuel begin mid (omega arith) (omega arith) (omega arith) below
                        (Above-mid mid n e pos) in
                    (r, round fuel begin stop n more e ∙ rw pos run, o)
              ]
        ]
