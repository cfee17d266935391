-- ===== src/Handle/Grow.antt =====
-- A full table of `skynet_handle_register` and the table of twice the size that takes its place.
use mathlib.Core.Option.{some-injective}
use native.Mathlib.Decide.{ℕ_discrete}
use native.Mathlib.Nat.{mod_self, pow-suc, mod-eq_of_lt}
use skynet_sy.Common.{
  get_elem?-some, ℕ, zero, suc, ◌+◌, ◌*◌, ◌%◌, ◌^◌, ◌<◌, ◌≡◌, ◌≢◌, sym, ◌∙◌, ap, arith, Option,
  none, some, List, [], ◌∷◌, get_elem?, inl, inr, ◌⊎◌, ◌↔◌, length, replicate, length-replicate,
}
use skynet_sy.Common.Bits.{pow_pos}
use skynet_sy.Handle.Slots.{Storage, rehash}
use skynet_sy.Handle.Rehash.{Suffix, Filled, Moved, rehash_lem, mod_half}
use skynet_sy.Handle.Register.{IsStorage, Present}

replicate-none : (n x c : ℕ) → get_elem? (replicate {A = Option ℕ} n none) x ≢ some (some c)
replicate-none zero x c e = cc
replicate-none (suc n) zero c e = cc
replicate-none (suc n) (suc x) c e = replicate-none n x c e

-- The storage after the table was replaced.
abbrev pub doubled : Storage → List (Option ℕ) → Storage
doubled s after = record s { slot = after; slot_size = s.slot_size * 2 }

module _ (handle_of : ℕ → Option ℕ) (k : ℕ) where
  suffix_of :
      (i : ℕ) (slots : List (Option ℕ))
      → ((j : ℕ)
          → j < length slots
          → (c : ℕ) × (h : ℕ) × (get_elem? slots j ≡ some (some c))
            × (handle_of c ≡ some h)
            × (h % 2 ^ k ≡ i + j))
      → Suffix handle_of k i slots
  suffix_of i [] all = tt
  suffix_of i (cell ∷ slots) all =
      let (c, h, e, eh, at_i) = all 0 (omega arith) in
      (
        (c, h, some-injective _ _ e, eh, omega arith),
        suffix_of (suc i) slots (λ j lt.
            let (c', h', e', eh', at_j) = all (suc j) (omega arith) in
            (c', h', e', eh', omega arith)),
      )

  module _ (s : Storage) (v : IsStorage handle_of k s)
      (full : (j : ℕ) → j < 2 ^ k → (c : ℕ) × (get_elem? s.slot j ≡ some (some c))) where
    start : Filled handle_of k 0 (replicate (2 ^ k * 2) none)
    start = record {
      width = length-replicate (2 ^ k * 2) none;
      placed = λ x c e. absurd (replicate-none (2 ^ k * 2) x c e);
    }

    members : Suffix handle_of k 0 s.slot
    members = suffix_of 0 s.slot (λ j lt.
        let (c, e) = full j (omega (arith, v.width)) in
        let (h, eh, at_j) = v.placed j c e in (c, h, e, eh, omega arith))

    -- The rehashed table holds the same contexts, has room, and never trips the assert.
    pub grow_lem :
        (after : List (Option ℕ)) × (rehash handle_of (2 ^ k) s.slot (replicate (2 ^ k * 2) none)
          ≡ some after)
        × IsStorage handle_of (suc k) (doubled s after)
        × ((c : ℕ) → Present handle_of (doubled s after) c ↔ Present handle_of s c)
        × ((x : ℕ) × (get_elem? after x ≡ some none))
    grow_lem =
        let (after, run, filled, moved) = rehash_lem handle_of k 0 s.slot _ members start in
        (after, run, storage after filled, same after moved, free after filled moved)
      where
        storage :
            (after : List (Option ℕ))
            → Filled handle_of k (0 + length s.slot) after
            → IsStorage handle_of (suc k) (doubled s after)
        storage after filled = record {
          size = ap (λ n. n * 2) v.size ∙ sym (pow-suc 2 k);
          width = filled.width ∙ sym (pow-suc 2 k);
          placed =
              λ i c e. let (h, eh, at_i, _) = filled.placed i c e in (h, eh, rw (pow-suc 2 k) at_i);
        }

        same :
            (after : List (Option ℕ))
            → Moved handle_of k s.slot (replicate (2 ^ k * 2) none) after
            → (c : ℕ) → Present handle_of (doubled s after) c ↔ Present handle_of s c
        same after moved c = (
          λ p. from_old p.0 (moved.only p.0 c p.1),
          λ p. let (h, eh, _) = v.placed p.0 c p.1 in (h % (2 ^ k * 2), moved.adds p.0 c h p.1 eh),
        )
          where
            from_old :
                (x : ℕ)
                → (get_elem? (replicate (2 ^ k * 2) none) x ≡ some (some c))
                  ⊎ ((j : ℕ) × (get_elem? s.slot j ≡ some (some c)))
                → Present handle_of s c
            from_old x (inl e) = absurd (replicate-none (2 ^ k * 2) x c e)
            from_old x (inr p) = p

        free :
            (after : List (Option ℕ))
            → Filled handle_of k (0 + length s.slot) after
            → Moved handle_of k s.slot (replicate (2 ^ k * 2) none) after
            → (x : ℕ) × (get_elem? after x ≡ some none)
        free after filled moved =
            let (c, e) = full 0 (pow_pos k) in
            let (h, eh, at_0) = v.placed 0 c e in
            elim (ℕ_discrete (h % (2 ^ k * 2)) 0) [
              | yes low ↦ (
                2 ^ k,
                empty c h e eh (2 ^ k) (omega (arith, pow_pos k)) (mod_self (2 ^ k))
                    (omega (arith, pow_pos k)),
              )
              | no high ↦
                  (0, empty c h e eh 0 (omega (arith, pow_pos k)) (mod-eq_of_lt (pow_pos k)) high)
            ]
          where
            empty :
                (c h : ℕ)
                → get_elem? s.slot 0 ≡ some (some c)
                → handle_of c ≡ some h
                → (x : ℕ) → x < 2 ^ k * 2
                → x % 2 ^ k ≡ 0
                → h % (2 ^ k * 2) ≢ x
                → get_elem? after x ≡ some none
            empty c h e eh x lt low away =
                let (cell, ex) = get_elem?-some after x (rw filled.width lt) in by_cell cell ex
              where
                by_cell :
                    (cell : Option ℕ)
                    → get_elem? after x ≡ some cell
                    → get_elem? after x ≡ some none
                by_cell none ex = ex
                by_cell (some c') ex =
                    let (h', eh', at_x, _) = filled.placed x c' ex in
                    let (j, ej) = (same after moved c').0 (x, ex) in
                    let (h'', eh'', at_j) = v.placed j c' ej in
                    let handles : h' ≡ h'' = some-injective _ _ (sym eh' ∙ eh'') in
                    let home : j ≡ 0 =
                      sym at_j
                      ∙ ap (λ z. z % 2 ^ k) (sym handles)
                      ∙ sym (mod_half (2 ^ k) h')
                      ∙ ap (λ z. z % 2 ^ k) at_x
                      ∙ low in
                    let one : c ≡ c' =
                      some-injective _ _
                        (some-injective _ _ (sym e ∙ ap (get_elem? s.slot) (sym home) ∙ ej)) in
                    absurd (
                      away (
                        ap (λ z. z % (2 ^ k * 2))
                          (some-injective _ _ (sym eh ∙ ap handle_of one ∙ eh'))
                        ∙ at_x))
