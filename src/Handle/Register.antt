-- ===== src/Handle/Register.antt =====
-- `skynet_handle_register` and `skynet_handle_grab`: a map from handles to contexts.
use Prim.Native.Nat.{◌∣◌}
use mathlib.Core.Option.{some-injective}
use native.Mathlib.Decide.{ℕ_discrete}
use native.Mathlib.Nat.{dvd_refl, mod-lt, dvd-mul_right_of_dvd, pow-suc}
use skynet_sy.Common.{
  get_elem?-some, ℕ, zero, suc, ◌+◌, ◌%◌, ◌^◌, ◌≡◌, refl, sym, ◌∙◌, ap, subst, arith, Option, none,
  some, get_elem?, ◌↔◌, ◌>>=◌, length, ==_ne, ==_iff, ◌==◌, if◌then◌else◌,
}
use skynet_sy.Common.Bits.{pow_pos}
use skynet_sy.Handle.Slots.{Storage, handle_find}
use skynet_sy.Handle.Scan.{hash_lem}

-- A power of two divides the next ones.
pub pow_dvd : (k j : ℕ) → 2 ^ k ∣ 2 ^ (j + k)
pow_dvd k zero = subst (λ n. 2 ^ k ∣ 2 ^ n) (omega arith) (dvd_refl (2 ^ k))
pow_dvd k (suc j) =
    subst (λ n. 2 ^ k ∣ n) (sym (pow-suc 2 (j + k)) ∙ ap (λ n. 2 ^ n) (omega arith))
      (dvd-mul_right_of_dvd (2 ^ k) (pow_dvd k j) 2)

module _ (handle_of : ℕ → Option ℕ) where
  -- The table has 2 ^ k slots, and a context stands in the slot of its handle.
  pub record IsStorage (k : ℕ) (s : Storage) : Type 0 where
    pub size : s.slot_size ≡ 2 ^ k
    pub width : length s.slot ≡ 2 ^ k
    pub placed :
        (i c : ℕ)
        → get_elem? s.slot i ≡ some (some c)
        → (h : ℕ) × (handle_of c ≡ some h) × (h % 2 ^ k ≡ i)

  -- The context `c` is in the table.
  abbrev pub Present : Storage → ℕ → Type 0
  Present s c = (i : ℕ) × (get_elem? s.slot i ≡ some (some c))

  find_round :
      (k : ℕ) (s : Storage) (x : ℕ) (cell : Option ℕ)
      → s.slot_size ≡ 2 ^ k
      → get_elem? s.slot (x % 2 ^ k) ≡ some cell
      → handle_find handle_of s x ≡ elim cell [
        | none ↦ some none
        | some c ↦ handle_of c >>= λ h. some (if h == x then some c else none)
      ]
  unfolding handle_find
  find_round k s x none size e = rw (size, hash_lem k x) (rw e refl)
  find_round k s x (some c) size e = rw (size, hash_lem k x) (rw e refl)

  pub at_home :
      (k : ℕ) (s : Storage) (x c : ℕ)
      → IsStorage k s
      → Present s c
      → handle_of c ≡ some x
      → get_elem? s.slot (x % 2 ^ k) ≡ some (some c)
  at_home k s x c v (i, e) ec =
      let (h, eh, at_i) = v.placed i c e in
      ap (get_elem? s.slot) (ap (λ z. z % 2 ^ k) (some-injective _ _ (sym ec ∙ eh)) ∙ at_i) ∙ e

  -- In a table of 2^k slots where every context stands in the slot of its handle, the lookup of a
  -- handle faults nowhere and finds a context exactly if it is in the table and has that handle.
  pub handle_find_lem :
      (k : ℕ) (s : Storage) (x : ℕ)
      → IsStorage k s
      → (r : Option ℕ) × (handle_find handle_of s x ≡ some r)
        × ((c : ℕ) → (r ≡ some c) ↔ (Present s c × (handle_of c ≡ some x)))
  handle_find_lem k s x v =
      let (cell, e) = get_elem?-some s.slot (x % 2 ^ k) (rw v.width (mod-lt x (pow_pos k))) in
      by_cell cell e
    where
      by_cell :
          (cell : Option ℕ)
          → get_elem? s.slot (x % 2 ^ k) ≡ some cell
          → (r : Option ℕ) × (handle_find handle_of s x ≡ some r)
            × ((c : ℕ) → (r ≡ some c) ↔ (Present s c × (handle_of c ≡ some x)))
      by_cell none e = (
        none,
        find_round k s x none v.size e,
        λ c. (λ q. cc, λ p. cc (sym e ∙ at_home k s x c v p.0 p.1)),
      )
      by_cell (some c') e =
          let (h, eh, _) = v.placed (x % 2 ^ k) c' e in
          let same = λ (c : ℕ) (p : Present s c × (handle_of c ≡ some x)).
            some-injective _ _ (some-injective _ _ (sym e ∙ at_home k s x c v p.0 p.1)) in
          elim (ℕ_discrete h x) [
            | yes hit ↦ (
              some c',
              find_round k s x (some c') v.size e ∙ rw eh (rw ((==_iff h x).1 hit) refl),
              λ c. (
                λ q.
                    let w : c' ≡ c = some-injective _ _ q in
                    subst (λ z. Present s z × (handle_of z ≡ some x)) w
                      ((x % 2 ^ k, e), eh ∙ ap some hit),
                λ p. ap some (same c p),
              ),
            )
            | no miss ↦ (
              none,
              find_round k s x (some c') v.size e ∙ rw eh (rw (==_ne h x miss) refl),
              λ c. (
                λ q. cc,
                λ p. absurd (miss (some-injective _ _ (sym eh ∙ ap handle_of (same c p) ∙ p.1))),
              ),
            )
          ]
