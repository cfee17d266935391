-- ===== src/Handle/Scan.antt =====
-- The scan of `skynet_handle_register` for a free slot, while the handles do not wrap round.
use Prim.Native.Nat.{bit_and}
use native.Mathlib.Decide.{dec_lt}
use native.Mathlib.Nat.{pow-suc, mod-eq_of_lt, mul-add-mod_self_left, mod-lt, div-add-mod}
use skynet_sy.Common.{
  get_elem?-some, get_elem?-lt, ℕ, zero, suc, ◌+◌, ◌-◌, ◌*◌, ◌/◌, ◌%◌, ◌^◌, ◌≤◌, ◌<◌, ◌≡◌, refl,
  sym, ◌∙◌, ap, arith, Option, none, some, List, get_elem?, length, le→ltb_false,
}
use skynet_sy.Common.Bits.{bit_and_mask, pow_pos}
use skynet_sy.Handle.Slots.{scan, handle_mask}

-- hash of a handle in a table of 2 ^ k slots, and in one of twice the size
pub hash_lem : (k h : ℕ) → bit_and h (2 ^ k - 1) ≡ h % 2 ^ k
hash_lem k h = bit_and_mask k h

pub hash_double : (k h : ℕ) → bit_and h (2 ^ k * 2 - 1) ≡ h % (2 ^ k * 2)
hash_double k h = rw (← pow-suc 2 k) (bit_and_mask (suc k) h)

-- `n` handles in a row meet every residue of `n`
pub covers : (n h i : ℕ) → i < n → (j : ℕ) × (j < n) × ((h + j) % n ≡ i)
covers n h i lt = elim (dec_lt i (h % n)) [
  | no le ↦ (
    i - h % n,
    omega (arith, mod-lt h {m = n} (omega arith)),
    ap (λ t. t % n)
          (let e : h + (i - h % n) ≡ n * (h / n) + i = omega (arith, div-add-mod h n) in e)
        ∙ mul-add-mod_self_left n (h / n) i
        ∙ mod-eq_of_lt lt,
  )
  | yes gt ↦ (
    i + n - h % n,
    omega (arith, mod-lt h {m = n} (omega arith)),
    ap (λ t. t % n)
          (let e : h + (i + n - h % n) ≡ n * (h / n + 1) + i =
              omega (arith, div-add-mod h n, mod-lt h {m = n} (omega arith)) in
            e)
        ∙ mul-add-mod_self_left n (h / n + 1) i
        ∙ mod-eq_of_lt lt,
  )
]

-- What a scan of `n` handles from `handle` on tells.
abbrev pub Scanned : ℕ → List (Option ℕ) → ℕ → ℕ → Option ℕ → Type 0
Scanned size slots n handle (some h) =
    (handle ≤ h) × (h < handle + n) × (get_elem? slots (h % size) ≡ some none)
Scanned size slots n handle none =
    (j : ℕ) → j < n → (c : ℕ) × (get_elem? slots ((handle + j) % size) ≡ some (some c))

module _ (k : ℕ) (slots : List (Option ℕ)) (width : length slots ≡ 2 ^ k) where
  scan_round :
      (n handle : ℕ) (cell : Option ℕ)
      → handle ≤ handle_mask
      → get_elem? slots (handle % 2 ^ k) ≡ some cell
      → scan (2 ^ k) (suc n) slots handle
        ≡ elim cell [ none ↦ some (some handle) | some c ↦ scan (2 ^ k) n slots (handle + 1) ]
  unfolding scan
  scan_round n handle none low e = simp (le→ltb_false handle_mask handle low, hash_lem k handle, e)
  scan_round n handle (some c) low e =
      simp (le→ltb_false handle_mask handle low, hash_lem k handle, e)

  -- The scan reads inside the table, and ends with the first free slot or at a full table.
  pub scan_lem :
      (n handle : ℕ)
      → handle + n ≤ 2 ^ 24
      → (r : Option ℕ) × (scan (2 ^ k) n slots handle ≡ some r) × Scanned (2 ^ k) slots n handle r
  unfolding scan
  scan_lem zero handle h = (none, refl, λ j lt. absurd (omega arith))
  scan_lem (suc n) handle h =
      let (cell, e) =
        get_elem?-some slots (handle % 2 ^ k) (rw width (mod-lt handle (pow_pos k))) in
      by_cell cell e (scan_lem n (handle + 1) (omega arith))
    where
      by_cell :
          (cell : Option ℕ)
          → get_elem? slots (handle % 2 ^ k) ≡ some cell
          → ((r : Option ℕ) × (scan (2 ^ k) n slots (handle + 1) ≡ some r)
              × Scanned (2 ^ k) slots n (handle + 1) r)
          → (r : Option ℕ) × (scan (2 ^ k) (suc n) slots handle ≡ some r)
            × Scanned (2 ^ k) slots (suc n) handle r
      by_cell none e later =
          (some handle, scan_round n handle none (omega arith) e, (omega arith, omega arith, e))
      by_cell (some c) e (some h', run, found) = (
        some h',
        scan_round n handle (some c) (omega arith) e ∙ run,
        (omega arith, omega arith, found.2),
      )
      by_cell (some c) e (none, run, full) =
          (none, scan_round n handle (some c) (omega arith) e ∙ run, taken_all full)
        where
          taken_all :
              Scanned (2 ^ k) slots n (handle + 1) none → Scanned (2 ^ k) slots (suc n) handle none
          taken_all full zero lt = (c, ap (λ t. get_elem? slots (t % 2 ^ k)) (omega arith) ∙ e)
          taken_all full (suc j) lt =
              let (c', e') = full j (omega arith) in
              (c', ap (λ t. get_elem? slots (t % 2 ^ k)) (omega arith) ∙ e')

  -- A table with a free slot: the scan of as many handles as there are slots finds one.
  pub scan_finds :
      (handle i : ℕ)
      → handle + 2 ^ k ≤ 2 ^ 24
      → get_elem? slots i ≡ some none
      → (h : ℕ) × (scan (2 ^ k) (2 ^ k) slots handle ≡ some (some h))
        × (handle ≤ h)
        × (h < handle + 2 ^ k)
        × (get_elem? slots (h % 2 ^ k) ≡ some none)
  scan_finds handle i low free = found (scan_lem (2 ^ k) handle low)
    where
      found :
          ((r : Option ℕ) × (scan (2 ^ k) (2 ^ k) slots handle ≡ some r)
            × Scanned (2 ^ k) slots (2 ^ k) handle r)
          → (h : ℕ) × (scan (2 ^ k) (2 ^ k) slots handle ≡ some (some h))
            × (handle ≤ h)
            × (h < handle + 2 ^ k)
            × (get_elem? slots (h % 2 ^ k) ≡ some none)
      found (some h, run, s) = (h, run, s.0, s.1, s.2)
      found (none, run, full) =
          let (j, lt, at_i) =
            covers (2 ^ k) handle i (rw (← width) (get_elem?-lt slots i none free)) in
          let (c, e) = full j lt in cc (sym e ∙ ap (get_elem? slots) at_i ∙ free)
