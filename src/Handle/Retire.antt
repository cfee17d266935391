-- ===== src/Handle/Retire.antt =====
-- `skynet_handle_retire`: a context leaves the table, and its names go.
use Prim.Native.Nat.{bit_and}
use mathlib.Core.Option.{some-injective}
use native.Mathlib.Nat.{mod-lt}
use native.Mathlib.Decide.{ℕ_discrete}
use skynet_sy.Common.{
  get_elem?-some, ℕ, ◌-◌, ◌%◌, ◌^◌, ◌<◌, ◌≡◌, ◌≢◌, refl, sym, ◌∙◌, ap, subst, Option, none, some,
  get_elem?, set, ◌↔◌, length, store_lem, length-set, get_elem?-set_self, get_elem?-set_ne, ==_refl,
  ==_ne,
}
use skynet_sy.Common.Bits.{pow_pos}
use skynet_sy.Handle.Names.{NameTable, Name, Sign}
use skynet_sy.Handle.Search.{IsOrder}
use skynet_sy.Handle.Naming.{IsNameTable, Named}
use skynet_sy.Handle.Slots.{Storage, handle_retire}
use skynet_sy.Handle.Dropped.{retired_names, drop_names_lem}
use skynet_sy.Handle.Scan.{hash_lem}
use skynet_sy.Handle.Register.{IsStorage, Present, at_home}

-- The storage without the context in the slot of the handle `x`, and without its names.
abbrev pub removed : ℕ → Storage → ℕ → Storage
removed k s x = record s { slot = set s.slot (x % 2 ^ k) none; names = retired_names x s.names }

-- The names after a retirement that gives the first argument: they stay if it gives no context, and
-- are else those of the other handles, sorted.
abbrev pub NamesLeft :
    (strcmp : Name → Name → Sign) → IsOrder strcmp → Option ℕ → ℕ → NameTable → NameTable → Type 0
NamesLeft strcmp order none x t t' = t' ≡ t
NamesLeft strcmp order (some c) x t t' =
    IsNameTable strcmp order t'
    × ((name : Name) (h : ℕ)
        → Named strcmp order t' name h ↔ (Named strcmp order t name h × (h ≢ x)))

module _ (handle_of : ℕ → Option ℕ) (k : ℕ) (s : Storage) (x : ℕ)
    (v : IsStorage handle_of k s) where
  in_slots : x % 2 ^ k < length s.slot
  in_slots = rw v.width (mod-lt x (pow_pos k))

  hash_at : bit_and x (s.slot_size - 1) ≡ x % 2 ^ k
  hash_at = ap (λ z. bit_and x (z - 1)) v.size ∙ hash_lem k x

  retire_empty :
      get_elem? s.slot (x % 2 ^ k) ≡ some none → handle_retire handle_of s x ≡ some (none, s)
  unfolding handle_retire
  retire_empty e = rw hash_at (rw e refl)

  retire_other :
      (c h : ℕ)
      → get_elem? s.slot (x % 2 ^ k) ≡ some (some c)
      → handle_of c ≡ some h
      → h ≢ x
      → handle_retire handle_of s x ≡ some (none, s)
  unfolding handle_retire
  retire_other c h e eh ne = rw hash_at (rw e rw eh rw (==_ne h x ne) refl)

  retire_hit :
      (c : ℕ)
      → get_elem? s.slot (x % 2 ^ k) ≡ some (some c)
      → handle_of c ≡ some x
      → handle_retire handle_of s x ≡ some (some c, removed k s x)
  unfolding handle_retire
  retire_hit c e eh =
      rw hash_at
        (rw e rw eh rw (==_refl x) rw hash_at rw (store_lem s.slot (x % 2 ^ k) none in_slots) refl)

  -- The one context that can have the handle is that of its slot.
  only :
      (cell : Option ℕ) (c : ℕ)
      → get_elem? s.slot (x % 2 ^ k) ≡ some cell
      → Present handle_of s c
      → handle_of c ≡ some x
      → cell ≡ some c
  only cell c e here ec = some-injective _ _ (sym e ∙ at_home handle_of k s x c v here ec)

  -- A table from which the handle is absent stays.
  absent_rest :
      ((c : ℕ) → Present handle_of s c → handle_of c ≢ some x)
      → (c : ℕ)
      → ((none ≡ some c) ↔ (Present handle_of s c × (handle_of c ≡ some x)))
        × (Present handle_of s c ↔ (Present handle_of s c × (handle_of c ≢ some x)))
  absent_rest absent c =
      ((λ q. cc, λ p. absurd (absent c p.0 p.1)), (λ p. (p, absent c p), λ p. p.0))

  removed-entry :
      (i c : ℕ)
      → get_elem? (set s.slot (x % 2 ^ k) none) i ≡ some (some c)
      → (i ≢ x % 2 ^ k) × (get_elem? s.slot i ≡ some (some c))
  removed-entry i c e = elim (ℕ_discrete i (x % 2 ^ k)) [
    | yes here ↦
        absurd
          (gone (subst (λ z. get_elem? (set s.slot (x % 2 ^ k) none) z ≡ some (some c)) here e))
    | no away ↦ (away, sym (get_elem?-set_ne s.slot (x % 2 ^ k) i none (λ q. away (sym q))) ∙ e)
  ]
    where
      gone : get_elem? (set s.slot (x % 2 ^ k) none) (x % 2 ^ k) ≡ some (some c) → ⊥
      gone q = cc (sym (get_elem?-set_self s.slot (x % 2 ^ k) none in_slots) ∙ q)

  removed-IsStorage : IsStorage handle_of k (removed k s x)
  removed-IsStorage = record {
    size = v.size;
    width = length-set s.slot (x % 2 ^ k) none ∙ v.width;
    placed = λ i c e. v.placed i c (removed-entry i c e).1;
  }

  removed-Present :
      (c' c : ℕ)
      → get_elem? s.slot (x % 2 ^ k) ≡ some (some c')
      → handle_of c' ≡ some x
      → Present handle_of (removed k s x) c ↔ (Present handle_of s c × (handle_of c ≢ some x))
  removed-Present c' c e ex = (
    λ p.
        let (away, at_i) = removed-entry p.0 c p.1 in
        (
          (p.0, at_i),
          λ q.
              let (h, eh, home) = v.placed p.0 c at_i in
              away (sym home ∙ ap (λ z. z % 2 ^ k) (some-injective _ _ (sym eh ∙ q))),
        ),
    λ p. (
      p.0.0,
      get_elem?-set_ne s.slot (x % 2 ^ k) p.0.0 none
            (λ q. p.1 (ap handle_of (same p.0.0 p.0.1 (sym q)) ∙ ex))
          ∙ p.0.1,
    ),
  )
    where
      same : (i : ℕ) → get_elem? s.slot i ≡ some (some c) → i ≡ x % 2 ^ k → c ≡ c'
      same i at_i q =
          some-injective _ _ (some-injective _ _ (sym at_i ∙ ap (get_elem? s.slot) q ∙ e))

  -- In a table of 2^k slots where every context stands in the slot of its handle, with a sorted
  -- table of names, the retirement of a handle faults nowhere and keeps that order; it gives the
  -- context of that handle, if it is in the table, and leaves the other contexts and no context of
  -- that handle; if a context is given, the names left are sorted and exactly those of other
  -- handles, with these handles, and otherwise they stay as they were.
  pub handle_retire_lem :
      (strcmp : Name → Name → Sign) (order : IsOrder strcmp)
      → IsNameTable strcmp order s.names
      → (r : Option ℕ) × (s' : Storage) × (handle_retire handle_of s x ≡ some (r, s'))
        × IsStorage handle_of k s'
        × NamesLeft strcmp order r x s.names s'.names
        × ((c : ℕ)
            → ((r ≡ some c) ↔ (Present handle_of s c × (handle_of c ≡ some x)))
              × (Present handle_of s' c ↔ (Present handle_of s c × (handle_of c ≢ some x))))
  handle_retire_lem strcmp order names =
      let (cell, e) = get_elem?-some s.slot (x % 2 ^ k) in_slots in by_cell cell e
    where
      by_cell :
          (cell : Option ℕ)
          → get_elem? s.slot (x % 2 ^ k) ≡ some cell
          → (r : Option ℕ) × (s' : Storage) × (handle_retire handle_of s x ≡ some (r, s'))
            × IsStorage handle_of k s'
            × NamesLeft strcmp order r x s.names s'.names
            × ((c : ℕ)
                → ((r ≡ some c) ↔ (Present handle_of s c × (handle_of c ≡ some x)))
                  × (Present handle_of s' c ↔ (Present handle_of s c × (handle_of c ≢ some x))))
      by_cell none e =
          (none, s, retire_empty e, v, refl, absent_rest (λ c here ec. cc (only none c e here ec)))
      by_cell (some c') e =
          let (h, eh, _) = v.placed (x % 2 ^ k) c' e in
          elim (ℕ_discrete h x) [
            | yes hit ↦
                let ex : handle_of c' ≡ some x = eh ∙ ap some hit in
                (
                  some c',
                  removed k s x,
                  retire_hit c' e ex,
                  removed-IsStorage,
                  drop_names_lem strcmp order s.names x names,
                  λ c. (
                    (
                      λ q.
                          subst (λ z. Present handle_of s z × (handle_of z ≡ some x))
                            (some-injective _ _ q) ((x % 2 ^ k, e), ex),
                      λ p. only (some c') c e p.0 p.1,
                    ),
                    removed-Present c' c e ex,
                  ),
                )
            | no apart ↦ (
              none,
              s,
              retire_other c' h e eh apart,
              v,
              refl,
              absent_rest (λ c here ec. apart (
                  some-injective _ _ (
                    sym eh ∙ ap handle_of (some-injective _ _ (only (some c') c e here ec)) ∙ ec))),
            )
          ]
