-- ===== src/HashId/Map.antt =====
-- `struct hashid` is a map from ids to indices: insert, lookup and remove.
use Prim.Native.Nat.{bit_and}
use mathlib.Core.Option.{some-injective}
use native.Mathlib.Decide.{ℕ_discrete}
use skynet_sy.Common.{
  ℕ, ◌-◌, ◌<◌, ◌≡◌, ◌≢◌, refl, sym, ◌∙◌, ap, arith, true, false, Option, none, some, List,
  get_elem?, set, get_elem?-lt, get_elem?-set_self, get_elem?-set_ne, length, length-set, store_lem,
  ==_ne, ==_iff, inl, inr, ◌⊎◌,
}
use skynet_sy.Mq.Chain.{member, Distinct}
use skynet_sy.HashId.Table.{HashId, hashid_lookup, hashid_remove, set_hash}
use skynet_sy.HashId.Slots.{used, used-set_freed}
use skynet_sy.HashId.Chain.{Sound, lookup_chain_lem, remove_chain_lem}

abbrev pub bucket : HashId → ℕ → ℕ
bucket hi x = bit_and x hi.hashmod

-- Each node that is used stands in the chain of its id, once, and no id has two nodes.
pub record IsMap (hi : HashId) : Type 0 where
  pub width : length hi.id ≡ hi.cap
  pub filed :
      (n x : ℕ) → get_elem? hi.id n ≡ some (some x) → member (hi.hash (bucket hi x)) n ≡ true
  pub sound :
      (b n : ℕ)
      → member (hi.hash b) n ≡ true
      → (x : ℕ) × (get_elem? hi.id n ≡ some (some x)) × (bucket hi x ≡ b)
  pub distinct : (b : ℕ) → Distinct (hi.hash b)
  pub unique :
      (n m x : ℕ) → get_elem? hi.id n ≡ some (some x) → get_elem? hi.id m ≡ some (some x) → n ≡ m
  pub counted : hi.count ≡ used hi.id

pub set_cases :
    (ids : List (Option ℕ)) (n m : ℕ) (v y : Option ℕ)
    → n < length ids
    → get_elem? (set ids n v) m ≡ some y
    → ((m ≡ n) × (v ≡ y)) ⊎ ((m ≢ n) × (get_elem? ids m ≡ some y))
set_cases ids n m v y l e = elim (ℕ_discrete m n) [
  | yes same ↦ inl (
    same,
    some-injective _ _
        (sym (get_elem?-set_self ids n v l) ∙ ap (get_elem? (set ids n v)) (sym same) ∙ e),
  )
  | no other ↦ inr (other, sym (get_elem?-set_ne ids n m v (λ z. other (sym z))) ∙ e)
]

pub no_id : {x : ℕ} → none ≢ some x
no_id e = cc e

pub same_id : {x y : ℕ} → some x ≡ some y → x ≡ y
same_id e = some-injective _ _ e

module _ (hi : HashId) (v : IsMap hi) where
  pub chain-Sound : (b : ℕ) → Sound hi.id (hi.hash b)
  chain-Sound b n h = let (x, e, at_b) = v.sound b n h in (x, e)

  -- Ids that are in the map, and ids that are not
  abbrev pub Free : ℕ → Type 0
  Free id = (n : ℕ) → get_elem? hi.id n ≢ some (some id)

  module _ (id n : ℕ) (e : get_elem? hi.id n ≡ some (some id)) where
    pub lookup_run : hashid_lookup hi id ≡ some (some n)
    unfolding hashid_lookup
    lookup_run =
        lookup_chain_lem hi.id id n e (λ m em. v.unique m n id em e) (hi.hash (bucket hi id))
          (chain-Sound (bucket hi id)) (v.filed n id e)

    -- the map without the id
    removed-IsMap :
        (rest : List ℕ)
        → ((m : ℕ) → m ≢ n → member rest m ≡ member (hi.hash (bucket hi id)) m)
        → member rest n ≡ false
        → Distinct rest
        → IsMap (record hi {
          id = set hi.id n none;
          hash = set_hash hi (bucket hi id) rest;
          count = hi.count - 1;
        })
    removed-IsMap rest keeps gone d = record {
      width = length-set hi.id n none ∙ v.width;
      filed = λ m x em. elim (set_cases hi.id n m none (some x) inside em) [
        | inl p ↦ absurd (no_id p.1)
        | inr p ↦ filed m x p.0 p.1
      ];
      sound = λ b m h. sound b m h;
      distinct = λ b. elim (ℕ_discrete b (bucket hi id)) [
        | yes s ↦ rw ((==_iff b (bucket hi id)).1 s) d
        | no s ↦ rw (==_ne b (bucket hi id) s) (v.distinct b)
      ];
      unique = λ a b x ea eb. elim (set_cases hi.id n a none (some x) inside ea) [
        | inl p ↦ absurd (no_id p.1)
        | inr p ↦ elim (set_cases hi.id n b none (some x) inside eb) [
          | inl r ↦ absurd (no_id r.1)
          | inr r ↦ v.unique a b x p.1 r.1
        ]
      ];
      counted = omega (arith, v.counted, used-set_freed hi.id n id e);
    }
      where
        inside : n < length hi.id
        inside = get_elem?-lt hi.id n (some id) e

        h : ℕ
        h = bucket hi id

        filed :
            (m x : ℕ)
            → m ≢ n
            → get_elem? hi.id m ≡ some (some x)
            → member (set_hash hi (bucket hi id) rest (bucket hi x)) m ≡ true
        filed m x ne em = elim (ℕ_discrete (bucket hi x) (bucket hi id)) [
          | yes s ↦
              rw ((==_iff (bucket hi x) (bucket hi id)).1 s)
                (keeps m ne ∙ ap (λ b. member (hi.hash b) m) (sym s) ∙ v.filed m x em)
          | no s ↦ rw (==_ne (bucket hi x) (bucket hi id) s) (v.filed m x em)
        ]

        kept :
            (b m x : ℕ)
            → get_elem? hi.id m ≡ some (some x)
            → bucket hi x ≡ b
            → m ≢ n
            → (y : ℕ) × (get_elem? (set hi.id n none) m ≡ some (some y)) × (bucket hi y ≡ b)
        kept b m x em at_b ne = (x, get_elem?-set_ne hi.id n m none (λ z. ne (sym z)) ∙ em, at_b)

        sound :
            (b m : ℕ)
            → member (set_hash hi (bucket hi id) rest b) m ≡ true
            → (y : ℕ) × (get_elem? (set hi.id n none) m ≡ some (some y)) × (bucket hi y ≡ b)
        sound b m h = elim (ℕ_discrete b (bucket hi id)) [
          | yes s ↦
              let here : member rest m ≡ true = rw ((==_iff b (bucket hi id)).1 s) at h in
              let ne : m ≢ n = λ z. cc (sym gone ∙ ap (member rest) (sym z) ∙ here) in
              let (x, em, at_b) = v.sound (bucket hi id) m (sym (keeps m ne) ∙ here) in
              kept b m x em (at_b ∙ sym s) ne
          | no s ↦
              let (x, em, at_b) = v.sound b m (rw (==_ne b (bucket hi id) s) at h) in
              kept b m x em at_b (λ z. s (
                sym at_b
                ∙ ap (bucket hi)
                    (same_id (some-injective _ _ (sym em ∙ ap (get_elem? hi.id) z ∙ e)))))
        ]

    pub remove_run :
        (hi' : HashId) × (hashid_remove hi id ≡ some (some n, hi'))
        × (hi'.id ≡ set hi.id n none)
        × IsMap hi'
    unfolding hashid_remove
    remove_run =
        let (rest, run, keeps, gone, d) =
          remove_chain_lem hi.id id n e (λ m em. v.unique m n id em e) (hi.hash (bucket hi id))
            (chain-Sound (bucket hi id)) (v.distinct (bucket hi id)) (v.filed n id e) in
        (
          _,
          rw (run, store_lem hi.id n none (get_elem?-lt hi.id n (some id) e)) refl,
          refl,
          removed-IsMap rest keeps gone d,
        )
