-- ===== src/HashId/Insert.antt =====
-- The insertion into `struct hashid`, and its operations together.
use mathlib.Core.Option.{some-injective}
use native.Mathlib.Decide.{ℕ_discrete}
use skynet_sy.Common.{
  ℕ, ◌+◌, ◌^◌, ◌<◌, ◌≤◌, ◌≡◌, ◌≢◌, refl, sym, ◌∙◌, ap, arith, true, false, none, some, List, ◌∷◌,
  get_elem?, set, get_elem?-lt, get_elem?-set_self, get_elem?-set_ne, length, length-set, store_lem,
  ==_refl, ==_ne, ==_iff, Bool-cases, inl, inr,
}
use skynet_sy.Mq.Chain.{member}
use skynet_sy.HashId.Table.{
  HashId, hashid_lookup, hashid_remove, hashid_insert, hashid_full, set_hash,
}
use skynet_sy.HashId.Slots.{used-le, used-set_filled, find_free_lem}
use skynet_sy.HashId.Chain.{member_head, member_tail, lookup_chain-Absent, remove_chain-Absent}
use skynet_sy.HashId.Map.{
  IsMap, bucket, Free, set_cases, no_id, same_id, chain-Sound, lookup_run, remove_run,
}

module _ (hi : HashId) (v : IsMap hi) (id : ℕ) (new : Free hi v id) where
  -- the map with the id at `n`
  module _ (n : ℕ) (free : get_elem? hi.id n ≡ some none) where
    inside : n < length hi.id
    inside = get_elem?-lt hi.id n none free

    unchained : (b : ℕ) → member (hi.hash b) n ≡ false
    unchained b = elim (Bool-cases (member (hi.hash b) n)) [
      | inl listed ↦
          let (x, e, at_b) = v.sound b n listed in
          absurd (no_id (some-injective _ _ (sym free ∙ e)))
      | inr away ↦ away
    ]

    abbrev chain : List ℕ
    chain = n ∷ hi.hash (bucket hi id)

    inserted_filed :
        (m x : ℕ)
        → get_elem? (set hi.id n (some id)) m ≡ some (some x)
        → member (set_hash hi (bucket hi id) chain (bucket hi x)) m ≡ true
    inserted_filed m x em = elim (set_cases hi.id n m (some id) (some x) inside em) [
      | inl p ↦
          rw (sym (same_id p.1), p.0, ==_refl (bucket hi id))
            (member_head n (hi.hash (bucket hi id)))
      | inr p ↦ elim (ℕ_discrete (bucket hi x) (bucket hi id)) [
        | yes s ↦ rw ((==_iff (bucket hi x) (bucket hi id)).1 s) (
            member_tail n m (hi.hash (bucket hi id))
              (ap (λ b. member (hi.hash b) m) (sym s) ∙ v.filed m x p.1))
        | no s ↦ rw (==_ne (bucket hi x) (bucket hi id) s) (v.filed m x p.1)
      ]
    ]

    -- a node of the old map
    older :
        (b m : ℕ)
        → member (hi.hash b) m ≡ true
        → (y : ℕ) × (get_elem? (set hi.id n (some id)) m ≡ some (some y)) × (bucket hi y ≡ b)
    older b m h =
        let (x, em, at_b) = v.sound b m h in
        (
          x,
          get_elem?-set_ne hi.id n m (some id)
                (λ z. cc (sym (unchained b) ∙ ap (member (hi.hash b)) z ∙ h))
              ∙ em,
          at_b,
        )

    inserted_sound :
        (b m : ℕ)
        → member (set_hash hi (bucket hi id) chain b) m ≡ true
        → (y : ℕ) × (get_elem? (set hi.id n (some id)) m ≡ some (some y)) × (bucket hi y ≡ b)
    inserted_sound b m h = elim (ℕ_discrete b (bucket hi id)) [
      | no s ↦ older b m (rw (==_ne b (bucket hi id) s) at h)
      | yes s ↦ elim (ℕ_discrete m n) [
        | yes t ↦ (
          id,
          ap (get_elem? (set hi.id n (some id))) t ∙ get_elem?-set_self hi.id n (some id) inside,
          sym s,
        )
        | no t ↦
            let listed : member chain m ≡ true = rw ((==_iff b (bucket hi id)).1 s) at h in
            older b m
              (ap (λ z. member (hi.hash z) m) s ∙ (rw (==_ne n m (λ z. t (sym z))) at listed))
      ]
    ]

    inserted_unique :
        (a b x : ℕ)
        → get_elem? (set hi.id n (some id)) a ≡ some (some x)
        → get_elem? (set hi.id n (some id)) b ≡ some (some x)
        → a ≡ b
    inserted_unique a b x ea eb = elim (set_cases hi.id n a (some id) (some x) inside ea) [
      | inl p ↦ elim (set_cases hi.id n b (some id) (some x) inside eb) [
        | inl r ↦ p.0 ∙ sym r.0
        | inr r ↦ absurd (new b (r.1 ∙ ap some (sym p.1)))
      ]
      | inr p ↦ elim (set_cases hi.id n b (some id) (some x) inside eb) [
        | inl r ↦ absurd (new a (p.1 ∙ ap some (sym r.1)))
        | inr r ↦ v.unique a b x p.1 r.1
      ]
    ]

    inserted-IsMap : IsMap (record hi {
      id = set hi.id n (some id);
      hash = set_hash hi (bucket hi id) chain;
      count = hi.count + 1;
    })
    inserted-IsMap = record {
      width = length-set hi.id n (some id) ∙ v.width;
      filed = inserted_filed;
      sound = inserted_sound;
      distinct = λ b. elim (ℕ_discrete b (bucket hi id)) [
        | yes s ↦
            rw ((==_iff b (bucket hi id)).1 s) (unchained (bucket hi id), v.distinct (bucket hi id))
        | no s ↦ rw (==_ne b (bucket hi id) s) (v.distinct b)
      ];
      unique = inserted_unique;
      counted = omega (arith, v.counted, used-set_filled hi.id n id free);
    }

  insert_run :
      hi.count < hi.cap
      → id + hi.cap ≤ 2 ^ 31
      → (n : ℕ) × (hi' : HashId) × (hashid_insert hi id ≡ some (n, hi'))
        × (get_elem? hi.id n ≡ some none)
        × (hi'.id ≡ set hi.id n (some id))
        × IsMap hi'
  unfolding hashid_insert
  insert_run room small =
      let (n, run, free) =
        find_free_lem hi.id hi.cap id v.width (omega (arith, room, v.counted)) small in
      (
        n,
        _,
        rw (run, store_lem hi.id n (some id) (get_elem?-lt hi.id n none free)) refl,
        free,
        refl,
        inserted-IsMap n free,
      )

  pub missing_run : (hashid_lookup hi id ≡ some none) × (hashid_remove hi id ≡ some (none, hi))
  unfolding hashid_lookup hashid_remove
  missing_run = (
    lookup_chain-Absent hi.id id (hi.hash (bucket hi id)) (chain-Sound hi v (bucket hi id))
        (λ n h. new n),
    rw
        (remove_chain-Absent hi.id id (hi.hash (bucket hi id)) (chain-Sound hi v (bucket hi id))
          (λ n h. new n))
        refl,
  )

-- In a map of ids where each used node stands in the chain of its id once and no id has two nodes,
-- an id that has a node is found at its index; its removal gives that index, frees this node and
-- no other, and keeps the map in order.
pub hashid_present_lem :
    (hi : HashId) (v : IsMap hi) (id n : ℕ)
    → get_elem? hi.id n ≡ some (some id)
    → (hashid_lookup hi id ≡ some (some n))
      × ((hi' : HashId) × (hashid_remove hi id ≡ some (some n, hi'))
          × (hi'.id ≡ set hi.id n none)
          × IsMap hi')
hashid_present_lem hi v id n e = (lookup_run hi v id n e, remove_run hi v id n e)

-- In a map of ids where each used node stands in the chain of its id once and no id has two nodes,
-- an id that has no node is not found and its removal changes nothing; if the map is not full and
-- the id and its capacity together are at most 2^31, the insertion of it ends without a fault at
-- an index that was free, puts the id there and nothing else, and keeps the map in order.
pub hashid_new_lem :
    (hi : HashId) (v : IsMap hi) (id : ℕ)
    → Free hi v id
    → hashid_full hi ≡ false
    → id + hi.cap ≤ 2 ^ 31
    → (hashid_lookup hi id ≡ some none)
      × (hashid_remove hi id ≡ some (none, hi))
      × ((n : ℕ) × (hi' : HashId) × (hashid_insert hi id ≡ some (n, hi'))
          × (get_elem? hi.id n ≡ some none)
          × (hi'.id ≡ set hi.id n (some id))
          × IsMap hi')
unfolding hashid_full
hashid_new_lem hi v id new room small =
    let apart : hi.count ≢ hi.cap = λ e. cc (sym ((==_iff hi.count hi.cap).1 e) ∙ room) in
    (
      (missing_run hi v id new).0,
      (missing_run hi v id new).1,
      insert_run hi v id new (omega (arith, used-le hi.id, v.counted, v.width, apart)) small,
    )
