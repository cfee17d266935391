-- ===== src/HashId/Table.antt =====
-- skynet-1.2.0/service-src/hashid.h: `struct hashid` and its functions. A pointer to a node is its
-- index in the array of nodes, and the field `next` of the nodes is read as the list of the nodes of
-- a chain. `none` as a result is an access out of bounds or a failed assert.
use Prim.Native.Nat.{bit_and}
use skynet_sy.Common.{
  ℕ, zero, suc, ◌+◌, ◌-◌, ◌%◌, Bool, true, false, Option, none, some, List, [], ◌∷◌, ◌==◌, ltb,
  if◌then◌else◌, ◌>>=◌, get_elem?, replicate, store, mul_int, add_int, is_null,
}

-- An id is none for -1. `hash` gives the chain of each index up to `hashmod`.
pub record HashId : Type 0 where
  pub hashmod : ℕ
  pub cap : ℕ
  pub count : ℕ
  pub id : List (Option ℕ)
  pub hash : ℕ → List ℕ

-- while (hashcap < max), on fuel
unfoldable pub hashcap_loop : ℕ → ℕ → ℕ → Option ℕ
hashcap_loop zero hashcap max = none
hashcap_loop (suc fuel) hashcap max = elim (ltb hashcap max) as (λ _. Option ℕ) [
  | true ↦ mul_int hashcap 2 >>= λ twice. hashcap_loop fuel twice max
  | false ↦ some hashcap
]

unfoldable pub hashid_init : ℕ → Option HashId
hashid_init max = do
  hashcap ← hashcap_loop (suc max) 16 max
  some (record {
    hashmod = hashcap - 1;
    cap = max;
    count = 0;
    id = replicate max none;
    hash = λ h. [];
  })

unfoldable pub hashid_clear : HashId → HashId
hashid_clear hi = record { hashmod = 1; cap = 0; count = 0; id = []; hash = λ h. [] }

abbrev pub is_id : Option ℕ → ℕ → Bool
is_id none id = false
is_id (some x) id = x == id

-- while(c): the node with this id, or null
unfoldable pub lookup_chain : List (Option ℕ) → ℕ → List ℕ → Option (Option ℕ)
lookup_chain ids id [] = some none
lookup_chain ids id (c ∷ chain) =
    let rest = lookup_chain ids id chain in
    get_elem? ids c >>= λ x. if is_id x id then some (some c) else rest

-- the index, or none for -1
unfoldable pub hashid_lookup : HashId → ℕ → Option (Option ℕ)
hashid_lookup hi id = lookup_chain hi.id id (hi.hash (bit_and id hi.hashmod))

abbrev pub put_back : ℕ → Option (ℕ × List ℕ) → Option (ℕ × List ℕ)
put_back c none = none
put_back c (some r) = some (r.0, c ∷ r.1)

-- the node with this id, taken out of the chain
unfoldable pub remove_chain : List (Option ℕ) → ℕ → List ℕ → Option (Option (ℕ × List ℕ))
remove_chain ids id [] = some none
remove_chain ids id (c ∷ chain) =
    let rest = remove_chain ids id chain >>= λ r. some (put_back c r) in
    get_elem? ids c >>= λ x. if is_id x id then some (some (c, chain)) else rest

abbrev pub set_hash : HashId → ℕ → List ℕ → ℕ → List ℕ
set_hash hi h chain b = if b == h then chain else hi.hash b

unfoldable pub hashid_remove : HashId → ℕ → Option (Option ℕ × HashId)
hashid_remove hi id =
    let h = bit_and id hi.hashmod in
    remove_chain hi.id id (hi.hash h) >>= λ found. elim found as (λ _. Option (Option ℕ × HashId)) [
      | none ↦ some (none, hi)
      | some r ↦ do
        ids ← store hi.id r.0 none
        some (some r.0, record hi { id = ids; hash = set_hash hi h r.1; count = hi.count - 1 })
    ]

-- for (i=0;i<hi->cap;i++): the first free node, from `i` on
unfoldable pub find_free : ℕ → ℕ → List (Option ℕ) → ℕ → ℕ → Option (Option ℕ)
find_free zero i ids cap id = some none
find_free (suc n) i ids cap id =
    let rest = find_free n (i + 1) ids cap id in
    add_int i id >>= λ s.
    get_elem? ids (s % cap) >>= λ x. if is_null x then some (some (s % cap)) else rest

unfoldable pub hashid_insert : HashId → ℕ → Option (ℕ × HashId)
hashid_insert hi id = do
  found ← find_free hi.cap 0 hi.id hi.cap id
  c ← found
  ids ← store hi.id c (some id)
  let h = bit_and id hi.hashmod
  some (c, record hi { id = ids; hash = set_hash hi h (c ∷ hi.hash h); count = hi.count + 1 })

unfoldable pub hashid_full : HashId → Bool
hashid_full hi = hi.count == hi.cap
