-- ===== src/HashId/Examples.antt =====
-- The map of ids at concrete inputs.
use skynet_sy.Common.{
  false, arith, ℕ, ◌≡◌, refl, sym, ◌∙◌, ap, Option, none, some, get_elem?, set, [], ◌∷◌, replicate,
  subst, ◌==◌, if◌then◌else◌,
}
use skynet_sy.HashId.Table.{
  HashId, hashid_lookup, hashid_remove, hashid_insert, hashid_full, find_free,
}
use skynet_sy.HashId.Map.{IsMap}
use skynet_sy.HashId.Insert.{hashid_present_lem, hashid_new_lem}
use skynet_sy.HashId.Fresh.{fresh-IsMap, fresh_free}

-- three connections
abbrev fresh : HashId
fresh = record { hashmod = 15; cap = 3; count = 0; id = replicate 3 none; hash = λ h. [] }

not_full : hashid_full fresh ≡ false
unfolding hashid_full
not_full = refl

hashid_new_lem_example :
    (hashid_lookup fresh 20 ≡ some none)
    × (hashid_remove fresh 20 ≡ some (none, fresh))
    × ((n : ℕ) × (hi' : HashId) × (hashid_insert fresh 20 ≡ some (n, hi'))
        × (get_elem? fresh.id n ≡ some none)
        × (hi'.id ≡ set fresh.id n (some 20))
        × IsMap hi')
hashid_new_lem_example =
    hashid_new_lem fresh (fresh-IsMap 15 3) 20 (λ n. fresh_free 3 n 20) not_full (omega arith)

-- 20 % 3 = 2
abbrev one : HashId
one = record fresh {
  count = 1;
  id = none ∷ none ∷ some 20 ∷ [];
  hash = λ b. if b == 4 then 2 ∷ [] else [];
}

insert_run : hashid_insert fresh 20 ≡ some (2, one)
unfolding hashid_insert find_free
insert_run = refl

inserted :
    (n : ℕ) × (hi' : HashId) × (hashid_insert fresh 20 ≡ some (n, hi'))
    × (get_elem? fresh.id n ≡ some none)
    × (hi'.id ≡ set fresh.id n (some 20))
    × IsMap hi'
inserted =
    (hashid_new_lem fresh (fresh-IsMap 15 3) 20 (λ n. fresh_free 3 n 20) not_full (omega arith)).2

abbrev after_insert : Option (ℕ × HashId) → HashId
after_insert none = fresh
after_insert (some r) = r.1

one-IsMap : IsMap one
one-IsMap = subst IsMap (ap after_insert (sym inserted.2 ∙ insert_run)) inserted.5

hashid_present_lem_example :
    (hashid_lookup one 20 ≡ some (some 2))
    × ((hi' : HashId) × (hashid_remove one 20 ≡ some (some 2, hi'))
        × (hi'.id ≡ set one.id 2 none)
        × IsMap hi')
hashid_present_lem_example = hashid_present_lem one one-IsMap 20 2 refl
