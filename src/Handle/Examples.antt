-- ===== src/Handle/Examples.antt =====
-- Runs of the handle table on concrete inputs, and the theorems at such inputs.
use mathlib.Core.Option.{some-injective}
use skynet_sy.Common.{
  ℕ, zero, suc, ◌+◌, ◌*◌, ◌%◌, ◌^◌, ◌<◌, ◌≡◌, ◌≢◌, refl, sym, ap, arith, Bool, true, false, Option,
  none, some, [], ◌∷◌, ◌==◌, if◌then◌else◌, get_elem?, ◌⊎◌, ◌↔◌, ltb,
}
use skynet_sy.Handle.Names.{
  Sign, negative, equal, positive, Name, HandleName, NameTable, handle_namehandle,
}
use skynet_sy.Handle.Search.{IsOrder}
use skynet_sy.Handle.Naming.{IsNameTable, Named, Unnamed, NamesAdded, handle_namehandle_lem}
use skynet_sy.Handle.Slots.{Storage, scan, rehash, handle_register, handle_retire}
use skynet_sy.Handle.Register.{IsStorage, Present}
use skynet_sy.Handle.Retire.{NamesLeft, handle_retire_lem}
use skynet_sy.Handle.Install.{Registered, handle_register_lem}

-- `strcmp` on lists of bytes
abbrev strcmp : Name → Name → Sign
strcmp [] [] = equal
strcmp [] (b ∷ bs) = negative
strcmp (a ∷ as') [] = positive
strcmp (a ∷ as') (b ∷ bs) = if a == b then strcmp as' bs else if ltb a b then negative else positive

strcmp_iff : (a b : Name) → (strcmp a b ≡ equal) ↔ (a ≡ b)
strcmp_iff [] [] = (λ e. refl, λ e. refl)
strcmp_iff [] (b ∷ bs) = (λ e. cc, λ e. cc)
strcmp_iff (a ∷ as') [] = (λ e. cc, λ e. cc)
strcmp_iff (a ∷ as') (b ∷ bs) =
    let ih = strcmp_iff as' bs in (λ e. ground (arith, ih), λ e. ground (arith, ih))

strcmp_flip : (a b : Name) → (strcmp a b ≡ negative) ↔ (strcmp b a ≡ positive)
strcmp_flip [] [] = (λ e. cc, λ e. cc)
strcmp_flip [] (b ∷ bs) = (λ e. refl, λ e. refl)
strcmp_flip (a ∷ as') [] = (λ e. cc, λ e. cc)
strcmp_flip (a ∷ as') (b ∷ bs) =
    let ih = strcmp_flip as' bs in (λ e. ground (arith, ih), λ e. ground (arith, ih))

strcmp_trans :
    (a b c : Name) → strcmp a b ≡ negative → strcmp b c ≡ negative → strcmp a c ≡ negative
strcmp_trans [] [] c p q = cc
strcmp_trans [] (b ∷ bs) [] p q = cc
strcmp_trans [] (b ∷ bs) (c ∷ cs) p q = refl
strcmp_trans (a ∷ as') [] c p q = cc
strcmp_trans (a ∷ as') (b ∷ bs) [] p q = cc
strcmp_trans (a ∷ as') (b ∷ bs) (c ∷ cs) p q = ground (arith, strcmp_trans as' bs cs)

strcmp-IsOrder : IsOrder strcmp
strcmp-IsOrder = record { equal_iff = strcmp_iff; flip = strcmp_flip; trans = strcmp_trans }

-- a table with one name
abbrev one_name : NameTable
one_name = record { name_cap = 2; entries = record { name = 98 ∷ []; handle = 17 } ∷ [] }

one_name-IsNameTable : IsNameTable strcmp strcmp-IsOrder one_name
one_name-IsNameTable = record { sorted = sorted; fits = omega arith; room = omega arith }
  where
    sorted :
        (i j : ℕ) (a b : HandleName)
        → i < j
        → get_elem? one_name.entries i ≡ some a
        → get_elem? one_name.entries j ≡ some b
        → strcmp a.name b.name ≡ negative
    sorted i zero a b lt ea eb = absurd (omega arith)
    sorted i (suc j) a b lt ea eb = cc

handle_namehandle_lem_example :
    (done : Bool) × (t' : NameTable) × (handle_namehandle strcmp one_name 33 (97 ∷ [])
      ≡ some (done, t'))
    × IsNameTable strcmp strcmp-IsOrder t'
    × (((done ≡ false)
          × (t' ≡ one_name)
          × ((h : ℕ) × Named strcmp strcmp-IsOrder one_name (97 ∷ []) h))
        ⊎ ((done ≡ true)
            × Unnamed strcmp strcmp-IsOrder one_name (97 ∷ [])
            × NamesAdded strcmp strcmp-IsOrder one_name t' (97 ∷ []) 33))
handle_namehandle_lem_example =
    handle_namehandle_lem strcmp strcmp-IsOrder one_name 33 (97 ∷ []) one_name-IsNameTable
      (omega arith)

name_goes_first :
    handle_namehandle strcmp one_name 33 (97 ∷ [])
    ≡ some (
      true,
      record one_name {
        entries =
            record { name = 97 ∷ []; handle = 33 } ∷ record { name = 98 ∷ []; handle = 17 } ∷ [];
      },
    )
unfolding handle_namehandle
name_goes_first = refl

-- a full table of one slot, with the context 100 under the handle 5
abbrev five : ℕ → Option ℕ
five c = if c == 100 then some 5 else none

abbrev full_table : Storage
full_table = record {
  harbor = 2 ^ 24;
  handle_index = 6;
  slot_size = 1;
  slot = some 100 ∷ [];
  names = one_name;
}

full_table-IsStorage : IsStorage five 0 full_table
full_table-IsStorage = record { size = refl; width = refl; placed = placed }
  where
    placed :
        (i c : ℕ)
        → get_elem? full_table.slot i ≡ some (some c)
        → (h : ℕ) × (five c ≡ some h) × (h % 1 ≡ i)
    placed zero c e = (5, ap five (sym (some-injective _ _ (some-injective _ _ e))), refl)
    placed (suc i) c e = cc

no_other : (i : ℕ) → get_elem? full_table.slot i ≢ some (some 200)
no_other zero e = absurd (omega (arith, some-injective _ _ (some-injective _ _ e)))
no_other (suc i) e = cc

register_doubles :
    handle_register five 2 full_table 200
    ≡ some (
      2 ^ 24 + 6,
      record full_table { handle_index = 7; slot_size = 2; slot = some 200 ∷ some 100 ∷ [] },
    )
unfolding handle_register
register_doubles = refl

handle_register_lem_example :
    (h : ℕ) × (s' : Storage) × (handle_register five 2 full_table 200 ≡ some (1 * 2 ^ 24 + h, s'))
    × Registered five 1 200 full_table s' h
handle_register_lem_example =
    handle_register_lem five 1 200 0 0 full_table full_table-IsStorage (omega arith) refl
      (omega arith) no_other

handle_retire_lem_example :
    (r : Option ℕ) × (s' : Storage) × (handle_retire five full_table 5 ≡ some (r, s'))
    × IsStorage five 0 s'
    × NamesLeft strcmp strcmp-IsOrder r 5 full_table.names s'.names
    × ((c : ℕ)
        → ((r ≡ some c) ↔ (Present five full_table c × (five c ≡ some 5)))
          × (Present five s' c ↔ (Present five full_table c × (five c ≢ some 5))))
handle_retire_lem_example =
    handle_retire_lem five 0 full_table 5 full_table-IsStorage strcmp strcmp-IsOrder
      one_name-IsNameTable

-- The scan that passes the last handle does not look at slot 0; the growth then reads a null slot.
abbrev wrapping : Storage
wrapping = record {
  harbor = 0;
  handle_index = 0xffffff;
  slot_size = 4;
  slot = none ∷ some 1 ∷ some 2 ∷ some 3 ∷ [];
  names = one_name;
}

wrap_misses_slot : (fuel : ℕ) → handle_register (λ c. some c) (suc fuel) wrapping 9 ≡ none
unfolding handle_register scan rehash
wrap_misses_slot fuel = refl
