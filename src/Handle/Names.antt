-- ===== src/Handle/Names.antt =====
-- skynet-1.2.0/skynet-src/skynet_handle.c: the names of services, an array sorted by name. A name is
-- the list of its bytes; `strcmp` of the C library is a parameter.
use skynet_sy.Common.{
  ℕ, zero, suc, ◌+◌, ◌-◌, ◌/◌, Bool, true, false, Option, none, some, List, [], ◌∷◌, get_elem?, ltb,
  leb, ◌==◌, if◌then◌else◌, ◌>>=◌, ◌>>◌, assert, length, mul_int,
}

-- the sign of a result of `strcmp`
pub data Sign : Type 0 where
  negative equal positive : Sign

abbrev pub Name : Type 0
Name = List ℕ

-- `struct handle_name`
pub record HandleName : Type 0 where
  pub name : Name
  pub handle : ℕ

-- The fields `name_cap`, `name_count` and `name`. The entries in use are the list, so that
-- `name_count` is its length.
pub record NameTable : Type 0 where
  pub name_cap : ℕ
  pub entries : List HandleName

abbrev pub max_slot_size : ℕ
max_slot_size = 0x40000000

unfoldable pub names_init : NameTable
names_init = record { name_cap = 2; entries = [] }

-- s->name[before], with the entries from there on moved up by one
abbrev pub insert_at {ℓ} : {A : Type ℓ} → List A → ℕ → A → Option (List A)
insert_at xs zero v = some (v ∷ xs)
insert_at [] (suc i) v = none
insert_at (x ∷ xs) (suc i) v = insert_at xs i v >>= λ ys. some (x ∷ ys)

-- `_insert_name_before`
unfoldable pub insert_name_before : NameTable → Name → ℕ → ℕ → Option NameTable
insert_name_before t name handle before = do
  cap ←
      if leb t.name_cap (length t.entries)
      then (do cap2 ← mul_int t.name_cap 2; assert (leb cap2 max_slot_size); some cap2)
      else some t.name_cap
  entries ← insert_at t.entries before (record { name = name; handle = handle })
  some (record { name_cap = cap; entries = entries })

-- The outcome of a binary search: the entry, or the place for a new one.
pub data Found : Type 0 where
  at_entry : HandleName → Found
  at_gap : ℕ → Found

module _ (strcmp : Name → Name → Sign) where
  -- while (begin <= end) { … }, on fuel. `end` is one less than the argument `stop`, so that it is
  -- a natural number where the C variable is -1: `begin <= end` is `begin < stop`, and `mid` is
  -- (begin + (stop - 1)) / 2.
  unfoldable pub search_name : ℕ → List HandleName → Name → ℕ → ℕ → Option Found
  search_name zero entries name begin stop = none
  search_name (suc fuel) entries name begin stop = elim (ltb begin stop) [
    | false ↦ some (at_gap begin)
    | true ↦
        let mid = (begin + (stop - 1)) / 2 in
        get_elem? entries mid >>= λ n. elim (strcmp n.name name) [
          | equal ↦ some (at_entry n)
          | negative ↦ search_name fuel entries name (mid + 1) stop
          | positive ↦ search_name fuel entries name begin mid
        ]
  ]

  -- the handle, or 0
  unfoldable pub handle_findname : NameTable → Name → Option ℕ
  unfolding search_name
  handle_findname t name =
      search_name (suc (length t.entries)) t.entries name 0 (length t.entries) >>= λ r. elim r [
        | at_entry n ↦ some n.handle
        | at_gap i ↦ some 0
      ]

  -- `_insert_name`, called by `skynet_handle_namehandle`: `false` is the null pointer, for a name
  -- that is taken.
  unfoldable pub handle_namehandle : NameTable → ℕ → Name → Option (Bool × NameTable)
  unfolding search_name insert_name_before
  handle_namehandle t handle name =
      search_name (suc (length t.entries)) t.entries name 0 (length t.entries) >>= λ r. elim r [
        | at_entry n ↦ some (false, t)
        | at_gap i ↦ insert_name_before t name handle i >>= λ t'. some (true, t')
      ]

-- The loop of `skynet_handle_retire` that keeps the names of the other handles, in order.
unfoldable pub drop_names : ℕ → List HandleName → List HandleName
drop_names handle [] = []
drop_names handle (n ∷ ns) =
    let rest = drop_names handle ns in if n.handle == handle then rest else n ∷ rest
