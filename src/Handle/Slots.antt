-- ===== src/Handle/Slots.antt =====
-- skynet-1.2.0/skynet-src/skynet_handle.c: the slots of `struct handle_storage`. A context is a
-- pointer, that is, a number; `handle_of` reads the field `handle` of the context at a pointer
-- (`skynet_context_handle`), and is `none` at a pointer to no context.
use Prim.Native.Nat.{bit_and, bit_or}
use skynet_sy.Common.{
  ℕ, zero, suc, ◌+◌, ◌-◌, ◌*◌, ◌^◌, Option, none, some, List, [], ◌∷◌, get_elem?, replicate, ltb,
  leb, ◌==◌, if◌then◌else◌, ◌>>=◌, ◌>>◌, assert, is_null, store,
}
use skynet_sy.Handle.Names.{NameTable, names_init, drop_names}

abbrev pub default_slot_size : ℕ
default_slot_size = 4

abbrev pub handle_mask : ℕ
handle_mask = 0xffffff

abbrev pub handle_remote_shift : ℕ
handle_remote_shift = 24

-- `struct handle_storage`, without the lock. A slot may be null.
pub record Storage : Type 0 where
  pub harbor : ℕ
  pub handle_index : ℕ
  pub slot_size : ℕ
  pub slot : List (Option ℕ)
  pub names : NameTable

-- (uint32_t)(harbor & 0xff) << HANDLE_REMOTE_SHIFT
unfoldable pub handle_init : ℕ → Storage
handle_init harbor = record {
  harbor = bit_and harbor 0xff * 2 ^ handle_remote_shift;
  handle_index = 1;
  slot_size = default_slot_size;
  slot = replicate default_slot_size none;
  names = names_init;
}

-- the handle that a round of the scan looks at; 0 is reserved
abbrev pub wrap_handle : ℕ → ℕ
wrap_handle handle = if ltb handle_mask handle then 1 else handle

-- for (i = 0; i < slot_size; i++, handle++): the first handle whose slot is free, if there is one
unfoldable pub scan : ℕ → ℕ → List (Option ℕ) → ℕ → Option (Option ℕ)
scan size zero slots handle = some none
scan size (suc n) slots handle =
    get_elem? slots (bit_and (wrap_handle handle) (size - 1)) >>= λ cell. elim cell [
      | none ↦ some (some (wrap_handle handle))
      | some c ↦ scan size n slots (wrap_handle handle + 1)
    ]

module _ (handle_of : ℕ → Option ℕ) where
  -- for (i = 0; i < slot_size; i++): each context goes to its place in an array of twice the size.
  -- The list is `slot[i..]`; a null slot is dereferenced.
  unfoldable pub rehash : ℕ → List (Option ℕ) → List (Option ℕ) → Option (List (Option ℕ))
  rehash size [] new = some new
  rehash size (cell ∷ slots) new = do
    c ← cell
    h ← handle_of c
    old ← get_elem? new (bit_and h (size * 2 - 1))
    assert (is_null old)
    new' ← store new (bit_and h (size * 2 - 1)) (some c)
    rehash size slots new'

  -- for (;;), on fuel: the handle returned, and the storage
  unfoldable pub handle_register : ℕ → Storage → ℕ → Option (ℕ × Storage)
  unfolding rehash scan
  handle_register zero s ctx = none
  handle_register (suc fuel) s ctx = scan s.slot_size s.slot_size s.slot s.handle_index >>= λ found.
      elim found [
        | some handle ↦ store s.slot (bit_and handle (s.slot_size - 1)) (some ctx) >>= λ slots.
            some (bit_or handle s.harbor, record s { slot = slots; handle_index = handle + 1 })
        | none ↦ do
          assert (leb (s.slot_size * 2 - 1) handle_mask)
          new ← rehash s.slot_size s.slot (replicate (s.slot_size * 2) none)
          handle_register fuel (record s { slot = new; slot_size = s.slot_size * 2 }) ctx
      ]

  -- the context with this handle, if it is registered
  unfoldable pub handle_find : Storage → ℕ → Option (Option ℕ)
  handle_find s handle = get_elem? s.slot (bit_and handle (s.slot_size - 1)) >>= λ cell. elim cell [
    | none ↦ some none
    | some c ↦ handle_of c >>= λ h. some (if h == handle then some c else none)
  ]

  -- `skynet_handle_retire`, with the context that it then releases: none for the result 0
  unfoldable pub handle_retire : Storage → ℕ → Option (Option ℕ × Storage)
  handle_retire s handle =
      let hash = bit_and handle (s.slot_size - 1) in
      get_elem? s.slot hash >>= λ cell. elim cell [
        | none ↦ some (none, s)
        | some c ↦ handle_of c >>= λ h.
            if h == handle
            then (do
              slots ← store s.slot hash none
              some (
                some c,
                record s {
                  slot = slots;
                  names = record s.names { entries = drop_names handle s.names.entries };
                },
              ))
            else some (none, s)
      ]
