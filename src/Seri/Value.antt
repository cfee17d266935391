-- ===== src/Seri/Value.antt =====
-- Lua values as lua-seri.c meets them through the Lua API. Integers, reals and pointers are their
-- words of 64 bits, two's complement and IEEE; strings are their bytes.
use skynet_sy.Common.{ℕ, suc, ◌%◌, ◌^◌, Bool, false, ◌&&◌, List, ltb, leb}

-- `table` has the items 1 to `lua_rawlen` and the pairs that `lua_next` gives, in its order;
-- `paired` is a table with the metafield `__pairs` and the pairs that its iteration gives up to the
-- nil key. `unsupported` is a function, a thread or a full userdata.
mutual
  pub data Value : Type 0 where
    nil : Value
    boolean : Bool → Value
    integer : ℕ → Value
    real : ℕ → Value
    pointer : ℕ → Value
    string : List ℕ → Value
    table : Items → Pairs → Value
    paired : Pairs → Value
    unsupported : Value

  pub data Items : Type 0 where
    no_items : Items
    item : Value → Items → Items

  pub data Pairs : Type 0 where
    no_pairs : Pairs
    pair : Value → Value → Pairs → Pairs

abbrev pub raw_len : Items → ℕ
raw_len no_items = 0
raw_len (item v items) = suc (raw_len items)

-- The key of an item of the array: x > 0 && x <= array_size, for a signed x
abbrev pub skipped : ℕ → Value → Bool
skipped n (integer x) = ltb 0 x && ltb x (2 ^ 63) && leb x n
skipped n nil = false
skipped n (boolean b) = false
skipped n (real x) = false
skipped n (pointer x) = false
skipped n (string s) = false
skipped n (table items pairs) = false
skipped n (paired pairs) = false
skipped n unsupported = false

-- A key that is a NaN: the exponent has all bits, and the mantissa some.
abbrev pub is_nan : Value → Bool
is_nan (real x) = ltb 0x7ff0000000000000 (x % 2 ^ 63)
is_nan nil = false
is_nan (boolean b) = false
is_nan (integer x) = false
is_nan (pointer x) = false
is_nan (string s) = false
is_nan (table items pairs) = false
is_nan (paired pairs) = false
is_nan unsupported = false
