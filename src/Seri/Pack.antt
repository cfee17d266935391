-- ===== src/Seri/Pack.antt =====
-- skynet-1.2.0/lualib-src/lua-seri.c: `luaseri_pack`. `none` is a Lua error or an overflow of an `int`; the host is
-- little-endian with words of 64 bits.
use Prim.Native.Nat.{bit_or}
use skynet_sy.Common.{
  ℕ, ◌+◌, ◌-◌, ◌*◌, ◌%◌, ◌^◌, Bool, true, false, not, Option, none, some, List, [], ◌∷◌, ◌==◌,
  if◌then◌else◌, ◌>>=◌, ◌>>◌, assert, ltb, leb, length,
}
use skynet_sy.Common.Bytes.{le_bytes}
use skynet_sy.Seri.Block.{WriteBlock, wb_push, wb_init, seri}
use skynet_sy.Seri.Value.{
  Value, Items, Pairs, nil, boolean, integer, real, pointer, string, table, paired, unsupported,
  no_items, item, no_pairs, pair, raw_len, skipped,
}

abbrev pub max_cookie : ℕ
max_cookie = 32

abbrev pub max_depth : ℕ
max_depth = 32

-- the byte `(t) | (v) << 3`
abbrev pub combine_type : ℕ → ℕ → ℕ
combine_type t v = bit_or t (v * 2 ^ 3) % 2 ^ 8

unfoldable pub wb_nil : WriteBlock → Option WriteBlock
wb_nil wb = wb_push wb (0 ∷ [])

unfoldable pub wb_boolean : WriteBlock → Bool → Option WriteBlock
wb_boolean wb b = wb_push wb (combine_type 1 (if b then 1 else 0) ∷ [])

-- (lua_Integer)(int32_t)v
abbrev pub sign_extend : ℕ → ℕ
sign_extend v = if ltb (v % 2 ^ 32) (2 ^ 31) then v % 2 ^ 32 else v % 2 ^ 32 + (2 ^ 64 - 2 ^ 32)

-- A tag, and then the bytes.
abbrev pub tagged : WriteBlock → ℕ → List ℕ → Option WriteBlock
tagged wb tag bytes = wb_push wb (tag ∷ []) >>= λ wb'. wb_push wb' bytes

unfoldable pub wb_integer : WriteBlock → ℕ → Option WriteBlock
wb_integer wb v =
    if v == 0
    then wb_push wb (combine_type 2 0 ∷ [])
    else if not (v == sign_extend v)
    then tagged wb (combine_type 2 6) (le_bytes 8 v)
    else if leb (2 ^ 63) v
    then tagged wb (combine_type 2 4) (le_bytes 4 (v % 2 ^ 32))
    else if ltb v 0x100
    then tagged wb (combine_type 2 1) (le_bytes 1 v)
    else if ltb v 0x10000
    then tagged wb (combine_type 2 2) (le_bytes 2 v)
    else tagged wb (combine_type 2 4) (le_bytes 4 v)

unfoldable pub wb_real : WriteBlock → ℕ → Option WriteBlock
wb_real wb v = tagged wb (combine_type 2 8) (le_bytes 8 v)

unfoldable pub wb_pointer : WriteBlock → ℕ → Option WriteBlock
wb_pointer wb v = tagged wb 3 (le_bytes 8 v)

unfoldable pub wb_string : WriteBlock → List ℕ → Option WriteBlock
wb_string wb str =
    let len = length str in
    if ltb len max_cookie
    then (wb_push wb (combine_type 4 len ∷ []) >>= λ wb'.
        if ltb 0 len then wb_push wb' str else some wb')
    else ((if ltb len 0x10000
          then tagged wb (combine_type 5 2) (le_bytes 2 len)
          else tagged wb (combine_type 5 4) (le_bytes 4 len))
        >>= λ wb'. wb_push wb' str)

-- the header of a table with an array of this size
unfoldable pub wb_table_size : WriteBlock → ℕ → Option WriteBlock
unfolding wb_integer
wb_table_size wb array_size =
    if leb (max_cookie - 1) array_size
    then (wb_push wb (combine_type 6 (max_cookie - 1) ∷ []) >>= λ wb'. wb_integer wb' array_size)
    else wb_push wb (combine_type 6 array_size ∷ [])

unfoldable mutual
  unfolding wb_nil wb_boolean wb_integer wb_real wb_pointer wb_string wb_table_size

  pub pack_one : Value → WriteBlock → ℕ → Option WriteBlock
  pack_one nil wb depth = assert (leb depth max_depth) >> wb_nil wb
  pack_one (boolean b) wb depth = assert (leb depth max_depth) >> wb_boolean wb b
  pack_one (integer v) wb depth = assert (leb depth max_depth) >> wb_integer wb v
  pack_one (real v) wb depth = assert (leb depth max_depth) >> wb_real wb v
  pack_one (pointer v) wb depth = assert (leb depth max_depth) >> wb_pointer wb v
  pack_one (string s) wb depth = assert (leb depth max_depth) >> wb_string wb s
  pack_one (table items pairs) wb depth =
      assert (leb depth max_depth)
      >> (wb_table_size wb (raw_len items) >>= λ wb1.
          wb_table_array items wb1 (depth + 1) >>= λ wb2.
          wb_table_hash pairs (raw_len items) wb2 (depth + 1))
  pack_one (paired pairs) wb depth =
      assert (leb depth max_depth)
      >> (wb_push wb (combine_type 6 0 ∷ []) >>= λ wb1. wb_table_metapairs pairs wb1 (depth + 1))
  pack_one unsupported wb depth = none

  pub wb_table_array : Items → WriteBlock → ℕ → Option WriteBlock
  wb_table_array no_items wb depth = some wb
  wb_table_array (item v items) wb depth =
      pack_one v wb depth >>= λ wb1. wb_table_array items wb1 depth

  pub wb_table_hash : Pairs → ℕ → WriteBlock → ℕ → Option WriteBlock
  wb_table_hash no_pairs array_size wb depth = wb_nil wb
  wb_table_hash (pair k v pairs) array_size wb depth = elim (skipped array_size k) [
    | true ↦ wb_table_hash pairs array_size wb depth
    | false ↦ pack_one k wb depth >>= λ wb1.
        pack_one v wb1 depth >>= λ wb2. wb_table_hash pairs array_size wb2 depth
  ]

  pub wb_table_metapairs : Pairs → WriteBlock → ℕ → Option WriteBlock
  wb_table_metapairs no_pairs wb depth = wb_nil wb
  wb_table_metapairs (pair k v pairs) wb depth = pack_one k wb depth >>= λ wb1.
      pack_one v wb1 depth >>= λ wb2. wb_table_metapairs pairs wb2 depth

unfoldable pub pack_from : List Value → WriteBlock → Option WriteBlock
pack_from [] wb = some wb
pack_from (v ∷ vs) wb = pack_one v wb 0 >>= λ wb'. pack_from vs wb'

-- the bytes of the arguments
unfoldable pub luaseri_pack : List Value → Option (List ℕ)
luaseri_pack vs = pack_from vs wb_init >>= λ wb. seri wb
