-- ===== src/Seri/Examples.antt =====
-- Runs of the serialisation on concrete inputs, and the theorems at such inputs.
use skynet_sy.Common.{ℕ, ◌-◌, ◌^◌, ◌<◌, length, ◌≡◌, ◌≢◌, refl, arith, true, some, List, [], ◌∷◌}
use skynet_sy.Seri.Block.{
  WriteBlock, Written, wb_push, push_loop, wb_init, seri, seri_loop, wb_push_lem,
}
use skynet_sy.Seri.Value.{Value, boolean, integer, string, table, no_items, item, no_pairs, pair}
use skynet_sy.Seri.Pack.{luaseri_pack, pack_from, pack_one}
use skynet_sy.Seri.Unpack.{ok, invalid, out_of_fuel, luaseri_unpack, unpack_one, read}
use skynet_sy.Seri.Emit.{CanPack, emit, emit_integer, emit_string, emit_size}
use skynet_sy.Seri.Packed.{CanPackAll, emit_all, init-Written}
use skynet_sy.Seri.Inverse.{stored_all, luaseri_unpack-luaseri_pack}
use skynet_sy.Seri.Total.{luaseri_unpack-in_fuel}

-- { 300, [1] = 300, ok = true }, a string and a negative number
abbrev sample : List Value
sample =
    table (item (integer 300) no_items)
      (pair (integer 1) (integer 300) (pair (string (111 ∷ 107 ∷ [])) (boolean true) no_pairs))
    ∷ string (104 ∷ [])
    ∷ integer (2 ^ 64 - 2)
    ∷ []

sample-CanPack : CanPackAll sample
unfolding CanPack
sample-CanPack = ground arith

sample_bytes :
    luaseri_pack sample
    ≡ some (14 ∷ 18 ∷ 44 ∷ 1 ∷ 20 ∷ 111 ∷ 107 ∷ 9 ∷ 0 ∷ 12 ∷ 104 ∷ 34 ∷ 254 ∷ 255 ∷ 255 ∷ 255 ∷ [])
unfolding luaseri_pack pack_from pack_one wb_init seri seri_loop wb_push push_loop
sample_bytes = refl

small : length (emit_all sample) < 2 ^ 31
unfolding emit emit_integer emit_string emit_size
small = omega arith

luaseri_unpack-luaseri_pack_example :
    (bytes : List ℕ) × (luaseri_pack sample ≡ some bytes)
    × (luaseri_unpack bytes ≡ ok (stored_all sample))
luaseri_unpack-luaseri_pack_example = luaseri_unpack-luaseri_pack sample sample-CanPack small

-- a table that ends in its array
luaseri_unpack-in_fuel_example : luaseri_unpack (22 ∷ 0 ∷ 9 ∷ []) ≢ out_of_fuel
luaseri_unpack-in_fuel_example = luaseri_unpack-in_fuel (22 ∷ 0 ∷ 9 ∷ [])

cut_off : luaseri_unpack (22 ∷ 0 ∷ 9 ∷ []) ≡ invalid
unfolding luaseri_unpack unpack_one read
cut_off = refl

wb_push_lem_example :
    (wb' : WriteBlock) × (wb_push wb_init (7 ∷ 8 ∷ []) ≡ some wb') × Written wb' (7 ∷ 8 ∷ [])
wb_push_lem_example = wb_push_lem wb_init [] (7 ∷ 8 ∷ []) init-Written (omega arith)
