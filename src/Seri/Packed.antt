-- ===== src/Seri/Packed.antt =====
-- `luaseri_pack` writes the bytes of its values, whatever blocks they fall into.
use skynet_sy.Common.{
  ℕ, ◌+◌, ◌^◌, ◌≡◌, ◌<◌, refl, sym, subst, arith, some, List, [], ◌∷◌, ◌++◌, length,
}
use skynet_sy.Common.Bytes.{le_bytes}
use skynet_sy.Seri.Block.{Written, wb_push, wb_init, seri_lem}
use skynet_sy.Seri.Value.{
  Value, Items, Pairs, nil, boolean, integer, real, pointer, string, table, paired, unsupported,
  no_items, item, no_pairs, pair, raw_len, skipped,
}
use skynet_sy.Seri.Pack.{
  wb_nil, wb_real, wb_pointer, wb_table_size, pack_one, wb_table_array, wb_table_hash,
  wb_table_metapairs, pack_from, luaseri_pack,
}
use skynet_sy.Seri.Emit.{
  tag, emit_size, emit, emit_items, emit_pairs, CanPack, CanPackItems, CanPackPairs,
}
use skynet_sy.Seri.Appends.{
  Packs, Packs-push, Packs-none, Packs-then, Packs-deep, Packs-tagged, Packs-integer, Packs-string,
  Packs-size, Packs-boolean, Packs-skip, none_skipped,
}

mutual
  unfolding pack_one emit CanPack wb_nil wb_real wb_pointer

  Packs-one : (v : Value) (depth : ℕ) → CanPack v depth → Packs (λ wb. pack_one v wb depth) (emit v)
  Packs-one nil depth h = Packs-deep _ _ depth h (Packs-push (0 ∷ []))
  Packs-one (boolean b) depth h = Packs-deep _ _ depth h (Packs-boolean b)
  Packs-one (integer v) depth h = Packs-deep _ _ depth h.0 (Packs-integer v)
  Packs-one (real v) depth h = Packs-deep _ _ depth h.0 (Packs-tagged (tag 2 8) (le_bytes 8 v))
  Packs-one (pointer v) depth h = Packs-deep _ _ depth h.0 (Packs-tagged (tag 3 0) (le_bytes 8 v))
  Packs-one (string s) depth h = Packs-deep _ _ depth h.0 (Packs-string s)
  Packs-one (table items pairs) depth h = Packs-deep _ _ depth h.0 (
      Packs-then (λ wb. wb_table_size wb (raw_len items)) _ (emit_size (raw_len items)) _
        (Packs-size (raw_len items))
        (Packs-then (λ wb. wb_table_array items wb (depth + 1))
          (λ wb. wb_table_hash pairs (raw_len items) wb (depth + 1)) (emit_items items)
          (emit_pairs (raw_len items) pairs) (Packs-items items (depth + 1) h.2)
          (Packs-pairs pairs (raw_len items) (depth + 1) h.3)))
  Packs-one (paired pairs) depth h = Packs-deep _ _ depth h.0 (
      Packs-then (λ wb. wb_push wb (tag 6 0 ∷ [])) (λ wb. wb_table_metapairs pairs wb (depth + 1))
        (tag 6 0 ∷ []) (emit_pairs 0 pairs) (Packs-push (tag 6 0 ∷ []))
        (Packs-meta pairs (depth + 1) h.1))
  Packs-one unsupported depth h = absurd h

  Packs-items :
      (items : Items) (depth : ℕ)
      → CanPackItems items depth
      → Packs (λ wb. wb_table_array items wb depth) (emit_items items)
  Packs-items no_items depth h = Packs-none
  Packs-items (item v items) depth h =
      Packs-then (λ wb. pack_one v wb depth) (λ wb. wb_table_array items wb depth) (emit v)
        (emit_items items) (Packs-one v depth h.0) (Packs-items items depth h.1)

  Packs-pairs :
      (pairs : Pairs) (n depth : ℕ)
      → CanPackPairs pairs depth
      → Packs (λ wb. wb_table_hash pairs n wb depth) (emit_pairs n pairs)
  Packs-pairs no_pairs n depth h = Packs-push (0 ∷ [])
  Packs-pairs (pair k v pairs) n depth h =
      Packs-skip (skipped n k) _ _ _ _ (Packs-pairs pairs n depth h.3) (
        Packs-then (λ wb. pack_one k wb depth) _ (emit k) (emit v ++ emit_pairs n pairs)
          (Packs-one k depth h.1)
          (Packs-then (λ wb. pack_one v wb depth) (λ wb. wb_table_hash pairs n wb depth) (emit v)
            (emit_pairs n pairs) (Packs-one v depth h.2) (Packs-pairs pairs n depth h.3)))

  Packs-meta :
      (pairs : Pairs) (depth : ℕ)
      → CanPackPairs pairs depth
      → Packs (λ wb. wb_table_metapairs pairs wb depth) (emit_pairs 0 pairs)
  Packs-meta no_pairs depth h = Packs-push (0 ∷ [])
  Packs-meta (pair k v pairs) depth h =
      subst (Packs (λ wb. wb_table_metapairs (pair k v pairs) wb depth))
        (sym (none_skipped k v pairs))
        (Packs-then (λ wb. pack_one k wb depth) _ (emit k) (emit v ++ emit_pairs 0 pairs)
          (Packs-one k depth h.1)
          (Packs-then (λ wb. pack_one v wb depth) (λ wb. wb_table_metapairs pairs wb depth) (emit v)
            (emit_pairs 0 pairs) (Packs-one v depth h.2) (Packs-meta pairs depth h.3)))

-- The bytes of several values.
abbrev pub emit_all : List Value → List ℕ
emit_all [] = []
emit_all (v ∷ vs) = emit v ++ emit_all vs

abbrev pub CanPackAll : List Value → Type 0
CanPackAll [] = Unit
CanPackAll (v ∷ vs) = CanPack v 0 × CanPackAll vs

Packs-from : (vs : List Value) → CanPackAll vs → Packs (λ wb. pack_from vs wb) (emit_all vs)
unfolding pack_from
Packs-from [] h = Packs-none
Packs-from (v ∷ vs) h =
    Packs-then (λ wb. pack_one v wb 0) (pack_from vs) (emit v) (emit_all vs) (Packs-one v 0 h.0)
      (Packs-from vs h.1)

pub init-Written : Written wb_init []
unfolding wb_init
init-Written = record { content = refl; full = tt; fits = omega arith; len = refl }

pub luaseri_pack_lem :
    (vs : List Value)
    → CanPackAll vs
    → length (emit_all vs) < 2 ^ 31
    → luaseri_pack vs ≡ some (emit_all vs)
unfolding luaseri_pack
luaseri_pack_lem vs h small =
    let (wb, run, w) = Packs-from vs h wb_init [] init-Written (omega (arith, small)) in
    rw run (seri_lem wb (emit_all vs) w)
