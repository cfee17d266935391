-- ===== src/Seri/Emit.antt =====
-- The bytes of a value, and what `luaseri_pack` accepts.
use skynet_sy.Common.{
  ℕ, ◌+◌, ◌*◌, ◌%◌, ◌^◌, ◌≡◌, ◌≤◌, ◌<◌, true, false, not, List, [], ◌∷◌, ◌++◌, ◌==◌, if◌then◌else◌,
  ltb, leb, length,
}
use skynet_sy.Common.Bytes.{le_bytes}
use skynet_sy.Seri.Value.{
  Value, Items, Pairs, nil, boolean, integer, real, pointer, string, table, paired, unsupported,
  no_items, item, no_pairs, pair, raw_len, skipped, is_nan,
}
use skynet_sy.Seri.Pack.{max_depth, sign_extend}
use skynet_sy.Seri.Unpack.{is_nil}

abbrev pub tag : ℕ → ℕ → ℕ
tag type cookie = type + cookie * 8

unfoldable pub emit_integer : ℕ → List ℕ
emit_integer v =
    if v == 0
    then tag 2 0 ∷ []
    else if not (v == sign_extend v)
    then tag 2 6 ∷ le_bytes 8 v
    else if leb (2 ^ 63) v
    then tag 2 4 ∷ le_bytes 4 (v % 2 ^ 32)
    else if ltb v 0x100
    then tag 2 1 ∷ le_bytes 1 v
    else if ltb v 0x10000
    then tag 2 2 ∷ le_bytes 2 v
    else tag 2 4 ∷ le_bytes 4 v

unfoldable pub emit_string : List ℕ → List ℕ
emit_string s =
    if ltb (length s) 32
    then tag 4 (length s) ∷ s
    else if ltb (length s) 0x10000
    then tag 5 2 ∷ (le_bytes 2 (length s) ++ s)
    else tag 5 4 ∷ (le_bytes 4 (length s) ++ s)

unfoldable pub emit_size : ℕ → List ℕ
unfolding emit_integer
emit_size n = if leb 31 n then tag 6 31 ∷ emit_integer n else tag 6 n ∷ []

unfoldable mutual
  pub emit : Value → List ℕ
  emit nil = tag 0 0 ∷ []
  emit (boolean b) = tag 1 (if b then 1 else 0) ∷ []
  emit (integer v) = emit_integer v
  emit (real v) = tag 2 8 ∷ le_bytes 8 v
  emit (pointer v) = tag 3 0 ∷ le_bytes 8 v
  emit (string s) = emit_string s
  emit (table items pairs) =
      emit_size (raw_len items) ++ (emit_items items ++ emit_pairs (raw_len items) pairs)
  emit (paired pairs) = tag 6 0 ∷ emit_pairs 0 pairs
  emit unsupported = []

  pub emit_items : Items → List ℕ
  emit_items no_items = []
  emit_items (item v items) = emit v ++ emit_items items

  pub emit_pairs : ℕ → Pairs → List ℕ
  emit_pairs n no_pairs = tag 0 0 ∷ []
  emit_pairs n (pair k v pairs) = elim (skipped n k) [
    | true ↦ emit_pairs n pairs
    | false ↦ emit k ++ (emit v ++ emit_pairs n pairs)
  ]

-- A value that can be packed at this depth: not too deep, of words of 64 bits, strings and arrays
-- shorter than 2 ^ 31, no unsupported part, and no key nil or NaN.
unfoldable mutual
  pub CanPack : Value → ℕ → Type 0
  CanPack nil depth = depth ≤ max_depth
  CanPack (boolean b) depth = depth ≤ max_depth
  CanPack (integer v) depth = (depth ≤ max_depth) × (v < 2 ^ 64)
  CanPack (real v) depth = (depth ≤ max_depth) × (v < 2 ^ 64)
  CanPack (pointer v) depth = (depth ≤ max_depth) × (v < 2 ^ 64)
  CanPack (string s) depth = (depth ≤ max_depth) × (length s < 2 ^ 31)
  CanPack (table items pairs) depth =
      (depth ≤ max_depth)
      × (raw_len items < 2 ^ 31)
      × CanPackItems items (depth + 1)
      × CanPackPairs pairs (depth + 1)
  CanPack (paired pairs) depth = (depth ≤ max_depth) × CanPackPairs pairs (depth + 1)
  CanPack unsupported depth = ⊥

  pub CanPackItems : Items → ℕ → Type 0
  CanPackItems no_items depth = Unit
  CanPackItems (item v items) depth = CanPack v depth × CanPackItems items depth

  pub CanPackPairs : Pairs → ℕ → Type 0
  CanPackPairs no_pairs depth = Unit
  CanPackPairs (pair k v pairs) depth =
      ((is_nil k ≡ false) × (is_nan k ≡ false))
      × CanPack k depth
      × CanPack v depth
      × CanPackPairs pairs depth
