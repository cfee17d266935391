-- ===== src/Seri/Inverse.antt =====
-- `luaseri_unpack` after `luaseri_pack`, by induction on the values.
use skynet_sy.Common.{
  ℕ, zero, suc, ◌+◌, ◌*◌, ◌^◌, ◌≡◌, ◌<◌, refl, ◌∙◌, ap, arith, some, List, [], ◌∷◌, ◌++◌,
  if◌then◌else◌, length, length-append,
}
use skynet_sy.Common.Bytes.{le_bytes, take, append_assoc}
use skynet_sy.Seri.Value.{
  Value, Items, Pairs, nil, boolean, integer, real, pointer, string, table, paired, unsupported,
  no_items, item, no_pairs, pair, raw_len, skipped,
}
use skynet_sy.Seri.Pack.{luaseri_pack}
use skynet_sy.Seri.Unpack.{
  ok, unpack_one, unpack_items, unpack_pairs, unpack_all, luaseri_unpack, to_size,
}
use skynet_sy.Seri.Emit.{
  emit_size, emit, emit_items, emit_pairs, CanPack, CanPackItems, CanPackPairs,
}
use skynet_sy.Seri.Packed.{emit_all, CanPackAll, luaseri_pack_lem}
use skynet_sy.Seri.Words.{integer_parts, size_parts, small_size}
use skynet_sy.Seri.RoundTrip.{
  stored, stored_items, stored_pairs, is_nil-stored, is_nan-stored, Reads, spend, one_lem, push_nil,
  push_boolean, push_integer, push_real, push_pointer, push_table,
}
use skynet_sy.Seri.Steps.{
  tables, nonempty, string_lem, items_step, pairs_end, pairs_step, pair_case, no_items_lem, nil_lem,
  table_lem,
}

mutual
  unfolding emit stored CanPack unpack_items

  Reads-one :
      (v : Value) (depth : ℕ)
      → CanPack v depth
      → Reads unpack_one (2 * length (emit v)) (emit v) (stored v)
  Reads-one nil depth h =
      λ rest. spend _ λ f l. one_lem f 0 0 rest rest nil (omega arith) (push_nil (tables f) rest)
  Reads-one (boolean b) depth h = λ rest. spend _ λ f l.
      one_lem f 1 (if b then 1 else 0) rest rest (boolean b) (omega arith)
        (push_boolean (tables f) rest b)
  Reads-one (integer v) depth h = λ rest. spend _ λ f l.
      let p = integer_parts v h.1 in
      ap (λ z. unpack_one (suc f) (z ++ rest)) p.printed
      ∙ one_lem f 2 p.cookie (p.payload ++ rest) rest (integer v) (omega arith)
          (push_integer (tables f) rest p.cookie v p.payload p.small (p.reads rest))
  Reads-one (real v) depth h = λ rest. spend _ λ f l.
      one_lem f 2 8 (le_bytes 8 v ++ rest) rest (real v) (omega arith)
        (push_real (tables f) rest v h.1)
  Reads-one (pointer v) depth h = λ rest. spend _ λ f l.
      one_lem f 3 0 (le_bytes 8 v ++ rest) rest (pointer v) (omega arith)
        (push_pointer (tables f) rest v h.1)
  Reads-one (string s) depth h = λ rest. spend _ λ f l. string_lem f s rest h.1
  Reads-one (table items pairs) depth h = λ rest. spend _ λ f l.
      let n = raw_len items in
      let whole = length-append (emit_size n) (emit_items items ++ emit_pairs n pairs) in
      let parts = length-append (emit_items items) (emit_pairs n pairs) in
      let sp = size_parts n h.1 in
      table_lem f n (emit_items items) (emit_pairs n pairs) rest (stored_items items)
        (stored_pairs n pairs) h.1
        (Reads-items items (depth + 1) h.2 (emit_pairs n pairs ++ rest) f
          (omega (arith, l, whole, parts, ap length sp.printed)))
        (Reads-pairs pairs n (depth + 1) h.3 rest f
          (omega (arith, l, whole, parts, ap length sp.printed)))
  Reads-one (paired pairs) depth h = λ rest. spend _ λ f l.
      one_lem f 6 0 (emit_pairs 0 pairs ++ rest) rest (table no_items (stored_pairs 0 pairs))
        (omega arith)
        (push_table (unpack_items f) (unpack_pairs f) 0 0 [] (emit_pairs 0 pairs ++ rest)
          (emit_pairs 0 pairs ++ rest) rest no_items (stored_pairs 0 pairs)
          (small_size 0 _ (λ q. omega (arith, q)))
          (no_items_lem f (emit_pairs 0 pairs ++ rest) (omega (arith, l)))
          (Reads-pairs pairs 0 (depth + 1) h.1 rest f (omega (arith, l))))
  Reads-one unsupported depth h = absurd h

  Reads-items :
      (items : Items) (depth : ℕ)
      → CanPackItems items depth
      → Reads
          (λ f. unpack_items f (raw_len items))
          (suc (2 * length (emit_items items)))
          (emit_items items)
          (stored_items items)
  Reads-items no_items depth h = λ rest. spend _ λ f l. refl
  Reads-items (item v items) depth h = λ rest. spend _ λ f l.
      let parts = length-append (emit v) (emit_items items) in
      let pos = nonempty v depth h.0 in
      ap (unpack_items (suc f) (suc (raw_len items)))
        (append_assoc (emit v) (emit_items items) rest)
      ∙ items_step f (raw_len items) _ (emit_items items ++ rest) rest (stored v)
          (stored_items items)
          (Reads-one v depth h.0 (emit_items items ++ rest) f (omega (arith, l, parts)))
          (Reads-items items depth h.1 rest f (omega (arith, l, parts, pos)))

  Reads-pairs :
      (pairs : Pairs) (n depth : ℕ)
      → CanPackPairs pairs depth
      → Reads unpack_pairs
          (suc (2 * length (emit_pairs n pairs)))
          (emit_pairs n pairs)
          (stored_pairs n pairs)
  Reads-pairs no_pairs n depth h =
      λ rest. spend _ λ f l. pairs_end f _ rest (nil_lem f rest (omega (arith, l)))
  Reads-pairs (pair k v pairs) n depth h =
      pair_case (skipped n k) (emit_pairs n pairs) (emit k ++ (emit v ++ emit_pairs n pairs)) _ _
        (Reads-pairs pairs n depth h.3)
        λ rest. spend _ λ f l.
          let parts = length-append (emit k) (emit v ++ emit_pairs n pairs) in
          let parts' = length-append (emit v) (emit_pairs n pairs) in
          let pos = nonempty k depth h.1 in
          ap (unpack_pairs (suc f)) (
            append_assoc (emit k) (emit v ++ emit_pairs n pairs) rest
            ∙ ap (λ z. emit k ++ z) (append_assoc (emit v) (emit_pairs n pairs) rest))
          ∙ pairs_step f _ (emit v ++ (emit_pairs n pairs ++ rest)) (emit_pairs n pairs ++ rest)
              rest (stored k) (stored v) (stored_pairs n pairs) (is_nil-stored k ∙ h.0.0)
              (is_nan-stored k ∙ h.0.1) (Reads-one k depth h.1 _ f (omega (arith, l, parts)))
              (Reads-one v depth h.2 _ f (omega (arith, l, parts, parts')))
              (Reads-pairs pairs n depth h.3 rest f (omega (arith, l, parts, parts', pos)))

abbrev pub stored_all : List Value → List Value
stored_all [] = []
stored_all (v ∷ vs) = stored v ∷ stored_all vs

all_step :
    (f : ℕ) (input in1 : List ℕ) (v : Value) (vs : List Value)
    → 0 < length input
    → unpack_one f input ≡ ok (v, in1)
    → unpack_all f in1 ≡ ok vs
    → unpack_all (suc f) input ≡ ok (v ∷ vs)
unfolding unpack_all
all_step f [] in1 v vs pos a b = absurd (omega (arith, pos))
all_step f (x ∷ input) in1 v vs pos a b = rw a rw b refl

all_lem :
    (vs : List Value) (f : ℕ)
    → CanPackAll vs
    → suc (2 * length (emit_all vs)) < f
    → unpack_all f (emit_all vs) ≡ ok (stored_all vs)
unfolding unpack_all
all_lem vs zero h l = absurd (omega (arith, l))
all_lem [] (suc f) h l = refl
all_lem (v ∷ vs) (suc f) h l =
    let parts = length-append (emit v) (emit_all vs) in
    let pos = nonempty v 0 h.0 in
    all_step f (emit v ++ emit_all vs) (emit_all vs) (stored v) (stored_all vs)
      (omega (arith, parts, pos)) (Reads-one v 0 h.0 (emit_all vs) f (omega (arith, l, parts)))
      (all_lem vs f h.1 (omega (arith, l, parts, pos)))

-- For values that can be packed (words of 64 bits, strings and arrays of a size below 2^31, tables
-- at most 32 deep, no key that is nil or a NaN, none of an unsupported type) and whose bytes are
-- fewer than 2^31, the packing succeeds, and the unpacking of its bytes succeeds and gives the
-- values, each table by the stores of its items and of the pairs that are not among them.
pub luaseri_unpack-luaseri_pack :
    (vs : List Value)
    → CanPackAll vs
    → length (emit_all vs) < 2 ^ 31
    → (bytes : List ℕ) × (luaseri_pack vs ≡ some bytes)
      × (luaseri_unpack bytes ≡ ok (stored_all vs))
unfolding luaseri_unpack
luaseri_unpack-luaseri_pack vs h small = (
  emit_all vs,
  luaseri_pack_lem vs h small,
  rw (take_sized (emit_all vs) small) (all_lem vs (2 * length (emit_all vs) + 2) h (omega arith)),
)
  where
    sized : (n : ℕ) → n < 2 ^ 31 → to_size n ≡ n
    sized n few = ground (arith, few)

    take_whole : (xs : List ℕ) → take (length xs) xs ≡ xs
    take_whole [] = refl
    take_whole (x ∷ xs) = ap (λ l. x ∷ l) (take_whole xs)

    take_sized : (xs : List ℕ) → length xs < 2 ^ 31 → take (to_size (length xs)) xs ≡ xs
    take_sized xs few = ap (λ n. take n xs) (sized (length xs) few) ∙ take_whole xs
