-- ===== src/Seri/Steps.antt =====
-- The steps of `luaseri_unpack` on what `luaseri_pack` wrote: strings, items, pairs and tables.
use skynet_sy.Common.{
  ℕ, zero, suc, ◌*◌, ◌^◌, ◌≡◌, ◌<◌, refl, ◌∙◌, ap, arith, Bool, true, false, List, ◌∷◌, ◌++◌, ltb,
  length, length-append, Bool-cases, inl, inr,
}
use skynet_sy.Common.Bytes.{le_bytes, append_assoc}
use skynet_sy.Seri.Value.{
  Value, Items, Pairs, nil, boolean, integer, real, pointer, string, table, paired, unsupported,
  no_items, item, no_pairs, pair, raw_len, is_nan,
}
use skynet_sy.Seri.Unpack.{
  Outcome, ◌>>=◌, ok, failed, Reader, is_nil, unpack_table, unpack_one, unpack_items, unpack_pairs,
}
use skynet_sy.Seri.Emit.{
  tag, emit_integer, emit_string, emit_size, emit, emit_items, emit_pairs, CanPack,
}
use skynet_sy.Seri.Words.{size_parts}
use skynet_sy.Seri.RoundTrip.{
  Reads, one_lem, push_nil, push_short, push_long2, push_long4, push_table,
}

abbrev pub tables : ℕ → ℕ → Reader Value
tables f = unpack_table (unpack_items f) (unpack_pairs f)

nonempty_string : (s : List ℕ) → 0 < length (emit_string s)
unfolding emit_string
nonempty_string s = ground arith

nonempty_integer : (v : ℕ) → 0 < length (emit_integer v)
unfolding emit_integer
nonempty_integer v = ground arith

pub nonempty : (v : Value) (depth : ℕ) → CanPack v depth → 0 < length (emit v)
unfolding emit CanPack emit_size
nonempty nil depth h = omega arith
nonempty (boolean b) depth h = omega arith
nonempty (integer v) depth h = nonempty_integer v
nonempty (real v) depth h = omega arith
nonempty (pointer v) depth h = omega arith
nonempty (string s) depth h = nonempty_string s
nonempty (table items pairs) depth h =
    let sp = size_parts (raw_len items) h.1 in
    omega (
      arith,
      ap length sp.printed,
      length-append (emit_size (raw_len items))
          (emit_items items ++ emit_pairs (raw_len items) pairs),
    )
nonempty (paired pairs) depth h = omega arith
nonempty unsupported depth h = absurd h

pub string_lem :
    (f : ℕ) (s rest : List ℕ)
    → length s < 2 ^ 31
    → unpack_one (suc f) (emit_string s ++ rest) ≡ ok (string s, rest)
unfolding emit_string
string_lem f s rest h = elim (Bool-cases (ltb (length s) 32)) [
  | inl short ↦ rw short (
      one_lem f 4 (length s) (s ++ rest) rest (string s) (omega arith)
        (push_short (tables f) rest s h))
  | inr long ↦ elim (Bool-cases (ltb (length s) 0x10000)) [
    | inl two ↦
        rw (long, two)
          (ap (λ l. unpack_one (suc f) (tag 5 2 ∷ l)) (append_assoc (le_bytes 2 (length s)) s rest)
            ∙ one_lem f 5 2 (le_bytes 2 (length s) ++ (s ++ rest)) rest (string s) (omega arith)
                (push_long2 (tables f) rest s (ground (arith, two))))
    | inr four ↦
        rw (long, four)
          (ap (λ l. unpack_one (suc f) (tag 5 4 ∷ l)) (append_assoc (le_bytes 4 (length s)) s rest)
            ∙ one_lem f 5 4 (le_bytes 4 (length s) ++ (s ++ rest)) rest (string s) (omega arith)
                (push_long4 (tables f) rest s h))
  ]
]

pub items_step :
    (f n : ℕ) (input in1 rest : List ℕ) (v : Value) (items : Items)
    → unpack_one f input ≡ ok (v, in1)
    → unpack_items f n in1 ≡ ok (items, rest)
    → unpack_items (suc f) (suc n) input ≡ ok (item v items, rest)
unfolding unpack_items
items_step f n input in1 rest v items a b = rw a rw b refl

pub pairs_end :
    (f : ℕ) (input rest : List ℕ)
    → unpack_one f input ≡ ok (nil, rest)
    → unpack_pairs (suc f) input ≡ ok (no_pairs, rest)
unfolding unpack_pairs
pairs_end f input rest a = rw a refl

-- the store of a pair, and the pairs after it
abbrev set_pair : ℕ → Value → Value → List ℕ → Bool → Outcome (Pairs × List ℕ)
set_pair f k v rest b = elim b as (λ _. Outcome (Pairs × List ℕ)) [
  | true ↦ failed
  | false ↦ unpack_pairs f rest >>= λ (pairs, rest3). ok (pair k v pairs, rest3)
]

pub pairs_step :
    (f : ℕ) (input in1 in2 rest : List ℕ) (k v : Value) (pairs : Pairs)
    → is_nil k ≡ false
    → is_nan k ≡ false
    → unpack_one f input ≡ ok (k, in1)
    → unpack_one f in1 ≡ ok (v, in2)
    → unpack_pairs f in2 ≡ ok (pairs, rest)
    → unpack_pairs (suc f) input ≡ ok (pair k v pairs, rest)
unfolding unpack_pairs
pairs_step f input in1 in2 rest k v pairs key number a b d = rw a (
    ap
      (λ (z : Bool). elim z as (λ _. Outcome (Pairs × List ℕ)) [
        | true ↦ ok (no_pairs, in1)
        | false ↦ unpack_one f in1 >>= λ (v, rest2). set_pair f k v rest2 (is_nan k)
      ])
      key
    ∙ rw b (ap (set_pair f k v in2) number ∙ rw d refl))

pub pair_case :
    (b : Bool) (xs ys : List ℕ) (p q : Pairs)
    → Reads unpack_pairs (suc (2 * length xs)) xs p
    → Reads unpack_pairs (suc (2 * length ys)) ys q
    → Reads unpack_pairs
        (suc (2 * length (elim b as (λ _. List ℕ) [ true ↦ xs | false ↦ ys ])))
        (elim b [ true ↦ xs | false ↦ ys ])
        (elim b [ true ↦ p | false ↦ q ])
pair_case true xs ys p q r s = r
pair_case false xs ys p q r s = s

pub no_items_lem : (f : ℕ) (rest : List ℕ) → 0 < f → unpack_items f 0 rest ≡ ok (no_items, rest)
unfolding unpack_items
no_items_lem zero rest h = absurd (omega (arith, h))
no_items_lem (suc f) rest h = refl

pub nil_lem : (f : ℕ) (rest : List ℕ) → 0 < f → unpack_one f (tag 0 0 ∷ rest) ≡ ok (nil, rest)
nil_lem zero rest h = absurd (omega (arith, h))
nil_lem (suc f) rest h = one_lem f 0 0 rest rest nil (omega arith) (push_nil (tables f) rest)

-- A table, from its parts.
pub table_lem :
    (f n : ℕ) (ei ep rest : List ℕ) (items : Items) (pairs : Pairs)
    → n < 2 ^ 31
    → unpack_items f n (ei ++ (ep ++ rest)) ≡ ok (items, ep ++ rest)
    → unpack_pairs f (ep ++ rest) ≡ ok (pairs, rest)
    → unpack_one (suc f) ((emit_size n ++ (ei ++ ep)) ++ rest) ≡ ok (table items pairs, rest)
table_lem f n ei ep rest items pairs h a b =
    let sp = size_parts n h in
    ap (unpack_one (suc f)) (
      append_assoc (emit_size n) (ei ++ ep) rest
      ∙ ap (λ z. emit_size n ++ z) (append_assoc ei ep rest)
      ∙ ap (λ l. l ++ (ei ++ (ep ++ rest))) sp.printed)
    ∙ one_lem f 6 sp.cookie (sp.payload ++ (ei ++ (ep ++ rest))) rest (table items pairs)
        (omega arith)
        (push_table (unpack_items f) (unpack_pairs f) sp.cookie n sp.payload (ei ++ (ep ++ rest))
          (ep ++ rest) rest items pairs (sp.reads _) a b)
