-- ===== src/Seri/RoundTrip.antt =====
-- What `luaseri_pack` wrote, `luaseri_unpack` reads.
use skynet_sy.Common.{
  ℕ, zero, suc, ◌^◌, ◌≡◌, ◌<◌, refl, arith, Bool, true, false, List, ◌∷◌, ◌++◌, if◌then◌else◌,
  length, ==_ne, lt→ltb,
}
use skynet_sy.Common.Bytes.{le_bytes}
use skynet_sy.Seri.Value.{
  Value, Items, Pairs, nil, boolean, integer, real, pointer, string, table, paired, unsupported,
  no_items, item, no_pairs, pair, raw_len, skipped, is_nan,
}
use skynet_sy.Seri.Unpack.{
  ok, Reader, get_integer, get_size, get_buffer, push_value, is_nil, unpack_table, unpack_one,
  unpack_items, unpack_pairs,
}
use skynet_sy.Seri.Emit.{tag}
use skynet_sy.Seri.Words.{read_lem, get_word_lem, get_type_lem}

-- What a table keeps: the items of its array, and the pairs whose key is not of the array.
unfoldable mutual
  pub stored : Value → Value
  stored nil = nil
  stored (boolean b) = boolean b
  stored (integer v) = integer v
  stored (real v) = real v
  stored (pointer v) = pointer v
  stored (string s) = string s
  stored (table items pairs) = table (stored_items items) (stored_pairs (raw_len items) pairs)
  stored (paired pairs) = table no_items (stored_pairs 0 pairs)
  stored unsupported = unsupported

  pub stored_items : Items → Items
  stored_items no_items = no_items
  stored_items (item v items) = item (stored v) (stored_items items)

  pub stored_pairs : ℕ → Pairs → Pairs
  stored_pairs n no_pairs = no_pairs
  stored_pairs n (pair k v pairs) = elim (skipped n k) [
    | true ↦ stored_pairs n pairs
    | false ↦ pair (stored k) (stored v) (stored_pairs n pairs)
  ]

pub is_nil-stored : (v : Value) → is_nil (stored v) ≡ is_nil v
unfolding stored
is_nil-stored nil = refl
is_nil-stored (boolean b) = refl
is_nil-stored (integer x) = refl
is_nil-stored (real x) = refl
is_nil-stored (pointer x) = refl
is_nil-stored (string s) = refl
is_nil-stored (table items pairs) = refl
is_nil-stored (paired pairs) = refl
is_nil-stored unsupported = refl

pub is_nan-stored : (v : Value) → is_nan (stored v) ≡ is_nan v
unfolding stored
is_nan-stored nil = refl
is_nan-stored (boolean b) = refl
is_nan-stored (integer x) = refl
is_nan-stored (real x) = refl
is_nan-stored (pointer x) = refl
is_nan-stored (string s) = refl
is_nan-stored (table items pairs) = refl
is_nan-stored (paired pairs) = refl
is_nan-stored unsupported = refl

-- With fuel above `bound`, `p` reads `a` off `printed` and leaves what follows.
abbrev pub Reads : {A : Type 0} → (ℕ → Reader A) → ℕ → List ℕ → A → Type 0
Reads p bound printed a = (rest : List ℕ) (f : ℕ) → bound < f → p f (printed ++ rest) ≡ ok (a, rest)

-- Fuel above a bound is a successor.
pub spend : {n : ℕ} (P : ℕ → Type 0) → ((f : ℕ) → n < suc f → P (suc f)) → (f : ℕ) → n < f → P f
spend P k zero h = absurd (omega (arith, h))
spend P k (suc f) h = k f h

pub one_lem :
    (f t c : ℕ) (input rest : List ℕ) (v : Value)
    → t < 8
    → push_value (unpack_table (unpack_items f) (unpack_pairs f)) t c input ≡ ok (v, rest)
    → unpack_one (suc f) (tag t c ∷ input) ≡ ok (v, rest)
unfolding unpack_one
one_lem f t c input rest v h run = rw (get_type_lem t c input h) run

module _ (tables : ℕ → Reader Value) (rest : List ℕ) where
  pub push_nil : push_value tables 0 0 rest ≡ ok (nil, rest)
  unfolding push_value
  push_nil = refl

  pub push_boolean :
      (b : Bool) → push_value tables 1 (if b then 1 else 0) rest ≡ ok (boolean b, rest)
  unfolding push_value
  push_boolean true = refl
  push_boolean false = refl

  pub push_integer :
      (c v : ℕ) (payload : List ℕ)
      → c < 8
      → get_integer c (payload ++ rest) ≡ ok (v, rest)
      → push_value tables 2 c (payload ++ rest) ≡ ok (integer v, rest)
  unfolding push_value
  push_integer c v payload h run = rw (==_ne c 8 (omega (arith, h))) rw run refl

  pub push_real :
      (v : ℕ) → v < 2 ^ 64 → push_value tables 2 8 (le_bytes 8 v ++ rest) ≡ ok (real v, rest)
  unfolding push_value
  push_real v h = rw (get_word_lem 8 v rest h) refl

  pub push_pointer :
      (v : ℕ) → v < 2 ^ 64 → push_value tables 3 0 (le_bytes 8 v ++ rest) ≡ ok (pointer v, rest)
  unfolding push_value
  push_pointer v h = rw (get_word_lem 8 v rest h) refl

  get_buffer_lem :
      (s : List ℕ) → length s < 2 ^ 31 → get_buffer (length s) (s ++ rest) ≡ ok (string s, rest)
  unfolding get_buffer
  get_buffer_lem s h = rw (lt→ltb (length s) (2 ^ 31) h, read_lem (length s) s rest refl) refl

  pub push_short :
      (s : List ℕ)
      → length s < 2 ^ 31
      → push_value tables 4 (length s) (s ++ rest) ≡ ok (string s, rest)
  unfolding push_value
  push_short s h = get_buffer_lem s h

  pub push_long2 :
      (s : List ℕ)
      → length s < 0x10000
      → push_value tables 5 2 (le_bytes 2 (length s) ++ (s ++ rest)) ≡ ok (string s, rest)
  unfolding push_value
  push_long2 s h =
      rw (get_word_lem 2 (length s) (s ++ rest) h) (get_buffer_lem s (omega (arith, h)))

  pub push_long4 :
      (s : List ℕ)
      → length s < 2 ^ 31
      → push_value tables 5 4 (le_bytes 4 (length s) ++ (s ++ rest)) ≡ ok (string s, rest)
  unfolding push_value
  push_long4 s h =
      rw (get_word_lem 4 (length s) (s ++ rest) (omega (arith, h))) (get_buffer_lem s h)

pub push_table :
    (read_items : ℕ → Reader Items) (read_pairs : Reader Pairs) (c n : ℕ)
    (payload in1 in2 rest : List ℕ) (items : Items) (pairs : Pairs)
    → get_size c (payload ++ in1) ≡ ok (n, in1)
    → read_items n in1 ≡ ok (items, in2)
    → read_pairs in2 ≡ ok (pairs, rest)
    → push_value (unpack_table read_items read_pairs) 6 c (payload ++ in1)
      ≡ ok (table items pairs, rest)
unfolding push_value unpack_table
push_table read_items read_pairs c n payload in1 in2 rest items pairs a b d = rw a rw b rw d refl
