-- ===== src/Seri/Unpack.antt =====
-- skynet-1.2.0/lualib-src/lua-seri.c: `luaseri_unpack`. A reader takes the bytes from `ptr` on and
-- gives the bytes left. A table is given by the stores that fill it, in order.
use Prim.Native.Nat.{bit_and}
use skynet_sy.Common.{
  ℕ, zero, suc, ◌+◌, ◌-◌, ◌*◌, ◌/◌, ◌%◌, ◌^◌, Bool, true, false, not, ◌||◌, Option, none, some,
  List, [], ◌∷◌, ◌==◌, if◌then◌else◌, ltb, length,
}
use skynet_sy.Common.Bytes.{take, drop, from_le}
use skynet_sy.Seri.Value.{
  Value, Items, Pairs, nil, boolean, integer, real, pointer, string, table, paired, unsupported,
  no_items, item, no_pairs, pair, is_nan,
}
use skynet_sy.Seri.Pack.{max_cookie, sign_extend}

-- `invalid` is the error of `invalid_stream`, and `failed` another Lua error; `out_of_fuel` has no counterpart in the program.
pub data Outcome {ℓ} (A : Type ℓ) : Type ℓ where
  ok : A → Outcome A
  invalid failed out_of_fuel : Outcome A

infixl 5 ◌>>=◌
abbrev pub ◌>>=◌ {ℓ κ} : {A : Type ℓ} {B : Type κ} → Outcome A → (A → Outcome B) → Outcome B
ok a >>= f = f a
invalid >>= f = invalid
failed >>= f = failed
out_of_fuel >>= f = out_of_fuel

abbrev pub Reader : Type 0 → Type 0
Reader A = List ℕ → Outcome (A × List ℕ)

-- the bytes read and those left, or a null pointer
unfoldable pub rb_read : List ℕ → ℕ → Option (List ℕ × List ℕ)
rb_read rest sz = if ltb (length rest) sz then none else some (take sz rest, drop sz rest)

-- if (p == NULL) invalid_stream(L, rb);
unfoldable pub read : ℕ → Reader (List ℕ)
unfolding rb_read
read sz rest = elim (rb_read rest sz) [ none ↦ invalid | some r ↦ ok r ]

-- a word of `n` bytes
unfoldable pub get_word : ℕ → Reader ℕ
get_word n rest = read n rest >>= λ (bytes, rest1). ok (from_le bytes, rest1)

unfoldable pub get_integer : ℕ → Reader ℕ
unfolding get_word
get_integer cookie rest =
    if cookie == 0
    then ok (0, rest)
    else if cookie == 1
    then get_word 1 rest
    else if cookie == 2
    then get_word 2 rest
    else if cookie == 4
    then (get_word 4 rest >>= λ (n, rest1). ok (sign_extend n, rest1))
    else if cookie == 6
    then get_word 8 rest
    else invalid

-- A length from 2 ^ 31 on is a negative `int`: `rb_read` lets it pass, and Lua makes no string of it.
unfoldable pub get_buffer : ℕ → Reader Value
get_buffer len rest =
    if ltb len (2 ^ 31)
    then (read len rest >>= λ (bytes, rest1). ok (string bytes, rest1))
    else failed

-- The type and the cookie of the next value.
unfoldable pub get_type : Reader (ℕ × ℕ)
get_type rest = get_word 1 rest >>= λ (t, rest1). ok ((bit_and t 7, t / 2 ^ 3), rest1)

-- (int) of a lua_Integer; the loop over a negative size makes no round
abbrev pub to_size : ℕ → ℕ
to_size x = if ltb (x % 2 ^ 32) (2 ^ 31) then x % 2 ^ 32 else 0

-- the size of the array of a table with this cookie
unfoldable pub get_size : ℕ → Reader ℕ
unfolding get_type get_integer
get_size array_size rest =
    if array_size == max_cookie - 1
    then (get_type rest >>= λ ((type, cookie), rest1).
        if not (type == 2) || cookie == 8
        then invalid
        else (get_integer cookie rest1 >>= λ (x, rest2). ok (to_size x, rest2)))
    else ok (array_size, rest)

-- `push_value`, with what reads a table of a given cookie
unfoldable pub push_value : (ℕ → Reader Value) → ℕ → ℕ → Reader Value
unfolding get_integer get_buffer
push_value unpack_table type cookie rest =
    if type == 0
    then ok (nil, rest)
    else if type == 1
    then ok (boolean (not (cookie == 0)), rest)
    else if type == 2
    then (if cookie == 8
        then (get_word 8 rest >>= λ (w, rest1). ok (real w, rest1))
        else (get_integer cookie rest >>= λ (x, rest1). ok (integer x, rest1)))
    else if type == 3
    then (get_word 8 rest >>= λ (w, rest1). ok (pointer w, rest1))
    else if type == 4
    then get_buffer cookie rest
    else if type == 5
    then (if cookie == 2
        then (get_word 2 rest >>= λ (n, rest1). get_buffer n rest1)
        else if not (cookie == 4)
        then invalid
        else (get_word 4 rest >>= λ (n, rest1). get_buffer n rest1))
    else if type == 6
    then unpack_table cookie rest
    else invalid

abbrev pub is_nil : Value → Bool
is_nil nil = true
is_nil (boolean b) = false
is_nil (integer x) = false
is_nil (real x) = false
is_nil (pointer x) = false
is_nil (string s) = false
is_nil (table items pairs) = false
is_nil (paired pairs) = false
is_nil unsupported = false

-- `unpack_table`, with what reads the items and the pairs
unfoldable pub unpack_table : (ℕ → Reader Items) → Reader Pairs → ℕ → Reader Value
unfolding get_size
unpack_table read_items read_pairs cookie rest = get_size cookie rest >>= λ (n, rest1).
    read_items n rest1 >>= λ (items, rest2).
    read_pairs rest2 >>= λ (pairs, rest3). ok (table items pairs, rest3)

-- Each call costs a unit of fuel. `lua_rawset` raises an error for a key that is a NaN.
unfoldable mutual
  unfolding push_value get_type unpack_table

  pub unpack_one : ℕ → Reader Value
  unpack_one zero rest = out_of_fuel
  unpack_one (suc f) rest = get_type rest >>= λ ((type, cookie), rest1).
      push_value (unpack_table (unpack_items f) (unpack_pairs f)) type cookie rest1

  pub unpack_items : ℕ → ℕ → Reader Items
  unpack_items zero n rest = out_of_fuel
  unpack_items (suc f) zero rest = ok (no_items, rest)
  unpack_items (suc f) (suc n) rest = unpack_one f rest >>= λ (v, rest1).
      unpack_items f n rest1 >>= λ (items, rest2). ok (item v items, rest2)

  pub unpack_pairs : ℕ → Reader Pairs
  unpack_pairs zero rest = out_of_fuel
  unpack_pairs (suc f) rest = unpack_one f rest >>= λ (k, rest1). elim (is_nil k) [
    | true ↦ ok (no_pairs, rest1)
    | false ↦ unpack_one f rest1 >>= λ (v, rest2). elim (is_nan k) [
      | true ↦ failed
      | false ↦ unpack_pairs f rest2 >>= λ (pairs, rest3). ok (pair k v pairs, rest3)
    ]
  ]

-- for (i = 0; ; i++): values up to the end of the buffer
unfoldable pub unpack_all : ℕ → List ℕ → Outcome (List Value)
unpack_all zero rest = out_of_fuel
unpack_all (suc f) [] = ok []
unpack_all (suc f) (b ∷ rest) =
    unpack_one f (b ∷ rest) >>= λ (v, rest1). unpack_all f rest1 >>= λ vs. ok (v ∷ vs)

-- The length of the bytes, as an `int`, bounds what is read.
unfoldable pub luaseri_unpack : List ℕ → Outcome (List Value)
unfolding unpack_all
luaseri_unpack bytes =
    let input = take (to_size (length bytes)) bytes in unpack_all (2 * length input + 2) input
