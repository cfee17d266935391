-- ===== src/Seri/Words.antt =====
-- What the readers of lua-seri.c get from the bytes of a word, an integer, a tag or a size.
use Prim.Native.Nat.{bit_and}
use skynet_sy.Common.{
  ℕ, ◌+◌, ◌*◌, ◌/◌, ◌%◌, ◌^◌, ◌≡◌, ◌≢◌, ◌<◌, refl, ◌∙◌, ap, arith, List, [], ◌∷◌, ◌++◌, ◌==◌, ltb,
  leb, length, length-append, le→ltb_false, Bool-cases, inl, inr, ==_ne,
}
use skynet_sy.Common.Bits.{bit_and_mask}
use skynet_sy.Common.Bytes.{take, drop, le_bytes, from_le-le_bytes, length-le_bytes}
use skynet_sy.Seri.Pack.{sign_extend}
use skynet_sy.Seri.Unpack.{ok, read, rb_read, get_word, get_integer, get_type, get_size}
use skynet_sy.Seri.Emit.{tag, emit_integer, emit_size}

take-append : (xs ys : List ℕ) → take (length xs) (xs ++ ys) ≡ xs
take-append [] ys = refl
take-append (x ∷ xs) ys = ap (λ l. x ∷ l) (take-append xs ys)

drop-append : (xs ys : List ℕ) → drop (length xs) (xs ++ ys) ≡ ys
drop-append [] ys = refl
drop-append (x ∷ xs) ys = drop-append xs ys

pub read_lem : (n : ℕ) (xs rest : List ℕ) → length xs ≡ n → read n (xs ++ rest) ≡ ok (xs, rest)
unfolding read rb_read
read_lem n xs rest e =
    rw (← e) rw
      (
        read,
        le→ltb_false (length (xs ++ rest)) (length xs) (omega (arith, length-append xs rest)),
        take-append xs rest,
        drop-append xs rest,
      )
      refl

pub get_word_lem :
    (n v : ℕ) (rest : List ℕ) → v < 256 ^ n → get_word n (le_bytes n v ++ rest) ≡ ok (v, rest)
unfolding get_word
get_word_lem n v rest h =
    rw (read_lem n (le_bytes n v) rest (length-le_bytes n v)) rw (from_le-le_bytes n v h) refl

pub get_type_lem : (t c : ℕ) (rest : List ℕ) → t < 8 → get_type (tag t c ∷ rest) ≡ ok ((t, c), rest)
unfolding get_type get_word
get_type_lem t c rest h = rw (read_lem 1 (tag t c ∷ []) rest refl) rw (low, high) refl
  where
    low : bit_and (tag t c + 0 * 256) 7 ≡ t
    low = bit_and_mask 3 (tag t c + 0 * 256) ∙ omega (arith, h)

    high : (tag t c + 0 * 256) / 2 ^ 3 ≡ c
    high = omega (arith, h)

-- The cookie and the bytes of an integer.
pub record IntegerParts (v : ℕ) : Type 0 where
  pub cookie : ℕ
  pub payload : List ℕ
  pub small : cookie < 8
  pub printed : emit_integer v ≡ tag 2 cookie ∷ payload
  pub reads : (rest : List ℕ) → get_integer cookie (payload ++ rest) ≡ ok (v, rest)

dword :
    (n : ℕ) (rest : List ℕ)
    → n < 2 ^ 32
    → get_integer 4 (le_bytes 4 n ++ rest) ≡ ok (sign_extend n, rest)
unfolding get_integer
dword n rest h = rw (get_word_lem 4 n rest h) refl

pub integer_parts : (v : ℕ) → v < 2 ^ 64 → IntegerParts v
unfolding emit_integer get_integer
integer_parts v h = elim (Bool-cases (v == 0)) [
  | inl z ↦ record {
    cookie = 0;
    payload = [];
    small = omega arith;
    printed = rw z refl;
    reads = λ rest. ap (λ n. ok (n, rest)) (ground (arith, z));
  }
  | inr nz ↦ elim (Bool-cases (v == sign_extend v)) [
    | inr wide ↦ record {
      cookie = 6;
      payload = le_bytes 8 v;
      small = omega arith;
      printed = rw (nz, wide) refl;
      reads = λ rest. get_word_lem 8 v rest h;
    }
    | inl narrow ↦ elim (Bool-cases (leb (2 ^ 63) v)) [
      | inl neg ↦ record {
        cookie = 4;
        payload = le_bytes 4 (v % 2 ^ 32);
        small = omega arith;
        printed = rw (emit_integer, nz, narrow, neg) refl;
        reads = λ rest.
            dword (v % 2 ^ 32) rest (omega arith)
            ∙ ap (λ n. ok (n, rest)) (ground (arith, narrow, neg));
      }
      | inr pos ↦ elim (Bool-cases (ltb v 0x100)) [
        | inl b ↦ record {
          cookie = 1;
          payload = le_bytes 1 v;
          small = omega arith;
          printed = rw (emit_integer, nz, narrow, pos, b) refl;
          reads = λ rest. get_word_lem 1 v rest (ground (arith, b));
        }
        | inr nb ↦ elim (Bool-cases (ltb v 0x10000)) [
          | inl w ↦ record {
            cookie = 2;
            payload = le_bytes 2 v;
            small = omega arith;
            printed = rw (emit_integer, nz, narrow, pos, nb, w) refl;
            reads = λ rest. get_word_lem 2 v rest (ground (arith, w));
          }
          | inr nw ↦ record {
            cookie = 4;
            payload = le_bytes 4 v;
            small = omega arith;
            printed = rw (emit_integer, nz, narrow, pos, nb, nw) refl;
            reads = λ rest.
                dword v rest (ground (arith, narrow, pos))
                ∙ ap (λ n. ok (n, rest)) (ground (arith, narrow, pos));
          }
        ]
      ]
    ]
  ]
]

-- The cookie and the bytes of the size of an array.
pub record SizeParts (n : ℕ) : Type 0 where
  pub cookie : ℕ
  pub payload : List ℕ
  pub printed : emit_size n ≡ tag 6 cookie ∷ payload
  pub reads : (rest : List ℕ) → get_size cookie (payload ++ rest) ≡ ok (n, rest)

large_size :
    (n c : ℕ) (payload rest : List ℕ)
    → c < 8
    → n < 2 ^ 31
    → get_integer c (payload ++ rest) ≡ ok (n, rest)
    → get_size 31 (tag 2 c ∷ (payload ++ rest)) ≡ ok (n, rest)
unfolding get_size
large_size n c payload rest small h run =
    rw (get_type_lem 2 c (payload ++ rest) (omega arith)) rw (==_ne c 8 (omega (arith, small))) rw
      run (ap (λ x. ok (x, rest)) (ground (arith, h)))

pub small_size : (n : ℕ) (rest : List ℕ) → n ≢ 31 → get_size n rest ≡ ok (n, rest)
unfolding get_size
small_size n rest h = rw (==_ne n 31 h) refl

pub size_parts : (n : ℕ) → n < 2 ^ 31 → SizeParts n
unfolding emit_size
size_parts n h = elim (Bool-cases (leb 31 n)) [
  | inl many ↦
      let p = integer_parts n (omega (arith, h)) in
      record {
        cookie = 31;
        payload = tag 2 p.cookie ∷ p.payload;
        printed = rw (emit_size, many) (ap (λ l. tag 6 31 ∷ l) p.printed);
        reads = λ rest. large_size n p.cookie p.payload rest p.small h (p.reads rest);
      }
  | inr few ↦ record {
    cookie = n;
    payload = [];
    printed = rw (emit_size, few) refl;
    reads = λ rest. small_size n rest (ground (arith, few));
  }
]
