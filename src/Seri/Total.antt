-- ===== src/Seri/Total.antt =====
-- `luaseri_unpack` ends on every input: each reader takes its fuel from the bytes that it reads.
use skynet_sy.Common.{
  ℕ, zero, suc, ◌+◌, ◌-◌, ◌*◌, ◌^◌, ◌≡◌, ◌≢◌, ◌≤◌, ◌<◌, refl, arith, Bool, true, false, not, ◌||◌,
  List, [], ◌∷◌, ◌==◌, if◌then◌else◌, ltb, length, Bool-cases, inl, inr, ◌⊎◌,
}
use skynet_sy.Common.Bytes.{length-drop, take}
use skynet_sy.Seri.Value.{Value, is_nan}
use skynet_sy.Seri.Unpack.{
  Outcome, ok, invalid, failed, out_of_fuel, ◌>>=◌, Reader, read, rb_read, get_word, get_integer,
  get_type, get_size, get_buffer, push_value, is_nil, unpack_table, unpack_one, unpack_items,
  unpack_pairs, unpack_all, luaseri_unpack, to_size,
}

-- The run kept within its fuel, and a value leaves at most `m` bytes.
data Leaves {A : Type 0} (m : ℕ) : Outcome (A × List ℕ) → Type 0 where
  holds : {a : A} {rest : List ℕ} → length rest ≤ m → Leaves m (ok (a, rest))
  rejected : Leaves m invalid
  raised : Leaves m failed

module _ {A B : Type 0} where
  Leaves-then :
      (m k : ℕ) (r : Outcome (A × List ℕ)) (f : A × List ℕ → Outcome (B × List ℕ))
      → Leaves m r
      → ((a : A) (rest : List ℕ) → length rest ≤ m → Leaves k (f (a, rest)))
      → Leaves k (r >>= f)
  Leaves-then m k _ f (holds {a} {rest} h) g = g a rest h
  Leaves-then m k _ f rejected g = rejected
  Leaves-then m k _ f raised g = raised

module _ {A : Type 0} where
  Leaves-if :
      (m : ℕ) (b : Bool) (x y : Outcome (A × List ℕ))
      → Leaves m x
      → Leaves m y
      → Leaves m (if b then x else y)
  Leaves-if m true x y p q = p
  Leaves-if m false x y p q = q

  Leaves-elim :
      (m : ℕ) (b : Bool) (x y : Outcome (A × List ℕ))
      → Leaves m x
      → Leaves m y
      → Leaves m (elim b [ true ↦ x | false ↦ y ])
  Leaves-elim m true x y p q = p
  Leaves-elim m false x y p q = q

  Leaves-less : (m k : ℕ) (r : Outcome (A × List ℕ)) → m ≤ k → Leaves m r → Leaves k r
  Leaves-less m k _ l (holds h) = holds (omega (arith, l, h))
  Leaves-less m k _ l rejected = rejected
  Leaves-less m k _ l raised = raised

  Leaves-ok : (m : ℕ) (a : A) (rest : List ℕ) → length rest ≤ m → Leaves m (ok (a, rest))
  Leaves-ok m a rest h = holds h

read-Leaves : (n : ℕ) (rest : List ℕ) → Leaves (length rest - n) (read n rest)
unfolding read rb_read
read-Leaves n rest = elim (Bool-cases (ltb (length rest) n)) [
  | inl few ↦ rw (read, few) rejected
  | inr there ↦ rw (read, there) (holds (omega (arith, length-drop n rest)))
]

word-Leaves : (n : ℕ) (rest : List ℕ) → Leaves (length rest - n) (get_word n rest)
unfolding get_word
word-Leaves n rest = Leaves-then _ _ (read n rest) _ (read-Leaves n rest) (λ bytes rest1 h. holds h)

word-Leaves_some : (n : ℕ) (rest : List ℕ) → Leaves (length rest) (get_word n rest)
word-Leaves_some n rest = Leaves-less _ _ _ (omega arith) (word-Leaves n rest)

integer-Leaves : (cookie : ℕ) (rest : List ℕ) → Leaves (length rest) (get_integer cookie rest)
unfolding get_integer
integer-Leaves cookie rest = Leaves-if _ (cookie == 0) _ _ (holds (omega arith)) (
    Leaves-if _ (cookie == 1) _ _ (word-Leaves_some 1 rest) (
      Leaves-if _ (cookie == 2) _ _ (word-Leaves_some 2 rest) (
        Leaves-if _ (cookie == 4) _ _
          (Leaves-then _ _ (get_word 4 rest) _ (word-Leaves_some 4 rest) (λ n rest1 h. holds h))
          (Leaves-if _ (cookie == 6) _ _ (word-Leaves_some 8 rest) rejected))))

buffer-Leaves : (n : ℕ) (rest : List ℕ) → Leaves (length rest) (get_buffer n rest)
unfolding get_buffer
buffer-Leaves n rest =
    Leaves-if _ (ltb n (2 ^ 31)) _ _
      (Leaves-then _ _ (read n rest) _
        (Leaves-less _ (length rest) _ (omega arith) (read-Leaves n rest))
        (λ bytes rest1 h. holds h))
      raised

type-Leaves : (rest : List ℕ) → Leaves (length rest) (get_type rest)
unfolding get_type
type-Leaves rest =
    Leaves-then _ _ (get_word 1 rest) _ (word-Leaves_some 1 rest) (λ n rest1 h. holds h)

size-Leaves : (cookie : ℕ) (rest : List ℕ) → Leaves (length rest) (get_size cookie rest)
unfolding get_size
size-Leaves cookie rest =
    Leaves-if _ (cookie == 31) _ _
      (Leaves-then _ _ (get_type rest) _ (type-Leaves rest) λ tc rest1 h.
        Leaves-if _ (not (tc.0 == 2) || tc.1 == 8) _ _ rejected (
          Leaves-less (length rest1) _ _ h (
            Leaves-then _ _ (get_integer tc.1 rest1) _ (integer-Leaves tc.1 rest1)
              (λ n rest2 h2. holds h2))))
      (holds (omega arith))

value-Leaves :
    (m : ℕ) (tables : ℕ → Reader Value) (type cookie : ℕ) (rest : List ℕ)
    → length rest ≤ m
    → Leaves m (tables cookie rest)
    → Leaves m (push_value tables type cookie rest)
unfolding push_value
value-Leaves m tables type cookie rest l h = Leaves-if m (type == 0) _ _ (holds l) (
    Leaves-if m (type == 1) _ _ (holds l) (
      Leaves-if m (type == 2) _ _
        (Leaves-if m (cookie == 8) _ _
          (Leaves-then m m (get_word 8 rest) _ (word 8) (λ n rest1 k. holds k))
          (Leaves-then m m (get_integer cookie rest) _
            (Leaves-less (length rest) m _ l (integer-Leaves cookie rest)) (λ n rest1 k. holds k)))
        (Leaves-if m (type == 3) _ _
          (Leaves-then m m (get_word 8 rest) _ (word 8) (λ n rest1 k. holds k))
          (Leaves-if m (type == 4) _ _ (Leaves-less (length rest) m _ l (buffer-Leaves cookie rest))
            (Leaves-if m (type == 5) _ _
              (Leaves-if m (cookie == 2) _ _ (long 2)
                (Leaves-if m (not (cookie == 4)) _ _ rejected (long 4)))
              (Leaves-if m (type == 6) _ _ h rejected))))))
  where
    word : (n : ℕ) → Leaves m (get_word n rest)
    word n = Leaves-less (length rest) m _ l (word-Leaves_some n rest)

    long : (n : ℕ) → Leaves m (get_word n rest >>= λ (k, rest1). get_buffer k rest1)
    long n =
        Leaves-then m m (get_word n rest) _ (word n)
          (λ k rest1 b. Leaves-less (length rest1) m _ b (buffer-Leaves k rest1))

first_byte : {m : ℕ} (rest : List ℕ) → length rest ≤ suc m → Leaves m (get_type rest)
unfolding get_type
first_byte {m} rest l =
    Leaves-then m m (get_word 1 rest) _
      (Leaves-less (length rest - 1) m _ (omega (arith, l)) (word-Leaves 1 rest))
      (λ n rest1 h. holds h)

-- Nothing is read off the end.
one_empty : (f : ℕ) (rest : List ℕ) → length rest ≤ 0 → 0 < f → unpack_one f rest ≡ invalid
unfolding unpack_one get_type get_word read rb_read
one_empty zero rest l h = absurd (omega (arith, h))
one_empty (suc f) [] l h = refl
one_empty (suc f) (x ∷ rest) l h = absurd (omega (arith, l))

-- The type byte is read, so that fewer bytes are left.
one-Leaves :
    (f m : ℕ) (rest : List ℕ)
    → length rest ≤ suc m
    → ((cookie : ℕ) (rest1 : List ℕ)
        → length rest1 ≤ m
        → Leaves m (unpack_table (unpack_items f) (unpack_pairs f) cookie rest1))
    → Leaves m (unpack_one (suc f) rest)
unfolding unpack_one
one-Leaves f m rest l g = Leaves-then m m (get_type rest) _ (first_byte rest l) λ tc rest1 l1.
    value-Leaves m (unpack_table (unpack_items f) (unpack_pairs f)) tc.0 tc.1 rest1 l1
      (g tc.1 rest1 l1)

mutual
  unfolding unpack_items unpack_table

  unpack_one-Leaves :
      (f m : ℕ) (rest : List ℕ) → length rest ≤ suc m → 2 * suc m < f → Leaves m (unpack_one f rest)
  unpack_one-Leaves zero m rest l h = absurd (omega (arith, h))
  unpack_one-Leaves (suc f) m rest l h = one-Leaves f m rest l λ cookie rest1 l1.
      Leaves-then (length rest1) m (get_size cookie rest1) _ (size-Leaves cookie rest1)
        λ n rest2 l2.
          Leaves-then m m (unpack_items f n rest2) _
            (unpack_items-Leaves f n m rest2 (omega (arith, l1, l2)) (omega (arith, h)))
            λ items rest3 l3.
              Leaves-then m m (unpack_pairs f rest3) _
                (unpack_pairs-Leaves f m rest3 l3 (omega (arith, h))) λ pairs rest4 l4. holds l4

  unpack_items-Leaves :
      (f n m : ℕ) (rest : List ℕ)
      → length rest ≤ m
      → 2 * m + 1 < f
      → Leaves m (unpack_items f n rest)
  unpack_items-Leaves zero n m rest l h = absurd (omega (arith, h))
  unpack_items-Leaves (suc f) zero m rest l h = holds l
  unpack_items-Leaves (suc f) (suc n) zero rest l h =
      rw (one_empty f rest l (omega (arith, h))) rejected
  unpack_items-Leaves (suc f) (suc n) (suc m) rest l h =
      Leaves-then m (suc m) (unpack_one f rest) _ (unpack_one-Leaves f m rest l (omega (arith, h)))
        λ v rest1 l1.
          Leaves-then m (suc m) (unpack_items f n rest1) _
            (unpack_items-Leaves f n m rest1 l1 (omega (arith, h)))
            λ items rest2 l2. holds (omega (arith, l2))

  unpack_pairs-Leaves :
      (f m : ℕ) (rest : List ℕ) → length rest ≤ m → 2 * m + 1 < f → Leaves m (unpack_pairs f rest)
  unpack_pairs-Leaves zero m rest l h = absurd (omega (arith, h))
  unpack_pairs-Leaves (suc f) zero rest l h = rw (one_empty f rest l (omega (arith, h))) rejected
  unpack_pairs-Leaves (suc f) (suc m) rest l h =
      Leaves-then m (suc m) (unpack_one f rest) _ (unpack_one-Leaves f m rest l (omega (arith, h)))
        λ k rest1 l1. Leaves-elim (suc m) (is_nil k) _ _ (holds (omega (arith, l1))) (
          Leaves-then m (suc m) (unpack_one f rest1) _
            (unpack_one-Leaves f m rest1 (omega (arith, l1)) (omega (arith, h)))
            λ v rest2 l2. Leaves-elim (suc m) (is_nan k) _ _ raised (
              Leaves-then m (suc m) (unpack_pairs f rest2) _
                (unpack_pairs-Leaves f m rest2 l2 (omega (arith, h)))
                λ pairs rest3 l3. holds (omega (arith, l3))))

Leaves-in_fuel : {A : Type 0} (m : ℕ) (r : Outcome (A × List ℕ)) → Leaves m r → r ≢ out_of_fuel
Leaves-in_fuel m _ (holds h) = cc
Leaves-in_fuel m _ rejected = cc
Leaves-in_fuel m _ raised = cc

Leaves-cases :
    {A : Type 0} (m : ℕ) (r : Outcome (A × List ℕ))
    → Leaves m r
    → ((a : A) × (rest : List ℕ) × (r ≡ ok (a, rest)) × (length rest ≤ m))
      ⊎ ((r ≡ invalid) ⊎ (r ≡ failed))
Leaves-cases m _ (holds {a} {rest} h) = inl (a, rest, refl, h)
Leaves-cases m _ rejected = inr (inl refl)
Leaves-cases m _ raised = inr (inr refl)

unpack_all_ends :
    (f : ℕ) (rest : List ℕ) → 2 * length rest + 1 < f → unpack_all f rest ≢ out_of_fuel
unfolding unpack_all
unpack_all_ends zero rest h = absurd (omega (arith, h))
unpack_all_ends (suc f) [] h = λ e. cc
unpack_all_ends (suc f) (x ∷ rest) h =
    elim (Leaves-cases (length rest) (unpack_one f (x ∷ rest))
      (unpack_one-Leaves f (length rest) (x ∷ rest) (omega arith) (omega (arith, h)))) [
        | inl (v, rest1, e, l) ↦
            rw e (then_ends (unpack_all f rest1) v (unpack_all_ends f rest1 (omega (arith, h, l))))
        | inr (inl e) ↦ rw e (λ q. cc)
        | inr (inr e) ↦ rw e (λ q. cc)
      ]
  where
    then_ends :
        (r : Outcome (List Value)) (v : Value)
        → r ≢ out_of_fuel
        → (r >>= λ vs. ok (v ∷ vs)) ≢ out_of_fuel
    then_ends (ok vs) v h = λ e. cc
    then_ends invalid v h = λ e. cc
    then_ends failed v h = λ e. cc
    then_ends out_of_fuel v h = absurd (h refl)

-- On every sequence of bytes the unpacking ends: with values, with the error of an invalid stream
-- or with another error of Lua.
pub luaseri_unpack-in_fuel : (bytes : List ℕ) → luaseri_unpack bytes ≢ out_of_fuel
unfolding luaseri_unpack
luaseri_unpack-in_fuel bytes =
    let input = take (to_size (length bytes)) bytes in
    unpack_all_ends (2 * length input + 2) input (omega arith)
