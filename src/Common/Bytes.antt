-- ===== src/Common/Bytes.antt =====
-- Lists of bytes: what `memcpy` takes, splits of a list, and words in little-endian order.
use native.Mathlib.Nat.{pow-suc}
use skynet_sy.Common.{
  ℕ, zero, suc, ◌+◌, ◌-◌, ◌*◌, ◌/◌, ◌%◌, ◌^◌, ◌≡◌, ◌≤◌, ◌<◌, refl, sym, ◌∙◌, ap, arith, Option,
  none, some, List, [], ◌∷◌, ◌++◌, ◌>>=◌, length,
}

-- memcpy(buffer, a + from, n): a read past the end faults
abbrev pub slice : List ℕ → ℕ → ℕ → Option (List ℕ)
slice xs zero zero = some []
slice [] zero (suc n) = none
slice (x ∷ xs) zero (suc n) = slice xs zero n >>= λ ys. some (x ∷ ys)
slice [] (suc from) n = none
slice (x ∷ xs) (suc from) n = slice xs from n

pub slice_lem : (pre xs ys : List ℕ) → slice (pre ++ (xs ++ ys)) (length pre) (length xs) ≡ some xs
slice_lem [] [] ys = refl
slice_lem [] (x ∷ xs) ys = rw (slice_lem [] xs ys) refl
slice_lem (p ∷ pre) xs ys = slice_lem pre xs ys

-- The shorter of two beginnings of a list begins the other.
pub split_prefix :
    (as' bs cs ds : List ℕ)
    → as' ++ bs ≡ cs ++ ds
    → length as' ≤ length cs
    → (ms : List ℕ) × (cs ≡ as' ++ ms) × (bs ≡ ms ++ ds)
split_prefix [] bs cs ds e l = (cs, refl, e)
split_prefix (a ∷ as') bs [] ds e l = absurd (omega (arith, l))
split_prefix (a ∷ as') bs (c ∷ cs) ds e l =
    let (ms, ec, eb) = split_prefix as' bs cs ds (tail_eq e) (omega (arith, l)) in
    (ms, head_eq ms e ec, eb)
  where
    tail_eq : a ∷ (as' ++ bs) ≡ c ∷ (cs ++ ds) → as' ++ bs ≡ cs ++ ds
    tail_eq q = cc q

    head_eq :
        (ms : List ℕ) → a ∷ (as' ++ bs) ≡ c ∷ (cs ++ ds) → cs ≡ as' ++ ms → c ∷ cs ≡ a ∷ (as' ++ ms)
    head_eq ms q r = cc (q, r)

pub length_zero : (xs : List ℕ) → length xs ≡ 0 → xs ≡ []
length_zero [] e = refl
length_zero (x ∷ xs) e = absurd (omega (arith, e))

pub append_assoc : (xs ys zs : List ℕ) → (xs ++ ys) ++ zs ≡ xs ++ (ys ++ zs)
append_assoc [] ys zs = refl
append_assoc (x ∷ xs) ys zs = ap (λ l. x ∷ l) (append_assoc xs ys zs)

pub append_nil : (xs : List ℕ) → xs ++ [] ≡ xs
append_nil [] = refl
append_nil (x ∷ xs) = ap (λ l. x ∷ l) (append_nil xs)

abbrev pub concat : List (List ℕ) → List ℕ
concat [] = []
concat (x ∷ xs) = x ++ concat xs

pub concat-snoc : (xs : List (List ℕ)) (y : List ℕ) → concat (xs ++ y ∷ []) ≡ concat xs ++ y
concat-snoc [] y = append_nil y
concat-snoc (x ∷ xs) y = ap (λ l. x ++ l) (concat-snoc xs y) ∙ sym (append_assoc x (concat xs) y)

pub concat-append : (xs ys : List (List ℕ)) → concat (xs ++ ys) ≡ concat xs ++ concat ys
concat-append [] ys = refl
concat-append (x ∷ xs) ys =
    ap (λ l. x ++ l) (concat-append xs ys) ∙ sym (append_assoc x (concat xs) (concat ys))

-- The first bytes of a list, or all.
abbrev pub take : ℕ → List ℕ → List ℕ
take zero xs = []
take (suc n) [] = []
take (suc n) (x ∷ xs) = x ∷ take n xs

abbrev pub drop : ℕ → List ℕ → List ℕ
drop zero xs = xs
drop (suc n) [] = []
drop (suc n) (x ∷ xs) = drop n xs

pub take-append-drop : (n : ℕ) (xs : List ℕ) → take n xs ++ drop n xs ≡ xs
take-append-drop zero xs = refl
take-append-drop (suc n) [] = refl
take-append-drop (suc n) (x ∷ xs) = ap (λ l. x ∷ l) (take-append-drop n xs)

pub length-take : (n : ℕ) (xs : List ℕ) → n ≤ length xs → length (take n xs) ≡ n
length-take zero xs h = refl
length-take (suc n) [] h = absurd (omega (arith, h))
length-take (suc n) (x ∷ xs) h = ap suc (length-take n xs (omega (arith, h)))

pub length-drop : (n : ℕ) (xs : List ℕ) → length (drop n xs) ≡ length xs - n
length-drop zero xs = omega arith
length-drop (suc n) [] = omega arith
length-drop (suc n) (x ∷ xs) = omega (arith, length-drop n xs)

-- The `n` bytes of a word, lowest first, and the word of such bytes.
abbrev pub le_bytes : ℕ → ℕ → List ℕ
le_bytes zero v = []
le_bytes (suc n) v = (v % 256) ∷ le_bytes n (v / 256)

abbrev pub from_le : List ℕ → ℕ
from_le [] = 0
from_le (b ∷ bs) = b + from_le bs * 256

pub length-le_bytes : (n v : ℕ) → length (le_bytes n v) ≡ n
length-le_bytes zero v = refl
length-le_bytes (suc n) v = ap suc (length-le_bytes n (v / 256))

pub from_le-le_bytes : (n v : ℕ) → v < 256 ^ n → from_le (le_bytes n v) ≡ v
from_le-le_bytes zero v h = omega (arith, h)
from_le-le_bytes (suc n) v h =
    omega (arith, from_le-le_bytes n (v / 256) (omega (arith, h, pow-suc 256 n)))
