-- ===== src/Common/Ring.antt =====
-- Rings in arrays of cells, and the loop that copies one to the front of a larger array.
use mathlib.Core.List.{append_assoc, append-nil}
use native.Mathlib.Decide.{dec_lt}
use native.Mathlib.Nat.{add-zero, mod_self, mod-add-mod, mod-eq_of_lt, mod-eq-sub-mod}
use skynet_sy.Common.{
  ℕ, zero, suc, ◌+◌, ◌-◌, ◌%◌, ◌≤◌, ◌<◌, ◌≡◌, ◌≢◌, refl, sym, ◌∙◌, ap, arith, Option, none, some,
  List, [], ◌∷◌, ◌++◌, length, get_elem?, set, replicate, Cell, load, store, store_lem,
  length-append, get_elem?-set_ne, ltb, Bool-cases, inl, inr, leb, if◌then◌else◌, ◌>>=◌,
}

-- for (i = 0; i < n; i++) new_queue[i] = q->queue[(head + i) % cap], from `i` on.
unfoldable pub copy_ring :
    {A : Type 0} → ℕ → ℕ → List (Cell A) → ℕ → ℕ → List (Cell A) → Option (List (Cell A))
copy_ring zero i old head cap new = some new
copy_ring (suc n) i old head cap new = do
  m ← load old ((head + i) % cap)
  new' ← store new i (some m)
  copy_ring n (i + 1) old head cap new'

-- The cells from index `h` on, going round at `n`, hold the messages `ms`.
module _ {A : Type 0} (cells : List (Cell A)) (n : ℕ) where
  abbrev pub Window : ℕ → List A → Type 0
  Window h [] = Unit
  Window h (m ∷ ms) = (get_elem? cells h ≡ some (some m)) × Window ((h + 1) % n) ms

-- `k` steps round a ring of `n` cells from `h`
pub step-mod : (n h k : ℕ) → ((h + 1) % n + k) % n ≡ (h + suc k) % n
step-mod n h k = mod-add-mod (h + 1) n k ∙ ap (λ t. t % n) (omega arith)

pub add-mod-ne : (n h k : ℕ) → h < n → suc k < n → (h + suc k) % n ≢ h
add-mod-ne n h k hh hk = elim (dec_lt (h + suc k) n) [
  | yes p ↦ omega (arith, mod-eq_of_lt p)
  | no p ↦ omega (
    arith,
    mod-eq-sub-mod {n = h + suc k} {m = n} (omega arith),
    mod-eq_of_lt {n = h + suc k - n} {m = n} (omega arith),
  )
]

-- All the way round the ring
pub add-mod_self : (n h : ℕ) → h < n → (h + n) % n ≡ h
add-mod_self n h hh =
    mod-eq-sub-mod {n = h + n} {m = n} (omega arith)
    ∙ ap (λ k. k % n) (omega arith)
    ∙ mod-eq_of_lt hh

-- A write just past the window leaves it.
pub Window-set :
    {A : Type 0} (cells : List (Cell A)) (n h t : ℕ) (c : Cell A) (ms : List A)
    → h < n
    → t ≡ (h + length ms) % n
    → length ms < n
    → Window cells n h ms
    → Window (set cells t c) n h ms
Window-set cells n h t c [] hh e l w = tt
Window-set cells n h t c (m ∷ ms) hh e l w = (
  get_elem?-set_ne cells t h c (λ p. add-mod-ne n h (length ms) hh l (sym e ∙ p)) ∙ w.0,
  Window-set cells n ((h + 1) % n) t c ms (omega arith) (e ∙ sym (step-mod n h (length ms)))
      (omega arith) w.1,
)

-- A message in the cell just past the window makes it longer by one.
pub Window-snoc :
    {A : Type 0} (cells : List (Cell A)) (n h t : ℕ) (m : A) (ms : List A)
    → h < n
    → t ≡ (h + length ms) % n
    → get_elem? cells t ≡ some (some m)
    → Window cells n h ms
    → Window cells n h (ms ++ m ∷ [])
Window-snoc cells n h t m [] hh e g w = (
  let q : t ≡ h = e ∙ ap (λ k. k % n) (add-zero h) ∙ mod-eq_of_lt hh in
      ap (get_elem? cells) (sym q) ∙ g,
  tt,
)
Window-snoc cells n h t m (x ∷ ms) hh e g w = (
  w.0,
  Window-snoc cells n ((h + 1) % n) t m ms (omega arith) (e ∙ sym (step-mod n h (length ms))) g w.1,
)

-- the successor as the code computes it
pub next_index : (n t : ℕ) → t < n → (if leb n (t + 1) then 0 else t + 1) ≡ (t + 1) % n
next_index n t h = elim (Bool-cases (leb n (t + 1))) [
  | inl e ↦ rw e (let full : t + 1 ≡ n = ground arith in rw full (sym (mod_self n)))
  | inr e ↦ rw e (sym (mod-eq_of_lt (ground arith)))
]

-- The distance from head to tail, with `cap` added where it is negative, is the number of messages.
pub distance :
    (n h k : ℕ)
    → h < n
    → k < n
    → (if ltb ((h + k) % n) h then (h + k) % n + n - h else (h + k) % n - h) ≡ k
distance n h k hh hk = elim (dec_lt (h + k) n) [
  | yes p ↦ rw (mod-eq_of_lt p) (ground arith)
  | no p ↦
      rw
        (
          mod-eq-sub-mod {n = h + k} {m = n} (omega arith),
          mod-eq_of_lt {n = h + k - n} {m = n} (omega arith),
        )
        (ground arith)
]

-- cells that hold the messages `ms`
abbrev pub cells_of : {A : Type 0} → List A → List (Cell A)
cells_of [] = []
cells_of (m ∷ ms) = some m ∷ cells_of ms

pub length-cells_of : {A : Type 0} (ms : List A) → length (cells_of ms) ≡ length ms
length-cells_of [] = refl
length-cells_of (m ∷ ms) = ap suc (length-cells_of ms)

pub cells_of-append :
    {A : Type 0} (xs ys : List A) → cells_of (xs ++ ys) ≡ cells_of xs ++ cells_of ys
cells_of-append [] ys = refl
cells_of-append (x ∷ xs) ys = ap (λ l. some x ∷ l) (cells_of-append xs ys)

set-append {ℓ} :
    {A : Type ℓ} (xs ys : List A) (y v : A) → set (xs ++ y ∷ ys) (length xs) v ≡ xs ++ v ∷ ys
set-append [] ys y v = refl
set-append (x ∷ xs) ys y v = ap (λ l. x ∷ l) (set-append xs ys y v)

get_elem?-append {ℓ} :
    {A : Type ℓ} (xs ys : List A) (y : A) → get_elem? (xs ++ y ∷ ys) (length xs) ≡ some y
get_elem?-append [] ys y = refl
get_elem?-append (x ∷ xs) ys y = get_elem?-append xs ys y

-- the write of one round
store-append :
    {A : Type 0} (done : List A) (rest : List (Cell A)) (m : A)
    → store (cells_of done ++ none ∷ rest) (length done) (some m)
      ≡ some (cells_of (done ++ m ∷ []) ++ rest)
store-append done rest m =
    let inside : length (cells_of done) < length (cells_of done ++ none ∷ rest) =
      omega (arith, length-append (cells_of done) (none ∷ rest)) in
    rw (sym (length-cells_of done)) (
      store_lem (cells_of done ++ none ∷ rest) _ (some m) inside
      ∙ ap some
          (set-append (cells_of done) rest none (some m) ∙ simp (cells_of-append, append_assoc)))

pub copy_ring_lem :
    {A : Type 0} (ms done : List A) (old : List (Cell A)) (h n extra : ℕ)
    → Window old n ((h + length done) % n) ms
    → copy_ring
        (length ms)
        (length done)
        old
        h
        n
        (cells_of done ++ replicate (length ms + extra) none)
      ≡ some (cells_of (done ++ ms) ++ replicate extra none)
unfolding copy_ring
copy_ring_lem [] done old h n extra w =
    let e : 0 + extra ≡ extra = omega arith in rw (e, append-nil)
copy_ring_lem (m ∷ ms) done old h n extra w =
    let count : suc (length ms) + extra ≡ suc (length ms + extra) = omega arith in
    let next : length done + 1 ≡ length (done ++ m ∷ []) =
      omega (arith, length-append done (m ∷ [])) in
    let place : ((h + length done) % n + 1) % n ≡ (h + length (done ++ m ∷ [])) % n =
      mod-add-mod (h + length done) n 1
      ∙ ap (λ t. t % n) (omega (arith, length-append done (m ∷ []))) in
    let rest = copy_ring_lem ms (done ++ m ∷ []) old h n extra (rw place at w.1) in
    let goes_on : copy_ring (length ms) (length done + 1) old h n
          (cells_of (done ++ m ∷ []) ++ replicate (length ms + extra) none)
        ≡ some (cells_of (done ++ m ∷ ms) ++ replicate extra none) =
      rw next (rest ∙ simp append_assoc) in
    rw count (rw w.0 (rw (store-append done (replicate (length ms + extra) none) m) goes_on))

-- An array that holds `ms` from index `length done` on, in order.
pub Window-cells_of :
    {A : Type 0} (ms done : List A) (rest : List (Cell A)) (n : ℕ)
    → length done + length ms ≤ n
    → Window (cells_of (done ++ ms) ++ rest) n (length done % n) ms
Window-cells_of [] done rest n h = tt
Window-cells_of (m ∷ ms) done rest n h =
    let here : length done % n ≡ length done = mod-eq_of_lt (omega arith) in
    let later =
      Window-cells_of ms (done ++ m ∷ []) rest n (omega (arith, length-append done (m ∷ []))) in
    let next : length (done ++ m ∷ []) % n ≡ (length done % n + 1) % n =
      ap (λ t. t % n) (length-append done (m ∷ [])) ∙ sym (mod-add-mod (length done) n 1) in
    (
      rw (here, ← length-cells_of done)
          (simp (cells_of-append, append_assoc)
            (get_elem?-append (cells_of done) (cells_of ms ++ rest) (some m))),
      rw next at (simp append_assoc at later),
    )
