-- ===== src/Socket/Shape.antt =====
-- skynet-1.2.0/skynet-src/socket_server.c: lists of write buffers that hold packages.
use skynet_sy.Common.{
  ℕ, zero, suc, ◌+◌, ◌-◌, ◌≤◌, ◌<◌, ◌≡◌, refl, sym, ◌∙◌, ap, arith, true, false, none, some, List,
  [], ◌∷◌, ◌++◌, length, Bool-cases, inl, inr,
}
use skynet_sy.Common.Bytes.{take, drop, concat}
use skynet_sy.Socket.State.{
  invalid, reserve, is_type, WriteBuffer, Socket, WriteOutcome, wrote, interrupted, again, broken,
}
use skynet_sy.Socket.Send.{force_close, send_list_tcp}
use skynet_sy.Socket.Flow.{part, Partial}

-- The buffers of packages, `k` bytes of the first written
abbrev pub shape : ℕ → List (List ℕ) → List WriteBuffer
shape k [] = []
shape k (x ∷ xs) = record { buffer = x; ptr = k; sz = length x - k } ∷ shape 0 xs

abbrev pub total : List WriteBuffer → ℕ
total [] = 0
total (wb ∷ list) = wb.sz + total list

-- The buffer of the system is full at last, or the connection fails.
abbrev pub Stops : List WriteOutcome → Type 0
Stops [] = ⊥
Stops (wrote n ∷ os) = Stops os
Stops (interrupted ∷ os) = Stops os
Stops (again ∷ os) = Unit
Stops (broken ∷ os) = Unit

abbrev pub Fails : List WriteOutcome → Type 0
Fails [] = ⊥
Fails (wrote n ∷ os) = Fails os
Fails (interrupted ∷ os) = Fails os
Fails (again ∷ os) = Fails os
Fails (broken ∷ os) = Unit

-- `wire` takes `k` bytes of the first of `items` to all of `done` and `k'` bytes of the next.
pub record Progress (k : ℕ) (items : List (List ℕ)) (wire : List ℕ) (done : List (List ℕ)) (k' : ℕ)
    (items' : List (List ℕ)) : Type 0 where
  pub split : items ≡ done ++ items'
  pub bytes : part k items ++ wire ≡ concat done ++ part k' items'
  pub partial : Partial k' items'
  pub grows : done ≡ [] → k ≤ k'

pub data Sends (os : List WriteOutcome) (s : Socket) (c k : ℕ) (items : List (List ℕ))
    : Type 0 where
  stays :
      (done : List (List ℕ)) (k' : ℕ) (items' : List (List ℕ)) (wire : List ℕ)
      (rest : List WriteOutcome) (a b : ℕ)
      → send_list_tcp os s (shape k items)
        ≡ some (record {
          alive = true;
          socket = record s { written = a; wb_size = b };
          list = shape k' items';
          wire = wire;
          rest = rest;
        })
      → Progress k items wire done k' items'
      → b ≡ total (shape k' items') + c
      → (items' ≡ [] → Stops rest)
      → (Fails rest → Fails os)
      → Sends os s c k items
  dies :
      (done : List (List ℕ)) (k' : ℕ) (items' : List (List ℕ)) (wire : List ℕ)
      (rest : List WriteOutcome) (s' : Socket)
      → send_list_tcp os s (shape k items)
        ≡ some (record { alive = false; socket = s'; list = []; wire = wire; rest = rest })
      → Progress k items wire done k' items'
      → is_type s'.socket_type invalid ≡ true
      → Fails os
      → Sends os s c k items

suc_add : (k n : ℕ) → suc k + n ≡ suc (k + n)
suc_add k n = omega arith

take_nil : (n : ℕ) → take n [] ≡ []
take_nil zero = refl
take_nil (suc n) = refl

pub take-add : (k n : ℕ) (x : List ℕ) → take (k + n) x ≡ take k x ++ take n (drop k x)
take-add zero n x = ap (λ m. take m x) (omega arith)
take-add (suc k) n [] = ap (λ m. take m []) (suc_add k n) ∙ sym (take_nil n)
take-add (suc k) n (y ∷ x) =
    ap (λ m. take m (y ∷ x)) (suc_add k n) ∙ ap (λ l. y ∷ l) (take-add k n x)

pub take_whole : (n : ℕ) (x : List ℕ) → length x ≡ n → take n x ≡ x
take_whole n [] h = take_nil n
take_whole zero (y ∷ x) h = absurd (omega (arith, h))
take_whole (suc n) (y ∷ x) h = ap (λ l. y ∷ l) (take_whole n x (omega (arith, h)))

pub Partial-bound : (k : ℕ) (x : List ℕ) (xs : List (List ℕ)) → Partial k (x ∷ xs) → k ≤ length x
Partial-bound zero x xs h = omega arith
Partial-bound (suc k) x xs h = omega (arith, h)

pub Partial-intro : (k : ℕ) (x : List ℕ) (xs : List (List ℕ)) → k < length x → Partial k (x ∷ xs)
Partial-intro zero x xs h = tt
Partial-intro (suc k) x xs h = h

pub Partial-fresh : (xs : List (List ℕ)) → Partial 0 xs
Partial-fresh [] = refl
Partial-fresh (x ∷ xs) = tt

pub part_fresh : (xs : List (List ℕ)) → part 0 xs ≡ []
part_fresh [] = refl
part_fresh (x ∷ xs) = refl

pub force_close_lem :
    (s : Socket)
    → is_type s.socket_type reserve ≡ false
    → (s' : Socket) × (force_close s ≡ some s') × (is_type s'.socket_type invalid ≡ true)
unfolding force_close
force_close_lem s h = elim (Bool-cases (is_type s.socket_type invalid)) [
  | inl e ↦ (s, rw e refl, e)
  | inr e ↦
      (record s { high = []; low = []; socket_type = invalid; dw = none }, rw (e, h) refl, refl)
]

pub total-append : (xs ys : List WriteBuffer) → total (xs ++ ys) ≡ total xs + total ys
total-append [] ys = omega arith
total-append (x ∷ xs) ys = omega (arith, total-append xs ys)
