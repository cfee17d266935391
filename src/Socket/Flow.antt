-- ===== src/Socket/Flow.antt =====
-- What a TCP connection promises of the packages given to it: they are written whole, one after the
-- other, those of low priority only when no other waits.
use skynet_sy.Common.{
  ℕ, zero, suc, ◌≤◌, ◌<◌, ◌≡◌, refl, ap, subst, arith, Bool, true, false, Option, none, some, List,
  [], ◌∷◌, ◌++◌, length,
}
use skynet_sy.Common.Bytes.{take}

-- The packages written, the one that is being written, those that wait by their priority, and the
-- requests on the way to the socket thread.
pub record Flow : Type 0 where
  pub out : List (List ℕ)
  pub cur : Option (List ℕ)
  pub high : List (List ℕ)
  pub low : List (List ℕ)
  pub pipe : List (Bool × List ℕ)

infix 40 ◌⟶◌ ◌⟶*◌
pub data ◌⟶◌ : Flow → Flow → Type 0 where
  accept_high :
      (a : Flow) (x : List ℕ) (ps : List (Bool × List ℕ))
      → a.pipe ≡ (true, x) ∷ ps
      → a ⟶ record a { pipe = ps; high = a.high ++ x ∷ [] }
  accept_low :
      (a : Flow) (x : List ℕ) (ps : List (Bool × List ℕ))
      → a.pipe ≡ (false, x) ∷ ps
      → a ⟶ record a { pipe = ps; low = a.low ++ x ∷ [] }
  -- a package of low priority that no other of low priority waits before
  accept_first :
      (a : Flow) (x : List ℕ) (ps : List (Bool × List ℕ))
      → a.pipe ≡ (false, x) ∷ ps
      → a.low ≡ []
      → a ⟶ record a { pipe = ps; high = a.high ++ x ∷ [] }
  begin_high :
      (a : Flow) (x : List ℕ) (xs : List (List ℕ))
      → a.cur ≡ none
      → a.high ≡ x ∷ xs
      → a ⟶ record a { cur = some x; high = xs }
  begin_low :
      (a : Flow) (x : List ℕ) (xs : List (List ℕ))
      → a.cur ≡ none
      → a.high ≡ []
      → a.low ≡ x ∷ xs
      → a ⟶ record a { cur = some x; low = xs }
  finish :
      (a : Flow) (x : List ℕ) → a.cur ≡ some x → a ⟶ record a { out = a.out ++ x ∷ []; cur = none }

-- A package is given with a priority: as a request, or written at once where no other is on its way.
pub data Gives (p : Bool × List ℕ) : Flow → Flow → Type 0 where
  submit : (a : Flow) → Gives p a (record a { pipe = a.pipe ++ p ∷ [] })
  direct_write :
      (a : Flow)
      → a.cur ≡ none
      → a.high ≡ []
      → a.low ≡ []
      → a.pipe ≡ []
      → p.0 ≡ true
      → Gives p a (record a { high = p.1 ∷ [] })

pub data ◌⟶*◌ : Flow → Flow → Type 0 where
  here : {a : Flow} → a ⟶* a
  next : {a b c : Flow} → a ⟶ b → b ⟶* c → a ⟶* c

-- The packages before `k` bytes of the first are written
abbrev pub part : ℕ → List (List ℕ) → List ℕ
part k [] = []
part k (x ∷ xs) = take k x

-- No byte of the first package is written, or some and not all.
abbrev pub Partial : ℕ → List (List ℕ) → Type 0
Partial k [] = k ≡ 0
Partial zero (x ∷ xs) = Unit
Partial (suc k) (x ∷ xs) = suc k < length x

-- The flow where `items` wait with high priority, `k` bytes of the first written.
abbrev pub flow : List (List ℕ) → ℕ → List (List ℕ) → List (List ℕ) → List (Bool × List ℕ) → Flow
flow out zero items low pipe = record {
  out = out;
  cur = none;
  high = items;
  low = low;
  pipe = pipe;
}
flow out (suc k) [] low pipe = record { out = out; cur = none; high = []; low = low; pipe = pipe }
flow out (suc k) (x ∷ xs) low pipe = record {
  out = out;
  cur = some x;
  high = xs;
  low = low;
  pipe = pipe;
}

append_nil : (xs : List (List ℕ)) → xs ++ [] ≡ xs
append_nil [] = refl
append_nil (x ∷ xs) = ap (λ l. x ∷ l) (append_nil xs)

append_one :
    (xs : List (List ℕ)) (y : List ℕ) (ys : List (List ℕ)) → (xs ++ y ∷ []) ++ ys ≡ xs ++ y ∷ ys
append_one [] y ys = refl
append_one (x ∷ xs) y ys = ap (λ l. x ∷ l) (append_one xs y ys)

module _ (low : List (List ℕ)) (pipe : List (Bool × List ℕ)) where
  -- `k` bytes of the first, and more of it
  grow :
      (k k' : ℕ) (out items : List (List ℕ))
      → k ≤ k'
      → Partial k' items
      → flow out k items low pipe ⟶* flow out k' items low pipe
  grow zero zero out items l v = here
  grow zero (suc k') out [] l v = here
  grow zero (suc k') out (x ∷ xs) l v =
      next (begin_high (flow out 0 (x ∷ xs) low pipe) x xs refl refl) here
  grow (suc k) zero out items l v = absurd (omega (arith, l))
  grow (suc k) (suc k') out [] l v = here
  grow (suc k) (suc k') out (x ∷ xs) l v = here

  whole :
      (k : ℕ) (out : List (List ℕ)) (x : List ℕ) (xs : List (List ℕ)) (b : Flow)
      → flow (out ++ x ∷ []) 0 xs low pipe ⟶* b
      → flow out k (x ∷ xs) low pipe ⟶* b
  whole zero out x xs b rest =
      next (begin_high (flow out 0 (x ∷ xs) low pipe) x xs refl refl)
        (next (finish (flow out 1 (x ∷ xs) low pipe) x refl) rest)
  whole (suc k) out x xs b rest = next (finish (flow out (suc k) (x ∷ xs) low pipe) x refl) rest

  -- The packages `done` are written, and `k'` bytes of the next.
  pub write_high :
      (done : List (List ℕ)) (k k' : ℕ) (out items : List (List ℕ))
      → Partial k' items
      → (done ≡ [] → k ≤ k')
      → flow out k (done ++ items) low pipe ⟶* flow (out ++ done) k' items low pipe
  write_high [] k k' out items v l = rw (append_nil out) (grow k k' out items (l refl) v)
  write_high (x ∷ done) k k' out items v l = whole k out x (done ++ items) _ (
      subst (λ z. flow (out ++ x ∷ []) 0 (done ++ items) low pipe ⟶* flow z k' items low pipe)
        (append_one out x done) (write_high done 0 k' (out ++ x ∷ []) items v (λ e. omega arith)))

  -- Packages of low priority, where no other waits
  pub write_low :
      (done : List (List ℕ)) (out items : List (List ℕ))
      → flow out 0 [] (done ++ items) pipe ⟶* flow (out ++ done) 0 [] items pipe
  write_low [] out items = rw (append_nil out) here
  write_low (x ∷ done) out items =
      next (begin_low (flow out 0 [] (x ∷ (done ++ items)) pipe) x (done ++ items) refl refl refl) (
        next
          (finish (record { out = out; cur = some x; high = []; low = done ++ items; pipe = pipe })
            x refl)
          (subst (λ z. flow (out ++ x ∷ []) 0 [] (done ++ items) pipe ⟶* flow z 0 [] items pipe)
            (append_one out x done) (write_low done (out ++ x ∷ []) items)))

pub ⟶*-trans : {a b c : Flow} → a ⟶* b → b ⟶* c → a ⟶* c
⟶*-trans here q = q
⟶*-trans (next s p) q = next s (⟶*-trans p q)

-- A request is taken from the pipe.
module _ (out : List (List ℕ)) (x : List ℕ) (ps : List (Bool × List ℕ)) where
  pub take_high :
      (k : ℕ) (items low : List (List ℕ))
      → Partial k items
      → flow out k items low ((true, x) ∷ ps) ⟶* flow out k (items ++ x ∷ []) low ps
  take_high zero items low v =
      next (accept_high (flow out 0 items low ((true, x) ∷ ps)) x ps refl) here
  take_high (suc k) [] low v = absurd (omega (arith, v))
  take_high (suc k) (y ∷ items) low v =
      next (accept_high (flow out (suc k) (y ∷ items) low ((true, x) ∷ ps)) x ps refl) here

  pub take_first :
      (k : ℕ) (items : List (List ℕ))
      → Partial k items
      → flow out k items [] ((false, x) ∷ ps) ⟶* flow out k (items ++ x ∷ []) [] ps
  take_first zero items v =
      next (accept_first (flow out 0 items [] ((false, x) ∷ ps)) x ps refl refl) here
  take_first (suc k) [] v = absurd (omega (arith, v))
  take_first (suc k) (y ∷ items) v =
      next (accept_first (flow out (suc k) (y ∷ items) [] ((false, x) ∷ ps)) x ps refl refl) here

  pub take_low :
      (k : ℕ) (items low : List (List ℕ))
      → flow out k items low ((false, x) ∷ ps) ⟶* flow out k items (low ++ x ∷ []) ps
  take_low zero items low =
      next (accept_low (flow out 0 items low ((false, x) ∷ ps)) x ps refl) here
  take_low (suc k) [] low =
      next (accept_low (flow out (suc k) [] low ((false, x) ∷ ps)) x ps refl) here
  take_low (suc k) (y ∷ items) low =
      next (accept_low (flow out (suc k) (y ∷ items) low ((false, x) ∷ ps)) x ps refl) here

pub put :
    (out : List (List ℕ)) (k : ℕ) (items low : List (List ℕ)) (pipe : List (Bool × List ℕ))
    (p : Bool × List ℕ)
    → Gives p (flow out k items low pipe) (flow out k items low (pipe ++ p ∷ []))
put out zero items low pipe p = submit (flow out 0 items low pipe)
put out (suc k) [] low pipe p = submit (flow out (suc k) [] low pipe)
put out (suc k) (y ∷ items) low pipe p = submit (flow out (suc k) (y ∷ items) low pipe)

module _ (out : List (List ℕ)) (x : List ℕ) (pipe : List (Bool × List ℕ)) where
  pub put_direct : pipe ≡ [] → Gives (true, x) (flow out 0 [] [] pipe) (flow out 0 (x ∷ []) [] pipe)
  put_direct e = direct_write (flow out 0 [] [] pipe) refl refl refl e refl

  -- A direct write of `k` bytes of a package
  pub write_direct : (k : ℕ) → flow out 0 (x ∷ []) [] pipe ⟶* flow out k (x ∷ []) [] pipe
  write_direct zero = here
  write_direct (suc k) = next (begin_high (flow out 0 (x ∷ []) [] pipe) x [] refl refl) here

  pub write_whole : flow out 0 (x ∷ []) [] pipe ⟶* flow (out ++ x ∷ []) 0 [] [] pipe
  write_whole = ⟶*-trans (write_direct 1) (next (finish (flow out 1 (x ∷ []) [] pipe) x refl) here)
