-- ===== src/Common/Fault.antt =====
-- Runs that may fault: `none` is a failed assert, a read outside an array or of memory that
-- nothing has written, a dereferenced null pointer, or a signed overflow.
use Prim.Native.Nat.{ℕ, ◌+◌, ◌*◌, ◌^◌, ◌<◌}
use mathlib.Core.Path.{◌≡◌, refl}
use mathlib.Core.Bool.{Bool, true, false}
use mathlib.Core.List.{List}
use mathlib.Core.Option.{Option, none, some}
use skynet_sy.Common.Tests.{ltb, if◌then◌else◌, lt→ltb}
use skynet_sy.Common.Lists.{length, get_elem?, set}

infixl 5 ◌>>=◌ ◌>>◌
abbrev pub ◌>>=◌ {ℓ κ} : {A : Type ℓ} {B : Type κ} → Option A → (A → Option B) → Option B
none >>= f = none
some a >>= f = f a

abbrev pub ◌>>◌ {ℓ κ} : {A : Type ℓ} {B : Type κ} → Option A → Option B → Option B
m >> k = m >>= λ _. k

-- assert(b)
abbrev pub assert : Bool → Option (Unit {0})
assert true = some tt
assert false = none

-- p == NULL
abbrev pub is_null {ℓ} : {A : Type ℓ} → Option A → Bool
is_null none = true
is_null (some p) = false

-- A cell of memory from malloc: `none` until it is written.
abbrev pub Cell {ℓ} : Type ℓ → Type ℓ
Cell A = Option A

-- a[i], where the cell must have been written
abbrev pub load {ℓ} : {A : Type ℓ} → List (Cell A) → ℕ → Option A
load cells i = get_elem? cells i >>= λ c. c

-- a[i] = v
abbrev pub store {ℓ} : {A : Type ℓ} → List A → ℕ → A → Option (List A)
store cells i v = if ltb i (length cells) then some (set cells i v) else none

-- the product of two `int`s that are not negative
abbrev pub mul_int : ℕ → ℕ → Option ℕ
mul_int a b = if ltb (a * b) (2 ^ 31) then some (a * b) else none

-- their sum
abbrev pub add_int : ℕ → ℕ → Option ℕ
add_int a b = if ltb (a + b) (2 ^ 31) then some (a + b) else none

pub add_int_lem : (a b : ℕ) → a + b < 2 ^ 31 → add_int a b ≡ some (a + b)
add_int_lem a b h = rw (lt→ltb (a + b) (2 ^ 31) h) refl

pub store_lem {ℓ} :
    {A : Type ℓ} (cells : List A) (i : ℕ) (v : A)
    → i < length cells
    → store cells i v ≡ some (set cells i v)
store_lem cells i v h = rw (lt→ltb i (length cells) h)
