-- ===== src/Mq/Chain.antt =====
-- Sequences of queues without repetition, and the links that they make: the abstract global queue.
use skynet_sy.Common.{
  ℕ, ◌≡◌, refl, arith, Bool, true, false, ◌||◌, Option, none, some, List, [], ◌∷◌, ◌++◌, ◌==◌,
  if◌then◌else◌,
}

abbrev pub first : List ℕ → Option ℕ
first [] = none
first (p ∷ ps) = some p

abbrev pub last : List ℕ → Option ℕ
last [] = none
last (p ∷ []) = some p
last (p ∷ q ∷ ps) = last (q ∷ ps)

abbrev pub member : List ℕ → ℕ → Bool
member [] p = false
member (a ∷ ps) p = a == p || member ps p

abbrev pub Distinct : List ℕ → Type 0
Distinct [] = Unit
Distinct (a ∷ ps) = (member ps a ≡ false) × Distinct ps

-- what follows `p`
abbrev pub successor : List ℕ → ℕ → Option ℕ
successor [] p = none
successor (a ∷ ps) p = if a == p then first ps else successor ps p

pub successor_absent : (ps : List ℕ) (p : ℕ) → member ps p ≡ false → successor ps p ≡ none
successor_absent [] p h = refl
successor_absent (a ∷ ps) p h = ground (arith, successor_absent ps p)

pub first-snoc : (a : ℕ) (ps : List ℕ) (p : ℕ) → first ((a ∷ ps) ++ p ∷ []) ≡ some a
first-snoc a ps p = refl

pub last-snoc : (ps : List ℕ) (p : ℕ) → last (ps ++ p ∷ []) ≡ some p
last-snoc [] p = refl
last-snoc (a ∷ []) p = refl
last-snoc (a ∷ b ∷ ps) p = last-snoc (b ∷ ps) p

pub member-snoc : (ps : List ℕ) (p x : ℕ) → member (ps ++ p ∷ []) x ≡ (member ps x || p == x)
member-snoc [] p x = ground arith
member-snoc (a ∷ ps) p x = ground (arith, member-snoc ps p x)

pub Distinct-snoc :
    (ps : List ℕ) (p : ℕ) → Distinct ps → member ps p ≡ false → Distinct (ps ++ p ∷ [])
Distinct-snoc [] p d h = (refl, tt)
Distinct-snoc (a ∷ ps) p d h =
    (ground (arith, member-snoc ps p a), Distinct-snoc ps p d.1 (ground arith))

pub last-member : (ps : List ℕ) (t : ℕ) → last ps ≡ some t → member ps t ≡ true
last-member [] t e = ground arith
last-member (a ∷ []) t e = ground arith
last-member (a ∷ b ∷ ps) t e = ground (arith, last-member (b ∷ ps) t)

pub last-cons : (a : ℕ) (ps : List ℕ) → (t : ℕ) × (last (a ∷ ps) ≡ some t)
last-cons a [] = (a, refl)
last-cons a (b ∷ ps) = last-cons b ps

-- Only the last element gets a new successor at a push.
pub successor-snoc :
    (ps : List ℕ) (t p x : ℕ)
    → Distinct ps
    → last ps ≡ some t
    → member ps p ≡ false
    → successor (ps ++ p ∷ []) x ≡ (if t == x then some p else successor ps x)
successor-snoc [] t p x d e n = cc
successor-snoc (a ∷ []) t p x d e n = ground arith
successor-snoc (a ∷ b ∷ ps) t p x d e n =
    ground (arith, last-member (b ∷ ps) t e, successor-snoc (b ∷ ps) t p x d.1 e (ground arith))
