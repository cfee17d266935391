-- ===== src/Netpack/Fifo.antt =====
-- The ring of lua-netpack.c is a FIFO of packages: `push_data`, which grows it, and `lpop`.
use native.Mathlib.Decide.{dec_lt}
use native.Mathlib.Nat.{mod-lt, mod-add-mod, mod-eq_of_lt, add-zero}
use skynet_sy.Common.{
  ℕ, suc, ◌+◌, ◌-◌, ◌%◌, ◌<◌, ◌≡◌, refl, sym, ◌∙◌, ap, subst, arith, Bool, true, false, Option,
  none, some, List, [], ◌∷◌, ◌++◌, length, length-append, set, length-set, get_elem?-set_self,
  replicate, length-replicate, Cell, store_lem, ==_ne, ==_iff, ltb, ◌==◌, if◌then◌else◌, leb,
  Bool-cases, inl, inr,
}
use skynet_sy.Common.Ring.{
  Window, distance, Window-set, Window-snoc, step-mod, add-mod-ne, add-mod_self, next_index,
  cells_of, length-cells_of, copy_ring, copy_ring_lem, Window-cells_of,
}
use skynet_sy.Netpack.Queue.{
  NetPack, PackQueue, queue_size, get_queue, push_data, expand_queue, lpop, clear_ring,
  clear_chains, lclear, hash_size,
}

-- The ring of `q` holds the packages `ps`, oldest first.
pub record Holds (q : PackQueue) (ps : List NetPack) : Type 0 where
  pub width : length q.queue ≡ q.cap
  pub head_in : q.head < q.cap
  pub room : length ps < q.cap
  pub tail_at : q.tail ≡ (q.head + length ps) % q.cap
  pub window : Window q.queue q.cap q.head ps

pub fresh-Holds : Holds (get_queue none) []
unfolding get_queue
fresh-Holds = record {
  width = length-replicate {0} {A = Cell NetPack} queue_size none;
  head_in = omega arith;
  room = omega arith;
  tail_at = refl;
  window = tt;
}

abbrev pub pack_of : ℕ → List ℕ → NetPack
pack_of fd bytes = record { id = fd; size = length bytes; buffer = bytes }

-- the next index, as `push_data` computes it
next_tail_index : (n t : ℕ) → t < n → (if leb n (t + 1) then t + 1 - n else t + 1) ≡ (t + 1) % n
next_tail_index n t h = elim (Bool-cases (leb n (t + 1))) [
  | inl e ↦ rw e (ground (arith, e, next_index n t h))
  | inr e ↦ rw e (ground (arith, e, next_index n t h))
]

module _ (q : PackQueue) (m : NetPack) (ps : List NetPack) (v : Holds q ps) where
  tail_in : q.tail < q.cap
  tail_in = rw v.tail_at (mod-lt (q.head + length ps) (omega (arith, v.head_in)))

  abbrev written : PackQueue
  written = record q { queue = set q.queue q.tail (some m); tail = (q.tail + 1) % q.cap }

  written-Window : Window written.queue q.cap q.head (ps ++ m ∷ [])
  written-Window =
      Window-snoc _ q.cap q.head q.tail m ps v.head_in v.tail_at
        (get_elem?-set_self q.queue q.tail (some m) (omega (arith, tail_in, v.width)))
        (Window-set q.queue q.cap q.head q.tail (some m) ps v.head_in v.tail_at v.room v.window)

  next_tail : (q.tail + 1) % q.cap ≡ (q.head + suc (length ps)) % q.cap
  next_tail =
      rw v.tail_at (mod-add-mod (q.head + length ps) q.cap 1 ∙ ap (λ t. t % q.cap) (omega arith))

  count : length (ps ++ m ∷ []) ≡ suc (length ps)
  count = length-append ps (m ∷ []) ∙ omega arith

  written-Holds : suc (length ps) < q.cap → Holds written (ps ++ m ∷ [])
  written-Holds room = record {
    width = length-set q.queue q.tail (some m) ∙ v.width;
    head_in = v.head_in;
    room = omega (arith, room, count);
    tail_at = next_tail ∙ ap (λ k. (q.head + k) % q.cap) (sym count);
    window = written-Window;
  }

  abbrev grown : PackQueue
  grown = record {
    cap = q.cap + queue_size;
    head = 0;
    tail = q.cap;
    hash = q.hash;
    queue = cells_of (ps ++ m ∷ []) ++ replicate queue_size none;
  }

  expand_run : suc (length ps) ≡ q.cap → expand_queue written ≡ some grown
  unfolding expand_queue
  expand_run full =
      let n = count ∙ full in
      let run =
        subst
          (λ k.
            copy_ring k 0 written.queue q.head q.cap (replicate (k + queue_size) none)
            ≡ some (cells_of (ps ++ m ∷ []) ++ replicate queue_size none))
          n
          (copy_ring_lem (ps ++ m ∷ []) [] written.queue q.head q.cap queue_size
            (rw start written-Window)) in
      rw run refl
    where
      start : (q.head + 0) % q.cap ≡ q.head
      start = ap (λ t. t % q.cap) (add-zero q.head) ∙ mod-eq_of_lt v.head_in

  grown-Holds : suc (length ps) ≡ q.cap → Holds grown (ps ++ m ∷ [])
  grown-Holds full = record {
    width = omega (
      arith,
      full,
      count,
      length-append (cells_of (ps ++ m ∷ [])) (replicate queue_size none),
      length-cells_of (ps ++ m ∷ []),
      length-replicate {0} {A = Cell NetPack} queue_size none,
    );
    head_in = omega (arith, v.head_in);
    room = omega (arith, full, count);
    tail_at =
        sym (mod-eq_of_lt {n = q.cap} {m = q.cap + queue_size} (omega arith))
        ∙ ap (λ k. k % (q.cap + queue_size)) (omega (arith, full, count));
    window = rw (mod-eq_of_lt {n = 0} {m = q.cap + queue_size} (omega (arith, v.head_in))) at (
        Window-cells_of (ps ++ m ∷ []) [] (replicate queue_size none) (q.cap + queue_size)
          (omega (arith, full, count)));
  }

  -- what `push_data` does once the package is written
  push_run :
      (o : Option PackQueue)
      → get_queue o ≡ q
      → m ≡ pack_of m.id m.buffer
      → push_data o m.id m.buffer
        ≡ (if q.head == (q.tail + 1) % q.cap then expand_queue written else some written)
  unfolding push_data
  push_run o e same =
      rw
        (
          e,
          ← same,
          store_lem q.queue q.tail (some m) (omega (arith, tail_in, v.width)),
          next_tail_index q.cap q.tail tail_in,
        )
        refl

  apart : suc (length ps) < q.cap → q.head == (q.tail + 1) % q.cap ≡ false
  apart room =
      ==_ne q.head ((q.tail + 1) % q.cap)
        (λ e. add-mod-ne q.cap q.head (length ps) v.head_in room (sym next_tail ∙ sym e))

  meets : suc (length ps) ≡ q.cap → q.head == (q.tail + 1) % q.cap ≡ true
  meets full =
      (==_iff q.head ((q.tail + 1) % q.cap)).1 (
        sym (next_tail ∙ ap (λ k. (q.head + k) % q.cap) full ∙ add-mod_self q.cap q.head v.head_in))

-- Where the ring of a queue, or of a fresh one, holds a sequence of packages, the push of a
-- package succeeds and gives a ring that holds the sequence with the package at its end, and the
-- same chains.
pub push_data_lem :
    (o : Option PackQueue) (ps : List NetPack) (fd : ℕ) (bytes : List ℕ)
    → Holds (get_queue o) ps
    → (q' : PackQueue) × (push_data o fd bytes ≡ some q')
      × Holds q' (ps ++ pack_of fd bytes ∷ [])
      × (q'.hash ≡ (get_queue o).hash)
push_data_lem o ps fd bytes v = run (get_queue o) v refl
  where
    run :
        (q : PackQueue) (v : Holds q ps)
        → get_queue o ≡ q
        → (q' : PackQueue) × (push_data o fd bytes ≡ some q')
          × Holds q' (ps ++ pack_of fd bytes ∷ [])
          × (q'.hash ≡ q.hash)
    run q v e = elim (dec_lt (suc (length ps)) q.cap) [
      | yes room ↦ (
        written q (pack_of fd bytes) ps v,
        push_run q (pack_of fd bytes) ps v o e refl
            ∙ rw (apart q (pack_of fd bytes) ps v room) refl,
        written-Holds q (pack_of fd bytes) ps v room,
        refl,
      )
      | no full ↦
          let n : suc (length ps) ≡ q.cap = omega (arith, full, v.room) in
          (
            grown q (pack_of fd bytes) ps v,
            push_run q (pack_of fd bytes) ps v o e refl
                ∙ rw (meets q (pack_of fd bytes) ps v n) (expand_run q (pack_of fd bytes) ps v n),
            grown-Holds q (pack_of fd bytes) ps v n,
            refl,
          )
    ]

-- `lpop` takes the oldest package.
pub lpop_lem :
    (q : PackQueue) (m : NetPack) (ps : List NetPack)
    → Holds q (m ∷ ps)
    → (q' : PackQueue) × (lpop (some q) ≡ some (some m, some q')) × Holds q' ps × (q'.hash ≡ q.hash)
unfolding lpop
lpop_lem q m ps v = (
  record q { head = (q.head + 1) % q.cap },
  rw
      (
        ==_ne q.head q.tail
            (λ e. add-mod-ne q.cap q.head (length ps) v.head_in v.room (sym v.tail_at ∙ sym e)),
        v.window.0,
        next_index q.cap q.head v.head_in,
      )
      refl,
  record {
    width = v.width;
    head_in = omega (arith, v.head_in);
    room = omega (arith, v.room);
    tail_at = v.tail_at ∙ sym (step-mod q.cap q.head (length ps));
    window = v.window.1;
  },
  refl,
)

pub lpop_empty : (q : PackQueue) → Holds q [] → lpop (some q) ≡ some (none, some q)
unfolding lpop
lpop_empty q v =
    rw
      ((==_iff q.head q.tail).1
        (sym (v.tail_at ∙ ap (λ k. k % q.cap) (add-zero q.head) ∙ mod-eq_of_lt v.head_in)))
      refl

if_minus : (b : Bool) (x y z : ℕ) → (if b then x - z else y - z) ≡ (if b then x else y) - z
if_minus true x y z = refl
if_minus false x y z = refl

clear_ring_lem :
    (q : PackQueue) (i : ℕ) (ps : List NetPack)
    → Window q.queue q.cap (i % q.cap) ps
    → clear_ring (length ps) i q ≡ some ps
unfolding clear_ring
clear_ring_lem q i [] w = refl
clear_ring_lem q i (p ∷ ps) w =
    rw (w.0, clear_ring_lem q (i + 1) ps (rw (mod-add-mod i q.cap 1) at w.1)) refl

-- On a queue whose ring holds a sequence of packages, the clearing frees the entries of all chains
-- and exactly these packages, and leaves a queue that holds no package and has empty chains.
pub lclear_lem :
    (q : PackQueue) (ps : List NetPack)
    → Holds q ps
    → (q' : PackQueue) × (lclear (some q) ≡ some (clear_chains hash_size 0 q, (ps, some q')))
      × Holds q' []
      × ((h : ℕ) → q'.hash h ≡ [])
unfolding lclear
lclear_lem q ps v = (
  record q { hash = λ h. []; head = 0; tail = 0 },
  rw (gap, clear_ring_lem q q.head ps (rw (mod-eq_of_lt v.head_in) v.window)) refl,
  record {
    width = v.width;
    head_in = omega (arith, v.head_in);
    room = omega (arith, v.head_in);
    tail_at = sym (mod-eq_of_lt (omega (arith, v.head_in)));
    window = tt;
  },
  λ h. refl,
)
  where
    gap : (if ltb q.tail q.head then q.tail + q.cap else q.tail) - q.head ≡ length ps
    gap =
        sym (if_minus (ltb q.tail q.head) (q.tail + q.cap) q.tail q.head)
        ∙ rw v.tail_at (distance q.cap q.head (length ps) v.head_in v.room)
