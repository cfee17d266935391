-- ===== src/Seri/Appends.antt =====
-- What the functions `wb_*` append to the blocks.
use skynet_sy.Common.{
  ℕ, ◌+◌, ◌%◌, ◌^◌, ◌≡◌, ◌≤◌, ◌<◌, refl, sym, ◌∙◌, ap, subst, arith, Bool, true, false, not, Option,
  some, List, [], ◌∷◌, ◌++◌, ◌==◌, if◌then◌else◌, ltb, leb, ◌>>=◌, ◌>>◌, assert, length,
  length-append, le→leb,
}
use skynet_sy.Common.Bits.{bit_or_shifted}
use skynet_sy.Common.Bytes.{le_bytes, append_assoc, append_nil}
use skynet_sy.Seri.Block.{WriteBlock, Written, wb_push, wb_push_lem}
use skynet_sy.Seri.Value.{
  Value, Pairs, nil, boolean, integer, real, pointer, string, table, paired, unsupported, pair,
  skipped,
}
use skynet_sy.Seri.Pack.{
  max_depth, combine_type, tagged, sign_extend, wb_boolean, wb_integer, wb_string, wb_table_size,
}
use skynet_sy.Seri.Emit.{tag, emit_integer, emit_string, emit_size, emit, emit_pairs}

-- `m` appends `more` to what was written.
abbrev pub Packs : (WriteBlock → Option WriteBlock) → List ℕ → Type 0
Packs m more =
    (wb : WriteBlock) (bytes : List ℕ)
    → Written wb bytes
    → length bytes + length more < 2 ^ 31
    → (wb' : WriteBlock) × (m wb ≡ some wb') × Written wb' (bytes ++ more)

pub Packs-push : (more : List ℕ) → Packs (λ wb. wb_push wb more) more
Packs-push more wb bytes w small = wb_push_lem wb bytes more w small

pub Packs-none : Packs (λ wb. some wb) []
Packs-none wb bytes w small = (wb, refl, subst (Written wb) (sym (append_nil bytes)) w)

pub Packs-then :
    (m k : WriteBlock → Option WriteBlock) (xs ys : List ℕ)
    → Packs m xs
    → Packs k ys
    → Packs (λ wb. m wb >>= k) (xs ++ ys)
Packs-then m k xs ys p q wb bytes w small =
    let parts = length-append xs ys in
    let (wb1, run1, w1) = p wb bytes w (omega (arith, small, parts)) in
    let (wb2, run2, w2) =
      q wb1 (bytes ++ xs) w1 (omega (arith, small, parts, length-append bytes xs)) in
    (wb2, rw run1 run2, subst (Written wb2) (append_assoc bytes xs ys) w2)

pub Packs-deep :
    (m : WriteBlock → Option WriteBlock) (xs : List ℕ) (depth : ℕ)
    → depth ≤ max_depth
    → Packs m xs
    → Packs (λ wb. assert (leb depth max_depth) >> m wb) xs
Packs-deep m xs depth l p wb bytes w small = rw (le→leb depth max_depth l) (p wb bytes w small)

Packs-if :
    (b : Bool) (m k : WriteBlock → Option WriteBlock) (xs ys : List ℕ)
    → (b ≡ true → Packs m xs)
    → (b ≡ false → Packs k ys)
    → Packs (λ wb. if b then m wb else k wb) (if b then xs else ys)
Packs-if true m k xs ys p q = p refl
Packs-if false m k xs ys p q = q refl

pub Packs-tagged : (t : ℕ) (more : List ℕ) → Packs (λ wb. tagged wb t more) (t ∷ more)
Packs-tagged t more =
    Packs-then (λ wb. wb_push wb (t ∷ [])) (λ wb. wb_push wb more) (t ∷ []) more
      (Packs-push (t ∷ [])) (Packs-push more)

combine_lem : (t c : ℕ) → t < 8 → c < 32 → combine_type t c ≡ tag t c
combine_lem t c a b =
    ap (λ z. z % 256) (bit_or_shifted 3 c t (omega (arith, a))) ∙ omega (arith, a, b)

pub Packs-integer : (v : ℕ) → Packs (λ wb. wb_integer wb v) (emit_integer v)
unfolding wb_integer emit_integer
Packs-integer v =
    Packs-if (v == 0) _ _ _ _ (λ _. Packs-push (tag 2 0 ∷ []))
      λ _.
        Packs-if (not (v == sign_extend v)) _ _ _ _ (λ _. Packs-tagged (tag 2 6) (le_bytes 8 v))
          λ _.
            Packs-if (leb (2 ^ 63) v) _ _ _ _
              (λ _. Packs-tagged (tag 2 4) (le_bytes 4 (v % 2 ^ 32)))
              λ _.
                Packs-if (ltb v 0x100) _ _ _ _ (λ _. Packs-tagged (tag 2 1) (le_bytes 1 v))
                  λ _.
                    Packs-if (ltb v 0x10000) _ _ _ _ (λ _. Packs-tagged (tag 2 2) (le_bytes 2 v))
                      λ _. Packs-tagged (tag 2 4) (le_bytes 4 v)

-- An empty string is not pushed.
Packs-some : (s : List ℕ) → Packs (λ wb. if ltb 0 (length s) then wb_push wb s else some wb) s
Packs-some [] wb bytes w small = Packs-none wb bytes w small
Packs-some (b ∷ s) wb bytes w small = rw (pos) (Packs-push (b ∷ s) wb bytes w small)
  where
    pos : ltb 0 (length (b ∷ s)) ≡ true
    pos = ground arith

pub Packs-string : (s : List ℕ) → Packs (λ wb. wb_string wb s) (emit_string s)
unfolding wb_string emit_string
Packs-string s =
    Packs-if (ltb (length s) 32) _ _ _ _
      (λ short.
        subst
          (λ t.
            Packs
              (λ wb.
                wb_push wb (t ∷ []) >>= λ wb'. if ltb 0 (length s) then wb_push wb' s else some wb')
              (tag 4 (length s) ∷ s))
          (sym (combine_lem 4 (length s) (omega arith) (ground (arith, short))))
          (Packs-then (λ wb. wb_push wb (tag 4 (length s) ∷ [])) _ (tag 4 (length s) ∷ []) s
            (Packs-push (tag 4 (length s) ∷ [])) (Packs-some s)))
      (λ long. long_string)
  where
    sized :
        Packs
          (λ wb.
            if ltb (length s) 0x10000
            then tagged wb (tag 5 2) (le_bytes 2 (length s))
            else tagged wb (tag 5 4) (le_bytes 4 (length s)))
          (if ltb (length s) 0x10000
            then tag 5 2 ∷ le_bytes 2 (length s)
            else tag 5 4 ∷ le_bytes 4 (length s))
    sized =
        Packs-if (ltb (length s) 0x10000) _ _ _ _
          (λ _. Packs-tagged (tag 5 2) (le_bytes 2 (length s)))
          (λ _. Packs-tagged (tag 5 4) (le_bytes 4 (length s)))

    joined :
        (b : Bool)
        → (if b then tag 5 2 ∷ le_bytes 2 (length s) else tag 5 4 ∷ le_bytes 4 (length s)) ++ s ≡ (
            if b
            then tag 5 2 ∷ (le_bytes 2 (length s) ++ s)
            else tag 5 4 ∷ (le_bytes 4 (length s) ++ s))
    joined true = refl
    joined false = refl

    long_string :
        Packs
          (λ wb.
            (if ltb (length s) 0x10000
              then tagged wb (tag 5 2) (le_bytes 2 (length s))
              else tagged wb (tag 5 4) (le_bytes 4 (length s)))
            >>= λ wb'. wb_push wb' s)
          (if ltb (length s) 0x10000
            then tag 5 2 ∷ (le_bytes 2 (length s) ++ s)
            else tag 5 4 ∷ (le_bytes 4 (length s) ++ s))
    long_string =
        subst (Packs _) (joined (ltb (length s) 0x10000))
          (Packs-then _ (λ wb. wb_push wb s) _ s sized (Packs-push s))

pub Packs-size : (n : ℕ) → Packs (λ wb. wb_table_size wb n) (emit_size n)
unfolding wb_table_size emit_size
Packs-size n =
    Packs-if (leb 31 n) _ _ _ _
      (λ _.
        Packs-then (λ wb. wb_push wb (tag 6 31 ∷ [])) (λ wb. wb_integer wb n) (tag 6 31 ∷ [])
          (emit_integer n) (Packs-push (tag 6 31 ∷ [])) (Packs-integer n))
      (λ few.
        subst (λ t. Packs (λ wb. wb_push wb (t ∷ [])) (tag 6 n ∷ []))
          (sym (combine_lem 6 n (omega arith) (ground (arith, few)))) (Packs-push (tag 6 n ∷ [])))

pub Packs-boolean : (b : Bool) → Packs (λ wb. wb_boolean wb b) (tag 1 (if b then 1 else 0) ∷ [])
unfolding wb_boolean
Packs-boolean true = Packs-push (tag 1 1 ∷ [])
Packs-boolean false = Packs-push (tag 1 0 ∷ [])

pub Packs-skip :
    (b : Bool) (m k : WriteBlock → Option WriteBlock) (xs ys : List ℕ)
    → Packs m xs
    → Packs k ys
    → Packs (λ wb. elim b [ true ↦ m wb | false ↦ k wb ]) (elim b [ true ↦ xs | false ↦ ys ])
Packs-skip true m k xs ys p q = p
Packs-skip false m k xs ys p q = q

-- No key lies in an empty array.
pub not_in_empty : (k : Value) → skipped 0 k ≡ false
not_in_empty (integer x) = ground arith
not_in_empty nil = refl
not_in_empty (boolean b) = refl
not_in_empty (real x) = refl
not_in_empty (pointer x) = refl
not_in_empty (string s) = refl
not_in_empty (table items pairs) = refl
not_in_empty (paired pairs) = refl
not_in_empty unsupported = refl

pub none_skipped :
    (k v : Value) (pairs : Pairs)
    → emit_pairs 0 (pair k v pairs) ≡ emit k ++ (emit v ++ emit_pairs 0 pairs)
unfolding emit
none_skipped k v pairs =
    ap
      (λ (b : Bool). elim b as (λ _. List ℕ) [
        | true ↦ emit_pairs 0 pairs
        | false ↦ emit k ++ (emit v ++ emit_pairs 0 pairs)
      ])
      (not_in_empty k)
