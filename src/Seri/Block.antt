-- ===== src/Seri/Block.antt =====
-- skynet-1.2.0/lualib-src/lua-seri.c: `struct write_block`, a chain of blocks of 128 bytes that are
-- written one after the other, and `seri`, which copies them out.
use native.Mathlib.Decide.{ℕ_discrete}
use skynet_sy.Common.{
  ℕ, zero, suc, ◌+◌, ◌-◌, ◌^◌, add_int, add_int_lem, ◌≡◌, ◌≤◌, ◌<◌, refl, sym, ◌∙◌, ap, subst,
  arith, Option, none, some, List, [], ◌∷◌, ◌++◌, ◌==◌, if◌then◌else◌, ◌>>=◌, ◌>>◌, leb, length,
  length-append, Bool-cases, inl, inr, ==_iff, ==_ne, le→leb, lt→leb_false,
}
use skynet_sy.Common.Bytes.{
  slice, slice_lem, take, drop, take-append-drop, length-take, length-drop, append_assoc,
  append_nil, length_zero, concat, concat-snoc,
}

abbrev pub block_size : ℕ
block_size = 128

-- `full` are the blocks before `current`, which are full, and `current` are the bytes written to
-- the current block: `ptr` is their number.
pub record WriteBlock : Type 0 where
  pub full : List (List ℕ)
  pub current : List ℕ
  pub len : ℕ

abbrev pub blocks : WriteBlock → List (List ℕ)
blocks wb = wb.full ++ wb.current ∷ []

-- b->current = b->current->next = blk_alloc(); b->ptr = 0;
abbrev pub next_block : WriteBlock → WriteBlock
next_block b = record b { full = blocks b; current = [] }

-- From the test of `ptr`, without the test of `len` that `wb_push` makes; the jump to `_again` takes a unit of fuel.
unfoldable pub push_loop : ℕ → WriteBlock → List ℕ → Option WriteBlock
push_loop zero b bytes = none
push_loop (suc fuel) b bytes =
    let copy = block_size - length b.current in
    let filled = record b { current = b.current ++ take copy bytes; len = b.len + copy } in
    let rest = push_loop fuel (next_block filled) (drop copy bytes) in
    if leb (length b.current + length bytes) block_size
    then some (record b { current = b.current ++ bytes; len = b.len + length bytes })
    else rest

-- `len`, an `int`, counts the bytes: it overflows unless the sum is below 2 ^ 31.
unfoldable pub wb_push : WriteBlock → List ℕ → Option WriteBlock
unfolding push_loop
wb_push b bytes =
    add_int b.len (length bytes)
    >> push_loop (suc (length bytes)) (if length b.current == block_size then next_block b else b)
        bytes

unfoldable pub wb_init : WriteBlock
wb_init = record { full = []; current = []; len = 0 }

-- while (len > 0) { … }: the bytes copied; a null block faults
unfoldable pub seri_loop : List (List ℕ) → ℕ → Option (List ℕ)
seri_loop [] len = if len == 0 then some [] else none
seri_loop (b ∷ bs) len =
    let rest = seri_loop bs (len - block_size) in
    if len == 0
    then some []
    else if leb block_size len
    then (slice b 0 block_size >>= λ xs. rest >>= λ ys. some (xs ++ ys))
    else slice b 0 len

unfoldable pub seri : WriteBlock → Option (List ℕ)
unfolding seri_loop
seri b = seri_loop (blocks b) b.len

abbrev pub Full : List (List ℕ) → Type 0
Full [] = Unit
Full (b ∷ bs) = (length b ≡ block_size) × Full bs

-- The chain holds `bytes`.
pub record Written (wb : WriteBlock) (bytes : List ℕ) : Type 0 where
  pub content : concat wb.full ++ wb.current ≡ bytes
  pub full : Full wb.full
  pub fits : length wb.current ≤ block_size
  pub len : wb.len ≡ length bytes

Full-snoc :
    (bs : List (List ℕ)) (b : List ℕ) → Full bs → length b ≡ block_size → Full (bs ++ b ∷ [])
Full-snoc [] b f e = (e, tt)
Full-snoc (c ∷ bs) b f e = (f.0, Full-snoc bs b f.1 e)

next-Written :
    (wb : WriteBlock) (bytes : List ℕ)
    → Written wb bytes
    → length wb.current ≡ block_size
    → Written (next_block wb) bytes
next-Written wb bytes w e = record {
  content = append_nil _ ∙ concat-snoc wb.full wb.current ∙ w.content;
  full = Full-snoc wb.full wb.current w.full e;
  fits = omega arith;
  len = w.len;
}

-- More bytes in the current block.
more-Written :
    (wb : WriteBlock) (bytes more : List ℕ) (n : ℕ)
    → Written wb bytes
    → n ≡ length more
    → length wb.current + n ≤ block_size
    → Written (record wb { current = wb.current ++ more; len = wb.len + n }) (bytes ++ more)
more-Written wb bytes more n w e l = record {
  content = sym (append_assoc (concat wb.full) wb.current more) ∙ ap (λ z. z ++ more) w.content;
  full = w.full;
  fits = omega (arith, e, l, length-append wb.current more);
  len = omega (arith, e, w.len, length-append bytes more);
}

push_loop_lem :
    (fuel : ℕ) (wb : WriteBlock) (bytes more : List ℕ)
    → length more < fuel
    → Written wb bytes
    → length wb.current < block_size
    → (wb' : WriteBlock) × (push_loop fuel wb more ≡ some wb') × Written wb' (bytes ++ more)
unfolding push_loop
push_loop_lem zero wb bytes more h w room = absurd (omega (arith, h))
push_loop_lem (suc fuel) wb bytes more h w room =
    elim (Bool-cases (leb (length wb.current + length more) block_size)) [
      | inl fits ↦
          (_, rw fits refl, more-Written wb bytes more (length more) w refl (ground (arith, fits)))
      | inr over ↦
          let copy = block_size - length wb.current in
          let some_more : copy ≤ length more = ground (arith, over) in
          let (wb', run, w') =
            push_loop_lem fuel
              (next_block
                (record wb { current = wb.current ++ take copy more; len = wb.len + copy }))
              (bytes ++ take copy more) (drop copy more)
              (omega (arith, h, room, some_more, length-drop copy more))
              (next-Written _ (bytes ++ take copy more)
                (more-Written wb bytes (take copy more) copy w
                  (sym (length-take copy more some_more)) (omega (arith, room)))
                (omega (
                  arith,
                  room,
                  length-append wb.current (take copy more),
                  length-take copy more some_more,
                )))
              (omega arith) in
          (
            wb',
            rw over run,
            subst (Written wb')
                (append_assoc bytes (take copy more) (drop copy more)
                  ∙ ap (λ l. bytes ++ l) (take-append-drop copy more))
                w',
          )
    ]

-- On a chain of blocks that holds a sequence of bytes, a push of bytes that makes fewer than 2^31
-- in all ends and gives a chain that holds both, one after the other.
pub wb_push_lem :
    (wb : WriteBlock) (bytes more : List ℕ)
    → Written wb bytes
    → length bytes + length more < 2 ^ 31
    → (wb' : WriteBlock) × (wb_push wb more ≡ some wb') × Written wb' (bytes ++ more)
unfolding wb_push
wb_push_lem wb bytes more w small = elim (Bool-cases (length wb.current == block_size)) [
  | inl at_end ↦
      let (wb', run, w') =
        push_loop_lem (suc (length more)) (next_block wb) bytes more (omega arith)
          (next-Written wb bytes w (ground (arith, at_end))) (omega arith) in
      (wb', rw (fits, at_end) run, w')
  | inr room ↦
      let (wb', run, w') =
        push_loop_lem (suc (length more)) wb bytes more (omega arith) w
          (ground (arith, room, w.fits)) in
      (wb', rw (fits, room) run, w')
]
  where
    fits : add_int wb.len (length more) ≡ some (wb.len + length more)
    fits = add_int_lem wb.len (length more) (omega (arith, w.len, small))

slice_all : (n : ℕ) (xs : List ℕ) → n ≡ length xs → slice xs 0 n ≡ some xs
slice_all n xs e =
    ap (slice xs 0) e ∙ ap (λ l. slice l 0 (length xs)) (sym (append_nil xs)) ∙ slice_lem [] xs []

-- The rounds of the loop.
seri_last :
    (c : List ℕ) (len : ℕ)
    → length c ≤ block_size
    → len ≡ length c
    → seri_loop (c ∷ []) len ≡ some c
unfolding seri_loop
seri_last c len fits e = elim (ℕ_discrete len 0) [
  | yes z ↦ rw ((==_iff len 0).1 z) (ap some (sym (length_zero c (sym e ∙ z))))
  | no pos ↦ elim (ℕ_discrete len block_size) [
    | yes f ↦
        rw
          (
            ==_ne len 0 pos,
            le→leb block_size len (omega (arith, f)),
            slice_all block_size c (sym f ∙ e),
            (==_iff (len - block_size) 0).1 (omega (arith, f)),
          )
          (ap some (append_nil c))
    | no part ↦
        rw
          (
            ==_ne len 0 pos,
            lt→leb_false block_size len (omega (arith, part, fits, e)),
            slice_all len c e,
          )
          refl
  ]
]

seri_step :
    (b : List ℕ) (bs : List (List ℕ)) (len : ℕ) (ys : List ℕ)
    → length b ≡ block_size
    → block_size ≤ len
    → seri_loop bs (len - block_size) ≡ some ys
    → seri_loop (b ∷ bs) len ≡ some (b ++ ys)
unfolding seri_loop
seri_step b bs len ys e l run =
    rw
      (
        ==_ne len 0 (λ z. omega (arith, z, l)),
        le→leb block_size len l,
        slice_all block_size b (sym e),
        run,
      )
      refl

seri_loop_lem :
    (bs : List (List ℕ)) (c : List ℕ) (len : ℕ)
    → Full bs
    → length c ≤ block_size
    → len ≡ length (concat bs ++ c)
    → seri_loop (bs ++ c ∷ []) len ≡ some (concat bs ++ c)
seri_loop_lem [] c len f fits e = seri_last c len fits e
seri_loop_lem (b ∷ bs) c len f fits e =
    let whole =
      length-append b (concat bs ++ c) ∙ ap (λ (n : ℕ). n + length (concat bs ++ c)) f.0 in
    let total : len ≡ block_size + length (concat bs ++ c) =
      e ∙ ap length (append_assoc b (concat bs) c) ∙ whole in
    seri_step b (bs ++ c ∷ []) len (concat bs ++ c) f.0 (omega (arith, total))
      (seri_loop_lem bs c (len - block_size) f.1 fits (omega (arith, total)))
    ∙ ap some (sym (append_assoc b (concat bs) c))

-- What was written is copied out whole.
pub seri_lem : (wb : WriteBlock) (bytes : List ℕ) → Written wb bytes → seri wb ≡ some bytes
unfolding seri
seri_lem wb bytes w =
    seri_loop_lem wb.full wb.current wb.len w.full w.fits (w.len ∙ ap length (sym w.content))
    ∙ ap some w.content
