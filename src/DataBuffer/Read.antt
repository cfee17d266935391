-- ===== src/DataBuffer/Read.antt =====
-- `databuffer_read`: the bytes come out in the order in which they arrived, across the chunks.
use native.Mathlib.Decide.{dec_lt}
use skynet_sy.Common.{
  ℕ, ◌+◌, ◌-◌, ◌≡◌, ◌<◌, refl, sym, ◌∙◌, ap, subst, arith, some, List, [], ◌∷◌, ◌++◌, length,
  length-append, le→leb,
}
use skynet_sy.DataBuffer.Chunks.{Chunk, DataBuffer, MessagePool, read_loop, databuffer_read}
use skynet_sy.Common.Bytes.{slice, slice_lem, split_prefix, length_zero, append_assoc, append_nil}
use skynet_sy.DataBuffer.Rounds.{
  all_bytes, Sized, Inside, Chained, After, one_more, read_part, read_all, read_on,
}

-- The bytes of a slice that starts where the reading stands.
slice_at :
    (c : Chunk) (offset n : ℕ) (seen xs ys : List ℕ)
    → length seen ≡ offset
    → length xs ≡ n
    → c.buffer ≡ seen ++ (xs ++ ys)
    → slice c.buffer offset n ≡ some xs
slice_at c offset n seen xs ys a b e = rw (e, ← a, ← b) (slice_lem seen xs ys)

-- The chunk with the bytes left of it, and what follows.
chunk_rest :
    (c : Chunk) (cs : List Chunk) (offset : ℕ) (bytes : List ℕ) (h : Chained (c ∷ cs) offset bytes)
    → (ms : List ℕ) × (c.buffer ≡ h.seen ++ ms)
      × (bytes ≡ ms ++ all_bytes cs)
      × (length ms ≡ c.size - offset)
chunk_rest c cs offset bytes h =
    let (ms, ec, eb) =
      split_prefix h.seen bytes c.buffer (all_bytes cs) (sym h.content)
        (omega (arith, h.seen_length, h.sized.0, h.inside)) in
    (ms, ec, eb, omega (arith, ap length ec, length-append h.seen ms, h.seen_length, h.sized.0))

at_start : (cs : List Chunk) (bytes : List ℕ) → Sized cs → all_bytes cs ≡ bytes → Chained cs 0 bytes
at_start cs bytes s e = record {
  seen = [];
  seen_length = refl;
  content = e;
  sized = s;
  inside = start cs;
}
  where
    start : (cs : List Chunk) → Inside cs 0
    start [] = refl
    start (c ∷ cs) = omega arith

-- Part of the first chunk was read.
further :
    (c : Chunk) (cs : List Chunk) (offset : ℕ) (xs ys : List ℕ)
    (h : Chained (c ∷ cs) offset (xs ++ ys))
    → length xs < c.size - offset
    → Chained (c ∷ cs) (offset + length xs) ys
further c cs offset xs ys h l = record {
  seen = h.seen ++ xs;
  seen_length = length-append h.seen xs ∙ ap (λ (z : ℕ). z + length xs) h.seen_length;
  content = h.content ∙ sym (append_assoc h.seen xs ys);
  sized = h.sized;
  inside = omega (arith, l, h.inside);
}

read_loop_lem :
    (chain : List Chunk) (db : DataBuffer) (mp : MessagePool) (xs ys : List ℕ)
    → db.chain ≡ chain
    → 0 < length xs
    → Chained chain db.offset (xs ++ ys)
    → (db' : DataBuffer) × (mp' : MessagePool) × (read_loop chain db mp (length xs)
        ≡ some (xs, db', mp'))
      × After db db' mp mp' ys
read_loop_lem [] db mp [] ys at pos h = absurd (omega (arith, pos))
read_loop_lem [] db mp (x ∷ xs) ys at pos h =
    absurd (omega (arith, ap length h.content, length-append h.seen (x ∷ (xs ++ ys))))
read_loop_lem (c ∷ cs) db mp xs ys at pos h =
    let (ms, ec, eb, gap) = chunk_rest c cs db.offset (xs ++ ys) h in
    elim (dec_lt (length xs) (c.size - db.offset)) [
      | yes l ↦
          let (rest, em, ey) = split_prefix xs ys ms (all_bytes cs) eb (omega (arith, l, gap)) in
          (
            record db { offset = db.offset + length xs },
            mp,
            read_part c cs db mp (length xs) h.inside xs l (
                slice_at c db.offset (length xs) h.seen xs rest h.seen_length refl
                  (ec ∙ ap (λ z. h.seen ++ z) em)),
            record {
              chained =
                  subst (λ z. Chained z (db.offset + length xs) ys) (sym at)
                    (further c cs db.offset xs ys h l);
              header = refl;
              size = refl;
              blocks = refl;
              nodes = refl;
            },
          )
      | no ge ↦
          let (later, ex, el) =
            split_prefix ms (all_bytes cs) xs ys (sym eb) (omega (arith, ge, gap)) in
          let whole =
            slice_at c db.offset (c.size - db.offset) h.seen ms [] h.seen_length gap
              (ec ∙ ap (λ z. h.seen ++ z) (sym (append_nil ms))) in
          elim (dec_lt (c.size - db.offset) (length xs)) [
            | yes l ↦
                let (db', mp', run, a) =
                  read_loop_lem cs (record db { offset = 0; chain = cs }) (one_more mp) later ys
                    refl (omega (arith, l, gap, ap length ex, length-append ms later))
                    (at_start cs (later ++ ys) h.sized.1 el) in
                (
                  db',
                  mp',
                  read_on c cs db mp (length xs) h.inside ms later db' mp' l whole at (
                        subst
                          (λ z.
                            read_loop cs (record db { offset = 0; chain = cs }) (one_more mp) z
                            ≡ some (later, db', mp'))
                          (omega (arith, gap, ap length ex, length-append ms later)) run)
                      ∙ ap (λ z. some (z, db', mp')) (sym ex),
                  record {
                    chained = a.chained;
                    header = a.header;
                    size = a.size;
                    blocks = a.blocks;
                    nodes = omega (arith, a.nodes, ap length at);
                  },
                )
            | no le ↦
                let none_later =
                  length_zero later
                    (omega (arith, ge, le, gap, ap length ex, length-append ms later)) in
                let same : ms ≡ xs ++ [] =
                  sym (append_nil ms)
                  ∙ ap (λ z. ms ++ z) (sym none_later)
                  ∙ sym ex
                  ∙ sym (append_nil xs) in
                (
                  record db { offset = 0; chain = cs },
                  one_more mp,
                  read_all c cs db mp (length xs) h.inside xs (omega (arith, ge, le))
                      (slice_at c db.offset (length xs) h.seen xs [] h.seen_length refl
                        (ec ∙ ap (λ z. h.seen ++ z) same))
                      at,
                  record {
                    chained = at_start cs ys h.sized.1 (el ∙ ap (λ z. z ++ ys) none_later);
                    header = refl;
                    size = refl;
                    blocks = refl;
                    nodes = omega (arith, ap length at);
                  },
                )
          ]
    ]

-- The buffer has received `bytes` that were not read.
abbrev pub Received : DataBuffer → List ℕ → Type 0
Received db bytes = Chained db.chain db.offset bytes × (db.size ≡ length bytes)

-- No node of the pool is lost: the nodes of the blocks are free, or in the chain.
abbrev pub SameNodes : DataBuffer → MessagePool → DataBuffer → MessagePool → Type 0
SameNodes db mp db' mp' =
    (mp'.blocks ≡ mp.blocks) × (mp'.freelist + length db'.chain ≡ mp.freelist + length db.chain)

-- From a buffer that has received a list of bytes, the read of a part at its beginning, not empty,
-- succeeds, gives that part, leaves the rest received and the header as it was, and returns the
-- nodes of the chunks read to the pool.
pub databuffer_read_lem :
    (db : DataBuffer) (mp : MessagePool) (xs ys : List ℕ)
    → 0 < length xs
    → Received db (xs ++ ys)
    → (db' : DataBuffer) × (mp' : MessagePool) × (databuffer_read db mp (length xs)
        ≡ some (xs, db', mp'))
      × Received db' ys
      × (db'.header ≡ db.header)
      × SameNodes db mp db' mp'
unfolding databuffer_read
databuffer_read_lem db mp xs ys pos (h, size) =
    let (db', mp', run, a) =
      read_loop_lem db.chain (record db { size = db.size - length xs }) mp xs ys refl pos h in
    let total = length-append xs ys in
    (
      db',
      mp',
      simp (le→leb (length xs) db.size (omega (arith, size, total)), run),
      (a.chained, omega (arith, a.size, size, total)),
      a.header,
      (a.blocks, a.nodes),
    )
